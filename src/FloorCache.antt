-- ===== src/FloorCache.antt =====
-- The state file that keeps a rollback floor beside the last bundle: core/policy/cache.go (a floor
-- of sequence numbers) and core/revocation/cache.go (a floor of times), which are the same code over
-- two types. `encoding/json` is the record `Json`; the reading and writing calls of the operating
-- system are `fails` and `Faults`.
pub mod Ratchet
use bacchus.Shared.{
  ℕ, List, [], Bool, true, false, not, Option, none, some, Bytes, length, ltb, ◌==◌, if◌then◌else◌,
  ℤ, pos, eqb_ℤ, Result, ok, err,
}
use bacchus.Atomicfile
use bacchus.Atomicfile.{Disk, File, Faults, World}
use bacchus.Atomicfile.Install.{put}

pub record CacheFile : Type 0 where
  pub version : ℤ
  pub floor : ℕ
  pub bundle : Bytes

pub record Json : Type 0 where
  pub encode : CacheFile → Option Bytes
  pub decode : Bytes → Option CacheFile

pub data Error (E : Type 0) : Type 0 where
  read_failed parse_failed unsupported_state marshal_failed persist_failed : Error E
  bundle_refused : E → Error E

-- `os.ReadFile`: the file may be absent, and reading it may fail.
pub data Contents : Type 0 where
  missing failed : Contents
  bytes : Bytes → Contents

abbrev contents_of : Option File → Contents
contents_of none = missing
contents_of (some f) = bytes f.content

abbrev pub read_file : Bool → Disk → Contents
read_file fails d = if fails then failed else contents_of d.target

-- Go's zero value.
abbrev pub empty_file : CacheFile
empty_file = record { version = pos 0; floor = 0; bundle = [] }

-- The floor and the file that `peek` reports, for what was read.
abbrev peek_file : Option CacheFile → ℕ × CacheFile
peek_file none = (0, empty_file)
peek_file (some f) = if eqb_ℤ f.version (pos 1) then (f.floor, f) else (f.floor, empty_file)

abbrev peek_contents : Json → Contents → ℕ × CacheFile
peek_contents j missing = (0, empty_file)
peek_contents j failed = (0, empty_file)
peek_contents j (bytes b) = peek_file (j.decode b)

unfoldable pub peek : Json → Bool → Disk → ℕ × CacheFile
peek j fails d = peek_contents j (read_file fails d)

abbrev persisted :
    {E : Type 0} → Result Atomicfile.Error (Unit {0}) × World → Result (Error E) (Unit {0}) × Disk
persisted (ok u, w) = (ok tt, w.disk)
persisted (err e, w) = (err persist_failed, w.disk)

-- A raised floor is written durably. 0600.
unfoldable pub write_atomic :
    {E : Type 0} → Faults → Bytes → Bool → Disk → Result (Error E) (Unit {0}) × Disk
write_atomic f b raises_floor d = persisted (put raises_floor f b 0o600 d)

-- `MarshalIndent`, then the write.
abbrev save :
    {E : Type 0} → Json → Faults → CacheFile → Bool → Disk → Result (Error E) (Unit {0}) × Disk
save j f file raises d = elim (j.encode file) [
  | none ↦ (err marshal_failed, d)
  | some b ↦ write_atomic f b raises d
]

unfoldable pub store :
    {E : Type 0} → Json → Bool → Faults → Bytes → ℕ → Disk → Result (Error E) (Unit {0}) × Disk
store j fails f raw floor d =
    let prev = (peek j fails d).0 in
    let raises = ltb prev floor in
    let kept = if ltb floor prev then prev else floor in
    save j f (record { version = pos 1; floor = kept; bundle = raw }) raises d

unfoldable pub store_floor :
    {E : Type 0} → Json → Bool → Faults → ℕ → Disk → Result (Error E) (Unit {0}) × Disk
store_floor j fails f floor d =
    let (prev, file) = peek j fails d in
    let raises = ltb prev floor in
    let kept = if ltb floor prev then prev else floor in
    save j f (record file { version = pos 1; floor = kept }) raises d

-- The floor, the document if there is one, and the error if there is one.
abbrev pub Loaded : Type 0 → Type 0 → Type 0
Loaded E D = ℕ × Option D × Option (Error E)

abbrev load_bundle : {E D : Type 0} → ℕ → Result E D → Loaded E D
load_bundle floor (ok d) = (floor, some d, none)
load_bundle floor (err e) = (floor, none, some (bundle_refused e))

-- `open_bundle` parses a bundle and verifies it against the floor.
abbrev load_file : {E D : Type 0} → (Bytes → ℕ → Result E D) → Option CacheFile → Loaded E D
load_file open_bundle none = (0, none, some parse_failed)
load_file open_bundle (some f) =
    if not (eqb_ℤ f.version (pos 1))
    then (f.floor, none, some unsupported_state)
    else if length f.bundle == 0
    then (f.floor, none, none)
    else load_bundle f.floor (open_bundle f.bundle f.floor)

abbrev load_contents : {E D : Type 0} → Json → (Bytes → ℕ → Result E D) → Contents → Loaded E D
load_contents j open_bundle missing = (0, none, none)
load_contents j open_bundle failed = (0, none, some read_failed)
load_contents j open_bundle (bytes b) = load_file open_bundle (j.decode b)

unfoldable pub load : {E D : Type 0} → Json → (Bytes → ℕ → Result E D) → Bool → Disk → Loaded E D
load j open_bundle fails d = load_contents j open_bundle (read_file fails d)
