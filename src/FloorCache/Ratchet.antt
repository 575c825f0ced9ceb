-- ===== src/FloorCache/Ratchet.antt =====
-- The rollback floor on disk only ratchets, while the file can be read: whatever is stored, in any
-- order, and whichever writes fail.
use Prim.Native.Nat.{max}
use bacchus.Shared.{
  ℕ, ◌≤◌, ◌<◌, List, [], ◌∷◌, Bool, true, false, ◌≡◌, ◌⊎◌, inl, inr, refl, none, some, Bytes, arith,
  pos, Result, ok, err, ltb, if◌then◌else◌, Result-cases, Option-cases, Result-cases,
}
use bacchus.Atomicfile
use bacchus.Atomicfile.{Disk, File, Faults, World}
use bacchus.Atomicfile.Install.{new_file, put, put_target}
use bacchus.FloorCache.{
  CacheFile, Json, Error, peek, store, store_floor, write_atomic, save, persisted, load,
}

-- What the code relies on of `encoding/json`: a state file that was encoded decodes, with the same
-- version and floor.
pub record IsJson (j : Json) : Type 0 where
  pub round_trip :
      (f : CacheFile) (b : Bytes)
      → j.encode f ≡ some b
      → (g : CacheFile) × (j.decode b ≡ some g) × (g.version ≡ f.version) × (g.floor ≡ f.floor)

-- The floor that a reader finds on this disk.
abbrev pub floor_on : Json → Disk → ℕ
floor_on j d = (peek j false d).0

module _ (j : Json) (json : IsJson j) where
  peek_new_file :
      (f : CacheFile) (b : Bytes) (d : Disk)
      → j.encode f ≡ some b
      → f.version ≡ pos 1
      → d.target ≡ some (new_file b 0o600)
      → floor_on j d ≡ f.floor
  unfolding peek
  peek_new_file f b d e v t = let (g, dec, ver, fl) = json.round_trip f b e in ground arith

-- A write leaves the file alone or installs the new one, and reports success only if it did.
write_atomic_cases :
    {E : Type 0} (f : Faults) (b : Bytes) (raises : Bool) (d : Disk)
    → let (r, d') = write_atomic {E = E} f b raises d in
      ((d'.target ≡ d.target) ⊎ (d'.target ≡ some (new_file b 0o600)))
      × (r ≡ ok tt → d'.target ≡ some (new_file b 0o600))
unfolding write_atomic
write_atomic_cases {E} f b raises d = go (put raises f b 0o600 d) (put_target raises f b 0o600 d)
  where
    go :
        (out : Result Atomicfile.Error (Unit {0}) × World)
        → ((out.1.disk.target ≡ d.target) ⊎ (out.1.disk.target ≡ some (new_file b 0o600)))
          × (out.0 ≡ ok tt → out.1.disk.target ≡ some (new_file b 0o600))
        → let (r, d') = persisted {E = E} out in
          ((d'.target ≡ d.target) ⊎ (d'.target ≡ some (new_file b 0o600)))
          × (r ≡ ok tt → d'.target ≡ some (new_file b 0o600))
    go (ok tt, w) h = (h.0, λ e. h.1 refl)
    go (err e, w) h = (h.0, λ e'. cc)

-- Of a file that is saved: the floor on disk stays or becomes the file's, and success means that it
-- became the file's.
abbrev Kept : Json → ℕ → Disk → Disk → Type 0
Kept j floor d d' = (floor_on j d' ≡ floor_on j d) ⊎ (floor_on j d' ≡ floor)

module _ (j : Json) (json : IsJson j) where
  floor_on_same : (d d' : Disk) → d'.target ≡ d.target → floor_on j d' ≡ floor_on j d
  unfolding peek
  floor_on_same d d' e = ground arith

  save_floor :
      {E : Type 0} (f : Faults) (file : CacheFile) (raises : Bool) (d : Disk)
      → file.version ≡ pos 1
      → let (r, d') = save {E = E} j f file raises d in
        Kept j file.floor d d' × (r ≡ ok tt → floor_on j d' ≡ file.floor)
  save_floor {E} f file raises d v = elim (Option-cases (j.encode file)) [
    | inl e ↦ rw (e, save) (inl refl, λ h. cc)
    | inr (b, e) ↦
        rw (e, save) (written b e (write_atomic f b raises d) (write_atomic_cases f b raises d))
  ]
    where
      written :
          (b : Bytes) (e : j.encode file ≡ some b) (out : Result (Error E) (Unit {0}) × Disk)
          → ((out.1.target ≡ d.target) ⊎ (out.1.target ≡ some (new_file b 0o600)))
            × (out.0 ≡ ok tt → out.1.target ≡ some (new_file b 0o600))
          → Kept j file.floor d out.1 × (out.0 ≡ ok tt → floor_on j out.1 ≡ file.floor)
      written b e (r, d') (inl same, done) =
          (inl (floor_on_same d d' same), λ h. peek_new_file j json file b d' e v (done h))
      written b e (r, d') (inr new, done) = (
        inr (peek_new_file j json file b d' e v new),
        λ h. peek_new_file j json file b d' e v new,
      )

  -- `Store` never lowers the floor on disk, whichever writes fail, where the state file can be read;
  -- and if it reports success the floor is the greater of the old one and the one stored.
  pub store_ratchets :
      {E : Type 0} (f : Faults) (raw : Bytes) (floor : ℕ) (d : Disk)
      → let (r, d') = store {E = E} j false f raw floor d in
        (floor_on j d ≤ floor_on j d') × (r ≡ ok tt → floor_on j d' ≡ max (floor_on j d) floor)
  unfolding store
  store_ratchets {E} f raw floor d =
      let prev = floor_on j d in
      let kept = if ltb floor prev then prev else floor in
      let h =
        save_floor {E = E} f (record { version = pos 1; floor = kept; bundle = raw })
          (ltb prev floor) d refl in
      (ground (arith, h), λ e. ground (arith, h))

  -- `StoreFloor` never lowers the floor on disk either, and leaves the greater of the two if it
  -- reports success.
  pub store_floor_ratchets :
      {E : Type 0} (f : Faults) (floor : ℕ) (d : Disk)
      → let (r, d') = store_floor {E = E} j false f floor d in
        (floor_on j d ≤ floor_on j d') × (r ≡ ok tt → floor_on j d' ≡ max (floor_on j d) floor)
  unfolding store_floor
  store_floor_ratchets {E} f floor d =
      let (prev, file) = peek j false d in
      let kept = if ltb floor prev then prev else floor in
      let h =
        save_floor {E = E} f (record file { version = pos 1; floor = kept }) (ltb prev floor) d
          refl in
      (ground (arith, h), λ e. ground (arith, h))

-- A history of the file: what is stored, and what the operating system does.
pub data Op : Type 0 where
  stores : Faults → Bytes → ℕ → Op
  raises : Faults → ℕ → Op

unfoldable pub step : Json → Disk → Op → Disk
step j d (stores f raw floor) = (store {E = Unit {0}} j false f raw floor d).1
step j d (raises f floor) = (store_floor {E = Unit {0}} j false f floor d).1

unfoldable pub run : Json → Disk → List Op → Disk
run j d [] = d
run j d (o ∷ os) = run j (step j d o) os

-- Whatever is stored, in any order and with any failures of the writes, the floor on disk never
-- falls while the state file can be read.
pub run_ratchets :
    (j : Json) (json : IsJson j) (d : Disk) (os : List Op) → floor_on j d ≤ floor_on j (run j d os)
unfolding run step
run_ratchets j json d [] = omega arith
run_ratchets j json d (stores f raw floor ∷ os) = omega (
  arith,
  (store_ratchets j json {E = Unit {0}} f raw floor d).0,
  run_ratchets j json (store {E = Unit {0}} j false f raw floor d).1 os,
)
run_ratchets j json d (raises f floor ∷ os) = omega (
  arith,
  (store_floor_ratchets j json {E = Unit {0}} f floor d).0,
  run_ratchets j json (store_floor {E = Unit {0}} j false f floor d).1 os,
)

-- What `Load` hands out was opened against the floor on disk.
pub load_opened :
    {E D : Type 0} (j : Json) (open_bundle : Bytes → ℕ → Result E D) (d : Disk) (n : ℕ) (x : D)
    → load j open_bundle false d ≡ (n, some x, none)
    → (b : Bytes) × (open_bundle b n ≡ ok x) × (n ≡ floor_on j d)
unfolding load peek
load_opened {E} {D} j open_bundle d n x h = elim (Option-cases d.target) [
  | inl none_there ↦ ground arith
  | inr (file, there) ↦ elim (Option-cases (j.decode file.content)) [
    | inl unparsed ↦ ground arith
    | inr (g, parsed) ↦ ground_bundle g parsed there (Result-cases (open_bundle g.bundle g.floor))
  ]
]
  where
    ground_bundle :
        {file : File} (g : CacheFile)
        → j.decode file.content ≡ some g
        → d.target ≡ some file
        → ((y : D) × (open_bundle g.bundle g.floor ≡ ok y))
          ⊎ ((e : E) × (open_bundle g.bundle g.floor ≡ err e))
        → (b : Bytes) × (open_bundle b n ≡ ok x) × (n ≡ floor_on j d)
    ground_bundle g parsed there (inl (y, opened)) = (g.bundle, ground arith, ground arith)
    ground_bundle g parsed there (inr (e, refused)) = ground arith

-- A file that could not be read is taken to hold no floor: a successful `Store` then writes the
-- floor it is given, also below the one that the file holds.
pub store_unread_lowers :
    (j : Json) (json : IsJson j) {E : Type 0} (f : Faults) (raw : Bytes) (floor : ℕ) (d : Disk)
    → floor < floor_on j d
    → (store {E = E} j true f raw floor d).0 ≡ ok tt
    → floor_on j (store {E = E} j true f raw floor d).1 < floor_on j d
unfolding store peek
store_unread_lowers j json {E} f raw floor d low h =
    let kept = if ltb floor 0 then 0 else floor in
    let s =
      save_floor j json {E = E} f (record { version = pos 1; floor = kept; bundle = raw })
        (ltb 0 floor) d refl in
    let e : floor_on j (store {E = E} j true f raw floor d).1 ≡ kept = s.1 h in ground (arith, e)
