-- ===== src/Atomicfile.antt =====
-- core/atomicfile/atomicfile.go: a file is staged beside its target, flushed and renamed over it.
-- The operating system is the argument `Faults`, which says what each call does, and `World`, the
-- files of the directory with every state that the directory was in. `os.CreateTemp` names a file
-- that nobody else uses, so one staged file is enough.
pub mod Install
use bacchus.Shared.{
  ℕ, List, [], ◌∷◌, Bool, true, false, ◌&&◌, Option, some, none, Bytes, take, if◌then◌else◌, Result,
  ok, err,
}

pub record File : Type 0 where
  pub content : Bytes
  pub mode : ℕ
  -- Its bytes and mode have reached the medium.
  pub flushed : Bool

-- `target` is what a reader finds at the path, and `durable` what a power loss may bring back.
pub record Disk : Type 0 where
  pub target : Option File
  pub staged : Option File
  pub durable : Option File

pub record World : Type 0 where
  pub disk : Disk
  -- Every state of the directory so far, the latest first.
  pub trace : List Disk

-- What the calls do: `true` is an error. A failed write leaves the first `written` bytes.
pub record Faults : Type 0 where
  pub create : Bool
  pub write : Bool
  pub written : ℕ
  pub chmod : Bool
  pub sync : Bool
  pub close : Bool
  pub rename : Bool
  pub remove : Bool
  pub open_dir : Bool
  pub sync_dir : Bool
  -- Windows has no directory flush: there `syncDirHandle` does nothing and reports success.
  pub flushes_directories : Bool

pub data Error : Type 0 where
  stage_failed write_failed install_failed open_dir_failed sync_dir_failed : Error

-- An action runs in the world and returns `error`.
abbrev pub Action : Type 0
Action = World → Result Error (Unit {0}) × World

infixl 5 ◌>>◌
abbrev pub ◌>>◌ : Action → Action → Action
◌>>◌ m k w = let (r, w') = m w in elim r [ ok u ↦ k w' | err e ↦ (err e, w') ]

-- One system call: the directory moves to a new state, whether or not the call succeeds.
abbrev pub call : Bool → Error → (Disk → Disk) → (Disk → Disk) → Action
call fails e on_error on_success w =
    let d = if fails then on_error w.disk else on_success w.disk in
    (if fails then err e else ok tt, record { disk = d; trace = d ∷ w.trace })

abbrev pub unchanged : Disk → Disk
unchanged d = d

abbrev pub stage : Option File → Disk → Disk
stage f d = record d { staged = f }

abbrev pub fill : Faults → Bytes → ℕ → Action
fill f b perm = do
  call f.write write_failed
      (stage (some (record { content = take f.written b; mode = 0o600; flushed = false })))
      (stage (some (record { content = b; mode = 0o600; flushed = false })))
  call f.chmod write_failed unchanged
      (stage (some (record { content = b; mode = perm; flushed = false })))
  call f.sync write_failed unchanged
      (stage (some (record { content = b; mode = perm; flushed = true })))

-- The rename replaces what readers see; the medium keeps the old entry until the directory is
-- flushed.
abbrev pub install : Disk → Disk
install d = record d { target = d.staged; staged = none }

-- `defer os.Remove(staged)`: its error is dropped.
abbrev pub remove_staged : Faults → World → World
remove_staged f w =
    let d = if f.remove then w.disk else record w.disk { staged = none } in
    record { disk = d; trace = d ∷ w.trace }

abbrev pub after_create : Faults → Bytes → ℕ → Action
after_create f b perm = do
  fill f b perm
  call f.close write_failed unchanged unchanged
  call f.rename install_failed unchanged install

abbrev pub deferring : Faults → Action → Action
deferring f m w = let (r, w') = m w in (r, remove_staged f w')

unfoldable pub write : Faults → Bytes → ℕ → Action
write f b perm = do
  call f.create stage_failed unchanged
      (stage (some (record { content = []; mode = 0o600; flushed = false })))
  deferring f (after_create f b perm)

unfoldable pub sync_dir : Faults → Action
sync_dir f = do
  call f.open_dir open_dir_failed unchanged unchanged
  call (f.flushes_directories && f.sync_dir) sync_dir_failed unchanged
      (λ d. if f.flushes_directories then record d { durable = d.target } else d)

unfoldable pub write_durable : Faults → Bytes → ℕ → Action
write_durable f b perm = do write f b perm; sync_dir f
