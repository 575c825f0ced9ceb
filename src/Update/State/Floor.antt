-- ===== src/Update/State/Floor.antt =====
-- The calls of state.go in core/update, and the floor that each leaves on disk.
use Prim.Native.Nat.{max}
use bacchus.Shared.{
  ℕ, ◌≤◌, List, [], ◌∷◌, Bool, true, false, ◌≡◌, ◌⊎◌, inl, inr, refl, Option, none, some, Bytes,
  arith, pos, Result, ok, err, length, ltb, ◌==◌, if◌then◌else◌,
}
use bacchus.Atomicfile
use bacchus.Atomicfile.{Disk, File, Faults, World}
use bacchus.Atomicfile.Install.{new_file, put, put_target}
use bacchus.Update.State.{
  Pending, StateFile, Json, StateError, zero_state, pending_unless, load, read, installed,
  write_encoded, write, raise_floor, set_pending, clear_pending,
}

-- What the code relies on of `encoding/json`: a state that was encoded decodes to itself.
abbrev pub IsJson : Json → Type 0
IsJson j = (f : StateFile) (b : Bytes) → j.encode f ≡ some b → j.decode b ≡ some f

abbrev pub floor_on : Json → Disk → ℕ
floor_on j d = (read j false d).0.min_seq

-- A write leaves the floor alone or makes it that of the state written, and success means the latter.
abbrev Writes : Json → ℕ → Disk → Result StateError (Unit {0}) × Disk → Type 0
Writes j floor d (r, d') =
    ((floor_on j d' ≡ floor_on j d) ⊎ (floor_on j d' ≡ floor)) × (r ≡ ok tt → floor_on j d' ≡ floor)

module _ (j : Json) (json : IsJson j) where
  floor_on_same : (d d' : Disk) → d'.target ≡ d.target → floor_on j d' ≡ floor_on j d
  unfolding read
  floor_on_same d d' e = ground arith

  floor_on_new :
      (file : StateFile) (b : Bytes) (d : Disk)
      → j.encode (record file { version = pos 1 }) ≡ some b
      → d.target ≡ some (new_file b 0o600)
      → floor_on j d ≡ file.min_seq
  unfolding read
  floor_on_new file b d e t = ground (arith, json (record file { version = pos 1 }) b e)

  installed_lem :
      (file : StateFile) (b : Bytes) (d : Disk) (out : Result Atomicfile.Error (Unit {0}) × World)
      → j.encode (record file { version = pos 1 }) ≡ some b
      → ((out.1.disk.target ≡ d.target) ⊎ (out.1.disk.target ≡ some (new_file b 0o600)))
      → (out.0 ≡ ok tt → out.1.disk.target ≡ some (new_file b 0o600))
      → Writes j file.min_seq d (installed out)
  installed_lem file b d (ok _, w) e target done =
      let new = floor_on_new file b w.disk e (done refl) in (inr new, λ h. new)
  installed_lem file b d (err x, w) e (inl same) done =
      (inl (floor_on_same d w.disk same), λ h. ground arith)
  installed_lem file b d (err x, w) e (inr new) done =
      (inr (floor_on_new file b w.disk e new), λ h. ground arith)

  write_encoded_lem :
      (f : Faults) (file : StateFile) (raises : Bool) (d : Disk) (o : Option Bytes)
      → j.encode (record file { version = pos 1 }) ≡ o
      → Writes j file.min_seq d (write_encoded o f raises d)
  write_encoded_lem f file raises d none e = (inl refl, λ h. ground arith)
  write_encoded_lem f file raises d (some b) e =
      let (target, done) = put_target raises f b 0o600 d in
      installed_lem file b d (put raises f b 0o600 d) e target done

  write_lem :
      (f : Faults) (file : StateFile) (raises : Bool) (d : Disk)
      → Writes j file.min_seq d (write j f file raises d)
  unfolding write
  write_lem f file raises d =
      write_encoded_lem f file raises d (j.encode (record file { version = pos 1 })) refl

  pub raise_floor_lem :
      (f : Faults) (seq : ℕ) (d : Disk)
      → let (r, d') = raise_floor j false f seq d in
        (floor_on j d ≤ floor_on j d') × (r ≡ ok tt → floor_on j d' ≡ max (floor_on j d) seq)
  unfolding raise_floor
  raise_floor_lem f seq d =
      let file = (read j false d).0 in
      let raises = ltb file.min_seq seq in
      let w = write_lem f (if raises then record file { min_seq = seq } else file) raises d in
      (ground (arith, w), λ h. ground (arith, w))

  pub set_pending_lem :
      (f : Faults) (p : Pending) (d : Disk)
      → let (r, d') = set_pending j false f p d in floor_on j d ≤ floor_on j d'
  unfolding set_pending
  set_pending_lem f p d =
      let file = (read j false d).0 in
      let raises = ltb file.min_seq p.seq in
      let raised : StateFile = if raises then record file { min_seq = p.seq } else file in
      let w = write_lem f (record raised { pending = some p }) raises d in ground (arith, w)

  pub clear_pending_lem :
      (f : Faults) (applied : Bytes) (d : Disk)
      → floor_on j (clear_pending j false f applied d).1 ≡ floor_on j d
  unfolding clear_pending
  clear_pending_lem f applied d =
      let file : StateFile = record (read j false d).0 { pending = none } in
      let w =
        write_lem f
          (if length applied == 0 then file else record file { applied_release = applied }) false
          d in
      ground (arith, w)

-- The calls that write the file, each with what the operating system does in it.
pub data Op : Type 0 where
  raising : Faults → ℕ → Op
  staging : Faults → Pending → Op
  clearing : Faults → Bytes → Op

unfoldable pub step : Json → Op → Disk → Result StateError (Unit {0}) × Disk
step j (raising f seq) d = raise_floor j false f seq d
step j (staging f p) d = set_pending j false f p d
step j (clearing f applied) d = clear_pending j false f applied d

unfoldable pub run : Json → List Op → Disk → Disk
run j [] d = d
run j (o ∷ os) d = run j os (step j o d).1

pending_unless_floor : (r : StateFile × Option StateError) → (pending_unless r).0 ≡ r.0.min_seq
pending_unless_floor (file, none) = refl
pending_unless_floor (file, some e) = refl

pub load-floor_on : (j : Json) (d : Disk) → (load j false d).0 ≡ floor_on j d
unfolding load
load-floor_on j d = pending_unless_floor (read j false d)

module _ (j : Json) (json : IsJson j) where
  step_keeps : (o : Op) (d : Disk) → floor_on j d ≤ floor_on j (step j o d).1
  unfolding step
  step_keeps (raising f seq) d = (raise_floor_lem j json f seq d).0
  step_keeps (staging f p) d = set_pending_lem j json f p d
  step_keeps (clearing f applied) d = ground (arith, clear_pending_lem j json f applied d)

  run_keeps : (os : List Op) (d : Disk) → floor_on j d ≤ floor_on j (run j os d)
  unfolding run
  run_keeps [] d = omega arith
  run_keeps (o ∷ os) d = omega (arith, step_keeps o d, run_keeps os (step j o d).1)

  -- Once `RaiseFloor` reported no error for a sequence, the floor on disk is at least that sequence
  -- after any later calls of `RaiseFloor`, `SetPending` and `ClearPending`, whatever they fail with,
  -- as long as each can read the file.
  pub raised_floor_stays :
      (f : Faults) (seq : ℕ) (d : Disk) (os : List Op)
      → (raise_floor j false f seq d).0 ≡ ok tt
      → seq ≤ (load j false (run j os (raise_floor j false f seq d).1)).0
  unfolding load
  raised_floor_stays f seq d os h =
      let (_, raised) = raise_floor_lem j json f seq d in
      let later = run_keeps os (raise_floor j false f seq d).1 in
      let e = load-floor_on j (run j os (raise_floor j false f seq d).1) in
      ground (arith, raised h, later, e)

  -- A `ClearPending` that cannot read a file that stands there and reports no error leaves a file
  -- that any later read takes for one with floor 0 and nothing pending.
  pub clear_unread_forgets :
      (f : Faults) (applied : Bytes) (d : Disk)
      → (clear_pending j true f applied d).0 ≡ ok tt
      → floor_on j (clear_pending j true f applied d).1 ≡ 0
  unfolding clear_pending read
  clear_unread_forgets f applied d h =
      let file : StateFile = record zero_state { pending = none } in
      let w =
        write_lem j json f
          (if length applied == 0 then file else record file { applied_release = applied }) false
          d in
      ground (arith, w)
