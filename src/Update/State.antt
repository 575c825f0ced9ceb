-- ===== src/Update/State.antt =====
-- core/update/state.go: the file that keeps the floor of manifest sequences and the artifact that is
-- staged. A name stands for a staged path.
pub mod Floor
use bacchus.Shared.{
  ℕ, List, [], Bool, true, false, not, Option, none, some, Bytes, length, ltb, ◌==◌, if◌then◌else◌,
  ℤ, pos, eqb_ℤ, Result, ok, err, map_err,
}
use bacchus.Atomicfile
use bacchus.Atomicfile.{Disk, File, Faults, World}
use bacchus.Atomicfile.Install.{put}
use bacchus.Update.Manifest.{Artifact}

pub record Pending : Type 0 where
  pub release : Bytes
  pub seq : ℕ
  pub artifact : Artifact
  pub staged : Bytes

pub record StateFile : Type 0 where
  pub version : ℤ
  pub min_seq : ℕ
  pub applied_release : Bytes
  pub pending : Option Pending

pub record Json : Type 0 where
  pub encode : StateFile → Option Bytes
  pub decode : Bytes → Option StateFile

pub data StateError : Type 0 where
  read_failed parse_failed unsupported_state marshal_failed : StateError
  install_failed : Atomicfile.Error → StateError

abbrev pub zero_state : StateFile
zero_state = record { version = pos 0; min_seq = 0; applied_release = []; pending = none }

abbrev read_decoded : Option StateFile → StateFile × Option StateError
read_decoded none = (zero_state, some parse_failed)
read_decoded (some f) =
    if not (eqb_ℤ f.version (pos 1))
    then (record zero_state { min_seq = f.min_seq }, some unsupported_state)
    else (f, none)

abbrev read_file : Json → Option File → StateFile × Option StateError
read_file j none = (zero_state, none)
read_file j (some f) = read_decoded (j.decode f.content)

unfoldable pub read : Json → Bool → Disk → StateFile × Option StateError
read j fails d = if fails then (zero_state, some read_failed) else read_file j d.target

abbrev pub pending_unless : StateFile × Option StateError → ℕ × Option Pending × Option StateError
pending_unless (f, none) = (f.min_seq, f.pending, none)
pending_unless (f, some e) = (f.min_seq, none, some e)

unfoldable pub load : Json → Bool → Disk → ℕ × Option Pending × Option StateError
unfolding read
load j fails d = pending_unless (read j fails d)

abbrev installed : Result Atomicfile.Error (Unit {0}) × World → Result StateError (Unit {0}) × Disk
installed (r, w) = (map_err install_failed r, w.disk)

abbrev write_encoded : Option Bytes → Faults → Bool → Disk → Result StateError (Unit {0}) × Disk
write_encoded none f raises_floor d = (err marshal_failed, d)
write_encoded (some b) f raises_floor d = installed (put raises_floor f b 0o600 d)

unfoldable pub write : Json → Faults → StateFile → Bool → Disk → Result StateError (Unit {0}) × Disk
write j f file raises_floor d =
    write_encoded (j.encode (record file { version = pos 1 })) f raises_floor d

unfoldable pub raise_floor : Json → Bool → Faults → ℕ → Disk → Result StateError (Unit {0}) × Disk
raise_floor j fails f seq d =
    let file = (read j fails d).0 in
    let raises = ltb file.min_seq seq in
    write j f (if raises then record file { min_seq = seq } else file) raises d

unfoldable pub set_pending :
    Json → Bool → Faults → Pending → Disk → Result StateError (Unit {0}) × Disk
set_pending j fails f p d =
    let file = (read j fails d).0 in
    let raises = ltb file.min_seq p.seq in
    let raised = if raises then record file { min_seq = p.seq } else file in
    write j f (record raised { pending = some p }) raises d

unfoldable pub clear_pending :
    Json → Bool → Faults → Bytes → Disk → Result StateError (Unit {0}) × Disk
clear_pending j fails f applied d =
    let file = record (read j fails d).0 { pending = none } in
    write j f (if length applied == 0 then file else record file { applied_release = applied })
      false d
