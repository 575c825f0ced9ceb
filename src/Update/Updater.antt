-- ===== src/Update/Updater.antt =====
-- core/update/updater.go, and `Stage` of apply.go: what a check for a newer release is given and says,
-- the staging of an artifact and its publication. What the source serves, what the clock and the gate say and what
-- each call of the operating system does are arguments. The temporary file of `Stage` has a fresh
-- name and is not part of the directory; the staged path of an artifact stands for its digest.
pub mod Check
pub mod Target
pub mod News
pub mod Floor
pub mod Rollback
use bacchus.Shared.{
  ℕ, suc, List, [], ◌++◌, Bool, true, false, not, ◌&&◌, ◌||◌, Option, none, some, String, Bytes,
  length, take, ltb, ◌==◌, if◌then◌else◌, bytes_eq, ℤ, pos, eqb_ℤ, ltb_ℤ, Result, ok, err, map_err,
}
use bacchus.Atomicfile
use bacchus.Atomicfile.{Disk, Faults}
use bacchus.Version
use bacchus.Version.{Version, compare_to}
use bacchus.Update.Manifest
use bacchus.Update.Manifest.{Artifact, Manifest, find, read_limit}
use bacchus.Update.Bundle
use bacchus.Update.Apply
use bacchus.Update.Apply.{Site, Trail, ApplyFaults, ApplyError, verify_file, apply}
use bacchus.Update.State.{Pending, StateError, load, raise_floor, set_pending, clear_pending}
use bacchus.Update.State

pub record Platform : Type 0 where
  pub bundle : Bundle.Platform
  pub apply : Apply.Platform
  pub state : State.Json

-- `stamp` is the release that the linker stamped the build with, if it did.
pub record Config : Type 0 where
  pub verifier : Bundle.Verifier
  pub os : String
  pub arch : String
  pub role : String
  pub defer : Bool
  pub current_release : Bytes
  pub stamp : Option Version

pub data StageError : Type 0 where
  create_failed fetch_failed download_failed close_source_failed chmod_failed sync_failed
        close_failed rename_failed :
      StageError
  size_differs : StageError
  not_verified : ApplyError → StageError

pub data Error : Type 0 where
  unstamped fetch_manifest_failed bad_release no_pending : Error
  bad_current_release : Version.Error → Error
  refused : Manifest.Error → Error
  stage_failed : StageError → Error
  state_failed : StateError → Error
  apply_failed : ApplyError → Error

pub record Outcome : Type 0 where
  pub release : Bytes
  pub up_to_date : Bool
  pub no_artifact : Bool
  pub staged : Option Bytes
  pub applied : Bool
  pub deferred : Bool
  pub gated : Bool

-- `serve` is what the source answers for an artifact; `reread` is what stands on the disk after a
-- download was written to it.
pub record StageFaults : Type 0 where
  pub create : Bool
  pub serve : Artifact → Option Bytes
  pub copy : Bool
  pub close_source : Bool
  pub chmod : Bool
  pub sync : Bool
  pub close : Bool
  pub reopen : Bool
  pub reread : Bytes → Bytes
  pub rename : Bool

-- What happens outside during one call. `gate` is `none` where no gate is configured, and `true` where
-- it refuses; a `read_` field is whether that read of the state file fails.
pub record Events : Type 0 where
  pub gate : Option Bool
  pub manifest : Option Bytes
  pub now : ℕ
  pub reopen_staged : Bool
  pub stage : StageFaults
  pub apply : ApplyFaults
  pub read_load : Bool
  pub read_raise : Bool
  pub read_pending : Bool
  pub read_clear : Bool
  pub raise : Faults
  pub pending : Faults
  pub clear : Faults
  pub remove_staged : Bool

-- The directory of the binary with the states that an apply takes it through, and the state file.
pub record Host : Type 0 where
  pub trail : Trail
  pub state : Disk

abbrev pub Run : Type 0
Run = (Outcome × Option Error) × Host

abbrev pub no_outcome : Outcome
no_outcome = record {
  release = [];
  up_to_date = false;
  no_artifact = false;
  staged = none;
  applied = false;
  deferred = false;
  gated = false;
}

abbrev pub staged_path : Artifact → Bytes
staged_path a = a.sha256

abbrev pub with_staged : Site → Bytes → Option Bytes → Site
with_staged s name file = record s { staged = λ n. if bytes_eq n name then file else s.staged n }

abbrev staged_at :
    Artifact → Bytes → Site → Result ApplyError (Unit {0}) → Bool → Result StageError Bytes × Site
staged_at a content s (err e) rename = (err (not_verified e), s)
staged_at a content s (ok _) rename =
    if rename
    then (err rename_failed, s)
    else (ok (staged_path a), with_staged s (staged_path a) (some content))

abbrev downloaded :
    Apply.Platform → StageFaults → Artifact → Bytes → Site → Result StageError Bytes × Site
downloaded p f a got s =
    if f.copy
    then (err download_failed, s)
    else if f.close_source
    then (err close_source_failed, s)
    else if not (eqb_ℤ (pos (length got)) a.size)
    then (err size_differs, s)
    else if f.chmod
    then (err chmod_failed, s)
    else if f.sync
    then (err sync_failed, s)
    else if f.close
    then (err close_failed, s)
    else staged_at a (f.reread got) s (verify_file p f.reopen a (some (f.reread got))) f.rename

abbrev served :
    Apply.Platform → StageFaults → Artifact → Option Bytes → Site → Result StageError Bytes × Site
served p f a none s = (err fetch_failed, s)
served p f a (some content) s = downloaded p f a (take (read_limit a.size) content) s

unfoldable pub stage :
    Apply.Platform → StageFaults → Artifact → Site → Result StageError Bytes × Site
stage p f a s = if f.create then (err create_failed, s) else served p f a (f.serve a) s

-- The release that this build is.
abbrev stamped : Option Version → Result Error Version
stamped none = err unstamped
stamped (some v) = ok v

unfoldable pub self : Config → Result Error Version
self c =
    if length c.current_release == 0
    then stamped c.stamp
    else map_err bad_current_release (Version.parse c.current_release)

abbrev pub follows : Trail → Trail → Trail
follows t before = record { site = t.site; trace = t.trace ++ before.trace }

abbrev pub publish_applied :
    State.Json → Events → Bytes → Outcome → Host → Result ApplyError (Unit {0}) × Trail → Run
publish_applied j e release out h (err x, t) =
    ((out, some (apply_failed x)), record h { trail = follows t h.trail })
publish_applied j e release out h (ok _, t) = (
  (record out { applied = true; deferred = false }, none),
  record {
    trail = follows t h.trail;
    state = (clear_pending j e.read_clear e.clear release h.state).1;
  },
)

unfoldable pub publish : Platform → Events → Outcome → Bytes → Artifact → Bytes → Host → Run
publish p e out name a release h =
    publish_applied p.state e release out h
      (apply p.apply e.apply name a release (record { site = h.trail.site; trace = [] }))
