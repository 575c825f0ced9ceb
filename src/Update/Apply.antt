-- ===== src/Update/Apply.antt =====
-- core/update/apply.go, and the marker of state.go: a verified artifact replaces the binary, the old
-- one is kept beside it, and a release that never confirms is taken back. What each call of the
-- operating system does is an argument; `encode` and `decode` are JSON and `sha` is SHA-256. The
-- trace holds every state of the directory, the latest first, so a crash is a state in it.
pub mod Crash
pub mod Probation
pub mod Windows
pub mod Target
use bacchus.Shared.{
  ℕ, List, [], ◌∷◌, ◌++◌, map, Bool, true, false, not, ◌||◌, Option, none, some, String, Bytes,
  bytes_eq, if◌then◌else◌, Result, ok, err, map_err,
}
use bacchus.Atomicfile
use bacchus.Atomicfile.{Disk, File, Faults, World}
use bacchus.Atomicfile.Install.{start}
use bacchus.Update.Manifest
use bacchus.Update.Manifest.{Artifact, verify_artifact}

pub record Marker : Type 0 where
  pub release : Bytes
  pub previous : String
  pub artifact : Bytes
  pub started : Bool

pub record Platform : Type 0 where
  pub sha : Bytes → Bytes
  pub encode : Marker → Option Bytes
  pub decode : Bytes → Option Marker

-- The directory of a binary: what stands at `target` and at `target.prev`, the staged artifacts by
-- digest, and the file of the marker.
pub record Site : Type 0 where
  pub target : Option Bytes
  pub previous : Option Bytes
  pub staged : Bytes → Option Bytes
  pub marker : Disk

pub record Trail : Type 0 where
  pub site : Site
  pub trace : List Site

-- `true` is an error of that call.
pub record ApplyFaults : Type 0 where
  pub reopen : Bool
  pub marker : Faults
  pub stat_target : Bool
  pub move_aside : Bool
  pub publish : Bool
  pub restore : Bool
  pub remove_marker : Bool

pub data ApplyError : Type 0 where
  reopen_failed marshal_failed stat_failed move_aside_failed publish_failed restore_failed :
      ApplyError
  refused : Manifest.Error → ApplyError
  marker_failed : Atomicfile.Error → ApplyError

-- `target + ".prev"`, as the marker names it.
abbrev pub previous_path : String
previous_path = "target.prev"

abbrev pub verify_content : Platform → Artifact → Option Bytes → Result ApplyError (Unit {0})
verify_content p a none = err reopen_failed
verify_content p a (some content) = map_err refused (verify_artifact p.sha a content)

unfoldable pub verify_file :
    Platform → Bool → Artifact → Option Bytes → Result ApplyError (Unit {0})
verify_file p fails a file = if fails then err reopen_failed else verify_content p a file

abbrev pub goes : Site → Trail → Trail
goes s t = record { site = s; trace = s ∷ t.trace }

-- The states of the marker's file, as states of the directory.
abbrev pub with_marker : Site → Disk → Site
with_marker s d = record s { marker = d }

abbrev marker_written :
    Trail → Result Atomicfile.Error (Unit {0}) × World → Result ApplyError (Unit {0}) × Trail
marker_written t (r, w) = (
  map_err marker_failed r,
  record { site = with_marker t.site w.disk; trace = map (with_marker t.site) w.trace ++ t.trace },
)

abbrev write_encoded : Faults → Option Bytes → Trail → Result ApplyError (Unit {0}) × Trail
write_encoded f none t = (err marshal_failed, t)
write_encoded f (some b) t =
    marker_written t (Atomicfile.write_durable f b 0o600 (start t.site.marker))

unfoldable pub write_marker :
    Platform → Faults → Marker → Trail → Result ApplyError (Unit {0}) × Trail
write_marker p f m t = write_encoded f (p.encode m) t

abbrev pub unmarked : Site → Site
unmarked s = record s { marker = record s.marker { target = none } }

-- `_ = os.Remove(MarkerPath(target))`
unfoldable pub remove_marker : Bool → Trail → Trail
remove_marker fails t = if fails then t else goes (unmarked t.site) t

abbrev pub moved_aside : Site → Site
moved_aside s = record s { target = none; previous = s.target }

abbrev pub moved_back : Site → Site
moved_back s = record s { target = s.previous; previous = none }

abbrev pub published : Bytes → Site → Site
published name s = record s {
  target = s.staged name;
  staged = λ n. if bytes_eq n name then none else s.staged n;
}

-- The rename of the staged file onto the target, and the way back if it fails.
abbrev publish : ApplyFaults → Bytes → Bool → Trail → Result ApplyError (Unit {0}) × Trail
publish f name aside t =
    if not f.publish
    then (ok tt, goes (published name t.site) t)
    else if not aside
    then (err publish_failed, remove_marker f.remove_marker t)
    else if f.restore
    then (err restore_failed, t)
    else (err publish_failed, remove_marker f.remove_marker (goes (moved_back t.site) t))

abbrev replace_target :
    ApplyFaults → Bytes → Option Bytes → Trail → Result ApplyError (Unit {0}) × Trail
replace_target f name none t = publish f name false t
replace_target f name (some old) t =
    if f.move_aside
    then (err move_aside_failed, remove_marker f.remove_marker t)
    else publish f name true (goes (moved_aside t.site) t)

abbrev after_marker :
    ApplyFaults
    → Bytes
    → Result ApplyError (Unit {0}) × Trail
    → Result ApplyError (Unit {0}) × Trail
after_marker f name (err e, t) = (err e, remove_marker f.remove_marker t)
after_marker f name (ok _, t) =
    if f.stat_target
    then (err stat_failed, remove_marker f.remove_marker t)
    else replace_target f name t.site.target t

abbrev pub marker_for : Artifact → Bytes → Marker
marker_for a release = record {
  release = release;
  previous = previous_path;
  artifact = a.sha256;
  started = false;
}

abbrev after_verify :
    Platform
    → ApplyFaults
    → Bytes
    → Artifact
    → Bytes
    → Trail
    → Result ApplyError (Unit {0})
    → Result ApplyError (Unit {0}) × Trail
after_verify p f name a release t (err e) = (err e, t)
after_verify p f name a release t (ok _) =
    after_marker f name (write_marker p f.marker (marker_for a release) t)

-- `name` stands for the path of the staged file.
unfoldable pub apply :
    Platform → ApplyFaults → Bytes → Artifact → Bytes → Trail → Result ApplyError (Unit {0}) × Trail
unfolding write_marker remove_marker
apply p f name a release t =
    after_verify p f name a release t (verify_file p f.reopen a (t.site.staged name))

-- `readMarker`: a marker that does not parse is one, with nothing in it.
abbrev zero_marker : Marker
zero_marker = record { release = []; previous = ""; artifact = []; started = false }

abbrev or_zero : Option Marker → Marker
or_zero none = zero_marker
or_zero (some m) = m

abbrev read_content : Platform → Option File → Option Marker
read_content p none = none
read_content p (some f) = some (or_zero (p.decode f.content))

pub data StartupError : Type 0 where
  read_failed clear_failed demote_failed demoted : StartupError
  claim_failed : ApplyError → StartupError

unfoldable pub read_marker : Platform → Bool → Site → Result StartupError (Option Marker)
read_marker p fails s = if fails then err read_failed else ok (read_content p s.marker.target)

pub record StartupFaults : Type 0 where
  pub read : Bool
  pub stat_previous : Bool
  pub marker : Faults
  pub demote : Bool
  pub remove_marker : Bool

unfoldable pub clear_marker : Bool → Site → Result StartupError (Unit {0}) × Site
clear_marker fails s = if fails then (err clear_failed, s) else (ok tt, unmarked s)

abbrev pub unstarted_kept : Bool → Site → Option Marker → Result StartupError (Unit {0}) × Site
unstarted_kept remove_fails s none = (ok tt, s)
unstarted_kept remove_fails s (some m) =
    if not m.started then (ok tt, s) else clear_marker remove_fails s

abbrev confirm_read :
    Bool → Site → Result StartupError (Option Marker) → Result StartupError (Unit {0}) × Site
confirm_read remove_fails s (err e) = (err e, s)
confirm_read remove_fails s (ok m) = unstarted_kept remove_fails s m

unfoldable pub confirm : Platform → Bool → Bool → Site → Result StartupError (Unit {0}) × Site
unfolding clear_marker read_marker
confirm p read_fails remove_fails s = confirm_read remove_fails s (read_marker p read_fails s)

abbrev claimed : Result ApplyError (Unit {0}) × Trail → Result StartupError (Unit {0}) × Site
claimed (r, t) = (map_err claim_failed r, t.site)

-- `rename(prev, target)` onto what stands there.
abbrev pub demoted_site : Site → Site
demoted_site s = record s { target = s.previous; previous = none }

abbrev demotion_cleared :
    Result StartupError (Unit {0}) × Site → Result StartupError (Unit {0}) × Site
demotion_cleared (ok _, s) = (err demoted, s)
demotion_cleared (err e, s) = (err e, s)

abbrev demote : StartupFaults → Site → Result StartupError (Unit {0}) × Site
demote f s =
    if f.demote
    then (err demote_failed, s)
    else demotion_cleared (clear_marker f.remove_marker (demoted_site s))

abbrev is_missing : Option Bytes → Bool
is_missing none = true
is_missing (some b) = false

abbrev on_marker :
    Platform → StartupFaults → Site → Option Marker → Result StartupError (Unit {0}) × Site
on_marker p f s none = (ok tt, s)
on_marker p f s (some m) =
    if f.stat_previous || is_missing s.previous
    then clear_marker f.remove_marker s
    else if not m.started
    then claimed
        (write_marker p f.marker (record m { started = true }) (record { site = s; trace = [] }))
    else demote f s

abbrev on_read :
    Platform
    → StartupFaults
    → Site
    → Result StartupError (Option Marker)
    → Result StartupError (Unit {0}) × Site
on_read p f s (err e) = (err e, s)
on_read p f s (ok m) = on_marker p f s m

unfoldable pub check_startup :
    Platform → StartupFaults → Site → Result StartupError (Unit {0}) × Site
unfolding write_marker clear_marker read_marker
check_startup p f s = on_read p f s (read_marker p f.read s)
