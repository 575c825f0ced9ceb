-- ===== src/Update/Updater/Check.antt =====
-- core/update/updater.go: `Check` and `ApplyPending`, in the order of their calls.
use bacchus.Shared.{
  ℕ, [], Bool, true, false, not, ◌&&◌, Option, none, some, Bytes, if◌then◌else◌, bytes_eq, pos,
  ltb_ℤ, Result, ok, err,
}
use bacchus.Atomicfile.{Disk}
use bacchus.Version
use bacchus.Version.{Version, compare_to}
use bacchus.Update.Manifest
use bacchus.Update.Manifest.{Artifact, Manifest, find, read_limit}
use bacchus.Update.Bundle
use bacchus.Update.Apply
use bacchus.Update.Apply.{Site, Trail, ApplyFaults, ApplyError, verify_file, apply}
use bacchus.Update.State.{Pending, StateError, load, raise_floor, set_pending, clear_pending}
use bacchus.Update.Updater.{
  Platform, Config, StageError, Error, Outcome, Events, Host, no_outcome, staged_path, with_staged,
  stage, self, publish, fetch_manifest_failed, bad_release, no_pending, refused, stage_failed,
  state_failed, apply_failed, Run,
}

-- A stored record is of this artifact, and names the path that it would be staged at.
abbrev pub is_staged : Option Pending → Artifact → Bool
is_staged none a = false
is_staged (some p) a = bytes_eq p.artifact.sha256 a.sha256 && bytes_eq p.staged (staged_path a)

abbrev pub verifies : Result ApplyError (Unit {0}) → Bool
verifies (err e) = false
verifies (ok _) = true

abbrev pub pending_for : Manifest → Artifact → Bytes → Pending
pending_for m a name = record { release = m.release; seq = m.seq; artifact = a; staged = name }

abbrev pub after_pending :
    Platform
    → Config
    → Events
    → Outcome
    → Manifest
    → Artifact
    → Bytes
    → Host
    → Result StateError (Unit {0}) × Disk
    → Run
after_pending p c e out m a name h (err x, d) =
    ((out, some (state_failed x)), record h { state = d })
after_pending p c e out m a name h (ok _, d) =
    if c.defer
    then ((record out { deferred = true }, none), record h { state = d })
    else publish p e out name a m.release (record h { state = d })

abbrev pub moves : Host → Site → Host
moves h s = record h { trail = Apply.goes s h.trail }

abbrev pub after_stage :
    Platform
    → Config
    → Events
    → Outcome
    → Manifest
    → Artifact
    → Host
    → Result StageError Bytes × Site
    → Run
after_stage p c e out m a h (err x, s) = ((out, some (stage_failed x)), h)
after_stage p c e out m a h (ok name, s) =
    after_pending p c e (record out { staged = some name }) m a name (moves h s)
      (set_pending p.state e.read_pending e.pending (pending_for m a name) h.state)

abbrev pub reused : Platform → Config → Events → Outcome → Manifest → Artifact → Host → Run
reused p c e out m a h =
    let out' = record out { staged = some (staged_path a); deferred = true } in
    if not c.defer then publish p e out' (staged_path a) a m.release h else ((out', none), h)

-- The rest of `Check` once a row of a newer release is this build's.
unfoldable pub obtain :
    Platform → Config → Events → Outcome → Option Pending → Manifest → Artifact → Host → Run
obtain p c e out pending m a h =
    if is_staged pending a
      && verifies (verify_file p.apply e.reopen_staged a (h.trail.site.staged (staged_path a)))
    then reused p c e out m a h
    else after_stage p c e out m a h (stage p.apply e.stage a h.trail.site)

abbrev pub after_find :
    Platform
    → Config
    → Events
    → Outcome
    → Option Pending
    → Manifest
    → Host
    → Result Manifest.Error Artifact
    → Run
after_find p c e out pending m h (err x) = ((record out { no_artifact = true }, none), h)
after_find p c e out pending m h (ok a) = obtain p c e out pending m a h

-- Whether the release of the manifest is newer than this build's.
abbrev pub is_newer : Version → Version → Bool
is_newer theirs own = ltb_ℤ (pos 0) (compare_to theirs own)

abbrev pub after_release :
    Platform
    → Config
    → Events
    → Version
    → Option Pending
    → Manifest
    → Host
    → Result Version.Error Version
    → Run
after_release p c e own pending m h (err x) =
    ((record no_outcome { release = m.release }, some bad_release), h)
after_release p c e own pending m h (ok theirs) =
    let out = record no_outcome { release = m.release } in
    if not (is_newer theirs own)
    then ((record out { up_to_date = true }, none), h)
    else after_find p c e out pending m h (find m c.os c.arch c.role)

abbrev pub after_verify :
    Platform
    → Config
    → Events
    → Version
    → Option Pending
    → Host
    → Result Manifest.Error Manifest
    → Run
after_verify p c e own pending h (err x) = ((no_outcome, some (refused x)), h)
after_verify p c e own pending h (ok m) =
    after_release p c e own pending m
      (record h { state = (raise_floor p.state e.read_raise e.raise m.seq h.state).1 })
      (Version.parse m.release)

abbrev pub after_parse :
    Platform
    → Config
    → Events
    → Version
    → ℕ × Option Pending × Option StateError
    → Host
    → Result Manifest.Error Bundle.Bundle
    → Run
after_parse p c e own loaded h (err x) = ((no_outcome, some (refused x)), h)
after_parse p c e own (min_seq, pending, _) h (ok b) =
    after_verify p c e own pending h (Bundle.verify p.bundle c.verifier b e.now min_seq)

abbrev pub after_fetch :
    Platform
    → Config
    → Events
    → Version
    → ℕ × Option Pending × Option StateError
    → Host
    → Option Bytes
    → Run
after_fetch p c e own loaded h none = ((no_outcome, some fetch_manifest_failed), h)
after_fetch p c e own loaded h (some raw) =
    after_parse p c e own loaded h (Bundle.parse_bundle p.bundle raw)

abbrev pub after_gate : Platform → Config → Events → Version → Host → Option Bool → Run
after_gate p c e own h (some true) = ((record no_outcome { gated = true }, none), h)
after_gate p c e own h _ = after_fetch p c e own (load p.state e.read_load h.state) h e.manifest

abbrev pub after_self : Platform → Config → Events → Host → Result Error Version → Run
after_self p c e h (err x) = ((no_outcome, some x), h)
after_self p c e h (ok own) = after_gate p c e own h e.gate

unfoldable pub check : Platform → Config → Events → Host → Run
check p c e h = after_self p c e h (self c)

abbrev pub forgets : Platform → Events → Pending → Host → Host
forgets p e pending h = record {
  trail =
      if e.remove_staged
      then h.trail
      else Apply.goes (with_staged h.trail.site pending.staged none) h.trail;
  state = (clear_pending p.state e.read_clear e.clear [] h.state).1;
}

abbrev pub after_recheck :
    Platform → Events → Outcome → Pending → Host → Result ApplyError (Unit {0}) → Run
after_recheck p e out pending h (err x) = ((out, some (apply_failed x)), forgets p e pending h)
after_recheck p e out pending h (ok _) =
    publish p e out pending.staged pending.artifact pending.release h

abbrev pub after_load : Platform → Events → Host → ℕ × Option Pending × Option StateError → Run
after_load p e h (_, _, some x) = ((no_outcome, some (state_failed x)), h)
after_load p e h (_, none, none) = ((no_outcome, some no_pending), h)
after_load p e h (_, some pending, none) =
    after_recheck p e
      (record no_outcome { release = pending.release; staged = some pending.staged }) pending h
      (verify_file p.apply e.reopen_staged pending.artifact (h.trail.site.staged pending.staged))

unfoldable pub apply_pending : Platform → Events → Host → Run
apply_pending p e h = after_load p e h (load p.state e.read_load h.state)
