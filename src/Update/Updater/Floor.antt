-- ===== src/Update/Updater/Floor.antt =====
-- What one `Check` or `ApplyPending` of core/update does to the floor on disk.
use bacchus.Shared.{
  ℕ, ◌≤◌, [], Bool, true, false, ◌≡◌, refl, Option, none, some, Bytes, arith, Result, ok, err,
}
use bacchus.Atomicfile.{Disk}
use bacchus.Version
use bacchus.Version.{Version}
use bacchus.Update.Manifest
use bacchus.Update.Manifest.{Artifact, Manifest, find}
use bacchus.Update.Bundle
use bacchus.Update.Apply.{Site, Trail, ApplyError, verify_file, apply}
use bacchus.Update.State.{Pending, StateError, load, raise_floor, set_pending}
use bacchus.Update.State.Floor.{
  IsJson, floor_on, raise_floor_lem, set_pending_lem, clear_pending_lem,
}
use bacchus.Update.Updater.{
  Platform, Config, Events, Host, Run, Outcome, Error, StageError, self, stage, publish_applied,
  publish, staged_path, no_outcome,
}
use bacchus.Update.Updater.Check.{
  after_pending, after_stage, obtain, after_find, after_release, after_verify, after_parse,
  after_fetch, after_gate, after_self, check, pending_for, moves, after_recheck, after_load,
  apply_pending,
}

-- Every read of the state file succeeds, or finds no file.
abbrev pub CanRead : Events → Type 0
CanRead e =
    (e.read_load ≡ false)
    × (e.read_raise ≡ false)
    × (e.read_pending ≡ false)
    × (e.read_clear ≡ false)

module _ (p : Platform) (json : IsJson p.state) (e : Events) (can : CanRead e) (floor : ℕ) where
  abbrev Above : Run → Type 0
  Above r = floor ≤ floor_on p.state r.1.state

  publish_applied_floor :
      (release : Bytes) (out : Outcome) (h : Host) (r : Result ApplyError (Unit {0}) × Trail)
      → floor ≤ floor_on p.state h.state
      → Above (publish_applied p.state e release out h r)
  publish_applied_floor release out h (err x, t) k = k
  publish_applied_floor release out h (ok _, t) k =
      let (_, _, _, reads) = can in
      rw reads (ground (arith, clear_pending_lem p.state json e.clear release h.state))

  publish_floor :
      (out : Outcome) (name : Bytes) (a : Artifact) (release : Bytes) (h : Host)
      → floor ≤ floor_on p.state h.state
      → Above (publish p e out name a release h)
  unfolding publish
  publish_floor out name a release h k =
      publish_applied_floor release out h
        (apply p.apply e.apply name a release (record { site = h.trail.site; trace = [] })) k

  module _ (c : Config) where
    after_pending_floor :
        (out : Outcome) (m : Manifest) (a : Artifact) (name : Bytes) (h : Host)
        (r : Result StateError (Unit {0}) × Disk)
        → floor ≤ floor_on p.state r.1
        → Above (after_pending p c e out m a name h r)
    after_pending_floor out m a name h (err x, d) k = k
    after_pending_floor out m a name h (ok _, d) k =
        ground (arith, publish_floor out name a m.release (record h { state = d }) k)

    after_stage_floor :
        (out : Outcome) (m : Manifest) (a : Artifact) (h : Host)
        (r : Result StageError Bytes × Site)
        → floor ≤ floor_on p.state h.state
        → Above (after_stage p c e out m a h r)
    after_stage_floor out m a h (err x, s) k = k
    after_stage_floor out m a h (ok name, s) k =
        let (_, _, reads, _) = can in
        let raised = set_pending_lem p.state json e.pending (pending_for m a name) h.state in
        after_pending_floor (record out { staged = some name }) m a name (moves h s)
          (set_pending p.state e.read_pending e.pending (pending_for m a name) h.state)
          (rw reads (omega (arith, k, raised)))

    obtain_floor :
        (out : Outcome) (pending : Option Pending) (m : Manifest) (a : Artifact) (h : Host)
        → floor ≤ floor_on p.state h.state
        → Above (obtain p c e out pending m a h)
    unfolding obtain
    obtain_floor out pending m a h k = ground (
      arith,
      publish_floor (record out { staged = some (staged_path a); deferred = true }) (staged_path a)
          a m.release h k,
      after_stage_floor out m a h (stage p.apply e.stage a h.trail.site) k,
    )

    after_find_floor :
        (out : Outcome) (pending : Option Pending) (m : Manifest) (h : Host)
        (r : Result Manifest.Error Artifact)
        → floor ≤ floor_on p.state h.state
        → Above (after_find p c e out pending m h r)
    after_find_floor out pending m h (err x) k = k
    after_find_floor out pending m h (ok a) k = obtain_floor out pending m a h k

    pub after_release_floor :
        (own : Version) (pending : Option Pending) (m : Manifest) (h : Host)
        (r : Result Version.Error Version)
        → floor ≤ floor_on p.state h.state
        → Above (after_release p c e own pending m h r)
    after_release_floor own pending m h (err x) k = k
    after_release_floor own pending m h (ok theirs) k =
        let out : Outcome = record no_outcome { release = m.release } in
        ground (arith, after_find_floor out pending m h (find m c.os c.arch c.role) k)

    after_verify_floor :
        (own : Version) (pending : Option Pending) (h : Host) (r : Result Manifest.Error Manifest)
        → floor ≤ floor_on p.state h.state
        → ((m : Manifest)
            → r ≡ ok m
            → floor ≤ floor_on p.state (raise_floor p.state e.read_raise e.raise m.seq h.state).1)
        → Above (after_verify p c e own pending h r)
    after_verify_floor own pending h (err x) k raised = k
    after_verify_floor own pending h (ok m) k raised =
        after_release_floor own pending m
          (record h { state = (raise_floor p.state e.read_raise e.raise m.seq h.state).1 })
          (Version.parse m.release) (raised m refl)

    after_parse_floor :
        (own : Version) (loaded : ℕ × Option Pending × Option StateError) (h : Host)
        (r : Result Manifest.Error Bundle.Bundle)
        → floor ≤ floor_on p.state h.state
        → Above (after_parse p c e own loaded h r)
    after_parse_floor own loaded h (err x) k = k
    after_parse_floor own (min_seq, pending, x) h (ok b) k =
        let (_, reads, _, _) = can in
        after_verify_floor own pending h (Bundle.verify p.bundle c.verifier b e.now min_seq) k
          (λ m is. rw reads (
            let (kept, _) = raise_floor_lem p.state json e.raise m.seq h.state in
            omega (arith, k, kept)))

    after_fetch_floor :
        (own : Version) (loaded : ℕ × Option Pending × Option StateError) (h : Host)
        (r : Option Bytes)
        → floor ≤ floor_on p.state h.state
        → Above (after_fetch p c e own loaded h r)
    after_fetch_floor own loaded h none k = k
    after_fetch_floor own loaded h (some raw) k =
        after_parse_floor own loaded h (Bundle.parse_bundle p.bundle raw) k

    after_gate_floor :
        (own : Version) (h : Host) (g : Option Bool)
        → floor ≤ floor_on p.state h.state
        → Above (after_gate p c e own h g)
    after_gate_floor own h none k =
        after_fetch_floor own (load p.state e.read_load h.state) h e.manifest k
    after_gate_floor own h (some false) k =
        after_fetch_floor own (load p.state e.read_load h.state) h e.manifest k
    after_gate_floor own h (some true) k = k

    after_self_floor :
        (h : Host) (r : Result Error Version)
        → floor ≤ floor_on p.state h.state
        → Above (after_self p c e h r)
    after_self_floor h (err x) k = k
    after_self_floor h (ok own) k = after_gate_floor own h e.gate k

    pub check_floor : (h : Host) → floor ≤ floor_on p.state h.state → Above (check p c e h)
    unfolding check
    check_floor h k = after_self_floor h (self c) k

  after_recheck_floor :
      (out : Outcome) (pending : Pending) (h : Host) (r : Result ApplyError (Unit {0}))
      → floor ≤ floor_on p.state h.state
      → Above (after_recheck p e out pending h r)
  after_recheck_floor out pending h (err x) k =
      let (_, _, _, reads) = can in
      rw reads (ground (arith, clear_pending_lem p.state json e.clear [] h.state))
  after_recheck_floor out pending h (ok _) k =
      publish_floor out pending.staged pending.artifact pending.release h k

  after_load_floor :
      (h : Host) (r : ℕ × Option Pending × Option StateError)
      → floor ≤ floor_on p.state h.state
      → Above (after_load p e h r)
  after_load_floor h (_, pending, some x) k = k
  after_load_floor h (_, none, none) k = k
  after_load_floor h (_, some pending, none) k =
      let out : Outcome = record no_outcome {
        release = pending.release;
        staged = some pending.staged;
      } in
      after_recheck_floor out pending h
        (verify_file p.apply e.reopen_staged pending.artifact (h.trail.site.staged pending.staged))
        k

  pub apply_pending_floor :
      (h : Host) → floor ≤ floor_on p.state h.state → Above (apply_pending p e h)
  unfolding apply_pending
  apply_pending_floor h k = after_load_floor h (load p.state e.read_load h.state) k
