-- ===== src/Update/Updater/News.antt =====
-- `Check` of core/update, from the gate to the row of an accepted manifest.
use bacchus.Shared.{
  Bool, true, false, ◌≡◌, ◌≢◌, inl, inr, refl, Option, none, some, Bytes, arith, Result, Bool-cases,
  ok, err,
}
use bacchus.Version
use bacchus.Version.{Version, compare_to}
use bacchus.Version.Order.{Before}
use bacchus.Update.Manifest
use bacchus.Update.Manifest.{Artifact, Manifest, verify_artifact, find}
use bacchus.Update.Bundle
use bacchus.Update.Bundle.Accept.{IsAccepted, verify_manifest_iff}
use bacchus.Atomicfile.{Disk}
use bacchus.Update.State.{Json, Pending, read, load, raise_floor}
use bacchus.Update.State.Floor.{floor_on, load-floor_on}
use bacchus.Update.Updater.{Platform, Config, Events, Host, Run, Outcome, Error, self, no_outcome}
use bacchus.Update.Updater.Check.{
  after_find, is_newer, after_release, after_verify, after_parse, after_fetch, after_gate,
  after_self, check,
}
use bacchus.Update.Updater.Target.{Final, obtain_lem}

-- What makes an artifact one that this build may publish: the gate does not refuse, the manifest that
-- the source served is accepted at the floor that was loaded, which is the one on disk, or 0 where the
-- state file could not be read (`floor_on` is 0 for one that does not decode), its release is newer than
-- this build, and the artifact is its row for this build.
pub record IsNews (p : Platform) (c : Config) (e : Events) (h : Host) (a : Artifact) : Type 0 where
  pub own : Version
  pub is_own : self c ≡ ok own
  pub ungated : e.gate ≢ some true
  pub raw : Bytes
  pub served : e.manifest ≡ some raw
  pub bundle : Bundle.Bundle
  pub parsed : Bundle.parse_bundle p.bundle raw ≡ ok bundle
  pub manifest : Manifest
  pub accepted :
      IsAccepted p.bundle c.verifier bundle e.now (load p.state e.read_load h.state).0 manifest
  pub from_disk :
      e.read_load ≡ false → (load p.state e.read_load h.state).0 ≡ floor_on p.state h.state
  pub from_nothing : e.read_load ≡ true → (load p.state e.read_load h.state).0 ≡ 0
  pub release : Version
  pub is_release : Version.parse manifest.release ≡ ok release
  pub newer : Before own release
  pub is_row : find manifest c.os c.arch c.role ≡ ok a

load-readable :
    (j : Json) (fails : Bool) (d : Disk) → fails ≡ false → (load j fails d).0 ≡ floor_on j d
load-readable j false d e = load-floor_on j d
load-readable j true d e = ground arith

load-unreadable : (j : Json) (fails : Bool) (d : Disk) → fails ≡ true → (load j fails d).0 ≡ 0
unfolding load read
load-unreadable j true d e = refl
load-unreadable j false d e = ground arith

is_newer_lem : (theirs own : Version) → is_newer theirs own ≡ true → Before own theirs
unfolding compare_to
is_newer_lem theirs own h = ground arith

module _ (p : Platform) (c : Config) (e : Events) (h : Host) where
  abbrev Ends : Run → Type 0
  Ends = Final p (IsNews p c e h) h.trail.site.target

  module _ (own : Version) (is_own : self c ≡ ok own) (ungated : e.gate ≢ some true) (raw : Bytes)
      (served : e.manifest ≡ some raw) (bundle : Bundle.Bundle)
      (parsed : Bundle.parse_bundle p.bundle raw ≡ ok bundle) (m : Manifest)
      (accepted : Bundle.verify p.bundle c.verifier bundle e.now
          (load p.state e.read_load h.state).0
        ≡ ok m)
      (pending : Option Pending) (h' : Host)
      (same : h'.trail.site.target ≡ h.trail.site.target) where
    after_find_lem :
        (theirs : Version) (out : Outcome) (r : Result Manifest.Error Artifact)
        → out.applied ≡ false
        → Version.parse m.release ≡ ok theirs
        → is_newer theirs own ≡ true
        → find m c.os c.arch c.role ≡ r
        → Ends (after_find p c e out pending m h' r)
    after_find_lem theirs out (err x) idle is_theirs newer found = inr (idle, inl same)
    after_find_lem theirs out (ok a) idle is_theirs newer found =
        obtain_lem p c e (IsNews p c e h) h.trail.site.target out pending m a h' idle
          (record {
            own = own;
            is_own = is_own;
            ungated = ungated;
            raw = raw;
            served = served;
            bundle = bundle;
            parsed = parsed;
            manifest = m;
            accepted =
                (verify_manifest_iff p.bundle c.verifier bundle e.now
                    (load p.state e.read_load h.state).0 m).0
                  accepted;
            from_disk = load-readable p.state e.read_load h.state;
            from_nothing = load-unreadable p.state e.read_load h.state;
            release = theirs;
            is_release = is_theirs;
            newer = is_newer_lem theirs own newer;
            is_row = found;
          })
          same

    after_release_lem :
        (r : Result Version.Error Version)
        → Version.parse m.release ≡ r
        → Ends (after_release p c e own pending m h' r)
    after_release_lem (err x) is_theirs = inr (refl, inl same)
    after_release_lem (ok theirs) is_theirs = elim (Bool-cases (is_newer theirs own)) [
      | inl newer ↦ rw newer (
          after_find_lem theirs (record no_outcome { release = m.release })
            (find m c.os c.arch c.role) refl is_theirs newer refl)
      | inr older ↦ rw older (inr (refl, inl same))
    ]

  after_verify_lem :
      (own : Version) (raw : Bytes) (bundle : Bundle.Bundle) (pending : Option Pending)
      (r : Result Manifest.Error Manifest)
      → self c ≡ ok own
      → e.gate ≢ some true
      → e.manifest ≡ some raw
      → Bundle.parse_bundle p.bundle raw ≡ ok bundle
      → Bundle.verify p.bundle c.verifier bundle e.now (load p.state e.read_load h.state).0 ≡ r
      → Ends (after_verify p c e own pending h r)
  after_verify_lem own raw bundle pending (err x) is_own ungated served parsed accepted =
      inr (refl, inl refl)
  after_verify_lem own raw bundle pending (ok m) is_own ungated served parsed accepted =
      after_release_lem own is_own ungated raw served bundle parsed m accepted pending
        (record h { state = (raise_floor p.state e.read_raise e.raise m.seq h.state).1 }) refl
        (Version.parse m.release) refl

  after_parse_lem :
      (own : Version) (raw : Bytes) (r : Result Manifest.Error Bundle.Bundle)
      → self c ≡ ok own
      → e.gate ≢ some true
      → e.manifest ≡ some raw
      → Bundle.parse_bundle p.bundle raw ≡ r
      → Ends (after_parse p c e own (load p.state e.read_load h.state) h r)
  after_parse_lem own raw (err x) is_own ungated served parsed = inr (refl, inl refl)
  after_parse_lem own raw (ok b) is_own ungated served parsed =
      after_verify_lem own raw b (load p.state e.read_load h.state).1
        (Bundle.verify p.bundle c.verifier b e.now (load p.state e.read_load h.state).0) is_own
        ungated served parsed refl

  after_fetch_lem :
      (own : Version) (r : Option Bytes)
      → self c ≡ ok own
      → e.gate ≢ some true
      → e.manifest ≡ r
      → Ends (after_fetch p c e own (load p.state e.read_load h.state) h r)
  after_fetch_lem own none is_own ungated served = inr (refl, inl refl)
  after_fetch_lem own (some raw) is_own ungated served =
      after_parse_lem own raw (Bundle.parse_bundle p.bundle raw) is_own ungated served refl

  after_gate_lem :
      (own : Version) (g : Option Bool)
      → self c ≡ ok own
      → e.gate ≡ g
      → Ends (after_gate p c e own h g)
  after_gate_lem own none is_own gate =
      after_fetch_lem own e.manifest is_own (λ g. ground arith) refl
  after_gate_lem own (some false) is_own gate =
      after_fetch_lem own e.manifest is_own (λ g. ground arith) refl
  after_gate_lem own (some true) is_own gate = inr (refl, inl refl)

  after_self_lem : (r : Result Error Version) → self c ≡ r → Ends (after_self p c e h r)
  after_self_lem (err x) is_own = inr (refl, inl refl)
  after_self_lem (ok own) is_own = after_gate_lem own e.gate is_own refl

  -- A `Check` puts a binary at the target only where it reports so, and then what is at the target has
  -- the size and the digest of the row for this build, in a manifest that the source served, that is
  -- accepted at the floor on disk, or at the floor 0 where the state file cannot be read or decoded, and
  -- whose release is newer than this build's, while the gate does not refuse. Where it does not report so, on every path and with every failure of the operating
  -- system, what is at the target is what was there before, unless the error is that the old binary
  -- could not be put back.
  pub check_target : Final p (IsNews p c e h) h.trail.site.target (check p c e h)
  unfolding check
  check_target = after_self_lem (self c) refl
