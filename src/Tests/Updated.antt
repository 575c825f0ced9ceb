-- ===== src/Tests/Updated.antt =====
-- The update channel at concrete inputs.
use bacchus.Shared.{
  ℕ, [], ◌∷◌, ◌≡◌, ◌≤◌, refl, true, false, none, some, Bytes, bytes_eq, arith, ok, err, In,
}
use bacchus.Atomicfile
use bacchus.Atomicfile.{Disk, File}
use bacchus.Delegation
use bacchus.Version
use bacchus.Version.{split, parse_uint, digits_value, compare_to}
use bacchus.Update.Manifest
use bacchus.Update.Manifest.{Artifact, verify_artifact, validate}
use bacchus.Update.Bundle
use bacchus.Update.Bundle.Accept.{IsAccepted, verify_manifest_iff}
use bacchus.Update.Apply
use bacchus.Update.Apply.{
  Marker, Site, demoted, apply, check_startup, confirm, marker_for, write_marker, remove_marker,
  verify_file, read_marker, clear_marker,
}
use bacchus.Update.Apply.Crash.{Outcome, IsMarked, apply_safe}
use bacchus.Update.Apply.Probation.{unconfirmed_is_demoted, CanRead}
use bacchus.Update.Apply.Windows.{apply_passes, crash_demotes_older}
use bacchus.Update.State
use bacchus.Update.State.{clear_pending, read, write}
use bacchus.Update.Updater
use bacchus.Update.Updater.{self}
use bacchus.Update.Updater.Check
use bacchus.Update.Updater.Check.{check}
use bacchus.Update.Updater.Target.{Final}
use bacchus.Update.Updater.News.{IsNews, check_target}
use bacchus.Update.Updater.Rollback.{checking, applying, calls, call, applied_no_rollback}
use bacchus.Tests.Toys.{empty_disk}
use bacchus.Tests.Releases.{
  digest, release, binary, toy_artifact, toy_sha, toy_manifest, toy_bundles, release_bundle,
  release_verifier, toy_apply, toy_apply-IsJson, toy_states-IsJson, toy_platform, toy_config,
  no_apply_faults, no_startup_faults, serves, toy_site, toy_host, is_toy_pending, is_toy_artifact,
}

abbrev now : ℕ
now = 2_000_000_000_000

verify_manifest_iff_example :
    IsAccepted toy_bundles release_verifier (release_bundle 4) now 3 (toy_manifest 4)
unfolding Bundle.verify Delegation.verify_delegation_cert Delegation.parse_cert
    Delegation.open_signed bytes_eq validate split parse_uint digits_value Manifest.check_artifacts
    Manifest.check_artifact Manifest.check_token Manifest.check_release Manifest.check_components
    Manifest.check_component Manifest.known_role Manifest.has_row Manifest.matches
verify_manifest_iff_example =
    (verify_manifest_iff toy_bundles release_verifier (release_bundle 4) now 3 (toy_manifest 4)).0
      refl

apply_safe_example :
    let out =
      apply toy_apply no_apply_faults digest toy_artifact release
        (record { site = toy_site; trace = [] }) in
    Outcome toy_apply (marker_for toy_artifact release) (some binary) (1 ∷ []) out
    × (out.0 ≡ ok tt
        → (content : Bytes) × (toy_site.staged digest ≡ some content)
          × (verify_artifact toy_sha toy_artifact content ≡ ok tt))
unfolding bytes_eq
apply_safe_example =
    apply_safe toy_apply no_apply_faults toy_artifact digest release (1 ∷ []) toy_site refl

-- The artifact applied and not started.
abbrev fresh_site : Site
fresh_site = record toy_site {
  target = some binary;
  previous = some (1 ∷ []);
  marker = record empty_disk {
    target = some (record { content = 1 ∷ []; mode = 0o600; flushed = true });
  };
}

unconfirmed_is_demoted_example :
    let (r, s) =
      check_startup toy_apply no_startup_faults
        (check_startup toy_apply no_startup_faults fresh_site).1 in
    (r ≡ err demoted) × (s.target ≡ some (1 ∷ [])) × (s.marker.target ≡ none)
unfolding check_startup read_marker write_marker bytes_eq Atomicfile.write_durable Atomicfile.write
    Atomicfile.sync_dir
unconfirmed_is_demoted_example =
    unconfirmed_is_demoted toy_apply toy_apply-IsJson no_startup_faults no_startup_faults
      (marker_for toy_artifact release) (1 ∷ []) fresh_site (refl, refl) (refl, refl) refl refl
      (record { content = 1 ∷ []; mode = 0o600; flushed = true }, refl, refl) refl refl refl

apply_passes_example :
    let t =
      (apply toy_apply no_apply_faults digest toy_artifact release
        (record { site = toy_site; trace = [] })).1 in
    ((x : Site) × In x t.trace × (x.target ≡ none) × (x.previous ≡ some (1 ∷ [])))
    × ((x : Site) × In x t.trace
        × (x.target ≡ some (1 ∷ []))
        × (x.previous ≡ some (0 ∷ []))
        × IsMarked toy_apply (marker_for toy_artifact release) x)
unfolding apply write_marker remove_marker verify_file verify_artifact bytes_eq
    Atomicfile.write_durable Atomicfile.write Atomicfile.sync_dir
apply_passes_example =
    apply_passes toy_apply no_apply_faults toy_artifact digest release (1 ∷ []) toy_site refl refl

crash_demotes_older_example :
    (x : Site) × In x
      (apply toy_apply no_apply_faults digest toy_artifact release
        (record { site = toy_site; trace = [] })).1.trace
    × (x.target ≡ some (1 ∷ []))
    × ((first second : Apply.StartupFaults)
        → CanRead first
        → CanRead second
        → second.demote ≡ false
        → second.remove_marker ≡ false
        → (check_startup toy_apply first x).0 ≡ ok tt
        → let (r, y) = check_startup toy_apply second (check_startup toy_apply first x).1 in
          (r ≡ err demoted) × (y.target ≡ some (0 ∷ [])))
unfolding apply write_marker remove_marker verify_file verify_artifact bytes_eq
    Atomicfile.write_durable Atomicfile.write Atomicfile.sync_dir
crash_demotes_older_example =
    crash_demotes_older toy_apply no_apply_faults toy_artifact digest release (1 ∷ []) (0 ∷ [])
      toy_site toy_apply-IsJson refl refl refl

-- A state file with floor 5.
abbrev floor_five : Disk
floor_five = record empty_disk {
  target = some (record { content = 5 ∷ 0 ∷ []; mode = 0o600; flushed = true });
}

check_target_example :
    Final toy_platform
      (IsNews toy_platform toy_config (serves 4) toy_host)
      (some (1 ∷ []))
      (check toy_platform toy_config (serves 4) toy_host)
check_target_example = check_target toy_platform toy_config (serves 4) toy_host

toy-IsAccepted : IsAccepted toy_bundles release_verifier (release_bundle 4) now 0 (toy_manifest 4)
unfolding Bundle.verify Delegation.verify_delegation_cert Delegation.parse_cert
    Delegation.open_signed bytes_eq validate split parse_uint digits_value Manifest.check_artifacts
    Manifest.check_artifact Manifest.check_token Manifest.check_release Manifest.check_components
    Manifest.check_component Manifest.known_role Manifest.has_row Manifest.matches
toy-IsAccepted =
    (verify_manifest_iff toy_bundles release_verifier (release_bundle 4) now 0 (toy_manifest 4)).0
      refl

toy_news : IsNews toy_platform toy_config (serves 4) toy_host toy_artifact
unfolding self Version.parse Version.component Version.atoi split parse_uint digits_value
    Bundle.parse_bundle Manifest.find Manifest.find_in Manifest.matches State.load State.read
toy_news = record {
  own = record { major = 1; minor = 0; patch = 9 };
  is_own = refl;
  ungated = λ h. ground arith;
  raw = 4 ∷ [];
  served = refl;
  bundle = release_bundle 4;
  parsed = refl;
  manifest = toy_manifest 4;
  accepted = toy-IsAccepted;
  from_disk = λ r. refl;
  from_nothing = λ r. refl;
  release = record { major = 1; minor = 1; patch = 0 };
  is_release = refl;
  newer = ground arith;
  is_row = refl;
}

applied_no_rollback_example :
    let h =
      calls toy_platform toy_config
        (checking (serves 2) ∷ applying (serves 5) ∷ [])
        (check toy_platform toy_config (serves 4) toy_host).1 in
    (a : Artifact) × (n : IsNews toy_platform toy_config (serves 5) h a) × (4 ≤ n.manifest.seq)
unfolding toy_news calls call check Check.apply_pending Check.obtain Updater.publish Updater.stage
    self State.raise_floor State.set_pending clear_pending State.load read write Version.parse
    Version.component Version.atoi split parse_uint digits_value compare_to Bundle.parse_bundle
    Bundle.verify Delegation.verify_delegation_cert Delegation.parse_cert Delegation.open_signed
    validate Manifest.check_artifacts Manifest.check_artifact Manifest.check_token
    Manifest.check_release Manifest.check_components Manifest.check_component Manifest.known_role
    Manifest.has_row Manifest.matches Manifest.find Manifest.find_in apply write_marker
    remove_marker verify_file verify_artifact bytes_eq Atomicfile.write_durable Atomicfile.write
    Atomicfile.sync_dir is_toy_pending is_toy_artifact
applied_no_rollback_example =
    applied_no_rollback toy_platform toy_config (serves 4) toy_host toy_artifact toy_states-IsJson
      toy_news (checking (serves 2) ∷ applying (serves 5) ∷ []) (serves 5) (refl, refl, refl, refl)
      refl ((refl, refl, refl, refl), ((refl, refl, refl, refl), tt)) (refl, refl, refl, refl) refl
