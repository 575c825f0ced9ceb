-- ===== src/Tests/Releases.antt =====
-- A toy channel of releases for the tests: the manifest of sequence n has one artifact, of which each
-- byte is 9, and the state files write the fields that vary.
use bacchus.Shared.{
  ℕ, zero, suc, [], ◌∷◌, ◌≡◌, refl, Bool, true, false, ◌&&◌, Option, none, some, Bytes, codes,
  replicate, bytes_eq, bytes_eq_iff, str_eq, str_eq_iff, pos, eqb_ℤ, arith, ◌==◌, if◌then◌else◌,
}
use bacchus.Delegation.{Cert}
use bacchus.Update.Manifest.{Artifact, Manifest}
use bacchus.Update.Bundle
use bacchus.Update.Apply
use bacchus.Update.Apply.{Marker, Site, ApplyFaults, StartupFaults, previous_path}
use bacchus.Update.Apply.Probation
use bacchus.Update.State
use bacchus.Update.State.{Pending, StateFile}
use bacchus.Update.State.Floor
use bacchus.Update.Updater.{Platform, Config, Events, StageFaults, Host}
use bacchus.Tests.Toys.{toy_verify, root_key, policy_cert, empty_disk, no_faults}

abbrev pub digest : Bytes
digest = replicate 32 9

abbrev pub release : Bytes
release = codes "1.1.0"

abbrev pub binary : Bytes
binary = 9 ∷ 9 ∷ 9 ∷ []

abbrev pub toy_artifact : Artifact
toy_artifact = record { os = "linux"; arch = "amd64"; role = "node"; size = pos 3; sha256 = digest }

abbrev pub toy_sha : Bytes → Bytes
toy_sha [] = []
toy_sha (b ∷ bs) = replicate 32 b

abbrev pub toy_manifest : ℕ → Manifest
toy_manifest n = record {
  version = pos 1;
  seq = n;
  release = release;
  issued = 1_500_000_000_000;
  expires = 3_000_000_000_000;
  note = "";
  artifacts = toy_artifact ∷ [];
}

abbrev update_key : Bytes
update_key = replicate 32 5

abbrev update_cert : Cert
update_cert = record policy_cert { serial = "c3"; role = "update"; key = update_key }

abbrev decode_cert : Bytes → Option Cert
decode_cert [] = none
decode_cert (b ∷ bs) = if b == 6 then some update_cert else none

abbrev pub release_bundle : ℕ → Bundle.Bundle
release_bundle n = record { manifest = n ∷ replicate 64 5; cert = 6 ∷ replicate 64 7 }

abbrev decode_bundle : Bytes → Option Bundle.Bundle
decode_bundle [] = none
decode_bundle (n ∷ ns) = some (release_bundle n)

abbrev decode_manifest : Bytes → Option Manifest
decode_manifest [] = none
decode_manifest (n ∷ ns) = some (toy_manifest n)

abbrev pub toy_bundles : Bundle.Platform
toy_bundles = record {
  delegation = record { verify = toy_verify; decode_cert = decode_cert };
  decode_bundle = decode_bundle;
  decode_manifest = decode_manifest;
}

abbrev pub release_verifier : Bundle.Verifier
release_verifier = record { root = root_key; revoked = λ serial. false }

abbrev encode_marker : Marker → Option Bytes
encode_marker m =
    if bytes_eq m.release release && str_eq m.previous previous_path && bytes_eq m.artifact digest
    then some ((if m.started then 2 else 1) ∷ [])
    else none

abbrev decode_marker : Bytes → Option Marker
decode_marker [] = none
decode_marker (n ∷ ns) =
    some
      (record { release = release; previous = previous_path; artifact = digest; started = n == 2 })

abbrev pub toy_apply : Apply.Platform
toy_apply = record { sha = toy_sha; encode = encode_marker; decode = decode_marker }

pub toy_apply-IsJson : Probation.IsJson toy_apply
toy_apply-IsJson m b h = ground (
  arith,
  bytes_eq_iff m.release release,
  bytes_eq_iff m.artifact digest,
  str_eq_iff m.previous previous_path,
)

abbrev pub toy_pending : ℕ → Pending
toy_pending n = record { release = release; seq = n; artifact = toy_artifact; staged = digest }

unfoldable pub is_toy_artifact : Artifact → Bool
is_toy_artifact a =
    str_eq a.os "linux"
    && str_eq a.arch "amd64"
    && str_eq a.role "node"
    && eqb_ℤ a.size (pos 3)
    && bytes_eq a.sha256 digest

unfoldable pub is_toy_pending : Pending → Bool
unfolding is_toy_artifact
is_toy_pending p =
    bytes_eq p.release release && bytes_eq p.staged digest && is_toy_artifact p.artifact

abbrev encode_fields : StateFile → Option Pending → Option Bytes
encode_fields f none = some (f.min_seq ∷ 0 ∷ f.applied_release)
encode_fields f (some p) =
    if is_toy_pending p then some (f.min_seq ∷ suc p.seq ∷ f.applied_release) else none

abbrev encode_state : StateFile → Option Bytes
encode_state f = if eqb_ℤ f.version (pos 1) then encode_fields f f.pending else none

abbrev decode_state : Bytes → Option StateFile
decode_state (n ∷ zero ∷ applied) =
    some (record { version = pos 1; min_seq = n; applied_release = applied; pending = none })
decode_state (n ∷ suc s ∷ applied) = some (record {
  version = pos 1;
  min_seq = n;
  applied_release = applied;
  pending = some (toy_pending s);
})
decode_state _ = none

abbrev pub toy_states : State.Json
toy_states = record { encode = encode_state; decode = decode_state }

is_toy_pending_lem : (p : Pending) → is_toy_pending p ≡ true → p ≡ toy_pending p.seq
unfolding is_toy_pending
is_toy_pending_lem p h = ground (
  arith,
  bytes_eq_iff p.release release,
  bytes_eq_iff p.staged digest,
  bytes_eq_iff p.artifact.sha256 digest,
  str_eq_iff p.artifact.os "linux",
  str_eq_iff p.artifact.arch "amd64",
  str_eq_iff p.artifact.role "node",
)

encode_fields_lem :
    (f : StateFile) (o : Option Pending) (b : Bytes)
    → f.version ≡ pos 1
    → f.pending ≡ o
    → encode_fields f o ≡ some b
    → decode_state b ≡ some f
encode_fields_lem f none b v e h = ground arith
encode_fields_lem f (some p) b v e h = ground (arith, is_toy_pending_lem p)

pub toy_states-IsJson : Floor.IsJson toy_states
toy_states-IsJson f b h = encode_fields_lem f f.pending b (ground arith) refl (ground arith)

abbrev pub toy_platform : Platform
toy_platform = record { bundle = toy_bundles; apply = toy_apply; state = toy_states }

-- A build of an older release, which applies at once.
abbrev pub toy_config : Config
toy_config = record {
  verifier = release_verifier;
  os = "linux";
  arch = "amd64";
  role = "node";
  defer = false;
  current_release = codes "1.0.9";
  stamp = none;
}

abbrev pub no_apply_faults : ApplyFaults
no_apply_faults = record {
  reopen = false;
  marker = no_faults;
  stat_target = false;
  move_aside = false;
  publish = false;
  restore = false;
  remove_marker = false;
}

abbrev pub no_startup_faults : StartupFaults
no_startup_faults = record {
  read = false;
  stat_previous = false;
  marker = no_faults;
  demote = false;
  remove_marker = false;
}

abbrev serves_binary : StageFaults
serves_binary = record {
  create = false;
  serve = λ a. some binary;
  copy = false;
  close_source = false;
  chmod = false;
  sync = false;
  close = false;
  reopen = false;
  reread = λ content. content;
  rename = false;
}

-- The source serves the manifest of this sequence, and nothing fails.
abbrev pub serves : ℕ → Events
serves n = record {
  gate = none;
  manifest = some (n ∷ []);
  now = 2_000_000_000_000;
  reopen_staged = false;
  stage = serves_binary;
  apply = no_apply_faults;
  read_load = false;
  read_raise = false;
  read_pending = false;
  read_clear = false;
  raise = no_faults;
  pending = no_faults;
  clear = no_faults;
  remove_staged = false;
}

-- A binary with an older one beside it, and the artifact staged.
abbrev pub toy_site : Site
toy_site = record {
  target = some (1 ∷ []);
  previous = some (0 ∷ []);
  staged = λ name. if bytes_eq name digest then some binary else none;
  marker = empty_disk;
}

abbrev pub toy_host : Host
toy_host = record { trail = record { site = toy_site; trace = [] }; state = empty_disk }
