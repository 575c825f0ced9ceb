-- ===== src/Tests/Toys.antt =====
-- A toy platform for the tests. A signature is valid if it is 64 times the first byte of the key, the
-- first byte of a body says what it decodes to, and the state file is the floor before the bundle.
use bacchus.Shared.{
  ℕ, [], ◌∷◌, refl, Bool, true, false, Option, none, some, Bytes, codes, replicate, bytes_eq, pos,
  eqb_ℤ, arith, ◌==◌, if◌then◌else◌,
}
use bacchus.Atomicfile.{Disk, Faults, File}
use bacchus.Delegation
use bacchus.Delegation.{Cert}
use bacchus.FloorCache.{CacheFile, Json}
use bacchus.FloorCache.Ratchet.{IsJson}
use bacchus.Policy
use bacchus.Policy.Document.{Policy, TierLimit}
use bacchus.Revocation

abbrev pub toy_verify : Bytes → Bytes → Bytes → Bool
toy_verify [] message sig = false
toy_verify (k ∷ ks) message sig = bytes_eq sig (replicate 64 k)

abbrev pub root_key : Bytes
root_key = replicate 32 7

abbrev pub policy_key : Bytes
policy_key = replicate 32 2

abbrev pub list_key : Bytes
list_key = replicate 32 3

abbrev pub policy_cert : Cert
policy_cert = record {
  version = pos 1;
  serial = "c1";
  role = "policy";
  key = policy_key;
  not_before = 1_000_000_000_000;
  not_after = 9_000_000_000_000;
  note = "";
}

abbrev pub list_cert : Cert
list_cert = record policy_cert { serial = "c2"; role = "revocations"; key = list_key }

abbrev pub toy_decode_cert : Bytes → Option Cert
toy_decode_cert [] = none
toy_decode_cert (b ∷ bs) =
    if b == 1 then some policy_cert else if b == 4 then some list_cert else none

abbrev pub toy_delegation : Delegation.Platform
toy_delegation = record { verify = toy_verify; decode_cert = toy_decode_cert }

abbrev pub signed_policy_cert : Bytes
signed_policy_cert = 1 ∷ replicate 64 7

abbrev pub signed_list_cert : Bytes
signed_list_cert = 4 ∷ replicate 64 7

abbrev pub stable_row : TierLimit
stable_row = record {
  trust = "stable";
  plan = "free";
  speed_cap_bps = 0;
  priority = pos 2;
  endpoint_quality = pos 1;
}

abbrev pub ephemeral_row : TierLimit
ephemeral_row = record stable_row { trust = "ephemeral"; priority = pos 0 }

abbrev pub toy_policy : ℕ → Policy
toy_policy n = record {
  version = pos 1;
  seq = n;
  issued = 1_500_000_000_000;
  expires = 3_000_000_000_000;
  grace = pos 500_000_000_000;
  note = "";
  serve_floor = record {
    min_measured_bps = 0;
    min_declared_quota_bytes = 0;
    min_serving_version = codes "0.7.0";
  };
  backpressure = record { min_country_headroom_bps = 0; min_node_headroom_bps = 0 };
  vouch = record {
    k = pos 2;
    budget = pos 3;
    period = pos 1;
    tenure = pos 0;
    admit_cap_per_period = pos 9;
  };
  tiers = stable_row ∷ ephemeral_row ∷ [];
}

-- A bundle on the wire is one byte, the sequence of its policy or the time of its list.
abbrev pub policy_bundle : ℕ → Policy.Bundle
policy_bundle n = record { doc = n ∷ replicate 64 2; cert = signed_policy_cert }

abbrev decode_policy_bundle : Bytes → Option Policy.Bundle
decode_policy_bundle [] = none
decode_policy_bundle (n ∷ ns) = some (policy_bundle n)

abbrev decode_policy : Bytes → Option Policy
decode_policy [] = none
decode_policy (n ∷ ns) = some (toy_policy n)

abbrev pub toy_policy_platform : Policy.Platform
toy_policy_platform = record {
  delegation = toy_delegation;
  decode_bundle = decode_policy_bundle;
  decode_policy = decode_policy;
}

abbrev pub toy_verifier : Policy.Verifier
toy_verifier = record { root = root_key; revoked = λ serial. false }

abbrev pub toy_list : ℕ → Revocation.Doc
toy_list n = record { version = pos 1; as_of = n; revoked = "dev1" ∷ [] }

abbrev pub list_bundle : ℕ → Revocation.Bundle
list_bundle n = record { revocations = n ∷ replicate 64 3; cert = signed_list_cert }

abbrev decode_list_bundle : Bytes → Option Revocation.Bundle
decode_list_bundle [] = none
decode_list_bundle (n ∷ ns) = some (list_bundle n)

abbrev decode_list : Bytes → Option Revocation.Doc
decode_list [] = none
decode_list (n ∷ ns) = some (toy_list n)

abbrev pub toy_list_platform : Revocation.Platform
toy_list_platform = record {
  delegation = toy_delegation;
  decode_bundle = decode_list_bundle;
  decode_doc = decode_list;
}

abbrev pub toy_list_verifier : Revocation.Verifier
toy_list_verifier = record { root = root_key; revoked = λ serial. false }

abbrev encode_state : CacheFile → Option Bytes
encode_state f = if eqb_ℤ f.version (pos 1) then some (f.floor ∷ f.bundle) else none

abbrev decode_state : Bytes → Option CacheFile
decode_state [] = none
decode_state (n ∷ b) = some (record { version = pos 1; floor = n; bundle = b })

abbrev pub toy_json : Json
toy_json = record { encode = encode_state; decode = decode_state }

pub toy_json-IsJson : IsJson toy_json
toy_json-IsJson = record {
  round_trip = λ f b e. (
    record { version = pos 1; floor = f.floor; bundle = f.bundle },
    ground arith,
    ground arith,
    refl,
  );
}

abbrev pub empty_disk : Disk
empty_disk = record { target = none; staged = none; durable = none }

abbrev pub toy_file : ℕ → File
toy_file n = record { content = n ∷ n ∷ []; mode = 0o600; flushed = true }

abbrev pub toy_disk : ℕ → Disk
toy_disk n = record { target = some (toy_file n); staged = none; durable = some (toy_file n) }

abbrev pub no_faults : Faults
no_faults = record {
  create = false;
  write = false;
  written = 0;
  chmod = false;
  sync = false;
  close = false;
  rename = false;
  remove = false;
  open_dir = false;
  sync_dir = false;
  flushes_directories = true;
}

abbrev pub failing_sync : Faults
failing_sync = record no_faults { sync = true }
