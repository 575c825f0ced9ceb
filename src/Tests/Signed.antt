-- ===== src/Tests/Signed.antt =====
-- Signed bytes, policy documents and revocations at concrete inputs.
use bacchus.Devicecred
use bacchus.Devicecred.{IssuerCert, DeviceCredential, Presentation}
use bacchus.Devicecred.Present.{IsPresented, verify_device_iff}
use bacchus.Shared.{
  replicate, Option, some, false, Bytes, pos, ◌∷◌, ℕ, ◌≡◌, ◌<◌, ◌^◌, refl, none, codes, bytes_eq,
  ok,
}
use bacchus.Delegation
use bacchus.Delegation.{open_signed, verify_delegation_cert}
use bacchus.Delegation.Gate.{IsHonoured, verify_delegation_cert_iff}
use bacchus.Policy
use bacchus.Policy.Document.{
  validate, deadline, valid_trust, has_row, check_tiers, check_vouch, check_serving_version,
  check_component,
}
use bacchus.Policy.Accept.{IsAccepted, verify_iff}
use bacchus.Policy.Fence.{check_serving_version-parse}
use bacchus.Version
use bacchus.Version.{Version, split, parse_uint, digits_value}
use bacchus.Tests.Toys.{
  toy_delegation, root_key, signed_policy_cert, policy_cert, toy_policy_platform, toy_verifier,
  policy_bundle, toy_policy,
}

verify_delegation_cert_iff_example :
    IsHonoured toy_delegation root_key signed_policy_cert "policy" 2_000_000_000_000 none
      policy_cert
unfolding verify_delegation_cert Delegation.parse_cert open_signed bytes_eq
verify_delegation_cert_iff_example =
    (verify_delegation_cert_iff toy_delegation root_key signed_policy_cert "policy"
        2_000_000_000_000 none policy_cert).0
      refl

-- The toy policy is handed out on the last moment of its grace.
abbrev last_moment : ℕ
last_moment = 3_499_999_999_999

verify_iff_example :
    IsAccepted toy_policy_platform toy_verifier (policy_bundle 5) last_moment 4 (toy_policy 5)
unfolding Policy.verify verify_delegation_cert Delegation.parse_cert open_signed bytes_eq validate
    deadline valid_trust has_row check_tiers check_vouch check_serving_version check_component split
    parse_uint digits_value
verify_iff_example =
    (verify_iff toy_policy_platform toy_verifier (policy_bundle 5) last_moment 4 (toy_policy 5)).0
      refl

check_serving_version-parse_example :
    (v : Version) × (Version.parse (codes "0.10.2147483647") ≡ ok v)
    × (v.major < 2 ^ 31)
    × (v.minor < 2 ^ 31)
    × (v.patch < 2 ^ 31)
unfolding check_serving_version check_component split parse_uint digits_value
check_serving_version-parse_example = check_serving_version-parse (codes "0.10.2147483647") refl

-- A device credential under an issuer certificate.
abbrev issuer_key : Bytes
issuer_key = replicate 32 4

abbrev device_key : Bytes
device_key = replicate 32 8

abbrev issuer : IssuerCert
issuer = record {
  version = pos 1;
  serial = "i1";
  issuer_pub = issuer_key;
  not_before = 1_000_000_000_000;
  not_after = 9_000_000_000_000;
  max_cred_ttl = pos 2_000_000_000_000;
  note = "";
}

abbrev credential : DeviceCredential
credential = record {
  version = pos 1;
  serial = "d1";
  device_pub = device_key;
  epoch = 1;
  not_before = 1_500_000_000_000;
  not_after = 3_000_000_000_000;
}

abbrev decode_issuer : Bytes → Option IssuerCert
decode_issuer body = some issuer

abbrev decode_credential : Bytes → Option DeviceCredential
decode_credential body = some credential

abbrev toy_devices : Devicecred.Platform
toy_devices = record {
  delegation = toy_delegation;
  decode_issuer = decode_issuer;
  decode_credential = decode_credential;
}

abbrev presentation : Presentation
presentation = record {
  credential = 1 ∷ replicate 64 4;
  issuer_cert = 1 ∷ replicate 64 7;
  assertion = replicate 64 8;
}

abbrev device_verifier : Devicecred.Verifier
device_verifier = record { root = root_key; revoked_list = λ serial. false }

abbrev challenge : Bytes
challenge = replicate 16 3

verify_device_iff_example :
    IsPresented toy_devices device_verifier presentation 2_000_000_000_000
      (codes "coordinator")
      challenge
      credential
unfolding Devicecred.verify Devicecred.verify_issuer_cert Devicecred.parse_issuer_cert
    Devicecred.open_object Devicecred.check_window Devicecred.verify_assertion
    Devicecred.assertion_message open_signed bytes_eq
verify_device_iff_example =
    (verify_device_iff toy_devices device_verifier presentation 2_000_000_000_000
        (codes "coordinator") challenge credential).0
      refl
