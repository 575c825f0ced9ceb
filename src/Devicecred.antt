-- ===== src/Devicecred.antt =====
-- core/devicecred: an issuer certificate under the root, a device credential under the issuer's key,
-- and the device's signature over a verifier's challenge.
pub mod Present
pub mod Assertion
use bacchus.Shared.{
  ℕ, ◌+◌, ◌-◌, ◌/◌, ◌%◌, ◌^◌, ◌++◌, [], ◌∷◌, String, Bool, true, false, not, Option, none, some,
  Bytes, codes, length, ltb, leb, ◌==◌, if◌then◌else◌, ℤ, pos, negsuc, eqb_ℤ, ltb_ℤ, Result, ok,
  err, ◌>>=◌, ◌>>◌, refuse_if, or_err, map_err,
}
use bacchus.Delegation
use bacchus.Delegation.{public_key_size, clock_skew, open_signed, is_revoked}

pub data Error : Type 0 where
  malformed unsupported_version bad_signature not_yet_valid expired revoked cred_ttl_too_long
        bad_assertion no_root :
      Error
  other : Delegation.Error → Error

pub record IssuerCert : Type 0 where
  pub version : ℤ
  pub serial : String
  pub issuer_pub : Bytes
  pub not_before : ℕ
  pub not_after : ℕ
  pub max_cred_ttl : ℤ
  pub note : String

pub record DeviceCredential : Type 0 where
  pub version : ℤ
  pub serial : String
  pub device_pub : Bytes
  pub epoch : ℕ
  pub not_before : ℕ
  pub not_after : ℕ

pub record Platform : Type 0 where
  pub delegation : Delegation.Platform
  pub decode_issuer : Bytes → Option IssuerCert
  pub decode_credential : Bytes → Option DeviceCredential

abbrev pub opened_error : Delegation.Error → Error
opened_error Delegation.bad_signature = bad_signature
opened_error Delegation.malformed = malformed
opened_error e = other e

unfoldable pub open_object : Platform → Bytes → String → Bytes → Result Error Bytes
open_object p key tag signed = map_err opened_error (open_signed p.delegation key tag signed)

unfoldable pub check_window : ℕ → ℕ → ℕ → Result Error (Unit {0})
check_window not_before not_after now = do
  refuse_if (ltb now (not_before - clock_skew)) not_yet_valid
  refuse_if (not (ltb now not_after)) expired

unfoldable pub parse_issuer_cert : Platform → Bytes → Bytes → Result Error IssuerCert
parse_issuer_cert p root signed = do
  body ← open_object p root Delegation.tag_issuer_cert signed
  c ← or_err (p.decode_issuer body) malformed
  refuse_if (not (eqb_ℤ c.version (pos 1))) unsupported_version
  refuse_if (not (length c.issuer_pub == public_key_size)) malformed
  ok c

unfoldable pub verify_issuer_cert :
    Platform → Bytes → Bytes → ℕ → Option (String → Bool) → Result Error IssuerCert
verify_issuer_cert p root signed now revoked_list = do
  refuse_if (not (length root == public_key_size)) no_root
  c ← parse_issuer_cert p root signed
  refuse_if (is_revoked revoked_list c.serial) revoked
  check_window c.not_before c.not_after now
  ok c

pub record Presentation : Type 0 where
  pub credential : Bytes
  pub issuer_cert : Bytes
  pub assertion : Bytes

pub record Verifier : Type 0 where
  pub root : Bytes
  pub revoked_list : String → Bool

unfoldable pub new_verifier : Bytes → Option (String → Bool) → Result Error Verifier
new_verifier root revoked_list = do
  refuse_if (not (length root == public_key_size)) no_root
  ok (record { root = root; revoked_list = is_revoked revoked_list })

abbrev pub purpose_connect : String
purpose_connect = "bacchus/assert-connect/v1"

abbrev pub min_challenge : ℕ
min_challenge = 16

-- `binary.BigEndian.AppendUint32` of `uint32(n)`.
abbrev pub be32 : ℕ → Bytes
be32 n = (n / 2 ^ 24) % 256 ∷ (n / 2 ^ 16) % 256 ∷ (n / 2 ^ 8) % 256 ∷ n % 256 ∷ []

unfoldable pub assertion_message : String → Bytes → Bytes → Bytes
assertion_message purpose audience challenge =
    codes purpose
    ++ (0 ∷ (be32 (length audience) ++ (audience ++ (be32 (length challenge) ++ challenge))))

unfoldable pub verify_assertion :
    Platform → Bytes → String → Bytes → Bytes → Bytes → Result Error (Unit {0})
verify_assertion p key purpose audience challenge sig = do
  refuse_if (not (length key == public_key_size)) malformed
  refuse_if (ltb (length challenge) min_challenge) bad_assertion
  refuse_if (not (p.delegation.verify key (assertion_message purpose audience challenge) sig))
      bad_assertion

-- `Time.Sub`, which stops at the ends of `time.Duration`.
abbrev pub time_sub : ℕ → ℕ → ℤ
time_sub a b =
    if leb b a
    then (if ltb (a - b) (2 ^ 63) then pos (a - b) else pos (2 ^ 63 - 1))
    else if leb (b - a) (2 ^ 63)
    then negsuc ((b - a) - 1)
    else negsuc (2 ^ 63 - 1)

unfoldable pub verify :
    Platform → Verifier → Presentation → ℕ → Bytes → Bytes → Result Error DeviceCredential
verify p v x now audience challenge = do
  cert ← verify_issuer_cert p v.root x.issuer_cert now (some v.revoked_list)
  body ← open_object p cert.issuer_pub Delegation.tag_device_cred x.credential
  cred ← or_err (p.decode_credential body) malformed
  refuse_if (not (eqb_ℤ cred.version (pos 1))) unsupported_version
  refuse_if (not (length cred.device_pub == public_key_size)) malformed
  refuse_if (v.revoked_list cred.serial) revoked
  check_window cred.not_before cred.not_after now
  refuse_if (ltb_ℤ cert.max_cred_ttl (time_sub cred.not_after cred.not_before)) cred_ttl_too_long
  verify_assertion p cred.device_pub purpose_connect audience challenge x.assertion
  ok cred
