-- ===== src/Delegation.antt =====
-- core/delegation/delegation.go: domain-separated signatures and delegation certificates.
-- `crypto/ed25519` and `encoding/json` are not under src: they are the two fields of `Platform`.
-- A time is a number of nanoseconds from Go's zero time, so `IsZero` is `== 0`; times before it do
-- not occur, and `now.Before(nbf.Add(-skew))` is exact with the subtraction that stops at 0.
pub mod Envelope
pub mod Gate
use bacchus.Shared.{
  ℕ, ◌+◌, ◌-◌, ◌++◌, ◌∷◌, List, [], String, Bool, true, false, not, Option, none, some, Bytes,
  codes, length, take, drop, ltb, leb, ◌==◌, str_eq, ℤ, pos, eqb_ℤ, Result, ok, err, ◌>>=◌, ◌>>◌,
  refuse_if, or_err,
}

pub data Error : Type 0 where
  malformed unsupported_version bad_signature not_yet_valid expired revoked wrong_role no_root :
      Error

pub record Cert : Type 0 where
  pub version : ℤ
  pub serial : String
  pub role : String
  pub key : Bytes
  pub not_before : ℕ
  pub not_after : ℕ
  pub note : String

-- `verify key message signature`, and `json.Unmarshal` into a `Cert`.
pub record Platform : Type 0 where
  pub verify : Bytes → Bytes → Bytes → Bool
  pub decode_cert : Bytes → Option Cert

abbrev pub public_key_size : ℕ
public_key_size = 32

abbrev pub sig_len : ℕ
sig_len = 64

-- 2 minutes.
abbrev pub clock_skew : ℕ
clock_skew = 120_000_000_000

abbrev pub tag_delegation_cert : String
tag_delegation_cert = "bacchus/delegation/v1"

abbrev pub tag_policy_doc : String
tag_policy_doc = "bacchus/policy/v1"

abbrev pub tag_issuer_cert : String
tag_issuer_cert = "bacchus/issuer-cert/v1"

abbrev pub tag_device_cred : String
tag_device_cred = "bacchus/device-cred/v1"

abbrev pub tag_revocations_doc : String
tag_revocations_doc = "bacchus/revocations/v1"

abbrev pub tag_update_manifest : String
tag_update_manifest = "bacchus/update-manifest/v1"

abbrev pub role_policy : String
role_policy = "policy"

abbrev pub role_update : String
role_update = "update"

abbrev pub role_revocations : String
role_revocations = "revocations"

unfoldable pub signing_message : String → Bytes → Bytes
signing_message tag body = codes tag ++ (0 ∷ body)

unfoldable pub open_signed : Platform → Bytes → String → Bytes → Result Error Bytes
open_signed p key tag signed = do
  refuse_if (not (length key == public_key_size)) malformed
  refuse_if (leb (length signed) sig_len) malformed
  let body = take (length signed - sig_len) signed
  let sig = drop (length signed - sig_len) signed
  refuse_if (not (p.verify key (signing_message tag body) sig)) bad_signature
  ok body

unfoldable pub parse_cert : Platform → Bytes → Bytes → Result Error Cert
parse_cert p root signed = do
  body ← open_signed p root tag_delegation_cert signed
  c ← or_err (p.decode_cert body) malformed
  refuse_if (not (eqb_ℤ c.version (pos 1))) unsupported_version
  refuse_if (not (length c.key == public_key_size)) malformed
  ok c

-- A nil predicate revokes nothing.
abbrev pub is_revoked : Option (String → Bool) → String → Bool
is_revoked none serial = false
is_revoked (some f) serial = f serial

unfoldable pub verify_delegation_cert :
    Platform → Bytes → Bytes → String → ℕ → Option (String → Bool) → Result Error Cert
verify_delegation_cert p root signed expect now revoked_list = do
  refuse_if (not (length root == public_key_size)) no_root
  c ← parse_cert p root signed
  refuse_if (not (str_eq c.role expect)) wrong_role
  refuse_if (is_revoked revoked_list c.serial) revoked
  refuse_if (ltb now (c.not_before - clock_skew)) not_yet_valid
  refuse_if (not (ltb now c.not_after)) expired
  ok c
