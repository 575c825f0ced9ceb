-- ===== src/Admission.antt =====
-- core/admission/credential.go and core/admission/verify.go: signed credentials, and the verifier that
-- anchors at a set of authorities, each trusted for some roles. Ed25519, base64 and JSON are fields of
-- `Platform`; a role is a string, as in Go.
pub mod Decision
pub mod Anchors
pub mod Crl
pub mod Revocations
use bacchus.Shared.{
  ℕ, zero, suc, ◌+◌, ◌-◌, List, [], ◌∷◌, Bool, true, false, not, ◌&&◌, ◌||◌, Option, none, some,
  String, Bytes, codes, length, take, drop, ltb, leb, ◌==◌, str_eq, bytes_eq, if◌then◌else◌, ℤ, pos,
  eqb_ℤ, Result, ok, err, ◌>>=◌, ◌>>◌, refuse_if, or_err,
}

pub data Error : Type 0 where
  malformed bad_signature unsupported_version not_yet_valid expired role_not_authorized
        subject_mismatch revoked no_authority_for_role :
      Error

pub record Credential : Type 0 where
  pub version : ℤ
  pub serial : String
  pub subject : String
  pub roles : List String
  pub not_before : ℕ
  pub not_after : ℕ
  pub note : String
  pub vouched : Bool
  pub trust : String
  pub plan : String

pub record Platform : Type 0 where
  pub verify : Bytes → Bytes → Bytes → Bool
  pub decode_base64 : Bytes → Option Bytes
  pub trim_space : Bytes → Bytes
  pub decode_credential : Bytes → Option Credential

abbrev pub public_key_size : ℕ
public_key_size = 32

abbrev pub signed_len : ℕ
signed_len = 64

-- 2 minutes, in nanoseconds from Go's zero time.
abbrev pub clock_skew : ℕ
clock_skew = 120_000_000_000

abbrev pub all_roles : List String
all_roles = "client" ∷ "relay" ∷ "exit" ∷ []

-- The loop `for _, r := range roles { if r == want }`.
unfoldable pub has_role : List String → String → Bool
has_role [] want = false
has_role (r ∷ rs) want = str_eq r want || has_role rs want

unfoldable pub known : String → Bool
known r = has_role all_roles r

unfoldable pub has_prefix : Bytes → Bytes → Bool
has_prefix [] s = true
has_prefix (c ∷ cs) [] = false
has_prefix (c ∷ cs) (d ∷ ds) = c == d && has_prefix cs ds

abbrev pub cred_prefix : Bytes
cred_prefix = codes "bacchusc1:"

unfoldable pub decode : Platform → Bytes → Result Error Bytes
decode p s = do
  let t = p.trim_space s
  refuse_if (not (has_prefix cred_prefix t)) malformed
  or_err (p.decode_base64 (drop (length cred_prefix) t)) malformed

unfoldable pub parse : Platform → Bytes → Bytes → Result Error Credential
parse p key signed = do
  refuse_if (not (length key == public_key_size)) malformed
  refuse_if (leb (length signed) signed_len) malformed
  let body = take (length signed - signed_len) signed
  let sig = drop (length signed - signed_len) signed
  refuse_if (not (p.verify key body sig)) bad_signature
  c ← or_err (p.decode_credential body) malformed
  refuse_if (not (eqb_ℤ c.version (pos 1))) unsupported_version
  ok c

pub record Authority : Type 0 where
  pub key : Bytes
  pub roles : List String

unfoldable pub admits : Authority → String → Bool
admits a want = has_role a.roles want

pub record Verifier : Type 0 where
  pub authorities : List Authority
  pub revoked : String → Bool

-- A subject that is empty is not compared.
unfoldable pub accept : Credential → ℕ → String → String → (String → Bool) → Result Error (Unit {0})
accept c now want subject is_revoked = do
  refuse_if (is_revoked c.serial) revoked
  refuse_if (ltb now (c.not_before - clock_skew)) not_yet_valid
  refuse_if (not (ltb now c.not_after)) expired
  refuse_if (not (has_role c.roles want)) role_not_authorized
  refuse_if (not (str_eq subject "") && not (str_eq subject c.subject)) subject_mismatch

-- What the loop does with the parse under one authority's key: only a signature that is not valid
-- under it goes on to the next authority.
abbrev tried :
    Result Error Credential
    → (Credential → Result Error (Unit {0}))
    → Result Error Credential
    → Result Error Credential
tried (ok c) check rest = do check c; ok c
tried (err bad_signature) check rest = rest
tried (err e) check rest = err e

unfoldable pub verify_loop :
    Platform
    → (String → Bool)
    → Bytes
    → ℕ
    → String
    → String
    → ℕ
    → List Authority
    → Result Error Credential
verify_loop p is_revoked signed now want subject candidates [] =
    if candidates == 0 then err no_authority_for_role else err bad_signature
verify_loop p is_revoked signed now want subject candidates (a ∷ others) =
    let skipped = verify_loop p is_revoked signed now want subject candidates others in
    let rest = verify_loop p is_revoked signed now want subject (suc candidates) others in
    if not (admits a want)
    then skipped
    else tried (parse p a.key signed) (λ c. accept c now want subject is_revoked) rest

unfoldable pub verify : Platform → Verifier → Bytes → ℕ → String → String → Result Error Credential
unfolding verify_loop
verify p v encoded now want subject = do
  signed ← decode p encoded
  verify_loop p v.revoked signed now want subject 0 v.authorities

pub data AnchorError : Type 0 where
  no_authority bad_key_size no_roles unknown_role duplicate_key : AnchorError

unfoldable pub all_known : List String → Bool
all_known [] = true
all_known (r ∷ rs) = known r && all_known rs

unfoldable pub has_key : Bytes → List Authority → Bool
has_key key [] = false
has_key key (a ∷ others) = bytes_eq a.key key || has_key key others

-- The loop over the authorities; `seen` are those before, as the map `seen` holds their keys.
unfoldable pub check_anchors : List Authority → List Authority → Result AnchorError (Unit {0})
unfolding all_known has_key
check_anchors seen [] = ok tt
check_anchors seen (a ∷ others) = do
  refuse_if (not (length a.key == public_key_size)) bad_key_size
  refuse_if (length a.roles == 0) no_roles
  refuse_if (not (all_known a.roles)) unknown_role
  refuse_if (has_key a.key seen) duplicate_key
  check_anchors (a ∷ seen) others

-- A nil predicate revokes nothing.
abbrev revoked_or_nothing : Option (String → Bool) → String → Bool
revoked_or_nothing none serial = false
revoked_or_nothing (some f) serial = f serial

unfoldable pub new_authority_set_verifier :
    List Authority → Option (String → Bool) → Result AnchorError Verifier
unfolding check_anchors
new_authority_set_verifier authorities is_revoked = do
  refuse_if (length authorities == 0) no_authority
  check_anchors [] authorities
  ok (record { authorities = authorities; revoked = revoked_or_nothing is_revoked })

-- One authority, trusted for every role.
unfoldable pub new_verifier : Bytes → Option (String → Bool) → Verifier
new_verifier key is_revoked = record {
  authorities = record { key = key; roles = all_roles } ∷ [];
  revoked = revoked_or_nothing is_revoked;
}
