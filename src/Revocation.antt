-- ===== src/Revocation.antt =====
-- core/revocation: the signed list of revoked devices. revocation.go is the document and its
-- bundle, verify.go the verification; the state file of cache.go is FloorCache with a floor of times.
pub mod Accept
pub mod Cache
use bacchus.Shared.{
  ℕ, List, Bool, not, Option, some, String, Bytes, length, ltb, ◌==◌, ℤ, pos, eqb_ℤ, Result, ok,
  ◌>>=◌, ◌>>◌, refuse_if, or_err, map_err,
}
use bacchus.Delegation

pub data Error : Type 0 where
  malformed unsupported_version rollback : Error
  delegation_failed document_failed : Delegation.Error → Error

pub record Doc : Type 0 where
  pub version : ℤ
  pub as_of : ℕ
  pub revoked : List String

pub record Bundle : Type 0 where
  pub revocations : Bytes
  pub cert : Bytes

pub record Platform : Type 0 where
  pub delegation : Delegation.Platform
  pub decode_bundle : Bytes → Option Bundle
  pub decode_doc : Bytes → Option Doc

pub record Verifier : Type 0 where
  pub root : Bytes
  pub revoked : String → Bool

unfoldable pub parse_bundle : Platform → Bytes → Result Error Bundle
parse_bundle p raw = do
  b ← or_err (p.decode_bundle raw) malformed
  refuse_if (length b.revocations == 0) malformed
  refuse_if (length b.cert == 0) malformed
  ok b

unfoldable pub new_verifier : Bytes → Option (String → Bool) → Result Delegation.Error Verifier
new_verifier root revoked = do
  refuse_if (not (length root == Delegation.public_key_size)) Delegation.no_root
  ok (record { root = root; revoked = Delegation.is_revoked revoked })

abbrev pub document_error : Delegation.Error → Error
document_error Delegation.malformed = malformed
document_error e = document_failed e

unfoldable pub verify : Platform → Verifier → Bundle → ℕ → ℕ → Result Error Doc
verify p v b now min_as_of = do
  cert ← map_err delegation_failed (
      Delegation.verify_delegation_cert p.delegation v.root b.cert Delegation.role_revocations now
        (some v.revoked))
  body ←
      map_err document_error
        (Delegation.open_signed p.delegation cert.key Delegation.tag_revocations_doc b.revocations)
  d ← or_err (p.decode_doc body) malformed
  refuse_if (not (eqb_ℤ d.version (pos 1))) unsupported_version
  refuse_if (ltb d.as_of min_as_of) rollback
  ok d
