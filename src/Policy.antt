-- ===== src/Policy.antt =====
-- core/policy/policy.go and core/policy/verify.go: the signed policy document, its structural check,
-- the limits of a tier, and the verification of a bundle. The decoders of `encoding/json` are fields
-- of `Platform`. A `time.Duration` and a Go `int` are signed; an error that wraps another keeps it.
pub mod Document
pub mod Rows
pub mod Fence
pub mod Accept
pub mod Cache
use bacchus.Shared.{
  ℕ, ◌-◌, List, [], ◌∷◌, Bool, true, false, not, ◌&&◌, Option, none, some, String, Bytes, length,
  ltb, ◌==◌, ℤ, pos, Result, ok, err, ◌>>=◌, ◌>>◌, refuse_if, or_err, map_err, if◌then◌else◌,
}
use bacchus.Delegation
use Document.{
  Error, malformed, not_yet_issued, stale, rollback, delegation_failed, document_failed, Policy,
  deadline, validate,
}

pub record Bundle : Type 0 where
  pub doc : Bytes
  pub cert : Bytes

pub record Platform : Type 0 where
  pub delegation : Delegation.Platform
  pub decode_bundle : Bytes → Option Bundle
  pub decode_policy : Bytes → Option Policy

pub record Verifier : Type 0 where
  pub root : Bytes
  pub revoked : String → Bool

unfoldable pub parse_bundle : Platform → Bytes → Result Error Bundle
parse_bundle p raw = do
  b ← or_err (p.decode_bundle raw) malformed
  refuse_if (length b.doc == 0) malformed
  refuse_if (length b.cert == 0) malformed
  ok b

-- A nil predicate is replaced by one that revokes nothing.
unfoldable pub new_verifier : Bytes → Option (String → Bool) → Result Delegation.Error Verifier
new_verifier root revoked = do
  refuse_if (not (length root == Delegation.public_key_size)) Delegation.no_root
  ok (record { root = root; revoked = Delegation.is_revoked revoked })

-- A document that is malformed as an envelope is reported as this package's own `ErrMalformed`.
abbrev pub document_error : Delegation.Error → Error
document_error Delegation.malformed = malformed
document_error e = document_failed e

unfoldable pub verify : Platform → Verifier → Bundle → ℕ → ℕ → Result Error Policy
verify p v b now min_seq = do
  cert ← map_err delegation_failed (
      Delegation.verify_delegation_cert p.delegation v.root b.cert Delegation.role_policy now
        (some v.revoked))
  body ←
      map_err document_error
        (Delegation.open_signed p.delegation cert.key Delegation.tag_policy_doc b.doc)
  d ← or_err (p.decode_policy body) malformed
  validate d
  refuse_if (ltb now (d.issued - Delegation.clock_skew)) not_yet_issued
  refuse_if (not (ltb now (deadline d))) stale
  refuse_if (ltb d.seq min_seq) rollback
  ok d
