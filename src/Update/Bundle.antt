-- ===== src/Update/Bundle.antt =====
-- core/update/verify.go: a manifest with its delegation certificate, and when it is believed.
pub mod Accept
use bacchus.Shared.{
  ℕ, ◌-◌, Bool, not, Option, some, String, Bytes, length, ltb, ◌==◌, Result, ok, ◌>>=◌, ◌>>◌,
  refuse_if, or_err, map_err,
}
use bacchus.Delegation
use bacchus.Update.Manifest
use bacchus.Update.Manifest.{
  Error, malformed, not_yet_issued, expired, rollback, delegation_failed, manifest_failed, validate,
}

pub record Bundle : Type 0 where
  pub manifest : Bytes
  pub cert : Bytes

pub record Platform : Type 0 where
  pub delegation : Delegation.Platform
  pub decode_bundle : Bytes → Option Bundle
  pub decode_manifest : Bytes → Option Manifest.Manifest

pub record Verifier : Type 0 where
  pub root : Bytes
  pub revoked : String → Bool

unfoldable pub parse_bundle : Platform → Bytes → Result Error Bundle
parse_bundle p raw = do
  b ← or_err (p.decode_bundle raw) malformed
  refuse_if (length b.manifest == 0) malformed
  refuse_if (length b.cert == 0) malformed
  ok b

unfoldable pub new_verifier : Bytes → Option (String → Bool) → Result Delegation.Error Verifier
new_verifier root revoked = do
  refuse_if (not (length root == Delegation.public_key_size)) Delegation.no_root
  ok (record { root = root; revoked = Delegation.is_revoked revoked })

abbrev pub manifest_error : Delegation.Error → Error
manifest_error Delegation.malformed = malformed
manifest_error e = manifest_failed e

unfoldable pub verify : Platform → Verifier → Bundle → ℕ → ℕ → Result Error Manifest.Manifest
verify p v b now min_seq = do
  cert ← map_err delegation_failed (
      Delegation.verify_delegation_cert p.delegation v.root b.cert Delegation.role_update now
        (some v.revoked))
  body ←
      map_err manifest_error
        (Delegation.open_signed p.delegation cert.key Delegation.tag_update_manifest b.manifest)
  m ← or_err (p.decode_manifest body) malformed
  validate m
  refuse_if (ltb now (m.issued - Delegation.clock_skew)) not_yet_issued
  refuse_if (not (ltb now m.expires)) expired
  refuse_if (ltb m.seq min_seq) rollback
  ok m
