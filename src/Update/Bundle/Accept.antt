-- ===== src/Update/Bundle/Accept.antt =====
-- When `Verify` of core/update hands out a manifest.
use bacchus.Shared.{ℕ, ◌+◌, ◌<◌, ◌≤◌, ◌≡◌, ◌↔◌, some, Bytes, Result-cases, ok, inl, inr, arith}
use bacchus.Delegation.{
  Cert, clock_skew, tag_update_manifest, role_update, open_signed, verify_delegation_cert,
}
use bacchus.Delegation.Envelope.{IsSigned, open_signed_iff}
use bacchus.Delegation.Gate.{IsHonoured, verify_delegation_cert_iff}
use bacchus.Update.Manifest.{Manifest, validate}
use bacchus.Update.Bundle.{Platform, Verifier, Bundle, verify}

-- The manifest was signed, under the manifest tag, by a key that the root delegated to the update
-- role and that is honoured now; it is well formed, within its dates, and not below the floor.
pub record IsAccepted (p : Platform) (v : Verifier) (b : Bundle) (now min_seq : ℕ) (m : Manifest)
    : Type 0 where
  pub cert : Cert
  pub delegated : IsHonoured p.delegation v.root b.cert role_update now (some v.revoked) cert
  pub body : Bytes
  pub signed : IsSigned p.delegation cert.key tag_update_manifest b.manifest body
  pub decoded : p.decode_manifest body ≡ some m
  pub valid : validate m ≡ ok tt
  pub issued : m.issued ≤ now + clock_skew
  pub in_time : now < m.expires
  pub not_below : min_seq ≤ m.seq

module _ (p : Platform) (v : Verifier) (b : Bundle) (now min_seq : ℕ) (m : Manifest) where
  verify-IsAccepted : verify p v b now min_seq ≡ ok m → IsAccepted p v b now min_seq m
  unfolding verify
  verify-IsAccepted h =
      elim (Result-cases
        (verify_delegation_cert p.delegation v.root b.cert role_update now (some v.revoked))) [
          | inr (e, refused) ↦ ground arith
          | inl (cert, honoured) ↦
              elim (Result-cases
                (open_signed p.delegation cert.key tag_update_manifest b.manifest)) [
                  | inr (e, refused) ↦ ground arith
                  | inl (body, opened) ↦ record {
                    cert = cert;
                    delegated =
                        (verify_delegation_cert_iff p.delegation v.root b.cert role_update now
                            (some v.revoked) cert).0
                          honoured;
                    body = body;
                    signed =
                        (open_signed_iff p.delegation cert.key tag_update_manifest b.manifest
                            body).0
                          opened;
                    decoded = ground arith;
                    valid = ground arith;
                    issued = ground arith;
                    in_time = ground arith;
                    not_below = ground arith;
                  }
                ]
        ]

  IsAccepted-verify : IsAccepted p v b now min_seq m → verify p v b now min_seq ≡ ok m
  unfolding verify
  IsAccepted-verify a = ground (
    arith,
    (verify_delegation_cert_iff p.delegation v.root b.cert role_update now (some v.revoked)
          a.cert).1
        a.delegated,
    (open_signed_iff p.delegation a.cert.key tag_update_manifest b.manifest a.body).1 a.signed,
  )

  -- A release manifest is handed out exactly when its bytes are signed under the manifest tag by a
  -- key that the root delegated to the update role and that is honoured now, it validates, it is
  -- issued at most the skew ahead of now, it has not expired, and its sequence is at least the floor.
  pub verify_manifest_iff : (verify p v b now min_seq ≡ ok m) ↔ IsAccepted p v b now min_seq m
  verify_manifest_iff = (verify-IsAccepted, IsAccepted-verify)
