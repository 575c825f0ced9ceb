-- ===== src/Revocation/Accept.antt =====
-- When `Verify` of core/revocation hands out a list, and why a policy key cannot make one.
use bacchus.Shared.{ℕ, ◌≤◌, ◌≡◌, ◌↔◌, some, Bytes, Result-cases, ok, inl, inr, pos, arith}
use bacchus.Delegation.{
  Cert, role_revocations, tag_revocations_doc, open_signed, verify_delegation_cert,
}
use bacchus.Delegation.Envelope.{IsSigned, open_signed_iff}
use bacchus.Delegation.Gate.{IsHonoured, verify_delegation_cert_iff}
use bacchus.Revocation.{Platform, Verifier, Bundle, Doc, verify}

pub record IsAccepted (p : Platform) (v : Verifier) (b : Bundle) (now min_as_of : ℕ) (d : Doc)
    : Type 0 where
  pub cert : Cert
  pub delegated : IsHonoured p.delegation v.root b.cert role_revocations now (some v.revoked) cert
  pub body : Bytes
  pub signed : IsSigned p.delegation cert.key tag_revocations_doc b.revocations body
  pub decoded : p.decode_doc body ≡ some d
  pub version_one : d.version ≡ pos 1
  pub not_below : min_as_of ≤ d.as_of

module _ (p : Platform) (v : Verifier) (b : Bundle) (now min_as_of : ℕ) (d : Doc) where
  verify-IsAccepted : verify p v b now min_as_of ≡ ok d → IsAccepted p v b now min_as_of d
  unfolding verify
  verify-IsAccepted h =
      elim (Result-cases
        (verify_delegation_cert p.delegation v.root b.cert role_revocations now (some v.revoked))) [
          | inr (e, refused) ↦ ground arith
          | inl (cert, honoured) ↦
              elim (Result-cases
                (open_signed p.delegation cert.key tag_revocations_doc b.revocations)) [
                  | inr (e, refused) ↦ ground arith
                  | inl (body, opened) ↦ record {
                    cert = cert;
                    delegated =
                        (verify_delegation_cert_iff p.delegation v.root b.cert role_revocations now
                            (some v.revoked) cert).0
                          honoured;
                    body = body;
                    signed =
                        (open_signed_iff p.delegation cert.key tag_revocations_doc b.revocations
                            body).0
                          opened;
                    decoded = ground arith;
                    version_one = ground arith;
                    not_below = ground arith;
                  }
                ]
        ]

  IsAccepted-verify : IsAccepted p v b now min_as_of d → verify p v b now min_as_of ≡ ok d
  unfolding verify
  IsAccepted-verify a = ground (
    arith,
    (verify_delegation_cert_iff p.delegation v.root b.cert role_revocations now (some v.revoked)
          a.cert).1
        a.delegated,
    (open_signed_iff p.delegation a.cert.key tag_revocations_doc b.revocations a.body).1 a.signed,
  )

  -- A revocations list is handed out exactly when its bytes are signed under the revocations tag by
  -- a key that the root delegated to the revocations role and that is honoured now, it is of
  -- version 1, and its time is at least the floor. Its age is not bounded.
  pub verify_list_iff : (verify p v b now min_as_of ≡ ok d) ↔ IsAccepted p v b now min_as_of d
  verify_list_iff = (verify-IsAccepted, IsAccepted-verify)
