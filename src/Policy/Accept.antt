-- ===== src/Policy/Accept.antt =====
-- When `Verify` of core/policy hands out a document.
use bacchus.Shared.{ℕ, ◌+◌, ◌<◌, ◌≤◌, ◌≡◌, ◌↔◌, some, Bytes, Result-cases, ok, inl, inr, arith}
use bacchus.Delegation.{
  Cert, clock_skew, tag_policy_doc, role_policy, open_signed, verify_delegation_cert,
}
use bacchus.Delegation.Envelope.{IsSigned, open_signed_iff}
use bacchus.Delegation.Gate.{IsHonoured, verify_delegation_cert_iff}
use bacchus.Policy.{Platform, Verifier, Bundle, verify}
use bacchus.Policy.Document.{Policy, validate, deadline}

-- The document `d` was signed, under the policy tag, by a key that the root delegated to the policy
-- role and that is honoured now; it is well formed, within its dates, and not below the floor.
pub record IsAccepted (p : Platform) (v : Verifier) (b : Bundle) (now min_seq : ℕ) (d : Policy)
    : Type 0 where
  pub cert : Cert
  pub delegated : IsHonoured p.delegation v.root b.cert role_policy now (some v.revoked) cert
  pub body : Bytes
  pub signed : IsSigned p.delegation cert.key tag_policy_doc b.doc body
  pub decoded : p.decode_policy body ≡ some d
  pub valid : validate d ≡ ok tt
  pub issued : d.issued ≤ now + clock_skew
  pub in_time : now < deadline d
  pub not_below : min_seq ≤ d.seq

module _ (p : Platform) (v : Verifier) (b : Bundle) (now min_seq : ℕ) (d : Policy) where
  verify-IsAccepted : verify p v b now min_seq ≡ ok d → IsAccepted p v b now min_seq d
  unfolding verify
  verify-IsAccepted h =
      elim (Result-cases
        (verify_delegation_cert p.delegation v.root b.cert role_policy now (some v.revoked))) [
          | inr (e, refused) ↦ ground arith
          | inl (cert, honoured) ↦
              elim (Result-cases (open_signed p.delegation cert.key tag_policy_doc b.doc)) [
                | inr (e, refused) ↦ ground arith
                | inl (body, opened) ↦ record {
                  cert = cert;
                  delegated =
                      (verify_delegation_cert_iff p.delegation v.root b.cert role_policy now
                          (some v.revoked) cert).0
                        honoured;
                  body = body;
                  signed =
                      (open_signed_iff p.delegation cert.key tag_policy_doc b.doc body).0 opened;
                  decoded = ground arith;
                  valid = ground arith;
                  issued = ground arith;
                  in_time = ground arith;
                  not_below = ground arith;
                }
              ]
        ]

  IsAccepted-verify : IsAccepted p v b now min_seq d → verify p v b now min_seq ≡ ok d
  unfolding verify
  IsAccepted-verify a = ground (
    arith,
    (verify_delegation_cert_iff p.delegation v.root b.cert role_policy now (some v.revoked)
          a.cert).1
        a.delegated,
    (open_signed_iff p.delegation a.cert.key tag_policy_doc b.doc a.body).1 a.signed,
  )

  -- A policy is handed out exactly when its bytes are signed under the policy tag by a key that the
  -- root delegated to the policy role and that is honoured now, it validates, it is issued at most
  -- the skew ahead of now, its expiry and grace are not over, and its sequence is at least the floor.
  pub verify_iff : (verify p v b now min_seq ≡ ok d) ↔ IsAccepted p v b now min_seq d
  verify_iff = (verify-IsAccepted, IsAccepted-verify)
