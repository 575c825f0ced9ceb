-- ===== src/Delegation/Gate.antt =====
-- When `VerifyDelegationCert` of core/delegation hands out a certificate, and with what it refuses.
use bacchus.Shared.{
  ℕ, ◌+◌, ◌<◌, ◌≤◌, String, Bool, false, ◌≡◌, ◌↔◌, Option, some, arith, Bytes, length, pos,
  str_eq_iff, Result-cases, inl, inr, ok,
}
use bacchus.Delegation.{
  Platform, Cert, public_key_size, clock_skew, tag_delegation_cert, open_signed, parse_cert,
  is_revoked, verify_delegation_cert,
}
use bacchus.Delegation.Envelope.{IsSigned, open_signed_iff}

-- The root signed these bytes as this certificate.
pub record IsCert (p : Platform) (root signed : Bytes) (c : Cert) : Type 0 where
  pub body : Bytes
  pub signed_body : IsSigned p root tag_delegation_cert signed body
  pub decoded : p.decode_cert body ≡ some c
  pub version_one : c.version ≡ pos 1
  pub key_size : length c.key ≡ public_key_size

-- And it may act for this role at this time.
pub record IsHonoured (p : Platform) (root signed : Bytes) (expect : String) (now : ℕ)
    (revoked_list : Option (String → Bool)) (c : Cert) : Type 0 where
  pub issued : IsCert p root signed c
  pub role_matches : c.role ≡ expect
  pub not_revoked : is_revoked revoked_list c.serial ≡ false
  pub started : c.not_before ≤ now + clock_skew
  pub running : now < c.not_after

module _ (p : Platform) (root signed : Bytes) (c : Cert) where
  parse_cert-IsCert : parse_cert p root signed ≡ ok c → IsCert p root signed c
  unfolding parse_cert
  parse_cert-IsCert h = elim (Result-cases (open_signed p root tag_delegation_cert signed)) [
    | inl (body, opened) ↦ record {
      body = body;
      signed_body = (open_signed_iff p root tag_delegation_cert signed body).0 opened;
      decoded = ground arith;
      version_one = ground arith;
      key_size = ground arith;
    }
    | inr (e, refused) ↦ ground arith
  ]

  IsCert-parse_cert : IsCert p root signed c → parse_cert p root signed ≡ ok c
  unfolding parse_cert
  IsCert-parse_cert v =
      ground (arith, (open_signed_iff p root tag_delegation_cert signed v.body).1 v.signed_body)

module _ (p : Platform) (root signed : Bytes) (expect : String) (now : ℕ)
    (revoked_list : Option (String → Bool)) (c : Cert) where
  verify_delegation_cert-IsHonoured :
      verify_delegation_cert p root signed expect now revoked_list ≡ ok c
      → IsHonoured p root signed expect now revoked_list c
  unfolding verify_delegation_cert
  verify_delegation_cert-IsHonoured h = elim (Result-cases (parse_cert p root signed)) [
    | inl (c', parsed) ↦ ground (
      arith,
      parse_cert-IsCert p root signed c,
      str_eq_iff c.role expect,
      str_eq_iff c'.role expect,
    )
    | inr (e, refused) ↦ ground arith
  ]

  IsHonoured-verify_delegation_cert :
      IsHonoured p root signed expect now revoked_list c
      → verify_delegation_cert p root signed expect now revoked_list ≡ ok c
  unfolding verify_delegation_cert
  IsHonoured-verify_delegation_cert v = ground (
    arith,
    IsCert-parse_cert p root signed c v.issued,
    v.issued.signed_body.key_size,
    str_eq_iff c.role expect,
  )

  -- A delegation certificate is honoured exactly when the root signed it under the delegation tag,
  -- it is of version 1 with a 32-byte key, it names the role asked for, its serial is not revoked,
  -- and the time is at most the skew before its start and strictly before its end.
  pub verify_delegation_cert_iff :
      (verify_delegation_cert p root signed expect now revoked_list ≡ ok c)
      ↔ IsHonoured p root signed expect now revoked_list c
  verify_delegation_cert_iff =
      (verify_delegation_cert-IsHonoured, IsHonoured-verify_delegation_cert)
