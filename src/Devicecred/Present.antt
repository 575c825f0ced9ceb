-- ===== src/Devicecred/Present.antt =====
-- When `Verify` of core/devicecred admits a device.
use bacchus.Shared.{
  ℕ, ◌+◌, ◌<◌, ◌≤◌, String, Bool, true, false, ◌≡◌, ◌↔◌, Option, some, arith, Bytes, length, pos,
  ltb_ℤ, Result-cases, inl, inr, ok,
}
use bacchus.Delegation.{
  public_key_size, clock_skew, tag_issuer_cert, tag_device_cred, open_signed, is_revoked,
}
use bacchus.Delegation.Envelope.{IsSigned, open_signed_iff}
use bacchus.Devicecred.{
  Platform, IssuerCert, DeviceCredential, Presentation, Verifier, open_object, check_window,
  parse_issuer_cert, verify_issuer_cert, purpose_connect, min_challenge, assertion_message,
  verify_assertion, time_sub, verify,
}

module _ (p : Platform) where
  open_object_iff :
      (key : Bytes) (tag : String) (signed body : Bytes)
      → (open_object p key tag signed ≡ ok body) ↔ IsSigned p.delegation key tag signed body
  unfolding open_object
  open_object_iff key tag signed body =
      let (to, from) = open_signed_iff p.delegation key tag signed body in
      (
        λ h. elim (Result-cases (open_signed p.delegation key tag signed)) [
          | inl (b, opened) ↦ to (ground arith)
          | inr (e, refused) ↦ ground arith
        ],
        λ s. ground (arith, from s),
      )

-- The root signed these bytes as this issuer certificate, and it may issue now.
pub record IsIssuer (p : Platform) (root signed : Bytes) (now : ℕ)
    (revoked_list : Option (String → Bool)) (c : IssuerCert) : Type 0 where
  pub body : Bytes
  pub signed_body : IsSigned p.delegation root tag_issuer_cert signed body
  pub decoded : p.decode_issuer body ≡ some c
  pub version_one : c.version ≡ pos 1
  pub key_size : length c.issuer_pub ≡ public_key_size
  pub not_revoked : is_revoked revoked_list c.serial ≡ false
  pub started : c.not_before ≤ now + clock_skew
  pub running : now < c.not_after

module _ (p : Platform) (root signed : Bytes) (now : ℕ) (revoked_list : Option (String → Bool))
    (c : IssuerCert) where
  verify_issuer_cert-IsIssuer :
      verify_issuer_cert p root signed now revoked_list ≡ ok c
      → IsIssuer p root signed now revoked_list c
  unfolding verify_issuer_cert parse_issuer_cert check_window
  verify_issuer_cert-IsIssuer h = elim (Result-cases (open_object p root tag_issuer_cert signed)) [
    | inr (e, refused) ↦ ground arith
    | inl (body, opened) ↦ record {
      body = body;
      signed_body = (open_object_iff p root tag_issuer_cert signed body).0 opened;
      decoded = ground arith;
      version_one = ground arith;
      key_size = ground arith;
      not_revoked = ground arith;
      started = ground arith;
      running = ground arith;
    }
  ]

  root_sized :
      verify_issuer_cert p root signed now revoked_list ≡ ok c → length root ≡ public_key_size
  unfolding verify_issuer_cert
  root_sized h = ground arith

  IsIssuer-verify_issuer_cert :
      IsIssuer p root signed now revoked_list c
      → length root ≡ public_key_size
      → verify_issuer_cert p root signed now revoked_list ≡ ok c
  unfolding verify_issuer_cert parse_issuer_cert check_window
  IsIssuer-verify_issuer_cert a sized =
      ground (arith, (open_object_iff p root tag_issuer_cert signed a.body).1 a.signed_body)

-- The issuer, the credential that it signed for the device, and the device's signature over the
-- verifier's own audience and challenge.
pub record IsPresented (p : Platform) (v : Verifier) (x : Presentation) (now : ℕ)
    (audience challenge : Bytes) (cred : DeviceCredential) : Type 0 where
  pub sized : length v.root ≡ public_key_size
  pub cert : IssuerCert
  pub issuer : IsIssuer p v.root x.issuer_cert now (some v.revoked_list) cert
  pub body : Bytes
  pub signed_body : IsSigned p.delegation cert.issuer_pub tag_device_cred x.credential body
  pub decoded : p.decode_credential body ≡ some cred
  pub version_one : cred.version ≡ pos 1
  pub key_size : length cred.device_pub ≡ public_key_size
  pub not_revoked : v.revoked_list cred.serial ≡ false
  pub started : cred.not_before ≤ now + clock_skew
  pub running : now < cred.not_after
  pub within_cap : ltb_ℤ cert.max_cred_ttl (time_sub cred.not_after cred.not_before) ≡ false
  pub long_enough : min_challenge ≤ length challenge
  pub asserted :
      p.delegation.verify cred.device_pub
        (assertion_message purpose_connect audience challenge)
        x.assertion
      ≡ true

module _ (p : Platform) (v : Verifier) (x : Presentation) (now : ℕ) (audience challenge : Bytes)
    (cred : DeviceCredential) where
  verify-IsPresented :
      verify p v x now audience challenge ≡ ok cred → IsPresented p v x now audience challenge cred
  unfolding verify check_window verify_assertion
  verify-IsPresented h =
      elim (Result-cases (verify_issuer_cert p v.root x.issuer_cert now (some v.revoked_list))) [
        | inr (e, refused) ↦ ground arith
        | inl (cert, issued) ↦
            elim (Result-cases (open_object p cert.issuer_pub tag_device_cred x.credential)) [
              | inr (e, refused) ↦ ground arith
              | inl (body, opened) ↦ record {
                sized = root_sized p v.root x.issuer_cert now (some v.revoked_list) cert issued;
                cert = cert;
                issuer =
                    verify_issuer_cert-IsIssuer p v.root x.issuer_cert now (some v.revoked_list)
                      cert issued;
                body = body;
                signed_body =
                    (open_object_iff p cert.issuer_pub tag_device_cred x.credential body).0 opened;
                decoded = ground arith;
                version_one = ground arith;
                key_size = ground arith;
                not_revoked = ground arith;
                started = ground arith;
                running = ground arith;
                within_cap = ground arith;
                long_enough = ground arith;
                asserted = ground arith;
              }
            ]
      ]

  IsPresented-verify :
      IsPresented p v x now audience challenge cred → verify p v x now audience challenge ≡ ok cred
  unfolding verify check_window verify_assertion
  IsPresented-verify a = ground (
    arith,
    IsIssuer-verify_issuer_cert p v.root x.issuer_cert now (some v.revoked_list) a.cert a.issuer
        a.sized,
    (open_object_iff p a.cert.issuer_pub tag_device_cred x.credential a.body).1 a.signed_body,
  )

  -- A device is admitted exactly when the root signed an issuer certificate that is honoured now, its
  -- issuer signed the credential, which is unrevoked, within its dates and no longer than the
  -- certificate's cap allows, and the credential's own key signed this verifier's audience and
  -- challenge, of at least the least length, for the purpose of connecting.
  pub verify_device_iff :
      (verify p v x now audience challenge ≡ ok cred)
      ↔ IsPresented p v x now audience challenge cred
  verify_device_iff = (verify-IsPresented, IsPresented-verify)
