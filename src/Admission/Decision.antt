-- ===== src/Admission/Decision.antt =====
-- The admission decision of core/admission: when a credential is accepted, and that an authority
-- decides only for the roles that it is trusted for.
use bacchus.Shared.{
  ℕ, suc, ◌+◌, ◌<◌, ◌≤◌, List, [], ◌∷◌, ◌++◌, Bool, true, false, ◌≡◌, ◌↔◌, ◌⊎◌, inl, inr, refl,
  String, Bytes, In, All, arith, str_eq_iff, Result, Result-cases, Bool-cases, ok, err, ◌>>◌,
}
use bacchus.Admission.{
  Platform, Credential, Authority, Verifier, Error, bad_signature, no_authority_for_role,
  clock_skew, has_role, admits, decode, parse, accept, tried, verify_loop, verify,
}

pub has_role-In :
    (roles : List String) (want : String) → (has_role roles want ≡ true) ↔ In want roles
unfolding has_role
has_role-In [] want = (λ h. ground arith, λ m. absurd m)
has_role-In (r ∷ rs) want = (
  λ h. ground (arith, (has_role-In rs want).0, str_eq_iff r want),
  λ m. ground (arith, (has_role-In rs want).1, str_eq_iff r want),
)

-- What a credential must be to be used at a time, for a role and by a subject.
pub record IsUsable (c : Credential) (now : ℕ) (want subject : String)
    (revoked_list : String → Bool) : Type 0 where
  pub not_revoked : revoked_list c.serial ≡ false
  pub started : c.not_before ≤ now + clock_skew
  pub running : now < c.not_after
  pub authorised : In want c.roles
  pub subject_matches : (subject ≡ "") ⊎ (subject ≡ c.subject)

-- A credential is accepted exactly when it is not revoked, the time is at most the skew before its
-- start and strictly before its end, it authorises the role, and the subject, if one is given, is
-- its own.
pub accept_iff :
    (c : Credential) (now : ℕ) (want subject : String) (revoked_list : String → Bool)
    → (accept c now want subject revoked_list ≡ ok tt) ↔ IsUsable c now want subject revoked_list
unfolding accept
accept_iff c now want subject revoked_list = (
  λ h. record {
    not_revoked = ground arith;
    started = ground arith;
    running = ground arith;
    authorised = (has_role-In c.roles want).0 (ground arith);
    subject_matches = ground (arith, str_eq_iff subject "", str_eq_iff subject c.subject);
  },
  λ u. ground (
    arith,
    (has_role-In c.roles want).1 u.authorised,
    str_eq_iff subject "",
    str_eq_iff subject c.subject,
  ),
)

-- One turn of the loop: a credential comes from this authority and is accepted, or from the rest.
tried-ok :
    (r : Result Error Credential) (check : Credential → Result Error (Unit {0}))
    (rest : Result Error Credential) (c : Credential)
    → tried r check rest ≡ ok c
    → ((r ≡ ok c) × (check c ≡ ok tt)) ⊎ (rest ≡ ok c)
tried-ok (ok c') check rest c h = inl (accepted (check c') refl h)
  where
    accepted :
        (u : Result Error (Unit {0}))
        → check c' ≡ u
        → (u >> ok c') ≡ ok c
        → (◌≡◌ {A = Result Error Credential} (ok c') (ok c)) × (check c ≡ ok tt)
    accepted (ok _) e h' = (h', ground arith)
    accepted (err x) e h' = ground arith
tried-ok (err bad_signature) check rest c h = inr h
tried-ok (err _) check rest c h = ground arith

-- An authority of the set, trusted for the role, whose key signed the credential.
abbrev pub Vouches : Platform → Bytes → String → Credential → List Authority → Type 0
Vouches p signed want c authorities =
    (a : Authority) × In a authorities × (admits a want ≡ true) × (parse p a.key signed ≡ ok c)

module _ (p : Platform) (revoked_list : String → Bool) (signed : Bytes) (now : ℕ)
    (want subject : String) where
  abbrev decide : ℕ → List Authority → Result Error Credential
  decide n authorities = verify_loop p revoked_list signed now want subject n authorities

  decide-Vouches :
      (n : ℕ) (authorities : List Authority) (c : Credential)
      → decide n authorities ≡ ok c
      → Vouches p signed want c authorities × (accept c now want subject revoked_list ≡ ok tt)
  unfolding verify_loop
  decide-Vouches n [] c h = ground arith
  decide-Vouches n (a ∷ others) c h = elim (Bool-cases (admits a want)) [
    | inr no_role ↦
        let ((x, m, ad, pa), acc) = decide-Vouches n others c (ground arith) in
        ((x, inr m, ad, pa), acc)
    | inl role ↦
        elim (tried-ok (parse p a.key signed) (λ c'. accept c' now want subject revoked_list)
          (decide (suc n) others) c (ground arith)) [
            | inl (parsed, accepted) ↦ ((a, inl refl, role, parsed), accepted)
            | inr later ↦
                let ((x, m, ad, pa), acc) = decide-Vouches (suc n) others c later in
                ((x, inr m, ad, pa), acc)
          ]
  ]

  decide_skips :
      (n : ℕ) (before after : List Authority) (b : Authority)
      → admits b want ≡ false
      → decide n (before ++ (b ∷ after)) ≡ decide n (before ++ after)
  unfolding verify_loop
  decide_skips n [] after b h = ground arith
  decide_skips n (a ∷ before) after b h =
      rw (decide_skips n before after b h, decide_skips (suc n) before after b h) refl

  decide_unadmitted :
      (authorities : List Authority)
      → All (λ a. admits a want ≡ false) authorities
      → decide 0 authorities ≡ err no_authority_for_role
  unfolding verify_loop
  decide_unadmitted [] h = refl
  decide_unadmitted (a ∷ others) h = rw h.0 (decide_unadmitted others h.1)

module _ (p : Platform) (v : Verifier) (encoded : Bytes) (now : ℕ) (want subject : String) where
  -- A credential that `Verify` hands out was signed by an anchored authority that is trusted for the
  -- role asked for, and is usable now, for that role and by that subject.
  pub verify_sound :
      (c : Credential)
      → verify p v encoded now want subject ≡ ok c
      → (signed : Bytes) × (decode p encoded ≡ ok signed)
        × Vouches p signed want c v.authorities
        × IsUsable c now want subject v.revoked
  unfolding verify
  verify_sound c h = elim (Result-cases (decode p encoded)) [
    | inr (e, refused) ↦ ground arith
    | inl (signed, decoded) ↦
        let (vouched, accepted) =
          decide-Vouches p v.revoked signed now want subject 0 v.authorities c (ground arith) in
        (signed, decoded, vouched, (accept_iff c now want subject v.revoked).0 accepted)
  ]

-- An authority that is not trusted for a role has no influence on who is admitted to it: with it and
-- without it, wherever it stands in the set, `Verify` returns the same credential or error.
pub verify_ignores_unadmitting :
    (p : Platform) (v : Verifier) (before after : List Authority) (b : Authority) (encoded : Bytes)
    (now : ℕ) (want subject : String)
    → admits b want ≡ false
    → v.authorities ≡ before ++ (b ∷ after)
    → verify p v encoded now want subject
      ≡ verify p (record v { authorities = before ++ after }) encoded now want subject
unfolding verify
verify_ignores_unadmitting p v before after b encoded now want subject h e =
    elim (Result-cases (decode p encoded)) [
      | inr (x, refused) ↦ ground arith
      | inl (signed, decoded) ↦
          ground (arith, decide_skips p v.revoked signed now want subject 0 before after b h)
    ]

-- Where no anchored authority is trusted for the role, every credential that decodes is refused for
-- that reason, whoever signed it.
pub verify_unadmitted :
    (p : Platform) (v : Verifier) (encoded signed : Bytes) (now : ℕ) (want subject : String)
    → decode p encoded ≡ ok signed
    → All (λ a. admits a want ≡ false) v.authorities
    → verify p v encoded now want subject ≡ err no_authority_for_role
unfolding verify
verify_unadmitted p v encoded signed now want subject d h =
    ground (arith, decide_unadmitted p v.revoked signed now want subject v.authorities h)
