-- ===== src/Admission/Crl.antt =====
-- core/admission/crl.go: the signed list of revoked credentials, and the copy that a client keeps in
-- force. The 64-byte signature covers the whole body.
use bacchus.Shared.{
  ℕ, ◌-◌, ◌<◌, List, [], ◌∷◌, Bool, true, false, not, ◌≡◌, refl, Option, none, some, String, Bytes,
  In, codes, length, take, drop, ltb, leb, ◌==◌, ℤ, pos, eqb_ℤ, arith, Result, Option-cases, ◌⊎◌,
  Result-cases, inl, inr, ok, err, ◌>>=◌, ◌>>◌, refuse_if, or_err,
}
use bacchus.Admission.{public_key_size, has_prefix, has_role}
use bacchus.Admission.Decision.{has_role-In}

pub data Error : Type 0 where
  malformed bad_signature unsupported_version expired : Error

pub record Crl : Type 0 where
  pub version : ℤ
  pub issued_at : ℕ
  pub expires_at : ℕ
  pub serials : List String

pub record Platform : Type 0 where
  pub verify : Bytes → Bytes → Bytes → Bool
  pub decode_base64 : Bytes → Option Bytes
  pub trim_space : Bytes → Bytes
  pub decode_crl : Bytes → Option Crl

abbrev pub crl_prefix : Bytes
crl_prefix = codes "bacchusr1:"

abbrev pub crl_signed_len : ℕ
crl_signed_len = 64

unfoldable pub parse_crl : Platform → Bytes → Bytes → Result Error Crl
parse_crl p key encoded = do
  let t = p.trim_space encoded
  refuse_if (not (has_prefix crl_prefix t)) malformed
  refuse_if (not (length key == public_key_size)) malformed
  signed ← or_err (p.decode_base64 (drop (length crl_prefix) t)) malformed
  refuse_if (leb (length signed) crl_signed_len) malformed
  let body = take (length signed - crl_signed_len) signed
  let sig = drop (length signed - crl_signed_len) signed
  refuse_if (not (p.verify key body sig)) bad_signature
  c ← or_err (p.decode_crl body) malformed
  refuse_if (not (eqb_ℤ c.version (pos 1))) unsupported_version
  ok c

unfoldable pub verify_crl : Platform → Bytes → Bytes → ℕ → Result Error Crl
verify_crl p key encoded now = do
  c ← parse_crl p key encoded
  refuse_if (not (ltb now c.expires_at)) expired
  ok c

unfoldable pub crl_revoked : Crl → String → Bool
crl_revoked c serial = has_role c.serials serial

-- `cur` is nil until the first list is set.
pub record ClientCrl : Type 0 where
  pub key : Bytes
  pub cur : Option Crl

unfoldable pub new_client_crl : Bytes → ClientCrl
new_client_crl key = record { key = key; cur = none }

abbrev keep_or_set : ClientCrl → Result Error Crl → Result Error (Unit {0}) × ClientCrl
keep_or_set c (ok crl) = (ok tt, record c { cur = some crl })
keep_or_set c (err e) = (err e, c)

unfoldable pub set : Platform → ClientCrl → Bytes → ℕ → Result Error (Unit {0}) × ClientCrl
unfolding verify_crl
set p c encoded now = keep_or_set c (verify_crl p c.key encoded now)

abbrev in_force : Option Crl → String → Bool
in_force none serial = false
in_force (some crl) serial = crl_revoked crl serial

unfoldable pub revoked : ClientCrl → String → Bool
revoked c serial = in_force c.cur serial

-- The lists that were set one after the other; a list that is refused is passed over.
unfoldable pub run : Platform → ClientCrl → List (Bytes × ℕ) → ClientCrl
run p c [] = c
run p c ((encoded, now) ∷ rest) = run p (set p c encoded now).1 rest

-- The list in force is one that this client was given, signed by its key and in date when it was
-- given, or none is.
abbrev pub IsGiven : Platform → Bytes → List (Bytes × ℕ) → Crl → Type 0
IsGiven p key given crl =
    (g : Bytes × ℕ) × In g given × (parse_crl p key g.0 ≡ ok crl) × (g.1 < crl.expires_at)

module _ (p : Platform) (key : Bytes) where
  parse_crl_of_verify_crl :
      (encoded : Bytes) (now : ℕ) (crl : Crl)
      → verify_crl p key encoded now ≡ ok crl
      → (parse_crl p key encoded ≡ ok crl) × (now < crl.expires_at)
  unfolding verify_crl
  parse_crl_of_verify_crl encoded now crl h = elim (Result-cases (parse_crl p key encoded)) [
    | inl (c, parsed) ↦ (ground arith, ground arith)
    | inr (e, refused) ↦ ground arith
  ]

  run-IsGiven :
      (given : List (Bytes × ℕ)) (c : ClientCrl) (crl : Crl)
      → c.key ≡ key
      → (run p c given).cur ≡ some crl
      → (c.cur ≡ some crl) ⊎ IsGiven p key given crl
  unfolding run set
  run-IsGiven [] c crl k h = inl h
  run-IsGiven ((encoded, now) ∷ rest) c crl k h =
      elim (Result-cases (verify_crl p c.key encoded now)) [
        | inl (new, verified) ↦
            elim (run-IsGiven rest (set p c encoded now).1 crl (ground arith) h) [
              | inl kept ↦
                  let ok_crl = parse_crl_of_verify_crl encoded now crl (ground arith) in
                  inr ((encoded, now), inl refl, ok_crl.0, ok_crl.1)
              | inr (g, m, parsed, in_date) ↦ inr (g, inr m, parsed, in_date)
            ]
        | inr (e, refused) ↦ elim (run-IsGiven rest (set p c encoded now).1 crl (ground arith) h) [
          | inl kept ↦ inl (ground arith)
          | inr (g, m, parsed, in_date) ↦ inr (g, inr m, parsed, in_date)
        ]
      ]

-- A client that started with no list takes a serial for revoked only if it was given a list that
-- parses under its authority's key, was in date when given, and names the serial: a list that is
-- refused never changes the one in force.
pub run_revoked :
    (p : Platform) (key : Bytes) (given : List (Bytes × ℕ)) (serial : String)
    → revoked (run p (new_client_crl key) given) serial ≡ true
    → (crl : Crl) × IsGiven p key given crl × In serial crl.serials
unfolding revoked crl_revoked new_client_crl
run_revoked p key given serial h = elim (Option-cases (run p (new_client_crl key) given).cur) [
  | inl never ↦ ground arith
  | inr (crl, current) ↦ elim (run-IsGiven p key given (new_client_crl key) crl refl current) [
    | inl before ↦ ground arith
    | inr g ↦ (crl, g, (has_role-In crl.serials serial).0 (ground arith))
  ]
]
