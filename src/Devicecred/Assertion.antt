-- ===== src/Devicecred/Assertion.antt =====
-- The message that a device signs (assert.go of core/devicecred).
use bacchus.Shared.{ℕ, ◌<◌, ◌^◌, ◌++◌, [], ◌∷◌, ◌≡◌, refl, String, Bytes, codes, length, arith}
use bacchus.Delegation.{signing_message}
use bacchus.Delegation.Envelope.{NoNul, signing_message_separates}
use bacchus.Devicecred.{be32, assertion_message}

be32_injective : (m n : ℕ) → m < 2 ^ 32 → n < 2 ^ 32 → be32 m ≡ be32 n → m ≡ n
be32_injective m n h k e = ground arith

append_separates : (a b x y : Bytes) → length a ≡ length b → (a ++ x) ≡ (b ++ y) → (a ≡ b) × (x ≡ y)
append_separates [] [] x y h e = (refl, e)
append_separates [] (c ∷ b) x y h e = ground arith
append_separates (c ∷ a) [] x y h e = ground arith
append_separates (c ∷ a) (d ∷ b) x y h e =
    let (same, rest) = append_separates a b x y (ground arith) (ground arith) in
    (ground (arith, same), rest)

field_separates :
    (a b x y : Bytes)
    → length a < 2 ^ 32
    → length b < 2 ^ 32
    → (be32 (length a) ++ (a ++ x)) ≡ (be32 (length b) ++ (b ++ y))
    → (a ≡ b) × (x ≡ y)
field_separates a b x y h k e =
    let (sizes, rest) =
      append_separates (be32 (length a)) (be32 (length b)) (a ++ x) (b ++ y) refl e in
    append_separates a b x y (be32_injective (length a) (length b) h k sizes) rest

-- Two assertion messages are the same only for one purpose, one audience and one challenge, where no
-- purpose has a zero byte and audiences and challenges are shorter than 2^32 bytes: a signature made
-- for one verifier's challenge is not one for another.
pub assertion_message_separates :
    (s t : String) (a b c d : Bytes)
    → NoNul (codes s)
    → NoNul (codes t)
    → length a < 2 ^ 32
    → length b < 2 ^ 32
    → length c < 2 ^ 32
    → length d < 2 ^ 32
    → assertion_message s a c ≡ assertion_message t b d
    → (codes s ≡ codes t) × (a ≡ b) × (c ≡ d)
unfolding assertion_message signing_message
assertion_message_separates s t a b c d hs ht ha hb hc hd e =
    let (purposes, fields) =
      signing_message_separates s t (be32 (length a) ++ (a ++ (be32 (length c) ++ c)))
        (be32 (length b) ++ (b ++ (be32 (length d) ++ d))) hs ht e in
    let (audiences, rest) =
      field_separates a b (be32 (length c) ++ c) (be32 (length d) ++ d) ha hb fields in
    let (sizes, challenges) = append_separates (be32 (length c)) (be32 (length d)) c d refl rest in
    (purposes, audiences, challenges)
