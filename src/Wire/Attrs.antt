-- ===== src/Wire/Attrs.antt =====
-- Parsing of encoded attributes and messages (wire.go of core/coldstart).
use bacchus.Shared.{
  ℕ, zero, suc, ◌+◌, ◌^◌, ◌≤◌, ◌<◌, ◌++◌, List, [], ◌∷◌, ◌≡◌, refl, sym, ap, ◌∙◌, Bytes, length,
  take, drop, replicate, take_append, drop_append, ltb, length-append, length-drop, lt→ltb,
  Bool-cases, inl, inr, le→ltb-false, ok, arith, All,
}
use bacchus.Wire.{Attribute, be16, u16, padding, encode_attrs, encode_header, parse_attrs, parse}

-- An attribute whose type and length fit in sixteen bits.
abbrev pub Fits : Attribute → Type 0
Fits a = (a.typ < 2 ^ 16) × (length a.val < 2 ^ 16)

abbrev zeros : ℕ → Bytes
zeros n = replicate n 0

length-zeros : (n : ℕ) → length (zeros n) ≡ n
length-zeros zero = omega arith
length-zeros (suc n) = omega (arith, length-zeros n)

u16-be16 : (n : ℕ) (rest : Bytes) → n < 2 ^ 16 → u16 (be16 n ++ rest) ≡ n
u16-be16 n rest h = ground arith

drop_four : (n a b c d : ℕ) (xs : Bytes) → drop (4 + n) (a ∷ b ∷ c ∷ d ∷ xs) ≡ drop n xs
drop_four n a b c d xs =
    let e : 4 + n ≡ suc (suc (suc (suc n))) = omega arith in ap (λ k. drop k (a ∷ b ∷ c ∷ d ∷ xs)) e

pub length-encode_attrs :
    (a : Attribute) (attrs : List Attribute)
    → length (encode_attrs (a ∷ attrs))
      ≡ 4 + length a.val + padding (length a.val) + length (encode_attrs attrs)
unfolding encode_attrs
length-encode_attrs a attrs =
    let pad = zeros (padding (length a.val)) in
    omega (
      arith,
      length-append a.val (pad ++ encode_attrs attrs),
      length-append pad (encode_attrs attrs),
      length-zeros (padding (length a.val)),
    )

drop-zeros : (n : ℕ) (rest : Bytes) → drop n (zeros n ++ rest) ≡ rest
drop-zeros zero rest = refl
drop-zeros (suc n) rest = drop-zeros n rest

drop_padding :
    (v : Bytes) (n : ℕ) (rest : Bytes) → drop (length v + n) (v ++ (zeros n ++ rest)) ≡ rest
drop_padding [] n rest =
    let e : 0 + n ≡ n = omega arith in ap (λ k. drop k (zeros n ++ rest)) e ∙ drop-zeros n rest
drop_padding (x ∷ v) n rest =
    let e : suc (length v) + n ≡ suc (length v + n) = omega arith in
    ap (λ k. drop k ((x ∷ v) ++ (zeros n ++ rest))) e ∙ drop_padding v n rest

parse_step :
    (fuel : ℕ) (p v rest : Bytes) (typ l : ℕ)
    → u16 p ≡ typ
    → u16 (drop 2 p) ≡ l
    → take l (drop 4 p) ≡ v
    → drop (4 + l + padding l) p ≡ rest
    → 4 + l + padding l ≤ length p
    → parse_attrs (suc fuel) p ≡ record { typ = typ; val = v } ∷ parse_attrs fuel rest
unfolding parse_attrs
parse_step fuel p v rest typ l t len val after enough =
    rw (len, val, after, t)
      (rw
        (
          le→ltb-false (length p) 4 (omega (arith, enough)),
          le→ltb-false (length p) (4 + l) (omega (arith, enough)),
          le→ltb-false (length p) (4 + l + padding l) enough,
        )
        refl)

-- The attributes parse back, with fuel for all of their bytes.
pub parse_attrs-encode_attrs :
    (fuel : ℕ) (attrs : List Attribute)
    → All Fits attrs
    → length (encode_attrs attrs) ≤ fuel
    → parse_attrs fuel (encode_attrs attrs) ≡ attrs
unfolding parse_attrs encode_attrs
parse_attrs-encode_attrs zero [] h enough = refl
parse_attrs-encode_attrs (suc fuel) [] h enough = refl
parse_attrs-encode_attrs zero (a ∷ attrs) h enough =
    absurd (omega (arith, length-encode_attrs a attrs))
parse_attrs-encode_attrs (suc fuel) (a ∷ attrs) ((typ, size), h) enough =
    let n = padding (length a.val) in
    let len = length-encode_attrs a attrs in
    let tail = zeros n ++ encode_attrs attrs in
    let rest = parse_attrs-encode_attrs fuel attrs h (omega (arith, len, enough)) in
    let e : 4 + length a.val + n ≡ 4 + (length a.val + n) = omega arith in
    let after : drop (4 + length a.val + n) (encode_attrs (a ∷ attrs)) ≡ encode_attrs attrs =
      ap (λ k. drop k (encode_attrs (a ∷ attrs))) e
      ∙ drop_four (length a.val + n) _ _ _ _ (a.val ++ tail)
      ∙ drop_padding a.val n (encode_attrs attrs) in
    parse_step fuel (encode_attrs (a ∷ attrs)) a.val (encode_attrs attrs) a.typ (length a.val)
      (u16-be16 a.typ (be16 (length a.val) ++ (a.val ++ tail)) typ)
      (u16-be16 (length a.val) (a.val ++ tail) size) (take_append a.val tail) after
      (omega (arith, len))
    ∙ ap (◌∷◌ a) rest

take_all : (xs : Bytes) → take (length xs) xs ≡ xs
take_all [] = refl
take_all (x ∷ xs) = ap (◌∷◌ x) (take_all xs)

-- A message with a header for its attributes parses to its type, its transaction and its attributes, in
-- order, if the transaction has twelve bytes and the type, the attributes and the length of all of
-- them fit in sixteen bits.
pub parse-encode_header :
    (typ : ℕ) (tx : Bytes) (attrs : List Attribute)
    → typ < 2 ^ 16
    → length tx ≡ 12
    → All Fits attrs
    → length (encode_attrs attrs) < 2 ^ 16
    → parse (encode_header typ tx (length (encode_attrs attrs)) ++ encode_attrs attrs)
      ≡ ok (record { typ = typ; tx = tx; attrs = attrs })
unfolding parse encode_header
parse-encode_header typ tx attrs small twelve fits size =
    let body = encode_attrs attrs in
    let t = u16-be16 typ [] small in
    let l = u16-be16 (length body) [] size in
    let total = length-append tx body in
    let cut : take 12 (tx ++ body) ≡ tx =
      ap (λ n. take n (tx ++ body)) (sym twelve) ∙ take_append tx body in
    let skip : drop 12 (tx ++ body) ≡ body =
      ap (λ n. drop n (tx ++ body)) (sym twelve) ∙ drop_append tx body in
    let whole = take_all body in
    let back = parse_attrs-encode_attrs (length body) attrs fits (omega arith) in
    ground (arith, t, l, total, cut, skip, whole, back)

length-drop_less :
    (n fuel : ℕ) (p : Bytes) → 4 ≤ n → 4 ≤ length p → length p ≤ suc fuel → length (drop n p) ≤ fuel
length-drop_less n fuel p h k enough = omega (arith, length-drop n p)

-- Fuel for as many bytes as there are is enough for any bytes: more changes nothing.
pub parse_attrs_enough :
    (fuel : ℕ) (p : Bytes) → length p ≤ fuel → parse_attrs (suc fuel) p ≡ parse_attrs fuel p
unfolding parse_attrs
parse_attrs_enough zero p enough = rw (lt→ltb (length p) 4 (omega arith)) refl
parse_attrs_enough (suc fuel) p enough = elim (Bool-cases (ltb (length p) 4)) [
  | inl few ↦ rw few refl
  | inr many ↦
      let n = 4 + u16 (drop 2 p) + padding (u16 (drop 2 p)) in
      let same =
        parse_attrs_enough fuel (drop n p)
          (length-drop_less n fuel p (omega arith) (ground arith) enough) in
      rw same refl
]
