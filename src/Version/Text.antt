-- ===== src/Version/Text.antt =====
-- `Version.String` and `Parse` of core/version: the text of a version parses back to it.
use bacchus.Shared.{
  ℕ, zero, suc, ◌+◌, ◌/◌, ◌%◌, ◌^◌, ◌<◌, ◌++◌, [], ◌∷◌, true, ◌≡◌, ◌≢◌, refl, ◌∙◌, arith, some,
  Bytes, All, ok,
}
use bacchus.Version.{
  Version, split, is_digit, digits_value, parse_uint, component, parse, decimal_loop, decimal,
  to_string,
}

-- A decimal numeral: digits alone, and at least one.
pub component_of_digits :
    (c : ℕ) (cs : Bytes) (n : ℕ)
    → digits_value 0 (c ∷ cs) ≡ some n
    → n < 2 ^ 63
    → component (c ∷ cs) ≡ ok n
unfolding component digits_value parse_uint
component_of_digits c cs n h b = ground arith

abbrev pub AllDigits : Bytes → Type 0
AllDigits = All (λ c. is_digit c ≡ true)

decimal_loop-AllDigits : (f n : ℕ) (acc : Bytes) → AllDigits acc → AllDigits (decimal_loop f n acc)
unfolding decimal_loop
decimal_loop-AllDigits zero n acc h = h
decimal_loop-AllDigits (suc f) n acc h =
    ground (arith, decimal_loop-AllDigits f (n / 10) ((b'0' + n % 10) ∷ acc))

digits_value-decimal_loop :
    (f n : ℕ) (acc : Bytes) → n < f → digits_value 0 (decimal_loop f n acc) ≡ digits_value n acc
unfolding decimal_loop digits_value
digits_value-decimal_loop zero n acc h = absurd (omega arith)
digits_value-decimal_loop (suc f) n acc h =
    ground (arith, digits_value-decimal_loop f (n / 10) ((b'0' + n % 10) ∷ acc))

split_no_sep : (s : Bytes) → AllDigits s → split b'.' s ≡ s ∷ []
unfolding split
split_no_sep [] h = refl
split_no_sep (c ∷ s) h = ground (arith, split_no_sep s h.1)

split_at_sep : (s t : Bytes) → AllDigits s → split b'.' (s ++ (b'.' ∷ t)) ≡ s ∷ split b'.' t
unfolding split
split_at_sep [] t h = refl
split_at_sep (c ∷ s) t h = ground (arith, split_at_sep s t h.1)

decimal_loop_nonempty : (f n c : ℕ) (acc : Bytes) → decimal_loop f n (c ∷ acc) ≢ []
unfolding decimal_loop
decimal_loop_nonempty zero n c acc = λ e. cc
decimal_loop_nonempty (suc f) n c acc =
    ground (arith, decimal_loop_nonempty f (n / 10) (b'0' + n % 10) (c ∷ acc))

decimal_nonempty : (n : ℕ) → decimal n ≢ []
unfolding decimal decimal_loop
decimal_nonempty n = ground (arith, decimal_loop_nonempty n (n / 10) (b'0' + n % 10) [])

component_of_numeral :
    (s : Bytes) (n : ℕ) → s ≢ [] → digits_value 0 s ≡ some n → n < 2 ^ 63 → component s ≡ ok n
component_of_numeral [] n ne h b = absurd (ne refl)
component_of_numeral (c ∷ cs) n ne h b = component_of_digits c cs n h b

component-decimal : (n : ℕ) → n < 2 ^ 63 → component (decimal n) ≡ ok n
unfolding decimal
component-decimal n h =
    component_of_numeral (decimal n) n (decimal_nonempty n)
      (digits_value-decimal_loop (suc n) n [] (omega arith) ∙ empty_tail n) h
  where
    empty_tail : (m : ℕ) → digits_value m [] ≡ some m
    empty_tail m = unfold digits_value in refl

decimal-AllDigits : (n : ℕ) → AllDigits (decimal n)
unfolding decimal
decimal-AllDigits n = decimal_loop-AllDigits (suc n) n [] tt

split-to_string :
    (v : Version)
    → split b'.' (to_string v) ≡ decimal v.major ∷ decimal v.minor ∷ decimal v.patch ∷ []
unfolding to_string
split-to_string v = ground (
  arith,
  split_at_sep (decimal v.major) (decimal v.minor ++ (b'.' ∷ decimal v.patch))
      (decimal-AllDigits v.major),
  split_at_sep (decimal v.minor) (decimal v.patch) (decimal-AllDigits v.minor),
  split_no_sep (decimal v.patch) (decimal-AllDigits v.patch),
)

-- Round trip: the text of a version whose components fit a 64-bit signed integer parses to it.
pub parse-to_string :
    (v : Version)
    → v.major < 2 ^ 63
    → v.minor < 2 ^ 63
    → v.patch < 2 ^ 63
    → parse (to_string v) ≡ ok v
unfolding parse
parse-to_string v h k l = rw (split-to_string v) (
    rw (component-decimal v.major h, component-decimal v.minor k, component-decimal v.patch l) refl)
