-- ===== src/Version.antt =====
-- core/version/version.go: parsing, comparing and gating on release versions. `strings.Split`,
-- `strconv.Atoi` and `strconv.ParseUint` are written out over bytes; a Go `int` has 64 bits.
pub mod Order
pub mod Text
use bacchus.Shared.{
  ℕ, zero, suc, ◌+◌, ◌*◌, ◌-◌, ◌/◌, ◌%◌, ◌^◌, ◌++◌, List, [], ◌∷◌, Bool, true, false, not, ◌&&◌,
  ◌||◌, Option, none, some, Bytes, length, ltb, leb, ◌==◌, if◌then◌else◌, ℤ, pos, negsuc, Result,
  ok, err, ◌>>=◌, ◌>>◌, refuse_if, or_err,
}

pub record Version : Type 0 where
  pub major : ℕ
  pub minor : ℕ
  pub patch : ℕ

pub data Error : Type 0 where
  not_three_parts bad_component : Error

-- `strings.Split(s, sep)` for a separator of one byte: never empty.
abbrev pub cons_head : ℕ → List Bytes → List Bytes
cons_head c [] = (c ∷ []) ∷ []
cons_head c (part ∷ parts) = (c ∷ part) ∷ parts

unfoldable pub split : ℕ → Bytes → List Bytes
split sep [] = [] ∷ []
split sep (c ∷ cs) = let rest = split sep cs in if c == sep then [] ∷ rest else cons_head c rest

abbrev pub is_digit : ℕ → Bool
is_digit c = leb b'0' c && leb c b'9'

-- The value of a run of decimal digits, `acc` before it; `none` at any other byte.
unfoldable pub digits_value : ℕ → Bytes → Option ℕ
digits_value acc [] = some acc
digits_value acc (c ∷ cs) =
    let rest = digits_value (acc * 10 + (c - b'0')) cs in if is_digit c then rest else none

-- `strconv.ParseUint(s, 10, bits)`.
unfoldable pub parse_uint : ℕ → Bytes → Option ℕ
parse_uint bits [] = none
parse_uint bits (c ∷ cs) = elim (digits_value 0 (c ∷ cs)) [
  | none ↦ none
  | some n ↦ if ltb n (2 ^ bits) then some n else none
]

-- `strconv.Atoi`: an optional sign, then digits, within 64 bits.
atoi_negative : Bytes → Option ℤ
atoi_negative s = elim (parse_uint 64 s) [
  | none ↦ none
  | some zero ↦ some (pos 0)
  | some (suc n) ↦ if ltb n (2 ^ 63) then some (negsuc n) else none
]

atoi_positive : Bytes → Option ℤ
atoi_positive s = elim (parse_uint 63 s) [ none ↦ none | some n ↦ some (pos n) ]

unfoldable pub atoi : Bytes → Option ℤ
unfolding atoi_negative atoi_positive
atoi [] = none
atoi (c ∷ cs) =
    if c == b'-'
    then atoi_negative cs
    else if c == b'+'
    then atoi_positive cs
    else atoi_positive (c ∷ cs)

-- One turn of the loop of `Parse`: a component that is not a number, or is negative, is refused.
unfoldable pub component : Bytes → Result Error ℕ
unfolding atoi
component s = elim (atoi s) [
  | none ↦ err bad_component
  | some (pos n) ↦ ok n
  | some (negsuc n) ↦ err bad_component
]

abbrev parse_parts : List Bytes → Result Error Version
parse_parts (a ∷ b ∷ c ∷ []) = do
  x ← component a
  y ← component b
  z ← component c
  ok (record { major = x; minor = y; patch = z })
parse_parts _ = err not_three_parts

unfoldable pub parse : Bytes → Result Error Version
parse s = parse_parts (split b'.' s)

-- The first difference that is not 0 decides.
first_difference : List (ℕ × ℕ) → ℤ
first_difference [] = pos 0
first_difference ((a, b) ∷ ds) =
    if ltb a b then negsuc 0 else if ltb b a then pos 1 else first_difference ds

unfoldable pub compare_to : Version → Version → ℤ
unfolding first_difference
compare_to v o =
    first_difference ((v.major, o.major) ∷ (v.minor, o.minor) ∷ (v.patch, o.patch) ∷ [])

unfoldable pub serving_allowed : Version → Version → Bool
unfolding compare_to
serving_allowed node floor = elim (compare_to node floor) [ pos _ ↦ true | negsuc _ ↦ false ]

unfoldable pub client_must_update : Version → Version → Bool
client_must_update client network = ltb client.major network.major

-- `fmt`'s `%d` of a number that is not negative: the digits, most significant first. The fuel is
-- one more than the number, and the number falls tenfold in each round.
pub decimal_loop : ℕ → ℕ → Bytes → Bytes
decimal_loop zero n acc = acc
decimal_loop (suc f) n acc =
    let rest = decimal_loop f (n / 10) ((b'0' + n % 10) ∷ acc) in
    if ltb n 10 then (b'0' + n) ∷ acc else rest

unfoldable pub decimal : ℕ → Bytes
decimal n = decimal_loop (suc n) n []

unfoldable pub to_string : Version → Bytes
to_string v = decimal v.major ++ (b'.' ∷ (decimal v.minor ++ (b'.' ∷ decimal v.patch)))
