-- ===== src/Wire.antt =====
-- core/coldstart/wire.go: messages of a fixed header and padded attributes, as STUN lays them out. The
-- CRC of a message is an argument.
pub mod Attrs
pub mod Courier
use bacchus.Shared.{
  ℕ, zero, suc, ◌+◌, ◌-◌, ◌*◌, ◌/◌, ◌%◌, ◌^◌, ◌++◌, List, [], ◌∷◌, Bool, true, false, not, Option,
  none, some, Bytes, length, take, drop, replicate, ltb, ◌==◌, if◌then◌else◌, Result, ok, err,
  ◌>>=◌, ◌>>◌, refuse_if,
}

pub data Error : Type 0 where
  short_message bad_cookie bad_length : Error

abbrev pub type_binding_request : ℕ
type_binding_request = 1

abbrev pub attr_proof : ℕ
attr_proof = 0xc002

abbrev pub attr_fingerprint : ℕ
attr_fingerprint = 0x8028

abbrev pub header_len : ℕ
header_len = 20

-- The header and the CRC of a fingerprint attribute.
abbrev pub fingerprint_attr_len : ℕ
fingerprint_attr_len = 8

pub record Attribute : Type 0 where
  pub typ : ℕ
  pub val : Bytes

pub record Message : Type 0 where
  pub typ : ℕ
  pub tx : Bytes
  pub attrs : List Attribute

unfoldable pub get_in : List Attribute → ℕ → Option Bytes
get_in [] typ = none
get_in (a ∷ attrs) typ = if a.typ == typ then some a.val else get_in attrs typ

-- `message.get`.
unfoldable pub get : Message → ℕ → Option Bytes
get m typ = get_in m.attrs typ

-- `PutUint16` of `uint16(n)`, and `Uint16`.
abbrev pub be16 : ℕ → Bytes
be16 n = (n / 256) % 256 ∷ n % 256 ∷ []

abbrev pub u16 : Bytes → ℕ
u16 (h ∷ l ∷ bytes) = h * 256 + l
u16 _ = 0

abbrev pub padding : ℕ → ℕ
padding n = if (n % 4) == 0 then 0 else 4 - n % 4

unfoldable pub encode_attrs : List Attribute → Bytes
encode_attrs [] = []
encode_attrs (a ∷ attrs) =
    be16 a.typ
    ++ (be16 (length a.val)
        ++ (a.val ++ (replicate (padding (length a.val)) 0 ++ encode_attrs attrs)))

abbrev pub magic_cookie : Bytes
magic_cookie = 0x21 ∷ 0x12 ∷ 0xa4 ∷ 0x42 ∷ []

-- `tx` has twelve bytes.
unfoldable pub encode_header : ℕ → Bytes → ℕ → Bytes
encode_header typ tx attr_len = be16 typ ++ (be16 attr_len ++ (magic_cookie ++ tx))

is_cookie : Bytes → Bool
is_cookie (a ∷ b ∷ c ∷ d ∷ bytes) =
    if a == 0x21
    then (if b == 0x12 then (if c == 0xa4 then d == 0x42 else false) else false)
    else false
is_cookie _ = false

-- The loop of `parse`, on as much fuel as there are bytes.
unfoldable pub parse_attrs : ℕ → Bytes → List Attribute
parse_attrs zero p = []
parse_attrs (suc fuel) p =
    let l = u16 (drop 2 p) in
    let adv = 4 + l + padding l in
    let rest = parse_attrs fuel (drop adv p) in
    if ltb (length p) 4
    then []
    else if ltb (length p) (4 + l)
    then []
    else record { typ = u16 p; val = take l (drop 4 p) } ∷ (if ltb (length p) adv then [] else rest)

unfoldable pub parse : Bytes → Result Error Message
unfolding is_cookie
parse b = do
  refuse_if (ltb (length b) header_len) short_message
  refuse_if (not (is_cookie (drop 4 b))) bad_cookie
  let attr_len = u16 (drop 2 b)
  refuse_if (ltb (length b) (header_len + attr_len)) bad_length
  ok (record {
    typ = u16 b;
    tx = take 12 (drop 8 b);
    attrs = parse_attrs attr_len (take attr_len (drop header_len b));
  })

-- `fingerprint` is the CRC of a message, with the constant of STUN.
unfoldable pub build_courier_request : (Bytes → Bytes) → Bytes → Bytes → Bytes
build_courier_request fingerprint tx proof =
    let unsigned = record { typ = attr_proof; val = proof } ∷ [] in
    let body = encode_attrs unsigned in
    let hdr = encode_header type_binding_request tx (length body + fingerprint_attr_len) in
    let signed =
      unsigned ++ (record { typ = attr_fingerprint; val = fingerprint (hdr ++ body) } ∷ []) in
    encode_header type_binding_request tx (length (encode_attrs signed)) ++ encode_attrs signed
