-- ===== src/Netd/Parse.antt =====
-- cmd/bacchus-netd/server.go: the addresses and prefixes that a client sends as texts. An address has no
-- zone here.
use bacchus.Shared.{
  ℕ, ◌-◌, ◌*◌, ◌/◌, ◌^◌, List, [], ◌∷◌, Bool, true, false, not, Option, none, some, Bytes, length,
  ◌==◌, if◌then◌else◌, Result, ok, err,
}
use bacchus.Ranges.{Addr, unmap}
use bacchus.Netd.{Prefix, Code, bad_request}

-- `strings.TrimSpace`, `netip.ParseAddr` and `netip.ParsePrefix`.
pub record Parser : Type 0 where
  pub trim_space : Bytes → Bytes
  pub parse_addr : Bytes → Option Addr
  pub parse_prefix : Bytes → Option Prefix

abbrev pub bit_len : Addr → ℕ
bit_len a = if a.is4 then 32 else 128

-- `Prefix.Masked`.
unfoldable pub masked : Prefix → Prefix
masked p =
    let unit = 2 ^ (bit_len p.addr - p.bits) in
    record { addr = record { is4 = p.addr.is4; value = p.addr.value / unit * unit }; bits = p.bits }

-- A bare address, or a prefix.
pub data Parsed : Type 0 where
  host : Addr → Parsed
  net : Prefix → Parsed

abbrev parsed_net : Option Prefix → Result Code Parsed
parsed_net none = err bad_request
parsed_net (some p) = ok (net (masked p))

abbrev parsed : Option Addr → Option Prefix → Result Code Parsed
parsed (some a) p = ok (host (unmap a))
parsed none p = parsed_net p

unfoldable pub parse_host_or_prefix : Parser → Bytes → Result Code Parsed
parse_host_or_prefix P s =
    let t = P.trim_space s in
    if length t == 0 then err bad_request else parsed (P.parse_addr t) (P.parse_prefix t)

abbrev pub as_prefix : Parsed → Prefix
as_prefix (host a) = record { addr = a; bits = bit_len a }
as_prefix (net p) = p

abbrev is6 : Addr → Bool
is6 a = not a.is4

abbrev same_bool : Bool → Bool → Bool
same_bool true b = b
same_bool false b = not b

abbrev keep : Bool → Parsed → Result Code (List Prefix) → Result Code (List Prefix)
keep want_v6 p (err e) = err e
keep want_v6 p (ok ps) =
    if same_bool (is6 (as_prefix p).addr) want_v6 then ok (as_prefix p ∷ ps) else ok ps

abbrev parse_row : Bool → Result Code Parsed → Result Code (List Prefix) → Result Code (List Prefix)
parse_row want_v6 (err e) rest = err e
parse_row want_v6 (ok p) rest = keep want_v6 p rest

unfoldable pub parse_prefixes : Parser → Bool → List Bytes → Result Code (List Prefix)
parse_prefixes P want_v6 [] = ok []
parse_prefixes P want_v6 (e ∷ es) =
    parse_row want_v6 (parse_host_or_prefix P e) (parse_prefixes P want_v6 es)
