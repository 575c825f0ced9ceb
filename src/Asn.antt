-- ===== src/Asn.antt =====
-- core/asn/asn.go: the autonomous system of an address, from a table of disjoint prefixes.
pub mod Loaded
pub mod Find
use bacchus.Shared.{
  ℕ, zero, suc, ◌+◌, ◌-◌, ◌%◌, ◌^◌, List, [], ◌∷◌, Bool, true, false, not, ◌&&◌, Option, none, some,
  Bytes, length, ltb, leb, ◌==◌, if◌then◌else◌, Result, ok, err, ◌>>=◌, ◌>>◌, refuse_if, or_err,
}
use bacchus.Version.{parse_uint}
use bacchus.Ranges.{Addr, unmap, less, rank, is_public, find_row}

-- `netip.Prefix`.
pub record Prefix : Type 0 where
  pub addr : Addr
  pub bits : ℕ

abbrev pub size : Prefix → ℕ
size p = 2 ^ ((if p.addr.is4 then 32 else 128) - p.bits)

-- `Prefix.Masked`, as an address.
abbrev pub masked : Prefix → Addr
masked p = record p.addr { value = p.addr.value - p.addr.value % size p }

abbrev same_family : Addr → Addr → Bool
same_family a b = if a.is4 then b.is4 else not b.is4

-- `Prefix.Contains`: the addresses from the masked one on.
unfoldable pub contains : Prefix → Addr → Bool
contains p a =
    same_family p.addr a && leb (masked p).value a.value && ltb a.value ((masked p).value + size p)

pub record Span : Type 0 where
  pub prefix : Prefix
  pub number : ℕ

pub record Table : Type 0 where
  pub v4 : List Span
  pub v6 : List Span
  pub rows : ℕ

-- `parse_prefix` is `netip.ParsePrefix`; `strings.TrimSpace` and `strings.Fields` work by Unicode
-- tables.
pub record Platform : Type 0 where
  pub trim_space : Bytes → Bytes
  pub fields : Bytes → List Bytes
  pub parse_prefix : Bytes → Option Prefix

pub data Error : Type 0 where
  bad_field_count bad_prefix host_bits bad_asn reserved_asn read_failed empty overlap : Error

before_hash : Bytes → Bytes
before_hash [] = []
before_hash (c ∷ cs) = let rest = before_hash cs in if c == b'#' then [] else c ∷ rest

unfoldable pub read_fields : Platform → List Bytes → Result Error Span
read_fields p (prefix ∷ number ∷ []) = do
  x ← or_err (p.parse_prefix prefix) bad_prefix
  refuse_if (not ((masked x).value == x.addr.value)) host_bits
  n ← or_err (parse_uint 32 number) bad_asn
  refuse_if (n == 0) reserved_asn
  ok (record { prefix = record x { addr = masked x }; number = n })
read_fields p _ = err bad_field_count

abbrev as_row : Result Error Span → Result Error (Option Span)
as_row (ok s) = ok (some s)
as_row (err e) = err e

unfoldable pub read_line : Platform → Bytes → Result Error (Option Span)
unfolding before_hash
read_line p line =
    let text = p.trim_space (before_hash line) in
    if length text == 0 then ok none else as_row (read_fields p (p.fields text))

abbrev pub add_row : Option Span → Table → Table
add_row none t = t
add_row (some s) t =
    if s.prefix.addr.is4
    then record t { v4 = s ∷ t.v4; rows = suc t.rows }
    else record t { v6 = s ∷ t.v6; rows = suc t.rows }

unfoldable pub read_lines : Platform → List Bytes → Result Error Table
read_lines p [] = ok (record { v4 = []; v6 = []; rows = 0 })
read_lines p (line ∷ lines) = do
  row ← read_line p line
  rest ← read_lines p lines
  ok (add_row row rest)

-- `slices.SortFunc` by the address of the prefix.
unfoldable pub insert : Span → List Span → List Span
insert s [] = s ∷ []
insert s (x ∷ rows) =
    let rest = insert s rows in
    if not (less x.prefix.addr s.prefix.addr) then s ∷ x ∷ rows else x ∷ rest

unfoldable pub sort_spans : List Span → List Span
sort_spans [] = []
sort_spans (s ∷ rows) = insert s (sort_spans rows)

unfoldable pub validate : List Span → Result Error (Unit {0})
validate [] = ok tt
validate (prev ∷ []) = ok tt
validate (prev ∷ cur ∷ rows) = do
  refuse_if (contains prev.prefix cur.prefix.addr) overlap
  validate (cur ∷ rows)

-- `Read`; `true` is an error of the scanner after its last line.
unfoldable pub read : Platform → Bool → List Bytes → Result Error Table
read p scan_fails lines = do
  t ← read_lines p lines
  refuse_if scan_fails read_failed
  refuse_if (t.rows == 0) empty
  let v4 = sort_spans t.v4
  let v6 = sort_spans t.v6
  validate v4
  validate v6
  ok (record t { v4 = v4; v6 = v6 })

abbrev pub table_of : Table → Addr → List Span
table_of t ip = if ip.is4 then t.v4 else t.v6

abbrev as_of : Option Span → Option ℕ
as_of none = none
as_of (some s) = some s.number

abbrev look_up : Table → Addr → Option ℕ
look_up t ip =
    if not (is_public ip)
    then none
    else as_of
        (find_row (λ s. rank s.prefix.addr) (λ s. contains s.prefix ip) (rank ip) (table_of t ip))

-- `LookupAS`; `none` is a nil table, or an address that is not valid.
unfoldable pub lookup_as : Option Table → Option Addr → Option ℕ
lookup_as none _ = none
lookup_as (some t) none = none
lookup_as (some t) (some ip) = look_up t (unmap ip)
