-- ===== src/Geoip.antt =====
-- core/geoip: the country of an address, from a table of ranges in a file. `ranges.go` reads the file,
-- `geoip.go` checks the table and looks an address up. A loaded table's dates are not modelled.
pub mod Loaded
pub mod Find
use bacchus.Shared.{
  ℕ, zero, suc, ◌+◌, ◌*◌, List, [], ◌∷◌, Bool, true, false, not, ◌&&◌, ◌||◌, Option, none, some,
  Bytes, length, ltb, leb, ◌==◌, if◌then◌else◌, bytes_eq, Result, ok, err, ◌>>=◌, ◌>>◌, refuse_if,
  or_err, codes,
}
use bacchus.Version.{split}
use bacchus.Ranges.{Addr, unmap, less, rank, is_public, find_row}

-- `strings.TrimSpace` and `strings.ToUpper` work by Unicode tables.
pub record Unicode : Type 0 where
  pub trim_space : Bytes → Bytes
  pub to_upper : Bytes → Bytes

all_upper : Bytes → Bool
all_upper [] = true
all_upper (c ∷ cs) = (leb b'A' c && leb c b'Z') && all_upper cs

unfoldable pub canonical : Unicode → Bytes → Bytes
unfolding all_upper
canonical u cc =
    let t = u.trim_space cc in
    if not (length t == 2) then [] else let out = u.to_upper t in if all_upper out then out else []

-- `parse_addr` is `netip.ParseAddr`.
pub record Platform : Type 0 where
  pub unicode : Unicode
  pub parse_addr : Bytes → Option Addr

pub data Error : Type 0 where
  bad_field_count bad_start bad_end mixed_families reversed read_failed open_failed close_failed
        overlap implausible empty :
      Error

pub record Block : Type 0 where
  pub lo : Addr
  pub hi : Addr
  pub cc : Bytes

-- A line is passed over, counted as skipped, or a row.
pub data Line : Type 0 where
  blank skipped : Line
  row : Block → Line

abbrev pub country_unattributed : Bytes
country_unattributed = codes "ZZ"

-- The part of a line before `#`.
before_hash : Bytes → Bytes
before_hash [] = []
before_hash (c ∷ cs) = let rest = before_hash cs in if c == b'#' then [] else c ∷ rest

same_family : Addr → Addr → Bool
same_family a b = if a.is4 then b.is4 else not b.is4

abbrev attributed : Addr → Addr → Bytes → Line
attributed lo hi cc =
    if length cc == 0 || bytes_eq cc country_unattributed
    then skipped
    else row (record { lo = lo; hi = hi; cc = cc })

unfoldable pub read_fields : Platform → (Addr → Bool) → List Bytes → Result Error Line
unfolding same_family
read_fields p is (start ∷ end ∷ country ∷ []) = do
  first ← or_err (p.parse_addr (p.unicode.trim_space start)) bad_start
  last ← or_err (p.parse_addr (p.unicode.trim_space end)) bad_end
  let lo = unmap first
  let hi = unmap last
  refuse_if (not (same_family lo hi)) mixed_families
  refuse_if (less hi lo) reversed
  ok (
      if not (is lo)
      then skipped
      else attributed lo hi (canonical p.unicode (p.unicode.trim_space country)))
read_fields p is _ = err bad_field_count

unfoldable pub read_line : Platform → (Addr → Bool) → Bytes → Result Error Line
unfolding before_hash
read_line p is line =
    let text = before_hash line in
    if length (p.unicode.trim_space text) == 0
    then ok blank
    else read_fields p is (split b'\t' text)

abbrev pub add_line : Line → List Block × ℕ → List Block × ℕ
add_line blank (rows, n) = (rows, n)
add_line skipped (rows, n) = (rows, suc n)
add_line (row b) (rows, n) = (b ∷ rows, n)

unfoldable pub read_lines : Platform → (Addr → Bool) → List Bytes → Result Error (List Block × ℕ)
read_lines p is [] = ok ([], 0)
read_lines p is (line ∷ lines) = do
  l ← read_line p is line
  rest ← read_lines p is lines
  ok (add_line l rest)

-- `slices.SortFunc` by start, then by end.
abbrev comes_before : Block → Block → Bool
comes_before a b = less a.lo b.lo || ((rank a.lo == rank b.lo) && not (less b.hi a.hi))

unfoldable pub insert : Block → List Block → List Block
insert b [] = b ∷ []
insert b (c ∷ rows) =
    let rest = insert b rows in if comes_before b c then b ∷ c ∷ rows else c ∷ rest

unfoldable pub sort_blocks : List Block → List Block
sort_blocks [] = []
sort_blocks (b ∷ rows) = insert b (sort_blocks rows)

unfoldable pub read_ranges :
    Platform → (Addr → Bool) → Bool → List Bytes → Result Error (List Block × ℕ)
read_ranges p is scan_fails lines = do
  read ← read_lines p is lines
  refuse_if scan_fails read_failed
  let (rows, n) = read
  ok (sort_blocks rows, n)

unfoldable pub validate : List Block → Result Error (Unit {0})
validate [] = ok tt
validate (prev ∷ []) = ok tt
validate (prev ∷ cur ∷ rows) = do
  refuse_if (not (less prev.hi cur.lo)) overlap
  validate (cur ∷ rows)

-- More than half of the rows were unusable. The code divides as floats, which is exact up to 2^52 rows.
unfoldable pub plausible : ℕ → ℕ → Result Error (Unit {0})
plausible loaded n = refuse_if (not (n == 0) && ltb (loaded + n) (2 * n)) implausible

-- A file as it is read; `true` is an error of that call.
pub record Input : Type 0 where
  pub opening : Bool
  pub lines : List Bytes
  pub scanning : Bool
  pub closing : Bool

pub record Db : Type 0 where
  pub v4 : List Block
  pub v6 : List Block
  pub skipped_rows : ℕ

-- One round of the loop of `assemble`; `none` is an empty path.
unfoldable pub load_family : Platform → (Addr → Bool) → Option Input → Result Error (List Block × ℕ)
load_family p is none = ok ([], 0)
load_family p is (some f) = do
  refuse_if f.opening open_failed
  read ← read_ranges p is f.scanning f.lines
  refuse_if f.closing close_failed
  let (rows, n) = read
  validate rows
  plausible (length rows) n
  ok (rows, n)

abbrev pub is6 : Addr → Bool
is6 a = not a.is4

abbrev pub is4 : Addr → Bool
is4 a = a.is4

unfoldable pub load_ranges : Platform → Option Input → Option Input → Result Error Db
load_ranges p v4 v6 = do
  a ← load_family p is4 v4
  b ← load_family p is6 v6
  let (rows, n) = a
  let (rows', m) = b
  refuse_if (length rows == 0 && length rows' == 0) empty
  ok (record { v4 = rows; v6 = rows'; skipped_rows = n + m })

abbrev pub table_of : Db → Addr → List Block
table_of db ip = if ip.is4 then db.v4 else db.v6

abbrev country_of : Option Block → Option Bytes
country_of none = none
country_of (some b) = some b.cc

abbrev look_up : Db → Addr → Option Bytes
look_up db ip =
    if not (is_public ip)
    then none
    else country_of (find_row (λ b. rank b.lo) (λ b. not (less b.hi ip)) (rank ip) (table_of db ip))

-- `none` is a nil database, or an address that is not valid.
unfoldable pub lookup : Option Db → Option Addr → Option Bytes
lookup none _ = none
lookup (some db) none = none
lookup (some db) (some ip) = look_up db (unmap ip)
