-- ===== src/Geoip/Find.antt =====
-- The country of an address, against the lines of the files that the table was loaded from.
use bacchus.Shared.{
  ◌≤◌, ◌<◌, List, Bool, true, not, ◌≡◌, ◌↔◌, inl, inr, refl, arith, if◌then◌else◌, Bool-cases,
  Option, none, some, Bytes, ok, Result-cases,
}
use bacchus.Ranges.{Addr, unmap, less, rank, is_public, find_row}
use bacchus.Ranges.Rows.{find_row_iff}
use bacchus.Geoip.{
  Platform, Block, Input, Db, is4, is6, load_family, load_ranges, table_of, country_of, lookup,
}
use bacchus.Geoip.Loaded.{first, last, IsLine, file_lines, IsLoaded, load_family_lem}

-- The file of the family of an address.
abbrev pub file_of : Option Input → Option Input → Addr → Option Input
file_of v4 v6 ip = if ip.is4 then v4 else v6

abbrev pub in_family : Addr → Addr → Bool
in_family ip = if ip.is4 then is4 else is6

-- A line of the file for this address has its range around the address and this country.
abbrev pub IsListed : Platform → List Bytes → Addr → Bytes → Type 0
IsListed p lines ip cc =
    (b : Block) × IsLine p (in_family ip) lines b
    × (rank b.lo ≤ rank ip)
    × (rank ip ≤ rank b.hi)
    × (b.cc ≡ cc)

load_ranges_lem :
    (p : Platform) (v4 v6 : Option Input) (db : Db) (ip : Addr)
    → load_ranges p v4 v6 ≡ ok db
    → IsLoaded p (in_family ip) (file_of v4 v6 ip) (table_of db ip)
unfolding load_ranges
load_ranges_lem p v4 v6 db ip h = elim (Result-cases (load_family p is4 v4)) [
  | inr (x, bad) ↦ ground arith
  | inl ((rows, n), good) ↦ elim (Result-cases (load_family p is6 v6)) [
    | inr (x, bad) ↦ ground arith
    | inl ((rows', m), good') ↦
        let is_v4 : db.v4 ≡ rows = ground arith in
        let is_v6 : db.v6 ≡ rows' = ground arith in
        elim (Bool-cases ip.is4) [
          | inl four ↦ rw (four, is_v4) (load_family_lem p is4 v4 rows n good)
          | inr six ↦ rw (six, is_v6) (load_family_lem p is6 v6 rows' m good')
        ]
  ]
]

module _ (p : Platform) (v4 v6 : Option Input) (db : Db) (ip : Addr) (cc : Bytes) where
  covers_iff : (b : Block) → first b < rank ip → (not (less b.hi ip) ≡ true) ↔ (rank ip ≤ last b)
  covers_iff b h = ground arith

  found_iff :
      (rows : List Block)
      → IsLoaded p (in_family ip) (file_of v4 v6 ip) rows
      → ((b : Block) × (find_row first (λ b. not (less b.hi ip)) (rank ip) rows ≡ some b)
          × (b.cc ≡ cc))
        ↔ IsListed p (file_lines (file_of v4 v6 ip)) ip cc
  found_iff rows (table, lines) = (
    λ (b, found, is).
        let (member, (from, to)) =
          (find_row_iff first last (λ b. not (less b.hi ip)) (rank ip) rows b table
              (λ s m. covers_iff s)).0
            found in
        (b, (lines b).0 member, from, to, is),
    λ (b, line, from, to, is). (
      b,
      (find_row_iff first last (λ b. not (less b.hi ip)) (rank ip) rows b table
            (λ s m. covers_iff s)).1
          ((lines b).1 line, (from, to)),
      is,
    ),
  )

country_of_iff :
    (o : Option Block) (cc : Bytes)
    → (country_of o ≡ some cc) ↔ ((b : Block) × (o ≡ some b) × (b.cc ≡ cc))
country_of_iff none cc = (λ h. ground arith, λ h. ground arith)
country_of_iff (some b) cc = (λ h. (b, refl, ground arith), λ (c, same, is). ground arith)

-- With tables loaded from the files of the two families, an address has this country exactly when it
-- is public, once a v4 address in a v6 form is taken for the v4 address that it is, and a line of its
-- family's file reads as a range around the address with that country: loading drops and invents
-- nothing, and the binary search misses nothing.
pub lookup_iff :
    (p : Platform) (v4 v6 : Option Input) (db : Db) (a : Addr) (cc : Bytes)
    → load_ranges p v4 v6 ≡ ok db
    → (lookup (some db) (some a) ≡ some cc) ↔ (
        (is_public (unmap a) ≡ true)
        × IsListed p (file_lines (file_of v4 v6 (unmap a))) (unmap a) cc)
unfolding lookup
lookup_iff p v4 v6 db a cc loaded =
    let ip = unmap a in
    let row = find_row first (λ b. not (less b.hi ip)) (rank ip) (table_of db ip) in
    let (to, from) =
      found_iff p v4 v6 db ip cc (table_of db ip) (load_ranges_lem p v4 v6 db ip loaded) in
    let (opened, closed) = country_of_iff row cc in
    (
      λ h. (ground arith, to (opened (ground arith))),
      λ (public, listed). ground (arith, closed (from listed)),
    )
