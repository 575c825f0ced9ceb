-- ===== src/Asn/Find.antt =====
-- The autonomous system of an address, against the lines of the table's file.
use bacchus.Shared.{
  ℕ, ◌≤◌, List, Bool, true, false, ◌≡◌, ◌↔◌, refl, arith, Option, none, some, In, Bytes, ok,
}
use bacchus.Ranges.{Addr, unmap, rank, is_public, find_row}
use bacchus.Ranges.Rows.{find_row_iff}
use bacchus.Asn.{Platform, Span, Table, contains, read, table_of, as_of, lookup_as}
use bacchus.Asn.Loaded.{first, last, IsRow, IsLine, IsLoaded, read_lem, contains_between}

-- A line of the file has this number and a prefix that contains the address.
abbrev pub IsListed : Platform → List Bytes → Addr → ℕ → Type 0
IsListed p lines ip n =
    (s : Span) × IsLine p lines s × (contains s.prefix ip ≡ true) × (s.number ≡ n)

contains_start :
    (is4 : Bool) (s : Span) (ip : Addr)
    → IsRow is4 s
    → contains s.prefix ip ≡ true
    → (ip.is4 ≡ is4) × (first s ≤ rank ip)
unfolding contains
contains_start true s ip (family, masks) h = (ground arith, ground arith)
contains_start false s ip (family, masks) h = (ground arith, ground arith)

family_of : (s : Span) (ip : Addr) → contains s.prefix ip ≡ true → s.prefix.addr.is4 ≡ ip.is4
unfolding contains
family_of s ip h = ground arith

contains_iff :
    (is4 : Bool) (s : Span) (ip : Addr)
    → IsRow is4 s
    → (contains s.prefix ip ≡ true) ↔ ((ip.is4 ≡ is4) × (first s ≤ rank ip) × (rank ip ≤ last s))
contains_iff is4 s ip a = (
  λ h.
      let (family, above) = contains_start is4 s ip a h in
      (family, above, (contains_between is4 s ip a family above).0 h),
  λ (family, above, below). (contains_between is4 s ip a family above).1 below,
)

module _ (p : Platform) (lines : List Bytes) (ip : Addr) (n : ℕ) where
  found_iff :
      (rows : List Span)
      → IsLoaded p lines ip.is4 rows
      → ((s : Span) × (find_row first (λ s. contains s.prefix ip) (rank ip) rows ≡ some s)
          × (s.number ≡ n))
        ↔ IsListed p lines ip n
  found_iff rows (table, of_lines, row_of) = (
    λ (s, found, is).
        let (member, (from, to)) = (found_at s).0 found in
        (
          s,
          ((of_lines s).0 member).0,
          (contains_iff ip.is4 s ip (row_of s member)).1 (refl, from, to),
          is,
        ),
    λ (s, line, inside, is).
        let member = (of_lines s).1 (line, family_of s ip inside) in
        let (_, from, to) = (contains_iff ip.is4 s ip (row_of s member)).0 inside in
        (s, (found_at s).1 (member, (from, to)), is),
  )
    where
      found_at :
          (s : Span)
          → (find_row first (λ s. contains s.prefix ip) (rank ip) rows ≡ some s)
            ↔ (In s rows × ((first s ≤ rank ip) × (rank ip ≤ last s)))
      found_at s =
          find_row_iff first last (λ s. contains s.prefix ip) (rank ip) rows s table
            (λ s m k. contains_between ip.is4 s ip (row_of s m) refl (omega (arith, k)))

as_of_iff :
    (o : Option Span) (n : ℕ) → (as_of o ≡ some n) ↔ ((s : Span) × (o ≡ some s) × (s.number ≡ n))
as_of_iff none n = (λ h. ground arith, λ h. ground arith)
as_of_iff (some s) n = (λ h. (s, refl, ground arith), λ (x, same, is). ground arith)

-- With the table read from a file, an address resolves to this system exactly when it is public, once
-- a v4 address in a v6 form is taken for the v4 address that it is, and a line of the file reads as a
-- prefix that contains the address with this number: reading drops and invents nothing, and the binary
-- search misses nothing.
pub lookup_as_iff :
    (p : Platform) (scan_fails : Bool) (lines : List Bytes) (t : Table) (a : Addr) (n : ℕ)
    → read p scan_fails lines ≡ ok t
    → (lookup_as (some t) (some a) ≡ some n)
      ↔ ((is_public (unmap a) ≡ true) × IsListed p lines (unmap a) n)
unfolding lookup_as
lookup_as_iff p scan_fails lines t a n loaded =
    let ip = unmap a in
    let row = find_row first (λ s. contains s.prefix ip) (rank ip) (table_of t ip) in
    let (to, from) =
      found_iff p lines ip n (table_of t ip) (read_lem p scan_fails lines t ip loaded) in
    let (opened, closed) = as_of_iff row n in
    (
      λ h. (ground arith, to (opened (ground arith))),
      λ (public, listed). ground (arith, closed (from listed)),
    )
