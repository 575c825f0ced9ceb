-- ===== src/Asn/Loaded.antt =====
-- A loaded table of prefixes of core/asn, and the lines of its file.
use bacchus.Shared.{
  ℕ, zero, suc, ◌+◌, ◌-◌, ◌^◌, ◌≤◌, ◌<◌, List, [], ◌∷◌, Bool, true, false, not, ◌≡◌, ◌↔◌, ◌⊎◌, inl,
  inr, refl, arith, if◌then◌else◌, Bool-cases, Option, none, some, In, Bytes, ok, Result-cases,
}
use bacchus.Ranges.{Addr, less, rank}
use bacchus.Ranges.Rows.{IsTable}
use bacchus.Asn.{
  Platform, Span, Table, size, masked, contains, read_fields, before_hash, read_line, add_row,
  read_lines, insert, sort_spans, validate, read, table_of,
}

abbrev pub first : Span → ℕ
first s = rank s.prefix.addr

abbrev pub last : Span → ℕ
last s = (rank s.prefix.addr + size s.prefix) - 1

-- A row of this family, without host bits.
abbrev pub IsRow : Bool → Span → Type 0
IsRow is4 s = (s.prefix.addr.is4 ≡ is4) × ((masked s.prefix).value ≡ s.prefix.addr.value)

size_positive : (n : ℕ) → 0 < 2 ^ n
size_positive zero = omega arith
size_positive (suc n) = omega (arith, size_positive n)

abbrev tables : Bool → Table → List Span
tables is4 t = if is4 then t.v4 else t.v6

In-insert : (b c : Span) (rows : List Span) → In b (insert c rows) ↔ ((b ≡ c) ⊎ In b rows)
unfolding insert
In-insert b c [] = (λ h. h, λ h. h)
In-insert b c (d ∷ rows) =
    let (to, from) = In-insert b c rows in
    elim (Bool-cases (not (less d.prefix.addr c.prefix.addr))) [
      | inl is ↦ rw is (λ h. h, λ h. h)
      | inr is ↦ rw is (ground (arith, to), ground (arith, from))
    ]

pub In-sort_spans : (b : Span) (rows : List Span) → In b (sort_spans rows) ↔ In b rows
unfolding sort_spans
In-sort_spans b [] = (λ h. h, λ h. h)
In-sort_spans b (c ∷ rows) =
    let (to, from) = In-sort_spans b rows in
    let (to', from') = In-insert b c (sort_spans rows) in
    (
      λ h. elim (to' h) [ inl e ↦ inl e | inr m ↦ inr (to m) ],
      λ h. elim h [ inl e ↦ from' (inl e) | inr m ↦ from' (inr (from m)) ],
    )

abbrev StartsAfter : ℕ → List Span → Type 0
StartsAfter n [] = Unit {0}
StartsAfter n (s ∷ rows) = n ≤ first s

abbrev Sorted : List Span → Type 0
Sorted [] = Unit {0}
Sorted (s ∷ rows) = StartsAfter (first s) rows × Sorted rows

insert-StartsAfter :
    (n : ℕ) (c : Span) (rows : List Span)
    → n ≤ first c
    → StartsAfter n rows
    → StartsAfter n (insert c rows)
unfolding insert
insert-StartsAfter n c [] k h = k
insert-StartsAfter n c (d ∷ rows) k h = ground arith

insert-Sorted : (c : Span) (rows : List Span) → Sorted rows → Sorted (insert c rows)
unfolding insert
insert-Sorted c [] h = (tt, tt)
insert-Sorted c (d ∷ rows) (after, h) = elim (Bool-cases (not (less d.prefix.addr c.prefix.addr))) [
  | inl is ↦ rw is (ground arith, (after, h))
  | inr is ↦
      rw is (insert-StartsAfter (first d) c rows (ground arith) after, insert-Sorted c rows h)
]

sort_spans-Sorted : (rows : List Span) → Sorted (sort_spans rows)
unfolding sort_spans
sort_spans-Sorted [] = tt
sort_spans-Sorted (s ∷ rows) = insert-Sorted s (sort_spans rows) (sort_spans-Sorted rows)

-- In one family, what a row without host bits contains is what lies between its ends.
pub contains_between :
    (is4 : Bool) (s : Span) (ip : Addr)
    → IsRow is4 s
    → ip.is4 ≡ is4
    → first s ≤ rank ip
    → (contains s.prefix ip ≡ true) ↔ (rank ip ≤ last s)
unfolding contains
contains_between true s ip (family, masks) same k =
    let positive = size_positive (32 - s.prefix.bits) in (λ h. ground arith, λ h. ground arith)
contains_between false s ip (family, masks) same k =
    let positive = size_positive (128 - s.prefix.bits) in (λ h. ground arith, λ h. ground arith)

-- Two rows of one family in order, the first of which does not contain the second's address.
ends_before :
    (is4 : Bool) (s x : Span)
    → IsRow is4 s
    → IsRow is4 x
    → first s ≤ first x
    → contains s.prefix x.prefix.addr ≡ false
    → last s < first x
ends_before is4 s x a b k apart =
    let (_, from) = contains_between is4 s x.prefix.addr a b.0 k in ground (arith, from)

first-last : (is4 : Bool) (s : Span) → IsRow is4 s → first s ≤ last s
first-last true s (family, masks) =
    let positive = size_positive (32 - s.prefix.bits) in ground arith
first-last false s (family, masks) =
    let positive = size_positive (128 - s.prefix.bits) in ground arith

validate-IsTable :
    (is4 : Bool) (rows : List Span)
    → validate rows ≡ ok tt
    → Sorted rows
    → ((s : Span) → In s rows → IsRow is4 s)
    → IsTable first last rows
unfolding validate
validate-IsTable is4 [] h sorted all = tt
validate-IsTable is4 (s ∷ []) h sorted all = (first-last is4 s (all s (inl refl)), tt, tt)
validate-IsTable is4 (s ∷ x ∷ rows) h (after, sorted) all = (
  first-last is4 s (all s (inl refl)),
  ends_before is4 s x (all s (inl refl)) (all x (inr (inl refl))) after (ground arith),
  validate-IsTable is4 (x ∷ rows) (ground arith) sorted (λ y m. all y (inr m)),
)

-- Some line of the file reads as this row.
abbrev pub IsLine : Platform → List Bytes → Span → Type 0
IsLine p [] s = ⊥
IsLine p (line ∷ lines) s = (read_line p line ≡ ok (some s)) ⊎ IsLine p lines s

module _ (p : Platform) where
  read_fields_row :
      (fields : List Bytes) (s : Span)
      → read_fields p fields ≡ ok s
      → (masked s.prefix).value ≡ s.prefix.addr.value
  unfolding read_fields
  read_fields_row [] s h = ground arith
  read_fields_row (x ∷ []) s h = ground arith
  read_fields_row (x ∷ y ∷ []) s h = ground arith
  read_fields_row (x ∷ y ∷ z ∷ fields) s h = ground arith

  read_line_row :
      (line : Bytes) (s : Span)
      → read_line p line ≡ ok (some s)
      → (masked s.prefix).value ≡ s.prefix.addr.value
  unfolding read_line
  read_line_row line s h =
      ground (arith, read_fields_row (p.fields (p.trim_space (before_hash line))) s)

  IsLine-masked :
      (lines : List Bytes) (s : Span)
      → IsLine p lines s
      → (masked s.prefix).value ≡ s.prefix.addr.value
  IsLine-masked [] s h = absurd h
  IsLine-masked (line ∷ lines) s (inl e) = read_line_row line s e
  IsLine-masked (line ∷ lines) s (inr m) = IsLine-masked lines s m

  -- The tables read are the rows of the lines, by family.
  abbrev Reads : List Bytes → Table → Type 0
  Reads lines t =
      (is4 : Bool) (s : Span) → In s (tables is4 t) ↔ (IsLine p lines s × (s.prefix.addr.is4 ≡ is4))

  add_row-Reads :
      (line : Bytes) (lines : List Bytes) (o : Option Span) (t : Table)
      → read_line p line ≡ ok o
      → Reads lines t
      → Reads (line ∷ lines) (add_row o t)
  add_row-Reads line lines none t e same is4 s =
      let (to, from) = same is4 s in
      (
        λ m. (let (l, f) = to m in (inr l, f)),
        λ (l, f). elim l [ inl x ↦ ground arith | inr m ↦ from (m, f) ],
      )
  add_row-Reads line lines (some x) t e same true s =
      let (to, from) = same true s in (λ m. ground (arith, to), λ h. ground (arith, from))
  add_row-Reads line lines (some x) t e same false s =
      let (to, from) = same false s in (λ m. ground (arith, to), λ h. ground (arith, from))

  read_lines-Reads : (lines : List Bytes) (t : Table) → read_lines p lines ≡ ok t → Reads lines t
  unfolding read_lines
  read_lines-Reads [] t h is4 s = ground arith
  read_lines-Reads (line ∷ lines) t h is4 s = elim (Result-cases (read_line p line)) [
    | inr (x, bad) ↦ ground arith
    | inl (o, good) ↦ elim (Result-cases (read_lines p lines)) [
      | inr (x, bad) ↦ ground arith
      | inl (t', rest) ↦
          let same : add_row o t' ≡ t = ground arith in
          rw⁻¹ same (add_row-Reads line lines o t' good (read_lines-Reads lines t' rest) is4 s)
    ]
  ]

-- The loaded table of a family: in order, disjoint, and of exactly the rows of the file.
abbrev pub IsLoaded : Platform → List Bytes → Bool → List Span → Type 0
IsLoaded p lines is4 rows =
    IsTable first last rows
    × ((s : Span) → In s rows ↔ (IsLine p lines s × (s.prefix.addr.is4 ≡ is4)))
    × ((s : Span) → In s rows → IsRow is4 s)

sorted-IsLoaded :
    (p : Platform) (lines : List Bytes) (is4 : Bool) (t : Table)
    → Reads p lines t
    → validate (sort_spans (tables is4 t)) ≡ ok tt
    → IsLoaded p lines is4 (sort_spans (tables is4 t))
sorted-IsLoaded p lines is4 t reads valid =
    let rows = tables is4 t in
    let row_of : (s : Span) → In s (sort_spans rows) → IsRow is4 s = λ s m.
      let (line, family) = (reads is4 s).0 ((In-sort_spans s rows).0 m) in
      (family, IsLine-masked p lines s line) in
    (
      validate-IsTable is4 (sort_spans rows) valid (sort_spans-Sorted rows) row_of,
      λ s. (
        λ m. (reads is4 s).0 ((In-sort_spans s rows).0 m),
        λ h. (In-sort_spans s rows).1 ((reads is4 s).1 h),
      ),
      row_of,
    )

pub read_lem :
    (p : Platform) (scan_fails : Bool) (lines : List Bytes) (t : Table) (ip : Addr)
    → read p scan_fails lines ≡ ok t
    → IsLoaded p lines ip.is4 (table_of t ip)
unfolding read
read_lem p scan_fails lines t ip h = elim (Result-cases (read_lines p lines)) [
  | inr (x, bad) ↦ ground arith
  | inl (t', good) ↦
      let reads = read_lines-Reads p lines t' good in
      let v4 : t.v4 ≡ sort_spans t'.v4 = ground arith in
      let v6 : t.v6 ≡ sort_spans t'.v6 = ground arith in
      elim (Bool-cases ip.is4) [
        | inl four ↦ rw (four, v4) (sorted-IsLoaded p lines true t' reads (ground arith))
        | inr six ↦ rw (six, v6) (sorted-IsLoaded p lines false t' reads (ground arith))
      ]
]
