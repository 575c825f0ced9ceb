-- ===== src/Geoip/Loaded.antt =====
-- A loaded country table of core/geoip, and the lines of its file.
use bacchus.Shared.{
  ℕ, ◌≤◌, List, [], ◌∷◌, Bool, true, ◌≡◌, ◌↔◌, ◌⊎◌, inl, inr, refl, arith, Bool-cases, Option, none,
  some, In, Bytes, ok, Result-cases,
}
use bacchus.Version.{split}
use bacchus.Ranges.{Addr, rank}
use bacchus.Ranges.Rows.{IsTable}
use bacchus.Geoip.{
  Platform, Block, Line, row, blank, skipped, Input, read_fields, read_line, read_lines, add_line,
  insert, comes_before, sort_blocks, read_ranges, validate, plausible, load_family, attributed,
  before_hash,
}

abbrev pub first : Block → ℕ
first b = rank b.lo

abbrev pub last : Block → ℕ
last b = rank b.hi

In-insert : (b c : Block) (rows : List Block) → In b (insert c rows) ↔ ((b ≡ c) ⊎ In b rows)
unfolding insert
In-insert b c [] = (λ h. h, λ h. h)
In-insert b c (d ∷ rows) =
    let (to, from) = In-insert b c rows in
    elim (Bool-cases (comes_before c d)) [
      | inl is ↦ rw is (λ h. h, λ h. h)
      | inr is ↦ rw is (ground (arith, to), ground (arith, from))
    ]

pub In-sort_blocks : (b : Block) (rows : List Block) → In b (sort_blocks rows) ↔ In b rows
unfolding sort_blocks
In-sort_blocks b [] = (λ h. h, λ h. h)
In-sort_blocks b (c ∷ rows) =
    let (to, from) = In-sort_blocks b rows in
    let (to', from') = In-insert b c (sort_blocks rows) in
    (
      λ h. elim (to' h) [ inl e ↦ inl e | inr m ↦ inr (to m) ],
      λ h. elim h [ inl e ↦ from' (inl e) | inr m ↦ from' (inr (from m)) ],
    )

-- Some line of the file reads as this row.
abbrev pub IsLine : Platform → (Addr → Bool) → List Bytes → Block → Type 0
IsLine p is [] b = ⊥
IsLine p is (line ∷ lines) b = (read_line p is line ≡ ok (row b)) ⊎ IsLine p is lines b

module _ (p : Platform) (is : Addr → Bool) where
  -- A row of the family that `is` picks, and not reversed.
  abbrev IsRow : Block → Type 0
  IsRow b = (is b.lo ≡ true) × (first b ≤ last b)

  attributed_row :
      (lo hi : Addr) (cc : Bytes) (b : Block)
      → attributed lo hi cc ≡ row b
      → (b.lo ≡ lo) × (b.hi ≡ hi)
  attributed_row lo hi cc b h = (ground arith, ground arith)

  read_fields_row :
      (fields : List Bytes) (b : Block) → read_fields p is fields ≡ ok (row b) → IsRow b
  unfolding read_fields
  read_fields_row [] b h = ground arith
  read_fields_row (x ∷ []) b h = ground arith
  read_fields_row (x ∷ y ∷ []) b h = ground arith
  read_fields_row (x ∷ y ∷ z ∷ []) b h = (ground arith, ground arith)
  read_fields_row (x ∷ y ∷ z ∷ w ∷ fields) b h = ground arith

  read_line_row : (line : Bytes) (b : Block) → read_line p is line ≡ ok (row b) → IsRow b
  unfolding read_line
  read_line_row line b h = ground (arith, read_fields_row (split b'\t' (before_hash line)) b)

  -- The rows read are the rows of the lines.
  Reads : List Bytes → List Block → Type 0
  Reads lines rows = (b : Block) → In b rows ↔ IsLine p is lines b

  add_line_rows :
      (line : Bytes) (lines : List Bytes) (l : Line) (rows : List Block) (n : ℕ)
      → read_line p is line ≡ ok l
      → ((b : Block) → In b rows ↔ IsLine p is lines b)
      → (b : Block) → In b (add_line l (rows, n)).0 ↔ IsLine p is (line ∷ lines) b
  add_line_rows line lines blank rows n e same b =
      let (to, from) = same b in
      (λ m. inr (to m), λ h. elim h [ inl f ↦ ground arith | inr m ↦ from m ])
  add_line_rows line lines skipped rows n e same b =
      let (to, from) = same b in
      (λ m. inr (to m), λ h. elim h [ inl f ↦ ground arith | inr m ↦ from m ])
  add_line_rows line lines (row c) rows n e same b =
      let (to, from) = same b in
      (
        λ m. elim m [ inl f ↦ inl (rw f e) | inr m' ↦ inr (to m') ],
        λ h. elim h [ inl f ↦ inl (ground arith) | inr m' ↦ inr (from m') ],
      )

  read_lines_rows :
      (lines : List Bytes) (rows : List Block) (n : ℕ)
      → read_lines p is lines ≡ ok (rows, n)
      → (b : Block) → In b rows ↔ IsLine p is lines b
  unfolding read_lines
  read_lines_rows [] rows n h b = ground arith
  read_lines_rows (line ∷ lines) rows n h b = elim (Result-cases (read_line p is line)) [
    | inr (x, bad) ↦ ground arith
    | inl (l, good) ↦ elim (Result-cases (read_lines p is lines)) [
      | inr (x, bad) ↦ ground arith
      | inl ((rows', n'), rest) ↦
          let same : (add_line l (rows', n')).0 ≡ rows = ground arith in
          rw⁻¹ same
            (add_line_rows line lines l rows' n' good (read_lines_rows lines rows' n' rest) b)
    ]
  ]

  IsLine-IsRow : (lines : List Bytes) (b : Block) → IsLine p is lines b → IsRow b
  IsLine-IsRow [] b h = absurd h
  IsLine-IsRow (line ∷ lines) b (inl e) = read_line_row line b e
  IsLine-IsRow (line ∷ lines) b (inr m) = IsLine-IsRow lines b m

validate-IsTable :
    (rows : List Block)
    → validate rows ≡ ok tt
    → ((b : Block) → In b rows → first b ≤ last b)
    → IsTable first last rows
unfolding validate
validate-IsTable [] h order = tt
validate-IsTable (b ∷ []) h order = (order b (inl refl), tt, tt)
validate-IsTable (b ∷ c ∷ rows) h order = (
  order b (inl refl),
  ground arith,
  validate-IsTable (c ∷ rows) (ground arith) (λ x m. order x (inr m)),
)

-- A family that loads is a table of disjoint ranges in order, of exactly the rows of its file.
abbrev pub file_lines : Option Input → List Bytes
file_lines none = []
file_lines (some f) = f.lines

abbrev pub IsLoaded : Platform → (Addr → Bool) → Option Input → List Block → Type 0
IsLoaded p is f rows =
    IsTable first last rows × ((b : Block) → In b rows ↔ IsLine p is (file_lines f) b)

pub load_family_lem :
    (p : Platform) (is : Addr → Bool) (f : Option Input) (rows : List Block) (n : ℕ)
    → load_family p is f ≡ ok (rows, n)
    → IsLoaded p is f rows
unfolding load_family read_ranges plausible
load_family_lem p is none rows n h = (ground arith, λ b. ground arith)
load_family_lem p is (some f) rows n h = elim (Result-cases (read_lines p is f.lines)) [
  | inr (x, bad) ↦ ground arith
  | inl ((unsorted, m), read) ↦
      let same : sort_blocks unsorted ≡ rows = ground arith in
      let valid : validate (sort_blocks unsorted) ≡ ok tt = ground arith in
      let lines = read_lines_rows p is f.lines unsorted m read in
      rw⁻¹ same (
        validate-IsTable (sort_blocks unsorted) valid (λ b member.
            (IsLine-IsRow p is f.lines b ((lines b).0 ((In-sort_blocks b unsorted).0 member))).1),
        λ b. (
          λ member. (lines b).0 ((In-sort_blocks b unsorted).0 member),
          λ line. (In-sort_blocks b unsorted).1 ((lines b).1 line),
        ),
      )
]
