-- ===== src/Ranges/Rows.antt =====
-- The lookup of core/geoip and core/asn in a table of disjoint ranges, against the table as a set.
use bacchus.Shared.{
  ℕ, zero, suc, ◌≤◌, ◌<◌, List, [], ◌∷◌, Bool, true, false, ◌≡◌, ◌↔◌, inl, inr, refl, sym, ◌∙◌, ap,
  arith, ltb, leb, if◌then◌else◌, ◌&&◌, Bool-cases, Option, none, some, All, All-map, In, length,
}
use bacchus.Ranges.{below_at, pick, find_row}
use bacchus.Ranges.Search.{search_lem}

module _ {R : Type 0} (lo hi : R → ℕ) where
  -- The next row, if there is one, starts after this one ends.
  abbrev pub EndsBefore : R → List R → Type 0
  EndsBefore r [] = Unit {0}
  EndsBefore r (s ∷ rows) = hi r < lo s

  -- Ranges with an order and a gap between any two.
  abbrev pub IsTable : List R → Type 0
  IsTable [] = Unit {0}
  IsTable (r ∷ rows) = (lo r ≤ hi r) × EndsBefore r rows × IsTable rows

  later :
      (r : R) (rows : List R)
      → lo r ≤ hi r
      → EndsBefore r rows
      → IsTable rows
      → All (λ s. hi r < lo s) rows
  later r [] k e table = tt
  later r (s ∷ rows) k e (k', e', table) =
      (e, All-map (λ x l. omega (arith, e, k', l)) rows (later s rows k' e' table))

  later_In : (r s : R) (rows : List R) → All (λ x. hi r < lo x) rows → In s rows → hi r < lo s
  later_In r s [] l m = absurd m
  later_In r s (x ∷ rows) (l, ls) (inl e) = rw e l
  later_In r s (x ∷ rows) (l, ls) (inr m) = later_In r s rows ls m

  module _ (covers : R → Bool) (t : ℕ) where
    abbrev Contains : R → Type 0
    Contains r = (lo r ≤ t) × (t ≤ hi r)

    abbrev position : List R → ℕ
    position [] = 0
    position (r ∷ rows) = let rest = position rows in if ltb (lo r) t then suc rest else 0

    position_le : (rows : List R) → position rows ≤ length rows
    position_le [] = omega arith
    position_le (r ∷ rows) = ground (arith, position_le rows)

    none_below :
        (rows : List R) (h : ℕ) → All (λ s. t ≤ lo s) rows → below_at lo covers t rows h ≡ false
    none_below [] h l = refl
    none_below (r ∷ rows) zero (l, ls) = ground arith
    none_below (r ∷ rows) (suc h) (l, ls) = none_below rows h ls

    below_up : (rows : List R) (h : ℕ) → h < position rows → below_at lo covers t rows h ≡ true
    below_up [] h k = ground arith
    below_up (r ∷ rows) zero k = ground arith
    below_up (r ∷ rows) (suc h) k = below_up rows h (ground arith)

    below_down :
        (rows : List R) (h : ℕ)
        → IsTable rows
        → position rows ≤ h
        → below_at lo covers t rows h ≡ false
    below_down [] h table k = refl
    below_down (r ∷ rows) zero table k = ground arith
    below_down (r ∷ rows) (suc h) (w, e, table) k = elim (Bool-cases (ltb (lo r) t)) [
      | inl under ↦ below_down rows h table (ground arith)
      | inr over ↦ none_below rows h (All-map (λ s l. ground arith) rows (later r rows w e table))
    ]

    find_row-position :
        (rows : List R)
        → IsTable rows
        → find_row lo covers t rows ≡ pick lo covers t rows (position rows)
    unfolding find_row
    find_row-position rows table = ap (pick lo covers t rows) (
        search_lem (length rows) (below_at lo covers t rows) 0 (length rows) (position rows)
          (below_up rows, λ h k. below_down rows h table k) (omega arith) (position_le rows)
          (omega arith))

    -- The first row that contains the target, by a walk over the table.
    abbrev scan : List R → Option R
    scan [] = none
    scan (r ∷ rows) = let rest = scan rows in if leb (lo r) t && leb t (hi r) then some r else rest

    scan_above : (rows : List R) → All (λ s. t < lo s) rows → scan rows ≡ none
    scan_above [] l = refl
    scan_above (r ∷ rows) (l, ls) = ground (arith, scan_above rows ls)

    scan-In : (rows : List R) (r : R) → scan rows ≡ some r → In r rows × Contains r
    scan-In [] r h = ground arith
    scan-In (s ∷ rows) r h = elim (Bool-cases (leb (lo s) t && leb t (hi s))) [
      | inl is ↦ (inl (ground arith), ground arith)
      | inr is ↦ (let (m, c) = scan-In rows r (ground arith) in (inr m, c))
    ]

    In-scan : (rows : List R) (r : R) → IsTable rows → In r rows → Contains r → scan rows ≡ some r
    In-scan [] r table m c = absurd m
    In-scan (s ∷ rows) r (w, e, table) (inl same) c = ground arith
    In-scan (s ∷ rows) r (w, e, table) (inr m) c =
        ground (arith, In-scan rows r table m c, later_In s r rows (later s rows w e table) m)

    -- What the test of the last row that starts below the target decides.
    abbrev Decides : R → Type 0
    Decides r = lo r < t → (covers r ≡ true) ↔ (t ≤ hi r)

    pick_under :
        (r : R) (rows : List R) (p : ℕ)
        → Decides r
        → position rows ≡ p
        → EndsBefore r rows
        → lo r < t
        → pick lo covers t rows p ≡ scan rows
        → pick lo covers t (r ∷ rows) (suc p) ≡ scan (r ∷ rows)
    pick_under r [] zero decides at e under same = ground (arith, decides under)
    pick_under r [] (suc q) decides at e under same = ground arith
    pick_under r (s ∷ rows) zero decides at e under same = ground (arith, decides under)
    pick_under r (s ∷ rows) (suc q) decides at e under same = ground arith

    pick-scan :
        (rows : List R)
        → IsTable rows
        → ((r : R) → In r rows → Decides r)
        → pick lo covers t rows (position rows) ≡ scan rows
    pick-scan [] table decides = refl
    pick-scan (r ∷ rows) (w, e, table) decides = elim (Bool-cases (ltb (lo r) t)) [
      | inl under ↦ rw under (
          pick_under r rows (position rows) (decides r (inl refl)) refl e (ground arith)
            (pick-scan rows table (λ s m. decides s (inr m))))
      | inr over ↦ rw over (
          ground
            (arith, scan_above rows (All-map (λ s l. ground arith) rows (later r rows w e table))))
    ]

    -- In a table of disjoint ranges in their order, the lookup finds a row exactly when the row is of
    -- the table and its range has the target, provided that the code's test decides whether a row
    -- that starts below the target reaches it: the binary search misses nothing.
    pub find_row_iff :
        (rows : List R) (r : R)
        → IsTable rows
        → ((s : R) → In s rows → lo s < t → (covers s ≡ true) ↔ (t ≤ hi s))
        → (find_row lo covers t rows ≡ some r) ↔ (In r rows × ((lo r ≤ t) × (t ≤ hi r)))
    find_row_iff rows r table decides =
        let same = find_row-position rows table ∙ pick-scan rows table decides in
        (λ h. scan-In rows r (sym same ∙ h), λ (m, c). same ∙ In-scan rows r table m c)
