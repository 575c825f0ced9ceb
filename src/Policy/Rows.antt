-- ===== src/Policy/Rows.antt =====
-- The tiers table of core/policy: what the loop of `Validate` admits, and that in such a table every
-- row is found under its own pair.
use bacchus.Shared.{
  List, [], ◌∷◌, false, ◌&&◌, ◌≡◌, ◌↔◌, ◌⊎◌, inl, inr, refl, String, In, All, pos, ◌≤ℤ◌, ok, arith,
  str_eq, str_eq_iff, Bool-cases, All-map, All-zip, All-In,
}
use bacchus.Policy.Document.{
  Policy, TierLimit, limits, validate, has_row, check_tiers, valid_trust, find_row,
}

abbrev pub SamePair : TierLimit → TierLimit → Type 0
SamePair t u = (t.trust ≡ u.trust) × (t.plan ≡ u.plan)

-- A row with a known trust tier and no negative number.
abbrev pub IsRow : TierLimit → Type 0
IsRow t =
    ((t.trust ≡ "ephemeral") ⊎ (t.trust ≡ "stable"))
    × (pos 0 ≤ℤ t.priority)
    × (pos 0 ≤ℤ t.endpoint_quality)

-- No two rows have the same pair.
abbrev pub Distinct : List TierLimit → Type 0
Distinct [] = Unit {0}
Distinct (t ∷ ts) = All (λ u. ¬ SamePair t u) ts × Distinct ts

row_differs :
    (t u : TierLimit)
    → ((str_eq t.trust u.trust && str_eq t.plan u.plan) ≡ false) ↔ (¬ SamePair t u)
row_differs t u = (
  λ h e. ground (arith, str_eq_iff t.trust u.trust, str_eq_iff t.plan u.plan),
  λ h. ground (arith, h, str_eq_iff t.trust u.trust, str_eq_iff t.plan u.plan),
)

-- The keys seen do not hold the row's pair.
abbrev IsNew : List TierLimit → TierLimit → Type 0
IsNew seen t = has_row t.trust t.plan seen ≡ false

IsNew-cons :
    (t : TierLimit) (seen : List TierLimit) (u : TierLimit)
    → IsNew (t ∷ seen) u ↔ ((¬ SamePair t u) × IsNew seen u)
unfolding has_row
IsNew-cons t seen u = (
  λ h. ((row_differs t u).0 (ground arith), ground arith),
  λ h. ground (arith, (row_differs t u).1 h.0),
)

IsRow-tests :
    (t : TierLimit) (seen ts : List TierLimit)
    → check_tiers seen (t ∷ ts) ≡ ok tt
    → IsRow t × IsNew seen t × (check_tiers (t ∷ seen) ts ≡ ok tt)
unfolding check_tiers valid_trust
IsRow-tests t seen ts h =
    ground (arith, str_eq_iff t.trust "ephemeral", str_eq_iff t.trust "stable")

check_tiers-Distinct :
    (seen ts : List TierLimit)
    → check_tiers seen ts ≡ ok tt
    → All IsRow ts × All (IsNew seen) ts × Distinct ts
check_tiers-Distinct seen [] h = (tt, tt, tt)
check_tiers-Distinct seen (t ∷ ts) h =
    let (row, new, rest) = IsRow-tests t seen ts h in
    let (rows, news, distinct) = check_tiers-Distinct (t ∷ seen) ts rest in
    (
      (row, rows),
      (new, All-map (λ u n. ((IsNew-cons t seen u).0 n).1) ts news),
      (All-map (λ u n. ((IsNew-cons t seen u).0 n).0) ts news, distinct),
    )

Distinct-check_tiers :
    (seen ts : List TierLimit)
    → All IsRow ts
    → All (IsNew seen) ts
    → Distinct ts
    → check_tiers seen ts ≡ ok tt
unfolding check_tiers valid_trust
Distinct-check_tiers seen [] rows news distinct = refl
Distinct-check_tiers seen (t ∷ ts) rows news distinct = ground (
  arith,
  str_eq_iff t.trust "ephemeral",
  str_eq_iff t.trust "stable",
  Distinct-check_tiers (t ∷ seen) ts rows.1
      (All-map (λ u h. (IsNew-cons t seen u).1 h) ts
        (All-zip (λ u. ¬ SamePair t u) (IsNew seen) ts distinct.0 news.1))
      distinct.1,
)

None-IsNew : (ts : List TierLimit) → All (IsNew []) ts
unfolding has_row
None-IsNew [] = tt
None-IsNew (t ∷ ts) = (refl, None-IsNew ts)

-- The loop over the tiers admits a table exactly when every row has a known trust tier and no
-- negative number, and no two rows have the same (trust, plan) pair.
pub check_tiers_iff :
    (ts : List TierLimit) → (check_tiers [] ts ≡ ok tt) ↔ (All IsRow ts × Distinct ts)
check_tiers_iff ts = (
  λ h. let (rows, _, distinct) = check_tiers-Distinct [] ts h in (rows, distinct),
  λ h. Distinct-check_tiers [] ts h.0 (None-IsNew ts) h.1,
)

find_row_of_In :
    (t : TierLimit) (ts : List TierLimit)
    → Distinct ts
    → In t ts
    → find_row t.trust t.plan ts ≡ ok t
unfolding find_row
find_row_of_In t [] d m = absurd m
find_row_of_In t (x ∷ ts) d (inl e) =
    ground (arith, str_eq_iff t.trust x.trust, str_eq_iff x.trust t.trust, str_eq_iff x.plan t.plan)
find_row_of_In t (x ∷ ts) d (inr m) = ground (
  arith,
  find_row_of_In t ts d.1 m,
  (row_differs x t).1 (All-In (λ u. ¬ SamePair x u) t ts d.0 m),
)

find_row-In :
    (trust plan : String) (t : TierLimit) (ts : List TierLimit)
    → find_row trust plan ts ≡ ok t
    → In t ts × (t.trust ≡ trust) × (t.plan ≡ plan)
unfolding find_row
find_row-In trust plan t [] h = cc
find_row-In trust plan t (x ∷ ts) h =
    elim (Bool-cases (str_eq x.trust trust && str_eq x.plan plan)) [
      | inl hit ↦ (
        inl (ground arith),
        ground (arith, str_eq_iff x.trust trust),
        ground (arith, str_eq_iff x.plan plan),
      )
      | inr miss ↦ let (m, e, e') = find_row-In trust plan t ts (ground arith) in (inr m, e, e')
    ]

check_tiers_of_validate : (p : Policy) → validate p ≡ ok tt → check_tiers [] p.tiers ≡ ok tt
unfolding validate
check_tiers_of_validate p h = ground arith

-- In a document that validates, a pair resolves to a row exactly when that row stands in the table
-- under that pair: the limits of a credential do not depend on the order of the rows.
pub limits_iff :
    (p : Policy) (trust plan : String) (t : TierLimit)
    → validate p ≡ ok tt
    → (limits p trust plan ≡ ok t) ↔ (In t p.tiers × (t.trust ≡ trust) × (t.plan ≡ plan))
unfolding limits
limits_iff p trust plan t v = (
  find_row-In trust plan t p.tiers,
  λ h.
      rw (← h.1, ← h.2)
        (find_row_of_In t p.tiers ((check_tiers_iff p.tiers).0 (check_tiers_of_validate p v)).1
          h.0),
)
