-- ===== src/Selection/Dedup.antt =====
-- `dedup` of core/selection: membership and repetition.
use bacchus.Shared.{
  List, [], ◌∷◌, true, ◌≡◌, ◌↔◌, ◌⊎◌, inl, inr, arith, bytes_eq_iff, In, Bool-cases,
}
use bacchus.Selection.{Candidate, same_candidate, is_seen, dedup_from, dedup}

same_candidate_iff : (a b : Candidate) → (same_candidate a b ≡ true) ↔ (a ≡ b)
same_candidate_iff a b = (
  λ h. ground (
    arith,
    bytes_eq_iff a.transport b.transport,
    bytes_eq_iff a.country b.country,
    bytes_eq_iff a.mode b.mode,
  ),
  λ h. ground (
    arith,
    bytes_eq_iff a.transport b.transport,
    bytes_eq_iff a.country b.country,
    bytes_eq_iff a.mode b.mode,
  ),
)

is_seen_iff : (x : Candidate) (seen : List Candidate) → (is_seen x seen ≡ true) ↔ In x seen
unfolding is_seen
is_seen_iff x [] = (λ h. ground arith, λ m. absurd m)
is_seen_iff x (y ∷ seen) =
    let (to, from) = is_seen_iff x seen in
    let (same, back) = same_candidate_iff x y in
    (λ h. ground (arith, to, same), λ h. ground (arith, from, back))

-- A list without repetition, of which none is in `seen` either.
abbrev pub Distinct : List Candidate → List Candidate → Type 0
Distinct seen [] = Unit {0}
Distinct seen (x ∷ xs) = (In x seen → ⊥) × Distinct (x ∷ seen) xs

pub dedup_from-Distinct : (seen cs : List Candidate) → Distinct seen (dedup_from seen cs)
unfolding dedup_from
dedup_from-Distinct seen [] = tt
dedup_from-Distinct seen (c ∷ cs) = elim (Bool-cases (is_seen c seen)) [
  | inl known ↦ rw known (dedup_from-Distinct seen cs)
  | inr new ↦ rw new (
    λ m. (let (_, from) = is_seen_iff c seen in ground (arith, from m)),
    dedup_from-Distinct (c ∷ seen) cs,
  )
]

In-dedup_from :
    (x : Candidate) (seen cs : List Candidate)
    → (In x (dedup_from seen cs) ⊎ In x seen) ↔ (In x cs ⊎ In x seen)
unfolding dedup_from
In-dedup_from x seen [] = (λ h. h, λ h. h)
In-dedup_from x seen (c ∷ cs) = elim (Bool-cases (is_seen c seen)) [
  | inl known ↦
      let (to, from) = In-dedup_from x seen cs in
      let there = (is_seen_iff c seen).0 known in
      rw known (ground (arith, to, there), ground (arith, from, there))
  | inr new ↦
      let (to, from) = In-dedup_from x (c ∷ seen) cs in
      rw new (ground (arith, to), ground (arith, from))
]

pub In-dedup : (x : Candidate) (cs : List Candidate) → In x (dedup cs) ↔ In x cs
unfolding dedup
In-dedup x cs =
    let (to, from) = In-dedup_from x [] cs in
    (
      λ m. elim (to (inl m)) [ inl m' ↦ m' | inr no_seen ↦ absurd no_seen ],
      λ m. elim (from (inl m)) [ inl m' ↦ m' | inr no_seen ↦ absurd no_seen ],
    )
