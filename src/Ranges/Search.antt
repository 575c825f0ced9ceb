-- ===== src/Ranges/Search.antt =====
-- The binary search of core/geoip and core/asn, and the boundary that it looks for.
use bacchus.Shared.{
  ℕ, zero, suc, ◌+◌, ◌/◌, ◌≤◌, ◌<◌, Bool, true, false, ◌≡◌, inl, inr, arith, ltb, Bool-cases,
}
use bacchus.Ranges.{search}

-- `below` holds up to some row and not from there on.
abbrev pub IsSplit : (ℕ → Bool) → ℕ → Type 0
IsSplit below p = ((h : ℕ) → h < p → below h ≡ true) × ((h : ℕ) → p ≤ h → below h ≡ false)

-- With as much fuel as the interval has rows, the search between two bounds around the boundary
-- returns the boundary: it halves the interval until nothing is left of it.
pub search_lem :
    (fuel : ℕ) (below : ℕ → Bool) (i j p : ℕ)
    → IsSplit below p
    → i ≤ p
    → p ≤ j
    → j ≤ i + fuel
    → search fuel below i j ≡ p
unfolding search
search_lem zero below i j p split low high enough = omega arith
search_lem (suc fuel) below i j p (up, down) low high enough =
    let h = (i + j) / 2 in
    elim (Bool-cases (ltb i j)) [
      | inr over ↦ rw over (ground arith)
      | inl inside ↦ elim (Bool-cases (below h)) [
        | inl is ↦
            rw (inside, is)
              (search_lem fuel below (suc h) j p (up, down) (ground (arith, down h)) high
                (omega arith))
        | inr is ↦
            rw (inside, is)
              (search_lem fuel below i h p (up, down) low (ground (arith, up h)) (ground arith))
      ]
    ]
