-- ===== src/Selection/Store/Best.antt =====
-- What a store recalls for a network.
use bacchus.Shared.{
  ℕ, List, [], ◌∷◌, true, false, ◌&&◌, ◌≡◌, ◌⊎◌, inl, inr, refl, Option, none, some, Bytes, ltb_ℤ,
  All, In, Bool-cases, arith,
}
use bacchus.Selection.Store.{Record, candidate, is_usable, better, best_from, candidate_of, best}

module _ (ttl : ℕ) (net geo : Bytes) (now : ℕ) where
  -- No usable record of these is faster than this one.
  abbrev pub NoneFaster : Record → List Record → Type 0
  NoneFaster b recs =
      All (λ r. is_usable ttl net geo now r ≡ true → ltb_ℤ r.rtt_ms b.rtt_ms ≡ false) recs

  abbrev Recalls : Option Record → List Record → Option Record → Type 0
  Recalls found recs none = (found ≡ none) × All (λ r. is_usable ttl net geo now r ≡ false) recs
  Recalls found recs (some b) =
      ((found ≡ some b) ⊎ (In b recs × (is_usable ttl net geo now b ≡ true)))
      × NoneFaster b recs
      × ((f : Record) → found ≡ some f → ltb_ℤ f.rtt_ms b.rtt_ms ≡ false)

  Recalls-skip :
      (found : Option Record) (r : Record) (recs : List Record) (o : Option Record)
      → (is_usable ttl net geo now r && better r found) ≡ false
      → Recalls found recs o
      → Recalls found (r ∷ recs) o
  Recalls-skip found r recs none no_better (e, unusable) = (e, (ground arith, unusable))
  Recalls-skip none r recs (some b) no_better (inl e, faster, least) = ground arith
  Recalls-skip none r recs (some b) no_better (inr (m, u), faster, least) =
      (inr (inr m, u), (λ h. ground arith, faster), least)
  Recalls-skip (some f) r recs (some b) no_better (inl e, faster, least) =
      (inl e, (λ h. ground (arith, least f refl), faster), least)
  Recalls-skip (some f) r recs (some b) no_better (inr (m, u), faster, least) =
      (inr (inr m, u), (λ h. ground (arith, least f refl), faster), least)

  Recalls-take :
      (found : Option Record) (r : Record) (recs : List Record) (o : Option Record)
      → (is_usable ttl net geo now r && better r found) ≡ true
      → Recalls (some r) recs o
      → Recalls found (r ∷ recs) o
  Recalls-take found r recs none is (e, unusable) = ground arith
  Recalls-take none r recs (some b) is (from, faster, least) = (
    elim from [ inl e ↦ inr (inl (ground arith), ground arith) | inr (m, u) ↦ inr (inr m, u) ],
    (λ h. least r refl, faster),
    λ f e. ground arith,
  )
  Recalls-take (some f) r recs (some b) is (from, faster, least) = (
    elim from [ inl e ↦ inr (inl (ground arith), ground arith) | inr (m, u) ↦ inr (inr m, u) ],
    (λ h. least r refl, faster),
    λ g e. ground (arith, least r refl),
  )

  best_from_lem :
      (found : Option Record) (recs : List Record)
      → Recalls found recs (best_from ttl net geo now found recs)
  unfolding best_from
  best_from_lem none [] = (refl, tt)
  best_from_lem (some b) [] = (inl refl, tt, λ f e. ground arith)
  best_from_lem found (r ∷ recs) =
      elim (Bool-cases (is_usable ttl net geo now r && better r found)) [
        | inl is ↦ rw is (Recalls-take found r recs _ is (best_from_lem (some r) recs))
        | inr is ↦ rw is (Recalls-skip found r recs _ is (best_from_lem found recs))
      ]

  recalled :
      (recs : List Record) (o : Option Record)
      → Recalls none recs o
      → ((candidate_of o ≡ none) × All (λ r. is_usable ttl net geo now r ≡ false) recs)
        ⊎ ((r : Record) × In r recs
            × (is_usable ttl net geo now r ≡ true)
            × (candidate_of o ≡ some (candidate r))
            × NoneFaster r recs)
  recalled recs none (e, unusable) = inl (refl, unusable)
  recalled recs (some b) (inl e, faster, least) = ground arith
  recalled recs (some b) (inr (m, u), faster, least) = inr (b, m, u, refl, faster)

  -- What is recalled for a network and a choice of country is the candidate of a stored record of both
  -- that has not expired, than which no such record was faster; and where nothing is recalled, every
  -- record is of another network or choice, or has expired.
  pub best_fastest :
      (recs : List Record)
      → ((best ttl recs net geo now ≡ none) × All (λ r. is_usable ttl net geo now r ≡ false) recs)
        ⊎ ((r : Record) × In r recs
            × (is_usable ttl net geo now r ≡ true)
            × (best ttl recs net geo now ≡ some (candidate r))
            × NoneFaster r recs)
  unfolding best
  best_fastest recs = recalled recs (best_from ttl net geo now none recs) (best_from_lem none recs)
