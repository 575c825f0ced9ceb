-- ===== src/Selection/Ladder.antt =====
-- The whole ladder: its members, that none stands on it twice, and what stands at its top.
use bacchus.Shared.{
  List, [], ◌∷◌, ◌++◌, Bool, true, false, not, ◌&&◌, ◌≡◌, ◌↔◌, ◌⊎◌, inl, inr, refl, sym, ◌∙◌, ap,
  arith, Option, none, some, Bytes, In, Bool-cases,
}
use bacchus.Selection.{
  mode_direct, mode_relay, Candidate, Country, LadderInput, EqualFold, countries_as,
  country_present, is_cooling, keep, sink_cooling, is_seen, dedup_from, dedup, learned_tier,
  alternatives, transport_tiers, join_tiers, tiers_of, ladder,
}
use bacchus.Selection.Dedup.{Distinct, dedup_from-Distinct, In-dedup}
use bacchus.Selection.Rungs.{
  In-append, In-in_play, In-countries_as, In-sink_cooling, IsWanted, in_play,
}

In-alternatives :
    (x : Candidate) (ts : List Bytes) (cs : List Country)
    → In x (alternatives ts cs) ↔ (
        (t : Bytes) × (c : Country) × In t ts
        × In c cs
        × (x ≡ record { transport = t; country = c.code; mode = mode_direct }))
unfolding alternatives
In-alternatives x [] cs = (λ m. absurd m, λ (t, c, m, there, e). m)
In-alternatives x (t ∷ ts) cs =
    let (to, from) = In-alternatives x ts cs in
    let (split, join) = In-append x (countries_as t cs mode_direct) (alternatives ts cs) in
    let (to', from') = In-countries_as x t cs mode_direct in
    (
      λ m. elim (split m) [
        | inl here ↦ (let (c, there, e) = to' here in (t, c, inl refl, there, e))
        | inr m' ↦ (let (u, c, one, there, e) = to m' in (u, c, inr one, there, e))
      ],
      λ (u, c, one, there, e). elim one [
        | inl same ↦ join (
            inl (
              from' (
                c,
                there,
                e ∙ ap (λ v. record { transport = v; country = c.code; mode = mode_direct }) same,
              )))
        | inr m ↦ join (inr (from (u, c, m, there, e)))
      ],
    )

abbrev InSome : Candidate → List (List Candidate) → Type 0
InSome x [] = ⊥
InSome x (tier ∷ tiers) = In x tier ⊎ InSome x tiers

InSome-append :
    (x : Candidate) (ts us : List (List Candidate))
    → InSome x (ts ++ us) ↔ (InSome x ts ⊎ InSome x us)
InSome-append x [] us = (λ m. inr m, λ h. elim h [ inl m ↦ absurd m | inr m ↦ m ])
InSome-append x (t ∷ ts) us =
    let (to, from) = InSome-append x ts us in (ground (arith, to), ground (arith, from))

In-join_tiers :
    (x : Candidate) (tiers : List (List Candidate)) (cooling : Option (Candidate → Bool))
    → In x (join_tiers tiers cooling) ↔ InSome x tiers
unfolding join_tiers
In-join_tiers x [] cooling = (λ m. m, λ m. m)
In-join_tiers x (tier ∷ tiers) cooling =
    let (to, from) = In-join_tiers x tiers cooling in
    let (split, join) = In-append x (sink_cooling tier cooling) (join_tiers tiers cooling) in
    let (to', from') = In-sink_cooling x tier cooling in
    (
      λ m. elim (split m) [ inl here ↦ inl (to' here) | inr m' ↦ inr (to m') ],
      λ h. elim h [ inl here ↦ join (inl (from' here)) | inr m' ↦ join (inr (from m')) ],
    )

country_present_iff :
    (eq : EqualFold) (cs : List Country) (code : Bytes)
    → (country_present eq cs code ≡ true) ↔ ((c : Country) × In c cs × (eq c.code code ≡ true))
unfolding country_present
country_present_iff eq [] code = (λ h. ground arith, λ (c, m, e). absurd m)
country_present_iff eq (d ∷ cs) code =
    let (to, from) = country_present_iff eq cs code in
    (
      λ h. elim (Bool-cases (eq d.code code)) [
        | inl is ↦ (d, inl refl, is)
        | inr is ↦ (let (c, m, e) = to (ground arith) in (c, inr m, e))
      ],
      λ (c, m, e). elim m [ inl same ↦ ground arith | inr m' ↦ ground (arith, from (c, m', e)) ],
    )

-- The learned candidate, if one of the countries in play is its own and it is not cooling.
abbrev pub IsLearned : EqualFold → LadderInput → Candidate → Type 0
IsLearned eq i x =
    (i.learned ≡ some x)
    × ((c : Country) × IsWanted eq i c × (eq c.code x.country ≡ true))
    × (is_cooling x i.cooling ≡ false)

-- A transport straight to a country in play, or the first transport through a relay.
abbrev pub IsReachable : EqualFold → LadderInput → Candidate → Type 0
IsReachable eq i x =
    (t : Bytes) × (c : Country) × IsWanted eq i c
    × ((In t i.transports × (x ≡ record { transport = t; country = c.code; mode = mode_direct }))
        ⊎ (((ts : List Bytes) × (i.transports ≡ t ∷ ts))
            × (x ≡ record { transport = t; country = c.code; mode = mode_relay })))

module _ (eq : EqualFold) (i : LadderInput) (x : Candidate) where
  in_play_present :
      (code : Bytes)
      → (country_present eq (in_play eq i) code ≡ true)
        ↔ ((c : Country) × IsWanted eq i c × (eq c.code code ≡ true))
  in_play_present code =
      let (to, from) = country_present_iff eq (in_play eq i) code in
      (
        λ h. (let (c, m, e) = to h in (c, (In-in_play eq i c).0 m, e)),
        λ (c, w, e). from (c, (In-in_play eq i c).1 w, e),
      )

  learned_tier_iff :
      (o : Option Candidate)
      → InSome x (learned_tier eq i (in_play eq i) o) ↔ (
          (o ≡ some x)
          × ((c : Country) × IsWanted eq i c × (eq c.code x.country ≡ true))
          × (is_cooling x i.cooling ≡ false))
  learned_tier_iff none = (λ m. absurd m, λ (h, c, w). ground arith)
  learned_tier_iff (some y) =
      let (to, from) = in_play_present y.country in
      elim (Bool-cases
        (country_present eq (in_play eq i) y.country && not (is_cooling y i.cooling))) [
          | inr is ↦ rw is (
            λ m. absurd m,
            λ (h, c, w).
                let same : y ≡ x = ground arith in
                let present = from (rw same c) in ground (arith, present, same),
          )
          | inl is ↦ rw is (
            λ m.
                let same : x ≡ y = ground arith in
                (ap some (sym same), rw same (to (ground arith)), rw same (ground arith)),
            λ (h, c, w). inl (inl (ground arith)),
          )
        ]

  transport_tiers_iff :
      (ts : List Bytes)
      → InSome x (transport_tiers ts (in_play eq i)) ↔ (
          (t : Bytes) × (c : Country) × IsWanted eq i c
          × ((In t ts × (x ≡ record { transport = t; country = c.code; mode = mode_direct }))
              ⊎ (((us : List Bytes) × (ts ≡ t ∷ us))
                  × (x ≡ record { transport = t; country = c.code; mode = mode_relay }))))
  transport_tiers_iff [] = (
    λ m. absurd m,
    λ (t, c, w, h). elim h [ inl (m, e) ↦ absurd m | inr ((us, e), _) ↦ ground arith ],
  )
  transport_tiers_iff (p ∷ ps) =
      let (direct, direct') = In-countries_as x p (in_play eq i) mode_direct in
      let (other, other') = In-alternatives x ps (in_play eq i) in
      let (relay, relay') = In-countries_as x p (in_play eq i) mode_relay in
      (
        λ m. elim m [
          | inl m' ↦
              (let (c, there, e) = direct m' in
                (p, c, (In-in_play eq i c).0 there, inl (inl refl, e)))
          | inr (inl m') ↦
              (let (t, c, one, there, e) = other m' in
                (t, c, (In-in_play eq i c).0 there, inl (inr one, e)))
          | inr (inr (inl m')) ↦
              (let (c, there, e) = relay m' in
                (p, c, (In-in_play eq i c).0 there, inr ((ps, refl), e)))
          | inr (inr (inr m')) ↦ absurd m'
        ],
        λ (t, c, w, h).
            let there = (In-in_play eq i c).1 w in
            elim h [
              | inl (one, e) ↦ elim one [
                | inl same ↦ inl (direct' (c, there, e ∙ ap (direct_to c) same))
                | inr m ↦ inr (inl (other' (t, c, m, there, e)))
              ]
              | inr ((us, e'), e) ↦
                  inr (inr (inl (relay' (c, there, e ∙ ap (relay_to c) (sym (head_same e'))))))
            ],
      )
    where
      direct_to : Country → Bytes → Candidate
      direct_to c u = record { transport = u; country = c.code; mode = mode_direct }

      relay_to : Country → Bytes → Candidate
      relay_to c u = record { transport = u; country = c.code; mode = mode_relay }

      head_same : {t : Bytes} {us : List Bytes} → ◌≡◌ {A = List Bytes} (p ∷ ps) (t ∷ us) → p ≡ t
      head_same h = ground arith

  -- The candidates on the ladder are exactly the learned one, if its country is one in play and it is not
  -- cooling, every transport straight to a country in play, and the first transport through a relay to
  -- a country in play, where the countries in play are those that the user's choice matches, or all
  -- that are not busy without a choice: sorting, sinking and removing repetitions lose and add nothing.
  pub ladder_iff : In x (ladder eq i) ↔ (IsLearned eq i x ⊎ IsReachable eq i x)
  unfolding ladder
  ladder_iff =
      let (to, from) = In-dedup x (join_tiers (tiers_of eq i) i.cooling) in
      let (to', from') = In-join_tiers x (tiers_of eq i) i.cooling in
      let (split, join) =
        InSome-append x (learned_tier eq i (in_play eq i) i.learned)
          (transport_tiers i.transports (in_play eq i)) in
      let (learned, learned') = learned_tier_iff i.learned in
      let (reachable, reachable') = transport_tiers_iff i.transports in
      (
        λ m. elim (split (to' (to m))) [ inl l ↦ inl (learned l) | inr r ↦ inr (reachable r) ],
        λ h. from (from' (join (elim h [ inl l ↦ inl (learned' l) | inr r ↦ inr (reachable' r) ]))),
      )

sink_warm :
    (x : Candidate) (cooling : Option (Candidate → Bool))
    → is_cooling x cooling ≡ false
    → sink_cooling (x ∷ []) cooling ≡ x ∷ []
unfolding sink_cooling keep
sink_warm x none warm = refl
sink_warm x (some cooling) warm = ground arith

tiers_top :
    (eq : EqualFold) (i : LadderInput) (x : Candidate)
    → IsLearned eq i x
    → tiers_of eq i ≡ (x ∷ []) ∷ transport_tiers i.transports (in_play eq i)
tiers_top eq i x (is, c, warm) =
    let present = (in_play_present eq i x x.country).1 c in rw (is, present, warm) refl

dedup_top :
    (x : Candidate) (tier rest : List Candidate)
    → tier ≡ x ∷ []
    → (cs : List Candidate) × (dedup (tier ++ rest) ≡ x ∷ cs)
unfolding dedup dedup_from is_seen
dedup_top x tier rest e = rw e (dedup_from (x ∷ []) rest, refl)

-- A learned candidate that is not cooling and whose country is in play stands at the top of the ladder,
-- and no candidate stands on the ladder twice.
pub ladder_top :
    (eq : EqualFold) (i : LadderInput) (x : Candidate)
    → IsLearned eq i x
    → ((rest : List Candidate) × (ladder eq i ≡ x ∷ rest)) × Distinct [] (ladder eq i)
unfolding ladder dedup join_tiers
ladder_top eq i x is = (
  rw (tiers_top eq i x is) (
      dedup_top x (sink_cooling (x ∷ []) i.cooling)
        (join_tiers (transport_tiers i.transports (in_play eq i)) i.cooling)
        (sink_warm x i.cooling is.2)),
  dedup_from-Distinct [] (join_tiers (tiers_of eq i) i.cooling),
)
