-- ===== src/Selection/Rungs.antt =====
-- Which candidates stand on the ladder, and how often.
use bacchus.Shared.{
  List, [], ◌∷◌, ◌++◌, Bool, true, false, ◌≡◌, ◌↔◌, ◌⊎◌, inl, inr, refl, ◌∙◌, ap, arith, Option,
  none, some, Bytes, In, Bool-cases,
}
use bacchus.Selection.{
  Candidate, Country, LadderInput, EqualFold, wanted, in_scope, pings_before, insert_by_ping,
  sort_by_ping, countries_as, keep, sink_cooling,
}

module _ {A : Type 0} where
  pub In-append : (x : A) (xs ys : List A) → In x (xs ++ ys) ↔ (In x xs ⊎ In x ys)
  In-append x [] ys = (λ m. inr m, λ h. elim h [ inl m ↦ absurd m | inr m ↦ m ])
  In-append x (y ∷ xs) ys =
      let (to, from) = In-append x xs ys in (ground (arith, to), ground (arith, from))

In-in_scope :
    (eq : EqualFold) (c : Country) (cs : List Country) (geo : Bytes)
    → In c (in_scope eq cs geo) ↔ (In c cs × (wanted eq geo c ≡ true))
unfolding in_scope
In-in_scope eq c [] geo = (λ m. absurd m, λ (m, w). m)
In-in_scope eq c (d ∷ cs) geo =
    let (to, from) = In-in_scope eq c cs geo in
    elim (Bool-cases (wanted eq geo d)) [
      | inl is ↦ rw is (
        λ m. elim m [
          | inl e ↦ (inl e, (rw e is))
          | inr m' ↦ (let (there, w) = to m' in (inr there, w))
        ],
        λ (m, w). elim m [ inl e ↦ inl e | inr m' ↦ inr (from (m', w)) ],
      )
      | inr is ↦ rw is (
        λ m. (let (there, w) = to m in (inr there, w)),
        λ (m, w). elim m [ inl e ↦ ground arith | inr m' ↦ from (m', w) ],
      )
    ]

In-insert_by_ping :
    (c d : Country) (cs : List Country) → In c (insert_by_ping d cs) ↔ ((c ≡ d) ⊎ In c cs)
unfolding insert_by_ping
In-insert_by_ping c d [] = (λ h. h, λ h. h)
In-insert_by_ping c d (e ∷ cs) =
    let (to, from) = In-insert_by_ping c d cs in
    elim (Bool-cases (pings_before e d)) [
      | inl is ↦ rw is (ground (arith, to), ground (arith, from))
      | inr is ↦ rw is (λ h. h, λ h. h)
    ]

In-sort_by_ping : (c : Country) (cs : List Country) → In c (sort_by_ping cs) ↔ In c cs
unfolding sort_by_ping
In-sort_by_ping c [] = (λ h. h, λ h. h)
In-sort_by_ping c (d ∷ cs) =
    let (to, from) = In-sort_by_ping c cs in
    let (to', from') = In-insert_by_ping c d (sort_by_ping cs) in
    (
      λ h. elim (to' h) [ inl e ↦ inl e | inr m ↦ inr (to m) ],
      λ h. elim h [ inl e ↦ from' (inl e) | inr m ↦ from' (inr (from m)) ],
    )

-- A country that the user's choice leaves in play.
abbrev pub IsWanted : EqualFold → LadderInput → Country → Type 0
IsWanted eq i c = In c i.countries × (wanted eq i.geo c ≡ true)

abbrev pub in_play : EqualFold → LadderInput → List Country
in_play eq i = sort_by_ping (in_scope eq i.countries i.geo)

pub In-in_play :
    (eq : EqualFold) (i : LadderInput) (c : Country) → In c (in_play eq i) ↔ IsWanted eq i c
In-in_play eq i c =
    let (to, from) = In-sort_by_ping c (in_scope eq i.countries i.geo) in
    let (to', from') = In-in_scope eq c i.countries i.geo in (λ m. to' (to m), λ h. from (from' h))

pub In-countries_as :
    (x : Candidate) (t : Bytes) (cs : List Country) (mode : Bytes)
    → In x (countries_as t cs mode)
      ↔ ((c : Country) × In c cs × (x ≡ record { transport = t; country = c.code; mode = mode }))
unfolding countries_as
In-countries_as x t [] mode = (λ m. absurd m, λ (c, m, e). m)
In-countries_as x t (d ∷ cs) mode =
    let (to, from) = In-countries_as x t cs mode in
    (
      λ m. elim m [
        | inl e ↦ (d, inl refl, e)
        | inr m' ↦ (let (c, there, e) = to m' in (c, inr there, e))
      ],
      λ (c, m, e). elim m [
        | inl same ↦
            inl (e ∙ ap (λ y. record { transport = t; country = y.code; mode = mode }) same)
        | inr m' ↦ inr (from (c, m', e))
      ],
    )

In-keep :
    (x : Candidate) (cooling : Candidate → Bool) (cs : List Candidate)
    → (In x (keep false cooling cs) ⊎ In x (keep true cooling cs)) ↔ In x cs
unfolding keep
In-keep x cooling [] = (λ h. elim h [ inl m ↦ m | inr m ↦ m ], λ m. inl m)
In-keep x cooling (c ∷ cs) =
    let (to, from) = In-keep x cooling cs in (ground (arith, to), ground (arith, from))

pub In-sink_cooling :
    (x : Candidate) (tier : List Candidate) (cooling : Option (Candidate → Bool))
    → In x (sink_cooling tier cooling) ↔ In x tier
unfolding sink_cooling
In-sink_cooling x tier none = (λ m. m, λ m. m)
In-sink_cooling x tier (some cooling) =
    let (to, from) = In-append x (keep false cooling tier) (keep true cooling tier) in
    let (to', from') = In-keep x cooling tier in (λ m. to' (to m), λ m. from (from' m))
