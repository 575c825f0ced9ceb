-- ===== src/Pool/Racing.antt =====
-- What a race of the pool's candidates comes to.
pub mod Ends
use bacchus.Shared.{
  ℕ, zero, suc, ◌+◌, ◌-◌, ◌≤◌, ◌<◌, ◌≡◌, ◌≢◌, ◌⊎◌, inl, inr, refl, sym, ap, subst, ◌∙◌, List, [],
  ◌∷◌, Bool, true, false, not, ◌&&◌, Option, none, some, Bytes, length, ltb, ◌==◌, arith, In,
  Bool-cases, Option-cases, if◌then◌else◌, ltb→lt, ltb-false→le,
}
use bacchus.Ranges.{get_elem?}
use bacchus.Selection.{Candidate}
use bacchus.Pool.{
  Race, Tick, stagger, cancelled, stopped, landed, Outcome, running, won, exhausted, empty_ladder,
  interrupted, engine_stopped, pick, launch, on_stagger, on_failure, on_result, on_landed, tick,
  go_on, run, at_start, race_ladder, in_flight,
}

-- The candidate that is picked was in flight, and the others still are.
pub pick-some :
    (n : ℕ) (c : Candidate) (cs : List Candidate)
    → (x : Candidate) × (rest : List Candidate) × (pick n (c ∷ cs) ≡ some (x, rest))
      × (length rest ≡ length cs)
      × ((y : Candidate) → In y (c ∷ cs) → (y ≡ x) ⊎ In y rest)
      × ((y : Candidate) → In y rest → In y (c ∷ cs))
      × In x (c ∷ cs)
unfolding pick
pick-some zero c cs = (c, cs, refl, refl, (λ y m. m), (λ y m. inr m), inl refl)
pick-some (suc n) c [] = (c, [], refl, refl, (λ y m. m), (λ y m. inr m), inl refl)
pick-some (suc n) c (d ∷ cs) =
    let (x, rest, e, len, split, back, here) = pick-some n d cs in
    (
      x,
      c ∷ rest,
      rw e refl,
      omega (arith, len),
      λ y m. elim m [
        | inl f ↦ inr (inl f)
        | inr k ↦ elim (split y k) [ inl f ↦ inl f | inr g ↦ inr (inr g) ]
      ],
      λ y m. elim m [ inl f ↦ inl f | inr k ↦ inr (back y k) ],
      inr here,
    )

get_elem-some :
    {A : Type 0} (n : ℕ) (xs : List A)
    → n < length xs
    → (x : A) × (get_elem? n xs ≡ some x) × In x xs
get_elem-some n [] h = absurd (omega (arith, h))
get_elem-some zero (x ∷ xs) h = (x, refl, inl refl)
get_elem-some (suc n) (x ∷ xs) h =
    let (y, e, m) = get_elem-some n xs (omega (arith, h)) in (y, e, inr m)

-- The first `n` of a list.
abbrev pub Before : {A : Type 0} → ℕ → List A → A → Type 0
Before zero xs x = ⊥
Before (suc n) [] x = ⊥
Before (suc n) (y ∷ ys) x = (x ≡ y) ⊎ Before n ys x

Before-suc :
    {A : Type 0} (n : ℕ) (xs : List A) (x y : A)
    → get_elem? n xs ≡ some y
    → Before (suc n) xs x
    → (x ≡ y) ⊎ Before n xs x
Before-suc zero [] x y e h = absurd h
Before-suc zero (z ∷ xs) x y e (inl f) = inl (ground (arith, e))
Before-suc zero (z ∷ xs) x y e (inr h) = absurd h
Before-suc (suc n) [] x y e h = absurd h
Before-suc (suc n) (z ∷ xs) x y e (inl f) = inr (inl f)
Before-suc (suc n) (z ∷ xs) x y e (inr h) = elim (Before-suc n xs x y e h) [
  | inl f ↦ inl f
  | inr k ↦ inr (inr k)
]

Before-all : {A : Type 0} (xs : List A) (x : A) → In x xs → Before (length xs) xs x
Before-all [] x h = h
Before-all (y ∷ xs) x (inl e) = inl e
Before-all (y ∷ xs) x (inr m) = inr (Before-all xs x m)

module _ {Dialed : Type 0} (rungs : List Candidate) (parallel : ℕ)
    (dial : Candidate → Option Dialed) where
  -- Every launched candidate is in flight or has failed, and so many are in flight as are counted.
  pub record IsRace (r : Race) : Type 0 where
    pub counted : r.received + length r.flying ≡ r.launched
    pub within : r.launched ≤ length rungs
    pub accounted : (c : Candidate) → Before r.launched rungs c → In c r.flying ⊎ In c r.failed
    pub known : (c : Candidate) → In c r.flying → In c rungs
    pub failures : (c : Candidate) → In c r.failed → dial c ≡ none

  pub launch-IsRace :
      (r : Race)
      → r.launched < length rungs
      → IsRace r
      → IsRace (launch rungs parallel dial r)
        × (length (launch rungs parallel dial r).flying ≡ suc (length r.flying))
        × ((launch rungs parallel dial r).received ≡ r.received)
  unfolding launch
  launch-IsRace r lt h =
      let (c, e, m) = get_elem-some r.launched rungs lt in
      rw e (
        record {
          counted = omega (arith, h.counted);
          within = omega (arith, lt);
          accounted = λ x b. elim (Before-suc r.launched rungs x c e b) [
            | inl f ↦ inl (inl f)
            | inr k ↦ elim (h.accounted x k) [ inl i ↦ inl (inr i) | inr i ↦ inr i ]
          ];
          known = λ x i. elim i [
            | inl f ↦ subst (λ (y : Candidate). In y rungs) (sym f) m
            | inr k ↦ h.known x k
          ];
          failures = h.failures;
        },
        refl,
        refl,
      )

  -- At least one dial may be in flight.
  abbrev pub most : ℕ
  most = if ltb parallel 1 then 1 else parallel

  pub record IsBusy (r : Race) : Type 0 where
    pub race : IsRace r
    pub waits : 0 < length r.flying
    pub bounded : length r.flying ≤ most

  abbrev pub Says : Outcome Dialed → Type 0
  Says (running r) = IsBusy r
  Says (won c p r) = In c rungs × (dial c ≡ some p)
  Says (exhausted r) = (c : Candidate) → In c rungs → dial c ≡ none
  Says empty_ladder = Unit
  Says interrupted = Unit
  Says engine_stopped = Unit

  pub stagger-IsBusy : (r : Race) → IsBusy r → IsBusy (on_stagger rungs parallel dial r)
  unfolding on_stagger
  stagger-IsBusy r h =
      elim (Bool-cases
        (ltb r.launched (length rungs) && ltb (in_flight rungs parallel dial r) parallel)) [
          | inr stay ↦ rw stay h
          | inl go ↦
              let lt : r.launched < length rungs = ground arith in
              let (race, flying, received) = launch-IsRace r lt h.race in
              let counted = h.race.counted in
              let room : length r.flying < parallel = ground arith in
              rw go (record { race = race; waits = omega (arith, flying); bounded = ground arith })
        ]

  -- A result has been received, and the candidate failed.
  pub failed-IsRace :
      (r : Race) (x : Candidate) (rest : List Candidate)
      → suc (length rest) ≡ length r.flying
      → ((y : Candidate) → In y r.flying → (y ≡ x) ⊎ In y rest)
      → ((y : Candidate) → In y rest → In y r.flying)
      → dial x ≡ none
      → IsRace r
      → IsRace (record r { received = suc r.received; flying = rest; failed = x ∷ r.failed })
  failed-IsRace r x rest len split back no_path h = record {
    counted = omega (arith, h.counted, len);
    within = h.within;
    accounted = λ c b. elim (h.accounted c b) [
      | inr f ↦ inr (inr f)
      | inl i ↦ elim (split c i) [ inl e ↦ inr (inl e) | inr k ↦ inl k ]
    ];
    known = λ c m. h.known c (back c m);
    failures = λ c m. elim m [
      | inl e ↦ subst (λ (y : Candidate). dial y ≡ none) (sym e) no_path
      | inr f ↦ h.failures c f
    ];
  }

  all_failed :
      (r : Race)
      → IsRace r
      → r.launched ≡ length rungs
      → length r.flying ≡ 0
      → (c : Candidate) → In c rungs
      → dial c ≡ none
  all_failed r h all landed_all c m =
      elim (h.accounted c (subst (λ (n : ℕ). Before n rungs c) (sym all) (Before-all rungs c m))) [
        | inr f ↦ h.failures c f
        | inl i ↦ absurd (no_member r.flying landed_all i)
      ]
    where
      no_member : (l : List Candidate) → length l ≡ 0 → In c l → ⊥
      no_member [] e i = i
      no_member (y ∷ l) e i = omega (arith, e)

  pub failure-Says :
      (r : Race) (x : Candidate) (rest : List Candidate)
      → suc (length rest) ≤ most
      → IsRace (record r { flying = rest; failed = x ∷ r.failed })
      → Says (on_failure rungs parallel dial x (record r { flying = rest }))
  failure-Says r x rest room h = elim (Bool-cases (ltb r.launched (length rungs))) [
    | inl more ↦
        let (race, flying, received) =
          launch-IsRace (record r { flying = rest; failed = x ∷ r.failed })
            (ltb→lt r.launched (length rungs) more) h in
        rw more (record {
          race = race;
          waits = omega (arith, flying);
          bounded = omega (arith, flying, room);
        })
    | inr no_more ↦ elim (Bool-cases ((r.launched - r.received) == 0)) [
      | inl last ↦
          let all = ltb-false→le r.launched (length rungs) no_more in
          let counted = h.counted in
          let within = h.within in
          rw (no_more, last)
            (all_failed (record r { flying = rest; failed = x ∷ r.failed }) h (omega arith)
              (ground arith))
      | inr others ↦
          let counted = h.counted in
          rw (no_more, others)
            (record { race = h; waits = ground arith; bounded = omega (arith, room) })
    ]
  ]
