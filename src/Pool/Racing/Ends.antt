-- ===== src/Pool/Racing/Ends.antt =====
-- How a race ends.
use bacchus.Shared.{
  ℕ, suc, ◌+◌, ◌-◌, ◌≤◌, ◌<◌, ◌≡◌, ◌≢◌, ◌⊎◌, inl, inr, refl, sym, ap, subst, List, [], ◌∷◌, Bool,
  false, ◌&&◌, Option, none, some, length, ltb, ◌==◌, arith, In, Bool-cases, Option-cases,
  if◌then◌else◌,
}
use bacchus.Ranges.{get_elem?}
use bacchus.Selection.{Candidate}
use bacchus.Pool.{
  Race, Tick, stagger, cancelled, stopped, landed, Outcome, running, won, exhausted, empty_ladder,
  interrupted, engine_stopped, pick, launch, on_stagger, on_result, on_landed, tick, go_on, run,
  at_start, race_ladder, in_flight,
}
use bacchus.Pool.Racing.{
  IsBusy, Says, most, launch-IsRace, stagger-IsBusy, failed-IsRace, failure-Says, pick-some,
}

module _ {Dialed : Type 0} (rungs : List Candidate) (parallel : ℕ)
    (dial : Candidate → Option Dialed) where
  abbrev Tells : Outcome Dialed → Type 0
  Tells o = Says rungs parallel dial o

  landed-Tells :
      (r : Race) (x : Candidate) (rest : List Candidate) (o : Option Dialed)
      → dial x ≡ o
      → suc (length rest) ≡ length r.flying
      → ((y : Candidate) → In y r.flying → (y ≡ x) ⊎ In y rest)
      → ((y : Candidate) → In y rest → In y r.flying)
      → In x r.flying
      → IsBusy rungs parallel dial r
      → Tells (
          on_result rungs parallel dial x (record r { received = suc r.received; flying = rest }) o)
  landed-Tells r x rest (some p) e len split back m h = (h.race.known x m, e)
  landed-Tells r x rest none e len split back m h =
      let bounded = h.bounded in
      failure-Says rungs parallel dial (record r { received = suc r.received }) x rest
        (omega (arith, len, bounded))
        (failed-IsRace rungs parallel dial r x rest len split back e h.race)

  tick-Tells :
      (r : Race) (t : Tick) → IsBusy rungs parallel dial r → Tells (tick rungs parallel dial r t)
  unfolding tick
  tick-Tells r stagger h = stagger-IsBusy rungs parallel dial r h
  tick-Tells r cancelled h = tt
  tick-Tells r stopped h = tt
  tick-Tells r (landed n) h = flies r.flying refl
    where
      flies :
          (l : List Candidate) → r.flying ≡ l → Tells (on_landed rungs parallel dial r (pick n l))
      flies [] e = let waits = h.waits in absurd (omega (arith, ap length e))
      flies (c ∷ cs) e =
          let (x, rest, picked, len, split, back, here) = pick-some n c cs in
          rw picked (
            landed-Tells r x rest (dial x) refl (omega (arith, len, ap length e))
              (λ y m. split y (subst (In y) e m)) (λ y m. subst (In y) (sym e) (back y m))
              (subst (In x) (sym e) here) h)

  go_on-Tells : (o : Outcome Dialed) (t : Tick) → Tells o → Tells (go_on rungs parallel dial o t)
  go_on-Tells (running r) t h = tick-Tells r t h
  go_on-Tells (won c p r) t h = h
  go_on-Tells (exhausted r) t h = h
  go_on-Tells empty_ladder t h = h
  go_on-Tells interrupted t h = h
  go_on-Tells engine_stopped t h = h

  run-Tells : (ts : List Tick) (o : Outcome Dialed) → Tells o → Tells (run rungs parallel dial o ts)
  unfolding run
  run-Tells [] o h = h
  run-Tells (t ∷ ts) o h = run-Tells ts (go_on rungs parallel dial o t) (go_on-Tells o t h)

  most-pos : 0 < most rungs parallel dial
  most-pos = ground arith

  start-IsBusy : 0 < length rungs → IsBusy rungs parallel dial (launch rungs parallel dial at_start)
  start-IsBusy lt =
      let (race, flying, received) = launch-IsRace rungs parallel dial at_start lt (record {
        counted = refl;
        within = omega arith;
        accounted = λ c b. absurd b;
        known = λ c m. absurd m;
        failures = λ c m. absurd m;
      }) in
      record {
        race = race;
        waits = omega (arith, flying);
        bounded = omega (arith, flying, most-pos);
      }

  race-Tells : (ts : List Tick) → Tells (race_ladder rungs parallel dial ts)
  unfolding race_ladder
  race-Tells ts = elim (Bool-cases (length rungs == 0)) [
    | inl empty ↦ rw empty tt
    | inr some_rungs ↦ rw some_rungs (run-Tells ts _ (start-IsBusy (ground arith)))
  ]

  -- A race wins over a candidate of the ladder whose dial came up, with the path that it gave.
  pub race_wins :
      (ts : List Tick) (c : Candidate) (p : Dialed) (r : Race)
      → race_ladder rungs parallel dial ts ≡ won c p r
      → In c rungs × (dial c ≡ some p)
  race_wins ts c p r e = subst Tells e (race-Tells ts)

  -- A race says that no candidate connected only if no candidate of the ladder comes up: none is left out
  -- that was not tried, in whatever order the results and the timer arrive.
  pub race_gives_up :
      (ts : List Tick) (r : Race) (c : Candidate)
      → race_ladder rungs parallel dial ts ≡ exhausted r
      → In c rungs
      → dial c ≡ none
  race_gives_up ts r c e m =
      let failed : ((x : Candidate) → In x rungs → dial x ≡ none) = subst Tells e (race-Tells ts) in
      failed c m

  -- While a race runs, some dial is in flight, so that it never waits for nothing, and there are never more
  -- in flight than `poolParallel`, or one where that is 0.
  pub race_in_flight :
      (ts : List Tick) (r : Race)
      → race_ladder rungs parallel dial ts ≡ running r
      → (0 < length r.flying) × (length r.flying ≤ most rungs parallel dial)
  race_in_flight ts r e =
      let h : IsBusy rungs parallel dial r = subst Tells e (race-Tells ts) in (h.waits, h.bounded)

  abbrev landing : Tick → ℕ
  landing (landed n) = 1
  landing _ = 0

  -- How many results arrive.
  abbrev pub landings : List Tick → ℕ
  landings [] = 0
  landings (t ∷ ts) = landing t + landings ts

  abbrev Counts : ℕ → Outcome Dialed → Type 0
  Counts n (running r) = n ≤ r.received
  Counts n _ = Unit

  launch-received : (r : Race) → (launch rungs parallel dial r).received ≡ r.received
  unfolding launch
  launch-received r = elim (Option-cases (get_elem? r.launched rungs)) [
    | inl none_left ↦ rw none_left refl
    | inr (c, e) ↦ rw e refl
  ]

  stagger-received : (r : Race) → (on_stagger rungs parallel dial r).received ≡ r.received
  unfolding on_stagger
  stagger-received r =
      elim (Bool-cases
        (ltb r.launched (length rungs) && ltb (in_flight rungs parallel dial r) parallel)) [
          | inl go ↦ rw go (launch-received r)
          | inr stay ↦ rw stay refl
        ]

  landed-Counts :
      (r : Race) (x : Candidate) (rest : List Candidate) (o : Option Dialed)
      → Counts (suc r.received) (
          on_result rungs parallel dial x (record r { received = suc r.received; flying = rest }) o)
  landed-Counts r x rest (some p) = tt
  landed-Counts r x rest none = elim (Bool-cases (ltb r.launched (length rungs))) [
    | inl more ↦ rw more (
        omega (
          arith,
          launch-received
              (record r { received = suc r.received; flying = rest; failed = x ∷ r.failed }),
        ))
    | inr no_more ↦ elim (Bool-cases ((r.launched - suc r.received) == 0)) [
      | inl last ↦ rw (no_more, last) tt
      | inr others ↦ rw (no_more, others) (omega arith)
    ]
  ]

  tick-Counts :
      (r : Race) (t : Tick)
      → IsBusy rungs parallel dial r
      → Counts (r.received + landing t) (tick rungs parallel dial r t)
  unfolding tick
  tick-Counts r stagger h = omega (arith, stagger-received r)
  tick-Counts r cancelled h = tt
  tick-Counts r stopped h = tt
  tick-Counts r (landed n) h = flies r.flying refl
    where
      flies :
          (l : List Candidate)
          → r.flying ≡ l
          → Counts (r.received + 1) (on_landed rungs parallel dial r (pick n l))
      flies [] e = let waits = h.waits in absurd (omega (arith, ap length e))
      flies (c ∷ cs) e =
          let (x, rest, picked, len, split, back, here) = pick-some n c cs in
          rw picked (
            subst
              (λ (k : ℕ). Counts k (
                on_result rungs parallel dial x
                  (record r { received = suc r.received; flying = rest }) (dial x)))
              (omega arith) (landed-Counts r x rest (dial x)))

  Counts-le : (o : Outcome Dialed) (m n : ℕ) → m ≤ n → Counts n o → Counts m o
  Counts-le (running r) m n le h = omega (arith, le, h)
  Counts-le (won c p r) m n le h = tt
  Counts-le (exhausted r) m n le h = tt
  Counts-le empty_ladder m n le h = tt
  Counts-le interrupted m n le h = tt
  Counts-le engine_stopped m n le h = tt

  run-Counts :
      (ts : List Tick) (o : Outcome Dialed) (n : ℕ)
      → Tells o
      → Counts n o
      → Counts (n + landings ts) (run rungs parallel dial o ts)
  unfolding run
  run-Counts [] o n t h = Counts-le o (n + 0) n (omega arith) h
  run-Counts (t ∷ ts) o n tells h =
      let next = go_on rungs parallel dial o t in
      Counts-le (run rungs parallel dial next ts) (n + (landing t + landings ts))
        ((n + landing t) + landings ts) (omega arith)
        (run-Counts ts next (n + landing t) (go_on-Tells o t tells) (went o tells h))
    where
      went :
          (o' : Outcome Dialed)
          → Tells o'
          → Counts n o'
          → Counts (n + landing t) (go_on rungs parallel dial o' t)
      went (running r) b c =
          Counts-le (tick rungs parallel dial r t) (n + landing t) (r.received + landing t)
            (omega (arith, c)) (tick-Counts r t b)
      went (won c p r) b k = tt
      went (exhausted r) b k = tt
      went empty_ladder b k = tt
      went interrupted b k = tt
      went engine_stopped b k = tt

  -- A race ends: once as many results have arrived as the ladder has candidates, it no longer runs.
  pub race_ends :
      (ts : List Tick) (r : Race)
      → length rungs ≤ landings ts
      → race_ladder rungs parallel dial ts ≢ running r
  unfolding race_ladder
  race_ends ts r enough e = elim (Bool-cases (length rungs == 0)) [
    | inl empty ↦ ground arith
    | inr full ↦
        let lt : 0 < length rungs = ground arith in
        let start = launch rungs parallel dial at_start in
        let ran : run rungs parallel dial (running start) ts ≡ running r =
          rw⁻¹ (started (length rungs == 0) full) e in
        let count : 0 + landings ts ≤ r.received =
          subst (Counts (0 + landings ts)) ran
            (run-Counts ts (running start) 0 (start-IsBusy lt) (omega arith)) in
        let busy : IsBusy rungs parallel dial r =
          subst Tells ran (run-Tells ts (running start) (start-IsBusy lt)) in
        let race = busy.race in
        let counted = race.counted in
        let within = race.within in let waits = busy.waits in omega arith
  ]
    where
      started :
          (b : Bool)
          → b ≡ false
          → (if b
              then empty_ladder
              else run rungs parallel dial (running (launch rungs parallel dial at_start)) ts)
            ≡ run rungs parallel dial (running (launch rungs parallel dial at_start)) ts
      started b f = rw f refl
