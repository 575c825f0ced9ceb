-- ===== src/Pool/Chosen.antt =====
-- Which path `selectPath` commits to.
use bacchus.Shared.{
  ℕ, ◌≡◌, ◌≢◌, ◌⊎◌, inl, inr, refl, sym, ap, subst, ◌∙◌, List, [], ◌∷◌, Bool, true, false, Option,
  none, some, length, ◌==◌, bytes_eq, bytes_eq_iff, arith, In, Bool-cases, if◌then◌else◌, ok, err,
  Result,
}
use bacchus.Selection.{Candidate, EqualFold, ladder, mode_direct}
use bacchus.Selection.Ladder.{IsLearned, IsReachable, ladder_iff}
use bacchus.Selection.Store.{Record, put}
use bacchus.Pool.{
  Engine, CountryInfo, Tick, Outcome, running, won, exhausted, empty_ladder, interrupted,
  engine_stopped, SelectError, update_needed, no_country, no_candidates, Won, without_direct,
  chainable_ladder, input_of, rungs_of, remembered, after_race, select_path, race_ladder,
}
use bacchus.Pool.Racing.Ends.{race_wins}

In-without_direct :
    (x : Candidate) (cs : List Candidate)
    → In x (without_direct cs)
    → In x cs × (x.mode ≢ mode_direct)
unfolding without_direct
In-without_direct x [] m = absurd m
In-without_direct x (c ∷ cs) m = elim (Bool-cases (bytes_eq c.mode mode_direct)) [
  | inl direct ↦ let (i, n) = In-without_direct x cs (ground arith) in (inr i, n)
  | inr other ↦ elim (kept (ground arith)) [
    | inl e ↦ (inl e, λ f. differs (ap (λ (v : Candidate). v.mode) (sym e) ∙ f) other)
    | inr i ↦ let (j, n) = In-without_direct x cs i in (inr j, n)
  ]
]
  where
    kept : In x (c ∷ without_direct cs) → (x ≡ c) ⊎ In x (without_direct cs)
    kept k = k

    differs : c.mode ≡ mode_direct → bytes_eq c.mode mode_direct ≡ false → ⊥
    differs e d = ground (arith, bytes_eq_iff c.mode mode_direct)

In-chainable :
    (x : Candidate) (chaining : Bool) (cs : List Candidate)
    → In x (chainable_ladder chaining cs)
    → In x cs × ((chaining ≡ false) ⊎ (x.mode ≢ mode_direct))
unfolding chainable_ladder
In-chainable x false cs m = (m, inl refl)
In-chainable x true cs m = let (i, n) = In-without_direct x cs m in (i, inr n)

module _ {Dialed : Type 0} (eq : EqualFold) (rtt_ms : Dialed → ℕ)
    (dial : Candidate → Option Dialed) where
  -- What stands behind a choice, from the countries that were offered.
  abbrev pub IsChoice : Engine → List Record → ℕ → List CountryInfo → Candidate → Dialed → Type 0
  IsChoice e recs now countries c p =
      (IsLearned eq (input_of e recs countries now) c
        ⊎ IsReachable eq (input_of e recs countries now) c)
      × ((e.chaining ≡ false) ⊎ (c.mode ≢ mode_direct))
      × (dial c ≡ some p)

  race-IsChoice :
      (e : Engine) (recs : List Record) (now : ℕ) (ts : List Tick) (countries : List CountryInfo)
      (o : Outcome Dialed) (w : Won Dialed)
      → race_ladder (rungs_of eq rtt_ms dial e recs countries now) e.pool_parallel dial ts ≡ o
      → after_race eq rtt_ms dial e recs now o ≡ ok w
      → IsChoice e recs now countries w.candidate w.path
        × (w.recs ≡ put (remembered eq rtt_ms dial e w.candidate w.path now) recs)
  unfolding rungs_of
  race-IsChoice e recs now ts countries (won c p r) w raced h =
      let (i, d) =
        race_wins (rungs_of eq rtt_ms dial e recs countries now) e.pool_parallel dial ts c p r
          raced in
      let (m, n) = In-chainable c e.chaining (ladder eq (input_of e recs countries now)) i in
      let chosen = (ladder_iff eq (input_of e recs countries now) c).0 m in
      subst
        (λ (v : Won Dialed).
          IsChoice e recs now countries v.candidate v.path
          × (v.recs ≡ put (remembered eq rtt_ms dial e v.candidate v.path now) recs))
        (cc) ((chosen, n, d), refl)
  race-IsChoice e recs now ts countries (running r) w raced h = absurd (cc)
  race-IsChoice e recs now ts countries (exhausted r) w raced h = absurd (cc)
  race-IsChoice e recs now ts countries empty_ladder w raced h = absurd (cc)
  race-IsChoice e recs now ts countries interrupted w raced h = absurd (cc)
  race-IsChoice e recs now ts countries engine_stopped w raced h = absurd (cc)

  -- What a client commits to: a path that `selectPath` returns was dialed and validated, over a candidate
  -- that is the learned one or reaches a country in play of those that a coordinator offered; a client that
  -- chains its relays is never put on a direct one; nothing is selected once an update is required; and
  -- exactly this choice is added to what the client remembers.
  pub select_path_sound :
      (e : Engine) (recs : List Record) (fetched : Option (List CountryInfo)) (now : ℕ)
      (ts : List Tick) (w : Won Dialed)
      → select_path eq rtt_ms dial e recs fetched now ts ≡ ok w
      → (e.update_required ≡ false)
        × (w.recs ≡ put (remembered eq rtt_ms dial e w.candidate w.path now) recs)
        × ((countries : List CountryInfo) × (fetched ≡ some countries)
            × IsChoice e recs now countries w.candidate w.path)
  unfolding select_path
  select_path_sound e recs none now ts w h = ground arith
  select_path_sound e recs (some countries) now ts w h = elim (Bool-cases e.update_required) [
    | inl needed ↦ ground arith
    | inr current ↦ elim (Bool-cases (length countries == 0)) [
      | inl nothing ↦ ground arith
      | inr offered ↦
          elim (Bool-cases (length (rungs_of eq rtt_ms dial e recs countries now) == 0)) [
            | inl empty ↦ ground arith
            | inr rungs ↦
                let (choice, put_lem) = race-IsChoice e recs now ts countries _ w refl (
                  after (e.update_required) (length countries == 0)
                    (length (rungs_of eq rtt_ms dial e recs countries now) == 0) current offered
                    rungs h) in
                (current, put_lem, (countries, refl, choice))
          ]
    ]
  ]
    where
      raced : Result SelectError (Won Dialed)
      raced =
          after_race eq rtt_ms dial e recs now
            (race_ladder (rungs_of eq rtt_ms dial e recs countries now) e.pool_parallel dial ts)

      opened :
          (a b c : Bool)
          → a ≡ false
          → b ≡ false
          → c ≡ false
          → (if a
              then err update_needed
              else if b
              then err no_country
              else if c
              then err no_candidates
              else raced)
            ≡ raced
      opened a b c ea eb ec = rw (ea, eb, ec) refl

      after :
          (a b c : Bool)
          → a ≡ false
          → b ≡ false
          → c ≡ false
          → (if a
              then err update_needed
              else if b
              then err no_country
              else if c
              then err no_candidates
              else raced)
            ≡ ok w
          → raced ≡ ok w
      after a b c ea eb ec f = rw⁻¹ (opened a b c ea eb ec) f
