-- ===== src/Coordinator/Assign/Choice.antt =====
-- What `chooseExit` of cmd/coordinator returns.
use bacchus.Shared.{
  ℕ, ◌+◌, ◌*◌, ◌^◌, ◌<◌, ◌≤◌, List, [], ◌∷◌, true, false, ◌≡◌, ◌≢◌, ◌⊎◌, inl, inr, refl, Bytes,
  String, In, length, bytes_eq, bytes_eq_iff, arith, ltb, leb, ◌&&◌, Bool-cases, ok,
}
use bacchus.Capacity.Share.{octave_floor, octave_floor-le, octave_floor_half, share_antitone}
use bacchus.Geoip.{Unicode, canonical}
use bacchus.Coordinator.Assign.{
  Env, ExitNode, TierLimits, candidates, country_known, not_excluded, after_exclusion, best_rank,
  tier_floor, first_in_tier, choose_from, choose_exit, exit_sessions, exit_rating, exit_assignable,
  exit_rank, contains, min_candidates_after_exclude,
}

module _ (env : Env) (now : ℕ) where
  rank : ExitNode → ℕ
  rank e = exit_rank env e (exit_sessions env.sessions now e.id)

  -- An exit of the country that can take one more session.
  abbrev pub Fits : Bytes → TierLimits → List ExitNode → ExitNode → Type 0
  Fits cc l exits e =
      In e exits
      × (e.country ≡ cc)
      × (exit_assignable env e (exit_sessions env.sessions now e.id) l ≡ true)

  candidates-Fits :
      (cc : Bytes) (l : TierLimits) (exits : List ExitNode) (e : ExitNode)
      → In e (candidates env cc now l exits)
      → Fits cc l exits e
  unfolding candidates
  candidates-Fits cc l [] e m = absurd m
  candidates-Fits cc l (x ∷ xs) e m =
      elim (Bool-cases
        (bytes_eq x.country cc && exit_assignable env x (exit_sessions env.sessions now x.id) l)) [
          | inr out ↦ let (i, c, a) = candidates-Fits cc l xs e (ground arith) in (inr i, c, a)
          | inl here ↦ cases here (candidates-Fits cc l xs e) (ground arith)
        ]
    where
      cases :
          (bytes_eq x.country cc && exit_assignable env x (exit_sessions env.sessions now x.id) l)
            ≡ true
          → (In e (candidates env cc now l xs) → Fits cc l xs e)
          → (e ≡ x) ⊎ In e (candidates env cc now l xs)
          → Fits cc l (x ∷ xs) e
      cases here later (inl i) = (inl i, ground (arith, bytes_eq_iff x.country cc), ground arith)
      cases here later (inr i) = let (m', c, a) = later i in (inr m', c, a)

  Fits-candidates :
      (cc : Bytes) (l : TierLimits) (exits : List ExitNode) (e : ExitNode)
      → Fits cc l exits e
      → In e (candidates env cc now l exits)
  unfolding candidates
  Fits-candidates cc l [] e f = absurd f.0
  Fits-candidates cc l (x ∷ xs) e (inl i, c, a) = ground (arith, bytes_eq_iff x.country cc)
  Fits-candidates cc l (x ∷ xs) e (inr i, c, a) =
      ground (arith, Fits-candidates cc l xs e (i, c, a))

  best_rank_attained :
      (x : ExitNode) (xs : List ExitNode)
      → (e : ExitNode) × In e (x ∷ xs) × (best_rank env now (x ∷ xs) ≤ rank e)
  unfolding best_rank rank
  best_rank_attained x [] = (x, inl refl, ground arith)
  best_rank_attained x (y ∷ ys) =
      let (e, m, b) = best_rank_attained y ys in
      elim (Bool-cases (ltb (best_rank env now (y ∷ ys)) (rank x))) [
        | inl above ↦ (x, inl refl, ground arith)
        | inr below ↦ (e, inr m, ground arith)
      ]

  best_rank_bounds : (xs : List ExitNode) (e : ExitNode) → In e xs → rank e ≤ best_rank env now xs
  unfolding best_rank rank
  best_rank_bounds [] e m = absurd m
  best_rank_bounds (x ∷ xs) e (inl i) = ground arith
  best_rank_bounds (x ∷ xs) e (inr i) = ground (arith, best_rank_bounds xs e i)

  first_in_tier_sound :
      (floor : ℕ) (xs : List ExitNode) (e : ExitNode)
      → first_in_tier env now floor xs ≡ ok e
      → In e xs × (floor ≤ rank e)
  unfolding first_in_tier rank
  first_in_tier_sound floor [] e h = ground arith
  first_in_tier_sound floor (x ∷ xs) e h =
      elim (Bool-cases (leb floor (exit_rank env x (exit_sessions env.sessions now x.id)))) [
        | inl hit ↦ (inl (ground arith), ground arith)
        | inr miss ↦ let (m, b) = first_in_tier_sound floor xs e (ground arith) in (inr m, b)
      ]

  first_in_tier_total :
      (floor : ℕ) (xs : List ExitNode) (e : ExitNode)
      → In e xs
      → floor ≤ rank e
      → (c : ExitNode) × (first_in_tier env now floor xs ≡ ok c)
  unfolding first_in_tier rank
  first_in_tier_total floor [] e m b = absurd m
  first_in_tier_total floor (x ∷ xs) e (inl i) b = (x, ground arith)
  first_in_tier_total floor (x ∷ xs) e (inr i) b =
      elim (Bool-cases (leb floor (exit_rank env x (exit_sessions env.sessions now x.id)))) [
        | inl hit ↦ (x, ground arith)
        | inr miss ↦ let (c, found) = first_in_tier_total floor xs e i b in (c, ground arith)
      ]

  not_excluded-In :
      (exclude : List String) (xs : List ExitNode) (e : ExitNode)
      → In e (not_excluded exclude xs)
      → In e xs × (contains e.id exclude ≡ false)
  unfolding not_excluded
  not_excluded-In exclude [] e m = absurd m
  not_excluded-In exclude (x ∷ xs) e m = elim (Bool-cases (contains x.id exclude)) [
    | inl skipped ↦ let (i, c) = not_excluded-In exclude xs e (ground arith) in (inr i, c)
    | inr kept ↦ cases kept (not_excluded-In exclude xs e) (ground arith)
  ]
    where
      cases :
          contains x.id exclude ≡ false
          → (In e (not_excluded exclude xs) → In e xs × (contains e.id exclude ≡ false))
          → (e ≡ x) ⊎ In e (not_excluded exclude xs)
          → In e (x ∷ xs) × (contains e.id exclude ≡ false)
      cases kept later (inl i) = (inl i, ground arith)
      cases kept later (inr i) = let (m', c) = later i in (inr m', c)

  after_exclusion-In :
      (exclude : List String) (xs : List ExitNode) (e : ExitNode)
      → In e (after_exclusion exclude xs)
      → In e xs
  unfolding after_exclusion
  after_exclusion-In exclude xs e m =
      elim (Bool-cases (leb min_candidates_after_exclude (length (not_excluded exclude xs)))) [
        | inl enough ↦ (not_excluded-In exclude xs e (ground arith)).0
        | inr few ↦ ground arith
      ]

  -- The loop over a list that is not empty finds an exit, so the refusal behind it is not reached.
  tier_total :
      (xs : List ExitNode)
      → xs ≢ []
      → (c : ExitNode) × (first_in_tier env now (tier_floor env now xs) xs ≡ ok c)
  unfolding tier_floor
  tier_total [] h = absurd (h refl)
  tier_total (x ∷ xs) h =
      let (e, m, b) = best_rank_attained x xs in
      first_in_tier_total (octave_floor (best_rank env now (x ∷ xs))) (x ∷ xs) e m
        (omega (arith, octave_floor-le (best_rank env now (x ∷ xs))))

  after_exclusion_nonempty :
      (exclude : List String) (x : ExitNode) (xs : List ExitNode)
      → after_exclusion exclude (x ∷ xs) ≢ []
  unfolding after_exclusion
  after_exclusion_nonempty exclude x xs e = ground arith

  choose_from_total :
      (exclude : List String) (cs : List ExitNode)
      → cs ≢ []
      → (e : ExitNode) × (choose_from env now exclude cs ≡ ok e)
  choose_from_total exclude [] h = absurd (h refl)
  choose_from_total exclude (c ∷ cs) h =
      tier_total (after_exclusion exclude (c ∷ cs)) (after_exclusion_nonempty exclude c cs)

  choose_from-In :
      (exclude : List String) (cs : List ExitNode) (e : ExitNode)
      → choose_from env now exclude cs ≡ ok e
      → In e cs
        × In e (after_exclusion exclude cs)
        × (tier_floor env now (after_exclusion exclude cs) ≤ rank e)
  choose_from-In exclude [] e h = ground arith
  choose_from-In exclude (c ∷ cs) e h =
      let left = after_exclusion exclude (c ∷ cs) in
      let (m, b) = first_in_tier_sound (tier_floor env now left) left e h in
      (after_exclusion-In exclude (c ∷ cs) e m, m, b)

  choose_exit-choose_from :
      (u : Unicode) (country : Bytes) (exclude : List String) (l : TierLimits) (e : ExitNode)
      → choose_exit u env country exclude now l ≡ ok e
      → choose_from env now exclude (candidates env (canonical u country) now l env.exits) ≡ ok e
  unfolding choose_exit
  choose_exit-choose_from u country exclude l e h = ground arith

  country_known_of_In :
      (cc : Bytes) (xs : List ExitNode) (e : ExitNode)
      → In e xs
      → e.country ≡ cc
      → country_known cc xs ≡ true
  unfolding country_known
  country_known_of_In cc [] e m h = absurd m
  country_known_of_In cc (x ∷ xs) e (inl i) h = ground (arith, bytes_eq_iff x.country cc)
  country_known_of_In cc (x ∷ xs) e (inr i) h = ground (arith, country_known_of_In cc xs e i h)

  not_excluded-keeps :
      (exclude : List String) (xs : List ExitNode) (e : ExitNode)
      → In e xs
      → contains e.id exclude ≡ false
      → In e (not_excluded exclude xs)
  unfolding not_excluded
  not_excluded-keeps exclude [] e m out = absurd m
  not_excluded-keeps exclude (x ∷ xs) e (inl i) out = ground arith
  not_excluded-keeps exclude (x ∷ xs) e (inr i) out =
      ground (arith, not_excluded-keeps exclude xs e i out)

  after_exclusion-keeps :
      (exclude : List String) (xs : List ExitNode) (e : ExitNode)
      → In e xs
      → (contains e.id exclude ≡ false) ⊎ (length (not_excluded exclude xs) < 2)
      → In e (after_exclusion exclude xs)
  unfolding after_exclusion
  after_exclusion-keeps exclude xs e m (inl out) =
      ground (arith, not_excluded-keeps exclude xs e m out)
  after_exclusion-keeps exclude xs e m (inr few) = ground arith

  rank-ceiling : (e : ExitNode) → rank e ≤ env.ceiling
  unfolding rank exit_rank
  rank-ceiling e =
      let sessions = exit_sessions env.sessions now e.id in
      let (rate, rated) = exit_rating env e.id e.speed_cap in
      (share_antitone rate sessions sessions rated false env.ceiling 0 (omega arith)).1

  -- No exit left to choose from ranks above twice an exit that is in the top tier.
  tier_half :
      (xs : List ExitNode) (e f : ExitNode)
      → env.ceiling + 1 < 2 ^ 64
      → tier_floor env now xs ≤ rank e
      → In f xs
      → rank f ≤ 2 * rank e
  unfolding tier_floor
  tier_half [] e f small above m = absurd m
  tier_half (x ∷ xs) e f small above m =
      let best = best_rank env now (x ∷ xs) in
      let (top, _, attained) = best_rank_attained x xs in
      let bounded : best ≤ env.ceiling = omega (arith, attained, rank-ceiling top) in
      omega (
        arith,
        octave_floor_half best (omega (arith, bounded, small)),
        best_rank_bounds (x ∷ xs) f m,
        above,
      )

  -- An exit that is chosen is one of this coordinator's, is in the country asked for, can take one
  -- more session, and ranks at least half of every exit left to choose from: of every one that could be
  -- given instead and is not excluded, or of every one, excluded or not, where fewer than two are not.
  -- The ceiling of ratings is below the largest number of 64 bits.
  pub choose_exit_sound :
      (u : Unicode) (country : Bytes) (exclude : List String) (l : TierLimits) (e : ExitNode)
      → env.ceiling + 1 < 2 ^ 64
      → choose_exit u env country exclude now l ≡ ok e
      → Fits (canonical u country) l env.exits e
        × ((f : ExitNode)
            → Fits (canonical u country) l env.exits f
            → (contains f.id exclude ≡ false)
              ⊎ (length
                    (not_excluded exclude (candidates env (canonical u country) now l env.exits))
                  < 2)
            → exit_rank env f (exit_sessions env.sessions now f.id)
              ≤ 2 * exit_rank env e (exit_sessions env.sessions now e.id))
  unfolding rank
  choose_exit_sound u country exclude l e small h =
      let cc = canonical u country in
      let (m, _, b) =
        choose_from-In exclude (candidates env cc now l env.exits) e
          (choose_exit-choose_from u country exclude l e h) in
      (
        candidates-Fits cc l env.exits e m,
        λ f fits left.
            tier_half (after_exclusion exclude (candidates env cc now l env.exits)) e f small b (
              after_exclusion-keeps exclude (candidates env cc now l env.exits) f
                (Fits-candidates cc l env.exits f fits) left),
      )

  -- If any exit of a country that the name stands for can take one more session, an exit is given,
  -- whatever the client asks to exclude and in whatever order the exits are ranged over.
  pub choose_exit_total :
      (u : Unicode) (country : Bytes) (exclude : List String) (l : TierLimits)
      (some_exit : ExitNode)
      → canonical u country ≢ []
      → Fits (canonical u country) l env.exits some_exit
      → (e : ExitNode) × (choose_exit u env country exclude now l ≡ ok e)
  unfolding choose_exit
  choose_exit_total u country exclude l x named fits =
      let cc = canonical u country in
      let known = country_known_of_In cc env.exits x fits.0 fits.1 in
      let there = Fits-candidates cc l env.exits x fits in
      let (e, chosen) =
        choose_from_total exclude (candidates env cc now l env.exits) (λ h. ground arith) in
      (e, ground arith)

  -- An exclusion is honoured where at least two other exits can take the session: the exit given is
  -- then none of those excluded.
  pub choose_exit_excludes :
      (u : Unicode) (country : Bytes) (exclude : List String) (l : TierLimits) (e : ExitNode)
      → 2 ≤ length (not_excluded exclude (candidates env (canonical u country) now l env.exits))
      → choose_exit u env country exclude now l ≡ ok e
      → contains e.id exclude ≡ false
  unfolding after_exclusion
  choose_exit_excludes u country exclude l e enough h =
      let cs = candidates env (canonical u country) now l env.exits in
      let (_, m, _) =
        choose_from-In exclude cs e (choose_exit-choose_from u country exclude l e h) in
      (not_excluded-In exclude cs e (ground arith)).1
