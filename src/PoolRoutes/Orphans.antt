-- ===== src/PoolRoutes/Orphans.antt =====
-- No route outlives a teardown, however the calls of `reserve` interleave with it.
use bacchus.Shared.{
  ◌≡◌, ◌⊎◌, inl, inr, refl, sym, ap, subst, ◌∙◌, List, [], ◌∷◌, ◌++◌, Bool, true, false, Option,
  none, some, Bytes, arith, In, if◌then◌else◌,
}
use bacchus.PoolRoutes.Known.{In-remove, In-remove_all, Steps-Known}
use bacchus.PoolRoutes.{
  Job, installing, checking, reaping, allowing, Excluder, note_new, reserve, advance,
  trigger_gateway_refresh, gateway_refreshed, disable, arm_allowlist, sweep, Step, reserves,
  returns, goes_on, ends, refreshes, refreshed, goes_live, arms, disables, sweeps, Steps, here,
  next, new_excluder, job_of,
}

none-ne-some : {A : Type 0} {a : A} → ◌≡◌ {A = Option A} none (some a) → ⊥
none-ne-some e = cc

-- A job that has installed the route of `x` and has still to decide about it.
abbrev Holds : Bytes → Job → Type 0
Holds x (installing a ips) = ⊥
Holds x (checking a ip ips) = x ≡ ip
Holds x (reaping a ip ips) = x ≡ ip
Holds x (allowing a ip ips) = ⊥

abbrev Held : Bytes → List Job → Type 0
Held x [] = ⊥
Held x (j ∷ js) = Holds x j ⊎ Held x js

Held-swap :
    (x : Bytes) (as' bs : List Job) (j k : Job)
    → (Holds x j → Holds x k)
    → Held x (as' ++ (j ∷ bs))
    → Held x (as' ++ (k ∷ bs))
Held-swap x [] bs j k f (inl h) = inl (f h)
Held-swap x [] bs j k f (inr h) = inr h
Held-swap x (a ∷ as') bs j k f (inl h) = inl h
Held-swap x (a ∷ as') bs j k f (inr h) = inr (Held-swap x as' bs j k f h)

Held-middle : (x : Bytes) (as' bs : List Job) (k : Job) → Holds x k → Held x (as' ++ (k ∷ bs))
Held-middle x [] bs k h = inl h
Held-middle x (a ∷ as') bs k h = inr (Held-middle x as' bs k h)

Held-drop :
    (x : Bytes) (as' bs : List Job) (j : Job)
    → (Holds x j → ⊥)
    → Held x (as' ++ (j ∷ bs))
    → Held x (as' ++ bs)
Held-drop x [] bs j no_hold (inl h) = absurd (no_hold h)
Held-drop x [] bs j no_hold (inr h) = h
Held-drop x (a ∷ as') bs j no_hold (inl h) = inl h
Held-drop x (a ∷ as') bs j no_hold (inr h) = inr (Held-drop x as' bs j no_hold h)

decided :
    (x ip : Bytes) (a b : Bool) (ips : List Bytes)
    → b ≡ true
    → x ≡ ip
    → Holds x (if b then reaping a ip ips else allowing a ip ips)
decided x ip a b ips c e = rw c e

empty_lem : (rs : List Bytes) → ((x : Bytes) → In x rs → ⊥) → rs ≡ []
empty_lem [] h = refl
empty_lem (r ∷ rs) h = absurd (h r (inl refl))

module _ {G : Type 0} where
  -- After a sweep: `closed` is set, and a route that is there is one that some job will remove.
  abbrev Tracked : List Job → Excluder G → Type 0
  Tracked js p = (p.closed ≡ true) × ((x : Bytes) → In x p.routes → Held x js)

  abbrev After : List Job → List Job → Option Job × Excluder G → Type 0
  After as' bs (none, q) = Tracked (as' ++ bs) q
  After as' bs (some k, q) = Tracked (as' ++ (k ∷ bs)) q

  advance-Tracked :
      (as' bs : List Job) (j : Job) (p : Excluder G)
      → Tracked (as' ++ (j ∷ bs)) p
      → After as' bs (advance j p)
  unfolding advance
  advance-Tracked as' bs (installing a []) p (c, h) =
      (c, λ x m. Held-drop x as' bs (installing a []) (λ n. n) (h x m))
  advance-Tracked as' bs (installing a (ip ∷ ips)) p (c, h) = (
    c,
    λ x m. elim m [
      | inl e ↦ Held-middle x as' bs (checking a ip ips) e
      | inr n ↦
          Held-swap x as' bs (installing a (ip ∷ ips)) (checking a ip ips) (λ f. absurd f) (h x n)
    ],
  )
  advance-Tracked as' bs (checking a ip ips) p (c, h) =
      (c, λ x m. Held-swap x as' bs (checking a ip ips) _ (decided x ip a p.closed ips c) (h x m))
  advance-Tracked as' bs (reaping a ip ips) p (c, h) = (
    c,
    λ x m.
        let (i, n) = In-remove x ip p.routes m in
        Held-swap x as' bs (reaping a ip ips) (installing a ips) (λ e. absurd (n e)) (h x i),
  )
  advance-Tracked as' bs (allowing true ip ips) p (c, h) =
      (c, λ x m. Held-swap x as' bs (allowing true ip ips) (installing true ips) (λ f. f) (h x m))
  advance-Tracked as' bs (allowing false ip ips) p (c, h) =
      (c, λ x m. Held-swap x as' bs (allowing false ip ips) (installing false ips) (λ f. f) (h x m))

  reserve-routes :
      (ips : List Bytes) (p : Excluder G)
      → ((reserve ips p).1.routes ≡ p.routes) × ((reserve ips p).1.closed ≡ p.closed)
  unfolding reserve
  reserve-routes ips p = (refl, refl)

  reserve-closed : (ips : List Bytes) (p : Excluder G) → p.closed ≡ true → (reserve ips p).0 ≡ none
  unfolding reserve
  reserve-closed ips p c = shut (note_new ips p.seen).0
    where
      shut : (new : List Bytes) → job_of p new ≡ none
      shut [] = refl
      shut (ip ∷ new) = ground arith

  refresh-routes :
      (p : Excluder G)
      → ((trigger_gateway_refresh p).1.routes ≡ p.routes)
        × ((trigger_gateway_refresh p).1.closed ≡ p.closed)
  unfolding trigger_gateway_refresh
  refresh-routes p = ground arith

  arm-routes :
      (b : Bool) (p : Excluder G)
      → ((arm_allowlist b p).routes ≡ p.routes) × ((arm_allowlist b p).closed ≡ p.closed)
  unfolding arm_allowlist
  arm-routes true p = (refl, refl)
  arm-routes false p = (refl, refl)

  -- A step that leaves the jobs and `closed` alone, and adds no route.
  kept-Tracked :
      (js ks : List Job) (p q : Excluder G)
      → ks ≡ js
      → q.closed ≡ p.closed
      → ((x : Bytes) → In x q.routes → In x p.routes)
      → Tracked js p
      → Tracked ks q
  kept-Tracked js ks p q e c r (t, h) = (c ∙ t, λ x m. subst (Held x) (sym e) (h x (r x m)))

  same-Tracked :
      (js ks : List Job) (p q : Excluder G)
      → ks ≡ js
      → (q.routes ≡ p.routes) × (q.closed ≡ p.closed)
      → Tracked js p
      → Tracked ks q
  same-Tracked js ks p q e (r, c) t = kept-Tracked js ks p q e c (λ x m. subst (In x) r m) t

  step-Tracked :
      (js ks : List Job) (p q : Excluder G) → Step js p ks q → Tracked js p → Tracked ks q
  unfolding gateway_refreshed disable sweep
  step-Tracked js ks p q (reserves ips j e r) t =
      absurd (
        none-ne-some (sym (reserve-closed ips p t.0) ∙ ap (λ (o : Option Job × Excluder G). o.0) r))
  step-Tracked js ks p q (returns ips e r) t =
      let same : (reserve ips p).1 ≡ q = ap (λ (o : Option Job × Excluder G). o.1) r in
      same-Tracked js ks p q e (ground (arith, reserve-routes ips p)) t
  step-Tracked js ks p q (goes_on as' bs j k ej ek r) t =
      rw ek (subst (After as' bs) r (advance-Tracked as' bs j p (rw⁻¹ ej t)))
  step-Tracked js ks p q (ends as' bs j ej ek r) t =
      rw ek (subst (After as' bs) r (advance-Tracked as' bs j p (rw⁻¹ ej t)))
  step-Tracked js ks p q (refreshes e r) t = same-Tracked js ks p q e (rw r (refresh-routes p)) t
  step-Tracked js ks p q (refreshed f e r) t = same-Tracked js ks p q e (rw r (refl, refl)) t
  step-Tracked js ks p q (goes_live g o e r) t = absurd (cc)
  step-Tracked js ks p q (arms b l e r) t = same-Tracked js ks p q e (rw r (arm-routes b p)) t
  step-Tracked js ks p q (disables e r) t =
      kept-Tracked js ks p q e (rw r (sym t.0))
        (λ x m. subst (λ (v : Excluder G). In x v.routes) r m) t
  step-Tracked js ks p q (sweeps c e r) t =
      kept-Tracked js ks p q e (rw r refl)
        (λ x m. (In-remove_all x p.seen p.routes (subst (λ (v : Excluder G). In x v.routes) r m)).0)
        t

  Steps-Tracked :
      {js : List Job} {p : Excluder G} {ks : List Job} {q : Excluder G}
      → Steps js p ks q
      → Tracked js p
      → Tracked ks q
  Steps-Tracked here t = t
  Steps-Tracked (next {ks = ms} {q = m} ss s) t = step-Tracked _ _ _ _ s (Steps-Tracked ss t)

  -- No route is orphaned: whatever ran before and is still running when a torn down excluder removes the
  -- routes it has recorded, once the calls of `reserve` have all returned the route table holds none.
  pub no_orphan_route :
      (js : List Job) (p q : Excluder G)
      → Steps [] new_excluder js p
      → p.closed ≡ true
      → Steps js (sweep p) [] q
      → q.routes ≡ []
  unfolding sweep
  no_orphan_route js p q before closed after =
      let (known, _) = Steps-Known before ((λ x m. absurd m), (λ j m. absurd m)) in
      let tracked : Tracked [] q = Steps-Tracked after (
        closed,
        λ x m. let (i, out) = In-remove_all x p.seen p.routes m in absurd (out (known x i)),
      ) in
      empty_lem q.routes tracked.1
