-- ===== src/PoolRoutes/Allowlist/Quiet.antt =====
-- When no call of `reserve` is in progress and the excluder is not torn down, what it has recorded is
-- routed and allowed; and what another call of the same address finds meanwhile.
use bacchus.Shared.{
  ◌≡◌, ◌⊎◌, inl, inr, refl, sym, ap, subst, ◌∙◌, List, [], ◌∷◌, ◌++◌, Bool, true, false, Option,
  none, some, Bytes, bytes_eq_refl, arith, In, Bool-cases,
}
use bacchus.PoolRoutes.{
  Job, installing, checking, reaping, allowing, Excluder, contains, note_new, reserve, advance,
  trigger_gateway_refresh, gateway_refreshed, disable, go_live, arm_allowlist, sweep, Step,
  reserves, returns, goes_on, ends, refreshes, refreshed, goes_live, arms, disables, sweeps, Steps,
  here, next, new_excluder,
}
use bacchus.PoolRoutes.Jobs.{ToInstall, ToAllow, Covered}
use bacchus.PoolRoutes.Allowlist.{
  IsCovering, CoveringAfter, ReserveAfter, Safe, advance-IsCovering, reserve-IsCovering,
}

In-left : (x : Bytes) (as' bs : List Bytes) → In x as' → In x (as' ++ bs)
In-left x [] bs h = absurd h
In-left x (a ∷ as') bs (inl e) = inl e
In-left x (a ∷ as') bs (inr h) = inr (In-left x as' bs h)

In-right : (x : Bytes) (as' bs : List Bytes) → In x bs → In x (as' ++ bs)
In-right x [] bs h = h
In-right x (a ∷ as') bs h = inr (In-right x as' bs h)

contains_self : (ip : Bytes) (seen : List Bytes) → contains ip (ip ∷ seen) ≡ true
unfolding contains
contains_self ip seen = ground (arith, bytes_eq_refl ip)

none_running :
    (T : Bytes → Job → Type 0) (seen done : List Bytes) (x : Bytes)
    → Covered T seen done []
    → In x seen
    → In x done
none_running T seen done x h m = elim (h x m) [ inl p ↦ absurd p | inr i ↦ i ]

module _ {G : Type 0} where
  reserve-closed : (ips : List Bytes) (p : Excluder G) → (reserve ips p).1.closed ≡ p.closed
  unfolding reserve
  reserve-closed ips p = refl

  advance-closed : (j : Job) (p : Excluder G) → (advance j p).1.closed ≡ p.closed
  unfolding advance
  advance-closed (installing a []) p = refl
  advance-closed (installing a (ip ∷ ips)) p = refl
  advance-closed (checking a ip ips) p = refl
  advance-closed (reaping a ip ips) p = refl
  advance-closed (allowing true ip ips) p = refl
  advance-closed (allowing false ip ips) p = refl

  -- `closed` is never taken back.
  step-closed :
      (js ks : List Job) (p q : Excluder G) → Step js p ks q → p.closed ≡ true → q.closed ≡ true
  unfolding trigger_gateway_refresh gateway_refreshed disable go_live arm_allowlist sweep
  step-closed js ks p q (reserves ips j e r) c =
      ap (λ (o : Option Job × Excluder G). o.1.closed) (sym r) ∙ reserve-closed ips p ∙ c
  step-closed js ks p q (returns ips e r) c =
      ap (λ (o : Option Job × Excluder G). o.1.closed) (sym r) ∙ reserve-closed ips p ∙ c
  step-closed js ks p q (goes_on as' bs j k ej ek r) c =
      ap (λ (o : Option Job × Excluder G). o.1.closed) (sym r) ∙ advance-closed j p ∙ c
  step-closed js ks p q (ends as' bs j ej ek r) c =
      ap (λ (o : Option Job × Excluder G). o.1.closed) (sym r) ∙ advance-closed j p ∙ c
  step-closed js ks p q (refreshes e r) c = ground arith
  step-closed js ks p q (refreshed f e r) c = ground arith
  step-closed js ks p q (goes_live g o e r) c = ground arith
  step-closed js ks p q (arms b l e r) c = ground arith
  step-closed js ks p q (disables e r) c = ground arith
  step-closed js ks p q (sweeps o e r) c = ground arith

  live-IsCovering :
      (js : List Job) (g : G) (p : Excluder G) → IsCovering js p → IsCovering js (go_live g p)
  unfolding go_live
  live-IsCovering js g p h = record {
    routed = λ l x m. inr (In-left x p.seen p.routes m);
    allows = h.allows;
    live = λ a. refl;
    no_reaping = h.no_reaping;
  }

  arm-IsCovering :
      (js : List Job) (b : Bool) (p : Excluder G)
      → p.routes_live ≡ true
      → IsCovering js p
      → IsCovering js (arm_allowlist b p)
  unfolding arm_allowlist
  arm-IsCovering js false p l h = h
  arm-IsCovering js true p l h = record {
    routed = h.routed;
    allows = λ a x m. inr (In-left x p.seen p.allowed m);
    live = λ a. l;
    no_reaping = h.no_reaping;
  }

  refresh-IsCovering :
      (js : List Job) (p : Excluder G)
      → IsCovering js p
      → IsCovering js (trigger_gateway_refresh p).1
  unfolding trigger_gateway_refresh
  refresh-IsCovering js p h = ground arith

  refreshed-IsCovering :
      (js : List Job) (f : Option G) (p : Excluder G)
      → IsCovering js p
      → IsCovering js (gateway_refreshed f p)
  unfolding gateway_refreshed
  refreshed-IsCovering js f p h = record {
    routed = h.routed;
    allows = h.allows;
    live = h.live;
    no_reaping = h.no_reaping;
  }

  step-IsCovering :
      (js ks : List Job) (p q : Excluder G)
      → Step js p ks q
      → p.closed ≡ false
      → IsCovering js p
      → (q.closed ≡ true) ⊎ IsCovering ks q
  unfolding disable
  step-IsCovering js ks p q (reserves ips j e r) o h =
      inr (rw e (subst (ReserveAfter js) r (reserve-IsCovering ips js p o h)))
  step-IsCovering js ks p q (returns ips e r) o h =
      inr (rw e (subst (ReserveAfter js) r (reserve-IsCovering ips js p o h)))
  step-IsCovering js ks p q (goes_on as' bs j k ej ek r) o h =
      inr (rw ek (subst (CoveringAfter as' bs) r (advance-IsCovering as' bs j p o (rw⁻¹ ej h))))
  step-IsCovering js ks p q (ends as' bs j ej ek r) o h =
      inr (rw ek (subst (CoveringAfter as' bs) r (advance-IsCovering as' bs j p o (rw⁻¹ ej h))))
  step-IsCovering js ks p q (refreshes e r) o h = inr (rw (e, r) (refresh-IsCovering js p h))
  step-IsCovering js ks p q (refreshed f e r) o h = inr (rw (e, r) (refreshed-IsCovering js f p h))
  step-IsCovering js ks p q (goes_live g c e r) o h = inr (rw (e, r) (live-IsCovering js g p h))
  step-IsCovering js ks p q (arms b l e r) o h = inr (rw (e, r) (arm-IsCovering js b p l h))
  step-IsCovering js ks p q (disables e r) o h = inl (rw r refl)
  step-IsCovering js ks p q (sweeps c e r) o h = absurd (cc)

  Steps-Safe :
      {js : List Job} {p : Excluder G} {ks : List Job} {q : Excluder G}
      → Steps js p ks q
      → Safe js p
      → (q.closed ≡ true) ⊎ IsCovering ks q
  Steps-Safe here (inl c) = inl c
  Steps-Safe here (inr h) = inr h.1
  Steps-Safe (next {ks = ms} {q = m} ss s) h = elim (Steps-Safe ss h) [
    | inl c ↦ inl (step-closed _ _ _ _ s c)
    | inr cov ↦ elim (Bool-cases m.closed) [
      | inl c ↦ inl (step-closed _ _ _ _ s c)
      | inr o ↦ step-IsCovering _ _ _ _ s o cov
    ]
  ]

  new-IsCovering : IsCovering {G = G} [] new_excluder
  new-IsCovering = record {
    routed = λ l x m. absurd m;
    allows = λ l x m. absurd m;
    live = λ a. absurd (cc);
    no_reaping = λ n. n;
  }

  -- Once every call of `reserve` has returned, and unless the excluder is torn down: every address it has
  -- recorded has its route, if the tunnel is live, and is in the kill switch's allowlist, if that is armed.
  -- This holds in whatever order the calls ran beside each other and beside the tunnel's own.
  pub quiet_is_protected :
      (q : Excluder G) (x : Bytes)
      → Steps [] new_excluder [] q
      → q.closed ≡ false
      → In x q.seen
      → ((q.routes_live ≡ false) ⊎ In x q.routes) × ((q.armed ≡ false) ⊎ In x q.allowed)
  quiet_is_protected q x ss o m = elim (Steps-Safe ss (inr (refl, new-IsCovering))) [
    | inl c ↦ absurd (cc)
    | inr h ↦ (
      elim (Bool-cases q.routes_live) [
        | inl l ↦ inr (none_running ToInstall q.seen q.routes x (h.routed l) m)
        | inr down ↦ inl down
      ],
      elim (Bool-cases q.armed) [
        | inl a ↦ inr (none_running ToAllow q.seen q.allowed x (h.allows a) m)
        | inr not_armed ↦ inl not_armed
      ],
    )
  ]

  reserve-fresh :
      (ip : Bytes) (p : Excluder G)
      → p.routes_live ≡ true
      → p.closed ≡ false
      → contains ip p.seen ≡ false
      → reserve (ip ∷ []) p ≡ (some (installing p.armed (ip ∷ [])), record p { seen = ip ∷ p.seen })
  unfolding reserve note_new
  reserve-fresh ip p live o fresh = ground arith

  reserve-seen :
      (ip : Bytes) (p : Excluder G) → contains ip p.seen ≡ true → reserve (ip ∷ []) p ≡ (none, p)
  unfolding reserve note_new
  reserve-seen ip p seen = ground arith

  -- A second call of the same address does not wait for the first: while the first has the route still to
  -- install, the second returns at once, and then the address has no route.
  pub second_reserve_unprotected :
      (ip : Bytes) (p : Excluder G)
      → p.routes_live ≡ true
      → p.closed ≡ false
      → contains ip p.seen ≡ false
      → ¬ In ip p.routes
      → let (first, p1) = reserve (ip ∷ []) p in
        let (second, p2) = reserve (ip ∷ []) p1 in
        (first ≡ some (installing p.armed (ip ∷ []))) × (second ≡ none) × ¬ In ip p2.routes
  second_reserve_unprotected ip p live o fresh no_route =
      let p1 : Excluder G = record p { seen = ip ∷ p.seen } in
      rw (reserve-fresh ip p live o fresh) (
        refl,
        rw (reserve-seen ip p1 (contains_self ip p.seen)) refl,
        rw (reserve-seen ip p1 (contains_self ip p.seen)) no_route,
      )
