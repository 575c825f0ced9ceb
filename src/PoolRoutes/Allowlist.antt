-- ===== src/PoolRoutes/Allowlist.antt =====
-- Every address that a returned call of `reserve` was given is routed around the tunnel, and allowed once
-- the kill switch is armed.
pub mod Quiet
use bacchus.Shared.{
  ℕ, ◌≡◌, ◌≢◌, ◌⊎◌, inl, inr, refl, sym, ap, subst, ◌∙◌, List, [], ◌∷◌, ◌++◌, Bool, true, false,
  ◌||◌, Option, none, some, Bytes, bytes_eq, bytes_eq_iff, arith, In, Bool-cases, if◌then◌else◌,
}
use bacchus.PoolRoutes.{
  Job, installing, checking, reaping, allowing, Excluder, contains, note_new, reserve, advance,
  trigger_gateway_refresh, gateway_refreshed, disable, go_live, arm_allowlist, sweep, Step,
  reserves, returns, goes_on, ends, refreshes, refreshed, goes_live, arms, disables, sweeps, Steps,
  here, next, new_excluder, job_of,
}
use bacchus.PoolRoutes.Jobs.{
  Some, ToInstall, ToAllow, IsReaping, Some-swap, Some-drop, Some-at, Some-back, note_new-split,
  Covered, Covered-swap, Covered-drop, reaping-swap, covers_new, covers_old, to_allow,
}

module _ {G : Type 0} where
  -- While the excluder is not torn down.
  pub record IsCovering (js : List Job) (p : Excluder G) : Type 0 where
    pub routed : p.routes_live ≡ true → Covered ToInstall p.seen p.routes js
    pub allows : p.armed ≡ true → Covered ToAllow p.seen p.allowed js
    pub live : p.armed ≡ true → p.routes_live ≡ true
    pub no_reaping : Some IsReaping js → ⊥

  abbrev pub CoveringAfter : List Job → List Job → Option Job × Excluder G → Type 0
  CoveringAfter as' bs (none, q) = IsCovering (as' ++ bs) q
  CoveringAfter as' bs (some k, q) = IsCovering (as' ++ (k ∷ bs)) q

  pub advance-IsCovering :
      (as' bs : List Job) (j : Job) (p : Excluder G)
      → p.closed ≡ false
      → IsCovering (as' ++ (j ∷ bs)) p
      → CoveringAfter as' bs (advance j p)
  unfolding advance
  advance-IsCovering as' bs (installing a []) p o h = record {
    routed = λ l.
        Covered-drop ToInstall p.seen p.routes as' bs (installing a []) (λ x n. n) (h.routed l);
    allows = λ l.
        Covered-drop ToAllow p.seen p.allowed as' bs (installing a []) (no_rest a) (h.allows l);
    live = h.live;
    no_reaping = λ r. h.no_reaping (Some-back IsReaping as' bs (installing a []) r);
  }
    where
      no_rest : (b : Bool) (x : Bytes) → ToAllow x (installing b []) → ⊥
      no_rest true x n = n
      no_rest false x n = n
  advance-IsCovering as' bs (installing a (ip ∷ ips)) p o h = record {
    routed = λ l.
        Covered-swap ToInstall p.seen p.routes (ip ∷ p.routes) as' bs _ (checking a ip ips)
          (λ x m. elim m [ inl e ↦ inr (inl e) | inr n ↦ inl n ]) (λ x i. inr i) (h.routed l);
    allows = λ l.
        Covered-swap ToAllow p.seen p.allowed p.allowed as' bs _ (checking a ip ips) (same a)
          (λ x i. i) (h.allows l);
    live = h.live;
    no_reaping = reaping-swap as' bs _ (checking a ip ips) (λ n. n) h.no_reaping;
  }
    where
      same :
          (b : Bool) (x : Bytes)
          → ToAllow x (installing b (ip ∷ ips))
          → ToAllow x (checking b ip ips) ⊎ In x p.allowed
      same true x m = inl m
      same false x m = absurd m
  advance-IsCovering as' bs (checking a ip ips) p o h = rw (pass p.closed o) (record {
    routed = λ l.
        Covered-swap ToInstall p.seen p.routes p.routes as' bs _ (allowing a ip ips) (λ x m. inl m)
          (λ x i. i) (h.routed l);
    allows = λ l.
        Covered-swap ToAllow p.seen p.allowed p.allowed as' bs _ (allowing a ip ips) (same a)
          (λ x i. i) (h.allows l);
    live = h.live;
    no_reaping = reaping-swap as' bs _ (allowing a ip ips) (λ n. n) h.no_reaping;
  })
    where
      pass :
          (b : Bool)
          → b ≡ false
          → (if b then reaping a ip ips else allowing a ip ips) ≡ allowing a ip ips
      pass b e = rw e refl

      same :
          (b : Bool) (x : Bytes)
          → ToAllow x (checking b ip ips)
          → ToAllow x (allowing b ip ips) ⊎ In x p.allowed
      same true x m = inl m
      same false x m = absurd m
  advance-IsCovering as' bs (reaping a ip ips) p o h =
      absurd (h.no_reaping (Some-at IsReaping as' bs (reaping a ip ips) tt))
  advance-IsCovering as' bs (allowing true ip ips) p o h = record {
    routed = λ l.
        Covered-swap ToInstall p.seen p.routes p.routes as' bs _ (installing true ips)
          (λ x m. inl m) (λ x i. i) (h.routed l);
    allows = λ l.
        Covered-swap ToAllow p.seen p.allowed (ip ∷ p.allowed) as' bs _ (installing true ips)
          (λ x m. elim m [ inl e ↦ inr (inl e) | inr n ↦ inl n ]) (λ x i. inr i) (h.allows l);
    live = h.live;
    no_reaping = reaping-swap as' bs _ (installing true ips) (λ n. n) h.no_reaping;
  }
  advance-IsCovering as' bs (allowing false ip ips) p o h = record {
    routed = λ l.
        Covered-swap ToInstall p.seen p.routes p.routes as' bs _ (installing false ips)
          (λ x m. inl m) (λ x i. i) (h.routed l);
    allows = λ l.
        Covered-swap ToAllow p.seen p.allowed p.allowed as' bs _ (installing false ips)
          (λ x m. absurd m) (λ x i. i) (h.allows l);
    live = h.live;
    no_reaping = reaping-swap as' bs _ (installing false ips) (λ n. n) h.no_reaping;
  }

  abbrev pub ReserveAfter : List Job → Option Job × Excluder G → Type 0
  ReserveAfter js (none, q) = IsCovering js q
  ReserveAfter js (some j, q) = IsCovering (j ∷ js) q

  reserved-IsCovering :
      (js : List Job) (p : Excluder G) (new known : List Bytes)
      → p.closed ≡ false
      → ((x : Bytes) → In x known → In x p.seen ⊎ In x new)
      → IsCovering js p
      → ReserveAfter js (job_of p new, record p { seen = known })
  reserved-IsCovering js p [] known o split h = record {
    routed = λ l. covers_old ToInstall p.seen known p.routes js split (h.routed l);
    allows = λ l. covers_old ToAllow p.seen known p.allowed js split (h.allows l);
    live = h.live;
    no_reaping = h.no_reaping;
  }
  reserved-IsCovering js p (ip ∷ new) known o split h = elim (Bool-cases p.routes_live) [
    | inl live ↦
        subst (λ (v : Option Job). ReserveAfter js (v, record p { seen = known }))
          (sym (made p.closed p.routes_live o live))
          (record {
            routed = λ l.
                covers_new ToInstall p.seen known (ip ∷ new) p.routes js
                  (installing p.armed (ip ∷ new)) split (λ x n. n) (h.routed l);
            allows = λ l.
                covers_new ToAllow p.seen known (ip ∷ new) p.allowed js
                  (installing p.armed (ip ∷ new)) split (λ x n. to_allow p.armed x (ip ∷ new) l n)
                  (h.allows l);
            live = h.live;
            no_reaping = λ r. elim r [ inl t ↦ absurd t | inr s ↦ h.no_reaping s ];
          })
    | inr down ↦
        subst (λ (v : Option Job). ReserveAfter js (v, record p { seen = known }))
          (sym (unmade p.closed p.routes_live o down))
          (record {
            routed = λ l. absurd (cc);
            allows = λ l. let up = h.live l in absurd (cc);
            live = h.live;
            no_reaping = h.no_reaping;
          })
  ]
    where
      made :
          (c l : Bool)
          → c ≡ false
          → l ≡ true
          → ◌≡◌ {A = Option Job}
              (if c then none else if l then some (installing p.armed (ip ∷ new)) else none)
              (some (installing p.armed (ip ∷ new)))
      made c l ec el = rw (ec, el) refl

      unmade :
          (c l : Bool)
          → c ≡ false
          → l ≡ false
          → ◌≡◌ {A = Option Job}
              (if c then none else if l then some (installing p.armed (ip ∷ new)) else none)
              none
      unmade c l ec el = rw (ec, el) refl

  pub reserve-IsCovering :
      (ips : List Bytes) (js : List Job) (p : Excluder G)
      → p.closed ≡ false
      → IsCovering js p
      → ReserveAfter js (reserve ips p)
  unfolding reserve
  reserve-IsCovering ips js p o h =
      let (new, known) = note_new ips p.seen in
      reserved-IsCovering js p new known o (note_new-split ips p.seen) h

  -- Torn down, or covering.
  abbrev pub Safe : List Job → Excluder G → Type 0
  Safe js p = (p.closed ≡ true) ⊎ ((p.closed ≡ false) × IsCovering js p)
