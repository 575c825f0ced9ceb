-- ===== src/PoolRoutes/Known.antt =====
-- Every route and every address that a call works on is one that `reserve` has recorded.
use bacchus.Shared.{
  ◌≡◌, ◌≢◌, ◌⊎◌, inl, inr, refl, sym, ap, subst, ◌∙◌, List, [], ◌∷◌, ◌++◌, Bool, true, false,
  Option, none, some, Bytes, bytes_eq, bytes_eq_refl, arith, In, Bool-cases, if◌then◌else◌,
}
use bacchus.PoolRoutes.{
  Job, installing, checking, reaping, allowing, Excluder, contains, remove, remove_all, note_new,
  reserve, advance, trigger_gateway_refresh, gateway_refreshed, disable, go_live, arm_allowlist,
  sweep, Step, reserves, returns, goes_on, ends, refreshes, refreshed, goes_live, arms, disables,
  sweeps, Steps, here, next, job_of,
}

pub In-remove : (x ip : Bytes) (rs : List Bytes) → In x (remove ip rs) → In x rs × (x ≢ ip)
unfolding remove
In-remove x ip [] h = absurd h
In-remove x ip (r ∷ rs) h = elim (Bool-cases (bytes_eq r ip)) [
  | inl same ↦ let (i, n) = In-remove x ip rs (ground arith) in (inr i, n)
  | inr differ ↦ elim (kept (ground arith)) [
    | inl e ↦ (inl e, λ m. differs (sym e ∙ m) differ)
    | inr i ↦ let (j, n) = In-remove x ip rs i in (inr j, n)
  ]
]
  where
    kept : In x (r ∷ remove ip rs) → (x ≡ r) ⊎ In x (remove ip rs)
    kept m = m

    differs : r ≡ ip → bytes_eq r ip ≡ false → ⊥
    differs e d = ground (arith, bytes_eq_refl ip)

pub In-remove_all :
    (x : Bytes) (ips rs : List Bytes) → In x (remove_all ips rs) → In x rs × (In x ips → ⊥)
unfolding remove_all
In-remove_all x [] rs h = (h, λ n. n)
In-remove_all x (ip ∷ ips) rs h =
    let (i, out) = In-remove_all x ips (remove ip rs) h in
    let (j, differ) = In-remove x ip rs i in (j, λ m. elim m [ inl e ↦ differ e | inr n ↦ out n ])

-- The addresses that a job is still to work on.
abbrev pub rest_of : Job → List Bytes
rest_of (installing a ips) = ips
rest_of (checking a ip ips) = ip ∷ ips
rest_of (reaping a ip ips) = ip ∷ ips
rest_of (allowing a ip ips) = ip ∷ ips

-- Every address of `new` and of `seen` is known after `note_new`.
note_new-known :
    (ips seen : List Bytes) (x : Bytes)
    → (In x (note_new ips seen).0 → In x (note_new ips seen).1)
      × (In x seen → In x (note_new ips seen).1)
unfolding note_new
note_new-known [] seen x = (λ n. absurd n, λ h. h)
note_new-known (ip ∷ ips) seen x = elim (Bool-cases (contains ip seen)) [
  | inl known ↦ rw known (note_new-known ips seen x)
  | inr fresh ↦ rw fresh (fresh_known (note_new-known ips (ip ∷ seen) x))
]
  where
    fresh_known :
        (In x (note_new ips (ip ∷ seen)).0 → In x (note_new ips (ip ∷ seen)).1)
          × (In x (ip ∷ seen) → In x (note_new ips (ip ∷ seen)).1)
        → (In x (ip ∷ (note_new ips (ip ∷ seen)).0) → In x (note_new ips (ip ∷ seen)).1)
          × (In x seen → In x (note_new ips (ip ∷ seen)).1)
    fresh_known (f, g) = (λ n. elim n [ inl e ↦ g (inl e) | inr m ↦ f m ], λ h. g (inr h))

In-swap :
    (as' bs : List Job) (j k l : Job) → In l (as' ++ (k ∷ bs)) → (l ≡ k) ⊎ In l (as' ++ (j ∷ bs))
In-swap [] bs j k l (inl e) = inl e
In-swap [] bs j k l (inr m) = inr (inr m)
In-swap (a ∷ as') bs j k l (inl e) = inr (inl e)
In-swap (a ∷ as') bs j k l (inr m) = elim (In-swap as' bs j k l m) [
  | inl e ↦ inl e
  | inr n ↦ inr (inr n)
]

In-keep : (as' bs : List Job) (j l : Job) → In l (as' ++ bs) → In l (as' ++ (j ∷ bs))
In-keep [] bs j l m = inr m
In-keep (a ∷ as') bs j l (inl e) = inl e
In-keep (a ∷ as') bs j l (inr m) = inr (In-keep as' bs j l m)

In-at : (as' bs : List Job) (j : Job) → In j (as' ++ (j ∷ bs))
In-at [] bs j = inl refl
In-at (a ∷ as') bs j = inr (In-at as' bs j)

swap-Known :
    (as' bs : List Job) (j k : Job) (seen : List Bytes)
    → ((x : Bytes) → In x (rest_of k) → In x (rest_of j))
    → ((l : Job) → In l (as' ++ (j ∷ bs)) → (x : Bytes) → In x (rest_of l) → In x seen)
    → (l : Job) → In l (as' ++ (k ∷ bs))
    → (x : Bytes) → In x (rest_of l)
    → In x seen
swap-Known as' bs j k seen f h l m x i = elim (In-swap as' bs j k l m) [
  | inl e ↦ h j (In-at as' bs j) x (f x (subst (λ (v : Job). In x (rest_of v)) e i))
  | inr n ↦ h l n x i
]

In-append : (x : Bytes) (as' bs : List Bytes) → In x (as' ++ bs) → In x as' ⊎ In x bs
In-append x [] bs h = inr h
In-append x (a ∷ as') bs (inl e) = inl (inl e)
In-append x (a ∷ as') bs (inr h) = elim (In-append x as' bs h) [
  | inl l ↦ inl (inr l)
  | inr r ↦ inr r
]

abbrev OnSome : Bytes → Option Job → Type 0
OnSome x none = ⊥
OnSome x (some j) = In x (rest_of j)

module _ {G : Type 0} where
  -- Before a sweep: every route and every address that a job works on is known.
  abbrev pub Known : List Job → Excluder G → Type 0
  Known js p =
      ((x : Bytes) → In x p.routes → In x p.seen)
      × ((j : Job) → In j js → (x : Bytes) → In x (rest_of j) → In x p.seen)

  abbrev KnownAfter : List Job → List Job → Option Job × Excluder G → Type 0
  KnownAfter as' bs (none, q) = Known (as' ++ bs) q
  KnownAfter as' bs (some k, q) = Known (as' ++ (k ∷ bs)) q

  advance-Known :
      (as' bs : List Job) (j : Job) (p : Excluder G)
      → Known (as' ++ (j ∷ bs)) p
      → KnownAfter as' bs (advance j p)
  unfolding advance
  advance-Known as' bs (installing a []) p (r, h) =
      (r, λ l m x i. h l (In-keep as' bs (installing a []) l m) x i)
  advance-Known as' bs (installing a (ip ∷ ips)) p (r, h) = (
    λ x m. elim m [
      | inl e ↦ h (installing a (ip ∷ ips)) (In-at as' bs (installing a (ip ∷ ips))) x (inl e)
      | inr n ↦ r x n
    ],
    swap-Known as' bs (installing a (ip ∷ ips)) (checking a ip ips) p.seen (λ x i. i) h,
  )
  advance-Known as' bs (checking a ip ips) p (r, h) =
      (r, swap-Known as' bs (checking a ip ips) _ p.seen (λ x i. same x p.closed i) h)
    where
      same :
          (x : Bytes)
          → (b : Bool) → In x (rest_of (if b then reaping a ip ips else allowing a ip ips))
          → In x (ip ∷ ips)
      same x true i = i
      same x false i = i
  advance-Known as' bs (reaping a ip ips) p (r, h) = (
    λ x m. r x (In-remove x ip p.routes m).0,
    swap-Known as' bs (reaping a ip ips) (installing a ips) p.seen (λ x i. inr i) h,
  )
  advance-Known as' bs (allowing true ip ips) p (r, h) =
      (r, swap-Known as' bs (allowing true ip ips) (installing true ips) p.seen (λ x i. inr i) h)
  advance-Known as' bs (allowing false ip ips) p (r, h) =
      (r, swap-Known as' bs (allowing false ip ips) (installing false ips) p.seen (λ x i. inr i) h)

  reserve-Known :
      (ips : List Bytes) (js : List Job) (p : Excluder G)
      → Known js p
      → let (o, q) = reserve ips p in
        Known js q × ((j : Job) → o ≡ some j → (x : Bytes) → In x (rest_of j) → In x q.seen)
  unfolding reserve
  reserve-Known ips js p (r, h) =
      let (new, known) = note_new ips p.seen in
      (
        (
          λ x m. (note_new-known ips p.seen x).1 (r x m),
          λ j m x i. (note_new-known ips p.seen x).1 (h j m x i),
        ),
        λ j e x i. (note_new-known ips p.seen x).0 (job_rest new p j e x i),
      )
    where
      job_rest :
          (new : List Bytes) (p' : Excluder G) (j : Job)
          → job_of p' new ≡ some j
          → (x : Bytes) → In x (rest_of j)
          → In x new
      job_rest [] p' j e x i = absurd (cc)
      job_rest (n ∷ ns) p' j e x i = made p'.closed p'.routes_live e
        where
          made :
              (c l : Bool)
              → ◌≡◌ {A = Option Job}
                  (if c then none else if l then some (installing p'.armed (n ∷ ns)) else none)
                  (some j)
              → In x (n ∷ ns)
          made true l f = absurd (cc)
          made false false f = absurd (cc)
          made false true f = subst (OnSome x) (sym f) i

  same-Known :
      (js ks : List Job) (p q : Excluder G)
      → ks ≡ js
      → ((x : Bytes) → In x q.routes → In x p.routes ⊎ In x p.seen)
      → q.seen ≡ p.seen
      → Known js p
      → Known ks q
  same-Known js ks p q e r se (k, h) = (
    λ x m. subst (In x) (sym se) (elim (r x m) [ inl n ↦ k x n | inr n ↦ n ]),
    λ j m x i. subst (In x) (sym se) (h j (subst (In j) e m) x i),
  )

  step-Known : (js ks : List Job) (p q : Excluder G) → Step js p ks q → Known js p → Known ks q
  unfolding gateway_refreshed disable sweep go_live arm_allowlist trigger_gateway_refresh
  step-Known js ks p q (reserves ips j e r) k =
      let (known, new) = reserve-Known ips js p k in
      let first = ap (λ (o : Option Job × Excluder G). o.0) r in
      let second = ap (λ (o : Option Job × Excluder G). o.1) r in
      let (a, b) = subst (Known js) second known in
      rw e (
        a,
        λ l m x i. elim m [
          | inl f ↦
              subst (λ (v : Excluder G). In x v.seen) second
                (new j first x (subst (λ (v : Job). In x (rest_of v)) f i))
          | inr n ↦ b l n x i
        ],
      )
  step-Known js ks p q (returns ips e r) k =
      rw e (
        subst (Known js) (ap (λ (o : Option Job × Excluder G). o.1) r) (reserve-Known ips js p k).0)
  step-Known js ks p q (goes_on as' bs j l ej ek r) k =
      rw ek (subst (KnownAfter as' bs) r (advance-Known as' bs j p (rw⁻¹ ej k)))
  step-Known js ks p q (ends as' bs j ej ek r) k =
      rw ek (subst (KnownAfter as' bs) r (advance-Known as' bs j p (rw⁻¹ ej k)))
  step-Known js ks p q (refreshes e r) k = elim (Bool-cases p.gw_refreshing) [
    | inl busy ↦ same-Known js ks p q e (rw (r, busy) (λ x m. inl m)) (rw (r, busy) refl) k
    | inr idle ↦ same-Known js ks p q e (rw (r, idle) (λ x m. inl m)) (rw (r, idle) refl) k
  ]
  step-Known js ks p q (refreshed f e r) k =
      same-Known js ks p q e (rw r (λ x m. inl m)) (rw r refl) k
  step-Known js ks p q (goes_live g o e r) k =
      same-Known js ks p q e
        (rw r (λ x m. elim (In-append x p.seen p.routes m) [ inl n ↦ inr n | inr n ↦ inl n ]))
        (rw r refl) k
  step-Known js ks p q (arms true l e r) k =
      same-Known js ks p q e (rw r (λ x m. inl m)) (rw r refl) k
  step-Known js ks p q (arms false l e r) k =
      same-Known js ks p q e (rw r (λ x m. inl m)) (rw r refl) k
  step-Known js ks p q (disables e r) k = same-Known js ks p q e (rw r (λ x m. inl m)) (rw r refl) k
  step-Known js ks p q (sweeps c e r) k =
      same-Known js ks p q e (rw r (λ x m. inl (In-remove_all x p.seen p.routes m).0)) (rw r refl) k

  pub Steps-Known :
      {js : List Job} {p : Excluder G} {ks : List Job} {q : Excluder G}
      → Steps js p ks q
      → Known js p
      → Known ks q
  Steps-Known here k = k
  Steps-Known (next ss s) k = step-Known _ _ _ _ s (Steps-Known ss k)
