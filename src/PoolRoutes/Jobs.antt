-- ===== src/PoolRoutes/Jobs.antt =====
-- What the calls of `reserve` in progress have still to do for an address, over a list of them.
use bacchus.Shared.{
  ◌≡◌, ◌⊎◌, inl, inr, List, [], ◌∷◌, ◌++◌, Bool, true, false, Bytes, In, Bool-cases,
}
use bacchus.PoolRoutes.{Job, installing, checking, reaping, allowing, contains, note_new}

abbrev pub Some : (Job → Type 0) → List Job → Type 0
Some T [] = ⊥
Some T (j ∷ js) = T j ⊎ Some T js

-- The route of `x` is still to be installed by the job.
abbrev pub ToInstall : Bytes → Job → Type 0
ToInstall x (installing a ips) = In x ips
ToInstall x (checking a ip ips) = In x ips
ToInstall x (reaping a ip ips) = In x ips
ToInstall x (allowing a ip ips) = In x ips

-- `x` is still to be allowed by the job.
abbrev pub ToAllow : Bytes → Job → Type 0
ToAllow x (installing true ips) = In x ips
ToAllow x (checking true ip ips) = In x (ip ∷ ips)
ToAllow x (allowing true ip ips) = In x (ip ∷ ips)
ToAllow x _ = ⊥

abbrev pub IsReaping : Job → Type 0
IsReaping (reaping a ip ips) = Unit
IsReaping _ = ⊥

pub Some-swap :
    {D : Type 0} (T : Job → Type 0) (as' bs : List Job) (j k : Job)
    → (T j → T k ⊎ D)
    → Some T (as' ++ (j ∷ bs))
    → Some T (as' ++ (k ∷ bs)) ⊎ D
Some-swap T [] bs j k f (inl h) = elim (f h) [ inl t ↦ inl (inl t) | inr d ↦ inr d ]
Some-swap T [] bs j k f (inr h) = inl (inr h)
Some-swap T (a ∷ as') bs j k f (inl h) = inl (inl h)
Some-swap T (a ∷ as') bs j k f (inr h) = elim (Some-swap T as' bs j k f h) [
  | inl t ↦ inl (inr t)
  | inr d ↦ inr d
]

pub Some-drop :
    (T : Job → Type 0) (as' bs : List Job) (j : Job)
    → (T j → ⊥)
    → Some T (as' ++ (j ∷ bs))
    → Some T (as' ++ bs)
Some-drop T [] bs j f (inl h) = absurd (f h)
Some-drop T [] bs j f (inr h) = h
Some-drop T (a ∷ as') bs j f (inl h) = inl h
Some-drop T (a ∷ as') bs j f (inr h) = inr (Some-drop T as' bs j f h)

pub Some-at : (T : Job → Type 0) (as' bs : List Job) (j : Job) → T j → Some T (as' ++ (j ∷ bs))
Some-at T [] bs j t = inl t
Some-at T (a ∷ as') bs j t = inr (Some-at T as' bs j t)

pub Some-back :
    (T : Job → Type 0) (as' bs : List Job) (j : Job) → Some T (as' ++ bs) → Some T (as' ++ (j ∷ bs))
Some-back T [] bs j h = inr h
Some-back T (a ∷ as') bs j (inl h) = inl h
Some-back T (a ∷ as') bs j (inr h) = inr (Some-back T as' bs j h)

-- What `note_new` knows afterwards was known or is new.
pub note_new-split :
    (ips seen : List Bytes) (x : Bytes)
    → (In x (note_new ips seen).1 → In x seen ⊎ In x (note_new ips seen).0)
unfolding note_new
note_new-split [] seen x = λ h. inl h
note_new-split (ip ∷ ips) seen x = elim (Bool-cases (contains ip seen)) [
  | inl known ↦ rw known (note_new-split ips seen x)
  | inr fresh ↦ rw fresh (λ h. split (note_new-split ips (ip ∷ seen) x h))
]
  where
    split :
        In x (ip ∷ seen) ⊎ In x (note_new ips (ip ∷ seen)).0
        → In x seen ⊎ In x (ip ∷ (note_new ips (ip ∷ seen)).0)
    split (inl (inl e)) = inr (inl e)
    split (inl (inr m)) = inl m
    split (inr n) = inr (inr n)

abbrev pub Covered : (Bytes → Job → Type 0) → List Bytes → List Bytes → List Job → Type 0
Covered T seen done js = (x : Bytes) → In x seen → Some (T x) js ⊎ In x done

pub Covered-swap :
    (T : Bytes → Job → Type 0) (seen done done' : List Bytes) (as' bs : List Job) (j k : Job)
    → ((x : Bytes) → T x j → T x k ⊎ In x done')
    → ((x : Bytes) → In x done → In x done')
    → Covered T seen done (as' ++ (j ∷ bs))
    → Covered T seen done' (as' ++ (k ∷ bs))
Covered-swap T seen done done' as' bs j k f g h x m = elim (h x m) [
  | inl p ↦ Some-swap (T x) as' bs j k (f x) p
  | inr i ↦ inr (g x i)
]

pub Covered-drop :
    (T : Bytes → Job → Type 0) (seen done : List Bytes) (as' bs : List Job) (j : Job)
    → ((x : Bytes) → T x j → ⊥)
    → Covered T seen done (as' ++ (j ∷ bs))
    → Covered T seen done (as' ++ bs)
Covered-drop T seen done as' bs j f h x m = elim (h x m) [
  | inl p ↦ inl (Some-drop (T x) as' bs j (f x) p)
  | inr i ↦ inr i
]

pub reaping-swap :
    (as' bs : List Job) (j k : Job)
    → (IsReaping k → ⊥)
    → (Some IsReaping (as' ++ (j ∷ bs)) → ⊥)
    → Some IsReaping (as' ++ (k ∷ bs))
    → ⊥
reaping-swap as' bs j k f h r =
    elim (Some-swap {D = ⊥} IsReaping as' bs k j (λ t. absurd (f t)) r) [ inl s ↦ h s | inr d ↦ d ]

pub covers_new :
    (T : Bytes → Job → Type 0) (seen known new done : List Bytes) (js : List Job) (j : Job)
    → ((x : Bytes) → In x known → In x seen ⊎ In x new)
    → ((x : Bytes) → In x new → T x j)
    → Covered T seen done js
    → Covered T known done (j ∷ js)
covers_new T seen known new done js j split t h x m = elim (split x m) [
  | inr n ↦ inl (inl (t x n))
  | inl s ↦ elim (h x s) [ inl p ↦ inl (inr p) | inr i ↦ inr i ]
]

pub covers_old :
    (T : Bytes → Job → Type 0) (seen known done : List Bytes) (js : List Job)
    → ((x : Bytes) → In x known → In x seen ⊎ In x [])
    → Covered T seen done js
    → Covered T known done js
covers_old T seen known done js split h x m = elim (split x m) [ inr n ↦ absurd n | inl s ↦ h x s ]

pub to_allow :
    (b : Bool) (x : Bytes) (ips : List Bytes) → b ≡ true → In x ips → ToAllow x (installing b ips)
to_allow true x ips e m = m
to_allow false x ips e m = absurd (cc)
