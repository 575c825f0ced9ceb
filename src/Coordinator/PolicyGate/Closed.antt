-- ===== src/Coordinator/PolicyGate/Closed.antt =====
-- The coordinator fails closed on a stale policy, and never goes back to an older one.
use bacchus.Shared.{
  ℕ, zero, suc, ◌*◌, ◌≤◌, ◌<◌, List, [], ◌∷◌, Bool, true, false, ◌≡◌, refl, Option, none, some,
  Bytes, pos, arith, if◌then◌else◌, Option-cases, inl, inr, Result, ok, err,
}
use bacchus.FloorCache.{Json}
use bacchus.Policy.{Platform, Verifier, Bundle, parse_bundle, verify}
use bacchus.Policy.Document.{Error, Policy, validate, deadline}
use bacchus.Policy.Accept.{verify_iff}
use bacchus.Coordinator.PolicyGate.{
  Gate, Enforcer, Cycle, policy_refresh, policy_backoff_max, age_out, accept_policy, verified,
  parsed, received, refresh_policy_once, refresh_policy_loop, policy_allows_assignment,
  backoff_loop, policy_backoff_for,
}

-- What holds of the enforcer between two cycles: a policy that is held validates, and its sequence is
-- not above the floor.
abbrev pub IsCurrent : Enforcer → Type 0
IsCurrent e = (d : Policy) → e.gate.held ≡ some d → (validate d ≡ ok tt) × (d.seq ≤ e.min_seq)

-- The cases of a cycle: nothing but the gate's ageing, or the install of a verified policy.
module _ (p : Platform) (j : Json) (v : Verifier) (e : Enforcer) (c : Cycle)
    (P : Enforcer × Bool → Type 0) (kept : P (e, false))
    (installed : (raw : Bytes) (d : Policy)
      → validate d ≡ ok tt
      → c.now < deadline d
      → e.min_seq ≤ d.seq
      → P (accept_policy j e c raw d, true)) where
  verified_cases :
      (raw : Bytes) (b : Bundle) (r : Result Error Policy)
      → verify p v b c.now e.min_seq ≡ r
      → P (verified j e c raw r)
  verified_cases raw b (err x) h = kept
  verified_cases raw b (ok d) h =
      let a = (verify_iff p v b c.now e.min_seq d).0 h in
      installed raw d a.valid a.in_time a.not_below

  parsed_cases : (raw : Bytes) (r : Result Error Bundle) → P (parsed p j v e c raw r)
  parsed_cases raw (err x) = kept
  parsed_cases raw (ok b) = verified_cases raw b (verify p v b c.now e.min_seq) refl

  received_cases : (fetched : Option Bytes) → P (received p j v e c fetched)
  received_cases none = kept
  received_cases (some raw) = parsed_cases raw (parse_bundle p raw)

module _ (p : Platform) (j : Json) (v : Verifier) where
  aged-held :
      (now : ℕ) (g : Gate) (d : Policy)
      → (age_out now g).held ≡ some d
      → (g.held ≡ some d) × (now < deadline d)
  unfolding age_out
  aged-held now g d h = ground arith

  refresh-held :
      (e : Enforcer) (c : Cycle) (d : Policy)
      → (refresh_policy_once p j v e c).0.gate.held ≡ some d
      → c.now < deadline d
  unfolding refresh_policy_once
  refresh-held e c d =
      received_cases p j v (record e { gate = age_out c.now e.gate }) c
        (λ out. out.0.gate.held ≡ some d → c.now < deadline d) (λ h. (aged-held c.now e.gate d h).1)
        (λ raw x valid in_time not_below h. ground arith) c.fetched

  -- The coordinator fails closed: if after a cycle, whether or not the fetch worked and whatever was
  -- fetched, a coordinator with signed policy allows an assignment, then it holds a policy whose
  -- expiry and grace are not over at the time of that cycle.
  pub refresh_fails_closed :
      (e : Enforcer) (c : Cycle)
      → let g = (refresh_policy_once p j v e c).0.gate in
        g.configured ≡ true
        → policy_allows_assignment g ≡ true
        → (d : Policy) × (g.held ≡ some d) × (c.now < deadline d)
  unfolding policy_allows_assignment
  refresh_fails_closed e c configured allowed =
      let g = (refresh_policy_once p j v e c).0.gate in
      elim (Option-cases g.held) [
        | inl none_held ↦ ground arith
        | inr (d, held) ↦ (d, held, refresh-held e c d held)
      ]

  refresh-IsCurrent :
      (e : Enforcer) (c : Cycle)
      → IsCurrent e
      → IsCurrent (refresh_policy_once p j v e c).0
        × (e.min_seq ≤ (refresh_policy_once p j v e c).0.min_seq)
  unfolding refresh_policy_once
  refresh-IsCurrent e c current =
      received_cases p j v (record e { gate = age_out c.now e.gate }) c
        (λ out. IsCurrent out.0 × (e.min_seq ≤ out.0.min_seq))
        (λ d h. current d (aged-held c.now e.gate d h).0, omega arith)
        (λ raw x valid in_time not_below. (λ d h. ground arith, ground arith)) c.fetched

  loop-IsCurrent :
      (e : Enforcer) (fails : ℕ) (cs : List Cycle)
      → IsCurrent e
      → let last = (refresh_policy_loop p j v e fails cs).0 in
        IsCurrent last × (e.min_seq ≤ last.min_seq)
  unfolding refresh_policy_loop
  loop-IsCurrent e fails [] current = (current, omega arith)
  loop-IsCurrent e fails (c ∷ cs) current =
      let (here, up) = refresh-IsCurrent e c current in
      let (e', success) = refresh_policy_once p j v e c in
      let (later, up') = loop-IsCurrent e' (if success then 0 else suc fails) cs here in
      (later, omega arith)

  refresh_installs_newer :
      (e : Enforcer) (c : Cycle) (d : Policy)
      → (refresh_policy_once p j v e c).0.gate.held ≡ some d
      → (refresh_policy_once p j v e c).1 ≡ true
      → e.min_seq ≤ d.seq
  unfolding refresh_policy_once
  refresh_installs_newer e c d =
      received_cases p j v (record e { gate = age_out c.now e.gate }) c
        (λ out. out.0.gate.held ≡ some d → out.1 ≡ true → e.min_seq ≤ d.seq) (λ h t. ground arith)
        (λ raw x valid in_time not_below h t. ground arith) c.fetched

  -- No rollback of what is enforced: if a policy is held now, by an enforcer whose floor is at least
  -- its sequence, then after any cycles a cycle that
  -- reports success has installed one with at least its sequence, whatever was fetched meanwhile and
  -- even if the first went stale in between.
  pub refresh_no_rollback :
      (e : Enforcer) (fails : ℕ) (cs : List Cycle) (c : Cycle) (old new : Policy)
      → IsCurrent e
      → e.gate.held ≡ some old
      → (refresh_policy_once p j v (refresh_policy_loop p j v e fails cs).0 c).1 ≡ true
      → (refresh_policy_once p j v (refresh_policy_loop p j v e fails cs).0 c).0.gate.held
        ≡ some new
      → old.seq ≤ new.seq
  refresh_no_rollback e fails cs c old new current held success now_held =
      let e' = (refresh_policy_loop p j v e fails cs).0 in
      omega (
        arith,
        (current old held).1,
        (loop-IsCurrent e fails cs current).1,
        refresh_installs_newer e' c new now_held success,
      )

  -- A cycle that reports failure changes nothing but that it drops a policy gone stale.
  pub refresh_failure_keeps :
      (e : Enforcer) (c : Cycle)
      → (refresh_policy_once p j v e c).1 ≡ false
      → (refresh_policy_once p j v e c).0 ≡ record e { gate = age_out c.now e.gate }
  unfolding refresh_policy_once
  refresh_failure_keeps e c =
      received_cases p j v (record e { gate = age_out c.now e.gate }) c
        (λ out. out.1 ≡ false → out.0 ≡ record e { gate = age_out c.now e.gate }) (λ h. refl)
        (λ raw x valid in_time not_below h. ground arith) c.fetched

backoff_loop_bounds : (left d : ℕ) → d ≤ backoff_loop left d
unfolding backoff_loop
backoff_loop_bounds zero d = omega arith
backoff_loop_bounds (suc left) d = ground (arith, backoff_loop_bounds left (d * 2))

backoff_loop_mono : (left d : ℕ) → backoff_loop left d ≤ backoff_loop (suc left) d
unfolding backoff_loop
backoff_loop_mono zero d = ground arith
backoff_loop_mono (suc left) d = ground (arith, backoff_loop_mono left (d * 2))

-- The wait after consecutive failures is between the refresh period and two minutes, and does not
-- fall with one failure more.
pub policy_backoff_bounds :
    (fails : ℕ)
    → (policy_refresh ≤ policy_backoff_for (pos fails))
      × (policy_backoff_for (pos fails) ≤ policy_backoff_max)
      × (policy_backoff_for (pos fails) ≤ policy_backoff_for (pos (suc fails)))
unfolding policy_backoff_for
policy_backoff_bounds zero =
    let low = backoff_loop_bounds 1 policy_refresh in
    (omega arith, omega arith, ground (arith, low))
policy_backoff_bounds (suc n) =
    let low = backoff_loop_bounds (suc n) policy_refresh in
    let up = backoff_loop_mono (suc n) policy_refresh in
    (ground (arith, low), ground (arith, low), ground (arith, low, up))
