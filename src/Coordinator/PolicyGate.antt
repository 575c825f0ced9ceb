-- ===== src/Coordinator/PolicyGate.antt =====
-- cmd/coordinator/policy.go: the policy in force, and one cycle of fetching, verifying and installing.
-- The clock, what was fetched and what the file system does are the arguments of a cycle.
pub mod Closed
use bacchus.Shared.{
  ℕ, zero, suc, ◌*◌, List, [], ◌∷◌, Bool, true, false, not, Option, none, some, Bytes, ltb,
  if◌then◌else◌, ℤ, pos, negsuc, Result, ok, err,
}
use bacchus.Atomicfile.{Disk, Faults}
use bacchus.FloorCache
use bacchus.FloorCache.{Json}
use bacchus.Policy.{Platform, Verifier, Bundle, parse_bundle, verify}
use bacchus.Policy.Document.{Error, Policy, deadline}

-- 10 seconds and 2 minutes, in nanoseconds.
abbrev pub policy_refresh : ℕ
policy_refresh = 10_000_000_000

abbrev pub policy_backoff_max : ℕ
policy_backoff_max = 120_000_000_000

-- `held` and `ok` of `policyGate` are one option.
pub record Gate : Type 0 where
  pub configured : Bool
  pub held : Option Policy

unfoldable pub install_policy : Policy → Gate → Gate
install_policy p g = record g { held = some p }

unfoldable pub clear_policy : Gate → Gate
clear_policy g = record g { held = none }

abbrev is_held : Option Policy → Bool
is_held none = false
is_held (some p) = true

unfoldable pub policy_allows_assignment : Gate → Bool
policy_allows_assignment g = if not g.configured then true else is_held g.held

-- The gate, the floor that the loop carries, and the directory of the state file.
pub record Enforcer : Type 0 where
  pub gate : Gate
  pub min_seq : ℕ
  pub disk : Disk

-- One cycle: the clock, the bytes fetched if the fetch worked, and the file system.
pub record Cycle : Type 0 where
  pub now : ℕ
  pub fetched : Option Bytes
  pub read_fails : Bool
  pub faults : Faults

abbrev pub stale_or_none : ℕ → Option Policy → Bool
stale_or_none now none = false
stale_or_none now (some p) = not (ltb now (deadline p))

unfoldable pub age_out : ℕ → Gate → Gate
unfolding clear_policy
age_out now g = if stale_or_none now g.held then clear_policy g else g

abbrev accept_policy : Json → Enforcer → Cycle → Bytes → Policy → Enforcer
accept_policy j e c raw p =
    let min_seq = if ltb e.min_seq p.seq then p.seq else e.min_seq in
    record {
      gate = install_policy p e.gate;
      min_seq = min_seq;
      disk = (FloorCache.store {E = Error} j c.read_fails c.faults raw min_seq e.disk).1;
    }

abbrev verified : Json → Enforcer → Cycle → Bytes → Result Error Policy → Enforcer × Bool
verified j e c raw (err x) = (e, false)
verified j e c raw (ok p) = (accept_policy j e c raw p, true)

abbrev parsed :
    Platform → Json → Verifier → Enforcer → Cycle → Bytes → Result Error Bundle → Enforcer × Bool
parsed p j v e c raw (err x) = (e, false)
parsed p j v e c raw (ok b) = verified j e c raw (verify p v b c.now e.min_seq)

abbrev received : Platform → Json → Verifier → Enforcer → Cycle → Option Bytes → Enforcer × Bool
received p j v e c none = (e, false)
received p j v e c (some raw) = parsed p j v e c raw (parse_bundle p raw)

unfoldable pub refresh_policy_once : Platform → Json → Verifier → Enforcer → Cycle → Enforcer × Bool
unfolding install_policy age_out
refresh_policy_once p j v e c =
    received p j v (record e { gate = age_out c.now e.gate }) c c.fetched

-- `for i := 0; i < fails && d < policyBackoffMax; i++ { d *= 2 }`, by the rounds left.
unfoldable pub backoff_loop : ℕ → ℕ → ℕ
backoff_loop zero d = d
backoff_loop (suc left) d =
    let rest = backoff_loop left (d * 2) in if ltb d policy_backoff_max then rest else d

unfoldable pub policy_backoff_for : ℤ → ℕ
unfolding backoff_loop
policy_backoff_for (negsuc n) = policy_refresh
policy_backoff_for (pos zero) = policy_refresh
policy_backoff_for (pos (suc n)) =
    let d = backoff_loop (suc n) policy_refresh in
    if ltb policy_backoff_max d then policy_backoff_max else d

-- The loop over any number of cycles, with the count of failures in a row: the enforcer, and the
-- wait after each cycle.
unfoldable pub refresh_policy_loop :
    Platform → Json → Verifier → Enforcer → ℕ → List Cycle → Enforcer × List ℕ
refresh_policy_loop p j v e fails [] = (e, [])
refresh_policy_loop p j v e fails (c ∷ cs) =
    let (e', success) = refresh_policy_once p j v e c in
    let fails' = if success then 0 else suc fails in
    let (last, waits) = refresh_policy_loop p j v e' fails' cs in
    (last, policy_backoff_for (pos fails') ∷ waits)
