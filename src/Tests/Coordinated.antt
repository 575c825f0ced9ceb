-- ===== src/Tests/Coordinated.antt =====
-- The coordinator's policy gate and its choice of an exit at concrete inputs.
use mathlib.Core.Path.{subst}
use bacchus.Shared.{
  ◌⊎◌, ◌*◌, ◌<◌, length, ℕ, ◌≤◌, ◌<◌, [], ◌∷◌, ◌≡◌, refl, true, false, Option, none, some, Bytes,
  bytes_eq, arith, ok, inl, inr, pos, codes, String,
}
use bacchus.Policy
use bacchus.Policy.Document.{
  Policy, validate, deadline, valid_trust, has_row, check_tiers, check_vouch, check_serving_version,
  check_component,
}
use bacchus.Delegation
use bacchus.Version.{split, parse_uint, digits_value}
use bacchus.Coordinator.PolicyGate.{
  Enforcer, Cycle, age_out, policy_allows_assignment, clear_policy, install_policy,
  refresh_policy_once, refresh_policy_loop,
}
use bacchus.Coordinator.PolicyGate.Closed.{IsCurrent, refresh_fails_closed, refresh_no_rollback}
use bacchus.Capacity.Share.{rank_share, full, octave_floor, projected_share, unmetered}
use bacchus.Geoip.{Unicode, canonical}
use bacchus.Coordinator.Assign.{
  Env, ExitNode, TierLimits, candidates, country_known, not_excluded, after_exclusion, best_rank,
  tier_floor, first_in_tier, choose_exit, exit_sessions, exit_assignable, exit_rank, exit_rating,
  meets_serve_floor, meets_endpoint_quality, tier_min_share, contains,
}
use bacchus.Coordinator.Assign.Choice.{
  Fits, choose_exit_sound, choose_exit_total, choose_exit_excludes,
}
use bacchus.Tests.Toys.{
  toy_json, empty_disk, no_faults, toy_policy_platform, toy_verifier, toy_policy,
}

abbrev enforcer : Enforcer
enforcer = record {
  gate = record { configured = true; held = some (toy_policy 5) };
  min_seq = 5;
  disk = empty_disk;
}

abbrev fetching : ℕ → Option Bytes → Cycle
fetching now fetched = record {
  now = now;
  fetched = fetched;
  read_fails = false;
  faults = no_faults;
}

enforcer-IsCurrent : IsCurrent enforcer
unfolding validate deadline valid_trust has_row check_tiers check_vouch check_serving_version
    check_component split parse_uint digits_value
enforcer-IsCurrent d h =
    let e : toy_policy 5 ≡ d = ground arith in
    subst (λ x. (validate x ≡ ok tt) × (x.seq ≤ 5)) e (refl, omega arith)

refresh_fails_closed_example :
    (d : Policy) × (some (toy_policy 5) ≡ some d) × (3_499_999_999_999 < deadline d)
unfolding refresh_policy_once age_out deadline policy_allows_assignment
refresh_fails_closed_example =
    refresh_fails_closed toy_policy_platform toy_json toy_verifier enforcer
      (fetching 3_499_999_999_999 none) refl refl

refresh_no_rollback_example : 5 ≤ (toy_policy 8).seq
unfolding refresh_policy_once refresh_policy_loop age_out clear_policy install_policy
    Policy.parse_bundle Policy.verify Delegation.verify_delegation_cert Delegation.parse_cert
    Delegation.open_signed bytes_eq validate deadline valid_trust has_row check_tiers check_vouch
    check_serving_version check_component split parse_uint digits_value
refresh_no_rollback_example =
    refresh_no_rollback toy_policy_platform toy_json toy_verifier enforcer 0
      (fetching 3_499_999_999_999 none ∷ fetching 2_000_000_000_000 (some (4 ∷ [])) ∷ [])
      (fetching 2_000_000_000_000 (some (8 ∷ []))) (toy_policy 5) (toy_policy 8) enforcer-IsCurrent
      refl refl refl

abbrev plain : Unicode
plain = record { trim_space = λ b. b; to_upper = λ b. b }

abbrev exit : String → ℕ → ExitNode
exit id cap = record {
  id = id;
  country = codes "NL";
  exhausted = false;
  has_udp = true;
  speed_cap = cap;
}

-- Two sessions are on the first exit, and one on the second is idle too long.
abbrev env : Env
env = record {
  exits = exit "a" 900 ∷ exit "b" 800 ∷ exit "c" 100 ∷ [];
  sessions =
      record { sid = "s1"; client = some "1.2.3.4"; exit_id = "a"; last_seen = 900_000_000_000 }
      ∷ record { sid = "s2"; client = some "5.6.7.8"; exit_id = "a"; last_seen = 900_000_000_000 }
      ∷ record { sid = "s3"; client = none; exit_id = "b"; last_seen = 100_000_000_000 }
      ∷ [];
  ratings = none;
  exit_class = none;
  serve_floor = 0;
  min_share = 200;
  ceiling = 1000;
}

abbrev free_tier : TierLimits
free_tier = record { speed_cap_bps = 0; priority = pos 0; endpoint_quality = pos 0 }

abbrev now : ℕ
now = 950_000_000_000

choose_exit_sound_example :
    Fits env now (canonical plain (codes "NL")) free_tier env.exits (exit "b" 800)
    × ((f : ExitNode)
        → Fits env now (canonical plain (codes "NL")) free_tier env.exits f
        → (contains f.id [] ≡ false)
          ⊎ (length (
                not_excluded []
                  (candidates env (canonical plain (codes "NL")) now free_tier env.exits))
              < 2)
        → exit_rank env f (exit_sessions env.sessions now f.id)
          ≤ 2 * exit_rank env (exit "b" 800) (exit_sessions env.sessions now "b"))
unfolding choose_exit canonical candidates country_known after_exclusion not_excluded best_rank
    tier_floor first_in_tier exit_rank exit_rating exit_sessions exit_assignable contains
    meets_serve_floor meets_endpoint_quality tier_min_share octave_floor rank_share full
    projected_share unmetered bytes_eq
choose_exit_sound_example =
    choose_exit_sound env now plain (codes "NL") [] free_tier (exit "b" 800) (omega arith) refl

abbrev b_fits : Fits env now (canonical plain (codes "NL")) free_tier env.exits (exit "b" 800)
unfolding canonical exit_rating exit_sessions exit_assignable meets_serve_floor
    meets_endpoint_quality tier_min_share full projected_share unmetered
b_fits = (inr (inl refl), refl, refl)

choose_exit_total_example :
    (e : ExitNode) × (choose_exit plain env (codes "NL") ("b" ∷ []) now free_tier ≡ ok e)
unfolding canonical
choose_exit_total_example =
    choose_exit_total env now plain (codes "NL") ("b" ∷ []) free_tier (exit "b" 800)
      (λ e. ground arith) b_fits

abbrev roomy : Env
roomy = record env { min_share = 0 }

choose_exit_excludes_example : contains "c" ("b" ∷ []) ≡ false
unfolding choose_exit canonical candidates country_known after_exclusion not_excluded best_rank
    tier_floor first_in_tier exit_rank exit_rating exit_sessions exit_assignable contains
    meets_serve_floor meets_endpoint_quality tier_min_share octave_floor rank_share full
    projected_share unmetered bytes_eq
choose_exit_excludes_example =
    choose_exit_excludes roomy now plain (codes "NL") ("b" ∷ []) free_tier (exit "c" 100)
      (omega arith) refl
