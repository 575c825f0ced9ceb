-- ===== src/Tests/Stored.antt =====
-- Files, the rollback floor and the coordinator's policy gate at concrete inputs.
use bacchus.Shared.{List, ◌≤◌, [], ◌∷◌, refl, Bytes, bytes_eq}
use bacchus.Atomicfile.{write, write_durable, sync_dir}
use bacchus.FloorCache
use bacchus.FloorCache.{peek, store, store_floor}
use bacchus.FloorCache.Ratchet.{Op, stores, raises, floor_on, run, step, run_ratchets}
use bacchus.Policy
use bacchus.Policy.Document.{
  validate, deadline, valid_trust, has_row, check_tiers, check_vouch, check_serving_version,
  check_component,
}
use bacchus.Policy.Cache.{load_no_rollback}
use bacchus.Policy.Cache
use bacchus.Delegation
use bacchus.Version.{split, parse_uint, digits_value}
use bacchus.Tests.Toys.{
  toy_json, toy_json-IsJson, empty_disk, toy_disk, no_faults, failing_sync, toy_policy_platform,
  toy_verifier, toy_policy,
}

abbrev contents : Bytes
contents = 1 ∷ 2 ∷ 3 ∷ []

abbrev history : List Op
history = stores no_faults (9 ∷ []) 9 ∷ stores failing_sync (12 ∷ []) 12 ∷ raises no_faults 2 ∷ []

run_ratchets_example :
    floor_on toy_json (toy_disk 4) ≤ floor_on toy_json (run toy_json (toy_disk 4) history)
run_ratchets_example = run_ratchets toy_json toy_json-IsJson (toy_disk 4) history

-- A policy of sequence 3 is stored, then one of sequence 8 and, in vain, one of sequence 2.
abbrev policy_history : List Op
policy_history = stores no_faults (8 ∷ []) 8 ∷ stores failing_sync (2 ∷ []) 2 ∷ []

load_no_rollback_example : 3 ≤ (toy_policy 8).seq
unfolding Policy.Cache.load Policy.Cache.open_bundle Policy.parse_bundle FloorCache.load run step
    store peek FloorCache.write_atomic write write_durable sync_dir Policy.verify
    Delegation.verify_delegation_cert Delegation.parse_cert Delegation.open_signed bytes_eq validate
    deadline valid_trust has_row check_tiers check_vouch check_serving_version check_component split
    parse_uint digits_value
load_no_rollback_example =
    load_no_rollback toy_policy_platform toy_json toy_verifier 2_000_000_000_000 no_faults (3 ∷ [])
      3 empty_disk policy_history 8 (toy_policy 8) toy_json-IsJson refl refl
