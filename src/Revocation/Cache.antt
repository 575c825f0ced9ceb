-- ===== src/Revocation/Cache.antt =====
-- core/revocation/cache.go: the state file of the revocations list.
use bacchus.Shared.{
  ℕ, ◌≤◌, List, Bool, false, ◌≡◌, none, some, Bytes, arith, Result, Result-cases, inl, inr, ok,
  ◌>>=◌,
}
use bacchus.Atomicfile.{Disk, Faults}
use bacchus.FloorCache
use bacchus.FloorCache.{Json, Loaded}
use bacchus.FloorCache.Ratchet.{IsJson, Op, run, store_floor_ratchets, run_ratchets, load_opened}
use bacchus.Revocation.{Platform, Verifier, Error, Doc, parse_bundle, verify}
use bacchus.Revocation.Accept.{verify_list_iff}

unfoldable pub open_bundle : Platform → Verifier → ℕ → Bytes → ℕ → Result Error Doc
open_bundle p v now raw floor = do b ← parse_bundle p raw; verify p v b now floor

unfoldable pub load : Platform → Json → Verifier → ℕ → Bool → Disk → Loaded Error Doc
load p j v now fails d = FloorCache.load j (open_bundle p v now) fails d

unfoldable pub store :
    Json → Bool → Faults → Bytes → ℕ → Disk → Result (FloorCache.Error Error) (Unit {0}) × Disk
store j fails f raw as_of d = FloorCache.store j fails f raw as_of d

unfoldable pub store_floor :
    Json → Bool → Faults → ℕ → Disk → Result (FloorCache.Error Error) (Unit {0}) × Disk
store_floor j fails f as_of d = FloorCache.store_floor j fails f as_of d

open_bundle-floor :
    (p : Platform) (v : Verifier) (now : ℕ) (raw : Bytes) (floor : ℕ) (x : Doc)
    → open_bundle p v now raw floor ≡ ok x
    → floor ≤ x.as_of
unfolding open_bundle
open_bundle-floor p v now raw floor x h = elim (Result-cases (parse_bundle p raw)) [
  | inl (b, parsed) ↦ ((verify_list_iff p v b now floor x).0 (ground arith)).not_below
  | inr (e, refused) ↦ ground arith
]

-- Once a floor was raised with success, by `StoreFloor`, a list that is loaded later is dated at or
-- after it: whatever is stored in between, and whichever writes fail. The file is read without
-- error throughout.
pub load_list_no_rollback :
    (p : Platform) (j : Json) (v : Verifier) (now : ℕ) (f : Faults) (as_of : ℕ) (d : Disk)
    (os : List Op) (n : ℕ) (x : Doc)
    → IsJson j
    → (store_floor j false f as_of d).0 ≡ ok tt
    → load p j v now false (run j (store_floor j false f as_of d).1 os) ≡ (n, some x, none)
    → as_of ≤ x.as_of
unfolding load store_floor
load_list_no_rollback p j v now f as_of d os n x json stored loaded =
    let d' = (store_floor j false f as_of d).1 in
    let (b, opened, at_floor) = load_opened j (open_bundle p v now) (run j d' os) n x loaded in
    omega (
      arith,
      (store_floor_ratchets j json {E = Error} f as_of d).1 stored,
      run_ratchets j json d' os,
      open_bundle-floor p v now b n x opened,
    )
