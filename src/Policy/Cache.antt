-- ===== src/Policy/Cache.antt =====
-- The coordinator's state file for the signed policy (core/policy/cache.go): `Load` through the
-- verifier, and what a fetched policy can no longer be rolled back to.
use bacchus.Shared.{
  ℕ, ◌≤◌, List, Bool, false, ◌≡◌, none, some, Bytes, arith, Result, Result-cases, inl, inr, ok,
  ◌>>=◌,
}
use bacchus.Atomicfile.{Disk, Faults}
use bacchus.FloorCache
use bacchus.FloorCache.{Json, Loaded}
use bacchus.FloorCache.Ratchet.{IsJson, Op, run, store_ratchets, run_ratchets, load_opened}
use bacchus.Policy.{Platform, Verifier, parse_bundle, verify}
use bacchus.Policy.Document.{Error, Policy}
use bacchus.Policy.Accept.{verify_iff}

unfoldable pub open_bundle : Platform → Verifier → ℕ → Bytes → ℕ → Result Error Policy
open_bundle p v now raw floor = do b ← parse_bundle p raw; verify p v b now floor

unfoldable pub load : Platform → Json → Verifier → ℕ → Bool → Disk → Loaded Error Policy
load p j v now fails d = FloorCache.load j (open_bundle p v now) fails d

open_bundle-floor :
    (p : Platform) (v : Verifier) (now : ℕ) (raw : Bytes) (floor : ℕ) (x : Policy)
    → open_bundle p v now raw floor ≡ ok x
    → floor ≤ x.seq
unfolding open_bundle
open_bundle-floor p v now raw floor x h = elim (Result-cases (parse_bundle p raw)) [
  | inl (b, parsed) ↦ ((verify_iff p v b now floor x).0 (ground arith)).not_below
  | inr (e, refused) ↦ ground arith
]

-- Once the policy of some sequence was stored with success, a policy that is loaded later has at
-- least that sequence: whatever is stored in between, whichever writes fail, and whatever the file's
-- bundle is. The file is read without error throughout.
pub load_no_rollback :
    (p : Platform) (j : Json) (v : Verifier) (now : ℕ) (f : Faults) (raw : Bytes) (seq : ℕ)
    (d : Disk) (os : List Op) (n : ℕ) (x : Policy)
    → IsJson j
    → (FloorCache.store {E = Error} j false f raw seq d).0 ≡ ok tt
    → load p j v now false (run j (FloorCache.store {E = Error} j false f raw seq d).1 os)
      ≡ (n, some x, none)
    → seq ≤ x.seq
unfolding load
load_no_rollback p j v now f raw seq d os n x json stored loaded =
    let d' = (FloorCache.store {E = Error} j false f raw seq d).1 in
    let (b, opened, at_floor) = load_opened j (open_bundle p v now) (run j d' os) n x loaded in
    omega (
      arith,
      (store_ratchets j json {E = Error} f raw seq d).1 stored,
      run_ratchets j json d' os,
      open_bundle-floor p v now b n x opened,
    )
