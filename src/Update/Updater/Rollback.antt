-- ===== src/Update/Updater/Rollback.antt =====
-- The floor of core/update across checks and boundaries.
use bacchus.Shared.{ℕ, ◌≤◌, List, [], ◌∷◌, true, false, ◌≡◌, inl, inr, arith, ok, All}
use bacchus.Version
use bacchus.Version.{Version}
use bacchus.Update.Manifest.{Artifact}
use bacchus.Update.Bundle.Accept.{verify_manifest_iff}
use bacchus.Update.State.{load, raise_floor}
use bacchus.Update.State.Floor.{IsJson, floor_on, load-floor_on, raise_floor_lem}
use bacchus.Update.Updater.{Platform, Config, Events, Host}
use bacchus.Update.Updater.Check.{after_verify, check, apply_pending}
use bacchus.Update.Updater.News.{IsNews, check_target}
use bacchus.Update.Updater.Floor.{CanRead, check_floor, apply_pending_floor, after_release_floor}

-- What an updater is called for.
pub data Call : Type 0 where
  checking applying : Events → Call

abbrev pub events : Call → Events
events (checking e) = e
events (applying e) = e

unfoldable pub call : Platform → Config → Call → Host → Host
call p c (checking e) h = (check p c e h).1
call p c (applying e) h = (apply_pending p e h).1

unfoldable pub calls : Platform → Config → List Call → Host → Host
calls p c [] h = h
calls p c (x ∷ xs) h = calls p c xs (call p c x h)

calls_floor :
    (p : Platform) (json : IsJson p.state) (c : Config) (floor : ℕ) (xs : List Call) (h : Host)
    → All (λ x. CanRead (events x)) xs
    → floor ≤ floor_on p.state h.state
    → floor ≤ floor_on p.state (calls p c xs h).state
unfolding calls call
calls_floor p json c floor [] h can k = k
calls_floor p json c floor (checking e ∷ xs) h (can, rest) k =
    calls_floor p json c floor xs (check p c e h).1 rest (check_floor p json e can floor c h k)
calls_floor p json c floor (applying e ∷ xs) h (can, rest) k =
    calls_floor p json c floor xs (apply_pending p e h).1 rest
      (apply_pending_floor p json e can floor h k)

module _ (p : Platform) (c : Config) (e : Events) (h : Host) (a : Artifact) where
  check_accepted :
      (n : IsNews p c e h a)
      → check p c e h
        ≡ after_verify p c e n.own (load p.state e.read_load h.state).1 h (ok n.manifest)
  unfolding check
  check_accepted n =
      let accepted =
        (verify_manifest_iff p.bundle c.verifier n.bundle e.now (load p.state e.read_load h.state).0
            n.manifest).1
          n.accepted in
      ground (arith, n.is_own, n.ungated, n.served, n.parsed, accepted)

  accepted_floor :
      (json : IsJson p.state) (n : IsNews p c e h a)
      → CanRead e
      → (raise_floor p.state false e.raise n.manifest.seq h.state).0 ≡ ok tt
      → n.manifest.seq ≤ floor_on p.state (check p c e h).1.state
  accepted_floor json n can wrote =
      let (_, reads, _, _) = can in
      let (_, raised) = raise_floor_lem p.state json e.raise n.manifest.seq h.state in
      let up : n.manifest.seq
          ≤ floor_on p.state (raise_floor p.state false e.raise n.manifest.seq h.state).1 =
        omega (arith, raised wrote) in
      let host : Host = record h {
        state = (raise_floor p.state e.read_raise e.raise n.manifest.seq h.state).1;
      } in
      rw (check_accepted n) (
        after_release_floor p json e can n.manifest.seq c n.own (load p.state e.read_load h.state).1
          n.manifest host (Version.parse n.manifest.release) (rw reads up))

  -- No later check installs an older generation: after a check that accepted a newer release for this
  -- build and could write the floor, and after any calls of `Check` and `ApplyPending`, a check that
  -- reports a binary published took its row from a manifest whose sequence is at least that of the
  -- first, provided that every read of the state file succeeds. Whatever else fails, and whatever the
  -- source serves, makes no difference.
  pub applied_no_rollback :
      (json : IsJson p.state) (n : IsNews p c e h a) (xs : List Call) (later : Events)
      → CanRead e
      → (raise_floor p.state false e.raise n.manifest.seq h.state).0 ≡ ok tt
      → All (λ x. CanRead (events x)) xs
      → CanRead later
      → let h' = calls p c xs (check p c e h).1 in
        (check p c later h').0.0.applied ≡ true
        → (a' : Artifact) × (n' : IsNews p c later h' a') × (n.manifest.seq ≤ n'.manifest.seq)
  applied_no_rollback json n xs later can wrote can_read (reads, _, _, _) applied =
      let h' = calls p c xs (check p c e h).1 in
      elim (check_target p c later h') [
        | inr (idle, _) ↦ ground arith
        | inl (_, (a', n', _)) ↦
            let first = accepted_floor json n can wrote in
            let kept = calls_floor p json c n.manifest.seq xs (check p c e h).1 can_read first in
            let below = n'.accepted.not_below in
            let same = load-floor_on p.state h'.state in
            (a', n', ground (arith, kept, below, same, reads))
      ]
