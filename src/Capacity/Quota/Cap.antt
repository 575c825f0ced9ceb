-- ===== src/Capacity/Quota/Cap.antt =====
-- What the cap of a quota guarantees: how far a metered stream can pass it, and that what is spent
-- stays spent inside a cycle.
use bacchus.Shared.{
  ℕ, ◌+◌, ◌*◌, ◌≤◌, ◌<◌, ◌^◌, List, [], ◌∷◌, true, false, ◌≡◌, refl, none, some, arith, ok, err,
  ◌⊎◌, inl, inr, Result, Bool-cases, Option-cases, ltb, leb, ◌==◌, All,
}
use bacchus.Atomicfile
use bacchus.Atomicfile.{World}
use bacchus.Atomicfile.Install.{start}
use bacchus.Capacity.Share.{u64}
use bacchus.Capacity.Quota.{
  Platform, Quota, Metered, Io, state_of, written, checkpoint, rollover, due, counted, count, spent,
  add, exhausted, add_forwarded, read, cycle_start_of, link_crossings,
}
use bacchus.Capacity.Quota.Restart.{Call, run, total}

-- What a checkpoint leaves as it is.
abbrev Keeps : Quota → Quota → Type 0
Keeps q q' = (q'.used ≡ q.used) × (q'.limit ≡ q.limit) × (q'.cycle_start ≡ q.cycle_start)

module _ (p : Platform) where
  written-Keeps :
      (q : Quota) (now : ℕ) (out : Result Atomicfile.Error (Unit {0}) × World)
      → Keeps q (written q now out).quota
  written-Keeps q now (ok _, w) = (refl, refl, refl)
  written-Keeps q now (err e, w) = (refl, refl, refl)

  checkpoint-Keeps : (io : Io) (now : ℕ) (m : Metered) → Keeps m.quota (checkpoint p io now m).quota
  unfolding checkpoint
  checkpoint-Keeps io now m = elim (Bool-cases m.quota.persists) [
    | inr memory ↦ rw memory (refl, refl, refl)
    | inl disk ↦ elim (Option-cases (p.encode (state_of m.quota))) [
      | inl e ↦ rw (disk, e) (refl, refl, refl)
      | inr (b, e) ↦ elim (Bool-cases io.mkdir_fails) [
        | inl no_dir ↦ rw (disk, e, no_dir) (refl, refl, refl)
        | inr dir ↦
            rw (disk, e, dir)
              (written-Keeps m.quota now (Atomicfile.write io.faults b 0o644 (start m.disk)))
      ]
    ]
  ]

  -- A roll-over starts a later cycle from nothing, or leaves the count alone.
  rollover_cases :
      (io : Io) (now : ℕ) (m : Metered)
      → let m' = rollover p io now m in
        (m'.quota.limit ≡ m.quota.limit)
        × (Keeps m.quota m'.quota
            ⊎ ((m.quota.cycle_start < m'.quota.cycle_start) × (m'.quota.used ≡ 0)))
  unfolding rollover
  rollover_cases io now m =
      let cs = cycle_start_of p now m.quota.cycle_day in
      let fresh = record m {
        quota = record m.quota { cycle_start = cs; used = 0; flushed_at = 0 };
      } in
      let kept = checkpoint-Keeps io now fresh in
      elim (Bool-cases (ltb m.quota.cycle_start cs)) [
        | inr same ↦ rw same (refl, inl (refl, refl, refl))
        | inl later ↦ rw later (kept.1, inr (ground (arith, kept), kept.0))
      ]

  count_lem :
      (io : Io) (n now : ℕ) (m : Metered)
      → let q = (count p io n now m).quota in
        (q.used ≡ u64 (m.quota.used + n))
        × (q.limit ≡ m.quota.limit)
        × (q.cycle_start ≡ m.quota.cycle_start)
  count_lem io n now m =
      let m' = record m { quota = counted n m.quota } in
      elim (Bool-cases (due m.quota m'.quota now)) [
        | inl now_due ↦ rw now_due (checkpoint-Keeps io now m')
        | inr not_due ↦ rw not_due (refl, refl, refl)
      ]

  -- What one call of `Add` does to the count, if it does not wrap.
  add_cases :
      (rolling io : Io) (n now : ℕ) (m : Metered)
      → m.quota.used + n < 2 ^ 64
      → let m' = add p rolling io n now m in
        (m'.quota.limit ≡ m.quota.limit)
        × (((m'.quota.cycle_start ≡ m.quota.cycle_start) × (m'.quota.used ≡ m.quota.used + n))
            ⊎ ((m.quota.cycle_start < m'.quota.cycle_start) × (m'.quota.used ≡ n)))
  unfolding add
  add_cases rolling io n now m fits =
      let r = rollover_cases rolling now m in
      let c = count_lem io n now (rollover p rolling now m) in
      elim (Bool-cases (n == 0)) [
        | inl none_served ↦ rw none_served (refl, inl (refl, ground arith))
        | inr served ↦ rw served (ground (arith, r, c))
      ]

  -- Inside a cycle nothing gives quota back: after any calls of `Add`, also when the clock is set
  -- back, the cycle is the same or a later one; and if it is the same, every byte recorded is on top
  -- of what was spent. The counter does not reach 2^64.
  pub run_counts :
      (cs : List Call) (m : Metered)
      → m.quota.used + total cs < 2 ^ 64
      → let m' = run p cs m in
        (m.quota.cycle_start ≤ m'.quota.cycle_start)
        × (m'.quota.cycle_start ≡ m.quota.cycle_start → m'.quota.used ≡ m.quota.used + total cs)
  unfolding run
  run_counts [] m fits = (omega arith, λ e. omega arith)
  run_counts (c ∷ cs) m fits =
      let a = add_cases c.rolling c.io c.bytes c.now m (omega arith) in
      let (up, on_top) = run_counts cs (add p c.rolling c.io c.bytes c.now m) (ground (arith, a)) in
      (ground (arith, a), λ e. ground (arith, a, on_top))

  -- One `Read` of a metered stream that never has more than `most` bytes.
  read_overshoot :
      (testing rolling io : Io) (before now n most : ℕ) (m : Metered)
      → n ≤ most
      → m.quota.limit + 2 * most < 2 ^ 64
      → m.quota.used ≤ m.quota.limit + 2 * most
      → let m' = (read p testing rolling io before now n m).1 in
        (m'.quota.limit ≡ m.quota.limit) × (m'.quota.used ≤ m.quota.limit + 2 * most)
  unfolding read exhausted add_forwarded
  read_overshoot testing rolling io before now n most m le fits bounded =
      let rolled = rollover p testing before m in
      let r = rollover_cases testing before m in
      elim (Bool-cases (spent rolled.quota)) [
        | inl over ↦ rw over (ground (arith, r))
        | inr room ↦
            let a =
              add_cases rolling io (u64 (n * link_crossings)) now rolled (ground (arith, r)) in
            rw room (ground (arith, r, a))
      ]

-- One `Read`, with the clock before and after it and what the operating system does.
pub record Reading : Type 0 where
  pub bytes : ℕ
  pub before : ℕ
  pub now : ℕ
  pub testing : Io
  pub rolling : Io
  pub io : Io

unfoldable pub run_reads : Platform → List Reading → Metered → Metered
run_reads p [] m = m
run_reads p (r ∷ rs) m = run_reads p rs (read p r.testing r.rolling r.io r.before r.now r.bytes m).1

-- The overshoot of the cap is bounded: if no read has more than `most` bytes, which count twice, and
-- the count starts at most two times `most` above the limit, then after any reads one after the
-- other it still is, as long as that bound is below 2^64.
pub reads_overshoot :
    (p : Platform) (rs : List Reading) (most : ℕ) (m : Metered)
    → All (λ r. r.bytes ≤ most) rs
    → m.quota.limit + 2 * most < 2 ^ 64
    → m.quota.used ≤ m.quota.limit + 2 * most
    → (run_reads p rs m).quota.used ≤ m.quota.limit + 2 * most
unfolding run_reads
reads_overshoot p [] most m h fits bounded = bounded
reads_overshoot p (r ∷ rs) most m h fits bounded =
    let m' = (read p r.testing r.rolling r.io r.before r.now r.bytes m).1 in
    let o =
      read_overshoot p r.testing r.rolling r.io r.before r.now r.bytes most m h.0 fits bounded in
    let rest = reads_overshoot p rs most m' h.1 (omega (arith, o)) (omega (arith, o)) in
    omega (arith, o, rest)

-- While the clock shows the quota's cycle or an earlier one, a read of a spent quota is refused and
-- changes nothing, and a read of one that is not spent gives its bytes.
pub read_refused_iff :
    (p : Platform) (testing rolling io : Io) (before now n : ℕ) (m : Metered)
    → cycle_start_of p before m.quota.cycle_day ≤ m.quota.cycle_start
    → (m.quota.limit ≤ m.quota.used → read p testing rolling io before now n m ≡ (none, m))
      × (m.quota.used < m.quota.limit → (read p testing rolling io before now n m).0 ≡ some n)
unfolding read exhausted rollover
read_refused_iff p testing rolling io before now n m same =
    let h : ltb m.quota.cycle_start (cycle_start_of p before m.quota.cycle_day) ≡ false =
      ground arith in
    (
      λ over. let s : leb m.quota.limit m.quota.used ≡ true = ground arith in rw (h, s) refl,
      λ room. let s : leb m.quota.limit m.quota.used ≡ false = ground arith in rw (h, s) refl,
    )
