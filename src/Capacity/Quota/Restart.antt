-- ===== src/Capacity/Quota/Restart.antt =====
-- What a restart of the node forgets of the quota it has spent.
use bacchus.Shared.{
  ℕ, ◌+◌, ◌≤◌, ◌<◌, ◌^◌, List, [], ◌∷◌, true, false, ◌≡◌, sym, subst, inl, inr, refl, none, some,
  arith, ok, ltb, ◌==◌, Bool-cases, Option-cases,
}
use bacchus.Atomicfile.{Disk, File}
use bacchus.Capacity.Quota.{
  Platform, Quota, QuotaState, Limits, Metered, Io, granularity, add, new_quota, fresh_quota,
  resume,
}
use bacchus.Capacity.Quota.Saved.{IsJson, OnDisk, IsSaved, granularity_pos, add-IsSaved}

-- One call of `Add`: the bytes, the clock, and what the operating system does at a roll-over and at
-- the checkpoint.
pub record Call : Type 0 where
  pub bytes : ℕ
  pub now : ℕ
  pub rolling : Io
  pub io : Io

unfoldable pub run : Platform → List Call → Metered → Metered
run p [] m = m
run p (c ∷ cs) m = run p cs (add p c.rolling c.io c.bytes c.now m)

abbrev pub total : List Call → ℕ
total [] = 0
total (c ∷ cs) = c.bytes + total cs

module _ (p : Platform) (json : IsJson p) where
  run-IsSaved :
      (cs : List Call) (m : Metered)
      → IsSaved p m
      → m.quota.used + total cs < 2 ^ 64
      → IsSaved p (run p cs m)
  unfolding run
  run-IsSaved [] m s fits = s
  run-IsSaved (c ∷ cs) m s fits =
      let (s', le) = add-IsSaved p json c.rolling c.io c.bytes c.now m s (omega arith) in
      run-IsSaved cs (add p c.rolling c.io c.bytes c.now m) s' (omega arith)

  resume-IsSaved :
      (q : Quota) (st : QuotaState) (f : File) (d : Disk)
      → q.persists ≡ true
      → q.used ≡ 0
      → q.flushed_at ≡ 0
      → d.target ≡ some f
      → p.decode f.content ≡ some st
      → IsSaved p (record { quota = resume q st; disk = d })
  resume-IsSaved q st f d persists used flushed_at there parsed =
      elim (Bool-cases (ltb st.cycle_start q.cycle_start)) [
        | inl older ↦ rw older (record {
          persists = persists;
          on_disk = inr (f, st, there, parsed, inr (ground arith, flushed_at));
          flushed_le = ground arith;
          gap = λ h. omega (arith, granularity_pos q);
        })
        | inr current ↦ rw current (record {
          persists = persists;
          on_disk = inr (f, st, there, parsed, inl (refl, refl));
          flushed_le = omega arith;
          gap = λ h. omega (
            arith,
            granularity_pos
                (record q { cycle_start = st.cycle_start; used = st.used; flushed_at = st.used }),
          );
        })
      ]

  new_quota-IsSaved :
      (l : Limits) (now : ℕ) (d : Disk) (q : Quota)
      → new_quota p false l true now d ≡ ok (some q)
      → IsSaved p (record { quota = q; disk = d })
  unfolding new_quota
  new_quota-IsSaved l now d q h = elim (Option-cases d.target) [
    | inl missing ↦
        let e : fresh_quota p l true now ≡ q = ground arith in
        subst (λ x. IsSaved p (record { quota = x; disk = d })) e
          (record {
            persists = refl;
            on_disk = inl (missing, refl);
            flushed_le = omega arith;
            gap = λ h. omega (arith, granularity_pos (fresh_quota p l true now));
          })
    | inr (f, there) ↦ elim (Option-cases (p.decode f.content)) [
      | inl unparsed ↦ ground arith
      | inr (st, parsed) ↦
          let e : resume (fresh_quota p l true now) st ≡ q = ground arith in
          subst (λ x. IsSaved p (record { quota = x; disk = d })) e
            (resume-IsSaved (fresh_quota p l true now) st f d refl refl refl there parsed)
    ]
  ]

  -- A restart reads the quota back from the disk.
  restart_of_IsSaved :
      (l : Limits) (now : ℕ) (m : Metered)
      → (l.monthly_quota == 0) ≡ false
      → IsSaved p m
      → (fresh_quota p l true now).cycle_start ≡ m.quota.cycle_start
      → (q : Quota) × (new_quota p false l true now m.disk ≡ ok (some q))
        × (q.cycle_start ≡ m.quota.cycle_start)
        × (q.used ≡ m.quota.flushed_at)
  unfolding new_quota
  restart_of_IsSaved l now m declared s same = go s.on_disk
    where
      go :
          OnDisk p m.quota m.disk
          → (q : Quota) × (new_quota p false l true now m.disk ≡ ok (some q))
            × (q.cycle_start ≡ m.quota.cycle_start)
            × (q.used ≡ m.quota.flushed_at)
      go (inl (missing, none_flushed)) =
          (fresh_quota p l true now, rw (declared, missing) refl, same, sym none_flushed)
      go (inr (f, st, there, parsed, o)) = (
        resume (fresh_quota p l true now) st,
        rw (declared, there, parsed) refl,
        ground (arith, o, same),
        ground (arith, o, same),
      )

  -- A crash forgets less than one granularity of the quota. From a start of the node, and after any
  -- calls of `Add`, whichever checkpoints failed in between, a restart in the same cycle succeeds and
  -- resumes that cycle with at most what was spent; and if the last checkpoint did not fail, with
  -- more than what was spent less the granularity. The state file can be read, and the counter does
  -- not reach 2^64.
  pub restart_forgets_little :
      (l : Limits) (started restarted : ℕ) (d : Disk) (q : Quota) (cs : List Call)
      → new_quota p false l true started d ≡ ok (some q)
      → q.used + total cs < 2 ^ 64
      → let m = run p cs (record { quota = q; disk = d }) in
        (fresh_quota p l true restarted).cycle_start ≡ m.quota.cycle_start
        → (q' : Quota) × (new_quota p false l true restarted m.disk ≡ ok (some q'))
          × (q'.cycle_start ≡ m.quota.cycle_start)
          × (q'.used ≤ m.quota.used)
          × (m.quota.flush_err ≡ none → m.quota.used < q'.used + granularity m.quota)
  unfolding new_quota
  restart_forgets_little l started restarted d q cs h fits same =
      let m = run p cs (record { quota = q; disk = d }) in
      let s =
        run-IsSaved cs (record { quota = q; disk = d }) (new_quota-IsSaved l started d q h) fits in
      let (q', resumed, cycle, used) = restart_of_IsSaved l restarted m (ground arith) s same in
      (q', resumed, cycle, omega (arith, s.flushed_le), λ e. omega (arith, s.gap e))
