-- ===== src/Capacity/Quota/Saved.antt =====
-- What the disk holds of a quota between two calls: the invariant of the checkpoint.
use bacchus.Shared.{
  ℕ, ◌+◌, ◌≤◌, ◌<◌, ◌^◌, true, ◌≡◌, ◌⊎◌, sym, subst, inl, inr, refl, Option, none, some, Bytes,
  arith, ok, err, ltb, ◌==◌, Result, Bool-cases, Option-cases,
}
use bacchus.Atomicfile
use bacchus.Atomicfile.{Disk, File, World}
use bacchus.Atomicfile.Install.{new_file, start, write_outcome}
use bacchus.Capacity.Quota.{
  Platform, Quota, QuotaState, Metered, Io, granularity, state_of, written, checkpoint, rollover,
  due, counted, count, add, cycle_start_of,
}

-- What the code relies on of `encoding/json`: a checkpoint decodes to what was encoded.
abbrev pub IsJson : Platform → Type 0
IsJson p = (st : QuotaState) (b : Bytes) → p.encode st ≡ some b → p.decode b ≡ some st

-- The checkpoint on disk is of this cycle and holds what was flushed, or nothing of this cycle was
-- flushed and there is none, or one of an older cycle.
abbrev pub SavedAs : Platform → Option File → ℕ → ℕ → Type 0
SavedAs p target cycle_start flushed_at =
    ((target ≡ none) × (flushed_at ≡ 0))
    ⊎ ((f : File) × (st : QuotaState) × (target ≡ some f)
        × (p.decode f.content ≡ some st)
        × (((st.cycle_start ≡ cycle_start) × (st.used ≡ flushed_at))
            ⊎ ((st.cycle_start < cycle_start) × (flushed_at ≡ 0))))

abbrev pub OnDisk : Platform → Quota → Disk → Type 0
OnDisk p q d = SavedAs p d.target q.cycle_start q.flushed_at

-- What a checkpoint leaves as it is.
abbrev SameCount : Quota → Quota → Type 0
SameCount q q' =
    (q'.used ≡ q.used)
    × (q'.cycle_start ≡ q.cycle_start)
    × (q'.limit ≡ q.limit)
    × (q'.cycle_day ≡ q.cycle_day)
    × (q'.persists ≡ true)

-- What it changes.
abbrev IsFlushed : Quota → Quota → Type 0
IsFlushed q q' =
    ((q'.flushed_at ≡ q.flushed_at) ⊎ (q'.flushed_at ≡ q.used))
    × (q'.flush_err ≡ none → q'.flushed_at ≡ q.used)

module _ (p : Platform) (json : IsJson p) where
  written_lem :
      (q : Quota) (now : ℕ) (b : Bytes) (d : Disk)
      (out : Result Atomicfile.Error (Unit {0}) × World)
      → p.encode (state_of q) ≡ some b
      → q.persists ≡ true
      → OnDisk p q d
      → (out.0 ≡ ok tt → out.1.disk.target ≡ some (new_file b 0o644))
      → ((e : Atomicfile.Error) → out.0 ≡ err e → out.1.disk.target ≡ d.target)
      → let m = written q now out in
        OnDisk p m.quota m.disk × SameCount q m.quota × IsFlushed q m.quota
  written_lem q now b d (ok _, w) enc persists saved done kept = (
    inr (new_file b 0o644, state_of q, done refl, json (state_of q) b enc, inl (refl, refl)),
    (refl, refl, refl, refl, persists),
    (inr refl, λ h. refl),
  )
  written_lem q now b d (err e, w) enc persists saved done kept = (
    subst (λ t. SavedAs p t q.cycle_start q.flushed_at) (sym (kept e refl)) saved,
    (refl, refl, refl, refl, persists),
    (inl refl, λ h. ground arith),
  )

  checkpoint_lem :
      (io : Io) (now : ℕ) (m : Metered)
      → m.quota.persists ≡ true
      → OnDisk p m.quota m.disk
      → let m' = checkpoint p io now m in
        OnDisk p m'.quota m'.disk × SameCount m.quota m'.quota × IsFlushed m.quota m'.quota
  unfolding checkpoint
  checkpoint_lem io now m persists saved = elim (Option-cases (p.encode (state_of m.quota))) [
    | inl e ↦
        rw (persists, e) (saved, (refl, refl, refl, refl, persists), (inl refl, λ h. ground arith))
    | inr (b, e) ↦ elim (Bool-cases io.mkdir_fails) [
      | inl no_dir ↦
          rw (persists, e, no_dir)
            (saved, (refl, refl, refl, refl, persists), (inl refl, λ h. ground arith))
      | inr dir ↦
          let (done, kept) = write_outcome io.faults b 0o644 m.disk in
          rw (persists, e, dir)
            (written_lem m.quota now b m.disk (Atomicfile.write io.faults b 0o644 (start m.disk)) e
              persists saved done kept)
    ]
  ]

granularity_of_limit : (q q' : Quota) → q'.limit ≡ q.limit → granularity q' ≡ granularity q
unfolding granularity
granularity_of_limit q q' h = ground arith

pub granularity_pos : (q : Quota) → 0 < granularity q
unfolding granularity
granularity_pos q = ground arith

-- What holds of a quota that keeps a checkpoint, between two calls: the disk holds what was flushed,
-- and what is not flushed is below the granularity, unless the last checkpoint failed.
pub record IsSaved (p : Platform) (m : Metered) : Type 0 where
  pub persists : m.quota.persists ≡ true
  pub on_disk : OnDisk p m.quota m.disk
  pub flushed_le : m.quota.flushed_at ≤ m.quota.used
  pub gap : m.quota.flush_err ≡ none → m.quota.used < m.quota.flushed_at + granularity m.quota

module _ (p : Platform) (json : IsJson p) where
  checkpoint-IsSaved :
      (io : Io) (now : ℕ) (m : Metered)
      → m.quota.persists ≡ true
      → OnDisk p m.quota m.disk
      → m.quota.flushed_at ≤ m.quota.used
      → let m' = checkpoint p io now m in IsSaved p m' × SameCount m.quota m'.quota
  checkpoint-IsSaved io now m persists saved le =
      let (saved', same, flushed') = checkpoint_lem p json io now m persists saved in
      (
        record {
          persists = ground arith;
          on_disk = saved';
          flushed_le = ground arith;
          gap = λ h. ground (arith, granularity_pos (checkpoint p io now m).quota, flushed'.1 h);
        },
        same,
      )

  later-SavedAs :
      (target : Option File) (c c' n : ℕ) → c < c' → SavedAs p target c n → SavedAs p target c' 0
  later-SavedAs target c c' n h (inl (e, _)) = inl (e, refl)
  later-SavedAs target c c' n h (inr (f, st, e, d, o)) =
      inr (f, st, e, d, inr (ground (arith, o), refl))

  rollover-IsSaved :
      (io : Io) (now : ℕ) (m : Metered)
      → IsSaved p m
      → IsSaved p (rollover p io now m) × ((rollover p io now m).quota.used ≤ m.quota.used)
  unfolding rollover
  rollover-IsSaved io now m s =
      let cs = cycle_start_of p now m.quota.cycle_day in
      let fresh = record m {
        quota = record m.quota { cycle_start = cs; used = 0; flushed_at = 0 };
      } in
      elim (Bool-cases (ltb m.quota.cycle_start cs)) [
        | inr same ↦ rw same (s, omega arith)
        | inl later ↦
            let (s', c) =
              checkpoint-IsSaved io now fresh s.persists
                (later-SavedAs m.disk.target m.quota.cycle_start cs m.quota.flushed_at
                  (ground arith) s.on_disk)
                (omega arith) in
            rw later (s', ground (arith, c))
      ]

  count-IsSaved :
      (io : Io) (n now : ℕ) (m : Metered)
      → IsSaved p m
      → m.quota.used + n < 2 ^ 64
      → IsSaved p (count p io n now m) × ((count p io n now m).quota.used ≡ m.quota.used + n)
  count-IsSaved io n now m s fits =
      let m' = record m { quota = counted n m.quota } in
      elim (Bool-cases (due m.quota m'.quota now)) [
        | inl now_due ↦
            let (s', c) = checkpoint-IsSaved io now m' s.persists s.on_disk (ground arith) in
            rw now_due (s', ground (arith, c))
        | inr not_due ↦ rw not_due (
          record {
            persists = s.persists;
            on_disk = s.on_disk;
            flushed_le = ground arith;
            gap = λ h. ground arith;
          },
          ground arith,
        )
      ]

  pub add-IsSaved :
      (rolling io : Io) (n now : ℕ) (m : Metered)
      → IsSaved p m
      → m.quota.used + n < 2 ^ 64
      → IsSaved p (add p rolling io n now m)
        × ((add p rolling io n now m).quota.used ≤ m.quota.used + n)
  unfolding add
  add-IsSaved rolling io n now m s fits =
      let (rolled, le) = rollover-IsSaved rolling now m s in
      let (s', used) = count-IsSaved io n now (rollover p rolling now m) rolled (omega arith) in
      elim (Bool-cases (n == 0)) [
        | inl none_served ↦ rw none_served (s, omega arith)
        | inr served ↦ rw served (s', omega arith)
      ]
