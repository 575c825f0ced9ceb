-- ===== src/Capacity/Quota.antt =====
-- core/capacity/quota.go: the bytes served against a declared monthly quota, with its checkpoint on
-- disk. The calendar (`time.Date`, `AddDate`), JSON and the operating system are parameters. The nil
-- quota, on which every method does nothing, is the `none` of `new_quota`.
pub mod Cap
pub mod Saved
pub mod Restart
use bacchus.Shared.{
  ℕ, ◌+◌, ◌-◌, ◌*◌, ◌/◌, ◌%◌, ◌^◌, List, [], ◌∷◌, Bool, true, false, not, ◌&&◌, ◌||◌, Option, none,
  some, Bytes, ltb, leb, ◌==◌, if◌then◌else◌, ℤ, pos, ltb_ℤ, eqb_ℤ, Result, ok, err,
}
use bacchus.Atomicfile
use bacchus.Atomicfile.{Disk, File, Faults, World}
use bacchus.Atomicfile.Install.{start}
use bacchus.Capacity.Share.{u64}

pub record Limits : Type 0 where
  pub speed_cap : ℕ
  pub monthly_quota : ℕ
  pub cycle_day : ℤ

pub record QuotaState : Type 0 where
  pub cycle_start : ℕ
  pub used : ℕ
  pub limit : ℕ
  pub cycle_day : ℤ

-- `month_day now day` is midnight of that day in the month of `now`, and `month_before` a month less.
pub record Platform : Type 0 where
  pub month_day : ℕ → ℤ → ℕ
  pub month_before : ℕ → ℕ
  pub encode : QuotaState → Option Bytes
  pub decode : Bytes → Option QuotaState

pub data FlushError : Type 0 where
  marshal_failed mkdir_failed : FlushError
  install_failed : Atomicfile.Error → FlushError

pub data StartError : Type 0 where
  read_failed parse_failed : StartError

-- `persists` is that the path is not empty.
pub record Quota : Type 0 where
  pub limit : ℕ
  pub cycle_day : ℤ
  pub used : ℕ
  pub cycle_start : ℕ
  pub persists : Bool
  pub flushed_at : ℕ
  pub flushed_time : ℕ
  pub flush_err : Option FlushError

-- A quota and the directory of its checkpoint.
pub record Metered : Type 0 where
  pub quota : Quota
  pub disk : Disk

-- What the operating system does during a checkpoint.
pub record Io : Type 0 where
  pub mkdir_fails : Bool
  pub faults : Faults

-- 64 KB, 16 MB and 30 seconds.
abbrev pub min_flush_granularity : ℕ
min_flush_granularity = 64_000

abbrev pub max_flush_granularity : ℕ
max_flush_granularity = 16_000_000

abbrev pub flush_interval : ℕ
flush_interval = 30_000_000_000

abbrev at_least_min : ℕ → ℕ
at_least_min g = if ltb g min_flush_granularity then min_flush_granularity else g

abbrev at_most_max : ℕ → ℕ
at_most_max g = if ltb max_flush_granularity g then max_flush_granularity else g

unfoldable pub granularity : Quota → ℕ
granularity q = at_most_max (at_least_min (q.limit / 64))

abbrev or_first : ℤ → ℤ
or_first day = if ltb_ℤ day (pos 1) then pos 1 else day

unfoldable pub cycle_start_of : Platform → ℕ → ℤ → ℕ
cycle_start_of p now day =
    let c = p.month_day now (or_first day) in if ltb now c then p.month_before c else c

abbrev state_of : Quota → QuotaState
state_of q = record {
  cycle_start = q.cycle_start;
  used = q.used;
  limit = q.limit;
  cycle_day = q.cycle_day;
}

abbrev flushed : Quota → ℕ → Quota
flushed q now = record q { flushed_at = q.used; flushed_time = now; flush_err = none }

abbrev failed : Quota → FlushError → Quota
failed q e = record q { flush_err = some e }

abbrev written : Quota → ℕ → Result Atomicfile.Error (Unit {0}) × World → Metered
written q now (ok u, w) = record { quota = flushed q now; disk = w.disk }
written q now (err e, w) = record { quota = failed q (install_failed e); disk = w.disk }

unfoldable pub checkpoint : Platform → Io → ℕ → Metered → Metered
checkpoint p io now m =
    let q = m.quota in
    if not q.persists
    then record m { quota = record q { flushed_at = q.used; flushed_time = now } }
    else elim (p.encode (state_of q)) [
      | none ↦ record m { quota = failed q marshal_failed }
      | some b ↦
          if io.mkdir_fails
          then record m { quota = failed q mkdir_failed }
          else written q now (Atomicfile.write io.faults b 0o644 (start m.disk))
    ]

unfoldable pub rollover : Platform → Io → ℕ → Metered → Metered
rollover p io now m =
    let cs = cycle_start_of p now m.quota.cycle_day in
    if not (ltb m.quota.cycle_start cs)
    then m
    else checkpoint p io now
        (record m { quota = record m.quota { cycle_start = cs; used = 0; flushed_at = 0 } })

abbrev spent : Quota → Bool
spent q = leb q.limit q.used

-- Whether `Add` writes a checkpoint: the quota is spent by this call, or enough bytes or time have
-- passed since the last one.
abbrev due : Quota → Quota → ℕ → Bool
due before q now =
    (not (spent before) && spent q)
    || (leb (granularity q) (u64 (q.used + 2 ^ 64 - q.flushed_at))
        || leb flush_interval (now - q.flushed_time))

-- What `Add` does once the quota is that of the current cycle.
abbrev counted : ℕ → Quota → Quota
counted n q = record q { used = u64 (q.used + n) }

abbrev count : Platform → Io → ℕ → ℕ → Metered → Metered
count p io n now m =
    let m' = record m { quota = counted n m.quota } in
    if due m.quota m'.quota now then checkpoint p io now m' else m'

unfoldable pub add : Platform → Io → Io → ℕ → ℕ → Metered → Metered
add p rolling io n now m = if n == 0 then m else count p io n now (rollover p rolling now m)

unfoldable pub exhausted : Platform → Io → ℕ → Metered → Bool × Metered
exhausted p io now m = let m' = rollover p io now m in (spent m'.quota, m')

unfoldable pub remaining : Platform → Io → ℕ → Metered → ℕ × Metered
remaining p io now m =
    let m' = rollover p io now m in
    (if spent m'.quota then 0 else m'.quota.limit - m'.quota.used, m')

abbrev pub link_crossings : ℕ
link_crossings = 2

unfoldable pub add_forwarded : Platform → Io → Io → ℕ → ℕ → Metered → Metered
add_forwarded p rolling io n now m = add p rolling io (u64 (n * link_crossings)) now m

-- One `Read` of a metered stream, which may give `n` bytes: what it gives, or `none` for
-- `ErrQuotaExhausted`. The clock is read before the test and again for the count.
unfoldable pub read : Platform → Io → Io → Io → ℕ → ℕ → ℕ → Metered → Option ℕ × Metered
read p testing rolling io before now n m =
    let (over, m') = exhausted p testing before m in
    if over then (none, m') else (some n, add_forwarded p rolling io n now m')

unfoldable pub flush : Platform → Io → ℕ → Metered → Option FlushError × Metered
flush p io now m = let m' = checkpoint p io now m in (m'.quota.flush_err, m')

-- The quota as it starts, and with what a checkpoint holds. A checkpoint of an older cycle is passed
-- over; one of a later cycle means that the clock is behind.
abbrev pub fresh_quota : Platform → Limits → Bool → ℕ → Quota
fresh_quota p l persists now =
    let day = if eqb_ℤ l.cycle_day (pos 0) then pos 1 else l.cycle_day in
    record {
      limit = l.monthly_quota;
      cycle_day = day;
      used = 0;
      cycle_start = cycle_start_of p now day;
      persists = persists;
      flushed_at = 0;
      flushed_time = now;
      flush_err = none;
    }

abbrev resume : Quota → QuotaState → Quota
resume q st =
    if not (ltb st.cycle_start q.cycle_start)
    then record q { cycle_start = st.cycle_start; used = st.used; flushed_at = st.used }
    else q

abbrev resume_decoded : Quota → Option QuotaState → Result StartError (Option Quota)
resume_decoded q none = err parse_failed
resume_decoded q (some st) = ok (some (resume q st))

abbrev resume_file : Platform → Quota → Option File → Result StartError (Option Quota)
resume_file p q none = ok (some q)
resume_file p q (some f) = resume_decoded q (p.decode f.content)

unfoldable pub new_quota :
    Platform → Bool → Limits → Bool → ℕ → Disk → Result StartError (Option Quota)
new_quota p read_fails l persists now d =
    let q = fresh_quota p l persists now in
    if l.monthly_quota == 0
    then ok none
    else if not persists
    then ok (some q)
    else if read_fails
    then err read_failed
    else resume_file p q d.target
