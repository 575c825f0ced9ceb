-- ===== src/Capacity/Limiter.antt =====
-- core/capacity/limiter.go: WaitN, and core/forwarder.go: meterN, which applies the limits that an operator
-- declared to the bytes of one datagram. `S` is the state of the machine: the buckets of
-- golang.org/x/time/rate, the context, the clock and the operating system.
use bacchus.Shared.{ℕ, Bool, true, false, Option, none, some, ltb, ◌==◌, if◌then◌else◌}
use bacchus.Capacity.Quota
use bacchus.Capacity.Quota.{Io, Metered, exhausted, add_forwarded}

-- 64 KiB.
abbrev pub burst_bytes : ℕ
burst_bytes = 65536

-- What a bucket answers to a wait for a number of tokens, false for an error, and the state afterwards.
abbrev pub Bucket : Type 0 → Type 0
Bucket S = ℕ → S → Bool × S

-- The quota with its checkpoint, which every session shares, and the rest of the state.
pub record Node (S : Type 0) : Type 0 where
  pub metered : Metered
  pub machine : S

-- The limits of a node. `has_quota` is false for the nil quota, and `limiter` is `none` for the nil
-- limiter. The three `Io`s are what the operating system does while the quota is tested, while it is rolled
-- over for the count, and while the count is written.
pub record Declared (S : Type 0) : Type 0 where
  pub platform : Quota.Platform
  pub has_quota : Bool
  pub limiter : Option (Bucket S)
  pub clock : S → ℕ
  pub testing : S → Io
  pub rolling : S → Io
  pub writing : S → Io

module _ {S : Type 0} where
  -- `none` is the nil limiter. The result is false for an error.
  unfoldable pub wait_n : Option (Bucket S) → ℕ → S → Bool × S
  wait_n none n s = (true, s)
  wait_n (some bucket) n s =
      if n == 0 then (true, s) else if ltb burst_bytes n then (false, s) else bucket n s

  abbrev pub on_node : Node S → Bool × S → Bool × Node S
  on_node k (passed, s) = (passed, record k { machine = s })

  -- The test of the quota and the count, for bytes that moved at `now`.
  abbrev pub counted : Declared S → ℕ → ℕ → Node S → Bool × Metered → Bool × Node S
  counted d n now k (true, m) = (false, record k { metered = m })
  counted d n now k (false, m) = (
    true,
    record k {
      metered = add_forwarded d.platform (d.rolling k.machine) (d.writing k.machine) n now m;
    },
  )

  unfoldable pub charge : Declared S → ℕ → Node S → Bool × Node S
  charge d n k =
      if d.has_quota
      then counted d n (d.clock k.machine) k
          (exhausted d.platform (d.testing k.machine) (d.clock k.machine) k.metered)
      else (true, k)

  abbrev pub then_wait : Option (Bucket S) → ℕ → Bool × Node S → Bool × Node S
  then_wait limiter n (false, k) = (false, k)
  then_wait limiter n (true, k) = on_node k (wait_n limiter n k.machine)

  -- False for an error: the quota is spent, or the limiter's.
  unfoldable pub meter_n : Declared S → ℕ → Node S → Bool × Node S
  meter_n d n k = if n == 0 then (true, k) else then_wait d.limiter n (charge d n k)
