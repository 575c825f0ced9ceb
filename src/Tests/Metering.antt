-- ===== src/Tests/Metering.antt =====
-- The monthly quota at concrete inputs, with cycles of a thousand ticks.
use bacchus.Shared.{
  ◌*◌, ◌-◌, ◌/◌, List, [], ◌∷◌, true, false, Option, none, some, arith, Bytes, pos, negsuc,
}
use bacchus.Capacity.Quota.{Platform, Quota, QuotaState, Limits, Metered, Io, fresh_quota}
use bacchus.Capacity.Quota.Saved.{IsJson}
use bacchus.Capacity.Quota.Restart.{Call}
use bacchus.Capacity.Quota.Cap.{Reading}
use bacchus.Tests.Toys.{empty_disk, no_faults, failing_sync}

abbrev encode : QuotaState → Option Bytes
encode st = elim st.cycle_day [
  | pos n ↦ some (st.cycle_start ∷ st.used ∷ st.limit ∷ n ∷ [])
  | negsuc n ↦ none
]

abbrev decode : Bytes → Option QuotaState
decode (c ∷ u ∷ l ∷ n ∷ []) =
    some (record { cycle_start = c; used = u; limit = l; cycle_day = pos n })
decode _ = none

abbrev platform : Platform
platform = record {
  month_day = λ now day. now / 1000 * 1000;
  month_before = λ c. c - 1000;
  encode = encode;
  decode = decode;
}

platform-IsJson : IsJson platform
platform-IsJson st b h = ground arith

abbrev limits : Limits
limits = record { speed_cap = 0; monthly_quota = 1_000_000; cycle_day = pos 1 }

abbrev quota : Quota
quota = fresh_quota platform limits true 2_500

abbrev io : Io
io = record { mkdir_fails = false; faults = no_faults }

abbrev no_flush : Io
no_flush = record { mkdir_fails = false; faults = failing_sync }

-- The first call writes a checkpoint, the second fails to, and the third is too small for one.
abbrev calls : List Call
calls =
    record { bytes = 70_000; now = 2_600; rolling = io; io = io }
    ∷ record { bytes = 80_000; now = 1_600; rolling = io; io = no_flush }
    ∷ []

abbrev start : Metered
start = record { quota = quota; disk = empty_disk }

abbrev reading : Reading
reading = record {
  bytes = 600_000;
  before = 2_600;
  now = 2_601;
  testing = io;
  rolling = io;
  io = no_flush;
}
