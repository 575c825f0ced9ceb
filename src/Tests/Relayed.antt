-- ===== src/Tests/Relayed.antt =====
-- The relay of a UDP flow at concrete inputs.
use bacchus.Shared.{
  ℕ, ◌-◌, ◌≡◌, ◌↔◌, refl, List, [], ◌∷◌, ◌++◌, Bool, true, false, none, some, Bytes, codes, arith,
  ltb, if◌then◌else◌, pos,
}
use bacchus.Tests.Toys.{empty_disk, no_faults}
use bacchus.Capacity.Quota
use bacchus.Capacity.Quota.{
  Io, Metered, exhausted, add_forwarded, rollover, add, cycle_start_of, checkpoint, granularity,
}
use bacchus.Capacity.Limiter.{Bucket, Node, Declared}
use bacchus.UdpRelay.{
  Datagram, Peer, Received, Arrival, pass_on, decode_socks_udp_frame, encode_socks_udp_frame,
  exit_relay, serve_socks_udp_associate, ip_equal, exit_replies, relay_replies,
}
use bacchus.UdpRelay.Flow.{in_buffer, payloads, flow_arrives, pass_on_iff}
use bacchus.UdpRelay.Replies.{replies_arrive, wrapped, granted}

abbrev app : Peer
app = record { ip = 127 ∷ 0 ∷ 0 ∷ 1 ∷ []; port = 40000 }

abbrev resolver : Datagram
resolver = record { payload = (codes "query"); ip = 9 ∷ 9 ∷ 9 ∷ 9 ∷ []; port = 53 }

abbrev from_app : Bytes → ℕ → Received
from_app payload last = record {
  src = app;
  bytes = (0 ∷ 0 ∷ 0 ∷ 1 ∷ 9 ∷ 9 ∷ 9 ∷ last ∷ 0 ∷ 53 ∷ []) ++ payload;
}

abbrev later : List Received
later = from_app (codes "again") 9 ∷ from_app (codes "elsewhere") 8 ∷ []

-- A calendar of one cycle.
abbrev calendar : Quota.Platform
calendar = record {
  month_day = λ n day. 0;
  month_before = λ n. n;
  encode = λ s. none;
  decode = λ b. none;
}

abbrev quiet : Io
quiet = record { mkdir_fails = false; faults = no_faults }

abbrev nothing_used : ℕ → Metered
nothing_used limit = record {
  quota = record {
    limit = limit;
    cycle_day = pos 1;
    used = 0;
    cycle_start = 0;
    persists = false;
    flushed_at = 0;
    flushed_time = 0;
    flush_err = none;
  };
  disk = empty_disk;
}

-- The state of the machine is how many tokens the tier's bucket has left.
abbrev tokens : Bucket ℕ
tokens n left = if ltb left n then (false, left) else (true, left - n)

abbrev declares : Bool → Declared ℕ
declares quota = record {
  platform = calendar;
  has_quota = quota;
  limiter = none;
  clock = λ s. 5;
  testing = λ s. quiet;
  rolling = λ s. quiet;
  writing = λ s. quiet;
}

abbrev node : ℕ → ℕ → Node ℕ
node limit left = record { metered = nothing_used limit; machine = left }

flow_arrives_example :
    exit_relay 3
      (declares false)
      none
      (λ f k. k)
      (serve_socks_udp_associate (from_app (codes "query") 9 ∷ later))
      (node 0 0)
    ≡ resolver.payload ∷ payloads app resolver later
unfolding decode_socks_udp_frame
flow_arrives_example =
    flow_arrives (declares false) (λ f k. k) refl refl (from_app (codes "query") 9) later resolver 3
      (node 0 0) refl (ground arith)

abbrev back : Arrival ℕ
back = record { bytes = codes "answer"; meanwhile = λ k. k }

-- A quota of 12 bytes is spent by the two crossings of one answer, and 7 tokens are too few for two.
spent_by_first : granted (declares true) none (back ∷ back ∷ []) (node 12 0) ≡ codes "answer" ∷ []
unfolding exhausted add_forwarded rollover add cycle_start_of checkpoint granularity
spent_by_first = refl

tokens_run_out :
    granted (declares false) (some tokens) (back ∷ back ∷ []) (node 0 7) ≡ codes "answer" ∷ []
tokens_run_out = refl

replies_arrive_example :
    relay_replies 2 resolver.ip resolver.port
      (exit_replies (declares true) (some tokens) (back ∷ back ∷ []) (node 12 100))
    ≡ wrapped resolver.ip resolver.port
        (granted (declares true) (some tokens) (back ∷ back ∷ []) (node 12 100))
replies_arrive_example =
    replies_arrive (declares true) (some tokens) resolver.ip resolver.port (back ∷ back ∷ []) 2
      (node 12 100) (ground arith)

pass_on_iff_example : (pass_on app resolver (from_app (codes "a") 9) ≡ some (codes "a")) ↔ (
    (app.port ≡ app.port)
    × (ip_equal app.ip app.ip ≡ true)
    × (in_buffer (from_app (codes "a") 9)
        ≡ encode_socks_udp_frame resolver.ip resolver.port (codes "a")))
pass_on_iff_example =
    pass_on_iff app resolver (from_app (codes "a") 9) (codes "a") refl (ground arith) (ground arith)
