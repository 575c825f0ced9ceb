-- ===== src/Pool.antt =====
-- core/pool.go: which of a client's candidate paths it connects over. `dial` is what a candidate's dial and
-- validation gives on this network, `none` for an error or a nil session, and `Dialed` what it returns. The
-- order in which the timer and the results arrive is a list of ticks. Closing the losers' sessions, the
-- events that are logged and the sockets are left out.
pub mod Racing
pub mod Chosen
use bacchus.Shared.{
  ℕ, zero, suc, ◌+◌, ◌-◌, ◌%◌, ◌≡◌, List, [], ◌∷◌, ◌++◌, Bool, true, false, not, ◌&&◌, ◌||◌, Option,
  none, some, Bytes, length, ltb, ◌==◌, bytes_eq, if◌then◌else◌, ℤ, pos, ltb_ℤ, Result, ok, err,
}
use bacchus.Ranges.{get_elem?}
use bacchus.Selection.{
  Candidate, Country, LadderInput, EqualFold, ladder, mode_direct, same_candidate,
}
use bacchus.Selection.Store.{Record, best, put, rtt}

-- 30 seconds.
abbrev pub cand_cooldown : ℕ
cand_cooldown = 30_000_000_000

-- `candCooling`: the latest mark of a candidate comes first.
abbrev pub Marks : Type 0
Marks = List (Candidate × ℕ)

unfoldable pub mark_candidate_cooling : Candidate → ℕ → Marks → Marks
mark_candidate_cooling c now ms = (c, now) ∷ ms

unfoldable pub candidate_cooling : Marks → ℕ → Candidate → Bool
candidate_cooling [] now c = false
candidate_cooling ((d, t) ∷ ms) now c =
    let older = candidate_cooling ms now c in
    if same_candidate d c then ltb (now - t) cand_cooldown else older

-- The state of `raceLadder`: `flying` are the candidates whose results have not been received, and `failed`
-- the ones it has marked as cooling.
pub record Race : Type 0 where
  pub launched : ℕ
  pub received : ℕ
  pub flying : List Candidate
  pub failed : List Candidate

pub data Tick : Type 0 where
  stagger cancelled stopped : Tick
  -- A result arrives, of any of the candidates that are in flight.
  landed : ℕ → Tick

pub data Outcome (Dialed : Type 0) : Type 0 where
  running : Race → Outcome Dialed
  won : Candidate → Dialed → Race → Outcome Dialed
  exhausted : Race → Outcome Dialed
  empty_ladder interrupted engine_stopped : Outcome Dialed

unfoldable pub pick : ℕ → List Candidate → Option (Candidate × List Candidate)
pick n [] = none
pick zero (c ∷ cs) = some (c, cs)
pick (suc n) (c ∷ []) = some (c, [])
pick (suc n) (c ∷ d ∷ cs) = elim (pick n (d ∷ cs)) [
  | none ↦ none
  | some (x, rest) ↦ some (x, c ∷ rest)
]

abbrev pub at_start : Race
at_start = record { launched = 0; received = 0; flying = []; failed = [] }

module _ {Dialed : Type 0} (rungs : List Candidate) (parallel : ℕ)
    (dial : Candidate → Option Dialed) where
  abbrev launch_at : Option Candidate → Race → Race
  launch_at none r = r
  launch_at (some c) r = record r { launched = suc r.launched; flying = c ∷ r.flying }

  unfoldable pub launch : Race → Race
  launch r = launch_at (get_elem? r.launched rungs) r

  abbrev pub in_flight : Race → ℕ
  in_flight r = r.launched - r.received

  unfoldable pub on_stagger : Race → Race
  on_stagger r = if ltb r.launched (length rungs) && ltb (in_flight r) parallel then launch r else r

  abbrev pub on_failure : Candidate → Race → Outcome Dialed
  on_failure c r =
      let marked = record r { failed = c ∷ r.failed } in
      if ltb r.launched (length rungs)
      then running (launch marked)
      else if in_flight r == 0
      then exhausted marked
      else running marked

  abbrev pub on_result : Candidate → Race → Option Dialed → Outcome Dialed
  on_result c r (some p) = won c p r
  on_result c r none = on_failure c r

  abbrev pub on_landed : Race → Option (Candidate × List Candidate) → Outcome Dialed
  on_landed r none = running r
  on_landed r (some (c, rest)) =
      on_result c (record r { received = suc r.received; flying = rest }) (dial c)

  unfoldable pub tick : Race → Tick → Outcome Dialed
  tick r stagger = running (on_stagger r)
  tick r cancelled = interrupted
  tick r stopped = engine_stopped
  tick r (landed n) = on_landed r (pick n r.flying)

  abbrev pub go_on : Outcome Dialed → Tick → Outcome Dialed
  go_on (running r) t = tick r t
  go_on o t = o

  unfoldable pub run : Outcome Dialed → List Tick → Outcome Dialed
  run o [] = o
  run o (t ∷ ts) = run (go_on o t) ts

  unfoldable pub race_ladder : List Tick → Outcome Dialed
  race_ladder ts = if length rungs == 0 then empty_ladder else run (running (launch at_start)) ts

unfoldable pub without_direct : List Candidate → List Candidate
without_direct [] = []
without_direct (c ∷ cs) =
    let rest = without_direct cs in if not (bytes_eq c.mode mode_direct) then c ∷ rest else rest

unfoldable pub chainable_ladder : Bool → List Candidate → List Candidate
chainable_ladder chaining l = if not chaining then l else without_direct l

-- What a coordinator lists of a country.
pub record CountryInfo : Type 0 where
  pub country : Bytes
  pub available : ℤ
  pub busy : Bool

unfoldable pub measured : (Bytes → ℤ) → List CountryInfo → List Country
measured rtt_of [] = []
measured rtt_of (c ∷ cs) =
    record { code = c.country; available = c.available; busy = c.busy; rtt = rtt_of c.country }
    ∷ measured rtt_of cs

-- What `selectPath` reads of the engine.
pub record Engine : Type 0 where
  pub update_required : Bool
  pub chaining : Bool
  pub geo : Bytes
  pub net : Bytes
  pub transports : List Bytes
  pub pool_parallel : ℕ
  pub ttl : ℕ
  pub marks : Marks

pub data SelectError : Type 0 where
  update_needed fetch_failed no_country no_candidates race_lost : SelectError

-- `rtt_ms` of a path is its round trip in whole milliseconds.
pub record Won (Dialed : Type 0) : Type 0 where
  pub candidate : Candidate
  pub path : Dialed
  pub recs : List Record

abbrev pub input_of : Engine → List Record → List CountryInfo → ℕ → LadderInput
input_of e recs countries now = record {
  geo = e.geo;
  countries = measured (λ c. rtt e.ttl recs e.net c now) countries;
  transports = e.transports;
  learned = best e.ttl recs e.net e.geo now;
  cooling = some (candidate_cooling e.marks now);
}

module _ {Dialed : Type 0} (eq : EqualFold) (rtt_ms : Dialed → ℕ)
    (dial : Candidate → Option Dialed) where
  unfoldable pub rungs_of : Engine → List Record → List CountryInfo → ℕ → List Candidate
  rungs_of e recs countries now =
      chainable_ladder e.chaining (ladder eq (input_of e recs countries now))

  abbrev at_least_one : ℕ → ℕ
  at_least_one n = if ltb n 1 then 1 else n

  abbrev pub remembered : Engine → Candidate → Dialed → ℕ → Record
  remembered e c p now = record {
    net = e.net;
    geo = e.geo;
    country = c.country;
    tr = c.transport;
    mode = c.mode;
    rtt_ms = pos (at_least_one (rtt_ms p));
    at = now;
  }

  abbrev pub after_race :
      Engine → List Record → ℕ → Outcome Dialed → Result SelectError (Won Dialed)
  after_race e recs now (won c p r) =
      ok (record { candidate = c; path = p; recs = put (remembered e c p now) recs })
  after_race e recs now _ = err race_lost

  abbrev pub from_countries :
      Engine
      → List Record
      → ℕ
      → List Tick
      → Option (List CountryInfo)
      → Result SelectError (Won Dialed)
  from_countries e recs now ts none = err fetch_failed
  from_countries e recs now ts (some countries) =
      if length countries == 0
      then err no_country
      else if length (rungs_of e recs countries now) == 0
      then err no_candidates
      else after_race e recs now
          (race_ladder (rungs_of e recs countries now) e.pool_parallel dial ts)

  -- `fetched` is what `countriesFn` gives, and `ts` the ticks of the race.
  unfoldable pub select_path :
      Engine
      → List Record
      → Option (List CountryInfo)
      → ℕ
      → List Tick
      → Result SelectError (Won Dialed)
  select_path e recs fetched now ts =
      if e.update_required then err update_needed else from_countries e recs now ts fetched
