-- ===== src/Coordinator/Assign.antt =====
-- cmd/coordinator/assign.go and tier.go: which exit of a country a client is given. The package's
-- variables are the fields of `Env`; the map of exits is a list in the order in which Go happens to
-- range over it. A rating is what the estimators of core/capacity, which count in floats, say of it.
pub mod Choice
pub mod Exclude
use bacchus.Shared.{
  ℕ, zero, suc, ◌+◌, ◌-◌, ◌/◌, List, [], ◌∷◌, Bool, true, false, not, ◌&&◌, ◌||◌, Option, none,
  some, Bytes, String, length, take, ltb, leb, ◌==◌, str_eq, bytes_eq, if◌then◌else◌, ℤ, pos,
  negsuc, pos_part, ltb_ℤ, Result, ok, err,
}
use bacchus.Geoip.{Unicode, canonical}
use bacchus.Capacity.Share.{rank_share, octave_floor, unmetered, full, usable}

pub data Refusal : Type 0 where
  no_country country_busy no_hop : Refusal

pub record ExitNode : Type 0 where
  pub id : String
  pub country : Bytes
  pub exhausted : Bool
  pub has_udp : Bool
  pub speed_cap : ℕ

pub record Session : Type 0 where
  pub sid : String
  pub client : Option String
  pub exit_id : String
  pub last_seen : ℕ

-- `none` as the trusted stream is one that is not informed yet.
pub record NodeRating : Type 0 where
  pub trusted : Option ℕ
  pub untrusted : ℕ

unfoldable pub measured : NodeRating → ℕ
measured r = elim r.trusted [ some m ↦ m | none ↦ r.untrusted ]

pub record TierLimits : Type 0 where
  pub speed_cap_bps : ℕ
  pub priority : ℤ
  pub endpoint_quality : ℤ

-- `ratings` and `exit_class` may be nil.
pub record Env : Type 0 where
  pub exits : List ExitNode
  pub sessions : List Session
  pub ratings : Option (String → Option NodeRating)
  pub exit_class : Option (String → Option ℤ)
  pub serve_floor : ℕ
  pub min_share : ℕ
  pub ceiling : ℕ

-- 2 minutes.
abbrev pub session_ttl : ℕ
session_ttl = 120_000_000_000

abbrev rating_of : Option (String → Option NodeRating) → String → Option NodeRating
rating_of none id = none
rating_of (some f) id = f id

abbrev rated_as : ℕ → Option NodeRating → ℕ × Bool
rated_as declared none = (declared, false)
rated_as declared (some r) = (usable declared (measured r), true)

unfoldable pub exit_rating : Env → String → ℕ → ℕ × Bool
exit_rating env id declared = rated_as declared (rating_of env.ratings id)

unfoldable pub meets_serve_floor : Env → String → ℕ → Bool
unfolding exit_rating
meets_serve_floor env id declared = leb env.serve_floor (exit_rating env id declared).0

unfoldable pub tier_min_share : Env → TierLimits → ℕ
tier_min_share env l =
    if not (ltb_ℤ (pos 1) l.priority) then env.min_share else env.min_share / pos_part l.priority

abbrev class_of : Option (String → Option ℤ) → String → Option ℤ
class_of none id = none
class_of (some f) id = f id

abbrev good_class : ℤ → Option ℤ → Bool
good_class wanted none = true
good_class wanted (some class) = not (ltb_ℤ class wanted)

unfoldable pub meets_endpoint_quality : Env → String → TierLimits → Bool
meets_endpoint_quality env id l =
    if not (ltb_ℤ (pos 0) l.endpoint_quality)
    then true
    else good_class l.endpoint_quality (class_of env.exit_class id)

-- The sessions that count against an exit: those with its id that are not idle too long. A session
-- with no exit id counts against none.
unfoldable pub exit_sessions : List Session → ℕ → String → ℕ
exit_sessions [] now id = 0
exit_sessions (s ∷ ss) now id =
    let rest = exit_sessions ss now id in
    if str_eq s.exit_id ""
    then rest
    else if ltb session_ttl (now - s.last_seen)
    then rest
    else if str_eq s.exit_id id
    then suc rest
    else rest

unfoldable pub exit_assignable : Env → ExitNode → ℕ → TierLimits → Bool
exit_assignable env e sessions l =
    if e.exhausted
    then false
    else if length e.country == 0
    then false
    else if not (meets_serve_floor env e.id e.speed_cap)
    then false
    else if not (meets_endpoint_quality env e.id l)
    then false
    else (let (rate, rated) = exit_rating env e.id e.speed_cap in
        not (full rate (pos sessions) (unmetered e.speed_cap rated) (tier_min_share env l)))

unfoldable pub exit_rank : Env → ExitNode → ℕ → ℕ
exit_rank env e sessions =
    let (rate, rated) = exit_rating env e.id e.speed_cap in
    rank_share rate (pos sessions) rated env.ceiling

-- `resolveFirstHop`.
unfoldable pub resolve_first_hop : List ExitNode → String → Result Refusal ExitNode
resolve_first_hop [] id = err no_hop
resolve_first_hop (e ∷ es) id =
    if str_eq e.id id
    then (if e.exhausted || not e.has_udp then err no_hop else ok e)
    else resolve_first_hop es id

abbrev pub max_exclude_sessions : ℕ
max_exclude_sessions = 4

abbrev pub min_candidates_after_exclude : ℕ
min_candidates_after_exclude = 2

unfoldable pub find_session : String → List Session → Option Session
find_session sid [] = none
find_session sid (s ∷ ss) = if str_eq s.sid sid then some s else find_session sid ss

abbrev same_client : String → Option String → Bool
same_client src none = false
same_client src (some c) = str_eq c src

-- The exit of one named session, if it is this client's own.
abbrev excluded_exit : String → Option Session → Option String
excluded_exit src none = none
excluded_exit src (some s) =
    if str_eq s.exit_id "" then none else if same_client src s.client then some s.exit_id else none

abbrev cons_some : Option String → List String → List String
cons_some none ids = ids
cons_some (some id) ids = id ∷ ids

excluded_loop : List Session → String → List String → List String
excluded_loop sessions src [] = []
excluded_loop sessions src (sid ∷ sids) =
    cons_some (excluded_exit src (find_session sid sessions)) (excluded_loop sessions src sids)

unfoldable pub excluded_exits : List Session → Option String → List String → List String
unfolding excluded_loop
excluded_exits sessions none sids = []
excluded_exits sessions (some src) sids =
    excluded_loop sessions src (take max_exclude_sessions sids)

unfoldable pub contains : String → List String → Bool
contains id [] = false
contains id (x ∷ xs) = str_eq x id || contains id xs

-- Pass 1: the exits of the country that can take one more session.
unfoldable pub candidates : Env → Bytes → ℕ → TierLimits → List ExitNode → List ExitNode
candidates env cc now l [] = []
candidates env cc now l (e ∷ es) =
    let rest = candidates env cc now l es in
    if bytes_eq e.country cc && exit_assignable env e (exit_sessions env.sessions now e.id) l
    then e ∷ rest
    else rest

unfoldable pub country_known : Bytes → List ExitNode → Bool
country_known cc [] = false
country_known cc (e ∷ es) = bytes_eq e.country cc || country_known cc es

unfoldable pub not_excluded : List String → List ExitNode → List ExitNode
not_excluded exclude [] = []
not_excluded exclude (e ∷ es) =
    let rest = not_excluded exclude es in if contains e.id exclude then rest else e ∷ rest

-- An exclusion is honoured if it leaves enough exits to choose from.
unfoldable pub after_exclusion : List String → List ExitNode → List ExitNode
after_exclusion exclude cs =
    let kept = not_excluded exclude cs in
    if leb min_candidates_after_exclude (length kept) then kept else cs

unfoldable pub best_rank : Env → ℕ → List ExitNode → ℕ
best_rank env now [] = 0
best_rank env now (e ∷ es) =
    let rest = best_rank env now es in
    let s = exit_rank env e (exit_sessions env.sessions now e.id) in if ltb rest s then s else rest

unfoldable pub tier_floor : Env → ℕ → List ExitNode → ℕ
tier_floor env now cs = octave_floor (best_rank env now cs)

-- Pass 2: the first one within the tier.
unfoldable pub first_in_tier : Env → ℕ → ℕ → List ExitNode → Result Refusal ExitNode
first_in_tier env now floor [] = err country_busy
first_in_tier env now floor (e ∷ es) =
    let rest = first_in_tier env now floor es in
    if leb floor (exit_rank env e (exit_sessions env.sessions now e.id)) then ok e else rest

abbrev choose_from : Env → ℕ → List String → List ExitNode → Result Refusal ExitNode
choose_from env now exclude [] = err country_busy
choose_from env now exclude (c ∷ cs) =
    let left = after_exclusion exclude (c ∷ cs) in
    first_in_tier env now (tier_floor env now left) left

unfoldable pub choose_exit :
    Unicode → Env → Bytes → List String → ℕ → TierLimits → Result Refusal ExitNode
choose_exit u env country exclude now l =
    let cc = canonical u country in
    if length cc == 0
    then err no_country
    else if not (country_known cc env.exits)
    then err no_country
    else choose_from env now exclude (candidates env cc now l env.exits)
