-- ===== src/Selection.antt =====
-- core/selection/selection.go: the ladder of candidates that a client tries, in order. `equal_fold` is
-- `strings.EqualFold`, which works by Unicode tables.
pub mod Rungs
pub mod Store
pub mod Dedup
pub mod Ladder
use bacchus.Shared.{
  ℕ, List, [], ◌∷◌, ◌++◌, Bool, true, false, not, ◌&&◌, ◌||◌, Option, none, some, Bytes, length,
  ◌==◌, if◌then◌else◌, bytes_eq, ℤ, pos, ltb_ℤ, eqb_ℤ, codes,
}

abbrev pub mode_direct : Bytes
mode_direct = codes "direct"

abbrev pub mode_relay : Bytes
mode_relay = codes "relay"

pub record Candidate : Type 0 where
  pub transport : Bytes
  pub country : Bytes
  pub mode : Bytes

-- `rtt` is a `time.Duration`; 0 is an unknown one.
pub record Country : Type 0 where
  pub code : Bytes
  pub available : ℤ
  pub busy : Bool
  pub rtt : ℤ

pub record LadderInput : Type 0 where
  pub geo : Bytes
  pub countries : List Country
  pub transports : List Bytes
  pub learned : Option Candidate
  pub cooling : Option (Candidate → Bool)

abbrev pub EqualFold : Type 0
EqualFold = Bytes → Bytes → Bool

abbrev pub wanted : EqualFold → Bytes → Country → Bool
wanted eq geo c = if not (length geo == 0) then eq c.code geo else not c.busy

unfoldable pub in_scope : EqualFold → List Country → Bytes → List Country
in_scope eq [] geo = []
in_scope eq (c ∷ cs) geo =
    let rest = in_scope eq cs geo in if wanted eq geo c then c ∷ rest else rest

-- The comparison of `sortByPing`.
abbrev pub pings_before : Country → Country → Bool
pings_before a b =
    if eqb_ℤ a.rtt (pos 0) then false else if eqb_ℤ b.rtt (pos 0) then true else ltb_ℤ a.rtt b.rtt

-- `sort.SliceStable`: a country goes before the first one that does not come before it.
unfoldable pub insert_by_ping : Country → List Country → List Country
insert_by_ping c [] = c ∷ []
insert_by_ping c (d ∷ cs) =
    let rest = insert_by_ping c cs in if pings_before d c then d ∷ rest else c ∷ d ∷ cs

unfoldable pub sort_by_ping : List Country → List Country
sort_by_ping [] = []
sort_by_ping (c ∷ cs) = insert_by_ping c (sort_by_ping cs)

unfoldable pub countries_as : Bytes → List Country → Bytes → List Candidate
countries_as transport [] mode = []
countries_as transport (c ∷ cs) mode =
    record { transport = transport; country = c.code; mode = mode } ∷ countries_as transport cs mode

unfoldable pub country_present : EqualFold → List Country → Bytes → Bool
country_present eq [] code = false
country_present eq (c ∷ cs) code = eq c.code code || country_present eq cs code

abbrev pub is_cooling : Candidate → Option (Candidate → Bool) → Bool
is_cooling c none = false
is_cooling c (some cooling) = cooling c

unfoldable pub keep : Bool → (Candidate → Bool) → List Candidate → List Candidate
keep cold cooling [] = []
keep cold cooling (c ∷ cs) =
    let rest = keep cold cooling cs in
    if (if cold then cooling c else not (cooling c)) then c ∷ rest else rest

unfoldable pub sink_cooling : List Candidate → Option (Candidate → Bool) → List Candidate
sink_cooling tier none = tier
sink_cooling tier (some cooling) = keep false cooling tier ++ keep true cooling tier

abbrev pub same_candidate : Candidate → Candidate → Bool
same_candidate a b =
    bytes_eq a.transport b.transport && bytes_eq a.country b.country && bytes_eq a.mode b.mode

unfoldable pub is_seen : Candidate → List Candidate → Bool
is_seen c [] = false
is_seen c (d ∷ ds) = same_candidate c d || is_seen c ds

-- The loop of `dedup`; `seen` holds the keys of its map.
unfoldable pub dedup_from : List Candidate → List Candidate → List Candidate
dedup_from seen [] = []
dedup_from seen (c ∷ cs) =
    let known = is_seen c seen in
    let rest = dedup_from (if known then seen else c ∷ seen) cs in if known then rest else c ∷ rest

unfoldable pub dedup : List Candidate → List Candidate
dedup cs = dedup_from [] cs

abbrev pub learned_tier :
    EqualFold → LadderInput → List Country → Option Candidate → List (List Candidate)
learned_tier eq i countries none = []
learned_tier eq i countries (some c) =
    if country_present eq countries c.country && not (is_cooling c i.cooling)
    then (c ∷ []) ∷ []
    else []

unfoldable pub alternatives : List Bytes → List Country → List Candidate
alternatives [] countries = []
alternatives (t ∷ ts) countries = countries_as t countries mode_direct ++ alternatives ts countries

abbrev pub transport_tiers : List Bytes → List Country → List (List Candidate)
transport_tiers [] countries = []
transport_tiers (primary ∷ others) countries =
    countries_as primary countries mode_direct
    ∷ alternatives others countries
    ∷ countries_as primary countries mode_relay
    ∷ []

unfoldable pub join_tiers : List (List Candidate) → Option (Candidate → Bool) → List Candidate
join_tiers [] cooling = []
join_tiers (tier ∷ tiers) cooling = sink_cooling tier cooling ++ join_tiers tiers cooling

abbrev pub tiers_of : EqualFold → LadderInput → List (List Candidate)
tiers_of eq i =
    let countries = sort_by_ping (in_scope eq i.countries i.geo) in
    learned_tier eq i countries i.learned ++ transport_tiers i.transports countries

unfoldable pub ladder : EqualFold → LadderInput → List Candidate
ladder eq i = dedup (join_tiers (tiers_of eq i) i.cooling)
