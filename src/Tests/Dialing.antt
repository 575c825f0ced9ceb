-- ===== src/Tests/Dialing.antt =====
-- The routes of a pooled transport and the choice of a path at concrete inputs.
use bacchus.Shared.{
  ℕ, ◌<◌, ◌≤◌, ◌≡◌, ◌≢◌, ◌⊎◌, inl, refl, List, [], ◌∷◌, true, false, Option, none, some, Bytes,
  codes, arith, if◌then◌else◌, length, In, bytes_eq, pos, ok,
}
use bacchus.Selection
use bacchus.Selection.{Candidate, mode_direct, mode_relay}
use bacchus.Selection.Store
use bacchus.Selection.Store.{Record, put}
use bacchus.PoolRoutes
use bacchus.PoolRoutes.{
  Excluder, Job, installing, checking, reaping, allowing, Step, Steps, reserves, returns, goes_on,
  ends, goes_live, arms, disables, here, next, new_excluder, contains, reserve, note_new, advance,
  sweep, disable, go_live, arm_allowlist,
}
use bacchus.PoolRoutes.Orphans.{no_orphan_route}
use bacchus.PoolRoutes.Allowlist.Quiet.{quiet_is_protected, second_reserve_unprotected}
use bacchus.Pool
use bacchus.Pool.{
  Race, Tick, landed, stagger, Outcome, won, exhausted, running, race_ladder, Engine, CountryInfo,
  Won, select_path, run, tick, launch, pick, on_stagger, remembered,
}
use bacchus.Pool.Racing.{most}
use bacchus.Pool.Racing.Ends.{race_gives_up, race_in_flight, race_ends}
use bacchus.Pool.Chosen.{IsChoice, select_path_sound}

abbrev front : Bytes
front = (codes "203.0.113.7")

abbrev live : Excluder Bytes
live = record new_excluder { gw = some (codes "gw"); routes_live = true }

abbrev fresh : Excluder Bytes
fresh = new_excluder

abbrev known : Excluder Bytes
known = record live { seen = front ∷ [] }

abbrev routed : Excluder Bytes
routed = record known { routes = front ∷ [] }

abbrev torn_down : Excluder Bytes
torn_down = record known { closed = true }

abbrev torn_routed : Excluder Bytes
torn_routed = record routed { closed = true }

abbrev at_front : List Job
at_front = installing false (front ∷ []) ∷ []

raced_teardown : Steps [] fresh at_front torn_down
unfolding reserve note_new contains go_live disable
raced_teardown =
    next
      (next (next here (goes_live (codes "gw") refl refl refl))
        (reserves (front ∷ []) (installing false (front ∷ [])) refl refl))
      (disables refl refl)

late_install : Steps at_front (sweep torn_down) [] torn_down
unfolding sweep advance PoolRoutes.remove_all PoolRoutes.remove bytes_eq
late_install =
    next {ks = installing false [] ∷ []} {q = torn_down}
      (next {ks = reaping false front [] ∷ []} {q = torn_routed}
        (next {ks = checking false front [] ∷ []} {q = torn_routed}
          (next {ks = at_front} here (
            goes_on [] [] (installing false (front ∷ [])) (checking false front []) refl refl refl))
          (goes_on [] [] (checking false front []) (reaping false front []) refl refl refl))
        (goes_on [] [] (reaping false front []) (installing false []) refl refl refl))
      (ends [] [] (installing false []) refl refl refl)

no_orphan_route_example : torn_down.routes ≡ []
no_orphan_route_example =
    no_orphan_route at_front torn_down torn_down raced_teardown refl late_install

abbrev armed : Excluder Bytes
armed = record live { armed = true }

abbrev covered : Excluder Bytes
covered = record routed { armed = true; allowed = front ∷ [] }

abbrev covered_route : Excluder Bytes
covered_route = record routed { armed = true }

all_returned : Steps [] fresh [] covered
unfolding reserve note_new contains advance go_live arm_allowlist
all_returned =
    next {ks = installing true [] ∷ []} {q = covered}
      (next {ks = allowing true front [] ∷ []} {q = covered_route}
        (next {ks = checking true front [] ∷ []} {q = covered_route}
          (next {ks = installing true (front ∷ []) ∷ []} {q = record known { armed = true }}
            (next {ks = []} {q = armed}
              (next {ks = []} {q = live} (next here (goes_live (codes "gw") refl refl refl))
                (arms true refl refl refl))
              (reserves (front ∷ []) (installing true (front ∷ [])) refl refl))
            (goes_on [] [] (installing true (front ∷ [])) (checking true front []) refl refl refl))
          (goes_on [] [] (checking true front []) (allowing true front []) refl refl refl))
        (goes_on [] [] (allowing true front []) (installing true []) refl refl refl))
      (ends [] [] (installing true []) refl refl refl)

quiet_is_protected_example :
    ((covered.routes_live ≡ false) ⊎ In front covered.routes)
    × ((covered.armed ≡ false) ⊎ In front covered.allowed)
quiet_is_protected_example = quiet_is_protected covered front all_returned refl (inl refl)

second_reserve_unprotected_example :
    let (first, p1) = reserve (front ∷ []) live in
    let (second, p2) = reserve (front ∷ []) p1 in
    (first ≡ some (installing false (front ∷ []))) × (second ≡ none) × ¬ In front p2.routes
unfolding contains
second_reserve_unprotected_example =
    second_reserve_unprotected front live refl refl refl (λ m. absurd m)

abbrev over : Bytes → Candidate
over name = record { transport = name; country = (codes "de"); mode = mode_direct }

abbrev rungs : List Candidate
rungs = over (codes "quic") ∷ over (codes "reality") ∷ []

abbrev nothing_comes_up : Candidate → Option ℕ
nothing_comes_up c = none

abbrev both_fail : List Tick
both_fail = stagger ∷ landed 1 ∷ landed 0 ∷ []

abbrev spent : Race
spent = record {
  launched = 2;
  received = 2;
  flying = [];
  failed = over (codes "reality") ∷ over (codes "quic") ∷ [];
}

race_gives_up_example : nothing_comes_up (over (codes "quic")) ≡ none
unfolding race_ladder run tick launch pick on_stagger
race_gives_up_example =
    race_gives_up rungs 2 nothing_comes_up both_fail spent (over (codes "quic")) refl (inl refl)

abbrev both_fly : Race
both_fly = record {
  launched = 2;
  received = 0;
  flying = over (codes "reality") ∷ over (codes "quic") ∷ [];
  failed = [];
}

race_in_flight_example :
    (0 < length both_fly.flying) × (length both_fly.flying ≤ most rungs 2 nothing_comes_up)
unfolding race_ladder run tick launch on_stagger
race_in_flight_example = race_in_flight rungs 2 nothing_comes_up (stagger ∷ []) both_fly refl

race_ends_example : race_ladder rungs 2 nothing_comes_up both_fail ≢ running both_fly
race_ends_example = race_ends rungs 2 nothing_comes_up both_fail both_fly (ground arith)

abbrev quic_comes_up : Candidate → Option ℕ
quic_comes_up c = if bytes_eq c.transport (codes "quic") then some 40 else none

abbrev engine : Engine
engine = record {
  update_required = false;
  chaining = false;
  geo = [];
  net = codes "wifi";
  transports = codes "reality" ∷ codes "quic" ∷ [];
  pool_parallel = 2;
  ttl = 1000;
  marks = [];
}

abbrev offered : List CountryInfo
offered = record { country = codes "de"; available = pos 3; busy = false } ∷ []

abbrev selected : Won ℕ
selected = record {
  candidate = over (codes "quic");
  path = 40;
  recs = put (remembered bytes_eq (λ n. n) quic_comes_up engine (over (codes "quic")) 40 9) [];
}

came_up :
    select_path bytes_eq (λ n. n) quic_comes_up engine [] (some offered) 9 (stagger ∷ landed 0 ∷ [])
    ≡ ok selected
unfolding select_path race_ladder run tick launch pick on_stagger Pool.rungs_of
    Pool.chainable_ladder Pool.measured Selection.ladder Selection.dedup Selection.dedup_from
    Selection.is_seen Selection.join_tiers Selection.in_scope Selection.sort_by_ping
    Selection.insert_by_ping Selection.countries_as Selection.country_present Selection.keep
    Selection.sink_cooling Selection.alternatives Store.best Store.best_from Store.rtt
    Store.rtt_from bytes_eq Pool.candidate_cooling
came_up = refl

select_path_sound_example :
    (engine.update_required ≡ false)
    × (selected.recs
        ≡ put (remembered bytes_eq (λ n. n) quic_comes_up engine (over (codes "quic")) 40 9) [])
    × ((countries : List CountryInfo) × (some offered ≡ some countries)
        × IsChoice bytes_eq (λ n. n) quic_comes_up engine [] 9 countries (over (codes "quic")) 40)
select_path_sound_example =
    select_path_sound bytes_eq (λ n. n) quic_comes_up engine [] (some offered) 9
      (stagger ∷ landed 0 ∷ []) selected came_up
