-- ===== src/PoolRoutes.antt =====
-- clients/internal/enforcement/poolroutes.go: the addresses that a pooled transport dials are kept out of
-- the tunnel. `reserve` holds the lock only while it records, so its parts are steps of their own, and
-- calls of it run side by side: a `Job` is the rest of one. `routes` and `allowed` are what the four
-- injected functions have done to the route table and to the kill switch's allowlist. Go's iteration
-- order over the map of addresses does not matter here; `seen` lists its keys.
pub mod Known
pub mod Jobs
pub mod Orphans
pub mod Allowlist
use bacchus.Shared.{
  ◌≡◌, ℕ, zero, suc, List, [], ◌∷◌, ◌++◌, Bool, true, false, not, ◌&&◌, ◌||◌, Option, none, some,
  Bytes, bytes_eq, length, ◌==◌, if◌then◌else◌,
}

-- The rest of a call of `reserve`, from the installation of the first address on; `armed` is what it read.
pub data Job : Type 0 where
  -- The addresses are still to be installed.
  installing : Bool → List Bytes → Job
  -- The route of the first is there, and `closed` has not been read.
  checking : Bool → Bytes → List Bytes → Job
  -- `closed` was read as true.
  reaping : Bool → Bytes → List Bytes → Job
  -- `closed` was read as false.
  allowing : Bool → Bytes → List Bytes → Job

pub record Excluder (G : Type 0) : Type 0 where
  pub gw : Option G
  pub routes_live : Bool
  pub armed : Bool
  pub closed : Bool
  pub seen : List Bytes
  pub gw_refreshing : Bool
  pub routes : List Bytes
  pub allowed : List Bytes

unfoldable pub contains : Bytes → List Bytes → Bool
contains ip [] = false
contains ip (x ∷ xs) = bytes_eq x ip || contains ip xs

unfoldable pub remove : Bytes → List Bytes → List Bytes
remove ip [] = []
remove ip (x ∷ xs) = let rest = remove ip xs in if bytes_eq x ip then rest else x ∷ rest

-- `removeRoutes`.
unfoldable pub remove_all : List Bytes → List Bytes → List Bytes
remove_all [] rs = rs
remove_all (ip ∷ ips) rs = remove_all ips (remove ip rs)

-- The loop of `reserve` under the lock: what is new, and what is known then.
unfoldable pub note_new : List Bytes → List Bytes → List Bytes × List Bytes
note_new [] seen = ([], seen)
note_new (ip ∷ ips) seen =
    if contains ip seen
    then note_new ips seen
    else (let (new, known) = note_new ips (ip ∷ seen) in (ip ∷ new, known))

module _ {G : Type 0} where
  abbrev job_of : Excluder G → List Bytes → Option Job
  job_of p [] = none
  job_of p (ip ∷ ips) =
      if p.closed
      then none
      else if p.routes_live
      then some (installing p.armed (ip ∷ ips))
      else none

  -- The first part of `reserve`; with `none` the call has returned.
  unfoldable pub reserve : List Bytes → Excluder G → Option Job × Excluder G
  reserve ips p =
      let (new, known) = note_new ips p.seen in (job_of p new, record p { seen = known })

  -- One step of a job; with `none` its call has returned.
  unfoldable pub advance : Job → Excluder G → Option Job × Excluder G
  advance (installing armed []) p = (none, p)
  advance (installing armed (ip ∷ ips)) p =
      (some (checking armed ip ips), record p { routes = ip ∷ p.routes })
  advance (checking armed ip ips) p =
      (some (if p.closed then reaping armed ip ips else allowing armed ip ips), p)
  advance (reaping armed ip ips) p =
      (some (installing armed ips), record p { routes = remove ip p.routes })
  advance (allowing armed ip ips) p =
      (some (installing armed ips), if armed then record p { allowed = ip ∷ p.allowed } else p)

  unfoldable pub trigger_gateway_refresh : Excluder G → Bool × Excluder G
  trigger_gateway_refresh p =
      if p.gw_refreshing then (false, p) else (true, record p { gw_refreshing = true })

  abbrev fresh_or : Option G → Option G → Option G
  fresh_or old none = old
  fresh_or old (some g) = some g

  -- The goroutine that `triggerGatewayRefresh` starts; `none` is an error of `gatewayFn`.
  unfoldable pub gateway_refreshed : Option G → Excluder G → Excluder G
  gateway_refreshed fresh p = record p { gw = fresh_or p.gw fresh; gw_refreshing = false }

  unfoldable pub disable : Excluder G → Excluder G
  disable p = record p { closed = true }

  unfoldable pub go_live : G → Excluder G → Excluder G
  go_live g p = record p { gw = some g; routes_live = true; routes = p.seen ++ p.routes }

  -- The Boolean says that `install` succeeded, with the snapshot in its allowlist.
  unfoldable pub arm_allowlist : Bool → Excluder G → Excluder G
  arm_allowlist installed p =
      if installed then record p { armed = true; allowed = p.seen ++ p.allowed } else p

  -- What a teardown does after `disable`: `removeRoutes(reserved())`.
  unfoldable pub sweep : Excluder G → Excluder G
  sweep p = record p { routes = remove_all p.seen p.routes }

-- A step of one of the calls that are in progress: `js` and `ks` are the jobs before and after it. The
-- tunnel calls `goLive` before it arms, never after `disable`, and `disable` before it sweeps.
pub data Step {G : Type 0} (js : List Job) (p : Excluder G) (ks : List Job) (q : Excluder G)
    : Type 0 where
  reserves :
      (ips : List Bytes) (j : Job) → ks ≡ j ∷ js → reserve ips p ≡ (some j, q) → Step js p ks q
  returns : (ips : List Bytes) → ks ≡ js → reserve ips p ≡ (none, q) → Step js p ks q
  goes_on :
      (as' bs : List Job) (j k : Job)
      → js ≡ as' ++ (j ∷ bs)
      → ks ≡ as' ++ (k ∷ bs)
      → advance j p ≡ (some k, q)
      → Step js p ks q
  ends :
      (as' bs : List Job) (j : Job)
      → js ≡ as' ++ (j ∷ bs)
      → ks ≡ as' ++ bs
      → advance j p ≡ (none, q)
      → Step js p ks q
  refreshes : ks ≡ js → q ≡ (trigger_gateway_refresh p).1 → Step js p ks q
  refreshed : (f : Option G) → ks ≡ js → q ≡ gateway_refreshed f p → Step js p ks q
  goes_live : (g : G) → p.closed ≡ false → ks ≡ js → q ≡ go_live g p → Step js p ks q
  arms : (b : Bool) → p.routes_live ≡ true → ks ≡ js → q ≡ arm_allowlist b p → Step js p ks q
  disables : ks ≡ js → q ≡ disable p → Step js p ks q
  sweeps : p.closed ≡ true → ks ≡ js → q ≡ sweep p → Step js p ks q

pub data Steps {G : Type 0} (js : List Job) (p : Excluder G) : List Job → Excluder G → Type 0 where
  here : Steps js p js p
  next : {ks ls : List Job} {q r : Excluder G} → Steps js p ks q → Step ks q ls r → Steps js p ls r

abbrev pub new_excluder : {G : Type 0} → Excluder G
new_excluder = record {
  gw = none;
  routes_live = false;
  armed = false;
  closed = false;
  seen = [];
  gw_refreshing = false;
  routes = [];
  allowed = [];
}
