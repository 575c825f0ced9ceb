-- ===== src/Netd/Serve.antt =====
-- cmd/bacchus-netd/server.go: who may speak to the helper, its one session, and the verbs. `none` is the
-- nil session. Any number of connections are served at a time; `Event` is what happens on one of them.
pub mod Token
pub mod Held
pub mod Invariant
use bacchus.Shared.{
  ℕ, List, [], ◌∷◌, Bool, true, false, not, ◌&&◌, Option, none, some, Bytes, length, ◌==◌,
  if◌then◌else◌, Result, ok, err, codes, bytes_eq,
}
use bacchus.Ranges.{Addr}
use bacchus.Admission.{has_prefix}
use bacchus.Version.{split}
use bacchus.Netd.{
  Kernel, Session, new_session, Request, Verb, Reply, done, opened, failed, bad_request,
  unknown_verb, no_session, bad_token, busy, denied, internal, subtle_compare,
}
use bacchus.Netd.Parse.{Parser}
use bacchus.Netd.Dns.{capture_dns, release_dns}
use bacchus.Netd.Routes.{
  reap_routes, handle_default_gateway, handle_exclusion_routes, handle_inclusion_routes,
  handle_remove_routes,
}
use bacchus.Netd.Tun.{handle_create_tun, handle_configure_tun, handle_split_default_route}
use bacchus.Netd.Ipv6.{handle_disable_ipv6, handle_enable_ipv6, restore_ipv6}
use bacchus.Netd.Lockdown.{
  handle_enable_kill_switch, handle_disable_kill_switch, handle_recover_kill_switch,
  handle_refresh_allow_ip,
}
use bacchus.Netd.Served.{handle_allow_served_egress, revoke_served_egress}

abbrev state_key : Bytes
state_key = codes "STATE="

abbrev after_state : (Bytes → Bytes) → Bytes → Bool
after_state trim v =
    let s = trim v in if bytes_eq s (codes "active") then true else bytes_eq s (codes "online")

unfoldable pub drop_key : Bytes → Bytes → Bytes
drop_key [] s = s
drop_key (k ∷ ks) [] = []
drop_key (k ∷ ks) (c ∷ s) = drop_key ks s

-- The first line that says the state decides.
unfoldable pub state_lines : (Bytes → Bytes) → List Bytes → Bool
unfolding drop_key
state_lines trim [] = false
state_lines trim (l ∷ ls) =
    let rest = state_lines trim ls in
    if has_prefix l state_key then after_state trim (drop_key state_key l) else rest

-- What logind has published: its directory may be missing, the user's file absent or not readable.
pub data Logind : Type 0 where
  not_running never_seen unreadable : Logind
  published : Bytes → Logind

-- `none` is an error.
unfoldable pub uid_has_active_session : (Bytes → Bytes) → Logind → Option Bool
uid_has_active_session trim not_running = none
uid_has_active_session trim never_seen = some false
uid_has_active_session trim unreadable = none
uid_has_active_session trim (published text) = some (state_lines trim (split 10 text))

unfoldable pub check_peer : Bool → Option Bool → Bool
check_peer allow_no_login none = allow_no_login
check_peer allow_no_login (some active) = active

unfoldable pub authorize : Request → Option Session → Result Reply Session
authorize req none = err (failed no_session)
authorize req (some s) =
    if length req.token == 0
    then err (failed bad_token)
    else if subtle_compare req.token s.token
    then ok s
    else err (failed bad_token)

module _ {W : Type 0} (K : Kernel W) (P : Parser) (to_text : Addr → Bytes) where
  abbrev lift_orphan : W → Option Bool → W
  lift_orphan w (some true) = (K.delete_table w).1
  lift_orphan w _ = w

  unfoldable pub reap_orphan : W → W
  reap_orphan w = reap_routes K (if K.nft_dial w then lift_orphan w (K.table_exists w) else w)

  abbrev pub with_token : ℕ → Option Bytes × W → Reply × Option Session × W
  with_token uid (none, w) = (failed internal, none, w)
  with_token uid (some tok, w) = (opened tok, some (new_session tok uid), w)

  unfoldable pub handle_open : ℕ → Option Session → W → Reply × Option Session × W
  handle_open uid (some s) w = (failed busy, some s, w)
  handle_open uid none w = with_token uid (K.rand_token (reap_orphan w))

  unfoldable pub handle_close : Request → Option Session → W → Reply × Option Session × W
  handle_close req none w = (done, none, w)
  handle_close req (some s) w =
      if subtle_compare req.token s.token
      then (done, none, (release_dns K to_text s w).1)
      else (failed bad_token, some s, w)

  abbrev pub kept : Session → Reply × W → Reply × Session × W
  kept s (r, w) = (r, s, w)

  abbrev pub answered : Reply → Session × W → Reply × Session × W
  answered r (s, w) = (r, s, w)

  abbrev pub dns_reply : Bool × Session × W → Reply × Session × W
  dns_reply (true, s, w) = (done, s, w)
  dns_reply (false, s, w) = (failed internal, s, w)

  abbrev gateway_reply : W → Reply × Session → Reply × Session × W
  gateway_reply w (r, s) = (r, s, w)

  -- The second `switch` of `dispatch`.
  unfoldable pub serve_verb : Session → Request → W → Verb → Reply × Session × W
  serve_verb s req w Verb.begin = (failed unknown_verb, s, w)
  serve_verb s req w Verb.close = (failed unknown_verb, s, w)
  serve_verb s req w Verb.default_gateway = gateway_reply w (handle_default_gateway K s w)
  serve_verb s req w Verb.add_exclusion_routes = kept s (handle_exclusion_routes K P s req false w)
  serve_verb s req w Verb.add_exclusion_routes_v6 =
      kept s (handle_exclusion_routes K P s req true w)
  serve_verb s req w Verb.add_inclusion_routes = kept s (handle_inclusion_routes K P s req w)
  serve_verb s req w Verb.remove_routes = kept s (handle_remove_routes K P req w)
  serve_verb s req w Verb.create_tun = handle_create_tun K s w
  serve_verb s req w Verb.configure_tun = handle_configure_tun K P s req w
  serve_verb s req w Verb.add_split_default_route = kept s (handle_split_default_route K P s req w)
  serve_verb s req w Verb.disable_physical_ipv6 = answered done (handle_disable_ipv6 K s w)
  serve_verb s req w Verb.enable_physical_ipv6 = answered done (handle_enable_ipv6 K s w)
  serve_verb s req w Verb.enable_kill_switch = handle_enable_kill_switch K P s req w
  serve_verb s req w Verb.disable_kill_switch = answered done (handle_disable_kill_switch K s w)
  serve_verb s req w Verb.recover_kill_switch = (done, s, handle_recover_kill_switch K s w)
  serve_verb s req w Verb.refresh_allow_ip = kept s (handle_refresh_allow_ip K P s req w)
  serve_verb s req w Verb.capture_dns = dns_reply (capture_dns K to_text s w)
  serve_verb s req w Verb.release_dns = answered done (release_dns K to_text s w)
  serve_verb s req w Verb.allow_served_egress = handle_allow_served_egress K s w
  serve_verb s req w Verb.revoke_served_egress = answered done (revoke_served_egress K s w)
  serve_verb s req w Verb.unknown = (failed unknown_verb, s, w)

  abbrev held : Reply × Session × W → Reply × Option Session × W
  held (r, s, w) = (r, some s, w)

  abbrev authorized :
      Request → Option Session → W → Result Reply Session → Reply × Option Session × W
  authorized req h w (err r) = (r, h, w)
  authorized req h w (ok s) = held (serve_verb s req w req.verb)

  abbrev by_verb : ℕ → Request → Option Session → W → Verb → Reply × Option Session × W
  by_verb uid req h w Verb.begin = handle_open uid h w
  by_verb uid req h w Verb.close = handle_close req h w
  by_verb uid req h w other = authorized req h w (authorize req h)

  unfoldable pub dispatch : ℕ → Request → Option Session → W → Reply × Option Session × W
  dispatch uid req h w = by_verb uid req h w req.verb

  -- DNS and the carve-out are undone on both paths.
  abbrev left : Session × W → W
  left (s, w) = if s.kill_switch_armed then w else restore_ipv6 K s (reap_routes K w)

  abbrev orphan : Session × W → W
  orphan (s, w) = left (revoke_served_egress K s w)

  unfoldable pub client_gone : Option Session → W → Option Session × W
  client_gone none w = (none, w)
  client_gone (some s) w = (none, orphan (release_dns K to_text s w))

-- On one connection: a request and whether its answer could be written, a frame that could not be read as
-- a request, or the end of the connection.
pub data Event : Type 0 where
  asked : ℕ → Request → Bool → Event
  malformed gone : Event

module _ {W : Type 0} (K : Kernel W) (P : Parser) (to_text : Addr → Bytes) where
  abbrev after_reply : Bool → Reply × Option Session × W → Option Session × W
  after_reply true (r, h, w) = (h, w)
  after_reply false (r, h, w) = client_gone K P to_text h w

  unfoldable pub step : Event → Option Session × W → Option Session × W
  step (asked uid req sent) (h, w) = after_reply sent (dispatch K P to_text uid req h w)
  step malformed (h, w) = (h, w)
  step gone (h, w) = client_gone K P to_text h w

  unfoldable pub run : List Event → Option Session × W → Option Session × W
  run [] st = st
  run (e ∷ es) st = run es (step e st)
