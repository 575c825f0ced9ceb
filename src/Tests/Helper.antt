-- ===== src/Tests/Helper.antt =====
-- The privileged helper of cmd/bacchus-netd at concrete inputs: a machine that is its firewall table and
-- its /etc/resolv.conf, on which every call works.
use bacchus.Shared.{
  ℕ, ◌≡◌, ◌≢◌, ◌⊎◌, refl, List, [], ◌∷◌, Bool, true, false, Option, none, some, Bytes, codes, arith,
}
use bacchus.Ranges.{Addr}
use bacchus.Netd
use bacchus.Netd.{
  Kernel, Session, Request, GatewayInfo, Stat, Verb, no_dns, new_session, subtle_compare,
}
use bacchus.Netd.Parse.{Parser}
use bacchus.Netd.Dns.{
  mode_644, capture_dns, release_dns, tun_dns_sink, capture_via_resolv_conf, resolv_body,
}
use bacchus.Netd.Dns.Restore.{Found, absent, link, regular, stat_of, Files, capture_release}
use bacchus.Netd.Frame.{Firewall}
use bacchus.Netd.Lockdown.{handle_disable_kill_switch}
use bacchus.Netd.Serve.{
  dispatch, authorize, serve_verb, client_gone, step, run, Event, asked, malformed, gone,
  check_peer, uid_has_active_session, published, state_lines,
}
use bacchus.Netd.Serve.Token.{stranger_changes_nothing}
use bacchus.Netd.Serve.Held.{
  MayLift, lift_needs_token, lockdown_outlives_client, bystander_lifts_lockdown,
}
use bacchus.Netd.Serve.Invariant.Reached.{IsHelper, run-IsHelper}
use bacchus.Admission.{has_prefix}
use bacchus.Version.{split}

record Machine : Type 0 where
  locked : Bool
  resolv : Found

abbrev v4 : ℕ → Addr
v4 n = record { is4 = true; value = n }

abbrev text_of : Found → Option Bytes
text_of (regular c m) = some c
text_of _ = none

abbrev target_of : Found → Option Bytes
target_of (link t) = some t
target_of _ = none

abbrev gateway_info : GatewayInfo
gateway_info = record {
  next_hop = v4 3_232_235_777;
  if_index = 2;
  if_name = codes "eth0";
  next_hop_v6 = none;
}

abbrev mint : Bytes
mint = codes "t1"

abbrev kernel : Kernel Machine
kernel = record {
  nl_get = λ w. true;
  nft_dial = λ w. true;
  table_exists = λ w. some w.locked;
  delete_table = λ w. (true, record w { locked = false });
  enable_kill_switch = λ s w. (true, record w { locked = true });
  refresh_allow_ip = λ a w. (true, w);
  withdraw_allowance = λ a w. (true, w);
  list_own_routes = λ w. some [];
  add_route = λ r w. (true, w);
  del_route = λ p w. (true, w);
  add_fib_rule = λ f w. (true, w);
  del_fib_rule = λ f w. (true, w);
  add_served_rule = λ a u w. (true, w);
  del_served_rule = λ w. (true, w);
  default_gateway = λ w. some gateway_info;
  physical_source = λ g w. some (v4 3_232_235_778);
  create_tun = λ w. (some 7, w);
  add_addr = λ i p w. (true, w);
  set_link_up = λ i w. (true, w);
  loopback_index = λ w. some 1;
  read_ipv6_disabled = λ n w. some (codes "0");
  write_ipv6_disabled = λ n v w. (true, w);
  rand_token = λ w. (some mint, w);
  bus_ready = λ w. false;
  resolved_running = λ w. false;
  set_link_dns = λ i a w. (true, w);
  set_link_domains = λ i w. (true, w);
  link_default_route = λ i w. some true;
  set_link_default_route = λ i b w. (true, w);
  revert_link = λ i w. (true, w);
  lstat = λ w. stat_of w.resolv;
  readlink = λ w. target_of w.resolv;
  read_file = λ w. text_of w.resolv;
  replace_file = λ c m w. (true, record w { resolv = regular c m });
  remove_file = λ w. (true, record w { resolv = absent });
  symlink = λ t w. (true, record w { resolv = link t });
}

abbrev is_locked : Machine → Bool
is_locked w = w.locked

firewall : Firewall kernel is_locked
firewall = record {
  exists_lem = λ w b e. ground arith;
  refresh_lem = λ a w. refl;
  withdraw_lem = λ a w. refl;
  add_route_lem = λ r w. refl;
  del_route_lem = λ p w. refl;
  add_fib_lem = λ f w. refl;
  del_fib_lem = λ f w. refl;
  add_served_lem = λ a u w. refl;
  del_served_lem = λ w. refl;
  create_tun_lem = λ w. refl;
  add_addr_lem = λ i p w. refl;
  link_up_lem = λ i w. refl;
  ipv6_lem = λ n v w. refl;
  token_lem = λ w. refl;
  link_dns_lem = λ i a w. refl;
  domains_lem = λ i w. refl;
  default_lem = λ i b w. refl;
  revert_lem = λ i w. refl;
  replace_lem = λ c m w. refl;
  remove_lem = λ w. refl;
  symlink_lem = λ t w. refl;
}

abbrev file : Machine → Found
file w = w.resolv

files : Files kernel file
files = record {
  lstat_lem = λ w. refl;
  readlink_lem = λ w t e. rw e refl;
  read_lem = λ w c m e. rw e refl;
  replace_ok = λ c m w. refl;
  replace_lem = λ c m w. refl;
  remove_ok = λ w. refl;
  remove_lem = λ w. refl;
  symlink_lem = λ t w e. refl;
}

abbrev parser : Parser
parser = record { trim_space = λ s. s; parse_addr = λ s. some (v4 1); parse_prefix = λ s. none }

abbrev to_text : Addr → Bytes
to_text a = codes "10.0.0.53"

abbrev armed_machine : Machine
armed_machine = record { locked = true; resolv = absent }

abbrev session : Session
session = record (new_session (codes "secret") 1000) {
  tun_index = 7;
  tun_addr = some (v4 167_772_162);
  kill_switch_armed = true;
}

abbrev request : Verb → Bytes → Request
request v tok = record {
  verb = v;
  token = tok;
  prefixes = [];
  control = [];
  bypass = [];
  addr = codes "10.0.0.2";
  prefix_len = some 24;
  ip = [];
}

abbrev disarm : Request
disarm = request Verb.disable_kill_switch (codes "secret")

abbrev guess : Request
guess = request Verb.disable_kill_switch (codes "guess")

stranger_changes_nothing_example :
    let (r, h', w') = dispatch kernel parser to_text 1001 guess (some session) armed_machine in
    (((◌≡◌ {A = Option Session} (some session) none) × (guess.verb ≡ Verb.begin))
      ⊎ ((h' ≡ some session) × (w' ≡ armed_machine)))
    × ((guess.verb ≢ Verb.begin)
        ⊎ (◌≡◌ {A = Option Session} (some session) none)
        ⊎ (r ≡ Netd.failed Netd.busy))
stranger_changes_nothing_example =
    stranger_changes_nothing kernel parser to_text 1001 guess (some session) armed_machine (cc)

disarmed :
    is_locked (dispatch kernel parser to_text 1000 disarm (some session) armed_machine).2 ≡ false
unfolding dispatch authorize subtle_compare serve_verb handle_disable_kill_switch
disarmed = refl

lift_needs_token_example : MayLift kernel parser to_text is_locked firewall disarm (some session)
lift_needs_token_example =
    lift_needs_token kernel parser to_text is_locked firewall 1000 disarm (some session)
      armed_machine refl disarmed

abbrev later : List Event
later = asked 1001 guess true ∷ malformed ∷ gone ∷ []

lockdown_outlives_client_example :
    let (h', w') = client_gone kernel parser to_text (some session) armed_machine in
    (h' ≡ none)
    × (is_locked w' ≡ is_locked armed_machine)
    × (run kernel parser to_text later (h', w') ≡ (none, w'))
lockdown_outlives_client_example =
    lockdown_outlives_client kernel parser to_text is_locked firewall (some session) armed_machine
      later ((cc), (tt, (tt, tt)))

abbrev start : Request
start = request Verb.begin []

bystander_lifts_lockdown_example :
    let (h1, w1) = step kernel parser to_text gone (some session, armed_machine) in
    let (r, h2, w2) = dispatch kernel parser to_text 1001 start h1 w1 in
    (h2 ≡ some (new_session mint 1001)) × (is_locked w2 ≡ false)
bystander_lifts_lockdown_example =
    bystander_lifts_lockdown kernel parser to_text is_locked firewall 1001 start session
      armed_machine mint refl (λ v. refl) (λ v. refl) (λ v. refl) (λ v. refl) refl

abbrev events : List Event
events =
    asked 1000 start true
    ∷ asked 1000 (request Verb.create_tun mint) true
    ∷ asked 1000 (request Verb.configure_tun mint) true
    ∷ asked 1000 (request Verb.enable_kill_switch mint) true
    ∷ []

run-IsHelper_example :
    let (h', w') = run kernel parser to_text events (none, armed_machine) in IsHelper h'
run-IsHelper_example =
    run-IsHelper kernel parser to_text (λ w i e. ground arith) events none armed_machine tt

abbrev found_machine : Machine
found_machine = record { locked = false; resolv = regular (codes "nameserver 9.9.9.9") mode_644 }

abbrev configured : Session
configured = record (new_session (codes "secret") 1000) {
  tun_index = 7;
  tun_addr = some (v4 167_772_162);
}

abbrev after_capture : Session
after_capture = record configured {
  dns = record no_dns {
    captured = true;
    resolv_content = some (codes "nameserver 9.9.9.9");
    resolv_mode = mode_644;
  };
}

captured_so : after_capture.dns ≡ (capture_dns kernel to_text configured found_machine).1.dns
unfolding capture_dns capture_via_resolv_conf
captured_so = refl

capture_release_example :
    let (done, s', w') = capture_dns kernel to_text configured found_machine in
    let (t', v') = release_dns kernel to_text after_capture armed_machine in
    (done ≡ true)
    × (file w' ≡ regular (resolv_body to_text (tun_dns_sink (v4 167_772_162))) mode_644)
    × (t'.dns ≡ no_dns)
    × (file v' ≡ file found_machine)
capture_release_example =
    capture_release kernel to_text file files configured after_capture found_machine armed_machine
      (v4 167_772_162) (omega arith) refl refl refl refl captured_so

-- A uid that only lingers is not let in; one that is logged in is.
lingering_refused :
    check_peer false (uid_has_active_session (λ s. s) (published (codes "NAME=a"))) ≡ false
unfolding check_peer uid_has_active_session state_lines has_prefix split
lingering_refused = refl
