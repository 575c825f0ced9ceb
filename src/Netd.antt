-- ===== src/Netd.antt =====
-- cmd/bacchus-netd: the privileged helper that changes routes, the firewall and the resolver for one
-- client at a time. This module holds the helper's data; `Serve` is its front door. What nft.go,
-- rtnetlink.go, tundev.go and the D-Bus library ask of the kernel and of systemd-resolved is the
-- argument `Kernel`, over a type `W` of the states of the machine. Requests are taken one at a time,
-- and file descriptors, deadlines and the texts of errors and log lines are left out.
pub mod Parse
pub mod Dns
pub mod Routes
pub mod Tun
pub mod Ipv6
pub mod Lockdown
pub mod Served
pub mod Frame
pub mod Serve
use bacchus.Shared.{
  ℕ, List, Bool, true, false, Option, none, some, Bytes, [], ◌∷◌, ◌&&◌, length, ◌==◌, if◌then◌else◌,
}
use bacchus.Ranges.{Addr}

pub record Prefix : Type 0 where
  pub addr : Addr
  pub bits : ℕ

pub record GatewayInfo : Type 0 where
  pub next_hop : Addr
  pub if_index : ℕ
  pub if_name : Bytes
  pub next_hop_v6 : Option Addr

pub record RouteSpec : Type 0 where
  pub dst : Prefix
  pub gateway : Option Addr
  pub out_iface : ℕ

pub record KillSwitchSpec : Type 0 where
  pub tun_if_index : ℕ
  pub lo_if_index : ℕ
  pub hosts : List Addr
  pub nets : List Prefix
  pub served_src : Option Addr

-- What `/etc/resolv.conf` is.
pub data Stat : Type 0 where
  is_link is_absent stat_failed : Stat
  is_file : ℕ → Stat

pub data Family : Type 0 where
  inet inet6 : Family

-- One call each: `true` beside the new state is a nil error, and `none` is an error.
pub record Kernel (W : Type 0) : Type 0 where
  pub nl_get : W → Bool
  pub nft_dial : W → Bool
  pub table_exists : W → Option Bool
  pub delete_table : W → Bool × W
  pub enable_kill_switch : KillSwitchSpec → W → Bool × W
  pub refresh_allow_ip : Addr → W → Bool × W
  pub withdraw_allowance : Addr → W → Bool × W
  pub list_own_routes : W → Option (List Prefix)
  pub add_route : RouteSpec → W → Bool × W
  pub del_route : Prefix → W → Bool × W
  pub add_fib_rule : Family → W → Bool × W
  pub del_fib_rule : Family → W → Bool × W
  pub add_served_rule : Addr → ℕ → W → Bool × W
  pub del_served_rule : W → Bool × W
  pub default_gateway : W → Option GatewayInfo
  pub physical_source : GatewayInfo → W → Option Addr
  pub create_tun : W → Option ℕ × W
  pub add_addr : ℕ → Prefix → W → Bool × W
  pub set_link_up : ℕ → W → Bool × W
  pub loopback_index : W → Option ℕ
  pub read_ipv6_disabled : Bytes → W → Option Bytes
  pub write_ipv6_disabled : Bytes → Bytes → W → Bool × W
  pub rand_token : W → Option Bytes × W
  pub bus_ready : W → Bool
  pub resolved_running : W → Bool
  pub set_link_dns : ℕ → Addr → W → Bool × W
  pub set_link_domains : ℕ → W → Bool × W
  pub link_default_route : ℕ → W → Option Bool
  pub set_link_default_route : ℕ → Bool → W → Bool × W
  pub revert_link : ℕ → W → Bool × W
  pub lstat : W → Stat
  pub readlink : W → Option Bytes
  pub read_file : W → Option Bytes
  pub replace_file : Bytes → ℕ → W → Bool × W
  -- A file that is not there counts as removed.
  pub remove_file : W → Bool × W
  pub symlink : Bytes → W → Bool × W

pub record DnsState : Type 0 where
  pub captured : Bool
  pub via_resolved : Bool
  pub tun_index : ℕ
  pub phys_index : ℕ
  pub phys_default_route : Bool
  pub resolv_was_symlink : Bool
  pub resolv_target : Bytes
  -- `none` is the nil slice.
  pub resolv_content : Option Bytes
  pub resolv_mode : ℕ

abbrev pub no_dns : DnsState
no_dns = record {
  captured = false;
  via_resolved = false;
  tun_index = 0;
  phys_index = 0;
  phys_default_route = false;
  resolv_was_symlink = false;
  resolv_target = [];
  resolv_content = none;
  resolv_mode = 0;
}

-- `gw` is `none` until `haveGW`; an invalid address is `none`.
pub record Session : Type 0 where
  pub token : Bytes
  pub uid : ℕ
  pub tun_index : ℕ
  pub tun_addr : Option Addr
  pub gw : Option GatewayInfo
  pub ipv6_for : Bytes
  pub ipv6_was : Bytes
  pub dns : DnsState
  pub kill_switch_armed : Bool
  pub served_src : Option Addr

abbrev pub new_session : Bytes → ℕ → Session
new_session tok uid = record {
  token = tok;
  uid = uid;
  tun_index = 0;
  tun_addr = none;
  gw = none;
  ipv6_for = [];
  ipv6_was = [];
  dns = no_dns;
  kill_switch_armed = false;
  served_src = none;
}

pub data Verb : Type 0 where
  begin close default_gateway add_exclusion_routes add_exclusion_routes_v6 add_inclusion_routes
        remove_routes create_tun configure_tun add_split_default_route disable_physical_ipv6
        enable_physical_ipv6 enable_kill_switch disable_kill_switch recover_kill_switch
        refresh_allow_ip capture_dns release_dns allow_served_egress revoke_served_egress unknown :
      Verb

pub data Code : Type 0 where
  bad_request unknown_verb no_session bad_token busy denied internal : Code

-- `prefix_len` is `none` below 0.
pub record Request : Type 0 where
  pub verb : Verb
  pub token : Bytes
  pub prefixes : List Bytes
  pub control : List Bytes
  pub bypass : List Bytes
  pub addr : Bytes
  pub prefix_len : Option ℕ
  pub ip : Bytes

pub data Reply : Type 0 where
  done tun_created : Reply
  opened : Bytes → Reply
  gateway : GatewayInfo → Reply
  served_source : Addr → Reply
  failed : Code → Reply

-- Of the bits in which two bytes differ, `v` keeps only whether there are any.
compare_loop : Bool → Bytes → Bytes → Bool
compare_loop v [] _ = v
compare_loop v (a ∷ as') [] = v
compare_loop v (a ∷ as') (b ∷ bs) = compare_loop (v && a == b) as' bs

unfoldable pub subtle_compare : Bytes → Bytes → Bool
unfolding compare_loop
subtle_compare a b =
    let same = compare_loop true a b in if length a == length b then same else false
