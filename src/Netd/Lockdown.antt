-- ===== src/Netd/Lockdown.antt =====
-- cmd/bacchus-netd/server.go: the kill switch, a table of the firewall that is the helper's by name.
use bacchus.Shared.{
  ℕ, List, [], ◌∷◌, ◌++◌, Bool, true, false, not, ◌&&◌, Option, none, some, Bytes, ◌==◌,
  if◌then◌else◌, Result, ok, err, ◌*◌, ◌^◌,
}
use bacchus.Ranges.{Addr}
use bacchus.Netd.{
  Kernel, Session, Request, Reply, done, failed, Code, bad_request, internal, Prefix,
  KillSwitchSpec,
}
use bacchus.Netd.Parse.{Parser, Parsed, host, net, parse_host_or_prefix}
use bacchus.Netd.Routes.{reap_routes}

-- The hosts and the networks of the allowlist, in the order of the texts.
abbrev pub Allowed : Type 0
Allowed = List Addr × List Prefix

abbrev add_allowed : Parsed → Allowed → Allowed
add_allowed (host a) (hosts, nets) = (a ∷ hosts, nets)
add_allowed (net p) (hosts, nets) = (hosts, p ∷ nets)

abbrev allow_row : Result Code Parsed → Result Code Allowed → Result Code Allowed
allow_row (err c) rest = err c
allow_row (ok p) (err c) = err c
allow_row (ok p) (ok rest) = ok (add_allowed p rest)

unfoldable pub allowlist : Parser → List Bytes → Result Code Allowed
allowlist P [] = ok ([], [])
allowlist P (e ∷ es) = allow_row (parse_host_or_prefix P e) (allowlist P es)

abbrev pub loopback_net : Prefix
loopback_net = record { addr = record { is4 = true; value = 127 * 2 ^ 24 }; bits = 8 }

module _ {W : Type 0} (K : Kernel W) where
  abbrev is_armed : Option Bool → Bool
  is_armed none = false
  is_armed (some b) = b

  abbrev clear_stale : W → W
  clear_stale w = if is_armed (K.table_exists w) then (K.delete_table w).1 else w

  abbrev after_enable : Session → Bool × W → Reply × Session × W
  after_enable s (false, w) = (failed internal, s, (K.delete_table w).1)
  after_enable s (true, w) = (done, record s { kill_switch_armed = true }, w)

  unfoldable pub arm : Session → KillSwitchSpec → W → Reply × Session × W
  arm s spec w =
      if K.nft_dial w
      then after_enable s (K.enable_kill_switch spec (clear_stale w))
      else (failed internal, s, w)

  abbrev with_allowed : Session → ℕ → W → Result Code Allowed → Reply × Session × W
  with_allowed s lo w (err c) = (failed c, s, w)
  with_allowed s lo w (ok (hosts, nets)) =
      arm s
        (record {
          tun_if_index = s.tun_index;
          lo_if_index = lo;
          hosts = hosts;
          nets = nets ++ (loopback_net ∷ []);
          served_src = s.served_src;
        })
        w

  abbrev with_loopback : Parser → Session → Request → W → Option ℕ → Reply × Session × W
  with_loopback P s req w none = (failed internal, s, w)
  with_loopback P s req w (some lo) = with_allowed s lo w (allowlist P (req.control ++ req.bypass))

  unfoldable pub handle_enable_kill_switch : Parser → Session → Request → W → Reply × Session × W
  handle_enable_kill_switch P s req w =
      if s.tun_index == 0
      then (failed bad_request, s, w)
      else with_loopback P s req w (K.loopback_index w)

  -- Answers OK on every branch, as do `recover` and `refresh` past their parsing.
  unfoldable pub handle_disable_kill_switch : Session → W → Session × W
  handle_disable_kill_switch s w =
      if K.nft_dial w
      then (record s { kill_switch_armed = false }, (K.delete_table w).1)
      else (s, w)

  unfoldable pub handle_recover_kill_switch : Session → W → W
  handle_recover_kill_switch s w =
      if K.nft_dial w && (is_armed (K.table_exists w) && not s.kill_switch_armed)
      then reap_routes K (K.delete_table w).1
      else w

  abbrev pub with_ip : W → Option Addr → Reply × W
  with_ip w none = (failed bad_request, w)
  with_ip w (some a) =
      if a.is4
      then (done, if K.nft_dial w then (K.refresh_allow_ip a w).1 else w)
      else (failed bad_request, w)

  unfoldable pub handle_refresh_allow_ip : Parser → Session → Request → W → Reply × W
  handle_refresh_allow_ip P s req w =
      if s.kill_switch_armed then with_ip w (P.parse_addr req.ip) else (done, w)
