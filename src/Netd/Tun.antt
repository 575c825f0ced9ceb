-- ===== src/Netd/Tun.antt =====
-- cmd/bacchus-netd/server.go: the TUN device, its address, and the two routes that send everything to it.
use bacchus.Shared.{
  ℕ, Bool, true, false, not, ◌&&◌, Option, none, some, leb, ◌==◌, ◌^◌, if◌then◌else◌,
}
use bacchus.Ranges.{Addr}
use bacchus.Netd.{
  Kernel, Session, Request, Reply, done, failed, tun_created, bad_request, internal, Prefix, inet,
}
use bacchus.Netd.Parse.{Parser}

abbrev pub lower_half : Prefix
lower_half = record { addr = record { is4 = true; value = 0 }; bits = 1 }

abbrev pub upper_half : Prefix
upper_half = record { addr = record { is4 = true; value = 2 ^ 31 }; bits = 1 }

abbrev pub addr_eq : Addr → Addr → Bool
addr_eq a b = if a.is4 then b.is4 && a.value == b.value else not b.is4 && a.value == b.value

module _ {W : Type 0} (K : Kernel W) where
  abbrev pub with_tun : Session → Option ℕ × W → Reply × Session × W
  with_tun s (none, w) = (failed internal, s, w)
  with_tun s (some index, w) = (tun_created, record s { tun_index = index }, w)

  unfoldable pub handle_create_tun : Session → W → Reply × Session × W
  handle_create_tun s w = with_tun s (K.create_tun w)

  abbrev pub after_up : Session → Addr → Bool × W → Reply × Session × W
  after_up s a (false, w) = (failed internal, s, w)
  after_up s a (true, w) = (done, record s { tun_addr = some a }, w)

  abbrev pub after_link : Session → Addr → Bool × W → Reply × Session × W
  after_link s a (false, w) = (failed internal, s, w)
  after_link s a (true, w) = after_up s a (K.add_fib_rule inet w)

  abbrev pub after_addr : Session → Addr → Bool × W → Reply × Session × W
  after_addr s a (false, w) = (failed internal, s, w)
  after_addr s a (true, w) = after_link s a (K.set_link_up s.tun_index w)

  unfoldable pub assign_addr : Session → Addr → ℕ → W → Reply × Session × W
  assign_addr s a n w =
      if K.nl_get w
      then after_addr s a (K.add_addr s.tun_index (record { addr = a; bits = n }) w)
      else (failed internal, s, w)

  abbrev pub with_len : Session → Addr → W → Option ℕ → Reply × Session × W
  with_len s a w none = (failed bad_request, s, w)
  with_len s a w (some n) = if leb n 32 then assign_addr s a n w else (failed bad_request, s, w)

  abbrev pub with_addr : Session → Request → W → Option Addr → Reply × Session × W
  with_addr s req w none = (failed bad_request, s, w)
  with_addr s req w (some a) =
      if a.is4 then with_len s a w req.prefix_len else (failed bad_request, s, w)

  unfoldable pub handle_configure_tun : Parser → Session → Request → W → Reply × Session × W
  handle_configure_tun P s req w =
      if s.tun_index == 0
      then (failed bad_request, s, w)
      else with_addr s req w (P.parse_addr req.addr)

  abbrev pub after_upper : Bool × W → Reply × W
  after_upper (false, w) = (failed internal, w)
  after_upper (true, w) = (done, w)

  abbrev pub after_lower : ℕ → Bool × W → Reply × W
  after_lower index (false, w) = (failed internal, w)
  after_lower index (true, w) =
      after_upper (K.add_route (record { dst = upper_half; gateway = none; out_iface = index }) w)

  unfoldable pub split_default : ℕ → W → Reply × W
  split_default index w =
      if K.nl_get w
      then after_lower index
          (K.add_route (record { dst = lower_half; gateway = none; out_iface = index }) w)
      else (failed internal, w)

  abbrev pub with_claimed : Session → W → Addr → Option Addr → Reply × W
  with_claimed s w ours none = (failed bad_request, w)
  with_claimed s w ours (some a) =
      if addr_eq a ours then split_default s.tun_index w else (failed bad_request, w)

  abbrev pub with_ours : Parser → Session → Request → W → Option Addr → Reply × W
  with_ours P s req w none = (failed bad_request, w)
  with_ours P s req w (some ours) = with_claimed s w ours (P.parse_addr req.addr)

  unfoldable pub handle_split_default_route : Parser → Session → Request → W → Reply × W
  handle_split_default_route P s req w =
      if s.tun_index == 0 then (failed bad_request, w) else with_ours P s req w s.tun_addr
