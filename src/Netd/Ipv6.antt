-- ===== src/Netd/Ipv6.antt =====
-- cmd/bacchus-netd/server.go: IPv6 is turned off on the physical interface and put back.
use bacchus.Shared.{
  [], Bool, true, false, Option, none, some, Bytes, codes, length, ◌==◌, if◌then◌else◌,
}
use bacchus.Netd.{Kernel, Session, GatewayInfo}

-- The setting that turns IPv6 off.
abbrev pub off : Bytes
off = codes "1"

module _ {W : Type 0} (K : Kernel W) where
  -- Only the first value is remembered.
  abbrev pub remember : Session → Bytes → Bytes → Session
  remember s name prior =
      if length s.ipv6_for == 0 then record s { ipv6_for = name; ipv6_was = prior } else s

  abbrev pub after_off : Session → Bytes → Bytes → Bool × W → Session × W
  after_off s name prior (false, w) = (s, w)
  after_off s name prior (true, w) = (remember s name prior, w)

  abbrev pub with_prior : Session → Bytes → W → Option Bytes → Session × W
  with_prior s name w none = (s, w)
  with_prior s name w (some prior) = after_off s name prior (K.write_ipv6_disabled name off w)

  abbrev pub on_gateway : Session → W → Option GatewayInfo → Session × W
  on_gateway s w none = (s, w)
  on_gateway s w (some g) = with_prior s g.if_name w (K.read_ipv6_disabled g.if_name w)

  -- Every branch answers OK.
  unfoldable pub handle_disable_ipv6 : Session → W → Session × W
  handle_disable_ipv6 s w = on_gateway s w s.gw

  unfoldable pub restore_ipv6 : Session → W → W
  restore_ipv6 s w =
      if length s.ipv6_for == 0 then w else (K.write_ipv6_disabled s.ipv6_for s.ipv6_was w).1

  unfoldable pub handle_enable_ipv6 : Session → W → Session × W
  handle_enable_ipv6 s w = (record s { ipv6_for = []; ipv6_was = [] }, restore_ipv6 s w)
