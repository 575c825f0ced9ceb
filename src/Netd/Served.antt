-- ===== src/Netd/Served.antt =====
-- cmd/bacchus-netd/server.go: the machine's own egress is carved out of the tunnel while it serves others.
use bacchus.Shared.{Bool, true, false, Option, none, some, if◌then◌else◌}
use bacchus.Ranges.{Addr}
use bacchus.Netd.{Kernel, Session, Reply, failed, served_source, bad_request, internal, GatewayInfo}

module _ {W : Type 0} (K : Kernel W) where
  abbrev pub after_rule : Session → Addr → Bool × W → Reply × Session × W
  after_rule s src (false, w) = (failed internal, s, w)
  after_rule s src (true, w) = (served_source src, record s { served_src = some src }, w)

  abbrev pub from_source : Session → W → Option Addr → Reply × Session × W
  from_source s w none = (failed internal, s, w)
  from_source s w (some src) = after_rule s src (K.add_served_rule src s.uid w)

  abbrev pub from_gateway : Session → W → Option GatewayInfo → Reply × Session × W
  from_gateway s w none = (failed internal, s, w)
  from_gateway s w (some g) = from_source s w (K.physical_source g w)

  unfoldable pub handle_allow_served_egress : Session → W → Reply × Session × W
  handle_allow_served_egress s w =
      if s.kill_switch_armed
      then (failed bad_request, s, w)
      else if K.nl_get w
      then from_gateway s w (K.default_gateway w)
      else (failed internal, s, w)

  abbrev withdraw : Addr → W → W
  withdraw src w = if K.nft_dial w then (K.withdraw_allowance src w).1 else w

  abbrev pub revoke_at : Session → W → Option Addr → Session × W
  revoke_at s w none = (s, w)
  revoke_at s w (some src) = (
    record s { served_src = none },
    withdraw src (if K.nl_get w then (K.del_served_rule w).1 else w),
  )

  unfoldable pub revoke_served_egress : Session → W → Session × W
  revoke_served_egress s w = revoke_at s w s.served_src
