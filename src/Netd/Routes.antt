-- ===== src/Netd/Routes.antt =====
-- cmd/bacchus-netd/server.go: the routes of the helper's own table.
use bacchus.Shared.{
  ℕ, List, [], ◌∷◌, ◌++◌, Bool, true, false, Option, none, some, ◌==◌, if◌then◌else◌, Result, ok,
  err,
}
use bacchus.Ranges.{Addr}
use bacchus.Netd.{
  Kernel, Session, Request, Reply, done, failed, Code, bad_request, internal, Prefix, GatewayInfo,
  gateway, inet, inet6,
}
use bacchus.Netd.Parse.{Parser, parse_prefixes}

module _ {W : Type 0} (K : Kernel W) where
  -- A route that could not be added or removed is only logged.
  unfoldable pub add_routes : Option Addr → ℕ → List Prefix → W → W
  add_routes hop iface [] w = w
  add_routes hop iface (p ∷ ps) w =
      add_routes hop iface ps
        (K.add_route (record { dst = p; gateway = hop; out_iface = iface }) w).1

  unfoldable pub del_routes : List Prefix → W → W
  del_routes [] w = w
  del_routes (p ∷ ps) w = del_routes ps (K.del_route p w).1

  abbrev pub reap_listed : Option (List Prefix) → W → W
  reap_listed none w = w
  reap_listed (some ps) w =
      let w1 = (K.del_fib_rule inet (del_routes ps w)).1 in
      let w2 = (K.del_fib_rule inet6 w1).1 in (K.del_served_rule w2).1

  unfoldable pub reap_routes : W → W
  reap_routes w = if K.nl_get w then reap_listed (K.list_own_routes w) w else w

  unfoldable pub install_routes : Option Addr → ℕ → List Prefix → W → W
  install_routes hop iface ps w = if K.nl_get w then add_routes hop iface ps w else w

  abbrev read_gateway : Session → Option GatewayInfo → Reply × Session
  read_gateway s none = (failed internal, s)
  read_gateway s (some g) = (gateway g, record s { gw = some g })

  unfoldable pub handle_default_gateway : Session → W → Reply × Session
  handle_default_gateway s w =
      if K.nl_get w then read_gateway s (K.default_gateway w) else (failed internal, s)

  abbrev pub installed : Option Addr → ℕ → W → Result Code (List Prefix) → Reply × W
  installed hop iface w (err c) = (failed c, w)
  installed hop iface w (ok ps) = (done, install_routes hop iface ps w)

  module _ (P : Parser) where
    abbrev pub exclude_v6 : Request → GatewayInfo → W → Option Addr → Reply × W
    exclude_v6 req g w none = (done, w)
    exclude_v6 req g w (some hop) =
        installed (some hop) g.if_index w (parse_prefixes P true req.prefixes)

    abbrev pub exclude_via : Request → Bool → W → Option GatewayInfo → Reply × W
    exclude_via req v6 w none = (failed bad_request, w)
    exclude_via req v6 w (some g) =
        if v6
        then exclude_v6 req g w g.next_hop_v6
        else installed (some g.next_hop) g.if_index w (parse_prefixes P false req.prefixes)

    unfoldable pub handle_exclusion_routes : Session → Request → Bool → W → Reply × W
    handle_exclusion_routes s req v6 w = exclude_via req v6 w s.gw

    unfoldable pub handle_inclusion_routes : Session → Request → W → Reply × W
    handle_inclusion_routes s req w =
        if s.tun_index == 0
        then (failed bad_request, w)
        else installed none s.tun_index w (parse_prefixes P false req.prefixes)

    abbrev with_v6 : List Prefix → Result Code (List Prefix) → List Prefix
    with_v6 ps (err c) = ps
    with_v6 ps (ok qs) = ps ++ qs

    abbrev pub removed : Request → W → Result Code (List Prefix) → Reply × W
    removed req w (err c) = (failed c, w)
    removed req w (ok ps) = (
      done,
      if K.nl_get w then del_routes (with_v6 ps (parse_prefixes P true req.prefixes)) w else w,
    )

    unfoldable pub handle_remove_routes : Request → W → Reply × W
    handle_remove_routes req w = removed req w (parse_prefixes P false req.prefixes)
