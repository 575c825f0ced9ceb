-- ===== src/Netd/Frame.antt =====
-- cmd/bacchus-netd: what the helper's own table of the firewall depends on. `locked` says of a state of the
-- machine whether the table is there; the calls on routes, links, IPv6 and the resolver leave it alone.
pub mod Verbs
pub mod Resolver
use bacchus.Shared.{
  ℕ, ◌≡◌, refl, ◌∙◌, if◌then◌else◌, List, [], ◌∷◌, Bool, true, false, ◌&&◌, Option, none, some,
  Bytes, arith, Bool-cases, Option-cases, inl, inr, Result-cases, ltb, ◌==◌, length,
}
use bacchus.Ranges.{Addr}
use bacchus.Netd.{
  inet, inet6, Kernel, Session, Request, Prefix, RouteSpec, Family, KillSwitchSpec, Stat,
  GatewayInfo, is_link, is_file, is_absent, stat_failed,
}
use bacchus.Netd.Parse.{Parser, parse_prefixes}
use bacchus.Netd.Dns.{
  capture_dns, release_dns, capture_via_resolved, capture_via_resolv_conf, demote_physical,
  release_via_resolved, release_via_resolv_conf, tun_dns_sink, resolv_body, mode_644,
}
use bacchus.Netd.Routes.{
  reap_listed, add_routes, del_routes, reap_routes, install_routes, handle_exclusion_routes,
  handle_inclusion_routes, handle_remove_routes,
}
use bacchus.Netd.Tun.{
  handle_create_tun, handle_configure_tun, handle_split_default_route, assign_addr, split_default,
}
use bacchus.Netd.Ipv6.{handle_disable_ipv6, handle_enable_ipv6, restore_ipv6}
use bacchus.Netd.Served.{revoke_at, handle_allow_served_egress, revoke_served_egress}

-- `locked` says whether the table of the firewall is there: reading tells that truly, and a call that is
-- not about the table leaves it as it is.
pub record Firewall {W : Type 0} (K : Kernel W) (locked : W → Bool) : Type 0 where
  pub exists_lem : (w : W) (b : Bool) → K.table_exists w ≡ some b → b ≡ locked w
  pub refresh_lem : (a : Addr) (w : W) → locked (K.refresh_allow_ip a w).1 ≡ locked w
  pub withdraw_lem : (a : Addr) (w : W) → locked (K.withdraw_allowance a w).1 ≡ locked w
  pub add_route_lem : (r : RouteSpec) (w : W) → locked (K.add_route r w).1 ≡ locked w
  pub del_route_lem : (p : Prefix) (w : W) → locked (K.del_route p w).1 ≡ locked w
  pub add_fib_lem : (f : Family) (w : W) → locked (K.add_fib_rule f w).1 ≡ locked w
  pub del_fib_lem : (f : Family) (w : W) → locked (K.del_fib_rule f w).1 ≡ locked w
  pub add_served_lem : (a : Addr) (u : ℕ) (w : W) → locked (K.add_served_rule a u w).1 ≡ locked w
  pub del_served_lem : (w : W) → locked (K.del_served_rule w).1 ≡ locked w
  pub create_tun_lem : (w : W) → locked (K.create_tun w).1 ≡ locked w
  pub add_addr_lem : (i : ℕ) (p : Prefix) (w : W) → locked (K.add_addr i p w).1 ≡ locked w
  pub link_up_lem : (i : ℕ) (w : W) → locked (K.set_link_up i w).1 ≡ locked w
  pub ipv6_lem : (n v : Bytes) (w : W) → locked (K.write_ipv6_disabled n v w).1 ≡ locked w
  pub token_lem : (w : W) → locked (K.rand_token w).1 ≡ locked w
  pub link_dns_lem : (i : ℕ) (a : Addr) (w : W) → locked (K.set_link_dns i a w).1 ≡ locked w
  pub domains_lem : (i : ℕ) (w : W) → locked (K.set_link_domains i w).1 ≡ locked w
  pub default_lem :
      (i : ℕ) (b : Bool) (w : W) → locked (K.set_link_default_route i b w).1 ≡ locked w
  pub revert_lem : (i : ℕ) (w : W) → locked (K.revert_link i w).1 ≡ locked w
  pub replace_lem : (c : Bytes) (m : ℕ) (w : W) → locked (K.replace_file c m w).1 ≡ locked w
  pub remove_lem : (w : W) → locked (K.remove_file w).1 ≡ locked w
  pub symlink_lem : (t : Bytes) (w : W) → locked (K.symlink t w).1 ≡ locked w

module _ {W : Type 0} (locked : W → Bool) where
  pub if-locked :
      (b : Bool) (w x y : W)
      → locked x ≡ locked w
      → locked y ≡ locked w
      → locked (if b then x else y) ≡ locked w
  if-locked true w x y p q = p
  if-locked false w x y p q = q

module _ {W : Type 0} (K : Kernel W) (locked : W → Bool) (F : Firewall K locked) where
  pub add_routes-locked :
      (hop : Option Addr) (i : ℕ) (ps : List Prefix) (w : W)
      → locked (add_routes K hop i ps w) ≡ locked w
  unfolding add_routes
  add_routes-locked hop i [] w = refl
  add_routes-locked hop i (p ∷ ps) w = add_routes-locked hop i ps _ ∙ F.add_route_lem _ w

  pub del_routes-locked : (ps : List Prefix) (w : W) → locked (del_routes K ps w) ≡ locked w
  unfolding del_routes
  del_routes-locked [] w = refl
  del_routes-locked (p ∷ ps) w = del_routes-locked ps _ ∙ F.del_route_lem p w

  reap_listed-locked : (o : Option (List Prefix)) (w : W) → locked (reap_listed K o w) ≡ locked w
  reap_listed-locked none w = refl
  reap_listed-locked (some ps) w =
      F.del_served_lem _ ∙ F.del_fib_lem inet6 _ ∙ F.del_fib_lem inet _ ∙ del_routes-locked ps w

  pub reap_routes-locked : (w : W) → locked (reap_routes K w) ≡ locked w
  unfolding reap_routes
  reap_routes-locked w =
      if-locked locked (K.nl_get w) w _ w (reap_listed-locked (K.list_own_routes w) w) refl

  pub install_routes-locked :
      (hop : Option Addr) (i : ℕ) (ps : List Prefix) (w : W)
      → locked (install_routes K hop i ps w) ≡ locked w
  unfolding install_routes
  install_routes-locked hop i ps w =
      if-locked locked (K.nl_get w) w _ w (add_routes-locked hop i ps w) refl

  pub restore_ipv6-locked : (s : Session) (w : W) → locked (restore_ipv6 K s w) ≡ locked w
  unfolding restore_ipv6
  restore_ipv6-locked s w = if-locked locked (length s.ipv6_for == 0) w w _ refl (F.ipv6_lem _ _ w)

  revoke_at-locked :
      (s : Session) (o : Option Addr) (w : W) → locked (revoke_at K s w o).1 ≡ locked w
  revoke_at-locked s none w = refl
  revoke_at-locked s (some src) w =
      let w1 : W = if K.nl_get w then (K.del_served_rule w).1 else w in
      if-locked locked (K.nft_dial w1) w1 _ w1 (F.withdraw_lem src w1) refl
      ∙ if-locked locked (K.nl_get w) w _ w (F.del_served_lem w) refl

  pub revoke-locked : (s : Session) (w : W) → locked (revoke_served_egress K s w).1 ≡ locked w
  unfolding revoke_served_egress
  revoke-locked s w = revoke_at-locked s s.served_src w
