-- ===== src/Netd/Frame/Verbs.antt =====
-- cmd/bacchus-netd: the verbs on routes, the TUN device, IPv6 and served egress leave the table of the
-- firewall alone.
use bacchus.Shared.{
  ℕ, ◌≡◌, refl, ◌∙◌, leb, ◌==◌, List, Bool, true, false, Option, none, some, Bytes, if◌then◌else◌,
  Result, ok, err,
}
use bacchus.Ranges.{Addr}
use bacchus.Netd.{Kernel, Session, Request, Reply, Code, Prefix, GatewayInfo, inet}
use bacchus.Netd.Parse.{Parser, parse_prefixes}
use bacchus.Netd.Routes.{
  installed, exclude_v6, exclude_via, removed, handle_exclusion_routes, handle_inclusion_routes,
  handle_remove_routes,
}
use bacchus.Netd.Tun.{
  with_tun, after_up, after_link, after_addr, assign_addr, with_len, with_addr, after_upper,
  after_lower, split_default, with_claimed, with_ours, handle_create_tun, handle_configure_tun,
  handle_split_default_route, addr_eq,
}
use bacchus.Netd.Ipv6.{
  after_off, with_prior, on_gateway, handle_disable_ipv6, handle_enable_ipv6, off,
}
use bacchus.Netd.Lockdown.{with_ip, handle_refresh_allow_ip}
use bacchus.Netd.Served.{after_rule, from_source, from_gateway, handle_allow_served_egress}
use bacchus.Netd.Frame.{
  Firewall, if-locked, install_routes-locked, del_routes-locked, restore_ipv6-locked,
}

module _ {W : Type 0} (K : Kernel W) (P : Parser) (locked : W → Bool) (F : Firewall K locked) where
  abbrev pub end3 : Reply × Session × W → W
  end3 (r, s, w) = w

  -- A branch whose answer and state are given together.
  if3-locked :
      (b : Bool) (w : W) (x y : Reply × Session × W)
      → locked (end3 x) ≡ locked w
      → locked (end3 y) ≡ locked w
      → locked (end3 (if b then x else y)) ≡ locked w
  if3-locked true w x y p q = p
  if3-locked false w x y p q = q

  if2-locked :
      (b : Bool) (w : W) (x y : Reply × W)
      → locked x.1 ≡ locked w
      → locked y.1 ≡ locked w
      → locked (if b then x else y).1 ≡ locked w
  if2-locked true w x y p q = p
  if2-locked false w x y p q = q

  installed-locked :
      (hop : Option Addr) (i : ℕ) (w : W) (r : Result Code (List Prefix))
      → locked (installed K hop i w r).1 ≡ locked w
  installed-locked hop i w (err c) = refl
  installed-locked hop i w (ok ps) = install_routes-locked K locked F hop i ps w

  exclude_v6-locked :
      (req : Request) (g : GatewayInfo) (w : W) (o : Option Addr)
      → locked (exclude_v6 K P req g w o).1 ≡ locked w
  exclude_v6-locked req g w none = refl
  exclude_v6-locked req g w (some hop) =
      installed-locked (some hop) g.if_index w (parse_prefixes P true req.prefixes)

  exclude_via-locked :
      (req : Request) (v6 : Bool) (w : W) (o : Option GatewayInfo)
      → locked (exclude_via K P req v6 w o).1 ≡ locked w
  exclude_via-locked req v6 w none = refl
  exclude_via-locked req true w (some g) = exclude_v6-locked req g w g.next_hop_v6
  exclude_via-locked req false w (some g) =
      installed-locked (some g.next_hop) g.if_index w (parse_prefixes P false req.prefixes)

  pub exclusion-locked :
      (s : Session) (req : Request) (v6 : Bool) (w : W)
      → locked (handle_exclusion_routes K P s req v6 w).1 ≡ locked w
  unfolding handle_exclusion_routes
  exclusion-locked s req v6 w = exclude_via-locked req v6 w s.gw

  pub inclusion-locked :
      (s : Session) (req : Request) (w : W)
      → locked (handle_inclusion_routes K P s req w).1 ≡ locked w
  unfolding handle_inclusion_routes
  inclusion-locked s req w =
      if2-locked (s.tun_index == 0) w _ _ refl
        (installed-locked none s.tun_index w (parse_prefixes P false req.prefixes))

  removed-locked :
      (req : Request) (w : W) (r : Result Code (List Prefix))
      → locked (removed K P req w r).1 ≡ locked w
  removed-locked req w (err c) = refl
  removed-locked req w (ok ps) =
      if-locked locked (K.nl_get w) w _ w (del_routes-locked K locked F _ w) refl

  pub remove-locked : (req : Request) (w : W) → locked (handle_remove_routes K P req w).1 ≡ locked w
  unfolding handle_remove_routes
  remove-locked req w = removed-locked req w (parse_prefixes P false req.prefixes)

  with_tun-locked : (s : Session) (r : Option ℕ × W) → locked (end3 (with_tun K s r)) ≡ locked r.1
  with_tun-locked s (none, w) = refl
  with_tun-locked s (some i, w) = refl

  pub create_tun-locked : (s : Session) (w : W) → locked (end3 (handle_create_tun K s w)) ≡ locked w
  unfolding handle_create_tun
  create_tun-locked s w = with_tun-locked s (K.create_tun w) ∙ F.create_tun_lem w

  after_up-locked :
      (s : Session) (a : Addr) (r : Bool × W) → locked (end3 (after_up K s a r)) ≡ locked r.1
  after_up-locked s a (false, w) = refl
  after_up-locked s a (true, w) = refl

  after_link-locked :
      (s : Session) (a : Addr) (r : Bool × W) → locked (end3 (after_link K s a r)) ≡ locked r.1
  after_link-locked s a (false, w) = refl
  after_link-locked s a (true, w) =
      after_up-locked s a (K.add_fib_rule inet w) ∙ F.add_fib_lem inet w

  after_addr-locked :
      (s : Session) (a : Addr) (r : Bool × W) → locked (end3 (after_addr K s a r)) ≡ locked r.1
  after_addr-locked s a (false, w) = refl
  after_addr-locked s a (true, w) =
      after_link-locked s a (K.set_link_up s.tun_index w) ∙ F.link_up_lem s.tun_index w

  assign_addr-locked :
      (s : Session) (a : Addr) (n : ℕ) (w : W) → locked (end3 (assign_addr K s a n w)) ≡ locked w
  unfolding assign_addr
  assign_addr-locked s a n w =
      if3-locked (K.nl_get w) w _ _ (after_addr-locked s a _ ∙ F.add_addr_lem s.tun_index _ w) refl

  with_len-locked :
      (s : Session) (a : Addr) (w : W) (o : Option ℕ)
      → locked (end3 (with_len K s a w o)) ≡ locked w
  with_len-locked s a w none = refl
  with_len-locked s a w (some n) = if3-locked (leb n 32) w _ _ (assign_addr-locked s a n w) refl

  with_addr-locked :
      (s : Session) (req : Request) (w : W) (o : Option Addr)
      → locked (end3 (with_addr K s req w o)) ≡ locked w
  with_addr-locked s req w none = refl
  with_addr-locked s req w (some a) =
      if3-locked a.is4 w _ _ (with_len-locked s a w req.prefix_len) refl

  pub configure-locked :
      (s : Session) (req : Request) (w : W)
      → locked (end3 (handle_configure_tun K P s req w)) ≡ locked w
  unfolding handle_configure_tun
  configure-locked s req w =
      if3-locked (s.tun_index == 0) w _ _ refl (with_addr-locked s req w (P.parse_addr req.addr))

  after_upper-locked : (r : Bool × W) → locked (after_upper K r).1 ≡ locked r.1
  after_upper-locked (false, w) = refl
  after_upper-locked (true, w) = refl

  after_lower-locked : (i : ℕ) (r : Bool × W) → locked (after_lower K i r).1 ≡ locked r.1
  after_lower-locked i (false, w) = refl
  after_lower-locked i (true, w) = after_upper-locked _ ∙ F.add_route_lem _ w

  split_default-locked : (i : ℕ) (w : W) → locked (split_default K i w).1 ≡ locked w
  unfolding split_default
  split_default-locked i w =
      if2-locked (K.nl_get w) w _ _ (after_lower-locked i _ ∙ F.add_route_lem _ w) refl

  with_claimed-locked :
      (s : Session) (w : W) (ours : Addr) (o : Option Addr)
      → locked (with_claimed K s w ours o).1 ≡ locked w
  with_claimed-locked s w ours none = refl
  with_claimed-locked s w ours (some a) =
      if2-locked (addr_eq a ours) w _ _ (split_default-locked s.tun_index w) refl

  with_ours-locked :
      (s : Session) (req : Request) (w : W) (o : Option Addr)
      → locked (with_ours K P s req w o).1 ≡ locked w
  with_ours-locked s req w none = refl
  with_ours-locked s req w (some ours) = with_claimed-locked s w ours (P.parse_addr req.addr)

  pub split-locked :
      (s : Session) (req : Request) (w : W)
      → locked (handle_split_default_route K P s req w).1 ≡ locked w
  unfolding handle_split_default_route
  split-locked s req w =
      if2-locked (s.tun_index == 0) w _ _ refl (with_ours-locked s req w s.tun_addr)

  after_off-locked :
      (s : Session) (n p : Bytes) (r : Bool × W) → locked (after_off K s n p r).1 ≡ locked r.1
  after_off-locked s n p (false, w) = refl
  after_off-locked s n p (true, w) = refl

  with_prior-locked :
      (s : Session) (n : Bytes) (w : W) (o : Option Bytes)
      → locked (with_prior K s n w o).1 ≡ locked w
  with_prior-locked s n w none = refl
  with_prior-locked s n w (some p) = after_off-locked s n p _ ∙ F.ipv6_lem n off w

  on_gateway-locked :
      (s : Session) (w : W) (o : Option GatewayInfo) → locked (on_gateway K s w o).1 ≡ locked w
  on_gateway-locked s w none = refl
  on_gateway-locked s w (some g) =
      with_prior-locked s g.if_name w (K.read_ipv6_disabled g.if_name w)

  pub disable_ipv6-locked : (s : Session) (w : W) → locked (handle_disable_ipv6 K s w).1 ≡ locked w
  unfolding handle_disable_ipv6
  disable_ipv6-locked s w = on_gateway-locked s w s.gw

  pub enable_ipv6-locked : (s : Session) (w : W) → locked (handle_enable_ipv6 K s w).1 ≡ locked w
  unfolding handle_enable_ipv6
  enable_ipv6-locked s w = restore_ipv6-locked K locked F s w

  with_ip-locked : (w : W) (o : Option Addr) → locked (with_ip K w o).1 ≡ locked w
  with_ip-locked w none = refl
  with_ip-locked w (some a) =
      if2-locked a.is4 w _ _ (if-locked locked (K.nft_dial w) w _ w (F.refresh_lem a w) refl) refl

  pub refresh-locked :
      (s : Session) (req : Request) (w : W)
      → locked (handle_refresh_allow_ip K P s req w).1 ≡ locked w
  unfolding handle_refresh_allow_ip
  refresh-locked s req w =
      if2-locked s.kill_switch_armed w _ _ (with_ip-locked w (P.parse_addr req.ip)) refl

  after_rule-locked :
      (s : Session) (a : Addr) (r : Bool × W) → locked (end3 (after_rule K s a r)) ≡ locked r.1
  after_rule-locked s a (false, w) = refl
  after_rule-locked s a (true, w) = refl

  from_source-locked :
      (s : Session) (w : W) (o : Option Addr) → locked (end3 (from_source K s w o)) ≡ locked w
  from_source-locked s w none = refl
  from_source-locked s w (some a) = after_rule-locked s a _ ∙ F.add_served_lem a s.uid w

  from_gateway-locked :
      (s : Session) (w : W) (o : Option GatewayInfo)
      → locked (end3 (from_gateway K s w o)) ≡ locked w
  from_gateway-locked s w none = refl
  from_gateway-locked s w (some g) = from_source-locked s w (K.physical_source g w)

  pub allow_served-locked :
      (s : Session) (w : W) → locked (end3 (handle_allow_served_egress K s w)) ≡ locked w
  unfolding handle_allow_served_egress
  allow_served-locked s w =
      if3-locked s.kill_switch_armed w _ _ refl
        (if3-locked (K.nl_get w) w _ _ (from_gateway-locked s w (K.default_gateway w)) refl)
