-- ===== src/Netd/Serve/Invariant.antt =====
-- What holds of the session that is open, in every state that the helper reaches.
pub mod Reached
use bacchus.Shared.{
  ℕ, ◌<◌, ◌≡◌, ◌≢◌, refl, sym, ◌∙◌, List, [], ◌∷◌, ◌++◌, Bool, true, false, ◌&&◌, ltb, leb, ◌==◌,
  Option, none, some, Bytes, arith, Bool-cases, Option-cases, inl, inr, Result-cases, Result, ok,
  err, length, if◌then◌else◌,
}
use bacchus.Ranges.{Addr}
use bacchus.Netd.{
  Kernel, Session, Request, Verb, Reply, failed, done, GatewayInfo, new_session, no_dns, Stat,
  is_link, is_file, is_absent, stat_failed,
}
use bacchus.Netd.Parse.{Parser}
use bacchus.Netd.Dns.{
  capture_dns, release_dns, capture_via_resolved, capture_via_resolv_conf, demote_physical, by_stat,
  tun_dns_sink, demoted, after_domains, after_link_dns, after_replace, saved_link, saved_file,
  capture_at,
}
use bacchus.Netd.Routes.{handle_default_gateway}
use bacchus.Netd.Tun.{
  handle_create_tun, handle_configure_tun, assign_addr, with_tun, after_up, after_link, after_addr,
  with_len, with_addr,
}
use bacchus.Netd.Ipv6.{handle_disable_ipv6, handle_enable_ipv6, after_off, with_prior, on_gateway}
use bacchus.Netd.Lockdown.{handle_enable_kill_switch, handle_disable_kill_switch, arm, allowlist}
use bacchus.Netd.Served.{
  handle_allow_served_egress, revoke_served_egress, after_rule, from_source, from_gateway,
}
use bacchus.Netd.Dns.Same.{SameBut, resolved-SameBut, by_stat-SameBut}
use bacchus.Netd.Serve.{
  authorize, serve_verb, dispatch, authorized, handle_open, handle_close, client_gone, with_token,
  Event, asked, malformed, gone, step, run, after_reply, dns_reply,
}
use bacchus.Netd.Serve.Token.{authorize_sound}

abbrev pub HasTun4 : ℕ → Option Addr → Type 0
HasTun4 index none = Unit
HasTun4 index (some a) = (0 < index) × (a.is4 ≡ true)

-- A configured TUN exists and has an address of 32 bits, nothing is armed before there is a TUN, the
-- resolver is captured only towards a configured TUN, and IPv6 was turned off only on a gateway's link.
pub record IsSession (s : Session) : Type 0 where
  pub configured : HasTun4 s.tun_index s.tun_addr
  pub armed : s.kill_switch_armed ≡ true → 0 < s.tun_index
  pub resolver : s.dns.captured ≡ true → s.tun_addr ≢ none
  pub ipv6 : 0 < length s.ipv6_for → s.gw ≢ none

module _ {W : Type 0} (K : Kernel W) (P : Parser) (to_text : Addr → Bytes) where
  abbrev pub session_of : Reply × Session × W → Session
  session_of (r, s, w) = s

  pub with_tun-IsSession :
      (s : Session) (r : Option ℕ × W)
      → ((i : ℕ) → r.0 ≡ some i → 0 < i)
      → IsSession s
      → IsSession (session_of (with_tun K s r))
  with_tun-IsSession s (none, w) pos h = h
  with_tun-IsSession s (some i, w) pos h = elim (Option-cases s.tun_addr) [
    | inl unset ↦ ground (arith, pos i refl)
    | inr (a, set) ↦ ground (arith, pos i refl)
  ]

  after_up-IsSession :
      (s : Session) (a : Addr) (r : Bool × W)
      → 0 < s.tun_index
      → a.is4 ≡ true
      → IsSession s
      → IsSession (session_of (after_up K s a r))
  after_up-IsSession s a (false, w) i v4 h = h
  after_up-IsSession s a (true, w) i v4 h = ground arith

  after_link-IsSession :
      (s : Session) (a : Addr) (r : Bool × W)
      → 0 < s.tun_index
      → a.is4 ≡ true
      → IsSession s
      → IsSession (session_of (after_link K s a r))
  after_link-IsSession s a (false, w) i v4 h = h
  after_link-IsSession s a (true, w) i v4 h = after_up-IsSession s a _ i v4 h

  after_addr-IsSession :
      (s : Session) (a : Addr) (r : Bool × W)
      → 0 < s.tun_index
      → a.is4 ≡ true
      → IsSession s
      → IsSession (session_of (after_addr K s a r))
  after_addr-IsSession s a (false, w) i v4 h = h
  after_addr-IsSession s a (true, w) i v4 h = after_link-IsSession s a _ i v4 h

  assign_addr-IsSession :
      (s : Session) (a : Addr) (n : ℕ) (w : W)
      → 0 < s.tun_index
      → a.is4 ≡ true
      → IsSession s
      → IsSession (session_of (assign_addr K s a n w))
  unfolding assign_addr
  assign_addr-IsSession s a n w i v4 h = elim (Bool-cases (K.nl_get w)) [
    | inl up ↦ rw up (after_addr-IsSession s a _ i v4 h)
    | inr down ↦ rw down h
  ]

  pub configure-IsSession :
      (s : Session) (req : Request) (w : W)
      → IsSession s
      → IsSession (session_of (handle_configure_tun K P s req w))
  unfolding handle_configure_tun
  configure-IsSession s req w h = elim (Bool-cases (s.tun_index == 0)) [
    | inl unmade ↦ ground arith
    | inr made ↦ elim (Option-cases (P.parse_addr req.addr)) [
      | inl bad ↦ ground arith
      | inr (a, parsed) ↦ elim (Option-cases req.prefix_len) [
        | inl negative ↦ ground arith
        | inr (n, len) ↦ ground (arith, assign_addr-IsSession s a n w)
      ]
    ]
  ]

  pub disable_ipv6-IsSession :
      (s : Session) (w : W) → IsSession s → IsSession (handle_disable_ipv6 K s w).0
  unfolding handle_disable_ipv6
  disable_ipv6-IsSession s w h = elim (Option-cases s.gw) [
    | inl unread ↦ ground arith
    | inr (g, read) ↦ elim (Option-cases (K.read_ipv6_disabled g.if_name w)) [
      | inl failed_read ↦ ground arith
      | inr (p, prior) ↦ ground arith
    ]
  ]

  pub enable_ipv6-IsSession :
      (s : Session) (w : W) → IsSession s → IsSession (handle_enable_ipv6 K s w).0
  unfolding handle_enable_ipv6
  enable_ipv6-IsSession s w h = ground arith

  pub revoke-IsSession :
      (s : Session) (w : W) → IsSession s → IsSession (revoke_served_egress K s w).0
  unfolding revoke_served_egress
  revoke-IsSession s w h = elim (Option-cases s.served_src) [
    | inl nothing ↦ ground arith
    | inr (a, served) ↦ ground arith
  ]

  pub allow-IsSession :
      (s : Session) (w : W)
      → IsSession s
      → IsSession (session_of (handle_allow_served_egress K s w))
  unfolding handle_allow_served_egress
  allow-IsSession s w h = elim (Option-cases (K.default_gateway w)) [
    | inl unknown ↦ ground arith
    | inr (g, known) ↦ elim (Option-cases (K.physical_source g w)) [
      | inl no_source ↦ ground arith
      | inr (a, source) ↦ ground arith
    ]
  ]

  pub enable-IsSession :
      (s : Session) (req : Request) (w : W)
      → IsSession s
      → IsSession (session_of (handle_enable_kill_switch K P s req w))
  unfolding handle_enable_kill_switch arm
  enable-IsSession s req w h = elim (Option-cases (K.loopback_index w)) [
    | inl no_loopback ↦ ground arith
    | inr (lo, found) ↦ elim (Result-cases (allowlist P (req.control ++ req.bypass))) [
      | inl (allowed, parsed) ↦ ground arith
      | inr (c, bad) ↦ ground arith
    ]
  ]

  pub disable-IsSession :
      (s : Session) (w : W) → IsSession s → IsSession (handle_disable_kill_switch K s w).0
  unfolding handle_disable_kill_switch
  disable-IsSession s w h = ground arith

  pub gateway-IsSession :
      (s : Session) (w : W) → IsSession s → IsSession (handle_default_gateway K s w).1
  unfolding handle_default_gateway
  gateway-IsSession s w h = elim (Option-cases (K.default_gateway w)) [
    | inl unknown ↦ ground arith
    | inr (g, known) ↦ ground arith
  ]

  HasTun4-eq : (i j : ℕ) (a b : Option Addr) → j ≡ i → b ≡ a → HasTun4 i a → HasTun4 j b
  HasTun4-eq i j a b ei ea h = rw (ei, ea) h

  SameBut-IsSession : (s t : Session) → SameBut s t → s.tun_addr ≢ none → IsSession s → IsSession t
  SameBut-IsSession s t (ei, ea, eg, ef, ek) set h = record {
    configured = HasTun4-eq s.tun_index t.tun_index s.tun_addr t.tun_addr ei ea h.configured;
    armed = λ e. rw ei (h.armed (sym ek ∙ e));
    resolver = λ _ e. set (sym ea ∙ e);
    ipv6 = λ n e. h.ipv6 (rw⁻¹ ef n) (sym eg ∙ e);
  }

  reply-IsSession :
      (r : Bool × Session × W) → IsSession r.1 → IsSession (session_of (dns_reply K P to_text r))
  reply-IsSession (true, s, w) h = h
  reply-IsSession (false, s, w) h = h

  capture_at-IsSession :
      (o : Option Addr) (s : Session) (w : W)
      → s.tun_addr ≡ o
      → IsSession s
      → IsSession (capture_at K to_text o s w).1
  unfolding capture_via_resolv_conf
  capture_at-IsSession none s w e h = h
  capture_at-IsSession (some a) s w e h =
      elim (Bool-cases (K.bus_ready w && K.resolved_running w)) [
        | inl running ↦
            rw running
              (SameBut-IsSession s _ (resolved-SameBut K to_text s (tun_dns_sink a) w) (cc) h)
        | inr absent ↦ rw absent (
            SameBut-IsSession s _ (by_stat-SameBut K to_text s (tun_dns_sink a) w (K.lstat w)) (cc)
              h)
      ]

  pub capture-IsSession :
      (s : Session) (w : W)
      → IsSession s
      → IsSession (session_of (dns_reply K P to_text (capture_dns K to_text s w)))
  unfolding capture_dns capture_via_resolv_conf
  capture-IsSession s w h =
      reply-IsSession (capture_dns K to_text s w) (taken s.dns.captured (s.tun_index == 0))
    where
      taken :
          (b c : Bool)
          → let (o, s', w') : Bool × Session × W =
              if b
              then (true, s, w)
              else if c
              then (false, s, w)
              else capture_at K to_text s.tun_addr s w in
            IsSession s'
      taken true c = h
      taken false true = h
      taken false false = capture_at-IsSession s.tun_addr s w refl h

  pub release-IsSession :
      (s : Session) (w : W) → IsSession s → IsSession (release_dns K to_text s w).0
  unfolding release_dns
  release-IsSession s w h = ground arith
