-- ===== src/Netd/Frame/Resolver.antt =====
-- cmd/bacchus-netd: the resolver's calls leave the table of the firewall alone.
use bacchus.Shared.{
  ℕ, ◌≡◌, refl, ◌∙◌, ◌&&◌, ltb, ◌==◌, Bool, true, false, Option, none, some, Bytes, if◌then◌else◌,
}
use bacchus.Ranges.{Addr}
use bacchus.Netd.{
  Kernel, Session, no_dns, Stat, is_link, is_file, is_absent, stat_failed, GatewayInfo,
}
use bacchus.Netd.Dns.{
  with_prior, demoted, demote_physical, after_domains, after_link_dns, capture_via_resolved,
  revert_tunnel, release_via_resolved, after_replace, write_ours, saved_link, saved_file, by_stat,
  capture_via_resolv_conf, restore_link, restore_file, release_via_resolv_conf, capture_at,
  capture_dns, release_dns, tun_dns_sink, resolv_body, mode_644,
}
use bacchus.Netd.Frame.{Firewall, if-locked}

module _ {W : Type 0} (K : Kernel W) (to_text : Addr → Bytes) (locked : W → Bool)
    (F : Firewall K locked) where
  -- The state of the machine after a call that may have failed.
  abbrev end_of : Bool × Session × W → W
  end_of (b, s, w) = w

  demoted-locked :
      (i : ℕ) (b : Bool) (s : Session) (r : Bool × W)
      → locked (end_of (demoted K to_text i b s r)) ≡ locked r.1
  demoted-locked i b s (false, w) = refl
  demoted-locked i b s (true, w) = refl

  demote-locked :
      (g : Option GatewayInfo) (s : Session) (w : W)
      → locked (end_of (demote_physical K to_text g s w)) ≡ locked w
  unfolding demote_physical
  demote-locked none s w = refl
  demote-locked (some g) s w = go (ltb 0 g.if_index)
    where
      prior : Bool
      prior = with_prior K to_text (K.link_default_route g.if_index w)

      go :
          (b : Bool)
          → locked (
              end_of (
                if b
                then demoted K to_text g.if_index prior s
                    (K.set_link_default_route g.if_index false w)
                else (true, s, w)))
            ≡ locked w
      go true =
          demoted-locked g.if_index prior s (K.set_link_default_route g.if_index false w)
          ∙ F.default_lem g.if_index false w
      go false = refl

  after_domains-locked :
      (s : Session) (r : Bool × W) → locked (end_of (after_domains K to_text s r)) ≡ locked r.1
  after_domains-locked s (false, w) = refl
  after_domains-locked s (true, w) = demote-locked s.gw _ w

  after_link_dns-locked :
      (s : Session) (r : Bool × W) → locked (end_of (after_link_dns K to_text s r)) ≡ locked r.1
  after_link_dns-locked s (false, w) = refl
  after_link_dns-locked s (true, w) =
      after_domains-locked s (K.set_link_domains s.tun_index w) ∙ F.domains_lem s.tun_index w

  via_resolved-locked :
      (s : Session) (a : Addr) (w : W)
      → locked (end_of (capture_via_resolved K to_text s a w)) ≡ locked w
  unfolding capture_via_resolved
  via_resolved-locked s a w =
      after_link_dns-locked s (K.set_link_dns s.tun_index a w) ∙ F.link_dns_lem s.tun_index a w

  revert_tunnel-locked : (s : Session) (w : W) → locked (revert_tunnel K to_text s w) ≡ locked w
  revert_tunnel-locked s w =
      if-locked locked (ltb 0 s.dns.tun_index) w _ w (F.revert_lem s.dns.tun_index w) refl

  release_resolved-locked :
      (s : Session) (w : W) → locked (release_via_resolved K to_text s w) ≡ locked w
  unfolding release_via_resolved
  release_resolved-locked s w =
      if-locked locked (K.bus_ready w) w _ w
        (revert_tunnel-locked s _
          ∙ if-locked locked (ltb 0 s.dns.phys_index) w _ w (F.default_lem _ _ w) refl)
        refl

  after_replace-locked :
      (s : Session) (r : Bool × W) → locked (end_of (after_replace K to_text s r)) ≡ locked r.1
  after_replace-locked s (false, w) = refl
  after_replace-locked s (true, w) = refl

  write_ours-locked :
      (s : Session) (a : Addr) (w : W) → locked (end_of (write_ours K to_text s a w)) ≡ locked w
  write_ours-locked s a w =
      after_replace-locked s (K.replace_file (resolv_body to_text a) mode_644 w)
      ∙ F.replace_lem (resolv_body to_text a) mode_644 w

  saved_link-locked :
      (s : Session) (a : Addr) (w : W) (t : Option Bytes)
      → locked (end_of (saved_link K to_text s a w t)) ≡ locked w
  saved_link-locked s a w none = refl
  saved_link-locked s a w (some t) = write_ours-locked _ a w

  saved_file-locked :
      (s : Session) (a : Addr) (w : W) (m : ℕ) (c : Option Bytes)
      → locked (end_of (saved_file K to_text s a w m c)) ≡ locked w
  saved_file-locked s a w m none = refl
  saved_file-locked s a w m (some c) = write_ours-locked _ a w

  by_stat-locked :
      (s : Session) (a : Addr) (w : W) (st : Stat)
      → locked (end_of (by_stat K to_text s a w st)) ≡ locked w
  by_stat-locked s a w is_link = saved_link-locked s a w (K.readlink w)
  by_stat-locked s a w (is_file m) = saved_file-locked s a w m (K.read_file w)
  by_stat-locked s a w is_absent = write_ours-locked s a w
  by_stat-locked s a w stat_failed = refl

  restore_link-locked :
      (s : Session) (r : Bool × W) → locked (restore_link K to_text s r) ≡ locked r.1
  restore_link-locked s (false, w) = refl
  restore_link-locked s (true, w) = F.symlink_lem s.dns.resolv_target w

  restore_file-locked :
      (s : Session) (c : Option Bytes) (w : W) → locked (restore_file K to_text s w c) ≡ locked w
  restore_file-locked s none w = F.remove_lem w
  restore_file-locked s (some c) w = F.replace_lem c _ w

  release_conf-locked :
      (s : Session) (w : W) → locked (release_via_resolv_conf K to_text s w) ≡ locked w
  unfolding release_via_resolv_conf
  release_conf-locked s w =
      if-locked locked s.dns.resolv_was_symlink w _ _
        (restore_link-locked s (K.remove_file w) ∙ F.remove_lem w)
        (restore_file-locked s s.dns.resolv_content w)

  capture_at-locked :
      (o : Option Addr) (s : Session) (w : W)
      → locked (end_of (capture_at K to_text o s w)) ≡ locked w
  unfolding capture_via_resolv_conf
  capture_at-locked none s w = refl
  capture_at-locked (some a) s w = go (K.bus_ready w && K.resolved_running w)
    where
      go :
          (b : Bool)
          → locked (
              end_of (
                if b
                then capture_via_resolved K to_text s (tun_dns_sink a) w
                else capture_via_resolv_conf K to_text s (tun_dns_sink a) w))
            ≡ locked w
      go true = via_resolved-locked s (tun_dns_sink a) w
      go false = by_stat-locked s (tun_dns_sink a) w (K.lstat w)

  pub capture-locked :
      (s : Session) (w : W) → locked (end_of (capture_dns K to_text s w)) ≡ locked w
  unfolding capture_dns
  capture-locked s w = go s.dns.captured (s.tun_index == 0)
    where
      go :
          (b c : Bool)
          → locked (
              end_of (
                if b
                then (true, s, w)
                else if c
                then (false, s, w)
                else capture_at K to_text s.tun_addr s w))
            ≡ locked w
      go true c = refl
      go false true = refl
      go false false = capture_at-locked s.tun_addr s w

  pub release-locked : (s : Session) (w : W) → locked (release_dns K to_text s w).1 ≡ locked w
  unfolding release_dns
  release-locked s w = go s.dns.captured
    where
      released : Session × W
      released = (
        record s { dns = no_dns },
        if s.dns.via_resolved
            then release_via_resolved K to_text s w
            else release_via_resolv_conf K to_text s w,
      )

      go :
          (b : Bool)
          → let (s', w') : Session × W = if b then released else (s, w) in locked w' ≡ locked w
      go true =
          if-locked locked s.dns.via_resolved w _ _ (release_resolved-locked s w)
            (release_conf-locked s w)
      go false = refl
