-- ===== src/Netd/Dns.antt =====
-- cmd/bacchus-netd/dns.go: the machine's resolver is pointed at the tunnel and put back, through
-- systemd-resolved where it runs, and by rewriting /etc/resolv.conf otherwise.
pub mod Restore
pub mod Same
use bacchus.Shared.{
  ℕ, ◌+◌, ◌-◌, ◌%◌, List, [], ◌∷◌, ◌++◌, Bool, true, false, not, ◌&&◌, Option, none, some, Bytes,
  codes, ltb, ◌==◌, if◌then◌else◌,
}
use bacchus.Ranges.{Addr}
use bacchus.Netd.{
  Kernel, Session, DnsState, no_dns, Stat, is_link, is_absent, stat_failed, is_file, GatewayInfo,
}

abbrev pub mode_644 : ℕ
mode_644 = 0x1a4

-- The tunnel's own address with the last byte 53, or 54 if it is 53 itself.
unfoldable pub tun_dns_sink : Addr → Addr
tun_dns_sink a =
    let last = a.value % 256 in
    record { is4 = true; value = a.value - last + (if last == 53 then 54 else 53) }

abbrev dns_text : Bytes
dns_text =
    codes "# Written by bacchus-netd while the tunnel is up."
    ++ (10 ∷ codes "# The previous configuration is restored when it goes down, including")
    ++ (10 ∷ codes "# if this client crashes. See ADR-0051.")
    ++ (10 ∷ codes "nameserver ")

-- `to_text` is `netip.Addr.String`.
unfoldable pub resolv_body : (Addr → Bytes) → Addr → Bytes
resolv_body to_text sink = (dns_text ++ to_text sink) ++ (10 ∷ [])

module _ {W : Type 0} (K : Kernel W) (to_text : Addr → Bytes) where
  abbrev pub with_prior : Option Bool → Bool
  with_prior none = true
  with_prior (some b) = b

  -- The physical link is demoted, where a gateway is known.
  abbrev pub demoted : ℕ → Bool → Session → Bool × W → Bool × Session × W
  demoted index prior s (false, w) = (true, s, w)
  demoted index prior s (true, w) =
      (true, record s { dns = record s.dns { phys_index = index; phys_default_route = prior } }, w)

  unfoldable pub demote_physical : Option GatewayInfo → Session → W → Bool × Session × W
  demote_physical none s w = (true, s, w)
  demote_physical (some gw) s w =
      if ltb 0 gw.if_index
      then demoted gw.if_index (with_prior (K.link_default_route gw.if_index w)) s
          (K.set_link_default_route gw.if_index false w)
      else (true, s, w)

  abbrev pub after_domains : Session → Bool × W → Bool × Session × W
  after_domains s (false, w) = (false, s, w)
  after_domains s (true, w) =
      demote_physical s.gw
        (record s {
          dns = record s.dns { tun_index = s.tun_index; via_resolved = true; captured = true };
        })
        w

  abbrev pub after_link_dns : Session → Bool × W → Bool × Session × W
  after_link_dns s (false, w) = (false, s, w)
  after_link_dns s (true, w) = after_domains s (K.set_link_domains s.tun_index w)

  unfoldable pub capture_via_resolved : Session → Addr → W → Bool × Session × W
  capture_via_resolved s sink w = after_link_dns s (K.set_link_dns s.tun_index sink w)

  abbrev pub revert_tunnel : Session → W → W
  revert_tunnel s w = if ltb 0 s.dns.tun_index then (K.revert_link s.dns.tun_index w).1 else w

  unfoldable pub release_via_resolved : Session → W → W
  release_via_resolved s w =
      if K.bus_ready w
      then revert_tunnel s (
          if ltb 0 s.dns.phys_index
          then (K.set_link_default_route s.dns.phys_index s.dns.phys_default_route w).1
          else w)
      else w

  abbrev pub after_replace : Session → Bool × W → Bool × Session × W
  after_replace s (false, w) = (false, s, w)
  after_replace s (true, w) = (true, record s { dns = record s.dns { captured = true } }, w)

  abbrev pub write_ours : Session → Addr → W → Bool × Session × W
  write_ours s sink w = after_replace s (K.replace_file (resolv_body to_text sink) mode_644 w)

  abbrev pub saved_link : Session → Addr → W → Option Bytes → Bool × Session × W
  saved_link s sink w none = (false, s, w)
  saved_link s sink w (some target) =
      write_ours
        (record s { dns = record s.dns { resolv_was_symlink = true; resolv_target = target } }) sink
        w

  abbrev pub saved_file : Session → Addr → W → ℕ → Option Bytes → Bool × Session × W
  saved_file s sink w mode none = (false, s, w)
  saved_file s sink w mode (some content) =
      write_ours
        (record s { dns = record s.dns { resolv_content = some content; resolv_mode = mode } }) sink
        w

  abbrev pub by_stat : Session → Addr → W → Stat → Bool × Session × W
  by_stat s sink w is_link = saved_link s sink w (K.readlink w)
  by_stat s sink w (is_file mode) = saved_file s sink w mode (K.read_file w)
  by_stat s sink w is_absent = write_ours s sink w
  by_stat s sink w stat_failed = (false, s, w)

  unfoldable pub capture_via_resolv_conf : Session → Addr → W → Bool × Session × W
  capture_via_resolv_conf s sink w = by_stat s sink w (K.lstat w)

  abbrev pub restore_link : Session → Bool × W → W
  restore_link s (false, w) = w
  restore_link s (true, w) = (K.symlink s.dns.resolv_target w).1

  abbrev pub restore_file : Session → W → Option Bytes → W
  restore_file s w none = (K.remove_file w).1
  restore_file s w (some content) =
      (K.replace_file content (if s.dns.resolv_mode == 0 then mode_644 else s.dns.resolv_mode) w).1

  unfoldable pub release_via_resolv_conf : Session → W → W
  release_via_resolv_conf s w =
      if s.dns.resolv_was_symlink
      then restore_link s (K.remove_file w)
      else restore_file s w s.dns.resolv_content

  abbrev pub capture_at : Option Addr → Session → W → Bool × Session × W
  capture_at none s w = (false, s, w)
  capture_at (some a) s w =
      if K.bus_ready w && K.resolved_running w
      then capture_via_resolved s (tun_dns_sink a) w
      else capture_via_resolv_conf s (tun_dns_sink a) w

  unfoldable pub capture_dns : Session → W → Bool × Session × W
  capture_dns s w =
      if s.dns.captured
      then (true, s, w)
      else if s.tun_index == 0
      then (false, s, w)
      else capture_at s.tun_addr s w

  unfoldable pub release_dns : Session → W → Session × W
  release_dns s w =
      if s.dns.captured
      then (
        record s { dns = no_dns },
        if s.dns.via_resolved then release_via_resolved s w else release_via_resolv_conf s w,
      )
      else (s, w)
