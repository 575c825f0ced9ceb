-- ===== src/Netd/Dns/Same.antt =====
-- A capture of the resolver changes nothing else of the session.
use bacchus.Shared.{◌≡◌, refl, Bool, true, false, Option, none, some, Bytes, arith}
use bacchus.Ranges.{Addr}
use bacchus.Netd.{Kernel, Session, GatewayInfo, Stat, is_link, is_file, is_absent, stat_failed}
use bacchus.Netd.Dns.{
  capture_via_resolved, demote_physical, by_stat, after_domains, after_link_dns, after_replace,
  saved_link, saved_file,
}

-- A session in which only the record of the resolver may differ.
abbrev pub SameBut : Session → Session → Type 0
SameBut s s' =
    (s'.tun_index ≡ s.tun_index)
    × (s'.tun_addr ≡ s.tun_addr)
    × (s'.gw ≡ s.gw)
    × (s'.ipv6_for ≡ s.ipv6_for)
    × (s'.kill_switch_armed ≡ s.kill_switch_armed)

module _ {W : Type 0} (K : Kernel W) (to_text : Addr → Bytes) where
  demote-SameBut :
      (g : Option GatewayInfo) (s : Session) (w : W)
      → let (o, s', w') = demote_physical K to_text g s w in SameBut s s'
  unfolding demote_physical
  demote-SameBut none s w = ground arith
  demote-SameBut (some g) s w = ground arith

  pub resolved-SameBut :
      (s : Session) (a : Addr) (w : W)
      → let (o, s', w') = capture_via_resolved K to_text s a w in SameBut s s'
  unfolding capture_via_resolved
  resolved-SameBut s a w = linked (K.set_link_dns s.tun_index a w)
    where
      domained : (r : Bool × W) → let (o, s', w') = after_domains K to_text s r in SameBut s s'
      domained (false, w1) = (refl, refl, refl, refl, refl)
      domained (true, w1) = demote-SameBut s.gw _ w1

      linked : (r : Bool × W) → let (o, s', w') = after_link_dns K to_text s r in SameBut s s'
      linked (false, w1) = (refl, refl, refl, refl, refl)
      linked (true, w1) = domained (K.set_link_domains s.tun_index w1)

  replace-SameBut :
      (s t : Session) (r : Bool × W)
      → SameBut s t
      → let (o, s', w') = after_replace K to_text t r in SameBut s s'
  replace-SameBut s t (false, w) h = h
  replace-SameBut s t (true, w) h = h

  pub by_stat-SameBut :
      (s : Session) (a : Addr) (w : W) (st : Stat)
      → let (o, s', w') = by_stat K to_text s a w st in SameBut s s'
  by_stat-SameBut s a w is_link = linked (K.readlink w)
    where
      linked : (t : Option Bytes) → let (o, s', w') = saved_link K to_text s a w t in SameBut s s'
      linked none = (refl, refl, refl, refl, refl)
      linked (some t) = replace-SameBut s _ _ (refl, refl, refl, refl, refl)
  by_stat-SameBut s a w (is_file m) = filed (K.read_file w)
    where
      filed : (c : Option Bytes) → let (o, s', w') = saved_file K to_text s a w m c in SameBut s s'
      filed none = (refl, refl, refl, refl, refl)
      filed (some c) = replace-SameBut s _ _ (refl, refl, refl, refl, refl)
  by_stat-SameBut s a w is_absent = replace-SameBut s s _ (refl, refl, refl, refl, refl)
  by_stat-SameBut s a w stat_failed = (refl, refl, refl, refl, refl)
