-- ===== src/Netd/Dns/Restore.antt =====
-- What `releaseDNS` leaves of what `captureDNS` found, where /etc/resolv.conf is rewritten.
use bacchus.Shared.{
  ℕ, ◌≡◌, ◌≢◌, refl, ◌∙◌, ap, Bool, true, false, ◌&&◌, some, Bytes, arith, ◌==◌, Bool-cases, inl,
  inr, ==_iff,
}
use bacchus.Ranges.{Addr}
use bacchus.Netd.{Kernel, Session, DnsState, no_dns, Stat, is_link, is_file, is_absent}
use bacchus.Netd.Dns.{
  capture_dns, release_dns, capture_via_resolv_conf, by_stat, write_ours, after_replace,
  restore_link, release_via_resolv_conf, mode_644, resolv_body, tun_dns_sink,
}

-- What is found at /etc/resolv.conf.
pub data Found : Type 0 where
  absent : Found
  link : Bytes → Found
  regular : Bytes → ℕ → Found

abbrev pub stat_of : Found → Stat
stat_of absent = is_absent
stat_of (link t) = is_link
stat_of (regular c m) = is_file m

-- A file system on which the calls succeed, and do what POSIX says; `file` is what it holds.
pub record Files {W : Type 0} (K : Kernel W) (file : W → Found) : Type 0 where
  pub lstat_lem : (w : W) → K.lstat w ≡ stat_of (file w)
  pub readlink_lem : (w : W) (t : Bytes) → file w ≡ link t → K.readlink w ≡ some t
  pub read_lem : (w : W) (c : Bytes) (m : ℕ) → file w ≡ regular c m → K.read_file w ≡ some c
  pub replace_ok : (c : Bytes) (m : ℕ) (w : W) → (K.replace_file c m w).0 ≡ true
  pub replace_lem : (c : Bytes) (m : ℕ) (w : W) → file (K.replace_file c m w).1 ≡ regular c m
  pub remove_ok : (w : W) → (K.remove_file w).0 ≡ true
  pub remove_lem : (w : W) → file (K.remove_file w).1 ≡ absent
  -- The link is made where there is nothing.
  pub symlink_lem : (t : Bytes) (w : W) → file w ≡ absent → file (K.symlink t w).1 ≡ link t

abbrev pub HasMode : Found → Type 0
HasMode absent = Unit
HasMode (link t) = Unit
HasMode (regular c m) = m ≢ 0

module _ {W : Type 0} (K : Kernel W) (to_text : Addr → Bytes) (file : W → Found)
    (F : Files K file) where
  -- The record that a capture makes of what it found.
  abbrev remembered : DnsState → Found → DnsState
  remembered d absent = record d { captured = true }
  remembered d (link t) = record d { captured = true; resolv_was_symlink = true; resolv_target = t }
  remembered d (regular c m) = record d {
    captured = true;
    resolv_content = some c;
    resolv_mode = m;
  }

  replaced-dns :
      (s : Session) (r : Bool × W) (f : Found)
      → r.0 ≡ true
      → file r.1 ≡ f
      → let (done, s', w') = after_replace K to_text s r in
        (done ≡ true) × (s'.dns ≡ record s.dns { captured = true }) × (file w' ≡ f)
  replaced-dns s (true, w) f ok e = (refl, refl, e)
  replaced-dns s (false, w) f ok e = absurd (cc)

  write_ours-dns :
      (s : Session) (a : Addr) (w : W)
      → let (done, s', w') = write_ours K to_text s a w in
        (done ≡ true)
        × (s'.dns ≡ record s.dns { captured = true })
        × (file w' ≡ regular (resolv_body to_text a) mode_644)
  write_ours-dns s a w =
      let body = resolv_body to_text a in
      replaced-dns s (K.replace_file body mode_644 w) (regular body mode_644)
        (F.replace_ok body mode_644 w) (F.replace_lem body mode_644 w)

  captured-dns :
      (s : Session) (a : Addr) (w : W) (f : Found)
      → file w ≡ f
      → let (done, s', w') = by_stat K to_text s a w (stat_of f) in
        (done ≡ true)
        × (s'.dns ≡ remembered s.dns f)
        × (file w' ≡ regular (resolv_body to_text a) mode_644)
  captured-dns s a w absent e = write_ours-dns s a w
  captured-dns s a w (link t) e = rw (F.readlink_lem w t e) (write_ours-dns _ a w)
  captured-dns s a w (regular c m) e = rw (F.read_lem w c m e) (write_ours-dns _ a w)

  linked_again :
      (s : Session) (r : Bool × W) (t : Bytes)
      → s.dns.resolv_target ≡ t
      → r.0 ≡ true
      → file r.1 ≡ absent
      → file (restore_link K to_text s r) ≡ link t
  linked_again s (true, w) t target ok gone = rw target (F.symlink_lem t w gone)
  linked_again s (false, w) t target ok gone = absurd (cc)

  released_file :
      (s : Session) (v : W) (f : Found)
      → HasMode f
      → s.dns ≡ remembered no_dns f
      → file (release_via_resolv_conf K to_text s v) ≡ f
  unfolding release_via_resolv_conf
  released_file s v absent h e = rw e (F.remove_lem v)
  released_file s v (link t) h e =
      let target : s.dns.resolv_target ≡ t = ap (λ (d : DnsState). d.resolv_target) e in
      let was : s.dns.resolv_was_symlink ≡ true = ap (λ (d : DnsState). d.resolv_was_symlink) e in
      rw was (linked_again s (K.remove_file v) t target (F.remove_ok v) (F.remove_lem v))
  released_file s v (regular c m) h e = elim (Bool-cases (m == 0)) [
    | inl zero ↦ absurd (h ((==_iff m 0).0 zero))
    | inr set ↦ rw (e, set) (F.replace_lem c m v)
  ]

  remembered-captured : (f : Found) → (remembered no_dns f).captured ≡ true
  remembered-captured absent = refl
  remembered-captured (link t) = refl
  remembered-captured (regular c m) = refl

  remembered-via : (f : Found) → (remembered no_dns f).via_resolved ≡ false
  remembered-via absent = refl
  remembered-via (link t) = refl
  remembered-via (regular c m) = refl

  release_restores :
      (s : Session) (v : W) (f : Found)
      → HasMode f
      → s.dns ≡ remembered no_dns f
      → let (s', v') = release_dns K to_text s v in (s'.dns ≡ no_dns) × (file v' ≡ f)
  unfolding release_dns
  release_restores s v f h e =
      let cap : s.dns.captured ≡ true =
        ap (λ (d : DnsState). d.captured) e ∙ remembered-captured f in
      let via : s.dns.via_resolved ≡ false =
        ap (λ (d : DnsState). d.via_resolved) e ∙ remembered-via f in
      let restored = released_file s v f h e in ground arith

  capture-by_stat :
      (s : Session) (w : W) (a : Addr)
      → s.dns.captured ≡ false
      → (s.tun_index == 0) ≡ false
      → s.tun_addr ≡ some a
      → (K.bus_ready w && K.resolved_running w) ≡ false
      → capture_dns K to_text s w ≡ by_stat K to_text s (tun_dns_sink a) w (stat_of (file w))
  unfolding capture_dns capture_via_resolv_conf
  capture-by_stat s w a uncaptured tun addr no_resolved = ground (arith, F.lstat_lem w)

  -- The resolver comes back: on a machine without systemd-resolved, a capture by a session that has a
  -- configured TUN and no capture yet succeeds and writes the tunnel's resolver, and a release by the same
  -- session, whatever was done to the machine and to the rest of the session meanwhile, leaves at
  -- /etc/resolv.conf the link, the file with its mode, or the absence that the capture found, and forgets
  -- the capture. A file that was found has a mode other than 0, and the file system works.
  pub capture_release :
      (s t : Session) (w v : W) (a : Addr)
      → HasMode (file w)
      → s.dns ≡ no_dns
      → (s.tun_index == 0) ≡ false
      → s.tun_addr ≡ some a
      → (K.bus_ready w && K.resolved_running w) ≡ false
      → t.dns ≡ (capture_dns K to_text s w).1.dns
      → let (done, s', w') = capture_dns K to_text s w in
        let (t', v') = release_dns K to_text t v in
        (done ≡ true)
        × (file w' ≡ regular (resolv_body to_text (tun_dns_sink a)) mode_644)
        × (t'.dns ≡ no_dns)
        × (file v' ≡ file w)
  capture_release s t w v a mode fresh tun addr no_resolved same =
      let uncaptured : s.dns.captured ≡ false = ap (λ (d : DnsState). d.captured) fresh in
      let (ok, mem, ours) = captured-dns s (tun_dns_sink a) w (file w) refl in
      let fresh_mem = ap (λ (d : DnsState). remembered d (file w)) fresh in
      let by = capture-by_stat s w a uncaptured tun addr no_resolved in
      let same' = same ∙ ap (λ (x : Bool × Session × W). x.1.dns) by in
      let (forgot, back) = release_restores t v (file w) mode (same' ∙ mem ∙ fresh_mem) in
      rw by (ok, ours, forgot, back)
