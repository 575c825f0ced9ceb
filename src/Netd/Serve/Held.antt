-- ===== src/Netd/Serve/Held.antt =====
-- What lifts a lockdown of the helper.
use bacchus.Shared.{
  ℕ, ◌≡◌, ◌≢◌, ◌⊎◌, inl, inr, refl, ◌∙◌, List, [], ◌∷◌, Bool, true, false, Option, none, some,
  Bytes, arith, Bool-cases, Result-cases, All, sym, ap,
}
use bacchus.Ranges.{Addr}
use bacchus.Netd.{Kernel, Session, Request, Verb, Reply, new_session}
use bacchus.Netd.Parse.{Parser}
use bacchus.Netd.Frame.{Firewall, if-locked, reap_routes-locked, restore_ipv6-locked, revoke-locked}
use bacchus.Netd.Frame.Resolver.{capture-locked, release-locked}
use bacchus.Netd.Frame.Verbs.{
  exclusion-locked, inclusion-locked, remove-locked, create_tun-locked, configure-locked,
  split-locked, disable_ipv6-locked, enable_ipv6-locked, refresh-locked, allow_served-locked,
}
use bacchus.Netd.Dns.{capture_dns}
use bacchus.Netd.Lockdown.{handle_recover_kill_switch}
use bacchus.Netd.Serve.{
  authorize, serve_verb, dispatch, authorized, dns_reply, handle_open, handle_close, client_gone,
  left, orphan, reap_orphan, with_token, Event, asked, malformed, gone, step, run, after_reply,
}
use bacchus.Netd.Serve.Token.{authorize_sound, stranger_changes_nothing}

none-ne-some : {A : Type 0} {a : A} → ◌≡◌ {A = Option A} none (some a) → ⊥
none-ne-some e = cc

module _ {W : Type 0} (K : Kernel W) (P : Parser) (to_text : Addr → Bytes) (locked : W → Bool)
    (F : Firewall K locked) where
  -- The verbs that work on the table of the firewall.
  abbrev OnTable : Session → Verb → Type 0
  OnTable s Verb.enable_kill_switch = Unit
  OnTable s Verb.disable_kill_switch = Unit
  OnTable s Verb.recover_kill_switch = s.kill_switch_armed ≡ false
  OnTable s _ = ⊥

  dns_reply-locked :
      (r : Bool × Session × W)
      → let (a, s, w) = dns_reply K P to_text r in let (b, s', w') = r in w ≡ w'
  dns_reply-locked (true, s, w) = refl
  dns_reply-locked (false, s, w) = refl

  recover_armed :
      (s : Session) (w : W) → s.kill_switch_armed ≡ true → handle_recover_kill_switch K s w ≡ w
  unfolding handle_recover_kill_switch
  recover_armed s w h = ground arith

  -- An armed session's lockdown is out of reach of a recovery.
  serve_verb-locked :
      (s : Session) (req : Request) (w : W) (v : Verb)
      → let (r, s', w') = serve_verb K P to_text s req w v in OnTable s v ⊎ (locked w' ≡ locked w)
  unfolding serve_verb
  serve_verb-locked s req w Verb.begin = inr refl
  serve_verb-locked s req w Verb.close = inr refl
  serve_verb-locked s req w Verb.default_gateway = inr refl
  serve_verb-locked s req w Verb.add_exclusion_routes =
      inr (exclusion-locked K P locked F s req false w)
  serve_verb-locked s req w Verb.add_exclusion_routes_v6 =
      inr (exclusion-locked K P locked F s req true w)
  serve_verb-locked s req w Verb.add_inclusion_routes = inr (inclusion-locked K P locked F s req w)
  serve_verb-locked s req w Verb.remove_routes = inr (remove-locked K P locked F req w)
  serve_verb-locked s req w Verb.create_tun = inr (create_tun-locked K P locked F s w)
  serve_verb-locked s req w Verb.configure_tun = inr (configure-locked K P locked F s req w)
  serve_verb-locked s req w Verb.add_split_default_route = inr (split-locked K P locked F s req w)
  serve_verb-locked s req w Verb.disable_physical_ipv6 = inr (disable_ipv6-locked K P locked F s w)
  serve_verb-locked s req w Verb.enable_physical_ipv6 = inr (enable_ipv6-locked K P locked F s w)
  serve_verb-locked s req w Verb.enable_kill_switch = inl tt
  serve_verb-locked s req w Verb.disable_kill_switch = inl tt
  serve_verb-locked s req w Verb.recover_kill_switch = elim (Bool-cases s.kill_switch_armed) [
    | inl armed ↦ inr (ap locked (recover_armed s w armed))
    | inr not_armed ↦ inl not_armed
  ]
  serve_verb-locked s req w Verb.refresh_allow_ip = inr (refresh-locked K P locked F s req w)
  serve_verb-locked s req w Verb.capture_dns = inr (
      ap locked (dns_reply-locked (capture_dns K to_text s w))
      ∙ capture-locked K to_text locked F s w)
  serve_verb-locked s req w Verb.release_dns = inr (release-locked K to_text locked F s w)
  serve_verb-locked s req w Verb.allow_served_egress = inr (allow_served-locked K P locked F s w)
  serve_verb-locked s req w Verb.revoke_served_egress = inr (revoke-locked K locked F s w)
  serve_verb-locked s req w Verb.unknown = inr refl

  close-locked :
      (req : Request) (h : Option Session) (w : W)
      → let (r, h', w') = handle_close K P to_text req h w in locked w' ≡ locked w
  unfolding handle_close
  close-locked req none w = refl
  close-locked req (some s) w = ground (arith, release-locked K to_text locked F s w)

  -- Who may lift a lockdown, and by what.
  abbrev pub MayLift : Request → Option Session → Type 0
  MayLift req none = req.verb ≡ Verb.begin
  MayLift req (some s) = (req.token ≡ s.token) × OnTable s req.verb

  authorized-lifts :
      (req : Request) (h : Option Session) (w : W)
      → let (r, h', w') = authorized K P to_text req h w (authorize req h) in
        MayLift req h ⊎ (locked w' ≡ locked w)
  authorized-lifts req h w = elim (Result-cases (authorize req h)) [
    | inr (r, e) ↦ inr (ground arith)
    | inl (s, e) ↦
        let (held, tok) = authorize_sound req h s e in
        elim (serve_verb-locked s req w req.verb) [
          | inl on_table ↦ inl (rw held (tok, on_table))
          | inr kept ↦ inr (ground arith)
        ]
  ]

  -- A request lifts a lockdown only if it opens a session while there is none, or carries the token of
  -- the open session and arms, disarms or recovers; and it recovers only if this session is not armed.
  -- The calls of the machine that are not about the table of the firewall leave the table as it is.
  pub lift_needs_token :
      (uid : ℕ) (req : Request) (h : Option Session) (w : W)
      → locked w ≡ true
      → locked (dispatch K P to_text uid req h w).2 ≡ false
      → MayLift req h
  unfolding dispatch handle_open
  lift_needs_token uid req none w up down =
      ground (arith, stranger_changes_nothing K P to_text uid req none w (λ (x : ⊥). x))
  lift_needs_token uid req (some s) w up down =
      ground (arith, authorized-lifts req (some s) w, close-locked req (some s) w)

  left-locked : (s : Session) (w : W) → locked (left K P to_text (s, w)) ≡ locked w
  left-locked s w =
      if-locked locked s.kill_switch_armed w w _ refl
        (restore_ipv6-locked K locked F s _ ∙ reap_routes-locked K locked F w)

  orphan-locked : (s : Session) (w : W) → locked (orphan K P to_text (s, w)) ≡ locked w
  orphan-locked s w = left-locked _ _ ∙ revoke-locked K locked F s w

  client_gone-locked :
      (h : Option Session) (w : W) → locked (client_gone K P to_text h w).1 ≡ locked w
  unfolding client_gone
  client_gone-locked none w = refl
  client_gone-locked (some s) w = orphan-locked _ _ ∙ release-locked K to_text locked F s w

  abbrev pub IsNotOpen : Event → Type 0
  IsNotOpen (asked uid req sent) = req.verb ≢ Verb.begin
  IsNotOpen malformed = Unit
  IsNotOpen gone = Unit

  gone_idle :
      (sent : Bool) (r : Reply × Option Session × W) (w : W)
      → let (a, h', w') = r in h' ≡ none → w' ≡ w → after_reply K P to_text sent r ≡ (none, w)
  unfolding client_gone
  gone_idle true (a, h', w') w eh ew = ground arith
  gone_idle false (a, h', w') w eh ew = ground arith

  step_idle : (e : Event) (w : W) → IsNotOpen e → step K P to_text e (none, w) ≡ (none, w)
  unfolding step client_gone
  step_idle (asked uid req sent) w n =
      let same = stranger_changes_nothing K P to_text uid req none w (λ (x : ⊥). x) in
      elim same.0 [
        | inl opens ↦ absurd (n opens.1)
        | inr (eh, ew) ↦ gone_idle sent (dispatch K P to_text uid req none w) w eh ew
      ]
  step_idle malformed w n = refl
  step_idle gone w n = refl

  run_idle : (es : List Event) (w : W) → All IsNotOpen es → run K P to_text es (none, w) ≡ (none, w)
  unfolding run
  run_idle [] w h = refl
  run_idle (e ∷ es) w h = rw (step_idle e w h.0) (run_idle es w h.1)

  client_gone-none : (h : Option Session) (w : W) → (client_gone K P to_text h w).0 ≡ none
  unfolding client_gone
  client_gone-none none w = refl
  client_gone-none (some s) w = refl

  -- A lockdown outlives its client: once a connection ends, no session is open, the table of the firewall
  -- is as it was, and no request of any connection changes anything until one opens a session. The calls
  -- of the machine that are not about the table of the firewall leave the table as it is.
  pub lockdown_outlives_client :
      (h : Option Session) (w : W) (es : List Event)
      → All IsNotOpen es
      → let (h', w') = client_gone K P to_text h w in
        (h' ≡ none) × (locked w' ≡ locked w) × (run K P to_text es (h', w') ≡ (none, w'))
  lockdown_outlives_client h w es idle = (
    client_gone-none h w,
    client_gone-locked h w,
    rw (client_gone-none h w) (run_idle es (client_gone K P to_text h w).1 idle),
  )

  reap_orphan-lifts :
      (w : W)
      → K.nft_dial w ≡ true
      → K.table_exists w ≡ some true
      → locked (reap_orphan K P to_text w) ≡ locked (K.delete_table w).1
  unfolding reap_orphan
  reap_orphan-lifts w dials up = reap_routes-locked K locked F _ ∙ ap locked (rw (dials, up) refl)

  open_fresh :
      (uid : ℕ) (w : W) (tok : Bytes)
      → (K.rand_token (reap_orphan K P to_text w)).0 ≡ some tok
      → let (r, h', w') = handle_open K P to_text uid none w in
        (h' ≡ some (new_session tok uid)) × (locked w' ≡ locked (reap_orphan K P to_text w))
  unfolding handle_open
  open_fresh uid w tok e = fresh (K.rand_token (reap_orphan K P to_text w)) refl e
    where
      fresh :
          (p : Option Bytes × W)
          → K.rand_token (reap_orphan K P to_text w) ≡ p
          → p.0 ≡ some tok
          → let (r, h', w') = with_token K P to_text uid p in
            (h' ≡ some (new_session tok uid)) × (locked w' ≡ locked (reap_orphan K P to_text w))
      fresh (none, w') same t = absurd (none-ne-some t)
      fresh (some u, w') same t = (
        ground arith,
        ap locked (sym (ap (λ (q : Option Bytes × W). q.1) same))
            ∙ F.token_lem (reap_orphan K P to_text w),
      )

  -- A session ends when any connection does, its own or not: where every call works and the lockdown is
  -- armed, the end of a connection and then an open, by whomever, lift the lockdown and give the session
  -- to the one that opened, and no token was shown. The calls of the machine that are not about the table
  -- of the firewall leave the table as it is.
  pub bystander_lifts_lockdown :
      (uid : ℕ) (req : Request) (s : Session) (w : W) (tok : Bytes)
      → req.verb ≡ Verb.begin
      → ((v : W) → K.nft_dial v ≡ true)
      → ((v : W) → K.table_exists v ≡ some (locked v))
      → ((v : W) → locked (K.delete_table v).1 ≡ false)
      → ((v : W) → (K.rand_token v).0 ≡ some tok)
      → locked w ≡ true
      → let (h1, w1) = step K P to_text gone (some s, w) in
        let (r, h2, w2) = dispatch K P to_text uid req h1 w1 in
        (h2 ≡ some (new_session tok uid)) × (locked w2 ≡ false)
  unfolding step dispatch client_gone
  bystander_lifts_lockdown uid req s w tok opens dials exists deletes mints up =
      let w1 : W = (client_gone K P to_text (some s) w).1 in
      let (fresh, same) = open_fresh uid w1 tok (mints _) in
      let gone_up = exists w1 ∙ ap some (client_gone-locked (some s) w ∙ up) in
      let lifted = same ∙ reap_orphan-lifts w1 (dials w1) gone_up ∙ deletes w1 in
      rw opens (fresh, lifted)
