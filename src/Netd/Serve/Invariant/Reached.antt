-- ===== src/Netd/Serve/Invariant/Reached.antt =====
-- Every state that the helper reaches.
use bacchus.Shared.{
  ℕ, ◌<◌, ◌≡◌, List, [], ◌∷◌, Bool, true, false, Option, none, some, Bytes, arith, inl, inr,
  Result-cases,
}
use bacchus.Ranges.{Addr}
use bacchus.Netd.{Kernel, Session, Request, Verb, Reply}
use bacchus.Netd.Parse.{Parser}
use bacchus.Netd.Tun.{handle_create_tun}
use bacchus.Netd.Serve.{
  authorize, serve_verb, dispatch, authorized, handle_open, handle_close, client_gone, with_token,
  Event, asked, malformed, gone, step, run, after_reply, reap_orphan,
}
use bacchus.Netd.Serve.Token.{authorize_sound}
use bacchus.Netd.Serve.Invariant.{
  IsSession, session_of, with_tun-IsSession, configure-IsSession, disable_ipv6-IsSession,
  enable_ipv6-IsSession, revoke-IsSession, allow-IsSession, enable-IsSession, disable-IsSession,
  gateway-IsSession, capture-IsSession, release-IsSession,
}

abbrev pub IsHelper : Option Session → Type 0
IsHelper none = Unit
IsHelper (some s) = IsSession s

module _ {W : Type 0} (K : Kernel W) (P : Parser) (to_text : Addr → Bytes)
    (indices : (w : W) (i : ℕ) → (K.create_tun w).0 ≡ some i → 0 < i) where
  serve_verb-IsSession :
      (s : Session) (req : Request) (w : W) (v : Verb)
      → IsSession s
      → IsSession (session_of K P to_text (serve_verb K P to_text s req w v))
  unfolding serve_verb handle_create_tun
  serve_verb-IsSession s req w Verb.begin h = h
  serve_verb-IsSession s req w Verb.close h = h
  serve_verb-IsSession s req w Verb.default_gateway h = gateway-IsSession K P to_text s w h
  serve_verb-IsSession s req w Verb.add_exclusion_routes h = h
  serve_verb-IsSession s req w Verb.add_exclusion_routes_v6 h = h
  serve_verb-IsSession s req w Verb.add_inclusion_routes h = h
  serve_verb-IsSession s req w Verb.remove_routes h = h
  serve_verb-IsSession s req w Verb.create_tun h =
      with_tun-IsSession K P to_text s (K.create_tun w) (indices w) h
  serve_verb-IsSession s req w Verb.configure_tun h = configure-IsSession K P to_text s req w h
  serve_verb-IsSession s req w Verb.add_split_default_route h = h
  serve_verb-IsSession s req w Verb.disable_physical_ipv6 h =
      disable_ipv6-IsSession K P to_text s w h
  serve_verb-IsSession s req w Verb.enable_physical_ipv6 h = enable_ipv6-IsSession K P to_text s w h
  serve_verb-IsSession s req w Verb.enable_kill_switch h = enable-IsSession K P to_text s req w h
  serve_verb-IsSession s req w Verb.disable_kill_switch h = disable-IsSession K P to_text s w h
  serve_verb-IsSession s req w Verb.recover_kill_switch h = h
  serve_verb-IsSession s req w Verb.refresh_allow_ip h = h
  serve_verb-IsSession s req w Verb.capture_dns h = capture-IsSession K P to_text s w h
  serve_verb-IsSession s req w Verb.release_dns h = release-IsSession K P to_text s w h
  serve_verb-IsSession s req w Verb.allow_served_egress h = allow-IsSession K P to_text s w h
  serve_verb-IsSession s req w Verb.revoke_served_egress h = revoke-IsSession K P to_text s w h
  serve_verb-IsSession s req w Verb.unknown h = h

  authorized-IsHelper :
      (req : Request) (h : Option Session) (w : W)
      → IsHelper h
      → let (r, h', w') = authorized K P to_text req h w (authorize req h) in IsHelper h'
  authorized-IsHelper req h w v = elim (Result-cases (authorize req h)) [
    | inr (r, e) ↦ rw e v
    | inl (s, e) ↦
        rw e (serve_verb-IsSession s req w req.verb (ground (arith, authorize_sound req h s e)))
  ]

  with_token-IsHelper :
      (uid : ℕ) (p : Option Bytes × W)
      → let (r, h', w') = with_token K P to_text uid p in IsHelper h'
  with_token-IsHelper uid (none, w) = tt
  with_token-IsHelper uid (some tok, w) = ground arith

  open-IsHelper :
      (uid : ℕ) (h : Option Session) (w : W)
      → IsHelper h
      → let (r, h', w') = handle_open K P to_text uid h w in IsHelper h'
  unfolding handle_open
  open-IsHelper uid none w v = with_token-IsHelper uid (K.rand_token (reap_orphan K P to_text w))
  open-IsHelper uid (some s) w v = v

  close-IsHelper :
      (req : Request) (h : Option Session) (w : W)
      → IsHelper h
      → let (r, h', w') = handle_close K P to_text req h w in IsHelper h'
  unfolding handle_close
  close-IsHelper req none w v = tt
  close-IsHelper req (some s) w v = ground arith

  dispatch-IsHelper :
      (uid : ℕ) (req : Request) (h : Option Session) (w : W)
      → IsHelper h
      → let (r, h', w') = dispatch K P to_text uid req h w in IsHelper h'
  unfolding dispatch
  dispatch-IsHelper uid req h w v =
      ground
        (arith, open-IsHelper uid h w v, close-IsHelper req h w v, authorized-IsHelper req h w v)

  gone-IsHelper :
      (h : Option Session) (w : W) → let (h', w') = client_gone K P to_text h w in IsHelper h'
  unfolding client_gone
  gone-IsHelper none w = tt
  gone-IsHelper (some s) w = tt

  replied-IsHelper :
      (sent : Bool) (r : Reply) (h : Option Session) (w : W)
      → IsHelper h
      → let (h', w') = after_reply K P to_text sent (r, h, w) in IsHelper h'
  replied-IsHelper true r h w v = v
  replied-IsHelper false r h w v = gone-IsHelper h w

  step-IsHelper :
      (e : Event) (h : Option Session) (w : W)
      → IsHelper h
      → let (h', w') = step K P to_text e (h, w) in IsHelper h'
  unfolding step
  step-IsHelper (asked uid req sent) h w v =
      let (r, h', w') = dispatch K P to_text uid req h w in
      replied-IsHelper sent r h' w' (dispatch-IsHelper uid req h w v)
  step-IsHelper malformed h w v = v
  step-IsHelper gone h w v = gone-IsHelper h w

  -- Whatever the connections ask and in whatever order they end, the session that is open is well formed:
  -- a configured TUN exists and has an address of 32 bits, a kill switch is armed only where there is a TUN,
  -- the resolver is captured only towards a configured TUN, and IPv6 was turned off only after a gateway
  -- was read. The kernel gives a new TUN an index above 0.
  pub run-IsHelper :
      (es : List Event) (h : Option Session) (w : W)
      → IsHelper h
      → let (h', w') = run K P to_text es (h, w) in IsHelper h'
  unfolding run
  run-IsHelper [] h w v = v
  run-IsHelper (e ∷ es) h w v =
      let (h', w') = step K P to_text e (h, w) in run-IsHelper es h' w' (step-IsHelper e h w v)
