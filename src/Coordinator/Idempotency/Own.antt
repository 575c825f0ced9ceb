-- ===== src/Coordinator/Idempotency/Own.antt =====
-- Whose answer is replayed: a client only gets its own.
use bacchus.Shared.{
  ℕ, ◌+◌, ◌≤◌, List, [], ◌∷◌, ◌++◌, ◌≡◌, refl, Option, none, some, Bytes, length, All, arith, In,
  ◌⊎◌, ap, subst, All-In, Option-cases, bytes_eq, bytes_eq_iff, Bool-cases, inl, inr, ◌==◌,
}
use bacchus.Delegation.Envelope.{NoNul, nul_separates}
use bacchus.Coordinator.Idempotency.{
  Send, MintedConnect, Entry, connect_dedupe_ttl, connect_key, find, put, is_expired,
  replay_minted_connect, pair_and_reply, prune_minted_connects,
}
use bacchus.Coordinator.Idempotency.Replay.{Step, pairs, prunes, step, run}

module _ {W : Type 0} where
  abbrev entry_of : Bytes → Bytes → Option Bytes → W → W → ℕ → Entry W
  entry_of src nonce peer assign reply at = record {
    key = connect_key (some src) nonce;
    minted = record { peer = peer; assign = assign; reply = reply; at = at };
  }

  -- The connect that an entry was recorded for.
  abbrev IsOrigin : Entry W → Step W → Type 0
  IsOrigin e (pairs none n p a r now) = ⊥
  IsOrigin e (pairs (some s) n p a r now) = e ≡ entry_of s n p a r now
  IsOrigin e (prunes now) = ⊥

  put-In :
      (key : Bytes) (m : MintedConnect W) (t : List (Entry W)) (e : Entry W)
      → In e (put key m t)
      → (e ≡ record { key = key; minted = m }) ⊎ In e t
  unfolding put
  put-In key m [] e h = h
  put-In key m (x ∷ xs) e h = elim (Bool-cases (bytes_eq x.key key)) [
    | inl here ↦ ground arith
    | inr there ↦ ground (arith, put-In key m xs e)
  ]

  prune-In :
      (now : ℕ) (t : List (Entry W)) (e : Entry W) → In e (prune_minted_connects now t) → In e t
  unfolding prune_minted_connects
  prune-In now [] e h = h
  prune-In now (x ∷ xs) e h = elim (Bool-cases (is_expired now x.minted)) [
    | inl over ↦ ground (arith, prune-In now xs e)
    | inr fresh ↦ ground (arith, prune-In now xs e)
  ]

  step-IsOrigin :
      (s : Step W) (t : List (Entry W)) (e : Entry W) → In e (step s t) → IsOrigin e s ⊎ In e t
  unfolding step pair_and_reply
  step-IsOrigin (pairs none n p a r now) t e h = inr h
  step-IsOrigin (pairs (some s) n p a r now) t e h = elim (Bool-cases (length n == 0)) [
    | inl unnamed ↦ ground arith
    | inr named ↦ ground (
      arith,
      put-In (connect_key (some s) n) (record { peer = p; assign = a; reply = r; at = now }) t e,
    )
  ]
  step-IsOrigin (prunes now) t e h = inr (prune-In now t e h)

  run-IsOrigin :
      (ss : List (Step W)) (t : List (Entry W)) (e : Entry W)
      → In e (run ss t)
      → ((s : Step W) × In s ss × IsOrigin e s) ⊎ In e t
  unfolding run
  run-IsOrigin [] t e h = inr h
  run-IsOrigin (s ∷ ss) t e h = elim (run-IsOrigin ss (step s t) e h) [
    | inl (s', m, o) ↦ inl (s', inr m, o)
    | inr m ↦ elim (step-IsOrigin s t e m) [
      | inl o ↦ inl (s, inl refl, o)
      | inr before ↦ inr before
    ]
  ]

  find-In :
      (key : Bytes) (t : List (Entry W)) (m : MintedConnect W)
      → find key t ≡ some m
      → In (record { key = key; minted = m }) t
  unfolding find
  find-In key [] m h = ground arith
  find-In key (e ∷ es) m h = elim (Bool-cases (bytes_eq e.key key)) [
    | inl here ↦ inl (ground (arith, bytes_eq_iff e.key key))
    | inr there ↦ inr (find-In key es m (ground arith))
  ]

  abbrev pub HasPlainSource : Step W → Type 0
  HasPlainSource (pairs none n p a r now) = Unit
  HasPlainSource (pairs (some s) n p a r now) = NoNul s
  HasPlainSource (prunes now) = Unit

  origin-step :
      (src nonce : Bytes) (m : MintedConnect W) (s : Step W)
      → NoNul src
      → HasPlainSource s
      → IsOrigin (record { key = connect_key (some src) nonce; minted = m }) s
      → s ≡ pairs (some src) nonce m.peer m.assign m.reply m.at
  unfolding connect_key
  origin-step src nonce m (pairs none n p a r now) hs plain o = absurd o
  origin-step src nonce m (pairs (some s) n p a r now) hs plain o =
      let same : src ++ (0 ∷ nonce) ≡ s ++ (0 ∷ n) = ap (λ e. e.key) o in
      let (same_src, same_nonce) = nul_separates src s nonce n hs plain same in
      let same_m : ◌≡◌ {A = MintedConnect W} m
          (record { peer = p; assign = a; reply = r; at = now }) =
        ap (λ e. e.minted) o in
      ground arith
  origin-step src nonce m (prunes now) hs plain o = absurd o

  -- The datagrams of an answer: the node's, if there is one, and then the client's.
  abbrev pub answer : Bytes → Option Bytes → W → W → List (Send W)
  answer src none assign reply = record { to = some src; wire = reply } ∷ []
  answer src (some peer) assign reply =
      record { to = some peer; wire = assign } ∷ record { to = some src; wire = reply } ∷ []

  -- A client is only ever replayed its own answer: what is replayed to a source and a nonce, from a
  -- table that was empty at first, is exactly the answer to a connect of that source and that nonce,
  -- answered at most 30 seconds before: its datagram to the node it was paired with, if any, then its
  -- reply to the client, and nothing else. No address holds a NUL.
  pub replay_is_own :
      (src nonce : Bytes) (now : ℕ) (ss : List (Step W)) (sent : List (Send W))
      → NoNul src
      → All HasPlainSource ss
      → replay_minted_connect (some src) nonce now (run ss []) ≡ some sent
      → (peer : Option Bytes) × (assign : W) × (reply : W) × (at : ℕ) × In
          (pairs (some src) nonce peer assign reply at)
          ss
        × (now ≤ at + connect_dedupe_ttl)
        × (sent ≡ answer src peer assign reply)
  unfolding replay_minted_connect is_expired
  replay_is_own src nonce now ss sent hs plain h =
      elim (Option-cases (find (connect_key (some src) nonce) (run ss []))) [
        | inl never ↦ ground arith
        | inr (m, found) ↦
            elim (run-IsOrigin ss [] (record { key = connect_key (some src) nonce; minted = m })
              (find-In (connect_key (some src) nonce) (run ss []) m found)) [
                | inr none_before ↦ absurd none_before
                | inl (s, i, o) ↦
                    let e = origin-step src nonce m s hs (All-In HasPlainSource s ss plain i) o in
                    (
                      m.peer,
                      m.assign,
                      m.reply,
                      m.at,
                      subst (λ x. In x ss) e i,
                      ground arith,
                      elim (Option-cases m.peer) [
                        | inl no_peer ↦ ground arith
                        | inr (a, peer) ↦ ground arith
                      ],
                    )
              ]
      ]
