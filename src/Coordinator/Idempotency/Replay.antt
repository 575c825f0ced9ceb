-- ===== src/Coordinator/Idempotency/Replay.antt =====
-- One request is one answer: the copies of a connect get the bytes of the first one.
use bacchus.Shared.{
  ℕ, ◌+◌, ◌≤◌, List, [], ◌∷◌, ◌++◌, false, ◌≡◌, ◌≢◌, refl, Option, none, some, Bytes, All, arith,
  bytes_eq, bytes_eq_iff, bytes_eq_refl, Bool-cases, inl, inr,
}
use bacchus.Delegation.Envelope.{NoNul, nul_separates}
use bacchus.Coordinator.Idempotency.{
  MintedConnect, Entry, connect_dedupe_ttl, connect_key, find, put, is_expired,
  replay_minted_connect, pair_and_reply, prune_minted_connects,
}

-- What happens to the table: a connect is answered, or the table is swept.
pub data Step (W : Type 0) : Type 0 where
  pairs : Option Bytes → Bytes → Option Bytes → W → W → ℕ → Step W
  prunes : ℕ → Step W

other_key :
    (src s nonce n : Bytes)
    → NoNul src
    → NoNul s
    → ¬ ((s ≡ src) × (n ≡ nonce))
    → bytes_eq (connect_key (some s) n) (connect_key (some src) nonce) ≡ false
unfolding connect_key
other_key src s nonce n hs hs' other =
    elim (Bool-cases (bytes_eq (s ++ (0 ∷ n)) (src ++ (0 ∷ nonce)))) [
      | inr differ ↦ differ
      | inl same ↦ absurd (
          other (
            nul_separates s src n nonce hs' hs
              ((bytes_eq_iff (s ++ (0 ∷ n)) (src ++ (0 ∷ nonce))).0 same)))
    ]

module _ {W : Type 0} where
  unfoldable pub step : Step W → List (Entry W) → List (Entry W)
  step (pairs src nonce peer assign reply now) t =
      (pair_and_reply src nonce peer assign reply now t).1
  step (prunes now) t = prune_minted_connects now t

  unfoldable pub run : List (Step W) → List (Entry W) → List (Entry W)
  run [] t = t
  run (s ∷ ss) t = run ss (step s t)

  -- Another client's connect, or another one of this client, or a sweep in time.
  abbrev pub IsOther : Bytes → Bytes → ℕ → Step W → Type 0
  IsOther src nonce at (pairs none n _ _ _ _) = Unit
  IsOther src nonce at (pairs (some s) n _ _ _ _) = NoNul s × ¬ ((s ≡ src) × (n ≡ nonce))
  IsOther src nonce at (prunes now) = now ≤ at + connect_dedupe_ttl

  find-put_same :
      (key : Bytes) (m : MintedConnect W) (t : List (Entry W)) → find key (put key m t) ≡ some m
  unfolding find put
  find-put_same key m [] = ground (arith, bytes_eq_refl key)
  find-put_same key m (e ∷ es) = ground (arith, bytes_eq_refl key, find-put_same key m es)

  find-put_other :
      (key other : Bytes) (m : MintedConnect W) (t : List (Entry W))
      → bytes_eq other key ≡ false
      → find key (put other m t) ≡ find key t
  unfolding find put
  find-put_other key other m [] h = ground arith
  find-put_other key other m (e ∷ es) h =
      ground (arith, find-put_other key other m es h, bytes_eq_iff e.key other)

  find-prune :
      (key : Bytes) (now : ℕ) (m : MintedConnect W) (t : List (Entry W))
      → find key t ≡ some m
      → is_expired now m ≡ false
      → find key (prune_minted_connects now t) ≡ some m
  unfolding find prune_minted_connects
  find-prune key now m [] h fresh = ground arith
  find-prune key now m (e ∷ es) h fresh = elim (Bool-cases (bytes_eq e.key key)) [
    | inl here ↦ ground arith
    | inr there ↦ ground (arith, find-prune key now m es (ground arith) fresh)
  ]

  step_keeps :
      (src nonce : Bytes) (m : MintedConnect W) (s : Step W) (t : List (Entry W))
      → NoNul src
      → IsOther src nonce m.at s
      → find (connect_key (some src) nonce) t ≡ some m
      → find (connect_key (some src) nonce) (step s t) ≡ some m
  unfolding step pair_and_reply is_expired
  step_keeps src nonce m (pairs none n p a r now) t hs other h = h
  step_keeps src nonce m (pairs (some s) n p a r now) t hs other h =
      let k = connect_key (some src) nonce in
      let kept =
        find-put_other k (connect_key (some s) n)
          (record { peer = p; assign = a; reply = r; at = now }) t
          (other_key src s nonce n hs other.0 other.1) in
      ground (arith, kept)
  step_keeps src nonce m (prunes now) t hs other h =
      find-prune (connect_key (some src) nonce) now m t h (unfold is_expired in ground arith)

  run_keeps :
      (src nonce : Bytes) (m : MintedConnect W) (ss : List (Step W)) (t : List (Entry W))
      → NoNul src
      → All (IsOther src nonce m.at) ss
      → find (connect_key (some src) nonce) t ≡ some m
      → find (connect_key (some src) nonce) (run ss t) ≡ some m
  unfolding run
  run_keeps src nonce m [] t hs others h = h
  run_keeps src nonce m (s ∷ ss) t hs others h =
      run_keeps src nonce m ss (step s t) hs others.1 (step_keeps src nonce m s t hs others.0 h)

  -- A copy of a connect that comes within 30 seconds of the first is answered with exactly what was
  -- sent for the first, to the node and to the client, whatever other connects were answered in
  -- between and whenever the table was swept in that time. The connect has a nonce and was paired
  -- with a node, and no address holds a NUL.
  pub replay_repeats :
      (src nonce peer : Bytes) (assign reply : W) (at now : ℕ) (t : List (Entry W))
      (ss : List (Step W))
      → NoNul src
      → nonce ≢ []
      → All (IsOther src nonce at) ss
      → now ≤ at + connect_dedupe_ttl
      → let (sent, t') = pair_and_reply (some src) nonce (some peer) assign reply at t in
        replay_minted_connect (some src) nonce now (run ss t') ≡ some sent
  unfolding replay_minted_connect pair_and_reply is_expired
  replay_repeats src [] peer assign reply at now t ss hs named others in_time = absurd (named refl)
  replay_repeats src (c ∷ nonce) peer assign reply at now t ss hs named others in_time =
      let m : MintedConnect W = record {
        peer = some peer;
        assign = assign;
        reply = reply;
        at = at;
      } in
      let k = connect_key (some src) (c ∷ nonce) in
      let kept = run_keeps src (c ∷ nonce) m ss (put k m t) hs others (find-put_same k m t) in
      ground (arith, kept)
