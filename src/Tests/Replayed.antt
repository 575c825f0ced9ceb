-- ===== src/Tests/Replayed.antt =====
-- Replayed connects at concrete inputs: a datagram is a number.
use bacchus.Shared.{
  ℕ, ◌+◌, ◌≤◌, List, [], ◌∷◌, ◌≡◌, refl, Option, none, some, Bytes, codes, arith, In, bytes_eq,
}
use bacchus.Coordinator.Idempotency.{
  Send, connect_dedupe_ttl, connect_key, find, put, is_expired, replay_minted_connect,
  pair_and_reply, prune_minted_connects,
}
use bacchus.Coordinator.Idempotency.Replay.{Step, pairs, prunes, step, run, replay_repeats}
use bacchus.Coordinator.Idempotency.Own.{answer, replay_is_own}

abbrev client : Bytes
client = codes "192.0.2.1:9"

abbrev nonce : Bytes
nonce = codes "n1"

-- Another client's connect, one without a nonce, and a sweep.
abbrev steps : List (Step ℕ)
steps =
    pairs (some (codes "192.0.2.2:9")) nonce none 3 4 2_000_000_000
    ∷ pairs (some (codes "192.0.2.3:9")) [] none 5 6 2_000_000_000
    ∷ prunes 9_000_000_000
    ∷ []

replay_repeats_example :
    replay_minted_connect (some client) nonce 31_000_000_000 (
      run steps
        (pair_and_reply {W = ℕ} (some client) nonce (some (codes "exit")) 1 2 1_000_000_000 []).1)
    ≡ some
        (record { to = some (codes "exit"); wire = 1 } ∷ record { to = some client; wire = 2 } ∷ [])
unfolding pair_and_reply
replay_repeats_example =
    replay_repeats {W = ℕ} client nonce (codes "exit") 1 2 1_000_000_000 31_000_000_000 [] steps
      (omega arith) (λ e. ground arith) (ground arith) (omega arith)

replay_is_own_example :
    (peer : Option Bytes) × (assign : ℕ) × (reply : ℕ) × (at : ℕ) × In
      (pairs (some client) nonce peer assign reply at)
      (pairs (some client) nonce (some (codes "exit")) 1 2 1_000_000_000 ∷ steps)
    × (31_000_000_000 ≤ at + connect_dedupe_ttl)
    × (◌≡◌ {A = List (Send ℕ)}
        (record { to = some (codes "exit"); wire = 1 } ∷ record { to = some client; wire = 2 } ∷ [])
        (answer client peer assign reply))
unfolding replay_minted_connect run step pair_and_reply prune_minted_connects put find is_expired
    connect_key bytes_eq
replay_is_own_example =
    replay_is_own {W = ℕ} client nonce 31_000_000_000
      (pairs (some client) nonce (some (codes "exit")) 1 2 1_000_000_000 ∷ steps)
      (record { to = some (codes "exit"); wire = 1 } ∷ record { to = some client; wire = 2 } ∷ [])
      (omega arith) (omega arith) refl
