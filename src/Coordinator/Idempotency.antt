-- ===== src/Coordinator/Idempotency.antt =====
-- cmd/coordinator/idempotency.go: the answers that are replayed to the copies of one connect. A source
-- address is its text, `none` is a nil address, and `W` is the type of the datagrams (`wire`). What is
-- sent is a list; the map of answers is a list of entries with distinct keys.
pub mod Replay
pub mod Own
use bacchus.Shared.{
  ℕ, ◌-◌, ◌++◌, List, [], ◌∷◌, Bool, true, false, not, ◌||◌, Option, none, some, Bytes, length, ltb,
  ◌==◌, bytes_eq, if◌then◌else◌,
}

-- 30 seconds.
abbrev pub connect_dedupe_ttl : ℕ
connect_dedupe_ttl = 30_000_000_000

pub record Send (W : Type 0) : Type 0 where
  pub to : Option Bytes
  pub wire : W

pub record MintedConnect (W : Type 0) : Type 0 where
  pub peer : Option Bytes
  pub assign : W
  pub reply : W
  pub at : ℕ

pub record Entry (W : Type 0) : Type 0 where
  pub key : Bytes
  pub minted : MintedConnect W

unfoldable pub connect_key : Option Bytes → Bytes → Bytes
connect_key none nonce = []
connect_key (some src) nonce = src ++ (0 ∷ nonce)

module _ {W : Type 0} where
  unfoldable pub find : Bytes → List (Entry W) → Option (MintedConnect W)
  find key [] = none
  find key (e ∷ es) = let rest = find key es in if bytes_eq e.key key then some e.minted else rest

  unfoldable pub put : Bytes → MintedConnect W → List (Entry W) → List (Entry W)
  put key m [] = record { key = key; minted = m } ∷ []
  put key m (e ∷ es) =
      let rest = put key m es in
      if bytes_eq e.key key then record { key = key; minted = m } ∷ es else e ∷ rest

  unfoldable pub is_expired : ℕ → MintedConnect W → Bool
  is_expired now m = ltb connect_dedupe_ttl (now - m.at)

  abbrev replay_sends : Bytes → MintedConnect W → Option Bytes → List (Send W)
  replay_sends src m none = record { to = some src; wire = m.reply } ∷ []
  replay_sends src m (some peer) =
      record { to = some peer; wire = m.assign } ∷ record { to = some src; wire = m.reply } ∷ []

  abbrev replay_found : Bytes → ℕ → Option (MintedConnect W) → Option (List (Send W))
  replay_found src now none = none
  replay_found src now (some m) =
      if is_expired now m then none else some (replay_sends src m m.peer)

  -- What is sent again, or `none` for the result `false`.
  unfoldable pub replay_minted_connect :
      Option Bytes → Bytes → ℕ → List (Entry W) → Option (List (Send W))
  replay_minted_connect none nonce now t = none
  replay_minted_connect (some src) nonce now t =
      if length nonce == 0
      then none
      else replay_found src now (find (connect_key (some src) nonce) t)

  unfoldable pub pair_and_reply :
      Option Bytes
      → Bytes
      → Option Bytes
      → W
      → W
      → ℕ
      → List (Entry W)
      → List (Send W) × List (Entry W)
  pair_and_reply none nonce peer assign reply now t =
      (record { to = peer; wire = assign } ∷ record { to = none; wire = reply } ∷ [], t)
  pair_and_reply (some src) nonce peer assign reply now t = (
    record { to = peer; wire = assign } ∷ record { to = some src; wire = reply } ∷ [],
    if length nonce == 0
        then t
        else put (connect_key (some src) nonce)
            (record { peer = peer; assign = assign; reply = reply; at = now }) t,
  )

  unfoldable pub prune_minted_connects : ℕ → List (Entry W) → List (Entry W)
  prune_minted_connects now [] = []
  prune_minted_connects now (e ∷ es) =
      let rest = prune_minted_connects now es in if is_expired now e.minted then rest else e ∷ rest
