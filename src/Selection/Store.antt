-- ===== src/Selection/Store.antt =====
-- core/selection/store.go: what a client remembers to have worked on a network. The map is a list with
-- one record for each key, in the order in which Go happens to range over it. A store's time to live
-- is far below the largest `time.Duration`, so that the age of a record need not stop there.
pub mod Best
use bacchus.Shared.{
  ℕ, ◌-◌, ◌++◌, List, [], ◌∷◌, Bool, true, false, not, ◌&&◌, ◌||◌, Option, none, some, Bytes,
  bytes_eq, ltb, if◌then◌else◌, ℤ, pos, negsuc, ltb_ℤ, eqb_ℤ, ◌+◌, ◌*◌,
}
use bacchus.Selection.{Candidate}

pub record Record : Type 0 where
  pub net : Bytes
  pub geo : Bytes
  pub country : Bytes
  pub tr : Bytes
  pub mode : Bytes
  pub rtt_ms : ℤ
  pub at : ℕ

abbrev pub candidate : Record → Candidate
candidate r = record { transport = r.tr; country = r.country; mode = r.mode }

unfoldable pub rec_key : Bytes → Bytes → Bytes → Bytes
rec_key net geo country = net ++ (0 ∷ (geo ++ (0 ∷ country)))

abbrev pub key_of : Record → Bytes
key_of r = rec_key r.net r.geo r.country

-- `s.recs[recKey(r.Net, r.Geo, r.Country)] = r`.
unfoldable pub put : Record → List Record → List Record
put r [] = r ∷ []
put r (x ∷ recs) =
    let rest = put r recs in if bytes_eq (key_of x) (key_of r) then r ∷ recs else x ∷ rest

unfoldable pub expired : ℕ → Record → ℕ → Bool
expired ttl r now = ltb 0 ttl && ltb ttl (now - r.at)

abbrev pub is_usable : ℕ → Bytes → Bytes → ℕ → Record → Bool
is_usable ttl net geo now r = bytes_eq r.net net && bytes_eq r.geo geo && not (expired ttl r now)

abbrev pub better : Record → Option Record → Bool
better r none = true
better r (some best) = ltb_ℤ r.rtt_ms best.rtt_ms

unfoldable pub best_from : ℕ → Bytes → Bytes → ℕ → Option Record → List Record → Option Record
best_from ttl net geo now found [] = found
best_from ttl net geo now found (r ∷ recs) =
    best_from ttl net geo now
      (if is_usable ttl net geo now r && better r found then some r else found) recs

abbrev candidate_of : Option Record → Option Candidate
candidate_of none = none
candidate_of (some r) = some (candidate r)

unfoldable pub best : ℕ → List Record → Bytes → Bytes → ℕ → Option Candidate
best ttl recs net geo now = candidate_of (best_from ttl net geo now none recs)

-- Milliseconds as a `time.Duration`, where they fit.
abbrev pub from_ms : ℤ → ℤ
from_ms (pos n) = pos (n * 1_000_000)
from_ms (negsuc n) = negsuc (n * 1_000_000 + 999_999)

unfoldable pub rtt_from : ℕ → Bytes → Bytes → ℕ → ℤ → List Record → ℤ
rtt_from ttl net country now out [] = out
rtt_from ttl net country now out (r ∷ recs) =
    let d = from_ms r.rtt_ms in
    let other = not (bytes_eq r.net net) || not (bytes_eq r.country country) || expired ttl r now in
    rtt_from ttl net country now
      (if not other && (eqb_ℤ out (pos 0) || ltb_ℤ d out) then d else out) recs

unfoldable pub rtt : ℕ → List Record → Bytes → Bytes → ℕ → ℤ
rtt ttl recs net country now = rtt_from ttl net country now (pos 0) recs
