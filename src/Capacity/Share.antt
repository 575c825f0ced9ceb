-- ===== src/Capacity/Share.antt =====
-- core/capacity/assign.go, and `Usable` of estimator.go: what one more session would get of an exit.
use bacchus.Shared.{
  ℕ, ◌+◌, ◌/◌, ◌%◌, ◌^◌, ◌≤◌, ◌<◌, ◌*◌, Bool, true, false, not, ◌&&◌, ◌||◌, ◌≡◌, Option, none, some,
  ltb, ◌==◌, if◌then◌else◌, ℤ, pos, pos_part, arith,
}

abbrev pub u64 : ℕ → ℕ
u64 n = n % 2 ^ 64

-- `none` is `(0, true)`: an exit with no limit. A negative number of sessions counts as 0.
unfoldable pub projected_share : ℕ → ℤ → Option ℕ
projected_share usable sessions =
    if usable == 0 then none else some (usable / (pos_part sessions + 1))

abbrev share_or_zero : Option ℕ → ℕ
share_or_zero none = 0
share_or_zero (some s) = s

unfoldable pub rank_share : ℕ → ℤ → Bool → ℕ → ℕ
unfolding projected_share
rank_share usable sessions rated ceiling =
    let capped = if not rated || usable == 0 || ltb ceiling usable then ceiling else usable in
    share_or_zero (projected_share capped sessions)

unfoldable pub octave_floor : ℕ → ℕ
octave_floor best = u64 (best + 1) / 2

unfoldable pub unmetered : ℕ → Bool → Bool
unmetered declared rated = not rated && declared == 0

abbrev below_min : ℕ → Option ℕ → Bool
below_min min_share none = false
below_min min_share (some share) = ltb share min_share

unfoldable pub full : ℕ → ℤ → Bool → ℕ → Bool
full usable sessions is_unmetered min_share =
    if min_share == 0
    then false
    else if is_unmetered
    then false
    else below_min min_share (projected_share usable sessions)

-- A node that declared nothing may use what was measured.
unfoldable pub usable : ℕ → ℕ → ℕ
usable declared measured =
    if declared == 0 then measured else if ltb measured declared then measured else declared

div_antitone : (a m n : ℕ) → m ≤ n → a / (n + 1) ≤ a / (m + 1)
div_antitone a m n h = grind arith

-- One more session never makes an exit look roomier, no exit ranks above the ceiling, and an exit
-- that is full with fewer sessions is full with more.
pub share_antitone :
    (usable : ℕ) (m n : ℕ) (rated is_unmetered : Bool) (ceiling min_share : ℕ)
    → m ≤ n
    → (rank_share usable (pos n) rated ceiling ≤ rank_share usable (pos m) rated ceiling)
      × (rank_share usable (pos m) rated ceiling ≤ ceiling)
      × (full usable (pos m) is_unmetered min_share ≡ true
          → full usable (pos n) is_unmetered min_share ≡ true)
unfolding rank_share full projected_share
share_antitone u m n rated is_unmetered ceiling min_share h = (
  ground (arith, div_antitone ceiling m n, div_antitone u m n),
  ground arith,
  λ f. ground (arith, div_antitone u m n),
)

pub octave_floor-le : (best : ℕ) → octave_floor best ≤ best
unfolding octave_floor
octave_floor-le best = omega arith

-- The floor is at least half, where the number above the best is one of 64 bits.
pub octave_floor_half : (best : ℕ) → best + 1 < 2 ^ 64 → best ≤ 2 * octave_floor best
unfolding octave_floor
octave_floor_half best h = omega (arith, h)
