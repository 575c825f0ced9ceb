-- ===== src/Version/Order.antt =====
-- Release versions are ordered lexicographically, and the two gates respect the order.
use bacchus.Shared.{◌<◌, true, false, ◌≡◌, ◌↔◌, ◌⊎◌, arith, pos, negsuc}
use bacchus.Version.{Version, compare_to, serving_allowed, client_must_update}

-- Lexicographic order, independent of the code's loop.
abbrev pub Before : Version → Version → Type 0
Before v o =
    (v.major < o.major)
    ⊎ ((v.major ≡ o.major) × (v.minor < o.minor))
    ⊎ ((v.major ≡ o.major) × (v.minor ≡ o.minor) × (v.patch < o.patch))

-- `Compare` is -1 exactly below, 0 exactly at the same version, and 1 exactly above, in the
-- lexicographic order of the three components.
pub compare_to_order :
    (v o : Version)
    → ((compare_to v o ≡ negsuc 0) ↔ Before v o)
      × ((compare_to v o ≡ pos 0) ↔ (v ≡ o))
      × ((compare_to v o ≡ pos 1) ↔ Before o v)
unfolding compare_to
compare_to_order v o = (
  (λ h. ground arith, λ h. ground arith),
  (λ h. ground arith, λ h. ground arith),
  (λ h. ground arith, λ h. ground arith),
)

-- The serving fence: a node above an admitted node is admitted, and a fence below a fence that
-- admits a node admits it too.
pub serving_allowed_mono :
    (node node' floor floor' : Version)
    → serving_allowed node floor ≡ true
    → serving_allowed node' node ≡ true
    → serving_allowed floor floor' ≡ true
    → serving_allowed node' floor' ≡ true
unfolding serving_allowed
serving_allowed_mono node node' floor floor' h k l = ground arith

-- A client that the network forces to update is below the network's version.
pub client_must_update-serving_allowed :
    (client network : Version)
    → client_must_update client network ≡ true
    → serving_allowed client network ≡ false
unfolding client_must_update serving_allowed
client_must_update-serving_allowed client network h = ground arith
