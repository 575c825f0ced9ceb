-- ===== src/Admission/Anchors.antt =====
-- Which sets of authorities `NewAuthoritySetVerifier` of core/admission anchors at.
use bacchus.Shared.{
  List, [], ◌∷◌, Bool, true, false, ◌≡◌, ◌≢◌, ◌↔◌, refl, Option, String, In, All, All-map, All-zip,
  arith, length, bytes_eq_iff, ok,
}
use bacchus.Admission.{
  Authority, Verifier, public_key_size, all_roles, known, all_known, has_key, check_anchors,
  revoked_or_nothing, new_authority_set_verifier,
}
use bacchus.Admission.Decision.{has_role-In}

-- An authority with a key of 32 bytes, trusted for at least one role, and for known roles only.
abbrev pub IsAnchor : Authority → Type 0
IsAnchor a = (length a.key ≡ public_key_size) × (a.roles ≢ []) × All (λ r. In r all_roles) a.roles

abbrev pub DistinctKeys : List Authority → Type 0
DistinctKeys [] = Unit {0}
DistinctKeys (a ∷ others) = All (λ b. a.key ≢ b.key) others × DistinctKeys others

abbrev IsNew : List Authority → Authority → Type 0
IsNew seen a = has_key a.key seen ≡ false

all_known_iff : (rs : List String) → (all_known rs ≡ true) ↔ All (λ r. In r all_roles) rs
unfolding all_known known
all_known_iff [] = (λ h. tt, λ h. refl)
all_known_iff (r ∷ rs) = (
  λ h. ((has_role-In all_roles r).0 (ground arith), (all_known_iff rs).0 (ground arith)),
  λ h. ground (arith, (has_role-In all_roles r).1 h.0, (all_known_iff rs).1 h.1),
)

IsNew-cons :
    (a : Authority) (seen : List Authority) (b : Authority)
    → IsNew (a ∷ seen) b ↔ ((a.key ≢ b.key) × IsNew seen b)
unfolding has_key
IsNew-cons a seen b = (
  λ h. (λ e. ground (arith, bytes_eq_iff a.key b.key), ground arith),
  λ h. ground (arith, h.0, bytes_eq_iff a.key b.key),
)

check_anchors-head :
    (seen : List Authority) (a : Authority) (others : List Authority)
    → check_anchors seen (a ∷ others) ≡ ok tt
    → IsAnchor a × IsNew seen a × (check_anchors (a ∷ seen) others ≡ ok tt)
unfolding check_anchors
check_anchors-head seen a others h = (
  (ground arith, λ e. ground arith, (all_known_iff a.roles).0 (ground arith)),
  ground arith,
  ground arith,
)

check_anchors_sound :
    (seen authorities : List Authority)
    → check_anchors seen authorities ≡ ok tt
    → All IsAnchor authorities × All (IsNew seen) authorities × DistinctKeys authorities
check_anchors_sound seen [] h = (tt, tt, tt)
check_anchors_sound seen (a ∷ others) h =
    let (anchor, new, rest) = check_anchors-head seen a others h in
    let (anchors, news, distinct) = check_anchors_sound (a ∷ seen) others rest in
    (
      (anchor, anchors),
      (new, All-map (λ b n. ((IsNew-cons a seen b).0 n).1) others news),
      (All-map (λ b n. ((IsNew-cons a seen b).0 n).0) others news, distinct),
    )

check_anchors_complete :
    (seen authorities : List Authority)
    → All IsAnchor authorities
    → All (IsNew seen) authorities
    → DistinctKeys authorities
    → check_anchors seen authorities ≡ ok tt
unfolding check_anchors
check_anchors_complete seen [] anchors news distinct = refl
check_anchors_complete seen (a ∷ others) anchors news distinct = ground (
  arith,
  anchors.0.1,
  (all_known_iff a.roles).1 anchors.0.2,
  check_anchors_complete (a ∷ seen) others anchors.1
      (All-map (λ b h. (IsNew-cons a seen b).1 h) others
        (All-zip (λ b. a.key ≢ b.key) (IsNew seen) others distinct.0 news.1))
      distinct.1,
)

All-IsNew : (authorities : List Authority) → All (IsNew []) authorities
unfolding has_key
All-IsNew [] = tt
All-IsNew (a ∷ others) = (refl, All-IsNew others)

-- A verifier is built exactly for a set that is not empty, in which every authority has a 32-byte key
-- and at least one role, all of them known, and no two have the same key; it anchors at that set.
pub new_authority_set_verifier_iff :
    (authorities : List Authority) (revoked_list : Option (String → Bool))
    → ((v : Verifier) × (new_authority_set_verifier authorities revoked_list ≡ ok v)
        × (v.authorities ≡ authorities))
      ↔ ((authorities ≢ []) × All IsAnchor authorities × DistinctKeys authorities)
unfolding new_authority_set_verifier
new_authority_set_verifier_iff authorities revoked_list = (
  λ h.
      let (_, built, _) = h in
      let (anchors, _, distinct) = check_anchors_sound [] authorities (ground arith) in
      (λ e. ground arith, anchors, distinct),
  λ h. (
    record { authorities = authorities; revoked = revoked_or_nothing revoked_list },
    ground (arith, h.0, check_anchors_complete [] authorities h.1 (All-IsNew authorities) h.2),
    refl,
  ),
)
