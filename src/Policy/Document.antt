-- ===== src/Policy/Document.antt =====
-- core/policy/policy.go: the document, `Validate`, `Limits`, `Fresh` and `Deadline`.
use bacchus.Shared.{
  ℕ, ◌+◌, ◌-◌, List, [], ◌∷◌, Bool, true, false, not, ◌&&◌, ◌||◌, Option, none, some, String, Bytes,
  length, ltb, ◌==◌, if◌then◌else◌, str_eq, ℤ, pos, pos_part, neg_part, ltb_ℤ, eqb_ℤ, Result, ok,
  err, ◌>>◌, refuse_if,
}
use bacchus.Delegation
use bacchus.Version.{split, is_digit, parse_uint}

pub data Error : Type 0 where
  unsupported_version malformed invalid not_yet_issued stale rollback unknown_tier : Error
  delegation_failed document_failed : Delegation.Error → Error

pub record ServeFloor : Type 0 where
  pub min_measured_bps : ℕ
  pub min_declared_quota_bytes : ℕ
  pub min_serving_version : Bytes

pub record Backpressure : Type 0 where
  pub min_country_headroom_bps : ℕ
  pub min_node_headroom_bps : ℕ

pub record Vouch : Type 0 where
  pub k : ℤ
  pub budget : ℤ
  pub period : ℤ
  pub tenure : ℤ
  pub admit_cap_per_period : ℤ

pub record TierLimit : Type 0 where
  pub trust : String
  pub plan : String
  pub speed_cap_bps : ℕ
  pub priority : ℤ
  pub endpoint_quality : ℤ

pub record Policy : Type 0 where
  pub version : ℤ
  pub seq : ℕ
  pub issued : ℕ
  pub expires : ℕ
  pub grace : ℤ
  pub note : String
  pub serve_floor : ServeFloor
  pub backpressure : Backpressure
  pub vouch : Vouch
  pub tiers : List TierLimit

unfoldable pub valid_trust : String → Bool
valid_trust t = str_eq t "ephemeral" || str_eq t "stable"

-- The loop of `Limits`: the first row of the pair.
unfoldable pub find_row : String → String → List TierLimit → Result Error TierLimit
find_row trust plan [] = err unknown_tier
find_row trust plan (t ∷ ts) =
    if str_eq t.trust trust && str_eq t.plan plan then ok t else find_row trust plan ts

unfoldable pub limits : Policy → String → String → Result Error TierLimit
unfolding find_row
limits p trust plan = find_row trust plan p.tiers

-- `Expires.Add(Grace)`.
unfoldable pub deadline : Policy → ℕ
deadline p = p.expires + pos_part p.grace - neg_part p.grace

unfoldable pub fresh : Policy → ℕ → Bool
fresh p now = not (ltb now (p.issued - Delegation.clock_skew)) && ltb now p.expires

-- The loop over one component of the version: the first byte that is no digit is refused.
unfoldable pub check_digits : Bytes → Result Error (Unit {0})
check_digits [] = ok tt
check_digits (c ∷ cs) = let rest = check_digits cs in if is_digit c then rest else err invalid

leading_zero : Bytes → Bool
leading_zero (c ∷ d ∷ cs) = c == b'0'
leading_zero _ = false

is_none : Option ℕ → Bool
is_none none = true
is_none (some n) = false

unfoldable pub check_component : Bytes → Result Error (Unit {0})
unfolding leading_zero is_none check_digits
check_component p = do
  refuse_if (length p == 0) invalid
  refuse_if (leading_zero p) invalid
  check_digits p
  refuse_if (is_none (parse_uint 31 p)) invalid

unfoldable pub check_components : List Bytes → Result Error (Unit {0})
check_components [] = ok tt
check_components (p ∷ ps) = do check_component p; check_components ps

unfoldable pub check_serving_version : Bytes → Result Error (Unit {0})
unfolding check_components
check_serving_version s = do
  refuse_if (length s == 0) invalid
  refuse_if (not (length (split b'.' s) == 3)) invalid
  check_components (split b'.' s)

-- The map `seen` holds the keys of the rows before.
unfoldable pub has_row : String → String → List TierLimit → Bool
has_row trust plan [] = false
has_row trust plan (t ∷ ts) = (str_eq t.trust trust && str_eq t.plan plan) || has_row trust plan ts

unfoldable pub check_tiers : List TierLimit → List TierLimit → Result Error (Unit {0})
check_tiers seen [] = ok tt
check_tiers seen (t ∷ ts) = do
  refuse_if (not (valid_trust t.trust)) invalid
  refuse_if (ltb_ℤ t.priority (pos 0)) invalid
  refuse_if (ltb_ℤ t.endpoint_quality (pos 0)) invalid
  refuse_if (has_row t.trust t.plan seen) invalid
  check_tiers (t ∷ seen) ts

unfoldable pub check_vouch : Vouch → Result Error (Unit {0})
check_vouch v = do
  refuse_if (ltb_ℤ v.k (pos 1)) invalid
  refuse_if (ltb_ℤ v.budget (pos 0)) invalid
  refuse_if (not (ltb_ℤ (pos 0) v.period)) invalid
  refuse_if (ltb_ℤ v.tenure (pos 0)) invalid
  refuse_if (ltb_ℤ v.admit_cap_per_period (pos 0)) invalid

unfoldable pub validate : Policy → Result Error (Unit {0})
validate p = do
  refuse_if (not (eqb_ℤ p.version (pos 1))) unsupported_version
  refuse_if (p.seq == 0) invalid
  refuse_if (p.issued == 0 || p.expires == 0) invalid
  refuse_if (not (ltb p.issued p.expires)) invalid
  refuse_if (ltb_ℤ p.grace (pos 0)) invalid
  check_serving_version p.serve_floor.min_serving_version
  check_vouch p.vouch
  refuse_if (length p.tiers == 0) invalid
  check_tiers [] p.tiers
