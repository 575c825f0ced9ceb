-- ===== src/Policy/Fence.antt =====
-- `checkServingVersion` of core/policy against `Parse` of core/version: a floor that a policy may
-- carry is one that the enforcer reads, and it reads it as written.
use bacchus.Shared.{ℕ, ◌^◌, ◌<◌, List, [], ◌∷◌, ◌≡◌, refl, Bytes, arith, ok, Option-cases, inl, inr}
use bacchus.Version.{Version, split, parse_uint, digits_value, component, parse}
use bacchus.Version.Text.{component_of_digits}
use bacchus.Policy.Document.{check_component, check_components, check_serving_version}

-- A component that passes is read as the number that its digits stand for, below 2^31.
check_component-component :
    (s : Bytes) → check_component s ≡ ok tt → (n : ℕ) × (component s ≡ ok n) × (n < 2 ^ 31)
unfolding check_component parse_uint
check_component-component [] h = ground arith
check_component-component (c ∷ cs) h = elim (Option-cases (digits_value 0 (c ∷ cs))) [
  | inl e ↦ ground arith
  | inr (n, e) ↦ (n, component_of_digits c cs n e (ground arith), ground arith)
]

-- A floor that `checkServingVersion` accepts is parsed by `Parse` of core/version, to a version
-- whose three components are below 2^31.
pub check_serving_version-parse :
    (s : Bytes)
    → check_serving_version s ≡ ok tt
    → (v : Version) × (parse s ≡ ok v)
      × (v.major < 2 ^ 31)
      × (v.minor < 2 ^ 31)
      × (v.patch < 2 ^ 31)
unfolding check_serving_version check_components parse
check_serving_version-parse s h = go (split b'.' s) refl
  where
    go :
        (parts : List Bytes)
        → split b'.' s ≡ parts
        → (v : Version) × (parse s ≡ ok v)
          × (v.major < 2 ^ 31)
          × (v.minor < 2 ^ 31)
          × (v.patch < 2 ^ 31)
    go (a ∷ b ∷ c ∷ []) e =
        let (x, px, bx) = check_component-component a (ground arith) in
        let (y, py, by) = check_component-component b (ground arith) in
        let (z, pz, bz) = check_component-component c (ground arith) in
        (record { major = x; minor = y; patch = z }, ground arith, bx, by, bz)
    go _ e = ground arith
