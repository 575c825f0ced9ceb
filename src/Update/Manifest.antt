-- ===== src/Update/Manifest.antt =====
-- core/update/manifest.go: the rows of a release manifest, `Validate` and `Find`; and `VerifyArtifact`
-- of verify.go. A digest stands for its hexadecimal name.
pub mod Rows
use bacchus.Shared.{
  ℕ, suc, ◌+◌, List, [], ◌∷◌, Bool, true, false, not, ◌&&◌, ◌||◌, Option, none, some, String, Bytes,
  length, take, ltb, leb, ◌==◌, if◌then◌else◌, str_eq, bytes_eq, codes, ℤ, pos, negsuc, ltb_ℤ,
  eqb_ℤ, Result, ok, err, ◌>>◌, refuse_if,
}
use bacchus.Delegation
use bacchus.Version.{split, is_digit, parse_uint}

pub data Error : Type 0 where
  unsupported_version malformed invalid not_yet_issued expired rollback no_artifact hash_mismatch
        size_mismatch :
      Error
  delegation_failed manifest_failed : Delegation.Error → Error

pub record Artifact : Type 0 where
  pub os : String
  pub arch : String
  pub role : String
  pub size : ℤ
  pub sha256 : Bytes

pub record Manifest : Type 0 where
  pub version : ℤ
  pub seq : ℕ
  pub release : Bytes
  pub issued : ℕ
  pub expires : ℕ
  pub note : String
  pub artifacts : List Artifact

-- 512 MiB.
abbrev pub max_artifact_bytes : ℕ
max_artifact_bytes = 536_870_912

abbrev pub sha256_size : ℕ
sha256_size = 32

unfoldable pub matches : Artifact → String → String → String → Bool
matches a os arch role = str_eq a.os os && str_eq a.arch arch && str_eq a.role role

unfoldable pub find_in : List Artifact → String → String → String → Result Error Artifact
find_in [] os arch role = err no_artifact
find_in (a ∷ rows) os arch role = if matches a os arch role then ok a else find_in rows os arch role

unfoldable pub find : Manifest → String → String → String → Result Error Artifact
find m os arch role = find_in m.artifacts os arch role

is_token_char : ℕ → Bool
is_token_char c = (leb b'a' c && leb c b'z') || (leb b'0' c && leb c b'9') || c == b'_'

check_token_chars : Bytes → Result Error (Unit {0})
check_token_chars [] = ok tt
check_token_chars (c ∷ cs) =
    let rest = check_token_chars cs in if is_token_char c then rest else err invalid

unfoldable pub check_token : Bytes → Result Error (Unit {0})
unfolding check_token_chars is_token_char
check_token s = do
  refuse_if (length s == 0) invalid
  refuse_if (ltb 32 (length s)) invalid
  check_token_chars s

check_digits : Bytes → Result Error (Unit {0})
check_digits [] = ok tt
check_digits (c ∷ cs) = let rest = check_digits cs in if is_digit c then rest else err invalid

has_leading_zero : Bytes → Bool
has_leading_zero (c ∷ d ∷ cs) = c == b'0'
has_leading_zero _ = false

is_out_of_range : Option ℕ → Bool
is_out_of_range none = true
is_out_of_range (some n) = false

unfoldable pub check_component : Bytes → Result Error (Unit {0})
unfolding check_digits has_leading_zero is_out_of_range
check_component p = do
  refuse_if (length p == 0) invalid
  refuse_if (has_leading_zero p) invalid
  check_digits p
  refuse_if (is_out_of_range (parse_uint 31 p)) invalid

unfoldable pub check_components : List Bytes → Result Error (Unit {0})
check_components [] = ok tt
check_components (p ∷ ps) = do check_component p; check_components ps

unfoldable pub check_release : Bytes → Result Error (Unit {0})
unfolding check_components
check_release s = do
  refuse_if (length s == 0) invalid
  refuse_if (not (length (split b'.' s) == 3)) invalid
  check_components (split b'.' s)

unfoldable pub known_role : String → Bool
known_role r = str_eq r "node" || str_eq r "coordinator" || str_eq r "netd" || str_eq r "client"

-- The map `seen` holds the keys of the rows before.
unfoldable pub has_row : Artifact → List Artifact → Bool
has_row a [] = false
has_row a (b ∷ seen) = matches b a.os a.arch a.role || has_row a seen

unfoldable pub check_artifact : Artifact → Result Error (Unit {0})
check_artifact a = do
  check_token (codes a.os)
  check_token (codes a.arch)
  refuse_if (not (known_role a.role)) invalid
  refuse_if (not (ltb_ℤ (pos 0) a.size)) invalid
  refuse_if (ltb_ℤ (pos max_artifact_bytes) a.size) invalid
  refuse_if (not (length a.sha256 == sha256_size)) invalid

unfoldable pub check_artifacts : List Artifact → List Artifact → Result Error (Unit {0})
check_artifacts seen [] = ok tt
check_artifacts seen (a ∷ rows) = do
  check_artifact a
  refuse_if (has_row a seen) invalid
  check_artifacts (a ∷ seen) rows

unfoldable pub validate : Manifest → Result Error (Unit {0})
validate m = do
  refuse_if (not (eqb_ℤ m.version (pos 1))) unsupported_version
  refuse_if (m.seq == 0) invalid
  check_release m.release
  refuse_if (m.issued == 0 || m.expires == 0) invalid
  refuse_if (not (ltb m.issued m.expires)) invalid
  refuse_if (length m.artifacts == 0) invalid
  check_artifacts [] m.artifacts

-- `io.LimitReader(r, a.Size+1)`: at most one byte more than the row declares is read.
abbrev pub read_limit : ℤ → ℕ
read_limit (pos n) = suc n
read_limit (negsuc n) = 0

-- `sha` is SHA-256.
unfoldable pub verify_artifact : (Bytes → Bytes) → Artifact → Bytes → Result Error (Unit {0})
verify_artifact sha a content = do
  let got = take (read_limit a.size) content
  refuse_if (not (eqb_ℤ (pos (length got)) a.size)) size_mismatch
  refuse_if (not (bytes_eq (sha got) a.sha256)) hash_mismatch
