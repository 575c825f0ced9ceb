-- ===== src/Update/Manifest/Rows.antt =====
-- The rows of a release manifest of core/update, and the check of a download against a row.
use bacchus.Shared.{
  suc, List, [], ◌∷◌, true, false, ◌≡◌, ◌↔◌, ◌∙◌, inl, inr, String, Bytes, In, All, length, take,
  pos, ℤ, negsuc, eqb_ℤ, length-take, ◌≤ℤ◌, arith, str_eq_iff, bytes_eq_iff, Bool-cases,
  Result-cases, ok, All-map, All-In, take_short, sym,
}
use bacchus.Update.Manifest.{
  Artifact, Manifest, max_artifact_bytes, sha256_size, matches, find_in, find, has_row,
  check_artifact, check_artifacts, validate, verify_artifact, read_limit,
}

abbrev pub IsFor : Artifact → String → String → String → Type 0
IsFor a os arch role = (a.os ≡ os) × (a.arch ≡ arch) × (a.role ≡ role)

abbrev pub SameBuild : Artifact → Artifact → Type 0
SameBuild a b = IsFor b a.os a.arch a.role

matches_iff :
    (a : Artifact) (os arch role : String) → (matches a os arch role ≡ true) ↔ IsFor a os arch role
unfolding matches
matches_iff a os arch role = (
  λ h. ground (arith, str_eq_iff a.os os, str_eq_iff a.arch arch, str_eq_iff a.role role),
  λ h. ground (arith, str_eq_iff a.os os, str_eq_iff a.arch arch, str_eq_iff a.role role),
)

-- What the checks of one row leave of it.
abbrev pub IsRow : Artifact → Type 0
IsRow a = (pos 1 ≤ℤ a.size) × (a.size ≤ℤ pos max_artifact_bytes) × (length a.sha256 ≡ sha256_size)

abbrev pub Distinct : List Artifact → Type 0
Distinct [] = Unit {0}
Distinct (a ∷ rows) = All (λ b. ¬ SameBuild a b) rows × Distinct rows

abbrev IsNew : List Artifact → Artifact → Type 0
IsNew seen a = has_row a seen ≡ false

IsNew-cons :
    (a : Artifact) (seen : List Artifact) (b : Artifact)
    → IsNew (a ∷ seen) b
    → (¬ SameBuild a b) × IsNew seen b
unfolding has_row
IsNew-cons a seen b h = (
  λ same. ground (arith, (matches_iff a b.os b.arch b.role).1 (sym same.0, sym same.1, sym same.2)),
  ground arith,
)

check_artifact-IsRow : (a : Artifact) → check_artifact a ≡ ok tt → IsRow a
unfolding check_artifact
check_artifact-IsRow a h = ground arith

check_artifacts-head :
    (seen : List Artifact) (a : Artifact) (rows : List Artifact)
    → check_artifacts seen (a ∷ rows) ≡ ok tt
    → IsRow a × IsNew seen a × (check_artifacts (a ∷ seen) rows ≡ ok tt)
unfolding check_artifacts
check_artifacts-head seen a rows h = elim (Result-cases (check_artifact a)) [
  | inl (u, checked) ↦ (check_artifact-IsRow a (ground arith), ground arith, ground arith)
  | inr (e, refused) ↦ ground arith
]

check_artifacts-Distinct :
    (seen rows : List Artifact)
    → check_artifacts seen rows ≡ ok tt
    → All IsRow rows × All (IsNew seen) rows × Distinct rows
check_artifacts-Distinct seen [] h = (tt, tt, tt)
check_artifacts-Distinct seen (a ∷ rows) h =
    let (row, new, rest) = check_artifacts-head seen a rows h in
    let (all_rows, news, distinct) = check_artifacts-Distinct (a ∷ seen) rows rest in
    (
      (row, all_rows),
      (new, All-map (λ b n. (IsNew-cons a seen b n).1) rows news),
      (All-map (λ b n. (IsNew-cons a seen b n).0) rows news, distinct),
    )

find_in-In :
    (os arch role : String) (rows : List Artifact) (a : Artifact)
    → find_in rows os arch role ≡ ok a
    → In a rows × IsFor a os arch role
unfolding find_in
find_in-In os arch role [] a h = cc
find_in-In os arch role (b ∷ rows) a h = elim (Bool-cases (matches b os arch role)) [
  | inl hit ↦
      let same : b ≡ a = ground arith in
      (inl (sym same), (matches_iff a os arch role).0 (ground arith))
  | inr miss ↦ let (m, e) = find_in-In os arch role rows a (ground arith) in (inr m, e)
]

find_in_of_In :
    (os arch role : String) (rows : List Artifact) (a : Artifact)
    → Distinct rows
    → In a rows
    → IsFor a os arch role
    → find_in rows os arch role ≡ ok a
unfolding find_in
find_in_of_In os arch role [] a d m e = absurd m
find_in_of_In os arch role (b ∷ rows) a d (inl here) e =
    ground (arith, (matches_iff a os arch role).1 e)
find_in_of_In os arch role (b ∷ rows) a d (inr m) e = elim (Bool-cases (matches b os arch role)) [
  | inl hit ↦
      let other = All-In (λ c. ¬ SameBuild b c) a rows d.0 m in
      let (x, y, z) = (matches_iff b os arch role).0 hit in
      absurd (other (e.0 ∙ sym x, e.1 ∙ sym y, e.2 ∙ sym z))
  | inr miss ↦ rw miss (find_in_of_In os arch role rows a d.1 m e)
]

rows_of_validate : (m : Manifest) → validate m ≡ ok tt → check_artifacts [] m.artifacts ≡ ok tt
unfolding validate
rows_of_validate m h = ground arith

-- In a manifest that validates, a build resolves to a row exactly when the row stands in the manifest
-- for that build; and every row has a digest of 32 bytes and a size from 1 to 512 MiB.
pub find_iff :
    (m : Manifest) (os arch role : String) (a : Artifact)
    → validate m ≡ ok tt
    → ((find m os arch role ≡ ok a) ↔ (In a m.artifacts × IsFor a os arch role))
      × (In a m.artifacts → IsRow a)
unfolding find
find_iff m os arch role a v =
    let (rows, _, distinct) = check_artifacts-Distinct [] m.artifacts (rows_of_validate m v) in
    (
      (
        find_in-In os arch role m.artifacts a,
        λ h. find_in_of_In os arch role m.artifacts a distinct h.0 h.1,
      ),
      All-In IsRow a m.artifacts rows,
    )

read_limit_exact :
    (size : ℤ) (content : Bytes)
    → eqb_ℤ (pos (length (take (read_limit size) content))) size ≡ true
    → (take (read_limit size) content ≡ content) × (size ≡ pos (length content))
read_limit_exact (pos n) content h =
    let e : take (suc n) content ≡ content = take_short (suc n) content (ground arith) in
    (e, ground arith)
read_limit_exact (negsuc n) content h = ground arith

read_limit_of_size :
    (size : ℤ) (content : Bytes)
    → size ≡ pos (length content)
    → take (read_limit size) content ≡ content
read_limit_of_size size content h = rw h (
    take_short (suc (length content)) content
      (omega (arith, length-take (suc (length content)) content)))

-- A download passes for a row exactly when it has the row's size and digest: the bytes read to check
-- it are all of it.
pub verify_artifact_iff :
    (sha : Bytes → Bytes) (a : Artifact) (content : Bytes)
    → (verify_artifact sha a content ≡ ok tt)
      ↔ ((a.size ≡ pos (length content)) × (sha content ≡ a.sha256))
unfolding verify_artifact
verify_artifact_iff sha a content = (
  λ h.
      let (all_read, size) = read_limit_exact a.size content (ground arith) in
      (size, ground (arith, bytes_eq_iff (sha (take (read_limit a.size) content)) a.sha256)),
  λ h.
      let all_read = read_limit_of_size a.size content h.0 in
      rw all_read (ground (arith, bytes_eq_iff (sha content) a.sha256)),
)
