-- ===== src/Update/Apply/Target.antt =====
-- What `Apply` of core/update can leave at the target.
use bacchus.Shared.{
  [], ◌≡◌, ◌≢◌, inl, inr, sym, ◌∙◌, subst, Option, none, some, Bytes, arith, Result, Result-cases,
  Option-cases, ok, err,
}
use bacchus.Update.Manifest.{Artifact, verify_artifact}
use bacchus.Update.Apply.{
  Platform, Site, Trail, ApplyFaults, ApplyError, restore_failed, marker_for, after_marker,
  remove_marker, write_marker, apply, verify_file,
}
use bacchus.Update.Apply.Crash.{apply_safe, write_marker_lem, verify_file_ok}

-- What `Apply` leaves at the target.
abbrev pub Applies :
    Platform → Artifact → Option Bytes → Result ApplyError (Unit {0}) × Trail → Type 0
Applies p a old (r, t) =
    (r ≡ ok tt
      → (content : Bytes) × (t.site.target ≡ some content)
        × (verify_artifact p.sha a content ≡ ok tt))
    × ((x : ApplyError) → r ≡ err x → x ≢ restore_failed → t.site.target ≡ old)

module _ (p : Platform) (f : ApplyFaults) (a : Artifact) (name release : Bytes) where
  abbrev run_on : Site → Result ApplyError (Unit {0}) × Trail
  run_on s = apply p f name a release (record { site = s; trace = [] })

  absent_lem :
      (t : Trail) (r : Result ApplyError (Unit {0}))
      → t.site.target ≡ none
      → let (r', t') = after_marker f name (r, t) in
        (r' ≡ ok tt → t'.site.target ≡ t.site.staged name)
        × ((x : ApplyError) → r' ≡ err x → t'.site.target ≡ none)
  unfolding remove_marker
  absent_lem t (err x) there = (λ h. ground arith, λ y h. ground arith)
  absent_lem t (ok _) there = (λ h. ground arith, λ y h. ground arith)

  apply_absent :
      (s : Site)
      → s.target ≡ none
      → Applies p a none (apply p f name a release (record { site = s; trace = [] }))
  unfolding apply
  apply_absent s there = elim (Result-cases (verify_file p f.reopen a (s.staged name))) [
    | inr (x, refused) ↦ rw refused (λ h. ground arith, λ y h n. there)
    | inl (u, passed) ↦
        let out =
          write_marker p f.marker (marker_for a release) (record { site = s; trace = [] }) in
        let (target, _, staged, _, _) = write_marker_lem p (marker_for a release) s f.marker in
        let (done, failed) = absent_lem out.1 out.0 (target ∙ there) in
        let (content, file, verified) = verify_file_ok p f.reopen a (s.staged name) passed in
        rw passed
          (λ h. (content, done h ∙ (λ i. (staged i) name) ∙ file, verified), λ x h n. failed x h)
  ]

  apply_present :
      (s : Site) (old : Bytes)
      → s.target ≡ some old
      → Applies p a (some old) (apply p f name a release (record { site = s; trace = [] }))
  apply_present s old there =
      let ((_, done, failed), verified) = apply_safe p f a name release old s there in
      (λ h. (let (content, file, good) = verified h in (content, (done h).0 ∙ file, good)), failed)

  pub apply_lem :
      (s : Site) → Applies p a s.target (apply p f name a release (record { site = s; trace = [] }))
  apply_lem s = elim (Option-cases s.target) [
    | inl gone ↦ subst (λ o. Applies p a o (run_on s)) (sym gone) (apply_absent s gone)
    | inr (old, there) ↦
        subst (λ o. Applies p a o (run_on s)) (sym there) (apply_present s old there)
  ]
