-- ===== src/Update/Updater/Target.antt =====
-- What one `Check` of core/update can put at the target.
use bacchus.Shared.{
  [], Bool, true, false, ◌&&◌, ◌≡◌, ◌≢◌, ◌⊎◌, inl, inr, refl, ◌∙◌, ap, subst, Option, none, some,
  Bytes, arith, Result, Bool-cases, ok, err,
}
use bacchus.Atomicfile.{Disk}
use bacchus.Update.Manifest.{Artifact, Manifest, verify_artifact}
use bacchus.Update.Apply
use bacchus.Update.Apply.{
  Site, Trail, ApplyError, reopen_failed, marshal_failed, stat_failed, move_aside_failed,
  publish_failed, refused, marker_failed, restore_failed, verify_file, apply,
}
use bacchus.Update.Apply.Target.{Applies, apply_lem}
use bacchus.Update.State.{Pending, StateError, set_pending}
use bacchus.Update.Updater.{
  Platform, Config, Events, StageFaults, Host, Run, Outcome, StageError, apply_failed, stage,
  served, downloaded, staged_at, publish_applied, publish, staged_path,
}
use bacchus.Update.Updater.Check.{
  reused, after_pending, after_stage, obtain, pending_for, moves, is_staged, verifies,
}

-- Either the binary of some artifact was published, and what is at the target has its size and
-- digest; or nothing was, and the target is as it was unless it is reported lost.
abbrev pub Final : Platform → (Artifact → Type 0) → Option Bytes → Run → Type 0
Final p N old ((out, r), h) =
    ((out.applied ≡ true)
      × ((a : Artifact) × N a
          × ((content : Bytes) × (h.trail.site.target ≡ some content)
              × (verify_artifact p.apply.sha a content ≡ ok tt))))
    ⊎ ((out.applied ≡ false)
        × ((h.trail.site.target ≡ old) ⊎ (r ≡ some (apply_failed restore_failed))))

is_restore : (x : ApplyError) → (x ≡ restore_failed) ⊎ (x ≢ restore_failed)
is_restore restore_failed = inl refl
is_restore reopen_failed = inr (λ h. ground arith)
is_restore marshal_failed = inr (λ h. ground arith)
is_restore stat_failed = inr (λ h. ground arith)
is_restore move_aside_failed = inr (λ h. ground arith)
is_restore publish_failed = inr (λ h. ground arith)
is_restore (refused y) = inr (λ h. ground arith)
is_restore (marker_failed y) = inr (λ h. ground arith)

staged_at_target :
    (a : Artifact) (content : Bytes) (s : Site) (r : Result ApplyError (Unit {0})) (rename : Bool)
    → (staged_at a content s r rename).1.target ≡ s.target
staged_at_target a content s (err x) rename = refl
staged_at_target a content s (ok _) true = refl
staged_at_target a content s (ok _) false = refl

downloaded_target :
    (p : Apply.Platform) (f : StageFaults) (a : Artifact) (got : Bytes) (s : Site)
    → (downloaded p f a got s).1.target ≡ s.target
downloaded_target p f a got s = ground (
  arith,
  staged_at_target a (f.reread got) s (verify_file p f.reopen a (some (f.reread got))) f.rename,
)

served_target :
    (p : Apply.Platform) (f : StageFaults) (a : Artifact) (o : Option Bytes) (s : Site)
    → (served p f a o s).1.target ≡ s.target
served_target p f a none s = refl
served_target p f a (some content) s = downloaded_target p f a _ s

-- `Stage` never touches the target.
pub stage_target :
    (p : Apply.Platform) (f : StageFaults) (a : Artifact) (s : Site)
    → (stage p f a s).1.target ≡ s.target
unfolding stage
stage_target p f a s = ground (arith, served_target p f a (f.serve a) s)

module _ (p : Platform) (c : Config) (e : Events) (N : Artifact → Type 0) (old : Option Bytes) where
  publish_applied_lem :
      (out : Outcome) (a : Artifact) (release : Bytes) (h : Host)
      (r : Result ApplyError (Unit {0}) × Trail)
      → out.applied ≡ false
      → N a
      → Applies p.apply a old r
      → Final p N old (publish_applied p.state e release out h r)
  publish_applied_lem out a release h (ok _, t) idle n (done, _) = inl (refl, (a, n, done refl))
  publish_applied_lem out a release h (err x, t) idle n (_, failed) = elim (is_restore x) [
    | inl lost ↦ inr (idle, inr (ap (λ y. some (apply_failed y)) lost))
    | inr other ↦ inr (idle, inl (failed x refl other))
  ]

  publish_lem :
      (out : Outcome) (name : Bytes) (a : Artifact) (release : Bytes) (h : Host)
      → out.applied ≡ false
      → N a
      → h.trail.site.target ≡ old
      → Final p N old (publish p e out name a release h)
  unfolding publish
  publish_lem out name a release h idle n there =
      publish_applied_lem out a release h
        (apply p.apply e.apply name a release (record { site = h.trail.site; trace = [] })) idle n
        (subst
          (λ o.
            Applies p.apply a o
              (apply p.apply e.apply name a release (record { site = h.trail.site; trace = [] })))
          there (apply_lem p.apply e.apply a name release h.trail.site))

  after_pending_lem :
      (out : Outcome) (m : Manifest) (a : Artifact) (name : Bytes) (h : Host)
      (r : Result StateError (Unit {0}) × Disk)
      → out.applied ≡ false
      → N a
      → h.trail.site.target ≡ old
      → Final p N old (after_pending p c e out m a name h r)
  after_pending_lem out m a name h (err x, d) idle n there = inr (idle, inl there)
  after_pending_lem out m a name h (ok _, d) idle n there = elim (Bool-cases c.defer) [
    | inl deferred ↦ rw deferred (inr (idle, inl there))
    | inr now ↦ rw now (publish_lem out name a m.release (record h { state = d }) idle n there)
  ]

  after_stage_lem :
      (out : Outcome) (m : Manifest) (a : Artifact) (h : Host) (r : Result StageError Bytes × Site)
      → out.applied ≡ false
      → N a
      → h.trail.site.target ≡ old
      → r.1.target ≡ old
      → Final p N old (after_stage p c e out m a h r)
  after_stage_lem out m a h (err x, s) idle n there _ = inr (idle, inl there)
  after_stage_lem out m a h (ok name, s) idle n _ there =
      after_pending_lem (record out { staged = some name }) m a name (moves h s)
        (set_pending p.state e.read_pending e.pending (pending_for m a name) h.state) idle n there

  reused_lem :
      (out : Outcome) (m : Manifest) (a : Artifact) (h : Host)
      → out.applied ≡ false
      → N a
      → h.trail.site.target ≡ old
      → Final p N old (reused p c e out m a h)
  reused_lem out m a h idle n there = elim (Bool-cases c.defer) [
    | inl deferred ↦ rw deferred (inr (idle, inl there))
    | inr now ↦ rw now (
        publish_lem (record out { staged = some (staged_path a); deferred = true }) (staged_path a)
          a m.release h idle n there)
  ]

  pub obtain_lem :
      (out : Outcome) (pending : Option Pending) (m : Manifest) (a : Artifact) (h : Host)
      → out.applied ≡ false
      → N a
      → h.trail.site.target ≡ old
      → Final p N old (obtain p c e out pending m a h)
  unfolding obtain
  obtain_lem out pending m a h idle n there =
      elim (Bool-cases (
        is_staged pending a
        && verifies
            (verify_file p.apply e.reopen_staged a (h.trail.site.staged (staged_path a))))) [
              | inl reuses ↦ rw reuses (reused_lem out m a h idle n there)
              | inr fresh ↦ rw fresh (
                  after_stage_lem out m a h (stage p.apply e.stage a h.trail.site) idle n there
                    (stage_target p.apply e.stage a h.trail.site ∙ there))
            ]
