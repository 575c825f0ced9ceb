-- ===== src/Update/Apply/Crash.antt =====
-- `Apply` of core/update, in every state of the directory that a crash can leave.
use bacchus.Shared.{
  List, [], ◌∷◌, ◌++◌, map, Bool, true, false, ◌≡◌, ◌≢◌, ◌⊎◌, inl, inr, refl, Option, none, some,
  Bytes, All, arith, Result, Result-cases, Bool-cases, ok, err, subst, ◌∙◌,
}
use bacchus.Atomicfile
use bacchus.Atomicfile.{Disk, World, Faults}
use bacchus.Atomicfile.Install.{new_file, start, put_target}
use bacchus.Update.Manifest.{Artifact, verify_artifact}
use bacchus.Update.Apply.{
  Platform, Marker, Site, Trail, ApplyFaults, ApplyError, restore_failed, publish_failed,
  move_aside_failed, stat_failed, moved_aside, moved_back, goes, publish, replace_target,
  with_marker, write_encoded, write_marker, marker_written, marker_for, remove_marker, after_marker,
  apply, verify_file,
}

All-with_marker :
    (s : Site) (ds : List Disk) (old : Option Bytes)
    → s.target ≡ old
    → All (λ x. x.target ≡ old) (map (with_marker s) ds ++ [])
All-with_marker s [] old h = tt
All-with_marker s (d ∷ ds) old h = (h, All-with_marker s ds old h)

-- The marker's file holds this marker.
abbrev pub IsMarked : Platform → Marker → Site → Type 0
IsMarked p m s = (b : Bytes) × (p.encode m ≡ some b) × (s.marker.target ≡ some (new_file b 0o600))

-- What writing the marker leaves alone, and that success means that it is there.
abbrev KeepsFiles : Platform → Marker → Site → Result ApplyError (Unit {0}) × Trail → Type 0
KeepsFiles p m s (r, t) =
    (t.site.target ≡ s.target)
    × (t.site.previous ≡ s.previous)
    × (t.site.staged ≡ s.staged)
    × (r ≡ ok tt → IsMarked p m t.site)
    × All (λ x. x.target ≡ s.target) t.trace

module _ (p : Platform) (m : Marker) (s : Site) where
  marker_written_lem :
      (b : Bytes) (out : Result Atomicfile.Error (Unit {0}) × World)
      → p.encode m ≡ some b
      → (out.0 ≡ ok tt → out.1.disk.target ≡ some (new_file b 0o600))
      → KeepsFiles p m s (marker_written (record { site = s; trace = [] }) out)
  marker_written_lem b (ok _, w) enc done =
      (refl, refl, refl, λ h. (b, enc, done refl), All-with_marker s w.trace s.target refl)
  marker_written_lem b (err e, w) enc done =
      (refl, refl, refl, λ h. ground arith, All-with_marker s w.trace s.target refl)

  write_encoded_lem :
      (f : Faults) (o : Option Bytes)
      → p.encode m ≡ o
      → KeepsFiles p m s (write_encoded f o (record { site = s; trace = [] }))
  write_encoded_lem f none e = (refl, refl, refl, λ h. ground arith, tt)
  write_encoded_lem f (some b) e =
      marker_written_lem b (Atomicfile.write_durable f b 0o600 (start s.marker)) e
        (put_target true f b 0o600 s.marker).1

  pub write_marker_lem :
      (f : Faults) → KeepsFiles p m s (write_marker p f m (record { site = s; trace = [] }))
  unfolding write_marker
  write_marker_lem f = write_encoded_lem f (p.encode m) refl

-- The old binary is in its place; or it stands beside it with the marker that takes it back, and its
-- place is empty or has the artifact.
abbrev pub IsSafe : Platform → Marker → Option Bytes → Bytes → Site → Type 0
IsSafe p m new old s =
    (s.target ≡ some old)
    ⊎ ((s.previous ≡ some old) × IsMarked p m s × ((s.target ≡ none) ⊎ (s.target ≡ new)))

weaken_trace :
    (p : Platform) (m : Marker) (new : Option Bytes) (old : Bytes) (ss : List Site)
    → All (λ x. x.target ≡ some old) ss
    → All (IsSafe p m new old) ss
weaken_trace p m new old [] h = tt
weaken_trace p m new old (s ∷ ss) h = (inl h.0, weaken_trace p m new old ss h.1)

-- What `Apply` guarantees of its result and its trace.
abbrev pub Outcome :
    Platform → Marker → Option Bytes → Bytes → Result ApplyError (Unit {0}) × Trail → Type 0
Outcome p m new old (r, t) =
    All (IsSafe p m new old) t.trace
    × (r ≡ ok tt → (t.site.target ≡ new) × (t.site.previous ≡ some old) × IsMarked p m t.site)
    × ((e : ApplyError) → r ≡ err e → e ≢ restore_failed → t.site.target ≡ some old)

module _ (p : Platform) (f : ApplyFaults) (m : Marker) (name old : Bytes) where
  removed_lem :
      (new : Option Bytes) (fails : Bool) (t : Trail)
      → t.site.target ≡ some old
      → All (IsSafe p m new old) t.trace
      → All (IsSafe p m new old) (remove_marker fails t).trace
        × ((remove_marker fails t).site.target ≡ some old)
  unfolding remove_marker
  removed_lem new true t there safe = (safe, there)
  removed_lem new false t there safe = ((inl there, safe), there)

  refused_lem :
      (new : Option Bytes) (fails : Bool) (e : ApplyError) (t : Trail)
      → t.site.target ≡ some old
      → All (IsSafe p m new old) t.trace
      → Outcome p m new old (err e, remove_marker fails t)
  refused_lem new fails e t there safe =
      let (safe', there') = removed_lem new fails t there safe in
      (safe', λ h. ground arith, λ e' h n. there')

  publish_lem :
      (t : Trail)
      → t.site.target ≡ none
      → t.site.previous ≡ some old
      → IsMarked p m t.site
      → All (IsSafe p m (t.site.staged name) old) t.trace
      → Outcome p m (t.site.staged name) old (publish f name true t)
  publish_lem t gone kept marked safe = elim (Bool-cases f.publish) [
    | inr ok_rename ↦
        rw ok_rename
          ((inr (kept, marked, inr refl), safe), λ h. (refl, kept, marked), λ e h n. ground arith)
    | inl fails ↦ elim (Bool-cases f.restore) [
      | inl lost ↦ rw (fails, lost) (safe, λ h. ground arith, λ e h n. absurd (n (ground arith)))
      | inr back ↦
          rw (fails, back)
            (refused_lem (t.site.staged name) f.remove_marker publish_failed
              (goes (moved_back t.site) t) kept (inl kept, safe))
    ]
  ]

  replace_lem :
      (t : Trail) (there : Option Bytes)
      → t.site.target ≡ there
      → there ≡ some old
      → IsMarked p m t.site
      → All (IsSafe p m (t.site.staged name) old) t.trace
      → Outcome p m (t.site.staged name) old (replace_target f name there t)
  replace_lem t none e h marked safe = ground arith
  replace_lem t (some x) e h marked safe = elim (Bool-cases f.move_aside) [
    | inl fails ↦
        rw fails (refused_lem (t.site.staged name) f.remove_marker move_aside_failed t (e ∙ h) safe)
    | inr moved ↦ rw moved (
        publish_lem (goes (moved_aside t.site) t) refl (e ∙ h) marked
          (inr (e ∙ h, marked, inl refl), safe))
  ]

  after_marker_lem :
      (t : Trail) (r : Result ApplyError (Unit {0}))
      → t.site.target ≡ some old
      → (r ≡ ok tt → IsMarked p m t.site)
      → All (IsSafe p m (t.site.staged name) old) t.trace
      → Outcome p m (t.site.staged name) old (after_marker f name (r, t))
  after_marker_lem t (err e) there marked safe =
      refused_lem (t.site.staged name) f.remove_marker e t there safe
  after_marker_lem t (ok _) there marked safe = elim (Bool-cases f.stat_target) [
    | inl fails ↦
        rw fails (refused_lem (t.site.staged name) f.remove_marker stat_failed t there safe)
    | inr found ↦ rw found (replace_lem t t.site.target refl there (marked refl) safe)
  ]

pub verify_file_ok :
    (p : Platform) (fails : Bool) (a : Artifact) (file : Option Bytes)
    → verify_file p fails a file ≡ ok tt
    → (content : Bytes) × (file ≡ some content) × (verify_artifact p.sha a content ≡ ok tt)
unfolding verify_file
verify_file_ok p fails a none h = ground arith
verify_file_ok p fails a (some content) h = (
  content,
  refl,
  elim (Result-cases (verify_artifact p.sha a content)) [
    | inl (u, passed) ↦ ground arith
    | inr (e, refused) ↦ ground arith
  ],
)

marked_outcome :
    (p : Platform) (f : ApplyFaults) (a : Artifact) (name release old : Bytes) (s : Site)
    → s.target ≡ some old
    → Outcome p (marker_for a release) (s.staged name) old (
        after_marker f name
          (write_marker p f.marker (marker_for a release) (record { site = s; trace = [] })))
marked_outcome p f a name release old s there =
    let m = marker_for a release in
    let out = write_marker p f.marker m (record { site = s; trace = [] }) in
    let (target, previous, staged, marked, trace) = write_marker_lem p m s f.marker in
    subst (λ st. Outcome p m (st name) old (after_marker f name out)) staged
      (after_marker_lem p f m name old out.1 out.0 (target ∙ there) marked (
        weaken_trace p m (out.1.site.staged name) old out.1.trace
          (subst (λ o. All (λ x. x.target ≡ o) out.1.trace) there trace)))

-- `Apply` is safe against a crash: where a binary stands at the target, in every state of the
-- directory it is there, or it stands beside it with the marker of this release, and the target is
-- absent or is the staged file. If `Apply` reports success the target is the staged file, which has
-- the artifact's size and digest, with the old binary and the marker beside it; and if it reports an
-- error other than that the old binary could not be put back, the old binary is at the target.
pub apply_safe :
    (p : Platform) (f : ApplyFaults) (a : Artifact) (name release old : Bytes) (s : Site)
    → s.target ≡ some old
    → let out = apply p f name a release (record { site = s; trace = [] }) in
      Outcome p (marker_for a release) (s.staged name) old out
      × (out.0 ≡ ok tt
          → (content : Bytes) × (s.staged name ≡ some content)
            × (verify_artifact p.sha a content ≡ ok tt))
unfolding apply
apply_safe p f a name release old s there =
    elim (Result-cases (verify_file p f.reopen a (s.staged name))) [
      | inr (e, refused) ↦ rw refused ((tt, λ h. ground arith, λ e' h n. there), λ h. ground arith)
      | inl (u, passed) ↦ rw passed (
        marked_outcome p f a name release old s there,
        λ h. verify_file_ok p f.reopen a (s.staged name) (ground arith),
      )
    ]
