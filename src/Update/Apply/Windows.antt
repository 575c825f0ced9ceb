-- ===== src/Update/Apply/Windows.antt =====
-- Two states that `Apply` of core/update passes through, and what a crash there leads to.
use bacchus.Shared.{
  ℕ, List, [], ◌∷◌, ◌++◌, map, true, false, ◌≡◌, inl, inr, refl, ap, ◌∙◌, Option, none, some, Bytes,
  In, arith, Result, Result-cases, Bool-cases, ok, err,
}
use bacchus.Atomicfile
use bacchus.Atomicfile.{Disk, World, Faults}
use bacchus.Atomicfile.Install.{start}
use bacchus.Update.Manifest.{Artifact}
use bacchus.Update.Apply.{
  Platform, Marker, Site, Trail, ApplyFaults, StartupFaults, ApplyError, demoted, with_marker,
  write_encoded, write_marker, check_startup, goes, moved_aside, publish, replace_target,
  after_marker, remove_marker, marker_for, verify_file, apply,
}
use bacchus.Update.Apply.Crash.{IsMarked, write_marker_lem}
use bacchus.Update.Apply.Probation.{IsJson, CanRead, IsMarked-Reads, unconfirmed_is_demoted}

durable_last :
    (f : Faults) (b : Bytes) (perm : ℕ) (d : Disk)
    → let w = (Atomicfile.write_durable f b perm (start d)).1 in In w.disk w.trace
unfolding Atomicfile.write_durable Atomicfile.write Atomicfile.sync_dir
durable_last f b perm d = ground arith

In-map-with_marker :
    (s : Site) (d : Disk) (ds : List Disk)
    → In d ds
    → In (with_marker s d) (map (with_marker s) ds ++ [])
In-map-with_marker s d [] m = m
In-map-with_marker s d (x ∷ xs) (inl e) = inl (ap (with_marker s) e)
In-map-with_marker s d (x ∷ xs) (inr m) = inr (In-map-with_marker s d xs m)

module _ (p : Platform) (f : ApplyFaults) (name current : Bytes) where
  abbrev Passes : Trail → Result ApplyError (Unit {0}) × Trail → Type 0
  Passes t out =
      In (moved_aside t.site) out.1.trace × ((x : Site) → In x t.trace → In x out.1.trace)

  publish-Passes :
      (t : Trail)
      → (publish f name true (goes (moved_aside t.site) t)).0 ≡ ok tt
      → Passes t (publish f name true (goes (moved_aside t.site) t))
  unfolding remove_marker
  publish-Passes t h = elim (Bool-cases f.publish) [
    | inr renamed ↦ rw renamed (inr (inl refl), λ x m. inr (inr m))
    | inl fails ↦ ground arith
  ]

  replace-Passes :
      (t : Trail) (there : Option Bytes)
      → there ≡ some current
      → (replace_target f name there t).0 ≡ ok tt
      → Passes t (replace_target f name there t)
  unfolding remove_marker
  replace-Passes t none e h = ground arith
  replace-Passes t (some x) e h = elim (Bool-cases f.move_aside) [
    | inl fails ↦ ground arith
    | inr moved ↦ rw moved (publish-Passes t (ground arith))
  ]

  -- A successful rest of `Apply` has moved the binary aside from this state.
  after_marker-Passes :
      (t : Trail) (r : Result ApplyError (Unit {0}))
      → t.site.target ≡ some current
      → (after_marker f name (r, t)).0 ≡ ok tt
      → (r ≡ ok tt) × Passes t (after_marker f name (r, t))
  unfolding remove_marker
  after_marker-Passes t (err e) there h = ground arith
  after_marker-Passes t (ok _) there h = elim (Bool-cases f.stat_target) [
    | inl fails ↦ ground arith
    | inr found ↦ rw found (refl, replace-Passes t t.site.target there (ground arith))
  ]

-- The state that a successful write of the marker ends in is one that the directory was in.
write_encoded_last :
    (f : Faults) (o : Option Bytes) (s : Site)
    → let out = write_encoded f o (record { site = s; trace = [] }) in
      out.0 ≡ ok tt → In out.1.site out.1.trace
write_encoded_last f none s h = ground arith
write_encoded_last f (some b) s h =
    let w = (Atomicfile.write_durable f b 0o600 (start s.marker)).1 in
    In-map-with_marker s w.disk w.trace (durable_last f b 0o600 s.marker)

write_marker_last :
    (p : Platform) (f : Faults) (m : Marker) (s : Site)
    → let out = write_marker p f m (record { site = s; trace = [] }) in
      out.0 ≡ ok tt → In out.1.site out.1.trace
unfolding write_marker
write_marker_last p f m s h = write_encoded_last f (p.encode m) s h

-- A successful `Apply` over a binary passes through a state in which the target path does not exist;
-- and, before it, through one in which the binary is in its place, the marker is written, and beside
-- it stands whatever stood there before.
pub apply_passes :
    (p : Platform) (f : ApplyFaults) (a : Artifact) (name release current : Bytes) (s : Site)
    → s.target ≡ some current
    → let (r, t) = apply p f name a release (record { site = s; trace = [] }) in
      r ≡ ok tt
      → ((x : Site) × In x t.trace × (x.target ≡ none) × (x.previous ≡ some current))
        × ((x : Site) × In x t.trace
            × (x.target ≡ some current)
            × (x.previous ≡ s.previous)
            × IsMarked p (marker_for a release) x)
unfolding apply
apply_passes p f a name release current s there h =
    elim (Result-cases (verify_file p f.reopen a (s.staged name))) [
      | inr (e, refused) ↦ ground arith
      | inl (u, passed) ↦ rw passed (after passed)
    ]
  where
    after :
        {u : Unit {0}}
        → verify_file p f.reopen a (s.staged name) ≡ ok u
        → let out =
            write_marker p f.marker (marker_for a release) (record { site = s; trace = [] }) in
          let t = (after_marker f name out).1 in
          ((x : Site) × In x t.trace × (x.target ≡ none) × (x.previous ≡ some current))
          × ((x : Site) × In x t.trace
              × (x.target ≡ some current)
              × (x.previous ≡ s.previous)
              × IsMarked p (marker_for a release) x)
    after passed =
        let m = marker_for a release in
        let out = write_marker p f.marker m (record { site = s; trace = [] }) in
        let (target, previous, _, marked, _) = write_marker_lem p m s f.marker in
        let (wrote, passes) =
          after_marker-Passes p f name current out.1 out.0 (target ∙ there) (ground arith) in
        let (moved, kept) = passes in
        (
          (moved_aside out.1.site, moved, refl, target ∙ there),
          (
            out.1.site,
            kept out.1.site (write_marker_last p f.marker m s wrote),
            target ∙ there,
            previous,
            marked wrote,
          ),
        )

-- What the marker guards against is not the release before: where a binary stands beside the target
-- already, as after an earlier update, a successful `Apply` passes through a state from which two
-- starts with no confirmation between them, if the first reports no error, replace the binary that
-- is at the target, and that no release has replaced yet, by that older one.
pub crash_demotes_older :
    (p : Platform) (f : ApplyFaults) (a : Artifact) (name release current older : Bytes) (s : Site)
    → IsJson p
    → s.target ≡ some current
    → s.previous ≡ some older
    → (apply p f name a release (record { site = s; trace = [] })).0 ≡ ok tt
    → (x : Site) × In x (apply p f name a release (record { site = s; trace = [] })).1.trace
      × (x.target ≡ some current)
      × ((first second : StartupFaults)
          → CanRead first
          → CanRead second
          → second.demote ≡ false
          → second.remove_marker ≡ false
          → (check_startup p first x).0 ≡ ok tt
          → let (r, y) = check_startup p second (check_startup p first x).1 in
            (r ≡ err demoted) × (y.target ≡ some older))
crash_demotes_older p f a name release current older s json there beside h =
    let (_, passes) = apply_passes p f a name release current s there h in
    let (x, m, target, previous, marked) = passes in
    (
      x,
      m,
      target,
      λ first second can can' renames removes started.
          let (r, t, _) =
            unconfirmed_is_demoted p json first second (marker_for a release) older x can can'
              renames removes (IsMarked-Reads p json (marker_for a release) x marked) refl
              (previous ∙ beside) started in
          (r, t),
    )
