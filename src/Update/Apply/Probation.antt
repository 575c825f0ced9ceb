-- ===== src/Update/Apply/Probation.antt =====
-- The probation of a release in core/update: `CheckStartup` and `Confirm` from start to start.
use bacchus.Shared.{
  [], Bool, true, false, ◌≡◌, refl, sym, ap, ◌∙◌, none, some, Bytes, arith, Result, ok, err,
}
use bacchus.Atomicfile.{File}
use bacchus.Atomicfile.Install.{new_file}
use bacchus.Update.Apply.{
  Platform, Marker, Site, Trail, StartupFaults, demoted, ApplyError, claimed, write_marker,
  check_startup, confirm, read_marker, clear_marker, unmarked,
}
use bacchus.Update.Apply.Crash.{IsMarked, write_marker_lem}

-- What the code relies on of `encoding/json`: a marker decodes to what was encoded.
abbrev pub IsJson : Platform → Type 0
IsJson p = (m : Marker) (b : Bytes) → p.encode m ≡ some b → p.decode b ≡ some m

-- A marker on disk that reads as `m`.
abbrev pub Reads : Platform → Marker → Site → Type 0
Reads p m s = (f : File) × (s.marker.target ≡ some f) × (p.decode f.content ≡ some m)

-- What a start can read and do.
abbrev pub CanRead : StartupFaults → Type 0
CanRead f = (f.read ≡ false) × (f.stat_previous ≡ false)

module _ (p : Platform) (json : IsJson p) where
  pub IsMarked-Reads : (m : Marker) (s : Site) → IsMarked p m s → Reads p m s
  IsMarked-Reads m s (b, enc, there) = (new_file b 0o600, there, json m b enc)

  claim :
      (f : StartupFaults) (m : Marker) (s : Site)
      → CanRead f
      → Reads p m s
      → m.started ≡ false
      → (old : Bytes) → s.previous ≡ some old
      → check_startup p f s
        ≡ claimed (
            write_marker p f.marker (record m { started = true }) (record { site = s; trace = [] }))
  unfolding check_startup read_marker
  claim f m s can (file, there, reads) new old kept = ground arith

  claimed_ok :
      (m : Marker) (s : Site) (out : Result ApplyError (Unit {0}) × Trail)
      → (out.0 ≡ ok tt → IsMarked p m out.1.site)
      → (claimed out).0 ≡ ok tt
      → Reads p m (claimed out).1
  claimed_ok m s (ok _, t) marked h = IsMarked-Reads m t.site (marked refl)
  claimed_ok m s (err e, t) marked h = ground arith

  first_start :
      (f : StartupFaults) (m : Marker) (old : Bytes) (s : Site)
      → CanRead f
      → Reads p m s
      → m.started ≡ false
      → s.previous ≡ some old
      → (check_startup p f s).0 ≡ ok tt
      → let s' = (check_startup p f s).1 in
        (s'.target ≡ s.target) × (s'.previous ≡ some old) × Reads p (record m { started = true }) s'
  first_start f m old s can reads new kept h =
      let m' : Marker = record m { started = true } in
      let out = write_marker p f.marker m' (record { site = s; trace = [] }) in
      let e = claim f m s can reads new old kept in
      let (target, previous, _, marked, _) = write_marker_lem p m' s f.marker in
      rw e (target, previous ∙ kept, claimed_ok m' s out marked (ap (λ x. x.0) (sym e) ∙ h))

  second_start :
      (f : StartupFaults) (m : Marker) (old : Bytes) (s : Site)
      → CanRead f
      → Reads p m s
      → m.started ≡ true
      → s.previous ≡ some old
      → f.demote ≡ false
      → f.remove_marker ≡ false
      → let (r, s') = check_startup p f s in
        (r ≡ err demoted) × (s'.target ≡ some old) × (s'.marker.target ≡ none)
  unfolding check_startup read_marker clear_marker
  second_start f m old s can (file, there, reads) claimed kept renames removes = ground arith

  -- A release that does not confirm is taken back: of two starts with no confirmation between them,
  -- both of which can read the marker, if the first reports no error, then the second, where its
  -- rename and its removal of the marker work, reports the demotion, with the binary that stood
  -- beside the target at the target and no marker left.
  pub unconfirmed_is_demoted :
      (first second : StartupFaults) (m : Marker) (old : Bytes) (s : Site)
      → CanRead first
      → CanRead second
      → second.demote ≡ false
      → second.remove_marker ≡ false
      → Reads p m s
      → m.started ≡ false
      → s.previous ≡ some old
      → (check_startup p first s).0 ≡ ok tt
      → let (r, s') = check_startup p second (check_startup p first s).1 in
        (r ≡ err demoted) × (s'.target ≡ some old) × (s'.marker.target ≡ none)
  unconfirmed_is_demoted first second m old s can can' renames removes reads new kept h =
      let (_, kept', claimed_marker) = first_start first m old s can reads new kept h in
      second_start second (record m { started = true }) old (check_startup p first s).1 can'
        claimed_marker refl kept' renames removes

  confirm_unstarted :
      (remove_fails : Bool) (m : Marker) (s : Site)
      → Reads p m s
      → m.started ≡ false
      → confirm p false remove_fails s ≡ (ok tt, s)
  unfolding confirm read_marker
  confirm_unstarted remove_fails m s (file, there, reads) new = ground arith

  confirm_started :
      (remove_fails : Bool) (m : Marker) (s : Site)
      → Reads p m s
      → m.started ≡ true
      → (confirm p false remove_fails s).0 ≡ ok tt
      → (confirm p false remove_fails s).1 ≡ unmarked s
  unfolding confirm read_marker clear_marker
  confirm_started remove_fails m s (file, there, reads) started h = ground arith

  start_unmarked :
      (f : StartupFaults) (s : Site)
      → f.read ≡ false
      → check_startup p f (unmarked s) ≡ (ok tt, unmarked s)
  unfolding check_startup read_marker
  start_unmarked f s h = ground arith

  -- A release that confirms is not: if the first start and then the confirmation report no error,
  -- every later start that can read reports none and changes nothing, and the binary at the target
  -- is the one of the first start. A confirmation before the first start leaves the marker.
  pub confirmed_is_kept :
      (first later : StartupFaults) (m : Marker) (old : Bytes) (s : Site) (remove_fails : Bool)
      → CanRead first
      → CanRead later
      → Reads p m s
      → m.started ≡ false
      → s.previous ≡ some old
      → (check_startup p first s).0 ≡ ok tt
      → let (r, s') = confirm p false remove_fails (check_startup p first s).1 in
        (confirm p false remove_fails s ≡ (ok tt, s))
        × (r ≡ ok tt → (check_startup p later s' ≡ (ok tt, s')) × (s'.target ≡ s.target))
  confirmed_is_kept first later m old s remove_fails can can' reads new kept h =
      let (target, _, claimed_marker) = first_start first m old s can reads new kept h in
      let started = (check_startup p first s).1 in
      (
        confirm_unstarted remove_fails m s reads new,
        λ done.
            let e =
              confirm_started remove_fails (record m { started = true }) started claimed_marker refl
                done in
            rw e (start_unmarked later started can'.0, target),
      )
