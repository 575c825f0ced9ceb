-- ===== src/Admission/Revocations/Saved.antt =====
-- `SaveFile` and `LoadRevocationList` of core/admission, one after the other.
use bacchus.Shared.{
  List, [], ◌∷◌, true, false, ◌||◌, ◌≡◌, ◌⊎◌, inl, inr, refl, ap, Option, none, some, Bytes,
  bytes_eq, bytes_eq_iff, arith, pos, Result, ok, err,
}
use bacchus.Atomicfile
use bacchus.Atomicfile.{Disk, File, Faults, World}
use bacchus.Atomicfile.Install.{new_file, start, put_target}
use bacchus.Admission.Revocations.{
  RevocationList, RevocationFile, Json, SaveError, new_revocation_list, has_key, revoked, revoke,
  revoke_all, load_revocation_list, insert_serial, sort_serials, serials, saved, save_encoded,
  save_file,
}

-- What the code relies on of `encoding/json`: a file that was encoded decodes to itself.
abbrev pub IsJson : Json → Type 0
IsJson j = (f : RevocationFile) (b : Bytes) → j.encode f ≡ some b → j.decode b ≡ some f

-- The file loads, as a list that revokes the same serials.
abbrev pub Loads : Json → Disk → RevocationList → Type 0
Loads j d r =
    (r' : RevocationList) × (load_revocation_list j false d ≡ ok r')
    × ((t : Bytes) → revoked r' t ≡ revoked r t)

module _ (t : Bytes) where
  has_key-insert_serial :
      (s : Bytes) (xs : List Bytes)
      → has_key t (insert_serial s xs) ≡ (bytes_eq s t || has_key t xs)
  unfolding insert_serial
  has_key-insert_serial s [] = refl
  has_key-insert_serial s (x ∷ xs) = ground (arith, has_key-insert_serial s xs)

  has_key-sort_serials : (xs : List Bytes) → has_key t (sort_serials xs) ≡ has_key t xs
  unfolding sort_serials
  has_key-sort_serials [] = refl
  has_key-sort_serials (x ∷ xs) =
      ground (arith, has_key-insert_serial x (sort_serials xs), has_key-sort_serials xs)

  has_key_same : (s : Bytes) (xs : List Bytes) → bytes_eq s t ≡ true → has_key s xs ≡ has_key t xs
  has_key_same s xs h = ap (λ x. has_key x xs) ((bytes_eq_iff s t).0 h)

  revoked-revoke :
      (s : Bytes) (r : RevocationList) → revoked (revoke s r) t ≡ (bytes_eq s t || revoked r t)
  unfolding revoke revoked
  revoked-revoke s r = ground (arith, has_key_same s r.set)

  revoked-revoke_all :
      (ss : List Bytes) (r : RevocationList)
      → revoked (revoke_all ss r) t ≡ (has_key t ss || revoked r t)
  unfolding revoke_all
  revoked-revoke_all [] r = refl
  revoked-revoke_all (s ∷ ss) r =
      ground (arith, revoked-revoke_all ss (revoke s r), revoked-revoke s r)

module _ (j : Json) (json : IsJson j) (r : RevocationList) where
  abbrev file_of : RevocationFile
  file_of = record { version = pos 1; serials = serials r }

  written_Loads :
      (b : Bytes) (d : Disk)
      → j.encode file_of ≡ some b
      → d.target ≡ some (new_file b 0o600)
      → Loads j d r
  unfolding load_revocation_list revoked serials
  written_Loads b d e there = (
    revoke_all (serials r) new_revocation_list,
    ground (arith, json file_of b e),
    λ t.
        ground (
          arith,
          revoked-revoke_all t (serials r) new_revocation_list,
          has_key-sort_serials t r.set,
        ),
  )

  -- What a save does to what a later start loads.
  abbrev Saves : Disk → Result SaveError (Unit {0}) × Disk → Type 0
  Saves d (x, d') =
      ((load_revocation_list j false d' ≡ load_revocation_list j false d) ⊎ Loads j d' r)
      × (x ≡ ok tt → Loads j d' r)

  saved_lem :
      (b : Bytes) (d : Disk) (out : Result Atomicfile.Error (Unit {0}) × World)
      → j.encode file_of ≡ some b
      → ((out.1.disk.target ≡ d.target) ⊎ (out.1.disk.target ≡ some (new_file b 0o600)))
      → (out.0 ≡ ok tt → out.1.disk.target ≡ some (new_file b 0o600))
      → Saves d (saved out)
  unfolding load_revocation_list
  saved_lem b d (ok _, w) e target done =
      let new = written_Loads b w.disk e (done refl) in (inr new, λ h. new)
  saved_lem b d (err x, w) e (inl same) done = (inl (rw same refl), λ h. ground arith)
  saved_lem b d (err x, w) e (inr new) done =
      (inr (written_Loads b w.disk e new), λ h. ground arith)

  save_encoded_lem :
      (f : Faults) (d : Disk) (o : Option Bytes)
      → j.encode file_of ≡ o
      → Saves d (save_encoded o f d)
  save_encoded_lem f d none e = (inl refl, λ h. ground arith)
  save_encoded_lem f d (some b) e =
      let (target, done) = put_target true f b 0o600 d in
      saved_lem b d (Atomicfile.write_durable f b 0o600 (start d)) e target done

  -- Whatever fails in saving, a later start that can read the file loads either what it would have
  -- loaded before, or a list that revokes exactly the serials of this one; and if the save reports no
  -- error, the latter. In the file the serials are sorted, and in the set they are not.
  pub save_load :
      (f : Faults) (d : Disk)
      → let (x, d') = save_file j f r d in
        ((load_revocation_list j false d' ≡ load_revocation_list j false d) ⊎ Loads j d' r)
        × (x ≡ ok tt → Loads j d' r)
  unfolding save_file
  save_load f d = save_encoded_lem f d (j.encode file_of) refl
