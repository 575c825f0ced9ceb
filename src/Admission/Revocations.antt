-- ===== src/Admission/Revocations.antt =====
-- core/admission/verify.go: the revoked serials of credentials, and their file. The set is the list of
-- the keys of Go's map.
pub mod Saved
use bacchus.Shared.{
  ℕ, List, [], ◌∷◌, Bool, true, false, not, ◌&&◌, ◌||◌, Option, none, some, Bytes, bytes_eq, ltb,
  ◌==◌, if◌then◌else◌, ℤ, pos, eqb_ℤ, Result, ok, err, map_err,
}
use bacchus.Atomicfile
use bacchus.Atomicfile.{Disk, File, Faults, World}
use bacchus.Atomicfile.Install.{start}

pub record RevocationList : Type 0 where
  pub set : List Bytes

pub record RevocationFile : Type 0 where
  pub version : ℤ
  pub serials : List Bytes

pub record Json : Type 0 where
  pub encode : RevocationFile → Option Bytes
  pub decode : Bytes → Option RevocationFile

pub data LoadError : Type 0 where
  read_failed parse_failed unsupported_version : LoadError

pub data SaveError : Type 0 where
  marshal_failed : SaveError
  install_failed : Atomicfile.Error → SaveError

abbrev pub new_revocation_list : RevocationList
new_revocation_list = record { set = [] }

abbrev pub has_key : Bytes → List Bytes → Bool
has_key serial [] = false
has_key serial (s ∷ set) = bytes_eq s serial || has_key serial set

unfoldable pub revoked : RevocationList → Bytes → Bool
revoked r serial = has_key serial r.set

unfoldable pub revoke : Bytes → RevocationList → RevocationList
revoke serial r = if has_key serial r.set then r else record { set = serial ∷ r.set }

unfoldable pub revoke_all : List Bytes → RevocationList → RevocationList
revoke_all [] r = r
revoke_all (s ∷ serials) r = revoke_all serials (revoke s r)

abbrev load_decoded : Option RevocationFile → Result LoadError RevocationList
load_decoded none = err parse_failed
load_decoded (some f) =
    if not (eqb_ℤ f.version (pos 1))
    then err unsupported_version
    else ok (revoke_all f.serials new_revocation_list)

abbrev load_file : Json → Option File → Result LoadError RevocationList
load_file j none = err read_failed
load_file j (some f) = load_decoded (j.decode f.content)

unfoldable pub load_revocation_list : Json → Bool → Disk → Result LoadError RevocationList
unfolding revoke_all revoke
load_revocation_list j fails d = if fails then err read_failed else load_file j d.target

-- Go's `<` on strings, by bytes.
string_less : Bytes → Bytes → Bool
string_less [] [] = false
string_less [] (d ∷ ds) = true
string_less (c ∷ cs) [] = false
string_less (c ∷ cs) (d ∷ ds) = ltb c d || (c == d && string_less cs ds)

unfoldable pub insert_serial : Bytes → List Bytes → List Bytes
unfolding string_less
insert_serial s [] = s ∷ []
insert_serial s (x ∷ xs) =
    let rest = insert_serial s xs in if string_less x s then x ∷ rest else s ∷ x ∷ xs

unfoldable pub sort_serials : List Bytes → List Bytes
sort_serials [] = []
sort_serials (s ∷ set) = insert_serial s (sort_serials set)

unfoldable pub serials : RevocationList → List Bytes
serials r = sort_serials r.set

abbrev saved : Result Atomicfile.Error (Unit {0}) × World → Result SaveError (Unit {0}) × Disk
saved (r, w) = (map_err install_failed r, w.disk)

abbrev save_encoded : Option Bytes → Faults → Disk → Result SaveError (Unit {0}) × Disk
save_encoded none f d = (err marshal_failed, d)
save_encoded (some b) f d = saved (Atomicfile.write_durable f b 0o600 (start d))

unfoldable pub save_file :
    Json → Faults → RevocationList → Disk → Result SaveError (Unit {0}) × Disk
unfolding serials
save_file j f r d = save_encoded (j.encode (record { version = pos 1; serials = serials r })) f d
