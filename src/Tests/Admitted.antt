-- ===== src/Tests/Admitted.antt =====
-- Admission and release versions at concrete inputs.
use bacchus.Atomicfile
use bacchus.Admission.Revocations
use bacchus.Admission.Revocations.Saved
use bacchus.Admission.Revocations.{RevocationList, load_revocation_list, save_file}
use bacchus.Admission.Revocations.Saved.{Loads, save_load}
use bacchus.Shared.{
  ℕ, List, ◌++◌, [], ◌∷◌, ◌≡◌, inl, inr, refl, false, Option, none, some, Option-cases,
  if◌then◌else◌, eqb_ℤ, Bytes, arith, ok, pos, codes, replicate,
}
use bacchus.Admission.{Platform, Credential, Authority, Verifier, has_role, admits, verify}
use bacchus.Admission.Decision.{verify_ignores_unadmitting}
use bacchus.Admission.Crl
use bacchus.Admission.Crl.{IsGiven, run_revoked}
use bacchus.Version.{Version}
use bacchus.Tests.Toys.{toy_verify, empty_disk, no_faults}

abbrev credential : Credential
credential = record {
  version = pos 1;
  serial = "c1";
  subject = "node-1";
  roles = "relay" ∷ "exit" ∷ [];
  not_before = 1_000_000_000_000;
  not_after = 9_000_000_000_000;
  note = "";
  vouched = false;
  trust = "";
  plan = "";
}

-- Base64 is the identity, and nothing is trimmed.
abbrev platform : Platform
platform = record {
  verify = toy_verify;
  decode_base64 = λ b. some b;
  trim_space = λ b. b;
  decode_credential = λ b. some credential;
}

abbrev client_authority : Authority
client_authority = record { key = replicate 32 5; roles = "client" ∷ [] }

abbrev node_authority : Authority
node_authority = record { key = replicate 32 6; roles = "relay" ∷ "exit" ∷ [] }

abbrev verifier : Verifier
verifier = record {
  authorities = client_authority ∷ node_authority ∷ [];
  revoked = λ serial. false;
}

abbrev encoded : Bytes
encoded = codes "bacchusc1:" ++ (1 ∷ replicate 64 6)

verify_ignores_unadmitting_example :
    verify platform verifier encoded 2_000_000_000_000 "exit" ""
    ≡ verify platform
        (record verifier { authorities = node_authority ∷ [] })
        encoded
        2_000_000_000_000
        "exit"
        ""
unfolding admits has_role
verify_ignores_unadmitting_example =
    verify_ignores_unadmitting platform verifier [] (node_authority ∷ []) client_authority encoded
      2_000_000_000_000 "exit" "" refl refl

abbrev crl : Crl.Crl
crl = record {
  version = pos 1;
  issued_at = 1_000_000_000_000;
  expires_at = 4_000_000_000_000;
  serials = "c1" ∷ [];
}

abbrev crl_platform : Crl.Platform
crl_platform = record {
  verify = toy_verify;
  decode_base64 = λ b. some b;
  trim_space = λ b. b;
  decode_crl = λ b. some crl;
}

-- A list in date, then bytes that are no list, then the list again when it is over.
abbrev given : List (Bytes × ℕ)
given =
    (codes "bacchusr1:" ++ (1 ∷ replicate 64 5), 2_000_000_000_000)
    ∷ (codes "bacchus", 2_000_000_000_000)
    ∷ (codes "bacchusr1:" ++ (1 ∷ replicate 64 5), 4_000_000_000_000)
    ∷ []

abbrev v_0_9_0 : Version
v_0_9_0 = record { major = 0; minor = 9; patch = 0 }

abbrev v_0_10_2 : Version
v_0_10_2 = record { major = 0; minor = 10; patch = 2 }

abbrev v_1_0_0 : Version
v_1_0_0 = record { major = 1; minor = 0; patch = 0 }

-- A file of revoked serials of one byte each.
cons_byte : ℕ → Option Bytes → Option Bytes
cons_byte c none = none
cons_byte c (some b) = some (c ∷ b)

encode_serials : List Bytes → Option Bytes
unfolding cons_byte
encode_serials [] = some []
encode_serials ((c ∷ []) ∷ serials) = cons_byte c (encode_serials serials)
encode_serials _ = none

decode_serials : Bytes → List Bytes
decode_serials [] = []
decode_serials (c ∷ b) = (c ∷ []) ∷ decode_serials b

serials_decode : (ss : List Bytes) (b : Bytes) → encode_serials ss ≡ some b → decode_serials b ≡ ss
unfolding cons_byte encode_serials decode_serials
serials_decode [] b h = ground arith
serials_decode ([] ∷ ss) b h = ground arith
serials_decode ((c ∷ []) ∷ ss) b h = elim (Option-cases (encode_serials ss)) [
  | inl none_left ↦ ground arith
  | inr (b', rest) ↦ ground (arith, serials_decode ss b' rest)
]
serials_decode ((c ∷ d ∷ cs) ∷ ss) b h = ground arith

toy_revocations : Revocations.Json
unfolding encode_serials decode_serials
toy_revocations = record {
  encode = λ f. if eqb_ℤ f.version (pos 1) then encode_serials f.serials else none;
  decode = λ b. some (record { version = pos 1; serials = decode_serials b });
}

toy_revocations-IsJson : Saved.IsJson toy_revocations
unfolding toy_revocations
toy_revocations-IsJson f b h = ground (arith, serials_decode f.serials b)

abbrev two_serials : RevocationList
two_serials = record { set = (9 ∷ []) ∷ (3 ∷ []) ∷ [] }

-- And without a fault the save reports none.
saves_two_serials : (save_file toy_revocations no_faults two_serials empty_disk).0 ≡ ok tt
unfolding save_file toy_revocations encode_serials cons_byte Revocations.serials
    Revocations.sort_serials Revocations.insert_serial Atomicfile.write_durable Atomicfile.write
    Atomicfile.sync_dir
saves_two_serials = refl
