-- ===== src/Tests/Located.antt =====
-- Tables of addresses, the ladder of candidates and wire frames at concrete inputs.
use bacchus.Shared.{
  ℤ, replicate, ok, ℕ, [], ◌∷◌, List, ◌≡◌, ◌⊎◌, ◌+◌, ◌*◌, ◌-◌, refl, inl, true, false, Option, none,
  some, Bytes, bytes_eq, codes, arith, pos,
}
use bacchus.Wire.{Message, get, attr_proof, attr_fingerprint, parse, build_courier_request}
use bacchus.Selection.Store.{Record}
use bacchus.Wire.Courier.{parse-build_courier_request}
use bacchus.Version.{split}
use bacchus.Ranges
use bacchus.Ranges.{Addr, unmap, is_public, search, rank}
use bacchus.Geoip
use bacchus.Geoip.{Block, Input, Db, load_ranges, lookup}
use bacchus.Geoip.Find.{IsListed, lookup_iff}
use bacchus.Asn
use bacchus.Asn.{Table, lookup_as, read}
use bacchus.Selection.{Candidate, Country, LadderInput, ladder, mode_direct}
use bacchus.Selection
use bacchus.Selection.Ladder.{IsLearned, IsReachable, ladder_iff}

-- An address is written as its last byte in 8.8.8.0/24.
abbrev address : ℕ → Addr
address n = record { is4 = true; value = 134_744_064 + n }

abbrev parse_addr : Bytes → Option Addr
parse_addr [] = none
parse_addr (c ∷ cs) = some (address (c - b'0'))

abbrev toy_geoip : Geoip.Platform
toy_geoip = record {
  unicode = record { trim_space = λ text. text; to_upper = λ text. text };
  parse_addr = parse_addr;
}

abbrev country_file : Input
country_file = record {
  opening = false;
  lines = codes "5\t7\tNL" ∷ codes "# comment" ∷ codes "1\t3\tDE#here" ∷ codes "8\t9\tNO" ∷ [];
  scanning = false;
  closing = false;
}

abbrev block : ℕ → ℕ → Bytes → Block
block lo hi cc = record { lo = address lo; hi = address hi; cc = cc }

abbrev country_db : Db
country_db = record {
  v4 = block 1 3 (codes "DE") ∷ block 5 7 (codes "NL") ∷ block 8 9 (codes "NO") ∷ [];
  v6 = [];
  skipped_rows = 0;
}

-- `::ffff:8.8.8.6`.
abbrev mapped : Addr
mapped = record { is4 = false; value = 0xffff_0000_0000 + 134_744_070 }

lookup_iff_example :
    (is_public (unmap mapped) ≡ true)
    × IsListed toy_geoip country_file.lines (unmap mapped) (codes "NL")
unfolding load_ranges lookup unmap is_public search Ranges.find_row Geoip.load_family
    Geoip.read_ranges Geoip.read_lines Geoip.read_line Geoip.read_fields Geoip.canonical
    Geoip.sort_blocks Geoip.insert Geoip.validate Geoip.plausible split bytes_eq
lookup_iff_example =
    (lookup_iff toy_geoip (some country_file) none country_db mapped (codes "NL") refl).0 refl

abbrev prefix_of : Bytes → Option Asn.Prefix
prefix_of [] = none
prefix_of (c ∷ cs) = some (record { addr = address (4 * (c - b'0')); bits = 30 })

abbrev toy_asn : Asn.Platform
toy_asn = record { trim_space = λ text. text; fields = split b'\t'; parse_prefix = prefix_of }

abbrev prefix_lines : List Bytes
prefix_lines = codes "2\t15169" ∷ codes "# comment" ∷ codes "0\t13335" ∷ []

abbrev span : ℕ → ℕ → Asn.Span
span n as_number = record {
  prefix = record { addr = address (4 * n); bits = 30 };
  number = as_number;
}

abbrev prefix_table : Table
prefix_table = record { v4 = span 0 13335 ∷ span 2 15169 ∷ []; v6 = []; rows = 2 }

abbrev country : Bytes → ℕ → Country
country code ms = record { code = code; available = pos 1; busy = false; rtt = pos ms }

abbrev learned : Candidate
learned = record { transport = codes "reality"; country = codes "NL"; mode = mode_direct }

abbrev two_countries : LadderInput
two_countries = record {
  geo = [];
  countries = country (codes "DE") 30 ∷ country (codes "NL") 20 ∷ [];
  transports = codes "webrtc" ∷ codes "reality" ∷ [];
  learned = some learned;
  cooling = none;
}

ladder_iff_example :
    IsLearned bytes_eq two_countries learned ⊎ IsReachable bytes_eq two_countries learned
unfolding ladder Selection.dedup Selection.dedup_from Selection.is_seen Selection.join_tiers
    Selection.alternatives Selection.countries_as Selection.country_present Selection.sort_by_ping
    Selection.insert_by_ping Selection.in_scope Selection.sink_cooling bytes_eq
ladder_iff_example = (ladder_iff bytes_eq two_countries learned).0 (inl refl)

-- A request with a proof of three bytes and a CRC that is always the same.
parse-build_courier_request_example :
    (m : Message) × (parse
        (build_courier_request (λ m. replicate 4 7) (replicate 12 5) (1 ∷ 2 ∷ 3 ∷ []))
      ≡ ok m)
    × (m.typ ≡ 1)
    × (m.tx ≡ replicate 12 5)
    × (get m attr_proof ≡ some (1 ∷ 2 ∷ 3 ∷ []))
    × (get m attr_fingerprint ≡ some (replicate 4 7))
parse-build_courier_request_example =
    parse-build_courier_request (λ m. replicate 4 7) (replicate 12 5) (1 ∷ 2 ∷ 3 ∷ [])
      (λ m. omega arith) (omega arith) (omega arith)

-- An attribute of two bytes, padded, and three bytes that are none.
abbrev frame : Bytes
frame = 0 ∷ 1 ∷ 0 ∷ 2 ∷ 8 ∷ 9 ∷ 0 ∷ 0 ∷ 1 ∷ 2 ∷ 3 ∷ []

-- Two records of one network, the later of them faster, and one that is too old.
abbrev recorded : Bytes → ℤ → ℕ → Record
recorded code ms at = record {
  net = codes "home";
  geo = [];
  country = code;
  tr = codes "webrtc";
  mode = mode_direct;
  rtt_ms = ms;
  at = at;
}

abbrev records : List Record
records =
    recorded (codes "DE") (pos 40) 900
    ∷ recorded (codes "NL") (pos 20) 950
    ∷ recorded (codes "FR") (pos 5) 10
    ∷ []
