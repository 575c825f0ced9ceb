-- ===== src/UdpRelay/Flow.antt =====
-- What reaches the exit's socket of what the client sent.
use bacchus.Shared.{
  Bool-cases, false, ◌==◌, ℕ, zero, suc, ◌+◌, ◌≤◌, ◌<◌, ◌≡◌, ◌↔◌, refl, ap, ◌∙◌, List, [], ◌∷◌,
  ◌++◌, true, Option, none, some, Bytes, length, take, length-take, All, arith, ok, Option-cases,
  Result-cases, inl, inr,
}
use bacchus.Capacity.Limiter.{Node, Declared, wait_n, meter_n, charge}
use bacchus.UdpRelay.{
  allow, sent, Datagram, Peer, Received, read_udp_frame, decode_socks_udp_frame,
  encode_socks_udp_frame, max_udp_datagram, socks_udp_header_len, put_uint16, ip_equal, pass_on,
  relay_later, serve_socks_udp_associate, exit_relay, after_read, pass_decoded,
}
use bacchus.UdpRelay.Frame.{
  write-short, read-write, decode-length, decode-encode, encode-decode, ip_equal_iff, IsByte,
}

-- What a received datagram holds, in a buffer of 65545 bytes.
abbrev pub in_buffer : Received → Bytes
in_buffer r = take (max_udp_datagram + socks_udp_header_len) r.bytes

abbrev pub with_payload : Option Bytes → List Bytes → List Bytes
with_payload none rest = rest
with_payload (some p) rest = p ∷ rest

-- The payloads that are passed on, in order.
abbrev pub payloads : Peer → Datagram → List Received → List Bytes
payloads from first [] = []
payloads from first (r ∷ rs) = with_payload (pass_on from first r) (payloads from first rs)

decoded-short :
    (r : Received) (d : Datagram)
    → decode_socks_udp_frame (in_buffer r) ≡ ok d
    → length d.payload ≤ max_udp_datagram
decoded-short r d e = omega (
  arith,
  (decode-length (in_buffer r) d e).0,
  length-take {0} (max_udp_datagram + socks_udp_header_len) r.bytes,
)

pass_on-short :
    (from : Peer) (first : Datagram) (r : Received) (p : Bytes)
    → pass_on from first r ≡ some p
    → length p ≤ max_udp_datagram
unfolding pass_on
pass_on-short from first r p e = elim (Result-cases (decode_socks_udp_frame (in_buffer r))) [
  | inr (x, bad) ↦ ground arith
  | inl (d, decoded) ↦ ground (arith, decoded-short r d decoded)
]

module _ {S : Type 0} (d : Declared S) (meanwhile : ℕ → Node S → Node S)
    (no_quota : d.has_quota ≡ false) (no_limiter : d.limiter ≡ none) where
  -- A node without limits allows every datagram, and stays as it is.
  allow-unlimited : (n : ℕ) (k : Node S) → allow d none n k ≡ (true, k)
  unfolding allow wait_n meter_n charge
  allow-unlimited n k = elim (Bool-cases (n == 0)) [
    | inl empty ↦ rw empty refl
    | inr some_bytes ↦ rw (some_bytes, no_quota, no_limiter) refl
  ]

  -- The exit reads one frame and goes on with the rest.
  exit_relay-frame :
      (f : ℕ) (p s : Bytes) (k : Node S)
      → length p ≤ max_udp_datagram
      → exit_relay (suc f) d none meanwhile ((put_uint16 (length p) ++ p) ++ s) k
        ≡ p ∷ exit_relay f d none meanwhile s (meanwhile f k)
  unfolding exit_relay
  exit_relay-frame f p s k h =
      ap (after_read d none (exit_relay f d none meanwhile) (meanwhile f k)) (read-write p s h)
      ∙ ap (sent p (exit_relay f d none meanwhile s)) (allow-unlimited (length p) (meanwhile f k))

  exit_relay-end : (f : ℕ) (k : Node S) → exit_relay f d none meanwhile [] k ≡ []
  unfolding exit_relay read_udp_frame
  exit_relay-end zero k = refl
  exit_relay-end (suc f) k = refl

  later-payloads :
      (from : Peer) (first : Datagram) (rs : List Received) (f : ℕ) (k : Node S)
      → length rs ≤ f
      → exit_relay f d none meanwhile (relay_later from first rs) k ≡ payloads from first rs
  unfolding relay_later
  later-payloads from first [] f k h = exit_relay-end f k
  later-payloads from first (r ∷ rs) zero k h = absurd (omega arith)
  later-payloads from first (r ∷ rs) (suc f) k h = elim (Option-cases (pass_on from first r)) [
    | inl dropped ↦ rw dropped (later-payloads from first rs (suc f) k (omega arith))
    | inr (p, passed) ↦
        let short = pass_on-short from first r p passed in
        rw (passed, write-short p short)
          (exit_relay-frame f p (relay_later from first rs) k short
            ∙ ap (◌∷◌ p) (later-payloads from first rs f (meanwhile f k) (omega arith)))
  ]

  -- The flow arrives: what the exit sends to the destination is the payload of the first datagram and then,
  -- in their order, the payloads that the loop passes on of the later ones, each once, unchanged, and one for
  -- one, whatever else becomes of the node meanwhile; with no limit of the tier or of the operator at the
  -- exit, where the first datagram can be read.
  pub flow_arrives :
      (r : Received) (rs : List Received) (first : Datagram) (f : ℕ) (k : Node S)
      → decode_socks_udp_frame (in_buffer r) ≡ ok first
      → suc (length rs) ≤ f
      → exit_relay f d none meanwhile (serve_socks_udp_associate (r ∷ rs)) k
        ≡ first.payload ∷ payloads r.src first rs
  unfolding serve_socks_udp_associate
  flow_arrives r rs first zero k e h = absurd (omega arith)
  flow_arrives r rs first (suc f) k e h =
      let short = decoded-short r first e in
      rw (e, write-short first.payload short)
        (exit_relay-frame f first.payload (relay_later r.src first rs) k short
          ∙ ap (◌∷◌ first.payload) (later-payloads r.src first rs f (meanwhile f k) (omega arith)))

All-take : (n : ℕ) (b : Bytes) → All IsByte b → All IsByte (take n b)
All-take zero b h = tt
All-take (suc n) [] h = tt
All-take (suc n) (x ∷ b) h = (h.0, All-take n b h.1)

decode_first :
    (ip : Bytes) (port : ℕ) (p : Bytes)
    → length ip ≡ 4
    → port < 65536
    → decode_socks_udp_frame (encode_socks_udp_frame ip port p)
      ≡ ok (record { payload = p; ip = ip; port = port })
decode_first (a ∷ b ∷ c ∷ d ∷ []) port p h small = decode-encode a b c d port p small
decode_first [] port p h small = absurd (omega (arith, h))
decode_first (a ∷ []) port p h small = absurd (omega (arith, h))
decode_first (a ∷ b ∷ []) port p h small = absurd (omega (arith, h))
decode_first (a ∷ b ∷ c ∷ []) port p h small = absurd (omega (arith, h))
decode_first (a ∷ b ∷ c ∷ d ∷ e ∷ ip) port p h small = absurd (omega (arith, h))

pass_iff :
    (from : Peer) (first : Datagram) (src : Peer) (b p : Bytes)
    → length first.ip ≡ 4
    → first.port < 65536
    → All IsByte b
    → (pass_decoded from first src (decode_socks_udp_frame b) ≡ some p) ↔ (
        (src.port ≡ from.port)
        × (ip_equal src.ip from.ip ≡ true)
        × (b ≡ encode_socks_udp_frame first.ip first.port p))
pass_iff from first src b p four small bytes = (forth, back)
  where
    forth :
        pass_decoded from first src (decode_socks_udp_frame b) ≡ some p
        → (src.port ≡ from.port)
          × (ip_equal src.ip from.ip ≡ true)
          × (b ≡ encode_socks_udp_frame first.ip first.port p)
    forth h = elim (Result-cases (decode_socks_udp_frame b)) [
      | inr (x, bad) ↦ ground arith
      | inl (d, decoded) ↦
          let (same, port) = encode-decode b d bytes decoded in
          let (len, ip4) = decode-length b d decoded in
          ground (arith, ip_equal_iff d.ip first.ip ip4 four)
    ]

    back :
        (src.port ≡ from.port)
          × (ip_equal src.ip from.ip ≡ true)
          × (b ≡ encode_socks_udp_frame first.ip first.port p)
        → pass_decoded from first src (decode_socks_udp_frame b) ≡ some p
    back (port, ip, same) =
        let decoded =
          ap decode_socks_udp_frame same ∙ decode_first first.ip first.port p four small in
        ground (arith, ip_equal_iff first.ip first.ip four four)

-- A datagram is passed on exactly if it comes from the port and the address that opened the association,
-- and is a SOCKS5 datagram to the address and the port of the first one; what is passed on is its payload,
-- and a datagram to any other destination is dropped. `first` has an address of four
-- bytes and a port below 65536, and what was received is bytes.
pub pass_on_iff :
    (from : Peer) (first : Datagram) (r : Received) (p : Bytes)
    → length first.ip ≡ 4
    → first.port < 65536
    → All IsByte r.bytes
    → (pass_on from first r ≡ some p) ↔ (
        (r.src.port ≡ from.port)
        × (ip_equal r.src.ip from.ip ≡ true)
        × (in_buffer r ≡ encode_socks_udp_frame first.ip first.port p))
unfolding pass_on
pass_on_iff from first r p four small bytes =
    pass_iff from first r.src (in_buffer r) p four small
      (All-take (max_udp_datagram + socks_udp_header_len) r.bytes bytes)
