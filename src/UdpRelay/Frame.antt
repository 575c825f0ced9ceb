-- ===== src/UdpRelay/Frame.antt =====
-- The two framings of core/udprelay.go, written and read.
use bacchus.Shared.{
  ℕ, ◌+◌, ◌*◌, ◌/◌, ◌%◌, ◌≤◌, ◌<◌, ◌≡◌, ◌↔◌, [], ◌∷◌, ◌++◌, true, Bytes, length, take_append,
  drop_append, length-append, length-take, All, bytes_eq_iff, arith, ok, le→ltb-false,
}
use bacchus.UdpRelay.{
  Datagram, write_udp_frame, read_udp_frame, read_body, decode_socks_udp_frame,
  encode_socks_udp_frame, max_udp_datagram, put_uint16, ip_equal,
}

pub write-short :
    (p : Bytes) → length p ≤ max_udp_datagram → write_udp_frame p ≡ ok (put_uint16 (length p) ++ p)
unfolding write_udp_frame
write-short p h = ground arith

read_body-append : (p s : Bytes) → read_body (length p) (p ++ s) ≡ ok (p, s)
read_body-append p s = ground (arith, length-append {0} p s, take_append p s, drop_append p s)

pub read-write :
    (p s : Bytes)
    → length p ≤ max_udp_datagram
    → read_udp_frame max_udp_datagram ((put_uint16 (length p) ++ p) ++ s) ≡ ok (p, s)
unfolding read_udp_frame
read-write p s h =
    let n = length p in
    let fits : n / 256 % 256 * 256 + n % 256 ≡ n = omega arith in
    rw (fits, le→ltb-false max_udp_datagram n h) (read_body-append p s)

-- A read never gives more than there is room for.
pub read-short :
    (room : ℕ) (s p rest : Bytes) → read_udp_frame room s ≡ ok (p, rest) → length p ≤ room
unfolding read_udp_frame
read-short room [] p rest e = absurd (cc)
read-short room (a ∷ []) p rest e = absurd (cc)
read-short room (a ∷ b ∷ s) p rest e = ground (arith, length-take (a * 256 + b) s)

pub decode-length :
    (b : Bytes) (d : Datagram)
    → decode_socks_udp_frame b ≡ ok d
    → (length d.payload + 10 ≡ length b) × (length d.ip ≡ 4)
unfolding decode_socks_udp_frame
decode-length (r1 ∷ r2 ∷ frag ∷ atyp ∷ a ∷ b ∷ c ∷ e ∷ hi ∷ lo ∷ payload) d h = ground arith
decode-length [] d h = absurd (cc)
decode-length (r1 ∷ []) d h = absurd (cc)
decode-length (r1 ∷ r2 ∷ []) d h = absurd (cc)
decode-length (r1 ∷ r2 ∷ f ∷ []) d h = absurd (cc)
decode-length (r1 ∷ r2 ∷ f ∷ t ∷ []) d h = absurd (cc)
decode-length (r1 ∷ r2 ∷ f ∷ t ∷ a ∷ []) d h = absurd (cc)
decode-length (r1 ∷ r2 ∷ f ∷ t ∷ a ∷ b ∷ []) d h = absurd (cc)
decode-length (r1 ∷ r2 ∷ f ∷ t ∷ a ∷ b ∷ c ∷ []) d h = absurd (cc)
decode-length (r1 ∷ r2 ∷ f ∷ t ∷ a ∷ b ∷ c ∷ e ∷ []) d h = absurd (cc)
decode-length (r1 ∷ r2 ∷ f ∷ t ∷ a ∷ b ∷ c ∷ e ∷ i ∷ []) d h = absurd (cc)

-- A datagram to or from an address is read back as it was written.
pub decode-encode :
    (a b c d : ℕ) (port : ℕ) (payload : Bytes)
    → port < 65536
    → decode_socks_udp_frame (encode_socks_udp_frame (a ∷ b ∷ c ∷ d ∷ []) port payload)
      ≡ ok (record { payload = payload; ip = a ∷ b ∷ c ∷ d ∷ []; port = port })
unfolding decode_socks_udp_frame encode_socks_udp_frame
decode-encode a b c d port payload h = ground arith

abbrev pub IsByte : ℕ → Type 0
IsByte n = n < 256

-- What is read was written so.
pub encode-decode :
    (b : Bytes) (d : Datagram)
    → All IsByte b
    → decode_socks_udp_frame b ≡ ok d
    → (b ≡ encode_socks_udp_frame d.ip d.port d.payload) × (d.port < 65536)
unfolding decode_socks_udp_frame encode_socks_udp_frame
encode-decode (r1 ∷ r2 ∷ frag ∷ atyp ∷ a ∷ b ∷ c ∷ e ∷ hi ∷ lo ∷ payload) d q h =
    let small_hi : hi < 256 = q.1.1.1.1.1.1.1.1.0 in
    let small_lo : lo < 256 = q.1.1.1.1.1.1.1.1.1.0 in ground arith
encode-decode [] d q h = absurd (cc)
encode-decode (r1 ∷ []) d q h = absurd (cc)
encode-decode (r1 ∷ r2 ∷ []) d q h = absurd (cc)
encode-decode (r1 ∷ r2 ∷ f ∷ []) d q h = absurd (cc)
encode-decode (r1 ∷ r2 ∷ f ∷ t ∷ []) d q h = absurd (cc)
encode-decode (r1 ∷ r2 ∷ f ∷ t ∷ a ∷ []) d q h = absurd (cc)
encode-decode (r1 ∷ r2 ∷ f ∷ t ∷ a ∷ b ∷ []) d q h = absurd (cc)
encode-decode (r1 ∷ r2 ∷ f ∷ t ∷ a ∷ b ∷ c ∷ []) d q h = absurd (cc)
encode-decode (r1 ∷ r2 ∷ f ∷ t ∷ a ∷ b ∷ c ∷ e ∷ []) d q h = absurd (cc)
encode-decode (r1 ∷ r2 ∷ f ∷ t ∷ a ∷ b ∷ c ∷ e ∷ i ∷ []) d q h = absurd (cc)

-- Of two addresses of four bytes, `Equal` compares the bytes.
pub ip_equal_iff : (a b : Bytes) → length a ≡ 4 → length b ≡ 4 → (ip_equal a b ≡ true) ↔ (a ≡ b)
unfolding ip_equal
ip_equal_iff a b ea eb = ground (arith, bytes_eq_iff a b)
