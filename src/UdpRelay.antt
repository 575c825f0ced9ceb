-- ===== src/UdpRelay.antt =====
-- core/udprelay.go: a client's UDP flow, carried as frames over the encrypted stream between the client
-- and the exit, and as SOCKS5 datagrams between the client and its own relay socket. At the exit the flow waits for the speed cap of its tier and
-- counts against the limits of Capacity/Limiter. What is sent, written or received is a list, and a
-- stream is its bytes. Sockets, deadlines, idle times and counters are left out.
pub mod Flow
pub mod Replies
pub mod Frame
use bacchus.Capacity.Limiter.{Bucket, Node, Declared, on_node, wait_n, meter_n}
use bacchus.Shared.{
  ℕ, zero, suc, ◌+◌, ◌*◌, ◌/◌, ◌%◌, List, [], ◌∷◌, ◌++◌, Bool, true, false, not, ◌&&◌, ◌||◌, Option,
  none, some, Bytes, length, take, drop, ltb, ◌==◌, bytes_eq, if◌then◌else◌, Result, ok, err,
}

abbrev pub max_udp_datagram : ℕ
max_udp_datagram = 65535

abbrev pub socks_udp_header_len : ℕ
socks_udp_header_len = 10

pub data Error : Type 0 where
  frame_too_large end_of_stream bad_socks_udp_frame : Error

-- `binary.BigEndian.PutUint16`.
abbrev pub put_uint16 : ℕ → Bytes
put_uint16 n = (n / 256 % 256) ∷ (n % 256) ∷ []

-- The bytes that are written.
unfoldable pub write_udp_frame : Bytes → Result Error Bytes
write_udp_frame payload =
    if ltb max_udp_datagram (length payload)
    then err frame_too_large
    else ok (put_uint16 (length payload) ++ payload)

abbrev read_body : ℕ → Bytes → Result Error (Bytes × Bytes)
read_body n rest = if ltb (length rest) n then err end_of_stream else ok (take n rest, drop n rest)

-- The payload and the rest of the stream; `room` is the length of the buffer. `io.ReadFull` fails where
-- the stream ends early.
unfoldable pub read_udp_frame : ℕ → Bytes → Result Error (Bytes × Bytes)
read_udp_frame room (hi ∷ lo ∷ rest) =
    if ltb room (hi * 256 + lo) then err frame_too_large else read_body (hi * 256 + lo) rest
read_udp_frame room _ = err end_of_stream

pub record Datagram : Type 0 where
  pub payload : Bytes
  pub ip : Bytes
  pub port : ℕ

unfoldable pub decode_socks_udp_frame : Bytes → Result Error Datagram
decode_socks_udp_frame (r1 ∷ r2 ∷ frag ∷ atyp ∷ a ∷ b ∷ c ∷ d ∷ hi ∷ lo ∷ payload) =
    if r1 == 0 && (r2 == 0 && (frag == 0 && atyp == 1))
    then ok (record { payload = payload; ip = a ∷ b ∷ c ∷ d ∷ []; port = hi * 256 + lo })
    else err bad_socks_udp_frame
decode_socks_udp_frame _ = err bad_socks_udp_frame

-- `ip` has been through `To4`.
unfoldable pub encode_socks_udp_frame : Bytes → ℕ → Bytes → Bytes
encode_socks_udp_frame ip port payload =
    (0 ∷ 0 ∷ 0 ∷ 1 ∷ []) ++ (ip ++ (put_uint16 port ++ payload))

abbrev v4_in_v6_prefix : Bytes
v4_in_v6_prefix = 0 ∷ 0 ∷ 0 ∷ 0 ∷ 0 ∷ 0 ∷ 0 ∷ 0 ∷ 0 ∷ 0 ∷ 255 ∷ 255 ∷ []

abbrev mapped_eq : Bytes → Bytes → Bool
mapped_eq a b = bytes_eq (take 12 b) v4_in_v6_prefix && bytes_eq a (drop 12 b)

-- `net.IP.Equal`.
unfoldable pub ip_equal : Bytes → Bytes → Bool
ip_equal a b =
    if length a == length b
    then bytes_eq a b
    else if length a == 4 && length b == 16
    then mapped_eq a b
    else if length a == 16 && length b == 4
    then mapped_eq b a
    else false

pub record Peer : Type 0 where
  pub ip : Bytes
  pub port : ℕ

pub record Received : Type 0 where
  pub src : Peer
  pub bytes : Bytes

abbrev same_destination : Datagram → Result Error Datagram → Option Bytes
same_destination first (err e) = none
same_destination first (ok d) =
    if not (d.port == first.port) || not (ip_equal d.ip first.ip) then none else some d.payload

abbrev pub pass_decoded : Peer → Datagram → Peer → Result Error Datagram → Option Bytes
pass_decoded from first src d =
    if not (src.port == from.port) || not (ip_equal src.ip from.ip)
    then none
    else same_destination first d

-- What the loop passes on of one later datagram.
unfoldable pub pass_on : Peer → Datagram → Received → Option Bytes
pass_on from first r =
    pass_decoded from first r.src
      (decode_socks_udp_frame (take (max_udp_datagram + socks_udp_header_len) r.bytes))

abbrev then_write : Result Error Bytes → Bytes → Bytes
then_write (err e) rest = []
then_write (ok frame) rest = frame ++ rest

abbrev write_passed : Option Bytes → Bytes → Bytes
write_passed none rest = rest
write_passed (some p) rest = then_write (write_udp_frame p) rest

-- The bytes that the relay writes to the exit for the later datagrams: an error ends the loop.
unfoldable pub relay_later : Peer → Datagram → List Received → Bytes
relay_later from first [] = []
relay_later from first (r ∷ rs) = write_passed (pass_on from first r) (relay_later from first rs)

abbrev relay_decoded : Peer → List Received → Result Error Datagram → Bytes
relay_decoded from rs (err e) = []
relay_decoded from rs (ok first) =
    then_write (write_udp_frame first.payload) (relay_later from first rs)

-- The first datagram fixes the peer and the destination.
unfoldable pub serve_socks_udp_associate : List Received → Bytes
serve_socks_udp_associate [] = []
serve_socks_udp_associate (r ∷ rs) =
    relay_decoded r.src rs
      (decode_socks_udp_frame (take (max_udp_datagram + socks_udp_header_len) r.bytes))

-- What the exit asks before it passes on a datagram: the tier's limiter (`pace`), then its own declared limits.
abbrev pub then_meter : {S : Type 0} → Declared S → ℕ → Bool × Node S → Bool × Node S
then_meter d n (false, k) = (false, k)
then_meter d n (true, k) = meter_n d n k

unfoldable pub allow : {S : Type 0} → Declared S → Option (Bucket S) → ℕ → Node S → Bool × Node S
allow d pace n k = then_meter d n (on_node k (wait_n pace n k.machine))

abbrev pub sent : {S : Type 0} → Bytes → (Node S → List Bytes) → Bool × Node S → List Bytes
sent p more (false, k) = []
sent p more (true, k) = p ∷ more k

abbrev pub after_read :
    {S : Type 0}
    → Declared S
    → Option (Bucket S)
    → (Bytes → Node S → List Bytes)
    → Node S
    → Result Error (Bytes × Bytes)
    → List Bytes
after_read d pace more k (err e) = []
after_read d pace more k (ok (p, rest)) = sent p (more rest) (allow d pace (length p) k)

-- The exit's loop from the stream to the socket: what is sent, until the stream ends or a limit stops it.
-- Fuel bounds the number of frames, and `meanwhile` is what becomes of the node until the next one is read,
-- time and the other sessions included.
unfoldable pub exit_relay :
    {S : Type 0}
    → ℕ
    → Declared S
    → Option (Bucket S)
    → (ℕ → Node S → Node S)
    → Bytes
    → Node S
    → List Bytes
exit_relay zero d pace meanwhile s k = []
exit_relay (suc f) d pace meanwhile s k =
    after_read d pace (exit_relay f d pace meanwhile) (meanwhile f k)
      (read_udp_frame max_udp_datagram s)

-- A datagram that comes back to the exit's socket, and what becomes of the node until then.
pub record Arrival (S : Type 0) : Type 0 where
  pub bytes : Bytes
  pub meanwhile : Node S → Node S

abbrev pub reply_sent : {S : Type 0} → Bytes → (Node S → Bytes) → Bool × Node S → Bytes
reply_sent p more (false, k) = []
reply_sent p more (true, k) = then_write (write_udp_frame p) (more k)

-- The exit's loop from the socket to the stream: the bytes that it writes for the datagrams that come back,
-- until a limit stops it.
unfoldable pub exit_replies :
    {S : Type 0} → Declared S → Option (Bucket S) → List (Arrival S) → Node S → Bytes
exit_replies d pace [] k = []
exit_replies d pace (a ∷ as') k =
    let p = take max_udp_datagram a.bytes in
    reply_sent p (exit_replies d pace as') (allow d pace (length p) (a.meanwhile k))

abbrev pub to_client : Bytes → ℕ → (Bytes → List Bytes) → Result Error (Bytes × Bytes) → List Bytes
to_client ip port more (err e) = []
to_client ip port more (ok (p, rest)) = encode_socks_udp_frame ip port p ∷ more rest

-- The relay's loop from the stream to the client: what it sends. Fuel bounds the number of frames.
unfoldable pub relay_replies : ℕ → Bytes → ℕ → Bytes → List Bytes
relay_replies zero ip port s = []
relay_replies (suc f) ip port s =
    to_client ip port (relay_replies f ip port) (read_udp_frame max_udp_datagram s)
