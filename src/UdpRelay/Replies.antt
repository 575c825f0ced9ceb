-- ===== src/UdpRelay/Replies.antt =====
-- What reaches the client of what comes back to the exit's socket.
use bacchus.Shared.{
  ℕ, zero, suc, ◌≤◌, ◌≡◌, refl, ap, ◌∙◌, List, [], ◌∷◌, ◌++◌, Bool, true, false, not, Option, none,
  some, Bytes, length, take, length-take, arith, ◌==◌, if◌then◌else◌, Bool-cases, inl, inr,
}
use bacchus.Capacity.Quota.{Metered, exhausted, add_forwarded}
use bacchus.Capacity.Limiter.{
  Bucket, Node, Declared, on_node, wait_n, counted, charge, then_wait, meter_n,
}
use bacchus.UdpRelay.{
  read_udp_frame, encode_socks_udp_frame, max_udp_datagram, put_uint16, Arrival, then_meter, allow,
  reply_sent, exit_replies, relay_replies, to_client,
}
use bacchus.UdpRelay.Frame.{write-short, read-write}

-- What a datagram leaves in a buffer of 65535 bytes.
abbrev pub cut : Bytes → Bytes
cut b = take max_udp_datagram b

abbrev pub wrapped : Bytes → ℕ → List Bytes → List Bytes
wrapped ip port [] = []
wrapped ip port (p ∷ ps) = encode_socks_udp_frame ip port p ∷ wrapped ip port ps

cut-short : (b : Bytes) → length (cut b) ≤ max_udp_datagram
cut-short b = omega (arith, length-take {0} max_udp_datagram b)

relay_replies-end : (f : ℕ) (ip : Bytes) (port : ℕ) → relay_replies f ip port [] ≡ []
unfolding relay_replies read_udp_frame
relay_replies-end zero ip port = refl
relay_replies-end (suc f) ip port = refl

relay_replies-frame :
    (f : ℕ) (ip : Bytes) (port : ℕ) (p s : Bytes)
    → length p ≤ max_udp_datagram
    → relay_replies (suc f) ip port ((put_uint16 (length p) ++ p) ++ s)
      ≡ encode_socks_udp_frame ip port p ∷ relay_replies f ip port s
unfolding relay_replies
relay_replies-frame f ip port p s h =
    ap (to_client ip port (relay_replies f ip port)) (read-write p s h)

module _ {S : Type 0} where
  -- A bucket is asked, whatever the number; there may be none.
  abbrev pub asks : Option (Bucket S) → ℕ → S → Bool × S
  asks none n s = (true, s)
  asks (some bucket) n s = bucket n s

  abbrev pub unless_spent : Declared S → ℕ → Node S → Bool × Metered → Bool × Node S
  unless_spent d n k (spent, m) = if spent then (false, record k { metered = m }) else (
    true,
    record k {
      metered =
          add_forwarded d.platform (d.rolling k.machine) (d.writing k.machine) n (d.clock k.machine)
            m;
    },
  )

  abbrev pub within_quota : Declared S → ℕ → Bool × Node S → Bool × Node S
  within_quota d n (false, k) = (false, k)
  within_quota d n (true, k) =
      if not d.has_quota
      then (true, k)
      else unless_spent d n k
          (exhausted d.platform (d.testing k.machine) (d.clock k.machine) k.metered)

  abbrev pub asks_operator : Declared S → ℕ → Bool × Node S → Bool × Node S
  asks_operator d n (false, k) = (false, k)
  asks_operator d n (true, k) = on_node k (asks d.limiter n k.machine)

  -- Whether a datagram of `n` bytes may pass, and the node afterwards: an empty one may; another is asked of
  -- the tier's bucket, may find the quota spent by all that was counted before or is counted, and is asked of
  -- the operator's bucket.
  abbrev pub may_pass : Declared S → Option (Bucket S) → ℕ → Node S → Bool × Node S
  may_pass d pace n k =
      if n == 0
      then (true, k)
      else asks_operator d n (within_quota d n (on_node k (asks pace n k.machine)))

  abbrev pub if_granted : Bytes → (Node S → List Bytes) → Bool × Node S → List Bytes
  if_granted p more (false, k) = []
  if_granted p more (true, k) = p ∷ more k

  -- The datagrams up to the first that may not pass, each tried on the node as it is by then.
  abbrev pub granted : Declared S → Option (Bucket S) → List (Arrival S) → Node S → List Bytes
  granted d pace [] k = []
  granted d pace (a ∷ as') k =
      if_granted (cut a.bytes) (granted d pace as')
        (may_pass d pace (length (cut a.bytes)) (a.meanwhile k))

  wait_n-empty :
      (l : Option (Bucket S)) (n : ℕ) (s : S) → (n == 0) ≡ true → wait_n l n s ≡ (true, s)
  unfolding wait_n
  wait_n-empty none n s e = refl
  wait_n-empty (some bucket) n s e = rw e refl

  -- A limiter asks its bucket for every datagram that is not empty: none is above its burst.
  wait_n-asks :
      (l : Option (Bucket S)) (n : ℕ) (s : S)
      → (n == 0) ≡ false
      → n ≤ max_udp_datagram
      → wait_n l n s ≡ asks l n s
  unfolding wait_n
  wait_n-asks none n s e h = refl
  wait_n-asks (some bucket) n s e h = ground arith

  charge-unless_spent :
      (d : Declared S) (n : ℕ) (k : Node S) (r : Bool × Metered)
      → counted d n (d.clock k.machine) k r ≡ unless_spent d n k r
  charge-unless_spent d n k (false, m) = refl
  charge-unless_spent d n k (true, m) = refl

  then_wait-asks :
      (d : Declared S) (n : ℕ) (r : Bool × Node S)
      → (n == 0) ≡ false
      → n ≤ max_udp_datagram
      → then_wait d.limiter n r ≡ asks_operator d n r
  then_wait-asks d n (false, k) e h = refl
  then_wait-asks d n (true, k) e h = ap (on_node k) (wait_n-asks d.limiter n k.machine e h)

  charge-within_quota :
      (d : Declared S) (n : ℕ) (k : Node S) → charge d n k ≡ within_quota d n (true, k)
  unfolding charge
  charge-within_quota d n k = elim (Bool-cases d.has_quota) [
    | inl quota ↦ rw quota (
        charge-unless_spent d n k
          (exhausted d.platform (d.testing k.machine) (d.clock k.machine) k.metered))
    | inr no_quota ↦ rw no_quota refl
  ]

  then_meter-asks :
      (d : Declared S) (n : ℕ) (r : Bool × Node S)
      → (n == 0) ≡ false
      → n ≤ max_udp_datagram
      → then_meter d n r ≡ asks_operator d n (within_quota d n r)
  unfolding meter_n
  then_meter-asks d n (false, k) e h = refl
  then_meter-asks d n (true, k) e h =
      rw e
        (then_wait-asks d n (charge d n k) e h ∙ ap (asks_operator d n) (charge-within_quota d n k))

  allow-may_pass :
      (d : Declared S) (pace : Option (Bucket S)) (n : ℕ) (k : Node S)
      → n ≤ max_udp_datagram
      → allow d pace n k ≡ may_pass d pace n k
  unfolding allow meter_n
  allow-may_pass d pace n k h = elim (Bool-cases (n == 0)) [
    | inl empty ↦ rw (wait_n-empty pace n k.machine empty, empty) refl
    | inr some_bytes ↦
        ap (λ r. then_meter d n (on_node k r)) (wait_n-asks pace n k.machine some_bytes h)
        ∙ then_meter-asks d n (on_node k (asks pace n k.machine)) some_bytes h
        ∙ rw some_bytes refl
  ]

  passed_on :
      (ip : Bytes) (port : ℕ) (f : ℕ) (p : Bytes) (wire : Node S → Bytes)
      (more : Node S → List Bytes) (r : Bool × Node S)
      → length p ≤ max_udp_datagram
      → ((k : Node S) → relay_replies f ip port (wire k) ≡ wrapped ip port (more k))
      → relay_replies (suc f) ip port (reply_sent p wire r) ≡ wrapped ip port (if_granted p more r)
  passed_on ip port f p wire more (false, k) short rest = relay_replies-end (suc f) ip port
  passed_on ip port f p wire more (true, k) short rest = rw (write-short p short) (
      relay_replies-frame f ip port p (wire k) short
      ∙ ap (◌∷◌ (encode_socks_udp_frame ip port p)) (rest k))

  -- The replies arrive: what the relay sends to the client are the datagrams that came back to the exit,
  -- each in one SOCKS5 datagram from the flow's destination, in their order and each cut to 65535 bytes, up
  -- to the first that may not pass: that the tier's bucket or the operator's refuses as it is by then, or
  -- that finds the declared quota spent by what was counted before it, by this flow or by another. None is
  -- refused for its size, and one with no bytes is always passed on.
  pub replies_arrive :
      (d : Declared S) (pace : Option (Bucket S)) (ip : Bytes) (port : ℕ) (bs : List (Arrival S))
      (f : ℕ) (k : Node S)
      → length bs ≤ f
      → relay_replies f ip port (exit_replies d pace bs k) ≡ wrapped ip port (granted d pace bs k)
  unfolding exit_replies
  replies_arrive d pace ip port [] f k h = relay_replies-end f ip port
  replies_arrive d pace ip port (b ∷ bs) zero k h = absurd (omega (arith, h))
  replies_arrive d pace ip port (b ∷ bs) (suc f) k h =
      rw (allow-may_pass d pace (length (cut b.bytes)) (b.meanwhile k) (cut-short b.bytes)) (
        passed_on ip port f (cut b.bytes) (exit_replies d pace bs) (granted d pace bs)
          (may_pass d pace (length (cut b.bytes)) (b.meanwhile k)) (cut-short b.bytes)
          (λ k'. replies_arrive d pace ip port bs f k' (omega (arith, h))))
