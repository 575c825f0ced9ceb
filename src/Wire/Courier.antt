-- ===== src/Wire/Courier.antt =====
-- Parsing of a request that a courier sends (wire.go of core/coldstart).
use bacchus.Shared.{ℕ, ◌+◌, ◌≤◌, ◌<◌, ◌++◌, [], ◌∷◌, ◌≡◌, refl, some, Bytes, length, ok, arith}
use bacchus.Wire.{
  Attribute, Message, type_binding_request, attr_proof, attr_fingerprint, fingerprint_attr_len,
  get_in, get, padding, encode_attrs, encode_header, parse, build_courier_request,
}
use bacchus.Wire.Attrs.{length-encode_attrs, parse-encode_header}

padding_small : (n : ℕ) → padding n < 4
padding_small n = ground arith

encode_attrs_nil : length (encode_attrs []) ≡ 0
unfolding encode_attrs
encode_attrs_nil = refl

-- With a transaction of twelve bytes, a proof of at most 65,000 and a CRC of four, the request parses to
-- a binding request of that transaction, whose attributes are the proof and the fingerprint, so that
-- what a server reads as the proof is what the client put there. The fingerprint is of the message
-- before it, under a header that already counts the fingerprint.
pub parse-build_courier_request :
    (fingerprint : Bytes → Bytes) (tx proof : Bytes)
    → ((m : Bytes) → length (fingerprint m) ≡ 4)
    → length tx ≡ 12
    → length proof ≤ 65000
    → (m : Message) × (parse (build_courier_request fingerprint tx proof) ≡ ok m)
      × (m.typ ≡ type_binding_request)
      × (m.tx ≡ tx)
      × (get m attr_proof ≡ some proof)
      × (let body = encode_attrs (record { typ = attr_proof; val = proof } ∷ []) in
          get m attr_fingerprint
          ≡ some (
              fingerprint (
                encode_header type_binding_request tx (length body + fingerprint_attr_len)
                ++ body)))
unfolding build_courier_request get get_in
parse-build_courier_request fingerprint tx proof four twelve small =
    let unsigned : Attribute = record { typ = attr_proof; val = proof } in
    let body = encode_attrs (unsigned ∷ []) in
    let crc =
      fingerprint
        (encode_header type_binding_request tx (length body + fingerprint_attr_len) ++ body) in
    let signed : Attribute = record { typ = attr_fingerprint; val = crc } in
    let crc_size : length crc ≡ 4 = four _ in
    let outer = length-encode_attrs unsigned (signed ∷ []) in
    let inner = length-encode_attrs signed [] in
    let pad = padding_small (length proof) in
    let pad' = padding_small (length crc) in
    (
      record { typ = type_binding_request; tx = tx; attrs = unsigned ∷ signed ∷ [] },
      parse-encode_header type_binding_request tx (unsigned ∷ signed ∷ []) (omega arith) twelve
          ((omega arith, omega (arith, small)), ((omega arith, omega (arith, crc_size)), tt))
          (omega (arith, outer, inner, pad, pad', crc_size, encode_attrs_nil, small)),
      refl,
      refl,
      refl,
      refl,
    )
