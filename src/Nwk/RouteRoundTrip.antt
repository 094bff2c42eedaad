-- ===== src/Nwk/RouteRoundTrip.antt =====
-- src/ZigbeeNwk.cpp: the route requests and route replies of the builders, read by the parsers.
use arduino_nrf_zigbee.Prelude.{
  ℕ, ◌≡◌, refl, ap, ◌∙◌, ◌+◌, ◌^◌, ◌≤◌, ◌<◌, Bool, true, false, Option, none, some, List, [], ◌∷◌,
  ◌++◌, arith, IsU16, is_some, if◌then◌else◌,
}
use arduino_nrf_zigbee.Bytes.{Built, write_le16, write_le64, has_bit}
use arduino_nrf_zigbee.Bytes.RoundTrip.{le16, le64, le64_end, drop_le64}
use arduino_nrf_zigbee.Nwk.RouteCommands.{
  build_route_request_payload, parse_route_request_payload, build_route_reply_payload,
  parse_route_reply_payload, with_option, write_optional, ieee_len,
}

-- The IEEE address that a command is read with: 0 where it carries none.
abbrev pub ieee_or_zero : Option ℕ → ℕ
ieee_or_zero none = 0
ieee_or_zero (some ieee) = ieee

abbrev request_options : Bool → Bool → Bool → ℕ
request_options many present multicast =
    with_option multicast 0x20 (with_option present 0x10 (with_option many 0x08 0))

request_bits :
    (many present multicast : Bool)
    → (has_bit (request_options many present multicast) 0x08 ≡ many)
      × (has_bit (request_options many present multicast) 0x10 ≡ present)
      × (has_bit (request_options many present multicast) 0x20 ≡ multicast)
request_bits true true true = (refl, refl, refl)
request_bits true true false = (refl, refl, refl)
request_bits true false true = (refl, refl, refl)
request_bits true false false = (refl, refl, refl)
request_bits false true true = (refl, refl, refl)
request_bits false true false = (refl, refl, refl)
request_bits false false true = (refl, refl, refl)
request_bits false false false = (refl, refl, refl)

abbrev request_bytes : ℕ → ℕ → ℕ → ℕ → Option ℕ → List ℕ
request_bytes options id destination cost ieee =
    options ∷ id ∷ (write_le16 destination ++ (cost ∷ write_optional ieee))

built_request :
    (out_max id destination cost : ℕ) (many multicast : Bool) (ieee : Option ℕ)
    → 13 ≤ out_max
    → build_route_request_payload true out_max id destination cost many ieee multicast ≡ record {
      size = if is_some ieee then 13 else 5;
      written =
          request_bytes (request_options many (is_some ieee) multicast) id destination cost ieee;
    }
unfolding build_route_request_payload
built_request out_max id destination cost many multicast none room = ground arith
built_request out_max id destination cost many multicast (some ieee) room = ground arith

parse-request :
    (id destination cost : ℕ) (many multicast : Bool) (ieee : Option ℕ)
    → IsU16 destination
    → ieee_or_zero ieee < 2 ^ 64
    → parse_route_request_payload
        (some
          (request_bytes (request_options many (is_some ieee) multicast) id destination cost ieee))
        (if is_some ieee then 13 else 5)
      ≡ (
        record {
          valid = true;
          many_to_one = many;
          destination_ieee_present = is_some ieee;
          multicast = multicast;
          route_request_id = id;
          destination = destination;
          path_cost = cost;
          destination_ieee = ieee_or_zero ieee;
        },
        true,
      )
unfolding parse_route_request_payload
parse-request id destination cost many multicast none d i =
    let bits = request_bits many false multicast in
    rw (bits.0, bits.1, bits.2, le16 destination d) refl
parse-request id destination cost many multicast (some ieee) d i =
    let bits = request_bits many true multicast in
    rw (bits.0, bits.1, bits.2, le16 destination d, le64_end ieee i) refl

-- A route request, built into a buffer of at least 13 bytes, parses as the request that was asked for,
-- with the destination's IEEE address if it was given.
pub route_request_round_trip :
    (out_max route_request_id destination path_cost : ℕ) (many_to_one multicast : Bool)
    (ieee : Option ℕ)
    → 13 ≤ out_max
    → IsU16 destination
    → ieee_or_zero ieee < 2 ^ 64
    → let b =
        build_route_request_payload true out_max route_request_id destination path_cost many_to_one
          ieee multicast in
      parse_route_request_payload (some b.written) b.size ≡ (
        record {
          valid = true;
          many_to_one = many_to_one;
          destination_ieee_present = is_some ieee;
          multicast = multicast;
          route_request_id = route_request_id;
          destination = destination;
          path_cost = path_cost;
          destination_ieee = ieee_or_zero ieee;
        },
        true,
      )
route_request_round_trip out_max id destination cost many multicast ieee room d i =
    ap (λ (b : Built). parse_route_request_payload (some b.written) b.size)
      (built_request out_max id destination cost many multicast ieee room)
    ∙ parse-request id destination cost many multicast ieee d i

abbrev reply_options : Bool → Bool → Bool → ℕ
reply_options originator responder multicast =
    with_option multicast 0x40 (with_option responder 0x20 (with_option originator 0x10 0))

reply_bits :
    (originator responder multicast : Bool)
    → (has_bit (reply_options originator responder multicast) 0x10 ≡ originator)
      × (has_bit (reply_options originator responder multicast) 0x20 ≡ responder)
      × (has_bit (reply_options originator responder multicast) 0x40 ≡ multicast)
reply_bits true true true = (refl, refl, refl)
reply_bits true true false = (refl, refl, refl)
reply_bits true false true = (refl, refl, refl)
reply_bits true false false = (refl, refl, refl)
reply_bits false true true = (refl, refl, refl)
reply_bits false true false = (refl, refl, refl)
reply_bits false false true = (refl, refl, refl)
reply_bits false false false = (refl, refl, refl)

abbrev reply_bytes : ℕ → ℕ → ℕ → ℕ → ℕ → Option ℕ → Option ℕ → List ℕ
reply_bytes options id originator responder cost orig resp =
    options
    ∷ id
    ∷ (write_le16 originator
        ++ (write_le16 responder ++ (cost ∷ (write_optional orig ++ write_optional resp))))

abbrev reply_len : Option ℕ → Option ℕ → ℕ
reply_len orig resp = 7 + ieee_len (is_some orig) + ieee_len (is_some resp)

built_reply :
    (out_max id originator responder cost : ℕ) (orig resp : Option ℕ) (multicast : Bool)
    → 23 ≤ out_max
    → build_route_reply_payload true out_max id originator responder cost orig resp multicast
      ≡ record {
        size = reply_len orig resp;
        written =
            reply_bytes
              (reply_options (is_some orig) (is_some resp) multicast)
              id
              originator
              responder
              cost
              orig
              resp;
      }
unfolding build_route_reply_payload
built_reply out_max id originator responder cost none none multicast room = ground arith
built_reply out_max id originator responder cost none (some r) multicast room = ground arith
built_reply out_max id originator responder cost (some o) none multicast room = ground arith
built_reply out_max id originator responder cost (some o) (some r) multicast room = ground arith

parse-reply :
    (id originator responder cost : ℕ) (orig resp : Option ℕ) (multicast : Bool)
    → IsU16 originator
    → IsU16 responder
    → ieee_or_zero orig < 2 ^ 64
    → ieee_or_zero resp < 2 ^ 64
    → parse_route_reply_payload
        (some (
          reply_bytes
            (reply_options (is_some orig) (is_some resp) multicast)
            id
            originator
            responder
            cost
            orig
            resp))
        (reply_len orig resp)
      ≡ (
        record {
          valid = true;
          originator_ieee_present = is_some orig;
          responder_ieee_present = is_some resp;
          multicast = multicast;
          route_request_id = id;
          originator = originator;
          responder = responder;
          path_cost = cost;
          originator_ieee = ieee_or_zero orig;
          responder_ieee = ieee_or_zero resp;
        },
        true,
      )
unfolding parse_route_reply_payload
parse-reply id o r cost none none multicast ho hr io ir =
    let bits = reply_bits false false multicast in
    rw (bits.0, bits.1, bits.2, le16 o ho, le16 r hr) refl
parse-reply id o r cost none (some resp) multicast ho hr io ir =
    let bits = reply_bits false true multicast in
    rw (bits.0, bits.1, bits.2, le16 o ho, le16 r hr, le64_end resp ir) refl
parse-reply id o r cost (some orig) none multicast ho hr io ir =
    let bits = reply_bits true false multicast in
    rw (bits.0, bits.1, bits.2, le16 o ho, le16 r hr, le64 orig [] io) refl
parse-reply id o r cost (some orig) (some resp) multicast ho hr io ir =
    let bits = reply_bits true true multicast in
    rw
      (
        bits.0,
        bits.1,
        bits.2,
        le16 o ho,
        le16 r hr,
        le64 orig (write_le64 resp) io,
        drop_le64 orig (write_le64 resp),
        le64_end resp ir,
      )
      refl

-- A route reply, built into a buffer of at least 23 bytes, parses as the reply that was asked for, with
-- each of the two IEEE addresses if it was given.
pub route_reply_round_trip :
    (out_max route_request_id originator responder path_cost : ℕ)
    (originator_ieee responder_ieee : Option ℕ) (multicast : Bool)
    → 23 ≤ out_max
    → IsU16 originator
    → IsU16 responder
    → ieee_or_zero originator_ieee < 2 ^ 64
    → ieee_or_zero responder_ieee < 2 ^ 64
    → let b =
        build_route_reply_payload true out_max route_request_id originator responder path_cost
          originator_ieee responder_ieee multicast in
      parse_route_reply_payload (some b.written) b.size ≡ (
        record {
          valid = true;
          originator_ieee_present = is_some originator_ieee;
          responder_ieee_present = is_some responder_ieee;
          multicast = multicast;
          route_request_id = route_request_id;
          originator = originator;
          responder = responder;
          path_cost = path_cost;
          originator_ieee = ieee_or_zero originator_ieee;
          responder_ieee = ieee_or_zero responder_ieee;
        },
        true,
      )
route_reply_round_trip out_max id o r cost orig resp multicast room ho hr io ir =
    ap (λ (b : Built). parse_route_reply_payload (some b.written) b.size)
      (built_reply out_max id o r cost orig resp multicast room)
    ∙ parse-reply id o r cost orig resp multicast ho hr io ir
