-- ===== src/Nwk/RouteCommands.antt =====
-- The payloads of the NWK route request and route reply of src/ZigbeeNwk.cpp.
use Prim.Native.Nat.{bit_or}
use arduino_nrf_zigbee.Prelude.{
  ℕ, ◌+◌, Bool, true, false, not, ◌||◌, Option, none, some, List, [], ◌∷◌, ◌++◌, if◌then◌else◌, ltb,
  is_some,
}
use arduino_nrf_zigbee.Bytes.{
  Built, refused, byte_at, advance, read_le16_at, read_le64, write_le16, write_le64, has_bit,
}

pub record NwkRouteRequestCommand : Type 0 where
  pub valid : Bool
  pub many_to_one : Bool
  pub destination_ieee_present : Bool
  pub multicast : Bool
  pub route_request_id : ℕ
  pub destination : ℕ
  pub path_cost : ℕ
  pub destination_ieee : ℕ

abbrev pub no_route_request : NwkRouteRequestCommand
no_route_request = record {
  valid = false;
  many_to_one = false;
  destination_ieee_present = false;
  multicast = false;
  route_request_id = 0;
  destination = 0;
  path_cost = 0;
  destination_ieee = 0;
}

-- if (test) options |= bit;
abbrev pub with_option : Bool → ℕ → ℕ → ℕ
with_option test bit options = if test then bit_or options bit else options

-- if (ieee) writeLe64(..., *ieee);
abbrev pub write_optional : Option ℕ → List ℕ
write_optional none = []
write_optional (some ieee) = write_le64 ieee

unfoldable pub build_route_request_payload : Bool → ℕ → ℕ → ℕ → ℕ → Bool → Option ℕ → Bool → Built
build_route_request_payload out out_max route_request_id destination path_cost many_to_one
      destination_ieee multicast =
    let n = (if is_some destination_ieee then 13 else 5) in
    if not out || ltb out_max n then refused else record {
      size = n;
      written =
          with_option multicast 0x20
            (with_option (is_some destination_ieee) 0x10 (with_option many_to_one 0x08 0))
          ∷ route_request_id
          ∷ (write_le16 destination ++ (path_cost ∷ write_optional destination_ieee));
    }

-- A payload too short for the IEEE address that it announces is refused with `valid` left set.
unfoldable pub parse_route_request_payload : Option (List ℕ) → ℕ → NwkRouteRequestCommand × Bool
parse_route_request_payload none payload_len = (no_route_request, false)
parse_route_request_payload (some payload) payload_len =
    let options = byte_at payload 0 in
    let command : NwkRouteRequestCommand = record {
      valid = true;
      many_to_one = has_bit options 0x08;
      destination_ieee_present = has_bit options 0x10;
      multicast = has_bit options 0x20;
      route_request_id = byte_at payload 1;
      destination = read_le16_at payload 2;
      path_cost = byte_at payload 4;
      destination_ieee = 0;
    } in
    if ltb payload_len 5
    then (no_route_request, false)
    else if command.destination_ieee_present
    then (if ltb payload_len 13
        then (command, false)
        else (record command { destination_ieee = read_le64 (advance 5 payload) }, true))
    else (command, true)

pub record NwkRouteReplyCommand : Type 0 where
  pub valid : Bool
  pub originator_ieee_present : Bool
  pub responder_ieee_present : Bool
  pub multicast : Bool
  pub route_request_id : ℕ
  pub originator : ℕ
  pub responder : ℕ
  pub path_cost : ℕ
  pub originator_ieee : ℕ
  pub responder_ieee : ℕ

abbrev pub no_route_reply : NwkRouteReplyCommand
no_route_reply = record {
  valid = false;
  originator_ieee_present = false;
  responder_ieee_present = false;
  multicast = false;
  route_request_id = 0;
  originator = 0;
  responder = 0;
  path_cost = 0;
  originator_ieee = 0;
  responder_ieee = 0;
}

-- The 8 bytes of an IEEE address that is there.
abbrev pub ieee_len : Bool → ℕ
ieee_len present = if present then 8 else 0

unfoldable pub build_route_reply_payload :
    Bool → ℕ → ℕ → ℕ → ℕ → ℕ → Option ℕ → Option ℕ → Bool → Built
build_route_reply_payload out out_max route_request_id originator responder path_cost
      originator_ieee responder_ieee multicast =
    let n = 7 + ieee_len (is_some originator_ieee) + ieee_len (is_some responder_ieee) in
    if not out || ltb out_max n then refused else record {
      size = n;
      written =
          with_option multicast 0x40 (
            with_option (is_some responder_ieee) 0x20
              (with_option (is_some originator_ieee) 0x10 0))
          ∷ route_request_id
          ∷ (write_le16 originator
              ++ (write_le16 responder
                  ++ (path_cost
                      ∷ (write_optional originator_ieee ++ write_optional responder_ieee))));
    }

-- The end of parseRouteReplyPayload, from the responder's address on.
abbrev pub read_responder : List ℕ → ℕ → ℕ → NwkRouteReplyCommand → NwkRouteReplyCommand × Bool
read_responder payload payload_len idx command =
    if command.responder_ieee_present
    then (if ltb payload_len (idx + 8)
        then (command, false)
        else (record command { responder_ieee = read_le64 (advance idx payload) }, true))
    else (command, true)

-- A payload too short for an IEEE address that it announces is refused with `valid` left set.
unfoldable pub parse_route_reply_payload : Option (List ℕ) → ℕ → NwkRouteReplyCommand × Bool
parse_route_reply_payload none payload_len = (no_route_reply, false)
parse_route_reply_payload (some payload) payload_len =
    let options = byte_at payload 0 in
    let command : NwkRouteReplyCommand = record {
      valid = true;
      originator_ieee_present = has_bit options 0x10;
      responder_ieee_present = has_bit options 0x20;
      multicast = has_bit options 0x40;
      route_request_id = byte_at payload 1;
      originator = read_le16_at payload 2;
      responder = read_le16_at payload 4;
      path_cost = byte_at payload 6;
      originator_ieee = 0;
      responder_ieee = 0;
    } in
    if ltb payload_len 7
    then (no_route_reply, false)
    else if command.originator_ieee_present
    then (if ltb payload_len (7 + 8)
        then (command, false)
        else read_responder payload payload_len (7 + 8)
            (record command { originator_ieee = read_le64 (advance 7 payload) }))
    else read_responder payload payload_len 7 command
