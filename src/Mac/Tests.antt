-- ===== src/Mac/Tests.antt =====
-- The theorems on the MAC frames, at a short data frame and at an association.
use arduino_nrf_zigbee.Prelude.{ℕ, ◌≡◌, true, some, List, ◌∷◌, arith, length, ◌/◌, ◌%◌, [], ◌==◌}
use arduino_nrf_zigbee.Mac.{build_short_data_frame, parse_short_data_frame}
use arduino_nrf_zigbee.Mac.Command.{
  build_association_request, build_association_response, parse_command_frame,
  parse_association_request, parse_association_response,
}
use arduino_nrf_zigbee.Mac.AssociationRoundTrip.{
  request_frame, response_frame, association_exchange,
}
use arduino_nrf_zigbee.Mac.DataRoundTrip.{mac_data_round_trip}

abbrev bytes : List ℕ
bytes = 1 ∷ 33 ∷ 2 ∷ []

mac_data_round_trip_example :
    let b = build_short_data_frame true 125 0x1a62 0 0x2345 9 (some bytes) (length bytes) true in
    parse_short_data_frame (some b.written) b.size ≡ (
      record {
        valid = true;
        frame_type = 1;
        sequence = 9;
        ack_request = true;
        pan_id_compression = true;
        dst_pan_id = 0x1a62;
        dst_short = 0;
        src_pan_id = 0x1a62;
        src_short = 0x2345;
        payload = some bytes;
        payload_len = length bytes;
      },
      true,
    )
mac_data_round_trip_example =
    mac_data_round_trip 125 0x1a62 0 0x2345 9 bytes true (omega arith) (omega arith) (omega arith)
      (omega arith) (omega arith)

association_exchange_example :
    let asked = build_association_request true 100 0x1a62 0 0x00124b0001020304 9 0x8e true in
    let (heard, is_command) = parse_command_frame (some asked.written) asked.size in
    let (request, is_request) = parse_association_request heard in
    let answered =
      build_association_response true 100 heard.dst_pan_id heard.src_ieee heard.dst_short 9 0x2345 0
        true in
    let (back, is_answer) = parse_command_frame (some answered.written) answered.size in
    let (response, is_response) = parse_association_response back in
    (is_command ≡ true)
    × (heard ≡ request_frame 0x1a62 0 0x00124b0001020304 9 0x8e true)
    × (is_request ≡ true)
    × (request ≡ record {
      valid = true;
      capability = 0x8e;
      allocate_address = 0x8e / 128 % 2 == 1;
      receiver_on_when_idle = 0x8e / 8 % 2 == 1;
      full_function_device = 0x8e / 2 % 2 == 1;
    })
    × (is_answer ≡ true)
    × (back ≡ response_frame 0x1a62 0x00124b0001020304 0 9 0x2345 0 true)
    × (is_response ≡ true)
    × (response ≡ record { valid = true; short_address = 0x2345; status = 0 })
association_exchange_example =
    association_exchange 100 0x1a62 0 0x00124b0001020304 9 0x8e 0x2345 0 true (omega arith)
      (omega arith) (omega arith) (omega arith) (omega arith) (omega arith)
