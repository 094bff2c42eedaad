-- ===== src/Zcl/Tests.antt =====
-- The theorems on the ZCL codec, at short frames.
use arduino_nrf_zigbee.Prelude.{
  ℕ, ◌≡◌, ◌≤◌, true, false, some, List, ◌∷◌, arith, length, ◌<◌, none, [], ◌⊎◌, get_or,
}
use arduino_nrf_zigbee.Zcl.{build_command_frame, parse_frame}
use arduino_nrf_zigbee.Zcl.Attributes.{build_read_attributes_payload, get_read_attribute_id}
use arduino_nrf_zigbee.Zcl.FrameRoundTrip.{zcl_round_trip}
use arduino_nrf_zigbee.Zcl.AttributesRoundTrip.{read_attributes_round_trip}

abbrev command : List ℕ
command = 1 ∷ 33 ∷ 2 ∷ []

abbrev ids : List ℕ
ids = 0 ∷ 0x4003 ∷ []

zcl_round_trip_example :
    let b = build_command_frame true 100 1 9 2 (some command) (length command) 1 true in
    parse_frame (some b.written) b.size ≡ (
      record {
        valid = true;
        frame_type = 1;
        manufacturer_specific = false;
        manufacturer_code = 0;
        direction = 1;
        disable_default_response = true;
        sequence = 9;
        command_id = 2;
        payload = some command;
        payload_len = length command;
      },
      true,
    )
zcl_round_trip_example =
    zcl_round_trip 100 1 9 2 command 1 true (omega arith) (omega arith) (omega arith) (omega arith)

read_attributes_round_trip_example :
    let b = build_read_attributes_payload true 100 (some ids) (length ids) in
    ((1 < length ids) × (get_read_attribute_id (some b.written) b.size 1 ≡ some (get_or ids 1 0)))
    ⊎ ((length ids ≤ 1) × (get_read_attribute_id (some b.written) b.size 1 ≡ none))
read_attributes_round_trip_example =
    read_attributes_round_trip 100 ids 1 (omega arith) (omega arith) (omega arith)
      (omega arith, (omega arith, omega arith)) (omega arith)
