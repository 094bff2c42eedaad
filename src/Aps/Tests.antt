-- ===== src/Aps/Tests.antt =====
-- The theorems on the APS frames, at frames of an On/Off command.
use arduino_nrf_zigbee.Prelude.{ℕ, ◌≡◌, some, List, arith, length, true, ◌∷◌, []}
use arduino_nrf_zigbee.Aps.{
  build_data_frame, build_group_data_frame, build_ack_frame, no_data_frame, parse_data_frame,
}
use arduino_nrf_zigbee.Aps.Bounds.{Fits, build-Fits}
use arduino_nrf_zigbee.Aps.RoundTrip.{data_round_trip}

abbrev command : List ℕ
command = 1 ∷ 33 ∷ 2 ∷ []

build-Fits_example :
    Fits 108 (build_data_frame true 108 1 6 0x104 1 9 (some command) 3 true)
    × Fits 108 (build_group_data_frame true 108 1 6 0x104 1 9 (some command) 3 true)
    × Fits 108 (build_ack_frame true 108 1 6 0x104 1 9)
build-Fits_example = build-Fits true 108 1 6 0x104 1 9 3 (some command) true (omega arith)

data_round_trip_example :
    let b = build_data_frame true 108 1 6 0x104 2 9 (some command) (length command) true in
    parse_data_frame (some b.written) b.size ≡ (
      record no_data_frame {
        valid = true;
        ack_request = true;
        dst_endpoint = 1;
        cluster_id = 6;
        profile_id = 0x104;
        src_endpoint = 2;
        counter = 9;
        payload = some command;
        payload_len = length command;
      },
      true,
    )
data_round_trip_example =
    data_round_trip 108 1 6 0x104 2 9 command true (omega arith) (omega arith) (omega arith)
      (omega arith)
