-- ===== src/Nwk/Tests.antt =====
-- The theorems on the NWK frames and commands, at short frames.
use arduino_nrf_zigbee.Prelude.{
  ℕ, ◌≡◌, true, some, List, ◌∷◌, ◌++◌, arith, length, refl, [], get_elem?, get_or,
}
use arduino_nrf_zigbee.Nwk.DataFrame.{
  no_frame, build_data_frame, parse_data_frame, build_data_frame_source_routed, write_relays,
}
use arduino_nrf_zigbee.Nwk.SourceRoute.{
  get_data_frame_relay, travel, delivered, source_route_travel,
}
use arduino_nrf_zigbee.Nwk.DataRoundTrip.{nwk_data_round_trip}
use arduino_nrf_zigbee.Nwk.SourceRoundTrip.{source_routed_round_trip}

abbrev bytes : List ℕ
bytes = 1 ∷ 33 ∷ 2 ∷ []

abbrev relays : List ℕ
relays = 0x1234 ∷ 0x5678 ∷ []

nwk_data_round_trip_example :
    let b = build_data_frame true 116 0x1234 0 30 9 (some bytes) (length bytes) 1 in
    parse_data_frame (some b.written) b.size ≡ (
      record no_frame {
        valid = true;
        protocol_version = 2;
        discover_route = 1;
        dst_short = 0x1234;
        src_short = 0;
        radius = 30;
        sequence = 9;
        payload = some bytes;
        payload_len = length bytes;
      },
      true,
    )
nwk_data_round_trip_example =
    nwk_data_round_trip 116 0x1234 0 30 9 bytes 1 (omega arith) (omega arith) (omega arith)
      (omega arith) (omega arith)

source_routed_round_trip_example :
    let b =
      build_data_frame_source_routed true 116 0x9abc 0 30 9
        (some relays)
        (length relays)
        0
        (some bytes)
        (length bytes)
        1 in
    (parse_data_frame (some b.written) b.size ≡ (
      record no_frame {
        valid = true;
        protocol_version = 2;
        discover_route = 1;
        source_route = true;
        dst_short = 0x9abc;
        src_short = 0;
        radius = 30;
        sequence = 9;
        sr_relay_count = length relays;
        sr_relay_index = 0;
        sr_relay_list = some (write_relays relays ++ bytes);
        payload = some bytes;
        payload_len = length bytes;
      },
      true,
    ))
    × (get_data_frame_relay (parse_data_frame (some b.written) b.size).0 1 ≡ get_elem? relays 1)
source_routed_round_trip_example =
    source_routed_round_trip 116 0x9abc 0 30 9 relays 0 bytes 1 1 (omega arith) (omega arith)
      (omega arith) (omega arith) (omega arith) (omega arith)
      (omega arith, (omega arith, omega arith))

source_route_travel_example :
    travel 20
      (record no_frame {
        valid = true;
        source_route = true;
        dst_short = 0x9abc;
        sr_relay_count = length relays;
        sr_relay_index = 0;
        sr_relay_list = some (write_relays relays ++ bytes);
      })
      (get_or relays 0 0x9abc)
    ≡ (relays ++ 0x9abc ∷ [], delivered)
source_route_travel_example =
    source_route_travel 0x9abc relays bytes no_frame 20 (omega arith, (omega arith, omega arith))
      (refl, (refl, omega arith)) (omega arith) (omega arith)
