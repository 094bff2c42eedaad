-- ===== src/Nwk/RecordRoundTrip.antt =====
-- src/ZigbeeNwk.cpp: the route records of the builder, parsed and read relay by relay.
use arduino_nrf_zigbee.Prelude.{
  ℕ, ◌≡◌, ap, ◌∙◌, ◌+◌, ◌*◌, ◌<◌, ◌≤◌, Bool, true, some, List, [], ◌∷◌, arith, length, take-length,
  get_or, subst,
}
use arduino_nrf_zigbee.Bytes.{Built, read_le16_at}
use arduino_nrf_zigbee.Nwk.DataFrame.{write_relays}
use arduino_nrf_zigbee.Nwk.SourceRoute.{AreU16, read-write_relays}
use arduino_nrf_zigbee.Nwk.SourceRoundTrip.{append_empty}
use arduino_nrf_zigbee.Nwk.DeviceCommands.{
  NwkRouteRecordCommand, build_route_record_payload, parse_route_record_payload,
  get_route_record_relay,
}

built_record :
    (out_max : ℕ) (relays : List ℕ)
    → 1 + length relays * 2 ≤ out_max
    → out_max < 256
    → build_route_record_payload true out_max (some relays) (length relays)
      ≡ record { size = 1 + length relays * 2; written = length relays ∷ write_relays relays }
unfolding build_route_record_payload
built_record out_max relays room byte = rw (take-length, build_route_record_payload) (ground arith)

parse-record :
    (relays : List ℕ)
    → 1 + length relays * 2 < 256
    → parse_route_record_payload
        (some (length relays ∷ write_relays relays))
        (1 + length relays * 2)
      ≡ (
        record {
          valid = true;
          relay_count = length relays;
          relay_list = some (write_relays relays);
        },
        true,
      )
unfolding parse_route_record_payload
parse-record relays small = ground arith

get-record :
    (relays : List ℕ) (i : ℕ)
    → AreU16 relays
    → i < length relays
    → get_route_record_relay
        (record {
          valid = true;
          relay_count = length relays;
          relay_list = some (write_relays relays);
        })
        i
      ≡ some (get_or relays i 0)
unfolding get_route_record_relay
get-record relays i u h =
    let here : read_le16_at (write_relays relays) (i * 2) ≡ get_or relays i 0 =
      subst (λ bs. read_le16_at bs (i * 2) ≡ get_or relays i 0) (append_empty (write_relays relays))
        (read-write_relays relays [] i 0 u h) in
    ground (arith, here)

-- A route record, built into a buffer of at most 255 bytes with room for it, is accepted by the parser,
-- and reading the relay at an index below their number gives the relay that was given there, if the
-- relays have 16 bits.
pub route_record_round_trip :
    (out_max : ℕ) (relays : List ℕ) (index : ℕ)
    → 1 + length relays * 2 ≤ out_max
    → out_max < 256
    → AreU16 relays
    → index < length relays
    → let b = build_route_record_payload true out_max (some relays) (length relays) in
      let parsed = parse_route_record_payload (some b.written) b.size in
      (parsed.1 ≡ true) × (get_route_record_relay parsed.0 index ≡ some (get_or relays index 0))
route_record_round_trip out_max relays i room byte u h =
    let e =
      ap (λ (b : Built). parse_route_record_payload (some b.written) b.size)
        (built_record out_max relays room byte)
      ∙ parse-record relays (omega arith) in
    (
      ap (λ (p : NwkRouteRecordCommand × Bool). p.1) e,
      ap (λ (p : NwkRouteRecordCommand × Bool). get_route_record_relay p.0 i) e
          ∙ get-record relays i u h,
    )
