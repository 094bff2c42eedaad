-- ===== src/Nwk/DeviceCommands.antt =====
-- The payloads of further NWK commands of src/ZigbeeNwk.cpp: network status, route record, leave,
-- rejoin request and rejoin response.
use arduino_nrf_zigbee.Prelude.{
  ℕ, ◌+◌, ◌*◌, Bool, true, false, not, ◌&&◌, ◌||◌, Option, none, some, List, [], ◌∷◌, ◌++◌,
  if◌then◌else◌, ltb, leb, is_some, take, u8,
}
use arduino_nrf_zigbee.Bytes.{
  Built, refused, byte_at, advance, read_le16_at, write_le16, has_bit, bytes_of,
}
use arduino_nrf_zigbee.Nwk.DataFrame.{write_relays}
use arduino_nrf_zigbee.Nwk.RouteCommands.{with_option}

pub record NwkNetworkStatusCommand : Type 0 where
  pub valid : Bool
  pub status : ℕ
  pub destination : ℕ

unfoldable pub build_network_status_payload : Bool → ℕ → ℕ → ℕ → Built
build_network_status_payload out out_max status destination =
    if not out || ltb out_max 3
    then refused
    else record { size = 3; written = status ∷ write_le16 destination }

unfoldable pub parse_network_status_payload : Option (List ℕ) → ℕ → NwkNetworkStatusCommand × Bool
parse_network_status_payload none payload_len =
    (record { valid = false; status = 0; destination = 0 }, false)
parse_network_status_payload (some payload) payload_len =
    if ltb payload_len 3 then (record { valid = false; status = 0; destination = 0 }, false) else (
      record { valid = true; status = byte_at payload 0; destination = read_le16_at payload 1 },
      true,
    )

-- `relay_list` points into the payload.
pub record NwkRouteRecordCommand : Type 0 where
  pub valid : Bool
  pub relay_count : ℕ
  pub relay_list : Option (List ℕ)

unfoldable pub build_route_record_payload : Bool → ℕ → Option (List ℕ) → ℕ → Built
build_route_record_payload out out_max relays relay_count =
    if not out || ltb out_max (u8 (1 + relay_count * 2))
    then refused
    else if ltb 0 relay_count && not (is_some relays)
    then refused
    else record {
      size = u8 (1 + relay_count * 2);
      written = relay_count ∷ write_relays (take relay_count (bytes_of relays));
    }

unfoldable pub parse_route_record_payload : Option (List ℕ) → ℕ → NwkRouteRecordCommand × Bool
parse_route_record_payload none payload_len =
    (record { valid = false; relay_count = 0; relay_list = none }, false)
parse_route_record_payload (some payload) payload_len =
    let count = byte_at payload 0 in
    if ltb payload_len 1
    then (record { valid = false; relay_count = 0; relay_list = none }, false)
    else if ltb payload_len (u8 (1 + count * 2))
    then (record { valid = false; relay_count = count; relay_list = none }, false)
    else (record { valid = true; relay_count = count; relay_list = some (advance 1 payload) }, true)

-- `none` is the return of false.
unfoldable pub get_route_record_relay : NwkRouteRecordCommand → ℕ → Option ℕ
get_route_record_relay command index =
    if not command.valid || (not (is_some command.relay_list) || leb command.relay_count index)
    then none
    else some (read_le16_at (bytes_of command.relay_list) (index * 2))

pub record NwkLeaveCommand : Type 0 where
  pub valid : Bool
  pub rejoin : Bool
  pub request : Bool
  pub remove_children : Bool

abbrev pub no_leave : NwkLeaveCommand
no_leave = record { valid = false; rejoin = false; request = false; remove_children = false }

unfoldable pub build_leave_payload : Bool → ℕ → Bool → Bool → Bool → Built
build_leave_payload out out_max rejoin request remove_children =
    if not out || ltb out_max 1 then refused else record {
      size = 1;
      written =
          with_option remove_children 0x80 (with_option request 0x40 (with_option rejoin 0x20 0))
          ∷ [];
    }

unfoldable pub parse_leave_payload : Option (List ℕ) → ℕ → NwkLeaveCommand × Bool
parse_leave_payload none payload_len = (no_leave, false)
parse_leave_payload (some payload) payload_len = if ltb payload_len 1 then (no_leave, false) else (
  record {
    valid = true;
    rejoin = has_bit (byte_at payload 0) 0x20;
    request = has_bit (byte_at payload 0) 0x40;
    remove_children = has_bit (byte_at payload 0) 0x80;
  },
  true,
)

pub record NwkRejoinRequestCommand : Type 0 where
  pub valid : Bool
  pub capability : ℕ

unfoldable pub build_rejoin_request_payload : Bool → ℕ → ℕ → Built
build_rejoin_request_payload out out_max capability =
    if not out || ltb out_max 1 then refused else record { size = 1; written = capability ∷ [] }

unfoldable pub parse_rejoin_request_payload : Option (List ℕ) → ℕ → NwkRejoinRequestCommand × Bool
parse_rejoin_request_payload none payload_len = (record { valid = false; capability = 0 }, false)
parse_rejoin_request_payload (some payload) payload_len =
    if ltb payload_len 1
    then (record { valid = false; capability = 0 }, false)
    else (record { valid = true; capability = byte_at payload 0 }, true)

pub record NwkRejoinResponseCommand : Type 0 where
  pub valid : Bool
  pub nwk_address : ℕ
  pub status : ℕ

unfoldable pub build_rejoin_response_payload : Bool → ℕ → ℕ → ℕ → Built
build_rejoin_response_payload out out_max nwk_address status =
    if not out || ltb out_max 3
    then refused
    else record { size = 3; written = write_le16 nwk_address ++ (status ∷ []) }

unfoldable pub parse_rejoin_response_payload : Option (List ℕ) → ℕ → NwkRejoinResponseCommand × Bool
parse_rejoin_response_payload none payload_len =
    (record { valid = false; nwk_address = 0; status = 0 }, false)
parse_rejoin_response_payload (some payload) payload_len =
    if ltb payload_len 3 then (record { valid = false; nwk_address = 0; status = 0 }, false) else (
      record { valid = true; nwk_address = read_le16_at payload 0; status = byte_at payload 2 },
      true,
    )
