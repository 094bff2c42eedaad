-- ===== src/Nwk/Beacon.antt =====
-- The Zigbee beacon payload and the link status command of src/ZigbeeNwk.cpp.
use Prim.Native.Nat.{bit_and, bit_or}
use arduino_nrf_zigbee.Prelude.{
  ℕ, ◌+◌, ◌*◌, ◌/◌, ◌^◌, Bool, true, false, not, ◌&&◌, ◌||◌, Option, none, some, List, [], ◌∷◌,
  ◌++◌, if◌then◌else◌, ltb, leb, ◌==◌, is_some, take, u8,
}
use arduino_nrf_zigbee.Bytes.{
  Built, refused, byte_at, advance, read_le16_at, read_le64, write_le16, write_le64, has_bit,
  bytes_of,
}
use arduino_nrf_zigbee.Nwk.{protocol_version}
use arduino_nrf_zigbee.Nwk.RouteCommands.{with_option}

pub record NwkBeaconPayload : Type 0 where
  pub valid : Bool
  pub protocol_id : ℕ
  pub stack_profile : ℕ
  pub beacon_version : ℕ
  pub router_capacity : Bool
  pub device_depth : ℕ
  pub end_device_capacity : Bool
  pub extended_pan_id : ℕ
  pub tx_offset : ℕ
  pub update_id : ℕ

abbrev pub no_beacon : NwkBeaconPayload
no_beacon = record {
  valid = false;
  protocol_id = 0;
  stack_profile = 0;
  beacon_version = 0;
  router_capacity = false;
  device_depth = 0;
  end_device_capacity = false;
  extended_pan_id = 0;
  tx_offset = 0;
  update_id = 0;
}

abbrev pub beacon_payload_len : ℕ
beacon_payload_len = 15

abbrev pub protocol_id_zigbee : ℕ
protocol_id_zigbee = 0

abbrev pub beaconless_tx_offset : ℕ
beaconless_tx_offset = 0xFFFFFF

unfoldable pub build_beacon_payload : Bool → ℕ → ℕ → ℕ → Bool → Bool → ℕ → ℕ → Built
build_beacon_payload out out_max extended_pan_id device_depth router_capacity end_device_capacity
      update_id stack_profile =
    if not out || ltb out_max beacon_payload_len then refused else record {
      size = beacon_payload_len;
      written =
          protocol_id_zigbee
          ∷ u8 (bit_or (bit_and stack_profile 0x0F) (bit_and protocol_version 0x0F * 2 ^ 4))
          ∷ u8 (
              bit_or
                (bit_or ((if router_capacity then 1 else 0) * 2 ^ 2)
                  (bit_and device_depth 0x0F * 2 ^ 3))
                ((if end_device_capacity then 1 else 0) * 2 ^ 7))
          ∷ (write_le64 extended_pan_id
              ++ (u8 (bit_and beaconless_tx_offset 0xFF)
                  ∷ u8 (bit_and (beaconless_tx_offset / 2 ^ 8) 0xFF)
                  ∷ u8 (bit_and (beaconless_tx_offset / 2 ^ 16) 0xFF)
                  ∷ update_id
                  ∷ []));
    }

unfoldable pub parse_beacon_payload : Option (List ℕ) → ℕ → NwkBeaconPayload × Bool
parse_beacon_payload none payload_len = (no_beacon, false)
parse_beacon_payload (some payload) payload_len =
    if ltb payload_len beacon_payload_len
    then (no_beacon, false)
    else if not (byte_at payload 0 == protocol_id_zigbee)
    then (no_beacon, false)
    else (
      record {
        valid = true;
        protocol_id = byte_at payload 0;
        stack_profile = u8 (bit_and (byte_at payload 1) 0x0F);
        beacon_version = u8 (bit_and (byte_at payload 1 / 2 ^ 4) 0x0F);
        router_capacity = has_bit (byte_at payload 2) (2 ^ 2);
        device_depth = u8 (bit_and (byte_at payload 2 / 2 ^ 3) 0x0F);
        end_device_capacity = has_bit (byte_at payload 2) (2 ^ 7);
        extended_pan_id = read_le64 (advance 3 payload);
        tx_offset =
            bit_or (bit_or (byte_at payload 11) (byte_at payload 12 * 2 ^ 8))
              (byte_at payload 13 * 2 ^ 16);
        update_id = byte_at payload 14;
      },
      true,
    )

-- One neighbor entry of a link status command.
pub record NwkLinkStatusEntry : Type 0 where
  pub address : ℕ
  pub incoming_cost : ℕ
  pub outgoing_cost : ℕ

-- `entries` points into the payload.
pub record NwkLinkStatusCommand : Type 0 where
  pub valid : Bool
  pub first_frame : Bool
  pub last_frame : Bool
  pub entry_count : ℕ
  pub entries : Option (List ℕ)

abbrev pub no_link_status : NwkLinkStatusCommand
no_link_status = record {
  valid = false;
  first_frame = false;
  last_frame = false;
  entry_count = 0;
  entries = none;
}

-- The loop of buildLinkStatusPayload.
abbrev pub write_entries : List NwkLinkStatusEntry → List ℕ
write_entries [] = []
write_entries (entry ∷ entries) =
    write_le16 entry.address
    ++ (u8 (bit_or (bit_and entry.incoming_cost 0x07) (bit_and entry.outgoing_cost 0x07 * 2 ^ 4))
        ∷ write_entries entries)

abbrev pub entries_of : Option (List NwkLinkStatusEntry) → List NwkLinkStatusEntry
entries_of none = []
entries_of (some entries) = entries

unfoldable pub build_link_status_payload :
    Bool → ℕ → Option (List NwkLinkStatusEntry) → ℕ → Bool → Bool → Built
build_link_status_payload out out_max entries entry_count first_frame last_frame =
    if not out || (ltb 0 entry_count && not (is_some entries))
    then refused
    else if ltb 31 entry_count
    then refused
    else if ltb out_max (u8 (1 + 3 * entry_count))
    then refused
    else record {
      size = u8 (1 + 3 * entry_count);
      written =
          with_option last_frame 0x40 (with_option first_frame 0x20 (u8 (bit_and entry_count 0x1F)))
          ∷ write_entries (take entry_count (entries_of entries));
    }

unfoldable pub parse_link_status_payload : Option (List ℕ) → ℕ → NwkLinkStatusCommand × Bool
parse_link_status_payload none payload_len = (no_link_status, false)
parse_link_status_payload (some payload) payload_len =
    let count = u8 (bit_and (byte_at payload 0) 0x1F) in
    if ltb payload_len 1
    then (no_link_status, false)
    else if ltb payload_len (1 + 3 * count)
    then (no_link_status, false)
    else (
      record {
        valid = true;
        first_frame = has_bit (byte_at payload 0) 0x20;
        last_frame = has_bit (byte_at payload 0) 0x40;
        entry_count = count;
        entries = some (advance 1 payload);
      },
      true,
    )

-- `none` is the return of false.
unfoldable pub get_link_status_entry : NwkLinkStatusCommand → ℕ → Option NwkLinkStatusEntry
get_link_status_entry command index =
    let p = advance (3 * index) (bytes_of command.entries) in
    if not command.valid || (leb command.entry_count index || not (is_some command.entries))
    then none
    else some record {
      address = read_le16_at p 0;
      incoming_cost = u8 (bit_and (byte_at p 2) 0x07);
      outgoing_cost = u8 (bit_and (byte_at p 2 / 2 ^ 4) 0x07);
    }
