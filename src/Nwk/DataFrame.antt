-- ===== src/Nwk/DataFrame.antt =====
-- NWK data frames: buildDataFrame, buildDataFrameSourceRouted and parseDataFrame of
-- src/ZigbeeNwk.cpp.
use Prim.Native.Nat.{bit_and, bit_or}
use arduino_nrf_zigbee.Prelude.{
  ℕ, ◌+◌, ◌-◌, ◌*◌, ◌/◌, ◌^◌, Bool, true, false, not, ◌&&◌, ◌||◌, Option, none, some, List, [], ◌∷◌,
  ◌++◌, if◌then◌else◌, ltb, ◌==◌, is_some, take, u8,
}
use arduino_nrf_zigbee.Bytes.{
  write_at, Built, refused, byte_at, advance, read_le16_at, write_le16, has_bit, bytes_of,
}
use arduino_nrf_zigbee.Nwk.{frame_data, base_header_len, max_payload, frame_control}

-- `sr_relay_list` and `payload` point into the parsed frame.
pub record NwkDataFrame : Type 0 where
  pub valid : Bool
  pub frame_type : ℕ
  pub protocol_version : ℕ
  pub discover_route : ℕ
  pub multicast : Bool
  pub security : Bool
  pub source_route : Bool
  pub dst_ieee_present : Bool
  pub src_ieee_present : Bool
  pub end_device_initiator : Bool
  pub dst_short : ℕ
  pub src_short : ℕ
  pub radius : ℕ
  pub sequence : ℕ
  pub sr_relay_count : ℕ
  pub sr_relay_index : ℕ
  pub sr_relay_list : Option (List ℕ)
  pub payload : Option (List ℕ)
  pub payload_len : ℕ

abbrev pub no_frame : NwkDataFrame
no_frame = record {
  valid = false;
  frame_type = 0;
  protocol_version = 0;
  discover_route = 0;
  multicast = false;
  security = false;
  source_route = false;
  dst_ieee_present = false;
  src_ieee_present = false;
  end_device_initiator = false;
  dst_short = 0;
  src_short = 0;
  radius = 0;
  sequence = 0;
  sr_relay_count = 0;
  sr_relay_index = 0;
  sr_relay_list = none;
  payload = none;
  payload_len = 0;
}

unfoldable pub build_data_frame : Bool → ℕ → ℕ → ℕ → ℕ → ℕ → Option (List ℕ) → ℕ → ℕ → Built
build_data_frame out out_max dst_short src_short radius sequence payload payload_len
      discover_route =
    if not out
    then refused
    else if ltb max_payload payload_len
    then refused
    else if ltb out_max (base_header_len + payload_len)
    then refused
    else if ltb 0 payload_len && not (is_some payload)
    then refused
    else if ltb 3 discover_route
    then refused
    else record {
      size = u8 (base_header_len + payload_len);
      written =
          write_le16 (frame_control frame_data discover_route)
          ++ (write_le16 dst_short
              ++ (write_le16 src_short
                  ++ (radius ∷ sequence ∷ take payload_len (bytes_of payload))));
    }

-- for (i = 0; i < relayCount; ++i) writeLe16(&out[i * 2], relays[i])
abbrev pub write_relays : List ℕ → List ℕ
write_relays [] = []
write_relays (relay ∷ relays) = write_le16 relay ++ write_relays relays

-- What buildDataFrameSourceRouted writes before the payload.
abbrev pub source_routed_header : ℕ → ℕ → ℕ → ℕ → List ℕ → ℕ → ℕ → ℕ → List ℕ
source_routed_header dst_short src_short radius sequence relays relay_count relay_index
      discover_route =
    write_le16 (bit_or (frame_control frame_data discover_route) (1 * 2 ^ 10))
    ++ (write_le16 dst_short
        ++ (write_le16 src_short
            ++ (radius
                ∷ sequence
                ∷ relay_count
                ∷ relay_index
                ∷ write_relays (take relay_count relays))))

unfoldable pub build_data_frame_source_routed :
    Bool → ℕ → ℕ → ℕ → ℕ → ℕ → Option (List ℕ) → ℕ → ℕ → Option (List ℕ) → ℕ → ℕ → Built
build_data_frame_source_routed out out_max dst_short src_short radius sequence relays relay_count
      relay_index payload payload_len discover_route =
    let subframe_len = u8 (2 + relay_count * 2) in
    let header_len = u8 (base_header_len + subframe_len) in
    if not out || ltb 3 discover_route
    then refused
    else if ltb 0 relay_count && not (is_some relays)
    then refused
    else if ltb 0 payload_len && not (is_some payload)
    then refused
    else if ltb out_max (header_len + payload_len)
    then refused
    else if ltb max_payload payload_len
    then refused
    else record {
      size = u8 (header_len + payload_len);
      written = write_at header_len (take payload_len (bytes_of payload)) (
          source_routed_header dst_short src_short radius sequence (bytes_of relays) relay_count
            relay_index discover_route);
    }

-- The source-route subframe: the relay count, index and list, and the offset of the payload; `none` is
-- the return of a frame that is too short for it.
pub record Subframe : Type 0 where
  pub relay_count : ℕ
  pub relay_index : ℕ
  pub relay_list : Option (List ℕ)
  pub offset : ℕ

abbrev pub read_subframe : List ℕ → ℕ → Bool → Option Subframe
read_subframe npdu len source_route =
    if source_route
    then (let count = byte_at npdu base_header_len in
        let subframe_len = u8 (2 + count * 2) in
        if ltb len (u8 (base_header_len + 2))
        then none
        else if ltb len (u8 (base_header_len + subframe_len))
        then none
        else some record {
          relay_count = count;
          relay_index = byte_at npdu (base_header_len + 1);
          relay_list = some (advance (base_header_len + 2) npdu);
          offset = u8 (base_header_len + subframe_len);
        })
    else some
        record { relay_count = 0; relay_index = 0; relay_list = none; offset = base_header_len }

unfoldable pub parse_data_frame : Option (List ℕ) → ℕ → NwkDataFrame × Bool
parse_data_frame none len = (no_frame, false)
parse_data_frame (some npdu) len =
    let fcf = read_le16_at npdu 0 in
    let type = u8 (bit_and fcf 0x03) in
    let multicast = has_bit fcf (2 ^ 8) in
    let security = has_bit fcf (2 ^ 9) in
    let source_route = has_bit fcf (2 ^ 10) in
    let dst_ieee_present = has_bit fcf (2 ^ 11) in
    let src_ieee_present = has_bit fcf (2 ^ 12) in
    if ltb len base_header_len
    then (no_frame, false)
    else if not (type == frame_data)
    then (no_frame, false)
    else if multicast || (security || (dst_ieee_present || src_ieee_present))
    then (no_frame, false)
    else (elim (read_subframe npdu len source_route) [
      | none ↦ (no_frame, false)
      | some sub ↦ (
        record {
          valid = true;
          frame_type = type;
          protocol_version = u8 (bit_and (fcf / 2 ^ 2) 0x0F);
          discover_route = u8 (bit_and (fcf / 2 ^ 6) 0x03);
          multicast = multicast;
          security = security;
          source_route = source_route;
          dst_ieee_present = dst_ieee_present;
          src_ieee_present = src_ieee_present;
          end_device_initiator = has_bit fcf (2 ^ 13);
          dst_short = read_le16_at npdu 2;
          src_short = read_le16_at npdu 4;
          radius = byte_at npdu 6;
          sequence = byte_at npdu 7;
          sr_relay_count = sub.relay_count;
          sr_relay_index = sub.relay_index;
          sr_relay_list = sub.relay_list;
          payload = some (advance sub.offset npdu);
          payload_len = u8 (len - sub.offset);
        },
        true,
      )
    ])
