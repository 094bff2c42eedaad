-- ===== src/Nwk/CommandFrame.antt =====
-- NWK command frames: buildCommandFrame and parseCommandFrame of src/ZigbeeNwk.cpp.
use Prim.Native.Nat.{bit_and}
use arduino_nrf_zigbee.Prelude.{
  ℕ, ◌+◌, ◌-◌, ◌/◌, ◌^◌, Bool, true, false, not, ◌&&◌, ◌||◌, Option, none, some, List, ◌∷◌, ◌++◌,
  if◌then◌else◌, ltb, ◌==◌, is_some, take, u8,
}
use arduino_nrf_zigbee.Bytes.{
  Built, refused, byte_at, advance, read_le16_at, write_le16, has_bit, bytes_of,
}
use arduino_nrf_zigbee.Nwk.{frame_command, base_header_len, max_payload, frame_control}

-- `payload` points into the parsed frame.
pub record NwkCommandFrame : Type 0 where
  pub valid : Bool
  pub frame_type : ℕ
  pub protocol_version : ℕ
  pub discover_route : ℕ
  pub multicast : Bool
  pub security : Bool
  pub source_route : Bool
  pub dst_ieee_present : Bool
  pub src_ieee_present : Bool
  pub end_device_initiator : Bool
  pub dst_short : ℕ
  pub src_short : ℕ
  pub radius : ℕ
  pub sequence : ℕ
  pub command_id : ℕ
  pub payload : Option (List ℕ)
  pub payload_len : ℕ

abbrev pub no_command : NwkCommandFrame
no_command = record {
  valid = false;
  frame_type = 0;
  protocol_version = 0;
  discover_route = 0;
  multicast = false;
  security = false;
  source_route = false;
  dst_ieee_present = false;
  src_ieee_present = false;
  end_device_initiator = false;
  dst_short = 0;
  src_short = 0;
  radius = 0;
  sequence = 0;
  command_id = 0;
  payload = none;
  payload_len = 0;
}

unfoldable pub build_command_frame : Bool → ℕ → ℕ → ℕ → ℕ → ℕ → ℕ → Option (List ℕ) → ℕ → ℕ → Built
build_command_frame out out_max dst_short src_short radius sequence command_id payload payload_len
      discover_route =
    if not out
    then refused
    else if ltb (u8 (max_payload - 1)) payload_len
    then refused
    else if ltb out_max (base_header_len + 1 + payload_len)
    then refused
    else if ltb 0 payload_len && not (is_some payload)
    then refused
    else if ltb 3 discover_route
    then refused
    else record {
      size = u8 (base_header_len + 1 + payload_len);
      written =
          write_le16 (frame_control frame_command discover_route)
          ++ (write_le16 dst_short
              ++ (write_le16 src_short
                  ++ (radius ∷ sequence ∷ command_id ∷ take payload_len (bytes_of payload))));
    }

unfoldable pub parse_command_frame : Option (List ℕ) → ℕ → NwkCommandFrame × Bool
parse_command_frame none len = (no_command, false)
parse_command_frame (some npdu) len =
    let fcf = read_le16_at npdu 0 in
    let type = u8 (bit_and fcf 0x03) in
    let multicast = has_bit fcf (2 ^ 8) in
    let security = has_bit fcf (2 ^ 9) in
    let source_route = has_bit fcf (2 ^ 10) in
    let dst_ieee_present = has_bit fcf (2 ^ 11) in
    let src_ieee_present = has_bit fcf (2 ^ 12) in
    if ltb len (base_header_len + 1)
    then (no_command, false)
    else if not (type == frame_command)
    then (no_command, false)
    else if multicast || (security || (source_route || (dst_ieee_present || src_ieee_present)))
    then (no_command, false)
    else (
      record {
        valid = true;
        frame_type = type;
        protocol_version = u8 (bit_and (fcf / 2 ^ 2) 0x0F);
        discover_route = u8 (bit_and (fcf / 2 ^ 6) 0x03);
        multicast = multicast;
        security = security;
        source_route = source_route;
        dst_ieee_present = dst_ieee_present;
        src_ieee_present = src_ieee_present;
        end_device_initiator = has_bit fcf (2 ^ 13);
        dst_short = read_le16_at npdu 2;
        src_short = read_le16_at npdu 4;
        radius = byte_at npdu 6;
        sequence = byte_at npdu 7;
        command_id = byte_at npdu 8;
        payload = some (advance (base_header_len + 1) npdu);
        payload_len = u8 (len - base_header_len - 1);
      },
      true,
    )
