-- ===== src/Zcl.antt =====
-- src/ZigbeeZcl.h and src/ZigbeeZcl.cpp: the frames of the Zigbee cluster library. The payloads of its
-- general commands are in Attributes. readLe16 and writeLe16 are those of Bytes.
pub mod Attributes
pub mod FrameRoundTrip
pub mod AttributesRoundTrip
mod Tests
use Prim.Native.Nat.{bit_and, bit_or}
use arduino_nrf_zigbee.Prelude.{
  ℕ, ◌+◌, ◌-◌, ◌^◌, Bool, true, false, not, ◌&&◌, ◌||◌, Option, none, some, List, ◌∷◌,
  if◌then◌else◌, ltb, ◌==◌, is_some, take, u8,
}
use arduino_nrf_zigbee.Bytes.{Built, refused, byte_at, advance, read_le16_at, has_bit, bytes_of}

abbrev pub frame_cluster_specific : ℕ
frame_cluster_specific = 1

abbrev pub direction_server_to_client : ℕ
direction_server_to_client = 1

pub record ZclFrame : Type 0 where
  pub valid : Bool
  pub frame_type : ℕ
  pub manufacturer_specific : Bool
  pub manufacturer_code : ℕ
  pub direction : ℕ
  pub disable_default_response : Bool
  pub sequence : ℕ
  pub command_id : ℕ
  pub payload : Option (List ℕ)
  pub payload_len : ℕ

abbrev pub no_frame : ZclFrame
no_frame = record {
  valid = false;
  frame_type = 0;
  manufacturer_specific = false;
  manufacturer_code = 0;
  direction = 0;
  disable_default_response = false;
  sequence = 0;
  command_id = 0;
  payload = none;
  payload_len = 0;
}

abbrev pub base_header_len : ℕ
base_header_len = 3

abbrev pub manufacturer_header_len : ℕ
manufacturer_header_len = 5

abbrev pub max_frame : ℕ
max_frame = 100

abbrev pub max_payload : ℕ
max_payload = max_frame - base_header_len

-- if (set) fcf |= mask;
abbrev pub with_flag : Bool → ℕ → ℕ → ℕ
with_flag set mask fcf = if set then bit_or fcf mask else fcf

unfoldable pub build_command_frame : Bool → ℕ → ℕ → ℕ → ℕ → Option (List ℕ) → ℕ → ℕ → Bool → Built
build_command_frame out out_max frame_type sequence command_id payload payload_len direction
      disable_default_response =
    let fcf = with_flag disable_default_response (2 ^ 4) (
      with_flag (direction == direction_server_to_client) (2 ^ 3) (u8 (bit_and frame_type 0x03))) in
    if not out
      || (ltb frame_cluster_specific frame_type || ltb direction_server_to_client direction)
    then refused
    else if ltb max_payload payload_len || ltb out_max (base_header_len + payload_len)
    then refused
    else if ltb 0 payload_len && not (is_some payload)
    then refused
    else record {
      size = u8 (base_header_len + payload_len);
      written = fcf ∷ sequence ∷ command_id ∷ take payload_len (bytes_of payload);
    }

-- The rest of parseFrame, with `offset` at the sequence number.
abbrev pub parse_body : List ℕ → ℕ → ℕ → Bool → ℕ → ZclFrame × Bool
parse_body zcl len offset manufacturer_specific manufacturer_code =
    let fcf = byte_at zcl 0 in
    if ltb len (offset + 2)
    then (record no_frame { manufacturer_code = manufacturer_code }, false)
    else (
      record {
        valid = true;
        frame_type = u8 (bit_and fcf 0x03);
        manufacturer_specific = manufacturer_specific;
        manufacturer_code = manufacturer_code;
        direction = if has_bit fcf (2 ^ 3) then direction_server_to_client else 0;
        disable_default_response = has_bit fcf (2 ^ 4);
        sequence = byte_at zcl offset;
        command_id = byte_at zcl (offset + 1);
        payload = some (advance (offset + 2) zcl);
        payload_len = u8 (len - (offset + 2));
      },
      true,
    )

unfoldable pub parse_frame : Option (List ℕ) → ℕ → ZclFrame × Bool
parse_frame none len = (no_frame, false)
parse_frame (some zcl) len =
    let fcf = byte_at zcl 0 in
    if ltb len base_header_len
    then (no_frame, false)
    else if ltb frame_cluster_specific (u8 (bit_and fcf 0x03))
    then (no_frame, false)
    else if has_bit fcf (2 ^ 2)
    then if ltb len manufacturer_header_len
      then (no_frame, false)
      else parse_body zcl len 3 true (read_le16_at zcl 1)
    else parse_body zcl len 1 false 0
