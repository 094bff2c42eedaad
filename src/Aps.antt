-- ===== src/Aps.antt =====
-- src/ZigbeeAps.h and src/ZigbeeAps.cpp: building and parsing APS data and ack frames. A builder takes
-- whether `out` is not null; a parser returns the frame beside its answer.
pub mod RoundTrip
pub mod Bounds
mod Tests
use Prim.Native.Nat.{bit_and, bit_or}
use arduino_nrf_zigbee.Prelude.{
  ℕ, ◌+◌, ◌-◌, ◌*◌, ◌/◌, ◌^◌, Bool, true, false, not, ◌&&◌, ◌||◌, Option, none, some, List, [], ◌∷◌,
  ◌++◌, if◌then◌else◌, ltb, ◌==◌, is_some, take, drop, u8,
}
use arduino_nrf_zigbee.Bytes.{
  Built, refused, byte_at, advance, read_le16_at, write_le16, has_bit, bytes_of,
}

-- enum ApsFrameType
abbrev pub frame_data : ℕ
frame_data = 0

abbrev pub frame_ack : ℕ
frame_ack = 2

-- enum ApsDeliveryMode
abbrev pub delivery_unicast : ℕ
delivery_unicast = 0

abbrev pub delivery_group : ℕ
delivery_group = 3

abbrev pub base_header_len : ℕ
base_header_len = 8

abbrev pub group_header_len : ℕ
group_header_len = 9

abbrev pub max_frame : ℕ
max_frame = 108

abbrev pub max_payload : ℕ
max_payload = max_frame - base_header_len

-- `payload` points into the parsed frame.
pub record ApsDataFrame : Type 0 where
  pub valid : Bool
  pub frame_type : ℕ
  pub delivery_mode : ℕ
  pub ack_request : Bool
  pub security : Bool
  pub extended_header : Bool
  pub first_block : Bool
  pub block_number : ℕ
  pub dst_endpoint : ℕ
  pub group_address : ℕ
  pub cluster_id : ℕ
  pub profile_id : ℕ
  pub src_endpoint : ℕ
  pub counter : ℕ
  pub payload : Option (List ℕ)
  pub payload_len : ℕ

abbrev pub no_data_frame : ApsDataFrame
no_data_frame = record {
  valid = false;
  frame_type = 0;
  delivery_mode = 0;
  ack_request = false;
  security = false;
  extended_header = false;
  first_block = false;
  block_number = 0;
  dst_endpoint = 0;
  group_address = 0;
  cluster_id = 0;
  profile_id = 0;
  src_endpoint = 0;
  counter = 0;
  payload = none;
  payload_len = 0;
}

pub record ApsAckFrame : Type 0 where
  pub valid : Bool
  pub dst_endpoint : ℕ
  pub cluster_id : ℕ
  pub profile_id : ℕ
  pub src_endpoint : ℕ
  pub counter : ℕ

abbrev pub no_ack_frame : ApsAckFrame
no_ack_frame = record {
  valid = false;
  dst_endpoint = 0;
  cluster_id = 0;
  profile_id = 0;
  src_endpoint = 0;
  counter = 0;
}

abbrev pub with_ack_request : Bool → ℕ → ℕ
with_ack_request ack_request fcf = if ack_request then bit_or fcf (2 ^ 6) else fcf

pub build_data_frame : Bool → ℕ → ℕ → ℕ → ℕ → ℕ → ℕ → Option (List ℕ) → ℕ → Bool → Built
build_data_frame out out_max dst_endpoint cluster_id profile_id src_endpoint counter payload
      payload_len ack_request =
    if not out
    then refused
    else if ltb max_payload payload_len
    then refused
    else if ltb out_max (base_header_len + payload_len)
    then refused
    else if ltb 0 payload_len && not (is_some payload)
    then refused
    else record {
      size = u8 (base_header_len + payload_len);
      written =
          with_ack_request ack_request (bit_or frame_data (delivery_unicast * 2 ^ 2))
          ∷ dst_endpoint
          ∷ (write_le16 cluster_id
              ++ (write_le16 profile_id
                  ++ (src_endpoint ∷ counter ∷ take payload_len (bytes_of payload))));
    }

pub build_group_data_frame : Bool → ℕ → ℕ → ℕ → ℕ → ℕ → ℕ → Option (List ℕ) → ℕ → Bool → Built
build_group_data_frame out out_max group_address cluster_id profile_id src_endpoint counter payload
      payload_len ack_request =
    if not out
    then refused
    else if ltb (u8 (max_frame - group_header_len)) payload_len
    then refused
    else if ltb out_max (u8 (group_header_len + payload_len))
    then refused
    else if ltb 0 payload_len && not (is_some payload)
    then refused
    else record {
      size = u8 (group_header_len + payload_len);
      written =
          with_ack_request ack_request (bit_or frame_data (delivery_group * 2 ^ 2))
          ∷ (write_le16 group_address
              ++ (write_le16 cluster_id
                  ++ (write_le16 profile_id
                      ++ (src_endpoint ∷ counter ∷ take payload_len (bytes_of payload)))));
    }

pub frame_type : Option (List ℕ) → ℕ → ℕ
frame_type none len = 0xff
frame_type (some apdu) len = if ltb len 1 then 0xff else u8 (bit_and (byte_at apdu 0) 0x03)

pub build_ack_frame : Bool → ℕ → ℕ → ℕ → ℕ → ℕ → ℕ → Built
build_ack_frame out out_max ack_dst_endpoint cluster_id profile_id ack_src_endpoint counter =
    if not out || ltb out_max base_header_len then refused else record {
      size = base_header_len;
      written =
          bit_or frame_ack (delivery_unicast * 2 ^ 2)
          ∷ ack_dst_endpoint
          ∷ (write_le16 cluster_id ++ (write_le16 profile_id ++ (ack_src_endpoint ∷ counter ∷ [])));
    }

pub parse_ack_frame : Option (List ℕ) → ℕ → ApsAckFrame × Bool
parse_ack_frame none len = (no_ack_frame, false)
parse_ack_frame (some apdu) len =
    if ltb len base_header_len
    then (no_ack_frame, false)
    else if not (u8 (bit_and (byte_at apdu 0) 0x03) == frame_ack)
    then (no_ack_frame, false)
    else (
      record {
        valid = true;
        dst_endpoint = byte_at apdu 1;
        cluster_id = read_le16_at apdu 2;
        profile_id = read_le16_at apdu 4;
        src_endpoint = byte_at apdu 6;
        counter = byte_at apdu 7;
      },
      true,
    )

-- The frame after the fields of the base header, and the length of that header; `none` is the return
-- of a group frame that is too short, which leaves `valid` set.
abbrev pub addressed : List ℕ → ℕ → ApsDataFrame → Option (ApsDataFrame × ℕ)
addressed apdu len frame =
    if frame.delivery_mode == delivery_group
    then (if ltb len group_header_len
        then none
        else some (
          record frame {
            group_address = read_le16_at apdu 1;
            cluster_id = read_le16_at apdu 3;
            profile_id = read_le16_at apdu 5;
            src_endpoint = byte_at apdu 7;
            counter = byte_at apdu 8;
          },
          group_header_len,
        ))
    else some (
      record frame {
        dst_endpoint = byte_at apdu 1;
        cluster_id = read_le16_at apdu 2;
        profile_id = read_le16_at apdu 4;
        src_endpoint = byte_at apdu 6;
        counter = byte_at apdu 7;
      },
      base_header_len,
    )

-- The extended header, if there is one, and the payload.
abbrev pub with_payload : List ℕ → ℕ → ApsDataFrame → ℕ → ApsDataFrame × Bool
with_payload apdu len frame hdr =
    if frame.extended_header
    then (if ltb len (hdr + 2) then (frame, false) else (
      record frame {
        first_block = u8 (bit_and (byte_at apdu hdr) 0x03) == 0x01;
        block_number = byte_at apdu (hdr + 1);
        payload = some (advance (u8 (hdr + 2)) apdu);
        payload_len = u8 (len - u8 (hdr + 2));
      },
      true,
    ))
    else (record frame { payload = some (advance hdr apdu); payload_len = u8 (len - hdr) }, true)

pub parse_data_frame : Option (List ℕ) → ℕ → ApsDataFrame × Bool
parse_data_frame none len = (no_data_frame, false)
parse_data_frame (some apdu) len =
    let fcf = byte_at apdu 0 in
    let type = u8 (bit_and fcf 0x03) in
    let mode = u8 (bit_and (fcf / 2 ^ 2) 0x03) in
    let security = has_bit fcf (2 ^ 5) in
    let frame = record no_data_frame {
      valid = true;
      frame_type = type;
      delivery_mode = mode;
      ack_request = has_bit fcf (2 ^ 6);
      security = security;
      extended_header = has_bit fcf (2 ^ 7);
    } in
    if ltb len base_header_len
    then (no_data_frame, false)
    else if not (type == frame_data)
    then (no_data_frame, false)
    else if security
    then (no_data_frame, false)
    else if not (mode == delivery_unicast) && not (mode == delivery_group)
    then (no_data_frame, false)
    else (elim (addressed apdu len frame) [
      | none ↦ (frame, false)
      | some (f, hdr) ↦ with_payload apdu len f hdr
    ])
