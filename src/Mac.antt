-- ===== src/Mac.antt =====
-- src/ZigbeeMac.h and src/ZigbeeMac.cpp: the IEEE 802.15.4 frames. Data frames stand here; commands, inter-PAN
-- frames and beacons have modules of their own. The private readLe16, writeLe16, readLe64 and writeLe64 are
-- those of Bytes.
pub mod Command
pub mod InterPan
pub mod Beacon
pub mod DataRoundTrip
mod Capability
pub mod AssociationRoundTrip
mod Tests
use Prim.Native.Nat.{bit_and, bit_or}
use arduino_nrf_zigbee.Prelude.{
  ℕ, ◌+◌, ◌-◌, ◌*◌, ◌/◌, ◌^◌, Bool, true, false, not, ◌&&◌, ◌||◌, Option, none, some, List, ◌∷◌,
  ◌++◌, if◌then◌else◌, ltb, ◌==◌, is_some, take, u8,
}
use arduino_nrf_zigbee.Bytes.{
  Built, refused, byte_at, advance, read_le16_at, write_le16, has_bit, bytes_of,
}

abbrev pub frame_beacon : ℕ
frame_beacon = 0

abbrev pub frame_data : ℕ
frame_data = 1

abbrev pub frame_command : ℕ
frame_command = 3

abbrev pub addr_none : ℕ
addr_none = 0

abbrev pub addr_short : ℕ
addr_short = 2

abbrev pub addr_extended : ℕ
addr_extended = 3

abbrev pub max_psdu : ℕ
max_psdu = 125

pub record MacDataFrame : Type 0 where
  pub valid : Bool
  pub frame_type : ℕ
  pub sequence : ℕ
  pub ack_request : Bool
  pub pan_id_compression : Bool
  pub dst_pan_id : ℕ
  pub dst_short : ℕ
  pub src_pan_id : ℕ
  pub src_short : ℕ
  pub payload : Option (List ℕ)
  pub payload_len : ℕ

abbrev pub no_data_frame : MacDataFrame
no_data_frame = record {
  valid = false;
  frame_type = 0;
  sequence = 0;
  ack_request = false;
  pan_id_compression = false;
  dst_pan_id = 0;
  dst_short = 0;
  src_pan_id = 0;
  src_short = 0;
  payload = none;
  payload_len = 0;
}

-- if (set) fcf |= mask;
abbrev pub with_flag : Bool → ℕ → ℕ → ℕ
with_flag set mask fcf = if set then bit_or fcf mask else fcf

-- `fcf & 0x7`, `(fcf >> 10) & 0x3`, `(fcf >> 14) & 0x3`
abbrev pub type_of : ℕ → ℕ
type_of fcf = u8 (bit_and fcf 0x7)

abbrev pub dst_mode_of : ℕ → ℕ
dst_mode_of fcf = u8 (bit_and (fcf / 2 ^ 10) 0x3)

abbrev pub src_mode_of : ℕ → ℕ
src_mode_of fcf = u8 (bit_and (fcf / 2 ^ 14) 0x3)

abbrev pub short_data_fcf : Bool → ℕ
short_data_fcf ack_request =
    bit_or
      (bit_or
        (bit_or (bit_or (with_flag ack_request (2 ^ 5) (bit_or 0 frame_data)) (2 ^ 6)) (2 * 2 ^ 10))
        (2 ^ 12))
      (2 * 2 ^ 14)

unfoldable pub build_short_data_frame :
    Bool → ℕ → ℕ → ℕ → ℕ → ℕ → Option (List ℕ) → ℕ → Bool → Built
build_short_data_frame out out_max pan_id dst_short src_short sequence payload payload_len
      ack_request =
    if not out || ltb (max_psdu - 9) payload_len
    then refused
    else if ltb out_max (9 + payload_len) || (ltb 0 payload_len && not (is_some payload))
    then refused
    else record {
      size = u8 (9 + payload_len);
      written =
          write_le16 (short_data_fcf ack_request)
          ++ (sequence
              ∷ (write_le16 pan_id
                  ++ (write_le16 dst_short
                      ++ (write_le16 src_short ++ take payload_len (bytes_of payload)))));
    }

-- The rest of parseShortDataFrame, with `offset` at the source address.
abbrev pub parse_source : List ℕ → ℕ → ℕ → MacDataFrame → MacDataFrame × Bool
parse_source psdu len offset frame =
    let fcf = read_le16_at psdu 0 in
    if ltb len (offset + 2) then (frame, false) else (
      record frame {
        src_short = read_le16_at psdu offset;
        valid = true;
        frame_type = type_of fcf;
        ack_request = has_bit fcf (2 ^ 5);
        pan_id_compression = has_bit fcf (2 ^ 6);
        payload = some (advance (offset + 2) psdu);
        payload_len = u8 (len - (offset + 2));
      },
      true,
    )

unfoldable pub parse_short_data_frame : Option (List ℕ) → ℕ → MacDataFrame × Bool
parse_short_data_frame none len = (no_data_frame, false)
parse_short_data_frame (some psdu) len =
    let fcf = read_le16_at psdu 0 in
    let frame : MacDataFrame = record no_data_frame {
      sequence = byte_at psdu 2;
      dst_pan_id = read_le16_at psdu 3;
      dst_short = read_le16_at psdu 5;
    } in
    if ltb len 9
    then (no_data_frame, false)
    else if not (type_of fcf == frame_data)
        || (not (dst_mode_of fcf == 2) || not (src_mode_of fcf == 2))
    then (no_data_frame, false)
    else if has_bit fcf (2 ^ 6)
    then parse_source psdu len 7 (record frame { src_pan_id = frame.dst_pan_id })
    else if ltb len 9
    then (frame, false)
    else parse_source psdu len 9 (record frame { src_pan_id = read_le16_at psdu 7 })
