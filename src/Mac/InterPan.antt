-- ===== src/Mac/InterPan.antt =====
-- src/ZigbeeMac.cpp: inter-PAN data frames, whose source address is extended.
use Prim.Native.Nat.{bit_and, bit_or}
use arduino_nrf_zigbee.Prelude.{
  ℕ, ◌+◌, ◌-◌, ◌*◌, ◌^◌, Bool, true, false, not, ◌&&◌, ◌||◌, Option, none, some, List, ◌∷◌, ◌++◌,
  if◌then◌else◌, ltb, ◌==◌, is_some, take, u8,
}
use arduino_nrf_zigbee.Bytes.{
  Built, refused, byte_at, advance, read_le16_at, write_le16, read_le64, write_le64, has_bit,
  bytes_of,
}
use arduino_nrf_zigbee.Mac.{
  frame_data, addr_short, addr_extended, max_psdu, with_flag, type_of, dst_mode_of, src_mode_of,
}

pub record MacInterPanFrame : Type 0 where
  pub valid : Bool
  pub sequence : ℕ
  pub ack_request : Bool
  pub dst_addr_mode : ℕ
  pub dst_pan_id : ℕ
  pub dst_short : ℕ
  pub dst_ieee : ℕ
  pub src_pan_id : ℕ
  pub src_ieee : ℕ
  pub payload : Option (List ℕ)
  pub payload_len : ℕ

abbrev pub no_inter_pan : MacInterPanFrame
no_inter_pan = record {
  valid = false;
  sequence = 0;
  ack_request = false;
  dst_addr_mode = 0;
  dst_pan_id = 0;
  dst_short = 0;
  dst_ieee = 0;
  src_pan_id = 0;
  src_ieee = 0;
  payload = none;
  payload_len = 0;
}

abbrev pub inter_pan_fcf : Bool → ℕ → ℕ
inter_pan_fcf ack_request dst_addr_mode =
    bit_or
      (bit_or (with_flag ack_request (2 ^ 5) (bit_or 0 frame_data))
        (bit_and dst_addr_mode 0x3 * 2 ^ 10))
      (addr_extended * 2 ^ 14)

unfoldable pub build_inter_pan_frame :
    Bool → ℕ → ℕ → ℕ → ℕ → ℕ → ℕ → ℕ → ℕ → Option (List ℕ) → ℕ → Bool → Built
build_inter_pan_frame out out_max dst_addr_mode dst_pan_id dst_short dst_ieee src_pan_id src_ieee
      sequence payload payload_len ack_request =
    let dst_addr_len = if dst_addr_mode == addr_extended then 8 else 2 in
    let header_len = u8 (2 + 1 + 2 + dst_addr_len + 2 + 8) in
    if not out || (not (dst_addr_mode == addr_short) && not (dst_addr_mode == addr_extended))
    then refused
    else if ltb (max_psdu - header_len) payload_len
    then refused
    else if ltb out_max (header_len + payload_len) || (ltb 0 payload_len && not (is_some payload))
    then refused
    else record {
      size = u8 (header_len + payload_len);
      written =
          write_le16 (inter_pan_fcf ack_request dst_addr_mode)
          ++ (sequence
              ∷ (write_le16 dst_pan_id
                  ++ ((if dst_addr_mode == addr_short
                        then write_le16 dst_short
                        else write_le64 dst_ieee)
                      ++ (write_le16 src_pan_id
                          ++ (write_le64 src_ieee ++ take payload_len (bytes_of payload))))));
    }

-- The rest of parseInterPanFrame, with `offset` at the source PAN id.
abbrev pub parse_inter_pan_source : List ℕ → ℕ → ℕ → MacInterPanFrame → MacInterPanFrame × Bool
parse_inter_pan_source psdu len offset frame =
    let f : MacInterPanFrame = record frame { src_pan_id = read_le16_at psdu offset } in
    if ltb len (offset + 2) then (frame, false) else if ltb len (offset + 10) then (f, false) else (
      record f {
        src_ieee = read_le64 (advance (offset + 2) psdu);
        valid = true;
        ack_request = has_bit (read_le16_at psdu 0) (2 ^ 5);
        payload = some (advance (offset + 10) psdu);
        payload_len = u8 (len - (offset + 10));
      },
      true,
    )

unfoldable pub parse_inter_pan_frame : Option (List ℕ) → ℕ → MacInterPanFrame × Bool
parse_inter_pan_frame none len = (no_inter_pan, false)
parse_inter_pan_frame (some psdu) len =
    let fcf = read_le16_at psdu 0 in
    let dst_mode = dst_mode_of fcf in
    let frame : MacInterPanFrame = record no_inter_pan {
      sequence = byte_at psdu 2;
      dst_pan_id = read_le16_at psdu 3;
      dst_addr_mode = dst_mode;
    } in
    if ltb len 5
    then (no_inter_pan, false)
    else if not (type_of fcf == frame_data)
        || (not (src_mode_of fcf == addr_extended) || has_bit fcf (2 ^ 6))
    then (no_inter_pan, false)
    else if not (dst_mode == addr_short) && not (dst_mode == addr_extended)
    then (no_inter_pan, false)
    else if dst_mode == addr_short
    then if ltb len 7
      then (frame, false)
      else parse_inter_pan_source psdu len 7 (record frame { dst_short = read_le16_at psdu 5 })
    else if ltb len 13
    then (frame, false)
    else parse_inter_pan_source psdu len 13 (record frame { dst_ieee = read_le64 (advance 5 psdu) })
