-- ===== src/Mac/Command.antt =====
-- src/ZigbeeMac.cpp: MAC commands, association and the polls of a sleepy child among them.
use Prim.Native.Nat.{bit_or}
use arduino_nrf_zigbee.Prelude.{
  ℕ, ◌+◌, ◌-◌, ◌*◌, ◌^◌, Bool, true, false, not, ◌||◌, Option, none, some, List, [], ◌∷◌, ◌++◌,
  if◌then◌else◌, ltb, ◌==◌, u8,
}
use arduino_nrf_zigbee.Bytes.{
  Built, refused, byte_at, advance, read_le16_at, write_le16, read_le64, write_le64, has_bit,
  bytes_of,
}
use arduino_nrf_zigbee.Mac.{
  frame_command, addr_none, addr_short, addr_extended, with_flag, type_of, dst_mode_of, src_mode_of,
}

abbrev pub cmd_association_request : ℕ
cmd_association_request = 0x01

abbrev pub cmd_association_response : ℕ
cmd_association_response = 0x02

abbrev pub cmd_data_request : ℕ
cmd_data_request = 0x04

abbrev pub cmd_beacon_request : ℕ
cmd_beacon_request = 0x07

abbrev pub broadcast_pan : ℕ
broadcast_pan = 0xFFFF

abbrev pub broadcast_short : ℕ
broadcast_short = 0xFFFF

pub record MacCommandFrame : Type 0 where
  pub valid : Bool
  pub frame_type : ℕ
  pub sequence : ℕ
  pub ack_request : Bool
  pub pan_id_compression : Bool
  pub dst_addr_mode : ℕ
  pub src_addr_mode : ℕ
  pub dst_pan_id : ℕ
  pub dst_short : ℕ
  pub dst_ieee : ℕ
  pub src_pan_id : ℕ
  pub src_short : ℕ
  pub src_ieee : ℕ
  pub command_id : ℕ
  pub payload : Option (List ℕ)
  pub payload_len : ℕ

abbrev pub no_command : MacCommandFrame
no_command = record {
  valid = false;
  frame_type = 0;
  sequence = 0;
  ack_request = false;
  pan_id_compression = false;
  dst_addr_mode = 0;
  src_addr_mode = 0;
  dst_pan_id = 0;
  dst_short = 0;
  dst_ieee = 0;
  src_pan_id = 0;
  src_short = 0;
  src_ieee = 0;
  command_id = 0;
  payload = none;
  payload_len = 0;
}

pub record MacAssociationRequest : Type 0 where
  pub valid : Bool
  pub capability : ℕ
  pub allocate_address : Bool
  pub receiver_on_when_idle : Bool
  pub full_function_device : Bool

abbrev pub no_request : MacAssociationRequest
no_request = record {
  valid = false;
  capability = 0;
  allocate_address = false;
  receiver_on_when_idle = false;
  full_function_device = false;
}

pub record MacAssociationResponse : Type 0 where
  pub valid : Bool
  pub short_address : ℕ
  pub status : ℕ

abbrev pub no_response : MacAssociationResponse
no_response = record { valid = false; short_address = 0; status = 0 }

-- The frame control of the association commands, by the modes of their addresses.
abbrev pub association_fcf : Bool → ℕ → ℕ → ℕ
association_fcf ack_request dst_mode src_mode =
    bit_or
      (bit_or
        (bit_or (bit_or (with_flag ack_request (2 ^ 5) (bit_or 0 frame_command)) (2 ^ 6))
          (dst_mode * 2 ^ 10))
        (2 ^ 12))
      (src_mode * 2 ^ 14)

unfoldable pub build_association_request : Bool → ℕ → ℕ → ℕ → ℕ → ℕ → ℕ → Bool → Built
build_association_request out out_max pan_id coord_short src_ieee sequence capability ack_request =
    if not out || ltb out_max 17 then refused else record {
      size = 17;
      written =
          write_le16 (association_fcf ack_request addr_short addr_extended)
          ++ (sequence
              ∷ (write_le16 pan_id
                  ++ (write_le16 coord_short
                      ++ (write_le64 src_ieee ++ (cmd_association_request ∷ capability ∷ [])))));
    }

unfoldable pub build_association_response : Bool → ℕ → ℕ → ℕ → ℕ → ℕ → ℕ → ℕ → Bool → Built
build_association_response out out_max pan_id dst_ieee src_short sequence assigned_short status
      ack_request =
    if not out || ltb out_max 19 then refused else record {
      size = 19;
      written =
          write_le16 (association_fcf ack_request addr_extended addr_short)
          ++ (sequence
              ∷ (write_le16 pan_id
                  ++ (write_le64 dst_ieee
                      ++ (write_le16 src_short
                          ++ (cmd_association_response
                              ∷ (write_le16 assigned_short ++ (status ∷ [])))))));
    }

-- The blocks of parseCommandFrame give the frame and the offset after them, and whether they went on.
abbrev pub read_destination : List ℕ → ℕ → ℕ → MacCommandFrame → MacCommandFrame × ℕ × Bool
read_destination psdu len mode frame =
    let f : MacCommandFrame = record frame { dst_pan_id = read_le16_at psdu 3 } in
    if mode == addr_none
    then (frame, 3, true)
    else if ltb len 5
    then (frame, 3, false)
    else if mode == addr_short
    then if ltb len 7
      then (f, 5, false)
      else (record f { dst_short = read_le16_at psdu 5 }, 7, true)
    else if mode == addr_extended
    then if ltb len 13
      then (f, 5, false)
      else (record f { dst_ieee = read_le64 (advance 5 psdu) }, 13, true)
    else (f, 5, false)

abbrev pub read_source_address : List ℕ → ℕ → ℕ → MacCommandFrame → ℕ → MacCommandFrame × ℕ × Bool
read_source_address psdu len mode frame offset =
    if mode == addr_short
    then if ltb len (offset + 2)
      then (frame, offset, false)
      else (record frame { src_short = read_le16_at psdu offset }, offset + 2, true)
    else if mode == addr_extended
    then if ltb len (offset + 8)
      then (frame, offset, false)
      else (record frame { src_ieee = read_le64 (advance offset psdu) }, offset + 8, true)
    else (frame, offset, false)

abbrev pub read_source : List ℕ → ℕ → ℕ → Bool → MacCommandFrame → ℕ → MacCommandFrame × ℕ × Bool
read_source psdu len mode compressed frame offset =
    if mode == addr_none
    then (frame, offset, true)
    else if compressed
    then read_source_address psdu len mode (record frame { src_pan_id = frame.dst_pan_id }) offset
    else if ltb len (offset + 2)
    then (frame, offset, false)
    else read_source_address psdu len mode (record frame { src_pan_id = read_le16_at psdu offset })
        (offset + 2)

unfoldable pub parse_command_frame : Option (List ℕ) → ℕ → MacCommandFrame × Bool
parse_command_frame none len = (no_command, false)
parse_command_frame (some psdu) len =
    let fcf = read_le16_at psdu 0 in
    let compressed = has_bit fcf (2 ^ 6) in
    let start : MacCommandFrame = record no_command {
      sequence = byte_at psdu 2;
      dst_addr_mode = dst_mode_of fcf;
      src_addr_mode = src_mode_of fcf;
    } in
    let (to, at, has_dst) = read_destination psdu len (dst_mode_of fcf) start in
    let (both, end, has_src) = read_source psdu len (src_mode_of fcf) compressed to at in
    if ltb len 4
    then (no_command, false)
    else if not (type_of fcf == frame_command)
    then (no_command, false)
    else if not has_dst
    then (to, false)
    else if not has_src
    then (both, false)
    else if ltb len (end + 1)
    then (both, false)
    else (
      record both {
        command_id = byte_at psdu end;
        valid = true;
        frame_type = type_of fcf;
        ack_request = has_bit fcf (2 ^ 5);
        pan_id_compression = compressed;
        payload = some (advance (end + 1) psdu);
        payload_len = u8 (len - (end + 1));
      },
      true,
    )

unfoldable pub build_beacon_request : Bool → ℕ → ℕ → Built
build_beacon_request out out_max sequence = if not out || ltb out_max 8 then refused else record {
  size = 8;
  written =
      write_le16
        (bit_or (bit_or (bit_or 0 frame_command) (addr_short * 2 ^ 10)) (addr_none * 2 ^ 14))
      ++ (sequence
          ∷ (write_le16 broadcast_pan
              ++ (write_le16 broadcast_short ++ (cmd_beacon_request ∷ []))));
}

abbrev pub data_request_fcf : ℕ
data_request_fcf =
    bit_or (bit_or (bit_or (bit_or (bit_or 0 frame_command) (2 ^ 5)) (2 ^ 6)) (addr_short * 2 ^ 10))
      (addr_short * 2 ^ 14)

unfoldable pub build_data_request : Bool → ℕ → ℕ → ℕ → ℕ → ℕ → Built
build_data_request out out_max pan_id parent_short child_short sequence =
    if not out || ltb out_max 10 then refused else record {
      size = 10;
      written =
          write_le16 data_request_fcf
          ++ (sequence
              ∷ (write_le16 pan_id
                  ++ (write_le16 parent_short
                      ++ (write_le16 child_short ++ (cmd_data_request ∷ [])))));
    }

unfoldable pub parse_association_request : MacCommandFrame → MacAssociationRequest × Bool
parse_association_request frame =
    let capability = byte_at (bytes_of frame.payload) 0 in
    if not frame.valid
      || (not (frame.command_id == cmd_association_request) || ltb frame.payload_len 1)
    then (no_request, false)
    else (
      record {
        valid = true;
        capability = capability;
        allocate_address = has_bit capability 0x80;
        receiver_on_when_idle = has_bit capability 0x08;
        full_function_device = has_bit capability 0x02;
      },
      true,
    )

unfoldable pub parse_association_response : MacCommandFrame → MacAssociationResponse × Bool
parse_association_response frame =
    let payload = bytes_of frame.payload in
    if not frame.valid
      || (not (frame.command_id == cmd_association_response) || ltb frame.payload_len 3)
    then (no_response, false)
    else (
      record { valid = true; short_address = read_le16_at payload 0; status = byte_at payload 2 },
      true,
    )
