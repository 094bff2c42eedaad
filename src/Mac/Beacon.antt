-- ===== src/Mac/Beacon.antt =====
-- src/ZigbeeMac.cpp: beacons of a PAN without beacon order, and the parser of any beacon.
use Prim.Native.Nat.{bit_and, bit_or}
use arduino_nrf_zigbee.Prelude.{
  ℕ, ◌+◌, ◌-◌, ◌*◌, ◌/◌, ◌^◌, Bool, true, false, not, ◌&&◌, ◌||◌, Option, none, some, List, ◌∷◌,
  ◌++◌, if◌then◌else◌, ltb, ◌==◌, is_some, take, u8,
}
use arduino_nrf_zigbee.Bytes.{
  Built, refused, byte_at, advance, read_le16_at, write_le16, has_bit, bytes_of,
}
use arduino_nrf_zigbee.Mac.{
  frame_beacon, addr_none, addr_short, max_psdu, with_flag, type_of, dst_mode_of, src_mode_of,
}

pub record MacBeaconFrame : Type 0 where
  pub valid : Bool
  pub sequence : ℕ
  pub src_pan_id : ℕ
  pub src_short : ℕ
  pub pan_coordinator : Bool
  pub association_permit : Bool
  pub payload : Option (List ℕ)
  pub payload_len : ℕ

abbrev pub no_beacon : MacBeaconFrame
no_beacon = record {
  valid = false;
  sequence = 0;
  src_pan_id = 0;
  src_short = 0;
  pan_coordinator = false;
  association_permit = false;
  payload = none;
  payload_len = 0;
}

abbrev pub superframe_of : Bool → Bool → ℕ
superframe_of pan_coordinator association_permit =
    with_flag association_permit (2 ^ 15) (with_flag pan_coordinator (2 ^ 14) 0x0FFF)

unfoldable pub build_beacon : Bool → ℕ → ℕ → ℕ → ℕ → Bool → Bool → Option (List ℕ) → ℕ → Built
build_beacon out out_max src_pan_id src_short sequence pan_coordinator association_permit payload
      payload_len =
    if not out || ltb (max_psdu - 11) payload_len
    then refused
    else if ltb out_max (11 + payload_len) || (ltb 0 payload_len && not (is_some payload))
    then refused
    else record {
      size = u8 (11 + payload_len);
      written =
          write_le16 (bit_or (bit_or 0 frame_beacon) (addr_short * 2 ^ 14))
          ++ (sequence
              ∷ (write_le16 src_pan_id
                  ++ (write_le16 src_short
                      ++ (write_le16 (superframe_of pan_coordinator association_permit)
                          ++ (0 ∷ 0 ∷ take payload_len (bytes_of payload))))));
    }

-- The rest of parseBeacon, with `offset` at the pending address spec.
abbrev pub parse_pending : List ℕ → ℕ → ℕ → MacBeaconFrame → MacBeaconFrame × Bool
parse_pending psdu len offset frame =
    let pending = byte_at psdu offset in
    let pending_bytes = u8 (2 * bit_and pending 0x07 + 8 * bit_and (pending / 2 ^ 4) 0x07) in
    if ltb len (offset + 1)
    then (frame, false)
    else if ltb len (offset + 1 + pending_bytes)
    then (frame, false)
    else (
      record frame {
        valid = true;
        payload = some (advance (offset + 1 + pending_bytes) psdu);
        payload_len = u8 (len - (offset + 1 + pending_bytes));
      },
      true,
    )

unfoldable pub parse_beacon : Option (List ℕ) → ℕ → MacBeaconFrame × Bool
parse_beacon none len = (no_beacon, false)
parse_beacon (some psdu) len =
    let fcf = read_le16_at psdu 0 in
    let superframe = read_le16_at psdu 7 in
    let gts_count = u8 (bit_and (byte_at psdu 9) 0x07) in
    let gts_bytes = u8 (1 + 3 * gts_count) in
    let frame : MacBeaconFrame = record no_beacon {
      sequence = byte_at psdu 2;
      src_pan_id = read_le16_at psdu 3;
      src_short = read_le16_at psdu 5;
      pan_coordinator = has_bit superframe (2 ^ 14);
      association_permit = has_bit superframe (2 ^ 15);
    } in
    if ltb len 11
    then (no_beacon, false)
    else if not (type_of fcf == frame_beacon)
        || (not (dst_mode_of fcf == addr_none) || not (src_mode_of fcf == addr_short))
    then (no_beacon, false)
    else if ltb 0 gts_count
    then if ltb len (10 + gts_bytes)
      then (frame, false)
      else parse_pending psdu len (10 + gts_bytes) frame
    else parse_pending psdu len 10 frame
