-- ===== src/Mac/DataRoundTrip.antt =====
-- src/ZigbeeMac.cpp: the data frames and beacons of the builders, parsed.
use arduino_nrf_zigbee.Prelude.{
  ℕ, ◌≡◌, ap, ◌∙◌, ◌+◌, ◌≤◌, Bool, true, false, some, List, ◌∷◌, ◌++◌, arith, length, take-length,
  IsU16, if◌then◌else◌,
}
use arduino_nrf_zigbee.Bytes.{Built, write_le16}
use arduino_nrf_zigbee.Bytes.RoundTrip.{le16}
use arduino_nrf_zigbee.Mac.{build_short_data_frame, parse_short_data_frame}
use arduino_nrf_zigbee.Mac.Beacon.{build_beacon, parse_beacon}

abbrev data_bytes : Bool → ℕ → ℕ → ℕ → ℕ → List ℕ → List ℕ
data_bytes ack pan dst src sequence payload =
    (if ack then 0x61 else 0x41)
    ∷ 0x98
    ∷ sequence
    ∷ (write_le16 pan ++ (write_le16 dst ++ (write_le16 src ++ payload)))

built_data :
    (out_max pan dst src sequence : ℕ) (payload : List ℕ) (ack : Bool)
    → 9 + length payload ≤ out_max
    → length payload ≤ 116
    → build_short_data_frame true out_max pan dst src sequence (some payload) (length payload) ack
      ≡ record { size = 9 + length payload; written = data_bytes ack pan dst src sequence payload }
unfolding build_short_data_frame
built_data out_max pan dst src sequence payload true room small =
    rw (take-length, build_short_data_frame) (ground arith)
built_data out_max pan dst src sequence payload false room small =
    rw (take-length, build_short_data_frame) (ground arith)

-- A MAC data frame, built with a payload of at most 116 bytes into a buffer with room for it, parses as the
-- frame that was asked for, in the PAN of both addresses and with its payload byte for byte.
pub mac_data_round_trip :
    (out_max pan_id dst_short src_short sequence : ℕ) (payload : List ℕ) (ack_request : Bool)
    → 9 + length payload ≤ out_max
    → length payload ≤ 116
    → IsU16 pan_id
    → IsU16 dst_short
    → IsU16 src_short
    → let b =
        build_short_data_frame true out_max pan_id dst_short src_short sequence
          (some payload)
          (length payload)
          ack_request in
      parse_short_data_frame (some b.written) b.size ≡ (
        record {
          valid = true;
          frame_type = 1;
          sequence = sequence;
          ack_request = ack_request;
          pan_id_compression = true;
          dst_pan_id = pan_id;
          dst_short = dst_short;
          src_pan_id = pan_id;
          src_short = src_short;
          payload = some payload;
          payload_len = length payload;
        },
        true,
      )
unfolding parse_short_data_frame
mac_data_round_trip out_max pan dst src sequence payload ack room small p d s =
    ap (λ (b : Built). parse_short_data_frame (some b.written) b.size)
      (built_data out_max pan dst src sequence payload ack room small)
    ∙ parsed ack
  where
    parsed :
        (ack : Bool)
        → parse_short_data_frame
            (some (data_bytes ack pan dst src sequence payload))
            (9 + length payload)
          ≡ (
            record {
              valid = true;
              frame_type = 1;
              sequence = sequence;
              ack_request = ack;
              pan_id_compression = true;
              dst_pan_id = pan;
              dst_short = dst;
              src_pan_id = pan;
              src_short = src;
              payload = some payload;
              payload_len = length payload;
            },
            true,
          )
    parsed true = ground (arith, le16 pan p, le16 dst d, le16 src s)
    parsed false = ground (arith, le16 pan p, le16 dst d, le16 src s)

abbrev beacon_bytes : ℕ → ℕ → ℕ → Bool → Bool → List ℕ → List ℕ
beacon_bytes pan src sequence coordinator permit payload =
    0x00
    ∷ 0x80
    ∷ sequence
    ∷ (write_le16 pan
        ++ (write_le16 src
            ++ (0xFF
                ∷ (0x0F + (if coordinator then 0x40 else 0) + (if permit then 0x80 else 0))
                ∷ 0
                ∷ 0
                ∷ payload)))

built_beacon :
    (out_max pan src sequence : ℕ) (coordinator permit : Bool) (payload : List ℕ)
    → 11 + length payload ≤ out_max
    → length payload ≤ 114
    → build_beacon true out_max pan src sequence coordinator permit (some payload) (length payload)
      ≡ record {
        size = 11 + length payload;
        written = beacon_bytes pan src sequence coordinator permit payload;
      }
unfolding build_beacon
built_beacon out_max pan src sequence true true payload room small =
    rw (take-length, build_beacon) (ground arith)
built_beacon out_max pan src sequence true false payload room small =
    rw (take-length, build_beacon) (ground arith)
built_beacon out_max pan src sequence false true payload room small =
    rw (take-length, build_beacon) (ground arith)
built_beacon out_max pan src sequence false false payload room small =
    rw (take-length, build_beacon) (ground arith)

-- A beacon, built with a payload of at most 114 bytes into a buffer with room for it, parses as the beacon
-- that was asked for, with its payload byte for byte.
pub beacon_round_trip :
    (out_max src_pan_id src_short sequence : ℕ) (pan_coordinator association_permit : Bool)
    (payload : List ℕ)
    → 11 + length payload ≤ out_max
    → length payload ≤ 114
    → IsU16 src_pan_id
    → IsU16 src_short
    → let b =
        build_beacon true out_max src_pan_id src_short sequence pan_coordinator association_permit
          (some payload)
          (length payload) in
      parse_beacon (some b.written) b.size ≡ (
        record {
          valid = true;
          sequence = sequence;
          src_pan_id = src_pan_id;
          src_short = src_short;
          pan_coordinator = pan_coordinator;
          association_permit = association_permit;
          payload = some payload;
          payload_len = length payload;
        },
        true,
      )
unfolding parse_beacon
beacon_round_trip out_max pan src sequence coordinator permit payload room small p s =
    ap (λ (b : Built). parse_beacon (some b.written) b.size)
      (built_beacon out_max pan src sequence coordinator permit payload room small)
    ∙ parsed coordinator permit
  where
    parsed :
        (coordinator permit : Bool)
        → parse_beacon
            (some (beacon_bytes pan src sequence coordinator permit payload))
            (11 + length payload)
          ≡ (
            record {
              valid = true;
              sequence = sequence;
              src_pan_id = pan;
              src_short = src;
              pan_coordinator = coordinator;
              association_permit = permit;
              payload = some payload;
              payload_len = length payload;
            },
            true,
          )
    parsed true true = ground (arith, le16 pan p, le16 src s)
    parsed true false = ground (arith, le16 pan p, le16 src s)
    parsed false true = ground (arith, le16 pan p, le16 src s)
    parsed false false = ground (arith, le16 pan p, le16 src s)
