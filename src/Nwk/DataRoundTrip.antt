-- ===== src/Nwk/DataRoundTrip.antt =====
-- src/ZigbeeNwk.cpp: the data and command frames of the builders, read by the parsers.
use arduino_nrf_zigbee.Prelude.{
  ℕ, zero, suc, ◌≡◌, ap, ◌∙◌, ◌+◌, ◌≤◌, true, some, List, ◌∷◌, ◌++◌, arith, length, take-length,
  IsU16,
}
use arduino_nrf_zigbee.Bytes.{Built, write_le16}
use arduino_nrf_zigbee.Bytes.RoundTrip.{le16}
use arduino_nrf_zigbee.Nwk.{frame_control}
use arduino_nrf_zigbee.Nwk.DataFrame.{no_frame, build_data_frame, parse_data_frame}
use arduino_nrf_zigbee.Nwk.CommandFrame.{no_command, build_command_frame, parse_command_frame}

abbrev header : ℕ → ℕ → ℕ → ℕ → ℕ → List ℕ → List ℕ
header fcf dst src radius sequence rest =
    write_le16 fcf ++ (write_le16 dst ++ (write_le16 src ++ (radius ∷ sequence ∷ rest)))

built_data :
    (out_max dst src radius sequence : ℕ) (payload : List ℕ) (discover : ℕ)
    → 8 + length payload ≤ out_max
    → length payload ≤ 108
    → discover ≤ 3
    → build_data_frame true out_max dst src radius sequence (some payload) (length payload) discover
      ≡ record {
        size = 8 + length payload;
        written = header (frame_control 0 discover) dst src radius sequence payload;
      }
unfolding build_data_frame
built_data out_max dst src radius sequence payload discover room small d =
    rw (take-length, build_data_frame) (ground arith)

parse-data :
    (dst src radius sequence : ℕ) (payload : List ℕ) (discover : ℕ)
    → length payload ≤ 108
    → discover ≤ 3
    → IsU16 dst
    → IsU16 src
    → parse_data_frame
        (some (header (frame_control 0 discover) dst src radius sequence payload))
        (8 + length payload)
      ≡ (
        record no_frame {
          valid = true;
          protocol_version = 2;
          discover_route = discover;
          dst_short = dst;
          src_short = src;
          radius = radius;
          sequence = sequence;
          payload = some payload;
          payload_len = length payload;
        },
        true,
      )
unfolding parse_data_frame
parse-data dst src radius sequence payload zero small d h k = ground (arith, le16 dst h, le16 src k)
parse-data dst src radius sequence payload (suc zero) small d h k =
    ground (arith, le16 dst h, le16 src k)
parse-data dst src radius sequence payload (suc (suc zero)) small d h k =
    ground (arith, le16 dst h, le16 src k)
parse-data dst src radius sequence payload (suc (suc (suc zero))) small d h k =
    ground (arith, le16 dst h, le16 src k)
parse-data dst src radius sequence payload (suc (suc (suc (suc n)))) small d h k =
    absurd (omega arith)

-- A NWK data frame with at most 108 bytes of payload, built into a buffer with room for it, parses as
-- the frame that was asked for, with the payload byte for byte.
pub nwk_data_round_trip :
    (out_max dst_short src_short radius sequence : ℕ) (payload : List ℕ) (discover_route : ℕ)
    → 8 + length payload ≤ out_max
    → length payload ≤ 108
    → discover_route ≤ 3
    → IsU16 dst_short
    → IsU16 src_short
    → let b =
        build_data_frame true out_max dst_short src_short radius sequence
          (some payload)
          (length payload)
          discover_route in
      parse_data_frame (some b.written) b.size ≡ (
        record no_frame {
          valid = true;
          protocol_version = 2;
          discover_route = discover_route;
          dst_short = dst_short;
          src_short = src_short;
          radius = radius;
          sequence = sequence;
          payload = some payload;
          payload_len = length payload;
        },
        true,
      )
nwk_data_round_trip out_max dst src radius sequence payload discover room small d h k =
    ap (λ (b : Built). parse_data_frame (some b.written) b.size)
      (built_data out_max dst src radius sequence payload discover room small d)
    ∙ parse-data dst src radius sequence payload discover small d h k

built_command :
    (out_max dst src radius sequence command : ℕ) (payload : List ℕ) (discover : ℕ)
    → 9 + length payload ≤ out_max
    → length payload ≤ 107
    → discover ≤ 3
    → build_command_frame true out_max dst src radius sequence command
        (some payload)
        (length payload)
        discover
      ≡ record {
        size = 9 + length payload;
        written = header (frame_control 1 discover) dst src radius sequence (command ∷ payload);
      }
unfolding build_command_frame
built_command out_max dst src radius sequence command payload discover room small d =
    rw (take-length, build_command_frame) (ground arith)

parse-command :
    (dst src radius sequence command : ℕ) (payload : List ℕ) (discover : ℕ)
    → length payload ≤ 107
    → discover ≤ 3
    → IsU16 dst
    → IsU16 src
    → parse_command_frame
        (some (header (frame_control 1 discover) dst src radius sequence (command ∷ payload)))
        (9 + length payload)
      ≡ (
        record no_command {
          valid = true;
          frame_type = 1;
          protocol_version = 2;
          discover_route = discover;
          dst_short = dst;
          src_short = src;
          radius = radius;
          sequence = sequence;
          command_id = command;
          payload = some payload;
          payload_len = length payload;
        },
        true,
      )
unfolding parse_command_frame
parse-command dst src radius sequence command payload zero small d h k =
    ground (arith, le16 dst h, le16 src k)
parse-command dst src radius sequence command payload (suc zero) small d h k =
    ground (arith, le16 dst h, le16 src k)
parse-command dst src radius sequence command payload (suc (suc zero)) small d h k =
    ground (arith, le16 dst h, le16 src k)
parse-command dst src radius sequence command payload (suc (suc (suc zero))) small d h k =
    ground (arith, le16 dst h, le16 src k)
parse-command dst src radius sequence command payload (suc (suc (suc (suc n)))) small d h k =
    absurd (omega arith)

-- A NWK command frame with at most 107 bytes of payload, built into a buffer with room for it, parses
-- as the command that was asked for, with the payload byte for byte.
pub nwk_command_round_trip :
    (out_max dst_short src_short radius sequence command_id : ℕ) (payload : List ℕ)
    (discover_route : ℕ)
    → 9 + length payload ≤ out_max
    → length payload ≤ 107
    → discover_route ≤ 3
    → IsU16 dst_short
    → IsU16 src_short
    → let b =
        build_command_frame true out_max dst_short src_short radius sequence command_id
          (some payload)
          (length payload)
          discover_route in
      parse_command_frame (some b.written) b.size ≡ (
        record no_command {
          valid = true;
          frame_type = 1;
          protocol_version = 2;
          discover_route = discover_route;
          dst_short = dst_short;
          src_short = src_short;
          radius = radius;
          sequence = sequence;
          command_id = command_id;
          payload = some payload;
          payload_len = length payload;
        },
        true,
      )
nwk_command_round_trip out_max dst src radius sequence command payload discover room small d h k =
    ap (λ (b : Built). parse_command_frame (some b.written) b.size)
      (built_command out_max dst src radius sequence command payload discover room small d)
    ∙ parse-command dst src radius sequence command payload discover small d h k
