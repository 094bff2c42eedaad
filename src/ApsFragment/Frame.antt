-- ===== src/ApsFragment/Frame.antt =====
-- src/ZigbeeApsFragment.h: the frames of buildFragment, read by parseFragment.
use arduino_nrf_zigbee.Prelude.{
  ℕ, ◌≡◌, ap, ◌∙◌, ◌+◌, ◌≤◌, Bool, true, false, some, List, ◌∷◌, ◌++◌, arith, if◌then◌else◌, length,
  take-length, IsU16,
}
use arduino_nrf_zigbee.Bytes.{Built, write_le16}
use arduino_nrf_zigbee.Bytes.RoundTrip.{le16}
use arduino_nrf_zigbee.ApsFragment.{build_fragment, parse_fragment}

abbrev pub fragment_bytes : ℕ → ℕ → ℕ → ℕ → ℕ → Bool → ℕ → List ℕ → Bool → List ℕ
fragment_bytes dst cluster profile src counter first number block ack =
    (if ack then 0xc0 else 0x80)
    ∷ dst
    ∷ (write_le16 cluster
        ++ (write_le16 profile ++ (src ∷ counter ∷ (if first then 1 else 2) ∷ number ∷ block)))

pub built_fragment :
    (out_max dst cluster profile src counter : ℕ) (first : Bool) (number : ℕ) (block : List ℕ)
    (ack : Bool)
    → 10 + length block ≤ out_max
    → out_max ≤ 255
    → build_fragment true out_max dst cluster profile src counter first number
        (some block)
        (length block)
        ack
      ≡ record {
        size = 10 + length block;
        written = fragment_bytes dst cluster profile src counter first number block ack;
      }
unfolding build_fragment
built_fragment out_max dst cluster profile src counter first number block true room byte =
    rw (take-length, build_fragment) (ground arith)
built_fragment out_max dst cluster profile src counter first number block false room byte =
    rw (take-length, build_fragment) (ground arith)

pub parse-fragment_bytes :
    (dst cluster profile src counter : ℕ) (first : Bool) (number : ℕ) (block : List ℕ) (ack : Bool)
    → 10 + length block ≤ 255
    → IsU16 cluster
    → IsU16 profile
    → parse_fragment
        (some (fragment_bytes dst cluster profile src counter first number block ack))
        (10 + length block)
      ≡ (
        record {
          valid = true;
          frame_type = 0;
          delivery_mode = 0;
          ack_request = ack;
          dst_endpoint = dst;
          cluster_id = cluster;
          profile_id = profile;
          src_endpoint = src;
          counter = counter;
          first_block = first;
          block_number = number;
          payload = some block;
          payload_len = length block;
        },
        true,
      )
unfolding parse_fragment
parse-fragment_bytes dst cluster profile src counter true number block true small c p =
    ground (arith, le16 cluster c, le16 profile p)
parse-fragment_bytes dst cluster profile src counter true number block false small c p =
    ground (arith, le16 cluster c, le16 profile p)
parse-fragment_bytes dst cluster profile src counter false number block true small c p =
    ground (arith, le16 cluster c, le16 profile p)
parse-fragment_bytes dst cluster profile src counter false number block false small c p =
    ground (arith, le16 cluster c, le16 profile p)

-- A fragment, built into a buffer of at most 255 bytes with room for it, parses as the fragment that
-- was asked for, with its block byte for byte.
pub fragment_round_trip :
    (out_max dst_endpoint cluster_id profile_id src_endpoint counter : ℕ) (first_block : Bool)
    (block_number : ℕ) (block : List ℕ) (ack_request : Bool)
    → 10 + length block ≤ out_max
    → out_max ≤ 255
    → IsU16 cluster_id
    → IsU16 profile_id
    → let b =
        build_fragment true out_max dst_endpoint cluster_id profile_id src_endpoint counter
          first_block block_number
          (some block)
          (length block)
          ack_request in
      parse_fragment (some b.written) b.size ≡ (
        record {
          valid = true;
          frame_type = 0;
          delivery_mode = 0;
          ack_request = ack_request;
          dst_endpoint = dst_endpoint;
          cluster_id = cluster_id;
          profile_id = profile_id;
          src_endpoint = src_endpoint;
          counter = counter;
          first_block = first_block;
          block_number = block_number;
          payload = some block;
          payload_len = length block;
        },
        true,
      )
fragment_round_trip out_max dst cluster profile src counter first number block ack room byte c p =
    ap (λ (b : Built). parse_fragment (some b.written) b.size)
      (built_fragment out_max dst cluster profile src counter first number block ack room byte)
    ∙ parse-fragment_bytes dst cluster profile src counter first number block ack (omega arith) c p
