-- ===== src/Aps/RoundTrip.antt =====
-- src/ZigbeeAps.cpp: the frames of the builders, read by the parsers.
use arduino_nrf_zigbee.Prelude.{
  ℕ, ◌≡◌, ap, ◌∙◌, ◌+◌, ◌≤◌, Bool, true, false, some, List, ◌∷◌, ◌++◌, arith, if◌then◌else◌, length,
  IsU16, take-length,
}
use arduino_nrf_zigbee.Bytes.{Built, write_le16}
use arduino_nrf_zigbee.Bytes.RoundTrip.{le16}
use arduino_nrf_zigbee.Aps.{
  no_data_frame, delivery_group, build_data_frame, build_group_data_frame, build_ack_frame,
  parse_ack_frame, parse_data_frame,
}

-- An ack frame, built into a buffer of at least 8 bytes, parses as the ack that was asked for.
pub ack_round_trip :
    (out_max dst_endpoint cluster_id profile_id src_endpoint counter : ℕ)
    → 8 ≤ out_max
    → IsU16 cluster_id
    → IsU16 profile_id
    → let b =
        build_ack_frame true out_max dst_endpoint cluster_id profile_id src_endpoint counter in
      parse_ack_frame (some b.written) b.size ≡ (
        record {
          valid = true;
          dst_endpoint = dst_endpoint;
          cluster_id = cluster_id;
          profile_id = profile_id;
          src_endpoint = src_endpoint;
          counter = counter;
        },
        true,
      )
unfolding build_ack_frame parse_ack_frame
ack_round_trip out_max dst cluster profile src counter room c p =
    ground (arith, le16 cluster c, le16 profile p)

abbrev data_bytes : ℕ → ℕ → ℕ → ℕ → ℕ → List ℕ → Bool → List ℕ
data_bytes dst cluster profile src counter payload ack =
    (if ack then 0x40 else 0)
    ∷ dst
    ∷ (write_le16 cluster ++ (write_le16 profile ++ (src ∷ counter ∷ payload)))

built_data :
    (out_max dst cluster profile src counter : ℕ) (payload : List ℕ) (ack : Bool)
    → 8 + length payload ≤ out_max
    → length payload ≤ 100
    → build_data_frame true out_max dst cluster profile src counter
        (some payload)
        (length payload)
        ack
      ≡ record {
        size = 8 + length payload;
        written = data_bytes dst cluster profile src counter payload ack;
      }
unfolding build_data_frame
built_data out_max dst cluster profile src counter payload true room small =
    rw (take-length, build_data_frame) (ground arith)
built_data out_max dst cluster profile src counter payload false room small =
    rw (take-length, build_data_frame) (ground arith)

parse-data_bytes :
    (dst cluster profile src counter : ℕ) (payload : List ℕ) (ack : Bool)
    → length payload ≤ 100
    → IsU16 cluster
    → IsU16 profile
    → parse_data_frame
        (some (data_bytes dst cluster profile src counter payload ack))
        (8 + length payload)
      ≡ (
        record no_data_frame {
          valid = true;
          ack_request = ack;
          dst_endpoint = dst;
          cluster_id = cluster;
          profile_id = profile;
          src_endpoint = src;
          counter = counter;
          payload = some payload;
          payload_len = length payload;
        },
        true,
      )
unfolding parse_data_frame
parse-data_bytes dst cluster profile src counter payload true small c p =
    ground (arith, le16 cluster c, le16 profile p)
parse-data_bytes dst cluster profile src counter payload false small c p =
    ground (arith, le16 cluster c, le16 profile p)

-- A unicast data frame with at most 100 bytes of payload, built into a buffer with room for it, parses
-- as the frame that was asked for, with the payload byte for byte.
pub data_round_trip :
    (out_max dst_endpoint cluster_id profile_id src_endpoint counter : ℕ) (payload : List ℕ)
    (ack_request : Bool)
    → 8 + length payload ≤ out_max
    → length payload ≤ 100
    → IsU16 cluster_id
    → IsU16 profile_id
    → let b =
        build_data_frame true out_max dst_endpoint cluster_id profile_id src_endpoint counter
          (some payload)
          (length payload)
          ack_request in
      parse_data_frame (some b.written) b.size ≡ (
        record no_data_frame {
          valid = true;
          ack_request = ack_request;
          dst_endpoint = dst_endpoint;
          cluster_id = cluster_id;
          profile_id = profile_id;
          src_endpoint = src_endpoint;
          counter = counter;
          payload = some payload;
          payload_len = length payload;
        },
        true,
      )
data_round_trip out_max dst cluster profile src counter payload ack room small c p =
    ap (λ (b : Built). parse_data_frame (some b.written) b.size)
      (built_data out_max dst cluster profile src counter payload ack room small)
    ∙ parse-data_bytes dst cluster profile src counter payload ack small c p

abbrev group_bytes : ℕ → ℕ → ℕ → ℕ → ℕ → List ℕ → Bool → List ℕ
group_bytes group cluster profile src counter payload ack =
    (if ack then 0x4c else 0x0c)
    ∷ (write_le16 group
        ++ (write_le16 cluster ++ (write_le16 profile ++ (src ∷ counter ∷ payload))))

built_group :
    (out_max group cluster profile src counter : ℕ) (payload : List ℕ) (ack : Bool)
    → 9 + length payload ≤ out_max
    → length payload ≤ 99
    → build_group_data_frame true out_max group cluster profile src counter
        (some payload)
        (length payload)
        ack
      ≡ record {
        size = 9 + length payload;
        written = group_bytes group cluster profile src counter payload ack;
      }
unfolding build_group_data_frame
built_group out_max group cluster profile src counter payload true room small =
    rw (take-length, build_group_data_frame) (ground arith)
built_group out_max group cluster profile src counter payload false room small =
    rw (take-length, build_group_data_frame) (ground arith)

parse-group_bytes :
    (group cluster profile src counter : ℕ) (payload : List ℕ) (ack : Bool)
    → length payload ≤ 99
    → IsU16 group
    → IsU16 cluster
    → IsU16 profile
    → parse_data_frame
        (some (group_bytes group cluster profile src counter payload ack))
        (9 + length payload)
      ≡ (
        record no_data_frame {
          valid = true;
          delivery_mode = delivery_group;
          ack_request = ack;
          group_address = group;
          cluster_id = cluster;
          profile_id = profile;
          src_endpoint = src;
          counter = counter;
          payload = some payload;
          payload_len = length payload;
        },
        true,
      )
unfolding parse_data_frame
parse-group_bytes group cluster profile src counter payload true small g c p =
    ground (arith, le16 group g, le16 cluster c, le16 profile p)
parse-group_bytes group cluster profile src counter payload false small g c p =
    ground (arith, le16 group g, le16 cluster c, le16 profile p)

-- A group data frame with at most 99 bytes of payload, built into a buffer with room for it, parses as
-- the frame that was asked for, with the payload byte for byte.
pub group_round_trip :
    (out_max group_address cluster_id profile_id src_endpoint counter : ℕ) (payload : List ℕ)
    (ack_request : Bool)
    → 9 + length payload ≤ out_max
    → length payload ≤ 99
    → IsU16 group_address
    → IsU16 cluster_id
    → IsU16 profile_id
    → let b =
        build_group_data_frame true out_max group_address cluster_id profile_id src_endpoint counter
          (some payload)
          (length payload)
          ack_request in
      parse_data_frame (some b.written) b.size ≡ (
        record no_data_frame {
          valid = true;
          delivery_mode = delivery_group;
          ack_request = ack_request;
          group_address = group_address;
          cluster_id = cluster_id;
          profile_id = profile_id;
          src_endpoint = src_endpoint;
          counter = counter;
          payload = some payload;
          payload_len = length payload;
        },
        true,
      )
group_round_trip out_max group cluster profile src counter payload ack room small g c p =
    ap (λ (b : Built). parse_data_frame (some b.written) b.size)
      (built_group out_max group cluster profile src counter payload ack room small)
    ∙ parse-group_bytes group cluster profile src counter payload ack small g c p
