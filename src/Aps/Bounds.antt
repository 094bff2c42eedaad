-- ===== src/Aps/Bounds.antt =====
-- src/ZigbeeAps.cpp: the length and the space of the frames of the builders.
use arduino_nrf_zigbee.Prelude.{
  ℕ, ◌≡◌, ◌≤◌, Bool, Option, none, some, List, arith, length, length-take,
}
use arduino_nrf_zigbee.Bytes.{Built}
use arduino_nrf_zigbee.Aps.{build_data_frame, build_group_data_frame, build_ack_frame}

-- The builder returns the number of bytes written, and these fit the buffer.
abbrev pub Fits : ℕ → Built → Type 0
Fits out_max b = (length b.written ≡ b.size) × (b.size ≤ out_max)

-- A pointer that is not null points to at least as many bytes as the length stated.
abbrev pub Readable : Option (List ℕ) → ℕ → Type 0
Readable none payload_len = 0 ≤ payload_len
Readable (some bytes) payload_len = payload_len ≤ length bytes

-- Whatever a caller passes to the three builders, with a payload that is null, whatever its length is
-- said to be, or has at least the length stated, they return the number of bytes written, and never write
-- past the buffer.
pub build-Fits :
    (out : Bool) (out_max a cluster_id profile_id src_endpoint counter payload_len : ℕ)
    (payload : Option (List ℕ)) (ack_request : Bool)
    → Readable payload payload_len
    → Fits out_max (
        build_data_frame out out_max a cluster_id profile_id src_endpoint counter payload
          payload_len ack_request)
      × Fits out_max (
          build_group_data_frame out out_max a cluster_id profile_id src_endpoint counter payload
            payload_len ack_request)
      × Fits out_max (build_ack_frame out out_max a cluster_id profile_id src_endpoint counter)
unfolding build_data_frame build_group_data_frame build_ack_frame
build-Fits out out_max a cluster profile src counter n none ack h =
    (ground arith, ground arith, ground arith)
build-Fits out out_max a cluster profile src counter n (some bytes) ack h =
    (ground (arith, length-take n bytes), ground (arith, length-take n bytes), ground arith)
