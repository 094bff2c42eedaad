-- ===== src/Nwk/SourceRoundTrip.antt =====
-- src/ZigbeeNwk.cpp: the source-routed data frames of buildDataFrameSourceRouted, read by
-- parseDataFrame.
use arduino_nrf_zigbee.Prelude.{
  ℕ, zero, suc, ◌≡◌, refl, ap, ◌∙◌, ◌+◌, ◌-◌, ◌*◌, ◌/◌, ◌%◌, ◌^◌, ◌≤◌, ◌<◌, true, false, some, List,
  [], ◌∷◌, ◌++◌, arith, length, drop, take-length, IsU16, u8, ltb, get_elem?,
}
use arduino_nrf_zigbee.Bytes.{write_at, has_bit, Built, write_le16}
use arduino_nrf_zigbee.Bytes.RoundTrip.{le16}
use arduino_nrf_zigbee.Nwk.DataFrame.{
  NwkDataFrame, no_frame, build_data_frame_source_routed, parse_data_frame, write_relays,
  source_routed_header,
}
use arduino_nrf_zigbee.Nwk.SourceRoute.{
  AreU16, get_data_frame_relay, get_data_frame_relay-get_elem?,
}
use Prim.Native.Nat.{bit_or, bit_and}
use arduino_nrf_zigbee.Nwk.{frame_control}

pub length-write_relays : (relays : List ℕ) → length (write_relays relays) ≡ length relays * 2
length-write_relays [] = refl
length-write_relays (x ∷ xs) = omega (arith, length-write_relays xs)

pub append_empty : (xs : List ℕ) → xs ++ [] ≡ xs
append_empty [] = refl
append_empty (x ∷ xs) = ap (◌∷◌ x) (append_empty xs)

drop-past : (n : ℕ) (xs : List ℕ) → length xs ≤ n → drop n xs ≡ []
drop-past zero [] h = refl
drop-past (suc n) [] h = refl
drop-past zero (x ∷ xs) h = absurd (omega arith)
drop-past (suc n) (x ∷ xs) h = drop-past n xs (omega arith)

-- Bytes that are written where the buffer ends come after it.
write_at-end : (bytes buf : List ℕ) (n : ℕ) → n ≡ length buf → write_at n bytes buf ≡ buf ++ bytes
write_at-end bytes buf n e =
    rw
      (
        e,
        take-length buf,
        drop-past (length buf + length bytes) buf (omega arith),
        append_empty bytes,
      )
      refl

drop-append : (xs ys : List ℕ) (n : ℕ) → n ≡ length xs → drop n (xs ++ ys) ≡ ys
drop-append [] ys n e = rw e refl
drop-append (x ∷ xs) ys zero e = absurd (omega arith)
drop-append (x ∷ xs) ys (suc n) e = drop-append xs ys n (omega arith)

abbrev routed_bytes : ℕ → ℕ → ℕ → ℕ → List ℕ → ℕ → ℕ → List ℕ → List ℕ
routed_bytes dst src radius sequence relays index discover rest =
    write_le16 (bit_or (frame_control 0 discover) 1024)
    ++ (write_le16 dst
        ++ (write_le16 src
            ++ (radius ∷ sequence ∷ length relays ∷ index ∷ (write_relays relays ++ rest))))

built_routed :
    (out_max dst src radius sequence : ℕ) (relays : List ℕ) (index : ℕ) (payload : List ℕ)
    (discover : ℕ)
    → 10 + length relays * 2 + length payload ≤ out_max
    → out_max < 256
    → length payload ≤ 108
    → discover ≤ 3
    → build_data_frame_source_routed true out_max dst src radius sequence
        (some relays)
        (length relays)
        index
        (some payload)
        (length payload)
        discover
      ≡ record {
        size = 10 + length relays * 2 + length payload;
        written = routed_bytes dst src radius sequence relays index discover payload;
      }
unfolding build_data_frame_source_routed
built_routed out_max dst src radius sequence relays index payload discover room byte small d =
    let head : u8 (8 + u8 (2 + length relays * 2)) ≡ 10 + length relays * 2 = omega arith in
    let end =
      write_at-end payload
        (source_routed_header dst src radius sequence relays (length relays) index discover)
        (10 + length relays * 2)
        (rw (take-length relays) (omega (arith, length-write_relays relays))) in
    rw (head, take-length payload, end, take-length relays, build_data_frame_source_routed)
      (ground arith)

-- The frame that parseDataFrame returns on the bytes of `routed_bytes`.
abbrev routed_frame : ℕ → ℕ → ℕ → ℕ → List ℕ → ℕ → ℕ → List ℕ → NwkDataFrame
routed_frame dst src radius sequence relays index discover payload = record no_frame {
  valid = true;
  protocol_version = 2;
  discover_route = discover;
  source_route = true;
  dst_short = dst;
  src_short = src;
  radius = radius;
  sequence = sequence;
  sr_relay_count = length relays;
  sr_relay_index = index;
  sr_relay_list = some (write_relays relays ++ payload);
  payload = some payload;
  payload_len = length payload;
}

abbrev ten : ℕ → ℕ
ten n = suc (suc (suc (suc (suc (suc (suc (suc (suc (suc n)))))))))

abbrev routed_control : ℕ → ℕ
routed_control discover = bit_or (frame_control 0 discover) 1024

-- The frame control field of a source-routed frame, as it is read back.
control :
    (discover : ℕ)
    → discover ≤ 3
    → (bit_or (routed_control discover % 256) (routed_control discover / 256 % 256 * 256)
        ≡ routed_control discover)
      × (u8 (bit_and (routed_control discover) 0x03) ≡ 0)
      × (has_bit (routed_control discover) (2 ^ 8) ≡ false)
      × (has_bit (routed_control discover) (2 ^ 9) ≡ false)
      × (has_bit (routed_control discover) (2 ^ 10) ≡ true)
      × (has_bit (routed_control discover) (2 ^ 11) ≡ false)
      × (has_bit (routed_control discover) (2 ^ 12) ≡ false)
      × (has_bit (routed_control discover) (2 ^ 13) ≡ false)
      × (u8 (bit_and (routed_control discover / 2 ^ 2) 0x0F) ≡ 2)
      × (u8 (bit_and (routed_control discover / 2 ^ 6) 0x03) ≡ discover)
control zero h = (refl, refl, refl, refl, refl, refl, refl, refl, refl, refl)
control (suc zero) h = (refl, refl, refl, refl, refl, refl, refl, refl, refl, refl)
control (suc (suc zero)) h = (refl, refl, refl, refl, refl, refl, refl, refl, refl, refl)
control (suc (suc (suc zero))) h = (refl, refl, refl, refl, refl, refl, refl, refl, refl, refl)
control (suc (suc (suc (suc n)))) h = absurd (omega arith)

parse-routed :
    (dst src radius sequence : ℕ) (relays : List ℕ) (index : ℕ) (payload : List ℕ) (discover : ℕ)
    → 10 + length relays * 2 + length payload < 256
    → discover ≤ 3
    → IsU16 dst
    → IsU16 src
    → parse_data_frame
        (some (routed_bytes dst src radius sequence relays index discover payload))
        (10 + length relays * 2 + length payload)
      ≡ (routed_frame dst src radius sequence relays index discover payload, true)
unfolding parse_data_frame
parse-routed dst src radius sequence relays index payload discover small d h k =
    let fcf = control discover d in
    let fits : ltb (10 + length relays * 2 + length payload) 10 ≡ false = ground arith in
    let all : ltb (10 + length relays * 2 + length payload) (ten (length relays * 2)) ≡ false =
      ground arith in
    let head : u8 (8 + u8 (2 + length relays * 2)) ≡ ten (length relays * 2) = omega arith in
    let rest =
      drop-append (write_relays relays) payload (length relays * 2)
        (omega (arith, length-write_relays relays)) in
    let len : u8 (10 + length relays * 2 + length payload - ten (length relays * 2))
        ≡ length payload =
      omega arith in
    let base : ltb (10 + length relays * 2 + length payload) 8 ≡ false = ground arith in
    rw
      (
        base,
        fcf.0,
        fcf.1,
        fcf.2,
        fcf.3,
        fcf.4,
        fcf.5,
        fcf.6,
        fits,
        head,
        all,
        fcf.0,
        fcf.1,
        fcf.2,
        fcf.3,
        fcf.4,
        fcf.5,
        fcf.6,
        fcf.7,
        fcf.8,
        fcf.9,
        rest,
        len,
        le16 dst h,
        le16 src k,
      )
      refl

-- A source-routed frame with `relays`, the index `relay_index`, addresses of 16 bits, a payload of
-- at most 108 bytes and a discover-route field of at most 3, built into a buffer of at most 255
-- bytes with room for it, parses as the frame that was asked for, field by field, with the payload
-- byte for byte; and getDataFrameRelay gives the relay of the frame at each index, and none beyond
-- their number.
pub source_routed_round_trip :
    (out_max dst_short src_short radius sequence : ℕ) (relays : List ℕ) (relay_index : ℕ)
    (payload : List ℕ) (discover_route index : ℕ)
    → 10 + length relays * 2 + length payload ≤ out_max
    → out_max < 256
    → length payload ≤ 108
    → discover_route ≤ 3
    → IsU16 dst_short
    → IsU16 src_short
    → AreU16 relays
    → let b =
        build_data_frame_source_routed true out_max dst_short src_short radius sequence
          (some relays)
          (length relays)
          relay_index
          (some payload)
          (length payload)
          discover_route in
      (parse_data_frame (some b.written) b.size ≡ (
        record no_frame {
          valid = true;
          protocol_version = 2;
          discover_route = discover_route;
          source_route = true;
          dst_short = dst_short;
          src_short = src_short;
          radius = radius;
          sequence = sequence;
          sr_relay_count = length relays;
          sr_relay_index = relay_index;
          sr_relay_list = some (write_relays relays ++ payload);
          payload = some payload;
          payload_len = length payload;
        },
        true,
      ))
      × (get_data_frame_relay (parse_data_frame (some b.written) b.size).0 index
          ≡ get_elem? relays index)
source_routed_round_trip out_max dst src radius sequence relays relay_index payload discover index
      room byte small d h k u =
    let whole =
      ap (λ (b : Built). parse_data_frame (some b.written) b.size)
        (built_routed out_max dst src radius sequence relays relay_index payload discover room byte
          small d)
      ∙ parse-routed dst src radius sequence relays relay_index payload discover (omega arith) d h
          k in
    (
      whole,
      rw whole (
          get_data_frame_relay-get_elem? relays payload
            (routed_frame dst src radius sequence relays relay_index discover payload) index u),
    )
