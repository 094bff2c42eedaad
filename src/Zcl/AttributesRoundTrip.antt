-- ===== src/Zcl/AttributesRoundTrip.antt =====
-- src/ZigbeeZcl.cpp: the payloads of the general commands, parsed as they were built.
use arduino_nrf_zigbee.Prelude.{
  ℕ, zero, suc, ◌≡◌, refl, ◌+◌, ◌*◌, ◌<◌, ◌≤◌, true, false, none, some, List, [], ◌∷◌, arith,
  length, take-length, Bool-cases, inl, inr, ◌⊎◌, ◌-◌, ◌==◌, IsU16, u8, ltb, get_or,
}
use arduino_nrf_zigbee.Bytes.{read_le16_at}
use arduino_nrf_zigbee.Bytes.RoundTrip.{le16}
use arduino_nrf_zigbee.Nwk.SourceRoute.{AreU16}
use arduino_nrf_zigbee.Zcl.Attributes.{
  write_ids, build_read_attributes_payload, get_read_attribute_id,
  build_configure_reporting_bool_payload, parse_configure_reporting_bool_payload,
}

read-write_ids :
    (ids : List ℕ) (i : ℕ)
    → AreU16 ids
    → i < length ids
    → read_le16_at (write_ids ids) (i * 2) ≡ get_or ids i 0
read-write_ids [] i u h = absurd (omega arith)
read-write_ids (x ∷ xs) zero u h = le16 x u.0
read-write_ids (x ∷ xs) (suc i) u h =
    let low : suc i * 2 ≡ suc (suc (i * 2)) = omega arith in
    let high : suc (suc (i * 2)) + 1 ≡ suc (suc (i * 2 + 1)) = omega arith in
    rw (low, high) (read-write_ids xs i u.1 (omega arith))

-- The receiver of a Read Attributes payload, which was built into a buffer of at most 255 bytes with room
-- for it, is given each attribute id at its index, and none at an index from their number on that is
-- below 128.
pub read_attributes_round_trip :
    (out_max : ℕ) (attr_ids : List ℕ) (index : ℕ)
    → 0 < length attr_ids
    → length attr_ids * 2 ≤ out_max
    → out_max < 256
    → AreU16 attr_ids
    → index < 128
    → let b = build_read_attributes_payload true out_max (some attr_ids) (length attr_ids) in
      ((index < length attr_ids)
        × (get_read_attribute_id (some b.written) b.size index ≡ some (get_or attr_ids index 0)))
      ⊎ ((length attr_ids ≤ index) × (get_read_attribute_id (some b.written) b.size index ≡ none))
unfolding build_read_attributes_payload get_read_attribute_id
read_attributes_round_trip out_max ids i positive room byte u small =
    let n : ℕ = length ids in
    let some_ids : (n == 0) ≡ false = ground arith in
    let size : u8 (n * 2) ≡ n * 2 = omega arith in
    let fits : ltb out_max (n * 2) ≡ false = ground arith in
    let offset : u8 (i * 2) ≡ i * 2 = omega arith in
    elim (Bool-cases (ltb i n)) [
      | inl inside ↦
          let k : i < n = ground arith in
          let here = read-write_ids ids i u k in
          let not_over : ltb (n * 2) (i * 2) ≡ false = ground arith in
          let two : ltb (n * 2 - i * 2) 2 ≡ false = ground arith in
          inl (
            k,
            rw
                (
                  build_read_attributes_payload, get_read_attribute_id, some_ids, fits, size,
                  offset, not_over, two, take-length, here,
                )
                refl,
          )
      | inr outside ↦
          let k : n ≤ i = ground arith in
          let two : ltb (n * 2 - i * 2) 2 ≡ true = ground arith in
          inr (
            k,
            rw
                (
                  build_read_attributes_payload, get_read_attribute_id, some_ids, fits, size,
                  offset, two,
                )
                (ground arith),
          )
    ]

-- A reporting configuration for a boolean attribute, built into a buffer of at least 8 bytes, is parsed as
-- the one that was asked for.
pub configure_reporting_round_trip :
    (out_max attr_id min_interval_sec max_interval_sec : ℕ)
    → 8 ≤ out_max
    → IsU16 attr_id
    → IsU16 min_interval_sec
    → IsU16 max_interval_sec
    → let b =
        build_configure_reporting_bool_payload true out_max attr_id min_interval_sec
          max_interval_sec in
      parse_configure_reporting_bool_payload (some b.written) b.size
      ≡ some (attr_id, min_interval_sec, max_interval_sec)
unfolding build_configure_reporting_bool_payload parse_configure_reporting_bool_payload
configure_reporting_round_trip out_max attr min_sec max_sec room a l h =
    let fits : ltb out_max 8 ≡ false = ground arith in
    rw (build_configure_reporting_bool_payload, fits)
      (rw (le16 attr a, le16 min_sec l, le16 max_sec h) refl)
