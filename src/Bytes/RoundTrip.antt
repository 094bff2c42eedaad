-- ===== src/Bytes/RoundTrip.antt =====
-- The little-endian writes of 16 and 64 bits, read back.
use Prim.Native.Nat.{bit_or}
use arduino_nrf_zigbee.Prelude.{
  ℕ, ◌≡◌, refl, ◌+◌, ◌*◌, ◌/◌, ◌%◌, ◌^◌, ◌<◌, List, [], ◌++◌, arith, IsU16, get_or, drop,
}
use arduino_nrf_zigbee.Prelude.Bits.{bit_or-shift}
use arduino_nrf_zigbee.Bytes.{read_le64, write_le64}

-- The two bytes of a 16-bit value.
pub le16 : (v : ℕ) → IsU16 v → bit_or (v % 256) (v / 2 ^ 8 % 256 * 2 ^ 8) ≡ v
le16 v h = omega (arith, bit_or-shift 8 (v % 256) (v / 256 % 256) (omega arith))

-- One round of the loop of `readLe64`, on the next byte of `v`.
le_round :
    (k v : ℕ)
    → v % 2 ^ k < 2 ^ k
    → bit_or (v % 2 ^ k) (v / 2 ^ k % 256 * 2 ^ k) ≡ v % 2 ^ k + v / 2 ^ k % 256 * 2 ^ k
le_round k v h = bit_or-shift k (v % 2 ^ k) (v / 2 ^ k % 256) h

pub le64 : (v : ℕ) (rest : List ℕ) → v < 2 ^ 64 → read_le64 (write_le64 v ++ rest) ≡ v
unfolding read_le64 write_le64
le64 v rest h =
    let r0 : bit_or 0 (v / 1 % 256 * 1) ≡ v % 2 ^ 8 =
      omega (arith, bit_or-shift 0 0 (v / 1 % 256) (omega arith)) in
    let r1 : bit_or (v % 2 ^ 8) (v / 2 ^ 8 % 256 * 2 ^ 8) ≡ v % 2 ^ 16 =
      omega (arith, le_round 8 v (omega arith)) in
    let r2 : bit_or (v % 2 ^ 16) (v / 2 ^ 16 % 256 * 2 ^ 16) ≡ v % 2 ^ 24 =
      omega (arith, le_round 16 v (omega arith)) in
    let r3 : bit_or (v % 2 ^ 24) (v / 2 ^ 24 % 256 * 2 ^ 24) ≡ v % 2 ^ 32 =
      omega (arith, le_round 24 v (omega arith)) in
    let r4 : bit_or (v % 2 ^ 32) (v / 2 ^ 32 % 256 * 2 ^ 32) ≡ v % 2 ^ 40 =
      omega (arith, le_round 32 v (omega arith)) in
    let r5 : bit_or (v % 2 ^ 40) (v / 2 ^ 40 % 256 * 2 ^ 40) ≡ v % 2 ^ 48 =
      omega (arith, le_round 40 v (omega arith)) in
    let r6 : bit_or (v % 2 ^ 48) (v / 2 ^ 48 % 256 * 2 ^ 48) ≡ v % 2 ^ 56 =
      omega (arith, le_round 48 v (omega arith)) in
    let r7 : bit_or (v % 2 ^ 56) (v / 2 ^ 56 % 256 * 2 ^ 56) ≡ v % 2 ^ 64 =
      omega (arith, le_round 56 v (omega arith)) in
    rw (r0, r1, r2, r3, r4, r5, r6, r7) (omega arith)

pub le64_end : (v : ℕ) → v < 2 ^ 64 → read_le64 (write_le64 v) ≡ v
unfolding write_le64
le64_end v h = le64 v [] h

pub drop_le64 : (v : ℕ) (rest : List ℕ) → drop 8 (write_le64 v ++ rest) ≡ rest
unfolding write_le64
drop_le64 v rest = refl

-- What stands after eight bytes, as a parser meets it.
pub after_le64 :
    (v : ℕ) (rest : List ℕ)
    → (get_or (write_le64 v ++ rest) 8 0 ≡ get_or rest 0 0)
      × (get_or (write_le64 v ++ rest) 9 0 ≡ get_or rest 1 0)
      × (get_or (write_le64 v ++ rest) 10 0 ≡ get_or rest 2 0)
      × (drop 9 (write_le64 v ++ rest) ≡ drop 1 rest)
      × (drop 11 (write_le64 v ++ rest) ≡ drop 3 rest)
unfolding write_le64
after_le64 v rest = (refl, refl, refl, refl, refl)
