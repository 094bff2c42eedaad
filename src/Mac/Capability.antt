-- ===== src/Mac/Capability.antt =====
-- The capability byte of parseAssociationRequest of src/ZigbeeMac.cpp: its masks as binary digits.
use arduino_nrf_zigbee.Prelude.{
  ℕ, zero, suc, ◌≡◌, refl, ◌<◌, ◌/◌, ◌%◌, Bool, true, ◌&&◌, ◌==◌, arith, if◌then◌else◌, not,
}
use arduino_nrf_zigbee.Bytes.{has_bit}

-- A test of all numbers below a limit.
all_below : ℕ → (ℕ → Bool) → Bool
all_below zero p = true
all_below (suc n) p = p n && all_below n p

holds_below : (n : ℕ) (p : ℕ → Bool) (x : ℕ) → all_below n p ≡ true → x < n → p x ≡ true
unfolding all_below
holds_below zero p x h small = absurd (omega arith)
holds_below (suc n) p x h small = ground (arith, holds_below n p x)

abbrev same : Bool → Bool → Bool
same a b = if a then b else not b

same→eq : (a b : Bool) → same a b ≡ true → a ≡ b
same→eq a b h = ground arith

abbrev agrees : ℕ → ℕ → ℕ → Bool
agrees mask power v = same (has_bit v mask) (v / power % 2 == 1)

-- Each of the three masks selects the binary digit of its own weight.
pub capability_bits :
    (v : ℕ)
    → v < 256
    → (has_bit v 0x80 ≡ (v / 128 % 2 == 1))
      × (has_bit v 0x08 ≡ (v / 8 % 2 == 1))
      × (has_bit v 0x02 ≡ (v / 2 % 2 == 1))
unfolding all_below
capability_bits v h = (
  same→eq (has_bit v 0x80) (v / 128 % 2 == 1) (holds_below 256 (agrees 0x80 128) v refl h),
  same→eq (has_bit v 0x08) (v / 8 % 2 == 1) (holds_below 256 (agrees 0x08 8) v refl h),
  same→eq (has_bit v 0x02) (v / 2 % 2 == 1) (holds_below 256 (agrees 0x02 2) v refl h),
)
