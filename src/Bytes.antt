-- ===== src/Bytes.antt =====
-- The little-endian reads and writes of the frame code (`readLe16`, `writeLe16`, `readLe64` and
-- `writeLe64` of src/ZigbeeAps.h, src/ZigbeeNwk.h and src/ZigbeeNwk.cpp), and what the builders
-- return. A pointer to bytes is the list from there on; null is `none`.
pub mod RoundTrip
use Prim.Native.Nat.{bit_or, bit_and}
use arduino_nrf_zigbee.Prelude.{
  ℕ, zero, suc, ◌+◌, ◌*◌, ◌/◌, ◌%◌, ◌^◌, Bool, not, Option, none, some, List, [], ◌∷◌, ◌++◌, get_or,
  take, drop, length, ◌==◌,
}

-- `p[i]`, for an index below the length
abbrev pub byte_at : List ℕ → ℕ → ℕ
byte_at p i = get_or p i 0

-- `&p[n]`
abbrev pub advance : ℕ → List ℕ → List ℕ
advance n p = drop n p

abbrev pub read_le16_at : List ℕ → ℕ → ℕ
read_le16_at p i = bit_or (byte_at p i) (byte_at p (i + 1) * 2 ^ 8)

abbrev pub write_le16 : ℕ → List ℕ
write_le16 v = (v % 256) ∷ (v / 2 ^ 8 % 256) ∷ []

-- for (i = 0; i < n; ++i) v |= (uint64_t)p[i] << (8 * i), from byte `i` on
abbrev pub read_le_from : ℕ → ℕ → ℕ → List ℕ → ℕ
read_le_from zero i v p = v
read_le_from (suc n) i v p =
    read_le_from n (suc i) (bit_or v (byte_at p 0 * 2 ^ (8 * i))) (drop 1 p)

pub read_le64 : List ℕ → ℕ
read_le64 p = read_le_from 8 0 0 p

-- for (i = 0; i < n; ++i) p[i] = (uint8_t)(v >> (8 * i)), from byte `i` on
abbrev pub write_le_from : ℕ → ℕ → ℕ → List ℕ
write_le_from zero i v = []
write_le_from (suc n) i v = (v / 2 ^ (8 * i) % 256) ∷ write_le_from n (suc i) v

unfoldable pub write_le64 : ℕ → List ℕ
write_le64 v = write_le_from 8 0 v

-- `buf` after `bytes` are written to it from index `offset` on
abbrev pub write_at : ℕ → List ℕ → List ℕ → List ℕ
write_at offset bytes buf = take offset buf ++ (bytes ++ drop (offset + length bytes) buf)

-- `(v & mask) != 0`
abbrev pub has_bit : ℕ → ℕ → Bool
has_bit v mask = not (bit_and v mask == 0)

-- What a builder does: the value that it returns, and the bytes that it writes to `out` from index
-- 0 on.
pub record Built : Type 0 where
  pub size : ℕ
  pub written : List ℕ

-- `return 0` with nothing written
abbrev pub refused : Built
refused = record { size = 0; written = [] }

-- The bytes behind a pointer that may be null.
abbrev pub bytes_of : Option (List ℕ) → List ℕ
bytes_of none = []
bytes_of (some bs) = bs
