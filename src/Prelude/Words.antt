-- ===== src/Prelude/Words.antt =====
-- Machine words as native numbers: the wrap-around of uint8_t, uint16_t and uint32_t arithmetic.
use Prim.Native.Nat.{ℕ, ◌+◌, ◌-◌, ◌%◌, ◌^◌, ◌<◌}
use mathlib.Core.Bool.{Bool, true, false}
use arduino_nrf_zigbee.Prelude.Tests.{ltb, leb, if◌then◌else◌}

-- `(uint8_t) n`, `(uint16_t) n`
abbrev pub u8 : ℕ → ℕ
u8 n = n % 256

abbrev pub u16 : ℕ → ℕ
u16 n = n % 65536

-- uint32_t `a + b`
abbrev pub add32 : ℕ → ℕ → ℕ
add32 a b = (a + b) % 2 ^ 32

-- `(uint32_t)(a - b)`
abbrev pub sub32 : ℕ → ℕ → ℕ
sub32 a b = (a + 2 ^ 32 - b) % 2 ^ 32

-- `(int32_t)(a - b) < 0`, on uint32_t operands
abbrev pub before32 : ℕ → ℕ → Bool
before32 a b = leb (2 ^ 31) (sub32 a b)

-- `if (n < 0xFF) ++n`, on a uint8_t
abbrev pub bump8 : ℕ → ℕ
bump8 n = if ltb n 0xff then n + 1 else n

abbrev pub IsByte : ℕ → Type 0
IsByte n = n < 256

abbrev pub IsU16 : ℕ → Type 0
IsU16 n = n < 65536

abbrev pub IsU32 : ℕ → Type 0
IsU32 n = n < 2 ^ 32

-- `b ? 1 : 0`
abbrev pub to_nat : Bool → ℕ
to_nat true = 1
to_nat false = 0
