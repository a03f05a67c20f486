-- ===== src/Base/Words.antt =====
-- Casts to the fixed widths of the firmware. Subtraction wraps, so it adds the modulus first.
use Prim.Native.Nat.{ℕ, ◌+◌, ◌-◌, ◌%◌, ◌<◌}
use mathlib.Core.Path.{◌≡◌}
use native.Mathlib.Omega.{arith}
use agentic_engineering_trai.Base.Tests.{ltb, if◌then◌else◌}
use agentic_engineering_trai.Base.Int.{ℤ, pos, negsuc, ◌≤ℤ◌}

abbrev pub u8 : ℕ → ℕ
u8 n = n % 256

abbrev pub u16 : ℕ → ℕ
u16 n = n % 65536

abbrev pub u32 : ℕ → ℕ
u32 n = n % 4294967296

-- `std::uint32_t` subtraction of two values below 2 ^ 32.
abbrev pub sub_u32 : ℕ → ℕ → ℕ
sub_u32 a b = (a + 4294967296 - b) % 4294967296

abbrev pub IsByte : ℕ → Type 0
IsByte b = b < 256

-- `static_cast<std::uint16_t>` of an `int16_t`, and back.
abbrev pub of_int16 : ℤ → ℕ
of_int16 (pos n) = n % 65536
of_int16 (negsuc n) = 65535 - n % 65536

abbrev pub to_int16 : ℕ → ℤ
to_int16 w = if ltb w 32768 then pos w else negsuc (65535 - w)

abbrev pub of_int32 : ℤ → ℕ
of_int32 (pos n) = n % 4294967296
of_int32 (negsuc n) = 4294967295 - n % 4294967296

abbrev pub to_int32 : ℕ → ℤ
to_int32 w = if ltb w 2147483648 then pos w else negsuc (4294967295 - w)

abbrev pub IsInt16 : ℤ → Type 0
IsInt16 z = (negsuc 32767 ≤ℤ z) × (z ≤ℤ pos 32767)

abbrev pub IsInt32 : ℤ → Type 0
IsInt32 z = (negsuc 2147483647 ≤ℤ z) × (z ≤ℤ pos 2147483647)

pub to_int16-of_int16 : (z : ℤ) → IsInt16 z → to_int16 (of_int16 z) ≡ z
to_int16-of_int16 (pos n) h = ground arith
to_int16-of_int16 (negsuc n) h = ground arith

pub to_int32-of_int32 : (z : ℤ) → IsInt32 z → to_int32 (of_int32 z) ≡ z
to_int32-of_int32 (pos n) h = ground arith
to_int32-of_int32 (negsuc n) h = ground arith

pub of_int16-lt : (z : ℤ) → of_int16 z < 65536
of_int16-lt (pos n) = omega arith
of_int16-lt (negsuc n) = omega arith

pub of_int32-lt : (z : ℤ) → of_int32 z < 4294967296
of_int32-lt (pos n) = omega arith
of_int32-lt (negsuc n) = omega arith
