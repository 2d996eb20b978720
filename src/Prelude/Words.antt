-- ===== src/Prelude/Words.antt =====
-- C's conversions between integer types of 32 and 64 bits (LP64: `long` and `loff_t` have 64).
use Prim.Native.Nat.{ℕ, ◌-◌, ◌%◌, ◌^◌}
use learning_kernel.Prelude.Tests.{ltb, if◌then◌else◌}
use learning_kernel.Prelude.Int.{ℤ, pos, negsuc}

-- (unsigned long)x
abbrev pub to_ulong : ℤ → ℕ
to_ulong (pos n) = n % 2 ^ 64
to_ulong (negsuc n) = 2 ^ 64 - 1 - n % 2 ^ 64

-- (unsigned int)x
abbrev pub to_uint : ℤ → ℕ
to_uint (pos n) = n % 2 ^ 32
to_uint (negsuc n) = 2 ^ 32 - 1 - n % 2 ^ 32

-- The value of a 64-bit pattern as a loff_t.
abbrev pub signed64 : ℕ → ℤ
signed64 w = if ltb w (2 ^ 63) then pos w else negsuc (2 ^ 64 - w - 1)

-- (loff_t)x
abbrev pub to_loff : ℤ → ℤ
to_loff x = signed64 (to_ulong x)

-- The value of a 32-bit pattern as an int.
abbrev pub signed32 : ℕ → ℤ
signed32 w = if ltb w (2 ^ 31) then pos w else negsuc (2 ^ 32 - w - 1)

-- (int)x
abbrev pub to_int : ℤ → ℤ
to_int x = signed32 (to_uint x)
