-- ===== src/Base/Int.antt =====
-- Signed 32-bit integers: `negsuc n` is -(n + 1).
use knast.Base.{ℕ, ◌-◌, Option, none, some, ltb, if◌then◌else◌}

pub data ℤ : Type 0 where
  pos : ℕ → ℤ
  negsuc : ℕ → ℤ

-- `u32 as i32`: the bit pattern, read as two's complement.
unfoldable pub i32_of_u32 : ℕ → ℤ
i32_of_u32 n = if ltb n 2147483648 then pos n else negsuc (4294967295 - n)

-- `u32::try_from(i32)`: negative values are refused.
unfoldable pub u32_of_i32 : ℤ → Option ℕ
u32_of_i32 (pos n) = some n
u32_of_i32 (negsuc n) = none
