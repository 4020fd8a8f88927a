-- ===== src/Base/Word.antt =====
-- Go's fixed-width integers. `uint` and `uint64` are numbers below 2^64, `uint32` below 2^32; a
-- signed integer is a value of ℤ. The conversions wrap as Go's do.
use Prim.Native.Nat.{ℕ, ◌-◌, ◌%◌, ◌^◌, ◌<◌, ◌≤◌}
use mathlib.Core.Path.{◌≡◌}
use native.Mathlib.Omega.{arith}
use ss2025_web.Base.Tests.{ltb, if◌then◌else◌}

-- `negsuc n` is -(n + 1).
pub data ℤ : Type 0 where
  pos : ℕ → ℤ
  negsuc : ℕ → ℤ

-- A `float64`, as its 64 bits: the code copies floats and never computes with them.
abbrev pub Float64 : Type 0
Float64 = ℕ

-- `uint32(x)` of an unsigned x.
unfoldable pub to_u32 : ℕ → ℕ
to_u32 x = x % 2 ^ 32

-- The value of a 32-bit pattern as an `int32`.
unfoldable pub as_i32 : ℕ → ℤ
as_i32 x = if ltb (x % 2 ^ 32) (2 ^ 31) then pos (x % 2 ^ 32) else negsuc (2 ^ 32 - 1 - x % 2 ^ 32)

-- `int32(x)` of an `int`.
unfoldable pub int_to_i32 : ℤ → ℤ
unfolding as_i32
int_to_i32 (pos n) = as_i32 n
int_to_i32 (negsuc n) = as_i32 (2 ^ 32 - 1 - n % 2 ^ 32)

abbrev pub IsInt32 : ℤ → Type 0
IsInt32 (pos n) = n < 2 ^ 31
IsInt32 (negsuc n) = n < 2 ^ 31

pub to_u32_small : (x : ℕ) → x < 2 ^ 32 → to_u32 x ≡ x
unfolding to_u32
to_u32_small x h = omega arith

pub to_u32-lt : (x : ℕ) → to_u32 x < 2 ^ 32
unfolding to_u32
to_u32-lt x = omega arith

pub as_i32-IsInt32 : (x : ℕ) → IsInt32 (as_i32 x)
unfolding as_i32
as_i32-IsInt32 x = ground arith

-- An `int32` that was widened to `int` comes back.
pub int_to_i32_small : (z : ℤ) → IsInt32 z → int_to_i32 z ≡ z
unfolding int_to_i32
int_to_i32_small (pos n) h = ground arith
int_to_i32_small (negsuc n) h = ground arith

pub as_i32_small : (x : ℕ) → x < 2 ^ 31 → as_i32 x ≡ pos x
unfolding as_i32
as_i32_small x h = ground arith

pub as_i32_large : (x : ℕ) → 2 ^ 31 ≤ x → x < 2 ^ 32 → as_i32 x ≡ negsuc (2 ^ 32 - 1 - x)
unfolding as_i32
as_i32_large x h k = ground arith
