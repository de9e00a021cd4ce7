-- ===== src/Base/Int.antt =====
-- Signed integers over the native numbers, and the casts between `i32` and `u32`.
use Prim.Native.Nat.{ℕ, ◌+◌, ◌-◌, ◌^◌, ◌<◌}
use mathlib.Core.Path.{◌≡◌, ap}
use mathlib.Core.Bool.{Bool, true, false}
use native.Mathlib.Omega.{arith}
use wdk_safe.Base.Tests.{ltb, ◌==◌, if◌then◌else◌}

-- `negsuc n` is -(n + 1).
pub data ℤ : Type 0 where
  pos : ℕ → ℤ
  negsuc : ℕ → ℤ

-- `z >= 0`
abbrev pub nonneg : ℤ → Bool
nonneg (pos n) = true
nonneg (negsuc n) = false

-- `a == b`
abbrev pub eq_ℤ : ℤ → ℤ → Bool
eq_ℤ (pos a) (pos b) = a == b
eq_ℤ (pos a) (negsuc b) = false
eq_ℤ (negsuc a) (pos b) = false
eq_ℤ (negsuc a) (negsuc b) = a == b

-- The values of an `i32`.
abbrev pub IsI32 : ℤ → Type 0
IsI32 (pos n) = n < 2 ^ 31
IsI32 (negsuc n) = n < 2 ^ 31

-- `z as u32`, for an `i32` z.
unfoldable pub as_u32 : ℤ → ℕ
as_u32 (pos n) = n
as_u32 (negsuc n) = 2 ^ 32 - (n + 1)

-- `n as i32`, for a `u32` n.
unfoldable pub as_i32 : ℕ → ℤ
as_i32 n = if ltb n (2 ^ 31) then pos n else negsuc (2 ^ 32 - n - 1)

pub as_u32-lt : (z : ℤ) → IsI32 z → as_u32 z < 2 ^ 32
unfolding as_u32
as_u32-lt (pos n) h = omega arith
as_u32-lt (negsuc n) h = omega arith

pub as_i32-IsI32 : (n : ℕ) → n < 2 ^ 32 → IsI32 (as_i32 n)
unfolding as_i32
as_i32-IsI32 n h = ground arith

pub as_i32-as_u32 : (z : ℤ) → IsI32 z → as_i32 (as_u32 z) ≡ z
unfolding as_i32 as_u32
as_i32-as_u32 (pos n) h = ground arith
as_i32-as_u32 (negsuc n) h = ground arith

pub as_u32-as_i32 : (n : ℕ) → n < 2 ^ 32 → as_u32 (as_i32 n) ≡ n
unfolding as_i32 as_u32
as_u32-as_i32 n h = ground arith

pub eq_ℤ_eq : (a b : ℤ) → eq_ℤ a b ≡ true → a ≡ b
eq_ℤ_eq (pos a) (pos b) e = ap pos (ground arith)
eq_ℤ_eq (pos a) (negsuc b) e = ground arith
eq_ℤ_eq (negsuc a) (pos b) e = ground arith
eq_ℤ_eq (negsuc a) (negsuc b) e = ap negsuc (ground arith)
