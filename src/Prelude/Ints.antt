-- ===== src/Prelude/Ints.antt =====
-- Signed integers, and an i16 or i32 as its two's-complement bit pattern.
use Prim.Native.Nat.{ℕ, ◌-◌, ◌^◌, ◌<◌}
use mathlib.Core.Path.{◌≡◌}
use native.Mathlib.Omega.{arith}
use libwing.Prelude.Tests.{ltb, ◌==◌, if◌then◌else◌}
use mathlib.Core.Bool.{Bool, false}

-- `negsuc n` is -(n + 1).
pub data ℤ : Type 0 where
  pos : ℕ → ℤ
  negsuc : ℕ → ℤ

abbrev pub int_eq : ℤ → ℤ → Bool
int_eq (pos m) (pos n) = m == n
int_eq (negsuc m) (negsuc n) = m == n
int_eq _ _ = false

abbrev pub magnitude : ℤ → ℕ
magnitude (pos n) = n
magnitude (negsuc n) = n

abbrev pub IsI8 : ℤ → Type 0
IsI8 v = magnitude v < 2 ^ 7

abbrev pub IsI16 : ℤ → Type 0
IsI16 v = magnitude v < 2 ^ 15

abbrev pub IsI32 : ℤ → Type 0
IsI32 v = magnitude v < 2 ^ 31

-- `v as u16` and `v as u32` for a value of the signed type of that width.
abbrev pub as_u16 : ℤ → ℕ
as_u16 (pos n) = n
as_u16 (negsuc n) = 2 ^ 16 - 1 - n

abbrev pub as_u32 : ℤ → ℕ
as_u32 (pos n) = n
as_u32 (negsuc n) = 2 ^ 32 - 1 - n

-- A bit pattern as the signed number that it stands for.
abbrev pub as_i8 : ℕ → ℤ
as_i8 w = if ltb w (2 ^ 7) then pos w else negsuc (2 ^ 8 - 1 - w)

abbrev pub as_i16 : ℕ → ℤ
as_i16 w = if ltb w (2 ^ 15) then pos w else negsuc (2 ^ 16 - 1 - w)

abbrev pub as_i32 : ℕ → ℤ
as_i32 w = if ltb w (2 ^ 31) then pos w else negsuc (2 ^ 32 - 1 - w)

pub as_i16-as_u16 : (v : ℤ) → IsI16 v → as_i16 (as_u16 v) ≡ v
as_i16-as_u16 (pos n) h = ground arith
as_i16-as_u16 (negsuc n) h = ground arith

pub as_i32-as_u32 : (v : ℤ) → IsI32 v → as_i32 (as_u32 v) ≡ v
as_i32-as_u32 (pos n) h = ground arith
as_i32-as_u32 (negsuc n) h = ground arith

pub as_u16-lt : (v : ℤ) → IsI16 v → as_u16 v < 2 ^ 16
as_u16-lt (pos n) h = omega arith
as_u16-lt (negsuc n) h = omega arith

pub as_u32-lt : (v : ℤ) → IsI32 v → as_u32 v < 2 ^ 32
as_u32-lt (pos n) h = omega arith
as_u32-lt (negsuc n) h = omega arith

pub as_i32-IsI32 : (w : ℕ) → w < 2 ^ 32 → IsI32 (as_i32 w)
as_i32-IsI32 w h = ground arith
