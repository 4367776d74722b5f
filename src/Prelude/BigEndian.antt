-- ===== src/Prelude/BigEndian.antt =====
-- `to_be_bytes` and `from_be_bytes` of the 16- and 32-bit integers. An f32 is its 32-bit pattern.
use Prim.Native.Nat.{ℕ, ◌+◌, ◌*◌, ◌/◌, ◌%◌, ◌^◌, ◌<◌}
use mathlib.Core.Path.{◌≡◌}
use mathlib.Core.List.{List, [], ◌∷◌}
use native.Mathlib.Omega.{arith}
use libwing.Prelude.Lists.{All}

abbrev pub Bytes : Type 0
Bytes = List ℕ

abbrev pub IsByte : ℕ → Type 0
IsByte b = b < 256

abbrev pub u16_to_be : ℕ → Bytes
u16_to_be n = (n / 256 % 256) ∷ (n % 256) ∷ []

abbrev pub u32_to_be : ℕ → Bytes
u32_to_be n = (n / 2 ^ 24 % 256) ∷ (n / 2 ^ 16 % 256) ∷ (n / 256 % 256) ∷ (n % 256) ∷ []

-- The value of a big-endian string of bytes of any length.
abbrev pub of_be : Bytes → ℕ → ℕ
of_be [] acc = acc
of_be (b ∷ bs) acc = of_be bs (acc * 256 + b)

abbrev pub from_be : Bytes → ℕ
from_be bs = of_be bs 0

pub from_be-u16 : (n : ℕ) → n < 2 ^ 16 → from_be (u16_to_be n) ≡ n
from_be-u16 n h = omega arith

pub from_be-u32 : (n : ℕ) → n < 2 ^ 32 → from_be (u32_to_be n) ≡ n
from_be-u32 n h = omega arith

pub u16_to_be-IsByte : (n : ℕ) → All IsByte (u16_to_be n)
u16_to_be-IsByte n = omega arith

pub u32_to_be-IsByte : (n : ℕ) → All IsByte (u32_to_be n)
u32_to_be-IsByte n = omega arith

pub u32_from_be-lt :
    (a b c d : ℕ) → All IsByte (a ∷ b ∷ c ∷ d ∷ []) → from_be (a ∷ b ∷ c ∷ d ∷ []) < 2 ^ 32
u32_from_be-lt a b c d h = omega arith
