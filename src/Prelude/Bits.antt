-- ===== src/Prelude/Bits.antt =====
-- Masks on small numbers as arithmetic, each checked at every value of its range.
use Prim.Native.Nat.{ℕ, zero, suc, ◌+◌, ◌*◌, ◌/◌, ◌%◌, ◌<◌, bit_and, bit_or}
use mathlib.Core.Path.{◌≡◌, refl}
use mathlib.Core.Bool.{Bool, true, ◌&&◌}
use native.Mathlib.Omega.{arith}
use libwing.Prelude.Tests.{◌==◌}

every : ℕ → (ℕ → Bool) → Bool
every zero p = true
every (suc n) p = p n && every n p

at_each : (n : ℕ) (p : ℕ → Bool) (x : ℕ) → every n p ≡ true → x < n → p x ≡ true
unfolding every
at_each zero p x h lt = absurd (omega arith)
at_each (suc n) p x h lt = ground (arith, at_each n p x)

eq_at_each : (n : ℕ) (f g : ℕ → ℕ) (x : ℕ) → every n (λ k. f k == g k) ≡ true → x < n → f x ≡ g x
eq_at_each n f g x h lt = ground (arith, at_each n (λ k. f k == g k) x h lt)

pub bit_and_nibble : (x : ℕ) → x < 1024 → bit_and x 0x0f ≡ x % 16
unfolding every
bit_and_nibble x = eq_at_each 1024 (λ k. bit_and k 0x0f) (λ k. k % 16) x refl

pub bit_and_one : (x : ℕ) → x < 256 → bit_and x 0x01 ≡ x % 2
unfolding every
bit_and_one x = eq_at_each 256 (λ k. bit_and k 0x01) (λ k. k % 2) x refl

pub bit_or_read_only : (x : ℕ) → x < 256 → bit_or x 512 ≡ x + 512
unfolding every
bit_or_read_only x = eq_at_each 256 (λ k. bit_or k 512) (λ k. k + 512) x refl

nibbles : (x : ℕ) → x < 256 → bit_or (x / 16 * 16) (x % 16) ≡ x
unfolding every
nibbles x = eq_at_each 256 (λ k. bit_or (k / 16 * 16) (k % 16)) (λ k. k) x refl

pub bit_or_nibbles : (a b : ℕ) → a < 16 → b < 16 → bit_or (a * 16) b ≡ a * 16 + b
bit_or_nibbles a b ha hb =
    let q : (a * 16 + b) / 16 ≡ a = omega arith in
    let r : (a * 16 + b) % 16 ≡ b = omega arith in rw (q, r) at (nibbles (a * 16 + b) (omega arith))
