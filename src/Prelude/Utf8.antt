-- ===== src/Prelude/Utf8.antt =====
-- `String::from_utf8`: the well-formed byte sequences of UTF-8 (the standard library's rule).
use Prim.Native.Nat.{ℕ, zero, suc}
use mathlib.Core.Path.{◌≡◌}
use mathlib.Core.Bool.{Bool, true, false, ◌&&◌}
use mathlib.Core.List.{[], ◌∷◌}
use mathlib.Core.Option.{Option, none, some}
use libwing.Prelude.Tests.{leb, ltb, ◌==◌, if◌then◌else◌}
use libwing.Prelude.BigEndian.{Bytes}

abbrev in_range : ℕ → ℕ → ℕ → Bool
in_range lo hi b = leb lo b && leb b hi

-- `tail k lo hi`: `k + 1` continuation bytes are due, the first of them from `lo` to `hi`.
pub data Utf8State : Type 0 where
  start : Utf8State
  tail : ℕ → ℕ → ℕ → Utf8State
  bad : Utf8State

lead : ℕ → Utf8State
lead b =
    if ltb b 0x80
    then start
    else if in_range 0xc2 0xdf b
    then tail 0 0x80 0xbf
    else if b == 0xe0
    then tail 1 0xa0 0xbf
    else if b == 0xed
    then tail 1 0x80 0x9f
    else if in_range 0xe1 0xef b
    then tail 1 0x80 0xbf
    else if b == 0xf0
    then tail 2 0x90 0xbf
    else if in_range 0xf1 0xf3 b
    then tail 2 0x80 0xbf
    else if b == 0xf4
    then tail 2 0x80 0x8f
    else bad

next : Utf8State → ℕ → Utf8State
unfolding lead
next start b = lead b
next (tail zero lo hi) b = if in_range lo hi b then start else bad
next (tail (suc k) lo hi) b = if in_range lo hi b then tail k 0x80 0xbf else bad
next bad b = bad

runs : Utf8State → Bytes → Bool
unfolding next
runs start [] = true
runs s [] = false
runs s (b ∷ bs) = runs (next s b) bs

unfoldable pub is_utf8 : Bytes → Bool
unfolding runs
is_utf8 bs = runs start bs

-- The bytes of a Rust `String` are UTF-8.
abbrev pub IsStr : Bytes → Type 0
IsStr bs = is_utf8 bs ≡ true

unfoldable pub from_utf8 : Bytes → Option Bytes
from_utf8 bs = if is_utf8 bs then some bs else none
