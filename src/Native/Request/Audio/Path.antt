-- ===== src/Native/Request/Audio/Path.antt =====
-- The path accounting of the audio parser: pushing and popping within the limits.
use libwing.Prelude.{
  length-append, zero, ◌++◌, List, take, some, suc, true, ℕ, ◌+◌, ◌-◌, ◌≤◌, ◌≡◌, [], ◌∷◌, length,
  arith,
}
use libwing.Prelude.BigEndian.{Bytes}
use libwing.Native.Request.{index, name, PathElement, NativeLimits, NativeRequestDecoder}
use libwing.Native.Request.Audio.{popped_bytes, pop, path_room}
use libwing.Prelude.Utf8.{IsStr, from_utf8}
use libwing.Native.Request.Audio.Token.{PathOk, PathFits, name_bytes}

name_bytes-append :
    (path : List PathElement) (x : PathElement)
    → name_bytes (path ++ x ∷ []) ≡ name_bytes path + name_bytes (x ∷ [])
unfolding name_bytes
name_bytes-append [] x = omega arith
name_bytes-append (name n ∷ path) x = omega (arith, name_bytes-append path x)
name_bytes-append (index i ∷ path) x = name_bytes-append path x

pop_bytes :
    (path : List PathElement)
    → name_bytes (pop path).1 + popped_bytes (pop path).0 ≡ name_bytes path
unfolding name_bytes
pop_bytes [] = omega arith
pop_bytes (name n ∷ []) = omega arith
pop_bytes (index i ∷ []) = omega arith
pop_bytes (name n ∷ y ∷ rest) = omega (arith, pop_bytes (y ∷ rest))
pop_bytes (index i ∷ y ∷ rest) = omega (arith, pop_bytes (y ∷ rest))

length-pop : (path : List PathElement) → length (pop path).1 ≤ length path
length-pop [] = omega arith
length-pop (x ∷ []) = omega arith
length-pop (x ∷ y ∷ rest) = omega (arith, length-pop (y ∷ rest))

pub PathFits-pop :
    {limits : NativeLimits} {path : List PathElement} {bytes : ℕ}
    → PathFits limits path bytes
    → PathFits limits (pop path).1 (bytes - popped_bytes (pop path).0)
PathFits-pop {path = path} h = omega (arith, pop_bytes path, length-pop path)

pub PathFits-index :
    (i : ℕ) (d : NativeRequestDecoder)
    → path_room 0 d ≡ true
    → PathOk d
    → PathFits d.limits (d.path ++ index i ∷ []) d.path_bytes
unfolding name_bytes
PathFits-index i d room h =
    ground (arith, name_bytes-append d.path (index i), length-append d.path (index i ∷ []))

pub length-take_le : (n : ℕ) (xs : Bytes) → n ≤ length xs → length (take n xs) ≡ n
length-take_le zero xs h = omega arith
length-take_le (suc n) [] h = absurd (omega arith)
length-take_le (suc n) (x ∷ xs) h = omega (arith, length-take_le n xs (omega arith))

pub PathFits-name :
    (n : Bytes) (len : ℕ) (d : NativeRequestDecoder)
    → path_room len d ≡ true
    → length n ≡ len
    → PathOk d
    → PathFits d.limits (d.path ++ name n ∷ []) (d.path_bytes + len)
unfolding name_bytes
PathFits-name n len d room e h =
    ground (arith, name_bytes-append d.path (name n), length-append d.path (name n ∷ []))

-- `from_utf8` returns the bytes that it was given.
pub from_utf8-eq : (bs : Bytes) {s : Bytes} → from_utf8 bs ≡ some s → s ≡ bs
unfolding from_utf8
from_utf8-eq bs h = ground arith

pub from_utf8-some : (bs : Bytes) → IsStr bs → from_utf8 bs ≡ some bs
unfolding from_utf8
from_utf8-some bs h = rw h
