-- ===== src/Node/Readers.antt =====
-- Each reader of src/node.rs on what the matching writer puts there, whatever follows.
use libwing.Node.Decode.{
  take_bytes, read_u8, read_u16, read_i32, read_f32, read_string, read_short_string,
}
use libwing.Prelude.BigEndian.{from_be, from_be-u16, from_be-u32, u16_to_be, u32_to_be, Bytes}
use libwing.Prelude.{
  inr, append_assoc, ◌∙◌, sym, leb→le, inl, leb, drop-append, Bool-cases, take-append,
  length-append, arith, ◌≤◌, [], le→ltb_false, ◌^◌, ◌++◌, ◌≡◌, ◌<◌, ◌∷◌, length, ℕ,
}
use libwing.Prelude.Ints.{as_i32-as_u32, as_u32-lt, as_u32, IsI32, ℤ}
use libwing.Node.Encode.{push_short_string}
use libwing.Prelude.Utf8.{IsStr}
use libwing.Outcome.{err-ne-ok, ok-injective, ok}
use libwing.Native.Request.Audio.Path.{from_utf8-some}

take_bytes-append : (w rest : Bytes) → take_bytes (length w) (w ++ rest) ≡ ok (w, rest)
unfolding take_bytes
take_bytes-append w rest = rw (
  le→ltb_false (length (w ++ rest)) (length w) (omega (arith, length-append w rest)),
  take-append,
  drop-append,
)

take_four :
    (a b c d : ℕ) (rest : Bytes)
    → take_bytes 4 (a ∷ b ∷ c ∷ d ∷ rest) ≡ ok (a ∷ b ∷ c ∷ d ∷ [], rest)
take_four a b c d rest = take_bytes-append (a ∷ b ∷ c ∷ d ∷ []) rest

pub read_u16-be :
    (n : ℕ) (rest : Bytes) → n < 2 ^ 16 → read_u16 (u16_to_be n ++ rest) ≡ ok (n, rest)
unfolding read_u16
read_u16-be n rest h = rw (take_bytes-append (u16_to_be n) rest, from_be-u16 n h)

pub read_f32-be :
    (n : ℕ) (rest : Bytes) → n < 2 ^ 32 → read_f32 (u32_to_be n ++ rest) ≡ ok (n, rest)
unfolding read_f32
read_f32-be n rest h = rw (take_bytes-append (u32_to_be n) rest, from_be-u32 n h)

pub read_i32-be :
    (v : ℤ) (rest : Bytes) → IsI32 v → read_i32 (u32_to_be (as_u32 v) ++ rest) ≡ ok (v, rest)
unfolding read_i32
read_i32-be v rest h = rw (
  take_bytes-append (u32_to_be (as_u32 v)) rest,
  from_be-u32 (as_u32 v) (as_u32-lt v h),
  as_i32-as_u32 v h,
)

abbrev pub short_form : Bytes → Bytes
short_form s = length s ∷ s

pub read_short_string-form :
    (s rest : Bytes) → IsStr s → read_short_string (short_form s ++ rest) ≡ ok (s, rest)
unfolding read_short_string read_u8 read_string
read_short_string-form s rest h = rw (
  take_bytes-append (length s ∷ []) (s ++ rest),
  plain,
  take_bytes-append s rest,
  from_utf8-some s h,
)
  where
    plain : from_be (length s ∷ []) ≡ length s
    plain = omega arith

-- `push_short_string` accepts a string of up to 255 bytes, and appends its length and its bytes.
pub push_short_string-ok :
    (raw s : Bytes) {raw' : Bytes}
    → push_short_string raw s ≡ ok raw'
    → (length s ≤ 255) × (raw' ≡ raw ++ short_form s)
unfolding push_short_string
push_short_string-ok raw s {raw'} h = elim (Bool-cases (leb (length s) 255)) [
  | inl e ↦
      (leb→le (length s) 255 e, sym (ok-injective (rw e at h)) ∙ append_assoc raw (length s ∷ []) s)
  | inr e ↦ absurd (err-ne-ok (rw e at h))
]
