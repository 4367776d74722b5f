-- ===== src/Native/Value.antt =====
-- `NativeValue` and `encode_value` of src/native.rs: the value token shared by the client's set
-- messages and the server's responses. An f32 is its bit pattern, a string its UTF-8 bytes.
use libwing.Prelude.{
  ℕ, ◌+◌, ◌-◌, ◌≤◌, ◌<◌, ◌^◌, [], ◌∷◌, ◌++◌, ltb, leb, length, if◌then◌else◌, All, Bool, false,
}
use libwing.Prelude.Ints.{ℤ, pos, negsuc, IsI32, as_u16, as_u32}
use libwing.Prelude.BigEndian.{Bytes, IsByte, u16_to_be, u32_to_be}
use libwing.Prelude.Utf8.{IsStr}
use libwing.Outcome.{Result, ok, err, invalid_input}

pub data NativeValue : Type 0 where
  integer : ℤ → NativeValue
  float raw_float : ℕ → NativeValue
  string : Bytes → NativeValue

-- `(0..=0x3f).contains(value)` and `i16::try_from(value).is_ok()`.
abbrev pub in_token : ℤ → Bool
in_token (pos n) = leb n 0x3f
in_token (negsuc n) = false

abbrev pub fits_i16 : ℤ → Bool
fits_i16 (pos n) = ltb n (2 ^ 15)
fits_i16 (negsuc n) = ltb n (2 ^ 15)

unfoldable pub encode_integer : Bytes → ℤ → Bytes
encode_integer payload v =
    if in_token v
    then payload ++ as_u16 v ∷ []
    else if fits_i16 v
    then (payload ++ 0xd3 ∷ []) ++ u16_to_be (as_u16 v)
    else (payload ++ 0xd4 ∷ []) ++ u32_to_be (as_u32 v)

unfoldable pub encode_string : Bytes → Bytes → Result Bytes
encode_string payload [] = ok (payload ++ 0xd0 ∷ [])
encode_string payload (c ∷ cs) =
    let s : Bytes = c ∷ cs in
    if leb (length s) 64
    then ok ((payload ++ (0x7f + length s) ∷ []) ++ s)
    else if leb (length s) 256
    then ok ((payload ++ 0xd1 ∷ (length s - 1) ∷ []) ++ s)
    else err invalid_input

-- `payload` is the buffer that the token is appended to.
unfoldable pub encode_value : Bytes → NativeValue → Result Bytes
unfolding encode_integer encode_string
encode_value payload (integer v) = ok (encode_integer payload v)
encode_value payload (float bits) = ok ((payload ++ 0xd5 ∷ []) ++ u32_to_be bits)
encode_value payload (raw_float bits) = ok ((payload ++ 0xd6 ∷ []) ++ u32_to_be bits)
encode_value payload (string s) = encode_string payload s

-- What the Rust type of a value guarantees.
abbrev pub IsValue : NativeValue → Type 0
IsValue (integer v) = IsI32 v
IsValue (float bits) = bits < 2 ^ 32
IsValue (raw_float bits) = bits < 2 ^ 32
IsValue (string s) = IsStr s × All IsByte s

-- The strings that have a token.
abbrev pub Encodable : NativeValue → Type 0
Encodable (string s) = length s ≤ 256
Encodable _ = Unit
