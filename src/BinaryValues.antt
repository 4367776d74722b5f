-- ===== src/BinaryValues.antt =====
-- `NodeValue`, `parse_binary_values` and `encode_binary_values` of src/console.rs: the values of a
-- subtree as one stream of tokens.
pub mod Tokens
pub mod RoundTrip
use libwing.Prelude.{
  ℕ, zero, suc, ◌+◌, ◌-◌, Option, none, some, List, [], ◌∷◌, ◌++◌, leb, ltb, ◌==◌, ◌||◌, length,
  take, drop, if◌then◌else◌,
}
use libwing.Prelude.Ints.{ℤ, pos, as_u32, as_i16, as_i32}
use libwing.Prelude.BigEndian.{Bytes, from_be, u32_to_be}
use libwing.Outcome.{Result, ok, err, bind, ok_or, invalid_data}
use libwing.Native.Value
use libwing.Native.Value.{NativeValue, encode_value}

pub data NodeValue : Type 0 where
  string : Bytes → NodeValue
  float : ℕ → NodeValue
  int : ℤ → NodeValue

-- What one token does: a value for the current node, another current node, nothing, the end.
pub data Token : Type 0 where
  emit : NodeValue → Token
  select : ℤ → Token
  skip stop : Token

-- `take` at the cursor, and the rest of the token.
unfoldable pub take_then : ℕ → Bytes → (Bytes → Token) → Result (Token × Bytes)
take_then n rest f =
    if ltb (length rest) n then err invalid_data else ok (f (take n rest), drop n rest)

abbrev pub Pairs : Type 0
Pairs = List (ℤ × NodeValue)

-- What the loop does with a token; `more` is its next round.
abbrev pub after_token :
    (Option ℤ → Pairs → Bytes → Result Pairs) → Option ℤ → Pairs → Token → Bytes → Result Pairs
after_token more cur out (emit v) rest =
    bind (ok_or invalid_data cur) (λ id. more cur (out ++ (id, v) ∷ []) rest)
after_token more cur out (select id) rest = more (some id) out rest
after_token more cur out skip rest = more cur out rest
after_token more cur out stop rest = ok out

-- `String::from_utf8_lossy` is the standard library's.
module _ (from_utf8_lossy : Bytes → Bytes) where
  abbrev pub str_from : Bytes → NodeValue
  str_from bytes = string (from_utf8_lossy bytes)

  abbrev long_token : Bytes → Result (Token × Bytes)
  long_token [] = err invalid_data
  long_token (len ∷ rest) = take_then (len + 1) rest (λ s. emit (str_from s))

  -- The opcodes from 0xd0 on.
  unfoldable pub high_token : ℕ → Bytes → Result (Token × Bytes)
  high_token cmd rest =
      if cmd == 0xd0
      then ok (emit (string []), rest)
      else if cmd == 0xd1
      then long_token rest
      else if cmd == 0xd2
      then take_then 2 rest (λ b. skip)
      else if cmd == 0xd3
      then take_then 2 rest (λ b. emit (int (as_i16 (from_be b))))
      else if cmd == 0xd4
      then take_then 4 rest (λ b. emit (int (as_i32 (from_be b))))
      else if (cmd == 0xd5) || (cmd == 0xd6)
      then take_then 4 rest (λ b. emit (float (from_be b)))
      else if cmd == 0xd7
      then take_then 4 rest (λ b. select (as_i32 (from_be b)))
      else if cmd == 0xd8
      then ok (skip, rest)
      else if cmd == 0xd9
      then take_then 1 rest (λ b. skip)
      else if leb cmd 0xdd
      then ok (skip, rest)
      else if cmd == 0xde
      then ok (stop, rest)
      else err invalid_data

  -- The `match` on the opcode.
  unfoldable pub token : ℕ → Bytes → Result (Token × Bytes)
  token cmd rest =
      if leb cmd 0x3f
      then ok (emit (int (pos cmd)), rest)
      else if leb cmd 0x7f
      then ok (skip, rest)
      else if leb cmd 0xbf
      then take_then (cmd - 0x80 + 1) rest (λ s. emit (str_from s))
      else if leb cmd 0xcf
      then take_then (cmd - 0xc0 + 1) rest (λ s. skip)
      else high_token cmd rest

  -- Each round takes a byte at least, so the length of the buffer is enough.
  unfoldable pub parse_loop : ℕ → Option ℤ → Pairs → Bytes → Result Pairs
  parse_loop fuel cur out [] = ok out
  parse_loop zero cur out (cmd ∷ rest) = ok out
  parse_loop (suc fuel) cur out (cmd ∷ rest) =
      bind (token cmd rest) (λ (t, rest'). after_token (parse_loop fuel) cur out t rest')

  unfoldable pub parse_binary_values : Bytes → Result Pairs
  parse_binary_values buffer = parse_loop (length buffer) none [] buffer

unfoldable pub to_native : NodeValue → NativeValue
to_native (int v) = Value.integer v
to_native (float bits) = Value.float bits
to_native (string s) = Value.string s

abbrev pub append_pair : Bytes → ℤ → Result Bytes → Bytes
append_pair out id (ok encoded_value) =
    ((out ++ 0xd7 ∷ []) ++ u32_to_be (as_u32 id)) ++ encoded_value
append_pair out id (err e) = out

unfoldable pub encode_pairs : Bytes → List (ℤ × NodeValue) → Bytes
encode_pairs out [] = out ++ 0xde ∷ []
encode_pairs out ((id, v) ∷ pairs) =
    encode_pairs (append_pair out id (encode_value [] (to_native v))) pairs

unfoldable pub encode_binary_values : List (ℤ × NodeValue) → Bytes
encode_binary_values pairs = encode_pairs [] pairs
