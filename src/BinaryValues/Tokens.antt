-- ===== src/BinaryValues/Tokens.antt =====
-- Each token of `encode_binary_values`, read by `parse_binary_values`.
use libwing.Prelude.{
  ltb→lt, ℕ, ◌+◌, ◌-◌, ◌^◌, ◌≡◌, ◌≤◌, refl, ◌∙◌, true, [], ◌∷◌, ◌++◌, length, length-append,
  take-append, drop-append, leb, le→leb, leb→le, lt→leb_false, le→ltb_false, Bool-cases, inl, inr,
  arith,
}
use libwing.Prelude.Ints.{
  IsI16, ℤ, pos, negsuc, as_u16, as_u32, as_i16, as_i32, IsI32, as_i16-as_u16, as_i32-as_u32,
  as_u16-lt, as_u32-lt,
}
use libwing.Prelude.BigEndian.{Bytes, from_be, from_be-u16, from_be-u32, u16_to_be, u32_to_be}
use libwing.Prelude.Utf8.{IsStr}
use libwing.Outcome.{ok}
use libwing.Native.Value.{in_token, fits_i16, IsValue, Encodable}
use libwing.Native.Request.Audio.Encoded.{value_form}
use libwing.BinaryValues.{
  select, stop, NodeValue, string, float, int, Token, emit, take_then, token, high_token, to_native,
}

take_then-append :
    (w rest : Bytes) (f : Bytes → Token) → take_then (length w) (w ++ rest) f ≡ ok (f w, rest)
unfolding take_then
take_then-append w rest f = rw (
  le→ltb_false (length (w ++ rest)) (length w) (omega (arith, length-append w rest)),
  take-append,
  drop-append,
)

module _ (from_utf8_lossy : Bytes → Bytes)
    (keeps : (s : Bytes) → IsStr s → from_utf8_lossy s ≡ s) where
  pub select_reads :
      (id : ℤ) (rest : Bytes)
      → IsI32 id
      → token from_utf8_lossy 0xd7 (u32_to_be (as_u32 id) ++ rest) ≡ ok (select id, rest)
  unfolding token high_token
  select_reads id rest h =
      take_then-append (u32_to_be (as_u32 id)) rest (λ b. select (as_i32 (from_be b)))
      ∙ rw (from_be-u32 (as_u32 id) (as_u32-lt id h), as_i32-as_u32 id h)

  -- The token of a value reads as that value, whatever follows.
  abbrev pub ReadsBack : NodeValue → Type 0
  ReadsBack v =
      (op : ℕ) × (t : Bytes) × (value_form (to_native v) ≡ op ∷ t)
      × ((rest : Bytes) → token from_utf8_lossy op (t ++ rest) ≡ ok (emit v, rest))

  fits_i16-IsI16 : (v : ℤ) → fits_i16 v ≡ true → IsI16 v
  fits_i16-IsI16 (pos n) h = ltb→lt n (2 ^ 15) h
  fits_i16-IsI16 (negsuc n) h = ltb→lt n (2 ^ 15) h

  word_reads :
      (v : ℤ) (rest : Bytes)
      → IsI16 v
      → token from_utf8_lossy 0xd3 (u16_to_be (as_u16 v) ++ rest) ≡ ok (emit (int v), rest)
  unfolding token high_token
  word_reads v rest h =
      take_then-append (u16_to_be (as_u16 v)) rest (λ b. emit (int (as_i16 (from_be b))))
      ∙ rw (from_be-u16 (as_u16 v) (as_u16-lt v h), as_i16-as_u16 v h)

  long_reads :
      (v : ℤ) (rest : Bytes)
      → IsI32 v
      → token from_utf8_lossy 0xd4 (u32_to_be (as_u32 v) ++ rest) ≡ ok (emit (int v), rest)
  unfolding token high_token
  long_reads v rest h =
      take_then-append (u32_to_be (as_u32 v)) rest (λ b. emit (int (as_i32 (from_be b))))
      ∙ rw (from_be-u32 (as_u32 v) (as_u32-lt v h), as_i32-as_u32 v h)

  int-ReadsBack : (v : ℤ) → IsI32 v → ReadsBack (int v)
  unfolding to_native value_form token
  int-ReadsBack (pos n) h = elim (Bool-cases (in_token (pos n))) [
    | inl e ↦ (n, [], rw e, λ rest. rw e)
    | inr e ↦ elim (Bool-cases (fits_i16 (pos n))) [
      | inl f ↦ (
        0xd3,
        u16_to_be (as_u16 (pos n)),
        rw (e, f),
        λ rest. word_reads (pos n) rest (fits_i16-IsI16 (pos n) f),
      )
      | inr f ↦ (0xd4, u32_to_be (as_u32 (pos n)), rw (e, f), λ rest. long_reads (pos n) rest h)
    ]
  ]
  int-ReadsBack (negsuc n) h = elim (Bool-cases (fits_i16 (negsuc n))) [
    | inl f ↦ (
      0xd3,
      u16_to_be (as_u16 (negsuc n)),
      rw f,
      λ rest. word_reads (negsuc n) rest (fits_i16-IsI16 (negsuc n) f),
    )
    | inr f ↦ (0xd4, u32_to_be (as_u32 (negsuc n)), rw f, λ rest. long_reads (negsuc n) rest h)
  ]

  string_reads :
      (s rest : Bytes)
      → 1 ≤ length s
      → length s ≤ 64
      → IsStr s
      → token from_utf8_lossy (0x7f + length s) (s ++ rest) ≡ ok (emit (string s), rest)
  unfolding token
  string_reads s rest lo hi utf8 = rw (
    lt→leb_false (0x7f + length s) 0x3f (omega arith),
    lt→leb_false (0x7f + length s) 0x7f (omega arith),
    le→leb (0x7f + length s) 0xbf (omega arith),
    count,
    take_then-append s rest (λ b. emit (string (from_utf8_lossy b))),
    keeps s utf8,
  )
    where
      count : 0x7f + length s - 0x80 + 1 ≡ length s
      count = omega arith

  long_string_reads :
      (s rest : Bytes)
      → 1 ≤ length s
      → IsStr s
      → token from_utf8_lossy 0xd1 ((length s - 1) ∷ (s ++ rest)) ≡ ok (emit (string s), rest)
  unfolding token high_token
  long_string_reads s rest lo utf8 =
      rw (count, take_then-append s rest (λ b. emit (string (from_utf8_lossy b))), keeps s utf8)
    where
      count : length s - 1 + 1 ≡ length s
      count = omega arith

  pub value-ReadsBack :
      (v : NodeValue) → IsValue (to_native v) → Encodable (to_native v) → ReadsBack v
  unfolding to_native value_form token high_token
  value-ReadsBack (int v) h e = int-ReadsBack v h
  value-ReadsBack (float bits) h e = (
    0xd5,
    u32_to_be bits,
    refl,
    λ rest.
        take_then-append (u32_to_be bits) rest (λ b. emit (float (from_be b)))
        ∙ rw (from_be-u32 bits h),
  )
  value-ReadsBack (string []) h e = (0xd0, [], refl, λ rest. refl)
  value-ReadsBack (string (c ∷ cs)) h e = elim (Bool-cases (leb (length (c ∷ cs)) 64)) [
    | inl f ↦ (
      0x7f + length (c ∷ cs),
      c ∷ cs,
      rw f,
      λ rest. string_reads (c ∷ cs) rest (omega arith) (leb→le (length (c ∷ cs)) 64 f) h.0,
    )
    | inr f ↦ (
      0xd1,
      (length (c ∷ cs) - 1) ∷ c ∷ cs,
      rw f,
      λ rest. long_string_reads (c ∷ cs) rest (omega arith) h.0,
    )
  ]

  pub stop_reads : (rest : Bytes) → token from_utf8_lossy 0xde rest ≡ ok (stop, rest)
  unfolding token high_token
  stop_reads rest = refl
