-- ===== src/Native/Request/Audio/Encoded.antt =====
-- One pass of `parse_audio` on the tokens that the encoders of src/native.rs and src/console.rs write.
use libwing.Native.Request.Audio.Token.{token_len, op_len}
use libwing.Native.Value.{
  fits_i16, in_token, NativeValue, integer, float, raw_float, string, encode_value, IsValue,
  Encodable,
}
use libwing.Prelude.BigEndian.{from_be, from_be-u16, from_be-u32, u16_to_be, u32_to_be, Bytes}
use libwing.Prelude.{
  Option, ◌∙◌, take-length, drop-append, drop-length, lt→ltb, suc, lt→leb_false, length-append, ◌^◌,
  true, le→ltb_false, drop, ltb→lt, false, ◌==◌, leb→le, ℕ, ◌≤◌, le→leb, some, inr, inl, Bool-cases,
  refl, ◌-◌, ◌+◌, leb, append_assoc, [], ap, ◌∷◌, arith, ◌++◌, ◌≡◌, if◌then◌else◌, length,
}
use libwing.Outcome.{invalid_data, ok_or, and_then, ok}
use libwing.Prelude.Ints.{
  as_i16-as_u16, as_i32-as_u32, as_u32-lt, IsI32, ℤ, as_u32, negsuc, as_u16, pos,
}
use libwing.Native.Request.Audio.{drain, set_value, parse_string_token, request, again, audio_step}
use libwing.Native.Request.{NativeLimits, set, NativeRequestDecoder}
use libwing.Native.Request.Push.Bytewise.{with_audio}
use libwing.Prelude.Utf8.{IsStr}
use libwing.Native.Request.Audio.Path.{from_utf8-some}

-- The token of a value, and that `encode_value` appends it.
unfoldable pub value_form : NativeValue → Bytes
value_form (integer v) =
    if in_token v
    then as_u16 v ∷ []
    else if fits_i16 v
    then 0xd3 ∷ u16_to_be (as_u16 v)
    else 0xd4 ∷ u32_to_be (as_u32 v)
value_form (float bits) = 0xd5 ∷ u32_to_be bits
value_form (raw_float bits) = 0xd6 ∷ u32_to_be bits
value_form (string []) = 0xd0 ∷ []
value_form (string (c ∷ cs)) =
    let s : Bytes = c ∷ cs in
    if leb (length s) 64 then (0x7f + length s) ∷ s else 0xd1 ∷ (length s - 1) ∷ s

pub encode_value-value_form :
    (out : Bytes) (v : NativeValue) → Encodable v → encode_value out v ≡ ok (out ++ value_form v)
unfolding encode_value value_form
encode_value-value_form out (integer v) h = elim (Bool-cases (in_token v)) [
  | inl e ↦ rw e
  | inr e ↦ elim (Bool-cases (fits_i16 v)) [
    | inl f ↦ rw (e, f) (ap ok (append_assoc out (0xd3 ∷ []) (u16_to_be (as_u16 v))))
    | inr f ↦ rw (e, f) (ap ok (append_assoc out (0xd4 ∷ []) (u32_to_be (as_u32 v))))
  ]
]
encode_value-value_form out (float bits) h = ap ok (append_assoc out (0xd5 ∷ []) (u32_to_be bits))
encode_value-value_form out (raw_float bits) h =
    ap ok (append_assoc out (0xd6 ∷ []) (u32_to_be bits))
encode_value-value_form out (string []) h = refl
encode_value-value_form out (string (c ∷ cs)) h = elim (Bool-cases (leb (length (c ∷ cs)) 64)) [
  | inl e ↦ rw e (ap ok (append_assoc out ((0x7f + length (c ∷ cs)) ∷ []) (c ∷ cs)))
  | inr e ↦
      rw (e, le→leb (length (c ∷ cs)) 256 h)
        (ap ok (append_assoc out (0xd1 ∷ (length (c ∷ cs) - 1) ∷ []) (c ∷ cs)))
]

pub value_form-exact :
    (v : NativeValue) → Encodable v → length (value_form v) ≡ token_len (value_form v)
unfolding value_form op_len
value_form-exact (integer (pos n)) h = ground arith
value_form-exact (integer (negsuc n)) h = ground arith
value_form-exact (float bits) h = refl
value_form-exact (raw_float bits) h = refl
value_form-exact (string []) h = refl
value_form-exact (string (c ∷ cs)) h = ground arith

-- `0xd7` and the id.
abbrev pub select_form : ℤ → Bytes
select_form id = 0xd7 ∷ u32_to_be (as_u32 id)

pub select_form-exact : (id : ℤ) → length (select_form id) ≡ token_len (select_form id)
unfolding op_len
select_form-exact id = refl

-- The selection of a node takes the whole token and sends no request.
pub audio_step-select_form :
    (id : ℤ) (d : NativeRequestDecoder)
    → IsI32 id
    → audio_step (with_audio (select_form id) d)
      ≡ (ok again, record d { audio = []; selected_id = some id })
unfolding audio_step
audio_step-select_form id d h = rw (from_be-u32 (as_u32 id) (as_u32-lt id h), as_i32-as_u32 id h)

abbrev SetStep : ℤ → NativeValue → NativeRequestDecoder → Type 0
SetStep id v d =
    audio_step (with_audio (value_form v) d) ≡ (ok (request (set id v)), with_audio [] d)

small_token :
    (id : ℤ) (n : ℕ) (d : NativeRequestDecoder)
    → d.selected_id ≡ some id
    → n ≤ 0x3f
    → audio_step (with_audio (n ∷ []) d)
      ≡ (ok (request (set id (integer (pos n)))), with_audio [] d)
unfolding audio_step
small_token id n d sel h = rw (not_select, is_low, le→leb n 0x3f h, sel)
  where
    not_select : (n == 0xd7) ≡ false
    not_select = ground arith

    is_low : leb n 0xcf ≡ true
    is_low = le→leb n 0xcf (omega arith)

set_integer :
    (id v : ℤ) (d : NativeRequestDecoder)
    → d.selected_id ≡ some id
    → IsI32 v
    → SetStep id (integer v) d
unfolding audio_step value_form
set_integer id (pos n) d sel h = elim (Bool-cases (in_token (pos n))) [
  | inl e ↦ rw e (small_token id n d sel (leb→le n 0x3f e))
  | inr e ↦ elim (Bool-cases (fits_i16 (pos n))) [
    | inl f ↦ rw (e, f, from_be-u16 n (omega (arith, ltb→lt n (2 ^ 15) f)), f, sel)
    | inr f ↦ rw (e, f, from_be-u32 n (omega arith), lt→ltb n (2 ^ 31) h, sel)
  ]
]
set_integer id (negsuc n) d sel h = elim (Bool-cases (fits_i16 (negsuc n))) [
  | inl f ↦ rw (
    f,
    from_be-u16 (2 ^ 16 - 1 - n) (omega arith),
    as_i16-as_u16 (negsuc n) (ltb→lt n (2 ^ 15) f),
    sel,
  )
  | inr f ↦ rw (f, from_be-u32 (2 ^ 32 - 1 - n) (omega arith), as_i32-as_u32 (negsuc n) h, sel)
]

set_value_ok :
    (id : ℤ) (used : ℕ) (v : NativeValue) (d : NativeRequestDecoder)
    → d.selected_id ≡ some id
    → set_value used v d ≡ (ok (request (set id v)), drain used d)
set_value_ok id used v d sel =
    ap
      (λ (o : Option ℤ).
        and_then (ok_or invalid_data o, d) (λ i s. (ok (request (set i v)), drain used s)))
      sel

parse_string_ok :
    (id : ℤ) (s front : Bytes) (header : ℕ) (d : NativeRequestDecoder)
    → length front ≡ header
    → d.selected_id ≡ some id
    → length s ≤ d.limits.max_string_bytes
    → IsStr s
    → parse_string_token (length s) header (with_audio (front ++ s) d)
      ≡ (ok (request (set id (string s))), with_audio [] d)
parse_string_ok id s front header d e sel room utf8 =
    rw
      (
        le→ltb_false d.limits.max_string_bytes (length s) room,
        ← e,
        drop-append,
        take-length,
        from_utf8-some s utf8,
      )
      (set_value_ok id (length front + length s) (string s) (with_audio (front ++ s) d) sel
        ∙ ap (λ (t : Bytes). (ok (request (set id (string s))), with_audio t d)) all)
  where
    all : drop (length front + length s) (front ++ s) ≡ []
    all = rw (← length-append front s) (drop-length (front ++ s))

string_token :
    (id : ℤ) (op : ℕ) (s : Bytes) (d : NativeRequestDecoder)
    → op ≡ 0x7f + length s
    → 1 ≤ length s
    → length s ≤ 64
    → d.selected_id ≡ some id
    → length s ≤ d.limits.max_string_bytes
    → IsStr s
    → audio_step (with_audio (op ∷ s) d) ≡ (ok (request (set id (string s))), with_audio [] d)
unfolding audio_step
string_token id op s d e lo hi sel room utf8 =
    rw
      (
        not_select,
        le→leb op 0xcf (omega arith),
        lt→leb_false op 0x3f (omega arith),
        lt→leb_false op 0x7f (omega arith),
        le→leb op 0xbf (omega arith),
        count,
        le→ltb_false (suc (length s)) (length s + 1) (omega arith),
      )
      (parse_string_ok id s (op ∷ []) 1 d refl sel room utf8)
  where
    not_select : (op == 0xd7) ≡ false
    not_select = ground arith

    count : op - 0x7f ≡ length s
    count = omega arith

long_token :
    (id : ℤ) (l : ℕ) (s : Bytes) (d : NativeRequestDecoder)
    → l + 1 ≡ length s
    → d.selected_id ≡ some id
    → length s ≤ d.limits.max_string_bytes
    → IsStr s
    → audio_step (with_audio (0xd1 ∷ l ∷ s) d) ≡ (ok (request (set id (string s))), with_audio [] d)
unfolding audio_step
long_token id l s d e sel room utf8 =
    rw (count, le→ltb_false (suc (suc (length s))) (length s + 2) (omega arith))
      (parse_string_ok id s (0xd1 ∷ l ∷ []) 2 d refl sel room utf8)
  where
    count : from_be (l ∷ []) + 1 ≡ length s
    count = omega arith

set_string :
    (id : ℤ) (s : Bytes) (d : NativeRequestDecoder)
    → d.selected_id ≡ some id
    → length s ≤ d.limits.max_string_bytes
    → length s ≤ 256
    → IsStr s
    → SetStep id (string s) d
unfolding value_form
set_string id [] d sel room h utf8 = unfold audio_step in rw sel
set_string id (c ∷ cs) d sel room h utf8 = elim (Bool-cases (leb (length (c ∷ cs)) 64)) [
  | inl e ↦ rw e (
      string_token id (0x7f + length (c ∷ cs)) (c ∷ cs) d refl (omega arith)
        (leb→le (length (c ∷ cs)) 64 e) sel room utf8)
  | inr e ↦ rw e (long_token id (length (c ∷ cs) - 1) (c ∷ cs) d (omega arith) sel room utf8)
]

-- The string tokens that these limits accept.
abbrev pub Accepts : NativeLimits → NativeValue → Type 0
Accepts limits (string s) = length s ≤ limits.max_string_bytes
Accepts limits _ = Unit

-- One pass over the token of a value is the request to set the selected node to that value.
pub audio_step-value_form :
    (id : ℤ) (v : NativeValue) (d : NativeRequestDecoder)
    → d.selected_id ≡ some id
    → IsValue v
    → Encodable v
    → Accepts d.limits v
    → audio_step (with_audio (value_form v) d) ≡ (ok (request (set id v)), with_audio [] d)
audio_step-value_form id (integer v) d sel h e a = set_integer id v d sel h
audio_step-value_form id (float bits) d sel h e a =
    unfold audio_step value_form in rw (from_be-u32 bits h, sel)
audio_step-value_form id (raw_float bits) d sel h e a =
    unfold audio_step value_form in rw (from_be-u32 bits h, sel)
audio_step-value_form id (string s) d sel h e a = set_string id s d sel a e h.0
