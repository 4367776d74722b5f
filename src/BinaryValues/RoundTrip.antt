-- ===== src/BinaryValues/RoundTrip.antt =====
-- `parse_binary_values` on what `encode_binary_values` writes.
use libwing.Prelude.{
  append-nil, sym, none, zero, ap, some, All, suc, append_assoc, leb_false→lt, Option, false,
  if◌then◌else◌, Bool, ℕ, ◌≡◌, ◌≤◌, refl, ◌∙◌, true, [], ◌∷◌, ◌++◌, length, length-append, leb,
  leb→le, lt→leb_false, Bool-cases, inl, inr, arith,
}
use mathlib.Core.Bool.{true≢false}
use libwing.Prelude.Ints.{ℤ, as_u32, IsI32}
use libwing.Prelude.BigEndian.{Bytes, u32_to_be}
use libwing.Prelude.Utf8.{IsStr}
use libwing.Outcome.{err, Error, invalid_input, ok}
use libwing.Native.Value.{encode_value, IsValue, Encodable}
use libwing.Native.Request.Audio.Encoded.{encode_value-value_form, value_form}
use libwing.BinaryValues.{
  encode_binary_values, parse_binary_values, parse_loop, select, encode_pairs, Pairs, NodeValue,
  string, float, int, token, to_native,
}
use libwing.BinaryValues.Tokens.{ReadsBack, select_reads, value-ReadsBack, stop_reads}

-- The pairs that have a token.
abbrev pub has_token : NodeValue → Bool
has_token (string s) = leb (length s) 256
has_token _ = true

unfoldable pub encodable : Pairs → Pairs
encodable [] = []
encodable ((id, v) ∷ pairs) = if has_token v then (id, v) ∷ encodable pairs else encodable pairs

unfoldable stream : Pairs → Bytes
stream [] = 0xde ∷ []
stream ((id, v) ∷ pairs) =
    if has_token v
    then 0xd7 ∷ (u32_to_be (as_u32 id) ++ (value_form (to_native v) ++ stream pairs))
    else stream pairs

has_token-Encodable : (v : NodeValue) → has_token v ≡ true → Encodable (to_native v)
unfolding to_native
has_token-Encodable (string s) h = leb→le (length s) 256 h
has_token-Encodable (float bits) h = tt
has_token-Encodable (int v) h = tt

no_token :
    (v : NodeValue) → has_token v ≡ false → (e : Error) × (encode_value [] (to_native v) ≡ err e)
unfolding to_native encode_value
no_token (float bits) h = absurd (true≢false h)
no_token (int v) h = absurd (true≢false h)
no_token (string []) h = absurd (true≢false h)
no_token (string (c ∷ cs)) h = (
  invalid_input,
  rw (lt→leb_false (length (c ∷ cs)) 64 (omega (arith, leb_false→lt (length (c ∷ cs)) 256 h)), h),
)

encode_pairs-stream : (out : Bytes) (pairs : Pairs) → encode_pairs out pairs ≡ out ++ stream pairs
unfolding encode_pairs stream
encode_pairs-stream out [] = refl
encode_pairs-stream out ((id, v) ∷ pairs) = elim (Bool-cases (has_token v)) [
  | inl e ↦
      rw (e, encode_value-value_form [] (to_native v) (has_token-Encodable v e))
        (encode_pairs-stream
            (((out ++ 0xd7 ∷ []) ++ u32_to_be (as_u32 id)) ++ value_form (to_native v)) pairs
          ∙ append_assoc ((out ++ 0xd7 ∷ []) ++ u32_to_be (as_u32 id)) (value_form (to_native v))
              (stream pairs)
          ∙ append_assoc (out ++ 0xd7 ∷ []) (u32_to_be (as_u32 id))
              (value_form (to_native v) ++ stream pairs)
          ∙ append_assoc out (0xd7 ∷ [])
              (u32_to_be (as_u32 id) ++ (value_form (to_native v) ++ stream pairs)))
  | inr e ↦ let (x, fails) = no_token v e in rw (e, fails) (encode_pairs-stream out pairs)
]

-- What the Rust types of the pairs guarantee.
abbrev pub IsPair : ℤ × NodeValue → Type 0
IsPair (id, v) = IsI32 id × IsValue (to_native v)

module _ (from_utf8_lossy : Bytes → Bytes)
    (keeps : (s : Bytes) → IsStr s → from_utf8_lossy s ≡ s) where
  pair_step :
      (fuel : ℕ) (cur : Option ℤ) (out : Pairs) (id : ℤ) (v : NodeValue) (rest : Bytes)
      → IsI32 id
      → ReadsBack from_utf8_lossy keeps v
      → parse_loop from_utf8_lossy
          (suc (suc fuel))
          cur
          out
          (0xd7 ∷ (u32_to_be (as_u32 id) ++ (value_form (to_native v) ++ rest)))
        ≡ parse_loop from_utf8_lossy fuel (some id) (out ++ (id, v) ∷ []) rest
  unfolding parse_loop
  pair_step fuel cur out id v rest h (op, t, form, reads) = rw (form, selects, reads rest)
    where
      selects :
          token from_utf8_lossy 0xd7 (u32_to_be (as_u32 id) ++ (op ∷ t ++ rest))
          ≡ ok (select id, op ∷ t ++ rest)
      selects = select_reads from_utf8_lossy keeps id (op ∷ t ++ rest) h

  pair_loop :
      (fuel : ℕ) (cur : Option ℤ) (out : Pairs) (id : ℤ) (v : NodeValue) (pairs : Pairs)
      (rest : Bytes)
      → IsI32 id
      → ReadsBack from_utf8_lossy keeps v
      → length (0xd7 ∷ (u32_to_be (as_u32 id) ++ (value_form (to_native v) ++ rest))) ≤ fuel
      → ((f : ℕ) (c : Option ℤ) (o : Pairs)
          → length rest ≤ f
          → parse_loop from_utf8_lossy f c o rest ≡ ok (o ++ encodable pairs))
      → parse_loop from_utf8_lossy fuel cur out
          (0xd7 ∷ (u32_to_be (as_u32 id) ++ (value_form (to_native v) ++ rest)))
        ≡ ok (out ++ (id, v) ∷ encodable pairs)
  pair_loop zero cur out id v pairs rest h r le ih = absurd (omega arith)
  pair_loop (suc zero) cur out id v pairs rest h r le ih = absurd (omega arith)
  pair_loop (suc (suc fuel)) cur out id v pairs rest h r le ih =
      pair_step fuel cur out id v rest h r
      ∙ ih fuel (some id) (out ++ (id, v) ∷ [])
          (omega (arith, le, length-append (value_form (to_native v)) rest))
      ∙ ap ok (append_assoc out ((id, v) ∷ []) (encodable pairs))

  parse_loop-stream :
      (pairs : Pairs) (fuel : ℕ) (cur : Option ℤ) (out : Pairs)
      → All IsPair pairs
      → length (stream pairs) ≤ fuel
      → parse_loop from_utf8_lossy fuel cur out (stream pairs) ≡ ok (out ++ encodable pairs)
  unfolding parse_loop stream encodable
  parse_loop-stream [] zero cur out h le = absurd (omega arith)
  parse_loop-stream [] (suc fuel) cur out h le =
      rw (stop_reads from_utf8_lossy keeps []) (ap ok (sym (append-nil out)))
  parse_loop-stream ((id, v) ∷ pairs) fuel cur out h le = elim (Bool-cases (has_token v)) [
    | inl e ↦ rw e (
        pair_loop fuel cur out id v pairs (stream pairs) h.0.0
          (value-ReadsBack from_utf8_lossy keeps v h.0.1 (has_token-Encodable v e)) (rw e at le)
          (λ f c o less. parse_loop-stream pairs f c o h.1 less))
    | inr e ↦ rw e (parse_loop-stream pairs fuel cur out h.1 (rw e at le))
  ]

  -- A buffer that `encode_binary_values` writes is read back by `parse_binary_values` as the pairs
  -- in order, less those whose string is longer than 256 bytes, where the lossy decoding of a
  -- string keeps valid UTF-8.
  pub parse_binary_values-encode_binary_values :
      (pairs : Pairs)
      → All IsPair pairs
      → parse_binary_values from_utf8_lossy (encode_binary_values pairs) ≡ ok (encodable pairs)
  unfolding parse_binary_values encode_binary_values
  parse_binary_values-encode_binary_values pairs h =
      ap (parse_binary_values from_utf8_lossy) (encode_pairs-stream [] pairs)
      ∙ parse_loop-stream pairs (length (stream pairs)) none [] h (omega arith)
