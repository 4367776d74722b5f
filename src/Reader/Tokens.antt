-- ===== src/Reader/Tokens.antt =====
-- The loop of `read_inner` of src/console.rs on the tokens that src/native.rs writes.
use libwing.Prelude.{
  ltb→lt, leb→le, ℕ, suc, ◌+◌, ◌-◌, ◌≤◌, ◌^◌, ◌≡◌, refl, ap, [], ◌∷◌, ◌++◌, length, arith, leb,
  le→leb, lt→leb_false, Option, none, some, true, false, Bool-cases, inl, inr,
}
use libwing.Prelude.BigEndian.{u16_to_be, u32_to_be, Bytes}
use libwing.Prelude.Ints.{IsI16, as_u16, as_u32, IsI32, ℤ, pos, negsuc}
use libwing.Outcome.{ok}
use libwing.Reader.{node_data, WingResponse, Reader, Main, Run, done, and_then, ◌>>=◌}
use libwing.Native.Value.{
  fits_i16, in_token, Encodable, IsValue, string, raw_float, float, integer, NativeValue,
}
use libwing.NodeValue.{with_string, with_float, with_i32, WingNodeData}
use libwing.Native.Request.Audio.Encoded.{select_form, value_form}
use libwing.Reader.Decode.{read_u8, read_i16, read_i32, read_f, read_string, decode_next}
use libwing.Reader.Gives.{
  read_i16-Gives, read_string-Gives, read_i32-Gives, read_f-Gives, decode_next-Gives, bind-Gives,
  Gives, Ready,
}
use libwing.Reader.Response.{Step, select, high_token, token, value}
use libwing.Prelude.Utf8.{IsStr}
use mathlib.Core.Path.{subst⁻¹, subst}

-- What the client makes of a value.
abbrev pub read_value : NativeValue → WingNodeData
read_value (integer v) = with_i32 v
read_value (float bits) = with_float bits
read_value (raw_float bits) = with_float bits
read_value (string s) = with_string s

token_short : (n : ℕ) → n ≤ 0x3f → token n ≡ value (with_i32 (pos n))
unfolding token
token_short n h = rw (le→leb n 0x3f h)

token_string :
    (n : ℕ)
    → suc n ≤ 64
    → token (0x7f + suc n) ≡ (read_string (suc n) >>= λ v. value (with_string v))
unfolding token
token_string n h = rw (
  lt→leb_false (0x7f + suc n) 0x3f (omega arith),
  lt→leb_false (0x7f + suc n) 0x7f (omega arith),
  le→leb (0x7f + suc n) 0xbf (omega arith),
  same,
)
  where
    same : 0x7f + suc n - 0x80 + 1 ≡ suc n
    same = omega arith

token_integer : (v : ℤ) → in_token v ≡ true → token (as_u16 v) ≡ value (with_i32 v)
token_integer (pos n) h = token_short n (leb→le n 0x3f h)
token_integer (negsuc n) h = absurd cc

fits-IsI16 : (v : ℤ) → fits_i16 v ≡ true → IsI16 v
fits-IsI16 (pos n) h = ltb→lt n (2 ^ 15) h
fits-IsI16 (negsuc n) h = ltb→lt n (2 ^ 15) h

value_form_small : (v : ℤ) → in_token v ≡ true → value_form (integer v) ≡ as_u16 v ∷ []
unfolding value_form
value_form_small v e = rw e

value_form_word :
    (v : ℤ)
    → in_token v ≡ false
    → fits_i16 v ≡ true
    → value_form (integer v) ≡ 0xd3 ∷ u16_to_be (as_u16 v)
unfolding value_form
value_form_word v e f = rw (e, f)

value_form_long :
    (v : ℤ)
    → in_token v ≡ false
    → fits_i16 v ≡ false
    → value_form (integer v) ≡ 0xd4 ∷ u32_to_be (as_u32 v)
unfolding value_form
value_form_long v e f = rw (e, f)

value_form_short_string :
    (c : ℕ) (cs : Bytes)
    → leb (length (c ∷ cs)) 64 ≡ true
    → value_form (string (c ∷ cs)) ≡ (0x7f + length (c ∷ cs)) ∷ c ∷ cs
unfolding value_form
value_form_short_string c cs e = rw e

value_form_long_string :
    (c : ℕ) (cs : Bytes)
    → leb (length (c ∷ cs)) 64 ≡ false
    → value_form (string (c ∷ cs)) ≡ 0xd1 ∷ length cs ∷ c ∷ cs
unfolding value_form
value_form_long_string c cs e = rw e (ap (λ n. 0xd1 ∷ n ∷ c ∷ cs) same)
  where
    same : suc (length cs) - 1 ≡ length cs
    same = omega arith

-- A round of the loop that takes `cmd`.
abbrev pub round : Reader (Option WingResponse)
round = decode_next >>= token

module _ (out : Bytes) where
  pub value-Gives :
      (node : ℤ) (v : WingNodeData) (xs : Bytes) (s : Main)
      → Ready out node xs s
      → Gives out node xs (some (node_data node v)) (value v s)
  value-Gives node v xs s h = (s, ap (λ n. done (ok (some (node_data n v))) s) h.3, h)

  pub round-Gives :
      (n₁ n₂ : ℤ) (cmd : ℕ) (xs ys : Bytes) (r : Option WingResponse) (s : Main)
      → Ready out n₁ (cmd ∷ xs) s
      → ((t : Main) → Ready out n₁ xs t → Gives out n₂ ys r (token cmd t))
      → Gives out n₂ ys r (round s)
  round-Gives n₁ n₂ cmd xs ys r s h k =
      bind-Gives out n₁ n₂ xs ys cmd r (decode_next s) token (decode_next-Gives out n₁ cmd xs s h) k

  -- A number or string, and then the value of it.
  then_value-Gives {ℓ} :
      {A : Type ℓ} (node : ℤ) (a : A) (f : A → WingNodeData) (xs : Bytes) (run : Run A)
      → Gives out node xs a run
      → Gives out node xs (some (node_data node (f a))) (and_then run (λ v. value (f v)))
  then_value-Gives node a f xs run h =
      bind-Gives out node node xs xs a (some (node_data node (f a))) run _ h
        (λ t k. value-Gives node (f a) xs t k)

  pub select-Gives :
      (node id : ℤ) (xs : Bytes) (s : Main)
      → IsI32 id
      → Ready out node (select_form id ++ xs) s
      → Gives out id xs none (round s)
  unfolding token high_token
  select-Gives node id xs s hi h =
      round-Gives node id 0xd7 (u32_to_be (as_u32 id) ++ xs) xs none s h (λ t k.
        bind-Gives out node id xs xs id none (read_i32 t) select
          (read_i32-Gives out node id xs t hi k)
          (λ u q. (record u { current_node_id = id }, refl, (q.0, q.1, q.2, refl))))

  formed :
      (v : NativeValue) (form xs : Bytes) (node : ℤ) (s : Main)
      → value_form v ≡ form
      → Ready out node (value_form v ++ xs) s
      → Ready out node (form ++ xs) s
  formed v form xs node s e h = subst (λ (t : Bytes). Ready out node (t ++ xs) s) e h

  integer-Gives :
      (node v : ℤ) (xs : Bytes) (s : Main)
      → IsI32 v
      → Ready out node (value_form (integer v) ++ xs) s
      → Gives out node xs (some (node_data node (with_i32 v))) (round s)
  unfolding token high_token
  integer-Gives node v xs s hv h = elim (Bool-cases (in_token v)) [
    | inl e ↦
        round-Gives node node (as_u16 v) xs xs _ s
          (formed (integer v) _ xs node s (value_form_small v e) h)
          (λ t k.
            subst⁻¹ (λ (f : Step). Gives out node xs (some (node_data node (with_i32 v))) (f t))
              (token_integer v e) (value-Gives node (with_i32 v) xs t k))
    | inr e ↦ elim (Bool-cases (fits_i16 v)) [
      | inl f ↦
          round-Gives node node 0xd3 (u16_to_be (as_u16 v) ++ xs) xs _ s
            (formed (integer v) _ xs node s (value_form_word v e f) h)
            (λ t k.
              then_value-Gives node v with_i32 xs (read_i16 t)
                (read_i16-Gives out node v xs t (fits-IsI16 v f) k))
      | inr f ↦
          round-Gives node node 0xd4 (u32_to_be (as_u32 v) ++ xs) xs _ s
            (formed (integer v) _ xs node s (value_form_long v e f) h)
            (λ t k.
              then_value-Gives node v with_i32 xs (read_i32 t)
                (read_i32-Gives out node v xs t hv k))
    ]
  ]

  string-Gives :
      (node : ℤ) (c : ℕ) (cs xs : Bytes) (s : Main)
      → IsStr (c ∷ cs)
      → length (c ∷ cs) ≤ 256
      → Ready out node (value_form (string (c ∷ cs)) ++ xs) s
      → Gives out node xs (some (node_data node (with_string (c ∷ cs)))) (round s)
  unfolding token high_token read_u8
  string-Gives node c cs xs s hs hl h = elim (Bool-cases (leb (length (c ∷ cs)) 64)) [
    | inl e ↦
        round-Gives node node (0x7f + length (c ∷ cs)) (c ∷ cs ++ xs) xs _ s
          (formed (string (c ∷ cs)) _ xs node s (value_form_short_string c cs e) h)
          (λ t k.
            subst⁻¹
              (λ (f : Step). Gives out node xs (some (node_data node (with_string (c ∷ cs)))) (f t))
              (token_string (length cs) (leb→le (length (c ∷ cs)) 64 e)) (text t k))
    | inr e ↦
        round-Gives node node 0xd1 (length cs ∷ c ∷ cs ++ xs) xs _ s
          (formed (string (c ∷ cs)) _ xs node s (value_form_long_string c cs e) h)
          (λ t k.
            bind-Gives out node node (c ∷ cs ++ xs) xs (length cs) _ (read_u8 t) _
              (decode_next-Gives out node (length cs) (c ∷ cs ++ xs) t k)
              (λ u q.
                subst⁻¹
                  (λ n.
                    Gives out node xs (some (node_data node (with_string (c ∷ cs))))
                      (and_then (read_string n u) (λ v. value (with_string v))))
                  one_more (text u q)))
  ]
    where
      one_more : length cs + 1 ≡ suc (length cs)
      one_more = omega arith

      text :
          (t : Main)
          → Ready out node (c ∷ cs ++ xs) t
          → Gives out node xs
              (some (node_data node (with_string (c ∷ cs))))
              (and_then (read_string (length (c ∷ cs)) t) (λ v. value (with_string v)))
      text t k =
          then_value-Gives node (c ∷ cs) with_string xs (read_string (length (c ∷ cs)) t)
            (read_string-Gives out node (c ∷ cs) xs t hs k)

  pub round-value_form :
      (node : ℤ) (v : NativeValue) (xs : Bytes) (s : Main)
      → IsValue v
      → Encodable v
      → Ready out node (value_form v ++ xs) s
      → Gives out node xs (some (node_data node (read_value v))) (round s)
  unfolding value_form token high_token
  round-value_form node (integer v) xs s hv he h = integer-Gives node v xs s hv h
  round-value_form node (float bits) xs s hv he h =
      round-Gives node node 0xd5 (u32_to_be bits ++ xs) xs _ s h (λ t k.
        then_value-Gives node bits with_float xs (read_f t) (read_f-Gives out node bits xs t hv k))
  round-value_form node (raw_float bits) xs s hv he h =
      round-Gives node node 0xd6 (u32_to_be bits ++ xs) xs _ s h (λ t k.
        then_value-Gives node bits with_float xs (read_f t) (read_f-Gives out node bits xs t hv k))
  round-value_form node (string []) xs s hv he h =
      round-Gives node node 0xd0 xs xs _ s h (λ t k. value-Gives node (with_string []) xs t k)
  round-value_form node (string (c ∷ cs)) xs s hv he h = string-Gives node c cs xs s hv.0 he h
