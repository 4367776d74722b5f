-- ===== src/Reader/Delivery.antt =====
-- `read` of src/console.rs at the other end of `encode_responses_bounded` of src/native.rs.
use libwing.Prelude.{
  ltb_false→le, true, ltb, false, leb_false→lt, lt→leb_false, inr, leb→le, inl, leb, Bool-cases, ℕ,
  suc, ◌≤◌, ◌≡◌, refl, sym, ◌∙◌, [], ◌∷◌, ◌++◌, append-nil, length, arith, none, some,
}
use libwing.Prelude.BigEndian.{Bytes}
use libwing.Prelude.Ints.{IsI32, ℤ}
use libwing.Outcome.{invalid_input, ok, err, bind-eq-ok, ok-injective, err-ne-ok}
use libwing.Native.Response.{definition_token, encode_definition, NativeResponse, encode_response}
use libwing.Reader.{
  blocked, Reader, Main, Run, done, and_then, ◌>>=◌, WingResponse, request_end, node_def, node_data,
}
use libwing.Node.RoundTrip.{from_bytes-to_wire_bytes, IsDef, read_as}
use libwing.Node.Encode.{to_wire_bytes}
use libwing.Reader.Response.{high_token, max_node_def_bytes, after_token, token, read_loop}
use libwing.Reader.Gives.{pure-Gives, bind-Gives, Ready, Gives}
use libwing.Native.Value.{string, Encodable, encode_value, IsValue, NativeValue}
use libwing.Reader.Tokens.{round-Gives, round-value_form, select-Gives, read_value, round}
use mathlib.Core.Path.{subst⁻¹, subst}
use libwing.Reader.Decode.{decode_next}
use libwing.Native.Request.Audio.Encoded.{encode_value-value_form, value_form, select_form}
use libwing.Node.{WingNodeDef}
use libwing.Node.Decode.{from_bytes}
use libwing.Reader.Definition.{round-definition_token}

-- What the Rust types guarantee of a response.
abbrev pub IsResponse : NativeResponse → Type 0
IsResponse NativeResponse.request_end = Unit
IsResponse (NativeResponse.node_def d) = IsDef d
IsResponse (NativeResponse.node_data id v) = IsI32 id × IsValue v
IsResponse (NativeResponse.authoritative_event id v) = IsI32 id × IsValue v

-- The client's response is the one that was encoded. A definition is as its bytes have it: with
-- the fields that its type carries, its type and unit cut to four bits, and its bytes in `raw`.
abbrev pub ReadAs : NativeResponse → WingResponse → Type 0
ReadAs NativeResponse.request_end w = w ≡ request_end
ReadAs (NativeResponse.node_def d) w =
    (raw : Bytes) × (to_wire_bytes d ≡ ok raw) × (w ≡ node_def (read_as d raw))
ReadAs (NativeResponse.node_data id v) w = w ≡ node_data id (read_value v)
ReadAs (NativeResponse.authoritative_event id v) w = w ≡ node_data id (read_value v)

assoc {ℓ κ μ} :
    {A : Type ℓ} {B : Type κ} {C : Type μ} (r : Run A) (f : A → Reader B) (g : B → Reader C)
    → and_then (and_then r f) g ≡ and_then r (λ a. f a >>= g)
assoc (blocked s) f g = refl
assoc (done (ok a) s) f g = refl
assoc (done (err e) s) f g = refl

too_long :
    (before : Bytes) (c : ℕ) (cs : Bytes)
    → leb (length (c ∷ cs)) 256 ≡ false
    → encode_value before (string (c ∷ cs)) ≡ err invalid_input
unfolding encode_value
too_long before c cs b =
    rw (lt→leb_false (length (c ∷ cs)) 64 (omega (arith, leb_false→lt (length (c ∷ cs)) 256 b)), b)

pub encode_value-Encodable :
    (before : Bytes) (v : NativeValue) (bs : Bytes) → encode_value before v ≡ ok bs → Encodable v
unfolding encode_value
encode_value-Encodable before (string []) bs e = omega arith
encode_value-Encodable before (string (c ∷ cs)) bs e =
    elim (Bool-cases (leb (length (c ∷ cs)) 256)) [
      | inl b ↦ leb→le (length (c ∷ cs)) 256 b
      | inr b ↦ absurd (err-ne-ok (sym (too_long before c cs b) ∙ e))
    ]
encode_value-Encodable before _ bs e = tt

nonempty : (body : Bytes) (d : WingNodeDef) → from_bytes body ≡ ok d → 1 ≤ length body
unfolding from_bytes libwing.Node.Decode.from_bytes_inner libwing.Node.Decode.read_def
    libwing.Node.Decode.read_i32 libwing.Node.Decode.take_bytes
nonempty [] d p = absurd (err-ne-ok p)
nonempty (b ∷ body) d p = omega arith

-- What `encode_definition` accepts.
pub encode_definition-ok :
    (raw bs : Bytes)
    → encode_definition raw ≡ ok bs
    → (length raw ≤ max_node_def_bytes) × (bs ≡ definition_token raw)
encode_definition-ok raw bs e = elim (Bool-cases (ltb max_node_def_bytes (length raw))) [
  | inl b ↦ absurd (err-ne-ok (sym (refused b) ∙ e))
  | inr b ↦ (ltb_false→le max_node_def_bytes (length raw) b, ok-injective (sym e ∙ accepted b))
]
  where
    refused : ltb max_node_def_bytes (length raw) ≡ true → encode_definition raw ≡ err invalid_input
    refused b = rw b

    accepted :
        ltb max_node_def_bytes (length raw) ≡ false
        → encode_definition raw ≡ ok (definition_token raw)
    accepted b = rw b

module _ (out : Bytes) where
  -- A round that goes on, and one that ends the loop.
  again-Gives :
      (n₁ n₂ : ℤ) (xs ys : Bytes) (w : WingResponse) (fuel : ℕ) (s : Main)
      → Gives out n₁ xs none (round s)
      → ((t : Main) → Ready out n₁ xs t → Gives out n₂ ys w (read_loop fuel t))
      → Gives out n₂ ys w (read_loop (suc fuel) s)
  unfolding read_loop
  again-Gives n₁ n₂ xs ys w fuel s h k =
      subst (λ (r : Run WingResponse). Gives out n₂ ys w r)
        (assoc (decode_next s) token (after_token (read_loop fuel)))
        (bind-Gives out n₁ n₂ xs ys none w (round s) (after_token (read_loop fuel)) h k)

  ends-Gives :
      (node : ℤ) (xs : Bytes) (w : WingResponse) (fuel : ℕ) (s : Main)
      → Gives out node xs (some w) (round s)
      → Gives out node xs w (read_loop (suc fuel) s)
  unfolding read_loop
  ends-Gives node xs w fuel s h =
      subst (λ (r : Run WingResponse). Gives out node xs w r)
        (assoc (decode_next s) token (after_token (read_loop fuel)))
        (bind-Gives out node node xs xs (some w) w (round s) (after_token (read_loop fuel)) h
          (λ t k. pure-Gives out node xs w t k))

  -- The loop returns the response that these bytes encode.
  unfoldable pub Answers : NativeResponse → ℕ → Main → Type 0
  Answers r fuel s =
      (w : WingResponse) × (node : ℤ) × ReadAs r w × Gives out node [] w (read_loop fuel s)

  data-Answers :
      (node id : ℤ) (v : NativeValue) (bs : Bytes) (fuel : ℕ) (s : Main)
      → IsI32 id
      → IsValue v
      → encode_value (select_form id) v ≡ ok bs
      → Ready out node bs s
      → Gives out id [] (node_data id (read_value v)) (read_loop (suc (suc fuel)) s)
  data-Answers node id v bs fuel s hi hv e h =
      again-Gives id id (value_form v) [] (node_data id (read_value v)) (suc fuel) s
        (select-Gives out node id (value_form v) s hi
          (subst (λ (t : Bytes). Ready out node t s) same h))
        (λ t k. ends-Gives id [] (node_data id (read_value v)) fuel t (
          round-value_form out id v [] t hv encodable
            (subst⁻¹ (λ (b : Bytes). Ready out id b t) (append-nil (value_form v)) k)))
    where
      encodable : Encodable v
      encodable = encode_value-Encodable (select_form id) v bs e

      same : bs ≡ select_form id ++ value_form v
      same = ok-injective (sym e ∙ encode_value-value_form (select_form id) v encodable)

  definition-Answers :
      (node : ℤ) (d : WingNodeDef) (raw : Bytes) (fuel : ℕ) (s : Main)
      → IsDef d
      → to_wire_bytes d ≡ ok raw
      → length raw ≤ max_node_def_bytes
      → Ready out node (definition_token raw) s
      → Answers (NativeResponse.node_def d) (suc fuel) s
  unfolding Answers
  definition-Answers node d raw fuel s hd e hl h = (
    node_def read,
    node,
    (raw, e, refl),
    ends-Gives node [] (node_def read) fuel s (
        round-definition_token out node raw read [] s hl (nonempty raw read decoded) decoded
          (subst⁻¹ (λ (b : Bytes). Ready out node b s) (append-nil (definition_token raw)) h)),
  )
    where
      read : WingNodeDef
      read = read_as d raw

      decoded : from_bytes raw ≡ ok read
      decoded = (from_bytes-to_wire_bytes d raw hd e).0

  ended :
      (node : ℤ) (s : Main)
      → Ready out node (0xde ∷ []) s
      → Gives out node [] (some request_end) (round s)
  unfolding token high_token
  ended node s h =
      round-Gives out node node 0xde [] [] (some request_end) s h
        (λ t k. pure-Gives out node [] (some request_end) t k)

  pub response-Answers :
      (node : ℤ) (r : NativeResponse) (bs : Bytes) (fuel : ℕ) (s : Main)
      → IsResponse r
      → encode_response r ≡ ok bs
      → Ready out node bs s
      → Answers r (suc (suc fuel)) s
  unfolding Answers encode_response
  response-Answers node NativeResponse.request_end bs fuel s hr e h = (
    request_end,
    node,
    refl,
    ends-Gives node [] request_end (suc fuel) s
        (ended node s (subst⁻¹ (λ (b : Bytes). Ready out node b s) (ok-injective e) h)),
  )
  response-Answers node (NativeResponse.node_data id v) bs fuel s (hi, hv) e h =
      (node_data id (read_value v), id, refl, data-Answers node id v bs fuel s hi hv e h)
  response-Answers node (NativeResponse.authoritative_event id v) bs fuel s (hi, hv) e h =
      (node_data id (read_value v), id, refl, data-Answers node id v bs fuel s hi hv e h)
  response-Answers node (NativeResponse.node_def d) bs fuel s hr e h =
      let (raw, e₁, e₂) = bind-eq-ok (to_wire_bytes d) encode_definition e in
      let (hl, same) = encode_definition-ok raw bs e₂ in
      definition-Answers node d raw (suc fuel) s hr e₁ hl
        (subst (λ (b : Bytes). Ready out node b s) same h)
