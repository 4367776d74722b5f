-- ===== src/Node/Payloads.antt =====
-- The type-specific part of a definition, written and read back.
use libwing.Node.Readers.{read_u16-be}
use libwing.Node.{NodeType, StringEnumItem, FloatEnumItem, Payload}
use libwing.Node.Decode.{pure, read_payload, read_string_items, read_float_items, no_payload}
use libwing.Prelude.{
  inr, leb→le, arith, inl, leb, Bool-cases, ℕ, refl, [], append-nil, append_assoc, ap, ◌∙◌, sym,
  length, ◌++◌, All, none, List, ◌≡◌, some, ◌^◌, Option, ◌<◌,
}
use libwing.Node.Encode.{write_payload, write_count, write_string_items, write_float_items}
use libwing.Prelude.BigEndian.{u16_to_be, Bytes}
use libwing.Prelude.Ints.{IsI32}
use libwing.Outcome.{invalid_input, err-ne-ok, ok_or, bind, bind-eq-ok, ok-injective, ok}
use libwing.Node.Items.{ItemOk, FloatItemOk, OptionAll, string_items-Written, float_items-Written}
use libwing.Node.Numbers.{
  PayloadWritten, range-Written, fader-Written, integer-Written, string-Written,
}

pub record IsPayload (p : Payload) : Type 0 where
  pub min_float : OptionAll (λ b. b < 2 ^ 32) p.min_float
  pub max_float : OptionAll (λ b. b < 2 ^ 32) p.max_float
  pub steps : OptionAll IsI32 p.steps
  pub min_int : OptionAll IsI32 p.min_int
  pub max_int : OptionAll IsI32 p.max_int
  pub max_string_len : OptionAll (λ n. n < 2 ^ 16) p.max_string_len
  pub string_enum : OptionAll (All ItemOk) p.string_enum
  pub float_enum : OptionAll (All FloatItemOk) p.float_enum

-- The fields that a definition of this type carries on the wire; the others are lost.
unfoldable pub carried : NodeType → Payload → Payload
carried NodeType.node p = no_payload
carried (NodeType.unknown n) p = no_payload
carried NodeType.string p = record no_payload { max_string_len = p.max_string_len }
carried NodeType.linear_float p = record no_payload {
  min_float = p.min_float;
  max_float = p.max_float;
  steps = p.steps;
}
carried NodeType.logarithmic_float p = record no_payload {
  min_float = p.min_float;
  max_float = p.max_float;
  steps = p.steps;
}
carried NodeType.fader_level p = record no_payload {
  min_float = p.min_float;
  max_float = p.max_float;
  steps = p.steps;
}
carried NodeType.integer p = record no_payload { min_int = p.min_int; max_int = p.max_int }
carried NodeType.string_enum p = record no_payload { string_enum = p.string_enum }
carried NodeType.float_enum p = record no_payload { float_enum = p.float_enum }

-- The count in front of a list of items.
write_count-ok :
    (raw : Bytes) (n : ℕ) {raw' : Bytes}
    → write_count raw n ≡ ok raw'
    → (n < 2 ^ 16) × (raw' ≡ raw ++ u16_to_be n)
write_count-ok raw n e = elim (Bool-cases (leb n 0xffff)) [
  | inl b ↦ (omega (arith, leb→le n 0xffff b), sym (ok-injective (rw b at e)))
  | inr b ↦ absurd (err-ne-ok (rw b at e))
]

string_enum-Written :
    (items : Option (List StringEnumItem)) (raw : Bytes) {raw' : Bytes}
    → OptionAll (All ItemOk) items
    → bind
        (ok_or invalid_input items)
        (λ is. bind (write_count raw (length is)) (λ raw1. write_string_items raw1 is))
      ≡ ok raw'
    → PayloadWritten
        (read_payload NodeType.string_enum)
        (record no_payload { string_enum = items })
        raw
        raw'
unfolding read_payload
string_enum-Written none raw h e = absurd (err-ne-ok e)
string_enum-Written (some is) raw h e =
    let (raw1, e1, k1) = bind-eq-ok (write_count raw (length is)) _ e in
    let (lt, same) = write_count-ok raw (length is) e1 in
    let (w, ew, back) = string_items-Written is raw1 h k1 in
    (
      u16_to_be (length is) ++ w,
      ew ∙ ap (λ r. r ++ w) same ∙ append_assoc raw (u16_to_be (length is)) w,
      rw (read_u16-be (length is) w lt, rest_of is w back),
    )
  where
    rest_of :
        (is : List StringEnumItem) (w : Bytes)
        → ((rest : Bytes) → read_string_items (length is) (w ++ rest) ≡ ok (is, rest))
        → read_string_items (length is) w ≡ ok (is, [])
    rest_of is w back = rw (append-nil w) at (back [])

float_enum-Written :
    (items : Option (List FloatEnumItem)) (raw : Bytes) {raw' : Bytes}
    → OptionAll (All FloatItemOk) items
    → bind
        (ok_or invalid_input items)
        (λ is. bind (write_count raw (length is)) (λ raw1. write_float_items raw1 is))
      ≡ ok raw'
    → PayloadWritten
        (read_payload NodeType.float_enum)
        (record no_payload { float_enum = items })
        raw
        raw'
unfolding read_payload
float_enum-Written none raw h e = absurd (err-ne-ok e)
float_enum-Written (some is) raw h e =
    let (raw1, e1, k1) = bind-eq-ok (write_count raw (length is)) _ e in
    let (lt, same) = write_count-ok raw (length is) e1 in
    let (w, ew, back) = float_items-Written is raw1 h k1 in
    (
      u16_to_be (length is) ++ w,
      ew ∙ ap (λ r. r ++ w) same ∙ append_assoc raw (u16_to_be (length is)) w,
      rw (read_u16-be (length is) w lt, rest_of is w back),
    )
  where
    rest_of :
        (is : List FloatEnumItem) (w : Bytes)
        → ((rest : Bytes) → read_float_items (length is) (w ++ rest) ≡ ok (is, rest))
        → read_float_items (length is) w ≡ ok (is, [])
    rest_of is w back = rw (append-nil w) at (back [])

nothing-Written :
    (raw : Bytes) {raw' : Bytes}
    → ok raw ≡ ok raw'
    → PayloadWritten (pure no_payload) no_payload raw raw'
nothing-Written raw e = ([], sym (ok-injective e) ∙ sym (append-nil raw), refl)

-- Whatever `write_payload` appends reads back as the fields that the type carries.
pub write_payload-Written :
    (t : NodeType) (p : Payload) (raw : Bytes) {raw' : Bytes}
    → IsPayload p
    → write_payload t p raw ≡ ok raw'
    → PayloadWritten (read_payload t) (carried t p) raw raw'
unfolding write_payload carried
write_payload-Written NodeType.node p raw v e = unfold read_payload in nothing-Written raw e
write_payload-Written (NodeType.unknown n) p raw v e = unfold read_payload in nothing-Written raw e
write_payload-Written NodeType.string p raw v e =
    string-Written p.max_string_len raw v.max_string_len e
write_payload-Written NodeType.linear_float p raw v e =
    unfold read_payload in
    range-Written p.min_float p.max_float p.steps raw v.min_float v.max_float v.steps e
write_payload-Written NodeType.logarithmic_float p raw v e =
    unfold read_payload in
    range-Written p.min_float p.max_float p.steps raw v.min_float v.max_float v.steps e
write_payload-Written NodeType.fader_level p raw v e =
    fader-Written p.min_float p.max_float p.steps raw v.min_float v.max_float v.steps e
write_payload-Written NodeType.integer p raw v e =
    integer-Written p.min_int p.max_int raw v.min_int v.max_int e
write_payload-Written NodeType.string_enum p raw v e =
    string_enum-Written p.string_enum raw v.string_enum e
write_payload-Written NodeType.float_enum p raw v e =
    float_enum-Written p.float_enum raw v.float_enum e
