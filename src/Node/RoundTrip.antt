-- ===== src/Node/RoundTrip.antt =====
-- `to_wire_bytes` of src/node.rs, and `from_bytes` on what it returns.
use libwing.Prelude.{
  append_assoc, ap, [], ◌++◌, if◌then◌else◌, arith, Bool, ◌%◌, ℕ, ◌+◌, ◌*◌, ◌/◌, ◌<◌, ◌≤◌, ◌^◌, ◌≡◌,
  ◌==◌, refl, ◌∙◌, true, false, not,
}
use libwing.Prelude.Ints.{as_u32, IsI32}
use libwing.Prelude.Utf8.{IsStr}
use libwing.Prelude.Bits.{bit_and_nibble, bit_and_one, bit_or_read_only, bit_or_nibbles}
use Prim.Native.Nat.{bit_and, bit_or}
use libwing.Node.{NodeType, NodeUnit, WingNodeDef}
use libwing.Node.Encode.{
  write_ids, push_short_string, to_wire_bytes, wire_flags, node_type_nibble, unit_nibble,
}
use libwing.Node.Decode.{
  from_bytes_inner, from_bytes_without_raw, read_payload, from_bytes, read_def, node_type_of,
  unit_of,
}
use libwing.Node.Payloads.{write_payload-Written, carried, IsPayload}
use libwing.Prelude.BigEndian.{u16_to_be, u32_to_be, Bytes}
use libwing.Outcome.{bind, bind-eq-ok, ok}
use libwing.Node.Readers.{read_short_string-form, read_u16-be, short_form, read_i32-be}
use libwing.Node.Items.{short_string-append}

-- An unknown type or unit is a byte. The low half of an unknown type is none of the eight types that
-- have a name.
abbrev pub IsType : NodeType → Type 0
IsType (NodeType.unknown n) = (n < 256) × (8 ≤ n % 16)
IsType _ = Unit

abbrev pub IsUnit : NodeUnit → Type 0
IsUnit (NodeUnit.unknown n) = n < 256
IsUnit _ = Unit

-- The type and the unit that the wire's four bits stand for.
abbrev pub wire_type : NodeType → NodeType
wire_type (NodeType.unknown n) = NodeType.unknown (n % 16)
wire_type t = t

abbrev pub wire_unit : NodeUnit → NodeUnit
wire_unit (NodeUnit.unknown n) = unit_of (n % 16)
wire_unit u = u

-- A definition as its bytes have it.
abbrev pub read_as : WingNodeDef → Bytes → WingNodeDef
read_as d raw = record d {
  node_type = wire_type d.node_type;
  unit = wire_unit d.unit;
  payload = carried d.node_type d.payload;
  raw = raw;
}

-- What the Rust types guarantee of a definition, and that its type has no other type's bits.
pub record IsDef (d : WingNodeDef) : Type 0 where
  pub id : IsI32 d.id
  pub parent_id : IsI32 d.parent_id
  pub index : d.index < 2 ^ 16
  pub name : IsStr d.name
  pub long_name : IsStr d.long_name
  pub node_type : IsType d.node_type
  pub unit : IsUnit d.unit
  pub payload : IsPayload d.payload

type_nibble :
    (t : NodeType)
    → IsType t
    → (node_type_nibble t < 16) × (node_type_of (node_type_nibble t) ≡ wire_type t)
unfolding node_type_nibble node_type_of
type_nibble (NodeType.unknown n) h =
    rw (bit_and_nibble n (omega arith)) (omega arith, above (n % 16) h.1)
  where
    above : (k : ℕ) → 8 ≤ k → node_type_of k ≡ NodeType.unknown k
    above k h = ground arith
type_nibble _ h = (omega arith, refl)

unit_nibble-of :
    (u : NodeUnit) → IsUnit u → (unit_nibble u < 16) × (unit_of (unit_nibble u) ≡ wire_unit u)
unfolding unit_nibble unit_of
unit_nibble-of (NodeUnit.unknown n) h = rw (bit_and_nibble n (omega arith)) (omega arith, refl)
unit_nibble-of _ h = (omega arith, refl)

payload-wire_type : (t : NodeType) (w : Bytes) → read_payload (wire_type t) w ≡ read_payload t w
unfolding read_payload
payload-wire_type (NodeType.unknown n) w = refl
payload-wire_type _ w = refl

-- The three fields of the flags.
record Fields (t u : ℕ) (r : Bool) (flags : ℕ) : Type 0 where
  small : flags < 2 ^ 16
  type_field : bit_and (flags / 16) 0x0f ≡ t
  unit_field : bit_and flags 0x0f ≡ u
  read_only_field : not (bit_and (flags / 2 ^ 9) 0x01 == 0) ≡ r

fields :
    (t u : ℕ) (r : Bool)
    → t < 16
    → u < 16
    → Fields t u r (if r then bit_or (bit_or (t * 16) u) 512 else bit_or (t * 16) u)
fields t u true ht hu =
    rw (bit_or_nibbles t u ht hu, bit_or_read_only (t * 16 + u) (omega arith))
      (record {
        small = omega arith;
        type_field = bit_and_nibble ((t * 16 + u + 512) / 16) (omega arith) ∙ omega arith;
        unit_field = bit_and_nibble (t * 16 + u + 512) (omega arith) ∙ omega arith;
        read_only_field = rw (bit_and_one ((t * 16 + u + 512) / 2 ^ 9) (omega arith), one) refl;
      })
  where
    one : (t * 16 + u + 512) / 2 ^ 9 % 2 ≡ 1
    one = omega arith
fields t u false ht hu = rw (bit_or_nibbles t u ht hu) (record {
  small = omega arith;
  type_field = bit_and_nibble ((t * 16 + u) / 16) (omega arith) ∙ omega arith;
  unit_field = bit_and_nibble (t * 16 + u) (omega arith) ∙ omega arith;
  read_only_field = rw (bit_and_one ((t * 16 + u) / 2 ^ 9) (omega arith), zero_bit) refl;
})
  where
    zero_bit : (t * 16 + u) / 2 ^ 9 % 2 ≡ 0
    zero_bit = omega arith

flags-Fields :
    (d : WingNodeDef)
    → IsDef d
    → Fields (node_type_nibble d.node_type) (unit_nibble d.unit) d.read_only (wire_flags d)
unfolding wire_flags
flags-Fields d v =
    fields (node_type_nibble d.node_type) (unit_nibble d.unit) d.read_only
      (type_nibble d.node_type v.node_type).0 (unit_nibble-of d.unit v.unit).0

-- The bytes of a definition in front of its payload.
abbrev header_form : WingNodeDef → Bytes → Bytes
header_form d w =
    u32_to_be (as_u32 d.parent_id)
    ++ (u32_to_be (as_u32 d.id)
        ++ (u16_to_be d.index
            ++ (short_form d.name ++ (short_form d.long_name ++ (u16_to_be (wire_flags d) ++ w)))))

read_def-header_form :
    (d : WingNodeDef) (kept w : Bytes)
    → IsDef d
    → read_payload d.node_type w ≡ ok (carried d.node_type d.payload, [])
    → read_def kept (header_form d w) ≡ ok (read_as d kept, [])
unfolding read_def
read_def-header_form d kept w v back = rw (
  read_i32-be d.parent_id
      (u32_to_be (as_u32 d.id)
        ++ (u16_to_be d.index
            ++ (short_form d.name ++ (short_form d.long_name ++ (u16_to_be (wire_flags d) ++ w)))))
      v.parent_id,
  read_i32-be d.id
      (u16_to_be d.index
        ++ (short_form d.name ++ (short_form d.long_name ++ (u16_to_be (wire_flags d) ++ w))))
      v.id,
  read_u16-be d.index
      (short_form d.name ++ (short_form d.long_name ++ (u16_to_be (wire_flags d) ++ w))) v.index,
  read_short_string-form d.name (short_form d.long_name ++ (u16_to_be (wire_flags d) ++ w)) v.name,
  read_short_string-form d.long_name (u16_to_be (wire_flags d) ++ w) v.long_name,
  read_u16-be (wire_flags d) w f.small,
  f.type_field,
  f.unit_field,
  f.read_only_field,
  (type_nibble d.node_type v.node_type).1,
  (unit_nibble-of d.unit v.unit).1,
  payload-wire_type d.node_type w,
  back,
)
  where
    f : Fields (node_type_nibble d.node_type) (unit_nibble d.unit) d.read_only (wire_flags d)
    f = flags-Fields d v

write_ids-append :
    (d : WingNodeDef) (w : Bytes)
    → write_ids d ++ w
      ≡ u32_to_be (as_u32 d.parent_id) ++ (u32_to_be (as_u32 d.id) ++ (u16_to_be d.index ++ w))
write_ids-append d w =
    append_assoc (u32_to_be (as_u32 d.parent_id) ++ u32_to_be (as_u32 d.id)) (u16_to_be d.index) w
    ∙ append_assoc (u32_to_be (as_u32 d.parent_id)) (u32_to_be (as_u32 d.id))
        (u16_to_be d.index ++ w)

to_wire_bytes-header_form :
    (d : WingNodeDef) {raw : Bytes}
    → IsDef d
    → to_wire_bytes d ≡ ok raw
    → (w : Bytes) × (raw ≡ header_form d w)
      × (read_payload d.node_type w ≡ ok (carried d.node_type d.payload, []))
unfolding to_wire_bytes
to_wire_bytes-header_form d v e =
    let (raw1, e1, k1) = bind-eq-ok (push_short_string (write_ids d) d.name) _ e in
    let (raw2, e2, k2) = bind-eq-ok (push_short_string raw1 d.long_name) _ k1 in
    let (w, ew, back) =
      write_payload-Written d.node_type d.payload (raw2 ++ u16_to_be (wire_flags d)) v.payload k2 in
    (
      w,
      ew
          ∙ append_assoc raw2 (u16_to_be (wire_flags d)) w
          ∙ short_string-append raw1 d.long_name (u16_to_be (wire_flags d) ++ w) e2 refl
          ∙ short_string-append (write_ids d) d.name
              (short_form d.long_name ++ (u16_to_be (wire_flags d) ++ w)) e1 refl
          ∙ write_ids-append d _,
      back,
    )

-- For a definition as its Rust type has it, except that the low four bits of an unknown type are 8 to
-- 15: what `to_wire_bytes` returns, `from_bytes` reads back as that definition, with the fields that
-- its type carries, an unknown type or unit cut to its low four bits and named where they name a
-- unit, and those bytes as `raw`; and `from_bytes_without_raw` as the same with no `raw`.
pub from_bytes-to_wire_bytes :
    (d : WingNodeDef) (raw : Bytes)
    → IsDef d
    → to_wire_bytes d ≡ ok raw
    → (from_bytes raw ≡ ok (read_as d raw)) × (from_bytes_without_raw raw ≡ ok (read_as d []))
unfolding from_bytes from_bytes_without_raw from_bytes_inner
from_bytes-to_wire_bytes d raw v e =
    let (w, same, back) = to_wire_bytes-header_form d v e in
    (read_back raw w same back, read_back [] w same back)
  where
    read_back :
        (kept w : Bytes)
        → raw ≡ header_form d w
        → read_payload d.node_type w ≡ ok (carried d.node_type d.payload, [])
        → bind (read_def kept raw) (λ (def, rest). ok def) ≡ ok (read_as d kept)
    read_back kept w same back =
        ap (λ r. bind (read_def kept r) (λ (def, rest). ok def)) same
        ∙ ap (λ r. bind r (λ (def, rest). ok def)) (read_def-header_form d kept w v back)
