-- ===== src/Node/Encode.antt =====
-- `to_wire_bytes` and `push_short_string` of src/node.rs, `node_type_nibble` of src/native.rs.
use libwing.Node.{Payload, NodeType, NodeUnit, WingNodeDef, StringEnumItem, FloatEnumItem}
use libwing.Prelude.{some, none, [], length, ◌∷◌, ◌++◌, ◌*◌, leb, List, if◌then◌else◌, Option, ℕ}
use libwing.Prelude.BigEndian.{u16_to_be, u32_to_be, Bytes}
use libwing.Outcome.{err, invalid_input, ok, bind, ok_or, Result}
use Prim.Native.Nat.{bit_or, bit_and}
use libwing.Prelude.Ints.{as_u32, ℤ}

unfoldable pub node_type_nibble : NodeType → ℕ
node_type_nibble NodeType.node = 0
node_type_nibble NodeType.linear_float = 1
node_type_nibble NodeType.logarithmic_float = 2
node_type_nibble NodeType.fader_level = 3
node_type_nibble NodeType.integer = 4
node_type_nibble NodeType.string_enum = 5
node_type_nibble NodeType.float_enum = 6
node_type_nibble NodeType.string = 7
node_type_nibble (NodeType.unknown value) = bit_and value 0x0f

unfoldable pub unit_nibble : NodeUnit → ℕ
unit_nibble NodeUnit.none = 0
unit_nibble NodeUnit.db = 1
unit_nibble NodeUnit.percent = 2
unit_nibble NodeUnit.milliseconds = 3
unit_nibble NodeUnit.hertz = 4
unit_nibble NodeUnit.meters = 5
unit_nibble NodeUnit.seconds = 6
unit_nibble NodeUnit.octaves = 7
unit_nibble (NodeUnit.unknown value) = bit_and value 0x0f

unfoldable pub push_short_string : Bytes → Bytes → Result Bytes
push_short_string raw value =
    if leb (length value) 255 then ok ((raw ++ length value ∷ []) ++ value) else err invalid_input

-- `(nibble << 4) | unit`, and bit 9 for a read-only node.
unfoldable pub wire_flags : WingNodeDef → ℕ
unfolding node_type_nibble unit_nibble
wire_flags d =
    let flags : ℕ = bit_or (node_type_nibble d.node_type * 16) (unit_nibble d.unit) in
    if d.read_only then bit_or flags 512 else flags

abbrev required {ℓ} : {A : Type ℓ} → Option A → Result A
required o = ok_or invalid_input o

abbrev pub write_range : Bytes → ℕ → ℕ → ℤ → Bytes
write_range raw min_float max_float steps =
    ((raw ++ u32_to_be min_float) ++ u32_to_be max_float) ++ u32_to_be (as_u32 steps)

unfoldable pub write_string_items : Bytes → List StringEnumItem → Result Bytes
write_string_items raw [] = ok raw
write_string_items raw (i ∷ items) =
    bind (push_short_string raw i.item)
      (λ raw'. bind (push_short_string raw' i.long_item) (λ raw''. write_string_items raw'' items))

unfoldable pub write_float_items : Bytes → List FloatEnumItem → Result Bytes
write_float_items raw [] = ok raw
write_float_items raw (i ∷ items) =
    bind (push_short_string (raw ++ u32_to_be i.item) i.long_item)
      (λ raw'. write_float_items raw' items)

-- `u16::try_from(items.len())`.
abbrev pub write_count : Bytes → ℕ → Result Bytes
write_count raw n = if leb n 0xffff then ok (raw ++ u16_to_be n) else err invalid_input

abbrev pub write_fader : Bytes → Option ℕ → Option ℕ → Option ℤ → Result Bytes
write_fader raw (some min_float) (some max_float) (some steps) =
    ok (write_range raw min_float max_float steps)
write_fader raw none none none = ok raw
write_fader raw _ _ _ = err invalid_input

abbrev pub write_float_range : Bytes → Payload → Result Bytes
write_float_range raw p = bind (required p.min_float) (λ lo.
    bind (required p.max_float)
      (λ hi. bind (required p.steps) (λ steps. ok (write_range raw lo hi steps))))

-- The `match` on the node's type.
unfoldable pub write_payload : NodeType → Payload → Bytes → Result Bytes
write_payload NodeType.node p raw = ok raw
write_payload (NodeType.unknown n) p raw = ok raw
write_payload NodeType.string p raw =
    bind (required p.max_string_len) (λ len. ok (raw ++ u16_to_be len))
write_payload NodeType.linear_float p raw = write_float_range raw p
write_payload NodeType.logarithmic_float p raw = write_float_range raw p
write_payload NodeType.fader_level p raw = write_fader raw p.min_float p.max_float p.steps
write_payload NodeType.integer p raw = bind (required p.min_int) (λ lo.
    bind (required p.max_int) (λ hi. ok ((raw ++ u32_to_be (as_u32 lo)) ++ u32_to_be (as_u32 hi))))
write_payload NodeType.string_enum p raw =
    bind (required p.string_enum)
      (λ items. bind (write_count raw (length items)) (λ raw'. write_string_items raw' items))
write_payload NodeType.float_enum p raw =
    bind (required p.float_enum)
      (λ items. bind (write_count raw (length items)) (λ raw'. write_float_items raw' items))

abbrev pub write_ids : WingNodeDef → Bytes
write_ids d = (u32_to_be (as_u32 d.parent_id) ++ u32_to_be (as_u32 d.id)) ++ u16_to_be d.index

unfoldable pub to_wire_bytes : WingNodeDef → Result Bytes
to_wire_bytes d = bind (push_short_string (write_ids d) d.name) (λ raw.
    bind (push_short_string raw d.long_name)
      (λ raw'. write_payload d.node_type d.payload (raw' ++ u16_to_be (wire_flags d))))
