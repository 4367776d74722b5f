-- ===== src/Node/Decode.antt =====
-- `from_bytes_inner` of src/node.rs and its bounds-checked readers. The cursor `i` into `raw` is the
-- list of the bytes from `i` on.
use libwing.Node.{NodeType, NodeUnit, WingNodeDef, StringEnumItem, FloatEnumItem, Payload}
use libwing.Prelude.BigEndian.{from_be, Bytes}
use libwing.Outcome.{err, invalid_data, ok_or, Result, ok, bind}
use libwing.Prelude.{
  drop, zero, take, ◌^◌, ◌∷◌, not, suc, length, false, true, ◌/◌, leb, [], ◌==◌, ltb, Bool, List,
  if◌then◌else◌, some, none, ℕ,
}
use libwing.Prelude.Ints.{as_i32, ℤ}
use Prim.Native.Nat.{bit_and}
use libwing.Prelude.Utf8.{from_utf8}

abbrev pub Reader {ℓ} : Type ℓ → Type ℓ
Reader A = Bytes → Result (A × Bytes)

infixl 5 ◌>>=◌
abbrev pub ◌>>=◌ {ℓ κ} : {A : Type ℓ} {B : Type κ} → Reader A → (A → Reader B) → Reader B
◌>>=◌ r f rest = bind (r rest) (λ (a, rest'). f a rest')

abbrev pub pure {ℓ} : {A : Type ℓ} → A → Reader A
pure a rest = ok (a, rest)

unfoldable pub take_bytes : ℕ → Reader Bytes
take_bytes len rest =
    if ltb (length rest) len then err invalid_data else ok (take len rest, drop len rest)

unfoldable pub read_u8 : Reader ℕ
read_u8 = take_bytes 1 >>= λ bytes. pure (from_be bytes)

unfoldable pub read_u16 : Reader ℕ
read_u16 = take_bytes 2 >>= λ bytes. pure (from_be bytes)

unfoldable pub read_i32 : Reader ℤ
read_i32 = take_bytes 4 >>= λ bytes. pure (as_i32 (from_be bytes))

unfoldable pub read_f32 : Reader ℕ
read_f32 = take_bytes 4 >>= λ bytes. pure (from_be bytes)

unfoldable pub read_string : ℕ → Reader Bytes
read_string len =
    take_bytes len >>= λ bytes rest. bind (ok_or invalid_data (from_utf8 bytes)) (λ s. ok (s, rest))

unfoldable pub read_short_string : Reader Bytes
read_short_string = read_u8 >>= λ len. read_string len

unfoldable pub node_type_of : ℕ → NodeType
node_type_of nibble =
    if nibble == 0
    then NodeType.node
    else if nibble == 1
    then NodeType.linear_float
    else if nibble == 2
    then NodeType.logarithmic_float
    else if nibble == 3
    then NodeType.fader_level
    else if nibble == 4
    then NodeType.integer
    else if nibble == 5
    then NodeType.string_enum
    else if nibble == 6
    then NodeType.float_enum
    else if nibble == 7
    then NodeType.string
    else NodeType.unknown nibble

unfoldable pub unit_of : ℕ → NodeUnit
unit_of nibble =
    if nibble == 0
    then NodeUnit.none
    else if nibble == 1
    then NodeUnit.db
    else if nibble == 2
    then NodeUnit.percent
    else if nibble == 3
    then NodeUnit.milliseconds
    else if nibble == 4
    then NodeUnit.hertz
    else if nibble == 5
    then NodeUnit.meters
    else if nibble == 6
    then NodeUnit.seconds
    else if nibble == 7
    then NodeUnit.octaves
    else NodeUnit.unknown nibble

-- `for _ in 0..num`.
unfoldable pub read_string_items : ℕ → Reader (List StringEnumItem)
read_string_items zero rest = ok ([], rest)
read_string_items (suc n) rest = bind (read_short_string rest) (λ (item, r1).
    bind (read_short_string r1) (λ (long_item, r2).
      bind (read_string_items n r2)
        (λ (items, r3). ok (record { item = item; long_item = long_item } ∷ items, r3))))

unfoldable pub read_float_items : ℕ → Reader (List FloatEnumItem)
read_float_items zero rest = ok ([], rest)
read_float_items (suc n) rest = bind (read_f32 rest) (λ (item, r1).
    bind (read_short_string r1) (λ (long_item, r2).
      bind (read_float_items n r2)
        (λ (items, r3). ok (record { item = item; long_item = long_item } ∷ items, r3))))

abbrev pub no_payload : Payload
no_payload = record {
  min_float = none;
  max_float = none;
  steps = none;
  min_int = none;
  max_int = none;
  max_string_len = none;
  string_enum = none;
  float_enum = none;
}

unfoldable pub read_float_range : Reader Payload
read_float_range = read_f32 >>= λ lo. read_f32 >>= λ hi. read_i32 >>= λ steps.
    pure (record no_payload { min_float = some lo; max_float = some hi; steps = some steps })

-- The `match` on the node's type; the fields that it does not set stay `None`.
unfoldable pub read_payload : NodeType → Reader Payload
read_payload NodeType.node = pure no_payload
read_payload (NodeType.unknown n) = pure no_payload
read_payload NodeType.string =
    read_u16 >>= λ len. pure (record no_payload { max_string_len = some len })
read_payload NodeType.linear_float = read_float_range
read_payload NodeType.logarithmic_float = read_float_range
read_payload NodeType.fader_level =
    λ rest. if leb 12 (length rest) then read_float_range rest else ok (no_payload, rest)
read_payload NodeType.integer = read_i32 >>= λ lo.
    read_i32 >>= λ hi. pure (record no_payload { min_int = some lo; max_int = some hi })
read_payload NodeType.string_enum = read_u16 >>= λ num.
    read_string_items num >>= λ items. pure (record no_payload { string_enum = some items })
read_payload NodeType.float_enum = read_u16 >>= λ num.
    read_float_items num >>= λ items. pure (record no_payload { float_enum = some items })

unfoldable pub read_def : Bytes → Reader WingNodeDef
read_def kept = read_i32 >>= λ parent_id. read_i32 >>= λ id. read_u16 >>= λ index.
    read_short_string >>= λ name. read_short_string >>= λ long_name. read_u16 >>= λ flags.
    read_payload (node_type_of (bit_and (flags / 16) 0x0f)) >>= λ payload. pure (record {
      id = id;
      parent_id = parent_id;
      index = index;
      name = name;
      long_name = long_name;
      node_type = node_type_of (bit_and (flags / 16) 0x0f);
      unit = unit_of (bit_and flags 0x0f);
      read_only = not (bit_and (flags / 2 ^ 9) 0x01 == 0);
      payload = payload;
      raw = kept;
    })

unfoldable pub from_bytes_inner : Bytes → Bool → Result WingNodeDef
from_bytes_inner raw keep_raw =
    bind (read_def (if keep_raw then raw else []) raw) (λ (d, rest). ok d)

unfoldable pub from_bytes : Bytes → Result WingNodeDef
from_bytes raw = from_bytes_inner raw true

unfoldable pub from_bytes_without_raw : Bytes → Result WingNodeDef
from_bytes_without_raw raw = from_bytes_inner raw false
