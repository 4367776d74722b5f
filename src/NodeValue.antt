-- ===== src/NodeValue.antt =====
-- `WingNodeData` of src/node.rs and the enum helpers of src/helpers.rs. An f32 is its bit pattern.
pub mod Lookup
pub mod Enums
use libwing.Prelude.{
  ℕ, zero, suc, ◌%◌, ◌^◌, Bool, true, false, ◌&&◌, ◌||◌, List, [], ◌∷◌, Option, none, some, ltb,
  ◌==◌, get_elem?, if◌then◌else◌,
}
use libwing.Prelude.Ints.{ℤ, pos, negsuc}
use libwing.Prelude.BigEndian.{Bytes}
use libwing.Node.{NodeType, WingNodeDef, StringEnumItem, FloatEnumItem}

pub record WingNodeData : Type 0 where
  pub string_value : Option Bytes
  pub float_value : Option ℕ
  pub int_value : Option ℤ

abbrev pub new : WingNodeData
new = record { string_value = none; float_value = none; int_value = none }

abbrev pub with_string : Bytes → WingNodeData
with_string s = record new { string_value = some s }

abbrev pub with_float : ℕ → WingNodeData
with_float f = record new { float_value = some f }

-- Also of `with_i16` and `with_i8`, which widen their argument.
abbrev pub with_i32 : ℤ → WingNodeData
with_i32 i = record new { int_value = some i }

-- `unwrap_or` and `is_some`.
abbrev pub unwrap_or {ℓ} : {A : Type ℓ} → A → Option A → A
unwrap_or default none = default
unwrap_or default (some a) = a

abbrev pub is_some {ℓ} : {A : Type ℓ} → Option A → Bool
is_some none = false
is_some (some a) = true

abbrev pub get_float : WingNodeData → ℕ
get_float d = unwrap_or 0 d.float_value

abbrev pub get_int : WingNodeData → ℤ
get_int d = unwrap_or (pos 0) d.int_value

abbrev pub has_string : WingNodeData → Bool
has_string d = is_some d.string_value

abbrev pub has_float : WingNodeData → Bool
has_float d = is_some d.float_value

abbrev pub has_int : WingNodeData → Bool
has_int d = is_some d.int_value

-- `==` of strings, and of f32: a NaN differs from everything, the two zeros are equal.
unfoldable pub str_eq : Bytes → Bytes → Bool
str_eq [] [] = true
str_eq (x ∷ xs) (y ∷ ys) = (x == y) && str_eq xs ys
str_eq _ _ = false

abbrev pub is_nan : ℕ → Bool
is_nan bits = ltb 0x7f800000 (bits % 2 ^ 31)

unfoldable pub f32_eq : ℕ → ℕ → Bool
f32_eq a b =
    if is_nan a || is_nan b then false else (a == b) || ((a % 2 ^ 31 == 0) && (b % 2 ^ 31 == 0))

-- `iter().enumerate().find(..)`, from a position.
unfoldable pub find_from {ℓ} : {A : Type ℓ} → ℕ → (A → Bool) → List A → Option (ℕ × A)
find_from i p [] = none
find_from i p (x ∷ xs) = if p x then some (i, x) else find_from (suc i) p xs

abbrev pub second {ℓ} : {A : Type ℓ} → Option (ℕ × A) → Option A
second none = none
second (some (i, x)) = some x

-- `iter().find(..)`.
abbrev pub find {ℓ} : {A : Type ℓ} → (A → Bool) → List A → Option A
find p xs = second (find_from 0 p xs)

-- `usize::try_from` of an i32.
abbrev pub to_usize : ℤ → Option ℕ
to_usize (pos n) = some n
to_usize (negsuc n) = none

-- `?` on an Option, and `and_then`.
abbrev pub and_some {ℓ κ} : {A : Type ℓ} {B : Type κ} → Option A → (A → Option B) → Option B
and_some none f = none
and_some (some a) f = f a

pub data EnumKey : Type 0 where
  item long_item : Bytes → EnumKey
  index : ℕ → EnumKey

pub data EnumValue : Type 0 where
  str : Bytes → EnumValue
  float : ℕ → EnumValue

unfoldable pub string_entry : List StringEnumItem → EnumKey → Option StringEnumItem
string_entry items (item name) = find (λ i. str_eq i.item name) items
string_entry items (long_item name) = find (λ i. str_eq i.long_item name) items
string_entry items (index n) = get_elem? items n

unfoldable pub float_entry : List FloatEnumItem → EnumKey → Option FloatEnumItem
float_entry items (item name) = none
float_entry items (long_item name) = find (λ i. str_eq i.long_item name) items
float_entry items (index n) = get_elem? items n

abbrev encode_typed : NodeType → WingNodeDef → EnumKey → Option EnumValue
encode_typed NodeType.string_enum def key =
    and_some def.string_enum (λ items. and_some (string_entry items key) (λ i. some (str i.item)))
encode_typed NodeType.float_enum def key =
    and_some def.float_enum (λ items. and_some (float_entry items key) (λ i. some (float i.item)))
encode_typed _ def key = none

unfoldable pub encode_enum : WingNodeDef → EnumKey → Option EnumValue
encode_enum def key = encode_typed def.node_type def key

pub data RawEnumValue : Type 0 where
  raw_index : ℤ → RawEnumValue
  raw_float : ℕ → RawEnumValue
  other : Bytes → RawEnumValue

pub data EnumDecode : Type 0 where
  string_enum : Bytes → Bytes → ℕ → EnumDecode
  float_enum : ℕ → Bytes → ℕ → EnumDecode
  unknown : RawEnumValue → EnumDecode

abbrev pub decode_item : ℤ → ℕ → Option StringEnumItem → EnumDecode
decode_item idx n none = unknown (raw_index idx)
decode_item idx n (some i) = string_enum i.item i.long_item n

abbrev pub decode_index : ℤ → Option ℕ → List StringEnumItem → EnumDecode
decode_index idx none items = unknown (raw_index idx)
decode_index idx (some n) items = decode_item idx n (get_elem? items n)

abbrev pub decode_float : ℕ → Option (ℕ × FloatEnumItem) → EnumDecode
decode_float value none = unknown (raw_float value)
decode_float value (some (n, i)) = float_enum i.item i.long_item n

-- The rendering of numbers is the standard library's.
module _ (display_float : ℕ → Bytes) (display_int : ℤ → Bytes) where
  abbrev first_string : Option Bytes → Option ℕ → Option ℤ → Bytes
  first_string (some s) f i = s
  first_string none (some f) i = display_float f
  first_string none none (some i) = display_int i
  first_string none none none = []

  unfoldable pub get_string : WingNodeData → Bytes
  get_string d = first_string d.string_value d.float_value d.int_value

  abbrev pub decode_string_enum : Option (List StringEnumItem) → WingNodeData → EnumDecode
  decode_string_enum none data_value = unknown (other (get_string data_value))
  decode_string_enum (some items) data_value =
      if has_int data_value
      then decode_index (get_int data_value) (to_usize (get_int data_value)) items
      else unknown (other (get_string data_value))

  abbrev pub decode_float_enum : Option (List FloatEnumItem) → WingNodeData → EnumDecode
  decode_float_enum none data_value = unknown (other (get_string data_value))
  decode_float_enum (some items) data_value =
      if has_float data_value
      then decode_float (get_float data_value)
          (find_from 0 (λ i. f32_eq i.item (get_float data_value)) items)
      else unknown (other (get_string data_value))

  abbrev pub decode_typed : NodeType → WingNodeDef → WingNodeData → EnumDecode
  decode_typed NodeType.string_enum def data_value = decode_string_enum def.string_enum data_value
  decode_typed NodeType.float_enum def data_value = decode_float_enum def.float_enum data_value
  decode_typed _ def data_value = unknown (other (get_string data_value))

  unfoldable pub decode_enum : WingNodeDef → WingNodeData → EnumDecode
  decode_enum def data_value = decode_typed def.node_type def data_value

  abbrev displayed : EnumDecode → Bytes → Bytes
  displayed (string_enum short long n) raw = short
  displayed (float_enum value long n) raw = long
  displayed (unknown value) raw = raw

  unfoldable pub display_string : WingNodeData → WingNodeDef → Bytes
  display_string data_value def = displayed (decode_enum def data_value) (get_string data_value)

  abbrev pub named_item : List StringEnumItem → WingNodeData → Option StringEnumItem
  named_item items data_value =
      if has_int data_value
      then and_some (to_usize (get_int data_value)) (λ n. get_elem? items n)
      else if has_string data_value
      then find (λ i. str_eq i.item (get_string data_value)) items
      else none

  unfoldable pub string_enum_item : WingNodeData → WingNodeDef → Option Bytes
  string_enum_item data_value def =
      and_some def.string_enum (λ items. and_some (named_item items data_value) (λ i. some i.item))
