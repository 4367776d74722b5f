-- ===== src/NodeValue/Enums.antt =====
-- The three ways to name an item of an enum definition agree, and what is decoded is an item.
use libwing.Prelude.{
  if◌then◌else◌, inr, inl, Option-cases, true, ℕ, ◌≡◌, refl, sym, List, Option, none, some,
  get_elem?,
}
use mathlib.Core.Option.{some-injective, none-ne-some}
use libwing.Prelude.Ints.{negsuc, ℤ, pos}
use libwing.Prelude.BigEndian.{Bytes}
use libwing.Node.{FloatEnumItem, NodeType, WingNodeDef, StringEnumItem}
use libwing.NodeValue.{
  is_some, unwrap_or, unknown, decode_typed, decode_float_enum, decode_string_enum, get_string,
  other, raw_float, raw_index, find_from, decode_float, to_usize, f32_eq, decode_index,
  WingNodeData, EnumKey, EnumValue, EnumDecode, item, long_item, index, string_entry, encode_enum,
  decode_enum, display_string, string_enum_item, with_i32, str_eq, and_some,
}
use libwing.NodeValue.Lookup.{find_from_zero, find-get_elem?, str_eq→eq}

-- The key names the item with these labels at this place.
abbrev pub Names : EnumKey → ℕ → Bytes → Bytes → Type 0
Names (item name) n short long = short ≡ name
Names (long_item name) n short long = long ≡ name
Names (index k) n short long = n ≡ k

string_entry-Names :
    (items : List StringEnumItem) (key : EnumKey) (i : StringEnumItem)
    → string_entry items key ≡ some i
    → (n : ℕ) × (get_elem? items n ≡ some i) × Names key n i.item i.long_item
unfolding string_entry
string_entry-Names items (item name) i h =
    let (n, k, e) = find-get_elem? (λ j. str_eq j.item name) items i h in
    (n, k, str_eq→eq i.item name e)
string_entry-Names items (long_item name) i h =
    let (n, k, e) = find-get_elem? (λ j. str_eq j.long_item name) items i h in
    (n, k, str_eq→eq i.long_item name e)
string_entry-Names items (index n) i h = (n, h, refl)

and_some-eq-some {ℓ κ} :
    {A : Type ℓ} {B : Type κ} (o : Option A) (f : A → Option B) (b : B)
    → and_some o f ≡ some b
    → (a : A) × (o ≡ some a) × (f a ≡ some b)
and_some-eq-some none f b h = absurd (none-ne-some b h)
and_some-eq-some (some a) f b h = (a, refl, h)

-- For a definition of a string enum: a key that `encode_enum` resolves names an item of the list,
-- the value is that item's short name, and its place is a key for the same value; the value that
-- carries that place decodes to that item, displays as its short name, and names it.
pub encode_enum-decode_enum :
    (display_float : ℕ → Bytes) (display_int : ℤ → Bytes) (def : WingNodeDef)
    (items : List StringEnumItem) (key : EnumKey) (v : EnumValue)
    → def.node_type ≡ NodeType.string_enum
    → def.string_enum ≡ some items
    → encode_enum def key ≡ some v
    → (n : ℕ) × (i : StringEnumItem) × (get_elem? items n ≡ some i)
      × Names key n i.item i.long_item
      × (v ≡ EnumValue.str i.item)
      × (encode_enum def (index n) ≡ some v)
      × (decode_enum display_float display_int def (with_i32 (pos n))
          ≡ EnumDecode.string_enum i.item i.long_item n)
      × (display_string display_float display_int (with_i32 (pos n)) def ≡ i.item)
      × (string_enum_item display_float display_int (with_i32 (pos n)) def ≡ some i.item)
unfolding encode_enum decode_enum display_string string_enum_item
encode_enum-decode_enum df di def items key v t l h =
    let (i, e, k) =
      and_some-eq-some (string_entry items key) (λ j. some (EnumValue.str j.item)) v
        (rw (t, l) at h) in
    let (n, g, names) = string_entry-Names items key i e in
    (
      n,
      i,
      g,
      names,
      sym (some-injective (EnumValue.str i.item) v k),
      unfold string_entry in rw (t, l, g) k,
      rw (t, l, g),
      rw (t, l, g),
      rw (l, g),
    )

module _ (display_float : ℕ → Bytes) (display_int : ℤ → Bytes) (def : WingNodeDef)
    (data_value : WingNodeData) where
  -- What stands behind a decoded value: an item of the definition that the raw value selects, or
  -- the raw value itself.
  abbrev pub Supported : EnumDecode → Type 0
  Supported (EnumDecode.string_enum short long n) =
      (items : List StringEnumItem) × (i : StringEnumItem) × (def.string_enum ≡ some items)
      × (get_elem? items n ≡ some i)
      × (short ≡ i.item)
      × (long ≡ i.long_item)
      × (data_value.int_value ≡ some (pos n))
  Supported (EnumDecode.float_enum value long n) =
      (items : List FloatEnumItem) × (i : FloatEnumItem) × (f : ℕ) × (def.float_enum ≡ some items)
      × (get_elem? items n ≡ some i)
      × (value ≡ i.item)
      × (long ≡ i.long_item)
      × (data_value.float_value ≡ some f)
      × (f32_eq value f ≡ true)
  Supported (EnumDecode.unknown (raw_index i)) = data_value.int_value ≡ some i
  Supported (EnumDecode.unknown (raw_float f)) = data_value.float_value ≡ some f
  Supported (EnumDecode.unknown (other s)) = s ≡ get_string display_float display_int data_value

  index-Supported :
      (items : List StringEnumItem) (idx : ℤ)
      → def.string_enum ≡ some items
      → data_value.int_value ≡ some idx
      → Supported (decode_index idx (to_usize idx) items)
  index-Supported items (negsuc k) l e = e
  index-Supported items (pos k) l e = elim (Option-cases (get_elem? items k)) [
    | inl none_at ↦ rw none_at e
    | inr (i, at) ↦ rw at (items, i, l, at, refl, refl, e)
  ]

  float-Supported :
      (items : List FloatEnumItem) (f : ℕ)
      → def.float_enum ≡ some items
      → data_value.float_value ≡ some f
      → Supported (decode_float f (find_from 0 (λ i. f32_eq i.item f) items))
  float-Supported items f l e = elim (Option-cases (find_from 0 (λ i. f32_eq i.item f) items)) [
    | inl not_found ↦ rw not_found e
    | inr ((k, i), found) ↦
        let (at, passes) = find_from_zero (λ i. f32_eq i.item f) items k i found in
        rw found (items, i, f, l, at, refl, refl, e, passes)
  ]

  int_value-Supported :
      (items : List StringEnumItem) (o : Option ℤ)
      → def.string_enum ≡ some items
      → data_value.int_value ≡ o
      → Supported (
          if is_some o
          then decode_index (unwrap_or (pos 0) o) (to_usize (unwrap_or (pos 0) o)) items
          else unknown (other (get_string display_float display_int data_value)))
  int_value-Supported items none l e = refl
  int_value-Supported items (some idx) l e = index-Supported items idx l e

  float_value-Supported :
      (items : List FloatEnumItem) (o : Option ℕ)
      → def.float_enum ≡ some items
      → data_value.float_value ≡ o
      → Supported (
          if is_some o
          then decode_float (unwrap_or 0 o) (find_from 0 (λ i. f32_eq i.item (unwrap_or 0 o)) items)
          else unknown (other (get_string display_float display_int data_value)))
  float_value-Supported items none l e = refl
  float_value-Supported items (some f) l e = float-Supported items f l e

  string_enum-Supported :
      (o : Option (List StringEnumItem))
      → def.string_enum ≡ o
      → Supported (decode_string_enum display_float display_int o data_value)
  string_enum-Supported none l = refl
  string_enum-Supported (some items) l = int_value-Supported items data_value.int_value l refl

  float_enum-Supported :
      (o : Option (List FloatEnumItem))
      → def.float_enum ≡ o
      → Supported (decode_float_enum display_float display_int o data_value)
  float_enum-Supported none l = refl
  float_enum-Supported (some items) l = float_value-Supported items data_value.float_value l refl

  typed-Supported :
      (t : NodeType) → Supported (decode_typed display_float display_int t def data_value)
  typed-Supported NodeType.string_enum = string_enum-Supported def.string_enum refl
  typed-Supported NodeType.float_enum = float_enum-Supported def.float_enum refl
  typed-Supported _ = refl

  -- Whatever the definition and the value, `decode_enum` does not guess: an item it returns is the
  -- one of the definition's list that the raw index or the raw float selects, with its labels and
  -- its place, and what it returns as unknown is the raw index, the raw float or the raw rendering.
  pub decode_enum-Supported : Supported (decode_enum display_float display_int def data_value)
  unfolding decode_enum
  decode_enum-Supported = typed-Supported def.node_type
