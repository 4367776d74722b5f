-- ===== src/Node.antt =====
-- src/node.rs: node definitions and node values. The children hold the wire codec of definitions.
pub mod Encode
pub mod Decode
pub mod Readers
pub mod Items
pub mod Numbers
pub mod Payloads
pub mod RoundTrip
use libwing.Prelude.Ints.{ℤ}
use libwing.Prelude.{Bool, List, ℕ, Option}
use libwing.Prelude.BigEndian.{Bytes}

pub data NodeType : Type 0 where
  node linear_float logarithmic_float fader_level integer string_enum float_enum string : NodeType
  unknown : ℕ → NodeType

pub data NodeUnit : Type 0 where
  none db percent milliseconds hertz meters seconds octaves : NodeUnit
  unknown : ℕ → NodeUnit

pub record StringEnumItem : Type 0 where
  pub item : Bytes
  pub long_item : Bytes

pub record FloatEnumItem : Type 0 where
  pub item : ℕ
  pub long_item : Bytes

-- The fields that only some types of node carry.
pub record Payload : Type 0 where
  pub min_float : Option ℕ
  pub max_float : Option ℕ
  pub steps : Option ℤ
  pub min_int : Option ℤ
  pub max_int : Option ℤ
  pub max_string_len : Option ℕ
  pub string_enum : Option (List StringEnumItem)
  pub float_enum : Option (List FloatEnumItem)

-- The struct is flat: `payload` stands for its fields from `min_float` to `float_enum`.
pub record WingNodeDef : Type 0 where
  pub id : ℤ
  pub parent_id : ℤ
  pub index : ℕ
  pub name : Bytes
  pub long_name : Bytes
  pub node_type : NodeType
  pub unit : NodeUnit
  pub read_only : Bool
  pub payload : Payload
  pub open payload use *
  pub raw : Bytes
