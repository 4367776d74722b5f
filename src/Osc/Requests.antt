-- ===== src/Osc/Requests.antt =====
-- The request builders of src/osc.rs.
use libwing.Prelude.{
  ℕ, zero, suc, ◌+◌, ◌/◌, ◌%◌, Bool, true, false, List, [], ◌∷◌, ◌++◌, ◌||◌, ◌&&◌, ltb, ◌==◌,
  if◌then◌else◌,
}
use libwing.Prelude.Ints.{ℤ, negsuc, as_u32}
use libwing.Prelude.BigEndian.{Bytes}
use libwing.Osc.{Result, ok, err, bind, malformed, OscArg, int, float, str, OscMessage, contains}

unfoldable pub bytes_eq : Bytes → Bytes → Bool
bytes_eq [] [] = true
bytes_eq (a ∷ s) (b ∷ t) = (a == b) && bytes_eq s t
bytes_eq _ _ = false

-- `contains` of a set of characters.
unfoldable pub contains_any : Bytes → Bytes → Bool
contains_any s [] = false
contains_any s (c ∷ cs) = contains s c || contains_any s cs

-- '*', '?', '[', ']', '{', '}', ',' and ' '.
abbrev pub reserved : Bytes
reserved = 0x2a ∷ 0x3f ∷ 0x5b ∷ 0x5d ∷ 0x7b ∷ 0x7d ∷ 0x2c ∷ 0x20 ∷ []

unfoldable pub validate_address_path : Bytes → Result (Unit {0})
validate_address_path path = if contains_any path reserved then err malformed else ok tt

abbrev pub with_args : Bytes → List OscArg → Result OscMessage
with_args path args =
    bind (validate_address_path path) (λ _. ok (record { addr = path; args = args }))

abbrev pub get_param : Bytes → Result OscMessage
get_param path = with_args path []

-- `{:08x}` of an i32.
abbrev pub hex_digit : ℕ → ℕ
hex_digit n = if ltb n 10 then 0x30 + n else 0x57 + n

unfoldable pub hex : ℕ → ℕ → Bytes
hex zero n = []
hex (suc digits) n = hex digits (n / 16) ++ hex_digit (n % 16) ∷ []

abbrev pub get_param_by_id : ℤ → OscMessage
get_param_by_id id = record { addr = 0x2f ∷ 0x23 ∷ hex 8 (as_u32 id); args = [] }

abbrev pub set_string : Bytes → Bytes → Result OscMessage
set_string path value = with_args path (str value ∷ [])

abbrev pub set_float : Bytes → ℕ → Result OscMessage
set_float path value = with_args path (float value ∷ [])

abbrev pub set_int : Bytes → ℤ → Result OscMessage
set_int path value = with_args path (int value ∷ [])

abbrev pub toggle : Bytes → Result OscMessage
toggle path = set_int path (negsuc 0)

abbrev pub set_enum_by_name : Bytes → Bytes → Result OscMessage
set_enum_by_name path name = set_string path name

abbrev pub set_enum_by_index : Bytes → ℤ → Result OscMessage
set_enum_by_index path index = set_int path index

abbrev pub Pairs : Type 0
Pairs = List (Bytes × Bytes)

abbrev pub is_empty : Bytes → Bool
is_empty [] = true
is_empty (b ∷ bs) = false

-- '/', '.', ',' and '='.
abbrev pub separators : Bytes
separators = 0x2f ∷ 0x2e ∷ 0x2c ∷ 0x3d ∷ []

abbrev pub bad_name : Bytes → Bool
bad_name name =
    is_empty name
    || (contains_any name separators
        || (contains name 0 || (bytes_eq name (0x2e ∷ []) || bytes_eq name (0x2e ∷ 0x2e ∷ []))))

abbrev pub bad_value : Bytes → Bool
bad_value value = contains value 0x2c || contains value 0

unfoldable pub format_pair : Bytes × Bytes → Result Bytes
format_pair (name, value) =
    if bad_name name
    then err malformed
    else if bad_value value
    then err malformed
    else ok (name ++ 0x3d ∷ value)

unfoldable pub format_pairs : Pairs → Result (List Bytes)
format_pairs [] = ok []
format_pairs (p ∷ pairs) =
    bind (format_pair p) (λ text. bind (format_pairs pairs) (λ texts. ok (text ∷ texts)))

-- `join(",")`.
unfoldable pub join : List Bytes → Bytes
join [] = []
join (text ∷ []) = text
join (text ∷ next ∷ texts) = text ++ 0x2c ∷ join (next ∷ texts)

unfoldable pub format_node_pairs : Pairs → Result Bytes
format_node_pairs pairs = bind (format_pairs pairs) (λ texts. ok (join texts))

unfoldable pub node_set_local : Bytes → Pairs → Result OscMessage
node_set_local node_path pairs = bind (validate_address_path node_path) (λ _.
    bind (format_node_pairs pairs) (λ text. ok (record { addr = node_path; args = str text ∷ [] })))

abbrev pub node_set_root : Bytes → OscMessage
node_set_root text = record { addr = 0x2f ∷ []; args = str text ∷ [] }

abbrev pub node_dump : Bytes → Result OscMessage
node_dump node_path = with_args node_path (str (0x2a ∷ []) ∷ [])

abbrev pub node_describe : Bytes → Result OscMessage
node_describe node_path = with_args node_path (str (0x3f ∷ []) ∷ [])

abbrev pub node_describe_with_values : Bytes → Result OscMessage
node_describe_with_values node_path = with_args node_path (str (0x23 ∷ []) ∷ [])

abbrev pub console_info : OscMessage
console_info = record { addr = 0x2f ∷ 0x3f ∷ []; args = [] }

-- The decimal digits of a number; a u16 has five at most.
unfoldable pub decimal : ℕ → ℕ → Bytes
decimal zero n = []
decimal (suc digits) n =
    let before = decimal digits (n / 10) in
    (if ltb n 10 then [] else before) ++ (0x30 + n % 10) ∷ []

abbrev pub with_reply_port : ℕ → OscMessage → OscMessage
with_reply_port port msg = record {
  addr = (0x2f ∷ 0x25 ∷ decimal 5 port) ++ msg.addr;
  args = msg.args;
}

pub data SubscriptionFormat : Type 0 where
  binary osc_triplet osc_native : SubscriptionFormat

-- "/*b", "/*s" and "/*S".
abbrev pub address : SubscriptionFormat → Bytes
address binary = 0x2f ∷ 0x2a ∷ 0x62 ∷ []
address osc_triplet = 0x2f ∷ 0x2a ∷ 0x73 ∷ []
address osc_native = 0x2f ∷ 0x2a ∷ 0x53 ∷ []

abbrev pub subscribe : SubscriptionFormat → OscMessage
subscribe format = record { addr = address format; args = [] }
