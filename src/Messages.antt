-- ===== src/Messages.antt =====
-- The client's messages of src/console.rs: the bytes that `set_*`, `toggle`, `request_node_*` and
-- `request_meter` write to the command stream.
pub mod Commands
use libwing.Native.Channel.{append_escaped}
use libwing.Native.Value.{NativeValue, encode_value, integer, float, string}
use libwing.Meter.{Meter, encode_meters}
use libwing.Prelude.BigEndian.{u16_to_be, u32_to_be, Bytes}
use libwing.Prelude.{false, ◌==◌, none, some, ◌∷◌, ◌++◌, if◌then◌else◌, Bool, [], Option, List, ℕ}
use libwing.Prelude.Ints.{negsuc, as_u32, pos, ℤ}
use libwing.Outcome.{ok, bind, Result}

unfoldable pub format_id : ℤ → Bytes → ℕ → Option ℕ → Bytes
unfolding append_escaped
format_id id buf prefix suffix =
    let with_id : Bytes = append_escaped (buf ++ prefix ∷ []) (u32_to_be (as_u32 id)) in
    elim suffix [ none ↦ with_id | some s ↦ with_id ++ s ∷ [] ]

unfoldable pub append_value_message : Bytes → ℤ → NativeValue → Result Bytes
unfolding append_escaped
append_value_message buf id value =
    bind (encode_value [] value) (λ token. ok (append_escaped (format_id id buf 0xd7 none) token))

unfoldable pub set_value_message : ℤ → NativeValue → Result Bytes
unfolding append_value_message
set_value_message id value = append_value_message [] id value

unfoldable pub set_string_message : ℤ → Bytes → Result Bytes
unfolding set_value_message
set_string_message id value = set_value_message id (string value)

unfoldable pub set_float_message : ℤ → ℕ → Result Bytes
unfolding set_value_message
set_float_message id value = set_value_message id (float value)

unfoldable pub set_int_message : ℤ → ℤ → Result Bytes
unfolding set_value_message
set_int_message id value = set_value_message id (integer value)

abbrev pub is_root : ℤ → Bool
is_root (pos n) = n == 0
is_root (negsuc n) = false

-- The bytes that `request_node_definition` and `request_node_data` write.
unfoldable pub definition_message : ℤ → Bytes
unfolding format_id
definition_message id = if is_root id then 0xda ∷ 0xdd ∷ [] else format_id id [] 0xd7 (some 0xdd)

unfoldable pub data_message : ℤ → Bytes
unfolding format_id
data_message id = if is_root id then 0xda ∷ 0xdc ∷ [] else format_id id [] 0xd7 (some 0xdc)

unfoldable pub toggle_message : ℤ → Bytes
unfolding format_id
toggle_message id = format_id id [] 0xd7 (some 0xd8)

-- The message of `request_meter`, by the local port and the id of the subscription.
unfoldable pub meter_message : ℕ → ℕ → List Meter → Result Bytes
unfolding append_escaped
meter_message port id meters = bind (encode_meters [] meters) (λ encoded_meters.
    let opened : Bytes = append_escaped (0xdf ∷ 0xd3 ∷ 0xd3 ∷ []) (u16_to_be port) in
    let with_id : Bytes = append_escaped (opened ++ 0xd4 ∷ []) (u16_to_be id) in
    let with_port : Bytes = append_escaped with_id (u16_to_be port) in
    ok ((with_port ++ 0xdc ∷ []) ++ (encoded_meters ++ 0xde ∷ 0xdf ∷ 0xd1 ∷ [])))
