-- ===== src/Native/Response.antt =====
-- `NativeResponse`, `encode_responses`, `encode_responses_bounded` and `BoundedResponseEncoder` of
-- src/native.rs: the console's side of the protocol.
pub mod Batch
use libwing.Prelude.{
  ℕ, ◌+◌, ◌%◌, ◌^◌, List, [], ◌∷◌, ◌++◌, ltb, leb, ◌==◌, length, usize_max, if◌then◌else◌,
}
use libwing.Prelude.Ints.{ℤ, as_u32}
use libwing.Prelude.BigEndian.{Bytes, u16_to_be, u32_to_be}
use libwing.Outcome.{Result, ok, err, bind, invalid_input}
use libwing.Native.Channel.{escape, channel_base, append_escaped}
use libwing.Native.Value.{NativeValue, encode_value}
use libwing.Native.Request.{default_limits}
use libwing.Node.{WingNodeDef}
use libwing.Node.Encode.{to_wire_bytes}

pub data NativeResponse : Type 0 where
  request_end : NativeResponse
  node_def : WingNodeDef → NativeResponse
  node_data authoritative_event : ℤ → NativeValue → NativeResponse

pub record BoundedResponseEncoder : Type 0 where
  pub payload : Bytes
  pub wire_len : ℕ
  pub max_wire_bytes : ℕ

abbrev pub new : ℕ → BoundedResponseEncoder
new max_wire_bytes = record { payload = []; wire_len = 2; max_wire_bytes = max_wire_bytes }

abbrev pub saturating_add : ℕ → ℕ → ℕ
saturating_add a b = if leb (a + b) usize_max then a + b else usize_max

unfoldable pub escaped_len : Bytes → ℕ
escaped_len [] = 0
escaped_len (byte ∷ payload) = (if byte == escape then 2 else 1) + escaped_len payload

-- The length in front of a definition, and the definition.
abbrev pub definition_token : Bytes → Bytes
definition_token body =
    if leb (length body) 0xffff
    then (0xdf ∷ u16_to_be (length body)) ++ body
    else ((0xdf ∷ u16_to_be 0) ++ u32_to_be (length body % 2 ^ 32)) ++ body

abbrev pub encode_definition : Bytes → Result Bytes
encode_definition body =
    if ltb default_limits.max_definition_bytes (length body)
    then err invalid_input
    else ok (definition_token body)

-- What `push` puts in its local `encoded`.
unfoldable pub encode_response : NativeResponse → Result Bytes
encode_response request_end = ok (0xde ∷ [])
encode_response (node_data id value) = encode_value (0xd7 ∷ u32_to_be (as_u32 id)) value
encode_response (authoritative_event id value) = encode_value (0xd7 ∷ u32_to_be (as_u32 id)) value
encode_response (node_def def) = bind (to_wire_bytes def) encode_definition

abbrev pub append : BoundedResponseEncoder → Bytes → Result BoundedResponseEncoder
append e encoded =
    let next_wire_len : ℕ = saturating_add e.wire_len (escaped_len encoded) in
    if ltb e.max_wire_bytes next_wire_len
    then err invalid_input
    else ok (record e { payload = e.payload ++ encoded; wire_len = next_wire_len })

-- An encoder that `push` fails on is unchanged.
unfoldable pub push : NativeResponse → BoundedResponseEncoder → Result BoundedResponseEncoder
push response e = bind (encode_response response) (append e)

unfoldable pub finish : BoundedResponseEncoder → Result Bytes
finish e =
    if ltb e.max_wire_bytes e.wire_len
    then err invalid_input
    else ok (append_escaped (escape ∷ (channel_base + 1) ∷ []) e.payload)

unfoldable pub push_all :
    List NativeResponse → BoundedResponseEncoder → Result BoundedResponseEncoder
push_all [] e = ok e
push_all (response ∷ responses) e = bind (push response e) (push_all responses)

unfoldable pub encode_responses_bounded : List NativeResponse → ℕ → Result Bytes
encode_responses_bounded responses max_wire_bytes =
    bind (push_all responses (new max_wire_bytes)) finish

abbrev pub encode_responses : List NativeResponse → Result Bytes
encode_responses responses = encode_responses_bounded responses usize_max
