-- ===== src/Osc/Replies.antt =====
-- The reply parsers of src/osc.rs.
use libwing.Prelude.{ℕ, Bool, false, Option, none, some, List, [], ◌∷◌, ◌==◌, if◌then◌else◌}
use libwing.Prelude.Ints.{ℤ}
use libwing.Prelude.BigEndian.{Bytes}
use libwing.Osc.{
  Result, ok, err, malformed, or_malformed, node, OscNodeError, node_not_found, value_error,
  buffer_overflow, node_is_not_par, incomplete_data, stack_empty, OscArg, int, float, str, blob,
  OscMessage,
}
use libwing.Osc.Requests.{bytes_eq, Pairs}

pub data ParamFacets : Type 0 where
  string_or_enum : Bytes → ParamFacets
  float_facets : Bytes → ℕ → ℕ → ParamFacets
  int_facets : Bytes → ℕ → ℤ → ParamFacets
  native_float : ℕ → ParamFacets
  native_int : ℤ → ParamFacets

pub record ParamReply : Type 0 where
  pub path : Bytes
  pub facets : ParamFacets

abbrev pub facets_of : List OscArg → Option ParamFacets
facets_of (str display ∷ []) = some (string_or_enum display)
facets_of (str display ∷ float raw ∷ float value ∷ []) = some (float_facets display raw value)
facets_of (str display ∷ float raw ∷ int value ∷ []) = some (int_facets display raw value)
facets_of (float value ∷ []) = some (native_float value)
facets_of (int value ∷ []) = some (native_int value)
facets_of _ = none

abbrev pub reply_at : Bytes → Option ParamFacets → Result ParamReply
reply_at path none = err malformed
reply_at path (some facets) = ok (record { path = path; facets = facets })

unfoldable pub parse_param_reply : OscMessage → Result ParamReply
parse_param_reply msg = reply_at msg.addr (facets_of msg.args)

pub data OscEvent : Type 0 where
  param : ParamReply → OscEvent
  binary : Bytes → OscEvent
  raw : OscMessage → OscEvent

unfoldable pub ends_with : Bytes → ℕ → Bool
ends_with [] c = false
ends_with (b ∷ []) c = b == c
ends_with (b ∷ next ∷ bs) c = ends_with (next ∷ bs) c

abbrev pub root_event : OscMessage → List OscArg → OscEvent
root_event msg (blob content ∷ []) = binary content
root_event msg _ = raw msg

abbrev pub reply_event : OscMessage → Result ParamReply → OscEvent
reply_event msg (ok reply) = param reply
reply_event msg (err e) = raw msg

unfoldable pub classify_event : OscMessage → OscEvent
classify_event msg =
    if bytes_eq msg.addr (0x2f ∷ [])
    then root_event msg msg.args
    else if ends_with msg.addr 0x2a
    then raw msg
    else reply_event msg (parse_param_reply msg)

-- "NODE NOT FOUND", "VALUE ERROR", "BUFFER OVERFLOW", "NODE IS NOT PAR", "INCOMPLETE DATA" and
-- "STACK EMPTY".
unfoldable pub error_text : OscNodeError → Bytes
error_text node_not_found = 78 ∷ 79 ∷ 68 ∷ 69 ∷ 32 ∷ 78 ∷ 79 ∷ 84 ∷ 32 ∷ 70 ∷ 79 ∷ 85 ∷ 78 ∷ 68 ∷ []
error_text value_error = 86 ∷ 65 ∷ 76 ∷ 85 ∷ 69 ∷ 32 ∷ 69 ∷ 82 ∷ 82 ∷ 79 ∷ 82 ∷ []
error_text buffer_overflow =
    66 ∷ 85 ∷ 70 ∷ 70 ∷ 69 ∷ 82 ∷ 32 ∷ 79 ∷ 86 ∷ 69 ∷ 82 ∷ 70 ∷ 76 ∷ 79 ∷ 87 ∷ []
error_text node_is_not_par =
    78 ∷ 79 ∷ 68 ∷ 69 ∷ 32 ∷ 73 ∷ 83 ∷ 32 ∷ 78 ∷ 79 ∷ 84 ∷ 32 ∷ 80 ∷ 65 ∷ 82 ∷ []
error_text incomplete_data =
    73 ∷ 78 ∷ 67 ∷ 79 ∷ 77 ∷ 80 ∷ 76 ∷ 69 ∷ 84 ∷ 69 ∷ 32 ∷ 68 ∷ 65 ∷ 84 ∷ 65 ∷ []
error_text stack_empty = 83 ∷ 84 ∷ 65 ∷ 67 ∷ 75 ∷ 32 ∷ 69 ∷ 77 ∷ 80 ∷ 84 ∷ 89 ∷ []

-- `OscNodeError::parse`.
unfoldable pub parse : Bytes → Option OscNodeError
parse s =
    if bytes_eq s (error_text node_not_found)
    then some node_not_found
    else if bytes_eq s (error_text value_error)
    then some value_error
    else if bytes_eq s (error_text buffer_overflow)
    then some buffer_overflow
    else if bytes_eq s (error_text node_is_not_par)
    then some node_is_not_par
    else if bytes_eq s (error_text incomplete_data)
    then some incomplete_data
    else if bytes_eq s (error_text stack_empty)
    then some stack_empty
    else none

abbrev pub ok_text : Bytes
ok_text = 0x4f ∷ 0x4b ∷ []

abbrev pub rejection : Option OscNodeError → Result (Unit {0})
rejection none = err malformed
rejection (some e) = err (node e)

abbrev pub ack_of : List OscArg → Result (Unit {0})
ack_of (str text ∷ []) = if bytes_eq text ok_text then ok tt else rejection (parse text)
ack_of _ = err malformed

unfoldable pub parse_node_ack : OscMessage → Result (Unit {0})
parse_node_ack msg = if ends_with msg.addr 0x2a then ack_of msg.args else err malformed

-- `split(',')` and `split_once('=')`.
abbrev pub onto_first : ℕ → List Bytes → List Bytes
onto_first b [] = (b ∷ []) ∷ []
onto_first b (part ∷ parts) = (b ∷ part) ∷ parts

unfoldable pub split : ℕ → Bytes → List Bytes
split c [] = [] ∷ []
split c (b ∷ bs) = let rest = split c bs in if b == c then [] ∷ rest else onto_first b rest

abbrev pub onto_key : ℕ → Option (Bytes × Bytes) → Option (Bytes × Bytes)
onto_key b none = none
onto_key b (some (key, value)) = some (b ∷ key, value)

unfoldable pub split_once : ℕ → Bytes → Option (Bytes × Bytes)
split_once c [] = none
split_once c (b ∷ bs) =
    let rest = split_once c bs in if b == c then some ([], bs) else onto_key b rest

abbrev pub add_pair : Option (Bytes × Bytes) → Pairs → Pairs
add_pair none pairs = pairs
add_pair (some p) pairs = p ∷ pairs

unfoldable pub pairs_of : List Bytes → Pairs
pairs_of [] = []
pairs_of ([] ∷ parts) = pairs_of parts
pairs_of ((b ∷ bs) ∷ parts) = add_pair (split_once 0x3d (b ∷ bs)) (pairs_of parts)

abbrev pub dump_of : List OscArg → Result Pairs
dump_of (str text ∷ []) = ok (pairs_of (split 0x2c text))
dump_of _ = err malformed

unfoldable pub parse_node_dump : OscMessage → Result Pairs
parse_node_dump msg = dump_of msg.args

-- src/console.rs.
pub record DiscoveryInfo : Type 0 where
  pub ip : Bytes
  pub name : Bytes
  pub model : Bytes
  pub serial : Bytes
  pub firmware : Bytes

abbrev pub wing : Bytes
wing = 0x57 ∷ 0x49 ∷ 0x4e ∷ 0x47 ∷ []

abbrev pub info_of : List Bytes → Option DiscoveryInfo
info_of (first ∷ ip ∷ name ∷ model ∷ serial ∷ firmware ∷ more) =
    if bytes_eq first wing
    then some (record { ip = ip; name = name; model = model; serial = serial; firmware = firmware })
    else none
info_of _ = none

unfoldable pub parse_discovery : Bytes → Option DiscoveryInfo
parse_discovery reply = info_of (split 0x2c reply)

abbrev pub info_from : List OscArg → Result DiscoveryInfo
info_from (str text ∷ []) = or_malformed (parse_discovery text)
info_from _ = err malformed

unfoldable pub parse_console_info : OscMessage → Result DiscoveryInfo
parse_console_info msg = info_from msg.args
