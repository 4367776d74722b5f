-- ===== src/Examples.antt =====
-- The theorems of src/native.rs, src/node.rs, src/console.rs and src/meters.rs at concrete inputs.
mod Client
mod Osc
use libwing.Prelude.{
  All, get_elem?, ℕ, refl, ◌∷◌, [], arith, true, false, none, some, ◌≡◌, List, map, length, ◌≤◌,
  ◌≢◌, ◌⊎◌, ◌≤◌,
}
use libwing.Prelude.Ints.{pos, negsuc}
use libwing.Prelude.BigEndian.{Bytes}
use libwing.Prelude.Utf8.{is_utf8}
use libwing.Outcome.{ok, err, and_then, meter_frame_length}
use libwing.Native.Channel
use libwing.Native.Channel.{selected, payload, encode_channel, append_escaped}
use libwing.Native.Channel.RoundTrip.{push-encode_channel, on_channel}
use libwing.Native.Channel.Stream.{push-Kept, Kept}
use libwing.Native.Channel.Grammar.{Reads}
use libwing.Native.Channel.Sound.{push_pieces, push_pieces-Reads}
use mathlib.Core.Logic.{◌↔◌}
use libwing.Native.Value.{NativeValue, integer, string, IsValue, encode_value}
use libwing.Native.Request.{NativeRequestDecoder, new, default_limits, set, toggle}
use libwing.Native.Request.Audio.{parse_audio}
use libwing.Native.Request.Audio.Loop.{EndsWithin, parse_audio-EndsWithin}
use libwing.Native.Request.Push
use libwing.Native.Request.Push.Invariant.{IsValid, push-IsValid, new-IsValid}
use libwing.Native.Response.{
  NativeResponse, request_end, node_data, encode_responses_bounded, push_all, encode_response,
  escaped_len,
}
use libwing.Native.Response
use libwing.Native.Response.Batch.{
  to_option, within, tokens, encode_responses_bounded-within, push-encode_responses_bounded,
}
use libwing.Messages.{set_value_message, toggle_message, data_message, definition_message}
use libwing.Messages.Commands.{
  idle, queried, data_request, definition_request, push-set_value_message, push-toggle_message,
  push_query,
}
use libwing.Meter
use libwing.Meter.{Meter, wire, from_wire}
use libwing.Meter.Wire.{from_wire-wire, wire-from_wire}
use libwing.MeterFrame.{Words, MeterFrameEntry, decode_frame, expected_words}
use libwing.MeterFrame.Entries.{opcode}
use libwing.MeterFrame.Split.{all_words, decode_frame-split}
use libwing.Node.{StringEnumItem, WingNodeDef, NodeType, NodeUnit}
use libwing.Node.Encode.{to_wire_bytes, push_short_string, write_payload, wire_flags}
use libwing.Node.Decode.{from_bytes, from_bytes_without_raw, no_payload}
use libwing.Node.Payloads.{carried}
use libwing.Node.RoundTrip.{IsDef, from_bytes-to_wire_bytes}
use libwing.NodeValue.{
  string_enum_item, display_string, EnumDecode, EnumValue, EnumKey, str_eq, decode_enum, find_from,
  with_i32, string_entry, encode_enum,
}
use libwing.NodeValue.Enums.{encode_enum-decode_enum, Names, decode_enum-Supported, Supported}
use libwing.BinaryValues.{encode_binary_values, NodeValue, parse_binary_values, to_native, Pairs}
use libwing.BinaryValues.RoundTrip.{parse_binary_values-encode_binary_values, encodable, IsPair}

-- A decoder that has seen nothing, and a node whose id holds an escape byte.
abbrev fresh : NativeRequestDecoder
fresh = new default_limits

abbrev hi : NativeValue
hi = string (0x68 ∷ 0x69 ∷ [])

hi-IsValue : IsValue hi
unfolding is_utf8
hi-IsValue = (refl, (omega arith, (omega arith, tt)))

push-set_value_message_example :
    (message : Bytes) × (set_value_message (pos 0x11df) hi ≡ ok message)
    × (Push.push message (idle fresh)
        ≡ (ok (set (pos 0x11df) hi ∷ []), record (idle fresh) { selected_id = some (pos 0x11df) }))
push-set_value_message_example =
    push-set_value_message (pos 0x11df) hi fresh (omega arith) hi-IsValue (omega arith)
      (omega arith) (omega arith, omega arith) (omega arith)

-- Channel 1, a node, a get, and the first byte of another token.
abbrev stream : Bytes
stream = 0xdf ∷ 0xd1 ∷ 0xd7 ∷ 0 ∷ 0 ∷ 0 ∷ 5 ∷ 0xdc ∷ 0xd7 ∷ []

push-IsValid_example :
    IsValid (Push.push stream fresh).1 × ((Push.push stream fresh).1.limits ≡ default_limits)
push-IsValid_example = push-IsValid stream fresh (omega arith) (new-IsValid default_limits)

abbrev gain : WingNodeDef
gain = record {
  id = pos 7;
  parent_id = negsuc 0;
  index = 3;
  name = 0x67 ∷ [];
  long_name = [];
  node_type = NodeType.integer;
  unit = NodeUnit.db;
  read_only = true;
  payload = record no_payload { min_int = some (negsuc 11); max_int = some (pos 12) };
  raw = [];
}

abbrev gain_bytes : Bytes
gain_bytes =
    0xff ∷ 0xff ∷ 0xff ∷ 0xff ∷ 0 ∷ 0 ∷ 0 ∷ 7 ∷ 0 ∷ 3 ∷ 1 ∷ 0x67 ∷ 0 ∷ 2 ∷ 0x41 ∷ 0xff ∷ 0xff ∷ 0xff
    ∷ 0xf4 ∷ 0 ∷ 0 ∷ 0 ∷ 12 ∷ []

gain-IsDef : IsDef gain
unfolding is_utf8
gain-IsDef = record {
  id = omega arith;
  parent_id = omega arith;
  index = omega arith;
  name = refl;
  long_name = refl;
  node_type = tt;
  unit = tt;
  payload = record {
    min_float = tt;
    max_float = tt;
    steps = tt;
    min_int = omega arith;
    max_int = omega arith;
    max_string_len = tt;
    string_enum = tt;
    float_enum = tt;
  };
}

from_bytes-to_wire_bytes_example :
    (from_bytes gain_bytes
      ≡ ok (record gain { payload = carried NodeType.integer gain.payload; raw = gain_bytes }))
    × (from_bytes_without_raw gain_bytes
        ≡ ok (record gain { payload = carried NodeType.integer gain.payload; raw = [] }))
unfolding to_wire_bytes push_short_string write_payload wire_flags
from_bytes-to_wire_bytes_example = from_bytes-to_wire_bytes gain gain_bytes gain-IsDef refl

abbrev batch : List NativeResponse
batch = node_data (pos 5) (integer (pos 0x11df)) ∷ request_end ∷ []

encode_responses_bounded-within_example :
    to_option (encode_responses_bounded batch 12) ≡ within 12 (tokens [] batch)
encode_responses_bounded-within_example = encode_responses_bounded-within batch 12 (omega arith)

abbrev batch_wire : Bytes
batch_wire = 0xdf ∷ 0xd1 ∷ 0xd7 ∷ 0 ∷ 0 ∷ 0 ∷ 5 ∷ 0xd3 ∷ 0x11 ∷ 0xdf ∷ 0xde ∷ 0xde ∷ []

push-encode_responses_bounded_example :
    (bs : Bytes) × (length batch_wire ≤ 12)
    × (tokens [] batch ≡ some bs)
    × (Channel.push batch_wire Channel.default
        ≡ (ok (selected 1 ∷ map (payload 1) bs), on_channel 1))
unfolding encode_responses_bounded push_all Response.push encode_response encode_value escaped_len
    Response.finish append_escaped
push-encode_responses_bounded_example =
    push-encode_responses_bounded batch 12 batch_wire (omega arith) refl

push-encode_channel_example :
    (wire : Bytes) × (encode_channel 3 (0xdf ∷ 1 ∷ []) ≡ ok wire)
    × (Channel.push wire (record { escaped = false; channel = none })
        ≡ (ok (selected 3 ∷ map (payload 3) (0xdf ∷ 1 ∷ [])), on_channel 3))
push-encode_channel_example = push-encode_channel 3 (0xdf ∷ 1 ∷ []) none (omega arith)

-- The cut is inside the escape sequence.
push_pieces-Reads_example :
    push_pieces
        (0xdf ∷ 0xd1 ∷ 0xdf ∷ [])
        (0xde ∷ 7 ∷ [])
        (record { escaped = false; channel = none })
      ≡ (ok (selected 1 ∷ payload 1 0xdf ∷ payload 1 7 ∷ []), on_channel 1)
    ↔ Reads none
        (0xdf ∷ 0xd1 ∷ 0xdf ∷ 0xde ∷ 7 ∷ [])
        (selected 1 ∷ payload 1 0xdf ∷ payload 1 7 ∷ [])
        (on_channel 1)
push_pieces-Reads_example =
    push_pieces-Reads (0xdf ∷ 0xd1 ∷ 0xdf ∷ []) (0xde ∷ 7 ∷ []) none
      (selected 1 ∷ payload 1 0xdf ∷ payload 1 7 ∷ []) (on_channel 1)

push-Kept_example : Kept (Channel.push (0xdf ∷ 0xdd ∷ 0xdf ∷ 9 ∷ []) Channel.default)
push-Kept_example = push-Kept (0xdf ∷ 0xdd ∷ 0xdf ∷ 9 ∷ []) Channel.default tt

abbrev dca_words : Words
dca_words = pos 1 ∷ negsuc 1 ∷ pos 3 ∷ negsuc 255 ∷ []

abbrev dca_request : List Meter
dca_request = Meter.dca 2 ∷ []

decode_frame-split_example :
    ((length dca_words ≢ expected_words dca_request)
      × (decode_frame dca_request dca_words
          ≡ some (err (meter_frame_length (expected_words dca_request) (length dca_words)))))
    ⊎ ((es : List MeterFrameEntry) × (decode_frame dca_request dca_words ≡ some (ok es))
        × (all_words es ≡ dca_words)
        × (map opcode es ≡ map (λ m. (Meter.wire m).0) dca_request))
decode_frame-split_example = decode_frame-split dca_request dca_words

push_query_example :
    (Push.push (data_message (pos 0)) (idle fresh)
      ≡ (ok (data_request (pos 0) ∷ []), queried (pos 0) fresh))
    × (Push.push (definition_message (pos 0)) (idle fresh)
        ≡ (ok (definition_request (pos 0) ∷ []), queried (pos 0) fresh))
push_query_example = push_query (pos 0) fresh (omega arith) (omega arith, omega arith) (omega arith)

push-toggle_message_example :
    Push.push (toggle_message (negsuc 0)) (idle fresh)
    ≡ (ok (toggle (negsuc 0) ∷ []), record (idle fresh) { selected_id = some (negsuc 0) })
push-toggle_message_example =
    push-toggle_message (negsuc 0) fresh (omega arith) (omega arith, omega arith) (omega arith)

-- The root, the name a, and the request for the data of that path.
abbrev named : NativeRequestDecoder
named = record fresh { audio = 0xda ∷ 0xc0 ∷ 0x61 ∷ 0xdc ∷ [] }

parse_audio-EndsWithin_example : EndsWithin 4 named (parse_audio named)
parse_audio-EndsWithin_example = parse_audio-EndsWithin named

from_wire-wire_example : from_wire 0xa5 2 ≡ some (Meter.dca 2)
unfolding wire
from_wire-wire_example = from_wire-wire (Meter.dca 2)

wire-from_wire_example : ((wire (Meter.monitor)).0 ≡ 0xa9) × ((wire (Meter.monitor)).1 ≡ 0)
unfolding from_wire
wire-from_wire_example = wire-from_wire 0xa9 0 Meter.monitor refl

abbrev modes : List StringEnumItem
modes =
    record { item = 0x61 ∷ []; long_item = 0x41 ∷ [] }
    ∷ record { item = 0x62 ∷ []; long_item = 0x42 ∷ [] }
    ∷ []

abbrev mode : WingNodeDef
mode = record gain {
  node_type = NodeType.string_enum;
  payload = record no_payload { string_enum = some modes };
}

-- A rendering of numbers.
abbrev no_digits {ℓ} : {A : Type ℓ} → A → Bytes
no_digits n = []

encode_enum-decode_enum_example :
    (n : ℕ) × (i : StringEnumItem) × (get_elem? modes n ≡ some i)
    × Names (EnumKey.long_item (0x42 ∷ [])) n i.item i.long_item
    × (EnumValue.str (0x62 ∷ []) ≡ EnumValue.str i.item)
    × (encode_enum mode (EnumKey.index n) ≡ some (EnumValue.str (0x62 ∷ [])))
    × (decode_enum no_digits no_digits mode (with_i32 (pos n))
        ≡ EnumDecode.string_enum i.item i.long_item n)
    × (display_string no_digits no_digits (with_i32 (pos n)) mode ≡ i.item)
    × (string_enum_item no_digits no_digits (with_i32 (pos n)) mode ≡ some i.item)
unfolding encode_enum string_entry find_from str_eq
encode_enum-decode_enum_example =
    encode_enum-decode_enum no_digits no_digits mode modes (EnumKey.long_item (0x42 ∷ []))
      (EnumValue.str (0x62 ∷ [])) refl refl refl

decode_enum-Supported_example :
    Supported no_digits no_digits mode
      (with_i32 (pos 7))
      (decode_enum no_digits no_digits mode (with_i32 (pos 7)))
decode_enum-Supported_example = decode_enum-Supported no_digits no_digits mode (with_i32 (pos 7))

abbrev saved : Pairs
saved = (pos 5, NodeValue.int (pos 300)) ∷ (negsuc 0, NodeValue.string (0x68 ∷ 0x69 ∷ [])) ∷ []

saved-IsPair : All IsPair saved
unfolding to_native is_utf8
saved-IsPair =
    ((omega arith, omega arith), ((omega arith, (refl, (omega arith, (omega arith, tt)))), tt))

-- A lossy decoding that keeps every string.
parse_binary_values-encode_binary_values_example :
    parse_binary_values (λ s. s) (encode_binary_values saved) ≡ ok (encodable saved)
parse_binary_values-encode_binary_values_example =
    parse_binary_values-encode_binary_values (λ s. s) (λ s h. refl) saved saved-IsPair
