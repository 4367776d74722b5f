-- ===== src/Examples/Osc.antt =====
-- The theorems on src/osc.rs and src/safety.rs at concrete inputs.
use libwing.Prelude.{
  ℕ, ◌≡◌, ◌≤◌, ◌⊎◌, refl, Bool, true, false, Option, none, some, List, [], ◌∷◌, arith, length, All,
}
use libwing.Prelude.BigEndian.{Bytes}
use libwing.Osc.Client.{WingOscClient, silent, arrives, request_with_policy}
use libwing.Osc.Matching.{reply_matches, strip_reply_port}
use libwing.Prelude.Ints.{ℤ, pos}
use libwing.Osc.{
  Result, ok, err, node, stack_empty, OscArg, int, float, str, blob, OscMessage, encode, decode,
  max_packet_bytes,
}
use libwing.Osc.RoundTrip.{IsArg}
use libwing.Osc.Encoded.{decode-encode}
use libwing.Osc.Requests.{osc_native, with_reply_port, Pairs, node_set_local}
use libwing.Osc.Replies.{param, string_or_enum, classify_event, parse_node_dump, parse_node_ack}
use libwing.Osc.Events.{Says, parse_node_ack-Says, parse_node_ack-ack_text, ack_text}
use libwing.Osc.Classified.{Classifies, classify_event-Classifies}
use libwing.Osc.Pairs.{parse_node_dump-node_set_local}
use libwing.Safety.{schema_crawl, Explains, ensure_allowed, ensure_allowed-Explains}
use libwing.Osc.Retries.{request_with_policy-Sends, state_of, Sends}
use libwing.Osc.Subscription.{Subscriber, poll_event}
use libwing.Osc.Renewals.{Renewing, end_of, poll_event-Renewing}
use libwing.Osc.Unsolicited.{request_with_policy-IsBounded}
use libwing.Osc.ReplyPort.{reply_matches-with_reply_port}

-- /ch with 5, "x" and a blob of one byte.
abbrev message : OscMessage
message = record {
  addr = 0x2f ∷ 0x63 ∷ 0x68 ∷ [];
  args = int (pos 5) ∷ str (0x78 ∷ []) ∷ blob (1 ∷ []) ∷ [];
}

abbrev packet : Bytes
packet =
    0x2f ∷ 0x63 ∷ 0x68 ∷ 0 ∷ 0x2c ∷ 0x69 ∷ 0x73 ∷ 0x62 ∷ 0 ∷ 0 ∷ 0 ∷ 0 ∷ 0 ∷ 0 ∷ 0 ∷ 5 ∷ 0x78 ∷ 0
    ∷ 0 ∷ 0 ∷ 0 ∷ 0 ∷ 0 ∷ 1 ∷ 1 ∷ 0 ∷ 0 ∷ 0 ∷ []

message-packet : encode message ≡ ok packet
unfolding encode libwing.Osc.contains libwing.Osc.any_nul libwing.Osc.encode_args
    libwing.Osc.push_args libwing.Osc.zeros
message-packet = refl

message-IsArg : All IsArg message.args
unfolding libwing.Prelude.Utf8.is_utf8
message-IsArg = (omega arith, (refl, (tt, tt)))

decode-encode_example : (length packet ≤ max_packet_bytes) × (decode packet ≡ ok message)
unfolding libwing.Prelude.Utf8.is_utf8
decode-encode_example = decode-encode message packet refl refl message-IsArg message-packet

-- f=4,m=1 under /c.
abbrev pairs : Pairs
pairs = (0x66 ∷ [], 0x34 ∷ []) ∷ (0x6d ∷ [], 0x31 ∷ []) ∷ []

abbrev set_pairs : OscMessage
set_pairs = record {
  addr = 0x2f ∷ 0x63 ∷ [];
  args = str (0x66 ∷ 0x3d ∷ 0x34 ∷ 0x2c ∷ 0x6d ∷ 0x3d ∷ 0x31 ∷ []) ∷ [];
}

set_pairs-node_set_local : node_set_local (0x2f ∷ 0x63 ∷ []) pairs ≡ ok set_pairs
unfolding node_set_local libwing.Osc.Requests.validate_address_path
    libwing.Osc.Requests.contains_any libwing.Osc.contains libwing.Osc.Requests.format_node_pairs
    libwing.Osc.Requests.format_pairs libwing.Osc.Requests.format_pair libwing.Osc.Requests.bytes_eq
    libwing.Osc.Requests.join
set_pairs-node_set_local = refl

parse_node_dump-node_set_local_example : parse_node_dump set_pairs ≡ ok pairs
parse_node_dump-node_set_local_example =
    parse_node_dump-node_set_local (0x2f ∷ 0x63 ∷ []) pairs set_pairs set_pairs-node_set_local

-- "/ch" with the text 4.
abbrev text_reply : OscMessage
text_reply = record { addr = 0x2f ∷ 0x63 ∷ 0x68 ∷ []; args = str (0x34 ∷ []) ∷ [] }

classify_event-Classifies_example :
    Classifies text_reply
      (param (record { path = 0x2f ∷ 0x63 ∷ 0x68 ∷ []; facets = string_or_enum (0x34 ∷ []) }))
unfolding classify_event libwing.Osc.Requests.bytes_eq libwing.Osc.Replies.ends_with
    libwing.Osc.Replies.parse_param_reply
classify_event-Classifies_example = classify_event-Classifies text_reply

-- "/c*" with the text STACK EMPTY.
abbrev rejected : OscMessage
rejected = record {
  addr = 0x2f ∷ 0x63 ∷ 0x2a ∷ [];
  args = str (83 ∷ 84 ∷ 65 ∷ 67 ∷ 75 ∷ 32 ∷ 69 ∷ 77 ∷ 80 ∷ 84 ∷ 89 ∷ []) ∷ [];
}

parse_node_ack-Says_example : Says rejected (err (node stack_empty))
unfolding parse_node_ack libwing.Osc.Replies.ends_with libwing.Osc.Requests.bytes_eq
    libwing.Osc.Replies.parse libwing.Osc.Replies.error_text
parse_node_ack-Says_example = parse_node_ack-Says rejected

parse_node_ack-ack_text_example :
    parse_node_ack
      (record { addr = 0x2f ∷ 0x2a ∷ []; args = str (ack_text (some stack_empty)) ∷ [] })
    ≡ err (node stack_empty)
unfolding libwing.Osc.Replies.ends_with
parse_node_ack-ack_text_example = parse_node_ack-ack_text (0x2f ∷ 0x2a ∷ []) (some stack_empty) refl

ensure_allowed-Explains_example :
    Explains (λ op. false) schema_crawl (ensure_allowed (λ op. false) schema_crawl)
ensure_allowed-Explains_example = ensure_allowed-Explains (λ op. false) schema_crawl

-- Nothing of the property map.
abbrev no_names : ℤ → List Bytes
no_names id = []

abbrev client : WingOscClient
client = record {
  unsolicited = [];
  unsolicited_dropped = 0;
  sent = [];
  sends = [];
  waits =
      record { expired = true; receive = silent }
      ∷ record { expired = false; receive = arrives packet }
      ∷ [];
}

request_with_policy-Sends_example :
    Sends 3 packet client (state_of (request_with_policy no_names 3 message client))
request_with_policy-Sends_example =
    request_with_policy-Sends no_names 3 message packet client message-packet

request_with_policy-IsBounded_example :
    length ((state_of (request_with_policy no_names 3 message client)).unsolicited) ≤ 1024
request_with_policy-IsBounded_example =
    request_with_policy-IsBounded no_names 3 message client (omega arith)

reply_matches-with_reply_port_example :
    (strip_reply_port (with_reply_port 4000 message).addr ≡ message.addr)
    × (reply_matches no_names (with_reply_port 4000 message).addr message.addr ≡ true)
unfolding libwing.Osc.Replies.ends_with
reply_matches-with_reply_port_example =
    reply_matches-with_reply_port no_names 4000 message refl refl

-- The native subscription, whose renewal comes due at the second look at the clock.
abbrev subscriber : Subscriber
subscriber = record {
  client = record client {
    waits =
        record { expired = false; receive = silent }
        ∷ record { expired = false; receive = arrives packet }
        ∷ [];
  };
  subscription = some (record { format = osc_native; renew_interval = 10; next_renew = 10 });
  reply_port = none;
  last = 0;
  clock = 5 ∷ 12 ∷ [];
}

abbrev native_packet : Bytes
native_packet = 0x2f ∷ 0x2a ∷ 0x53 ∷ 0 ∷ []

poll_event-Renewing_example : Renewing 3 native_packet subscriber (end_of (poll_event subscriber))
unfolding encode libwing.Osc.contains libwing.Osc.any_nul libwing.Osc.encode_args
    libwing.Osc.push_args libwing.Osc.zeros
poll_event-Renewing_example =
    poll_event-Renewing native_packet subscriber (_, refl, (_, refl, refl))
