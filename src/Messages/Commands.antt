-- ===== src/Messages/Commands.antt =====
-- What the request decoder of src/native.rs makes of the client's set, query and toggle messages.
use libwing.Native.Request.Push.Bytewise.{Room, with_audio}
use libwing.Native.Request.Push
use libwing.Native.Channel.{escape, payload}
use libwing.Native.Channel.RoundTrip.{
  push-escaped, escaped-append, append_escaped-escaped, escaped, on_channel,
}
use libwing.Native.Value.{IsValue, Encodable, NativeValue, integer, float, raw_float, string}
use libwing.Native.Request.{
  definition, get, bulk_definition, bulk_data, toggle, set, NativeRequest, NativeRequestDecoder,
}
use libwing.Prelude.BigEndian.{u32_to_be, Bytes}
use libwing.Native.Request.Push.{reset_on_error, push_loop}
use libwing.Native.Request.Audio.Encoded.{
  audio_step-value_form, audio_step-select_form, value_form-exact, select_form-exact,
  encode_value-value_form, Accepts, select_form, value_form,
}
use libwing.Messages.{
  definition_message, is_root, data_message, toggle_message, format_id, set_value_message,
}
use libwing.Prelude.Ints.{as_u32, IsI32, ℤ}
use libwing.Prelude.{
  inr, inl, Bool-cases, none, if◌then◌else◌, lt→leb_false, false, append-nil, ◌==◌, ◌≢◌, sym, ℕ, ap,
  ◌∙◌, some, ◌∷◌, map, ◌++◌, arith, ◌+◌, refl, ◌≤◌, length, List, ◌≡◌, [],
}
use libwing.Native.Request.Audio.{command_token, request, again, audio_step, AudioStep}
use libwing.Outcome.{ok}
use libwing.Native.Request.Audio.Token.{op_len, token_len}
use libwing.Native.Request.Audio.Loop.{token_request}
use mathlib.Core.List.{map-append}
use libwing.Native.Request.Push.Tokens.{push_loop_whole}

-- A decoder on the audio channel, between tokens.
abbrev pub idle : NativeRequestDecoder → NativeRequestDecoder
idle d = record d { channels = on_channel 1; audio = [] }

pub push-escaped_audio :
    (bs : Bytes) (d : NativeRequestDecoder)
    → Push.push (escaped bs) (idle d) ≡ reset_on_error (push_loop (map (payload 1) bs) [] (idle d))
unfolding Push.push
push-escaped_audio bs d = rw (push-escaped 1 bs)

-- One token, and what follows it.
pub first_token :
    (t rest : Bytes) (requests : List NativeRequest) (d s : NativeRequestDecoder)
    (outcome : AudioStep)
    → length t ≡ token_len t
    → Room (length t) d
    → length requests + 1 ≤ d.limits.max_batch_requests
    → audio_step (with_audio t (idle d)) ≡ (ok outcome, s)
    → push_loop (map (payload 1) (t ++ rest)) requests (idle d)
      ≡ push_loop (map (payload 1) rest) (requests ++ token_request outcome) s
first_token t rest requests d s outcome e room fits step =
    rw (map-append)
      (push_loop_whole t (map (payload 1) rest) requests (idle d) e room fits ∙ rw step)

pub push_loop_nil :
    (requests : List NativeRequest) (d : NativeRequestDecoder)
    → push_loop [] requests d ≡ (ok requests, d)
unfolding push_loop
push_loop_nil requests d = refl

-- A message of two tokens, the first of which only moves the decoder.
two_tokens :
    (t u : Bytes) (d s s' : NativeRequestDecoder) (q : NativeRequest)
    → length t ≡ token_len t
    → length u ≡ token_len u
    → Room (length t) d
    → Room (length u) s
    → 1 ≤ d.limits.max_batch_requests
    → 1 ≤ s.limits.max_batch_requests
    → audio_step (with_audio t (idle d)) ≡ (ok again, idle s)
    → audio_step (with_audio u (idle s)) ≡ (ok (request q), s')
    → Push.push (escaped (t ++ u)) (idle d) ≡ (ok (q ∷ []), s')
two_tokens t u d s s' q et eu rt ru ft fu step_t step_u =
    push-escaped_audio (t ++ u) d
    ∙ ap reset_on_error (
        first_token t u [] d (idle s) again et rt ft step_t
        ∙ ap (λ (w : Bytes). push_loop (map (payload 1) w) [] (idle s)) (sym (append-nil u))
        ∙ first_token u [] [] s s' (request q) eu ru fu step_u
        ∙ push_loop_nil (q ∷ []) s')

pub value_form_short : (v : NativeValue) → Encodable v → length (value_form v) ≤ 258
unfolding value_form
value_form_short (integer v) h = ground arith
value_form_short (float bits) h = omega arith
value_form_short (raw_float bits) h = omega arith
value_form_short (string []) h = omega arith
value_form_short (string (c ∷ cs)) h = ground arith

set_value_message-eq :
    (id : ℤ) (v : NativeValue)
    → Encodable v
    → set_value_message id v ≡ ok (escaped (select_form id ++ value_form v))
unfolding set_value_message format_id escaped
set_value_message-eq id v h = rw (
  encode_value-value_form [] v h,
  append_escaped-escaped,
  append_escaped-escaped,
  escaped-append (select_form id) (value_form v),
)

-- What `set_value_message` writes for a value that has a token, a decoder on the audio channel and
-- between tokens reads as exactly one request, to set that node to that value; the node stays
-- selected and nothing else of the decoder changes. Its limits admit the string and the token.
pub push-set_value_message :
    (id : ℤ) (v : NativeValue) (d : NativeRequestDecoder)
    → IsI32 id
    → IsValue v
    → Encodable v
    → Accepts d.limits v
    → Room 258 d
    → 1 ≤ d.limits.max_batch_requests
    → (message : Bytes) × (set_value_message id v ≡ ok message)
      × (Push.push message (idle d)
          ≡ (ok (set id v ∷ []), record (idle d) { selected_id = some id }))
push-set_value_message id v d hid hv he ha room fits = (
  escaped (select_form id ++ value_form v),
  set_value_message-eq id v he,
  two_tokens (select_form id) (value_form v) d (record d { selected_id = some id })
      (record (idle d) { selected_id = some id }) (set id v) (select_form-exact id)
      (value_form-exact v he) (omega arith) (omega (arith, value_form_short v he)) fits fits
      (audio_step-select_form id (idle d) hid)
      (audio_step-value_form id v (record (idle d) { selected_id = some id }) refl hv he ha),
)

command_step :
    (op : ℕ) (q : NativeRequest) (d : NativeRequestDecoder)
    → command_token op [] (with_audio (op ∷ []) d) ≡ (ok (request q), with_audio [] d)
    → 0xd8 ≤ op
    → audio_step (with_audio (op ∷ []) d) ≡ (ok (request q), with_audio [] d)
unfolding audio_step
command_step op q d e h =
    rw (not_select, lt→leb_false op 0xcf (omega arith), lt→leb_false op 0xd6 (omega arith)) e
  where
    not_select : (op == 0xd7) ≡ false
    not_select = ground arith

one_byte_exact : (op : ℕ) → op ≢ 0xd9 → 0xd8 ≤ op → length (op ∷ []) ≡ token_len (op ∷ [])
unfolding op_len
one_byte_exact op h lo = ground arith

-- A selection and a command of one byte.
selected_command :
    (id : ℤ) (op : ℕ) (q : NativeRequest) (d : NativeRequestDecoder)
    → IsI32 id
    → 0xd8 ≤ op
    → op ≢ 0xd9
    → Room 5 d
    → 1 ≤ d.limits.max_batch_requests
    → command_token op [] (with_audio (op ∷ []) (record (idle d) { selected_id = some id }))
      ≡ (ok (request q), record (idle d) { selected_id = some id })
    → Push.push (escaped (select_form id ++ op ∷ [])) (idle d)
      ≡ (ok (q ∷ []), record (idle d) { selected_id = some id })
selected_command id op q d hid lo ne room fits e =
    two_tokens (select_form id) (op ∷ []) d (record d { selected_id = some id })
      (record (idle d) { selected_id = some id }) q (select_form-exact id) (one_byte_exact op ne lo)
      room (omega arith) fits fits (audio_step-select_form id (idle d) hid)
      (command_step op q (record (idle d) { selected_id = some id }) e lo)

command_message-eq :
    (id : ℤ) (op : ℕ)
    → (op == escape) ≡ false
    → format_id id [] 0xd7 (some op) ≡ escaped (select_form id ++ op ∷ [])
unfolding format_id escaped
command_message-eq id op h =
    rw (append_escaped-escaped, escaped-append (u32_to_be (as_u32 id)) (op ∷ []), h)

-- A decoder on the audio channel and between tokens reads the `toggle` message of a node as exactly
-- the request to toggle it, with the node selected and nothing else changed.
pub push-toggle_message :
    (id : ℤ) (d : NativeRequestDecoder)
    → IsI32 id
    → Room 5 d
    → 1 ≤ d.limits.max_batch_requests
    → Push.push (toggle_message id) (idle d)
      ≡ (ok (toggle id ∷ []), record (idle d) { selected_id = some id })
unfolding toggle_message
push-toggle_message id d hid room fits = rw (command_message-eq id 0xd8 refl) (
    selected_command id 0xd8 (toggle id) d hid (omega arith) (omega arith) room fits
      (unfold command_token in refl))

-- What a query of a node is to the decoder: at the root, a bulk request from the root of the tree.
abbrev pub data_request : ℤ → NativeRequest
data_request id = if is_root id then bulk_data [] else get id

abbrev pub definition_request : ℤ → NativeRequest
definition_request id = if is_root id then bulk_definition [] else definition id

-- The decoder after a query of a node.
abbrev pub queried : ℤ → NativeRequestDecoder → NativeRequestDecoder
queried id d =
    if is_root id
    then record (idle d) { selected_id = none; path = []; path_bytes = 0 }
    else record (idle d) { selected_id = some id }

root_exact : length {A = ℕ} (0xda ∷ []) ≡ token_len (0xda ∷ [])
unfolding op_len
root_exact = refl

root_command :
    (op : ℕ) (q : NativeRequest) (d : NativeRequestDecoder)
    → 0xd8 ≤ op
    → op ≢ 0xd9
    → (op == escape) ≡ false
    → Room 5 d
    → 1 ≤ d.limits.max_batch_requests
    → command_token op []
        (with_audio (op ∷ []) (record (idle d) { selected_id = none; path = []; path_bytes = 0 }))
      ≡ (ok (request q), record (idle d) { selected_id = none; path = []; path_bytes = 0 })
    → Push.push (0xda ∷ op ∷ []) (idle d)
      ≡ (ok (q ∷ []), record (idle d) { selected_id = none; path = []; path_bytes = 0 })
root_command op q d lo ne not_escape room fits e =
    ap (λ (w : Bytes). Push.push w (idle d)) (unescaped not_escape)
    ∙ two_tokens (0xda ∷ []) (op ∷ []) d
        (record d { selected_id = none; path = []; path_bytes = 0 })
        (record (idle d) { selected_id = none; path = []; path_bytes = 0 }) q root_exact
        (one_byte_exact op ne lo) (omega arith) (omega arith) fits fits (unfold audio_step in refl)
        (command_step op q (record (idle d) { selected_id = none; path = []; path_bytes = 0 }) e lo)
  where
    unescaped : (op == escape) ≡ false → 0xda ∷ op ∷ [] ≡ escaped (0xda ∷ op ∷ [])
    unescaped h = unfold escaped in rw h

-- A decoder on the audio channel and between tokens reads the client's data message as exactly one
-- request: for a node other than 0 to get it, for node 0 for all data from the root; and the
-- definition message as the request for the definition in place of the data. The node is selected,
-- or the path and the selection are cleared for node 0; nothing else changes.
pub push_query :
    (id : ℤ) (d : NativeRequestDecoder)
    → IsI32 id
    → Room 5 d
    → 1 ≤ d.limits.max_batch_requests
    → (Push.push (data_message id) (idle d) ≡ (ok (data_request id ∷ []), queried id d))
      × (Push.push (definition_message id) (idle d)
          ≡ (ok (definition_request id ∷ []), queried id d))
unfolding data_message definition_message
push_query id d hid room fits = elim (Bool-cases (is_root id)) [
  | inl e ↦ rw e (
    root_command 0xdc (bulk_data []) d (omega arith) (omega arith) refl room fits
        (unfold command_token in refl),
    root_command 0xdd (bulk_definition []) d (omega arith) (omega arith) refl room fits
        (unfold command_token in refl),
  )
  | inr e ↦
      rw (e, command_message-eq id 0xdc refl, command_message-eq id 0xdd refl)
        (
          selected_command id 0xdc (get id) d hid (omega arith) (omega arith) room fits
              (unfold command_token in refl),
          selected_command id 0xdd (definition id) d hid (omega arith) (omega arith) room fits
              (unfold command_token in refl),
        )
]
