-- ===== src/Reader/Size.antt =====
-- The fuel of `read_inner` of src/console.rs, and the size of an encoded response.
use libwing.Prelude.{
  inr, inl, leb, Bool-cases, ℕ, ◌+◌, ◌*◌, ◌≤◌, ◌≡◌, refl, sym, ◌∙◌, List, [], ◌∷◌, ◌++◌, length,
  length-append, arith, Option, none, some,
}
use libwing.Prelude.BigEndian.{Bytes}
use libwing.Outcome.{ok, err, Result, ok-injective, bind-eq-ok}
use libwing.Native.Response.{encode_definition, definition_token, NativeResponse, encode_response}
use libwing.Reader.{broken, received, quiet, ReadOutcome, Main, Poll}
use libwing.Reader.Backlog.{outcome_bytes, arrived, audio, heard, queued, optional}
use libwing.Native.Channel.{push_byte, ChannelDecoder, Emitted, ChannelEvent}
use libwing.Reader.Response.{budget, arriving, max_node_def_bytes, arriving_all}
use libwing.Reader.Next.{held}
use libwing.Prelude.Ints.{ℤ}
use mathlib.Core.Path.{subst⁻¹, subst}
use libwing.Native.Value.{Encodable, encode_value, NativeValue}
use libwing.Node.Encode.{to_wire_bytes}
use libwing.Reader.Decode.{audio_byte, first_byte}
use libwing.Native.Request.Audio.Encoded.{value_form, encode_value-value_form, select_form}
use libwing.Reader.Delivery.{encode_value-Encodable, encode_definition-ok}
use libwing.Messages.Commands.{value_form_short}

optional_le : (o : Option ℕ) → length (optional o) ≤ 1
optional_le none = omega arith
optional_le (some b) = omega arith

queued_le : (events : List ChannelEvent) → length (queued events) ≤ length events
queued_le [] = omega arith
queued_le (e ∷ events) = omega (
  arith,
  optional_le (audio_byte e),
  queued_le events,
  length-append (optional (audio_byte e)) (queued events),
)

heard_le :
    (r : Result Emitted × ChannelDecoder) (later : ChannelDecoder → Bytes) (n : ℕ)
    → ((d : ChannelDecoder) → length (later d) ≤ n)
    → length (heard r later) ≤ n + 2
heard_le (err e, d) later n h = omega (arith, h d)
heard_le (ok (first, second), d) later n h = omega (
  arith,
  h d,
  optional_le (first_byte first),
  optional_le (first_byte second),
  length-append (optional (first_byte first)) (optional (first_byte second) ++ later d),
  length-append (optional (first_byte second)) (later d),
)

audio_le : (bytes : Bytes) (d : ChannelDecoder) → length (audio bytes d) ≤ 2 * length bytes
audio_le [] d = omega arith
audio_le (b ∷ bytes) d =
    omega (arith, heard_le (push_byte b d) (audio bytes) (2 * length bytes) (audio_le bytes))

arriving-outcome : (o : ReadOutcome) → arriving o ≡ 2 * length (outcome_bytes o)
arriving-outcome (quiet passed) = refl
arriving-outcome (received bytes) = refl
arriving-outcome broken = refl

arriving_all-arrived : (ps : List Poll) → arriving_all ps ≡ 2 * length (arrived ps)
arriving_all-arrived [] = refl
arriving_all-arrived (p ∷ ps) = omega (
  arith,
  arriving-outcome p.outcome,
  arriving_all-arrived ps,
  length-append (outcome_bytes p.outcome) (arrived ps),
)

-- The budget of `read_inner` is no less than the number of bytes that are still to be read.
pub held-budget : (m : Main) → length (held m) ≤ budget m
held-budget m = omega (
  arith,
  queued_le m.rx_events,
  audio_le (m.rx_buf ++ arrived m.polls) m.rx_channels,
  arriving_all-arrived m.polls,
  length-append m.rx_buf (arrived m.polls),
  length-append m.replay (queued m.rx_events ++ audio (m.rx_buf ++ arrived m.polls) m.rx_channels),
  length-append (queued m.rx_events) (audio (m.rx_buf ++ arrived m.polls) m.rx_channels),
)

-- Between one byte and 1 MiB with a few more.
abbrev pub Sized : Bytes → Type 0
Sized bs = (1 ≤ length bs) × (length bs ≤ max_node_def_bytes + 263)

definition_token-Sized :
    (raw : Bytes) → length raw ≤ max_node_def_bytes → Sized (definition_token raw)
definition_token-Sized raw h = elim (Bool-cases (leb (length raw) 0xffff)) [
  | inl e ↦ rw e (omega arith, omega arith)
  | inr e ↦ rw e (omega arith, omega arith)
]

data-Sized :
    (id : ℤ) (v : NativeValue) (bs : Bytes) → encode_value (select_form id) v ≡ ok bs → Sized bs
data-Sized id v bs e =
    subst⁻¹ Sized (ok-injective (sym e ∙ encode_value-value_form (select_form id) v encodable)) (
      omega arith,
      omega (arith, value_form_short v encodable, length-append (select_form id) (value_form v)),
    )
  where
    encodable : Encodable v
    encodable = encode_value-Encodable (select_form id) v bs e

pub encode_response-Sized : (r : NativeResponse) (bs : Bytes) → encode_response r ≡ ok bs → Sized bs
unfolding encode_response
encode_response-Sized NativeResponse.request_end bs e =
    subst Sized (ok-injective e) (omega arith, omega arith)
encode_response-Sized (NativeResponse.node_data id v) bs e = data-Sized id v bs e
encode_response-Sized (NativeResponse.authoritative_event id v) bs e = data-Sized id v bs e
encode_response-Sized (NativeResponse.node_def d) bs e =
    let (raw, e₁, e₂) = bind-eq-ok (to_wire_bytes d) encode_definition e in
    let (hl, same) = encode_definition-ok raw bs e₂ in
    subst⁻¹ Sized same (definition_token-Sized raw hl)
