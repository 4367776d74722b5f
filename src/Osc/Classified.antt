-- ===== src/Osc/Classified.antt =====
-- What `classify_event` of src/osc.rs makes of a message.
use mathlib.Core.Option.{some-ne-none}
use libwing.Prelude.{
  ◌≡◌, ◌≢◌, ◌⊎◌, inl, inr, refl, sym, ap, ◌∙◌, Bool, true, false, none, some, List, [], ◌∷◌,
  if◌then◌else◌,
}
use libwing.Prelude.BigEndian.{Bytes}
use libwing.Osc.{OscArg, int, float, str, blob, OscMessage}
use libwing.Osc.Requests.{bytes_eq}
use libwing.Osc.Replies.{
  ParamFacets, string_or_enum, float_facets, int_facets, native_float, native_int, facets_of,
  reply_at, parse_param_reply, OscEvent, param, binary, raw, ends_with, root_event, reply_event,
  classify_event,
}
use libwing.Osc.Events.{IsAck, bytes_eq→eq, bytes_eq-false, ends_with-true, ends_with-false}

-- The message that an event stands for.
abbrev pub args_of : ParamFacets → List OscArg
args_of (string_or_enum display) = str display ∷ []
args_of (float_facets display r value) = str display ∷ float r ∷ float value ∷ []
args_of (int_facets display r value) = str display ∷ float r ∷ int value ∷ []
args_of (native_float value) = float value ∷ []
args_of (native_int value) = int value ∷ []

abbrev pub to_message : OscEvent → OscMessage
to_message (param reply) = record { addr = reply.path; args = args_of reply.facets }
to_message (binary content) = record { addr = 0x2f ∷ []; args = blob content ∷ [] }
to_message (raw msg) = msg

facets_of-args_of : (f : ParamFacets) → facets_of (args_of f) ≡ some f
facets_of-args_of (string_or_enum display) = refl
facets_of-args_of (float_facets display r value) = refl
facets_of-args_of (int_facets display r value) = refl
facets_of-args_of (native_float value) = refl
facets_of-args_of (native_int value) = refl

-- What the protocol says of a message at an address: `/` carries a blob or nothing it knows, an
-- address that ends with `*` acknowledges a write, and any other carries a parameter in one of five
-- forms or nothing it knows.
abbrev pub Classifies : OscMessage → OscEvent → Type 0
Classifies msg (param reply) =
    (msg.addr ≢ 0x2f ∷ []) × (¬ IsAck msg.addr) × (msg ≡ to_message (param reply))
Classifies msg (binary content) = msg ≡ to_message (binary content)
Classifies msg (raw same) =
    (same ≡ msg)
    × (((msg.addr ≡ 0x2f ∷ []) × ((content : Bytes) → msg.args ≢ blob content ∷ []))
        ⊎ ((msg.addr ≢ 0x2f ∷ [])
            × (IsAck msg.addr ⊎ ((facets : ParamFacets) → msg.args ≢ args_of facets))))

-- The branches.
unknown_args : (args : List OscArg) → facets_of args ≡ none → (f : ParamFacets) → args ≢ args_of f
unknown_args args h f e = some-ne-none f (sym (facets_of-args_of f) ∙ ap facets_of (sym e) ∙ h)

reply-Classifies :
    (addr : Bytes) (args : List OscArg)
    → addr ≢ 0x2f ∷ []
    → ¬ IsAck addr
    → Classifies
        (record { addr = addr; args = args })
        (reply_event (record { addr = addr; args = args }) (reply_at addr (facets_of args)))
reply-Classifies addr (str d ∷ []) h k = (h, k, refl)
reply-Classifies addr (str d ∷ float r ∷ float v ∷ []) h k = (h, k, refl)
reply-Classifies addr (str d ∷ float r ∷ int v ∷ []) h k = (h, k, refl)
reply-Classifies addr (float v ∷ []) h k = (h, k, refl)
reply-Classifies addr (int v ∷ []) h k = (h, k, refl)
reply-Classifies addr args h k = (refl, inr (h, inr (unknown_args args refl)))

root-Classifies :
    (addr : Bytes) (args : List OscArg)
    → addr ≡ 0x2f ∷ []
    → Classifies
        (record { addr = addr; args = args })
        (root_event (record { addr = addr; args = args }) args)
root-Classifies addr (blob content ∷ []) h =
    ap (λ (t : Bytes). record { addr = t; args = blob content ∷ [] }) h
root-Classifies addr args h = (refl, inl (h, λ content e. absurd cc))

if-Classifies :
    (msg : OscMessage) (b : Bool) (x y : OscEvent)
    → (b ≡ true → Classifies msg x)
    → (b ≡ false → Classifies msg y)
    → Classifies msg (if b then x else y)
if-Classifies msg true x y h k = h refl
if-Classifies msg false x y h k = k refl

-- `classify_event` finds the binary events and the parameters among the messages, all of them and
-- nothing else, with their contents, and hands any other message on as it is: an acknowledgement is
-- no parameter, whatever its arguments are.
pub classify_event-Classifies : (msg : OscMessage) → Classifies msg (classify_event msg)
unfolding classify_event parse_param_reply
classify_event-Classifies msg =
    if-Classifies msg (bytes_eq msg.addr (0x2f ∷ [])) _ _
      (λ h. root-Classifies msg.addr msg.args (bytes_eq→eq msg.addr (0x2f ∷ []) h))
      (λ h.
        if-Classifies msg (ends_with msg.addr 0x2a) _ _
          (λ k.
            (refl, inr (bytes_eq-false msg.addr (0x2f ∷ []) h, inl (ends_with-true msg.addr k))))
          (λ k.
            reply-Classifies msg.addr msg.args (bytes_eq-false msg.addr (0x2f ∷ []) h)
              (ends_with-false msg.addr k)))
