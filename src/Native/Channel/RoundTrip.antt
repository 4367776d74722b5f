-- ===== src/Native/Channel/RoundTrip.antt =====
-- What the channel decoder makes of bytes that `append_escaped` and `encode_channel` wrote.
use libwing.Prelude.{
  ℕ, ◌+◌, ◌<◌, ◌≡◌, refl, sym, false, Option, some, [], ◌∷◌, ◌++◌, map, append_assoc, append-nil,
  arith, ◌==◌, if◌then◌else◌, Bool-cases, eqb→eq, lt→leb_false, inl, inr,
}
use libwing.Prelude.BigEndian.{Bytes}
use libwing.Outcome.{ok}
use libwing.Native.Channel.{
  ChannelDecoder, selected, payload, escape, escaped_escape, channel_count, push_byte, push,
  append_escaped, encode_channel,
}
use libwing.Native.Channel.Stream.{push_nil, push-append}

-- One byte as it goes on the wire, and a payload as it does.
abbrev pub escaped_form : ℕ → Bytes
escaped_form b = if b == escape then b ∷ escaped_escape ∷ [] else b ∷ []

unfoldable pub escaped : Bytes → Bytes
escaped [] = []
escaped (b ∷ bs) = escaped_form b ++ escaped bs

pub append_escaped-escaped : (out bs : Bytes) → append_escaped out bs ≡ out ++ escaped bs
unfolding append_escaped escaped
append_escaped-escaped out [] = sym (append-nil out)
append_escaped-escaped out (b ∷ bs) = elim (Bool-cases (b == escape)) [
  | inl e ↦ rw (
    e,
    append_escaped-escaped ((out ++ b ∷ []) ++ escaped_escape ∷ []) bs,
    append_assoc,
    append_assoc,
  )
  | inr e ↦ rw (e, append_escaped-escaped (out ++ b ∷ []) bs, append_assoc)
]

pub escaped-append : (xs ys : Bytes) → escaped (xs ++ ys) ≡ escaped xs ++ escaped ys
unfolding escaped
escaped-append [] ys = refl
escaped-append (x ∷ xs) ys =
    rw (escaped-append xs ys) (sym (append_assoc (escaped_form x) (escaped xs) (escaped ys)))

abbrev pub on_channel : ℕ → ChannelDecoder
on_channel c = record { escaped = false; channel = some c }

push-escaped_form :
    (c b : ℕ) → push (escaped_form b) (on_channel c) ≡ (ok (payload c b ∷ []), on_channel c)
unfolding push push_byte
push-escaped_form c b = elim (Bool-cases (b == escape)) [
  | inl e ↦ rw (eqb→eq b escape e)
  | inr e ↦ rw (e, e)
]

-- A decoder on a channel reads an escaped payload back, byte for byte, and stays where it was.
pub push-escaped :
    (c : ℕ) (bs : Bytes)
    → push (escaped bs) (on_channel c) ≡ (ok (map (payload c) bs), on_channel c)
unfolding escaped
push-escaped c [] = push_nil (on_channel c)
push-escaped c (b ∷ bs) = rw (
  push-append (escaped_form b) (escaped bs) (on_channel c),
  push-escaped_form c b,
  push-escaped c bs,
)

push_selector :
    (c : ℕ) (old : Option ℕ)
    → c < channel_count
    → push (escape ∷ (0xd0 + c) ∷ []) (record { escaped = false; channel = old })
      ≡ (ok (selected c ∷ []), on_channel c)
unfolding push push_byte
push_selector c old h = ground arith

unfoldable pub frame : ℕ → Bytes → Bytes
frame c bs = escape ∷ (0xd0 + c) ∷ escaped bs

encode_channel-frame :
    (c : ℕ) (bs : Bytes) → c < channel_count → encode_channel c bs ≡ ok (frame c bs)
unfolding encode_channel frame
encode_channel-frame c bs h =
    rw (lt→leb_false channel_count c h, append_escaped-escaped (escape ∷ (0xd0 + c) ∷ []) bs)

pub push-frame :
    (c : ℕ) (bs : Bytes) (old : Option ℕ)
    → c < channel_count
    → push (frame c bs) (record { escaped = false; channel = old })
      ≡ (ok (selected c ∷ map (payload c) bs), on_channel c)
unfolding frame
push-frame c bs old h = rw (
  push-append (escape ∷ (0xd0 + c) ∷ []) (escaped bs) (record { escaped = false; channel = old }),
  push_selector c old h,
  push-escaped c bs,
)

-- On a channel below 14 `encode_channel` succeeds, and a decoder that is not inside an escape
-- sequence reads its bytes as the selection of that channel and then the payload, byte for byte.
pub push-encode_channel :
    (c : ℕ) (bs : Bytes) (old : Option ℕ)
    → c < channel_count
    → (wire : Bytes) × (encode_channel c bs ≡ ok wire)
      × (push wire (record { escaped = false; channel = old })
          ≡ (ok (selected c ∷ map (payload c) bs), on_channel c))
push-encode_channel c bs old h = (frame c bs, encode_channel-frame c bs h, push-frame c bs old h)
