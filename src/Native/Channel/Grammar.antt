-- ===== src/Native/Channel/Grammar.antt =====
-- The grammar of the escaped byte stream of src/native.rs, and the channel decoder against it.
use libwing.Prelude.{
  ℕ, ◌+◌, ◌<◌, ◌≤◌, ◌⊎◌, ◌≡◌, ◌≢◌, refl, ap, ◌∙◌, true, false, Option, none, some, List, [], ◌∷◌,
  arith, inl, inr,
}
use libwing.Prelude.BigEndian.{Bytes}
use libwing.Outcome.{Result, ok, err, invalid_data, and_then}
use libwing.Native.Channel.{
  ChannelEvent, ChannelDecoder, Emitted, selected, payload, channel_count, channel_base,
  escaped_byte, escape, escaped_escape, flatten, push_byte, push,
}
use libwing.Native.Channel.Stream.{prepend, push_nil, push_cons}

-- A byte that an escape byte stands in front of without a meaning of its own.
abbrev pub IsVerbatim : ℕ → Type 0
IsVerbatim b =
    (b ≢ escape) × (b ≢ escaped_escape) × ((b < channel_base) ⊎ (channel_base + channel_count ≤ b))

-- The bytes of a stream with the events that they stand for, and the decoder at its end, from a
-- channel or none: two bytes select a channel, `df de` or `df df` is the payload byte `df`, `df` and
-- any other byte are those two bytes, any other byte is itself, and the stream may end after a `df`.
pub data Reads : Option ℕ → Bytes → List ChannelEvent → ChannelDecoder → Type 0 where
  ends : (old : Option ℕ) → Reads old [] [] (record { escaped = false; channel = old })
  cut : (old : Option ℕ) → Reads old (escape ∷ []) [] (record { escaped = true; channel = old })
  plain :
      {c b : ℕ} {rest : Bytes} {events : List ChannelEvent} {d : ChannelDecoder}
      → b ≢ escape
      → Reads (some c) rest events d
      → Reads (some c) (b ∷ rest) (payload c b ∷ events) d
  selects :
      {old : Option ℕ} {c : ℕ} {rest : Bytes} {events : List ChannelEvent} {d : ChannelDecoder}
      → c < channel_count
      → Reads (some c) rest events d
      → Reads old (escape ∷ (channel_base + c) ∷ rest) (selected c ∷ events) d
  escapes :
      {c : ℕ} {rest : Bytes} {events : List ChannelEvent} {d : ChannelDecoder}
      → Reads (some c) rest events d
      → Reads (some c) (escape ∷ escaped_escape ∷ rest) (payload c escape ∷ events) d
  doubles :
      {c : ℕ} {rest : Bytes} {events : List ChannelEvent} {d : ChannelDecoder}
      → Reads (some c) rest events d
      → Reads (some c) (escape ∷ escape ∷ rest) (payload c escape ∷ events) d
  verbatim :
      {c b : ℕ} {rest : Bytes} {events : List ChannelEvent} {d : ChannelDecoder}
      → IsVerbatim b
      → Reads (some c) rest events d
      → Reads (some c) (escape ∷ b ∷ rest) (payload c escape ∷ payload c b ∷ events) d

-- The decoder between two units.
abbrev pub between : Option ℕ → ChannelDecoder
between old = record { escaped = false; channel = old }

pub push_byte-plain :
    (c b : ℕ)
    → b ≢ escape
    → push_byte b (between (some c)) ≡ (ok (some (payload c b), none), between (some c))
unfolding push_byte
push_byte-plain c b h = ground arith

pub push_byte-plain_none :
    (b : ℕ) → b ≢ escape → push_byte b (between none) ≡ (err invalid_data, between none)
unfolding push_byte
push_byte-plain_none b h = ground arith

push_byte-escape :
    (old : Option ℕ)
    → push_byte escape (between old) ≡ (ok (none, none), record { escaped = true; channel = old })
unfolding push_byte
push_byte-escape old = refl

-- The byte after an escape byte.
pub push_byte-selects :
    (old : Option ℕ) (c : ℕ)
    → c < channel_count
    → push_byte (channel_base + c) (record { escaped = true; channel = old })
      ≡ (ok (some (selected c), none), between (some c))
unfolding push_byte
push_byte-selects old c h = ground arith

pub push_byte-verbatim :
    (c b : ℕ)
    → IsVerbatim b
    → push_byte b (record { escaped = true; channel = some c })
      ≡ (ok (some (payload c escape), some (payload c b)), between (some c))
unfolding push_byte escaped_byte
push_byte-verbatim c b (h, k, inl low) = ground arith
push_byte-verbatim c b (h, k, inr high) = ground arith

pub push_byte-verbatim_none :
    (b : ℕ)
    → IsVerbatim b
    → push_byte b (record { escaped = true; channel = none }) ≡ (err invalid_data, between none)
unfolding push_byte escaped_byte
push_byte-verbatim_none b (h, k, inl low) = ground arith
push_byte-verbatim_none b (h, k, inr high) = ground arith

-- A unit of one byte, and one of two, in front of the rest.
pub push_one :
    (old : Option ℕ) (b : ℕ) (rest : Bytes) (em : Emitted) (s : ChannelDecoder)
    → push_byte b (between old) ≡ (ok em, s)
    → push (b ∷ rest) (between old) ≡ prepend (flatten em) (push rest s)
push_one old b rest em s h =
    push_cons b rest _ ∙ ap (λ r. and_then r (λ em s. prepend (flatten em) (push rest s))) h

prepend_nil : (r : Result (List ChannelEvent) × ChannelDecoder) → prepend [] r ≡ r
prepend_nil (ok events, d) = refl
prepend_nil (err e, d) = refl

pub push_two :
    (old : Option ℕ) (b : ℕ) (rest : Bytes)
    → push (escape ∷ b ∷ rest) (between old)
      ≡ and_then
          (push_byte b (record { escaped = true; channel = old }))
          (λ em s. prepend (flatten em) (push rest s))
push_two old b rest =
    push_one old escape (b ∷ rest) (none, none) _ (push_byte-escape old)
    ∙ prepend_nil (push (b ∷ rest) (record { escaped = true; channel = old }))
    ∙ push_cons b rest (record { escaped = true; channel = old })

pub push_pair :
    (old : Option ℕ) (b : ℕ) (rest : Bytes) (em : Emitted) (s : ChannelDecoder)
    → push_byte b (record { escaped = true; channel = old }) ≡ (ok em, s)
    → push (escape ∷ b ∷ rest) (between old) ≡ prepend (flatten em) (push rest s)
push_pair old b rest em s h =
    push_two old b rest ∙ ap (λ r. and_then r (λ em s. prepend (flatten em) (push rest s))) h

-- Every stream of the grammar is decoded as the grammar says.
pub Reads-push :
    {old : Option ℕ} {input : Bytes} {events : List ChannelEvent} {d : ChannelDecoder}
    → Reads old input events d
    → push input (between old) ≡ (ok events, d)
unfolding push_byte
Reads-push (ends old) = push_nil _
Reads-push (cut old) =
    push_one old escape [] (none, none) _ (push_byte-escape old) ∙ ap (prepend []) (push_nil _)
Reads-push (plain {c = c} {b = b} {rest = rest} h k) =
    push_one (some c) b rest _ _ (push_byte-plain c b h)
    ∙ ap (prepend (payload c b ∷ [])) (Reads-push k)
Reads-push (selects {old = old} {c = c} {rest = rest} h k) =
    push_pair old (channel_base + c) rest _ _ (push_byte-selects old c h)
    ∙ ap (prepend (selected c ∷ [])) (Reads-push k)
Reads-push (escapes {c = c} {rest = rest} k) =
    push_pair (some c) escaped_escape rest _ _ refl
    ∙ ap (prepend (payload c escape ∷ [])) (Reads-push k)
Reads-push (doubles {c = c} {rest = rest} k) =
    push_pair (some c) escape rest _ _ refl ∙ ap (prepend (payload c escape ∷ [])) (Reads-push k)
Reads-push (verbatim {c = c} {b = b} {rest = rest} h k) =
    push_pair (some c) b rest _ _ (push_byte-verbatim c b h)
    ∙ ap (prepend (payload c escape ∷ payload c b ∷ [])) (Reads-push k)
