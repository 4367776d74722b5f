-- ===== src/Native/Channel.antt =====
-- `ChannelDecoder`, `encode_channel` and `append_escaped` of src/native.rs: the channel selector and
-- escape layer of the byte stream.
pub mod Stream
pub mod RoundTrip
pub mod Grammar
pub mod Sound
use libwing.Prelude.{
  ℕ, ◌+◌, ◌-◌, Bool, true, false, Option, none, some, List, [], ◌∷◌, ◌++◌, ◌&&◌, ◌||◌, ltb, leb,
  ◌==◌, if◌then◌else◌,
}
use libwing.Prelude.BigEndian.{Bytes}
use libwing.Outcome.{Result, ok, err, invalid_data, invalid_input, ok_or, Exec, continue, and_then}

abbrev pub escape : ℕ
escape = 0xdf

abbrev pub escaped_escape : ℕ
escaped_escape = 0xde

abbrev pub channel_base : ℕ
channel_base = 0xd0

abbrev pub channel_count : ℕ
channel_count = 14

pub data ChannelEvent : Type 0 where
  selected : ℕ → ChannelEvent
  payload : ℕ → ℕ → ChannelEvent

pub record ChannelDecoder : Type 0 where
  pub escaped : Bool
  pub channel : Option ℕ

abbrev pub default : ChannelDecoder
default = record { escaped = false; channel = none }

unfoldable pub with_channel : ℕ → Result ChannelDecoder
with_channel c =
    if leb channel_count c
    then err invalid_input
    else ok (record { escaped = false; channel = some c })

-- The array `[Option<ChannelEvent>; 2]`, and `into_iter().flatten()` of it.
abbrev pub Emitted : Type 0
Emitted = Option ChannelEvent × Option ChannelEvent

abbrev pub flatten : Emitted → List ChannelEvent
flatten (none, none) = []
flatten (none, some b) = b ∷ []
flatten (some a, none) = a ∷ []
flatten (some a, some b) = a ∷ b ∷ []

-- The byte after an escape byte. `escaped` is already false in `d`.
unfoldable pub escaped_byte : ℕ → Exec ChannelDecoder Emitted
escaped_byte byte d =
    if byte == escaped_escape || byte == escape
    then and_then (ok_or invalid_data d.channel, d) (λ c s. (ok (some (payload c escape), none), s))
    else if leb channel_base byte && leb byte 0xdd
    then (
      ok (some (selected (byte - channel_base)), none),
      record d { channel = some (byte - channel_base) },
    )
    else and_then (ok_or invalid_data d.channel, d)
        (λ c s. (ok (some (payload c escape), some (payload c byte)), s))

unfoldable pub push_byte : ℕ → Exec ChannelDecoder Emitted
unfolding escaped_byte
push_byte byte d =
    if d.escaped
    then escaped_byte byte (record d { escaped = false })
    else if byte == escape
    then (ok (none, none), record d { escaped = true })
    else and_then (ok_or invalid_data d.channel, d) (λ c s. (ok (some (payload c byte), none), s))

-- The events so far are an argument, as `events.extend` has them.
unfoldable pub push_from : List ChannelEvent → Bytes → Exec ChannelDecoder (List ChannelEvent)
push_from events [] d = (ok events, d)
push_from events (byte ∷ input) d =
    and_then (push_byte byte d) (λ emitted s. push_from (events ++ flatten emitted) input s)

unfoldable pub push : Bytes → Exec ChannelDecoder (List ChannelEvent)
unfolding push_from
push input d = push_from [] input d

unfoldable pub finish : ChannelDecoder → Result (Unit {0})
finish d = if d.escaped then err invalid_data else ok tt

unfoldable pub reset : ChannelDecoder → ChannelDecoder
reset d = default

unfoldable pub append_escaped : Bytes → Bytes → Bytes
append_escaped out [] = out
append_escaped out (byte ∷ rest) =
    append_escaped
      (if byte == escape then (out ++ byte ∷ []) ++ escaped_escape ∷ [] else out ++ byte ∷ []) rest

unfoldable pub encode_channel : ℕ → Bytes → Result Bytes
unfolding append_escaped
encode_channel channel data_bytes =
    if leb channel_count channel
    then err invalid_input
    else ok (append_escaped (escape ∷ (channel_base + channel) ∷ []) data_bytes)
