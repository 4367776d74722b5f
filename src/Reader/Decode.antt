-- ===== src/Reader/Decode.antt =====
-- `decode_next` of src/console.rs, and the readers of numbers and strings over it.
use libwing.Prelude.{
  false, ℕ, zero, suc, ◌*◌, Bool, Option, none, some, List, [], ◌∷◌, ◌++◌, ◌&&◌, ◌||◌, ltb, ◌==◌,
  length, if◌then◌else◌,
}
use libwing.Prelude.Ints.{ℤ, as_i8, as_i16, as_i32}
use libwing.Prelude.BigEndian.{Bytes, from_be}
use libwing.Prelude.Utf8.{from_utf8}
use libwing.Outcome.{
  Result, ok, err, invalid_data, connection_error, timeout, reconnecting, io, ok_or,
}
use libwing.Native.Channel.{ChannelDecoder, ChannelEvent, selected, payload, Emitted, push_byte}
use libwing.Reader.{
  Main, Poll, ReadOutcome, quiet, received, broken, Run, blocked, done, Reader, pure, ◌>>=◌,
}

abbrev pub audio_engine_channel : ℕ
audio_engine_channel = 1

abbrev pub max_native_response_bytes : ℕ
max_native_response_bytes = 16 * 1024 * 1024

abbrev pub has_capacity : ℕ → Bool
has_capacity len = ltb len max_native_response_bytes

-- The byte of an Audio Engine event.
abbrev pub audio_byte : ChannelEvent → Option ℕ
audio_byte (selected c) = none
audio_byte (payload c value) = if c == audio_engine_channel then some value else none

abbrev pub first_byte : Option ChannelEvent → Option ℕ
first_byte none = none
first_byte (some event) = audio_byte event

abbrev pub queue_second : List ChannelEvent → Option ChannelEvent → List ChannelEvent
queue_second events none = events
queue_second events (some event) = events ++ event ∷ []

-- `ensure_native_response_capacity(r.read_capture.len())?`, and the byte is kept for a replay.
unfoldable pub emit : ℕ → Reader ℕ
emit value m =
    if has_capacity (length m.read_capture)
    then done (ok value) (record m { read_capture = m.read_capture ++ value ∷ [] })
    else done (err invalid_data) m

-- `while let Some(event) = r.rx_events.pop_front()`, up to an Audio Engine byte.
abbrev pub popped :
    Option ℕ → List ChannelEvent → Option (ℕ × List ChannelEvent) → Option (ℕ × List ChannelEvent)
popped (some value) events later = some (value, events)
popped none events later = later

unfoldable pub pop_event : List ChannelEvent → Option (ℕ × List ChannelEvent)
pop_event [] = none
pop_event (event ∷ events) = popped (audio_byte event) events (pop_event events)

-- `next` is what follows where the queue holds no such byte.
abbrev pub take_event : Option (ℕ × List ChannelEvent) → Reader ℕ → Reader ℕ
take_event none next m = next (record m { rx_events = [] })
take_event (some (value, events)) next m = emit value (record m { rx_events = events })

-- After a byte of the buffer: the first event goes to the caller, or the loop starts again.
abbrev pub take_byte : Option ℕ → Reader ℕ → Reader ℕ
take_byte (some value) next m = emit value m
take_byte none next m =
    if m.reconnecting then done (err reconnecting) m else take_event (pop_event m.rx_events) next m

abbrev pub after_byte : Bytes → Reader ℕ → Main → Result Emitted × ChannelDecoder → Run ℕ
after_byte rest next m (err e, channels) =
    done (err e) (record m { rx_buf = rest; rx_channels = channels })
after_byte rest next m (ok (first, second), channels) =
    take_byte (first_byte first) next (record m {
      rx_buf = rest;
      rx_channels = channels;
      rx_events = queue_second m.rx_events second;
    })

-- The bytes of `rx_buf`; `next` is what follows when they are used up.
unfoldable pub from_buffer : Bytes → Reader ℕ → Reader ℕ
from_buffer [] next m = next (record m { rx_buf = [] })
from_buffer (byte ∷ rest) next m =
    after_byte rest (from_buffer rest next) m (push_byte byte m.rx_channels)

abbrev pub after_read : ReadOutcome → Reader ℕ → Reader ℕ
after_read (quiet passed) again m =
    if m.bounded && passed
    then done (err timeout) m
    else if m.reconnecting
    then done (err reconnecting) m
    else again m
after_read (received []) again m = done (err connection_error) m
after_read (received (byte ∷ bytes)) again m =
    from_buffer (byte ∷ bytes) again (record m { rx_buf = byte ∷ bytes })
after_read broken again m = done (err io) m

-- The waits for the socket, `rx_buf` being empty. Where the deadline has passed before it, a wait
-- does not take place, and is left to the next call.
unfoldable pub wait : List Poll → Reader ℕ
wait [] m = blocked m
wait (p ∷ ps) m =
    let s : Main = record m { polls = ps; reconnecting = m.reconnecting || p.reconnects } in
    let rest = after_read p.outcome (wait ps) s in
    if p.late && m.bounded
    then done (err timeout) (record m { polls = record p { late = false } ∷ ps })
    else rest

abbrev pub from_replay : Bytes → Reader ℕ
from_replay (value ∷ rest) m = emit value (record m { replay = rest })
from_replay [] m = take_event (pop_event m.rx_events) (λ s. from_buffer s.rx_buf (wait s.polls) s) m

unfoldable pub decode_next_inner : Reader ℕ
decode_next_inner m = if m.reconnecting then done (err reconnecting) m else from_replay m.replay m

abbrev pub tee : Option Bytes → ℕ → Reader ℕ
tee none byte m = done (ok byte) m
tee (some cap) byte m =
    if has_capacity (length cap)
    then done (ok byte) (record m { capture = some (cap ++ byte ∷ []) })
    else done (err invalid_data) m

unfoldable pub decode_next : Reader ℕ
decode_next = decode_next_inner >>= λ byte m. tee m.capture byte m

-- `for _ in 0..n`, with the bytes in order.
unfoldable pub read_bytes : ℕ → Reader Bytes
read_bytes zero = pure []
read_bytes (suc n) = decode_next >>= λ byte. read_bytes n >>= λ bytes. pure (byte ∷ bytes)

-- The shifted bytes do not overlap, so their `|` is a sum.
unfoldable pub read_u8 : Reader ℕ
read_u8 = decode_next

unfoldable pub read_i8 : Reader ℤ
read_i8 = decode_next >>= λ byte. pure (as_i8 byte)

unfoldable pub read_u16 : Reader ℕ
read_u16 = read_bytes 2 >>= λ bytes. pure (from_be bytes)

unfoldable pub read_i16 : Reader ℤ
read_i16 = read_u16 >>= λ word. pure (as_i16 word)

unfoldable pub read_u32 : Reader ℕ
read_u32 = read_bytes 4 >>= λ bytes. pure (from_be bytes)

unfoldable pub read_i32 : Reader ℤ
read_i32 = read_u32 >>= λ word. pure (as_i32 word)

-- The bits of the f32.
unfoldable pub read_f : Reader ℕ
read_f = read_bytes 4 >>= λ bytes. pure (from_be bytes)

abbrev pub lift {ℓ} : {A : Type ℓ} → Result A → Reader A
lift r m = done r m

unfoldable pub read_string : ℕ → Reader Bytes
read_string len = read_bytes len >>= λ bytes. lift (ok_or invalid_data (from_utf8 bytes))
