-- ===== src/Native/Request/Push.antt =====
-- `push`, `push_events`, `flush`, `finish` and `reset` of `NativeRequestDecoder` (src/native.rs).
pub mod Bytewise
pub mod Tokens
pub mod Sound
pub mod Invariant
use libwing.Native.Request.{Result, NativeRequestDecoder, NativeRequest, keep_alive, unknown, new}
use libwing.Native.Request.Audio.{parse_audio}
use libwing.Native.Request.Meters.{parse_meter, flush_meter_renewal}
use libwing.Native.Channel
use libwing.Native.Channel.{ChannelEvent, selected, payload}
use libwing.Outcome.{invalid_data, err, bind, ok, and_then, Exec}
use libwing.Prelude.{
  usize_max, ◌+◌, ◌&&◌, min, ◌==◌, ltb, if◌then◌else◌, zero, none, length, ◌∷◌, suc, some, [], ◌++◌,
  Option, ℕ, List,
}
use libwing.Prelude.BigEndian.{Bytes}

abbrev pub Requests : Type 0
Requests = Exec NativeRequestDecoder (List NativeRequest)

unfoldable pub check_buffer_limit : Exec NativeRequestDecoder (Unit {0})
check_buffer_limit d =
    if ltb d.limits.max_buffered_bytes (min (length d.audio + length d.meter) usize_max)
    then (err invalid_data, d)
    else (ok tt, d)

-- `while let Some(request) = parse()? { requests.push(request); }`
abbrev pub push_request :
    (List NativeRequest → Requests) → List NativeRequest → Option NativeRequest → Requests
push_request again requests none d = (ok requests, d)
push_request again requests (some q) d = again (requests ++ q ∷ []) d

-- Each round that finds a request takes a byte of the buffer at least.
unfoldable pub drain_audio : ℕ → List NativeRequest → Requests
drain_audio zero requests d = (ok requests, d)
drain_audio (suc fuel) requests d =
    and_then (parse_audio d) (push_request (drain_audio fuel) requests)

unfoldable pub drain_meters : ℕ → List NativeRequest → Requests
drain_meters zero requests d = (ok requests, d)
drain_meters (suc fuel) requests d =
    and_then (parse_meter d) (push_request (drain_meters fuel) requests)

unfoldable pub audio_byte : ℕ → Requests
unfolding check_buffer_limit drain_audio
audio_byte byte d =
    and_then (check_buffer_limit (record d { audio = d.audio ++ byte ∷ [] }))
      (λ _ s. drain_audio (length s.audio) [] s)

unfoldable pub meter_byte : ℕ → Requests
unfolding check_buffer_limit drain_meters
meter_byte byte d =
    and_then (check_buffer_limit (record d { meter = d.meter ++ byte ∷ [] }))
      (λ _ s. drain_meters (length s.meter) [] s)

-- The requests that one channel event adds.
unfoldable pub handle_event : ChannelEvent → Requests
unfolding audio_byte meter_byte
handle_event (selected channel) d =
    and_then (flush_meter_renewal d) (λ renewals s. (ok (renewals ++ keep_alive channel ∷ []), s))
handle_event (payload channel byte) d =
    if channel == 1
    then audio_byte byte d
    else if channel == 3
    then meter_byte byte d
    else (ok (unknown channel byte ∷ []), d)

unfoldable pub push_loop : List ChannelEvent → List NativeRequest → Requests
push_loop [] requests d = (ok requests, d)
push_loop (event ∷ events) requests d = and_then (handle_event event d) (λ new_requests s.
    let rest = push_loop events (requests ++ new_requests) s in
    if ltb s.limits.max_batch_requests (length (requests ++ new_requests))
    then (err invalid_data, s)
    else rest)

unfoldable pub push_events : Bytes → Requests
push_events input d =
    let (events, channels) = Channel.push input d.channels in
    and_then (events, record d { channels = channels }) (λ es s. push_loop es [] s)

unfoldable pub reset : NativeRequestDecoder → NativeRequestDecoder
reset d = new d.limits

-- `if result.is_err() { self.reset(); }`
abbrev pub reset_on_error :
    Result (List NativeRequest) × NativeRequestDecoder
    → Result (List NativeRequest) × NativeRequestDecoder
reset_on_error (ok requests, d) = (ok requests, d)
reset_on_error (err e, d) = (err e, reset d)

unfoldable pub push : Bytes → Requests
unfolding push_events reset
push input d = reset_on_error (push_events input d)

unfoldable pub flush : Requests
flush d = flush_meter_renewal d

unfoldable pub finish : NativeRequestDecoder → Result (Unit {0})
finish d =
    bind (Channel.finish d.channels)
      (λ _. if length d.audio == 0 && length d.meter == 0 then ok tt else err invalid_data)
