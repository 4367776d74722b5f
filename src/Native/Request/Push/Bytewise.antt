-- ===== src/Native/Request/Push/Bytewise.antt =====
-- The decoder takes the audio channel byte by byte: on the bytes of one token it waits, and at the
-- last of them it does what one pass of `parse_audio` does on the whole token.
use libwing.Native.Request.Audio.Token.{token_len, Outcome}
use libwing.Native.Request.Push.{
  push_request, Requests, NativeRequest, audio_byte, check_buffer_limit, drain_audio,
}
use libwing.Prelude.{
  append-nil, refl, length-append, Option, zero, ◌∙◌, ap, [], arith, ◌∷◌, usize_max, ◌++◌, ◌≤◌, suc,
  ◌≡◌, length, ◌+◌, ℕ, List,
}
use libwing.Prelude.BigEndian.{Bytes}
use libwing.Native.Request.{Result, NativeRequestDecoder}
use libwing.Native.Request.Audio.Loop.{
  parse_audio-eq, Framed-Exact-Pending, token_request, parse_audio-Pending, Exact, Pending,
}
use libwing.Outcome.{err, and_then, ok}
use libwing.Native.Request.Audio.{
  again, wait, request, parse_audio, after_step, AudioStep, audio_step,
}
use libwing.Native.Request.Audio.Step.{audio_step-Outcome}
use native.Mathlib.Numerals.{add-one}

pub drain_audio-Pending :
    (fuel : ℕ) (requests : List NativeRequest) (d : NativeRequestDecoder)
    → Pending d
    → drain_audio fuel requests d ≡ (ok requests, d)
unfolding drain_audio
drain_audio-Pending zero requests d p = refl
drain_audio-Pending (suc fuel) requests d p = rw (parse_audio-Pending d p)

-- What the requests so far become by a pass.
abbrev pub add_requests : List NativeRequest → AudioStep → Requests
add_requests requests outcome s = (ok (requests ++ token_request outcome), s)

drained :
    (fuel : ℕ) (requests : List NativeRequest) (d : NativeRequestDecoder)
    (r : Result AudioStep × NativeRequestDecoder)
    → Exact d
    → Outcome (token_len d.audio) d r
    → and_then (and_then r (after_step parse_audio)) (push_request (drain_audio fuel) requests)
      ≡ and_then r (add_requests requests)
drained fuel requests d (ok wait, s) e h = absurd (omega (arith, e, h.1))
drained fuel requests d (ok again, s) e h =
    rw (parse_audio-Pending s (Framed-Exact-Pending d s e h), append-nil)
drained fuel requests d (ok (request q), s) e h =
    drain_audio-Pending fuel (requests ++ q ∷ []) s (Framed-Exact-Pending d s e h)
drained fuel requests d (err x, s) e h = refl

pub drain_audio-Exact :
    (fuel : ℕ) (requests : List NativeRequest) (d : NativeRequestDecoder)
    → Exact d
    → drain_audio (suc fuel) requests d ≡ and_then (audio_step d) (add_requests requests)
unfolding drain_audio
drain_audio-Exact fuel requests d e =
    ap
      (λ (r : Result (Option NativeRequest) × NativeRequestDecoder).
        and_then r (push_request (drain_audio fuel) requests))
      (parse_audio-eq d)
    ∙ drained fuel requests d (audio_step d) e (audio_step-Outcome d)

-- There is room for a buffer of `n` bytes beside the meter buffer.
abbrev pub Room : ℕ → NativeRequestDecoder → Type 0
Room n d = (n + length d.meter ≤ d.limits.max_buffered_bytes) × (n + length d.meter ≤ usize_max)

abbrev pub with_audio : Bytes → NativeRequestDecoder → NativeRequestDecoder
with_audio audio d = record d { audio = audio }

check_passes :
    (d : NativeRequestDecoder) → Room (length d.audio) d → check_buffer_limit d ≡ (ok tt, d)
unfolding check_buffer_limit
check_passes d h = ground arith

audio_byte-eq :
    (b : ℕ) (d : NativeRequestDecoder)
    → Room (length (d.audio ++ b ∷ [])) d
    → audio_byte b d
      ≡ drain_audio (length (d.audio ++ b ∷ [])) [] (with_audio (d.audio ++ b ∷ []) d)
unfolding audio_byte
audio_byte-eq b d room = rw (check_passes (with_audio (d.audio ++ b ∷ []) d) room)

pub audio_byte-Pending :
    (b : ℕ) (d : NativeRequestDecoder)
    → Room (length (d.audio ++ b ∷ [])) d
    → Pending (with_audio (d.audio ++ b ∷ []) d)
    → audio_byte b d ≡ (ok [], with_audio (d.audio ++ b ∷ []) d)
audio_byte-Pending b d room p =
    audio_byte-eq b d room
    ∙ drain_audio-Pending (length (d.audio ++ b ∷ [])) [] (with_audio (d.audio ++ b ∷ []) d) p

pub audio_byte-Exact :
    (b : ℕ) (d : NativeRequestDecoder)
    → Room (length (d.audio ++ b ∷ [])) d
    → Exact (with_audio (d.audio ++ b ∷ []) d)
    → audio_byte b d ≡ and_then (audio_step (with_audio (d.audio ++ b ∷ []) d)) (add_requests [])
audio_byte-Exact b d room e =
    audio_byte-eq b d room
    ∙ rw (length-append d.audio (b ∷ []), add-one)
        (drain_audio-Exact (length d.audio) [] (with_audio (d.audio ++ b ∷ []) d) e)
