-- ===== src/Native/Request/Push/Tokens.antt =====
-- The event loop of the decoder on the bytes of whole audio tokens.
use libwing.Native.Request.Audio.Token.{token_len, Outcome}
use libwing.Native.Request.Push.Bytewise.{
  audio_byte-Pending, audio_byte-Exact, add_requests, Room, with_audio,
}
use libwing.Native.Channel.{ChannelEvent, payload}
use libwing.Native.Request.Push.{audio_byte, handle_event, push_loop}
use libwing.Prelude.{
  length-append, append_assoc, append-nil, ◌∙◌, arith, [], le→ltb_false, map, ◌∷◌, ◌≤◌, refl, ◌+◌,
  ◌++◌, length, ◌<◌, ◌≡◌, List, ℕ,
}
use libwing.Prelude.BigEndian.{Bytes}
use libwing.Native.Request.{Result, NativeRequest, NativeRequestDecoder}
use libwing.Outcome.{and_then, err, Error, ok}
use libwing.Native.Request.Audio.{again, wait, request, AudioStep, audio_step}
use libwing.Native.Request.Audio.Loop.{token_len_pos, Exact, token_request}
use libwing.Native.Request.Audio.Step.{audio_step-Outcome}
use libwing.Native.Request.Audio.Prefix.{token_prefix}

pub push_loop_ok :
    (event : ChannelEvent) (events : List ChannelEvent) (requests new_requests : List NativeRequest)
    (d s : NativeRequestDecoder)
    → handle_event event d ≡ (ok new_requests, s)
    → length (requests ++ new_requests) ≤ s.limits.max_batch_requests
    → push_loop (event ∷ events) requests d ≡ push_loop events (requests ++ new_requests) s
unfolding push_loop
push_loop_ok event events requests new_requests d s e h =
    rw (e, le→ltb_false s.limits.max_batch_requests (length (requests ++ new_requests)) h)

pub push_loop_err :
    (event : ChannelEvent) (events : List ChannelEvent) (requests : List NativeRequest) (x : Error)
    (d s : NativeRequestDecoder)
    → handle_event event d ≡ (err x, s)
    → push_loop (event ∷ events) requests d ≡ (err x, s)
unfolding push_loop
push_loop_err event events requests x d s e = rw e

handle-audio : (b : ℕ) (d : NativeRequestDecoder) → handle_event (payload 1 b) d ≡ audio_byte b d
unfolding handle_event
handle-audio b d = refl

last_byte :
    (b : ℕ) (events : List ChannelEvent) (requests : List NativeRequest)
    (x d : NativeRequestDecoder) (r : Result AudioStep × NativeRequestDecoder)
    → Exact x
    → Outcome (token_len x.audio) x r
    → audio_byte b d ≡ and_then r (add_requests [])
    → length requests + 1 ≤ x.limits.max_batch_requests
    → push_loop (payload 1 b ∷ events) requests d
      ≡ and_then r (λ outcome s. push_loop events (requests ++ token_request outcome) s)
last_byte b events requests x d (ok wait, s) e h q room = absurd (omega (arith, e, h.1))
last_byte b events requests x d (ok again, s) e h q room =
    push_loop_ok (payload 1 b) events requests [] d s (handle-audio b d ∙ q)
      (rw (append-nil, h.limits) (omega arith))
last_byte b events requests x d (ok (request r), s) e h q room =
    push_loop_ok (payload 1 b) events requests (r ∷ []) d s (handle-audio b d ∙ q)
      (rw h.limits (omega (arith, length-append requests (r ∷ []))))
last_byte b events requests x d (err y, s) e h q room =
    push_loop_err (payload 1 b) events requests y d s (handle-audio b d ∙ q)

-- From a buffer that holds the front of a token, the events of the token's other bytes do what one
-- pass does on the whole token, and then come the events behind it.
pub push_loop_token :
    (t front : Bytes) (events : List ChannelEvent) (requests : List NativeRequest)
    (d : NativeRequestDecoder)
    → 0 < length t
    → length (front ++ t) ≡ token_len (front ++ t)
    → Room (length (front ++ t)) d
    → length requests + 1 ≤ d.limits.max_batch_requests
    → push_loop (map (payload 1) t ++ events) requests (with_audio front d)
      ≡ and_then
          (audio_step (with_audio (front ++ t) d))
          (λ outcome s. push_loop events (requests ++ token_request outcome) s)
push_loop_token [] front events requests d h e room fits = absurd (omega arith)
push_loop_token (b ∷ []) front events requests d h e room fits =
    last_byte b events requests (with_audio (front ++ b ∷ []) d) (with_audio front d)
      (audio_step (with_audio (front ++ b ∷ []) d)) e
      (audio_step-Outcome (with_audio (front ++ b ∷ []) d))
      (audio_byte-Exact b (with_audio front d) room e) fits
push_loop_token (b ∷ c ∷ t) front events requests d h e room fits =
    push_loop_ok (payload 1 b) (map (payload 1) (c ∷ t) ++ events) requests [] (with_audio front d)
      (with_audio (front ++ b ∷ []) d)
      (handle-audio b (with_audio front d)
        ∙ audio_byte-Pending b (with_audio front d) shorter
            (token_prefix (front ++ b ∷ []) (c ∷ t) (omega arith) (rw regroup e)))
      (rw append-nil (omega arith))
    ∙ rw (append-nil requests) (
        push_loop_token (c ∷ t) (front ++ b ∷ []) events requests d (omega arith) (rw regroup e)
          (rw regroup room) fits
        ∙ rw regroup refl)
  where
    regroup : (front ++ b ∷ []) ++ (c ∷ t) ≡ front ++ (b ∷ c ∷ t)
    regroup = append_assoc front (b ∷ []) (c ∷ t)

    shorter : Room (length (front ++ b ∷ [])) d
    shorter = omega (arith, room, length-append front (b ∷ c ∷ t), length-append front (b ∷ []))

-- A whole token from an empty buffer.
pub push_loop_whole :
    (t : Bytes) (events : List ChannelEvent) (requests : List NativeRequest)
    (d : NativeRequestDecoder)
    → length t ≡ token_len t
    → Room (length t) d
    → length requests + 1 ≤ d.limits.max_batch_requests
    → push_loop (map (payload 1) t ++ events) requests (with_audio [] d)
      ≡ and_then
          (audio_step (with_audio t d))
          (λ outcome s. push_loop events (requests ++ token_request outcome) s)
push_loop_whole t events requests d e room fits =
    push_loop_token t [] events requests d (omega (arith, token_len_pos t)) e room fits
