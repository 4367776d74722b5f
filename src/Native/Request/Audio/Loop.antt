-- ===== src/Native/Request/Audio/Loop.antt =====
-- `parse_audio` calls itself until a token is short or a request is complete: that it ends, and what
-- it does on a buffer that holds one token.
use libwing.Prelude.{
  drop-length, List, sym, length-drop, refl, [], ◌∙◌, none, ◌∷◌, ap, arith, Option, ◌≤◌, ◌<◌, ◌≡◌,
  some, length, ℕ, zero, suc,
}
use libwing.Native.Request.{NativeRequest, Result, NativeRequestDecoder}
use libwing.Native.Request.Audio.Token.{Framed, Outcome, token_len, op_len}
use libwing.Native.Request.Audio.{
  parse_audio, again, after_step, request, wait, AudioStep, audio_step, parse_audio_loop,
}
use libwing.Prelude.BigEndian.{Bytes}
use libwing.Outcome.{Error, err, Exec, and_then, ok}
use libwing.Native.Request.Audio.Step.{audio_step-Outcome}

abbrev pub Pending : NativeRequestDecoder → Type 0
Pending d = length d.audio < token_len d.audio

pub token_len_pos : (audio : Bytes) → 1 ≤ token_len audio
unfolding op_len
token_len_pos [] = omega arith
token_len_pos (op ∷ []) = ground arith
token_len_pos (op ∷ l ∷ rest) = ground arith

waits :
    (need : ℕ) (d : NativeRequestDecoder) (r : Result AudioStep × NativeRequestDecoder)
    → Outcome need d r
    → length d.audio < need
    → r ≡ (ok wait, d)
waits need d (ok wait, s) h p = ap (λ (t : NativeRequestDecoder). (ok wait, t)) h.0
waits need d (ok again, s) h p = absurd (omega (arith, h.complete))
waits need d (ok (request r), s) h p = absurd (omega (arith, h.complete))
waits need d (err e, s) h p = absurd (omega (arith, h.0))

pub audio_step-Pending : (d : NativeRequestDecoder) → Pending d → audio_step d ≡ (ok wait, d)
audio_step-Pending d p = waits (token_len d.audio) d (audio_step d) (audio_step-Outcome d) p

empty-Pending : (d : NativeRequestDecoder) → length d.audio ≤ 0 → Pending d
empty-Pending d h = omega (arith, token_len_pos d.audio)

audio_step-Empty_loop :
    (fuel : ℕ) (d : NativeRequestDecoder)
    → length d.audio ≤ 0
    → parse_audio_loop fuel d ≡ (ok none, d)
unfolding parse_audio_loop
audio_step-Empty_loop zero d h = refl
audio_step-Empty_loop (suc fuel) d h = rw (audio_step-Pending d (empty-Pending d h))

after-same :
    (f g : Exec NativeRequestDecoder (Option NativeRequest)) (d : NativeRequestDecoder)
    (r : Result AudioStep × NativeRequestDecoder)
    → Outcome (token_len d.audio) d r
    → ((s : NativeRequestDecoder) → length s.audio < length d.audio → f s ≡ g s)
    → and_then r (after_step f) ≡ and_then r (after_step g)
after-same f g d (ok wait, s) h same = refl
after-same f g d (ok again, s) h same = same s (
    omega (
      arith,
      token_len_pos d.audio,
      h.complete,
      ap length h.audio,
      length-drop (token_len d.audio) d.audio,
    ))
after-same f g d (ok (request q), s) h same = refl
after-same f g d (err e, s) h same = refl

-- Beyond the bytes in the buffer, more passes change nothing.
parse_audio_loop_enough :
    (m n : ℕ) (d : NativeRequestDecoder)
    → length d.audio ≤ m
    → length d.audio ≤ n
    → parse_audio_loop m d ≡ parse_audio_loop n d
unfolding parse_audio_loop
parse_audio_loop_enough zero n d hm hn = sym (audio_step-Empty_loop n d hm)
parse_audio_loop_enough (suc m) zero d hm hn = audio_step-Empty_loop (suc m) d hn
parse_audio_loop_enough (suc m) (suc n) d hm hn =
    after-same (parse_audio_loop m) (parse_audio_loop n) d (audio_step d) (audio_step-Outcome d)
      (λ s h. parse_audio_loop_enough m n s (omega arith) (omega arith))

-- One pass and then `parse_audio` itself where the pass ends in the tail call.
pub parse_audio-eq :
    (d : NativeRequestDecoder) → parse_audio d ≡ and_then (audio_step d) (after_step parse_audio)
unfolding parse_audio
parse_audio-eq d =
    parse_audio_loop_enough (length d.audio) (suc (length d.audio)) d (omega arith) (omega arith)
    ∙ after-same (parse_audio_loop (length d.audio)) (λ s. parse_audio_loop (length s.audio) s) d
        (audio_step d) (audio_step-Outcome d)
        (λ s h.
          parse_audio_loop_enough (length d.audio) (length s.audio) s (omega arith) (omega arith))

-- The recursion as the source writes it, with no bound on it: it comes to this result after so many
-- tail calls.
pub data Ends
    : ℕ → NativeRequestDecoder → Result (Option NativeRequest) × NativeRequestDecoder → Type 0 where
  waiting : {d s : NativeRequestDecoder} → audio_step d ≡ (ok wait, s) → Ends 0 d (ok none, s)
  requested :
      {d s : NativeRequestDecoder} {q : NativeRequest}
      → audio_step d ≡ (ok (request q), s)
      → Ends 0 d (ok (some q), s)
  failed :
      {d s : NativeRequestDecoder} {e : Error} → audio_step d ≡ (err e, s) → Ends 0 d (err e, s)
  tail_call :
      {n : ℕ} {d s : NativeRequestDecoder}
      {r : Result (Option NativeRequest) × NativeRequestDecoder}
      → audio_step d ≡ (ok again, s)
      → Ends n s r
      → Ends (suc n) d r

-- It ends, after so many tail calls at most.
abbrev pub EndsWithin :
    ℕ → NativeRequestDecoder → Result (Option NativeRequest) × NativeRequestDecoder → Type 0
EndsWithin most d r = (n : ℕ) × (n ≤ most) × Ends n d r

after_step-EndsWithin :
    (fuel : ℕ) (d : NativeRequestDecoder) (r : Result AudioStep × NativeRequestDecoder)
    → audio_step d ≡ r
    → Outcome (token_len d.audio) d r
    → length d.audio ≤ suc fuel
    → ((s : NativeRequestDecoder)
        → length s.audio ≤ fuel
        → EndsWithin fuel s (parse_audio_loop fuel s))
    → EndsWithin (suc fuel) d (and_then r (after_step (parse_audio_loop fuel)))
after_step-EndsWithin fuel d (ok wait, s) e h room ih = (0, omega arith, waiting e)
after_step-EndsWithin fuel d (ok (request q), s) e h room ih = (0, omega arith, requested e)
after_step-EndsWithin fuel d (err x, s) e h room ih = (0, omega arith, failed e)
after_step-EndsWithin fuel d (ok again, s) e h room ih =
    let (n, small, ends) = ih s (
      omega (
        arith,
        token_len_pos d.audio,
        h.complete,
        ap length h.audio,
        length-drop (token_len d.audio) d.audio,
      )) in
    (suc n, omega arith, tail_call e ends)

parse_audio_loop-EndsWithin :
    (fuel : ℕ) (d : NativeRequestDecoder)
    → length d.audio ≤ fuel
    → EndsWithin fuel d (parse_audio_loop fuel d)
unfolding parse_audio_loop
parse_audio_loop-EndsWithin zero d h =
    (0, omega arith, waiting (audio_step-Pending d (empty-Pending d h)))
parse_audio_loop-EndsWithin (suc fuel) d h =
    after_step-EndsWithin fuel d (audio_step d) refl (audio_step-Outcome d) h
      (λ s k. parse_audio_loop-EndsWithin fuel s k)

-- On every buffer the recursion that the source writes comes to an end, with the result of
-- `parse_audio`, after no more tail calls than the buffer has bytes.
pub parse_audio-EndsWithin :
    (d : NativeRequestDecoder) → EndsWithin (length d.audio) d (parse_audio d)
unfolding parse_audio
parse_audio-EndsWithin d = parse_audio_loop-EndsWithin (length d.audio) d (omega arith)

pub parse_audio-Pending : (d : NativeRequestDecoder) → Pending d → parse_audio d ≡ (ok none, d)
parse_audio-Pending d p = parse_audio-eq d ∙ rw (audio_step-Pending d p)

abbrev pub Exact : NativeRequestDecoder → Type 0
Exact d = length d.audio ≡ token_len d.audio

pub Framed-Exact-audio :
    (d s : NativeRequestDecoder) → Exact d → Framed (token_len d.audio) d s → s.audio ≡ []
Framed-Exact-audio d s e h = h.audio ∙ rw (← e) (drop-length d.audio)

pub Framed-Exact-Pending :
    (d s : NativeRequestDecoder) → Exact d → Framed (token_len d.audio) d s → Pending s
Framed-Exact-Pending d s e h =
    empty-Pending s (omega (arith, ap length (Framed-Exact-audio d s e h)))

-- What a buffer with one token comes to: its request, or none for a token of the path or selection.
abbrev pub token_request : AudioStep → List NativeRequest
token_request (request q) = q ∷ []
token_request _ = []
