-- ===== src/Native/Request/Push/Sound.antt =====
-- What the event loop of the request decoder keeps, event by event.
use libwing.Native.Request.Audio.Token.{token_len, Outcome, Framed, PathOk}
use libwing.Native.Request.Push.Bytewise.{
  drain_audio-Exact, drain_audio-Pending, add_requests, with_audio,
}
use libwing.Native.Request.{keep_alive, NativeRequest, NativeLimits, NativeRequestDecoder}
use libwing.Native.Request.Audio.Loop.{Framed-Exact-audio, Framed-Exact-Pending, Exact, Pending}
use libwing.Native.Channel.{payload, selected, ChannelEvent, ChannelDecoder}
use libwing.Prelude.{
  sym, ◌==◌, length-append, ◌-◌, ltb→lt, ltb_false→le, inr, false, if◌then◌else◌, inl, min,
  Bool-cases, ltb, usize_max, ◌<◌, none, zero, ◌∷◌, ◌++◌, ap, [], some, arith, ◌∙◌, suc, List, ◌≤◌,
  ℕ, Option, ◌+◌, ◌≡◌, length,
}
use libwing.Outcome.{invalid_data, and_then, err, ok, Result}
use libwing.Native.Request.Meters.{flush_meter_renewal, parse_meter}
use libwing.Native.Request.Push.{
  push_loop, handle_event, meter_byte, drain_audio, audio_byte, Requests, push_request,
  drain_meters,
}
use libwing.Native.Request.Audio.{audio_step, again, wait, request, AudioStep}
use libwing.Native.Request.Meters.Outcomes.{
  flush-FlushOutcome, FlushOutcome, MeterFramed, parse_meter-MeterOutcome, MeterOutcome,
}
use libwing.Native.Request.Audio.Prefix.{token_len_grows}
use mathlib.Core.Path.{subst}
use libwing.Native.Request.Audio.Step.{audio_step-Outcome}

-- What the event loop keeps; the channel decoder is not touched by it.
pub record IsSound (limits : NativeLimits) (channels : ChannelDecoder) (d : NativeRequestDecoder)
    : Type 0 where
  pub same_limits : d.limits ≡ limits
  pub same_channels : d.channels ≡ channels
  pub waiting : Pending d
  pub path : PathOk d
  pub bounded : length d.audio + length d.meter ≤ limits.max_buffered_bytes

-- After a success the state is sound; after an error only the limits matter, as `push` resets.
abbrev pub KeptSound :
    NativeLimits → ChannelDecoder → Result (List NativeRequest) × NativeRequestDecoder → Type 0
KeptSound limits channels (ok a, s) = IsSound limits channels s
KeptSound limits channels (err e, s) = s.limits ≡ limits

module _ (limits : NativeLimits) (channels : ChannelDecoder) where
  framed-Sound :
      (d s : NativeRequestDecoder)
      → IsSound limits channels d
      → MeterFramed d s
      → IsSound limits channels s
  framed-Sound d s h f = record {
    same_limits = f.limits ∙ h.same_limits;
    same_channels = f.channels ∙ h.same_channels;
    waiting = rw f.audio h.waiting;
    path = rw (f.limits, f.path, f.path_bytes) h.path;
    bounded = omega (arith, h.bounded, ap length f.audio, f.shorter);
  }

  meters_round :
      (more : List NativeRequest → Requests) (requests : List NativeRequest)
      (d : NativeRequestDecoder) (r : Result (Option NativeRequest) × NativeRequestDecoder)
      → ((rs : List NativeRequest) (s : NativeRequestDecoder)
          → IsSound limits channels s
          → KeptSound limits channels (more rs s))
      → IsSound limits channels d
      → MeterOutcome d r
      → KeptSound limits channels (and_then r (push_request more requests))
  meters_round more requests d (ok none, s) ih h f = framed-Sound d s h f
  meters_round more requests d (ok (some q), s) ih h f =
      ih (requests ++ q ∷ []) s (framed-Sound d s h f)
  meters_round more requests d (err e, s) ih h f = f ∙ h.same_limits

  drain_meters-Sound :
      (fuel : ℕ) (requests : List NativeRequest) (d : NativeRequestDecoder)
      → IsSound limits channels d
      → KeptSound limits channels (drain_meters fuel requests d)
  unfolding drain_meters
  drain_meters-Sound zero requests d h = h
  drain_meters-Sound (suc fuel) requests d h =
      meters_round (drain_meters fuel) requests d (parse_meter d)
        (λ rs s k. drain_meters-Sound fuel rs s k) h (parse_meter-MeterOutcome d)

  flushed :
      (channel : ℕ) (d : NativeRequestDecoder)
      (r : Result (List NativeRequest) × NativeRequestDecoder)
      → IsSound limits channels d
      → FlushOutcome d r
      → KeptSound limits channels
          (and_then r (λ renewals s. (ok (renewals ++ keep_alive channel ∷ []), s)))
  flushed channel d (ok rs, s) h f = framed-Sound d s h f
  flushed channel d (err e, s) h f = f ∙ h.same_limits

  stepped-Framed :
      (d s : NativeRequestDecoder)
      → Exact d
      → Framed (token_len d.audio) d s
      → d.limits ≡ limits
      → d.channels ≡ channels
      → PathOk d
      → length d.audio + length d.meter ≤ limits.max_buffered_bytes
      → IsSound limits channels s
  stepped-Framed d s e h l c p b = record {
    same_limits = h.limits ∙ l;
    same_channels = h.channels ∙ c;
    waiting = Framed-Exact-Pending d s e h;
    path = h.path p;
    bounded = omega (arith, b, ap length h.meter, ap length (Framed-Exact-audio d s e h));
  }

  stepped :
      (d : NativeRequestDecoder) (r : Result AudioStep × NativeRequestDecoder)
      → Exact d
      → Outcome (token_len d.audio) d r
      → d.limits ≡ limits
      → d.channels ≡ channels
      → PathOk d
      → length d.audio + length d.meter ≤ limits.max_buffered_bytes
      → KeptSound limits channels (and_then r (add_requests []))
  stepped d (ok wait, s) e h l c p b = absurd (omega (arith, e, h.1))
  stepped d (ok again, s) e h l c p b = stepped-Framed d s e h l c p b
  stepped d (ok (request q), s) e h l c p b = stepped-Framed d s e h l c p b
  stepped d (err x, s) e h l c p b = h.1 ∙ l

  module _ (fits : limits.max_buffered_bytes < usize_max) where
    within :
        (d : NativeRequestDecoder)
        → d.limits ≡ limits
        → ltb d.limits.max_buffered_bytes (min (length d.audio + length d.meter) usize_max) ≡ false
        → length d.audio + length d.meter ≤ limits.max_buffered_bytes
    within d e h = omega (
      arith,
      fits,
      ap (λ (l : NativeLimits). l.max_buffered_bytes) e,
      ltb_false→le d.limits.max_buffered_bytes (min (length d.audio + length d.meter) usize_max) h,
    )

    -- The state with one byte more in the audio buffer, once the buffers have room.
    filled :
        (d : NativeRequestDecoder)
        → length d.audio ≤ token_len d.audio
        → 0 < length d.audio
        → d.limits ≡ limits
        → d.channels ≡ channels
        → PathOk d
        → length d.audio + length d.meter ≤ limits.max_buffered_bytes
        → KeptSound limits channels (drain_audio (length d.audio) [] d)
    filled d le pos l c p b = elim (Bool-cases (ltb (length d.audio) (token_len d.audio))) [
      | inl lt ↦
          rw
            (drain_audio-Pending (length d.audio) [] d
              (ltb→lt (length d.audio) (token_len d.audio) lt))
            (record {
              same_limits = l;
              same_channels = c;
              path = p;
              bounded = b;
              waiting = ltb→lt (length d.audio) (token_len d.audio) lt;
            })
      | inr ge ↦
          let e : Exact d = omega (arith, ltb_false→le (length d.audio) (token_len d.audio) ge) in
          let n : length d.audio ≡ suc (length d.audio - 1) = omega arith in
          subst (λ k. KeptSound limits channels (drain_audio k [] d)) (sym n)
            (rw (drain_audio-Exact (length d.audio - 1) [] d e)
              (stepped d (audio_step d) e (audio_step-Outcome d) l c p b))
    ]

    audio_byte-Sound :
        (b : ℕ) (d : NativeRequestDecoder)
        → IsSound limits channels d
        → KeptSound limits channels (audio_byte b d)
    unfolding audio_byte
    audio_byte-Sound b d h =
        elim (Bool-cases (
          ltb d.limits.max_buffered_bytes
            (min (length (d.audio ++ b ∷ []) + length d.meter) usize_max))) [
              | inl over ↦ rw over h.same_limits
              | inr room ↦ rw room (
                  filled (with_audio (d.audio ++ b ∷ []) d) (token_len_grows d.audio b h.waiting)
                    (omega (arith, length-append d.audio (b ∷ []))) h.same_limits h.same_channels
                    h.path (within (with_audio (d.audio ++ b ∷ []) d) h.same_limits room))
            ]

    meter_byte-Sound :
        (b : ℕ) (d : NativeRequestDecoder)
        → IsSound limits channels d
        → KeptSound limits channels (meter_byte b d)
    unfolding meter_byte
    meter_byte-Sound b d h =
        elim (Bool-cases (
          ltb d.limits.max_buffered_bytes
            (min (length d.audio + length (d.meter ++ b ∷ [])) usize_max))) [
              | inl over ↦ rw over h.same_limits
              | inr room ↦ rw room (
                  drain_meters-Sound (length (d.meter ++ b ∷ [])) []
                    (record d { meter = d.meter ++ b ∷ [] })
                    (record {
                      same_limits = h.same_limits;
                      same_channels = h.same_channels;
                      waiting = h.waiting;
                      path = h.path;
                      bounded = within (record d { meter = d.meter ++ b ∷ [] }) h.same_limits room;
                    }))
            ]

    handle_event-Sound :
        (event : ChannelEvent) (d : NativeRequestDecoder)
        → IsSound limits channels d
        → KeptSound limits channels (handle_event event d)
    unfolding handle_event
    handle_event-Sound (selected channel) d h =
        flushed channel d (flush_meter_renewal d) h (flush-FlushOutcome d)
    handle_event-Sound (payload channel byte) d h = elim (Bool-cases (channel == 1)) [
      | inl e ↦ rw e (audio_byte-Sound byte d h)
      | inr e ↦ elim (Bool-cases (channel == 3)) [
        | inl f ↦ rw (e, f) (meter_byte-Sound byte d h)
        | inr f ↦ rw (e, f) h
      ]
    ]

    looped :
        (events : List ChannelEvent) (requests : List NativeRequest)
        (r : Result (List NativeRequest) × NativeRequestDecoder)
        → ((rs : List NativeRequest) (s : NativeRequestDecoder)
            → IsSound limits channels s
            → KeptSound limits channels (push_loop events rs s))
        → KeptSound limits channels r
        → KeptSound limits channels (
            and_then r (λ new_requests s.
              if ltb s.limits.max_batch_requests (length (requests ++ new_requests))
              then (err invalid_data, s)
              else push_loop events (requests ++ new_requests) s))
    looped events requests (ok rs, s) ih h =
        elim (Bool-cases (ltb s.limits.max_batch_requests (length (requests ++ rs)))) [
          | inl over ↦ rw over h.same_limits
          | inr room ↦ rw room (ih (requests ++ rs) s h)
        ]
    looped events requests (err e, s) ih h = h

    pub push_loop-Sound :
        (events : List ChannelEvent) (requests : List NativeRequest) (d : NativeRequestDecoder)
        → IsSound limits channels d
        → KeptSound limits channels (push_loop events requests d)
    unfolding push_loop
    push_loop-Sound [] requests d h = h
    push_loop-Sound (event ∷ events) requests d h =
        looped events requests (handle_event event d) (λ rs s k. push_loop-Sound events rs s k)
          (handle_event-Sound event d h)
