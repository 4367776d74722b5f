-- ===== src/Native/Channel/Stream.antt =====
-- The channel decoder on any stream: fragments, the channels it names, and what it keeps.
use libwing.Prelude.{
  ℕ, ◌<◌, ◌≡◌, refl, sym, ap, ◌∙◌, Bool, true, false, Option, none, some, List, [], ◌∷◌, ◌++◌,
  append-nil, append_assoc, arith, All, All-append,
}
use libwing.Prelude.BigEndian.{Bytes}
use libwing.Outcome.{Result, ok, err, and_then}
use libwing.Native.Channel.{
  ChannelEvent, ChannelDecoder, Emitted, selected, payload, channel_count, flatten, push_byte,
  push_from, push,
}

abbrev pub prepend :
    List ChannelEvent
    → Result (List ChannelEvent) × ChannelDecoder
    → Result (List ChannelEvent) × ChannelDecoder
prepend events (ok new, d) = (ok (events ++ new), d)
prepend events (err e, d) = (err e, d)

prepend-prepend :
    (xs ys : List ChannelEvent) (r : Result (List ChannelEvent) × ChannelDecoder)
    → prepend xs (prepend ys r) ≡ prepend (xs ++ ys) r
prepend-prepend xs ys (ok zs, d) =
    ap (λ (t : List ChannelEvent). (ok t, d)) (sym (append_assoc xs ys zs))
prepend-prepend xs ys (err e, d) = refl

push_from_step :
    (events : List ChannelEvent) (input : Bytes)
    → ((ev : List ChannelEvent) (s : ChannelDecoder)
        → push_from ev input s ≡ prepend ev (push_from [] input s))
    → (r : Result Emitted × ChannelDecoder)
    → and_then r (λ em s. push_from (events ++ flatten em) input s)
      ≡ prepend events (and_then r (λ em s. push_from (flatten em) input s))
push_from_step events input ih (ok em, s) =
    ih (events ++ flatten em) s
    ∙ sym (prepend-prepend events (flatten em) (push_from [] input s))
    ∙ ap (prepend events) (sym (ih (flatten em) s))
push_from_step events input ih (err e, s) = refl

-- The events decoded so far only stand in front of what comes.
pub push_from-prepend :
    (events : List ChannelEvent) (input : Bytes) (d : ChannelDecoder)
    → push_from events input d ≡ prepend events (push_from [] input d)
unfolding push_from
push_from-prepend events [] d = ap (λ (t : List ChannelEvent). (ok t, d)) (sym (append-nil events))
push_from-prepend events (b ∷ input) d =
    push_from_step events input (λ ev s. push_from-prepend ev input s) (push_byte b d)

-- One byte and then the rest.
pub push_cons :
    (b : ℕ) (input : Bytes) (d : ChannelDecoder)
    → push (b ∷ input) d ≡ and_then (push_byte b d) (λ em s. prepend (flatten em) (push input s))
unfolding push push_from
push_cons b input d = step (push_byte b d)
  where
    step :
        (r : Result Emitted × ChannelDecoder)
        → and_then r (λ em s. push_from (flatten em) input s)
          ≡ and_then r (λ em s. prepend (flatten em) (push_from [] input s))
    step (ok em, s) = push_from-prepend (flatten em) input s
    step (err e, s) = refl

pub push_nil : (d : ChannelDecoder) → push [] d ≡ (ok [], d)
unfolding push push_from
push_nil d = refl

push_append_step :
    (xs ys : Bytes)
    → ((s : ChannelDecoder)
        → push (xs ++ ys) s ≡ and_then (push xs s) (λ events t. prepend events (push ys t)))
    → (r : Result Emitted × ChannelDecoder)
    → and_then r (λ em s. prepend (flatten em) (push (xs ++ ys) s))
      ≡ and_then
          (and_then r (λ em s. prepend (flatten em) (push xs s)))
          (λ events t. prepend events (push ys t))
push_append_step xs ys ih (err e, s) = refl
push_append_step xs ys ih (ok em, s) = rw (ih s) (joined (push xs s))
  where
    joined :
        (r : Result (List ChannelEvent) × ChannelDecoder)
        → prepend (flatten em) (and_then r (λ events t. prepend events (push ys t)))
          ≡ and_then (prepend (flatten em) r) (λ events t. prepend events (push ys t))
    joined (ok events, t) = prepend-prepend (flatten em) events (push ys t)
    joined (err e, t) = refl

-- Decoding a stream in two fragments gives what decoding it in one gives: the same events, or the
-- same error, and the same state.
pub push-append :
    (xs ys : Bytes) (d : ChannelDecoder)
    → push (xs ++ ys) d ≡ and_then (push xs d) (λ events s. prepend events (push ys s))
push-append [] ys d = rw (push_nil d) (first (push ys d))
  where
    first : (r : Result (List ChannelEvent) × ChannelDecoder) → r ≡ prepend [] r
    first (ok events, s) = refl
    first (err e, s) = refl
push-append (x ∷ xs) ys d =
    rw (push_cons x (xs ++ ys) d, push_cons x xs d)
      (push_append_step xs ys (λ s. push-append xs ys s) (push_byte x d))

-- A selected channel is one of the 14, and no event names another.
abbrev pub ChannelInRange : Option ℕ → Type 0
ChannelInRange none = Unit
ChannelInRange (some c) = c < channel_count

abbrev pub IsValid : ChannelDecoder → Type 0
IsValid d = ChannelInRange d.channel

abbrev pub InChannels : ChannelEvent → Type 0
InChannels (selected c) = c < channel_count
InChannels (payload c b) = c < channel_count

abbrev pub Kept : Result (List ChannelEvent) × ChannelDecoder → Type 0
Kept (ok events, d) = IsValid d × All InChannels events
Kept (err e, d) = IsValid d

abbrev KeptByte : Result Emitted × ChannelDecoder → Type 0
KeptByte (ok em, d) = IsValid d × All InChannels (flatten em)
KeptByte (err e, d) = IsValid d

push_byte-Kept_fields :
    (b : ℕ) (escaped : Bool) (channel : Option ℕ)
    → ChannelInRange channel
    → KeptByte (push_byte b (record { escaped = escaped; channel = channel }))
unfolding push_byte
push_byte-Kept_fields b true none v = ground arith
push_byte-Kept_fields b true (some c) v = ground arith
push_byte-Kept_fields b false none v = ground arith
push_byte-Kept_fields b false (some c) v = ground arith

push_byte-Kept : (b : ℕ) (d : ChannelDecoder) → IsValid d → KeptByte (push_byte b d)
push_byte-Kept b d v = push_byte-Kept_fields b d.escaped d.channel v

prepend-Kept :
    (xs : List ChannelEvent) (r : Result (List ChannelEvent) × ChannelDecoder)
    → All InChannels xs
    → Kept r
    → Kept (prepend xs r)
prepend-Kept xs (ok ys, d) hx (v, hy) = (v, All-append InChannels xs ys hx hy)
prepend-Kept xs (err e, d) hx v = v

push-Kept_step :
    (input : Bytes)
    → ((s : ChannelDecoder) → IsValid s → Kept (push input s))
    → (r : Result Emitted × ChannelDecoder) → KeptByte r
    → Kept (and_then r (λ em s. prepend (flatten em) (push input s)))
push-Kept_step input ih (ok em, s) (v, hs) = prepend-Kept (flatten em) (push input s) hs (ih s v)
push-Kept_step input ih (err e, s) v = v

-- Whatever the bytes, a decoder whose channel is one of the 14 keeps that, and every event it
-- returns names one of the 14.
pub push-Kept : (input : Bytes) (d : ChannelDecoder) → IsValid d → Kept (push input d)
push-Kept [] d v = rw (push_nil d) (v, tt)
push-Kept (b ∷ input) d v =
    rw (push_cons b input d)
      (push-Kept_step input (λ s. push-Kept input s) (push_byte b d) (push_byte-Kept b d v))
