-- ===== src/Reader/Progress.antt =====
-- `decode_next` of src/console.rs over a healthy connection: its buffer and its waits.
use mathlib.Core.Path.{subst⁻¹}
use libwing.Prelude.{
  ℕ, ◌<◌, ◌≡◌, ◌≢◌, refl, sym, ap, ◌∙◌, Bool, true, false, Option, none, some, List, [], ◌∷◌, ◌++◌,
  ◌&&◌, ◌||◌, length, lt→ltb, All, if◌then◌else◌,
}
use libwing.Prelude.BigEndian.{Bytes}
use libwing.Prelude.Ints.{ℤ}
use libwing.Outcome.{Result, ok, err}
use libwing.Reader.{Main, Poll, ReadOutcome, quiet, received, broken, Run, blocked, done, Reader}
use libwing.Native.Channel.{ChannelEvent, push_byte, Emitted, ChannelDecoder}
use libwing.Reader.Backlog.{outcome_bytes, optional, heard, queued, audio, arrived}
use libwing.Reader.Decode.{
  take_byte, pop_event, after_read, first_byte, queue_second, after_byte, take_event, has_capacity,
  wait, emit, from_buffer, max_native_response_bytes,
}
use libwing.Reader.Kept.{pop_event-Popped, Popped}
use libwing.Reader.Waits.{queued_second}

-- The decoder accepts every byte.
abbrev pub Accepted : Result Emitted × ChannelDecoder → (ChannelDecoder → Type 0) → Type 0
Accepted (err e, d) later = ⊥
Accepted (ok emitted, d) later = later d

abbrev pub Decodes : Bytes → ChannelDecoder → Type 0
Decodes [] d = Unit {0}
Decodes (byte ∷ bytes) d = Accepted (push_byte byte d) (Decodes bytes)

abbrev pub CalmRead : ReadOutcome → Type 0
CalmRead (quiet passed) = Unit {0}
CalmRead (received []) = ⊥
CalmRead (received (byte ∷ bytes)) = Unit {0}
CalmRead broken = ⊥

-- Each wait ends with bytes, or without any for now.
abbrev pub CalmPoll : Poll → Type 0
CalmPoll p = (p.reconnects ≡ false) × CalmRead p.outcome

-- No reconnect, no deadline, no capture; the stream is usable and no response is pending.
abbrev pub Flags : Main → Type 0
Flags m =
    (m.reconnecting ≡ false)
    × (m.bounded ≡ false)
    × (m.capture ≡ none)
    × (m.tainted ≡ false)
    × (m.pending ≡ [])

abbrev pub Calm : Main → Type 0
Calm m = Flags m × All CalmPoll m.polls × Decodes (m.rx_buf ++ arrived m.polls) m.rx_channels

-- One byte has been read, and is held for a replay.
abbrev pub Progress : Bytes → ℤ → Run ℕ → Type 0
Progress capture node (blocked s) = ⊥
Progress capture node (done (ok value) s) =
    (s.read_capture ≡ capture ++ value ∷ []) × (s.current_node_id ≡ node) × Calm s
Progress capture node (done (err e) s) = ⊥

if_true-Progress :
    (capture : Bytes) (node : ℤ) (b : Bool) (x y : Run ℕ)
    → b ≡ true
    → Progress capture node x
    → Progress capture node (if b then x else y)
if_true-Progress capture node true x y h p = p
if_true-Progress capture node false x y h p = absurd cc

pub if_false-Progress :
    (capture : Bytes) (node : ℤ) (b : Bool) (x y : Run ℕ)
    → b ≡ false
    → Progress capture node y
    → Progress capture node (if b then x else y)
if_false-Progress capture node true x y h p = absurd cc
if_false-Progress capture node false x y h p = p

abbrev pub Fits : Bytes → Type 0
Fits capture = length capture < max_native_response_bytes

pub emit-Progress :
    (s : Main) (value : ℕ) (capture : Bytes) (node : ℤ)
    → Fits capture
    → s.read_capture ≡ capture
    → s.current_node_id ≡ node
    → Calm s
    → Progress capture node (emit value s)
unfolding emit
emit-Progress s value capture node h hc hn k =
    if_true-Progress capture node (has_capacity (length s.read_capture)) _ _
      (lt→ltb (length s.read_capture) max_native_response_bytes (subst⁻¹ Fits hc h))
      (ap (λ (t : Bytes). t ++ value ∷ []) hc, hn, k)

pub take_event-Progress :
    (s : Main) (o : Option (ℕ × List ChannelEvent)) (next : Reader ℕ) (capture : Bytes) (node : ℤ)
    → Popped s.rx_events o
    → Fits capture
    → s.read_capture ≡ capture
    → s.current_node_id ≡ node
    → Calm s
    → (queued s.rx_events ≡ [] → Progress capture node (next (record s { rx_events = [] })))
    → Progress capture node (take_event o next s)
unfolding Popped
take_event-Progress s none next capture node p h hc hn k f = f p
take_event-Progress s (some (value, events)) next capture node p h hc hn k f =
    emit-Progress (record s { rx_events = events }) value capture node h hc hn k

-- The states of the loop, with `bytes` in the buffer and `ps` to come, and an audio byte among them.
abbrev pub Due : Bytes → ℤ → List Poll → Bytes → Main → Type 0
Due capture node ps bytes s =
    (s.polls ≡ ps)
    × (s.rx_events ≡ [])
    × Flags s
    × All CalmPoll ps
    × (s.read_capture ≡ capture)
    × (s.current_node_id ≡ node)
    × Decodes (bytes ++ arrived ps) s.rx_channels
    × (audio (bytes ++ arrived ps) s.rx_channels ≢ [])

abbrev pub Reads : Bytes → ℤ → List Poll → Bytes → Reader ℕ → Type 0
Reads capture node ps bytes next =
    (s : Main) → Due capture node ps bytes s → Progress capture node (next s)

after_byte-Progress :
    (capture : Bytes) (node : ℤ) (ps : List Poll) (rest : Bytes) (next : Reader ℕ) (s : Main)
    (r : Result Emitted × ChannelDecoder)
    → Fits capture
    → (s.polls ≡ ps)
      × (s.rx_events ≡ [])
      × Flags s
      × All CalmPoll ps
      × (s.read_capture ≡ capture)
      × (s.current_node_id ≡ node)
    → Accepted r (Decodes (rest ++ arrived ps))
    → heard r (audio (rest ++ arrived ps)) ≢ []
    → Reads capture node ps rest next
    → Progress capture node (after_byte rest next s r)
after_byte-Progress capture node ps rest next s (err e, d) h k a n f = absurd a
after_byte-Progress capture node ps rest next s (ok (first, second), d) h (hp, he, hf, hs, hc, hn) a
      n f =
    byte (first_byte first) n
  where
    t : Main
    t = record s { rx_buf = rest; rx_channels = d; rx_events = queue_second s.rx_events second }

    calm : Calm t
    calm = (
      hf,
      subst⁻¹ (All CalmPoll) hp hs,
      subst⁻¹ (λ (q : List Poll). Decodes (rest ++ arrived q) d) hp a,
    )

    none_queued : queued (queue_second s.rx_events second) ≡ [] → optional (first_byte second) ≡ []
    none_queued e =
        sym (queued_second second)
        ∙ ap (λ (q : List ChannelEvent). queued (queue_second q second)) (sym he)
        ∙ e

    byte :
        (o : Option ℕ)
        → optional o ++ (optional (first_byte second) ++ audio (rest ++ arrived ps) d) ≢ []
        → Progress capture node (take_byte o next t)
    byte (some value) m = emit-Progress t value capture node h hc hn calm
    byte none m = if_false-Progress capture node s.reconnecting _ _ hf.0 (
        take_event-Progress t (pop_event (queue_second s.rx_events second)) next capture node
          (pop_event-Popped (queue_second s.rx_events second)) h hc hn calm
          (λ e.
            f (record t { rx_events = [] })
              (
                hp,
                refl,
                hf,
                hs,
                hc,
                hn,
                a,
                λ z. m (ap (λ (b : Bytes). b ++ audio (rest ++ arrived ps) d) (none_queued e) ∙ z),
              )))

pub from_buffer-Progress :
    (bytes : Bytes) (capture : Bytes) (node : ℤ) (ps : List Poll) (next : Reader ℕ) (s : Main)
    → Fits capture
    → Due capture node ps bytes s
    → Reads capture node ps [] next
    → Progress capture node (from_buffer bytes next s)
unfolding from_buffer
from_buffer-Progress [] capture node ps next s h k f = f (record s { rx_buf = [] }) k
from_buffer-Progress (byte ∷ rest) capture node ps next s h (hp, he, hf, hs, hc, hn, a, n) f =
    after_byte-Progress capture node ps rest (from_buffer rest next) s
      (push_byte byte s.rx_channels) h (hp, he, hf, hs, hc, hn) a n
      (λ t k. from_buffer-Progress rest capture node ps next t h k f)

and_false : (x y : Bool) → y ≡ false → (x && y) ≡ false
and_false true y h = h
and_false false y h = refl

false_and : (x y : Bool) → x ≡ false → (x && y) ≡ false
false_and true y h = absurd cc
false_and false y h = refl

or_false : (x y : Bool) → x ≡ false → y ≡ false → (x || y) ≡ false
or_false true y h k = absurd cc
or_false false y h k = k

after_read-Progress :
    (o : ReadOutcome) (capture : Bytes) (node : ℤ) (ps : List Poll) (again : Reader ℕ) (s : Main)
    → Fits capture
    → CalmRead o
    → Due capture node ps (outcome_bytes o) s
    → Reads capture node ps [] again
    → Progress capture node (after_read o again s)
after_read-Progress (quiet passed) capture node ps again s h c k f =
    if_false-Progress capture node (s.bounded && passed) _ _ (false_and s.bounded passed k.2.1)
      (if_false-Progress capture node s.reconnecting _ _ k.2.0 (f s k))
after_read-Progress (received []) capture node ps again s h c k f = absurd c
after_read-Progress (received (byte ∷ bytes)) capture node ps again s h c k f =
    from_buffer-Progress (byte ∷ bytes) capture node ps again (record s { rx_buf = byte ∷ bytes }) h
      k f
after_read-Progress broken capture node ps again s h c k f = absurd c

pub wait-Progress :
    (ps : List Poll) (capture : Bytes) (node : ℤ)
    → Fits capture
    → Reads capture node ps [] (wait ps)
unfolding wait
wait-Progress [] capture node h s (hp, he, hf, hs, hc, hn, a, n) = absurd (n refl)
wait-Progress (p ∷ ps) capture node h s (hp, he, hf, hs, hc, hn, a, n) =
    if_false-Progress capture node (p.late && s.bounded) _ _ (and_false p.late s.bounded hf.1) (
      after_read-Progress p.outcome capture node ps (wait ps)
        (record s { polls = ps; reconnecting = s.reconnecting || p.reconnects }) h hs.0.1
        (
          refl,
          he,
          (or_false s.reconnecting p.reconnects hf.0 hs.0.0, hf.1, hf.2, hf.3, hf.4),
          hs.1,
          hc,
          hn,
          a,
          n,
        )
        (wait-Progress ps capture node h))
