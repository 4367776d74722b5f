-- ===== src/Reader/Waits.antt =====
-- `decode_next` of src/console.rs loses no byte: the bytes of `rx_buf` and the waits for the socket.
use libwing.Prelude.{
  length, ◌||◌, ◌&&◌, ℕ, ◌≡◌, refl, sym, ap, ◌∙◌, inl, inr, Bool, Option, none, some, List, [], ◌∷◌,
  ◌++◌, append_assoc, append-nil,
}
use libwing.Reader.{broken, received, quiet, ReadOutcome, Reader, Poll, Main}
use libwing.Native.Channel.{push_byte, Emitted, ChannelDecoder, ChannelEvent}
use libwing.Reader.Backlog.{
  bind-Keeps, outcome_bytes, Keeps, heard, Kept-trans, Conserves, Kept, optional, arrived, audio,
  queued, backlog,
}
use libwing.Prelude.BigEndian.{Bytes}
use libwing.Reader.Decode.{
  has_capacity, after_read, tee, decode_next, decode_next_inner, from_replay, after_byte, wait,
  from_buffer, pop_event, take_byte, audio_byte, first_byte, queue_second,
}
use libwing.Reader.Kept.{pop_event-Popped, take_event-Kept, if-Kept, emit-Kept}
use libwing.Outcome.{ok, err, Result}

pub queued_second :
    (second : Option ChannelEvent) → queued (queue_second [] second) ≡ optional (first_byte second)
queued_second none = refl
queued_second (some event) = append-nil (optional (audio_byte event))

-- The backlog of a state whose queue and replay are empty.
backlog_idle :
    (m : Main)
    → m.replay ≡ []
    → m.rx_events ≡ []
    → backlog m ≡ m.read_capture ++ audio (m.rx_buf ++ arrived m.polls) m.rx_channels
backlog_idle m hr he =
    ap
      (λ (t : Bytes).
        m.read_capture
        ++ (t ++ (queued m.rx_events ++ audio (m.rx_buf ++ arrived m.polls) m.rx_channels)))
      hr
    ∙ ap
        (λ (t : List ChannelEvent).
          m.read_capture ++ (queued t ++ audio (m.rx_buf ++ arrived m.polls) m.rx_channels))
        he

-- The backlog after the byte `byte` of the buffer, which gave `second` for the queue.
abbrev after : Main → Bytes → Option ChannelEvent → ChannelDecoder → Main
after m rest second channels = record m {
  rx_buf = rest;
  rx_channels = channels;
  rx_events = queue_second m.rx_events second;
}

held_after :
    (m : Main) (rest : Bytes) (second : Option ChannelEvent) (d : ChannelDecoder)
    → m.replay ≡ []
    → m.rx_events ≡ []
    → m.replay ++ (queued (queue_second m.rx_events second) ++ audio (rest ++ arrived m.polls) d)
      ≡ optional (first_byte second) ++ audio (rest ++ arrived m.polls) d
held_after m rest second d hr he =
    ap
      (λ (t : Bytes).
        t ++ (queued (queue_second m.rx_events second) ++ audio (rest ++ arrived m.polls) d))
      hr
    ∙ ap
        (λ (t : List ChannelEvent).
          queued (queue_second t second) ++ audio (rest ++ arrived m.polls) d)
        he
    ∙ ap (λ (t : Bytes). t ++ audio (rest ++ arrived m.polls) d) (queued_second second)

-- From states as the loop has them, `next` loses no byte.
abbrev Idle : List Poll → Bytes → Main → Type 0
Idle ps bytes s = (s.polls ≡ ps) × (s.replay ≡ []) × (s.rx_events ≡ []) × (s.rx_buf ≡ bytes)

abbrev KeepsIdle : List Poll → Bytes → Reader ℕ → Type 0
KeepsIdle ps bytes next = (s : Main) → Idle ps bytes s → Kept s (next s)

take_byte-Kept :
    (m : Main) (ps : List Poll) (rest : Bytes) (next : Reader ℕ) (second : Option ChannelEvent)
    (d : ChannelDecoder) (o : Option ℕ)
    → Idle ps m.rx_buf m
    → KeepsIdle ps rest next
    → backlog m
      ≡ m.read_capture
        ++ (optional o ++ (optional (first_byte second) ++ audio (rest ++ arrived m.polls) d))
    → Kept m (take_byte o next (after m rest second d))
take_byte-Kept m ps rest next second d (some value) (hp, hr, he, hb) k h =
    emit-Kept m (after m rest second d) value (
      refl,
      h
          ∙ ap (λ (t : Bytes). m.read_capture ++ (value ∷ t))
              (sym (held_after m rest second d hr he))
          ∙ sym (append_assoc m.read_capture (value ∷ []) _),
    )
take_byte-Kept m ps rest next second d none (hp, hr, he, hb) k h =
    Kept-trans m (after m rest second d) _ kept (
      if-Kept (after m rest second d) m.reconnecting _ _ (inr (refl, refl)) (
        take_event-Kept (after m rest second d) (pop_event (queue_second m.rx_events second)) next
          hr (pop_event-Popped (queue_second m.rx_events second))
          (k (record (after m rest second d) { rx_events = [] }) (hp, hr, refl, refl))))
  where
    kept : Conserves m (after m rest second d)
    kept =
        (refl, h ∙ ap (λ (t : Bytes). m.read_capture ++ t) (sym (held_after m rest second d hr he)))

heard_first :
    (m : Main) (byte : ℕ) (rest : Bytes) (r : Result Emitted × ChannelDecoder)
    → push_byte byte m.rx_channels ≡ r
    → m.rx_buf ≡ byte ∷ rest
    → audio (m.rx_buf ++ arrived m.polls) m.rx_channels ≡ heard r (audio (rest ++ arrived m.polls))
heard_first m byte rest r h hb =
    ap (λ (t : Bytes). audio (t ++ arrived m.polls) m.rx_channels) hb
    ∙ ap (λ (t : Result Emitted × ChannelDecoder). heard t (audio (rest ++ arrived m.polls))) h

after_byte-Kept :
    (m : Main) (ps : List Poll) (byte : ℕ) (rest : Bytes) (next : Reader ℕ)
    (r : Result Emitted × ChannelDecoder)
    → push_byte byte m.rx_channels ≡ r
    → Idle ps (byte ∷ rest) m
    → KeepsIdle ps rest next
    → Kept m (after_byte rest next m r)
after_byte-Kept m ps byte rest next (err e, d) h (hp, hr, he, hb) k = inr (
  refl,
  ap (λ (t : Bytes). m.read_capture ++ (m.replay ++ (queued m.rx_events ++ t)))
      (heard_first m byte rest (err e, d) h hb),
)
after_byte-Kept m ps byte rest next (ok (first, second), d) h (hp, hr, he, hb) k =
    take_byte-Kept m ps rest next second d (first_byte first) (hp, hr, he, refl) k
      (backlog_idle m hr he
        ∙ ap (λ (t : Bytes). m.read_capture ++ t)
            (heard_first m byte rest (ok (first, second), d) h hb))

from_buffer-Kept :
    (bytes : Bytes) (m : Main) (ps : List Poll) (next : Reader ℕ)
    → Idle ps bytes m
    → KeepsIdle ps [] next
    → Kept m (from_buffer bytes next m)
unfolding from_buffer
from_buffer-Kept [] m ps next (hp, hr, he, hb) k =
    Kept-trans m (record m { rx_buf = [] }) _
      (
        refl,
        ap
            (λ (t : Bytes).
              m.read_capture
              ++ (m.replay ++ (queued m.rx_events ++ audio (t ++ arrived m.polls) m.rx_channels)))
            hb,
      )
      (k (record m { rx_buf = [] }) (hp, hr, he, refl))
from_buffer-Kept (byte ∷ rest) m ps next h k =
    after_byte-Kept m ps byte rest (from_buffer rest next) (push_byte byte m.rx_channels) refl h
      (λ s hs. from_buffer-Kept rest s ps next hs k)

after_read-Kept :
    (o : ReadOutcome) (reconnecting : Bool) (m : Main) (ps : List Poll) (again : Reader ℕ)
    → arrived m.polls ≡ outcome_bytes o ++ arrived ps
    → (m.replay ≡ []) × (m.rx_events ≡ []) × (m.rx_buf ≡ [])
    → KeepsIdle ps [] again
    → Kept m (after_read o again (record m { polls = ps; reconnecting = reconnecting }))
after_read-Kept (quiet passed) reconnecting m ps again hp (hr, he, hb) k =
    if-Kept m (m.bounded && passed) _ _ (inr kept) (
      if-Kept m reconnecting _ _ (inr kept)
        (Kept-trans m s (again s) kept (k s (refl, hr, he, hb))))
  where
    s : Main
    s = record m { polls = ps; reconnecting = reconnecting }

    kept : Conserves m s
    kept = (
      refl,
      ap
          (λ (t : Bytes).
            m.read_capture
            ++ (m.replay ++ (queued m.rx_events ++ audio (m.rx_buf ++ t) m.rx_channels)))
          hp,
    )
after_read-Kept (received []) reconnecting m ps again hp h k = inr (
  refl,
  ap
      (λ (t : Bytes).
        m.read_capture ++ (m.replay ++ (queued m.rx_events ++ audio (m.rx_buf ++ t) m.rx_channels)))
      hp,
)
after_read-Kept (received (byte ∷ bytes)) reconnecting m ps again hp (hr, he, hb) k =
    Kept-trans m s (from_buffer (byte ∷ bytes) again s)
      (
        refl,
        ap
              (λ (t : Bytes).
                m.read_capture
                ++ (m.replay ++ (queued m.rx_events ++ audio (m.rx_buf ++ t) m.rx_channels)))
              hp
            ∙ ap
                (λ (t : Bytes).
                  m.read_capture
                  ++ (m.replay
                      ++ (queued m.rx_events
                          ++ audio (t ++ (byte ∷ bytes ++ arrived ps)) m.rx_channels)))
                hb,
      )
      (from_buffer-Kept (byte ∷ bytes) s ps again (refl, hr, he, refl) k)
  where
    s : Main
    s = record m { polls = ps; reconnecting = reconnecting; rx_buf = byte ∷ bytes }
after_read-Kept broken reconnecting m ps again hp h k = inr (
  refl,
  ap
      (λ (t : Bytes).
        m.read_capture ++ (m.replay ++ (queued m.rx_events ++ audio (m.rx_buf ++ t) m.rx_channels)))
      hp,
)

wait-Kept : (ps : List Poll) → KeepsIdle ps [] (wait ps)
unfolding wait
wait-Kept [] m h = (refl, refl)
wait-Kept (p ∷ ps) m h =
    if-Kept m (p.late && m.bounded) _ _
      (inr (
        refl,
        ap
            (λ (t : List Poll).
              m.read_capture
              ++ (m.replay ++ (queued m.rx_events ++ audio (m.rx_buf ++ arrived t) m.rx_channels)))
            h.0,
      ))
      (after_read-Kept p.outcome (m.reconnecting || p.reconnects) m ps (wait ps) (ap arrived h.0)
        (h.1, h.2, h.3) (wait-Kept ps))

from_replay-Kept : (bytes : Bytes) (m : Main) → m.replay ≡ bytes → Kept m (from_replay bytes m)
from_replay-Kept (value ∷ rest) m h =
    emit-Kept m (record m { replay = rest }) value
      (
        refl,
        ap (λ (t : Bytes). m.read_capture ++ (t ++ held)) h
            ∙ sym (append_assoc m.read_capture (value ∷ []) (rest ++ held)),
      )
  where
    held : Bytes
    held = queued m.rx_events ++ audio (m.rx_buf ++ arrived m.polls) m.rx_channels
from_replay-Kept [] m h =
    take_event-Kept m (pop_event m.rx_events) (λ s. from_buffer s.rx_buf (wait s.polls) s) h
      (pop_event-Popped m.rx_events)
      (from_buffer-Kept m.rx_buf (record m { rx_events = [] }) m.polls (wait m.polls)
        (refl, h, refl, refl) (wait-Kept m.polls))

decode_next_inner-Keeps : Keeps decode_next_inner
unfolding decode_next_inner
decode_next_inner-Keeps m =
    if-Kept m m.reconnecting _ _ (inr (refl, refl)) (from_replay-Kept m.replay m refl)

tee-Keeps : (cap : Option Bytes) (byte : ℕ) → Keeps (tee cap byte)
tee-Keeps none byte m = (refl, refl)
tee-Keeps (some cap) byte m = if-Kept m (has_capacity (length cap)) _ _ (refl, refl) (inl refl)

pub decode_next-Keeps : Keeps decode_next
unfolding decode_next
decode_next-Keeps =
    bind-Keeps decode_next_inner _ decode_next_inner-Keeps (λ byte m. tee-Keeps m.capture byte m)
