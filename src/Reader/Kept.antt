-- ===== src/Reader/Kept.antt =====
-- `decode_next` of src/console.rs loses no byte: each of its steps, for `Reader.Backlog`.
use libwing.Prelude.{
  length, if◌then◌else◌, ℕ, ◌≡◌, refl, ap, ◌∙◌, inl, Bool, true, false, Option, none, some, List,
  [], ◌∷◌, ◌++◌, append_assoc,
}
use libwing.Reader.{Reader, Main, Run}
use libwing.Native.Channel.{ChannelEvent}
use libwing.Reader.Decode.{take_event, popped, has_capacity, audio_byte, emit, pop_event}
use libwing.Reader.Backlog.{arrived, audio, Kept-trans, optional, Conserves, Kept, queued, Keeps}
use libwing.Prelude.BigEndian.{Bytes}

pub if-Kept {ℓ} :
    {A : Type ℓ} (m : Main) (b : Bool) (x y : Run A)
    → Kept m x
    → Kept m y
    → Kept m (if b then x else y)
if-Kept m true x y hx hy = hx
if-Kept m false x y hx hy = hy

pub if-Keeps {ℓ} :
    {A : Type ℓ} (b : Bool) (x y : Reader A) → Keeps x → Keeps y → Keeps (if b then x else y)
if-Keeps true x y hx hy = hx
if-Keeps false x y hx hy = hy

pub emit-Kept :
    (m s : Main) (value : ℕ)
    → Conserves m (record s { read_capture = s.read_capture ++ value ∷ [] })
    → Kept m (emit value s)
unfolding emit
emit-Kept m s value h = if-Kept m (has_capacity (length s.read_capture)) _ _ h (inl refl)

-- What `pop_event` leaves of the queue's bytes.
unfoldable pub Popped : List ChannelEvent → Option (ℕ × List ChannelEvent) → Type 0
Popped events none = queued events ≡ []
Popped events (some (value, rest)) = queued events ≡ value ∷ queued rest

popped-Popped :
    (o : Option ℕ) (events : List ChannelEvent) (later : Option (ℕ × List ChannelEvent))
    (all : List ChannelEvent)
    → queued all ≡ optional o ++ queued events
    → Popped events later
    → Popped all (popped o events later)
unfolding Popped
popped-Popped (some value) events later all h k = h
popped-Popped none events none all h k = h ∙ k
popped-Popped none events (some (value, rest)) all h k = h ∙ k

pub pop_event-Popped : (events : List ChannelEvent) → Popped events (pop_event events)
unfolding Popped pop_event
pop_event-Popped [] = refl
pop_event-Popped (event ∷ events) =
    popped-Popped (audio_byte event) events (pop_event events) (event ∷ events) refl
      (pop_event-Popped events)

pub take_event-Kept :
    (m : Main) (o : Option (ℕ × List ChannelEvent)) (next : Reader ℕ)
    → m.replay ≡ []
    → Popped m.rx_events o
    → Kept (record m { rx_events = [] }) (next (record m { rx_events = [] }))
    → Kept m (take_event o next m)
unfolding Popped
take_event-Kept m none next hr hp hn =
    Kept-trans m (record m { rx_events = [] }) (next (record m { rx_events = [] }))
      (
        refl,
        ap
            (λ (t : Bytes).
              m.read_capture
              ++ (m.replay ++ (t ++ audio (m.rx_buf ++ arrived m.polls) m.rx_channels)))
            hp,
      )
      hn
take_event-Kept m (some (value, events)) next hr hp hn =
    emit-Kept m (record m { rx_events = events }) value
      (
        refl,
        ap
              (λ (t : Bytes).
                m.read_capture
                ++ (m.replay ++ (t ++ audio (m.rx_buf ++ arrived m.polls) m.rx_channels)))
              hp
            ∙ moved m.read_capture m.replay value
                (queued events ++ audio (m.rx_buf ++ arrived m.polls) m.rx_channels) hr,
      )
  where
    moved :
        (capture replay : Bytes) (v : ℕ) (rest : Bytes)
        → replay ≡ []
        → capture ++ (replay ++ v ∷ rest) ≡ (capture ++ v ∷ []) ++ (replay ++ rest)
    moved capture replay v rest h = rw (h, append_assoc capture (v ∷ []) rest)
