-- ===== src/Reader/Backlog.antt =====
-- The bytes of the Audio Engine channel that a console still holds, and calls that lose none of them.
use libwing.Prelude.{ℕ, ◌≡◌, ◌∙◌, ◌⊎◌, inl, inr, Option, none, some, List, [], ◌∷◌, ◌++◌}
use libwing.Prelude.BigEndian.{Bytes}
use libwing.Outcome.{Result, ok, err, invalid_data}
use libwing.Native.Channel.{ChannelDecoder, ChannelEvent, Emitted, push_byte}
use libwing.Reader.{
  Main, Poll, ReadOutcome, quiet, received, broken, Run, blocked, done, Reader, and_then, ◌>>=◌,
}
use libwing.Reader.Decode.{audio_byte, first_byte}

abbrev pub optional : Option ℕ → Bytes
optional none = []
optional (some value) = value ∷ []

abbrev pub queued : List ChannelEvent → Bytes
queued [] = []
queued (event ∷ events) = optional (audio_byte event) ++ queued events

-- What a byte off the socket adds; one that the decoder refuses adds nothing.
abbrev pub heard : Result Emitted × ChannelDecoder → (ChannelDecoder → Bytes) → Bytes
heard (err e, d) later = later d
heard (ok (first, second), d) later =
    optional (first_byte first) ++ (optional (first_byte second) ++ later d)

abbrev pub audio : Bytes → ChannelDecoder → Bytes
audio [] d = []
audio (byte ∷ bytes) d = heard (push_byte byte d) (audio bytes)

abbrev pub outcome_bytes : ReadOutcome → Bytes
outcome_bytes (quiet passed) = []
outcome_bytes (received bytes) = bytes
outcome_bytes broken = []

abbrev pub arrived : List Poll → Bytes
arrived [] = []
arrived (p ∷ ps) = outcome_bytes p.outcome ++ arrived ps

-- Every byte not yet delivered for good, in order: what a replay would start with, what is held and
-- what the socket has in store.
abbrev pub backlog : Main → Bytes
backlog m =
    m.read_capture
    ++ (m.replay ++ (queued m.rx_events ++ audio (m.rx_buf ++ arrived m.polls) m.rx_channels))

-- From `m` to `s` no byte was lost, repeated or moved.
abbrev pub Conserves : Main → Main → Type 0
Conserves m s = (m.pending ≡ s.pending) × (backlog m ≡ backlog s)

abbrev pub Kept {ℓ} : {A : Type ℓ} → Main → Run A → Type 0
Kept m (blocked s) = Conserves m s
Kept m (done (ok a) s) = Conserves m s
Kept m (done (err e) s) = (e ≡ invalid_data) ⊎ Conserves m s

abbrev pub Keeps {ℓ} : {A : Type ℓ} → Reader A → Type 0
Keeps r = (m : Main) → Kept m (r m)

pub Conserves-trans : (m s t : Main) → Conserves m s → Conserves s t → Conserves m t
Conserves-trans m s t h k = (h.0 ∙ k.0, h.1 ∙ k.1)

pub Kept-trans {ℓ} : {A : Type ℓ} (m s : Main) (r : Run A) → Conserves m s → Kept s r → Kept m r
Kept-trans m s (blocked t) h k = Conserves-trans m s t h k
Kept-trans m s (done (ok a) t) h k = Conserves-trans m s t h k
Kept-trans m s (done (err e) t) h (inl p) = inl p
Kept-trans m s (done (err e) t) h (inr k) = inr (Conserves-trans m s t h k)

pub and_then-Kept {ℓ κ} :
    {A : Type ℓ} {B : Type κ} (m : Main) (r : Run A) (f : A → Reader B)
    → Kept m r
    → ((a : A) → Keeps (f a))
    → Kept m (and_then r f)
and_then-Kept m (blocked s) f h k = h
and_then-Kept m (done (ok a) s) f h k = Kept-trans m s (f a s) h (k a s)
and_then-Kept m (done (err e) s) f h k = h

pub bind-Keeps {ℓ κ} :
    {A : Type ℓ} {B : Type κ} (r : Reader A) (f : A → Reader B)
    → Keeps r
    → ((a : A) → Keeps (f a))
    → Keeps (r >>= f)
bind-Keeps r f h k m = and_then-Kept m (r m) f (h m) k
