-- ===== src/Reader/Next.antt =====
-- `decode_next` of src/console.rs over a healthy connection, as a whole.
use mathlib.Core.List.{append_cancel_left}
use libwing.Prelude.{
  ℕ, ◌<◌, ◌≡◌, ◌≢◌, refl, sym, ap, ◌∙◌, Option, none, some, [], ◌∷◌, ◌++◌, append_assoc, length,
}
use libwing.Prelude.BigEndian.{Bytes}
use libwing.Outcome.{ok, err}
use libwing.Reader.{Main, Run, blocked, done, and_then}
use libwing.Reader.Backlog.{arrived, Kept, audio, queued}
use libwing.Reader.Progress.{
  wait-Progress, from_buffer-Progress, take_event-Progress, emit-Progress, if_false-Progress,
  Progress, Calm, Fits,
}
use libwing.Prelude.Ints.{ℤ}
use libwing.Reader.Decode.{
  wait, pop_event, tee, from_replay, decode_next_inner, max_native_response_bytes, decode_next,
}
use libwing.Reader.Waits.{decode_next-Keeps}
use libwing.Reader.Kept.{pop_event-Popped}

-- What `decode_next` has still to return.
abbrev pub held : Main → Bytes
held m = m.replay ++ (queued m.rx_events ++ audio (m.rx_buf ++ arrived m.polls) m.rx_channels)

from_replay-Progress :
    (bytes : Bytes) (m : Main)
    → m.replay ≡ bytes
    → Fits m.read_capture
    → Calm m
    → held m ≢ []
    → Progress m.read_capture m.current_node_id (from_replay bytes m)
from_replay-Progress (value ∷ rest) m hr h k n =
    emit-Progress (record m { replay = rest }) value m.read_capture m.current_node_id h refl refl k
from_replay-Progress [] m hr h k n =
    take_event-Progress m (pop_event m.rx_events) _ m.read_capture m.current_node_id
      (pop_event-Popped m.rx_events) h refl refl k
      (λ e.
        from_buffer-Progress m.rx_buf m.read_capture m.current_node_id m.polls (wait m.polls)
          (record m { rx_events = [] }) h
          (
            refl,
            refl,
            k.0,
            k.1,
            refl,
            refl,
            k.2,
            λ z. n (
                ap (λ (t : Bytes). t ++ held_off) hr
                ∙ ap (λ (t : Bytes). t ++ audio (m.rx_buf ++ arrived m.polls) m.rx_channels) e
                ∙ z),
          )
          (wait-Progress m.polls m.read_capture m.current_node_id h))
  where
    held_off : Bytes
    held_off = queued m.rx_events ++ audio (m.rx_buf ++ arrived m.polls) m.rx_channels

tee-Progress :
    (capture : Bytes) (node : ℤ) (run : Run ℕ)
    → Progress capture node run
    → Progress capture node (and_then run (λ byte m. tee m.capture byte m))
tee-Progress capture node (blocked s) p = p
tee-Progress capture node (done (err e) s) p = p
tee-Progress capture node (done (ok value) s) p = go s.capture p.2.0.2
  where
    go : (cap : Option Bytes) → cap ≡ none → Progress capture node (tee cap value s)
    go none h = p
    go (some bytes) h = absurd cc

decode_next-Progress :
    (m : Main)
    → Fits m.read_capture
    → Calm m
    → held m ≢ []
    → Progress m.read_capture m.current_node_id (decode_next m)
unfolding decode_next decode_next_inner
decode_next-Progress m h k n = tee-Progress m.read_capture m.current_node_id _ (
    if_false-Progress m.read_capture m.current_node_id m.reconnecting _ _ k.0.0
      (from_replay-Progress m.replay m refl h k n))

head_eq : {x y : ℕ} {xs ys : Bytes} → x ∷ xs ≡ y ∷ ys → x ≡ y
head_eq h = cc

tail_eq : {x y : ℕ} {xs ys : Bytes} → x ∷ xs ≡ y ∷ ys → xs ≡ ys
tail_eq h = cc

-- A call that returns `v` from `m`, with `out` still to come.
abbrev pub Returns {ℓ} : {A : Type ℓ} → Main → Bytes → A → Bytes → Run A → Type ℓ
Returns m bytes v out run =
    (s : Main) × (run ≡ done (ok v) s)
    × Calm s
    × (held s ≡ out)
    × (s.read_capture ≡ m.read_capture ++ bytes)
    × (s.current_node_id ≡ m.current_node_id)

returned :
    (m : Main) (b : ℕ) (out : Bytes) (run : Run ℕ)
    → held m ≡ b ∷ out
    → Kept m run
    → Progress m.read_capture m.current_node_id run
    → Returns m (b ∷ []) b out run
returned m b out (blocked s) h k p = absurd p
returned m b out (done (err e) s) h k p = absurd p
returned m b out (done (ok value) s) h k p = (
  s,
  ap (λ (t : ℕ). done (ok t) s) (sym (head_eq same)),
  p.2,
  sym (tail_eq same),
  p.0 ∙ ap (λ (t : ℕ). m.read_capture ++ t ∷ []) (sym (head_eq same)),
  p.1,
)
  where
    same : b ∷ out ≡ value ∷ held s
    same =
        sym h
        ∙ append_cancel_left m.read_capture (held m) (value ∷ held s) (
            k.1
            ∙ ap (λ (t : Bytes). t ++ held s) p.0
            ∙ append_assoc m.read_capture (value ∷ []) (held s))

-- On a usable stream without a deadline, capture, reconnect or pending response, whose bytes the
-- channel decoder accepts, while fewer than 16 MiB are held back for a replay: where an Audio Engine byte is queued, buffered or on its way,
-- `decode_next` returns the first of them, whatever the pieces and pauses, holds it back for a
-- replay, and leaves the others.
pub decode_next-next :
    (m : Main) (b : ℕ) (out : Bytes)
    → length m.read_capture < max_native_response_bytes
    → Calm m
    → held m ≡ b ∷ out
    → Returns m (b ∷ []) b out (decode_next m)
decode_next-next m b out h k e =
    returned m b out (decode_next m) e (decode_next-Keeps m) (decode_next-Progress m h k (λ z. cc))
