-- ===== src/Reader/Batch.antt =====
-- A whole batch of `encode_responses_bounded` of src/native.rs, read by `read` of src/console.rs.
use mathlib.Core.Option.{some-injective}
use mathlib.Core.Path.{subst⁻¹}
use libwing.Prelude.{
  if◌then◌else◌, usize_max, ℕ, zero, suc, ◌<◌, ◌≤◌, ◌≡◌, refl, sym, ap, ◌∙◌, List, [], ◌∷◌, ◌++◌,
  append_assoc, append-nil, length, length-append, arith, false, Option, none, some, All, map,
}
use libwing.Prelude.BigEndian.{Bytes}
use libwing.Outcome.{
  connection_error, reconnecting, ok, err, Result, bind-eq-ok, ok-injective, err-ne-ok,
}
use libwing.Native.Channel
use libwing.Native.Channel.{
  push_byte, flatten, Emitted, ChannelDecoder, ChannelEvent, selected, payload,
}
use libwing.Native.Response.{encode_responses_bounded, NativeResponse, encode_response}
use libwing.Reader.{Main, Run, done, and_then, ◌>>=◌, WingResponse, pure, Reader}
use libwing.Reader.Response.{finish_read, budget, read_inner, from_pending, read_locked}
use libwing.Reader.Progress.{Calm, Accepted, CalmPoll, Decodes, Flags}
use libwing.Reader.Delivery.{response-Answers, IsResponse, Answers, ReadAs}
use libwing.Native.Response.Batch.{encode_responses_bounded-frame, tokens_then, tokens}
use libwing.Reader.Backlog.{optional, heard, arrived, audio, queued}
use libwing.Native.Channel.Stream.{push_nil, push_cons, prepend}
use libwing.Reader.Decode.{first_byte}
use libwing.Reader.Next.{held}
use libwing.Reader.Size.{held-budget, encode_response-Sized, Sized}
use libwing.Native.Channel.RoundTrip.{on_channel, push-frame}

-- `read` once per response.
unfoldable pub read_all : ℕ → Reader (List WingResponse)
read_all zero = pure []
read_all (suc n) = read_locked >>= λ w. read_all n >>= λ ws. pure (w ∷ ws)

-- No byte is held, the channel decoder is not inside an escape sequence, on whatever channel it is,
-- and the socket brings exactly `wire`, in any pieces.
abbrev pub Brings : Bytes → Main → Type 0
Brings wire m =
    Flags m
    × All CalmPoll m.polls
    × (m.replay ≡ [])
    × (m.rx_events ≡ [])
    × (m.rx_channels.escaped ≡ false)
    × (m.rx_buf ++ arrived m.polls ≡ wire)

abbrev pub AllReadAs : List NativeResponse → List WingResponse → Type 0
AllReadAs [] [] = Unit
AllReadAs [] (w ∷ ws) = ⊥
AllReadAs (r ∷ rs) [] = ⊥
AllReadAs (r ∷ rs) (w ∷ ws) = ReadAs r w × AllReadAs rs ws

-- The tokens of a batch, one response after the other.
abbrev Split : List NativeResponse → Bytes → Type 0
Split [] bs = bs ≡ []
Split (r ∷ rs) bs =
    (encoded : Bytes) × (rest : Bytes) × (encode_response r ≡ ok encoded)
    × (bs ≡ encoded ++ rest)
    × Split rs rest

tokens-Split :
    (rs : List NativeResponse) (before bs : Bytes)
    → tokens before rs ≡ some bs
    → (rest : Bytes) × (bs ≡ before ++ rest) × Split rs rest
unfolding tokens
tokens-Split [] before bs e = ([], sym (some-injective before bs e) ∙ sym (append-nil before), refl)
tokens-Split (r ∷ rs) before bs e = go (encode_response r) refl (λ b p. tokens-Split rs b bs p) e
  where
    go :
        (o : Result Bytes)
        → encode_response r ≡ o
        → ((b : Bytes) → tokens b rs ≡ some bs → (rest : Bytes) × (bs ≡ b ++ rest) × Split rs rest)
        → tokens_then (λ encoded. tokens (before ++ encoded) rs) o ≡ some bs
        → (rest : Bytes) × (bs ≡ before ++ rest) × Split (r ∷ rs) rest
    go (err x) h ih p = absurd cc
    go (ok encoded) h ih p =
        let (rest, same, split) = ih (before ++ encoded) p in
        (encoded ++ rest, same ∙ append_assoc before encoded rest, (encoded, rest, h, refl, split))

queued-flatten :
    (first second : Option ChannelEvent) (new : List ChannelEvent)
    → queued (flatten (first, second) ++ new)
      ≡ optional (first_byte first) ++ (optional (first_byte second) ++ queued new)
queued-flatten none none new = refl
queued-flatten none (some b) new = refl
queued-flatten (some a) none new = refl
queued-flatten (some a) (some b) new = refl

-- What `push` accepts, `decode_next` hears.
push-Decodes :
    (wire : Bytes) (d d' : ChannelDecoder) (events : List ChannelEvent)
    → Channel.push wire d ≡ (ok events, d')
    → Decodes wire d × (audio wire d ≡ queued events)
push-Decodes [] d d' events e = (
  tt,
  ap queued (
      ok-injective
        (ap (λ (q : Result (List ChannelEvent) × ChannelDecoder). q.0) (sym (push_nil d) ∙ e))),
)
push-Decodes (byte ∷ wire) d d' events e =
    go (push_byte byte d) (λ s t new h. push-Decodes wire s t new h)
      (sym (push_cons byte wire d) ∙ e)
  where
    go :
        (r : Result Emitted × ChannelDecoder)
        → ((s t : ChannelDecoder) (new : List ChannelEvent)
            → Channel.push wire s ≡ (ok new, t)
            → Decodes wire s × (audio wire s ≡ queued new))
        → libwing.Outcome.and_then r (λ em s. prepend (flatten em) (Channel.push wire s))
          ≡ (ok events, d')
        → Accepted r (Decodes wire) × (heard r (audio wire) ≡ queued events)
    go (err x, s) ih p = absurd cc
    go (ok (first, second), s) ih p = rest (Channel.push wire s) refl p
      where
        rest :
            (q : Result (List ChannelEvent) × ChannelDecoder)
            → Channel.push wire s ≡ q
            → prepend (flatten (first, second)) q ≡ (ok events, d')
            → Decodes wire s
              × (optional (first_byte first) ++ (optional (first_byte second) ++ audio wire s)
                  ≡ queued events)
        rest (err x, t) h p = absurd cc
        rest (ok new, t) h p =
            let (decodes, same) = ih s t new h in
            (
              decodes,
              ap (λ (b : Bytes). optional (first_byte first) ++ (optional (first_byte second) ++ b))
                    same
                  ∙ sym (queued-flatten first second new)
                  ∙ ap queued (
                      ok-injective
                        (ap (λ (q : Result (List ChannelEvent) × ChannelDecoder). q.0) p)),
            )

queued_tokens : (bs : Bytes) → queued (map (payload 1) bs) ≡ bs
queued_tokens [] = refl
queued_tokens (b ∷ bs) = ap (λ (t : Bytes). b ∷ t) (queued_tokens bs)

Flags-eq : (m : Main) → Flags m → read_locked m ≡ from_pending [] m
unfolding read_locked
Flags-eq m h =
    ap (λ b. if b then done (err connection_error) m else rest) h.3
    ∙ ap (λ b. if b then done (err reconnecting) m else from_pending m.pending m) h.0
    ∙ ap (λ (p : List WingResponse). from_pending p m) h.4
  where
    rest : Run WingResponse
    rest = if m.reconnecting then done (err reconnecting) m else from_pending m.pending m

-- One call of `read`.
abbrev ReceivedAs : NativeResponse → Bytes → Run WingResponse → Type 0
ReceivedAs r out run =
    (w : WingResponse) × (s : Main) × (run ≡ done (ok w) s) × ReadAs r w × Calm s × (held s ≡ out)

-- For a response as its Rust type has it, except that the low four bits of a definition's unknown type
-- are 8 to 15, on a usable stream without a deadline, capture, reconnect or pending response, whose
-- bytes the channel decoder accepts: where the bytes still to be read start with those of the encoded
-- response, in whatever pieces they arrive, `read` returns that response, a definition as its bytes
-- have it, and leaves what follows.
pub read_locked-encode_response :
    (r : NativeResponse) (bs out : Bytes) (m : Main)
    → IsResponse r
    → encode_response r ≡ ok bs
    → Calm m
    → held m ≡ bs ++ out
    → (w : WingResponse) × (s : Main) × (read_locked m ≡ done (ok w) s)
      × ReadAs r w
      × Calm s
      × (held s ≡ out)
unfolding Answers read_inner
read_locked-encode_response r bs out m hr e calm h = enough (budget start) refl (held-budget start)
  where
    start : Main
    start = record m { read_capture = [] }

    size : Sized bs
    size = encode_response-Sized r bs e

    finished : Answers out r (suc (budget start)) start → ReceivedAs r out (read_locked m)
    finished (w, node, hw, (s, run, (hc, hh, room, hn))) = (
      w,
      record s { read_capture = [] },
      Flags-eq m calm.0 ∙ ap (finish_read m.current_node_id) run,
      hw,
      hc,
      hh,
    )

    enough : (n : ℕ) → budget start ≡ n → length (held start) ≤ n → ReceivedAs r out (read_locked m)
    enough zero p q =
        absurd (omega (arith, size.0, q, ap (λ (t : Bytes). length t) h, length-append bs out))
    enough (suc n) p q = finished (
        subst⁻¹ (λ k. Answers out r (suc k) start) p
          (response-Answers out m.current_node_id r bs n start hr e
            (calm, h, omega (arith, size.1), refl)))

read_all-Split :
    (rs : List NativeResponse) (bs : Bytes) (m : Main)
    → All IsResponse rs
    → Split rs bs
    → Calm m
    → held m ≡ bs
    → (ws : List WingResponse) × (s : Main) × (read_all (length rs) m ≡ done (ok ws) s)
      × AllReadAs rs ws
      × Calm s
      × (held s ≡ [])
unfolding read_all
read_all-Split [] bs m hr e calm h = ([], m, refl, tt, calm, h ∙ e)
read_all-Split (r ∷ rs) bs m (hr, hrs) (encoded, rest, e, same, split) calm h =
    let (w, s, run, hw, calm', h') =
      read_locked-encode_response r encoded rest m hr e calm (h ∙ same) in
    let (ws, t, runs, hws, calm'', h'') = read_all-Split rs rest s hrs split calm' h' in
    (
      w ∷ ws,
      t,
      ap (λ (v : Run WingResponse). and_then v (λ w. read_all (length rs) >>= λ ws. pure (w ∷ ws)))
            run
          ∙ ap (λ (v : Run (List WingResponse)). and_then v (λ ws. pure (w ∷ ws))) runs,
      (hw, hws),
      calm'',
      h'',
    )

-- The channel decoder outside any escape sequence.
abbrev unescaped : Main → ChannelDecoder
unescaped m = record { escaped = false; channel = m.rx_channels.channel }

unescaped-same : (m : Main) → m.rx_channels.escaped ≡ false → m.rx_channels ≡ unescaped m
unescaped-same m h = ap (λ b. record { escaped = b; channel = m.rx_channels.channel }) h

-- For a limit below the largest usize and responses as their Rust types have them, except that the low
-- four bits of a definition's unknown type are 8 to 15: the bytes of an encoded batch, arriving in
-- whatever pieces and with whatever pauses at a client that holds none, whose channel decoder is on
-- any channel or none and not inside an escape sequence, and that has no deadline, capture, reconnect
-- or pending response, are read as exactly its responses, in order, a definition as its bytes have it,
-- and nothing is left.
pub read_all-encode_responses_bounded :
    (rs : List NativeResponse) (max : ℕ) (wire : Bytes) (m : Main)
    → max < usize_max
    → All IsResponse rs
    → encode_responses_bounded rs max ≡ ok wire
    → Brings wire m
    → (ws : List WingResponse) × (s : Main) × (read_all (length rs) m ≡ done (ok ws) s)
      × AllReadAs rs ws
      × Calm s
      × (held s ≡ [])
read_all-encode_responses_bounded rs max wire m h hr e (hf, hp, hreplay, hevents, hd, hw) =
    let (bs, e_bs, fits, framed) = encode_responses_bounded-frame rs max wire h e in
    let (decodes, same) =
      push-Decodes wire (unescaped m) (on_channel 1) (selected 1 ∷ map (payload 1) bs) (
        ap (λ (b : Bytes). Channel.push b (unescaped m)) framed
        ∙ push-frame 1 bs m.rx_channels.channel (omega arith)) in
    let (rest, e_rest, split) = tokens-Split rs [] bs e_bs in
    read_all-Split rs bs m hr (subst⁻¹ (Split rs) e_rest split)
      (
        hf,
        hp,
        subst⁻¹ (λ (b : Bytes). Decodes b m.rx_channels) hw
            (subst⁻¹ (Decodes wire) (unescaped-same m hd) decodes),
      )
      (ap
          (λ (b : Bytes).
            b ++ (queued m.rx_events ++ audio (m.rx_buf ++ arrived m.polls) m.rx_channels))
          hreplay
        ∙ ap
            (λ (events : List ChannelEvent).
              queued events ++ audio (m.rx_buf ++ arrived m.polls) m.rx_channels)
            hevents
        ∙ ap (λ (b : Bytes). audio b m.rx_channels) hw
        ∙ ap (audio wire) (unescaped-same m hd)
        ∙ same
        ∙ queued_tokens bs)
