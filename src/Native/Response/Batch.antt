-- ===== src/Native/Response/Batch.antt =====
-- A batch of responses, encoded one by one within a limit, against its encoding as a whole.
use libwing.Prelude.{
  ℕ, ◌+◌, ◌<◌, ◌≤◌, ◌≡◌, refl, sym, ◌∙◌, ap, Option, none, some, List, [], ◌∷◌, ◌++◌, map, length,
  length-append, ltb, leb, ◌==◌, usize_max, if◌then◌else◌, Bool-cases, inl, inr, arith,
  lt→leb_false, leb_false→lt, lt→ltb, le→ltb_false, le→leb, leb→le, ltb→lt, ltb_false→le,
}
use mathlib.Core.Option.{some-injective, some-ne-none}
use libwing.Prelude.BigEndian.{Bytes}
use libwing.Outcome.{Result, ok, err, invalid_input, bind, Result-cases}
use libwing.Native.Channel
use libwing.Native.Channel.{selected, payload, ChannelDecoder}
use libwing.Native.Channel.RoundTrip.{
  escaped, escaped-append, append_escaped-escaped, frame, push-frame, on_channel,
}
use libwing.Native.Response.{
  NativeResponse, BoundedResponseEncoder, new, escaped_len, encode_response, append, push, finish,
  push_all, encode_responses_bounded,
}

-- `Result::ok`.
abbrev pub to_option {ℓ} : {A : Type ℓ} → Result A → Option A
to_option (ok a) = some a
to_option (err e) = none

abbrev pub tokens_then : (Bytes → Option Bytes) → Result Bytes → Option Bytes
tokens_then rest (ok encoded) = rest encoded
tokens_then rest (err e) = none

-- The unescaped tokens of a whole batch, after those of `before`.
unfoldable pub tokens : Bytes → List NativeResponse → Option Bytes
tokens before [] = some before
tokens before (r ∷ rs) = tokens_then (λ encoded. tokens (before ++ encoded) rs) (encode_response r)

abbrev pub within : ℕ → Option Bytes → Option Bytes
within max none = none
within max (some bs) = if leb (length (frame 1 bs)) max then some (frame 1 bs) else none

length-escaped : (bs : Bytes) → length (escaped bs) ≡ escaped_len bs
unfolding escaped escaped_len
length-escaped [] = refl
length-escaped (b ∷ bs) = elim (Bool-cases (b == 0xdf)) [
  | inl e ↦ rw e (omega (arith, length-escaped bs))
  | inr e ↦ rw e (omega (arith, length-escaped bs))
]

length-frame : (bs : Bytes) → length (frame 1 bs) ≡ 2 + escaped_len bs
unfolding frame
length-frame bs = omega (arith, length-escaped bs)

length-frame_append : (a b : Bytes) → length (frame 1 (a ++ b)) ≡ length (frame 1 a) + escaped_len b
unfolding frame
length-frame_append a b =
    rw (escaped-append a b) (omega (arith, length-append (escaped a) (escaped b), length-escaped b))

-- `wire_len` is the length of the frame that the tokens so far make.
abbrev pub IsExact : BoundedResponseEncoder → Type 0
IsExact e = e.wire_len ≡ length (frame 1 e.payload)

-- A batch that is too long already stays too long.
within_too_long :
    (max : ℕ) (before : Bytes) (rs : List NativeResponse)
    → max < length (frame 1 before)
    → within max (tokens before rs) ≡ none
unfolding tokens
within_too_long max before [] h = rw (lt→leb_false (length (frame 1 before)) max h)
within_too_long max before (r ∷ rs) h = elim (Result-cases (encode_response r)) [
  | inl (enc, e) ↦
      rw e (within_too_long max (before ++ enc) rs (omega (arith, length-frame_append before enc)))
  | inr (x, e) ↦ rw e refl
]

append-ok :
    (e : BoundedResponseEncoder) (enc : Bytes)
    → e.max_wire_bytes < usize_max
    → e.wire_len + escaped_len enc ≤ e.max_wire_bytes
    → append e enc
      ≡ ok (record e { payload = e.payload ++ enc; wire_len = e.wire_len + escaped_len enc })
append-ok e enc h fits = rw (
  le→leb (e.wire_len + escaped_len enc) usize_max (omega arith),
  le→ltb_false e.max_wire_bytes (e.wire_len + escaped_len enc) (omega arith),
)

append-err :
    (e : BoundedResponseEncoder) (enc : Bytes)
    → e.max_wire_bytes < usize_max
    → e.max_wire_bytes < e.wire_len + escaped_len enc
    → append e enc ≡ err invalid_input
append-err e enc h over = elim (Bool-cases (leb (e.wire_len + escaped_len enc) usize_max)) [
  | inl b ↦ rw (b, lt→ltb e.max_wire_bytes (e.wire_len + escaped_len enc) over)
  | inr b ↦ rw (b, lt→ltb e.max_wire_bytes usize_max h)
]

finish-within :
    (e : BoundedResponseEncoder)
    → IsExact e
    → to_option (finish e) ≡ within e.max_wire_bytes (some e.payload)
unfolding finish frame
finish-within e x = elim (Bool-cases (ltb e.max_wire_bytes e.wire_len)) [
  | inl b ↦ rw (
    b,
    lt→leb_false (length (frame 1 e.payload)) e.max_wire_bytes
        (omega (arith, x, ltb→lt e.max_wire_bytes e.wire_len b)),
  )
  | inr b ↦ rw (
    b,
    le→leb (length (frame 1 e.payload)) e.max_wire_bytes
        (omega (arith, x, ltb_false→le e.max_wire_bytes e.wire_len b)),
    append_escaped-escaped (0xdf ∷ 0xd1 ∷ []) e.payload,
  )
]

push_all-within :
    (rs : List NativeResponse) (e : BoundedResponseEncoder)
    → IsExact e
    → e.max_wire_bytes < usize_max
    → to_option (bind (push_all rs e) finish) ≡ within e.max_wire_bytes (tokens e.payload rs)
unfolding push_all tokens push
push_all-within [] e x h = finish-within e x
push_all-within (r ∷ rs) e x h = elim (Result-cases (encode_response r)) [
  | inl (enc, eq) ↦ elim (Bool-cases (leb (e.wire_len + escaped_len enc) e.max_wire_bytes)) [
    | inl b ↦
        rw (eq, append-ok e enc h (leb→le (e.wire_len + escaped_len enc) e.max_wire_bytes b))
          (push_all-within rs
            (record e { payload = e.payload ++ enc; wire_len = e.wire_len + escaped_len enc })
            (ap (λ n. n + escaped_len enc) x ∙ sym (length-frame_append e.payload enc)) h)
    | inr b ↦
        rw (eq, append-err e enc h (leb_false→lt (e.wire_len + escaped_len enc) e.max_wire_bytes b))
          (sym (
            within_too_long e.max_wire_bytes (e.payload ++ enc) rs (
              omega (
                arith,
                x,
                length-frame_append e.payload enc,
                leb_false→lt (e.wire_len + escaped_len enc) e.max_wire_bytes b,
              ))))
  ]
  | inr (y, eq) ↦ rw eq refl
]

-- Below the largest usize as the limit, encoding a batch response by response gives exactly the
-- frame of all its tokens on the audio channel where every response has a token and that frame is
-- within the limit, and fails where not.
pub encode_responses_bounded-within :
    (rs : List NativeResponse) (max : ℕ)
    → max < usize_max
    → to_option (encode_responses_bounded rs max) ≡ within max (tokens [] rs)
unfolding encode_responses_bounded escaped_len
encode_responses_bounded-within rs max h = push_all-within rs (new max) (sym (length-frame [])) h

within-some :
    (max : ℕ) (o : Option Bytes) (out : Bytes)
    → some out ≡ within max o
    → (bs : Bytes) × (o ≡ some bs) × (length out ≤ max) × (out ≡ frame 1 bs)
within-some max none out h = absurd (some-ne-none out h)
within-some max (some bs) out h = elim (Bool-cases (leb (length (frame 1 bs)) max)) [
  | inl e ↦
      let same = some-injective out (frame 1 bs) (rw e at h) in
      (bs, refl, omega (arith, leb→le (length (frame 1 bs)) max e, ap length same), same)
  | inr e ↦ absurd (some-ne-none out (rw e at h))
]

-- A batch that encodes is one frame of its tokens on the audio channel.
pub encode_responses_bounded-frame :
    (rs : List NativeResponse) (max : ℕ) (wire : Bytes)
    → max < usize_max
    → encode_responses_bounded rs max ≡ ok wire
    → (bs : Bytes) × (tokens [] rs ≡ some bs) × (length wire ≤ max) × (wire ≡ frame 1 bs)
encode_responses_bounded-frame rs max wire h e =
    within-some max (tokens [] rs) wire
      (ap to_option (sym e) ∙ encode_responses_bounded-within rs max h)

-- A batch that encodes is within its limit, below the largest usize, and a channel decoder reads it
-- as the selection of the audio channel and then the tokens of the batch's responses in order.
pub push-encode_responses_bounded :
    (rs : List NativeResponse) (max : ℕ) (wire : Bytes)
    → max < usize_max
    → encode_responses_bounded rs max ≡ ok wire
    → (bs : Bytes) × (length wire ≤ max)
      × (tokens [] rs ≡ some bs)
      × (Channel.push wire Channel.default ≡ (ok (selected 1 ∷ map (payload 1) bs), on_channel 1))
push-encode_responses_bounded rs max wire h e =
    let (bs, e_bs, fits, same) = encode_responses_bounded-frame rs max wire h e in
    (bs, fits, e_bs, rw same (push-frame 1 bs none (omega arith)))
