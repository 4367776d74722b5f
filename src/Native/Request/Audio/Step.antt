-- ===== src/Native/Request/Audio/Step.antt =====
-- The outcome of a pass of `parse_audio` for every opcode.
use libwing.Prelude.{
  leb→le, ltb_false→le, ltb→lt, sym, ap, refl, take?, false, ltb, suc, true, ℕ, ◌+◌, ◌-◌, ◌≤◌, ◌≡◌,
  [], ◌∷◌, leb, ◌==◌, length, arith,
}
use libwing.Prelude.BigEndian.{from_be, Bytes}
use libwing.Outcome.{ok_or, Result}
use libwing.Native.Request.{invalid_data, NativeRequestDecoder}
use libwing.Native.Request.Audio.{
  float_value, audio_step, audio_first, audio_token, long_string, drain, command_token, value_token,
  with_operand, AudioStep, low_token,
}
use libwing.Native.Value.{integer, string}
use mathlib.Core.Path.{subst}
use libwing.Prelude.Ints.{as_i32, as_i16, pos}
use libwing.Native.Request.Audio.Token.{long_len, name_bytes, token_len, Framed, Outcome, op_len}
use libwing.Native.Request.Audio.Rules.{
  push_path_name-Outcome, parse_string_token-Outcome, push_path_index-Outcome, wait-Outcome,
  with_operand-Outcome, and_then-Outcome, set_value-Outcome, if-Outcome,
}
use libwing.Native.Request.Audio.Path.{PathFits-pop}

module _ (op : ℕ) (rest : Bytes) (d : NativeRequestDecoder) (front : d.audio ≡ op ∷ rest) where
  buffered : length d.audio ≡ suc (length rest)
  buffered = ap length front

  -- To prove an outcome at the length that the opcode has.
  of_len :
      (need : ℕ) (r : Result AudioStep × NativeRequestDecoder)
      → op_len op rest ≡ need
      → Outcome need d r
      → Outcome (op_len op rest) d r
  of_len need r e h = subst (λ n. Outcome n d r) (sym e) h

  low_token-Outcome : op ≤ 0xcf → Outcome (op_len op rest) d (low_token op d)
  unfolding low_token
  low_token-Outcome h =
      if-Outcome _ d (leb op 0x3f) _ _
        (λ t.
          of_len 1 _ (op_len_one t)
            (set_value-Outcome 1 d (integer (pos op)) (omega (arith, buffered))))
        λ f0.
          if-Outcome _ d (leb op 0x7f) _ _
            (λ t.
              of_len 1 _ (op_len_path t)
                (push_path_index-Outcome 1 d (op - 0x3f) (omega (arith, buffered))))
            λ f1.
              if-Outcome _ d (leb op 0xbf) _ _
                (λ t. of_len (op - 0x7f + 1) _ (op_len_string f1 t) (
                  if-Outcome _ d (ltb (length d.audio) (op - 0x7f + 1)) _ _
                    (λ w. wait-Outcome _ d (ltb→lt (length d.audio) (op - 0x7f + 1) w))
                    (λ w.
                      parse_string_token-Outcome _ d (op - 0x7f) 1 (omega arith)
                        (ltb_false→le (length d.audio) (op - 0x7f + 1) w))))
                λ f2. of_len (op - 0xbf + 1) _ (op_len_name f2 h) (
                  if-Outcome _ d (ltb (length d.audio) (op - 0xbf + 1)) _ _
                    (λ w. wait-Outcome _ d (ltb→lt (length d.audio) (op - 0xbf + 1) w))
                    (λ w.
                      push_path_name-Outcome _ d (op - 0xbf) refl
                        (ltb_false→le (length d.audio) (op - 0xbf + 1) w)))
    where
      op_len_one : leb op 0x3f ≡ true → op_len op rest ≡ 1
      op_len_one t = unfold op_len in ground arith

      op_len_path : leb op 0x7f ≡ true → op_len op rest ≡ 1
      op_len_path t = unfold op_len in ground arith

      op_len_string : leb op 0x7f ≡ false → leb op 0xbf ≡ true → op_len op rest ≡ op - 0x7f + 1
      op_len_string f t = unfold op_len in ground arith

      op_len_name : leb op 0xbf ≡ false → op ≤ 0xcf → op_len op rest ≡ op - 0xbf + 1
      op_len_name f t = unfold op_len in ground arith

  value_token-Outcome : 0xd0 ≤ op → op ≤ 0xd6 → Outcome (op_len op rest) d (value_token op rest d)
  unfolding value_token
  value_token-Outcome lo hi =
      if-Outcome _ d (op == 0xd0) _ _
        (λ t. of_len 1 _ (one t) (set_value-Outcome 1 d (string []) (omega (arith, buffered))))
        λ f0.
          if-Outcome _ d (op == 0xd1) _ _
            (λ t. of_len (long_len rest) _ (long t) (long_string_case rest buffered))
            λ f1.
              if-Outcome _ d (op == 0xd2) _ _
                (λ t. of_len 3 _ (three lo f0 f1 (ground arith)) (
                  with_operand-Outcome 3 d 2 rest _ buffered (omega arith) (λ bytes n _.
                    push_path_index-Outcome 3 d (from_be bytes + 1) (omega (arith, buffered)))))
                λ f2.
                  if-Outcome _ d (op == 0xd3) _ _
                    (λ t. of_len 3 _ (three lo f0 f1 (ground arith)) (
                      with_operand-Outcome 3 d 2 rest _ buffered (omega arith) (λ bytes n _.
                        set_value-Outcome 3 d (integer (as_i16 (from_be bytes)))
                          (omega (arith, buffered)))))
                    λ f3.
                      if-Outcome _ d (op == 0xd4) _ _
                        (λ t. of_len 5 _ (five (ground arith) hi) (
                          with_operand-Outcome 5 d 4 rest _ buffered (omega arith) (λ bytes n _.
                            set_value-Outcome 5 d (integer (as_i32 (from_be bytes)))
                              (omega (arith, buffered)))))
                        λ f4. of_len 5 _ (five (above lo f0 f1 f2 f3) hi) (
                          with_operand-Outcome 5 d 4 rest _ buffered (omega arith) (λ bytes n _.
                            set_value-Outcome 5 d (float_value op (from_be bytes))
                              (omega (arith, buffered))))
    where
      one : (op == 0xd0) ≡ true → op_len op rest ≡ 1
      one t = unfold op_len in ground arith

      long : (op == 0xd1) ≡ true → op_len op rest ≡ long_len rest
      long t = unfold op_len in ground arith

      three :
          0xd0 ≤ op → (op == 0xd0) ≡ false → (op == 0xd1) ≡ false → op ≤ 0xd3 → op_len op rest ≡ 3
      three lo a b hi = unfold op_len in ground arith

      above :
          0xd0 ≤ op
          → (op == 0xd0) ≡ false
          → (op == 0xd1) ≡ false
          → (op == 0xd2) ≡ false
          → (op == 0xd3) ≡ false
          → 0xd4 ≤ op
      above lo a b c e = ground arith

      five : 0xd4 ≤ op → op ≤ 0xd6 → op_len op rest ≡ 5
      five lo hi = unfold op_len in ground arith

      long_string_case :
          (r : Bytes)
          → length d.audio ≡ suc (length r)
          → Outcome
              (long_len r)
              d
              (with_operand (take? 1 r) (λ bytes. long_string (from_be bytes)) d)
      long_string_case [] e = wait-Outcome 2 d (omega arith)
      long_string_case (l ∷ r) e =
          if-Outcome _ d (ltb (length d.audio) (from_be (l ∷ []) + 1 + 2)) _ _
            (λ w.
              wait-Outcome _ d
                (omega (arith, ltb→lt (length d.audio) (from_be (l ∷ []) + 1 + 2) w)))
            (λ w.
              parse_string_token-Outcome _ d (from_be (l ∷ []) + 1) 2 (omega arith)
                (omega (arith, ltb_false→le (length d.audio) (from_be (l ∷ []) + 1 + 2) w)))

  command_token-Outcome : 0xd8 ≤ op → Outcome (op_len op rest) d (command_token op rest d)
  unfolding command_token
  command_token-Outcome lo =
      if-Outcome _ d (op == 0xd8) _ _
        (λ t.
          of_len 1 _ (one lo (ground arith))
            (and_then-Outcome 1 d (ok_or invalid_data d.selected_id) _ enough (λ id. framed)))
        λ f0.
          if-Outcome _ d (op == 0xd9) _ _
            (λ t. of_len 2 _ (two t) (
              with_operand-Outcome 2 d 1 rest _ buffered (omega arith) (λ bytes n _.
                and_then-Outcome 2 d (ok_or invalid_data d.selected_id) _ (omega (arith, buffered))
                  (λ id. record {
                    complete = omega (arith, buffered);
                    audio = refl;
                    limits = refl;
                    meter = refl;
                    channels = refl;
                    path = λ k. k;
                  }))))
            λ f1. of_len 1 _ (one lo f1) (
              if-Outcome 1 d (op == 0xda) _ _
                (λ t. record {
                  complete = enough;
                  audio = refl;
                  limits = refl;
                  meter = refl;
                  channels = refl;
                  path = λ k. record {
                    counted = unfold name_bytes in refl;
                    elements = omega arith;
                    within = omega arith;
                  };
                })
                λ f2.
                  if-Outcome 1 d (op == 0xdb) _ _
                    (λ t. record {
                      complete = enough;
                      audio = refl;
                      limits = refl;
                      meter = refl;
                      channels = refl;
                      path = PathFits-pop;
                    })
                    λ f3.
                      if-Outcome 1 d (op == 0xdc) _ _ (λ t. framed)
                        λ f4. if-Outcome 1 d (op == 0xdd) _ _ (λ t. framed) (λ f5. framed))
    where
      enough : 1 ≤ length d.audio
      enough = omega (arith, buffered)

      framed : Framed 1 d (drain 1 d)
      framed = record {
        complete = enough;
        audio = refl;
        limits = refl;
        meter = refl;
        channels = refl;
        path = λ k. k;
      }

      one : 0xd8 ≤ op → (op == 0xd9) ≡ false → op_len op rest ≡ 1
      one lo f = unfold op_len in ground arith

      two : (op == 0xd9) ≡ true → op_len op rest ≡ 2
      two t = unfold op_len in ground arith

  audio_token-Outcome : Outcome (op_len op rest) d (audio_token op rest d)
  unfolding audio_token
  audio_token-Outcome =
      if-Outcome _ d (op == 0xd7) _ _
        (λ t. of_len 5 _ (five t) (
          with_operand-Outcome 5 d 4 rest _ buffered (omega arith) (λ bytes n _. record {
            complete = omega (arith, buffered);
            audio = refl;
            limits = refl;
            meter = refl;
            channels = refl;
            path = λ k. k;
          })))
        λ f.
          if-Outcome _ d (leb op 0xcf) _ _ (λ t. low_token-Outcome (leb→le op 0xcf t))
            λ g.
              if-Outcome _ d (leb op 0xd6) _ _
                (λ t. value_token-Outcome (above g) (leb→le op 0xd6 t))
                (λ k. command_token-Outcome (beyond f k))
    where
      five : (op == 0xd7) ≡ true → op_len op rest ≡ 5
      five t = unfold op_len in ground arith

      above : leb op 0xcf ≡ false → 0xd0 ≤ op
      above g = ground arith

      beyond : (op == 0xd7) ≡ false → leb op 0xd6 ≡ false → 0xd8 ≤ op
      beyond f k = ground arith

audio_first-Outcome :
    (audio : Bytes) (d : NativeRequestDecoder)
    → d.audio ≡ audio
    → Outcome (token_len audio) d (audio_first audio d)
audio_first-Outcome [] d e = wait-Outcome 1 d (omega (arith, ap length e))
audio_first-Outcome (op ∷ rest) d e = audio_token-Outcome op rest d e

-- On every buffer one pass of `parse_audio` waits exactly when the token at its front is not complete,
-- and changes nothing then; otherwise it takes exactly that token, or is refused.
pub audio_step-Outcome : (d : NativeRequestDecoder) → Outcome (token_len d.audio) d (audio_step d)
unfolding audio_step
audio_step-Outcome d = audio_first-Outcome d.audio d refl
