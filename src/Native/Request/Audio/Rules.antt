-- ===== src/Native/Request/Audio/Rules.antt =====
-- The outcome of a pass of `parse_audio`, by the way in which the pass is built.
use libwing.Prelude.{
  ◌∙◌, ◌++◌, Option, length-drop, Option-cases, take?-short, take?-long, ltb_false→le, inr, ltb→lt,
  ap, inl, Bool-cases, take, none, refl, some, take?, false, ltb, suc, true, Bool, ℕ, ◌+◌, ◌≤◌, ◌<◌,
  ◌≡◌, [], ◌∷◌, if◌then◌else◌, length, drop, arith,
}
use libwing.Prelude.BigEndian.{Bytes}
use libwing.Outcome.{ok_or, and_then, Result, ok, err}
use libwing.Native.Request.{name, invalid_data, NativeRequestDecoder}
use libwing.Native.Request.Audio.{
  drain, with_operand, path_room, set_value, push_path_name, push_path_index, parse_string_token,
  Step, AudioStep, wait, again,
}
use libwing.Native.Value.{string, NativeValue}
use libwing.Prelude.Utf8.{from_utf8}
use mathlib.Core.Path.{subst}
use libwing.Native.Request.Audio.Token.{Outcome}
use libwing.Native.Request.Audio.Path.{from_utf8-eq, PathFits-name, length-take_le, PathFits-index}

-- One rule for each way in which the passes are built.
module _ (need : ℕ) (d : NativeRequestDecoder) where
  pub and_then-Outcome :
      {A : Type 0} (r : Result A) (f : A → Step)
      → need ≤ length d.audio
      → ((a : A) → Outcome need d (f a d))
      → Outcome need d (and_then (r, d) f)
  and_then-Outcome (ok a) f h k = k a
  and_then-Outcome (err e) f h k = (h, refl)

  pub if-Outcome :
      (b : Bool) (x y : Result AudioStep × NativeRequestDecoder)
      → (b ≡ true → Outcome need d x)
      → (b ≡ false → Outcome need d y)
      → Outcome need d (if b then x else y)
  if-Outcome true x y hx hy = hx refl
  if-Outcome false x y hx hy = hy refl

  pub wait-Outcome : length d.audio < need → Outcome need d (ok wait, d)
  wait-Outcome h = (refl, h)

  pub with_operand-Outcome :
      (n : ℕ) (rest : Bytes) (f : Bytes → Step)
      → length d.audio ≡ suc (length rest)
      → n + 1 ≤ need
      → ((bytes : Bytes) → n ≤ length rest → take? n rest ≡ some bytes → Outcome need d (f bytes d))
      → Outcome need d (with_operand (take? n rest) f d)
  with_operand-Outcome n rest f e h k = elim (Option-cases (take? n rest)) [
    | inl short ↦ rw short (wait-Outcome (too_short short))
    | inr (bytes, enough) ↦ rw enough (k bytes (long_enough enough) enough)
  ]
    where
      too_short : take? n rest ≡ none → length d.audio < need
      too_short short = elim (Bool-cases (ltb (length rest) n)) [
        | inl lt ↦ omega (arith, ltb→lt (length rest) n lt)
        | inr ge ↦ absurd (cc (short, take?-long n rest (ltb_false→le (length rest) n ge)))
      ]

      long_enough : {bytes : Bytes} → take? n rest ≡ some bytes → n ≤ length rest
      long_enough enough = elim (Bool-cases (ltb (length rest) n)) [
        | inl lt ↦ absurd (cc (enough, take?-short n rest (ltb→lt (length rest) n lt)))
        | inr ge ↦ ltb_false→le (length rest) n ge
      ]

  pub set_value-Outcome :
      (v : NativeValue) → need ≤ length d.audio → Outcome need d (set_value need v d)
  set_value-Outcome v h = and_then-Outcome (ok_or invalid_data d.selected_id) _ h (λ id. record {
    complete = h;
    audio = refl;
    limits = refl;
    meter = refl;
    channels = refl;
    path = λ k. k;
  })

  pub parse_string_token-Outcome :
      (len header : ℕ)
      → need ≡ header + len
      → need ≤ length d.audio
      → Outcome need d (parse_string_token len header d)
  parse_string_token-Outcome len header e h =
      if-Outcome (ltb d.limits.max_string_bytes len) _ _ (λ _. (h, refl))
        (λ _.
          and_then-Outcome (ok_or invalid_data (from_utf8 (take len (drop header d.audio)))) _ h
            (λ v.
              subst (λ n. Outcome need d (set_value n (string v) d)) e
                (set_value-Outcome (string v) h)))

  pub push_path_index-Outcome :
      (i : ℕ) → need ≤ length d.audio → Outcome need d (push_path_index need i d)
  push_path_index-Outcome i h =
      if-Outcome (path_room 0 d) _ _
        (λ room. record {
          complete = h;
          audio = refl;
          limits = refl;
          meter = refl;
          channels = refl;
          path = PathFits-index i d room;
        })
        (λ _. (h, refl))

  pub push_path_name-Outcome :
      (len : ℕ) → need ≡ len + 1 → need ≤ length d.audio → Outcome need d (push_path_name len d)
  push_path_name-Outcome len e h =
      if-Outcome (path_room len d) _ _
        (λ room. named room (from_utf8 (take len (drop 1 d.audio))) refl) (λ _. (h, refl))
    where
      taken : length (take len (drop 1 d.audio)) ≡ len
      taken = length-take_le len (drop 1 d.audio) (omega (arith, length-drop 1 d.audio))

      named :
          path_room len d ≡ true
          → (o : Option Bytes) → from_utf8 (take len (drop 1 d.audio)) ≡ o
          → Outcome need d (
              and_then
                (ok_or invalid_data o, d)
                (λ value s. (
                  ok again,
                  drain (len + 1) (record s {
                    path_bytes = s.path_bytes + len;
                    path = s.path ++ name value ∷ [];
                  }),
                )))
      named room none q = (h, refl)
      named room (some v) q = record {
        complete = h;
        audio = rw e refl;
        limits = refl;
        meter = refl;
        channels = refl;
        path =
            PathFits-name v len d room
              (ap length (from_utf8-eq (take len (drop 1 d.audio)) q) ∙ taken);
      }
