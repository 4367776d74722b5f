-- ===== src/Reader/Gives.antt =====
-- The readers of numbers and strings of src/console.rs over a healthy connection.
use libwing.Prelude.{
  none, some, if◌then◌else◌, ℕ, ◌+◌, ◌<◌, ◌≤◌, ◌^◌, ◌≡◌, refl, ap, ◌∙◌, [], ◌∷◌, ◌++◌, length,
  length-append, arith,
}
use libwing.Prelude.BigEndian.{from_be-u32, from_be-u16, u16_to_be, u32_to_be, from_be, Bytes}
use libwing.Prelude.Ints.{
  as_u32-lt, as_u16-lt, as_i32, as_i16, as_i32-as_u32, as_i16-as_u16, as_u32, as_u16, IsI32, IsI16,
  ℤ,
}
use libwing.Outcome.{invalid_data, ok_or, ok}
use libwing.Reader.{pure, Reader, Main, Run, done, and_then}
use libwing.Reader.Progress.{Calm}
use libwing.Reader.Decode.{
  max_native_response_bytes, read_string, read_i32, read_u16, read_i16, read_f, read_u32,
  read_bytes, decode_next,
}
use libwing.Reader.Next.{decode_next-next, held}
use mathlib.Core.Path.{subst}
use libwing.Prelude.Utf8.{IsStr, from_utf8}

-- `out` is what comes after the bytes in question.
module _ (out : Bytes) where
  abbrev pub Ready : ℤ → Bytes → Main → Type 0
  Ready node bytes s =
      Calm s
      × (held s ≡ bytes ++ out)
      × (length s.read_capture + length bytes ≤ max_native_response_bytes)
      × (s.current_node_id ≡ node)

  -- The call returns `a` and leaves `bytes`.
  abbrev pub Gives {ℓ} : {A : Type ℓ} → ℤ → Bytes → A → Run A → Type ℓ
  Gives node bytes a run = (s : Main) × (run ≡ done (ok a) s) × Ready node bytes s

  pub bind-Gives {ℓ κ} :
      {A : Type ℓ} {B : Type κ} (n₁ n₂ : ℤ) (xs ys : Bytes) (a : A) (b : B) (run : Run A)
      (f : A → Reader B)
      → Gives n₁ xs a run
      → ((s : Main) → Ready n₁ xs s → Gives n₂ ys b (f a s))
      → Gives n₂ ys b (and_then run f)
  bind-Gives {A = A} n₁ n₂ xs ys a b run f (s, e, r) k =
      let (t, e', r') = k s r in (t, ap (λ (v : Run A). and_then v f) e ∙ e', r')

  pub pure-Gives {ℓ} :
      {A : Type ℓ} (node : ℤ) (xs : Bytes) (a : A) (s : Main)
      → Ready node xs s
      → Gives node xs a (pure a s)
  pure-Gives node xs a s h = (s, refl, h)

  pub decode_next-Gives :
      (node : ℤ) (b : ℕ) (xs : Bytes) (s : Main)
      → Ready node (b ∷ xs) s
      → Gives node xs b (decode_next s)
  decode_next-Gives node b xs s (calm, h, room, n) =
      let (t, e, calm', h', rc, n') = decode_next-next s b (xs ++ out) (omega arith) calm h in
      (
        t,
        e,
        (
          calm',
          h',
          omega
              (arith, room, ap (λ (v : Bytes). length v) rc, length-append s.read_capture (b ∷ [])),
          n' ∙ n,
        ),
      )

  pub read_bytes-Gives :
      (node : ℤ) (bs xs : Bytes) (s : Main)
      → Ready node (bs ++ xs) s
      → Gives node xs bs (read_bytes (length bs) s)
  unfolding read_bytes
  read_bytes-Gives node [] xs s h = pure-Gives node xs [] s h
  read_bytes-Gives node (b ∷ bs) xs s h =
      bind-Gives node node (bs ++ xs) xs b (b ∷ bs) (decode_next s) _
        (decode_next-Gives node b (bs ++ xs) s h)
        (λ t k.
          bind-Gives node node xs xs bs (b ∷ bs) (read_bytes (length bs) t) _
            (read_bytes-Gives node bs xs t k) (λ u q. pure-Gives node xs (b ∷ bs) u q))

  read_be-Gives :
      (node : ℤ) (bs xs : Bytes) (s : Main)
      → Ready node (bs ++ xs) s
      → Gives node xs
          (from_be bs)
          (and_then (read_bytes (length bs) s) (λ bytes. pure (from_be bytes)))
  read_be-Gives node bs xs s h =
      bind-Gives node node xs xs bs (from_be bs) (read_bytes (length bs) s) _
        (read_bytes-Gives node bs xs s h) (λ t k. pure-Gives node xs (from_be bs) t k)

  pub read_u16-Gives :
      (node : ℤ) (v : ℕ) (xs : Bytes) (s : Main)
      → v < 2 ^ 16
      → Ready node (u16_to_be v ++ xs) s
      → Gives node xs v (read_u16 s)
  unfolding read_u16
  read_u16-Gives node v xs s hv h =
      subst (λ t. Gives node xs t (read_u16 s)) (from_be-u16 v hv)
        (read_be-Gives node (u16_to_be v) xs s h)

  pub read_u32-Gives :
      (node : ℤ) (v : ℕ) (xs : Bytes) (s : Main)
      → v < 2 ^ 32
      → Ready node (u32_to_be v ++ xs) s
      → Gives node xs v (read_u32 s)
  unfolding read_u32
  read_u32-Gives node v xs s hv h =
      subst (λ t. Gives node xs t (read_u32 s)) (from_be-u32 v hv)
        (read_be-Gives node (u32_to_be v) xs s h)

  pub read_f-Gives :
      (node : ℤ) (v : ℕ) (xs : Bytes) (s : Main)
      → v < 2 ^ 32
      → Ready node (u32_to_be v ++ xs) s
      → Gives node xs v (read_f s)
  unfolding read_f
  read_f-Gives node v xs s hv h =
      subst (λ t. Gives node xs t (read_f s)) (from_be-u32 v hv)
        (read_be-Gives node (u32_to_be v) xs s h)

  pub read_i16-Gives :
      (node : ℤ) (v : ℤ) (xs : Bytes) (s : Main)
      → IsI16 v
      → Ready node (u16_to_be (as_u16 v) ++ xs) s
      → Gives node xs v (read_i16 s)
  unfolding read_i16
  read_i16-Gives node v xs s hv h =
      subst (λ t. Gives node xs t (read_i16 s)) (as_i16-as_u16 v hv)
        (bind-Gives node node xs xs (as_u16 v) (as_i16 (as_u16 v)) (read_u16 s) _
          (read_u16-Gives node (as_u16 v) xs s (as_u16-lt v hv) h)
          (λ t k. pure-Gives node xs (as_i16 (as_u16 v)) t k))

  pub read_i32-Gives :
      (node : ℤ) (v : ℤ) (xs : Bytes) (s : Main)
      → IsI32 v
      → Ready node (u32_to_be (as_u32 v) ++ xs) s
      → Gives node xs v (read_i32 s)
  unfolding read_i32
  read_i32-Gives node v xs s hv h =
      subst (λ t. Gives node xs t (read_i32 s)) (as_i32-as_u32 v hv)
        (bind-Gives node node xs xs (as_u32 v) (as_i32 (as_u32 v)) (read_u32 s) _
          (read_u32-Gives node (as_u32 v) xs s (as_u32-lt v hv) h)
          (λ t k. pure-Gives node xs (as_i32 (as_u32 v)) t k))

  pub read_string-Gives :
      (node : ℤ) (bs xs : Bytes) (s : Main)
      → IsStr bs
      → Ready node (bs ++ xs) s
      → Gives node xs bs (read_string (length bs) s)
  unfolding read_string from_utf8
  read_string-Gives node bs xs s hs h =
      bind-Gives node node xs xs bs bs (read_bytes (length bs) s) _
        (read_bytes-Gives node bs xs s h)
        (λ t k. (t, ap (λ b. done (ok_or invalid_data (if b then some bs else none)) t) hs, k))
