-- ===== src/Reader/Definition.antt =====
-- The loop of `read_inner` of src/console.rs on the definitions that src/native.rs writes.
use libwing.Prelude.{
  ◌==◌, ℕ, ◌≤◌, ◌^◌, ◌%◌, ◌≡◌, ap, ◌∷◌, ◌++◌, length, arith, leb, some, true, false, Bool-cases,
  inl, inr, le→ltb_false, leb→le,
}
use libwing.Prelude.BigEndian.{u32_to_be, u16_to_be, Bytes}
use libwing.Prelude.Ints.{ℤ}
use libwing.Outcome.{ok, Result}
use libwing.Reader.{Reader, node_def, pure, Main, done, and_then, ◌>>=◌}
use libwing.Reader.Response.{
  Step, high_token, token, definition, definition_length, max_node_def_bytes,
}
use libwing.Node.{WingNodeDef}
use libwing.Node.Decode.{from_bytes}
use libwing.Reader.Decode.{read_u16, read_u32, lift, read_bytes}
use libwing.Reader.Gives.{
  read_u32-Gives, pure-Gives, read_u16-Gives, read_bytes-Gives, bind-Gives, Gives, Ready,
}
use libwing.Native.Response.{definition_token}
use libwing.Reader.Tokens.{round-Gives, round}
use mathlib.Core.Path.{subst⁻¹, subst}

definition_eq :
    (len : ℕ)
    → len ≤ max_node_def_bytes
    → definition len
      ≡ (read_bytes len >>= λ raw. lift (from_bytes raw) >>= λ def. pure (some (node_def def)))
definition_eq len h = rw (le→ltb_false max_node_def_bytes len h)

definition_length_eq : (len : ℕ) → 1 ≤ len → definition_length len ≡ pure len
definition_length_eq len h = rw (positive len h)
  where
    positive : (n : ℕ) → 1 ≤ n → (n == 0) ≡ false
    positive n h = ground arith

module _ (out : Bytes) where
  definition-Gives :
      (node : ℤ) (body : Bytes) (d : WingNodeDef) (xs : Bytes) (s : Main)
      → length body ≤ max_node_def_bytes
      → from_bytes body ≡ ok d
      → Ready out node (body ++ xs) s
      → Gives out node xs (some (node_def d)) (definition (length body) s)
  definition-Gives node body d xs s hl hd h =
      subst⁻¹ (λ (f : Step). Gives out node xs (some (node_def d)) (f s))
        (definition_eq (length body) hl)
        (bind-Gives out node node xs xs body (some (node_def d)) (read_bytes (length body) s) _
          (read_bytes-Gives out node body xs s h)
          (λ t k. (
            t,
            ap (λ (r : Result WingNodeDef). and_then (done r t) (λ def. pure (some (node_def def))))
                hd,
            k,
          )))

  -- A definition whose length is in 16 bits, and one whose length follows in 32.
  short-Gives :
      (node : ℤ) (body : Bytes) (d : WingNodeDef) (xs : Bytes) (s : Main)
      → length body ≤ 0xffff
      → 1 ≤ length body
      → from_bytes body ≡ ok d
      → Ready out node ((0xdf ∷ u16_to_be (length body)) ++ (body ++ xs)) s
      → Gives out node xs (some (node_def d)) (round s)
  unfolding token high_token
  short-Gives node body d xs s hl h1 hd h =
      round-Gives out node node 0xdf (u16_to_be (length body) ++ (body ++ xs)) xs
        (some (node_def d)) s h
        (λ t k.
          bind-Gives out node node (body ++ xs) xs (length body) (some (node_def d)) (read_u16 t) _
            (read_u16-Gives out node (length body) (body ++ xs) t (omega arith) k)
            (λ u q.
              bind-Gives out node node (body ++ xs) xs (length body) (some (node_def d))
                (definition_length (length body) u) _
                (subst⁻¹ (λ (f : Reader ℕ). Gives out node (body ++ xs) (length body) (f u))
                  (definition_length_eq (length body) h1)
                  (pure-Gives out node (body ++ xs) (length body) u q))
                (λ v p. definition-Gives node body d xs v (omega arith) hd p)))

  long-Gives :
      (node : ℤ) (body : Bytes) (d : WingNodeDef) (xs : Bytes) (s : Main)
      → length body ≤ max_node_def_bytes
      → from_bytes body ≡ ok d
      → Ready out node ((0xdf ∷ u16_to_be 0) ++ (u32_to_be (length body) ++ (body ++ xs))) s
      → Gives out node xs (some (node_def d)) (round s)
  unfolding token high_token
  long-Gives node body d xs s hl hd h =
      round-Gives out node node 0xdf (u16_to_be 0 ++ (u32_to_be (length body) ++ (body ++ xs))) xs
        (some (node_def d)) s h
        (λ t k.
          bind-Gives out node node (u32_to_be (length body) ++ (body ++ xs)) xs 0
            (some (node_def d)) (read_u16 t) _
            (read_u16-Gives out node 0 (u32_to_be (length body) ++ (body ++ xs)) t (omega arith) k)
            (λ u q.
              bind-Gives out node node (body ++ xs) xs (length body) (some (node_def d))
                (read_u32 u) _
                (read_u32-Gives out node (length body) (body ++ xs) u (omega arith) q)
                (λ v p. definition-Gives node body d xs v hl hd p)))

  pub round-definition_token :
      (node : ℤ) (body : Bytes) (d : WingNodeDef) (xs : Bytes) (s : Main)
      → length body ≤ max_node_def_bytes
      → 1 ≤ length body
      → from_bytes body ≡ ok d
      → Ready out node (definition_token body ++ xs) s
      → Gives out node xs (some (node_def d)) (round s)
  round-definition_token node body d xs s hl h1 hd h =
      elim (Bool-cases (leb (length body) 0xffff)) [
        | inl e ↦
            short-Gives node body d xs s (leb→le (length body) 0xffff e) h1 hd
              (subst (λ (t : Bytes). Ready out node t s) (short_token e) h)
        | inr e ↦
            long-Gives node body d xs s hl hd
              (subst (λ (t : Bytes). Ready out node t s) (long_token e) h)
      ]
    where
      short_token :
          leb (length body) 0xffff ≡ true
          → definition_token body ++ xs ≡ (0xdf ∷ u16_to_be (length body)) ++ (body ++ xs)
      short_token e = rw e

      same : length body % 2 ^ 32 ≡ length body
      same = omega arith

      long_token :
          leb (length body) 0xffff ≡ false
          → definition_token body ++ xs
            ≡ (0xdf ∷ u16_to_be 0) ++ (u32_to_be (length body) ++ (body ++ xs))
      long_token e = rw (e, same)
