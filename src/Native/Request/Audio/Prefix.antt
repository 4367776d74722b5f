-- ===== src/Native/Request/Audio/Prefix.antt =====
-- A token's length shows in its first two bytes: a buffer that waits, and then gets one byte more,
-- holds at most one token, and a complete token is not changed by what follows it.
use libwing.Native.Request.Audio.Token.{token_len, op_len}
use libwing.Native.Request.Audio.Loop.{token_len_pos}
use libwing.Prelude.BigEndian.{Bytes}
use libwing.Prelude.{
  ltb_false→le, inr, ltb→lt, inl, refl, ltb, length-append, Bool-cases, arith, [], ◌≡◌, ◌∷◌, ◌++◌,
  length, ◌<◌, ◌≤◌, ℕ,
}

pub token_len_grows :
    (audio : Bytes) (b : ℕ)
    → length audio < token_len audio
    → length (audio ++ b ∷ []) ≤ token_len (audio ++ b ∷ [])
unfolding op_len
token_len_grows [] b h = token_len_pos (b ∷ [])
token_len_grows (op ∷ []) b h = ground arith
token_len_grows (op ∷ l ∷ rest) b h = omega (arith, length-append (op ∷ l ∷ rest) (b ∷ []), h)

pub token_len_complete :
    (audio more : Bytes)
    → token_len audio ≤ length audio
    → token_len (audio ++ more) ≡ token_len audio
unfolding op_len
token_len_complete [] more h = absurd (omega (arith, token_len_pos []))
token_len_complete (op ∷ []) [] h = refl
token_len_complete (op ∷ []) (m ∷ more) h = ground arith
token_len_complete (op ∷ l ∷ rest) more h = refl

-- A proper prefix of one token waits.
pub token_prefix :
    (front back : Bytes)
    → 0 < length back
    → length (front ++ back) ≡ token_len (front ++ back)
    → length front < token_len front
token_prefix front back h e = elim (Bool-cases (ltb (length front) (token_len front))) [
  | inl lt ↦ ltb→lt (length front) (token_len front) lt
  | inr ge ↦ absurd (
      omega (
        arith,
        length-append front back,
        token_len_complete front back (ltb_false→le (length front) (token_len front) ge),
        ltb_false→le (length front) (token_len front) ge,
      ))
]
