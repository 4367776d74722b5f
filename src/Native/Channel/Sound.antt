-- ===== src/Native/Channel/Sound.antt =====
-- The channel decoder of src/native.rs decodes the streams of its grammar and no others, in any pieces.
use mathlib.Core.Path.{subst, subst⁻¹}
use mathlib.Core.Logic.{◌↔◌}
use libwing.Prelude.{
  ℕ, ◌+◌, ◌-◌, ◌<◌, ◌≤◌, ◌⊎◌, ◌≡◌, ◌≢◌, refl, sym, ap, ◌∙◌, Option, none, some, List, [], ◌∷◌, ◌++◌,
  arith, leb, ◌==◌, leb→le, leb_false→lt, eqb→eq, Bool-cases, inl, inr,
}
use libwing.Prelude.BigEndian.{Bytes}
use libwing.Outcome.{Result, ok, err, and_then}
use libwing.Native.Channel.{
  ChannelEvent, ChannelDecoder, selected, payload, channel_count, channel_base, escape,
  escaped_escape, flatten, push_byte, push,
}
use libwing.Native.Channel.Stream.{prepend, push_nil, push_cons, push-append}
use libwing.Native.Channel.Grammar.{
  IsVerbatim, Reads, ends, cut, plain, selects, escapes, doubles, verbatim, between,
  push_byte-plain, push_byte-plain_none, push_byte-selects, push_byte-verbatim,
  push_byte-verbatim_none, push_one, push_two, push_pair, Reads-push,
}

-- What the second byte of an escape sequence is.
abbrev Second : ℕ → Type 0
Second b =
    (b ≡ escape)
    ⊎ ((b ≡ escaped_escape)
        ⊎ (((c : ℕ) × (c < channel_count) × (b ≡ channel_base + c)) ⊎ IsVerbatim b))

above_base : (b : ℕ) → b ≢ escape → b ≢ escaped_escape → channel_base ≤ b → Second b
above_base b h k low = elim (Bool-cases (leb b 0xdd)) [
  | inl e ↦
      let high = leb→le b 0xdd e in inr (inr (inl (b - channel_base, omega arith, omega arith)))
  | inr e ↦ let high = leb_false→lt b 0xdd e in inr (inr (inr (h, k, inr (omega arith))))
]

Second-of : (b : ℕ) → Second b
Second-of b = elim (Bool-cases (b == escape)) [
  | inl e ↦ inl (eqb→eq b escape e)
  | inr h ↦ elim (Bool-cases (b == escaped_escape)) [
    | inl e ↦ inr (inl (eqb→eq b escaped_escape e))
    | inr k ↦ elim (Bool-cases (leb channel_base b)) [
      | inl e ↦ above_base b (ground arith) (ground arith) (leb→le channel_base b e)
      | inr e ↦ inr (inr (inr (ground arith, ground arith, inl (leb_false→lt channel_base b e))))
    ]
  ]
]

-- What is decoded is of the grammar.
abbrev Sound : Option ℕ → Bytes → Result (List ChannelEvent) × ChannelDecoder → Type 0
Sound old input (ok events, d) = Reads old input events d
Sound old input (err e, d) = Unit

prepend-Sound :
    (old : Option ℕ) (input : Bytes) (c : ℕ) (rest : Bytes) (unit : List ChannelEvent)
    (r : Result (List ChannelEvent) × ChannelDecoder)
    → ((events : List ChannelEvent) (d : ChannelDecoder)
        → Reads (some c) rest events d
        → Reads old input (unit ++ events) d)
    → Sound (some c) rest r
    → Sound old input (prepend unit r)
prepend-Sound old input c rest unit (ok events, d) f h = f events d h
prepend-Sound old input c rest unit (err e, d) f h = tt

module _ (rest : Bytes) (ih : (c : ℕ) → Sound (some c) rest (push rest (between (some c)))) where
  plain-Sound :
      (old : Option ℕ) (b : ℕ) → b ≢ escape → Sound old (b ∷ rest) (push (b ∷ rest) (between old))
  plain-Sound none b h =
      subst⁻¹ (Sound none (b ∷ rest))
        (push_cons b rest (between none)
          ∙ ap (λ r. and_then r (λ em s. prepend (flatten em) (push rest s)))
              (push_byte-plain_none b h))
        tt
  plain-Sound (some c) b h =
      subst⁻¹ (Sound (some c) (b ∷ rest)) (push_one (some c) b rest _ _ (push_byte-plain c b h))
        (prepend-Sound (some c) (b ∷ rest) c rest (payload c b ∷ []) _ (λ ev d k. plain h k) (ih c))

  verbatim-Sound :
      (old : Option ℕ) (b : ℕ)
      → IsVerbatim b
      → Sound old (escape ∷ b ∷ rest) (push (escape ∷ b ∷ rest) (between old))
  verbatim-Sound none b h =
      subst⁻¹ (Sound none (escape ∷ b ∷ rest))
        (push_two none b rest
          ∙ ap (λ r. and_then r (λ em s. prepend (flatten em) (push rest s)))
              (push_byte-verbatim_none b h))
        tt
  verbatim-Sound (some c) b h =
      subst⁻¹ (Sound (some c) (escape ∷ b ∷ rest))
        (push_pair (some c) b rest _ _ (push_byte-verbatim c b h))
        (prepend-Sound (some c) (escape ∷ b ∷ rest) c rest (payload c escape ∷ payload c b ∷ []) _
          (λ ev d k. verbatim h k) (ih c))

  escape-Sound :
      (old : Option ℕ)
      → Sound old (escape ∷ escape ∷ rest) (push (escape ∷ escape ∷ rest) (between old))
  unfolding push_byte
  escape-Sound none = subst⁻¹ (Sound none (escape ∷ escape ∷ rest)) (push_two none escape rest) tt
  escape-Sound (some c) =
      subst⁻¹ (Sound (some c) (escape ∷ escape ∷ rest)) (push_pair (some c) escape rest _ _ refl) (
        prepend-Sound (some c) (escape ∷ escape ∷ rest) c rest (payload c escape ∷ []) _
          (λ ev d k. doubles k) (ih c))

  escaped-Sound :
      (old : Option ℕ)
      → Sound old
          (escape ∷ escaped_escape ∷ rest)
          (push (escape ∷ escaped_escape ∷ rest) (between old))
  unfolding push_byte
  escaped-Sound none =
      subst⁻¹ (Sound none (escape ∷ escaped_escape ∷ rest)) (push_two none escaped_escape rest) tt
  escaped-Sound (some c) =
      subst⁻¹ (Sound (some c) (escape ∷ escaped_escape ∷ rest))
        (push_pair (some c) escaped_escape rest _ _ refl)
        (prepend-Sound (some c) (escape ∷ escaped_escape ∷ rest) c rest (payload c escape ∷ []) _
          (λ ev d k. escapes k) (ih c))

  selects-Sound :
      (old : Option ℕ) (c : ℕ)
      → c < channel_count
      → Sound old
          (escape ∷ (channel_base + c) ∷ rest)
          (push (escape ∷ (channel_base + c) ∷ rest) (between old))
  selects-Sound old c h =
      subst⁻¹ (Sound old (escape ∷ (channel_base + c) ∷ rest))
        (push_pair old (channel_base + c) rest _ _ (push_byte-selects old c h))
        (prepend-Sound old (escape ∷ (channel_base + c) ∷ rest) c rest (selected c ∷ []) _
          (λ ev d k. selects h k) (ih c))

  second-Sound :
      (old : Option ℕ) (b : ℕ)
      → Sound old (escape ∷ b ∷ rest) (push (escape ∷ b ∷ rest) (between old))
  second-Sound old b = elim (Second-of b) [
    | inl e ↦ subst⁻¹ P e (escape-Sound old)
    | inr (inl e) ↦ subst⁻¹ P e (escaped-Sound old)
    | inr (inr (inl (c, h, e))) ↦ subst⁻¹ P e (selects-Sound old c h)
    | inr (inr (inr h)) ↦ verbatim-Sound old b h
  ]
    where
      P : ℕ → Type 0
      P n = Sound old (escape ∷ n ∷ rest) (push (escape ∷ n ∷ rest) (between old))

one_byte-Sound :
    (old : Option ℕ) (b : ℕ)
    → ((c : ℕ) → Sound (some c) [] (push [] (between (some c))))
    → Sound old (b ∷ []) (push (b ∷ []) (between old))
one_byte-Sound old b ih = elim (Bool-cases (b == escape)) [
  | inl e ↦
      subst⁻¹ (λ n. Sound old (n ∷ []) (push (n ∷ []) (between old))) (eqb→eq b escape e)
        (subst⁻¹ (Sound old (escape ∷ [])) (Reads-push (cut old)) (cut old))
  | inr h ↦ plain-Sound [] ih old b (ground arith)
]

push-Sound : (input : Bytes) (old : Option ℕ) → Sound old input (push input (between old))
push-Sound [] old = subst⁻¹ (Sound old []) (push_nil (between old)) (ends old)
push-Sound (b ∷ []) old = one_byte-Sound old b (λ c. push-Sound [] (some c))
push-Sound (b ∷ n ∷ rest) old = elim (Bool-cases (b == escape)) [
  | inl e ↦
      subst⁻¹ (λ k. Sound old (k ∷ n ∷ rest) (push (k ∷ n ∷ rest) (between old)))
        (eqb→eq b escape e) (second-Sound rest (λ c. push-Sound rest (some c)) old n)
  | inr h ↦ plain-Sound (n ∷ rest) (λ c. push-Sound (n ∷ rest) (some c)) old b (ground arith)
]

-- The decoder over a stream in two pieces.
abbrev pub push_pieces :
    Bytes → Bytes → ChannelDecoder → Result (List ChannelEvent) × ChannelDecoder
push_pieces xs ys d = and_then (push xs d) (λ events s. prepend events (push ys s))

-- However a stream is cut in two, an escape sequence in its middle included, a decoder that starts
-- between two units decodes it to some events and a state exactly where the grammar of the stream as
-- a whole gives it those events and that state.
pub push_pieces-Reads :
    (xs ys : Bytes) (old : Option ℕ) (events : List ChannelEvent) (d : ChannelDecoder)
    → push_pieces xs ys (between old) ≡ (ok events, d) ↔ Reads old (xs ++ ys) events d
push_pieces-Reads xs ys old events d = (
  λ h.
      subst (Sound old (xs ++ ys)) (push-append xs ys (between old) ∙ h)
        (push-Sound (xs ++ ys) old),
  λ h. sym (push-append xs ys (between old)) ∙ Reads-push h,
)
