-- ===== src/Node/Numbers.antt =====
-- The numeric parts of a definition, written and read back.
use libwing.Node.Readers.{read_f32-be, read_i32-be, read_u16-be}
use libwing.Node.{NodeType, Payload}
use libwing.Node.Decode.{read_float_range, read_payload, Reader, no_payload}
use libwing.Prelude.{
  ℕ, refl, [], append-nil, append_assoc, ◌∙◌, sym, ◌++◌, none, ◌≡◌, some, ◌^◌, Option, ◌<◌,
}
use libwing.Node.Encode.{write_range, write_fader}
use libwing.Prelude.BigEndian.{u16_to_be, Bytes, u32_to_be}
use libwing.Prelude.Ints.{ℤ, IsI32, as_u32}
use libwing.Outcome.{invalid_input, err-ne-ok, ok_or, bind, ok-injective, ok}
use libwing.Node.Items.{OptionAll}

-- The rest of a definition after its flags: what it was written from is what it reads as.
abbrev pub PayloadWritten : Reader Payload → Payload → Bytes → Bytes → Type 0
PayloadWritten r p raw raw' = (w : Bytes) × (raw' ≡ raw ++ w) × (r w ≡ ok (p, []))

abbrev range_form : ℕ → ℕ → ℤ → Bytes
range_form lo hi steps = u32_to_be lo ++ (u32_to_be hi ++ (u32_to_be (as_u32 steps) ++ []))

abbrev range_payload : Option ℕ → Option ℕ → Option ℤ → Payload
range_payload lo hi steps = record no_payload { min_float = lo; max_float = hi; steps = steps }

write_range-form :
    (raw : Bytes) (lo hi : ℕ) (steps : ℤ)
    → write_range raw lo hi steps ≡ raw ++ range_form lo hi steps
write_range-form raw lo hi steps =
    append_assoc (raw ++ u32_to_be lo) (u32_to_be hi) (u32_to_be (as_u32 steps))
    ∙ append_assoc raw (u32_to_be lo) (u32_to_be hi ++ u32_to_be (as_u32 steps))

read_float_range-form :
    (lo hi : ℕ) (steps : ℤ)
    → lo < 2 ^ 32
    → hi < 2 ^ 32
    → IsI32 steps
    → read_float_range (range_form lo hi steps)
      ≡ ok (range_payload (some lo) (some hi) (some steps), [])
unfolding read_float_range
read_float_range-form lo hi steps h1 h2 h3 = rw (
  read_f32-be lo (u32_to_be hi ++ (u32_to_be (as_u32 steps) ++ [])) h1,
  read_f32-be hi (u32_to_be (as_u32 steps) ++ []) h2,
  read_i32-be steps [] h3,
)

pub range-Written :
    (lo hi : Option ℕ) (steps : Option ℤ) (raw : Bytes) {raw' : Bytes}
    → OptionAll (λ b. b < 2 ^ 32) lo
    → OptionAll (λ b. b < 2 ^ 32) hi
    → OptionAll IsI32 steps
    → bind (ok_or invalid_input lo) (λ l.
      bind
        (ok_or invalid_input hi)
        (λ h. bind (ok_or invalid_input steps) (λ s. ok (write_range raw l h s))))
      ≡ ok raw'
    → PayloadWritten read_float_range (range_payload lo hi steps) raw raw'
range-Written (some l) (some h) (some s) raw hl hh hs e = (
  range_form l h s,
  sym (ok-injective e) ∙ write_range-form raw l h s,
  read_float_range-form l h s hl hh hs,
)
range-Written none _ _ raw hl hh hs e = absurd (err-ne-ok e)
range-Written (some l) none _ raw hl hh hs e = absurd (err-ne-ok e)
range-Written (some l) (some h) none raw hl hh hs e = absurd (err-ne-ok e)

pub fader-Written :
    (lo hi : Option ℕ) (steps : Option ℤ) (raw : Bytes) {raw' : Bytes}
    → OptionAll (λ b. b < 2 ^ 32) lo
    → OptionAll (λ b. b < 2 ^ 32) hi
    → OptionAll IsI32 steps
    → write_fader raw lo hi steps ≡ ok raw'
    → PayloadWritten (read_payload NodeType.fader_level) (range_payload lo hi steps) raw raw'
unfolding read_payload
fader-Written (some l) (some h) (some s) raw hl hh hs e = (
  range_form l h s,
  sym (ok-injective e) ∙ write_range-form raw l h s,
  read_float_range-form l h s hl hh hs,
)
fader-Written none none none raw hl hh hs e =
    ([], sym (ok-injective e) ∙ sym (append-nil raw), refl)
fader-Written _ _ _ raw hl hh hs e = absurd (err-ne-ok e)

pub integer-Written :
    (lo hi : Option ℤ) (raw : Bytes) {raw' : Bytes}
    → OptionAll IsI32 lo
    → OptionAll IsI32 hi
    → bind (ok_or invalid_input lo) (λ l.
      bind
        (ok_or invalid_input hi)
        (λ h. ok ((raw ++ u32_to_be (as_u32 l)) ++ u32_to_be (as_u32 h))))
      ≡ ok raw'
    → PayloadWritten
        (read_payload NodeType.integer)
        (record no_payload { min_int = lo; max_int = hi })
        raw
        raw'
unfolding read_payload
integer-Written (some l) (some h) raw hl hh e = (
  u32_to_be (as_u32 l) ++ (u32_to_be (as_u32 h) ++ []),
  sym (ok-injective e) ∙ append_assoc raw (u32_to_be (as_u32 l)) (u32_to_be (as_u32 h)),
  rw (read_i32-be l (u32_to_be (as_u32 h) ++ []) hl, read_i32-be h [] hh),
)
integer-Written none _ raw hl hh e = absurd (err-ne-ok e)
integer-Written (some l) none raw hl hh e = absurd (err-ne-ok e)

pub string-Written :
    (len : Option ℕ) (raw : Bytes) {raw' : Bytes}
    → OptionAll (λ n. n < 2 ^ 16) len
    → bind (ok_or invalid_input len) (λ n. ok (raw ++ u16_to_be n)) ≡ ok raw'
    → PayloadWritten
        (read_payload NodeType.string)
        (record no_payload { max_string_len = len })
        raw
        raw'
unfolding read_payload
string-Written (some n) raw h e = (u16_to_be n ++ [], sym (ok-injective e), rw (read_u16-be n [] h))
string-Written none raw h e = absurd (err-ne-ok e)
