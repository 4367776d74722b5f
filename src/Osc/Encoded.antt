-- ===== src/Osc/Encoded.antt =====
-- `decode` of src/osc.rs after `encode`.
use libwing.Prelude.{
  ◌^◌, ◌≤◌, ◌<◌, ◌≡◌, refl, sym, ap, ◌∙◌, Bool, true, false, List, [], ◌∷◌, ◌++◌, append_assoc,
  append-nil, ◌||◌, ltb, length, length-append, map, arith, All, ltb_false→le, if◌then◌else◌,
}
use libwing.Prelude.BigEndian.{Bytes}
use libwing.Prelude.Utf8.{IsStr, is_utf8}
use libwing.Osc.{
  ok, err, OscError, OscArg, int, float, str, blob, OscMessage, contains, push_osc_string, any_nul,
  tag_of, encode_args, encode, decode_rest, starts_with, decode, max_packet_bytes, malformed,
  too_large,
}
use libwing.Osc.RoundTrip.{
  IsArg, string_form, args_form, read_osc_string-form, read_args-form, push_args-form, or_eq_false,
}

-- The bytes of a message.
abbrev tagged_form : List OscArg → Bytes
tagged_form [] = []
tagged_form (arg ∷ args) = string_form (0x2c ∷ map tag_of (arg ∷ args)) ++ args_form (arg ∷ args)

abbrev message_form : OscMessage → Bytes
message_form msg = string_form msg.addr ++ tagged_form msg.args

encode_args-form :
    (buf : Bytes) (args : List OscArg) → encode_args buf args ≡ buf ++ tagged_form args
unfolding encode_args
encode_args-form buf [] = sym (append-nil buf)
encode_args-form buf (arg ∷ args) =
    push_args-form (push_osc_string buf tags) (arg ∷ args)
    ∙ ap (λ (t : Bytes). t ++ args_form (arg ∷ args)) (append_assoc buf tags _)
    ∙ append_assoc buf (string_form tags) (args_form (arg ∷ args))
  where
    tags : Bytes
    tags = 0x2c ∷ map tag_of (arg ∷ args)

pub ok-injective {ℓ} : {A : Type ℓ} {a b : A} → ok a ≡ ok b → a ≡ b
ok-injective {a = a} p = ap (λ r. elim r [ ok x ↦ x | err e ↦ a ]) p

pub err-ne-ok {ℓ} : {A : Type ℓ} {e : OscError} {a : A} → err e ≡ ok a → ⊥
err-ne-ok p = cc

-- What `encode` returns, and when.
encode-ok :
    (msg : OscMessage) (wire : Bytes)
    → encode msg ≡ ok wire
    → (contains msg.addr 0 ≡ false)
      × (any_nul msg.args ≡ false)
      × (wire ≡ message_form msg)
      × (length wire ≤ max_packet_bytes)
unfolding encode
encode-ok msg wire e = nul (contains msg.addr 0 || any_nul msg.args) refl e
  where
    buf : Bytes
    buf = encode_args (push_osc_string [] msg.addr) msg.args

    Encoded : Type 0
    Encoded =
        (contains msg.addr 0 ≡ false)
        × (any_nul msg.args ≡ false)
        × (wire ≡ message_form msg)
        × (length wire ≤ max_packet_bytes)

    size :
        (b : Bool)
        → ltb max_packet_bytes (length buf) ≡ b
        → (contains msg.addr 0 ≡ false) × (any_nul msg.args ≡ false)
        → (if b then err (too_large (length buf)) else ok buf) ≡ ok wire
        → Encoded
    size true h n p = absurd (err-ne-ok p)
    size false h (n₁, n₂) p = (
      n₁,
      n₂,
      sym (ok-injective p) ∙ encode_args-form (push_osc_string [] msg.addr) msg.args,
      omega (
        arith,
        ap (λ (t : Bytes). length t) (ok-injective p),
        ltb_false→le max_packet_bytes (length buf) h,
      ),
    )

    nul :
        (b : Bool)
        → (contains msg.addr 0 || any_nul msg.args) ≡ b
        → (if b
            then err malformed
            else (if ltb max_packet_bytes (length buf)
                then err (too_large (length buf))
                else ok buf))
          ≡ ok wire
        → Encoded
    nul true h p = absurd (err-ne-ok p)
    nul false h p =
        size (ltb max_packet_bytes (length buf)) refl
          (or_eq_false (contains msg.addr 0) (any_nul msg.args) h) p

tags-IsStr : (args : List OscArg) → IsStr (map tag_of args)
unfolding is_utf8
tags-IsStr [] = refl
tags-IsStr (int v ∷ args) = tags-IsStr args
tags-IsStr (float v ∷ args) = tags-IsStr args
tags-IsStr (str v ∷ args) = tags-IsStr args
tags-IsStr (blob v ∷ args) = tags-IsStr args

comma-IsStr : (bs : Bytes) → IsStr bs → IsStr (0x2c ∷ bs)
unfolding is_utf8
comma-IsStr bs h = h

tags_no_nul : (args : List OscArg) → contains (map tag_of args) 0 ≡ false
unfolding contains
tags_no_nul [] = refl
tags_no_nul (int v ∷ args) = tags_no_nul args
tags_no_nul (float v ∷ args) = tags_no_nul args
tags_no_nul (str v ∷ args) = tags_no_nul args
tags_no_nul (blob v ∷ args) = tags_no_nul args

decode_rest-form :
    (addr : Bytes) (args : List OscArg)
    → All IsArg args
    → any_nul args ≡ false
    → length (args_form args) < 2 ^ 31
    → decode_rest addr (tagged_form args) ≡ ok (record { addr = addr; args = args })
unfolding contains
decode_rest-form addr [] h n l = refl
decode_rest-form addr (arg ∷ args) h n l = rw (
  read_osc_string-form tags (args_form (arg ∷ args)) (tags_no_nul (arg ∷ args))
      (comma-IsStr _ (tags-IsStr (arg ∷ args))),
  read_args-form (arg ∷ args) h n l,
)
  where
    tags : Bytes
    tags = 0x2c ∷ map tag_of (arg ∷ args)

args_le : (args : List OscArg) → length (args_form args) ≤ length (tagged_form args)
unfolding args_form
args_le [] = omega arith
args_le (arg ∷ args) =
    omega
      (arith, length-append (string_form (0x2c ∷ map tag_of (arg ∷ args))) (args_form (arg ∷ args)))

-- A message whose address starts with `/`, with arguments as their Rust types have them: where
-- `encode` returns bytes, there are at most 32 KiB of them, and `decode` reads them back as the message.
pub decode-encode :
    (msg : OscMessage) (wire : Bytes)
    → IsStr msg.addr
    → starts_with msg.addr 0x2f ≡ true
    → All IsArg msg.args
    → encode msg ≡ ok wire
    → (length wire ≤ max_packet_bytes) × (decode wire ≡ ok msg)
unfolding decode
decode-encode msg wire hs hc ha e =
    let (n₁, n₂, same, small) = encode-ok msg wire e in
    (
      small,
      rw (same, read_osc_string-form msg.addr (tagged_form msg.args) n₁ hs, hc)
          (decode_rest-form msg.addr msg.args ha n₂ (
            omega (
              arith,
              small,
              ap (λ (t : Bytes). length t) same,
              length-append (string_form msg.addr) (tagged_form msg.args),
              args_le msg.args,
            ))),
    )
