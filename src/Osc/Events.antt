-- ===== src/Osc/Events.antt =====
-- What `parse_node_ack` of src/osc.rs makes of an acknowledgement.
use mathlib.Core.Option.{some-injective}
use libwing.Prelude.{
  ℕ, ◌≡◌, ◌≢◌, ◌⊎◌, inl, inr, ◌++◌, arith, refl, sym, ap, ◌∙◌, Bool, true, false, Option, none,
  some, List, [], ◌∷◌, ◌==◌, ◌&&◌, eqb→eq, if◌then◌else◌,
}
use libwing.Prelude.BigEndian.{Bytes}
use libwing.Osc.{
  Result, ok, err, malformed, node, OscNodeError, node_not_found, value_error, buffer_overflow,
  node_is_not_par, incomplete_data, stack_empty, OscArg, str, OscMessage,
}
use libwing.Osc.Requests.{bytes_eq}
use libwing.Osc.Replies.{ends_with, error_text, parse, ok_text, rejection, ack_of, parse_node_ack}

and-true : (a b : Bool) → (a && b) ≡ true → (a ≡ true) × (b ≡ true)
and-true true b h = (refl, h)
and-true false b h = absurd cc

pub bytes_eq→eq : (a b : Bytes) → bytes_eq a b ≡ true → a ≡ b
unfolding bytes_eq
bytes_eq→eq [] [] h = refl
bytes_eq→eq [] (y ∷ b) h = absurd cc
bytes_eq→eq (x ∷ a) [] h = absurd cc
bytes_eq→eq (x ∷ a) (y ∷ b) h =
    let (p, q) = and-true (x == y) (bytes_eq a b) h in
    ap (λ c. c ∷ a) (eqb→eq x y p) ∙ ap (λ (t : Bytes). y ∷ t) (bytes_eq→eq a b q)

bytes_eq_refl : (a : Bytes) → bytes_eq a a ≡ true
unfolding bytes_eq
bytes_eq_refl [] = refl
bytes_eq_refl (x ∷ a) = rw (bytes_eq_refl a) (ground arith)

pub bytes_eq-false : (a b : Bytes) → bytes_eq a b ≡ false → a ≢ b
bytes_eq-false a b h e = let impossible : true ≡ false = rw (e, bytes_eq_refl b) at h in absurd cc

-- The address of an acknowledgement.
abbrev pub IsAck : Bytes → Type 0
IsAck addr = (front : Bytes) × (addr ≡ front ++ 0x2a ∷ [])

ends_with-append : (front : Bytes) (c : ℕ) → ends_with (front ++ c ∷ []) c ≡ true
unfolding ends_with
ends_with-append [] c = ground arith
ends_with-append (b ∷ []) c = ground arith
ends_with-append (b ∷ next ∷ front) c = ends_with-append (next ∷ front) c

pub ends_with-true : (addr : Bytes) → ends_with addr 0x2a ≡ true → IsAck addr
unfolding ends_with
ends_with-true [] h = absurd cc
ends_with-true (b ∷ []) h = ([], ap (λ c. c ∷ []) (eqb→eq b 0x2a h))
ends_with-true (b ∷ next ∷ addr) h =
    let (front, e) = ends_with-true (next ∷ addr) h in (b ∷ front, ap (λ (t : Bytes). b ∷ t) e)

pub ends_with-false : (addr : Bytes) → ends_with addr 0x2a ≡ false → ¬ IsAck addr
ends_with-false addr h (front, e) =
    let impossible : true ≡ false = rw (e, ends_with-append front 0x2a) at h in absurd cc

if_parse :
    (s : Bytes) (e' e : OscNodeError) (later : Option OscNodeError) (b : Bool)
    → bytes_eq s (error_text e') ≡ b
    → (later ≡ some e → s ≡ error_text e)
    → (if b then some e' else later) ≡ some e
    → s ≡ error_text e
if_parse s e' e later true h k p =
    bytes_eq→eq s (error_text e') h ∙ ap error_text (some-injective e' e p)
if_parse s e' e later false h k p = k p

parse-some : (s : Bytes) (e : OscNodeError) → parse s ≡ some e → s ≡ error_text e
unfolding parse
parse-some s e = if_parse s node_not_found e _ _ refl (
    if_parse s value_error e _ _ refl (
      if_parse s buffer_overflow e _ _ refl (
        if_parse s node_is_not_par e _ _ refl (
          if_parse s incomplete_data e _ _ refl
            (if_parse s stack_empty e none _ refl (λ p. absurd cc))))))

-- The text of an acknowledgement, and what it stands for.
abbrev pub ack_text : Option OscNodeError → Bytes
ack_text none = ok_text
ack_text (some e) = error_text e

abbrev pub ack_result : Option OscNodeError → Result (Unit {0})
ack_result none = ok tt
ack_result (some e) = err (node e)

own_text : (reply : Option OscNodeError) → ack_of (str (ack_text reply) ∷ []) ≡ ack_result reply
unfolding parse error_text bytes_eq
own_text none = refl
own_text (some node_not_found) = refl
own_text (some value_error) = refl
own_text (some buffer_overflow) = refl
own_text (some node_is_not_par) = refl
own_text (some incomplete_data) = refl
own_text (some stack_empty) = refl

-- On an address that ends with `*`, OK is read as success and each of the six documented texts as
-- its own rejection.
pub parse_node_ack-ack_text :
    (addr : Bytes) (reply : Option OscNodeError)
    → ends_with addr 0x2a ≡ true
    → parse_node_ack (record { addr = addr; args = str (ack_text reply) ∷ [] }) ≡ ack_result reply
unfolding parse_node_ack
parse_node_ack-ack_text addr reply h =
    ap (λ b. if b then ack_of (str (ack_text reply) ∷ []) else err malformed) h ∙ own_text reply

-- What an acknowledgement says: OK, a rejection, or nothing that is documented.
abbrev pub Says : OscMessage → Result (Unit {0}) → Type 0
Says msg (ok _) = IsAck msg.addr × (msg.args ≡ str ok_text ∷ [])
Says msg (err (node e)) = IsAck msg.addr × (msg.args ≡ str (error_text e) ∷ [])
Says msg (err malformed) =
    (¬ IsAck msg.addr) ⊎ ((reply : Option OscNodeError) → msg.args ≢ str (ack_text reply) ∷ [])
Says msg (err _) = ⊥

undocumented :
    (args : List OscArg)
    → ack_of args ≡ err malformed
    → (reply : Option OscNodeError) → args ≢ str (ack_text reply) ∷ []
undocumented args h reply e = refused reply (sym (own_text reply) ∙ ap ack_of (sym e) ∙ h)
  where
    refused : (reply : Option OscNodeError) → ack_result reply ≢ err malformed
    refused none p = absurd cc
    refused (some x) p = absurd cc

text-Says :
    (addr text : Bytes) (o : Option OscNodeError)
    → IsAck addr
    → parse text ≡ o
    → ack_of (str text ∷ []) ≡ rejection o
    → Says (record { addr = addr; args = str text ∷ [] }) (rejection o)
text-Says addr text none a h k = inr (undocumented (str text ∷ []) k)
text-Says addr text (some e) a h k = (a, ap (λ (t : Bytes). str t ∷ []) (parse-some text e h))

ok-Says :
    (addr text : Bytes) (b : Bool)
    → IsAck addr
    → bytes_eq text ok_text ≡ b
    → Says
        (record { addr = addr; args = str text ∷ [] })
        (if b then ok tt else rejection (parse text))
ok-Says addr text true a h = (a, ap (λ (t : Bytes). str t ∷ []) (bytes_eq→eq text ok_text h))
ok-Says addr text false a h =
    text-Says addr text (parse text) a refl
      (ap (λ b. if b then ok tt else rejection (parse text)) h)

ack_of-Says :
    (addr : Bytes) (args : List OscArg)
    → IsAck addr
    → Says (record { addr = addr; args = args }) (ack_of args)
ack_of-Says addr (str text ∷ []) a = ok-Says addr text (bytes_eq text ok_text) a refl
ack_of-Says addr args a = inr (undocumented args refl)

if-Says :
    (msg : OscMessage) (b : Bool)
    → ends_with msg.addr 0x2a ≡ b
    → Says msg (if b then ack_of msg.args else err malformed)
if-Says msg true h = ack_of-Says msg.addr msg.args (ends_with-true msg.addr h)
if-Says msg false h = inl (ends_with-false msg.addr h)

-- `parse_node_ack` accepts only the text OK, at an address that ends with `*`, and names a rejection
-- only for that rejection's own text at such an address; it answers malformed only where the address
-- does not end with `*` or the arguments are none of the seven documented texts, and nothing else.
pub parse_node_ack-Says : (msg : OscMessage) → Says msg (parse_node_ack msg)
unfolding parse_node_ack
parse_node_ack-Says msg = if-Says msg (ends_with msg.addr 0x2a) refl
