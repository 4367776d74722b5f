-- ===== src/Osc/ReplyPort.antt =====
-- The reply-port prefix of src/osc.rs: `with_reply_port`, and how a reply is matched to its request.
use mathlib.Core.Path.{subst⁻¹}
use libwing.Prelude.{
  lt→ltb, length-append, eqb→eq, ℕ, zero, suc, ◌+◌, ◌/◌, ◌%◌, ◌≡◌, refl, Bool, true, false, List,
  [], ◌∷◌, ◌++◌, length, drop-append, ltb, eqb_refl, arith, All, All-append, if◌then◌else◌,
}
use libwing.Prelude.Ints.{ℤ}
use libwing.Prelude.BigEndian.{Bytes}
use libwing.Osc.{OscMessage, starts_with}
use libwing.Osc.Requests.{bytes_eq, decimal, with_reply_port}
use libwing.Osc.Replies.{ends_with}
use libwing.Osc.Matching.{is_digit, digits, strip_prefix, strip_reply_port, reply_matches}

IsDigit : ℕ → Type 0
IsDigit b = is_digit b ≡ true

last-IsDigit : (n : ℕ) → IsDigit (0x30 + n % 10)
unfolding IsDigit
last-IsDigit n = ground arith

decimal-IsDigit : (k n : ℕ) → All IsDigit (decimal k n)
unfolding decimal
decimal-IsDigit zero n = tt
decimal-IsDigit (suc k) n = go (ltb n 10) (decimal k (n / 10)) (decimal-IsDigit k (n / 10))
  where
    go :
        (b : Bool) (before : Bytes)
        → All IsDigit before
        → All IsDigit ((if b then [] else before) ++ (0x30 + n % 10) ∷ [])
    go true before h = (last-IsDigit n, tt)
    go false before h = All-append IsDigit before _ h (last-IsDigit n, tt)

-- The digits of a number, with something else behind them, are all counted.
digits-append :
    (ds : Bytes) (c : ℕ) (rest : Bytes)
    → All IsDigit ds
    → is_digit c ≡ false
    → digits (ds ++ c ∷ rest) ≡ length ds
unfolding digits IsDigit
digits-append [] c rest h k = rw k
digits-append (d ∷ ds) c rest (h, hs) k = rw (h, digits-append ds c rest hs k)

last_digit : (ds : Bytes) (d : ℕ) → ltb 0 (length (ds ++ d ∷ [])) ≡ true
last_digit ds d = lt→ltb 0 (length (ds ++ d ∷ [])) (omega (arith, length-append ds (d ∷ [])))

nonempty : (k n : ℕ) → ltb 0 (length (decimal (suc k) n)) ≡ true
unfolding decimal
nonempty k n = last_digit (if ltb n 10 then [] else decimal k (n / 10)) (0x30 + n % 10)

strip_port :
    (port : ℕ) (rest : Bytes)
    → strip_reply_port ((0x2f ∷ 0x25 ∷ decimal 5 port) ++ 0x2f ∷ rest) ≡ 0x2f ∷ rest
unfolding strip_reply_port strip_prefix
strip_port port rest = rw (
  digits-append (decimal 5 port) 0x2f rest (decimal-IsDigit 5 port) refl,
  nonempty 4 port,
  drop-append (decimal 5 port) (0x2f ∷ rest),
)

bytes_eq_refl : (s : Bytes) → bytes_eq s s ≡ true
unfolding bytes_eq
bytes_eq_refl [] = refl
bytes_eq_refl (b ∷ s) = rw (eqb_refl b) (bytes_eq_refl s)

-- The port of a redirected request is stripped again, whatever it is, where the message's address
-- starts with `/`; and a reply on the message's own address answers the request, where that address
-- is no acknowledgement's.
pub reply_matches-with_reply_port :
    (names : ℤ → List Bytes) (port : ℕ) (msg : OscMessage)
    → starts_with msg.addr 0x2f ≡ true
    → ends_with msg.addr 0x2a ≡ false
    → (strip_reply_port (with_reply_port port msg).addr ≡ msg.addr)
      × (reply_matches names (with_reply_port port msg).addr msg.addr ≡ true)
unfolding reply_matches
reply_matches-with_reply_port names port msg h k =
    (stripped, rw (stripped, k, bytes_eq_refl msg.addr))
  where
    go :
        (addr : Bytes)
        → starts_with addr 0x2f ≡ true
        → strip_reply_port ((0x2f ∷ 0x25 ∷ decimal 5 port) ++ addr) ≡ addr
    go [] h = absurd cc
    go (b ∷ rest) h =
        subst⁻¹ (λ c. strip_reply_port ((0x2f ∷ 0x25 ∷ decimal 5 port) ++ c ∷ rest) ≡ c ∷ rest)
          (eqb→eq b 0x2f h) (strip_port port rest)

    stripped : strip_reply_port (with_reply_port port msg).addr ≡ msg.addr
    stripped = go msg.addr h
