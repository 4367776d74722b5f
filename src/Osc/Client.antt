-- ===== src/Osc/Client.antt =====
-- `WingOscClient` of src/osc.rs: requests with their replies and retries.
use libwing.Prelude.{
  ℕ, zero, suc, Bool, true, false, List, [], ◌∷◌, ◌++◌, ltb, leb, length, drop, if◌then◌else◌,
}
use libwing.Prelude.Ints.{ℤ}
use libwing.Prelude.BigEndian.{Bytes}
use libwing.Osc.{
  Result, ok, err, io, malformed, timeout, retries_exhausted, OscMessage, encode, decode,
}
use libwing.Osc.Matching.{is_relative_write, reply_matches, message_eq}

-- How a `recv` comes back, and whether the deadline has passed before it.
pub data Receive : Type 0 where
  silent broken : Receive
  arrives : Bytes → Receive

pub record Wait : Type 0 where
  pub expired : Bool
  pub receive : Receive

-- The client, with what was sent and what its socket has in store: `sends` says which sends fail
-- (none, where it is used up).
pub record WingOscClient : Type 0 where
  pub unsolicited : List OscMessage
  pub unsolicited_dropped : ℕ
  pub sent : List Bytes
  pub sends : List Bool
  pub waits : List Wait

pub data OscRun {ℓ} (A : Type ℓ) : Type ℓ where
  waiting : WingOscClient → OscRun A
  returned : Result A → WingOscClient → OscRun A

abbrev pub unsolicited_cap : ℕ
unsolicited_cap = 1024

abbrev pub duplicate_drain_cap : ℕ
duplicate_drain_cap = 64

unfoldable pub buffer_unsolicited : OscMessage → WingOscClient → WingOscClient
buffer_unsolicited msg c =
    if leb unsolicited_cap (length c.unsolicited)
    then record c {
      unsolicited = drop 1 c.unsolicited ++ msg ∷ [];
      unsolicited_dropped = suc c.unsolicited_dropped;
    }
    else record c { unsolicited = c.unsolicited ++ msg ∷ [] }

abbrev pub drain_decoded :
    OscMessage → (WingOscClient → WingOscClient) → Result OscMessage → WingOscClient → WingOscClient
drain_decoded matched more (ok msg) c =
    if message_eq msg matched then more c else buffer_unsolicited msg c
drain_decoded matched more (err malformed) c = more c
drain_decoded matched more (err _) c = c

abbrev pub drain_received :
    OscMessage → (WingOscClient → WingOscClient) → Receive → WingOscClient → WingOscClient
drain_received matched more (arrives bytes) c = drain_decoded matched more (decode bytes) c
drain_received matched more _ c = c

unfoldable pub drain : ℕ → List Wait → OscMessage → WingOscClient → WingOscClient
drain zero ws matched c = record c { waits = ws }
drain (suc n) [] matched c = record c { waits = [] }
drain (suc n) (w ∷ ws) matched c =
    let rest = drain_received matched (drain n ws matched) w.receive (record c { waits = ws }) in
    if w.expired then record c { waits = record w { expired = false } ∷ ws } else rest

abbrev pub drain_duplicate_replies : OscMessage → WingOscClient → WingOscClient
drain_duplicate_replies matched c = drain duplicate_drain_cap c.waits matched c

abbrev pub after_reply :
    (ℤ → List Bytes)
    → Bytes
    → (WingOscClient → OscRun OscMessage)
    → Result OscMessage
    → WingOscClient
    → OscRun OscMessage
after_reply names request again (ok reply) c =
    if reply_matches names request reply.addr
    then returned (ok reply) (drain_duplicate_replies reply c)
    else again (buffer_unsolicited reply c)
after_reply names request again (err malformed) c = again c
after_reply names request again (err e) c = returned (err e) c

abbrev pub after_receive :
    (ℤ → List Bytes)
    → Bytes
    → (WingOscClient → OscRun OscMessage)
    → Receive
    → WingOscClient
    → OscRun OscMessage
after_receive names request again silent c = returned (err timeout) c
after_receive names request again broken c = returned (err io) c
after_receive names request again (arrives bytes) c =
    after_reply names request again (decode bytes) c

unfoldable pub receive_loop :
    (ℤ → List Bytes) → Bytes → List Wait → WingOscClient → OscRun OscMessage
receive_loop names request [] c = waiting c
receive_loop names request (w ∷ ws) c =
    let rest =
      after_receive names request (receive_loop names request ws) w.receive
        (record c { waits = ws }) in
    if w.expired
    then returned (err timeout) (record c { waits = record w { expired = false } ∷ ws })
    else rest

abbrev pub send_bytes : Bytes → List Bool → WingOscClient → OscRun (Unit {0})
send_bytes bytes [] c = returned (ok tt) (record c { sent = c.sent ++ bytes ∷ [] })
send_bytes bytes (true ∷ sends) c = returned (err io) (record c { sends = sends })
send_bytes bytes (false ∷ sends) c =
    returned (ok tt) (record c { sent = c.sent ++ bytes ∷ []; sends = sends })

abbrev pub send_encoded : Result Bytes → WingOscClient → OscRun (Unit {0})
send_encoded (ok bytes) c = send_bytes bytes c.sends c
send_encoded (err e) c = returned (err e) c

unfoldable pub send : OscMessage → WingOscClient → OscRun (Unit {0})
send msg c = send_encoded (encode msg) c

abbrev pub after_send : (WingOscClient → OscRun OscMessage) → OscRun (Unit {0}) → OscRun OscMessage
after_send receive (waiting c) = waiting c
after_send receive (returned (ok _) c) = receive c
after_send receive (returned (err e) c) = returned (err e) c

unfoldable pub request : (ℤ → List Bytes) → OscMessage → WingOscClient → OscRun OscMessage
request names msg c = after_send (λ s. receive_loop names msg.addr s.waits s) (send msg c)

-- After attempt number `attempt` of `attempts`.
abbrev pub after_attempt :
    ℕ → ℕ → (WingOscClient → OscRun OscMessage) → OscRun OscMessage → OscRun OscMessage
after_attempt attempts attempt again (waiting c) = waiting c
after_attempt attempts attempt again (returned (ok reply) c) = returned (ok reply) c
after_attempt attempts attempt again (returned (err timeout) c) =
    if ltb attempt attempts then again c else returned (err (retries_exhausted attempt)) c
after_attempt attempts attempt again (returned (err e) c) = returned (err e) c

-- `left` attempts are left of the range.
unfoldable pub attempt_loop :
    (ℤ → List Bytes) → ℕ → OscMessage → ℕ → ℕ → WingOscClient → OscRun OscMessage
attempt_loop names attempts msg zero attempt c = returned (err (retries_exhausted attempts)) c
attempt_loop names attempts msg (suc left) attempt c =
    after_attempt attempts attempt (attempt_loop names attempts msg left (suc attempt))
      (request names msg c)

-- `attempts.max(1)`.
abbrev pub at_least_one : ℕ → ℕ
at_least_one zero = 1
at_least_one (suc n) = suc n

unfoldable pub request_with_policy :
    (ℤ → List Bytes) → ℕ → OscMessage → WingOscClient → OscRun OscMessage
request_with_policy names attempts msg c =
    if is_relative_write msg
    then request names msg c
    else attempt_loop names attempts msg (at_least_one attempts) 1 c

unfoldable pub take_unsolicited : WingOscClient → List OscMessage × WingOscClient
take_unsolicited c = (c.unsolicited, record c { unsolicited = [] })

unfoldable pub take_unsolicited_dropped : WingOscClient → ℕ × WingOscClient
take_unsolicited_dropped c = (c.unsolicited_dropped, record c { unsolicited_dropped = 0 })
