-- ===== src/Osc/Retries.antt =====
-- What `request_with_policy` of src/osc.rs sends, and what it does to the queue.
use mathlib.Core.Path.{subst⁻¹}
use libwing.Prelude.{
  ℕ, zero, suc, ◌+◌, ◌≤◌, ◌≡◌, refl, sym, ap, ◌∙◌, Bool, true, false, List, [], ◌∷◌, ◌++◌,
  append_assoc, append-nil, ltb, leb, length, arith, if◌then◌else◌,
}
use libwing.Prelude.Ints.{ℤ}
use libwing.Prelude.BigEndian.{Bytes}
use libwing.Osc.{Result, ok, err, malformed, timeout, retries_exhausted, OscMessage, encode, decode}
use libwing.Osc.Client
use libwing.Osc.Matching.{is_relative_write, reply_matches, message_eq}
use libwing.Osc.Client.{
  send_encoded, send, request_with_policy, at_least_one, attempt_loop, after_attempt, request,
  unsolicited_cap, duplicate_drain_cap, arrives, send_bytes, after_receive, drain_received,
  receive_loop, after_reply, drain, Receive, drain_decoded, returned, after_send, Wait, waiting,
  buffer_unsolicited, WingOscClient, OscRun,
}
use Client.{broken, silent}

abbrev pub state_of {ℓ} : {A : Type ℓ} → OscRun A → WingOscClient
state_of (waiting c) = c
state_of (returned r c) = c

if-Holds {κ} :
    (P : WingOscClient → Type κ) (b : Bool) (c d : WingOscClient)
    → P c
    → P d
    → P (if b then c else d)
if-Holds P true c d hc hd = hc
if-Holds P false c d hc hd = hd

-- A fact about the client that the receiving side of a request keeps.
module _ {κ} (P : WingOscClient → Type κ)
    (on_wait : (c : WingOscClient) (ws : List Wait) → P c → P (record c { waits = ws }))
    (on_buffer : (c : WingOscClient) (msg : OscMessage) → P c → P (buffer_unsolicited msg c)) where
  drain_decoded-P :
      (m : OscMessage) (more : WingOscClient → WingOscClient) (r : Result OscMessage)
      (c : WingOscClient)
      → ((d : WingOscClient) → P d → P (more d))
      → P c
      → P (drain_decoded m more r c)
  drain_decoded-P m more (ok msg) c h p =
      if-Holds P (message_eq msg m) _ _ (h c p) (on_buffer c msg p)
  drain_decoded-P m more (err malformed) c h p = h c p
  drain_decoded-P m more (err _) c h p = p

  drain_received-P :
      (m : OscMessage) (more : WingOscClient → WingOscClient) (r : Receive) (c : WingOscClient)
      → ((d : WingOscClient) → P d → P (more d))
      → P c
      → P (drain_received m more r c)
  drain_received-P m more (arrives bytes) c h p = drain_decoded-P m more (decode bytes) c h p
  drain_received-P m more silent c h p = p
  drain_received-P m more broken c h p = p

  drain-P : (n : ℕ) (ws : List Wait) (m : OscMessage) (c : WingOscClient) → P c → P (drain n ws m c)
  unfolding drain
  drain-P zero ws m c p = on_wait c ws p
  drain-P (suc n) [] m c p = on_wait c [] p
  drain-P (suc n) (w ∷ ws) m c p =
      if-Holds P w.expired _ _ (on_wait c (record w { expired = false } ∷ ws) p) (
        drain_received-P m (drain n ws m) w.receive (record c { waits = ws })
          (λ d q. drain-P n ws m d q) (on_wait c ws p))

  if_run-P :
      (b : Bool) (x y : OscRun OscMessage)
      → P (state_of x)
      → P (state_of y)
      → P (state_of (if b then x else y))
  if_run-P true x y hx hy = hx
  if_run-P false x y hx hy = hy

  after_reply-P :
      (names : ℤ → List Bytes) (addr : Bytes) (again : WingOscClient → OscRun OscMessage)
      (r : Result OscMessage) (c : WingOscClient)
      → ((d : WingOscClient) → P d → P (state_of (again d)))
      → P c
      → P (state_of (after_reply names addr again r c))
  after_reply-P names addr again (ok reply) c h p =
      if_run-P (reply_matches names addr reply.addr) _ _
        (drain-P duplicate_drain_cap c.waits reply c p)
        (h (buffer_unsolicited reply c) (on_buffer c reply p))
  after_reply-P names addr again (err malformed) c h p = h c p
  after_reply-P names addr again (err _) c h p = p

  after_receive-P :
      (names : ℤ → List Bytes) (addr : Bytes) (again : WingOscClient → OscRun OscMessage)
      (r : Receive) (c : WingOscClient)
      → ((d : WingOscClient) → P d → P (state_of (again d)))
      → P c
      → P (state_of (after_receive names addr again r c))
  after_receive-P names addr again silent c h p = p
  after_receive-P names addr again broken c h p = p
  after_receive-P names addr again (arrives bytes) c h p =
      after_reply-P names addr again (decode bytes) c h p

  pub receive_loop-P :
      (names : ℤ → List Bytes) (addr : Bytes) (ws : List Wait) (c : WingOscClient)
      → P c
      → P (state_of (receive_loop names addr ws c))
  unfolding receive_loop
  receive_loop-P names addr [] c p = p
  receive_loop-P names addr (w ∷ ws) c p =
      if_run-P w.expired _ _ (on_wait c (record w { expired = false } ∷ ws) p) (
        after_receive-P names addr (receive_loop names addr ws) w.receive (record c { waits = ws })
          (λ d q. receive_loop-P names addr ws d q) (on_wait c ws p))

unfoldable pub copies : ℕ → Bytes → List Bytes
copies zero wire = []
copies (suc n) wire = wire ∷ copies n wire

-- Between the two states, `wire` was sent so many times at most, and nothing else.
abbrev pub Sends : ℕ → Bytes → WingOscClient → WingOscClient → Type 0
Sends most wire c d = (k : ℕ) × (k ≤ most) × (d.sent ≡ c.sent ++ copies k wire)

buffer-sent : (c : WingOscClient) (msg : OscMessage) → (buffer_unsolicited msg c).sent ≡ c.sent
unfolding buffer_unsolicited
buffer-sent c msg =
    if-Holds (λ d. d.sent ≡ c.sent) (leb unsolicited_cap (length c.unsolicited)) _ _ refl refl

receive_loop-sent :
    (names : ℤ → List Bytes) (addr : Bytes) (ws : List Wait) (c : WingOscClient)
    → (state_of (receive_loop names addr ws c)).sent ≡ c.sent
receive_loop-sent names addr ws c =
    receive_loop-P (λ d. d.sent ≡ c.sent) (λ d ws p. p) (λ d msg p. buffer-sent d msg ∙ p) names
      addr ws c refl

send_bytes-Sends :
    (names : ℤ → List Bytes) (addr wire : Bytes) (fails : List Bool) (c : WingOscClient)
    → Sends 1 wire c
        (state_of (after_send (λ s. receive_loop names addr s.waits s) (send_bytes wire fails c)))
unfolding copies
send_bytes-Sends names addr wire [] c = (1, omega arith, receive_loop-sent names addr c.waits _)
send_bytes-Sends names addr wire (true ∷ fails) c = (0, omega arith, sym (append-nil c.sent))
send_bytes-Sends names addr wire (false ∷ fails) c =
    (1, omega arith, receive_loop-sent names addr c.waits _)

request-Sends :
    (names : ℤ → List Bytes) (msg : OscMessage) (wire : Bytes) (c : WingOscClient)
    → encode msg ≡ ok wire
    → Sends 1 wire c (state_of (request names msg c))
unfolding request send
request-Sends names msg wire c e =
    subst⁻¹
      (λ r.
        Sends 1 wire c
          (state_of (after_send (λ s. receive_loop names msg.addr s.waits s) (send_encoded r c))))
      e (send_bytes-Sends names msg.addr wire c.sends c)

copies-add : (j k : ℕ) (wire : Bytes) → copies j wire ++ copies k wire ≡ copies (j + k) wire
unfolding copies
copies-add zero k wire = ap (λ n. copies n wire) (none_more k)
  where
    none_more : (k : ℕ) → k ≡ 0 + k
    none_more k = omega arith
copies-add (suc j) k wire =
    ap (λ (t : List Bytes). wire ∷ t) (copies-add j k wire) ∙ ap (λ n. copies n wire) one_more
  where
    one_more : suc (j + k) ≡ suc j + k
    one_more = omega arith

pub Sends-trans :
    (a b : ℕ) (wire : Bytes) (c d e : WingOscClient)
    → Sends a wire c d
    → Sends b wire d e
    → Sends (a + b) wire c e
Sends-trans a b wire c d e (j, hj, p) (k, hk, q) = (
  j + k,
  omega arith,
  q
      ∙ ap (λ (t : List Bytes). t ++ copies k wire) p
      ∙ append_assoc c.sent (copies j wire) (copies k wire)
      ∙ ap (λ (t : List Bytes). c.sent ++ t) (copies-add j k wire),
)

Sends-le :
    (a b : ℕ) (wire : Bytes) (c d : WingOscClient) → a ≤ b → Sends a wire c d → Sends b wire c d
Sends-le a b wire c d h (k, hk, p) = (k, omega arith, p)

after_attempt-Sends :
    (wire : Bytes) (attempts attempt left : ℕ) (again : WingOscClient → OscRun OscMessage)
    (c : WingOscClient) (run : OscRun OscMessage)
    → Sends 1 wire c (state_of run)
    → ((d : WingOscClient) → Sends left wire d (state_of (again d)))
    → Sends (suc left) wire c (state_of (after_attempt attempts attempt again run))
after_attempt-Sends wire attempts attempt left again c (waiting d) h k =
    Sends-le 1 (suc left) wire c d (omega arith) h
after_attempt-Sends wire attempts attempt left again c (returned (ok r) d) h k =
    Sends-le 1 (suc left) wire c d (omega arith) h
after_attempt-Sends wire attempts attempt left again c (returned (err timeout) d) h k =
    go (ltb attempt attempts)
  where
    go :
        (b : Bool)
        → Sends
            (suc left)
            wire
            c
            (state_of (if b then again d else returned (err (retries_exhausted attempt)) d))
    go true =
        Sends-le (1 + left) (suc left) wire c (state_of (again d)) (omega arith)
          (Sends-trans 1 left wire c d (state_of (again d)) h (k d))
    go false = Sends-le 1 (suc left) wire c d (omega arith) h
after_attempt-Sends wire attempts attempt left again c (returned (err _) d) h k =
    Sends-le 1 (suc left) wire c d (omega arith) h

attempt_loop-Sends :
    (names : ℤ → List Bytes) (attempts : ℕ) (msg : OscMessage) (wire : Bytes) (left attempt : ℕ)
    (c : WingOscClient)
    → encode msg ≡ ok wire
    → Sends left wire c (state_of (attempt_loop names attempts msg left attempt c))
unfolding attempt_loop copies
attempt_loop-Sends names attempts msg wire zero attempt c e =
    (0, omega arith, sym (append-nil c.sent))
attempt_loop-Sends names attempts msg wire (suc left) attempt c e =
    after_attempt-Sends wire attempts attempt left
      (attempt_loop names attempts msg left (suc attempt)) c (request names msg c)
      (request-Sends names msg wire c e)
      (λ d. attempt_loop-Sends names attempts msg wire left (suc attempt) d e)

-- The sends that a policy grants a message.
abbrev pub granted : Bool → ℕ → ℕ
granted true attempts = 1
granted false attempts = at_least_one attempts

-- `request_with_policy` sends nothing but the message, at most once for a relative write whatever
-- the policy says, and at most as often as the policy's attempts (once for none) for any other.
pub request_with_policy-Sends :
    (names : ℤ → List Bytes) (attempts : ℕ) (msg : OscMessage) (wire : Bytes) (c : WingOscClient)
    → encode msg ≡ ok wire
    → Sends
        (granted (is_relative_write msg) attempts)
        wire
        c
        (state_of (request_with_policy names attempts msg c))
unfolding request_with_policy
request_with_policy-Sends names attempts msg wire c e = go (is_relative_write msg)
  where
    go :
        (b : Bool)
        → Sends (granted b attempts) wire c (
            state_of (
              if b
              then request names msg c
              else attempt_loop names attempts msg (at_least_one attempts) 1 c))
    go true = request-Sends names msg wire c e
    go false = attempt_loop-Sends names attempts msg wire (at_least_one attempts) 1 c e
