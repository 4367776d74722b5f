-- ===== src/Osc/Unsolicited.antt =====
-- The queue of unsolicited messages of src/osc.rs.
use libwing.Prelude.{
  ℕ, zero, suc, ◌≤◌, ◌≡◌, refl, Bool, true, false, List, [], ◌∷◌, ◌++◌, ltb, leb, leb→le,
  leb_false→lt, length, length-append, length-drop, drop, arith, if◌then◌else◌,
}
use libwing.Prelude.Ints.{ℤ}
use libwing.Prelude.BigEndian.{Bytes}
use libwing.Osc.{Result, ok, err, timeout, retries_exhausted, OscMessage, encode}
use libwing.Osc.Matching.{is_relative_write}
use libwing.Osc.Client.{
  WingOscClient, Wait, OscRun, waiting, returned, unsolicited_cap, buffer_unsolicited, receive_loop,
  send_bytes, send_encoded, send, after_send, request, after_attempt, attempt_loop, at_least_one,
  request_with_policy,
}
use libwing.Osc.Retries.{state_of, receive_loop-P}

abbrev pub IsBounded : WingOscClient → Type 0
IsBounded c = length c.unsolicited ≤ unsolicited_cap

buffer-IsBounded :
    (c : WingOscClient) (msg : OscMessage) → IsBounded c → IsBounded (buffer_unsolicited msg c)
unfolding buffer_unsolicited
buffer-IsBounded c msg h = go (leb unsolicited_cap (length c.unsolicited)) refl
  where
    go :
        (b : Bool)
        → leb unsolicited_cap (length c.unsolicited) ≡ b
        → IsBounded (
            if b
            then record c {
              unsolicited = drop 1 c.unsolicited ++ msg ∷ [];
              unsolicited_dropped = suc c.unsolicited_dropped;
            }
            else record c { unsolicited = c.unsolicited ++ msg ∷ [] })
    go true e = omega (
      arith,
      h,
      leb→le unsolicited_cap (length c.unsolicited) e,
      length-append (drop 1 c.unsolicited) (msg ∷ []),
      length-drop 1 c.unsolicited,
    )
    go false e = omega (
      arith,
      leb_false→lt unsolicited_cap (length c.unsolicited) e,
      length-append c.unsolicited (msg ∷ []),
    )

received-IsBounded :
    (names : ℤ → List Bytes) (addr : Bytes) (ws : List Wait) (c : WingOscClient)
    → IsBounded c
    → IsBounded (state_of (receive_loop names addr ws c))
received-IsBounded names addr ws c h =
    receive_loop-P IsBounded (λ d ws p. p) (λ d msg p. buffer-IsBounded d msg p) names addr ws c h

sent-IsBounded :
    (names : ℤ → List Bytes) (addr : Bytes) (r : Result Bytes) (c : WingOscClient)
    → IsBounded c
    → IsBounded (state_of (after_send (λ s. receive_loop names addr s.waits s) (send_encoded r c)))
sent-IsBounded names addr (err e) c h = h
sent-IsBounded names addr (ok bytes) c h = go c.sends
  where
    go :
        (sends : List Bool)
        → IsBounded (
            state_of
              (after_send (λ s. receive_loop names addr s.waits s) (send_bytes bytes sends c)))
    go [] = received-IsBounded names addr c.waits (record c { sent = c.sent ++ bytes ∷ [] }) h
    go (true ∷ sends) = h
    go (false ∷ sends) =
        received-IsBounded names addr c.waits
          (record c { sent = c.sent ++ bytes ∷ []; sends = sends }) h

request-IsBounded :
    (names : ℤ → List Bytes) (msg : OscMessage) (c : WingOscClient)
    → IsBounded c
    → IsBounded (state_of (request names msg c))
unfolding request send
request-IsBounded names msg c h = sent-IsBounded names msg.addr (encode msg) c h

after_attempt-IsBounded :
    (attempts attempt : ℕ) (again : WingOscClient → OscRun OscMessage) (run : OscRun OscMessage)
    → IsBounded (state_of run)
    → ((d : WingOscClient) → IsBounded d → IsBounded (state_of (again d)))
    → IsBounded (state_of (after_attempt attempts attempt again run))
after_attempt-IsBounded attempts attempt again (waiting d) h k = h
after_attempt-IsBounded attempts attempt again (returned (ok r) d) h k = h
after_attempt-IsBounded attempts attempt again (returned (err timeout) d) h k =
    go (ltb attempt attempts)
  where
    go :
        (b : Bool)
        → IsBounded (state_of (if b then again d else returned (err (retries_exhausted attempt)) d))
    go true = k d h
    go false = h
after_attempt-IsBounded attempts attempt again (returned (err _) d) h k = h

attempt_loop-IsBounded :
    (names : ℤ → List Bytes) (attempts : ℕ) (msg : OscMessage) (left attempt : ℕ)
    (c : WingOscClient)
    → IsBounded c
    → IsBounded (state_of (attempt_loop names attempts msg left attempt c))
unfolding attempt_loop
attempt_loop-IsBounded names attempts msg zero attempt c h = h
attempt_loop-IsBounded names attempts msg (suc left) attempt c h =
    after_attempt-IsBounded attempts attempt (attempt_loop names attempts msg left (suc attempt))
      (request names msg c) (request-IsBounded names msg c h)
      (λ d p. attempt_loop-IsBounded names attempts msg left (suc attempt) d p)

-- Whatever arrives, however many attempts are made and however they end, a request leaves no more
-- than 1024 unsolicited messages where it found no more.
pub request_with_policy-IsBounded :
    (names : ℤ → List Bytes) (attempts : ℕ) (msg : OscMessage) (c : WingOscClient)
    → length c.unsolicited ≤ unsolicited_cap
    → length ((state_of (request_with_policy names attempts msg c)).unsolicited) ≤ unsolicited_cap
unfolding request_with_policy
request_with_policy-IsBounded names attempts msg c h = go (is_relative_write msg)
  where
    go :
        (b : Bool)
        → IsBounded (
            state_of (
              if b
              then request names msg c
              else attempt_loop names attempts msg (at_least_one attempts) 1 c))
    go true = request-IsBounded names msg c h
    go false = attempt_loop-IsBounded names attempts msg (at_least_one attempts) 1 c h
