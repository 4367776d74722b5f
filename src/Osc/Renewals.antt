-- ===== src/Osc/Renewals.antt =====
-- What `poll_event` of src/osc.rs sends.
use mathlib.Core.Path.{subst, subst⁻¹}
use libwing.Prelude.{
  ℕ, suc, ◌+◌, ◌≤◌, ◌≡◌, refl, sym, Bool, true, false, Option, some, List, [], ◌∷◌, append-nil, leb,
  length, arith, if◌then◌else◌,
}
use libwing.Prelude.BigEndian.{Bytes}
use libwing.Osc.{Result, ok, err, OscMessage, encode, decode, timeout}
use libwing.Osc.Requests.{SubscriptionFormat}
use libwing.Osc.Replies.{OscEvent}
use libwing.Osc.Client.{
  WingOscClient, Wait, Receive, silent, broken, arrives, send_bytes, send_encoded, send,
}
use libwing.Osc.Retries.{Sends, Sends-trans, copies}
use libwing.Osc.Subscription.{
  Subscriber, SubscriptionState, SubRun, polling, polled, ticked, now, subscription_message,
  scheduled, after_subscribe, subscribe_message, subscribe_with_renewal, renew, renew_some,
  renew_some_due, renew_if_due, set_waits, event_of, after_poll, after_renew, poll_loop, poll_some,
  poll_event,
}

abbrev pub end_of {ℓ} : {A : Type ℓ} → SubRun A → Subscriber
end_of (polling s) = s
end_of (polled r s) = s

-- There is a message for such a subscription, and `wire` is its packet.
abbrev pub SendsAs : Bytes → Option (Result ℕ) → SubscriptionFormat → Type 0
SendsAs wire port format =
    (msg : OscMessage) × (subscription_message port format ≡ ok msg) × (encode msg ≡ ok wire)

-- A subscription is active, and its message is `wire`.
abbrev pub Renews : Bytes → Subscriber → Type 0
Renews wire s =
    (sub : SubscriptionState) × (s.subscription ≡ some sub) × SendsAs wire s.reply_port sub.format

-- From `s` to `t`, `wire` was sent so many times at most and nothing else, and `t` has a subscription with
-- that message.
abbrev pub Renewing : ℕ → Bytes → Subscriber → Subscriber → Type 0
Renewing most wire s t = Sends most wire s.client t.client × Renews wire t

Sends-none : (n : ℕ) (wire : Bytes) (c : WingOscClient) → Sends n wire c c
unfolding copies
Sends-none n wire c = (0, omega arith, sym (append-nil c.sent))

scheduled-Renewing :
    (format : SubscriptionFormat) (interval : ℕ) (wire : Bytes) (s t : Subscriber) (clock : List ℕ)
    → SendsAs wire t.reply_port format
    → Sends 1 wire s.client t.client
    → Renewing 1 wire s (scheduled format interval (ticked clock t))
scheduled-Renewing format interval wire s t [] e h = (h, (_, refl, e))
scheduled-Renewing format interval wire s t (x ∷ clock) e h = (h, (_, refl, e))

send_bytes-Renewing :
    (format : SubscriptionFormat) (interval : ℕ) (wire : Bytes) (s : Subscriber) (fails : List Bool)
    → SendsAs wire s.reply_port format
    → Renews wire s
    → Renewing 1 wire s
        (end_of (after_subscribe format interval s (send_bytes wire fails s.client)))
unfolding copies
send_bytes-Renewing format interval wire s [] e h =
    scheduled-Renewing format interval wire s _ s.clock e (1, omega arith, refl)
send_bytes-Renewing format interval wire s (true ∷ fails) e h =
    ((0, omega arith, sym (append-nil s.client.sent)), h)
send_bytes-Renewing format interval wire s (false ∷ fails) e h =
    scheduled-Renewing format interval wire s _ s.clock e (1, omega arith, refl)

subscribe-Renewing :
    (format : SubscriptionFormat) (interval : ℕ) (wire : Bytes) (s : Subscriber)
    → SendsAs wire s.reply_port format
    → Renews wire s
    → Renewing 1 wire s (end_of (subscribe_with_renewal format interval s))
unfolding subscribe_with_renewal send
subscribe-Renewing format interval wire s (msg, p, e) h =
    subst⁻¹ (λ r. Renewing 1 wire s (end_of (subscribe_message format interval s r))) p
      (subst⁻¹
        (λ r.
          Renewing 1 wire s (end_of (after_subscribe format interval s (send_encoded r s.client))))
        e (send_bytes-Renewing format interval wire s s.client.sends (msg, p, e) h))

renew-Renewing :
    (wire : Bytes) (s : Subscriber) → Renews wire s → Renewing 1 wire s (end_of (renew s))
unfolding renew
renew-Renewing wire s (sub, p, e) =
    subst⁻¹ (λ o. Renewing 1 wire s (end_of (renew_some o s))) p
      (subscribe-Renewing sub.format sub.renew_interval wire s e (sub, p, e))

now-Renews :
    (wire : Bytes) (s : Subscriber) (clock : List ℕ) → Renews wire s → Renews wire (ticked clock s)
now-Renews wire s [] h = h
now-Renews wire s (x ∷ clock) h = h

now-client : (s : Subscriber) (clock : List ℕ) → (ticked clock s).client ≡ s.client
now-client s [] = refl
now-client s (x ∷ clock) = refl

renew_if_due-Renewing :
    (wire : Bytes) (s : Subscriber) → Renews wire s → Renewing 1 wire s (end_of (renew_if_due s))
unfolding renew_if_due
renew_if_due-Renewing wire s (sub, p, e) =
    subst⁻¹ (λ o. Renewing 1 wire s (end_of (renew_some_due o s))) p
      (go (leb sub.next_renew (now s).last))
  where
    later : Renews wire (now s)
    later = now-Renews wire s s.clock (sub, p, e)

    go :
        (b : Bool)
        → Renewing 1 wire s (end_of (if b then renew (now s) else polled (ok tt) (now s)))
    go true =
        subst
          (λ c.
            Sends 1 wire c (end_of (renew (now s))).client × Renews wire (end_of (renew (now s))))
          (now-client s s.clock) (renew-Renewing wire (now s) later)
    go false = (
      subst⁻¹ (λ c. Sends 1 wire s.client c) (now-client s s.clock) (Sends-none 1 wire s.client),
      later,
    )

Renewing-trans :
    (a b : ℕ) (wire : Bytes) (s t u : Subscriber)
    → Renewing a wire s t
    → Renewing b wire t u
    → Renewing (a + b) wire s u
Renewing-trans a b wire s t u (h, _) (k, r) =
    (Sends-trans a b wire s.client t.client u.client h k, r)

Renewing-le :
    (a b : ℕ) (wire : Bytes) (s t : Subscriber) → a ≤ b → Renewing a wire s t → Renewing b wire s t
Renewing-le a b wire s t h ((k, l, p), r) = ((k, omega arith, p), r)

after_renew-Renewing :
    (n : ℕ) (wire : Bytes) (next : Subscriber → SubRun OscEvent) (s : Subscriber)
    (run : SubRun (Unit {0}))
    → Renewing 1 wire s (end_of run)
    → ((t : Subscriber) → Renews wire t → Renewing n wire t (end_of (next t)))
    → Renewing (1 + n) wire s (end_of (after_renew next run))
after_renew-Renewing n wire next s (polling t) h k = Renewing-le 1 (1 + n) wire s t (omega arith) h
after_renew-Renewing n wire next s (polled (ok _) t) (h, r) k =
    Renewing-trans 1 n wire s t (end_of (next t)) (h, r) (k t r)
after_renew-Renewing n wire next s (polled (err e) t) h k =
    Renewing-le 1 (1 + n) wire s t (omega arith) h

event_of-Renewing :
    (n : ℕ) (wire : Bytes) (r : Result OscMessage) (s : Subscriber)
    → Renews wire s
    → Renewing n wire s (end_of (event_of r s))
event_of-Renewing n wire (ok msg) s h = (Sends-none n wire s.client, h)
event_of-Renewing n wire (err e) s h = (Sends-none n wire s.client, h)

after_poll-Renewing :
    (n : ℕ) (wire : Bytes) (again : Subscriber → SubRun OscEvent) (r : Receive) (s : Subscriber)
    → ((t : Subscriber) → Renews wire t → Renewing n wire t (end_of (again t)))
    → Renews wire s
    → Renewing n wire s (end_of (after_poll again r s))
after_poll-Renewing n wire again silent s k h = k s h
after_poll-Renewing n wire again broken s k h = (Sends-none n wire s.client, h)
after_poll-Renewing n wire again (arrives bytes) s k h = event_of-Renewing n wire (decode bytes) s h

poll_step-Renewing :
    (n : ℕ) (wire : Bytes) (b : Bool) (t late : Subscriber) (rest : SubRun OscEvent)
    → Renewing n wire t late
    → Renewing n wire t (end_of rest)
    → Renewing n wire t (end_of (if b then polled (err timeout) late else rest))
poll_step-Renewing n wire true t late rest h k = h
poll_step-Renewing n wire false t late rest h k = k

poll_loop-Renewing :
    (wire : Bytes) (ws : List Wait) (s : Subscriber)
    → Renews wire s
    → Renewing (1 + length ws) wire s (end_of (poll_loop ws s))
unfolding poll_loop
poll_loop-Renewing wire [] s h =
    after_renew-Renewing 0 wire (λ t. polling t) s (renew_if_due s) (renew_if_due-Renewing wire s h)
      (λ t r. (Sends-none 0 wire t.client, r))
poll_loop-Renewing wire (w ∷ ws) s h =
    after_renew-Renewing (suc (length ws)) wire _ s (renew_if_due s)
      (renew_if_due-Renewing wire s h)
      (λ t r.
        poll_step-Renewing (suc (length ws)) wire w.expired t _ _
          (Sends-none (suc (length ws)) wire t.client, r)
          (after_poll-Renewing (suc (length ws)) wire (poll_loop ws) w.receive (set_waits ws t)
            (λ u q.
              Renewing-le (1 + length ws) (suc (length ws)) wire u (end_of (poll_loop ws u))
                (omega arith) (poll_loop-Renewing wire ws u q))
            r))

-- While a subscription is active whose message encodes to `wire`, `poll_event` sends nothing but
-- `wire`, at most once for each wait on the socket and once more, and leaves a subscription with
-- that message active.
pub poll_event-Renewing :
    (wire : Bytes) (s : Subscriber)
    → Renews wire s
    → Renewing (1 + length s.client.waits) wire s (end_of (poll_event s))
unfolding poll_event
poll_event-Renewing wire s (sub, p, e) =
    subst⁻¹ (λ o. Renewing (1 + length s.client.waits) wire s (end_of (poll_some o s))) p
      (poll_loop-Renewing wire s.client.waits s (sub, p, e))
