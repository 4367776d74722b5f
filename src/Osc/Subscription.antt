-- ===== src/Osc/Subscription.antt =====
-- The subscriptions of `WingOscClient` of src/osc.rs. An Instant is a number of
-- milliseconds.
use libwing.Prelude.{ℕ, ◌+◌, false, Option, none, some, List, [], ◌∷◌, leb, if◌then◌else◌}
use libwing.Osc.{Result, ok, err, malformed, timeout, io, OscMessage, decode}
use libwing.Osc.Requests.{SubscriptionFormat, subscribe, with_reply_port}
use libwing.Osc.Replies.{OscEvent, classify_event}
use libwing.Osc.Client.{
  WingOscClient, Wait, Receive, silent, broken, arrives, OscRun, waiting, returned, send,
}

pub record SubscriptionState : Type 0 where
  pub format : SubscriptionFormat
  pub renew_interval : ℕ
  pub next_renew : ℕ

-- A client with its subscription, the port that its reply socket reports, where it has one, and the readings of the clock that
-- are to come, with the last one.
pub record Subscriber : Type 0 where
  pub client : WingOscClient
  pub subscription : Option SubscriptionState
  pub reply_port : Option (Result ℕ)
  pub last : ℕ
  pub clock : List ℕ

pub data SubRun {ℓ} (A : Type ℓ) : Type ℓ where
  polling : Subscriber → SubRun A
  polled : Result A → Subscriber → SubRun A

-- `Instant::now()`.
abbrev pub ticked : List ℕ → Subscriber → Subscriber
ticked [] s = s
ticked (t ∷ clock) s = record s { last = t; clock = clock }

abbrev pub now : Subscriber → Subscriber
now s = ticked s.clock s

abbrev pub redirected : SubscriptionFormat → Result ℕ → Result OscMessage
redirected format (ok port) = ok (with_reply_port port (subscribe format))
redirected format (err e) = err e

abbrev pub subscription_message : Option (Result ℕ) → SubscriptionFormat → Result OscMessage
subscription_message none format = ok (subscribe format)
subscription_message (some port) format = redirected format port

-- After the send: the next renewal is one interval from now.
abbrev pub scheduled : SubscriptionFormat → ℕ → Subscriber → Subscriber
scheduled format interval s = record s {
  subscription =
      some (record { format = format; renew_interval = interval; next_renew = s.last + interval });
}

abbrev pub after_subscribe :
    SubscriptionFormat → ℕ → Subscriber → OscRun (Unit {0}) → SubRun (Unit {0})
after_subscribe format interval s (waiting c) = polling (record s { client = c })
after_subscribe format interval s (returned (err e) c) = polled (err e) (record s { client = c })
after_subscribe format interval s (returned (ok _) c) =
    polled (ok tt) (scheduled format interval (now (record s { client = c })))

abbrev pub subscribe_message :
    SubscriptionFormat → ℕ → Subscriber → Result OscMessage → SubRun (Unit {0})
subscribe_message format interval s (ok msg) = after_subscribe format interval s (send msg s.client)
subscribe_message format interval s (err e) = polled (err e) s

unfoldable pub subscribe_with_renewal : SubscriptionFormat → ℕ → Subscriber → SubRun (Unit {0})
subscribe_with_renewal format interval s =
    subscribe_message format interval s (subscription_message s.reply_port format)

-- `SUBSCRIPTION_RENEW_MARGIN` in milliseconds.
abbrev pub subscription_renew_margin : ℕ
subscription_renew_margin = 5000

-- `WingOscClient::subscribe`.
abbrev pub subscribe_client : SubscriptionFormat → Subscriber → SubRun (Unit {0})
subscribe_client format s = subscribe_with_renewal format subscription_renew_margin s

abbrev pub renew_some : Option SubscriptionState → Subscriber → SubRun (Unit {0})
renew_some none s = polled (ok tt) s
renew_some (some sub) s = subscribe_with_renewal sub.format sub.renew_interval s

unfoldable pub renew : Subscriber → SubRun (Unit {0})
renew s = renew_some s.subscription s

-- `renew` where `renew_due` holds.
abbrev pub renew_some_due : Option SubscriptionState → Subscriber → SubRun (Unit {0})
renew_some_due none s = polled (ok tt) s
renew_some_due (some sub) s =
    if leb sub.next_renew (now s).last then renew (now s) else polled (ok tt) (now s)

unfoldable pub renew_if_due : Subscriber → SubRun (Unit {0})
renew_if_due s = renew_some_due s.subscription s

abbrev pub set_waits : List Wait → Subscriber → Subscriber
set_waits ws s = record s { client = record s.client { waits = ws } }

abbrev pub event_of : Result OscMessage → Subscriber → SubRun OscEvent
event_of (ok msg) s = polled (ok (classify_event msg)) s
event_of (err e) s = polled (err e) s

abbrev pub after_poll : (Subscriber → SubRun OscEvent) → Receive → Subscriber → SubRun OscEvent
after_poll again silent s = again s
after_poll again broken s = polled (err io) s
after_poll again (arrives bytes) s = event_of (decode bytes) s

abbrev pub after_renew : (Subscriber → SubRun OscEvent) → SubRun (Unit {0}) → SubRun OscEvent
after_renew next (polling s) = polling s
after_renew next (polled (ok _) s) = next s
after_renew next (polled (err e) s) = polled (err e) s

-- The loop, once the renewal has been seen to.
unfoldable pub poll_loop : List Wait → Subscriber → SubRun OscEvent
poll_loop [] s = after_renew (λ t. polling t) (renew_if_due s)
poll_loop (w ∷ ws) s =
    after_renew
      (λ t.
        let rest = after_poll (poll_loop ws) w.receive (set_waits ws t) in
        if w.expired
        then polled (err timeout) (set_waits (record w { expired = false } ∷ ws) t)
        else rest)
      (renew_if_due s)

abbrev pub poll_some : Option SubscriptionState → Subscriber → SubRun OscEvent
poll_some none s = polled (err malformed) s
poll_some (some sub) s = poll_loop s.client.waits s

unfoldable pub poll_event : Subscriber → SubRun OscEvent
poll_event s = poll_some s.subscription s
