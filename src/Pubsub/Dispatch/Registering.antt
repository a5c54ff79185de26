-- ===== src/Pubsub/Dispatch/Registering.antt =====
-- Which upstreams a dispatcher serves (src/pubsub/dispatch.rs).
use magic_router.Prelude.{
  ℕ, suc, ◌+◌, ◌≡◌, refl, inl, inr, Bool, true, false, none, some, List, [], ◌∷◌, ◌==◌,
  if◌then◌else◌, Bool-cases, Option-cases, arith,
}
use magic_router.Prelude.Dict.{lookup, erase, lookup-insert, lookup-erase}
use magic_router.Types.{Url}
use magic_router.Routes.{PubSubUpstreamKind}
use magic_router.Pubsub.{Channel, Subscription}
use magic_router.Pubsub.Dispatch.{
  SubscriptionDispatcher, Dispatched, on_state, on_subscription, on_connected, Event, state,
  subscription, connected, on_event,
}

-- What became of a subscription.
pub data Routed (has_receivers : Channel → Bool) (d : SubscriptionDispatcher) (s : Subscription)
    (r : Dispatched) : Type 0 where
  -- Its upstream has a live connection.
  forwarded_to :
      (tx : Channel)
      → lookup s.destination d.upstreams ≡ some tx
      → has_receivers tx ≡ true
      → r.forwarded ≡ some tx
      → r.dispatcher ≡ d
      → Routed has_receivers d s r
  -- All connections to its upstream have ended: the upstream is forgotten, and no other.
  forgotten :
      (tx : Channel)
      → lookup s.destination d.upstreams ≡ some tx
      → has_receivers tx ≡ false
      → r.forwarded ≡ none
      → ((url : Url)
          → lookup url r.dispatcher.upstreams
            ≡ (if s.destination == url then none else lookup url d.upstreams))
      → Routed has_receivers d s r
  -- Its upstream is not known.
  unknown :
      lookup s.destination d.upstreams ≡ none
      → r.forwarded ≡ none
      → r.dispatcher ≡ d
      → Routed has_receivers d s r

-- A subscription goes to its upstream's channel exactly if the upstream is known and one of its
-- connections is alive. In the other cases it is dropped: the subscriber is sent nothing.
pub on_subscription-Routed :
    (has_receivers : Channel → Bool) (d : SubscriptionDispatcher) (s : Subscription)
    → Routed has_receivers d s (on_subscription has_receivers d s)
unfolding on_subscription
on_subscription-Routed has_receivers d s = elim (Option-cases (lookup s.destination d.upstreams)) [
  | inl missing ↦ rw (missing, on_subscription) (unknown missing refl refl)
  | inr (tx, there) ↦ elim (Bool-cases (has_receivers tx)) [
    | inl alive ↦ rw (there, on_subscription, alive) (forwarded_to tx there alive refl refl)
    | inr dead ↦
        rw (there, on_subscription, dead)
          (forgotten tx there dead refl (λ url. lookup-erase s.destination url d.upstreams))
  ]
]

-- An upstream that goes offline while the connections to it are being made is registered again
-- when they are made, and subscriptions are sent to it.
offline_while_connecting :
    (has_receivers : Channel → Bool) (d : SubscriptionDispatcher) (url : Url)
    (kind : PubSubUpstreamKind) (tx : Channel) (s : Subscription)
    → lookup url d.upstreams ≡ none
    → s.destination ≡ url
    → has_receivers tx ≡ true
    → let online =
        (on_state d (record { is_online = true; url = url; target = kind })).dispatcher in
      let offline =
        (on_state online (record { is_online = false; url = url; target = kind })).dispatcher in
      (on_subscription has_receivers (on_connected offline url tx).dispatcher s).forwarded ≡ some tx
unfolding on_state on_subscription on_connected
offline_while_connecting has_receivers d url kind tx s new here alive =
    ground (arith, lookup-insert url s.destination tx (erase url d.upstreams))

-- A run of the loop: the dispatcher, and how often it wakes the start of the router.
unfoldable pub on_events :
    (Channel → Bool) → SubscriptionDispatcher → List Event → SubscriptionDispatcher × ℕ
on_events has_receivers d [] = (d, 0)
on_events has_receivers d (e ∷ es) =
    let r = on_event has_receivers d e in
    let (d', n) = on_events has_receivers r.dispatcher es in (d', if r.notified then suc n else n)

abbrev pub waits : SubscriptionDispatcher → ℕ
waits d = if d.ready then 1 else 0

on_event-notified :
    (has_receivers : Channel → Bool) (d : SubscriptionDispatcher) (e : Event)
    → let r = on_event has_receivers d e in
      (if r.notified then suc (waits r.dispatcher) else waits r.dispatcher) ≡ waits d
unfolding on_event on_state on_subscription on_connected
on_event-notified has_receivers d (state s) = ground arith
on_event-notified has_receivers d (subscription s) = ground arith
on_event-notified has_receivers d (connected url tx) = ground arith

-- Over any run the start of the router is woken at most once: exactly once if it waited before the
-- run and does not wait after it, and else never.
pub on_events-notified :
    (has_receivers : Channel → Bool) (d : SubscriptionDispatcher) (es : List Event)
    → let (d', n) = on_events has_receivers d es in n + waits d' ≡ waits d
unfolding on_events
on_events-notified has_receivers d [] = omega arith
on_events-notified has_receivers d (e ∷ es) = ground (
  arith,
  on_events-notified has_receivers (on_event has_receivers d e).dispatcher es,
  on_event-notified has_receivers d e,
)
