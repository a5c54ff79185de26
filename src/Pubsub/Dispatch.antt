-- ===== src/Pubsub/Dispatch.antt =====
-- src/pubsub/dispatch.rs: the hub that sends each subscription to the connections of its upstream.
pub mod Registering
use magic_router.Prelude.{
  ℕ, suc, ◌+◌, Bool, true, false, not, Option, none, some, List, [], ◌∷◌, ◌++◌, ◌==◌, if◌then◌else◌,
  is_empty,
}
use magic_router.Prelude.Dict.{Dict, lookup, insert, erase, contains_key}
use magic_router.Types.{Url}
use magic_router.Routes.{WsUpstreamState}
use magic_router.Pubsub.{Channel, Subscription}

-- The upstreams by URL with the channel to their connections, the URLs to which connections are
-- being made, and whether the start of the router still waits for them.
pub record SubscriptionDispatcher : Type 0 where
  pub upstreams : Dict Channel
  pub connecting : List Url
  pub ready : Bool

-- What a round of the loop leaves: the dispatcher, the channel to which a subscription went, and
-- whether it wakes the start of the router.
pub record Dispatched : Type 0 where
  pub dispatcher : SubscriptionDispatcher
  pub forwarded : Option Channel
  pub notified : Bool

abbrev pub silently : SubscriptionDispatcher → Dispatched
silently d = record { dispatcher = d; forwarded = none; notified = false }

unfoldable pub on_state : SubscriptionDispatcher → WsUpstreamState → Dispatched
on_state d state =
    if not state.is_online
    then silently (record d { upstreams = erase state.url d.upstreams })
    else if contains_key state.url d.upstreams
    then silently d
    else silently (record d { connecting = d.connecting ++ state.url ∷ [] })

-- `has_receivers` says whether a connection still listens on a channel.
unfoldable pub on_subscription :
    (Channel → Bool) → SubscriptionDispatcher → Subscription → Dispatched
on_subscription has_receivers d s = elim (lookup s.destination d.upstreams) [
  | none ↦ silently d
  | some tx ↦
      if has_receivers tx
      then record { dispatcher = d; forwarded = some tx; notified = false }
      else silently (record d { upstreams = erase s.destination d.upstreams })
]

-- The first of equal URLs is taken out.
unfoldable pub finish : Url → List Url → List Url
finish url [] = []
finish url (u ∷ us) = if u == url then us else u ∷ finish url us

-- The connections to an upstream are made, as many as could be, on the new channel `tx`.
unfoldable pub on_connected : SubscriptionDispatcher → Url → (tx : Channel) → Dispatched
on_connected d url tx =
    let left = finish url d.connecting in
    let upstreams = insert url tx d.upstreams in
    if not (is_empty left)
    then silently (record d { upstreams = upstreams; connecting = left })
    else record {
      dispatcher = record { upstreams = upstreams; connecting = left; ready = false };
      forwarded = none;
      notified = d.ready;
    }

-- One of the branches of the loop of `run`.
pub data Event : Type 0 where
  state : WsUpstreamState → Event
  subscription : Subscription → Event
  connected : Url → (tx : Channel) → Event

unfoldable pub on_event : (Channel → Bool) → SubscriptionDispatcher → Event → Dispatched
on_event has_receivers d (state s) = on_state d s
on_event has_receivers d (subscription s) = on_subscription has_receivers d s
on_event has_receivers d (connected url tx) = on_connected d url tx
