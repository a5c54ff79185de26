-- ===== src/Pubsub/Connection.antt =====
-- src/pubsub/connection.rs: one websocket connection to an upstream, as the state that it keeps
-- and its reaction to each event of its loop.
pub mod Listeners
pub mod Notifying
pub mod Reading
pub mod Reconnecting
use mathlib.Core.Option
use magic_router.Prelude.{
  ℕ, zero, suc, ◌+◌, Bool, true, false, Option, none, some, List, [], ◌∷◌, ◌++◌, ◌==◌,
  if◌then◌else◌, is_empty,
}
use magic_router.Prelude.Dict.{Dict, lookup, insert, erase}
use magic_router.Types.{RequestId, SubscriberId, SubscriptionId}
use magic_router.Routes.{PubSubUpstreamKind}
use magic_router.Pubsub.{
  SubscribeRequest, Method, SubscriptionHandle, Channel, Subscription, Unsubscription,
  PubsubMessage, WebsocketMessage, confirmation, unsubscribed, update,
}

pub record SubscriberHandle : Type 0 where
  pub request_id : RequestId
  pub upstream : PubSubUpstreamKind
  pub tx : Channel

-- The state of the connection that its handlers change.
pub record WebsocketConnection : Type 0 where
  pub subscriptions : Dict (Dict SubscriberHandle)
  pub inflights : Dict Subscription
  pub request_to_subs : Dict SubscriptionId
  pub unsubscriptions_tx : Channel

-- A request to the upstream: a subscription's payload, or an unsubscription with its identifier,
-- its method and the subscription that it ends.
pub data Frame : Type 0 where
  subscribe : SubscribeRequest → Frame
  unsubscribe : RequestId → Method → SubscriptionId → Frame

abbrev pub Sent : Type 0
Sent = List (Channel × PubsubMessage)

-- What a reaction leaves: the connection, what its subscribers and its upstream were sent, and
-- whether the loop goes on.
pub record Reaction : Type 0 where
  pub connection : WebsocketConnection
  pub sent : Sent
  pub frames : List Frame
  pub goes_on : Bool

-- `send`, which fails if the receiving end of the channel is gone.
abbrev pub send : (Channel → Bool) → Channel → PubsubMessage → Sent
send is_open tx msg = if is_open tx then (tx, msg) ∷ [] else []

-- The sends of one notification, and the listeners whose send fails.
unfoldable pub deliver : (Channel → Bool) → (payload : ℕ) → Dict SubscriberHandle → Sent
deliver is_open payload [] = []
deliver is_open payload ((id, sh) ∷ rest) =
    send is_open sh.tx (PubsubMessage.notification sh.request_id sh.upstream payload)
    ++ deliver is_open payload rest

unfoldable pub to_remove : (Channel → Bool) → Dict SubscriberHandle → List SubscriberId
to_remove is_open [] = []
to_remove is_open ((id, sh) ∷ rest) =
    if is_open sh.tx then to_remove is_open rest else id ∷ to_remove is_open rest

unfoldable pub remove_all {ℓ} : {V : Type ℓ} → List ℕ → Dict V → Dict V
remove_all [] m = m
remove_all (k ∷ ks) m = remove_all ks (erase k m)

-- The listeners of a subscription after some left; without any it is dropped.
unfoldable pub with_listeners :
    SubscriptionId
    → Dict SubscriberHandle
    → Dict (Dict SubscriberHandle)
    → Dict (Dict SubscriberHandle)
with_listeners id listeners subscriptions =
    if is_empty listeners then erase id subscriptions else insert id listeners subscriptions

abbrev pub quiet : WebsocketConnection → Reaction
quiet c = record { connection = c; sent = []; frames = []; goes_on = true }

unfoldable pub on_update :
    (Channel → Bool) → WebsocketConnection → SubscriptionId → (payload : ℕ) → Reaction
on_update is_open c subscription payload = elim (lookup subscription c.subscriptions) [
  | none ↦ quiet c
  | some listeners ↦
      let left = remove_all (to_remove is_open listeners) listeners in
      record {
        connection = record c { subscriptions = with_listeners subscription left c.subscriptions };
        sent = deliver is_open payload listeners;
        frames = [];
        goes_on = true;
      }
]

-- `entry(id).or_default()`
abbrev pub or_default : Option (Dict SubscriberHandle) → Dict SubscriberHandle
or_default none = []
or_default (some listeners) = listeners

abbrev pub confirmed_handle : WebsocketConnection → RequestId → Subscription → SubscriptionHandle
confirmed_handle c id sub = record {
  request_id = id;
  unsub = c.unsubscriptions_tx;
  upstream = sub.upstream;
}

unfoldable pub on_confirmation :
    (Channel → Bool) → WebsocketConnection → RequestId → SubscriptionId → Reaction
on_confirmation is_open c id result = elim (lookup id c.inflights) [
  | none ↦ quiet c
  | some sub ↦
      let c' : WebsocketConnection = record c {
        inflights = erase id c.inflights;
        request_to_subs = insert id result c.request_to_subs;
      } in
      let handle : SubscriberHandle = record {
        request_id = sub.request_id;
        upstream = sub.upstream;
        tx = sub.tx;
      } in
      if is_open sub.tx
      then record {
        connection = record c' {
          subscriptions =
              insert result
                (insert sub.subscriber_id handle (or_default (lookup result c.subscriptions)))
                c.subscriptions;
        };
        sent = (sub.tx, PubsubMessage.subscribed (confirmed_handle c id sub)) ∷ [];
        frames = [];
        goes_on = true;
      }
      else quiet c'
]

unfoldable pub on_message : (Channel → Bool) → WebsocketConnection → WebsocketMessage → Reaction
on_message is_open c (confirmation id result) = on_confirmation is_open c id result
on_message is_open c (unsubscribed id) = quiet c
on_message is_open c (update subscription payload) = on_update is_open c subscription payload

-- The messages of `reestablish`.
unfoldable pub say_goodbye : (Channel → Bool) → Dict SubscriberHandle → Sent
say_goodbye is_open [] = []
say_goodbye is_open ((id, sh) ∷ rest) =
    send is_open sh.tx (PubsubMessage.disconnected sh.request_id) ++ say_goodbye is_open rest

unfoldable pub drain : (Channel → Bool) → Dict (Dict SubscriberHandle) → Sent
drain is_open [] = []
drain is_open ((id, subscribers) ∷ rest) = say_goodbye is_open subscribers ++ drain is_open rest

abbrev pub max_reconnect_attempts : ℕ
max_reconnect_attempts = 16

-- The loop of `reestablish` with `left` attempts left: whether one of them succeeds.
unfoldable pub reconnect : (ℕ → Bool) → (left attempt : ℕ) → Bool
reconnect connects zero attempt = false
reconnect connects (suc left) attempt =
    let later = reconnect connects left (attempt + 1) in if connects attempt then true else later

-- `reestablish` after a reaction whose frame could not be sent; `connects` says which attempt
-- succeeds.
unfoldable pub reestablish : (Channel → Bool) → (ℕ → Bool) → WebsocketConnection → Reaction
reestablish is_open connects c = record {
  connection = record c { request_to_subs = []; subscriptions = [] };
  sent = drain is_open c.subscriptions;
  frames = [];
  goes_on = reconnect connects (suc max_reconnect_attempts) 0;
}

-- A frame that the websocket takes, or not.
abbrev pub write_frame :
    (Channel → Bool) → (ℕ → Bool) → WebsocketConnection → Frame → (taken : Bool) → Reaction
write_frame is_open connects c frame true = record {
  connection = c;
  sent = [];
  frames = frame ∷ [];
  goes_on = true;
}
write_frame is_open connects c frame false = reestablish is_open connects c

-- `id` is the identifier that is generated for the request.
unfoldable pub on_unsubscription :
    (Channel → Bool)
    → (ℕ → Bool)
    → WebsocketConnection
    → Unsubscription
    → RequestId
    → Bool
    → Reaction
on_unsubscription is_open connects c u id taken = elim (lookup u.request_id c.request_to_subs) [
  | none ↦ quiet c
  | some subid ↦ elim (lookup subid c.subscriptions) [
    | none ↦ quiet c
    | some subscribers ↦
        write_frame is_open connects
          (record c {
            subscriptions =
                with_listeners subid (erase u.subscriber_id subscribers) c.subscriptions;
          })
          (unsubscribe id u.method subid) taken
  ]
]

unfoldable pub on_request :
    (Channel → Bool) → (ℕ → Bool) → WebsocketConnection → Subscription → Bool → Reaction
on_request is_open connects c s taken =
    write_frame is_open connects (record c { inflights = insert s.request_id s c.inflights })
      (subscribe s.payload) taken

unfoldable pub on_ping : (Channel → Bool) → (ℕ → Bool) → WebsocketConnection → Bool → Reaction
on_ping is_open connects c true = quiet c
on_ping is_open connects c false = reestablish is_open connects c

-- The branches of the loop of `run`; `lost` and `shutdown` are the two cases of its `else` branch,
-- which tells them apart by whether the channel for requests is closed.
pub data Event : Type 0 where
  message : WebsocketMessage → Event
  unsubscription : Unsubscription → (id : RequestId) → (taken : Bool) → Event
  request : Subscription → (taken : Bool) → Event
  ping : (taken : Bool) → Event
  lost : Event
  shutdown : Event

unfoldable pub on_event : (Channel → Bool) → (ℕ → Bool) → WebsocketConnection → Event → Reaction
on_event is_open connects c (message m) = on_message is_open c m
on_event is_open connects c (unsubscription u id taken) =
    on_unsubscription is_open connects c u id taken
on_event is_open connects c (request s taken) = on_request is_open connects c s taken
on_event is_open connects c (ping taken) = on_ping is_open connects c taken
on_event is_open connects c lost = reestablish is_open connects c
on_event is_open connects c shutdown = record {
  connection = c;
  sent = [];
  frames = [];
  goes_on = false;
}
