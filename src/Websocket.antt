-- ===== src/Websocket.antt =====
-- src/server/websocket.rs: the subscriptions of websocket clients to accounts. The answers of the
-- cache of delegations, the JSON of notifications and the client's sink are parameters.
pub mod Forwarding
pub mod Handles
pub mod Redelegation
pub mod Sharing
pub mod Signatures
use mathlib.Core.Option
use magic_router.Prelude.{
  ℕ, Bool, true, false, not, Option, none, some, List, [], ◌∷◌, ◌++◌, ◌==◌, if◌then◌else◌,
}
use magic_router.Prelude.Dict.{Dict, lookup, insert, erase}
use magic_router.Types.{Pubkey, Url, RequestId, SubscriberId, generate}
use magic_router.Error.{RouterError, RouterResult, ok, err, ok_or, unknown_er_node, ◌>>=◌}
use magic_router.Routes.{
  RoutingTable, PubSubUpstreamKind, chain, ephem, ephemeral_handle, base_chain,
}
use magic_router.Pubsub.{
  Channel, Subscription, Unsubscription, SubscriptionHandle, PubsubMessage, subscribed,
  notification, disconnected, account_unsubscribe, account_subscription_json,
  clone_with_destination,
}

pub record AccountSubscriptionHandler : Type 0 where
  pub pubkey : Pubkey
  pub subscriber_id : SubscriberId
  pub pubsub_tx : Channel
  pub handles : Dict SubscriptionHandle
  pub params : Option ℕ

-- What the handlers share: the table of routes and the counter of identifiers.
pub record World : Type 0 where
  pub routes : RoutingTable
  pub next_id : ℕ

-- What a round of a handler does: the requests to the dispatcher, the unsubscriptions with the
-- channels of their connections, and the notifications that the client gets.
pub record Acted : Type 0 where
  pub handler : AccountSubscriptionHandler
  pub world : World
  pub requests : List Subscription
  pub unsubs : List (Channel × Unsubscription)
  pub client : List ℕ
  pub goes_on : Bool

abbrev pub nothing : AccountSubscriptionHandler → World → Acted
nothing h w = record {
  handler = h;
  world = w;
  requests = [];
  unsubs = [];
  client = [];
  goes_on = true;
}

-- The program that owns an account on the base chain while it is delegated.
abbrev pub delegation_program : ℕ
delegation_program = 0

abbrev pub account_unsubscription : AccountSubscriptionHandler → RequestId → Unsubscription
account_unsubscription h request_id = record {
  subscriber_id = h.subscriber_id;
  request_id = request_id;
  method = account_unsubscribe;
}

-- The subscriber's identifier is generated first, the request's second.
abbrev pub two_ids : ℕ → SubscriberId × RequestId × ℕ
two_ids counter =
    ((generate counter).0, (generate (generate counter).1).0, (generate (generate counter).1).1)

abbrev pub node_subscription : AccountSubscriptionHandler → World → Url → Subscription
node_subscription h w url = record {
  request_id = (two_ids w.next_id).1;
  subscriber_id = (two_ids w.next_id).0;
  payload = account_subscription_json (two_ids w.next_id).1 h.pubkey h.params;
  tx = h.pubsub_tx;
  destination = url;
  upstream = ephem;
}

-- The account is delegated now, and its new node is subscribed to.
unfoldable pub subscribe_to_node : AccountSubscriptionHandler → World → Pubkey → Acted
subscribe_to_node h w identity = elim (ephemeral_handle w.routes identity) [
  | none ↦ nothing h w
  | some handle ↦ record (nothing h (record w { next_id = (two_ids w.next_id).2 })) {
    requests = node_subscription h w handle.ws ∷ [];
  }
]

-- The account has come back from a node.
unfoldable pub unsubscribe_from_node : AccountSubscriptionHandler → World → RequestId → Acted
unsubscribe_from_node h w id = elim (lookup id h.handles) [
  | none ↦ nothing h w
  | some handle ↦ record (nothing (record h { handles = erase id h.handles }) w) {
    unsubs = (handle.unsub, account_unsubscription h id) ∷ [];
  }
]

unfoldable pub change_upstream :
    AccountSubscriptionHandler
    → World
    → (authority : Option Pubkey) → RequestId
    → PubSubUpstreamKind
    → Acted
change_upstream h w none id chain = nothing h w
change_upstream h w (some identity) id chain = subscribe_to_node h w identity
change_upstream h w authority id ephem = unsubscribe_from_node h w id

-- `owner` is the text at `value.owner` of the notification, if there is one.
unfoldable pub handle_delegation_status_change :
    AccountSubscriptionHandler
    → World
    → (owner authority : Option Pubkey) → RequestId
    → PubSubUpstreamKind
    → Acted
handle_delegation_status_change h w none authority id upstream = nothing h w
handle_delegation_status_change h w (some owner) authority id upstream =
    if not (owner == delegation_program)
    then nothing h w
    else change_upstream h w authority id upstream

-- A notification, whether a message can be made of it, and whether the sink takes it.
unfoldable pub on_notification : Acted → (payload : ℕ) → (serialized delivered : Bool) → Acted
on_notification a payload serialized delivered =
    if not serialized
    then a
    else if delivered
    then record a { client = payload ∷ [] }
    else record a { goes_on = false }

-- Where an account is now; `none` is a panic, and no URL an unknown node.
unfoldable pub destination_for :
    RoutingTable → (authority : Option Pubkey) → Option (RoutingTable × Option Url)
destination_for t (some validator) =
    some (t, Option.map (λ handle. handle.ws) (ephemeral_handle t validator))
destination_for t none = Option.map (λ (t', u). (t', some u.ws_url)) (base_chain t)

unfoldable pub resubscribe : AccountSubscriptionHandler → World → SubscriptionHandle → Url → Acted
resubscribe h w handle url = record (nothing h w) {
  requests =
      record {
        request_id = handle.request_id;
        subscriber_id = h.subscriber_id;
        payload = account_subscription_json handle.request_id h.pubkey h.params;
        tx = h.pubsub_tx;
        destination = url;
        upstream = handle.upstream;
      }
      ∷ [];
}

unfoldable pub on_disconnected :
    AccountSubscriptionHandler → World → (authority : Option Pubkey) → RequestId → Option Acted
on_disconnected h w authority id = elim (lookup id h.handles) [
  | none ↦ some (nothing h w)
  | some handle ↦
      let h' : AccountSubscriptionHandler = record h { handles = erase id h.handles } in
      elim (destination_for w.routes authority) [
        | none ↦ none
        | some (t, none) ↦ some (nothing h' (record w { routes = t }))
        | some (t, some url) ↦ some (resubscribe h' (record w { routes = t }) handle url)
      ]
]

unfoldable pub unsubscribe_all :
    AccountSubscriptionHandler → Dict SubscriptionHandle → List (Channel × Unsubscription)
unsubscribe_all h [] = []
unsubscribe_all h ((request_id, handle) ∷ rest) =
    (handle.unsub, account_unsubscription h request_id) ∷ unsubscribe_all h rest

-- What the loop of `run` waits for: the client is gone, or a message, with the delegation of the
-- account at that time and what becomes of the message that is made of it.
pub data ClientEvent : Type 0 where
  closed : ClientEvent
  received :
      PubsubMessage → (authority : Option Pubkey) → (serialized delivered : Bool) → ClientEvent

-- One round; `none` is a panic. `owner_of` reads the owner out of a notification.
unfoldable pub on_client_event :
    (ℕ → Option Pubkey) → AccountSubscriptionHandler → World → ClientEvent → Option Acted
on_client_event owner_of h w closed = some (record (nothing (record h { handles = [] }) w) {
  unsubs = unsubscribe_all h h.handles;
  goes_on = false;
})
on_client_event owner_of h w (received (subscribed handle) authority serialized delivered) =
    some (nothing (record h { handles = insert handle.request_id handle h.handles }) w)
on_client_event owner_of h w
      (received (notification id upstream payload) authority serialized delivered) =
    some (
      on_notification (handle_delegation_status_change h w (owner_of payload) authority id upstream)
        payload serialized delivered)
on_client_event owner_of h w (received (disconnected id) authority serialized delivered) =
    on_disconnected h w authority id

-- One round and then the others.
abbrev pub before : Acted → Acted → Acted
before a b = record b {
  requests = a.requests ++ b.requests;
  unsubs = a.unsubs ++ b.unsubs;
  client = a.client ++ b.client;
}

unfoldable pub run :
    (ℕ → Option Pubkey) → AccountSubscriptionHandler → World → List ClientEvent → Option Acted
run owner_of h w [] = some (nothing h w)
run owner_of h w (e ∷ es) = elim (on_client_event owner_of h w e) [
  | none ↦ none
  | some a ↦ elim a.goes_on [
    | false ↦ some a
    | true ↦ Option.map (before a) (run owner_of a.handler a.world es)
  ]
]

-- The end of `account_subscribe`.
pub data SubscribeOutcome : Type 0 where
  failed : RouterError → SubscribeOutcome
  unconfirmed : SubscribeOutcome
  not_accepted : SubscribeOutcome
  running : AccountSubscriptionHandler → SubscribeOutcome

-- The first message within the time, `none` if there is none, and whether the client accepts.
unfoldable pub start_handler :
    AccountSubscriptionHandler
    → (confirmation : Option PubsubMessage) → (accepted : Bool) → SubscribeOutcome
start_handler h none accepted = unconfirmed
start_handler h (some (notification _ _ _)) accepted = unconfirmed
start_handler h (some (disconnected _)) accepted = unconfirmed
start_handler h (some (subscribed handle)) accepted =
    if accepted
    then running (record h { handles = insert handle.request_id handle [] })
    else not_accepted

-- The websocket URL of the node that the account is delegated to, if it is to one.
unfoldable pub node_of : RoutingTable → (authority : Option Pubkey) → RouterResult (Option Url)
node_of t none = ok none
node_of t (some validator) = do
  handle ← ok_or (ephemeral_handle t validator) (unknown_er_node validator)
  ok (some handle.ws)

abbrev pub to_list {ℓ} : {A : Type ℓ} → Option A → List A
to_list none = []
to_list (some a) = a ∷ []

-- The requests of `account_subscribe`, the node's before the base chain's.
unfoldable pub first_requests : Subscription → Option Url → List Subscription
first_requests chain_subscription node =
    to_list (Option.map (clone_with_destination chain_subscription) node) ++ chain_subscription ∷ []

abbrev pub chain_subscription : World → Pubkey → Option ℕ → (tx : Channel) → Url → Subscription
chain_subscription w pubkey params tx url = record {
  request_id = (two_ids w.next_id).1;
  subscriber_id = (two_ids w.next_id).0;
  payload = account_subscription_json (two_ids w.next_id).1 pubkey params;
  tx = tx;
  destination = url;
  upstream = chain;
}

abbrev pub new_handler : World → Pubkey → Option ℕ → (tx : Channel) → AccountSubscriptionHandler
new_handler w pubkey params tx = record {
  pubkey = pubkey;
  subscriber_id = (two_ids w.next_id).0;
  pubsub_tx = tx;
  handles = [];
  params = params;
}

-- `tx` is the channel that is made for the handler; `none` is a panic.
unfoldable pub account_subscribe :
    World
    → (authority : Option Pubkey) → Pubkey
    → Option ℕ
    → (tx : Channel) → (confirmation : Option PubsubMessage) → (accepted : Bool)
    → Option (World × List Subscription × SubscribeOutcome)
account_subscribe w authority pubkey params tx confirmation accepted = elim (base_chain w.routes) [
  | none ↦ none
  | some (t, u) ↦ elim (node_of t authority) [
    | err e ↦ some (record w { routes = t }, [], failed e)
    | ok node ↦ some (
      record { routes = t; next_id = (two_ids w.next_id).2 },
      first_requests (chain_subscription w pubkey params tx u.ws_url) node,
      start_handler (new_handler w pubkey params tx) confirmation accepted,
    )
  ]
]
