-- ===== src/Examples/Clients.antt =====
-- The subscriptions of websocket clients at concrete inputs (src/server/websocket.rs): a client of
-- account 3 whose node is 7, and one of signature 555, which node 7 took.
use mathlib.Core.List.{Memᴰ}
use magic_router.Prelude.{
  ℕ, ◌≡◌, refl, Bool, true, none, some, Option, List, [], ◌∷◌, ◌==◌, if◌then◌else◌, arith,
}
use magic_router.Prelude.Dict.{lookup, IsUnique}
use magic_router.Types.{Pubkey}
use magic_router.Routes.{chain, ephem, ephemeral_handle}
use magic_router.Transactions.{ForwardedTransactions}
use magic_router.Pubsub.{
  Channel, Subscription, Unsubscription, SubscriptionHandle, subscribed, notification, disconnected,
}
use magic_router.Pubsub.Connection.{
  WebsocketConnection, on_request, on_confirmation, on_unsubscription,
}
use magic_router.Pubsub.Connection.Notifying.{listener}
use magic_router.Websocket.{
  AccountSubscriptionHandler, World, Acted, ClientEvent, closed, received, on_client_event, run,
  account_subscribe, account_unsubscription, node_subscription, running,
}
use magic_router.Websocket.Forwarding.{forwarded, run-forwarded}
use magic_router.Websocket.Sharing.{account_subscribe-one_handle}
use magic_router.Websocket.Redelegation.{redelegation-stays_registered}
use magic_router.Websocket.Signatures.{Told, signature_subscribe, signature_subscribe-Told}
use magic_router.Examples.Table.{table, table-IsReady}

abbrev world : World
world = record { routes = table; next_id = 20 }

abbrev chain_handle : SubscriptionHandle
chain_handle = record { request_id = 11; unsub = 700; upstream = chain }

abbrev node_handle : SubscriptionHandle
node_handle = record { request_id = 11; unsub = 800; upstream = chain }

abbrev client : AccountSubscriptionHandler
client = record {
  pubkey = 3;
  subscriber_id = 10;
  pubsub_tx = 60;
  handles = (11, chain_handle) ∷ [];
  params = none;
}

-- Notification 77 is of a delegated account.
abbrev owners : ℕ → Option Pubkey
owners payload = if payload == 77 then some 0 else none

abbrev some_events : List ClientEvent
some_events =
    received (notification 11 chain 76) none true true
    ∷ received (notification 11 chain 77) (some 7) true true
    ∷ received (disconnected 11) (some 7) true true
    ∷ closed
    ∷ []

run-forwarded_example :
    (a : Acted) × (run owners client world some_events ≡ some a)
    × (a.client ≡ forwarded some_events)
run-forwarded_example = run-forwarded owners some_events client world table-IsReady

one_handle : IsUnique client.handles
unfolding lookup
one_handle = (refl, tt)

node_7 : ephemeral_handle table 7 ≡ some (record { rpc = 42; ws = 1042 })
unfolding ephemeral_handle lookup
node_7 = refl

account_subscribe-one_handle_example :
    (w' : World) × (h : AccountSubscriptionHandler) × (a : Acted) × (s₁ s₂ : Subscription)
    × (account_subscribe world (some 7) 3 none 60 (some (subscribed chain_handle)) true
        ≡ some (w', s₁ ∷ s₂ ∷ [], running h))
    × (s₁.destination ≡ 1042)
    × (s₁.request_id ≡ s₂.request_id)
    × ((s₁.upstream ≡ chain) × (s₂.upstream ≡ chain))
    × (run owners h w' (received (subscribed node_handle) none true true ∷ closed ∷ []) ≡ some a)
    × (a.unsubs ≡ (800, account_unsubscription h 11) ∷ [])
account_subscribe-one_handle_example =
    account_subscribe-one_handle world 7 3 none 60 (record { rpc = 42; ws = 1042 }) chain_handle
      node_handle owners table-IsReady node_7 refl

abbrev open_only_60 : Channel → Bool
open_only_60 tx = tx == 60

abbrev at_once : ℕ → Bool
at_once n = true

abbrev node_socket : WebsocketConnection
node_socket = record {
  subscriptions = [];
  inflights = [];
  request_to_subs = [];
  unsubscriptions_tx = 900;
}

redelegation-stays_registered_example :
    let sub = node_subscription client world 1042 in
    let c₁ = (on_request open_only_60 at_once node_socket sub true).connection in
    let r = on_confirmation open_only_60 c₁ sub.request_id 5 in
    (a b d : Acted) × (handle : SubscriptionHandle) × (u : Unsubscription) × (on_client_event owners
        client world
        (received (notification 11 chain 77) (some 7) true true)
      ≡ some a)
    × (a.requests ≡ sub ∷ [])
    × (r.sent ≡ (60, subscribed handle) ∷ [])
    × (on_client_event owners a.handler a.world (received (subscribed handle) none true true)
        ≡ some b)
    × (on_client_event owners b.handler b.world closed ≡ some d)
    × Memᴰ (900, u) d.unsubs
    × (u.request_id ≡ sub.request_id)
    × (listener
          (on_unsubscription open_only_60 at_once r.connection u 400 true).connection
          5
          sub.subscriber_id
        ≡ some (record { request_id = sub.request_id; upstream = ephem; tx = 60 }))
redelegation-stays_registered_example =
    redelegation-stays_registered owners client world 7 (record { rpc = 42; ws = 1042 }) 11 77
      node_7 refl open_only_60 at_once node_socket 5 400 refl (omega arith) one_handle

abbrev sent : ForwardedTransactions
sent signature = if signature == 555 then some (record { rpc = 42; ws = 1042 }) else none

abbrev confirmed_555 : SubscriptionHandle
confirmed_555 = record { request_id = 21; unsub = 900; upstream = chain }

signature_subscribe-Told_example :
    Told sent 555 none
      (some (subscribed confirmed_555))
      (signature_subscribe sent 20 true (some 555) none 60 (some (subscribed confirmed_555)) true)
signature_subscribe-Told_example =
    signature_subscribe-Told sent 20 555 none 60 (some (subscribed confirmed_555))
