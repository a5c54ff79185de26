-- ===== src/Websocket/Redelegation.antt =====
-- An account that is delegated while a client is subscribed to it, with the connection that serves
-- the new subscription (src/server/websocket.rs and src/pubsub/connection.rs).
use mathlib.Core.List.{Memᴰ}
use magic_router.Prelude.{ℕ, ◌≡◌, ◌≢◌, refl, ◌∙◌, Bool, true, Option, none, some, [], ◌∷◌, arith}
use magic_router.Prelude.Dict.{
  IsUnique, insert-IsUnique, Dict, lookup, insert, erase, lookup-insert, lookup-erase,
  lookup-insert_self,
}
use magic_router.Types.{Pubkey, RequestId, SubscriptionId, generate}
use magic_router.Routes.{RemoteHandle, ephem, chain, ephemeral_handle}
use magic_router.Pubsub.{
  Channel, Subscription, Unsubscription, SubscriptionHandle, subscribed, notification,
}
use magic_router.Pubsub.Connection.{
  SubscriberHandle, WebsocketConnection, confirmed_handle, or_default, on_confirmation, on_request,
  on_unsubscription,
}
use magic_router.Pubsub.Connection.Notifying.{listener, listener-with_listeners}
use magic_router.Websocket.{
  AccountSubscriptionHandler, World, Acted, nothing, node_subscription, two_ids, subscribe_to_node,
  delegation_program, change_upstream, handle_delegation_status_change, on_notification, received,
  closed, on_client_event, account_unsubscription,
}
use magic_router.Websocket.Handles.{closed-unsubs}

-- A connection that has taken a request and got its confirmation.
module _ (is_open : Channel → Bool) (connects : ℕ → Bool) (c : WebsocketConnection)
    (sub : Subscription) (s : SubscriptionId) (listens : is_open sub.tx ≡ true) where
  abbrev requested : WebsocketConnection
  requested = record c { inflights = insert sub.request_id sub c.inflights }

  abbrev pub joined_listeners : Dict SubscriberHandle
  joined_listeners =
      insert sub.subscriber_id
        (record { request_id = sub.request_id; upstream = sub.upstream; tx = sub.tx })
        (or_default (lookup s c.subscriptions))

  abbrev pub confirmed : WebsocketConnection
  confirmed = record c {
    inflights = erase sub.request_id (insert sub.request_id sub c.inflights);
    request_to_subs = insert sub.request_id s c.request_to_subs;
    subscriptions = insert s joined_listeners c.subscriptions;
  }

  pub request_confirmed :
      let c₁ = (on_request is_open connects c sub true).connection in
      let r = on_confirmation is_open c₁ sub.request_id s in
      (r.connection ≡ confirmed)
      × (r.sent ≡ (sub.tx, subscribed (confirmed_handle c sub.request_id sub)) ∷ [])
  unfolding on_request on_confirmation
  request_confirmed =
      let there : lookup sub.request_id (insert sub.request_id sub c.inflights) ≡ some sub =
        lookup-insert_self sub.request_id sub c.inflights in
      rw (there, on_confirmation, listens) (refl, refl)

  -- An unsubscription of the request by another subscriber's identifier.
  pub stays_registered :
      (u : Unsubscription) (id : RequestId)
      → u.request_id ≡ sub.request_id
      → u.subscriber_id ≢ sub.subscriber_id
      → listener
          (on_unsubscription is_open connects confirmed u id true).connection
          s
          sub.subscriber_id
        ≡ some (record { request_id = sub.request_id; upstream = sub.upstream; tx = sub.tx })
  unfolding on_unsubscription
  stays_registered u id same other =
      let mapped : lookup u.request_id confirmed.request_to_subs ≡ some s =
        ground (arith, lookup-insert sub.request_id u.request_id s c.request_to_subs) in
      let there : lookup s confirmed.subscriptions ≡ some joined_listeners =
        lookup-insert_self s joined_listeners c.subscriptions in
      rw (mapped, on_unsubscription, there)
        (listener-with_listeners confirmed s (erase u.subscriber_id joined_listeners)
            sub.subscriber_id
          ∙ ground (
            arith,
            lookup-erase u.subscriber_id sub.subscriber_id joined_listeners,
            lookup-insert sub.subscriber_id sub.subscriber_id
                (record { request_id = sub.request_id; upstream = sub.upstream; tx = sub.tx })
                (or_default (lookup s c.subscriptions)),
          ))

-- The rounds of the handler in this.
module _ (owner_of : ℕ → Option Pubkey) (h : AccountSubscriptionHandler) (w : World)
    (identity : Pubkey) (node : RemoteHandle) (id : RequestId) (payload : ℕ)
    (known : ephemeral_handle w.routes identity ≡ some node)
    (delegated : owner_of payload ≡ some delegation_program) where
  abbrev pub resubscribed : Acted
  resubscribed = record (nothing h (record w { next_id = (two_ids w.next_id).2 })) {
    requests = node_subscription h w node.ws ∷ [];
    client = payload ∷ [];
  }

  notified :
      on_client_event owner_of h w
        (received (notification id chain payload) (some identity) true true)
      ≡ some resubscribed
  unfolding on_client_event handle_delegation_status_change change_upstream subscribe_to_node
      on_notification
  notified = rw (delegated, handle_delegation_status_change, known, subscribe_to_node)

  -- A delegated account's client is subscribed to the node under an identifier of its own, but is
  -- unsubscribed under the handler's. So after the node has confirmed the subscription and the
  -- client has gone away, its listener is still registered with the connection, also once the
  -- connection has received the unsubscription for that very request.
  pub redelegation-stays_registered :
      (is_open : Channel → Bool) (connects : ℕ → Bool) (c : WebsocketConnection)
      (s : SubscriptionId) (fresh : RequestId)
      → is_open h.pubsub_tx ≡ true
      → h.subscriber_id ≢ w.next_id
      → IsUnique h.handles
      → let sub = node_subscription h w node.ws in
        let c₁ = (on_request is_open connects c sub true).connection in
        let r = on_confirmation is_open c₁ sub.request_id s in
        (a b d : Acted) × (handle : SubscriptionHandle) × (u : Unsubscription) × (on_client_event
            owner_of h w
            (received (notification id chain payload) (some identity) true true)
          ≡ some a)
        × (a.requests ≡ sub ∷ [])
        × (r.sent ≡ (h.pubsub_tx, subscribed handle) ∷ [])
        × (on_client_event owner_of a.handler a.world (received (subscribed handle) none true true)
            ≡ some b)
        × (on_client_event owner_of b.handler b.world closed ≡ some d)
        × Memᴰ (c.unsubscriptions_tx, u) d.unsubs
        × (u.request_id ≡ sub.request_id)
        × (listener
              (on_unsubscription is_open connects r.connection u fresh true).connection
              s
              sub.subscriber_id
            ≡ some (record { request_id = sub.request_id; upstream = ephem; tx = h.pubsub_tx }))
  redelegation-stays_registered is_open connects c s fresh listens other unique =
      let sub = node_subscription h w node.ws in
      let handle = confirmed_handle c sub.request_id sub in
      let (connected, told) = request_confirmed is_open connects c sub s listens in
      let b : Acted =
        nothing (record h { handles = insert sub.request_id handle h.handles })
          resubscribed.world in
      let (d, gone, _, _, all, _) =
        closed-unsubs b.handler owner_of b.world
          (insert-IsUnique sub.request_id handle h.handles unique) in
      (
        resubscribed,
        b,
        d,
        handle,
        account_unsubscription h sub.request_id,
        notified,
        refl,
        told,
        unfold on_client_event in refl,
        gone,
        all sub.request_id handle (lookup-insert_self sub.request_id handle h.handles),
        refl,
        rw connected (
            stays_registered is_open connects c sub s listens
              (account_unsubscription h sub.request_id) fresh refl (unfold generate in other)),
      )
