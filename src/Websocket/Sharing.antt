-- ===== src/Websocket/Sharing.antt =====
-- The two subscriptions of a client of a delegated account, which share a request (src/server/websocket.rs).
use magic_router.Prelude.{
  ℕ, ◌+◌, ◌%◌, ◌≡◌, refl, true, false, Option, none, some, [], ◌∷◌, length, arith,
}
use magic_router.Prelude.Dict.{insert}
use magic_router.Types.{Pubkey}
use magic_router.Routes.{
  UpstreamRecord, RoutingTable, RemoteHandle, chain, ephemeral_handle, base_chain,
}
use magic_router.Routes.RoundRobin.{IsReady, base_chain-next}
use magic_router.Pubsub.{
  Channel, Subscription, SubscriptionHandle, subscribed, clone_with_destination,
}
use magic_router.Websocket.{
  AccountSubscriptionHandler, World, Acted, nothing, account_unsubscription, unsubscribe_all,
  closed, received, on_client_event, run, running, start_handler, node_of, first_requests,
  account_subscribe, two_ids, chain_subscription, new_handler,
}

confirmed_by :
    (w : World) (v pubkey : Pubkey) (params : Option ℕ) (tx : Channel) (node : RemoteHandle)
    (first : SubscriptionHandle) (u : UpstreamRecord) (t : RoutingTable)
    → base_chain w.routes ≡ some (t, u)
    → ephemeral_handle t v ≡ some node
    → account_subscribe w (some v) pubkey params tx (some (subscribed first)) true
      ≡ some (
        record { routes = t; next_id = (two_ids w.next_id).2 },
        clone_with_destination (chain_subscription w pubkey params tx u.ws_url) node.ws
            ∷ chain_subscription w pubkey params tx u.ws_url
            ∷ [],
        running
            (record (new_handler w pubkey params tx) { handles = (first.request_id, first) ∷ [] }),
      )
unfolding account_subscribe node_of first_requests start_handler insert
confirmed_by w v pubkey params tx node first u t step known =
    rw (step, account_subscribe, node_of, known)

-- The end of a handler whose one handle is `second`.
abbrev ended : AccountSubscriptionHandler → World → SubscriptionHandle → Acted
ended h w second = record (nothing (record h { handles = [] }) w) {
  unsubs = (second.unsub, account_unsubscription h second.request_id) ∷ [];
  goes_on = false;
}

ends :
    (h : AccountSubscriptionHandler) (w : World) (first second : SubscriptionHandle)
    (owner_of : ℕ → Option Pubkey)
    → h.handles ≡ (first.request_id, first) ∷ []
    → first.request_id ≡ second.request_id
    → run owner_of h w (received (subscribed second) none true true ∷ closed ∷ [])
      ≡ some (ended h w second)
unfolding run on_client_event unsubscribe_all insert
ends h w first second owner_of one same = ground arith

-- A client of a delegated account has two subscriptions, of the node and of the base chain, under
-- one request identifier. Both are requested as subscriptions of the base chain, and after both
-- are confirmed, in this order of the connections, the client that goes away is unsubscribed
-- from the second only.
pub account_subscribe-one_handle :
    (w : World) (v pubkey : Pubkey) (params : Option ℕ) (tx : Channel) (node : RemoteHandle)
    (first second : SubscriptionHandle) (owner_of : ℕ → Option Pubkey)
    → IsReady w.routes
    → ephemeral_handle w.routes v ≡ some node
    → first.request_id ≡ second.request_id
    → (w' : World) × (h : AccountSubscriptionHandler) × (a : Acted) × (s₁ s₂ : Subscription)
      × (account_subscribe w (some v) pubkey params tx (some (subscribed first)) true
          ≡ some (w', s₁ ∷ s₂ ∷ [], running h))
      × (s₁.destination ≡ node.ws)
      × (s₁.request_id ≡ s₂.request_id)
      × ((s₁.upstream ≡ chain) × (s₂.upstream ≡ chain))
      × (run owner_of h w' (received (subscribed second) none true true ∷ closed ∷ []) ≡ some a)
      × (a.unsubs ≡ (second.unsub, account_unsubscription h second.request_id) ∷ [])
unfolding first_requests ephemeral_handle
account_subscribe-one_handle w v pubkey params tx node first second owner_of ready known same =
    let (u, at_next, step, _) = base_chain-next w.routes ready in
    let w' : World = record {
      routes = record w.routes { next = (w.routes.next + 1) % length w.routes.upstreams };
      next_id = (two_ids w.next_id).2;
    } in
    let h : AccountSubscriptionHandler = record (new_handler w pubkey params tx) {
      handles = (first.request_id, first) ∷ [];
    } in
    (
      w',
      h,
      ended h w' second,
      clone_with_destination (chain_subscription w pubkey params tx u.ws_url) node.ws,
      chain_subscription w pubkey params tx u.ws_url,
      confirmed_by w v pubkey params tx node first u w'.routes step known,
      unfold clone_with_destination in refl,
      unfold clone_with_destination in refl,
      (unfold clone_with_destination in refl, refl),
      ends h w' first second owner_of refl same,
      refl,
    )
