-- ===== src/Websocket/Handles.antt =====
-- The handles of an account subscription: what a handler unsubscribes from when its client goes
-- away, and what it leaves behind (src/server/websocket.rs).
use mathlib.Core.List.{Memᴰ}
use magic_router.Prelude.{
  ℕ, ◌≡◌, refl, sym, ap, subst, ◌∙◌, inl, inr, Bool, false, not, Option, none, some, [], ◌∷◌, ◌==◌,
  Bool-cases, Option-cases, arith,
}
use magic_router.Prelude.Dict.{
  IsUnique, insert-IsUnique, erase-IsUnique, Dict, lookup, insert, erase, lookup-insert,
  lookup-erase,
}
use magic_router.Types.{Pubkey, RequestId}
use magic_router.Routes.{PubSubUpstreamKind, chain, ephem, ephemeral_handle}
use magic_router.Pubsub.{
  Channel, Unsubscription, SubscriptionHandle, subscribed, notification, disconnected,
}
use magic_router.Websocket.{
  subscribe_to_node, unsubscribe_from_node, change_upstream, handle_delegation_status_change,
  on_notification, resubscribe, on_disconnected, AccountSubscriptionHandler, World, Acted, nothing,
  account_unsubscription, unsubscribe_all, ClientEvent, closed, received, on_client_event,
}

module _ (h : AccountSubscriptionHandler) where
  unsubscribe_all-Memᴰ :
      (handles : Dict SubscriptionHandle) (k : RequestId) (handle : SubscriptionHandle)
      → lookup k handles ≡ some handle
      → Memᴰ (handle.unsub, account_unsubscription h k) (unsubscribe_all h handles)
  unfolding unsubscribe_all lookup
  unsubscribe_all-Memᴰ [] k handle e = cc
  unsubscribe_all-Memᴰ ((j, x) ∷ rest) k handle e = elim (Bool-cases (j == k)) [
    | inl here ↦
        let same : handle ≡ x = ground arith in
        let key : j ≡ k = ground arith in
        Memᴰ.head (
          ap (λ (y : SubscriptionHandle). (y.unsub, account_unsubscription h k)) same
          ∙ ap (λ (i : RequestId). (x.unsub, account_unsubscription h i)) (sym key))
    | inr other ↦ Memᴰ.tail (unsubscribe_all-Memᴰ rest k handle (ground arith))
  ]

  Memᴰ-unsubscribe_all :
      (handles : Dict SubscriptionHandle) (x : Channel × Unsubscription)
      → IsUnique handles
      → Memᴰ x (unsubscribe_all h handles)
      → (k : RequestId) × (handle : SubscriptionHandle) × (lookup k handles ≡ some handle)
        × ((handle.unsub, account_unsubscription h k) ≡ x)
  unfolding unsubscribe_all lookup
  Memᴰ-unsubscribe_all [] x u a = elim a [ ]
  Memᴰ-unsubscribe_all ((j, y) ∷ rest) x u (Memᴰ.head e) = (j, y, ground arith, sym e)
  Memᴰ-unsubscribe_all ((j, y) ∷ rest) x u (Memᴰ.tail a) =
      let (k, handle, there, e) = Memᴰ-unsubscribe_all rest x u.1 a in
      (k, handle, ground (arith, u.0), e)

  -- When the client is gone, the handler's loop ends, and an unsubscription is sent for each of
  -- its handles, to the connection that confirmed it, and for nothing else.
  pub closed-unsubs :
      (owner_of : ℕ → Option Pubkey) (w : World)
      → IsUnique h.handles
      → (a : Acted) × (on_client_event owner_of h w closed ≡ some a)
        × (a.goes_on ≡ false)
        × (a.handler.handles ≡ [])
        × ((k : RequestId) (handle : SubscriptionHandle)
            → lookup k h.handles ≡ some handle
            → Memᴰ (handle.unsub, account_unsubscription h k) a.unsubs)
        × ((x : Channel × Unsubscription)
            → Memᴰ x a.unsubs
            → (k : RequestId) × (handle : SubscriptionHandle) × (lookup k h.handles ≡ some handle)
              × ((handle.unsub, account_unsubscription h k) ≡ x))
  unfolding on_client_event
  closed-unsubs owner_of w u = (
    record (nothing (record h { handles = [] }) w) {
      unsubs = unsubscribe_all h h.handles;
      goes_on = false;
    },
    refl,
    refl,
    refl,
    (λ k handle e. unsubscribe_all-Memᴰ h.handles k handle e),
    λ x a. Memᴰ-unsubscribe_all h.handles x u a,
  )

-- The handles are kept by the identifiers of their requests, and by no identifier twice.
pub record HandlesInv (handles : Dict SubscriptionHandle) : Type 0 where
  pub unique : IsUnique handles
  pub keyed :
      (k : RequestId) (handle : SubscriptionHandle)
      → lookup k handles ≡ some handle
      → handle.request_id ≡ k

insert-HandlesInv :
    (handle : SubscriptionHandle) (handles : Dict SubscriptionHandle)
    → HandlesInv handles
    → HandlesInv (insert handle.request_id handle handles)
insert-HandlesInv handle handles inv = record {
  unique = insert-IsUnique handle.request_id handle handles inv.unique;
  keyed = λ k x e. elim (Bool-cases (handle.request_id == k)) [
    | inl here ↦
        let same : handle ≡ x = ground (arith, lookup-insert handle.request_id k handle handles) in
        ap (λ (y : SubscriptionHandle). y.request_id) (sym same) ∙ ground arith
    | inr other ↦ inv.keyed k x (ground (arith, lookup-insert handle.request_id k handle handles))
  ];
}

erase-HandlesInv :
    (id : RequestId) (handles : Dict SubscriptionHandle)
    → HandlesInv handles
    → HandlesInv (erase id handles)
erase-HandlesInv id handles inv = record {
  unique = erase-IsUnique id handles inv.unique;
  keyed = λ k x e. inv.keyed k x (ground (arith, lookup-erase id k handles));
}

module _ (h : AccountSubscriptionHandler) (w : World) (inv : HandlesInv h.handles) where
  subscribe_to_node-HandlesInv :
      (identity : Pubkey) → HandlesInv (subscribe_to_node h w identity).handler.handles
  unfolding subscribe_to_node
  subscribe_to_node-HandlesInv identity = elim (Option-cases (ephemeral_handle w.routes identity)) [
    | inl unknown ↦ rw (unknown, subscribe_to_node) inv
    | inr (node, known) ↦ rw (known, subscribe_to_node) inv
  ]

  unsubscribe_from_node-HandlesInv :
      (id : RequestId) → HandlesInv (unsubscribe_from_node h w id).handler.handles
  unfolding unsubscribe_from_node
  unsubscribe_from_node-HandlesInv id = elim (Option-cases (lookup id h.handles)) [
    | inl unknown ↦ rw (unknown, unsubscribe_from_node) inv
    | inr (handle, known) ↦ rw (known, unsubscribe_from_node) (erase-HandlesInv id h.handles inv)
  ]

  change_upstream-HandlesInv :
      (authority : Option Pubkey) (id : RequestId) (upstream : PubSubUpstreamKind)
      → HandlesInv (change_upstream h w authority id upstream).handler.handles
  unfolding change_upstream
  change_upstream-HandlesInv none id chain = inv
  change_upstream-HandlesInv (some identity) id chain = subscribe_to_node-HandlesInv identity
  change_upstream-HandlesInv none id ephem = unsubscribe_from_node-HandlesInv id
  change_upstream-HandlesInv (some identity) id ephem = unsubscribe_from_node-HandlesInv id

  status_change-HandlesInv :
      (owner authority : Option Pubkey) (id : RequestId) (upstream : PubSubUpstreamKind)
      → HandlesInv (handle_delegation_status_change h w owner authority id upstream).handler.handles
  unfolding handle_delegation_status_change
  status_change-HandlesInv none authority id upstream = inv
  status_change-HandlesInv (some owner) authority id upstream =
      elim (Bool-cases (not (owner == 0))) [
        | inl other ↦ rw (other, handle_delegation_status_change) inv
        | inr program ↦
            rw (program, handle_delegation_status_change)
              (change_upstream-HandlesInv authority id upstream)
      ]

  on_notification-handler :
      (a : Acted) (payload : ℕ) (serialized delivered : Bool)
      → (on_notification a payload serialized delivered).handler ≡ a.handler
  unfolding on_notification
  on_notification-handler a payload serialized delivered = ground arith

  on_disconnected-HandlesInv :
      (authority : Option Pubkey) (id : RequestId) (a : Acted)
      → on_disconnected h w authority id ≡ some a
      → HandlesInv a.handler.handles
  unfolding on_disconnected resubscribe
  on_disconnected-HandlesInv authority id a e = elim (Option-cases (lookup id h.handles)) [
    | inl unknown ↦
        let same : h.handles ≡ a.handler.handles = ground arith in subst HandlesInv same inv
    | inr (handle, known) ↦
        let same : erase id h.handles ≡ a.handler.handles = ground arith in
        subst HandlesInv same (erase-HandlesInv id h.handles inv)
  ]

  -- Every round of a handler, in which a message may confirm, end or lose a subscription, keeps
  -- its handles by the identifiers of their requests, and by no identifier twice.
  on_client_event-HandlesInv :
      (owner_of : ℕ → Option Pubkey) (e : ClientEvent) (a : Acted)
      → on_client_event owner_of h w e ≡ some a
      → HandlesInv a.handler.handles
  unfolding on_client_event
  on_client_event-HandlesInv owner_of closed a q =
      let same : [] ≡ a.handler.handles = ground arith in
      subst HandlesInv same (record { unique = tt; keyed = λ k x e. (unfold lookup in (cc)) })
  on_client_event-HandlesInv owner_of (received (subscribed handle) authority serialized delivered)
        a q =
      let same : insert handle.request_id handle h.handles ≡ a.handler.handles = ground arith in
      subst HandlesInv same (insert-HandlesInv handle h.handles inv)
  on_client_event-HandlesInv owner_of
        (received (notification id upstream payload) authority serialized delivered) a q =
      let changed = handle_delegation_status_change h w (owner_of payload) authority id upstream in
      let same : (on_notification changed payload serialized delivered).handler ≡ a.handler =
        ground arith in
      subst (λ (x : AccountSubscriptionHandler). HandlesInv x.handles)
        (sym (on_notification-handler changed payload serialized delivered) ∙ same)
        (status_change-HandlesInv (owner_of payload) authority id upstream)
  on_client_event-HandlesInv owner_of (received (disconnected id) authority serialized delivered) a
        q =
      on_disconnected-HandlesInv authority id a q
