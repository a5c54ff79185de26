-- ===== src/Pubsub/Connection/Notifying.antt =====
-- One notification of an upstream, and one unsubscription (`run` in src/pubsub/connection.rs).
use magic_router.Prelude.{
  ℕ, ◌≡◌, ◌≢◌, refl, sym, ap, subst, ◌∙◌, ◌⊎◌, inl, inr, Bool, true, not, Option, none, some, [],
  ◌∷◌, ◌++◌, ◌==◌, if◌then◌else◌, Bool-cases, Option-cases, arith,
}
use magic_router.Prelude.Dict.{
  IsUnique, Dict, lookup, erase, lookup-insert, lookup-erase, lookup-insert_self, lookup-erase_self,
}
use magic_router.Types.{RequestId, SubscriberId, SubscriptionId}
use magic_router.Pubsub.{Channel, Unsubscription, PubsubMessage, notification}
use magic_router.Pubsub.Connection.{
  SubscriberHandle, WebsocketConnection, unsubscribe, Sent, deliver, to_remove, remove_all,
  with_listeners, on_update, on_unsubscription,
}
use magic_router.Pubsub.Connection.Listeners.{ConnectionInv, contains, lookup-remove_all}

-- The listener of a subscription with the given identifier.
abbrev pub listener : WebsocketConnection → SubscriptionId → SubscriberId → Option SubscriberHandle
listener c s j = elim (lookup s c.subscriptions) [ none ↦ none | some ls ↦ lookup j ls ]

abbrev pub keep_open : (Channel → Bool) → Option SubscriberHandle → Option SubscriberHandle
keep_open is_open none = none
keep_open is_open (some sh) = if is_open sh.tx then some sh else none

abbrev pub Received : Channel × PubsubMessage → Sent → Type 0
Received x [] = ⊥
Received x (y ∷ ys) = (y ≡ x) ⊎ Received x ys

abbrev pub is_some_open : (Channel → Bool) → Option SubscriberHandle → Bool
is_some_open is_open none = true
is_some_open is_open (some sh) = is_open sh.tx

contains-to_remove :
    (is_open : Channel → Bool) (ls : Dict SubscriberHandle) (j : SubscriberId)
    → IsUnique ls
    → contains j (to_remove is_open ls) ≡ not (is_some_open is_open (lookup j ls))
unfolding to_remove lookup
contains-to_remove is_open [] j u = refl
contains-to_remove is_open ((id, sh) ∷ ls) j u = elim (Bool-cases (id == j)) [
  | inl here ↦
      let same : id ≡ j = ground arith in ground (arith, contains-to_remove is_open ls j u.1)
  | inr other ↦ ground (arith, contains-to_remove is_open ls j u.1)
]

lookup-left :
    (is_open : Channel → Bool) (ls : Dict SubscriberHandle) (j : SubscriberId)
    → IsUnique ls
    → lookup j (remove_all (to_remove is_open ls) ls) ≡ keep_open is_open (lookup j ls)
lookup-left is_open ls j u =
    lookup-remove_all (to_remove is_open ls) j ls
    ∙ ground (arith, contains-to_remove is_open ls j u)

pub listener-of :
    (c : WebsocketConnection) (s : SubscriptionId) (ls : Dict SubscriberHandle) (j : SubscriberId)
    → lookup s c.subscriptions ≡ some ls
    → listener c s j ≡ lookup j ls
listener-of c s ls j h = rw (h, listener)

pub listener-with_listeners :
    (c : WebsocketConnection) (s : SubscriptionId) (left : Dict SubscriberHandle) (j : SubscriberId)
    → listener (record c { subscriptions = with_listeners s left c.subscriptions }) s j
      ≡ lookup j left
unfolding with_listeners lookup
listener-with_listeners c s [] j = rw (lookup-erase_self s c.subscriptions, listener)
listener-with_listeners c s (l ∷ ls) j =
    rw (lookup-insert_self s (l ∷ ls) c.subscriptions, listener)

lookup-with_listeners :
    (c : WebsocketConnection) (s t : SubscriptionId) (left : Dict SubscriberHandle)
    → s ≢ t
    → lookup t (with_listeners s left c.subscriptions) ≡ lookup t c.subscriptions
unfolding with_listeners
lookup-with_listeners c s t [] ne = ground (arith, lookup-erase s t c.subscriptions)
lookup-with_listeners c s t (l ∷ ls) ne = ground (arith, lookup-insert s t (l ∷ ls) c.subscriptions)

-- Each open listener is among those that a delivery reaches.
deliver-Received :
    (is_open : Channel → Bool) (payload : ℕ) (ls : Dict SubscriberHandle) (j : SubscriberId)
    (sh : SubscriberHandle)
    → lookup j ls ≡ some sh
    → is_open sh.tx ≡ true
    → Received (sh.tx, notification sh.request_id sh.upstream payload) (deliver is_open payload ls)
unfolding deliver lookup
deliver-Received is_open payload [] j sh h o = cc
deliver-Received is_open payload ((id, x) ∷ ls) j sh h o = elim (Bool-cases (id == j)) [
  | inl here ↦
      let same : sh ≡ x = ground arith in
      let opened : is_open x.tx ≡ true =
        ap (λ (y : SubscriberHandle). is_open y.tx) (sym same) ∙ o in
      rw (opened, deliver)
        (inl (
          ap (λ (y : SubscriberHandle). (y.tx, notification y.request_id y.upstream payload))
            (sym same)))
  | inr other ↦
      let ih = deliver-Received is_open payload ls j sh (ground arith) o in
      elim (Bool-cases (is_open x.tx)) [
        | inl opened ↦ rw (opened, deliver) (inr ih)
        | inr closed ↦ rw (closed, deliver) ih
      ]
]

-- A delivery reaches no one else.
Received-deliver :
    (is_open : Channel → Bool) (payload : ℕ) (ls : Dict SubscriberHandle)
    (x : Channel × PubsubMessage)
    → IsUnique ls
    → Received x (deliver is_open payload ls)
    → (j : SubscriberId) × (sh : SubscriberHandle) × (lookup j ls ≡ some sh)
      × (is_open sh.tx ≡ true)
      × ((sh.tx, notification sh.request_id sh.upstream payload) ≡ x)
unfolding deliver lookup
Received-deliver is_open payload [] x u r = elim r [ ]
Received-deliver is_open payload ((id, y) ∷ ls) x u r = elim (Bool-cases (is_open y.tx)) [
  | inl opened ↦
      elim (subst
        (λ (b : Bool). Received x (
          (if b then (y.tx, notification y.request_id y.upstream payload) ∷ [] else [])
          ++ deliver is_open payload ls))
        opened r) [
          | inl now ↦ (id, y, ground arith, opened, now)
          | inr later ↦
              let (j, sh, there, o, e) = Received-deliver is_open payload ls x u.1 later in
              (j, sh, ground (arith, u.0), o, e)
        ]
  | inr closed ↦
      let (j, sh, there, o, e) = Received-deliver is_open payload ls x u.1 (
        subst
          (λ (b : Bool). Received x (
            (if b then (y.tx, notification y.request_id y.upstream payload) ∷ [] else [])
            ++ deliver is_open payload ls))
          closed r) in
      (j, sh, ground (arith, u.0), o, e)
]

module _ (is_open : Channel → Bool) (c : WebsocketConnection) (s : SubscriptionId) (payload : ℕ)
    (inv : ConnectionInv c) where
  -- A notification leaves exactly the listeners of its subscription whose channels are open, and
  -- the listeners of every other subscription as they are.
  on_update-listeners :
      let c' = (on_update is_open c s payload).connection in
      ((j : SubscriberId) → listener c' s j ≡ keep_open is_open (listener c s j))
      × ((t : SubscriptionId) → s ≢ t → lookup t c'.subscriptions ≡ lookup t c.subscriptions)
  unfolding on_update
  on_update-listeners = elim (Option-cases (lookup s c.subscriptions)) [
    | inl unknown ↦ rw (unknown, on_update) ((λ j. rw (unknown, listener)), λ t ne. refl)
    | inr (ls, there) ↦
        let left = remove_all (to_remove is_open ls) ls in
        rw (there, on_update)
          (
            (λ j.
                listener-with_listeners c s left j
                ∙ lookup-left is_open ls j (inv s ls there).1
                ∙ ap (keep_open is_open) (sym (listener-of c s ls j there))),
            λ t ne. lookup-with_listeners c s t left ne,
          )
  ]

  -- A notification of a subscription reaches each of its listeners whose channel is open, with the
  -- listener's own request identifier, and no one else; of an unknown subscription, no one.
  pub on_update-Received :
      let sent = (on_update is_open c s payload).sent in
      ((j : SubscriberId) (sh : SubscriberHandle)
        → listener c s j ≡ some sh
        → is_open sh.tx ≡ true
        → Received (sh.tx, notification sh.request_id sh.upstream payload) sent)
      × ((x : Channel × PubsubMessage)
          → Received x sent
          → (j : SubscriberId) × (sh : SubscriberHandle) × (listener c s j ≡ some sh)
            × (is_open sh.tx ≡ true)
            × ((sh.tx, notification sh.request_id sh.upstream payload) ≡ x))
  unfolding on_update
  on_update-Received = elim (Option-cases (lookup s c.subscriptions)) [
    | inl unknown ↦ rw (unknown, on_update, listener) ((λ j sh h o. cc), λ x r. absurd r)
    | inr (ls, there) ↦
        rw (there, on_update, listener)
          (
            (λ j sh h o. deliver-Received is_open payload ls j sh h o),
            λ x r. Received-deliver is_open payload ls x (inv s ls there).1 r,
          )
  ]

-- When one of several subscribers of a subscription unsubscribes, the upstream is asked to end the
-- subscription, although the others are still registered as its listeners.
pub on_unsubscription-shared :
    (is_open : Channel → Bool) (connects : ℕ → Bool) (c : WebsocketConnection) (u : Unsubscription)
    (id : RequestId) (s : SubscriptionId) (j : SubscriberId) (mine other : SubscriberHandle)
    → lookup u.request_id c.request_to_subs ≡ some s
    → listener c s u.subscriber_id ≡ some mine
    → listener c s j ≡ some other
    → j ≢ u.subscriber_id
    → let r = on_unsubscription is_open connects c u id true in
      (r.frames ≡ unsubscribe id u.method s ∷ [])
      × (listener r.connection s j ≡ some other)
      × (listener r.connection s u.subscriber_id ≡ none)
unfolding on_unsubscription
on_unsubscription-shared is_open connects c u id s j mine other mapped h g ne =
    elim (Option-cases (lookup s c.subscriptions)) [
      | inl unknown ↦ absurd (ground arith)
      | inr (ls, there) ↦
          rw (mapped, on_unsubscription, there)
            (
              refl,
              listener-with_listeners c s (erase u.subscriber_id ls) j
                  ∙ ground (arith, lookup-erase u.subscriber_id j ls),
              listener-with_listeners c s (erase u.subscriber_id ls) u.subscriber_id
                  ∙ lookup-erase_self u.subscriber_id ls,
            )
    ]
