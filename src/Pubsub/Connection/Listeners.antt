-- ===== src/Pubsub/Connection/Listeners.antt =====
-- The listeners of a connection's subscriptions (the notifications, confirmations and
-- unsubscriptions of `run` in src/pubsub/connection.rs).
use magic_router.Prelude.{
  ℕ, ◌≡◌, ◌≢◌, refl, subst, inl, inr, Bool, true, false, ◌||◌, none, some, List, [], ◌∷◌, ◌==◌,
  if◌then◌else◌, is_empty, Bool-cases, Option-cases, arith,
}
use magic_router.Prelude.Dict.{
  IsUnique, insert-IsUnique, erase-IsUnique, Dict, lookup, insert, erase, lookup-insert,
  lookup-erase,
}
use magic_router.Types.{RequestId, SubscriberId, SubscriptionId}
use magic_router.Pubsub.{Channel, Unsubscription, confirmation, unsubscribed, update}
use magic_router.Pubsub.Connection.{
  SubscriberHandle, WebsocketConnection, Frame, to_remove, remove_all, with_listeners, on_update,
  or_default, on_confirmation, on_message, reestablish, write_frame, on_unsubscription, on_request,
  on_ping, Event, message, unsubscription, request, ping, lost, shutdown, on_event,
}

abbrev pub contains : ℕ → List ℕ → Bool
contains j [] = false
contains j (k ∷ ks) = (k == j) || contains j ks

module _ {ℓ} {V : Type ℓ} where
  remove_all-IsUnique : (ks : List ℕ) (m : Dict V) → IsUnique m → IsUnique (remove_all ks m)
  unfolding remove_all
  remove_all-IsUnique [] m u = u
  remove_all-IsUnique (k ∷ ks) m u = remove_all-IsUnique ks (erase k m) (erase-IsUnique k m u)

  pub lookup-remove_all :
      (ks : List ℕ) (j : ℕ) (m : Dict V)
      → lookup j (remove_all ks m) ≡ (if contains j ks then none else lookup j m)
  unfolding remove_all
  lookup-remove_all [] j m = refl
  lookup-remove_all (k ∷ ks) j m =
      ground (arith, lookup-remove_all ks j (erase k m), lookup-erase k j m)

-- Every subscription that is kept has listeners, each under its own identifier.
abbrev pub ConnectionInv : WebsocketConnection → Type 0
ConnectionInv c =
    (s : SubscriptionId) (listeners : Dict SubscriberHandle)
    → lookup s c.subscriptions ≡ some listeners
    → (listeners ≢ []) × IsUnique listeners

module _ (is_open : Channel → Bool) (connects : ℕ → Bool) (c : WebsocketConnection)
    (inv : ConnectionInv c) where
  with_listeners-Inv :
      (s : SubscriptionId) (left : Dict SubscriberHandle)
      → IsUnique left
      → (t : SubscriptionId) (listeners : Dict SubscriberHandle)
      → lookup t (with_listeners s left c.subscriptions) ≡ some listeners
      → (listeners ≢ []) × IsUnique listeners
  unfolding with_listeners
  with_listeners-Inv s [] u t listeners h =
      inv t listeners (ground (arith, lookup-erase s t c.subscriptions))
  with_listeners-Inv s (l ∷ ls) u t listeners h = elim (Bool-cases (s == t)) [
    | inr other ↦ inv t listeners (ground (arith, lookup-insert s t (l ∷ ls) c.subscriptions))
    | inl here ↦
        let same : (l ∷ ls) ≡ listeners =
          ground (arith, lookup-insert s t (l ∷ ls) c.subscriptions) in
        subst (λ (x : Dict SubscriberHandle). (x ≢ []) × IsUnique x) same ((λ e. cc), u)
  ]

  or_default-IsUnique : (s : SubscriptionId) → IsUnique (or_default (lookup s c.subscriptions))
  or_default-IsUnique s = elim (Option-cases (lookup s c.subscriptions)) [
    | inl new ↦ rw new tt
    | inr (listeners, there) ↦ rw there (inv s listeners there).1
  ]

  on_update-Inv :
      (s : SubscriptionId) (payload : ℕ) → ConnectionInv (on_update is_open c s payload).connection
  unfolding on_update
  on_update-Inv s payload = elim (Option-cases (lookup s c.subscriptions)) [
    | inl unknown ↦ rw (unknown, on_update) inv
    | inr (listeners, there) ↦
        rw (there, on_update)
          (with_listeners-Inv s (remove_all (to_remove is_open listeners) listeners)
            (remove_all-IsUnique (to_remove is_open listeners) listeners (inv s listeners there).1))
  ]

  insert-not_empty :
      (k : ℕ) (v : SubscriberHandle) (m : Dict SubscriberHandle) → is_empty (insert k v m) ≡ false
  unfolding insert
  insert-not_empty k v [] = refl
  insert-not_empty k v ((j, w) ∷ m) = ground arith

  as_insert :
      (s : SubscriptionId) (new : Dict SubscriberHandle) (t : SubscriptionId)
      (listeners : Dict SubscriberHandle)
      → is_empty new ≡ false
      → lookup t (insert s new c.subscriptions) ≡ some listeners
      → lookup t (with_listeners s new c.subscriptions) ≡ some listeners
  unfolding with_listeners
  as_insert s new t listeners full h = rw (full, with_listeners) h

  joined-Inv :
      (s : SubscriptionId) (id : SubscriberId) (handle : SubscriberHandle)
      → (t : SubscriptionId) (listeners : Dict SubscriberHandle)
      → lookup t
          (insert s (insert id handle (or_default (lookup s c.subscriptions))) c.subscriptions)
        ≡ some listeners
      → (listeners ≢ []) × IsUnique listeners
  joined-Inv s id handle t listeners h =
      let new = insert id handle (or_default (lookup s c.subscriptions)) in
      with_listeners-Inv s new
        (insert-IsUnique id handle (or_default (lookup s c.subscriptions)) (or_default-IsUnique s))
        t listeners
        (as_insert s new t listeners
          (insert-not_empty id handle (or_default (lookup s c.subscriptions))) h)

  on_confirmation-Inv :
      (id : RequestId) (result : SubscriptionId)
      → ConnectionInv (on_confirmation is_open c id result).connection
  unfolding on_confirmation
  on_confirmation-Inv id result = elim (Option-cases (lookup id c.inflights)) [
    | inl unknown ↦ rw (unknown, on_confirmation) inv
    | inr (sub, there) ↦ elim (Bool-cases (is_open sub.tx)) [
      | inr gone ↦ rw (there, on_confirmation, gone) inv
      | inl listens ↦ rw (there, on_confirmation, listens) (joined-Inv result sub.subscriber_id _)
    ]
  ]

  reestablish-Inv : ConnectionInv (reestablish is_open connects c).connection
  unfolding reestablish lookup
  reestablish-Inv s listeners h = cc

module _ (is_open : Channel → Bool) (connects : ℕ → Bool) where
  write_frame-Inv :
      (c : WebsocketConnection) (frame : Frame) (taken : Bool)
      → ConnectionInv c
      → ConnectionInv (write_frame is_open connects c frame taken).connection
  write_frame-Inv c frame true inv = inv
  write_frame-Inv c frame false inv = reestablish-Inv is_open connects c inv

  on_unsubscription-Inv :
      (c : WebsocketConnection) (u : Unsubscription) (id : RequestId) (taken : Bool)
      → ConnectionInv c
      → ConnectionInv (on_unsubscription is_open connects c u id taken).connection
  unfolding on_unsubscription
  on_unsubscription-Inv c u id taken inv =
      elim (Option-cases (lookup u.request_id c.request_to_subs)) [
        | inl unknown ↦ rw (unknown, on_unsubscription) inv
        | inr (s, mapped) ↦ elim (Option-cases (lookup s c.subscriptions)) [
          | inl ended ↦ rw (mapped, on_unsubscription, ended) inv
          | inr (listeners, there) ↦
              rw (mapped, on_unsubscription, there)
                (write_frame-Inv
                  (record c {
                    subscriptions =
                        with_listeners s (erase u.subscriber_id listeners) c.subscriptions;
                  })
                  _ taken
                  (with_listeners-Inv is_open connects c inv s (erase u.subscriber_id listeners)
                    (erase-IsUnique u.subscriber_id listeners (inv s listeners there).1)))
        ]
      ]

  -- Every event of a connection's loop, with channels that are closed and websockets that fail,
  -- keeps no subscription without listeners, and no subscriber twice on one subscription.
  pub on_event-Inv :
      (c : WebsocketConnection) (e : Event)
      → ConnectionInv c
      → ConnectionInv (on_event is_open connects c e).connection
  unfolding on_event on_message on_request on_ping
  on_event-Inv c (message (confirmation id result)) inv =
      on_confirmation-Inv is_open connects c inv id result
  on_event-Inv c (message (unsubscribed id)) inv = inv
  on_event-Inv c (message (update s payload)) inv = on_update-Inv is_open connects c inv s payload
  on_event-Inv c (unsubscription u id taken) inv = on_unsubscription-Inv c u id taken inv
  on_event-Inv c (request s taken) inv =
      write_frame-Inv (record c { inflights = insert s.request_id s c.inflights }) _ taken inv
  on_event-Inv c (ping true) inv = inv
  on_event-Inv c (ping false) inv = reestablish-Inv is_open connects c inv
  on_event-Inv c lost inv = reestablish-Inv is_open connects c inv
  on_event-Inv c shutdown inv = inv
