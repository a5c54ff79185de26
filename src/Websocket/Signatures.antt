-- ===== src/Websocket/Signatures.antt =====
-- The subscriptions of websocket clients to signatures (`signature_subscribe` and
-- `SignatureSubscriptionHandler` in src/server/websocket.rs).
use magic_router.Prelude.{
  ℕ, ◌≡◌, refl, inl, inr, Bool, true, false, ◌&&◌, Option, none, some, List, [], ◌∷◌, if◌then◌else◌,
  Option-cases, ◌≢◌, arith,
}
use magic_router.Types.{Signature, SubscriberId, Url}
use magic_router.Routes.{RemoteHandle, chain}
use magic_router.Transactions.{ForwardedTransactions, get}
use magic_router.Pubsub.{
  Channel, Subscription, Unsubscription, SubscriptionHandle, PubsubMessage, subscribed,
  notification, disconnected, signature_unsubscribe, signature_subscription_json,
}
use magic_router.Websocket.{two_ids}

pub record SignatureSubscriptionHandler : Type 0 where
  pub subscriber_id : SubscriberId
  pub signature : Signature
  pub handle : SubscriptionHandle

-- How `signature_subscribe` ends. In `told_unknown` and `told_timeout` the client gets a message
-- with the error, and the call succeeds; `unsent` is that message if the sink does not take it.
pub data SignatureOutcome : Type 0 where
  not_accepted : SignatureOutcome
  undecodable : SignatureOutcome
  told_unknown : Signature → SignatureOutcome
  told_timeout : SignatureOutcome
  unsent : SignatureOutcome
  running : SignatureSubscriptionHandler → SignatureOutcome

pub record SignatureStarted : Type 0 where
  pub next_id : ℕ
  pub requests : List Subscription
  pub errors : ℕ
  pub outcome : SignatureOutcome

abbrev pub tell : (delivered : Bool) → SignatureOutcome → SignatureOutcome
tell true outcome = outcome
tell false outcome = unsent

abbrev pub signature_request :
    (next_id : ℕ) → Signature → Option ℕ → (tx : Channel) → Url → Subscription
signature_request next_id signature params tx url = record {
  request_id = (two_ids next_id).1;
  subscriber_id = (two_ids next_id).0;
  payload = signature_subscription_json (two_ids next_id).1 signature params;
  tx = tx;
  destination = url;
  upstream = chain;
}

-- The errors that the wait for the confirmation counts, and how it ends.
unfoldable pub await_confirmation :
    (next_id : ℕ) → Signature → Option PubsubMessage → (delivered : Bool) → ℕ × SignatureOutcome
await_confirmation next_id signature (some (subscribed handle)) delivered = (
  0,
  running (record { subscriber_id = (two_ids next_id).0; signature = signature; handle = handle }),
)
await_confirmation next_id signature none delivered = (1, tell delivered told_timeout)
await_confirmation next_id signature (some (notification _ _ _)) delivered =
    (1, tell delivered told_timeout)
await_confirmation next_id signature (some (disconnected _)) delivered =
    (1, tell delivered told_timeout)

unfoldable pub subscribe_at :
    (next_id : ℕ)
    → Signature
    → Option ℕ
    → (tx : Channel) → RemoteHandle
    → Option PubsubMessage
    → (delivered : Bool) → SignatureStarted
subscribe_at next_id signature params tx node confirmation delivered = record {
  next_id = (two_ids next_id).2;
  requests = signature_request next_id signature params tx node.ws ∷ [];
  errors = (await_confirmation next_id signature confirmation delivered).0;
  outcome = (await_confirmation next_id signature confirmation delivered).1;
}

-- `signature` is `none` if the text is no signature; `accepted` and `delivered` are the sink's.
unfoldable pub signature_subscribe :
    ForwardedTransactions
    → (next_id : ℕ) → (accepted : Bool) → Option Signature
    → Option ℕ
    → (tx : Channel) → Option PubsubMessage
    → (delivered : Bool) → SignatureStarted
signature_subscribe txns next_id false signature params tx confirmation delivered = record {
  next_id = next_id;
  requests = [];
  errors = 0;
  outcome = not_accepted;
}
signature_subscribe txns next_id true none params tx confirmation delivered = record {
  next_id = next_id;
  requests = [];
  errors = 1;
  outcome = undecodable;
}
signature_subscribe txns next_id true (some signature) params tx confirmation delivered =
    elim (get txns signature) [
      | none ↦ record {
        next_id = next_id;
        requests = [];
        errors = 1;
        outcome = tell delivered (told_unknown signature);
      }
      | some node ↦ subscribe_at next_id signature params tx node confirmation delivered
    ]

-- What the handler waits for, once.
pub data SignatureEvent : Type 0 where
  closed : SignatureEvent
  received : PubsubMessage → (serialized delivered : Bool) → SignatureEvent
  timed_out : SignatureEvent

-- What it does before it ends.
pub record SignatureActed : Type 0 where
  pub unsubs : List (Channel × Unsubscription)
  pub client : List ℕ

abbrev pub silent_end : SignatureActed
silent_end = record { unsubs = []; client = [] }

unfoldable pub run_signature : SignatureSubscriptionHandler → SignatureEvent → SignatureActed
run_signature h closed = record {
  unsubs =
      (
        h.handle.unsub,
        record {
          subscriber_id = h.subscriber_id;
          request_id = h.handle.request_id;
          method = signature_unsubscribe;
        },
      )
      ∷ [];
  client = [];
}
run_signature h (received (notification id upstream payload) serialized delivered) =
    if serialized && delivered then record { unsubs = []; client = payload ∷ [] } else silent_end
run_signature h (received (subscribed handle) serialized delivered) = silent_end
run_signature h (received (disconnected id) serialized delivered) = silent_end
run_signature h timed_out = silent_end

-- What a subscription to a signature comes to: its events until it is told how it ended.
pub data Told (txns : ForwardedTransactions) (signature : Signature) (params : Option ℕ)
    (confirmation : Option PubsubMessage) (s : SignatureStarted) : Type 0 where
  -- The router did not send the transaction, and asks nobody about it.
  unknown :
      get txns signature ≡ none
      → s.requests ≡ []
      → s.errors ≡ 1
      → s.outcome ≡ told_unknown signature
      → Told txns signature params confirmation s
  -- The node that took the transaction was asked, and did not confirm.
  timeout :
      (node : RemoteHandle) (sub : Subscription)
      → get txns signature ≡ some node
      → ((handle : SubscriptionHandle) → confirmation ≢ some (subscribed handle))
      → s.requests ≡ sub ∷ []
      → sub.destination ≡ node.ws
      → sub.payload ≡ signature_subscription_json sub.request_id signature params
      → s.errors ≡ 1
      → s.outcome ≡ told_timeout
      → Told txns signature params confirmation s
  -- It confirmed, and a handler runs with the handle of the confirmation.
  started :
      (node : RemoteHandle) (sub : Subscription) (h : SignatureSubscriptionHandler)
      → get txns signature ≡ some node
      → confirmation ≡ some (subscribed h.handle)
      → s.requests ≡ sub ∷ []
      → sub.destination ≡ node.ws
      → sub.payload ≡ signature_subscription_json sub.request_id signature params
      → h.signature ≡ signature
      → h.subscriber_id ≡ sub.subscriber_id
      → s.errors ≡ 0
      → s.outcome ≡ running h
      → Told txns signature params confirmation s

module _ (txns : ForwardedTransactions) (next_id : ℕ) (signature : Signature) (params : Option ℕ)
    (tx : Channel) where
  subscribe_at-Told :
      (node : RemoteHandle) (confirmation : Option PubsubMessage)
      → get txns signature ≡ some node
      → Told txns signature params confirmation
          (subscribe_at next_id signature params tx node confirmation true)
  unfolding subscribe_at await_confirmation
  subscribe_at-Told node none sent =
      timeout node _ sent (λ h e. absurd (ground arith)) refl refl refl refl refl
  subscribe_at-Told node (some (subscribed handle)) sent =
      started node _ _ sent refl refl refl refl refl refl refl refl
  subscribe_at-Told node (some (notification _ _ _)) sent =
      timeout node _ sent (λ h e. absurd (ground arith)) refl refl refl refl refl
  subscribe_at-Told node (some (disconnected _)) sent =
      timeout node _ sent (λ h e. absurd (ground arith)) refl refl refl refl refl

  -- A client that is there and names a signature is always answered: that the router does not know
  -- the transaction, that the node which took it did not confirm the subscription, if no confirmation
  -- came, or, exactly after a confirmation, by a handler that has its handle. An error is counted in the first two cases only.
  pub signature_subscribe-Told :
      (confirmation : Option PubsubMessage)
      → Told txns signature params confirmation
          (signature_subscribe txns next_id true (some signature) params tx confirmation true)
  unfolding signature_subscribe
  signature_subscribe-Told confirmation = elim (Option-cases (get txns signature)) [
    | inl new ↦ rw (new, signature_subscribe) (unknown new refl refl refl)
    | inr (node, sent) ↦ rw (sent, signature_subscribe) (subscribe_at-Told node confirmation sent)
  ]
