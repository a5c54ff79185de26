-- ===== src/Pubsub.antt =====
-- src/pubsub: subscriptions and the messages that the parts of the router send each other about
-- them. A channel is a number, and so is the JSON value of a notification.
pub mod Connection
pub mod Dispatch
pub mod Notification
use magic_router.Prelude.{ℕ, Option}
use magic_router.Types.{Pubkey, Signature, RequestId, SubscriberId, SubscriptionId, Url}
use magic_router.Routes.{PubSubUpstreamKind}

-- The sending end of a channel to a subscriber.
abbrev pub Channel : Type 0
Channel = ℕ

pub data Method : Type 0 where
  account_subscribe signature_subscribe program_subscribe : Method
  account_unsubscribe signature_unsubscribe : Method

-- The JSON value of a subscription request; `params` is the client's configuration, if any.
pub record SubscribeRequest : Type 0 where
  pub id : RequestId
  pub method : Method
  pub target : ℕ
  pub params : Option ℕ

unfoldable pub account_subscription_json : RequestId → Pubkey → Option ℕ → SubscribeRequest
account_subscription_json id pubkey params = record {
  id = id;
  method = account_subscribe;
  target = pubkey;
  params = params;
}

unfoldable pub signature_subscription_json : RequestId → Signature → Option ℕ → SubscribeRequest
signature_subscription_json id signature params = record {
  id = id;
  method = signature_subscribe;
  target = signature;
  params = params;
}

unfoldable pub program_subscription_json : RequestId → Pubkey → Option ℕ → SubscribeRequest
program_subscription_json id pubkey params = record {
  id = id;
  method = program_subscribe;
  target = pubkey;
  params = params;
}

pub record Subscription : Type 0 where
  pub request_id : RequestId
  pub subscriber_id : SubscriberId
  pub payload : SubscribeRequest
  pub tx : Channel
  pub destination : Url
  pub upstream : PubSubUpstreamKind

unfoldable pub clone_with_destination : Subscription → Url → Subscription
clone_with_destination s url = record s { destination = url }

pub record Unsubscription : Type 0 where
  pub subscriber_id : SubscriberId
  pub request_id : RequestId
  pub method : Method

-- A confirmed subscription, with its connection's channel for unsubscriptions.
pub record SubscriptionHandle : Type 0 where
  pub request_id : RequestId
  pub unsub : Channel
  pub upstream : PubSubUpstreamKind

-- What a connection sends to its subscribers.
pub data PubsubMessage : Type 0 where
  subscribed : SubscriptionHandle → PubsubMessage
  notification : RequestId → PubSubUpstreamKind → (payload : ℕ) → PubsubMessage
  disconnected : RequestId → PubsubMessage

-- What a connection receives from its upstream.
pub data WebsocketMessage : Type 0 where
  confirmation : (id : RequestId) → (result : SubscriptionId) → WebsocketMessage
  unsubscribed : (id : RequestId) → WebsocketMessage
  update : (subscription : SubscriptionId) → (payload : ℕ) → WebsocketMessage
