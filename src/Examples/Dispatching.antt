-- ===== src/Examples/Dispatching.antt =====
-- The subscription dispatcher at concrete inputs (src/pubsub/dispatch.rs): one upstream at 1000
-- with the channel 50.
use magic_router.Prelude.{ℕ, Bool, true, none, [], ◌∷◌}
use magic_router.Routes.{ephem}
use magic_router.Pubsub.{account_subscription_json, Channel, Subscription}
use magic_router.Pubsub.Dispatch.{SubscriptionDispatcher, on_subscription}
use magic_router.Pubsub.Dispatch.Registering.{Routed, on_subscription-Routed}

abbrev all_live : Channel → Bool
all_live tx = true

abbrev hub : SubscriptionDispatcher
hub = record { upstreams = (1000, 50) ∷ []; connecting = 1001 ∷ []; ready = true }

abbrev subscription_to : ℕ → Subscription
subscription_to url = record {
  request_id = 1;
  subscriber_id = 2;
  payload = account_subscription_json 1 3 none;
  tx = 4;
  destination = url;
  upstream = ephem;
}

on_subscription-Routed_example :
    Routed all_live hub (subscription_to 1000) (on_subscription all_live hub (subscription_to 1000))
on_subscription-Routed_example = on_subscription-Routed all_live hub (subscription_to 1000)
