-- ===== src/Startup/Waking.antt =====
-- The start of the router waits until the dispatcher has connected to the nodes that the new
-- table has told it of (`ready` in src/lib.rs, src/cache/routes.rs and src/pubsub/dispatch.rs).
use magic_router.Prelude.{◌≡◌, ◌≢◌, true, List, []}
use magic_router.Pubsub.Dispatch.{SubscriptionDispatcher}

-- A dispatcher that the start still waits for is connecting, or has been told of no node.
abbrev StillWaits : SubscriptionDispatcher → Type 0
StillWaits d = d.ready ≡ true → d.connecting ≡ [] → d.upstreams ≡ []

-- It has been told of a node.
abbrev IsTold : SubscriptionDispatcher → Type 0
IsTold d = d.ready ≡ true → d.connecting ≢ []
