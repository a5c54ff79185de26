-- ===== src/Examples/Starting.antt =====
-- The start of the router at concrete inputs (src/lib.rs): the table of `Examples.Registry`.
use mathlib.Core.List.Memᴰ
use mathlib.Core.List.{Memᴰ}
use mathlib.Core.Option
use magic_router.Prelude.{◌≡◌, refl, Bool, true, none, some, List, [], ◌∷◌}
use magic_router.Error.{ok}
use magic_router.Routes.{chain, ephem}
use magic_router.Pubsub.{Channel}
use magic_router.Pubsub.Dispatch.{Event, state, connected}
use magic_router.Metrics.{Metrics, new_metrics}
use magic_router.Startup.{
  RouterConfig, Router, Outside, parse_identity, merge, serving, finish_start, run,
}
use magic_router.Startup.Wiring.{Started, run-Started}
use magic_router.Examples.Counting.{plain_counters}
use magic_router.Examples.Registry.{env, registry, started, announced, new_started}

abbrev all_listen : Channel → Bool
all_listen tx = true

abbrev wake_up : List Event
wake_up =
    state (record { is_online = true; url = 1001; target = chain })
    ∷ state (record { is_online = true; url = 1060; target = ephem })
    ∷ connected 1060 51
    ∷ connected 1001 50
    ∷ []

abbrev config : RouterConfig
config = record {
  listen_address = 8080;
  base_chain_urls = 1 ∷ [];
  max_cached_delegations = 5000;
  max_cached_transactions = 20000;
  max_connections = 100;
  max_subscriptions_per_connection = 10;
  connections_per_upstream = 2;
  ping_interval_sec = 5;
  static_er_identity = some 8;
  proximity_ping_frequency_sec = 30;
}

abbrev outside : Outside
outside = record {
  from_str = some;
  build = λ address. ok true;
  read = registry;
  syncer_starts = true;
}

abbrev fresh : Metrics
fresh = new_metrics plain_counters

not_yet : fresh.methods ≡ none
unfolding new_metrics
not_yet = refl

abbrev router : Router
router = serving plain_counters config fresh started announced (1 ∷ 2 ∷ 3 ∷ []) 20

runs : run plain_counters env outside config fresh (1 ∷ []) (2 ∷ []) (3 ∷ []) 20 ≡ some (ok router)
unfolding run parse_identity finish_start merge Option.bind
runs = rw (new_started, run) refl

run-Started_example : Started outside config (1 ∷ 2 ∷ 3 ∷ []) router
run-Started_example =
    run-Started plain_counters env outside config fresh (1 ∷ []) (2 ∷ []) (3 ∷ []) 20 not_yet router
      runs
