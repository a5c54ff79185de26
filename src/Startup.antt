-- ===== src/Startup.antt =====
-- src/lib.rs and src/config.rs: the start of the router, from its configuration to the table, the
-- handlers and the metrics that it serves with.
pub mod Waiting
pub mod Waking
pub mod Wiring
use mathlib.Core.Option
use magic_router.Prelude.{
  ℕ, Bool, true, false, ◌||◌, Option, none, some, List, [], ◌∷◌, ◌++◌, ◌==◌, if◌then◌else◌, min,
  map,
}
use magic_router.Types.{Pubkey, Url, Client}
use magic_router.Error.{RouterError, RouterResult, ok, err}
use magic_router.Routes.{RoutingTable, WsUpstreamState}
use magic_router.Routes.Registry.{Account, Env, new}
use magic_router.Transactions.{max_kept}
use magic_router.Http.{HttpServer}
use magic_router.Websocket.{World}
use magic_router.Pubsub.Dispatch.{SubscriptionDispatcher}
use magic_router.Metrics.{Label, Prometheus, Metrics, init}

-- Texts and addresses are numbers; the configuration of the sync service is left out.
pub record RouterConfig : Type 0 where
  pub listen_address : ℕ
  pub base_chain_urls : List Url
  pub max_cached_delegations : ℕ
  pub max_cached_transactions : ℕ
  pub max_connections : ℕ
  pub max_subscriptions_per_connection : ℕ
  pub connections_per_upstream : ℕ
  pub ping_interval_sec : ℕ
  pub static_er_identity : Option ℕ
  pub proximity_ping_frequency_sec : ℕ

abbrev pub channel_capacity : ℕ
channel_capacity = 1024

-- A dispatcher, and the start of the router waits for it.
unfoldable pub new_dispatcher : SubscriptionDispatcher
new_dispatcher = record { upstreams = []; connecting = []; ready = true }

-- What is there when the server starts. A capacity is a lower and an upper bound.
pub record Router : Type 0 where
  pub listen_address : ℕ
  pub http : HttpServer
  pub websocket : World
  pub told : List WsUpstreamState
  pub delegations_capacity : ℕ × ℕ
  pub transactions_capacity : ℕ
  pub metrics : Metrics

-- What the start meets outside: keys as texts, the building of the server, the registry of the base
-- chain, and whether the sync service can be started.
pub record Outside : Type 0 where
  pub from_str : ℕ → Option Pubkey
  pub build : (listen_address : ℕ) → RouterResult Bool
  pub read : Client → RouterResult (List (Pubkey × Account))
  pub syncer_starts : Bool

-- The configured identity, if there is one.
unfoldable pub parse_identity : (ℕ → Option Pubkey) → Option ℕ → RouterResult (Option Pubkey)
parse_identity from_str none = ok none
parse_identity from_str (some text) = elim (from_str text) [
  | none ↦ err RouterError.decode_error
  | some identity ↦ ok (some identity)
]

abbrev pub has_name : Label → List Label → Bool
has_name name [] = false
has_name name (l ∷ ls) = (l == name) || has_name name ls

-- A module's methods with another's; `none` is a panic, which a name that both have causes.
unfoldable pub merge : List Label → List Label → Option (List Label)
merge methods [] = some methods
merge methods (name ∷ names) =
    let rest = merge (methods ++ name ∷ []) names in if has_name name methods then none else rest

abbrev pub serving :
    Prometheus
    → RouterConfig
    → Metrics
    → RoutingTable
    → List WsUpstreamState
    → (methods : List Label) → (next_id : ℕ) → Router
serving p config m t sent methods next_id = record {
  listen_address = config.listen_address;
  http = record { routes = t; transactions = λ _. none; blockhashes = λ _. none };
  websocket = record { routes = t; next_id = next_id };
  told = sent;
  delegations_capacity =
      (min channel_capacity config.max_cached_delegations, config.max_cached_delegations);
  transactions_capacity = max_kept config.max_cached_transactions;
  metrics = init p methods m;
}

-- From the table on: `none` is a panic, of the sync service or of a name that is taken.
unfoldable pub finish_start :
    Prometheus
    → Outside
    → RouterConfig
    → Metrics
    → (ro_names rw_names ws_names : List Label) → (next_id : ℕ)
    → RoutingTable × List WsUpstreamState
    → Option Router
finish_start p out config m ro_names rw_names ws_names next_id (t, sent) =
    if out.syncer_starts
    then Option.map (λ methods. serving p config m t sent methods next_id)
        (Option.bind (merge ro_names rw_names) (λ http. merge http ws_names))
    else none

-- `ro_names`, `rw_names` and `ws_names` are the methods of the three servers; the table's wait for the dispatcher is
-- `Startup.Waking`.
unfoldable pub run :
    Prometheus
    → Env
    → Outside
    → RouterConfig
    → Metrics
    → (ro_names rw_names ws_names : List Label) → (next_id : ℕ) → Option (RouterResult Router)
run p env out config m ro_names rw_names ws_names next_id =
    elim (parse_identity out.from_str config.static_er_identity) [
      | err e ↦ some (err e)
      | ok identity ↦ elim (out.build config.listen_address) [
        | err e ↦ some (err e)
        | ok _ ↦
            elim (new env config.base_chain_urls config.proximity_ping_frequency_sec identity
              out.read) [
                | none ↦ none
                | some (err e) ↦ some (err e)
                | some (ok table) ↦
                    Option.map (λ router. ok router)
                      (finish_start p out config m ro_names rw_names ws_names next_id table)
              ]
      ]
    ]
