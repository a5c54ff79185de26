-- ===== src/Examples/Registry.antt =====
-- The registry of nodes at concrete inputs (src/cache/routes.rs).
use mathlib.Core.Option
use magic_router.Prelude.{
  ◌⊎◌, ◌≢◌, arith, ℕ, ◌+◌, ◌≡◌, refl, true, Option, none, some, List, [], ◌∷◌, ◌==◌, if◌then◌else◌,
}
use magic_router.Prelude.Dict.{insert, lookup, contains_key}
use magic_router.Error.{RouterResult, ok}
use magic_router.Types.{Client, Pubkey, u64_max}
use magic_router.Routes.{WsUpstreamState, RoutingTable, base_chain, chain, UpstreamRecord, ephem}
use magic_router.Routes.Registry.{
  ErRecord, Account, Env, new_from_url, new_from_er_record, route_info, insert_entry, TableEvent,
  notification, pong, ping_failed, disconnected, new, connect_all, fill_table, insert_all,
  insert_upstream, with_pings_of, check_static, new_table, updater,
}
use magic_router.Routes.Registry.Entries.{insert_entry-cases}
use magic_router.Routes.Registry.Following.{TableInv, updater-Inv}
use magic_router.Examples.Crates.{list_map}
use magic_router.Examples.Table.{chain_node, near_node, table}

abbrev pub node_record : ℕ → ErRecord
node_record identity = record {
  identity = identity;
  addr = 60;
  is_active = true;
  base_fee = 5;
  block_time_ms = 50;
  country_code = 1;
}

abbrev pub read_record : List ℕ → Option ErRecord
read_record [] = none
read_record (identity ∷ _) = some (node_record identity)

-- Every node answers; its client has its URL's number, and its websocket URL 1000 more.
abbrev pub every : (secs : ℕ) → Option (Unit {0})
every secs = if secs == 0 then none else some tt

pub every-some : (secs : ℕ) → secs ≢ 0 → every secs ≡ some tt
every-some secs positive = ground arith

abbrev pub env : Env
env = record {
  deserialize = read_record;
  parse_url = some;
  client_of = λ url. url;
  answers = λ client. true;
  ws_of = λ url. some (url + 1000);
  nodes = list_map;
  identities = list_map;
  interval = every;
  interval-some = every-some;
  interval-none = refl;
}

abbrev pub account_of : ℕ → Account
account_of identity = record { lamports = 1; bytes = identity ∷ [] }

abbrev closed_account : Account
closed_account = record { lamports = 0; bytes = [] }

abbrev pub new_node : ℕ → UpstreamRecord
new_node identity = record {
  client = 60;
  ws_url = 1060;
  proximity_micros = u64_max;
  last_proximity_update = none;
  consecutive_ping_failures = 0;
  info = some (route_info (node_record identity));
}

made : (identity : ℕ) → new_from_er_record env (node_record identity) ≡ some (new_node identity)
unfolding new_from_er_record new_from_url
made identity = refl

known : lookup 7 table.inner ≡ some near_node
unfolding lookup
known = refl

insert_entry-cases_example :
    let (t', sent) = insert_entry env table 80 (account_of 8) in
    (lookup 8 t'.inner ≡ (
      if contains_key 8 table.inner
      then lookup 8 table.inner
      else if 8 == 8
      then some (new_node 8)
      else lookup 8 table.inner))
    × (sent ≡ record { is_online = true; url = 1060; target = ephem } ∷ [])
insert_entry-cases_example =
    insert_entry-cases env table 80 (account_of 8) (node_record 8) (new_node 8) 8 refl (made 8)

abbrev some_events : List TableEvent
some_events =
    notification (some 80) (some (account_of 8))
    ∷ pong 8 300 10
    ∷ ping_failed 8
    ∷ disconnected
    ∷ notification (some 80) (some closed_account)
    ∷ []

-- The registry that the base chain gives: one node.
abbrev pub registry : Client → RouterResult (List (Pubkey × Account))
registry client = ok ((80, account_of 8) ∷ [])

abbrev pub started : RoutingTable
started = record {
  inner = (8, new_node 8) ∷ [];
  pda_to_identity = (80, 8) ∷ [];
  upstreams = chain_node 1 ∷ [];
  next = 0;
  proximity_stale_after = 90_000_000;
  static_er_identity = some 8;
}

abbrev pub announced : List WsUpstreamState
announced =
    record { is_online = true; url = 1001; target = chain }
    ∷ record { is_online = true; url = 1060; target = ephem }
    ∷ []

pub new_started : new env (1 ∷ []) 30 (some 8) registry ≡ some (ok (started, announced))
unfolding new connect_all new_from_url fill_table insert_all insert_entry new_from_er_record
    insert_upstream with_pings_of lookup check_static base_chain new_table route_info insert
    Option.bind
new_started = refl

abbrev seconds : ℕ
seconds = 30

updater-Inv_example :
    ((seconds ≡ 0) × (updater env started seconds some_events ≡ none))
    ⊎ ((seconds ≢ 0)
        × (t : RoutingTable) × (updater env started seconds some_events ≡ some t)
        × TableInv t)
updater-Inv_example =
    updater-Inv env (1 ∷ []) 30 (some 8) registry started announced some_events new_started
