-- ===== src/Routes.antt =====
-- src/cache/routes.rs: the table of upstreams. URLs, clients and times are numbers; the network,
-- the decoding of registry accounts and the concurrent maps are parameters.
pub mod Proximity
pub mod RoundRobin
pub mod Closest
pub mod Registry
use magic_router.Prelude.{
  ℕ, zero, suc, ◌+◌, ◌-◌, ◌*◌, ◌/◌, ◌%◌, ◌≡◌, Bool, true, false, not, ◌&&◌, Option, none, some,
  List, [], ◌∷◌, leb, ltb, ◌==◌, if◌then◌else◌, length, get_elem?, is_some, is_none,
}
use mathlib.Core.Option
use magic_router.Prelude.Dict.{Dict, lookup, contains_key}
use magic_router.Types.{Pubkey, Url, Client, u64_mod, u64_max}
use magic_router.Error.{RouterResult, ok, err, ok_or, RouterError, unknown_er_node, ◌>>=◌}

abbrev pub max_proximity_ping_failures : ℕ
max_proximity_ping_failures = 3

abbrev pub stale_proximity_multiplier : ℕ
stale_proximity_multiplier = 3

pub record RouteInfo : Type 0 where
  pub identity : Pubkey
  pub fqdn : ℕ
  pub base_fee : ℕ
  pub block_time_ms : ℕ
  pub country_code : ℕ

-- A handle to a node: its client and the address of its websocket.
pub record RemoteHandle : Type 0 where
  pub rpc : Client
  pub ws : Url

-- `last_proximity_update` is a time in microseconds.
pub record UpstreamRecord : Type 0 where
  pub client : Client
  pub ws_url : Url
  pub proximity_micros : ℕ
  pub last_proximity_update : Option ℕ
  pub consecutive_ping_failures : ℕ
  pub info : Option RouteInfo

unfoldable pub has_fresh_proximity : UpstreamRecord → (now stale_after : ℕ) → Bool
has_fresh_proximity u now stale_after =
    if leb max_proximity_ping_failures u.consecutive_ping_failures
    then false
    else elim u.last_proximity_update [
      | none ↦ false
      | some updated_at ↦ leb (now - updated_at) stale_after
    ]

-- `micros` is the length of the ping; products and sums wrap at 64 bits.
unfoldable pub update_proximity : UpstreamRecord → (micros now : ℕ) → UpstreamRecord
update_proximity u micros now =
    let last = micros % u64_mod in
    record u {
      proximity_micros =
          if u.proximity_micros == u64_max
          then last
          else (((u.proximity_micros * 85) % u64_mod + (last * 15) % u64_mod) % u64_mod) / 100;
      last_proximity_update = some now;
      consecutive_ping_failures = 0;
    }

-- `saturating_add(1)` on a byte.
abbrev pub saturating_suc : ℕ → ℕ
saturating_suc n = if ltb n 255 then n + 1 else 255

unfoldable pub register_ping_failure : UpstreamRecord → UpstreamRecord
register_ping_failure u =
    let failures = saturating_suc u.consecutive_ping_failures in
    record u {
      consecutive_ping_failures = failures;
      proximity_micros =
          if leb max_proximity_ping_failures failures then u64_max else u.proximity_micros;
    }

-- A change of the state of a websocket upstream, for the dispatcher.
pub data PubSubUpstreamKind : Type 0 where
  chain ephem : PubSubUpstreamKind

pub record WsUpstreamState : Type 0 where
  pub is_online : Bool
  pub url : Url
  pub target : PubSubUpstreamKind

-- The nodes by identity, the identities by registry account, and the base chain's nodes with the
-- index of the next one to use.
pub record RoutingTable : Type 0 where
  pub inner : Dict UpstreamRecord
  pub pda_to_identity : Dict Pubkey
  pub upstreams : List UpstreamRecord
  pub next : ℕ
  pub proximity_stale_after : ℕ
  pub static_er_identity : Option Pubkey

unfoldable pub ephemeral_client : RoutingTable → Pubkey → Option Client
ephemeral_client t identity = Option.map (λ u. u.client) (lookup identity t.inner)

unfoldable pub ephemeral_handle : RoutingTable → Pubkey → Option RemoteHandle
ephemeral_handle t identity =
    Option.map (λ u. record { rpc = u.client; ws = u.ws_url }) (lookup identity t.inner)

-- The next node of the base chain, and the table with its counter moved on; `none` is a panic,
-- which an empty list of nodes or an index out of range causes.
unfoldable pub base_chain : RoutingTable → Option (RoutingTable × UpstreamRecord)
base_chain t =
    if length t.upstreams == 0
    then none
    else Option.map (λ u. (record t { next = (t.next + 1) % length t.upstreams }, u))
        (get_elem? t.upstreams t.next)

-- The best node so far, in the iteration of `closest_node`.
pub record Nearest : Type 0 where
  pub node_id : Pubkey
  pub client : Client
  pub min_proximity : ℕ

unfoldable pub consider : (now stale_after : ℕ) → Nearest → Pubkey → UpstreamRecord → Nearest
consider now stale_after n pubkey u =
    if not (has_fresh_proximity u now stale_after)
    then n
    else if leb n.min_proximity u.proximity_micros
    then n
    else record { node_id = pubkey; client = u.client; min_proximity = u.proximity_micros }

unfoldable pub scan : (now stale_after : ℕ) → Nearest → Dict UpstreamRecord → Nearest
scan now stale_after n [] = n
scan now stale_after n ((pubkey, u) ∷ rest) =
    scan now stale_after (consider now stale_after n pubkey u) rest

abbrev pub default_pubkey : Pubkey
default_pubkey = 0

-- The search from the default identity and a client of the base chain.
unfoldable pub search_from : RoutingTable → (now : ℕ) → Client → Nearest
search_from t now client =
    scan now t.proximity_stale_after
      (record { node_id = default_pubkey; client = client; min_proximity = u64_max }) t.inner

-- The answer without a static identity; `none` is the panic of `base_chain`.
unfoldable pub closest_measured :
    RoutingTable → (now : ℕ) → Option (RoutingTable × RouterResult (Pubkey × Client))
closest_measured t now = elim (base_chain t) [
  | none ↦ none
  | some (t', u) ↦
      let best = search_from t now u.client in some (t', ok (best.node_id, best.client))
]

unfoldable pub closest_node :
    RoutingTable → (now : ℕ) → Option (RoutingTable × RouterResult (Pubkey × Client))
closest_node t now = elim t.static_er_identity [
  | none ↦ closest_measured t now
  | some identity ↦ some (
    t,
    do u ← ok_or (lookup identity t.inner) (unknown_er_node identity); ok (identity, u.client),
  )
]

unfoldable pub all_routes : Dict UpstreamRecord → List RouteInfo
all_routes [] = []
all_routes ((_, u) ∷ rest) = elim u.info [
  | none ↦ all_routes rest
  | some info ↦ info ∷ all_routes rest
]
