-- ===== src/Routes/Registry.antt =====
-- The registry of nodes in src/cache/routes.rs: how the table follows the accounts of the domain
-- registry and the pings (`RoutingTable::new`, `insert_entry`, `remove_entry`, `updater`,
-- `UpstreamRecord::new_from_er_record`).
pub mod Entries
pub mod Following
use mathlib.Core.Option
use magic_router.Prelude.{
  ℕ, zero, suc, ◌+◌, ◌*◌, ◌%◌, ◌≡◌, ◌≢◌, Bool, true, false, Option, none, some, List, [], ◌∷◌, ◌++◌,
  map, leb, ◌==◌, is_some, if◌then◌else◌,
}
use magic_router.Prelude.Dict.{Dict, lookup, contains_key}
use magic_router.Types.{Pubkey, Url, Client, u64_max}
use magic_router.Error.{RouterResult, ok, err, ◌>>=◌, unknown_er_node}
use magic_router.Routes.{
  stale_proximity_multiplier, RouteInfo, UpstreamRecord, RoutingTable, PubSubUpstreamKind, chain,
  ephem, WsUpstreamState, update_proximity, register_ping_failure, base_chain,
}

-- The concurrent map of the `scc` crate, on the list of its entries, with what it documents: an
-- insertion of a key that is there changes nothing.
pub record ScMap (V : Type 0) : Type 0 where
  pub insert_sync : ℕ → V → Dict V → Dict V
  pub remove_sync : ℕ → Dict V → Dict V
  pub lookup-insert_sync :
      (k j : ℕ) (v : V) (m : Dict V)
      → lookup j (insert_sync k v m)
        ≡ (if contains_key k m then lookup j m else if k == j then some v else lookup j m)
  pub lookup-remove_sync :
      (k j : ℕ) (m : Dict V) → lookup j (remove_sync k m) ≡ (if k == j then none else lookup j m)

-- A registry account as `ErRecord` decodes it, `addr` and `country_code` being texts.
pub record ErRecord : Type 0 where
  pub identity : Pubkey
  pub addr : ℕ
  pub is_active : Bool
  pub base_fee : ℕ
  pub block_time_ms : ℕ
  pub country_code : ℕ

pub record Account : Type 0 where
  pub lamports : ℕ
  pub bytes : List ℕ

-- What the router asks of other crates and of the network: decoding an account, parsing an
-- address, making a client for a URL, whether that node answers its first request, the websocket
-- URL of a node (`none` if its scheme cannot be set), the two maps, and the ticker of the pings,
-- whose making panics (`none`) for a period of zero only.
pub record Env : Type 0 where
  pub deserialize : List ℕ → Option ErRecord
  pub parse_url : ℕ → Option Url
  pub client_of : Url → Client
  pub answers : Client → Bool
  pub ws_of : Url → Option Url
  pub nodes : ScMap UpstreamRecord
  pub identities : ScMap Pubkey
  pub interval : (secs : ℕ) → Option (Unit {0})
  pub interval-some : (secs : ℕ) → secs ≢ 0 → interval secs ≡ some tt
  pub interval-none : interval 0 ≡ none

-- `RouteInfo::from`
unfoldable pub route_info : ErRecord → RouteInfo
route_info r = record {
  identity = r.identity;
  fqdn = r.addr;
  base_fee = r.base_fee;
  block_time_ms = r.block_time_ms;
  country_code = r.country_code;
}

unfoldable pub new_from_url : Env → Url → Option RouteInfo → Option UpstreamRecord
new_from_url env fqdn info =
    let client = env.client_of fqdn in
    if env.answers client
    then Option.map
        (λ ws_url. record {
          client = client;
          ws_url = ws_url;
          proximity_micros = u64_max;
          last_proximity_update = none;
          consecutive_ping_failures = 0;
          info = info;
        })
        (env.ws_of fqdn)
    else none

unfoldable pub new_from_er_record : Env → ErRecord → Option UpstreamRecord
new_from_er_record env r = elim (env.parse_url r.addr) [
  | none ↦ none
  | some fqdn ↦ new_from_url env fqdn (some (route_info r))
]

-- The table and what is sent to the dispatcher.
abbrev pub Followed : Type 0
Followed = RoutingTable × List WsUpstreamState

unfoldable pub remove_entry : Env → RoutingTable → Pubkey → Followed
remove_entry env t pda = elim (lookup pda t.pda_to_identity) [
  | none ↦ (t, [])
  | some identity ↦
      let t' = record t { pda_to_identity = env.identities.remove_sync pda t.pda_to_identity } in
      elim (lookup identity t.inner) [
        | none ↦ (t', [])
        | some upstream ↦ (
          record t' { inner = env.nodes.remove_sync identity t.inner },
          record { is_online = false; url = upstream.ws_url; target = ephem } ∷ [],
        )
      ]
]

-- A new record takes over the pings of the node's old one, if that has the same websocket URL.
unfoldable pub with_pings_of : Option UpstreamRecord → UpstreamRecord → UpstreamRecord
with_pings_of none upstream = upstream
with_pings_of (some current) upstream =
    if current.ws_url == upstream.ws_url
    then record upstream {
      proximity_micros = current.proximity_micros;
      last_proximity_update = current.last_proximity_update;
      consecutive_ping_failures = current.consecutive_ping_failures;
    }
    else upstream

-- The end of `insert_entry`, for a registry record whose node answers.
unfoldable pub insert_upstream : Env → RoutingTable → Pubkey → ErRecord → UpstreamRecord → Followed
insert_upstream env t pubkey r upstream =
    let identity = r.identity in
    let upstream' = with_pings_of (lookup identity t.inner) upstream in
    (
      record t {
        pda_to_identity = env.identities.insert_sync pubkey identity t.pda_to_identity;
        inner = env.nodes.insert_sync identity upstream' t.inner;
      },
      record { is_online = r.is_active; url = upstream'.ws_url; target = ephem } ∷ [],
    )

unfoldable pub insert_entry : Env → RoutingTable → Pubkey → Account → Followed
insert_entry env t pubkey account = elim (env.deserialize account.bytes) [
  | none ↦ if account.lamports == 0 then remove_entry env t pubkey else (t, [])
  | some r ↦ elim (new_from_er_record env r) [
    | none ↦ (t, [])
    | some upstream ↦ insert_upstream env t pubkey r upstream
  ]
]

-- Registry accounts one after the other, with all that is sent.
unfoldable pub insert_all : Env → RoutingTable → List (Pubkey × Account) → Followed
insert_all env t [] = (t, [])
insert_all env t ((pubkey, account) ∷ rest) =
    let (t', sent) = insert_entry env t pubkey account in
    let (t'', more) = insert_all env t' rest in (t'', sent ++ more)

-- The base chain's nodes; `none` is a panic, which a node that does not answer causes.
unfoldable pub connect_all : Env → List Url → Option (List UpstreamRecord)
connect_all env [] = some []
connect_all env (url ∷ urls) = elim (new_from_url env url none) [
  | none ↦ none
  | some u ↦ Option.map (λ us. u ∷ us) (connect_all env urls)
]

abbrev pub announce : UpstreamRecord → WsUpstreamState
announce u = record { is_online = true; url = u.ws_url; target = chain }

-- `saturating_mul` at 64 bits, on seconds.
abbrev pub stale_after_secs : ℕ → ℕ
stale_after_secs frequency =
    if leb (frequency * stale_proximity_multiplier) u64_max
    then frequency * stale_proximity_multiplier
    else u64_max

-- The start of `new`: the table before the registry is read. Times are in microseconds.
unfoldable pub new_table : List UpstreamRecord → (frequency : ℕ) → Option Pubkey → RoutingTable
new_table upstreams frequency static_er_identity = record {
  inner = [];
  pda_to_identity = [];
  upstreams = upstreams;
  next = 0;
  proximity_stale_after = stale_after_secs frequency * 1_000_000;
  static_er_identity = static_er_identity;
}

-- The end of `new`: a static identity must be in the registry.
unfoldable pub check_static : RoutingTable → RouterResult RoutingTable
check_static t = elim t.static_er_identity [
  | none ↦ ok t
  | some identity ↦
      if is_some (lookup identity t.inner) then ok t else err (unknown_er_node identity)
]

-- `new` from the registry's accounts on, which the base chain answers.
unfoldable pub fill_table :
    Env → RoutingTable → RouterResult (List (Pubkey × Account)) → RouterResult Followed
fill_table env t answer = do
  accounts ← answer
  let (t', sent) = insert_all env t accounts
  checked ← check_static t'
  ok (checked, map announce t.upstreams ++ sent)

-- `new`, `read` being what a node of the base chain answers when it is asked for the registry's
-- accounts: the table, and what is sent to the dispatcher.
unfoldable pub new :
    Env
    → List Url
    → (frequency : ℕ) → Option Pubkey
    → (Client → RouterResult (List (Pubkey × Account)))
    → Option (RouterResult Followed)
new env urls frequency static_er_identity read = Option.bind (connect_all env urls) (λ upstreams.
    Option.map (λ (t, u). fill_table env t (read u.client))
      (base_chain (new_table upstreams frequency static_er_identity)))

-- The write of a node's record through its entry.
unfoldable pub modify :
    ℕ → (UpstreamRecord → UpstreamRecord) → Dict UpstreamRecord → Dict UpstreamRecord
modify k f [] = []
modify k f ((j, u) ∷ rest) = if j == k then (j, f u) ∷ rest else (j, u) ∷ modify k f rest

-- The outcomes of a ping.
unfoldable pub on_pong : RoutingTable → Pubkey → (micros now : ℕ) → RoutingTable
on_pong t pubkey micros now = record t {
  inner = modify pubkey (λ u. update_proximity u micros now) t.inner;
}

unfoldable pub on_ping_failure : RoutingTable → Pubkey → RoutingTable
on_ping_failure t pubkey = record t { inner = modify pubkey register_ping_failure t.inner }

-- The nodes that a tick pings.
unfoldable pub pinged : Dict UpstreamRecord → List (Pubkey × Client)
pinged [] = []
pinged ((k, u) ∷ rest) = (k, u.client) ∷ pinged rest

unfoldable pub on_tick : RoutingTable → List (Pubkey × Client)
on_tick t = if is_some t.static_er_identity then [] else pinged t.inner

-- What the loop of `updater` receives. A notification carries what could be decoded of its public
-- key and its account; `pong` has the length of the ping and the time.
pub data TableEvent : Type 0 where
  notification : Option Pubkey → Option Account → TableEvent
  pong : Pubkey → (micros now : ℕ) → TableEvent
  ping_failed : Pubkey → TableEvent
  disconnected : TableEvent

-- One round of the loop: the table, and what is sent to the dispatcher; `none` is a panic. A
-- subscription that was cut is sent again to the next node of the base chain, which moves the round
-- robin on.
unfoldable pub on_event : Env → RoutingTable → TableEvent → Option Followed
on_event env t (notification none account) = some (t, [])
on_event env t (notification (some pubkey) none) = some (t, [])
on_event env t (notification (some pubkey) (some account)) =
    some (insert_entry env t pubkey account)
on_event env t (pong pubkey micros now) = some (on_pong t pubkey micros now, [])
on_event env t (ping_failed pubkey) = some (on_ping_failure t pubkey, [])
on_event env t disconnected = Option.map (λ (t', u). (t', [])) (base_chain t)

unfoldable pub on_events : Env → RoutingTable → List TableEvent → Option RoutingTable
on_events env t [] = some t
on_events env t (e ∷ es) = Option.bind (on_event env t e) (λ (t', sent). on_events env t' es)

-- The task: it sends its subscription to the next node of the base chain, starts its ticker, and
-- follows the events.
unfoldable pub updater :
    Env → RoutingTable → (frequency : ℕ) → List TableEvent → Option RoutingTable
updater env t frequency es =
    Option.bind (base_chain t)
      (λ (t', u). Option.bind (env.interval frequency) (λ started. on_events env t' es))
