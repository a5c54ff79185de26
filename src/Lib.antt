-- ===== src/Lib.antt =====
-- Magic router: a JSON-RPC and websocket router in front of a base chain and its ephemeral
-- rollup nodes. A request goes to the node that the accounts which it names are delegated to, or
-- to the base chain.
--
-- The parts, and the files that model them:
--
-- - src/types.rs: Types, with the decoding of delegation records in Types/Decoding (over the byte
--   encodings of Types/Bytes), the text of keys in Types/Text and the identifiers in Types/Ids.
-- - src/accounts.rs: Accounts, the entries of the delegations cache. Fills are numbered; the
--   channel of a fill is a `FillState` of Delegations/Reader.
-- - src/cache/delegations.rs: Delegations has each operation of the cache on its map (`fetch`,
--   `insert_new`, `merge_fetched`, `remove_pending_fill`, `update_cached_entry`, the rounds of
--   `updater` as `on_update`). Delegations/Updates, Merging and Fetching are about these.
--   Delegations/Reader runs `get_record` for any number of requests beside the updater: a request
--   stands at one of the places where it can be interrupted (`Pc`), a step (`Move`) is one access
--   to the map under the entry's lock, and a request can be cancelled at each of them.
--   Reader/Shrinking and Reader/Owners keep an invariant of the map, the fills and the requests,
--   and Reader/Progress draws the conclusions. Reader/Sources and Reader/Provenance follow a record
--   from where it was fetched to the requests that return it.
-- - src/cache/routes.rs: Routes has the table and its reads (`base_chain`, `closest_node`,
--   `ephemeral_client`), with Routes/RoundRobin, Routes/Proximity and Routes/Closest about them.
--   Routes/Registry has `new`, `insert_entry`, `remove_entry` and the rounds of `updater` as
--   `on_event`; Registry/Entries and Registry/Following are about these.
-- - src/cache/transactions.rs: Transactions. src/error.rs: Error.
-- - src/server/http.rs: Http, with Http/Conflicts, Http/Sending, Http/Tracking and Http/Hashes, and
--   Http/Deciding about transactions and the cache together. The handlers that read accounts are
--   in Http/Accounts: Accounts/Grouping, Requesting, Collecting and Answering follow
--   `multiple_accounts` from the request to the answer.
-- - src/server/websocket.rs: Websocket has the account subscriptions, from `account_subscribe` to
--   the rounds of `run` as `on_client_event`, with Websocket/Forwarding, Websocket/Handles,
--   Websocket/Sharing and, with the connection that serves a subscription,
--   Websocket/Redelegation about them.
--   Websocket/Signatures has the signature subscriptions.
-- - src/rpc/http.rs: Rpc, the requests that are answered with constants.
-- - src/metrics.rs: Metrics, with Metrics/Requests about the layer that counts calls, Metrics/Naming
--   and Metrics/Labels about the series that exist, and Metrics/Guards about the gauge of
--   subscriptions.
-- - src/pubsub/connection.rs: Pubsub/Connection, a connection's state and its reaction to each event
--   of its loop, with Connection/Listeners, Notifying and Reconnecting about it, and
--   Connection/Reading about the texts that it receives, which Pubsub/Notification decodes.
--   src/pubsub/dispatch.rs: Pubsub/Dispatch, with Dispatch/Registering. The requests of
--   src/pubsub/subscription.rs and the messages of src/pubsub/notification.rs are in Pubsub.
-- - src/lib.rs and src/config.rs: Startup, with Startup/Waking and Startup/Waiting about the
--   start's wait for the dispatcher and Startup/Wiring about the router that is started.
-- - Prelude has Boolean tests, list functions and dictionaries, and Examples applies the theorems
--   at concrete inputs.
--
-- How the source is read. Keys, URLs, clients, hashes and signatures are numbers, of which only
-- equality is used; machine integers keep their wrap-around where the source can reach it. The
-- map of the delegations cache is the function that a read computes, and the key that a full map
-- forgets is an argument of the insertion. A handler returns the server that it leaves with an
-- `ok` or an `err`, or `none` where the source panics.
--
-- What other crates do is a parameter: the conversion of keys, bytes and texts (`PubkeyBytes`,
-- `Base58`), the maps of the `scc` crate (`ScMap`, `ScCache`), the series of the `prometheus`
-- crate (`Prometheus`) and the values of `sonic_rs` (`Json`), each with the behaviour that it
-- documents, and the answers of the network (`RpcAnswer`, `Env`, `Upstreams`, `AccountNodes`),
-- about which nothing is assumed unless a theorem says so. What a handler awaits (the delegation
-- of an account, a confirmation, the client's sink) comes with the event that it reacts to.
--
-- Fuel: `fetch` makes at most four attempts and `reestablish` at most 17, and their recursions
-- count them down. All else is recursion on a list, a number or a derivation. The loop of
-- `get_record` is the relation `Step`.
--
-- Not modelled: decoding of accounts in JSON, the buckets of histograms and the text encoding
-- of metrics, the reading of the configuration (src/main.rs), and the layers and the shutdown of
-- the server, which are those of other crates.
pub mod Prelude
pub mod Types
pub mod Accounts
pub mod Delegations
pub mod Error
pub mod Routes
pub mod Transactions
pub mod Http
pub mod Rpc
pub mod Metrics
pub mod Pubsub
pub mod Websocket
pub mod Startup
pub mod Examples
