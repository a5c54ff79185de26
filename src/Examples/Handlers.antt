-- ===== src/Examples/Handlers.antt =====
-- The handlers of the JSON-RPC requests at concrete inputs (src/server/http.rs).
use magic_router.Prelude.{◌≡◌, refl, true, false, none, some, [], ◌∷◌, ◌==◌, if◌then◌else◌}
use magic_router.Types.{Signature}
use magic_router.Error.{RouterResult, ok}
use magic_router.Routes.{
  ephemeral_handle, RoutingTable, base_chain, search_from, consider, scan, has_fresh_proximity,
  closest_node, closest_measured,
}
use magic_router.Http.{
  replace_delegated, handle_for, forward, HttpServer, Authorities, Transaction, Upstreams,
  RpcBlockhash, client_for, find_delegated, find_writable, blockhash_for_accounts, latest_blockhash,
  is_blockhash_valid, send_transaction,
}
use magic_router.Http.Conflicts.{statuses, Found, find_delegated-none}
use magic_router.Http.Sending.{Outcome, send_transaction-Outcome}
use magic_router.Http.Tracking.{Tracked, send_transaction-Tracked}
use magic_router.Transactions.{get, track}
use magic_router.Prelude.Dict.{lookup}
use magic_router.Http.Hashes.{blockhash-is_valid, latest_blockhash-is_valid}
use magic_router.Examples.Crates.{keep_all}
use magic_router.Examples.Table.{table, table-IsReady}

-- Accounts 1 and 2 are delegated to node 7, account 3 to node 8, and no other.
abbrev authority : Authorities
authority n pk =
    if pk == 1 then some 7 else if pk == 2 then some 7 else if pk == 3 then some 8 else none

-- Every node answers with hash 99.
abbrev pub upstreams : Upstreams
upstreams = record {
  url = λ client. client;
  latest_blockhash = λ client. ok (99, 5000);
  is_blockhash_valid = λ client hash. ok true;
  send_transaction = λ client txn. ok txn.signature;
  get_transaction = λ client signature. ok client;
  get_signature_statuses = λ client signatures. ok (client, []);
  clients = keep_all;
  handles = keep_all;
}

abbrev pub server : HttpServer
server = record { routes = table; transactions = λ _. none; blockhashes = λ _. none }

abbrev transfer : Transaction
transfer = record {
  static_account_keys = (1, true) ∷ (3, false) ∷ (2, true) ∷ (4, true) ∷ [];
  signature = 555;
}

find_delegated-none_example :
    Found none (statuses authority 0 (1 ∷ 3 ∷ [])) (find_delegated authority 0 none (1 ∷ 3 ∷ []))
find_delegated-none_example = find_delegated-none authority (1 ∷ 3 ∷ [])

send_transaction-Outcome_example :
    (s' : HttpServer) × (r : RouterResult Signature) × (send_transaction upstreams server authority
        (ok transfer)
      ≡ some (s', r))
    × Outcome upstreams server authority transfer s' r
send_transaction-Outcome_example =
    send_transaction-Outcome upstreams server authority transfer table-IsReady

found : find_delegated authority 0 none (4 ∷ []) ≡ ok none
unfolding find_delegated
found = refl

abbrev moved_on : RoutingTable
moved_on = record table { next = 0 }

chosen : client_for table none ≡ some (moved_on, ok 2)
unfolding client_for base_chain
chosen = refl

blockhash-is_valid_example :
    (s' : HttpServer) × (blockhash_for_accounts upstreams server authority (4 ∷ [])
      ≡ some (s', ok (record { blockhash = 99; last_valid_block_height = 5000 })))
    × (is_blockhash_valid upstreams s' (some 99) ≡ ok true)
blockhash-is_valid_example =
    blockhash-is_valid upstreams server authority (4 ∷ []) none moved_on 2 99 5000 found chosen refl
      refl

-- No node is fresh at this time.
nearest : closest_node table 9000 ≡ some (moved_on, ok (0, 2))
unfolding closest_node closest_measured base_chain search_from scan consider has_fresh_proximity
nearest = refl

latest_blockhash-is_valid_example :
    (s' : HttpServer) × (r : RpcBlockhash) × (latest_blockhash upstreams server 9000
      ≡ some (s', ok (r, 5000)))
    × (r.blockhash ≡ 99)
    × (r.last_valid_block_height ≡ 5150)
    × (is_blockhash_valid upstreams s' (some 99) ≡ upstreams.is_blockhash_valid 2 99)
latest_blockhash-is_valid_example =
    latest_blockhash-is_valid upstreams server 9000 0 moved_on 2 99 5000 nearest refl refl

-- The server after the transfer, which went to node 7.
abbrev server_after : HttpServer
server_after = record {
  routes = table;
  transactions = keep_all.put 555 (record { rpc = 42; ws = 1042 }) (λ _. none);
  blockhashes = λ _. none;
}

sent : send_transaction upstreams server authority (ok transfer) ≡ some (server_after, ok 555)
unfolding send_transaction find_writable replace_delegated handle_for ephemeral_handle lookup
    forward track
sent = refl

not_tracked : get server.transactions 555 ≡ none
unfolding get
not_tracked = refl

send_transaction-Tracked_example : Tracked upstreams server_after transfer 555
send_transaction-Tracked_example =
    send_transaction-Tracked upstreams server authority transfer not_tracked server_after 555
      table-IsReady sent
