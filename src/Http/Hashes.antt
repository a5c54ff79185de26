-- ===== src/Http/Hashes.antt =====
-- Blockhashes: which node answers for one (`blockhash_for_accounts`, `latest_blockhash`,
-- `is_blockhash_valid` in src/server/http.rs).
use magic_router.Prelude.{ℕ, ◌+◌, ◌%◌, ◌≡◌, refl, Option, none, some, List}
use magic_router.Types.{Pubkey, Client, u64_mod}
use magic_router.Error.{ok}
use magic_router.Routes.{RoutingTable, closest_node}
use magic_router.Http.{
  HttpServer, Authorities, Upstreams, RpcBlockhash, client_for, find_delegated, blockhash_from,
  blockhash_for_accounts, latest_blockhash, is_blockhash_valid,
}

remembered :
    (up : Upstreams) (s : HttpServer) (t : RoutingTable) (client : Client) (hash height : ℕ)
    → up.latest_blockhash client ≡ ok (hash, height)
    → blockhash_from up (record s { routes = t }) client ≡ (
      record s { routes = t; blockhashes = up.clients.put hash client s.blockhashes },
      ok (hash, height),
    )
unfolding blockhash_from
remembered up s t client hash height answer = rw (answer, blockhash_from)

module _ (up : Upstreams) (s : HttpServer) (authority : Authorities) (accounts : List Pubkey)
    (d : Option Pubkey) (t : RoutingTable) (client : Client) (hash height : ℕ)
    (found : find_delegated authority 0 none accounts ≡ ok d)
    (chosen : client_for s.routes d ≡ some (t, ok client))
    (answer : up.latest_blockhash client ≡ ok (hash, height)) where
  -- If the accounts do not conflict, their node is known and it answers, then a blockhash for the
  -- accounts is that of the node; and if the hash is not cached yet, its validity is afterwards
  -- asked of that node.
  pub blockhash-is_valid :
      s.blockhashes hash ≡ none
      → (s' : HttpServer) × (blockhash_for_accounts up s authority accounts
          ≡ some (s', ok (record { blockhash = hash; last_valid_block_height = height })))
        × (is_blockhash_valid up s' (some hash) ≡ up.is_blockhash_valid client hash)
  unfolding blockhash_for_accounts is_blockhash_valid
  blockhash-is_valid new =
      let kept = up.clients.put_absent hash client s.blockhashes new in
      (
        record s { routes = t; blockhashes = up.clients.put hash client s.blockhashes },
        rw (found, blockhash_for_accounts, chosen, remembered up s t client hash height answer),
        rw (kept, is_blockhash_valid),
      )

-- A hash that `getLatestBlockhash` gives is the closest node's, and if it is not cached yet, its
-- validity is afterwards asked of that node. It comes with a last valid block height that is 150
-- more than the one which the node gave, modulo 2 ^ 64, and with that one as the context's slot.
pub latest_blockhash-is_valid :
    (up : Upstreams) (s : HttpServer) (now : ℕ) (node : Pubkey) (t : RoutingTable) (client : Client)
    (hash height : ℕ)
    → closest_node s.routes now ≡ some (t, ok (node, client))
    → up.latest_blockhash client ≡ ok (hash, height)
    → s.blockhashes hash ≡ none
    → (s' : HttpServer) × (r : RpcBlockhash) × (latest_blockhash up s now
        ≡ some (s', ok (r, height)))
      × (r.blockhash ≡ hash)
      × (r.last_valid_block_height ≡ (height + 150) % u64_mod)
      × (is_blockhash_valid up s' (some hash) ≡ up.is_blockhash_valid client hash)
unfolding latest_blockhash is_blockhash_valid
latest_blockhash-is_valid up s now node t client hash height nearest answer new =
    let kept = up.clients.put_absent hash client s.blockhashes new in
    (
      record s { routes = t; blockhashes = up.clients.put hash client s.blockhashes },
      record { blockhash = hash; last_valid_block_height = (height + 150) % u64_mod },
      rw (latest_blockhash, nearest, remembered up s t client hash height answer) refl,
      refl,
      refl,
      rw (kept, is_blockhash_valid),
    )
