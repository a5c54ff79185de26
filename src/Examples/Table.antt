-- ===== src/Examples/Table.antt =====
-- The routing table at concrete inputs (src/cache/routes.rs): two nodes of the base chain, and
-- one ephemeral node that has been pinged.
use magic_router.Prelude.{
  ℕ, ◌+◌, ◌%◌, ◌≤◌, ◌<◌, ◌≡◌, ◌⊎◌, refl, inr, true, none, some, [], ◌∷◌, length, get_elem?, arith,
}
use magic_router.Types.{Client, u64_max}
use magic_router.Error.{ok}
use magic_router.Routes.{
  UpstreamRecord, RoutingTable, has_fresh_proximity, update_proximity, Nearest, default_pubkey,
  closest_node,
}
use magic_router.Routes.Proximity.{update_proximity_range}
use magic_router.Routes.RoundRobin.{IsReady, after_calls, base_chain_fair}
use magic_router.Routes.Closest.{Farther, IsNearest, closest_node-nearest}

-- A node of the base chain by its client.
abbrev pub chain_node : Client → UpstreamRecord
chain_node c = record {
  client = c;
  ws_url = c + 1000;
  proximity_micros = u64_max;
  last_proximity_update = none;
  consecutive_ping_failures = 0;
  info = none;
}

abbrev pub near_node : UpstreamRecord
near_node = record {
  client = 42;
  ws_url = 1042;
  proximity_micros = 500;
  last_proximity_update = some 100;
  consecutive_ping_failures = 0;
  info = none;
}

abbrev pub table : RoutingTable
table = record {
  inner = (7, near_node) ∷ [];
  pda_to_identity = (70, 7) ∷ [];
  upstreams = chain_node 1 ∷ chain_node 2 ∷ [];
  next = 1;
  proximity_stale_after = 1000;
  static_er_identity = none;
}

pub table-IsReady : IsReady table
table-IsReady = record { in_range = omega arith }

base_chain_fair_example :
    (n : ℕ) × (n < length table.upstreams)
    × (after_calls n table ≡ some (record table { next = 0 }))
    × ((m : ℕ)
        → m < length table.upstreams
        → after_calls m table ≡ some (record table { next = 0 })
        → m ≡ n)
base_chain_fair_example = base_chain_fair table 0 table-IsReady (omega arith)

closest_node-nearest_example :
    (r : Nearest) × (t' : RoutingTable) × (closest_node table 200
      ≡ some (t', ok (r.node_id, r.client)))
    × (t'.next ≡ (table.next + 1) % length table.upstreams)
    × (IsNearest 200 1000 table.inner r
        ⊎ ((r.node_id ≡ default_pubkey)
            × ((u : UpstreamRecord) × (get_elem? table.upstreams table.next ≡ some u)
                × (u.client ≡ r.client))
            × Farther 200 1000 u64_max table.inner))
closest_node-nearest_example = closest_node-nearest table 200 refl table-IsReady

update_proximity_range_example :
    let u' = update_proximity near_node 300 150 in
    (300 ≤ u'.proximity_micros)
    × (u'.proximity_micros ≤ 500)
    × (has_fresh_proximity u' 1000 1000 ≡ true)
update_proximity_range_example =
    update_proximity_range near_node 300 150 300 500 1000 1000 (inr (omega arith, omega arith))
      (omega arith) (omega arith) (omega arith) (omega arith)
