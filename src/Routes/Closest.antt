-- ===== src/Routes/Closest.antt =====
-- The closest node (`closest_node` in src/cache/routes.rs), whatever order the map is iterated in.
use magic_router.Prelude.{
  ℕ, ◌+◌, ◌%◌, ◌≤◌, ◌<◌, ◌≡◌, refl, sym, subst, ◌⊎◌, inl, inr, true, none, some, [], ◌∷◌, leb,
  Bool-cases, Option-cases, All, length, get_elem?, arith,
}
use magic_router.Prelude.Dict.{Dict, lookup}
use magic_router.Types.{Pubkey, u64_max}
use magic_router.Error.{ok, err, unknown_er_node}
use magic_router.Routes.{
  UpstreamRecord, RoutingTable, Nearest, has_fresh_proximity, consider, scan, search_from,
  closest_measured, closest_node, base_chain, default_pubkey,
}
use magic_router.Routes.RoundRobin.{IsReady, base_chain-next}

-- The pair is an entry of the map.
abbrev pub IsEntry : Pubkey → UpstreamRecord → Dict UpstreamRecord → Type 0
IsEntry k u [] = ⊥
IsEntry k u ((j, v) ∷ rest) = ((j ≡ k) × (v ≡ u)) ⊎ IsEntry k u rest

module _ (now stale_after : ℕ) where
  -- Every fresh node is at least `n` away.
  abbrev pub Farther : ℕ → Dict UpstreamRecord → Type 0
  Farther n = All (λ e. has_fresh_proximity e.1 now stale_after ≡ true → n ≤ e.1.proximity_micros)

  -- The node is fresh, and the nearest of the fresh ones.
  pub record IsNearest (es : Dict UpstreamRecord) (r : Nearest) : Type 0 where
    pub node : UpstreamRecord
    pub entry : IsEntry r.node_id node es
    pub fresh : has_fresh_proximity node now stale_after ≡ true
    pub client : r.client ≡ node.client
    pub distance : r.min_proximity ≡ node.proximity_micros
    pub nearest : Farther r.min_proximity es

  Farther-mono : (m n : ℕ) (es : Dict UpstreamRecord) → m ≤ n → Farther n es → Farther m es
  Farther-mono m n [] h f = tt
  Farther-mono m n (e ∷ es) h f = (λ q. omega (arith, f.0 q), Farther-mono m n es h f.1)

  -- One entry: it is skipped, or it is the new best.
  consider-cases :
      (n : Nearest) (k : Pubkey) (u : UpstreamRecord)
      → ((consider now stale_after n k u ≡ n)
          × (has_fresh_proximity u now stale_after ≡ true → n.min_proximity ≤ u.proximity_micros))
        ⊎ ((consider now stale_after n k u
              ≡ record { node_id = k; client = u.client; min_proximity = u.proximity_micros })
            × (has_fresh_proximity u now stale_after ≡ true)
            × (u.proximity_micros < n.min_proximity))
  unfolding consider
  consider-cases n k u = elim (Bool-cases (has_fresh_proximity u now stale_after)) [
    | inr stale ↦ inl (ground arith, λ q. ground arith)
    | inl fresh ↦ elim (Bool-cases (leb n.min_proximity u.proximity_micros)) [
      | inl far ↦ inl (ground arith, λ q. ground arith)
      | inr near ↦ inr (ground arith, fresh, ground arith)
    ]
  ]

  abbrev Scanned : Nearest → Dict UpstreamRecord → Nearest → Type 0
  Scanned n es r =
      ((r ≡ n) × Farther n.min_proximity es)
      ⊎ (IsNearest es r × (r.min_proximity < n.min_proximity))

  skipped :
      (k : Pubkey) (u : UpstreamRecord) (es : Dict UpstreamRecord) (n r : Nearest)
      → (has_fresh_proximity u now stale_after ≡ true → n.min_proximity ≤ u.proximity_micros)
      → Scanned n es r
      → Scanned n ((k, u) ∷ es) r
  skipped k u es n r far (inl (same, all)) = inl (same, (far, all))
  skipped k u es n r far (inr (best, lt)) = inr (
    record {
      node = best.node;
      entry = inr best.entry;
      fresh = best.fresh;
      client = best.client;
      distance = best.distance;
      nearest = (λ q. omega (arith, far q, lt), best.nearest);
    },
    lt,
  )

  taken :
      (k : Pubkey) (u : UpstreamRecord) (es : Dict UpstreamRecord) (n r : Nearest)
      → has_fresh_proximity u now stale_after ≡ true
      → u.proximity_micros < n.min_proximity
      → Scanned (record { node_id = k; client = u.client; min_proximity = u.proximity_micros }) es r
      → Scanned n ((k, u) ∷ es) r
  taken k u es n r fresh near (inl (same, all)) = inr (
    record {
      node = u;
      entry = inl (ground arith, refl);
      fresh = fresh;
      client = ground arith;
      distance = ground arith;
      nearest =
          (λ q. ground arith, subst (λ (x : Nearest). Farther x.min_proximity es) (sym same) all);
    },
    ground arith,
  )
  taken k u es n r fresh near (inr (best, lt)) = inr (
    record {
      node = best.node;
      entry = inr best.entry;
      fresh = best.fresh;
      client = best.client;
      distance = best.distance;
      nearest = (λ q. omega (arith, lt), best.nearest);
    },
    omega (arith, lt, near),
  )

  scan-Scanned : (es : Dict UpstreamRecord) (n : Nearest) → Scanned n es (scan now stale_after n es)
  unfolding scan
  scan-Scanned [] n = inl (refl, tt)
  scan-Scanned ((k, u) ∷ es) n = elim (consider-cases n k u) [
    | inl (skip, far) ↦
        rw (skip, scan) (skipped k u es n (scan now stale_after n es) far (scan-Scanned es n))
    | inr (take, fresh, near) ↦ rw (take, scan) (taken k u es n _ fresh near (scan-Scanned es _))
  ]

measured :
    (t : RoutingTable) (now : ℕ) (u : UpstreamRecord) (t' : RoutingTable)
    → base_chain t ≡ some (t', u)
    → closest_measured t now
      ≡ some (t', ok ((search_from t now u.client).node_id, (search_from t now u.client).client))
unfolding closest_measured
measured t now u t' step = rw (step, closest_measured) refl

search_from-IsNearest :
    (t : RoutingTable) (now : ℕ) (u : UpstreamRecord)
    → get_elem? t.upstreams t.next ≡ some u
    → let r = search_from t now u.client in
      IsNearest now t.proximity_stale_after t.inner r
      ⊎ ((r.node_id ≡ default_pubkey)
          × ((u : UpstreamRecord) × (get_elem? t.upstreams t.next ≡ some u) × (u.client ≡ r.client))
          × Farther now t.proximity_stale_after u64_max t.inner)
unfolding search_from
search_from-IsNearest t now u at_next =
    elim (scan-Scanned now t.proximity_stale_after t.inner
      (record { node_id = default_pubkey; client = u.client; min_proximity = u64_max })) [
        | inr (best, lt) ↦ inl best
        | inl (same, far) ↦ inr (ground arith, (u, at_next, ground arith), far)
      ]

-- With no static identity and a base chain to fall back on, the answer is a node of the table that
-- is fresh and at least as near as every fresh one, or, where no fresh node has a proximity below
-- the maximum, the default identity with the client that the round robin gives. The counter of the
-- round robin moves on in both cases.
pub closest_node-nearest :
    (t : RoutingTable) (now : ℕ)
    → t.static_er_identity ≡ none
    → IsReady t
    → (r : Nearest) × (t' : RoutingTable) × (closest_node t now
        ≡ some (t', ok (r.node_id, r.client)))
      × (t'.next ≡ (t.next + 1) % length t.upstreams)
      × (IsNearest now t.proximity_stale_after t.inner r
          ⊎ ((r.node_id ≡ default_pubkey)
              × ((u : UpstreamRecord) × (get_elem? t.upstreams t.next ≡ some u)
                  × (u.client ≡ r.client))
              × Farther now t.proximity_stale_after u64_max t.inner))
unfolding closest_node
closest_node-nearest t now dynamic ready =
    let (u, at_next, step, ready') = base_chain-next t ready in
    (
      search_from t now u.client,
      record t { next = (t.next + 1) % length t.upstreams },
      ground (arith, measured t now u _ step),
      refl,
      search_from-IsNearest t now u at_next,
    )

-- With a static identity the answer is that node, fresh or not, and the table does not change; a
-- node that is not in the table is an error.
closest_node-static :
    (t : RoutingTable) (now : ℕ) (identity : Pubkey)
    → t.static_er_identity ≡ some identity
    → ((lookup identity t.inner ≡ none)
        × (closest_node t now ≡ some (t, err (unknown_er_node identity))))
      ⊎ ((u : UpstreamRecord) × (lookup identity t.inner ≡ some u)
          × (closest_node t now ≡ some (t, ok (identity, u.client))))
unfolding closest_node
closest_node-static t now identity h = elim (Option-cases (lookup identity t.inner)) [
  | inl missing ↦ inl (missing, rw (h, missing))
  | inr (u, present) ↦ inr (u, present, rw (h, present))
]
