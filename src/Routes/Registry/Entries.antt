-- ===== src/Routes/Registry/Entries.antt =====
-- One registry account (`insert_entry`, `remove_entry` in src/cache/routes.rs).
use magic_router.Prelude.{
  ◌≡◌, ◌≢◌, ◌⊎◌, inl, inr, false, none, some, [], ◌∷◌, ◌==◌, if◌then◌else◌, Option-cases, arith,
}
use magic_router.Prelude.Dict.{lookup, contains_key}
use magic_router.Types.{Pubkey}
use magic_router.Routes.{UpstreamRecord, RoutingTable, ephemeral_client, ephemeral_handle, ephem}
use magic_router.Routes.Registry.{
  ErRecord, Account, Env, new_from_er_record, remove_entry, with_pings_of, insert_upstream,
  insert_entry,
}

module _ (env : Env) (t : RoutingTable) (pubkey : Pubkey) (account : Account) where
  insert_entry-decoded :
      (r : ErRecord) (upstream : UpstreamRecord)
      → env.deserialize account.bytes ≡ some r
      → new_from_er_record env r ≡ some upstream
      → insert_entry env t pubkey account ≡ insert_upstream env t pubkey r upstream
  unfolding insert_entry
  insert_entry-decoded r upstream h g = rw (h, insert_entry, g)

  -- A node that is there already keeps its record, so taking over its pings has no effect.
  insert_upstream-cases :
      (r : ErRecord) (upstream : UpstreamRecord) (k : Pubkey)
      → let (t', sent) = insert_upstream env t pubkey r upstream in
        (lookup k t'.inner ≡ (
          if contains_key r.identity t.inner
          then lookup k t.inner
          else if r.identity == k
          then some upstream
          else lookup k t.inner))
        × (sent ≡ record { is_online = r.is_active; url = upstream.ws_url; target = ephem } ∷ [])
  unfolding insert_upstream with_pings_of
  insert_upstream-cases r upstream k = elim (Option-cases (lookup r.identity t.inner)) [
    | inl new ↦
        (ground (arith, env.nodes.lookup-insert_sync r.identity k upstream t.inner), ground arith)
    | inr (current, there) ↦ (
      ground (
        arith,
        env.nodes.lookup-insert_sync r.identity k (with_pings_of (some current) upstream) t.inner,
      ),
      ground arith,
    )
  ]

  -- A registry record of a node that answers: the table gets the node exactly if its identity is
  -- not there yet. A node that is there keeps its old client and websocket URL, while the
  -- dispatcher is told of the record's URL. Every other node keeps its record.
  pub insert_entry-cases :
      (r : ErRecord) (upstream : UpstreamRecord) (k : Pubkey)
      → env.deserialize account.bytes ≡ some r
      → new_from_er_record env r ≡ some upstream
      → let (t', sent) = insert_entry env t pubkey account in
        (lookup k t'.inner ≡ (
          if contains_key r.identity t.inner
          then lookup k t.inner
          else if r.identity == k
          then some upstream
          else lookup k t.inner))
        × (sent ≡ record { is_online = r.is_active; url = upstream.ws_url; target = ephem } ∷ [])
  insert_entry-cases r upstream k h g =
      rw (insert_entry-decoded r upstream h g) (insert_upstream-cases r upstream k)

  -- When the registry moves a node that is in the table to another URL, and the node answers there,
  -- the client and the websocket URL that the table gives for it are still the old ones.
  insert_entry-keeps_url :
      (r : ErRecord) (upstream old : UpstreamRecord)
      → env.deserialize account.bytes ≡ some r
      → new_from_er_record env r ≡ some upstream
      → lookup r.identity t.inner ≡ some old
      → upstream.ws_url ≢ old.ws_url
      → let t' = (insert_entry env t pubkey account).0 in
        (ephemeral_handle t' r.identity ≡ some (record { rpc = old.client; ws = old.ws_url }))
        × (ephemeral_client t' r.identity ≡ some old.client)
  unfolding ephemeral_handle ephemeral_client
  insert_entry-keeps_url r upstream old h g known moved =
      let (same, sent) = insert_entry-cases r upstream r.identity h g in
      let kept : lookup r.identity (insert_entry env t pubkey account).0.inner ≡ some old =
        ground (arith, same) in
      (rw kept, rw kept)

  -- A closed registry account takes its node out of the table, and tells the dispatcher so; the
  -- other nodes stay. An account without a node in the table changes no node and sends nothing.
  insert_entry-closed :
      (k : Pubkey)
      → env.deserialize account.bytes ≡ none
      → account.lamports ≡ 0
      → let (t', sent) = insert_entry env t pubkey account in
        ((u : UpstreamRecord) × (identity : Pubkey) × (lookup pubkey t.pda_to_identity
            ≡ some identity)
          × (lookup identity t.inner ≡ some u)
          × (lookup k t'.inner ≡ (if identity == k then none else lookup k t.inner))
          × (lookup pubkey t'.pda_to_identity ≡ none)
          × (sent ≡ record { is_online = false; url = u.ws_url; target = ephem } ∷ []))
        ⊎ ((t'.inner ≡ t.inner) × (sent ≡ []))
  unfolding insert_entry remove_entry
  insert_entry-closed k h z = elim (Option-cases (lookup pubkey t.pda_to_identity)) [
    | inl unknown ↦ inr (ground arith, ground arith)
    | inr (identity, mapped) ↦ elim (Option-cases (lookup identity t.inner)) [
      | inl absent ↦ inr (ground arith, ground arith)
      | inr (u, present) ↦ inl (
        u,
        identity,
        mapped,
        present,
        ground (arith, env.nodes.lookup-remove_sync identity k t.inner),
        ground (arith, env.identities.lookup-remove_sync pubkey pubkey t.pda_to_identity),
        ground arith,
      )
    ]
  ]
