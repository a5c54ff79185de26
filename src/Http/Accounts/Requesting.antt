-- ===== src/Http/Accounts/Requesting.antt =====
-- The requests of `getMultipleAccounts` to the nodes (src/server/http.rs).
use mathlib.Core.List.Memᴰ
use mathlib.Core.List.{Memᴰ}
use magic_router.Prelude.{
  ℕ, ◌+◌, ◌≡◌, ◌≢◌, ◌%◌, refl, sym, ap, subst, ◌∙◌, ◌⊎◌, inl, inr, Option, none, some, List, [],
  ◌∷◌, ◌++◌, get_elem?, length, Option-cases, arith,
}
use magic_router.Prelude.Dict.{Dict, lookup, lookup_of_Memᴰ, Memᴰ_of_lookup}
use magic_router.Types.{Pubkey, Client}
use magic_router.Error.{ok, err, unknown_er_node}
use magic_router.Routes.{UpstreamRecord, RoutingTable, ephemeral_client, base_chain}
use magic_router.Routes.RoundRobin.{IsReady, base_chain-next}
use magic_router.Http.{Authorities}
use magic_router.Http.Accounts.{
  Indexed, Grouped, AccountsRequest, group_or_default, group_by_node, node_requests,
  with_chain_request,
}
use magic_router.Http.Accounts.Grouping.{
  group_of, asked_of, group_by_node-group_of, group_by_node-NoEmptyGroup, group_by_node-IsUnique,
  asked_of-place, place-asked_of,
}

-- The client of an account's node, or the base chain's next one.
pub data Serves (t : RoutingTable) : Option Pubkey → Client → Type 0 where
  node :
      (identity : Pubkey) (client : Client)
      → ephemeral_client t identity ≡ some client
      → Serves t (some identity) client
  base :
      (t' : RoutingTable) (u : UpstreamRecord)
      → base_chain t ≡ some (t', u)
      → Serves t none u.client

first_member : (group : Indexed) → group ≢ [] → (i : ℕ) × (pk : Pubkey) × Memᴰ (i, pk) group
first_member [] full = absurd (full refl)
first_member ((i, pk) ∷ group) full = (i, pk, Memᴰ.head refl)

module _ (t : RoutingTable) (authority : Authorities) (pubkeys : List Pubkey) where
  -- What a request is sent for.
  pub record IsSound (r : AccountsRequest) : Type 0 where
    pub status : Option Pubkey
    pub member : (j : ℕ) × (pk : Pubkey) × Memᴰ (j, pk) r.pubkeys
    pub serves : Serves t status r.client
    pub places :
        (j : ℕ) (pk : Pubkey)
        → Memᴰ (j, pk) r.pubkeys
        → (get_elem? pubkeys j ≡ some pk) × (authority j pk ≡ status)

  -- The requests to nodes: one for each group, with the client of the group's node.
  pub node_requests-cases :
      (delegated : Dict Indexed)
      → ((requests : List AccountsRequest) × (node_requests t delegated ≡ ok requests)
          × ((r : AccountsRequest)
              → Memᴰ r requests
              → (identity : Pubkey) × Memᴰ (identity, r.pubkeys) delegated
                × (ephemeral_client t identity ≡ some r.client))
          × ((identity : Pubkey) (group : Indexed)
              → Memᴰ (identity, group) delegated
              → (r : AccountsRequest) × Memᴰ r requests × (r.pubkeys ≡ group)))
        ⊎ ((identity : Pubkey) × (group : Indexed) × Memᴰ (identity, group) delegated
            × (ephemeral_client t identity ≡ none)
            × (node_requests t delegated ≡ err (unknown_er_node identity)))
  unfolding node_requests
  node_requests-cases [] = inl ([], refl, (λ r m. elim m [ ]), λ identity group m. elim m [ ])
  node_requests-cases ((identity, group) ∷ rest) =
      elim (Option-cases (ephemeral_client t identity)) [
        | inl unknown ↦
            inr (identity, group, Memᴰ.head refl, unknown, rw (unknown, node_requests) refl)
        | inr (client, known) ↦
            let r₀ : AccountsRequest = record { client = client; pubkeys = group } in
            elim (node_requests-cases rest) [
              | inr (other, group', m, unknown, e) ↦
                  inr (other, group', Memᴰ.tail m, unknown, rw (known, node_requests, e) refl)
              | inl (requests, e, from, to) ↦ inl (
                r₀ ∷ requests,
                rw (known, node_requests, e) refl,
                (λ r m. elim (Memᴰ.cases_cons m) [
                  | inl same ↦ (
                    identity,
                    Memᴰ.head (ap (λ (x : AccountsRequest). (identity, x.pubkeys)) same),
                    known ∙ ap (λ (x : AccountsRequest). some x.client) (sym same),
                  )
                  | inr later ↦
                      let (other, m', known') = from r later in (other, Memᴰ.tail m', known')
                ]),
                λ other group' m. elim (Memᴰ.cases_cons m) [
                  | inl same ↦ (r₀, Memᴰ.head refl, ap (λ (x : ℕ × Indexed). x.1) (sym same))
                  | inr later ↦ let (r, m', same) = to other group' later in (r, Memᴰ.tail m', same)
                ],
              )
            ]
      ]

  abbrev pub groups : Grouped
  groups = group_by_node authority 0 pubkeys ([], [])

  group_asked : (s : Option Pubkey) → group_of groups s ≡ asked_of authority 0 s pubkeys
  group_asked none = group_by_node-group_of authority 0 pubkeys ([], []) none
  group_asked (some identity) =
      group_by_node-group_of authority 0 pubkeys ([], []) (some identity) ∙ (unfold lookup in refl)

  pub asked_places :
      (s : Option Pubkey) (j : ℕ) (pk : Pubkey)
      → Memᴰ (j, pk) (group_of groups s)
      → (get_elem? pubkeys j ≡ some pk) × (authority j pk ≡ s)
  asked_places s j pk m =
      let (k, place, there, delegated) =
        asked_of-place authority 0 s pubkeys j pk (subst (Memᴰ (j, pk)) (group_asked s) m) in
      let same : k ≡ j = omega arith in
      (subst (λ i. get_elem? pubkeys i ≡ some pk) same there, delegated)

  place_asked :
      (j : ℕ) (pk : Pubkey)
      → get_elem? pubkeys j ≡ some pk
      → Memᴰ (j, pk) (group_of groups (authority j pk))
  place_asked j pk e =
      let same : 0 + j ≡ j = omega arith in
      subst (Memᴰ (j, pk)) (sym (group_asked (authority j pk))) (
        subst (λ i. Memᴰ (i, pk) (asked_of authority 0 (authority i pk) pubkeys)) same
          (place-asked_of authority 0 pubkeys j pk e))

  pub group_lookup :
      (identity : Pubkey) (group : Indexed)
      → Memᴰ (identity, group) groups.0
      → lookup identity groups.0 ≡ some group
  group_lookup identity group m =
      lookup_of_Memᴰ identity group groups.0
        (group_by_node-IsUnique authority 0 pubkeys ([], []) tt) m

  pub group_member :
      (identity : Pubkey) (group : Indexed)
      → Memᴰ (identity, group) groups.0
      → (i : ℕ) × (pk : Pubkey) × Memᴰ (i, pk) group
  group_member identity group m = first_member group (
      group_by_node-NoEmptyGroup authority 0 pubkeys ([], [])
        (λ i g h. (unfold lookup in (absurd (cc)))) identity group (group_lookup identity group m))

  -- The requests are for the keys of the request and no others, and for all of them.
  pub record AreRequests (all : List AccountsRequest) : Type 0 where
    pub sound : (r : AccountsRequest) → Memᴰ r all → IsSound r
    pub complete :
        (i : ℕ) (pk : Pubkey)
        → get_elem? pubkeys i ≡ some pk
        → (r : AccountsRequest) × Memᴰ r all × Memᴰ (i, pk) r.pubkeys

  module _ (requests : List AccountsRequest)
      (from : (r : AccountsRequest)
        → Memᴰ r requests
        → (identity : Pubkey) × Memᴰ (identity, r.pubkeys) groups.0
          × (ephemeral_client t identity ≡ some r.client))
      (to : (identity : Pubkey) (group : Indexed)
        → Memᴰ (identity, group) groups.0
        → (r : AccountsRequest) × Memᴰ r requests × (r.pubkeys ≡ group)) where
    from_node : (r : AccountsRequest) → Memᴰ r requests → IsSound r
    from_node r m =
        let (identity, there, known) = from r m in
        record {
          status = some identity;
          member = group_member identity r.pubkeys there;
          serves = node identity r.client known;
          places = λ j pk p.
              asked_places (some identity) j pk (rw (group_lookup identity r.pubkeys there) p);
        }

    to_node :
        (i : ℕ) (pk identity : Pubkey)
        → get_elem? pubkeys i ≡ some pk
        → authority i pk ≡ some identity
        → (r : AccountsRequest) × Memᴰ r requests × Memᴰ (i, pk) r.pubkeys
    to_node i pk identity e status =
        let asked : Memᴰ (i, pk) (group_or_default (lookup identity groups.0)) =
          subst (λ s. Memᴰ (i, pk) (group_of groups s)) status (place_asked i pk e) in
        elim (Option-cases (lookup identity groups.0)) [
          | inl nothing ↦
              absurd (Memᴰ.not-nil (subst (λ g. Memᴰ (i, pk) (group_or_default g)) nothing asked))
          | inr (group, there) ↦
              let (r, m, same) = to identity group (Memᴰ_of_lookup identity group groups.0 there) in
              (r, m, rw same (subst (λ g. Memᴰ (i, pk) (group_or_default g)) there asked))
        ]

    to_base :
        (i : ℕ) (pk : Pubkey)
        → get_elem? pubkeys i ≡ some pk
        → authority i pk ≡ none
        → Memᴰ (i, pk) groups.1
    to_base i pk e status =
        subst (λ s. Memᴰ (i, pk) (group_of groups s)) status (place_asked i pk e)

    pub with_chain_request-AreRequests :
        (undelegated : Indexed)
        → groups.1 ≡ undelegated
        → IsReady t
        → (t' : RoutingTable) × (all : List AccountsRequest) × (with_chain_request t undelegated
              requests
            ≡ some (t', all))
          × AreRequests all
    unfolding with_chain_request
    with_chain_request-AreRequests [] rest ready = (
      t,
      requests,
      refl,
      record {
        sound = from_node;
        complete = λ i pk e. elim (Option-cases (authority i pk)) [
          | inr (identity, status) ↦ to_node i pk identity e status
          | inl status ↦ absurd (Memᴰ.not-nil (subst (Memᴰ (i, pk)) rest (to_base i pk e status)))
        ];
      },
    )
    with_chain_request-AreRequests (x ∷ xs) rest ready =
        let (u, _, step, _) = base_chain-next t ready in
        let r : AccountsRequest = record { client = u.client; pubkeys = x ∷ xs } in
        (
          record t { next = (t.next + 1) % length t.upstreams },
          requests ++ r ∷ [],
          rw step refl,
          record {
            sound = λ r' m. elim (Memᴰ.append_cases requests m) [
              | inl sent ↦ from_node r' sent
              | inr last ↦ subst IsSound (sym (Memᴰ.eq_of_singleton last)) (record {
                status = none;
                member = (x.0, x.1, Memᴰ.head refl);
                serves = base _ u step;
                places = λ j pk p. asked_places none j pk (subst (Memᴰ (j, pk)) (sym rest) p);
              })
            ];
            complete = λ i pk e. elim (Option-cases (authority i pk)) [
              | inr (identity, status) ↦
                  let (r', m, p) = to_node i pk identity e status in
                  (r', Memᴰ.append_left (r ∷ []) m, p)
              | inl status ↦ (
                r,
                Memᴰ.append_right requests (Memᴰ.head refl),
                subst (Memᴰ (i, pk)) rest (to_base i pk e status),
              )
            ];
          },
        )
