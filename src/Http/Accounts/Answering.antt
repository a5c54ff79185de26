-- ===== src/Http/Accounts/Answering.antt =====
-- The answers of `getMultipleAccounts` (src/server/http.rs).
use mathlib.Core.List.Permᴰ
use mathlib.Core.List.{Memᴰ, Permᴰ}
use magic_router.Prelude.{
  ℕ, ◌≡◌, ◌≤◌, ◌⊎◌, refl, sym, ap, subst, ◌∙◌, inl, inr, Option, none, some, List, [], ◌∷◌,
  get_elem?, length, replicate, map,
}
use magic_router.Types.{Pubkey, Client}
use magic_router.Error.{RouterError, RouterResult, ok, err, unknown_er_node}
use magic_router.Routes.{RoutingTable, ephemeral_client}
use magic_router.Routes.RoundRobin.{IsReady}
use magic_router.Http.{Authorities}
use magic_router.Http.Accounts.{
  AccountNodes, Indexed, AccountsRequest, or_default, group_by_node, node_requests,
  with_chain_request, collect, multiple_accounts,
}
use magic_router.Http.Accounts.Requesting.{
  Serves, IsSound, node_requests-cases, groups, asked_places, group_lookup, group_member,
  with_chain_request-AreRequests,
}
use magic_router.Http.Accounts.Collecting.{Answered-key, length-replicate, collect-Collects}

Permᴰ-Memᴰ {ℓ} : {A : Type ℓ} {a : A} {xs ys : List A} → Permᴰ xs ys → Memᴰ a xs → Memᴰ a ys
Permᴰ-Memᴰ Permᴰ.nil m = m
Permᴰ-Memᴰ (Permᴰ.cons e p) (Memᴰ.head h) = Memᴰ.head (h ∙ e)
Permᴰ-Memᴰ (Permᴰ.cons e p) (Memᴰ.tail m) = Memᴰ.tail (Permᴰ-Memᴰ p m)
Permᴰ-Memᴰ (Permᴰ.swap e f) (Memᴰ.head h) = Memᴰ.tail (Memᴰ.head (h ∙ e))
Permᴰ-Memᴰ (Permᴰ.swap e f) (Memᴰ.tail (Memᴰ.head h)) = Memᴰ.head (h ∙ f)
Permᴰ-Memᴰ (Permᴰ.swap e f) (Memᴰ.tail (Memᴰ.tail m)) = Memᴰ.tail (Memᴰ.tail m)
Permᴰ-Memᴰ (Permᴰ.trans p q) m = Permᴰ-Memᴰ q (Permᴰ-Memᴰ p m)

module _ (nodes : AccountNodes) (t : RoutingTable) (authority : Authorities) (pubkeys : List Pubkey)
    (config : ℕ) (account : Client → Pubkey → Option ℕ) where
  -- The node that serves an account answers with a slot, asked for that account among others.
  abbrev pub AnswersFor : ℕ → Pubkey → ℕ → Type 0
  AnswersFor i pk slot =
      (client : Client) × (ks : List Pubkey) × (value : List (Option ℕ)) × Serves t (authority i pk)
        client
      × Memᴰ pk ks
      × (nodes.get_multiple_accounts client ks config ≡ ok (slot, value))

  -- What a request for the accounts comes to.
  pub data AccountsOutcome (result : Option (RoutingTable × RouterResult (ℕ × List (Option ℕ))))
      : Type 0 where
    -- Each account, in the order of the request, is the answer of the node that serves it, and the
    -- slot is the newest of the answers.
    answered :
        (t' : RoutingTable) (slot : ℕ) (value : List (Option ℕ))
        → result ≡ some (t', ok (slot, value))
        → length value ≡ length pubkeys
        → ((i : ℕ) (pk : Pubkey)
            → get_elem? pubkeys i ≡ some pk
            → (client : Client) × Serves t (authority i pk) client
              × (get_elem? value i ≡ some (account client pk)))
        → ((i : ℕ) (pk : Pubkey)
            → get_elem? pubkeys i ≡ some pk
            → (n : ℕ) × AnswersFor i pk n × (n ≤ slot))
        → ((slot ≡ 0)
            ⊎ ((i : ℕ) × (pk : Pubkey) × (get_elem? pubkeys i ≡ some pk) × AnswersFor i pk slot))
        → AccountsOutcome result
    -- One of the accounts is delegated to a node that the router does not know.
    unknown_node :
        (i : ℕ) (pk identity : Pubkey)
        → get_elem? pubkeys i ≡ some pk
        → authority i pk ≡ some identity
        → ephemeral_client t identity ≡ none
        → result ≡ some (t, err (unknown_er_node identity))
        → AccountsOutcome result
    -- The node that serves one of the accounts has failed, asked for it and only for accounts of
    -- the request that have the same status.
    failed :
        (t' : RoutingTable) (i : ℕ) (pk : Pubkey) (c : Client) (ks : List Pubkey) (e : RouterError)
        → get_elem? pubkeys i ≡ some pk
        → Serves t (authority i pk) c
        → Memᴰ pk ks
        → ((k : Pubkey)
            → Memᴰ k ks
            → (j : ℕ) × (get_elem? pubkeys j ≡ some k) × (authority j k ≡ authority i pk))
        → nodes.get_multiple_accounts c ks config ≡ err e
        → result ≡ some (t', err e)
        → AccountsOutcome result

module _ (nodes : AccountNodes) (t : RoutingTable) (authority : Authorities) (pubkeys : List Pubkey)
    (params : Option ℕ) (completed : List AccountsRequest → List AccountsRequest) where
  all_sent :
      (requests all : List AccountsRequest) (t' : RoutingTable)
      (result : RouterResult (ℕ × List (Option ℕ)))
      → node_requests t (group_by_node authority 0 pubkeys ([], [])).0 ≡ ok requests
      → with_chain_request t (group_by_node authority 0 pubkeys ([], [])).1 requests
        ≡ some (t', all)
      → collect nodes (or_default params) (completed all) 0 (replicate (length pubkeys) none)
        ≡ some result
      → multiple_accounts nodes t authority completed pubkeys params ≡ some (t', result)
  unfolding multiple_accounts
  all_sent requests all t' result e made done = rw (e, multiple_accounts, made, done) refl

  none_sent :
      (e : RouterError)
      → node_requests t (group_by_node authority 0 pubkeys ([], [])).0 ≡ err e
      → multiple_accounts nodes t authority completed pubkeys params ≡ some (t, err e)
  unfolding multiple_accounts
  none_sent error e = rw (e, multiple_accounts) refl

abbrev keys_of : Indexed → List Pubkey
keys_of = map (λ (index, pk). pk)

key-Memᴰ : (i : ℕ) (pk : Pubkey) (xs : Indexed) → Memᴰ (i, pk) xs → Memᴰ pk (keys_of xs)
key-Memᴰ i pk [] m = elim m [ ]
key-Memᴰ i pk (x ∷ xs) (Memᴰ.head e) = Memᴰ.head (ap (λ (y : ℕ × Pubkey). y.1) e)
key-Memᴰ i pk (x ∷ xs) (Memᴰ.tail m) = Memᴰ.tail (key-Memᴰ i pk xs m)

Memᴰ-key : (k : Pubkey) (xs : Indexed) → Memᴰ k (keys_of xs) → (j : ℕ) × Memᴰ (j, k) xs
Memᴰ-key k [] m = elim m [ ]
Memᴰ-key k ((j, x) ∷ xs) (Memᴰ.head e) = (j, Memᴰ.head (ap (λ (y : Pubkey). (j, y)) e))
Memᴰ-key k ((j, x) ∷ xs) (Memᴰ.tail m) = let (i, p) = Memᴰ-key k xs m in (i, Memᴰ.tail p)

answers_for :
    (nodes : AccountNodes) (t : RoutingTable) (authority : Authorities) (pubkeys : List Pubkey)
    (config : ℕ) (r : AccountsRequest) (i : ℕ) (pk : Pubkey) (n : ℕ)
    → IsSound t authority pubkeys r
    → Memᴰ (i, pk) r.pubkeys
    → (value : List (Option ℕ)) × (nodes.get_multiple_accounts r.client (keys_of r.pubkeys) config
        ≡ ok (n, value))
    → (client : Client) × (ks : List Pubkey) × (value : List (Option ℕ)) × Serves t
        (authority i pk)
        client
      × Memᴰ pk ks
      × (nodes.get_multiple_accounts client ks config ≡ ok (n, value))
answers_for nodes t authority pubkeys config r i pk n sound place (value, at) =
    let (_, status) = sound.places i pk place in
    (
      r.client,
      keys_of r.pubkeys,
      value,
      subst (λ s. Serves t s r.client) (sym status) sound.serves,
      key-Memᴰ i pk r.pubkeys place,
      at,
    )

-- If the base chain has a node to use, nodes answer for each key that they are asked for in the
-- order of the keys, and every request is completed, in whatever order, then `getMultipleAccounts`
-- does not panic: it gives each account at its place in the request, as the node answers to which
-- the account is delegated (or a node of the base chain), with the newest slot of these answers,
-- unless one of these nodes is unknown or
-- fails when it is asked for the accounts that it serves, and then it gives that error.
pub multiple_accounts-AccountsOutcome :
    (nodes : AccountNodes) (t : RoutingTable) (authority : Authorities) (pubkeys : List Pubkey)
    (params : Option ℕ) (account : Client → Pubkey → Option ℕ)
    (completed : List AccountsRequest → List AccountsRequest)
    → IsReady t
    → ((rs : List AccountsRequest) → Permᴰ rs (completed rs))
    → ((c : Client) (ks : List Pubkey) (slot : ℕ) (value : List (Option ℕ))
        → nodes.get_multiple_accounts c ks (or_default params) ≡ ok (slot, value)
        → value ≡ map (account c) ks)
    → AccountsOutcome nodes t authority pubkeys
        (or_default params)
        account
        (multiple_accounts nodes t authority completed pubkeys params)
multiple_accounts-AccountsOutcome nodes t authority pubkeys params account completed ready perm
      in_order =
    elim (node_requests-cases t authority pubkeys (groups t authority pubkeys).0) [
      | inr (identity, group, m, unknown, e) ↦
          let there = group_lookup t authority pubkeys identity group m in
          let (i, pk, p) = group_member t authority pubkeys identity group m in
          let (at, status) = asked_places t authority pubkeys (some identity) i pk (rw there p) in
          unknown_node i pk identity at status unknown
            (none_sent nodes t authority pubkeys params completed _ e)
      | inl (requests, e, from, to) ↦
          let (t', all, made, are) =
            with_chain_request-AreRequests t authority pubkeys requests from to
              (groups t authority pubkeys).1 refl ready in
          let start = replicate (length pubkeys) none in
          elim (collect-Collects nodes t authority pubkeys (or_default params) account in_order
            (completed all) 0 start (λ r m. are.sound r (Permᴰ-Memᴰ (Permᴰ.symm (perm all)) m))
            (length-replicate (length pubkeys) none)) [
              | inl (slot, value, done, len, answers, latest) ↦
                  answered t' slot value
                    (all_sent nodes t authority pubkeys params completed requests all t' _ e made
                      done)
                    len
                    (λ i pk known.
                      let (r, m, place) = are.complete i pk known in
                      Answered-key nodes t authority pubkeys (or_default params) account in_order
                        value i pk known (answers i (inr (r, pk, Permᴰ-Memᴰ (perm all) m, place))))
                    (λ i pk known.
                      let (r, m, place) = are.complete i pk known in
                      let (n, (v, at), below) = latest.newest r (Permᴰ-Memᴰ (perm all) m) in
                      let sound = are.sound r m in
                      (
                        n,
                        answers_for nodes t authority pubkeys (or_default params) r i pk n sound
                            place (v, at),
                        below,
                      ))
                    (elim latest.reached [
                      | inl initial ↦ inl (sym initial)
                      | inr (r, m, at) ↦
                          let sound = are.sound r (Permᴰ-Memᴰ (Permᴰ.symm (perm all)) m) in
                          let (i, pk, place) = sound.member in
                          inr (
                            i,
                            pk,
                            (sound.places i pk place).0,
                            answers_for nodes t authority pubkeys (or_default params) r i pk slot
                                sound place at,
                          )
                    ])
              | inr (r, e', m, done, broken) ↦
                  let sound = are.sound r (Permᴰ-Memᴰ (Permᴰ.symm (perm all)) m) in
                  let (i, pk, p) = sound.member in
                  let (at, status) = sound.places i pk p in
                  failed t' i pk r.client (keys_of r.pubkeys) e' at
                    (subst (λ s. Serves t s r.client) (sym status) sound.serves)
                    (key-Memᴰ i pk r.pubkeys p)
                    (λ k m'.
                      let (j, q) = Memᴰ-key k r.pubkeys m' in
                      let (there, same) = sound.places j k q in (j, there, same ∙ sym status))
                    broken
                    (all_sent nodes t authority pubkeys params completed requests all t' _ e made
                      done)
            ]
    ]
