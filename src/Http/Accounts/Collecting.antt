-- ===== src/Http/Accounts/Collecting.antt =====
-- The answers to the requests of `getMultipleAccounts`, put together (src/server/http.rs).
use mathlib.Core.List.Memᴰ
use mathlib.Core.List.{Memᴰ}
use magic_router.Prelude.{
  ℕ, zero, suc, ◌<◌, ◌≤◌, leb, ◌≡◌, refl, sym, ap, subst, ◌∙◌, ◌⊎◌, inl, inr, Option, some, List,
  [], ◌∷◌, ◌==◌, if◌then◌else◌, get_elem?, length, set, replicate, map, max, length-set, Bool-cases,
  arith,
}
use magic_router.Types.{Pubkey, Client}
use magic_router.Error.{Result-cases, RouterError, RouterResult, ok, err}
use magic_router.Routes.{RoutingTable}
use magic_router.Http.{Authorities}
use magic_router.Http.Accounts.{AccountNodes, Indexed, AccountsRequest, put_accounts, collect}
use magic_router.Http.Accounts.Requesting.{Serves, IsSound}

get_elem?-set {ℓ} :
    {A : Type ℓ} (xs : List A) (i j : ℕ) (v : A)
    → i < length xs
    → get_elem? (set xs i v) j ≡ (if i == j then some v else get_elem? xs j)
get_elem?-set [] i j v h = elim h [ ]
get_elem?-set (x ∷ xs) zero zero v h = refl
get_elem?-set (x ∷ xs) zero (suc j) v h = ground arith
get_elem?-set (x ∷ xs) (suc i) zero v h = ground arith
get_elem?-set (x ∷ xs) (suc i) (suc j) v h = get_elem?-set xs i j v (omega arith) ∙ ground arith

get_elem?-in_range {ℓ} :
    {A : Type ℓ} (xs : List A) (i : ℕ) (v : A) → get_elem? xs i ≡ some v → i < length xs
get_elem?-in_range [] i v e = absurd (cc)
get_elem?-in_range (x ∷ xs) zero v e = omega arith
get_elem?-in_range (x ∷ xs) (suc i) v e = omega (arith, get_elem?-in_range xs i v e)

pub length-replicate {ℓ} : {A : Type ℓ} (n : ℕ) (a : A) → length (replicate n a) ≡ n
length-replicate zero a = refl
length-replicate (suc n) a = ap suc (length-replicate n a)

module _ (nodes : AccountNodes) (t : RoutingTable) (authority : Authorities) (pubkeys : List Pubkey)
    (config : ℕ) (account : Client → Pubkey → Option ℕ)
    (in_order : (c : Client) (ks : List Pubkey) (slot : ℕ) (value : List (Option ℕ))
      → nodes.get_multiple_accounts c ks config ≡ ok (slot, value)
      → value ≡ map (account c) ks) where
  -- The response has the right account at a place.
  abbrev pub Answered : List (Option ℕ) → ℕ → Type 0
  Answered response i =
      (pk : Pubkey) × (client : Client) × (get_elem? pubkeys i ≡ some pk)
      × Serves t (authority i pk) client
      × (get_elem? response i ≡ some (account client pk))

  pub Answered-key :
      (response : List (Option ℕ)) (i : ℕ) (pk : Pubkey)
      → get_elem? pubkeys i ≡ some pk
      → Answered response i
      → (client : Client) × Serves t (authority i pk) client
        × (get_elem? response i ≡ some (account client pk))
  Answered-key response i pk known (pk', client, at, serves, there) =
      let same : pk' ≡ pk = ground arith in
      (
        client,
        subst (λ x. Serves t (authority i x) client) same serves,
        subst (λ x. get_elem? response i ≡ some (account client x)) same there,
      )

  put_accounts-Answered :
      (r : AccountsRequest) (group : Indexed) (response : List (Option ℕ))
      → IsSound t authority pubkeys r
      → ((j : ℕ) (pk : Pubkey) → Memᴰ (j, pk) group → Memᴰ (j, pk) r.pubkeys)
      → length response ≡ length pubkeys
      → (after : List (Option ℕ)) × (put_accounts group
            (map (account r.client) (map (λ (index, pk). pk) group))
            response
          ≡ some after)
        × (length after ≡ length pubkeys)
        × ((i : ℕ) → Answered response i ⊎ ((pk : Pubkey) × Memᴰ (i, pk) group) → Answered after i)
  unfolding put_accounts
  put_accounts-Answered r [] response sound inside len = (
    response,
    refl,
    len,
    λ i known. elim known [ inl before ↦ before | inr (pk, m) ↦ elim m [ ] ],
  )
  put_accounts-Answered r ((j, pk) ∷ group) response sound inside len =
      let (at, status) = sound.places j pk (inside j pk (Memᴰ.head refl)) in
      let below : j < length response = rw len (get_elem?-in_range pubkeys j pk at) in
      let response' = set response j (account r.client pk) in
      let (after, same, len', answers) =
        put_accounts-Answered r group response' sound (λ k x m. inside k x (Memᴰ.tail m))
          (length-set response j (account r.client pk) ∙ len) in
      let put : Answered response' j = (
        pk,
        r.client,
        at,
        subst (λ s. Serves t s r.client) (sym status) sound.serves,
        ground (arith, get_elem?-set response j j (account r.client pk) below),
      ) in
      let keeps : (i : ℕ) → Answered response i → Answered response' i =
        λ i (x, c, known, serves, there). elim (Bool-cases (j == i)) [
          | inl here ↦ let e : j ≡ i = ground arith in subst (Answered response') e put
          | inr other ↦ (
            x,
            c,
            known,
            serves,
            ground (arith, get_elem?-set response j i (account r.client pk) below),
          )
        ] in
      (
        after,
        ground arith,
        len',
        λ i known. answers i (elim known [
          | inl before ↦ inl (keeps i before)
          | inr (x, m) ↦ elim (Memᴰ.cases_cons m) [
            | inl e ↦ inl (subst (Answered response') (sym (ap (λ (p : ℕ × Pubkey). p.0) e)) put)
            | inr later ↦ inr (x, later)
          ]
        ]),
      )

  -- The node of a request answers with a slot.
  abbrev pub AnswersAt : AccountsRequest → ℕ → Type 0
  AnswersAt r slot =
      (value : List (Option ℕ)) × (nodes.get_multiple_accounts r.client
          (map (λ (index, pk). pk) r.pubkeys) config
        ≡ ok (slot, value))

  -- A slot is the newest of the answers, or the one that there was before them.
  pub record IsNewest (rs : List AccountsRequest) (before slot : ℕ) : Type 0 where
    pub above : before ≤ slot
    pub newest : (r : AccountsRequest) → Memᴰ r rs → (n : ℕ) × AnswersAt r n × (n ≤ slot)
    pub reached : (before ≡ slot) ⊎ ((r : AccountsRequest) × Memᴰ r rs × AnswersAt r slot)

  cons-IsNewest :
      (r : AccountsRequest) (rs : List AccountsRequest) (before n slot : ℕ)
      → AnswersAt r n
      → IsNewest rs (max before n) slot
      → IsNewest (r ∷ rs) before slot
  cons-IsNewest r rs before n slot answer rest =
      let bound = rest.above in
      record {
        above = omega arith;
        newest = λ r' m. elim (Memᴰ.cases_cons m) [
          | inl e ↦ (n, subst (λ x. AnswersAt x n) (sym e) answer, omega arith)
          | inr later ↦ rest.newest r' later
        ];
        reached = elim rest.reached [
          | inr (r', m, at) ↦ inr (r', Memᴰ.tail m, at)
          | inl same ↦ elim (Bool-cases (leb n before)) [
            | inl older ↦ inl (ground (arith, same))
            | inr newer ↦
                let e : n ≡ slot = ground (arith, same) in
                inr (r, Memᴰ.head refl, subst (AnswersAt r) e answer)
          ]
        ];
      }

  -- Every request is answered, and the response is complete, or one fails.
  abbrev pub Collects :
      List AccountsRequest
      → ℕ
      → List (Option ℕ)
      → Option (RouterResult (ℕ × List (Option ℕ)))
      → Type 0
  Collects rs before response result =
      ((slot : ℕ) × (value : List (Option ℕ)) × (result ≡ some (ok (slot, value)))
        × (length value ≡ length pubkeys)
        × ((i : ℕ)
            → Answered response i
              ⊎ ((r : AccountsRequest) × (pk : Pubkey) × Memᴰ r rs × Memᴰ (i, pk) r.pubkeys)
            → Answered value i)
        × IsNewest rs before slot)
      ⊎ ((r : AccountsRequest) × (e : RouterError) × Memᴰ r rs
          × (result ≡ some (err e))
          × (nodes.get_multiple_accounts r.client (map (λ (index, pk). pk) r.pubkeys) config
              ≡ err e))

  pub collect-Collects :
      (rs : List AccountsRequest) (slot : ℕ) (response : List (Option ℕ))
      → ((r : AccountsRequest) → Memᴰ r rs → IsSound t authority pubkeys r)
      → length response ≡ length pubkeys
      → Collects rs slot response (collect nodes config rs slot response)
  unfolding collect
  collect-Collects [] slot response sound len = inl (
    slot,
    response,
    refl,
    len,
    (λ i known. elim known [ inl before ↦ before | inr (r, pk, m, _) ↦ elim m [ ] ]),
    record { above = omega arith; newest = λ r m. elim m [ ]; reached = inl refl },
  )
  collect-Collects (r ∷ rs) slot response sound len =
      elim (Result-cases
        (nodes.get_multiple_accounts r.client (map (λ (index, pk). pk) r.pubkeys) config)) [
          | inl (e, failed) ↦ inr (r, e, Memᴰ.head refl, rw (failed, collect) refl, failed)
          | inr ((answer_slot, accounts), answered) ↦
              let same : accounts ≡ map (account r.client) (map (λ (index, pk). pk) r.pubkeys) =
                in_order r.client (map (λ (index, pk). pk) r.pubkeys) answer_slot accounts
                  answered in
              let (after, put, len', kept) =
                put_accounts-Answered r r.pubkeys response (sound r (Memᴰ.head refl)) (λ j pk m. m)
                  len in
              let step : collect nodes config (r ∷ rs) slot response
                  ≡ collect nodes config rs (max slot answer_slot) after =
                rw (answered, collect, same, put) refl in
              elim (collect-Collects rs (max slot answer_slot) after
                (λ r' m. sound r' (Memᴰ.tail m)) len') [
                  | inl (slot', value, done, len'', answers, latest) ↦ inl (
                    slot',
                    value,
                    step ∙ done,
                    len'',
                    (λ i known. answers i (elim known [
                      | inl before ↦ inl (kept i (inl before))
                      | inr (r', pk, m, place) ↦ elim (Memᴰ.cases_cons m) [
                        | inl e ↦ inl (
                            kept i (
                              inr (
                                pk,
                                subst (λ (x : AccountsRequest). Memᴰ (i, pk) x.pubkeys) e place,
                              )))
                        | inr later ↦ inr (r', pk, later, place)
                      ]
                    ])),
                    cons-IsNewest r rs slot answer_slot slot' (accounts, answered) latest,
                  )
                  | inr (r', e, m, done, failed) ↦ inr (r', e, Memᴰ.tail m, step ∙ done, failed)
                ]
        ]
