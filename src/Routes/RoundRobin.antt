-- ===== src/Routes/RoundRobin.antt =====
-- The round robin over the base chain's nodes (`base_chain` in src/cache/routes.rs).
use native.Mathlib.Decide.{dec_lt}
use native.Mathlib.Nat.{mod-eq_of_lt, mod-add-mod, mod-eq-sub-mod, add-zero}
use magic_router.Prelude.{
  ℕ, zero, suc, ◌+◌, ◌-◌, ◌%◌, ◌≤◌, ◌<◌, ◌≡◌, refl, ap, ◌∙◌, ◌⊎◌, inl, inr, Option, none, some,
  List, [], ◌∷◌, length, get_elem?, arith,
}
use magic_router.Routes.{UpstreamRecord, RoutingTable, base_chain}

pub record IsReady (t : RoutingTable) : Type 0 where
  pub in_range : t.next < length t.upstreams

get_elem?-some {ℓ} :
    {A : Type ℓ} (xs : List A) (i : ℕ) → i < length xs → (x : A) × (get_elem? xs i ≡ some x)
get_elem?-some [] i h = elim h [ ]
get_elem?-some (x ∷ xs) zero h = (x, refl)
get_elem?-some (x ∷ xs) (suc i) h = get_elem?-some xs i (omega arith)

-- A call on a table whose counter is in range does not panic: it gives the node at the counter,
-- moves the counter on by one, modulo the number of nodes, and leaves the rest of the table.
pub base_chain-next :
    (t : RoutingTable)
    → IsReady t
    → (u : UpstreamRecord) × (get_elem? t.upstreams t.next ≡ some u)
      × (base_chain t ≡ some (record t { next = (t.next + 1) % length t.upstreams }, u))
      × IsReady (record t { next = (t.next + 1) % length t.upstreams })
unfolding base_chain
base_chain-next t h =
    let (u, e) = get_elem?-some t.upstreams t.next h.in_range in
    (u, e, ground arith, omega (arith, h.in_range))

-- The table after `n` calls, and the node of the next one.
unfoldable pub after_calls : ℕ → RoutingTable → Option RoutingTable
after_calls zero t = some t
after_calls (suc n) t = elim (base_chain t) [ none ↦ none | some (t', u) ↦ after_calls n t' ]

-- A number below twice the modulus, modulo it.
wrap : (a n : ℕ) → a < n + n → ((a < n) × (a % n ≡ a)) ⊎ ((n ≤ a) × (a % n + n ≡ a))
wrap a n h = elim (dec_lt a n) [
  | yes below ↦ inl (below, mod-eq_of_lt below)
  | no above ↦ inr (omega arith, grind (arith, mod-eq-sub-mod, mod-eq_of_lt))
]

after_calls-next :
    (n : ℕ) (t : RoutingTable)
    → IsReady t
    → after_calls n t ≡ some (record t { next = (t.next + n) % length t.upstreams })
unfolding after_calls
after_calls-next zero t h =
    let same : (t.next + 0) % length t.upstreams ≡ t.next = rw add-zero (mod-eq_of_lt h.in_range) in
    rw same
after_calls-next (suc n) t h =
    let (u, e, step, ready) = base_chain-next t h in
    rw (step, after_calls)
      (after_calls-next n _ ready
        ∙ ap (λ k. some (record t { next = k }))
            (mod-add-mod (t.next + 1) (length t.upstreams) n
              ∙ ap (λ k. k % length t.upstreams) (omega arith)))

steps_to : (s k len : ℕ) → s < len → k < len → (n : ℕ) × (n < len) × ((s + n) % len ≡ k)
steps_to s k len h lt = elim (dec_lt k s) [
  | yes before ↦ (k + len - s, omega arith, ground (arith, wrap (s + (k + len - s)) len))
  | no after ↦ (k - s, omega arith, ground (arith, wrap (s + (k - s)) len))
]

same_steps : (s m n len : ℕ) → s < len → m < len → n < len → (s + m) % len ≡ (s + n) % len → m ≡ n
same_steps s m n len h a b e = ground (arith, wrap (s + m) len, wrap (s + n) len)

-- Every node is used once in any `length t.upstreams` calls in a row: for the node at `k` there is
-- one number `n` of earlier calls, and only one, after which it is the next to use.
pub base_chain_fair :
    (t : RoutingTable) (k : ℕ)
    → IsReady t
    → k < length t.upstreams
    → (n : ℕ) × (n < length t.upstreams)
      × (after_calls n t ≡ some (record t { next = k }))
      × ((m : ℕ) → m < length t.upstreams → after_calls m t ≡ some (record t { next = k }) → m ≡ n)
base_chain_fair t k h lt =
    let len = length t.upstreams in
    let steps : (n : ℕ) × (n < len) × ((t.next + n) % len ≡ k) =
      steps_to t.next k len h.in_range lt in
    let (n, small, reach) = steps in
    (
      n,
      small,
      after_calls-next n t h ∙ ap (λ j. some (record t { next = j })) reach,
      λ m small' e.
          same_steps t.next m n len h.in_range small' small
            (ground (arith, after_calls-next m t h)),
    )
