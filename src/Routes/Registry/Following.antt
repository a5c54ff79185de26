-- ===== src/Routes/Registry/Following.antt =====
-- The table over its life: what holds of it after any events.
use magic_router.Prelude.{
  ℕ, ◌+◌, ◌%◌, ◌≡◌, ◌≢◌, refl, subst, inl, inr, ◌⊎◌, Option, none, some, List, [], ◌∷◌, ◌==◌,
  if◌then◌else◌, Bool-cases, Option-cases, length, arith,
}
use mathlib.Core.Option
use magic_router.Prelude.Dict.{Dict, lookup, contains_key}
use magic_router.Types.{Url, Client, Pubkey}
use magic_router.Routes.{
  base_chain, WsUpstreamState, UpstreamRecord, RoutingTable, register_ping_failure,
}
use magic_router.Routes.Proximity.{IsValid, ping-IsValid}
use magic_router.Error.{RouterResult, ok, >>=-eq-ok}
use magic_router.Routes.RoundRobin.{IsReady, base_chain-next}
use magic_router.Routes.Registry.{
  Account, Env, ErRecord, new_from_url, new_from_er_record, insert_entry, remove_entry, Followed,
  insert_upstream, with_pings_of, modify, on_pong, on_ping_failure, TableEvent, notification, pong,
  ping_failed, disconnected, on_event, on_events, new_table, insert_all, check_static, connect_all,
  fill_table, new, updater,
}

-- Every node's record is valid, and the base chain can be used.
pub record TableInv (t : RoutingTable) : Type 0 where
  pub valid : (k : Pubkey) (u : UpstreamRecord) → lookup k t.inner ≡ some u → IsValid u
  pub ready : IsReady t

lookup-modify :
    (k j : ℕ) (f : UpstreamRecord → UpstreamRecord) (m : Dict UpstreamRecord)
    → lookup j (modify k f m) ≡ (if k == j then Option.map f (lookup j m) else lookup j m)
unfolding lookup modify
lookup-modify k j f [] = ground arith
lookup-modify k j f ((i, u) ∷ m) = ground (arith, lookup-modify k j f m)

with_pings_of-IsValid :
    (o : Option UpstreamRecord) (upstream : UpstreamRecord)
    → IsValid upstream
    → ((u : UpstreamRecord) → o ≡ some u → IsValid u)
    → IsValid (with_pings_of o upstream)
unfolding with_pings_of
with_pings_of-IsValid none upstream v old = v
with_pings_of-IsValid (some current) upstream v old =
    let w = old current refl in
    record {
      dropped = ground (arith, v.dropped, w.dropped);
      measured = ground (arith, v.measured, w.measured);
      small = ground (arith, v.small, w.small);
      in_u64 = ground (arith, v.in_u64, w.in_u64);
    }

pub bind-eq-some {ℓ κ} :
    {A : Type ℓ} {B : Type κ} (o : Option A) (f : A → Option B) {b : B}
    → Option.bind o f ≡ some b
    → (a : A) × (o ≡ some a) × (f a ≡ some b)
unfolding Option.bind
bind-eq-some none f h = cc
bind-eq-some (some a) f h = (a, refl, h)

pub map-eq-some {ℓ κ} :
    {A : Type ℓ} {B : Type κ} (o : Option A) (f : A → B) {b : B}
    → Option.map f o ≡ some b
    → (a : A) × (o ≡ some a) × (f a ≡ b)
map-eq-some none f h = cc
map-eq-some (some a) f h = (a, refl, ground arith)

module _ (env : Env) where
  -- A record that was just made is valid.
  new_from_er_record-IsValid :
      (r : ErRecord) (u : UpstreamRecord) → new_from_er_record env r ≡ some u → IsValid u
  unfolding new_from_er_record new_from_url
  new_from_er_record-IsValid r u h = record {
    dropped = λ q. ground arith;
    measured = λ q e. ground arith;
    small = ground arith;
    in_u64 = ground arith;
  }

  insert_upstream-Inv :
      (t : RoutingTable) (pubkey : Pubkey) (r : ErRecord) (upstream : UpstreamRecord)
      → TableInv t
      → IsValid upstream
      → TableInv (insert_upstream env t pubkey r upstream).0
  unfolding insert_upstream
  insert_upstream-Inv t pubkey r upstream inv v =
      let new = with_pings_of (lookup r.identity t.inner) upstream in
      record {
        valid = λ k u h. elim (Bool-cases (contains_key r.identity t.inner)) [
          | inl known ↦
              inv.valid k u (ground (arith, env.nodes.lookup-insert_sync r.identity k new t.inner))
          | inr absent ↦ elim (Bool-cases (r.identity == k)) [
            | inr other ↦
                inv.valid k u
                  (ground (arith, env.nodes.lookup-insert_sync r.identity k new t.inner))
            | inl mine ↦
                let same : new ≡ u =
                  ground (arith, env.nodes.lookup-insert_sync r.identity k new t.inner) in
                subst IsValid same (
                  with_pings_of-IsValid (lookup r.identity t.inner) upstream v
                    (inv.valid r.identity))
          ]
        ];
        ready = record { in_range = inv.ready.in_range };
      }

  remove_entry-Inv :
      (t : RoutingTable) (pda : Pubkey) → TableInv t → TableInv (remove_entry env t pda).0
  unfolding remove_entry
  remove_entry-Inv t pda inv = elim (Option-cases (lookup pda t.pda_to_identity)) [
    | inl unknown ↦ rw (unknown, remove_entry) inv
    | inr (identity, mapped) ↦ elim (Option-cases (lookup identity t.inner)) [
      | inl absent ↦
          rw (mapped, remove_entry, absent)
            (record { valid = inv.valid; ready = record { in_range = inv.ready.in_range } })
      | inr (v, present) ↦
          rw (mapped, remove_entry, present)
            (record {
              valid = λ k u h.
                  inv.valid k u (ground (arith, env.nodes.lookup-remove_sync identity k t.inner));
              ready = record { in_range = inv.ready.in_range };
            })
    ]
  ]

  -- An account that cannot be decoded.
  closed :
      (t : RoutingTable) (pubkey : Pubkey) (account : Account)
      → TableInv t
      → TableInv (if account.lamports == 0 then remove_entry env t pubkey else (t, [])).0
  closed t pubkey account inv = elim (Bool-cases (account.lamports == 0)) [
    | inl empty ↦ rw empty (remove_entry-Inv t pubkey inv)
    | inr open' ↦ rw open' inv
  ]

  insert_entry-Inv :
      (t : RoutingTable) (pubkey : Pubkey) (account : Account)
      → TableInv t
      → TableInv (insert_entry env t pubkey account).0
  unfolding insert_entry
  insert_entry-Inv t pubkey account inv = elim (Option-cases (env.deserialize account.bytes)) [
    | inl undecoded ↦ rw (undecoded, insert_entry) (closed t pubkey account inv)
    | inr (r, e) ↦ elim (Option-cases (new_from_er_record env r)) [
      | inl unreachable ↦ rw (e, insert_entry, unreachable) inv
      | inr (u, made) ↦
          rw (e, insert_entry, made)
            (insert_upstream-Inv t pubkey r u inv (new_from_er_record-IsValid r u made))
    ]
  ]

  modify-Inv :
      (t : RoutingTable) (k : Pubkey) (f : UpstreamRecord → UpstreamRecord)
      → TableInv t
      → ((u : UpstreamRecord) → IsValid u → IsValid (f u))
      → TableInv (record t { inner = modify k f t.inner })
  modify-Inv t k f inv keep = record {
    valid = λ j u h. elim (Bool-cases (k == j)) [
      | inr other ↦ inv.valid j u (ground (arith, lookup-modify k j f t.inner))
      | inl mine ↦ elim (Option-cases (lookup j t.inner)) [
        | inl absent ↦ ground (arith, lookup-modify k j f t.inner)
        | inr (v, present) ↦
            let same : f v ≡ u = ground (arith, lookup-modify k j f t.inner) in
            subst IsValid same (keep v (inv.valid j v present))
      ]
    ];
    ready = record { in_range = inv.ready.in_range };
  }

  -- A round does not panic, and keeps the invariant.
  abbrev Follows : Option Followed → Type 0
  Follows r =
      (t' : RoutingTable) × (sent : List WsUpstreamState) × (r ≡ some (t', sent)) × TableInv t'

  on_event-Inv : (t : RoutingTable) (e : TableEvent) → TableInv t → Follows (on_event env t e)
  unfolding on_event on_pong on_ping_failure
  on_event-Inv t (notification none account) inv = (t, [], refl, inv)
  on_event-Inv t (notification (some pubkey) none) inv = (t, [], refl, inv)
  on_event-Inv t (notification (some pubkey) (some account)) inv =
      (_, _, refl, insert_entry-Inv t pubkey account inv)
  on_event-Inv t (pong pubkey micros now) inv =
      (_, [], refl, modify-Inv t pubkey _ inv (λ u v. (ping-IsValid u micros now v).0))
  on_event-Inv t (ping_failed pubkey) inv =
      (_, [], refl, modify-Inv t pubkey register_ping_failure inv (λ u v. (ping-IsValid u 0 0 v).1))
  on_event-Inv t disconnected inv =
      let (u, e, step, ready) = base_chain-next t inv.ready in
      (
        record t { next = (t.next + 1) % length t.upstreams },
        [],
        rw (step, on_event) refl,
        record { valid = inv.valid; ready = ready },
      )

  on_events-keep :
      (t : RoutingTable) (es : List TableEvent)
      → TableInv t
      → (t' : RoutingTable) × (on_events env t es ≡ some t') × TableInv t'
  unfolding on_events Option.bind
  on_events-keep t [] inv = (t, refl, inv)
  on_events-keep t (e ∷ es) inv =
      let (t₁, sent, step, inv₁) = on_event-Inv t e inv in
      let (t₂, rest, inv₂) = on_events-keep t₁ es inv₁ in (t₂, rw (step, on_events) rest, inv₂)

  insert_all-Inv :
      (t : RoutingTable) (accounts : List (Pubkey × Account))
      → TableInv t
      → TableInv (insert_all env t accounts).0
  unfolding insert_all
  insert_all-Inv t [] inv = inv
  insert_all-Inv t ((pubkey, account) ∷ rest) inv =
      insert_all-Inv (insert_entry env t pubkey account).0 rest
        (insert_entry-Inv t pubkey account inv)

  new_table-Inv :
      (upstreams : List UpstreamRecord) (frequency : ℕ) (identity : Option Pubkey)
      (t : RoutingTable) (u : UpstreamRecord)
      → base_chain (new_table upstreams frequency identity) ≡ some (t, u)
      → TableInv t
  unfolding new_table lookup base_chain
  new_table-Inv upstreams frequency identity t u h =
      let ready : IsReady (new_table upstreams frequency identity) = record {
        in_range = ground arith;
      } in
      let (v, e, step, next_ready) =
        base_chain-next (new_table upstreams frequency identity) ready in
      let same : record (new_table upstreams frequency identity) { next = 1 % length upstreams }
          ≡ t =
        ground arith in
      subst TableInv same (record { valid = λ k w e. cc; ready = next_ready })

  check_static-same : (t t' : RoutingTable) → check_static t ≡ ok t' → t ≡ t'
  unfolding check_static
  check_static-same t t' h = ground arith

  fill_table-Inv :
      (t : RoutingTable) (answer : RouterResult (List (Pubkey × Account))) (r : RoutingTable)
      (sent : List WsUpstreamState)
      → TableInv t
      → fill_table env t answer ≡ ok (r, sent)
      → TableInv r
  unfolding fill_table
  fill_table-Inv t answer r sent inv h =
      let (accounts, read, rest) = >>=-eq-ok answer _ h in
      let (checked, check, last) = >>=-eq-ok (check_static (insert_all env t accounts).0) _ rest in
      let same : (insert_all env t accounts).0 ≡ r =
        ground (arith, check_static-same (insert_all env t accounts).0 checked check) in
      subst TableInv same (insert_all-Inv t accounts inv)

  pub new-Inv :
      (urls : List Url) (frequency : ℕ) (identity : Option Pubkey)
      (read : Client → RouterResult (List (Pubkey × Account))) (t : RoutingTable)
      (sent : List WsUpstreamState)
      → new env urls frequency identity read ≡ some (ok (t, sent))
      → TableInv t
  unfolding new
  new-Inv urls frequency identity read t sent h =
      let (us, connected, started) = bind-eq-some (connect_all env urls) _ h in
      let ((t', u), first, filled) =
        map-eq-some (base_chain (new_table us frequency identity)) _ started in
      fill_table-Inv t' (read u.client) t sent (new_table-Inv us frequency identity t' u first)
        (ground arith)

  -- A table that `new` returns, with its task after any registry notifications, pings and
  -- reconnections: the task panics if the frequency of the pings is zero, and else it has not
  -- panicked, no average is kept of a node after three failed pings in a row, an average is kept
  -- only of a node that has answered, and the next call of the base chain does not panic.
  pub updater-Inv :
      (urls : List Url) (frequency : ℕ) (identity : Option Pubkey)
      (read : Client → RouterResult (List (Pubkey × Account))) (t : RoutingTable)
      (sent : List WsUpstreamState) (es : List TableEvent)
      → new env urls frequency identity read ≡ some (ok (t, sent))
      → ((frequency ≡ 0) × (updater env t frequency es ≡ none))
        ⊎ ((frequency ≢ 0)
            × (t' : RoutingTable) × (updater env t frequency es ≡ some t')
            × TableInv t')
  unfolding updater Option.bind on_events
  updater-Inv urls frequency identity read t sent es h =
      let inv = new-Inv urls frequency identity read t sent h in
      let (u, e, step, ready) = base_chain-next t inv.ready in
      elim (Bool-cases (frequency == 0)) [
        | inl never ↦
            let zero_secs : frequency ≡ 0 = ground arith in
            inl (
              zero_secs,
              let stopped = env.interval-none in rw (step, updater, zero_secs, stopped) refl,
            )
        | inr positive ↦
            let some_secs : frequency ≢ 0 = ground arith in
            let started = env.interval-some frequency some_secs in
            let (t', follows, inv') =
              on_events-keep (record t { next = (t.next + 1) % length t.upstreams }) es
                (record { valid = inv.valid; ready = ready }) in
            inr (some_secs, t', rw (step, updater, started) follows, inv')
      ]
