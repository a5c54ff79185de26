-- ===== src/Websocket/Forwarding.antt =====
-- What a client of an account subscription gets (`AccountSubscriptionHandler::run` in
-- src/server/websocket.rs).
use mathlib.Core.Option
use magic_router.Prelude.{
  ℕ, ◌≡◌, refl, ◌⊎◌, inl, inr, Bool, true, false, not, Option, none, some, List, [], ◌∷◌, ◌++◌,
  ◌==◌, if◌then◌else◌, Bool-cases, Option-cases,
}
use magic_router.Prelude.Dict.{lookup, erase}
use magic_router.Types.{Pubkey, RequestId}
use magic_router.Routes.{RoutingTable, PubSubUpstreamKind, chain, ephem, ephemeral_handle}
use magic_router.Routes.RoundRobin.{IsReady, base_chain-next}
use magic_router.Pubsub.{subscribed, notification, disconnected}
use magic_router.Websocket.{
  AccountSubscriptionHandler, World, Acted, nothing, subscribe_to_node, unsubscribe_from_node,
  change_upstream, handle_delegation_status_change, on_notification, destination_for, resubscribe,
  on_disconnected, ClientEvent, closed, received, on_client_event, before, run,
}

-- The notifications that a client should get, without a word of delegations, nodes and handles:
-- each that arrives, in that order, until it is gone.
unfoldable pub forwarded : List ClientEvent → List ℕ
forwarded [] = []
forwarded (closed ∷ es) = []
forwarded (received (subscribed handle) authority serialized delivered ∷ es) = forwarded es
forwarded (received (disconnected id) authority serialized delivered ∷ es) = forwarded es
forwarded (received (notification id upstream payload) authority serialized delivered ∷ es) =
    let rest = forwarded es in
    if not serialized then rest else if delivered then payload ∷ rest else []

-- A round that sends nothing to the client by itself, and keeps the routes usable.
pub record IsQuiet (a : Acted) : Type 0 where
  pub silent : a.client ≡ []
  pub goes_on : a.goes_on ≡ true
  pub ready : IsReady a.world.routes

module _ (h : AccountSubscriptionHandler) (w : World) (ready : IsReady w.routes) where
  subscribe_to_node-IsQuiet : (identity : Pubkey) → IsQuiet (subscribe_to_node h w identity)
  unfolding subscribe_to_node
  subscribe_to_node-IsQuiet identity = elim (Option-cases (ephemeral_handle w.routes identity)) [
    | inl unknown ↦
        rw (unknown, subscribe_to_node) (record { silent = refl; goes_on = refl; ready = ready })
    | inr (node, known) ↦
        rw (known, subscribe_to_node) (record { silent = refl; goes_on = refl; ready = ready })
  ]

  unsubscribe_from_node-IsQuiet : (id : RequestId) → IsQuiet (unsubscribe_from_node h w id)
  unfolding unsubscribe_from_node
  unsubscribe_from_node-IsQuiet id = elim (Option-cases (lookup id h.handles)) [
    | inl unknown ↦
        rw (unknown, unsubscribe_from_node)
          (record { silent = refl; goes_on = refl; ready = ready })
    | inr (handle, known) ↦
        rw (known, unsubscribe_from_node) (record { silent = refl; goes_on = refl; ready = ready })
  ]

  change_upstream-IsQuiet :
      (authority : Option Pubkey) (id : RequestId) (upstream : PubSubUpstreamKind)
      → IsQuiet (change_upstream h w authority id upstream)
  unfolding change_upstream
  change_upstream-IsQuiet none id chain = record { silent = refl; goes_on = refl; ready = ready }
  change_upstream-IsQuiet (some identity) id chain = subscribe_to_node-IsQuiet identity
  change_upstream-IsQuiet none id ephem = unsubscribe_from_node-IsQuiet id
  change_upstream-IsQuiet (some identity) id ephem = unsubscribe_from_node-IsQuiet id

  handle_delegation_status_change-IsQuiet :
      (owner authority : Option Pubkey) (id : RequestId) (upstream : PubSubUpstreamKind)
      → IsQuiet (handle_delegation_status_change h w owner authority id upstream)
  unfolding handle_delegation_status_change
  handle_delegation_status_change-IsQuiet none authority id upstream = record {
    silent = refl;
    goes_on = refl;
    ready = ready;
  }
  handle_delegation_status_change-IsQuiet (some owner) authority id upstream =
      elim (Bool-cases (not (owner == 0))) [
        | inl other ↦
            rw (other, handle_delegation_status_change)
              (record { silent = refl; goes_on = refl; ready = ready })
        | inr program ↦
            rw (program, handle_delegation_status_change)
              (change_upstream-IsQuiet authority id upstream)
      ]

  destination_for-IsReady :
      (authority : Option Pubkey)
      → (t : RoutingTable) × (url : Option ℕ) × (destination_for w.routes authority ≡ some (t, url))
        × IsReady t
  unfolding destination_for
  destination_for-IsReady none =
      let (u, e, step, next_ready) = base_chain-next w.routes ready in
      (_, some u.ws_url, rw step, next_ready)
  destination_for-IsReady (some validator) = (
    w.routes,
    Option.map (λ handle. handle.ws) (ephemeral_handle w.routes validator),
    refl,
    ready,
  )

  -- What a disconnection leads to, once the handle and the destination are known.
  on_disconnected-IsQuiet :
      (authority : Option Pubkey) (id : RequestId)
      → (a : Acted) × (on_disconnected h w authority id ≡ some a) × IsQuiet a
  unfolding on_disconnected resubscribe
  on_disconnected-IsQuiet authority id = elim (Option-cases (lookup id h.handles)) [
    | inl unknown ↦ (
      nothing h w,
      rw (unknown, on_disconnected),
      record { silent = refl; goes_on = refl; ready = ready },
    )
    | inr (handle, known) ↦
        let (t, url, e, r) = destination_for-IsReady authority in
        elim url
            as (λ u.
              destination_for w.routes authority ≡ some (t, u)
              → (a : Acted) × (on_disconnected h w authority id ≡ some a) × IsQuiet a) [
                | none ↦ λ e. (
                  nothing (record h { handles = erase id h.handles }) (record w { routes = t }),
                  rw (known, on_disconnected, e),
                  record { silent = refl; goes_on = refl; ready = r },
                )
                | some url ↦ λ e. (
                  resubscribe (record h { handles = erase id h.handles }) (record w { routes = t })
                      handle url,
                  rw (known, on_disconnected, e),
                  record { silent = refl; goes_on = refl; ready = r },
                )
              ]
          e
  ]

-- A round, against the specification of the run: `rest` is what later events should give.
abbrev Answers : List ℕ → List ℕ → Acted → Type 0
Answers expected rest a =
    ((a.goes_on ≡ true) × (expected ≡ a.client ++ rest))
    ⊎ ((a.goes_on ≡ false) × (expected ≡ a.client))

module _ (owner_of : ℕ → Option Pubkey) where
  on_notification-Answers :
      (a : Acted) (payload : ℕ) (serialized delivered : Bool) (rest : List ℕ)
      → IsQuiet a
      → Answers
          (if not serialized then rest else if delivered then payload ∷ rest else [])
          rest
          (on_notification a payload serialized delivered)
        × IsReady (on_notification a payload serialized delivered).world.routes
  unfolding on_notification
  on_notification-Answers a payload false delivered rest q = (inl (q.goes_on, rw q.silent), q.ready)
  on_notification-Answers a payload true true rest q = (inl (q.goes_on, refl), q.ready)
  on_notification-Answers a payload true false rest q = (inr (refl, rw q.silent), q.ready)

  on_client_event-Answers :
      (h : AccountSubscriptionHandler) (w : World) (e : ClientEvent) (es : List ClientEvent)
      → IsReady w.routes
      → (a : Acted) × (on_client_event owner_of h w e ≡ some a)
        × Answers (forwarded (e ∷ es)) (forwarded es) a
        × IsReady a.world.routes
  unfolding on_client_event forwarded
  on_client_event-Answers h w closed es ready = (_, refl, inr (refl, refl), ready)
  on_client_event-Answers h w (received (subscribed handle) authority serialized delivered) es
        ready =
      (_, refl, inl (refl, refl), ready)
  on_client_event-Answers h w
        (received (notification id upstream payload) authority serialized delivered) es ready =
      let quiet =
        handle_delegation_status_change-IsQuiet h w ready (owner_of payload) authority id
          upstream in
      let (answers, next_ready) =
        on_notification-Answers _ payload serialized delivered (forwarded es) quiet in
      (_, refl, answers, next_ready)
  on_client_event-Answers h w (received (disconnected id) authority serialized delivered) es ready =
      let (a, e, quiet) = on_disconnected-IsQuiet h w ready authority id in
      (a, e, inl (quiet.goes_on, rw quiet.silent), quiet.ready)

  -- With a base chain to use, a handler never panics, and whatever its account is delegated to,
  -- and whichever connections are lost, its client gets exactly the notifications that arrive and
  -- that a message can be made of, each once and in that order, until it is gone.
  pub run-forwarded :
      (es : List ClientEvent) (h : AccountSubscriptionHandler) (w : World)
      → IsReady w.routes
      → (a : Acted) × (run owner_of h w es ≡ some a) × (a.client ≡ forwarded es)
  unfolding run
  run-forwarded [] h w ready = (nothing h w, refl, unfold forwarded in refl)
  run-forwarded (e ∷ es) h w ready =
      let (a, step, answers, next_ready) = on_client_event-Answers h w e es ready in
      elim answers [
        | inl (on, same) ↦
            let (b, rest, got) = run-forwarded es a.handler a.world next_ready in
            (before a b, rw (step, run, on, rest), rw (same, got))
        | inr (off, same) ↦ (a, rw (step, run, off), rw same)
      ]
