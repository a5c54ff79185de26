-- ===== src/Http/Sending.antt =====
-- `send_transaction` in src/server/http.rs, on every branch.
use mathlib.Core.Option
use magic_router.Prelude.{
  ◌≡◌, refl, inl, inr, Option, none, some, Option-cases, get_elem?, length, ◌+◌, ◌%◌,
}
use magic_router.Types.{Pubkey, Signature}
use magic_router.Error.{RouterResult, RouterError, ok, err, unknown_er_node}
use magic_router.Routes.{UpstreamRecord, RemoteHandle, RoutingTable, ephemeral_handle}
use magic_router.Routes.RoundRobin.{IsReady, base_chain-next}
use magic_router.Transactions.{track, get}
use magic_router.Http.{
  HttpServer, Authorities, Transaction, Upstreams, find_writable, handle_for, forward,
  send_transaction,
}

-- The node that a table names for a delegation: the delegated node, or the base chain's next one.
pub data IsHandleFor (t : RoutingTable) (delegation : Option Pubkey) (handle : RemoteHandle)
    : Type 0 where
  delegated_to :
      (v : Pubkey)
      → delegation ≡ some v
      → ephemeral_handle t v ≡ some handle
      → IsHandleFor t delegation handle
  on_chain :
      (u : UpstreamRecord)
      → delegation ≡ none
      → get_elem? t.upstreams t.next ≡ some u
      → handle ≡ record { rpc = u.client; ws = u.ws_url }
      → IsHandleFor t delegation handle

-- What became of a transaction: the server that is left, and the reply.
pub data Outcome (up : Upstreams) (s : HttpServer) (authority : Authorities) (txn : Transaction)
    (s' : HttpServer) (r : RouterResult Signature) : Type 0 where
  -- The accounts that it writes are delegated to different nodes.
  conflicting :
      (e : RouterError)
      → find_writable authority 0 none txn.static_account_keys ≡ err e
      → s' ≡ s
      → r ≡ err e
      → Outcome up s authority txn s' r
  -- They are delegated to a node that the table does not know.
  unknown :
      (v : Pubkey)
      → find_writable authority 0 none txn.static_account_keys ≡ ok (some v)
      → ephemeral_handle s.routes v ≡ none
      → s' ≡ s
      → r ≡ err (unknown_er_node v)
      → Outcome up s authority txn s' r
  -- The node refuses it: nothing is tracked.
  rejected :
      (d : Option Pubkey) (handle : RemoteHandle) (e : RouterError)
      → find_writable authority 0 none txn.static_account_keys ≡ ok d
      → IsHandleFor s.routes d handle
      → up.send_transaction handle.rpc txn ≡ err e
      → s'.transactions ≡ s.transactions
      → s'.blockhashes ≡ s.blockhashes
      → r ≡ err e
      → Outcome up s authority txn s' r
  -- The node takes it, and later requests about its signature are sent to that node, unless the
  -- signature was tracked before.
  sent :
      (d : Option Pubkey) (handle : RemoteHandle) (signature : Signature)
      → find_writable authority 0 none txn.static_account_keys ≡ ok d
      → IsHandleFor s.routes d handle
      → up.send_transaction handle.rpc txn ≡ ok signature
      → get s'.transactions txn.signature
        ≡ Option.get_or (Option.map some (get s.transactions txn.signature)) (some handle)
      → s'.blockhashes ≡ s.blockhashes
      → r ≡ ok signature
      → Outcome up s authority txn s' r

module _ (up : Upstreams) (s : HttpServer) (authority : Authorities) (txn : Transaction) where
  track-get :
      (handle : RemoteHandle)
      → get (track up.handles s.transactions txn.signature handle) txn.signature
        ≡ Option.get_or (Option.map some (get s.transactions txn.signature)) (some handle)
  unfolding get track
  track-get handle = elim (Option-cases (s.transactions txn.signature)) [
    | inl new ↦ rw new (up.handles.put_absent txn.signature handle s.transactions new)
    | inr (old, there) ↦
        rw there (up.handles.put_present txn.signature handle old s.transactions there)
  ]

  -- The end of the handler, for a handle.
  forward-Outcome :
      (d : Option Pubkey) (handle : RemoteHandle) (t : RoutingTable) (a : RouterResult Signature)
      → find_writable authority 0 none txn.static_account_keys ≡ ok d
      → IsHandleFor s.routes d handle
      → up.send_transaction handle.rpc txn ≡ a
      → Outcome up s authority txn
          (forward up (record s { routes = t }) txn handle).0
          (forward up (record s { routes = t }) txn handle).1
  unfolding forward
  forward-Outcome d handle t (err e) found h a =
      rw (a, forward) (rejected d handle e found h a refl refl refl)
  forward-Outcome d handle t (ok signature) found h a =
      rw (a, forward) (sent d handle signature found h a (track-get handle) refl refl)

  -- The reply, once the node is known.
  at_handle :
      (d : Option Pubkey) (handle : RemoteHandle) (t : RoutingTable)
      → find_writable authority 0 none txn.static_account_keys ≡ ok d
      → IsHandleFor s.routes d handle
      → handle_for s.routes d ≡ some (t, ok handle)
      → (s' : HttpServer) × (r : RouterResult Signature) × (send_transaction up s authority (ok txn)
          ≡ some (s', r))
        × Outcome up s authority txn s' r
  unfolding send_transaction
  at_handle d handle t found h e = (
    (forward up (record s { routes = t }) txn handle).0,
    (forward up (record s { routes = t }) txn handle).1,
    rw (found, send_transaction, e),
    forward-Outcome d handle t (up.send_transaction handle.rpc txn) found h refl,
  )

  handle_for-chain :
      IsReady s.routes
      → (handle : RemoteHandle) × (t : RoutingTable) × IsHandleFor s.routes none handle
        × (handle_for s.routes none ≡ some (t, ok handle))
  unfolding handle_for
  handle_for-chain ready =
      let (u, there, step, _) = base_chain-next s.routes ready in
      (
        record { rpc = u.client; ws = u.ws_url },
        record s.routes { next = (s.routes.next + 1) % length s.routes.upstreams },
        on_chain u refl there refl,
        rw step,
      )

  at_node :
      (v : Pubkey) (handle : Option RemoteHandle)
      → find_writable authority 0 none txn.static_account_keys ≡ ok (some v)
      → ephemeral_handle s.routes v ≡ handle
      → (s' : HttpServer) × (r : RouterResult Signature) × (send_transaction up s authority (ok txn)
          ≡ some (s', r))
        × Outcome up s authority txn s' r
  unfolding handle_for send_transaction
  at_node v none found h =
      (s, err (unknown_er_node v), rw (found, send_transaction, h), unknown v found h refl refl)
  at_node v (some handle) found h =
      at_handle (some v) handle s.routes found (delegated_to v refl h) (rw h)

  by_search :
      IsReady s.routes
      → (f : RouterResult (Option Pubkey))
      → find_writable authority 0 none txn.static_account_keys ≡ f
      → (s' : HttpServer) × (r : RouterResult Signature) × (send_transaction up s authority (ok txn)
          ≡ some (s', r))
        × Outcome up s authority txn s' r
  unfolding send_transaction
  by_search ready (err e) f = (s, err e, rw (f, send_transaction), conflicting e f refl refl)
  by_search ready (ok none) f =
      let (handle, t, h, e) = handle_for-chain ready in at_handle none handle t f h e
  by_search ready (ok (some v)) f = at_node v (ephemeral_handle s.routes v) f refl

  -- With a base chain to use, a transaction that could be decoded always gets a reply, by one of
  -- the four cases of `Outcome`.
  pub send_transaction-Outcome :
      IsReady s.routes
      → (s' : HttpServer) × (r : RouterResult Signature) × (send_transaction up s authority (ok txn)
          ≡ some (s', r))
        × Outcome up s authority txn s' r
  send_transaction-Outcome ready =
      by_search ready (find_writable authority 0 none txn.static_account_keys) refl
