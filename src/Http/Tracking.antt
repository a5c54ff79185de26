-- ===== src/Http/Tracking.antt =====
-- Requests about a transaction that the router has sent (`transaction`, `signature_statuses` and
-- `send_transaction` in src/server/http.rs).
use magic_router.Prelude.{◌≡◌, subst, ap, ◌∙◌, none, some, List, ◌∷◌, arith}
use magic_router.Types.{Signature}
use magic_router.Error.{RouterResult, ok, ◌>>=◌}
use magic_router.Routes.{RemoteHandle}
use magic_router.Routes.RoundRobin.{IsReady}
use magic_router.Transactions.{get}
use magic_router.Http.{
  HttpServer, Authorities, Transaction, Upstreams, send_transaction, transaction,
  signature_statuses,
}
use magic_router.Http.Sending.{
  Outcome, conflicting, unknown, rejected, sent, send_transaction-Outcome,
}

-- The node that took a transaction, and what it is asked about it later.
pub record Tracked (up : Upstreams) (s : HttpServer) (txn : Transaction) (signature : Signature)
    : Type 0 where
  pub handle : RemoteHandle
  pub taken : up.send_transaction handle.rpc txn ≡ ok signature
  pub asked :
      transaction up s (ok txn.signature)
      ≡ (do t ← up.get_transaction handle.rpc txn.signature; ok (some t))
  pub statuses :
      (rest : List Signature)
      → signature_statuses up s (ok (txn.signature ∷ rest))
        ≡ up.get_signature_statuses handle.rpc (txn.signature ∷ rest)

tracked :
    (up : Upstreams) (s' : HttpServer) (txn : Transaction) (handle : RemoteHandle)
    (signature : Signature)
    → up.send_transaction handle.rpc txn ≡ ok signature
    → get s'.transactions txn.signature ≡ some handle
    → Tracked up s' txn signature
unfolding transaction signature_statuses
tracked up s' txn handle signature a g = record {
  handle = handle;
  taken = a;
  asked = rw (g, transaction);
  statuses = λ rest. rw (g, signature_statuses);
}

module _ (up : Upstreams) (s : HttpServer) (authority : Authorities) (txn : Transaction)
    (new : get s.transactions txn.signature ≡ none) where
  Outcome-Tracked :
      {s' : HttpServer} {r : RouterResult Signature} (signature : Signature)
      → Outcome up s authority txn s' r
      → r ≡ ok signature
      → Tracked up s' txn signature
  Outcome-Tracked signature (conflicting e f same h) q = cc
  Outcome-Tracked signature (unknown v f g same h) q = cc
  Outcome-Tracked signature (rejected d handle e f h a b c g) q = cc
  Outcome-Tracked {s'} signature (sent d handle sig f h a g b e) q =
      let kept : get s'.transactions txn.signature ≡ some handle = g ∙ rw new in
      let same : sig ≡ signature = ground arith in
      tracked up s' txn handle signature (a ∙ ap (λ (x : Signature). RouterResult.ok x) same) kept

  -- With a base chain to use, and a transaction that was not tracked and that a node takes: what is
  -- asked about it afterwards, by `getTransaction` or first in a list of signatures, is asked of
  -- that node.
  pub send_transaction-Tracked :
      (s' : HttpServer) (signature : Signature)
      → IsReady s.routes
      → send_transaction up s authority (ok txn) ≡ some (s', ok signature)
      → Tracked up s' txn signature
  send_transaction-Tracked s' signature ready done =
      let (s'', r, step, outcome) = send_transaction-Outcome up s authority txn ready in
      let left : s'' ≡ s' = ground arith in
      let reply : r ≡ ok signature = ground arith in
      subst (λ (x : HttpServer). Tracked up x txn signature) left
        (Outcome-Tracked signature outcome reply)
