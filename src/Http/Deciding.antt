-- ===== src/Http/Deciding.antt =====
-- Why a transaction goes to its node: the records that `get_record` of
-- src/cache/delegations.rs returns while `send_transaction` of src/server/http.rs looks its
-- accounts up.
use mathlib.Core.List.{Memᴰ}
use magic_router.Prelude.{
  ℕ, ◌+◌, ◌≡◌, refl, sym, ap, subst, ◌∙◌, inl, inr, Option, none, some, List, [], ◌∷◌, get_elem?,
  arith,
}
use magic_router.Types.{Pubkey, Signature, ParsedDelegationRecord, PubkeyBytes}
use magic_router.Error.{RouterResult, ok}
use magic_router.Routes.{UpstreamRecord, RemoteHandle, ephemeral_handle}
use magic_router.Routes.RoundRobin.{IsReady}
use magic_router.Delegations.Reader.{System, Reach, returned}
use magic_router.Delegations.Reader.Provenance.{Sources, returned-Sources}
use magic_router.Http.{
  HttpServer, Authorities, Transaction, Upstreams, find_writable, send_transaction,
}
use magic_router.Http.Conflicts.{
  statuses, Occurs, Found, undelegated, agreed, conflict, writable_keys, find_delegated-none,
  find_writable-eq,
}
use magic_router.Http.Sending.{
  IsHandleFor, delegated_to, on_chain, Outcome, conflicting, unknown, rejected, sent,
  send_transaction-Outcome,
}

Occurs-Memᴰ :
    (authority : Authorities) (v : Pubkey) (n : ℕ) (pks : List Pubkey)
    → Occurs v (statuses authority n pks)
    → (i : ℕ) × (pk : Pubkey) × Memᴰ pk pks × (authority i pk ≡ some v)
unfolding statuses
Occurs-Memᴰ authority v n [] o = elim o [ ]
Occurs-Memᴰ authority v n (pk ∷ pks) (inl here) = (n, pk, Memᴰ.head refl, here)
Occurs-Memᴰ authority v n (pk ∷ pks) (inr later) =
    let (i, pk', m, e) = Occurs-Memᴰ authority v (n + 1) pks later in (i, pk', Memᴰ.tail m, e)

delegated_account :
    (authority : Authorities) (v : Pubkey) (pks : List Pubkey) {r : RouterResult (Option Pubkey)}
    → Found none (statuses authority 0 pks) r
    → r ≡ ok (some v)
    → (i : ℕ) × (pk : Pubkey) × Memᴰ pk pks × (authority i pk ≡ some v)
delegated_account authority v pks (undelegated e o a) h = absurd (ground arith)
delegated_account authority v pks (conflict w x e ne o m) h = absurd (ground arith)
delegated_account authority v pks (agreed w e (inl o) a) h = absurd (ground arith)
delegated_account authority v pks (agreed w e (inr (o, m)) a) h =
    let same : w ≡ v = ground arith in
    Occurs-Memᴰ authority v 0 pks (subst (λ x. Occurs x (statuses authority 0 pks)) same m)

-- The cache's answers are those of requests for the accounts' records, which have returned.
abbrev pub Answered : (key : ℕ → Pubkey) → System → (pda : Pubkey → Pubkey) → Authorities → Type 0
Answered key s pda authority =
    (n : ℕ) (pk v : Pubkey)
    → authority n pk ≡ some v
    → (i : ℕ) × (r : ParsedDelegationRecord) × (key i ≡ pda pk)
      × (s.pc i ≡ returned (some r))
      × (r.authority ≡ v)

-- The node to which a transaction was sent: the base chain's next one, or one that the delegation
-- record of an account that the transaction writes names as its authority.
pub data Decided (keys : PubkeyBytes) {key : ℕ → Pubkey} {s : System} (reach : Reach keys key s)
    (pda : Pubkey → Pubkey) (server : HttpServer) (txn : Transaction) (handle : RemoteHandle)
    : Type 0 where
  chosen :
      (pk : Pubkey) (r : ParsedDelegationRecord)
      → Memᴰ pk (writable_keys txn.static_account_keys)
      → Sources keys reach (pda pk) r
      → ephemeral_handle server.routes r.authority ≡ some handle
      → Decided keys reach pda server txn handle
  by_default :
      (u : UpstreamRecord)
      → get_elem? server.routes.upstreams server.routes.next ≡ some u
      → handle ≡ record { rpc = u.client; ws = u.ws_url }
      → Decided keys reach pda server txn handle

module _ (keys : PubkeyBytes) {key : ℕ → Pubkey} {s : System} (reach : Reach keys key s)
    (pda : Pubkey → Pubkey) (up : Upstreams) (server : HttpServer) (authority : Authorities)
    (txn : Transaction) (answered : Answered key s pda authority) where
  handle-Decided :
      (d : Option Pubkey) (handle : RemoteHandle)
      → find_writable authority 0 none txn.static_account_keys ≡ ok d
      → IsHandleFor server.routes d handle
      → Decided keys reach pda server txn handle
  handle-Decided d handle found (on_chain u e next same) = by_default u next same
  handle-Decided d handle found (delegated_to v e known) =
      let searched =
        sym (find_writable-eq authority txn.static_account_keys 0 none) ∙ found ∙ ap ok e in
      let (n, pk, m, named) =
        delegated_account authority v (writable_keys txn.static_account_keys)
          (find_delegated-none authority (writable_keys txn.static_account_keys)) searched in
      let (i, r, for_it, has_returned, same) = answered n pk v named in
      chosen pk r m
        (subst (λ k. Sources keys reach k r) for_it (returned-Sources keys reach i r has_returned))
        (rw same known)

  sent-Decided :
      (s' : HttpServer) (r : RouterResult Signature) (signature : Signature)
      → Outcome up server authority txn s' r
      → r ≡ ok signature
      → (handle : RemoteHandle) × (up.send_transaction handle.rpc txn ≡ ok signature)
        × Decided keys reach pda server txn handle
  sent-Decided s' r signature (conflicting e f h q) o = absurd (ground arith)
  sent-Decided s' r signature (unknown v f k h q) o = absurd (ground arith)
  sent-Decided s' r signature (rejected d handle e f k b h g q) o = absurd (ground arith)
  sent-Decided s' r signature (sent d handle signature' f k took h g q) o =
      let same : signature' ≡ signature = ground arith in
      (handle, took ∙ ap ok same, handle-Decided d handle f k)

  -- A transaction that is sent, while the cache is asked for the records of its accounts beside any
  -- other requests, cancellations and updates, has gone to the base chain, or to the node that is
  -- the authority of a record of an account that the transaction writes; and that record came
  -- from the base chain or the stream, for that account.
  pub send_transaction-Decided :
      (s' : HttpServer) (signature : Signature)
      → IsReady server.routes
      → send_transaction up server authority (ok txn) ≡ some (s', ok signature)
      → (handle : RemoteHandle) × (up.send_transaction handle.rpc txn ≡ ok signature)
        × Decided keys reach pda server txn handle
  send_transaction-Decided s' signature ready e =
      let (s'', r, e', outcome) = send_transaction-Outcome up server authority txn ready in
      let same : r ≡ ok signature = ground arith in sent-Decided s'' r signature outcome same
