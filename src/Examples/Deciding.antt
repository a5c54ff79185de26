-- ===== src/Examples/Deciding.antt =====
-- A transaction whose account was looked up in the cache (src/server/http.rs and
-- src/cache/delegations.rs): the record of account 1 is at key 9, and its authority is node 7.
use magic_router.Prelude.{
  ◌+◌, ◌≡◌, refl, inl, inr, true, false, none, some, [], ◌∷◌, ◌==◌, if◌then◌else◌, Bool-cases,
  arith,
}
use magic_router.Prelude.Dict.{lookup}
use magic_router.Types.{Pubkey}
use magic_router.Types.Bytes.{le_keys}
use magic_router.Error.{ok}
use magic_router.Routes.{RemoteHandle, ephemeral_handle}
use magic_router.Transactions.{track}
use magic_router.Http.{
  Authorities, Transaction, find_writable, replace_delegated, handle_for, forward, send_transaction,
}
use magic_router.Http.Deciding.{Answered, Decided, send_transaction-Decided}
use magic_router.Examples.Table.{table-IsReady}
use magic_router.Examples.Data.{some_record}
use magic_router.Examples.Handlers.{upstreams, server}
use magic_router.Examples.Requests.{nine, answered, r_answered, has_returned}

abbrev record_key : Pubkey → Pubkey
record_key pk = pk + 8

abbrev by_record : Authorities
by_record n pk = if pk == 1 then some 7 else none

abbrev payment : Transaction
payment = record { static_account_keys = (1, true) ∷ (3, false) ∷ []; signature = 555 }

looked_up : Answered nine answered record_key by_record
looked_up n pk v e = elim (Bool-cases (pk == 1)) [
  | inl delegated ↦ (1, some_record, ground arith, has_returned, ground arith)
  | inr other ↦ absurd (ground arith)
]

abbrev handle_7 : RemoteHandle
handle_7 = record { rpc = 42; ws = 1042 }

goes :
    send_transaction upstreams server by_record (ok payment)
    ≡ some (
      record server { transactions = track upstreams.handles server.transactions 555 handle_7 },
      ok 555,
    )
unfolding send_transaction find_writable replace_delegated handle_for forward ephemeral_handle
    lookup track
goes = refl

send_transaction-Decided_example :
    (handle : RemoteHandle) × (upstreams.send_transaction handle.rpc payment ≡ ok 555)
    × Decided le_keys r_answered record_key server payment handle
send_transaction-Decided_example =
    send_transaction-Decided le_keys r_answered record_key upstreams server by_record payment
      looked_up
      (record server { transactions = track upstreams.handles server.transactions 555 handle_7 })
      555 table-IsReady goes
