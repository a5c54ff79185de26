-- ===== src/Http.antt =====
-- src/server/http.rs: the handlers of the JSON-RPC requests. The upstreams' answers, the decoding
-- of requests and the cache of delegations are parameters.
pub mod Accounts
pub mod Conflicts
pub mod Sending
pub mod Hashes
pub mod Deciding
pub mod Tracking
use mathlib.Core.Option
use magic_router.Prelude.{
  ℕ, suc, ◌+◌, ◌%◌, ◌≡◌, Bool, true, false, not, Option, none, some, List, [], ◌∷◌, ◌==◌,
  if◌then◌else◌, is_some,
}
use magic_router.Prelude.Dict.{Dict, lookup, insert}
use magic_router.Types.{
  u64_mod, Pubkey, Url, Client, Signature, ParsedDelegationRecord, DelegationStatus,
}
use magic_router.Error.{
  RouterError, RouterResult, ok, err, ok_or, ◌>>=◌, unknown_er_node, conflicting_delegations,
}
use magic_router.Routes.{
  RemoteHandle, RoutingTable, ephemeral_client, ephemeral_handle, base_chain, closest_node,
}
use magic_router.Transactions.{ScCache, ForwardedTransactions, track, get}

pub record HttpServer : Type 0 where
  pub routes : RoutingTable
  pub transactions : ForwardedTransactions
  pub blockhashes : ℕ → Option Client

-- The answer of `get_delegation_authority`, by the number of lookups that the call has made
-- before: the cache may change between two of them.
abbrev pub Authorities : Type 0
Authorities = ℕ → Pubkey → Option Pubkey

-- A transaction, as far as the router reads it: its keys with whether each may be written, and its
-- signature.
pub record Transaction : Type 0 where
  pub static_account_keys : List (Pubkey × Bool)
  pub signature : Signature

-- What upstream nodes answer. `latest_blockhash` gives a hash with the last block height at which
-- it is valid; an `err` is what the client library reports.
pub record Upstreams : Type 0 where
  pub url : Client → Url
  pub latest_blockhash : Client → RouterResult (ℕ × ℕ)
  pub is_blockhash_valid : Client → ℕ → RouterResult Bool
  pub send_transaction : Client → Transaction → RouterResult Signature
  pub get_transaction : Client → Signature → RouterResult ℕ
  pub get_signature_statuses : Client → List Signature → RouterResult (ℕ × List (Option ℕ))
  pub clients : ScCache Client
  pub handles : ScCache RemoteHandle

-- What a handler leaves and returns; `none` is a panic.
abbrev pub Handled : Type 0 → Type 0
Handled A = Option (HttpServer × RouterResult A)

pub record RpcBlockhash : Type 0 where
  pub blockhash : ℕ
  pub last_valid_block_height : ℕ

-- The client for an account: its node's if it is delegated, the base chain's if not.
unfoldable pub client_for :
    RoutingTable → Option Pubkey → Option (RoutingTable × RouterResult Client)
client_for t (some identity) =
    some (t, ok_or (ephemeral_client t identity) (unknown_er_node identity))
client_for t none = Option.map (λ (t', u). (t', ok u.client)) (base_chain t)

unfoldable pub resolve_client :
    RoutingTable → Authorities → Pubkey → Option (RoutingTable × RouterResult Client)
resolve_client t authority pubkey = client_for t (authority 0 pubkey)

-- One round of the search for the one node that a request is for.
unfoldable pub replace_delegated : Option Pubkey → Pubkey → RouterResult (Option Pubkey)
replace_delegated none validator = ok (some validator)
replace_delegated (some old) validator =
    if not (old == validator) then err conflicting_delegations else ok (some validator)

-- The loop of `blockhash_for_accounts`, after `n` lookups.
unfoldable pub find_delegated :
    Authorities → ℕ → Option Pubkey → List Pubkey → RouterResult (Option Pubkey)
find_delegated authority n delegated [] = ok delegated
find_delegated authority n delegated (pk ∷ pks) = elim (authority n pk) [
  | none ↦ find_delegated authority (n + 1) delegated pks
  | some validator ↦ do
    delegated' ← replace_delegated delegated validator
    find_delegated authority (n + 1) delegated' pks
]

-- The loop of `send_transaction`, which passes over the accounts that are only read.
unfoldable pub find_writable :
    Authorities → ℕ → Option Pubkey → List (Pubkey × Bool) → RouterResult (Option Pubkey)
find_writable authority n delegated [] = ok delegated
find_writable authority n delegated ((pk, writable) ∷ keys) = elim writable [
  | false ↦ find_writable authority n delegated keys
  | true ↦ elim (authority n pk) [
    | none ↦ find_writable authority (n + 1) delegated keys
    | some validator ↦ do
      delegated' ← replace_delegated delegated validator
      find_writable authority (n + 1) delegated' keys
  ]
]

-- A blockhash from a client, which is remembered as the one that answers for the hash.
unfoldable pub blockhash_from : Upstreams → HttpServer → Client → HttpServer × RouterResult (ℕ × ℕ)
blockhash_from up s client = elim (up.latest_blockhash client) [
  | err e ↦ (s, err e)
  | ok (hash, height) ↦
      (record s { blockhashes = up.clients.put hash client s.blockhashes }, ok (hash, height))
]

unfoldable pub blockhash_for_accounts :
    Upstreams → HttpServer → Authorities → List Pubkey → Handled RpcBlockhash
blockhash_for_accounts up s authority accounts = elim (find_delegated authority 0 none accounts) [
  | err e ↦ some (s, err e)
  | ok delegated ↦ elim (client_for s.routes delegated) [
    | none ↦ none
    | some (t, err e) ↦ some (record s { routes = t }, err e)
    | some (t, ok client) ↦
        let (s', answer) = blockhash_from up (record s { routes = t }) client in
        some (
          s',
          do
            (hash, height) ← answer
            ok (record { blockhash = hash; last_valid_block_height = height }),
        )
  ]
]

-- The response of `latest_blockhash` has the same number as its context's slot. The addition wraps
-- around, as in a release build.
unfoldable pub latest_blockhash : Upstreams → HttpServer → (now : ℕ) → Handled (RpcBlockhash × ℕ)
latest_blockhash up s now = elim (closest_node s.routes now) [
  | none ↦ none
  | some (t, err e) ↦ some (record s { routes = t }, err e)
  | some (t, ok (_, client)) ↦
      let (s', answer) = blockhash_from up (record s { routes = t }) client in
      some (
        s',
        do
          (hash, slot) ← answer
          ok (record { blockhash = hash; last_valid_block_height = (slot + 150) % u64_mod }, slot),
      )
]

-- `hash` is `none` if the text is no hash; the context's slot is 0.
unfoldable pub is_blockhash_valid : Upstreams → HttpServer → Option ℕ → RouterResult Bool
is_blockhash_valid up s none = err RouterError.decode_error
is_blockhash_valid up s (some hash) = elim (s.blockhashes hash) [
  | none ↦ ok false
  | some client ↦ up.is_blockhash_valid client hash
]

unfoldable pub delegation_status :
    Upstreams → RoutingTable → Option ParsedDelegationRecord → RouterResult DelegationStatus
delegation_status up t none =
    ok (record { is_delegated = false; fqdn = none; delegation_record = none })
delegation_status up t (some r) = do
  client ← ok_or (ephemeral_client t r.authority) (unknown_er_node r.authority)
  ok (record { is_delegated = true; fqdn = some (up.url client); delegation_record = some r })

unfoldable pub identity :
    Upstreams → RoutingTable → (now : ℕ) → Option (RoutingTable × RouterResult (Pubkey × Url))
identity up t now =
    Option.map (λ (t', r). (t', do (node, client) ← r; ok (node, up.url client)))
      (closest_node t now)

-- The handle of the node that a transaction is sent to.
unfoldable pub handle_for :
    RoutingTable → Option Pubkey → Option (RoutingTable × RouterResult RemoteHandle)
handle_for t (some identity) =
    some (t, ok_or (ephemeral_handle t identity) (unknown_er_node identity))
handle_for t none =
    Option.map (λ (t', u). (t', ok (record { rpc = u.client; ws = u.ws_url }))) (base_chain t)

-- A transaction goes to the node, and is tracked if the node takes it.
unfoldable pub forward :
    Upstreams → HttpServer → Transaction → RemoteHandle → HttpServer × RouterResult Signature
forward up s txn handle = elim (up.send_transaction handle.rpc txn) [
  | err e ↦ (s, err e)
  | ok signature ↦ (
    record s { transactions = track up.handles s.transactions txn.signature handle },
    ok signature,
  )
]

-- `txn` is an error if the request cannot be decoded.
unfoldable pub send_transaction :
    Upstreams → HttpServer → Authorities → RouterResult Transaction → Handled Signature
send_transaction up s authority (err e) = some (s, err e)
send_transaction up s authority (ok txn) =
    elim (find_writable authority 0 none txn.static_account_keys) [
      | err e ↦ some (s, err e)
      | ok delegation ↦ elim (handle_for s.routes delegation) [
        | none ↦ none
        | some (t, err e) ↦ some (record s { routes = t }, err e)
        | some (t, ok handle) ↦ some (forward up (record s { routes = t }) txn handle)
      ]
    ]

-- `signature` is an error if the text is no signature.
unfoldable pub transaction :
    Upstreams → HttpServer → RouterResult Signature → RouterResult (Option ℕ)
transaction up s (err e) = err e
transaction up s (ok signature) = elim (get s.transactions signature) [
  | none ↦ ok none
  | some handle ↦ do t ← up.get_transaction handle.rpc signature; ok (some t)
]

-- The statuses with the slot of their context. `signatures` is an error if one of the texts is no
-- signature.
unfoldable pub signature_statuses :
    Upstreams → HttpServer → RouterResult (List Signature) → RouterResult (ℕ × List (Option ℕ))
signature_statuses up s (err e) = err e
signature_statuses up s (ok []) = ok (0, [])
signature_statuses up s (ok (sig ∷ rest)) = elim (get s.transactions sig) [
  | none ↦ ok (0, [])
  | some handle ↦ up.get_signature_statuses handle.rpc (sig ∷ rest)
]
