-- ===== src/Http/Accounts.antt =====
-- src/server/http.rs: the handlers that read accounts and addresses. What the nodes answer to
-- these requests is a parameter.
pub mod Grouping
pub mod Requesting
pub mod Collecting
pub mod Answering
use mathlib.Core.Option
use magic_router.Prelude.{
  ℕ, ◌+◌, ◌<◌, Bool, true, false, Option, none, some, List, [], ◌∷◌, ◌++◌, map, length, set,
  replicate, max, ltb, if◌then◌else◌,
}
use magic_router.Prelude.Dict.{Dict, lookup, insert}
use magic_router.Types.{Pubkey, Client, Signature}
use magic_router.Error.{RouterError, RouterResult, ok, err, ok_or, ◌>>=◌, unknown_er_node}
use magic_router.Routes.{RoutingTable, ephemeral_client, base_chain}
use magic_router.Http.{Authorities, resolve_client}

-- The configurations of `getSignaturesForAddress`, as it comes and as it is passed on.
pub record RpcSignaturesForAddressConfig : Type 0 where
  pub before : Option ℕ
  pub until : Option ℕ
  pub limit : Option ℕ
  pub commitment : Option ℕ

pub record GetConfirmedSignatures : Type 0 where
  pub before : Option Signature
  pub until : Option Signature
  pub limit : Option ℕ
  pub commitment : Option ℕ

-- What upstream nodes answer, with the slot of the context. A configuration, an account and a
-- commitment is a number.
pub record AccountNodes : Type 0 where
  pub get_account : Client → Pubkey → (config : ℕ) → RouterResult (ℕ × Option ℕ)
  pub get_balance : Client → Pubkey → (commitment : ℕ) → RouterResult (ℕ × ℕ)
  pub get_token_account_balance : Client → Pubkey → (commitment : ℕ) → RouterResult (ℕ × ℕ)
  pub get_multiple_accounts :
      Client → List Pubkey → (config : ℕ) → RouterResult (ℕ × List (Option ℕ))
  pub get_signatures_for_address : Client → Pubkey → GetConfirmedSignatures → RouterResult (List ℕ)

-- What a handler that reads leaves of the table and returns; `none` is a panic.
abbrev pub Read : Type 0 → Type 0
Read A = Option (RoutingTable × RouterResult A)

-- A request that the node of an account answers.
abbrev pub asking : {A : Type 0} → Read Client → (Client → RouterResult A) → Read A
asking client question = Option.map (λ (t, c). (t, c >>= question)) client

-- `unwrap_or_default`, of which the default is 0.
abbrev pub or_default : Option ℕ → ℕ
or_default none = 0
or_default (some config) = config

unfoldable pub account_info :
    AccountNodes → RoutingTable → Authorities → Pubkey → (params : Option ℕ) → Read (ℕ × Option ℕ)
account_info nodes t authority pubkey params =
    asking (resolve_client t authority pubkey)
      (λ client. nodes.get_account client pubkey (or_default params))

-- `params` of the balances is the configuration's commitment, if both are given.
unfoldable pub balance :
    AccountNodes → RoutingTable → Authorities → Pubkey → (params : Option (Option ℕ)) → Read (ℕ × ℕ)
balance nodes t authority pubkey params =
    asking (resolve_client t authority pubkey)
      (λ client. nodes.get_balance client pubkey (or_default (Option.bind params (λ c. c))))

unfoldable pub token_account_balance :
    AccountNodes → RoutingTable → Authorities → Pubkey → (params : Option (Option ℕ)) → Read (ℕ × ℕ)
token_account_balance nodes t authority pubkey params =
    asking (resolve_client t authority pubkey) (λ client.
      nodes.get_token_account_balance client pubkey (or_default (Option.bind params (λ c. c))))

-- A signature that may be given, as a text that may be none; `parse` is the decoding of a text.
unfoldable pub parse_bound :
    (parse : ℕ → Option Signature) → Option ℕ → RouterResult (Option Signature)
parse_bound parse none = ok none
parse_bound parse (some text) = do
  signature ← ok_or (parse text) RouterError.decode_error
  ok (some signature)

abbrev pub default_config : Option RpcSignaturesForAddressConfig → RpcSignaturesForAddressConfig
default_config none = record { before = none; until = none; limit = none; commitment = none }
default_config (some config) = config

unfoldable pub confirmed_config :
    (parse : ℕ → Option Signature)
    → RpcSignaturesForAddressConfig
    → RouterResult GetConfirmedSignatures
confirmed_config parse config = do
  first ← parse_bound parse config.before
  last ← parse_bound parse config.until
  ok (record { before = first; until = last; limit = config.limit; commitment = config.commitment })

unfoldable pub signatures_for_address :
    AccountNodes
    → RoutingTable
    → Authorities
    → (parse : ℕ → Option Signature) → Pubkey
    → Option RpcSignaturesForAddressConfig
    → Read (List ℕ)
signatures_for_address nodes t authority parse pubkey config =
    asking (resolve_client t authority pubkey) (λ client. do
      confirmed ← confirmed_config parse (default_config config)
      nodes.get_signatures_for_address client pubkey confirmed)

-- Keys with their places in the request of `multiple_accounts`.
abbrev pub Indexed : Type 0
Indexed = List (ℕ × Pubkey)

-- The keys of each node, and those of the base chain.
abbrev pub Grouped : Type 0
Grouped = Dict Indexed × Indexed

abbrev pub group_or_default : Option Indexed → Indexed
group_or_default none = []
group_or_default (some group) = group

unfoldable pub add_to_group : Option Pubkey → ℕ × Pubkey → Grouped → Grouped
add_to_group (some identity) x (delegated, undelegated) = (
  insert identity (group_or_default (lookup identity delegated) ++ x ∷ []) delegated,
  undelegated,
)
add_to_group none x (delegated, undelegated) = (delegated, undelegated ++ x ∷ [])

unfoldable pub group_by_node : Authorities → ℕ → List Pubkey → Grouped → Grouped
group_by_node authority i [] groups = groups
group_by_node authority i (pk ∷ pks) groups =
    group_by_node authority (i + 1) pks (add_to_group (authority i pk) (i, pk) groups)

pub record AccountsRequest : Type 0 where
  pub client : Client
  pub pubkeys : Indexed

unfoldable pub node_requests : RoutingTable → Dict Indexed → RouterResult (List AccountsRequest)
node_requests t [] = ok []
node_requests t ((identity, group) ∷ rest) = do
  client ← ok_or (ephemeral_client t identity) (unknown_er_node identity)
  requests ← node_requests t rest
  ok (record { client = client; pubkeys = group } ∷ requests)

-- The requests with that to the base chain, which is made only if there is a key for it.
unfoldable pub with_chain_request :
    RoutingTable → Indexed → List AccountsRequest → Option (RoutingTable × List AccountsRequest)
with_chain_request t [] requests = some (t, requests)
with_chain_request t (x ∷ undelegated) requests =
    Option.map
      (λ (t', u). (t', requests ++ record { client = u.client; pubkeys = x ∷ undelegated } ∷ []))
      (base_chain t)

-- `response[index] = account`; `none` is a panic.
unfoldable pub put_accounts :
    Indexed → (accounts : List (Option ℕ)) → (response : List (Option ℕ)) → Option (List (Option ℕ))
put_accounts [] accounts response = some response
put_accounts (x ∷ xs) [] response = some response
put_accounts ((index, pk) ∷ xs) (account ∷ accounts) response =
    let rest = put_accounts xs accounts (set response index account) in
    if ltb index (length response) then rest else none

-- The requests in the order in which they are completed.
unfoldable pub collect :
    AccountNodes
    → (config : ℕ) → List AccountsRequest
    → (slot : ℕ) → (response : List (Option ℕ)) → Option (RouterResult (ℕ × List (Option ℕ)))
collect nodes config [] slot response = some (ok (slot, response))
collect nodes config (r ∷ rs) slot response =
    elim (nodes.get_multiple_accounts r.client (map (λ (index, pk). pk) r.pubkeys) config) [
      | err e ↦ some (err e)
      | ok (answer_slot, accounts) ↦ elim (put_accounts r.pubkeys accounts response) [
        | none ↦ none
        | some response' ↦ collect nodes config rs (max slot answer_slot) response'
      ]
    ]

-- `completed` is the order in which the requests are completed.
unfoldable pub multiple_accounts :
    AccountNodes
    → RoutingTable
    → Authorities
    → (completed : List AccountsRequest → List AccountsRequest) → List Pubkey
    → (params : Option ℕ) → Read (ℕ × List (Option ℕ))
multiple_accounts nodes t authority completed pubkeys params =
    let (delegated, undelegated) = group_by_node authority 0 pubkeys ([], []) in
    elim (node_requests t delegated) [
      | err e ↦ some (t, err e)
      | ok requests ↦ elim (with_chain_request t undelegated requests) [
        | none ↦ none
        | some (t', all) ↦
            Option.map (λ r. (t', r))
              (collect nodes (or_default params) (completed all) 0
                (replicate (length pubkeys) none))
      ]
    ]
