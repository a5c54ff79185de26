-- ===== src/Examples/Reads.antt =====
-- `getMultipleAccounts` at concrete inputs (src/server/http.rs): account 1 is delegated to node 7,
-- account 2 to none, and the last request is completed first.
use mathlib.Core.List.Permᴰ
use mathlib.Core.List.{Permᴰ}
use magic_router.Prelude.{
  ℕ, ◌+◌, refl, Option, none, some, List, [], ◌∷◌, ◌==◌, map, if◌then◌else◌, arith,
}
use magic_router.Types.{Pubkey, Client}
use magic_router.Error.{ok}
use magic_router.Http.{Authorities}
use magic_router.Http.Accounts.{AccountNodes, AccountsRequest, multiple_accounts}
use magic_router.Http.Accounts.Answering.{AccountsOutcome, multiple_accounts-AccountsOutcome}
use magic_router.Examples.Table.{table, table-IsReady}

abbrev delegated_to_7 : Authorities
delegated_to_7 n pk = if pk == 1 then some 7 else none

-- The account of a key, by the client that answers.
abbrev account_at : Client → Pubkey → Option ℕ
account_at client pk = some (client + pk)

abbrev nodes : AccountNodes
nodes = record {
  get_account = λ c pk config. ok (5, account_at c pk);
  get_balance = λ c pk config. ok (5, 0);
  get_token_account_balance = λ c pk config. ok (5, 0);
  get_multiple_accounts = λ c pks config. ok (5, map (account_at c) pks);
  get_signatures_for_address = λ c pk config. ok [];
}

abbrev last_first : List AccountsRequest → List AccountsRequest
last_first [] = []
last_first (x ∷ []) = x ∷ []
last_first (x ∷ y ∷ rest) = y ∷ x ∷ rest

last_first-Permᴰ : (rs : List AccountsRequest) → Permᴰ rs (last_first rs)
last_first-Permᴰ [] = Permᴰ.nil
last_first-Permᴰ (x ∷ []) = Permᴰ.refl (x ∷ [])
last_first-Permᴰ (x ∷ y ∷ rest) = Permᴰ.swap refl refl

multiple_accounts-AccountsOutcome_example :
    AccountsOutcome nodes table delegated_to_7
      (1 ∷ 2 ∷ 1 ∷ [])
      0
      account_at
      (multiple_accounts nodes table delegated_to_7 last_first (1 ∷ 2 ∷ 1 ∷ []) none)
multiple_accounts-AccountsOutcome_example =
    multiple_accounts-AccountsOutcome nodes table delegated_to_7 (1 ∷ 2 ∷ 1 ∷ []) none account_at
      last_first table-IsReady last_first-Permᴰ (λ c ks slot value e. ground arith)
