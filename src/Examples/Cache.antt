-- ===== src/Examples/Cache.antt =====
-- The operations of the delegations cache at concrete inputs (src/cache/delegations.rs).
use magic_router.Prelude.{
  ℕ, ◌≡◌, refl, false, none, some, List, [], ◌∷◌, ◌==◌, if◌then◌else◌, arith,
}
use magic_router.Types.{ParsedDelegationRecord}
use magic_router.Types.Bytes.{le_keys}
use magic_router.Accounts.{DelegationEntry, DelegationsDb, write, empty_db}
use magic_router.Delegations.{
  RpcAnswer, no_account, failed, fetched_entry, fetch, is_owned_by_other, merge_fetched,
  update_cached_entry,
}
use magic_router.Delegations.Updates.{update_commutes, Update, apply_all, Newest, apply_all-Newest}
use magic_router.Delegations.Merging.{Merged, merge_fetched-Merged, update_merge_race}
use magic_router.Delegations.Fetching.{entry_of, sum, backoff, fetch-answered}
use magic_router.Delegations.Reader.{placeholder}

abbrev delegation : ParsedDelegationRecord
delegation = record { authority = 7; owner = 3; delegation_slot = 4; lamports = 10 }

-- Account 1 is cached at slot 5, and account 2 waits for fill 3.
abbrev cached_1 : DelegationEntry
cached_1 = fetched_entry none 5

abbrev db : DelegationsDb
db = write (write empty_db 1 (some cached_1)) 2 (some (placeholder 3))

-- A new update, a late one, and a repeated one.
abbrev updates : List Update
updates =
    record { key = 1; slot = 8; new = some delegation }
    ∷ record { key = 1; slot = 6; new = none }
    ∷ record { key = 1; slot = 8; new = some delegation }
    ∷ []

update_commutes_example :
    (update_cached_entry (update_cached_entry db 1 6 (some delegation)).db 1 8 none).db 1
    ≡ (update_cached_entry (update_cached_entry db 1 8 none).db 1 6 (some delegation)).db 1
update_commutes_example = update_commutes db 1 1 6 8 (some delegation) none 1 (λ _. omega arith)

apply_all-Newest_example : Newest 1 cached_1 updates (apply_all db updates).0
apply_all-Newest_example = apply_all-Newest db 1 cached_1 updates refl

merge_fetched-Merged_example :
    Merged db 2
      (fetched_entry (some delegation) 9)
      (some 3)
      (merge_fetched db 2 (fetched_entry (some delegation) 9) (some 3)).0
      (merge_fetched db 2 (fetched_entry (some delegation) 9) (some 3)).1
merge_fetched-Merged_example =
    merge_fetched-Merged db 2 (fetched_entry (some delegation) 9) (some 3)

own_entry : (e : DelegationEntry) → db 2 ≡ some e → is_owned_by_other e (some 3) ≡ false
unfolding is_owned_by_other
own_entry e h = ground arith

update_merge_race_example :
    (update_cached_entry
        (merge_fetched db 2 (fetched_entry none 9) (some 3)).0
        2
        6
        (some delegation)).db
      2
    ≡ (merge_fetched
          (update_cached_entry db 2 6 (some delegation)).db
          2
          (fetched_entry none 9)
          (some 3)).0
        2
update_merge_race_example =
    update_merge_race db 2 6 9 none (some delegation) (some 3) 2 (omega arith) own_entry

-- The chain answers the second attempt.
abbrev second : ℕ → RpcAnswer
second n = if n == 1 then no_account 9 else failed

fetch-answered_example :
    ((fetch le_keys second).entry ≡ entry_of le_keys (no_account 9))
    × (sum (fetch le_keys second).slept ≡ backoff 1)
fetch-answered_example =
    fetch-answered le_keys second 1 (omega arith) (λ i h. ground arith) (λ e. cc)
