-- ===== src/Delegations.antt =====
-- src/cache/delegations.rs: the operations of the delegations cache on its map. Each is one
-- access to an entry, under the entry's lock; `Delegations.Reader` composes them with the awaits
-- between them.
pub mod Updates
pub mod Merging
pub mod Fetching
pub mod Reader
use magic_router.Prelude.{
  ℕ, zero, suc, ◌+◌, ◌-◌, ◌*◌, Bool, true, false, not, ◌&&◌, Option, none, some, List, [], ◌∷◌,
  ◌++◌, leb, ltb, ◌==◌, opt_eq, if◌then◌else◌,
}
use mathlib.Core.Option
use magic_router.Types.{Pubkey, ParsedDelegationRecord, PubkeyBytes, from_bytes, to_option}
use magic_router.Accounts.{
  PendingDelegationFill, ptr_eq, DelegationEntry, DelegationsDb, write, empty_db, holds_fill,
}

abbrev pub max_account_refetch_attempts : ℕ
max_account_refetch_attempts = 3

abbrev pub retry_backoff_seconds : ℕ
retry_backoff_seconds = 2

abbrev pub min_context_slot_rollback : ℕ
min_context_slot_rollback = 8

pub data Transition : Type 0 where
  delegated undelegated redelegated : Transition

pub data SyncEvent : Type 0 where
  delegated_update undelegated_update interrupted terminated : SyncEvent

-- The counters that the cache increments.
pub data Metric : Type 0 where
  error : Metric
  sync_event : SyncEvent → Metric
  transition : Transition → Metric

-- The answer of the base chain to one account request. `account` has the account's data as far
-- as it could be decoded from its text encoding, and the slot of the answer.
pub data RpcAnswer : Type 0 where
  account : Option (List ℕ) → ℕ → RpcAnswer
  no_account : ℕ → RpcAnswer
  failed : RpcAnswer

abbrev pub fetched_entry : Option ParsedDelegationRecord → ℕ → DelegationEntry
fetched_entry cached slot = record {
  slot = slot;
  cached = cached;
  pending_min_context_slot = none;
  pending_fill = none;
}

-- What a fetch returns and does on the way: the seconds that it sleeps, and its metrics.
pub record Fetched : Type 0 where
  pub entry : DelegationEntry
  pub slept : List ℕ
  pub metrics : List Metric

abbrev pub error_if_none : Option ParsedDelegationRecord → List Metric
error_if_none none = error ∷ []
error_if_none (some _) = []

-- The sleep at the head of each round but the first.
unfoldable pub sleep_before : ℕ → List ℕ → List ℕ
sleep_before attempt slept =
    if ltb 0 attempt then slept ++ (retry_backoff_seconds * attempt) ∷ [] else slept

-- The rounds of `fetch` from `attempt` on, with `left` rounds left; `answers` is what the chain
-- answers at each attempt, which is any answer: the node that is asked, the round robin's next one,
-- and the `min_context_slot` of the request are left out.
unfoldable pub fetch_from : PubkeyBytes → (ℕ → RpcAnswer) → (left attempt : ℕ) → List ℕ → Fetched
fetch_from keys answers zero attempt slept = record {
  entry = fetched_entry none 0;
  slept = slept;
  metrics = error ∷ [];
}
fetch_from keys answers (suc left) attempt slept =
    let slept' = sleep_before attempt slept in
    let again = fetch_from keys answers left (attempt + 1) slept' in
    elim (answers attempt) [
      | account bytes slot ↦
          let cached = Option.bind bytes (λ b. to_option (from_bytes keys b)) in
          record {
            entry = fetched_entry cached slot;
            slept = slept';
            metrics = error_if_none cached;
          }
      | no_account slot ↦ record { entry = fetched_entry none slot; slept = slept'; metrics = [] }
      | failed ↦ again
    ]

unfoldable pub fetch : PubkeyBytes → (ℕ → RpcAnswer) → Fetched
fetch keys answers = fetch_from keys answers (suc max_account_refetch_attempts) 0 []

-- `insert_new` on a vacant entry: the map makes room by forgetting `evicted`, and the key that it
-- forgot is unsubscribed.
unfoldable pub insert_new :
    DelegationsDb
    → Pubkey
    → DelegationEntry
    → (evicted : Option Pubkey) → DelegationsDb × Option Pubkey
insert_new db pda e none = (write db pda (some e), none)
insert_new db pda e (some k) = (write (write db k none) pda (some e), some k)

-- Whether `merge_fetched` must leave an entry to the owner of its fill.
unfoldable pub is_owned_by_other : DelegationEntry → Option PendingDelegationFill → Bool
is_owned_by_other e own = elim e.pending_fill [
  | none ↦ false
  | some pending ↦ elim own [ none ↦ true | some fill ↦ not (ptr_eq pending fill) ]
]

unfoldable pub merge_fetched :
    DelegationsDb
    → Pubkey
    → DelegationEntry
    → Option PendingDelegationFill
    → DelegationsDb × Option ParsedDelegationRecord
merge_fetched db pda new own = elim (db pda) [
  | none ↦ (db, new.cached)
  | some e ↦
      if is_owned_by_other e own
      then (db, new.cached)
      else if ltb e.slot new.slot
      then (write db pda (some new), new.cached)
      else (db, e.cached)
]

unfoldable pub remove_pending_fill :
    DelegationsDb → Pubkey → PendingDelegationFill → DelegationsDb × Bool
remove_pending_fill db pda fill = elim (db pda) [
  | none ↦ (db, false)
  | some e ↦ if e.slot == 0 && holds_fill e fill then (write db pda none, true) else (db, false)
]

abbrev pub authority_of : Option ParsedDelegationRecord → Option Pubkey
authority_of none = none
authority_of (some r) = some r.authority

unfoldable pub transition_of : Option Pubkey → Option Pubkey → Transition
transition_of none _ = delegated
transition_of (some _) none = undelegated
transition_of (some _) (some _) = redelegated

-- What an update does: the map, the transition that it counts, and the fill that it wakes.
pub record Updated : Type 0 where
  pub db : DelegationsDb
  pub counted : List Metric
  pub notified : Option PendingDelegationFill

-- The metric of an update that is applied to the entry `e`.
unfoldable pub transitions : DelegationEntry → Option ParsedDelegationRecord → List Metric
transitions e new =
    let old_authority = authority_of e.cached in
    let new_authority = authority_of new in
    if not (opt_eq old_authority new_authority)
    then (if not (e.slot == 0)
        then transition (transition_of old_authority new_authority) ∷ []
        else [])
    else []

unfoldable pub update_cached_entry :
    DelegationsDb → Pubkey → ℕ → Option ParsedDelegationRecord → Updated
update_cached_entry db k slot new = elim (db k) [
  | none ↦ record { db = db; counted = []; notified = none }
  | some e ↦ if leb slot e.slot then record { db = db; counted = []; notified = none } else record {
    db = write db k (some (fetched_entry new slot));
    counted = transitions e new;
    notified = e.pending_fill;
  }
]

-- The messages of the sync service.
pub data AccountUpdate : Type 0 where
  delegated_account : (pda : Pubkey) → (bytes : List ℕ) → (slot : ℕ) → AccountUpdate
  undelegated_account : (pda : Pubkey) → (slot : ℕ) → AccountUpdate
  sync_interrupted : AccountUpdate
  sync_terminated : AccountUpdate

abbrev pub counting : List Metric → Updated → Updated
counting ms u = record u { counted = ms ++ u.counted }

-- One round of the loop of `updater`.
unfoldable pub on_update : PubkeyBytes → DelegationsDb → AccountUpdate → Updated
on_update keys db (delegated_account pda bytes slot) =
    let new = to_option (from_bytes keys bytes) in
    counting (sync_event delegated_update ∷ error_if_none new) (update_cached_entry db pda slot new)
on_update keys db (undelegated_account pda slot) =
    counting (sync_event undelegated_update ∷ []) (update_cached_entry db pda slot none)
on_update keys db sync_interrupted = record {
  db = empty_db;
  counted = sync_event interrupted ∷ [];
  notified = none;
}
on_update keys db sync_terminated = record {
  db = db;
  counted = sync_event terminated ∷ [];
  notified = none;
}

-- `subscription_slot.checked_sub(MIN_CONTEXT_SLOT_ROLLBACK)`
unfoldable pub checked_sub : ℕ → ℕ → Option ℕ
checked_sub a b = if leb b a then some (a - b) else none
