-- ===== src/Delegations/Merging.antt =====
-- Fetched records against cached ones (`merge_fetched`, `remove_pending_fill`, `insert_new` in
-- src/cache/delegations.rs), and the invariant that every operation on the map keeps.
use magic_router.Prelude.{
  ℕ, ◌≤◌, ◌<◌, ◌≡◌, ◌≢◌, refl, inl, inr, true, false, Option, none, some, ltb, Bool-cases,
  Option-cases, arith,
}
use magic_router.Types.{Pubkey, ParsedDelegationRecord, PubkeyBytes}
use magic_router.Accounts.{PendingDelegationFill, DelegationEntry, DelegationsDb, write}
use magic_router.Delegations.{
  fetched_entry, insert_new, is_owned_by_other, merge_fetched, remove_pending_fill, AccountUpdate,
  delegated_account, undelegated_account, sync_interrupted, sync_terminated, update_cached_entry,
  on_update,
}

-- An initialised entry waits for nothing.
pub record IsSettled (e : DelegationEntry) : Type 0 where
  pub no_fill : e.pending_fill ≡ none
  pub no_min : e.pending_min_context_slot ≡ none

abbrev pub DbInv : DelegationsDb → Type 0
DbInv db = (k : Pubkey) (e : DelegationEntry) → db k ≡ some e → e.slot ≢ 0 → IsSettled e

module _ (db : DelegationsDb) (inv : DbInv db) where
  pub update-DbInv :
      (k : Pubkey) (s : ℕ) (new : Option ParsedDelegationRecord)
      → DbInv (update_cached_entry db k s new).db
  unfolding update_cached_entry
  update-DbInv k s new j e h i = ground (arith, inv j e)

  pub merge-DbInv :
      (pda : Pubkey) (new : DelegationEntry) (own : Option PendingDelegationFill)
      → IsSettled new
      → DbInv (merge_fetched db pda new own).0
  unfolding merge_fetched
  merge-DbInv pda new own plain j e h i = ground (arith, inv j e)

  pub remove-DbInv :
      (pda : Pubkey) (fill : PendingDelegationFill) → DbInv (remove_pending_fill db pda fill).0
  unfolding remove_pending_fill
  remove-DbInv pda fill j e h i = ground (arith, inv j e)

  pub insert-DbInv :
      (pda : Pubkey) (e : DelegationEntry) (evicted : Option Pubkey)
      → e.slot ≡ 0
      → DbInv (insert_new db pda e evicted).0
  unfolding insert_new
  insert-DbInv pda e none z j f h i = ground (arith, inv j f)
  insert-DbInv pda e (some k) z j f h i = ground (arith, inv j f)

  pub on_update-DbInv : (keys : PubkeyBytes) (u : AccountUpdate) → DbInv (on_update keys db u).db
  unfolding on_update
  on_update-DbInv keys (delegated_account pda bytes slot) = update-DbInv pda slot _
  on_update-DbInv keys (undelegated_account pda slot) = update-DbInv pda slot none
  on_update-DbInv keys sync_interrupted = λ k e h i. cc
  on_update-DbInv keys sync_terminated = inv

-- What `merge_fetched` makes of a fetched record, `r` being what it returns.
pub data Merged (db : DelegationsDb) (pda : Pubkey) (new : DelegationEntry)
    (own : Option PendingDelegationFill) (db' : DelegationsDb) (r : Option ParsedDelegationRecord)
    : Type 0 where
  -- No entry: nothing is cached.
  uncached : db pda ≡ none → db' ≡ db → r ≡ new.cached → Merged db pda new own db' r
  -- The entry waits for another fill: it is left alone.
  foreign :
      (e : DelegationEntry) (fill : PendingDelegationFill)
      → db pda ≡ some e
      → e.pending_fill ≡ some fill
      → own ≢ some fill
      → db' ≡ db
      → r ≡ new.cached
      → Merged db pda new own db' r
  -- The entry waits for no other fill and the fetched record is newer, and replaces it.
  newer :
      (e : DelegationEntry)
      → db pda ≡ some e
      → ((fill : PendingDelegationFill) → e.pending_fill ≡ some fill → own ≡ some fill)
      → e.slot < new.slot
      → db' ≡ write db pda (some new)
      → r ≡ new.cached
      → Merged db pda new own db' r
  -- The entry waits for no other fill and is at least as new, and its record is returned.
  older :
      (e : DelegationEntry)
      → db pda ≡ some e
      → ((fill : PendingDelegationFill) → e.pending_fill ≡ some fill → own ≡ some fill)
      → new.slot ≤ e.slot
      → db' ≡ db
      → r ≡ e.cached
      → Merged db pda new own db' r

module _ (db : DelegationsDb) (pda : Pubkey) (new : DelegationEntry)
    (own : Option PendingDelegationFill) where
  abbrev result : DelegationsDb × Option ParsedDelegationRecord
  result = merge_fetched db pda new own

  is_owned-foreign :
      (e : DelegationEntry)
      → is_owned_by_other e own ≡ true
      → (fill : PendingDelegationFill) × (e.pending_fill ≡ some fill) × (own ≢ some fill)
  unfolding is_owned_by_other
  is_owned-foreign e h = elim (Option-cases e.pending_fill) [
    | inl no_fill ↦ ground arith
    | inr (fill, held) ↦ (fill, held, ground arith)
  ]

  not_owned-own :
      (e : DelegationEntry)
      → is_owned_by_other e own ≡ false
      → (fill : PendingDelegationFill) → e.pending_fill ≡ some fill
      → own ≡ some fill
  unfolding is_owned_by_other
  not_owned-own e free fill held = elim (Option-cases own) [
    | inl no_own ↦ ground arith
    | inr (mine, is) ↦ ground arith
  ]

  merge-present : (e : DelegationEntry) → db pda ≡ some e → Merged db pda new own result.0 result.1
  unfolding merge_fetched
  merge-present e h = elim (Bool-cases (is_owned_by_other e own)) [
    | inl owned ↦
        let (fill, held, ne) = is_owned-foreign e owned in
        foreign e fill h held ne (ground arith) (ground arith)
    | inr free ↦ elim (Bool-cases (ltb e.slot new.slot)) [
      | inl lt ↦ newer e h (not_owned-own e free) (ground arith) (ground arith) (ground arith)
      | inr ge ↦ older e h (not_owned-own e free) (ground arith) (ground arith) (ground arith)
    ]
  ]

  -- A fetched record is cached exactly where an older entry is there that waits for no other
  -- fill; in every other case the map is left as it was. What is returned is the newer of the
  -- fetched and the cached record, or the fetched one where the entry is missing or another
  -- fill's.
  pub merge_fetched-Merged : Merged db pda new own result.0 result.1
  unfolding merge_fetched
  merge_fetched-Merged = elim (Option-cases (db pda)) [
    | inl missing ↦ uncached missing (ground arith) (ground arith)
    | inr (e, present) ↦ merge-present e present
  ]

is_owned-fetched :
    (b : Option ParsedDelegationRecord) (s : ℕ) (own : Option PendingDelegationFill)
    → is_owned_by_other (fetched_entry b s) own ≡ false
unfolding is_owned_by_other
is_owned-fetched b s own = refl

-- The race between the stream and a fetch that both bring a state of the account: unless they
-- bring the same slot, or the entry is another fill's, the map is the same whichever comes first.
pub update_merge_race :
    (db : DelegationsDb) (pda : Pubkey) (s t : ℕ) (a b : Option ParsedDelegationRecord)
    (own : Option PendingDelegationFill) (j : Pubkey)
    → s ≢ t
    → ((e : DelegationEntry) → db pda ≡ some e → is_owned_by_other e own ≡ false)
    → (update_cached_entry (merge_fetched db pda (fetched_entry a t) own).0 pda s b).db j
      ≡ (merge_fetched (update_cached_entry db pda s b).db pda (fetched_entry a t) own).0 j
unfolding update_cached_entry merge_fetched
update_merge_race db pda s t a b own j ne free = elim (Option-cases (db pda)) [
  | inl missing ↦ ground arith
  | inr (e, present) ↦ ground (arith, free e present, is_owned-fetched b s own)
]
