-- ===== src/Delegations/Reader/Shrinking.antt =====
-- No access to the map but the insertion of a placeholder makes an entry wait for a fill.
use magic_router.Prelude.{
  ℕ, ◌≡◌, inl, inr, true, Option, none, some, ◌==◌, Bool-cases, Option-cases, arith,
}
use magic_router.Types.{Pubkey, ParsedDelegationRecord, PubkeyBytes}
use magic_router.Accounts.{PendingDelegationFill, DelegationEntry, DelegationsDb, write}
use magic_router.Delegations.{
  merge_fetched, remove_pending_fill, AccountUpdate, delegated_account, undelegated_account,
  sync_interrupted, sync_terminated, update_cached_entry, on_update,
}
use magic_router.Delegations.Merging.{DbInv}
use magic_router.Delegations.Reader.{set_pending_min, clear_fill}

-- The entry at `k` waits for the fill `f`.
abbrev pub Waits : DelegationsDb → Pubkey → PendingDelegationFill → Type 0
Waits db k f = (e : DelegationEntry) × (db k ≡ some e) × (e.pending_fill ≡ some f)

-- Every fill that is waited for in the second map is waited for in the first, by the same key.
abbrev pub Shrinks : DelegationsDb → DelegationsDb → Type 0
Shrinks db db' = (j : Pubkey) (f : PendingDelegationFill) → Waits db' j f → Waits db j f

pub Shrinks-refl : (db : DelegationsDb) → Shrinks db db
Shrinks-refl db j f w = w

module _ (db : DelegationsDb) (k : Pubkey) where
  write-Shrinks :
      (v : Option DelegationEntry)
      → ((e : DelegationEntry) (f : PendingDelegationFill)
          → v ≡ some e
          → e.pending_fill ≡ some f
          → Waits db k f)
      → Shrinks db (write db k v)
  write-Shrinks v old j f (e, h, w) = elim (Bool-cases (k == j)) [
    | inl hit ↦ let same : k ≡ j = ground arith in rw (← same) (old e f (ground arith) w)
    | inr miss ↦ (e, ground arith, w)
  ]

  pub update-Shrinks :
      (s : ℕ) (new : Option ParsedDelegationRecord) → Shrinks db (update_cached_entry db k s new).db
  unfolding update_cached_entry
  update-Shrinks s new j f (e, h, w) = (e, ground arith, w)

  pub merge-Shrinks :
      (new : DelegationEntry) (own : Option PendingDelegationFill)
      → new.pending_fill ≡ none
      → Shrinks db (merge_fetched db k new own).0
  unfolding merge_fetched
  merge-Shrinks new own plain j f (e, h, w) = (e, ground arith, w)

  pub remove-Shrinks : (g : PendingDelegationFill) → Shrinks db (remove_pending_fill db k g).0
  unfolding remove_pending_fill
  remove-Shrinks g j f (e, h, w) = (e, ground arith, w)

  pub set_pending_min-Shrinks :
      (g : PendingDelegationFill) (min : Option ℕ) → Shrinks db (set_pending_min db k g min)
  unfolding set_pending_min
  set_pending_min-Shrinks g min j f (e, h, w) = elim (Option-cases (db k)) [
    | inl missing ↦ (e, ground arith, w)
    | inr (e₀, present) ↦ elim (Bool-cases (k == j)) [
      | inl hit ↦ (e₀, ground arith, ground arith)
      | inr miss ↦ (e, ground arith, w)
    ]
  ]

  pub clear_fill-Shrinks : (g : PendingDelegationFill) → Shrinks db (clear_fill db k g)
  unfolding clear_fill
  clear_fill-Shrinks g j f (e, h, w) = elim (Option-cases (db k)) [
    | inl missing ↦ (e, ground arith, w)
    | inr (e₀, present) ↦ elim (Bool-cases (k == j)) [
      | inl hit ↦ (e₀, ground arith, ground arith)
      | inr miss ↦ (e, ground arith, w)
    ]
  ]

  -- After the fill is cleared, the key waits for it no more.
  pub clear_fill-cleared : (g : PendingDelegationFill) → ¬ Waits (clear_fill db k g) k g
  unfolding clear_fill
  clear_fill-cleared g (e, h, w) = ground arith

  module _ (settled : DbInv db) where
    pub set_pending_min-DbInv :
        (g : PendingDelegationFill) (min : Option ℕ) → DbInv (set_pending_min db k g min)
    unfolding set_pending_min
    set_pending_min-DbInv g min j e h i = elim (Option-cases (db k)) [
      | inl missing ↦ settled j e (ground arith) i
      | inr (e₀, present) ↦ ground (arith, settled j e, settled k e₀)
    ]

    pub clear_fill-DbInv : (g : PendingDelegationFill) → DbInv (clear_fill db k g)
    unfolding clear_fill
    clear_fill-DbInv g j e h i = elim (Option-cases (db k)) [
      | inl missing ↦ settled j e (ground arith) i
      | inr (e₀, present) ↦ ground (arith, settled j e, settled k e₀)
    ]

  pub remove-removed :
      (g : PendingDelegationFill)
      → (remove_pending_fill db k g).1 ≡ true
      → (remove_pending_fill db k g).0 k ≡ none
  unfolding remove_pending_fill
  remove-removed g h = ground arith

pub on_update-Shrinks :
    (keys : PubkeyBytes) (db : DelegationsDb) (u : AccountUpdate)
    → Shrinks db (on_update keys db u).db
unfolding on_update
on_update-Shrinks keys db (delegated_account pda bytes slot) = update-Shrinks db pda slot _
on_update-Shrinks keys db (undelegated_account pda slot) = update-Shrinks db pda slot none
on_update-Shrinks keys db sync_interrupted = λ j f (e, h, w). cc
on_update-Shrinks keys db sync_terminated = Shrinks-refl db
