-- ===== src/Delegations/Reader.antt =====
-- `get_record` of src/cache/delegations.rs, run by any number of requests at once beside the
-- task that applies the stream's updates. A request stands at one of the places where it can be
-- interrupted; between two of them it makes one access to the map, under the entry's lock.
pub mod Shrinking
pub mod Owners
pub mod Progress
pub mod Sources
pub mod Provenance
use magic_router.Prelude.{
  ℕ, suc, ◌+◌, ◌≡◌, ◌≢◌, Bool, true, false, ◌&&◌, Option, none, some, ◌==◌, if◌then◌else◌,
}
use magic_router.Types.{Pubkey, ParsedDelegationRecord, PubkeyBytes}
use magic_router.Accounts.{PendingDelegationFill, DelegationEntry, DelegationsDb, write, holds_fill}
use magic_router.Delegations.{
  min_context_slot_rollback, RpcAnswer, fetch, insert_new, merge_fetched, remove_pending_fill,
  AccountUpdate, on_update, checked_sub,
}

-- The channel of a fill: no result yet, a result, or a sender that is gone without one.
pub data FillState : Type 0 where
  open_fill : FillState
  resolved : Option ParsedDelegationRecord → FillState
  dropped : FillState

-- What the requests and the updater share. Fills are numbered as they are made.
pub record Shared : Type 0 where
  pub db : DelegationsDb
  pub fills : PendingDelegationFill → FillState
  pub next_fill : ℕ

-- The entry that marks a cache fill as pending.
abbrev pub placeholder : PendingDelegationFill → DelegationEntry
placeholder fill = record {
  slot = 0;
  cached = none;
  pending_min_context_slot = none;
  pending_fill = some fill;
}

-- Whether the entry still waits for this fill.
unfoldable pub owns_pending_fill : DelegationsDb → Pubkey → PendingDelegationFill → Bool
owns_pending_fill db pda fill = elim (db pda) [
  | none ↦ false
  | some e ↦ e.slot == 0 && holds_fill e fill
]

-- The entry is told the slot from which a fetch may be served.
unfoldable pub set_pending_min :
    DelegationsDb → Pubkey → PendingDelegationFill → Option ℕ → DelegationsDb
unfolding owns_pending_fill
set_pending_min db pda fill min = elim (db pda) [
  | none ↦ db
  | some e ↦
      if e.slot == 0 && holds_fill e fill
      then write db pda (some (record e { pending_min_context_slot = min }))
      else db
]

-- The entry is told that its fill is over.
unfoldable pub clear_fill : DelegationsDb → Pubkey → PendingDelegationFill → DelegationsDb
clear_fill db pda fill = elim (db pda) [
  | none ↦ db
  | some e ↦
      if holds_fill e fill then write db pda (some (record e { pending_fill = none })) else db
]

-- Where a request stands, with the local variables that are live there.
pub data Pc : Type 0 where
  idle : Pc
  -- at the head of the loop
  looking : Pc
  -- awaits the result of another request's fill
  waiting : (fill : PendingDelegationFill) → Pc
  -- that fill was dropped
  orphaned : (fill : PendingDelegationFill) → Pc
  -- fetches for an entry of slot 0 with no fill
  refetching : (min : Option ℕ) → Pc
  remerging : (entry : DelegationEntry) → Pc
  -- found no entry
  missing : Pc
  -- from here to `sending` it owns the sender of a fill
  subscribing : (fill : PendingDelegationFill) → Pc
  unsubscribed : (fill : PendingDelegationFill) → Pc
  uncached : (fill : PendingDelegationFill) → Pc
  subscribed : (fill : PendingDelegationFill) → (min : Option ℕ) → Pc
  racing : (fill : PendingDelegationFill) → (min : Option ℕ) → Pc
  merging : (fill : PendingDelegationFill) → (entry : DelegationEntry) → Pc
  settling : (fill : PendingDelegationFill) → (answer : Option ParsedDelegationRecord) → Pc
  sending : (fill : PendingDelegationFill) → (answer : Option ParsedDelegationRecord) → Pc
  returned : (answer : Option ParsedDelegationRecord) → Pc
  cancelled : Pc

-- The fill whose sender the request owns.
abbrev pub owns : Pc → Option PendingDelegationFill
owns (subscribing f) = some f
owns (unsubscribed f) = some f
owns (uncached f) = some f
owns (subscribed f _) = some f
owns (racing f _) = some f
owns (merging f _) = some f
owns (settling f _) = some f
owns (sending f _) = some f
owns _ = none

abbrev pub set_fill :
    (PendingDelegationFill → FillState)
    → PendingDelegationFill
    → FillState
    → PendingDelegationFill
    → FillState
set_fill fills f v g = if f == g then v else fills g

-- The sender that a request gives up, if it owns one.
abbrev pub give_up : Shared → Option PendingDelegationFill → Shared
give_up m none = m
give_up m (some f) = record m { fills = set_fill m.fills f dropped }

abbrev pub drop_owned : Shared → Pc → Shared
drop_owned m p = give_up m (owns p)

abbrev pub is_done : Pc → Bool
is_done idle = true
is_done (returned _) = true
is_done cancelled = true
is_done _ = false

-- One step of one request for the record at `k`.
pub data Move (keys : PubkeyBytes) (k : Pubkey) (m : Shared) : Pc → Shared → Pc → Type 0 where
  call : Move keys k m idle m looking
  hit :
      (e : DelegationEntry)
      → m.db k ≡ some e
      → e.slot ≢ 0
      → Move keys k m looking m (returned e.cached)
  join :
      (e : DelegationEntry) (f : PendingDelegationFill)
      → m.db k ≡ some e
      → e.slot ≡ 0
      → e.pending_fill ≡ some f
      → Move keys k m looking m (waiting f)
  refetch :
      (e : DelegationEntry)
      → m.db k ≡ some e
      → e.slot ≡ 0
      → e.pending_fill ≡ none
      → Move keys k m looking m (refetching e.pending_min_context_slot)
  miss : m.db k ≡ none → Move keys k m looking m missing
  wait_result :
      {f : PendingDelegationFill} (r : Option ParsedDelegationRecord)
      → m.fills f ≡ resolved r
      → Move keys k m (waiting f) m (returned r)
  wait_error :
      {f : PendingDelegationFill} → m.fills f ≡ dropped → Move keys k m (waiting f) m (orphaned f)
  adopt :
      {f : PendingDelegationFill}
      → Move keys k m (orphaned f) (record m { db = (remove_pending_fill m.db k f).0 }) looking
  refetched :
      {min : Option ℕ} (answers : ℕ → RpcAnswer)
      → Move keys k m (refetching min) m (remerging (fetch keys answers).entry)
  remerge :
      {e : DelegationEntry}
      → Move keys k m
          (remerging e)
          (record m { db = (merge_fetched m.db k e none).0 })
          (returned (merge_fetched m.db k e none).1)
  -- The map makes room as it likes, and the request creates its fill.
  insert_pending :
      (evicted : Option Pubkey)
      → m.db k ≡ none
      → Move keys k m missing
          (record {
            db = (insert_new m.db k (placeholder m.next_fill) evicted).0;
            fills = set_fill m.fills m.next_fill open_fill;
            next_fill = suc m.next_fill;
          })
          (subscribing m.next_fill)
  insert_lost : (e : DelegationEntry) → m.db k ≡ some e → Move keys k m missing m looking
  subscribe_ok :
      {f : PendingDelegationFill} (slot : ℕ)
      → Move keys k m (subscribing f) m (subscribed f (checked_sub slot min_context_slot_rollback))
  subscribe_failed : {f : PendingDelegationFill} → Move keys k m (subscribing f) m (unsubscribed f)
  removed :
      {f : PendingDelegationFill}
      → (remove_pending_fill m.db k f).1 ≡ true
      → Move keys k m
          (unsubscribed f)
          (record m { db = (remove_pending_fill m.db k f).0 })
          (uncached f)
  not_removed :
      {f : PendingDelegationFill}
      → (remove_pending_fill m.db k f).1 ≡ false
      → Move keys k m (unsubscribed f) (record m { fills = set_fill m.fills f dropped }) looking
  fetch_uncached :
      {f : PendingDelegationFill} (answers : ℕ → RpcAnswer)
      → Move keys k m (uncached f) m (sending f (fetch keys answers).entry.cached)
  claim :
      {f : PendingDelegationFill} {min : Option ℕ}
      → owns_pending_fill m.db k f ≡ true
      → Move keys k m
          (subscribed f min)
          (record m { db = set_pending_min m.db k f min })
          (racing f min)
  claim_lost :
      {f : PendingDelegationFill} {min : Option ℕ}
      → owns_pending_fill m.db k f ≡ false
      → Move keys k m (subscribed f min) (record m { fills = set_fill m.fills f dropped }) looking
  fetched :
      {f : PendingDelegationFill} {min : Option ℕ} (answers : ℕ → RpcAnswer)
      → Move keys k m (racing f min) m (merging f (fetch keys answers).entry)
  -- The stream installed the record first.
  streamed :
      {f : PendingDelegationFill} {min : Option ℕ} (e : DelegationEntry)
      → m.db k ≡ some e
      → e.slot ≢ 0
      → Move keys k m (racing f min) m (settling f e.cached)
  merge :
      {f : PendingDelegationFill} {e : DelegationEntry}
      → Move keys k m
          (merging f e)
          (record m { db = (merge_fetched m.db k e (some f)).0 })
          (settling f (merge_fetched m.db k e (some f)).1)
  settle :
      {f : PendingDelegationFill} {r : Option ParsedDelegationRecord}
      → Move keys k m (settling f r) (record m { db = clear_fill m.db k f }) (sending f r)
  send :
      {f : PendingDelegationFill} {r : Option ParsedDelegationRecord}
      → Move keys k m
          (sending f r)
          (record m { fills = set_fill m.fills f (resolved r) })
          (returned r)
  -- The client is gone, and the request's future is dropped where it stands.
  cancel : {p : Pc} → is_done p ≡ false → Move keys k m p (drop_owned m p) cancelled

pub record System : Type 0 where
  pub mem : Shared
  pub pc : ℕ → Pc

abbrev pub update_pc : (ℕ → Pc) → ℕ → Pc → ℕ → Pc
update_pc pc i p j = if i == j then p else pc j

abbrev pub no_fills : PendingDelegationFill → FillState
no_fills _ = dropped

abbrev pub init : System
init = record { mem = record { db = λ _. none; fills = no_fills; next_fill = 0 }; pc = λ _. idle }

-- Requests, each for the record at its own key, and the updater, in any order.
module _ (keys : PubkeyBytes) (key : ℕ → Pubkey) where
  pub data Step (s : System) : System → Type 0 where
    request :
        (i : ℕ) {m : Shared} {p : Pc}
        → Move keys (key i) s.mem (s.pc i) m p
        → Step s (record { mem = m; pc = update_pc s.pc i p })
    updater :
        (u : AccountUpdate)
        → Step s (record s { mem = record (s.mem) { db = (on_update keys s.mem.db u).db } })

  pub data Reach : System → Type 0 where
    start : Reach init
    later : {s t : System} → Reach s → Step s t → Reach t
