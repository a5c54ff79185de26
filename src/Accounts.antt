-- ===== src/Accounts.antt =====
-- src/accounts.rs: what the delegations cache keeps for an account.
use magic_router.Prelude.{ℕ, Bool, Option, none, some, ◌==◌, if◌then◌else◌}
use magic_router.Types.{Pubkey, ParsedDelegationRecord}

-- A handle to a cache fill in progress: the number of the channel that its clones share.
abbrev pub PendingDelegationFill : Type 0
PendingDelegationFill = ℕ

-- Whether both handles refer to the same fill.
abbrev pub ptr_eq : PendingDelegationFill → PendingDelegationFill → Bool
ptr_eq a b = a == b

-- `cached` is the source's field `record`.
pub record DelegationEntry : Type 0 where
  pub slot : ℕ
  pub cached : Option ParsedDelegationRecord
  pub pending_min_context_slot : Option ℕ
  pub pending_fill : Option PendingDelegationFill

-- The cache's map, as the function that a read computes; a bounded map also forgets keys of its
-- own choice, which is an argument of the operation that makes room.
abbrev pub DelegationsDb : Type 0
DelegationsDb = Pubkey → Option DelegationEntry

-- A write of one key: through an entry, or a removal.
abbrev pub write : DelegationsDb → Pubkey → Option DelegationEntry → DelegationsDb
write db k v j = if k == j then v else db j

abbrev pub empty_db : DelegationsDb
empty_db _ = none

-- `entry.pending_fill.as_ref().is_some_and(|pending| pending.ptr_eq(fill))`
abbrev pub holds_fill : DelegationEntry → PendingDelegationFill → Bool
holds_fill e fill = elim e.pending_fill [ none ↦ Bool.false | some pending ↦ ptr_eq pending fill ]
