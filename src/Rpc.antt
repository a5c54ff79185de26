-- ===== src/Rpc.antt =====
-- src/rpc/http.rs: the requests that the router answers with constants. Those of the
-- `solana_epoch_schedule` crate are arguments.
use magic_router.Prelude.{ℕ, Bool, false, Option, none}
use magic_router.Error.{RouterResult, ok}

pub record EpochSchedule : Type 0 where
  pub slots_per_epoch : ℕ
  pub leader_schedule_slot_offset : ℕ
  pub warmup : Bool
  pub first_normal_epoch : ℕ
  pub first_normal_slot : ℕ

pub record EpochInfo : Type 0 where
  pub epoch : ℕ
  pub slot_index : ℕ
  pub slots_in_epoch : ℕ
  pub absolute_slot : ℕ
  pub block_height : ℕ
  pub transaction_count : Option ℕ

unfoldable pub first_available_block : RouterResult ℕ
first_available_block = ok 0

unfoldable pub epoch_schedule :
    (minimum_slots_per_epoch default_leader_schedule_slot_offset : ℕ) → RouterResult EpochSchedule
epoch_schedule minimum_slots_per_epoch default_leader_schedule_slot_offset = ok (record {
  slots_per_epoch = minimum_slots_per_epoch;
  leader_schedule_slot_offset = default_leader_schedule_slot_offset;
  warmup = false;
  first_normal_epoch = 0;
  first_normal_slot = 0;
})

unfoldable pub epoch_info : RouterResult EpochInfo
epoch_info = ok (record {
  epoch = 0;
  slot_index = 0;
  slots_in_epoch = 0;
  absolute_slot = 0;
  block_height = 0;
  transaction_count = none;
})
