-- ===== src/Examples/Requests.antt =====
-- Two requests for one account at once (`get_record` of src/cache/delegations.rs).
use magic_router.Prelude.{ℕ, ◌≡◌, ◌⊎◌, refl, none, some, List, [], ◌∷◌, arith}
use magic_router.Types.{Pubkey, from_bytes, to_option}
use magic_router.Types.Decoding.{layout, from_bytes-layout}
use magic_router.Accounts.{DelegationEntry}
use magic_router.Types.Bytes.{le_keys}
use magic_router.Delegations.{
  insert_new, fetched_entry, AccountUpdate, delegated_account, update_cached_entry, on_update,
}
use magic_router.Delegations.Reader.{
  open_fill, dropped, Shared, placeholder, set_fill, Pc, Move, System, update_pc, init, request,
  updater, Reach, start, later, drop_owned,
}
use magic_router.Delegations.Reader.Owners.{keeps, Inv}
use magic_router.Delegations.Reader.Owners.Steps.{Step-Inv, Reach-Inv}
use magic_router.Delegations.Reader.Provenance.{Sources, returned-Sources}
use magic_router.Examples.Data.{some_record, discriminator, some_record-IsInRange}
use magic_router.Delegations.Reader.Progress.{Progress, no_orphan, never_stale}

abbrev pub nine : ℕ → Pubkey
nine _ = 9

-- Request 0 finds nothing and creates a fill, and request 1 joins it.
abbrev called : System
called = record { mem = init.mem; pc = update_pc init.pc 0 Pc.looking }

abbrev missed : System
missed = record { mem = init.mem; pc = update_pc called.pc 0 Pc.missing }

abbrev filling : Shared
filling = record {
  db = (insert_new init.mem.db 9 (placeholder 0) none).0;
  fills = set_fill init.mem.fills 0 open_fill;
  next_fill = 1;
}

abbrev created : System
created = record { mem = filling; pc = update_pc missed.pc 0 (Pc.subscribing 0) }

abbrev called_too : System
called_too = record { mem = filling; pc = update_pc created.pc 1 Pc.looking }

abbrev joined : System
joined = record { mem = filling; pc = update_pc called_too.pc 1 (Pc.waiting 0) }

r_called : Reach le_keys nine called
r_called = later start (request 0 Move.call)

r_missed : Reach le_keys nine missed
r_missed = later r_called (request 0 (Move.miss refl))

r_created : Reach le_keys nine created
r_created = later r_missed (request 0 (Move.insert_pending none refl))

r_joined : Reach le_keys nine joined
unfolding insert_new
r_joined =
    later (later r_created (request 1 Move.call))
      (request 1 (Move.join (placeholder 0) 0 refl refl refl))

no_orphan_example : Progress r_joined 1 (joined.pc 1)
no_orphan_example = no_orphan r_joined 1 refl

never_stale_example :
    (joined.mem.fills 0 ≡ dropped)
    ⊎ ((joined.mem.fills 0 ≡ open_fill) × (i : ℕ) × (keeps (joined.pc i) ≡ some 0) × (nine i ≡ 9))
unfolding insert_new
never_stale_example = never_stale r_joined 9 0 (placeholder 0, refl, refl)

-- The client of request 0 goes away.
Step-Inv_example :
    Inv nine (drop_owned filling (Pc.subscribing 0)) (update_pc joined.pc 0 Pc.cancelled)
Step-Inv_example = Step-Inv le_keys (request 0 (Move.cancel refl)) (Reach-Inv le_keys r_joined)

-- The stream brings the record before request 0 has fetched it, and request 1 returns it.
abbrev record_bytes : List ℕ
record_bytes = layout le_keys discriminator some_record (5 ∷ [])

abbrev news : AccountUpdate
news = delegated_account 9 record_bytes 5

abbrev streamed_entry : DelegationEntry
streamed_entry = fetched_entry (to_option (from_bytes le_keys record_bytes)) 5

abbrev informed : System
informed = record created { mem = record filling { db = (on_update le_keys filling.db news).db } }

abbrev asking : System
asking = record informed { pc = update_pc informed.pc 1 Pc.looking }

abbrev pub answered : System
answered = record asking { pc = update_pc asking.pc 1 (Pc.returned streamed_entry.cached) }

there : asking.mem.db 9 ≡ some streamed_entry
unfolding on_update update_cached_entry insert_new
there = refl

pub r_answered : Reach le_keys nine answered
r_answered =
    later (later (later r_created (updater news)) (request 1 Move.call))
      (request 1 (Move.hit streamed_entry there (omega arith)))

pub has_returned : answered.pc 1 ≡ Pc.returned (some some_record)
has_returned =
    rw (from_bytes-layout le_keys discriminator (5 ∷ []) some_record refl some_record-IsInRange)
      refl

returned-Sources_example : Sources le_keys r_answered 9 some_record
returned-Sources_example = returned-Sources le_keys r_answered 1 some_record has_returned
