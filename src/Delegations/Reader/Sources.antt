-- ===== src/Delegations/Reader/Sources.antt =====
-- Where the records come from that the steps of a request write, carry and send.
use magic_router.Prelude.{
  ℕ, ◌≡◌, refl, ap, ◌∙◌, ◌||◌, not, ltb, leb, ◌⊎◌, inl, inr, Option, none, some, ◌==◌, Bool-cases,
  Option-cases, arith,
}
use magic_router.Types.{Pubkey, ParsedDelegationRecord, PubkeyBytes, from_bytes, to_option}
use magic_router.Accounts.{PendingDelegationFill, DelegationEntry, DelegationsDb}
use magic_router.Delegations.{
  fetch, fetched_entry, insert_new, is_owned_by_other, merge_fetched, remove_pending_fill,
  AccountUpdate, delegated_account, undelegated_account, sync_interrupted, sync_terminated,
  update_cached_entry, on_update,
}
use magic_router.Delegations.Reader.{
  resolved, Shared, placeholder, set_pending_min, clear_fill, Pc, remerging, merging, settling,
  sending, returned, owns, give_up, Move,
}
use magic_router.Delegations.Reader.Shrinking.{Waits}
use magic_router.Delegations.Reader.Owners.{awaits}

-- The record that a request has in its hands.
abbrev pub carries : Pc → Option ParsedDelegationRecord
carries (remerging e) = e.cached
carries (merging _ e) = e.cached
carries (settling _ answer) = answer
carries (sending _ answer) = answer
carries (returned answer) = answer
carries _ = none

-- The map has the record for the key.
abbrev pub Holds : DelegationsDb → Pubkey → ParsedDelegationRecord → Type 0
Holds db k r = (e : DelegationEntry) × (db k ≡ some e) × (e.cached ≡ some r)

-- The request gets the record from the fill that it awaits.
abbrev pub Receives : Shared → Pc → ParsedDelegationRecord → Type 0
Receives m p r = (f : PendingDelegationFill) × (awaits p ≡ some f) × (m.fills f ≡ resolved (some r))

-- The update brings the record for the key.
abbrev pub Updated : PubkeyBytes → AccountUpdate → Pubkey → ParsedDelegationRecord → Type 0
Updated keys (delegated_account pda bytes slot) k r =
    (pda ≡ k) × (to_option (from_bytes keys bytes) ≡ some r)
Updated keys (undelegated_account pda slot) k r = ⊥
Updated keys sync_interrupted k r = ⊥
Updated keys sync_terminated k r = ⊥

-- The step is a fetch, and the base chain's answers come to the record.
abbrev pub Fetches :
    {keys : PubkeyBytes} {k : Pubkey} {m : Shared} {p : Pc} {m' : Shared} {p' : Pc}
    → Move keys k m p m' p'
    → ParsedDelegationRecord
    → Type 0
Fetches {keys} (Move.refetched answers) r = (fetch keys answers).entry.cached ≡ some r
Fetches {keys} (Move.fetch_uncached answers) r = (fetch keys answers).entry.cached ≡ some r
Fetches {keys} (Move.fetched answers) r = (fetch keys answers).entry.cached ≡ some r
Fetches _ r = ⊥

module _ (db : DelegationsDb) (k : Pubkey) where
  merge-Holds :
      (new : DelegationEntry) (own : Option PendingDelegationFill) (j : Pubkey)
      (r : ParsedDelegationRecord)
      → Holds (merge_fetched db k new own).0 j r
      → Holds db j r ⊎ ((k ≡ j) × (new.cached ≡ some r))
  unfolding merge_fetched
  merge-Holds new own j r (e, h, c) = elim (Bool-cases (k == j)) [
    | inr miss ↦ inl (e, ground arith, c)
    | inl hit ↦ elim (Option-cases (db k)) [
      | inl missing ↦ inl (e, ground arith, c)
      | inr (e₀, present) ↦
          elim (Bool-cases (is_owned_by_other e₀ own || not (ltb e₀.slot new.slot))) [
            | inl kept ↦ inl (e, ground arith, c)
            | inr replaced ↦ inr (ground arith, ground arith)
          ]
    ]
  ]

  merge-answer :
      (new : DelegationEntry) (own : Option PendingDelegationFill) (r : ParsedDelegationRecord)
      → (merge_fetched db k new own).1 ≡ some r
      → Holds db k r ⊎ (new.cached ≡ some r)
  unfolding merge_fetched
  merge-answer new own r h = elim (Option-cases (db k)) [
    | inl missing ↦ inr (ground arith)
    | inr (e₀, present) ↦ elim (Bool-cases (is_owned_by_other e₀ own || ltb e₀.slot new.slot)) [
      | inl fetched ↦ inr (ground arith)
      | inr cached ↦ inl (e₀, present, ground arith)
    ]
  ]

  remove-Holds :
      (f : PendingDelegationFill) (j : Pubkey) (r : ParsedDelegationRecord)
      → Holds (remove_pending_fill db k f).0 j r
      → Holds db j r
  unfolding remove_pending_fill
  remove-Holds f j r (e, h, c) = (e, ground arith, c)

  insert-Holds :
      (f : PendingDelegationFill) (evicted : Option Pubkey) (j : Pubkey)
      (r : ParsedDelegationRecord)
      → Holds (insert_new db k (placeholder f) evicted).0 j r
      → Holds db j r
  unfolding insert_new
  insert-Holds f none j r (e, h, c) = (e, ground arith, c)
  insert-Holds f (some x) j r (e, h, c) = (e, ground arith, c)

  set_pending_min-Holds :
      (f : PendingDelegationFill) (min : Option ℕ) (j : Pubkey) (r : ParsedDelegationRecord)
      → Holds (set_pending_min db k f min) j r
      → Holds db j r
  unfolding set_pending_min
  set_pending_min-Holds f min j r (e, h, c) = elim (Option-cases (db k)) [
    | inl missing ↦ (e, ground arith, c)
    | inr (e₀, present) ↦ elim (Bool-cases (k == j)) [
      | inl hit ↦ (e₀, ground arith, ground arith)
      | inr miss ↦ (e, ground arith, c)
    ]
  ]

  clear_fill-Holds :
      (f : PendingDelegationFill) (j : Pubkey) (r : ParsedDelegationRecord)
      → Holds (clear_fill db k f) j r
      → Holds db j r
  unfolding clear_fill
  clear_fill-Holds f j r (e, h, c) = elim (Option-cases (db k)) [
    | inl missing ↦ (e, ground arith, c)
    | inr (e₀, present) ↦ elim (Bool-cases (k == j)) [
      | inl hit ↦ (e₀, ground arith, ground arith)
      | inr miss ↦ (e, ground arith, c)
    ]
  ]

  update-Holds :
      (slot : ℕ) (new : Option ParsedDelegationRecord) (j : Pubkey) (r : ParsedDelegationRecord)
      → Holds (update_cached_entry db k slot new).db j r
      → Holds db j r ⊎ ((k ≡ j) × (new ≡ some r))
  unfolding update_cached_entry
  update-Holds slot new j r (e, h, c) = elim (Bool-cases (k == j)) [
    | inr miss ↦ inl (e, ground arith, c)
    | inl hit ↦ elim (Option-cases (db k)) [
      | inl missing ↦ inl (e, ground arith, c)
      | inr (e₀, present) ↦ elim (Bool-cases (leb slot e₀.slot)) [
        | inl old ↦ inl (e, ground arith, c)
        | inr applied ↦
            let same : fetched_entry new slot ≡ e = ground arith in
            inr (ground arith, ap (λ (x : DelegationEntry). x.cached) same ∙ c)
      ]
    ]
  ]

pub on_update-Holds :
    (keys : PubkeyBytes) (db : DelegationsDb) (u : AccountUpdate) (j : Pubkey)
    (r : ParsedDelegationRecord)
    → Holds (on_update keys db u).db j r
    → Holds db j r ⊎ Updated keys u j r
unfolding on_update
on_update-Holds keys db (delegated_account pda bytes slot) j r held =
    update-Holds db pda slot (to_option (from_bytes keys bytes)) j r held
on_update-Holds keys db (undelegated_account pda slot) j r held =
    elim (update-Holds db pda slot none j r held) [
      | inl before ↦ inl before
      | inr (_, e) ↦ absurd (cc)
    ]
on_update-Holds keys db sync_interrupted j r (e, h, c) = absurd (cc)
on_update-Holds keys db sync_terminated j r held = inl held

module _ {keys : PubkeyBytes} {k : Pubkey} {m : Shared} where
  -- A record that is in the map after a step was in it, or in the request's hands.
  pub Move-Holds :
      {p : Pc} {m' : Shared} {p' : Pc}
      → Move keys k m p m' p'
      → (j : Pubkey) (r : ParsedDelegationRecord) → Holds m'.db j r
      → Holds m.db j r ⊎ ((k ≡ j) × (carries p ≡ some r))
  Move-Holds (Move.adopt {f}) j r held = inl (remove-Holds m.db k f j r held)
  Move-Holds (Move.remerge {e}) j r held = merge-Holds m.db k e none j r held
  Move-Holds (Move.insert_pending evicted h) j r held =
      inl (insert-Holds m.db k m.next_fill evicted j r held)
  Move-Holds (Move.removed {f} h) j r held = inl (remove-Holds m.db k f j r held)
  Move-Holds (Move.claim {f} {min} h) j r held = inl (set_pending_min-Holds m.db k f min j r held)
  Move-Holds (Move.merge {f} {e}) j r held = merge-Holds m.db k e (some f) j r held
  Move-Holds (Move.settle {f}) j r held = inl (clear_fill-Holds m.db k f j r held)
  Move-Holds (Move.cancel {p} h) j r held = inl (given_up (owns p) held)
    where
      given_up : (o : Option PendingDelegationFill) → Holds (give_up m o).db j r → Holds m.db j r
      given_up none x = x
      given_up (some f) x = x
  Move-Holds _ j r held = inl held

  -- A record that a request has in its hands after a step.
  pub Move-carries :
      {p : Pc} {m' : Shared} {p' : Pc} (mv : Move keys k m p m' p') (r : ParsedDelegationRecord)
      → carries p' ≡ some r
      → (carries p ≡ some r) ⊎ (Holds m.db k r ⊎ (Fetches mv r ⊎ Receives m p r))
  Move-carries (Move.hit e h n) r c = inr (inl (e, h, c))
  Move-carries (Move.wait_result {f} x h) r c = inr (inr (inr (f, refl, ground arith)))
  Move-carries (Move.refetched answers) r c = inr (inr (inl c))
  Move-carries (Move.remerge {e}) r c = elim (merge-answer m.db k e none r c) [
    | inl held ↦ inr (inl held)
    | inr fetched ↦ inl fetched
  ]
  Move-carries (Move.fetch_uncached answers) r c = inr (inr (inl c))
  Move-carries (Move.fetched answers) r c = inr (inr (inl c))
  Move-carries (Move.streamed e h n) r c = inr (inl (e, h, c))
  Move-carries (Move.merge {f} {e}) r c = elim (merge-answer m.db k e (some f) r c) [
    | inl held ↦ inr (inl held)
    | inr fetched ↦ inl fetched
  ]
  Move-carries Move.settle r c = inl c
  Move-carries Move.send r c = inl c
  Move-carries _ r c = absurd (cc)

  -- The result of a fill after a step was its result, or the request sent it.
  pub Move-fills :
      {p : Pc} {m' : Shared} {p' : Pc}
      → Move keys k m p m' p'
      → (f : PendingDelegationFill) (r : ParsedDelegationRecord) → m'.fills f ≡ resolved (some r)
      → (m.fills f ≡ resolved (some r)) ⊎ ((owns p ≡ some f) × (carries p ≡ some r))
  Move-fills (Move.insert_pending evicted h) f r e = inl (ground arith)
  Move-fills (Move.not_removed {f = g} h) f r e = inl (ground arith)
  Move-fills (Move.claim_lost {f = g} h) f r e = inl (ground arith)
  Move-fills (Move.send {f = g} {r = x}) f r e = elim (Bool-cases (g == f)) [
    | inl mine ↦ inr (ground arith, ground arith)
    | inr other ↦ inl (ground arith)
  ]
  Move-fills (Move.cancel {p} h) f r e = inl (given_up (owns p) e)
    where
      given_up :
          (o : Option PendingDelegationFill)
          → (give_up m o).fills f ≡ resolved (some r)
          → m.fills f ≡ resolved (some r)
      given_up none x = x
      given_up (some g) x = ground arith
  Move-fills _ f r e = inl e

  -- A request that awaits a fill has found it on its entry.
  pub Move-awaits :
      {p : Pc} {m' : Shared} {p' : Pc}
      → Move keys k m p m' p'
      → (f : PendingDelegationFill) → awaits p' ≡ some f
      → Waits m.db k f
  Move-awaits (Move.join e g h z w) f a = (e, h, w ∙ a)
  Move-awaits _ f a = absurd (cc)
