-- ===== src/Delegations/Reader/Owners/Steps.antt =====
-- Every step keeps the invariant of the fills.
use magic_router.Prelude.{
  ℕ, ◌≡◌, refl, sym, ap, subst, ◌∙◌, inl, inr, Option, none, some, ◌==◌, Bool-cases, arith,
}
use magic_router.Types.{Pubkey, PubkeyBytes}
use magic_router.Accounts.{PendingDelegationFill, DelegationEntry, DelegationsDb}
use magic_router.Delegations.{fetch}
use magic_router.Delegations.Merging.{
  IsSettled, DbInv, merge-DbInv, remove-DbInv, insert-DbInv, on_update-DbInv,
}
use magic_router.Delegations.Fetching.{fetch-IsSettled}
use magic_router.Delegations.Reader.{
  resolved, dropped, Shared, placeholder, Pc, cancelled, owns, set_fill, give_up, System, init,
  Step, request, updater, Reach, start, later, Move,
}
use magic_router.Delegations.Reader.Shrinking.{
  Shrinks, Shrinks-refl, merge-Shrinks, remove-Shrinks, set_pending_min-Shrinks, clear_fill-Shrinks,
  clear_fill-cleared, set_pending_min-DbInv, clear_fill-DbInv, remove-removed, on_update-Shrinks,
}
use magic_router.Delegations.Reader.Owners.{
  keeps, awaits, merges, Inv, Change, quiet, ends, begins, Change-Owned, insert-Waits, keeps-owns,
}

module _ {key : ℕ → Pubkey} {m : Shared} {pc : ℕ → Pc} (inv : Inv key m pc) (i : ℕ) where
  -- A step that touches no fill and stays out of the map.
  still :
      {p p' : Pc}
      → owns p' ≡ owns p
      → keeps p' ≡ keeps p
      → awaits p' ≡ none
      → Change (key i) m m p p'
  still eo ek ea =
      quiet (λ f. refl) refl (Shrinks-refl m.db) eo (λ f h. inl (ek ∙ h)) (λ f h. ground arith)

  -- A step that touches no fill and changes the map.
  shrink :
      {p p' : Pc} {db : DelegationsDb}
      → Shrinks m.db db
      → owns p' ≡ owns p
      → keeps p' ≡ keeps p
      → awaits p' ≡ none
      → Change (key i) m (record m { db = db }) p p'
  shrink sh eo ek ea = quiet (λ f. refl) refl sh eo (λ f h. inl (ek ∙ h)) (λ f h. ground arith)

  -- A step that drops the sender which the request owned.
  gives_up :
      {p p' : Pc} (f : PendingDelegationFill)
      → owns p ≡ some f
      → owns p' ≡ none
      → awaits p' ≡ none
      → Change (key i) m (record m { fills = set_fill m.fills f dropped }) p p'
  gives_up f o o' a =
      ends f dropped o o' a (λ g. refl) (λ q. cc) refl (Shrinks-refl m.db) (inl refl)

  cancels :
      (p : Pc) (o : Option PendingDelegationFill)
      → owns p ≡ o
      → Change (key i) m (give_up m o) p cancelled
  cancels p none o =
      quiet (λ f. refl) refl (Shrinks-refl m.db) (sym o) (λ f h. ground (arith, keeps-owns p f h))
        (λ f h. ground arith)
  cancels p (some f) o = gives_up f o refl refl

  pub Move-Change :
      {keys : PubkeyBytes} {p : Pc} {m' : Shared} {p' : Pc}
      → Move keys (key i) m p m' p'
      → pc i ≡ p
      → Change (key i) m m' p p'
  Move-Change Move.call e = still refl refl refl
  Move-Change (Move.hit x h n) e = still refl refl refl
  Move-Change (Move.join x f h z w) e =
      quiet (λ f. refl) refl (Shrinks-refl m.db) refl (λ g q. inl q)
        (λ g q. ground (arith, (inv.waited (key i) f (x, h, w)).0))
  Move-Change (Move.refetch x h z w) e = still refl refl refl
  Move-Change (Move.miss h) e = still refl refl refl
  Move-Change (Move.wait_result r h) e = still refl refl refl
  Move-Change (Move.wait_error h) e = still refl refl refl
  Move-Change (Move.adopt {f}) e = shrink (remove-Shrinks m.db (key i) f) refl refl refl
  Move-Change (Move.refetched answers) e = still refl refl refl
  Move-Change (Move.remerge {e = x}) e =
      shrink (merge-Shrinks m.db (key i) x none (inv.plain i x (ap merges e)).no_fill) refl refl
        refl
  Move-Change (Move.insert_pending evicted h) e =
      begins refl refl refl refl (λ f. refl) refl (insert-Waits m.db (key i) m.next_fill evicted)
  Move-Change (Move.insert_lost x h) e = still refl refl refl
  Move-Change (Move.subscribe_ok slot) e = still refl refl refl
  Move-Change Move.subscribe_failed e = still refl refl refl
  Move-Change (Move.removed {f} h) e =
      quiet (λ g. refl) refl (remove-Shrinks m.db (key i) f) refl
        (λ g q. inr (λ (x, hx, w). ground (arith, remove-removed m.db (key i) f h)))
        (λ g q. ground arith)
  Move-Change (Move.not_removed {f} h) e = gives_up f refl refl refl
  Move-Change (Move.fetch_uncached answers) e = still refl refl refl
  Move-Change (Move.claim {f} {min} h) e =
      shrink (set_pending_min-Shrinks m.db (key i) f min) refl refl refl
  Move-Change (Move.claim_lost {f} h) e = gives_up f refl refl refl
  Move-Change (Move.fetched answers) e = still refl refl refl
  Move-Change (Move.streamed x h n) e = still refl refl refl
  Move-Change (Move.merge {f} {e = x}) e =
      shrink (merge-Shrinks m.db (key i) x (some f) (inv.plain i x (ap merges e)).no_fill) refl refl
        refl
  Move-Change (Move.settle {f}) e =
      quiet (λ g. refl) refl (clear_fill-Shrinks m.db (key i) f) refl
        (λ g q.
          let same : f ≡ g = ground arith in inr (rw (← same) (clear_fill-cleared m.db (key i) f)))
        (λ g q. ground arith)
  Move-Change (Move.send {f} {r}) e =
      ends f (resolved r) refl refl refl (λ g. refl) (λ q. cc) refl (Shrinks-refl m.db) (inr refl)
  Move-Change (Move.cancel {p} h) e = cancels p (owns p) refl

  Move-settled :
      {keys : PubkeyBytes} {p : Pc} {m' : Shared} {p' : Pc}
      → Move keys (key i) m p m' p'
      → pc i ≡ p
      → DbInv m'.db
  Move-settled Move.adopt e = remove-DbInv m.db inv.settled (key i) _
  Move-settled (Move.remerge {e = x}) e =
      merge-DbInv m.db inv.settled (key i) x none (inv.plain i x (ap merges e))
  Move-settled (Move.insert_pending evicted h) e =
      insert-DbInv m.db inv.settled (key i) (placeholder m.next_fill) evicted refl
  Move-settled (Move.removed h) e = remove-DbInv m.db inv.settled (key i) _
  Move-settled (Move.claim {f} {min} h) e = set_pending_min-DbInv m.db (key i) inv.settled f min
  Move-settled (Move.merge {f} {e = x}) e =
      merge-DbInv m.db inv.settled (key i) x (some f) (inv.plain i x (ap merges e))
  Move-settled (Move.settle {f}) e = clear_fill-DbInv m.db (key i) inv.settled f
  Move-settled (Move.cancel {p} h) e = gone (owns p)
    where
      gone : (o : Option PendingDelegationFill) → DbInv (give_up m o).db
      gone none = inv.settled
      gone (some f) = inv.settled
  Move-settled _ e = inv.settled

  Move-plain :
      {keys : PubkeyBytes} {p : Pc} {m' : Shared} {p' : Pc}
      → Move keys (key i) m p m' p'
      → (e : DelegationEntry) → merges p' ≡ some e
      → IsSettled e
  Move-plain {keys} (Move.refetched answers) e q =
      let same : (fetch keys answers).entry ≡ e = ground arith in
      subst IsSettled same (fetch-IsSettled keys answers)
  Move-plain {keys} (Move.fetched answers) e q =
      let same : (fetch keys answers).entry ≡ e = ground arith in
      subst IsSettled same (fetch-IsSettled keys answers)
  Move-plain _ e q = ground arith

module _ (keys : PubkeyBytes) {key : ℕ → Pubkey} where
  init-Inv : Inv key init.mem init.pc
  init-Inv = record {
    settled = λ k e h i. cc;
    plain = λ i e h. cc;
    owned = record {
      unique = λ i j f h. cc;
      owner_open = λ i f h. cc;
      open_owned = λ f lt. absurd (omega arith);
      waited = λ k f (e, h, w). cc;
      known = λ i f h. cc;
    };
  }

  -- Every step of a request, its cancellation included, and of the updater keeps the invariant: an
  -- initialised entry waits for nothing; a fill has at most one owner, and is open exactly as long as it
  -- has it; an entry waits for a fill that was dropped, or that a request for its key has yet to
  -- settle; and a request awaits only fills that were made.
  pub Step-Inv : {s t : System} → Step keys key s t → Inv key s.mem s.pc → Inv key t.mem t.pc
  Step-Inv {s} (request i {m} {p} mv) inv = record {
    settled = Move-settled inv i mv refl;
    plain = λ j e q. elim (Bool-cases (i == j)) [
      | inl mine ↦ Move-plain inv i mv e (ground arith)
      | inr other ↦ inv.plain j e (ground arith)
    ];
    owned = Change-Owned inv.owned i refl (Move-Change inv i mv refl);
  }
  Step-Inv {s} (updater u) inv = record {
    settled = on_update-DbInv s.mem.db inv.settled keys u;
    plain = inv.plain;
    owned = record {
      unique = inv.unique;
      owner_open = inv.owner_open;
      open_owned = inv.open_owned;
      waited = λ k f w. inv.waited k f (on_update-Shrinks keys s.mem.db u k f w);
      known = inv.known;
    };
  }

  pub Reach-Inv : {s : System} → Reach keys key s → Inv key s.mem s.pc
  Reach-Inv start = init-Inv
  Reach-Inv (later r st) = Step-Inv st (Reach-Inv r)
