-- ===== src/Delegations/Reader/Progress.antt =====
-- What the invariant gives: one owner to a fill, and no request that waits for nobody.
use magic_router.Prelude.{
  ℕ, ◌≡◌, ◌≢◌, refl, ap, ◌⊎◌, inl, inr, false, none, some, ◌==◌, Bool-cases, Option-cases, arith,
}
use magic_router.Types.{Pubkey, PubkeyBytes}
use magic_router.Accounts.{PendingDelegationFill}
use magic_router.Delegations.{RpcAnswer, remove_pending_fill}
use magic_router.Delegations.Reader.{
  FillState, open_fill, resolved, dropped, Shared, Pc, waiting, owns, is_done, System, Reach, Move,
  owns_pending_fill,
}
use magic_router.Delegations.Reader.Shrinking.{Waits}
use magic_router.Delegations.Reader.Owners.{keeps, awaits, keeps-owns}
use magic_router.Delegations.Reader.Owners.Steps.{Reach-Inv}

-- The request at `p` has a step other than to be cancelled.
abbrev pub CanMove : PubkeyBytes → Pubkey → Shared → Pc → Type 0
CanMove keys k m p = (m' : Shared) × (p' : Pc) × (_ : Move keys k m p m' p') × (p' ≢ Pc.cancelled)

-- A chain that never answers: the retries run out.
abbrev silent : ℕ → RpcAnswer
silent _ = RpcAnswer.failed

module _ (keys : PubkeyBytes) (k : Pubkey) (m : Shared) where
  looking-moves : CanMove keys k m Pc.looking
  looking-moves = elim (Option-cases (m.db k)) [
    | inl none' ↦ (m, Pc.missing, Move.miss none', λ q. cc)
    | inr (e, present) ↦ elim (Bool-cases (e.slot == 0)) [
      | inr filled ↦ (m, Pc.returned e.cached, Move.hit e present (ground arith), λ q. cc)
      | inl pending ↦ elim (Option-cases e.pending_fill) [
        | inl alone ↦ (
          m,
          Pc.refetching e.pending_min_context_slot,
          Move.refetch e present (ground arith) alone,
          λ q. cc,
        )
        | inr (f, held) ↦ (m, Pc.waiting f, Move.join e f present (ground arith) held, λ q. cc)
      ]
    ]
  ]

  -- An owner of a fill can always go on.
  owner-moves : (p : Pc) {f : PendingDelegationFill} → owns p ≡ some f → CanMove keys k m p
  owner-moves (Pc.subscribing f) o = (m, _, Move.subscribe_failed, λ q. cc)
  owner-moves (Pc.unsubscribed f) o = elim (Bool-cases (remove_pending_fill m.db k f).1) [
    | inl done ↦ (_, _, Move.removed done, λ q. cc)
    | inr lost ↦ (_, _, Move.not_removed lost, λ q. cc)
  ]
  owner-moves (Pc.uncached f) o = (m, _, Move.fetch_uncached silent, λ q. cc)
  owner-moves (Pc.subscribed f min) o = elim (Bool-cases (owns_pending_fill m.db k f)) [
    | inl done ↦ (_, _, Move.claim done, λ q. cc)
    | inr lost ↦ (_, _, Move.claim_lost lost, λ q. cc)
  ]
  owner-moves (Pc.racing f min) o = (m, _, Move.fetched silent, λ q. cc)
  owner-moves (Pc.merging f e) o = (_, _, Move.merge, λ q. cc)
  owner-moves (Pc.settling f r) o = (_, _, Move.settle, λ q. cc)
  owner-moves (Pc.sending f r) o = (_, _, Move.send, λ q. cc)
  owner-moves _ o = ground arith

module _ {keys : PubkeyBytes} {key : ℕ → Pubkey} {s : System} (r : Reach keys key s) where
  -- The request `i` at `p` can go on, or awaits another that can.
  abbrev pub Progress : ℕ → Pc → Type 0
  Progress i p =
      CanMove keys (key i) s.mem p
      ⊎ ((f : ℕ) × (j : ℕ) × (p ≡ waiting f)
          × (owns (s.pc j) ≡ some f)
          × CanMove keys (key j) s.mem (s.pc j))

  -- A request that awaits a fill, whose channel is in the given state.
  waiter-Progress :
      (i f : ℕ) (v : FillState) → s.pc i ≡ waiting f → s.mem.fills f ≡ v → Progress i (waiting f)
  waiter-Progress i f (resolved a) e h = inl (s.mem, _, Move.wait_result a h, λ q. cc)
  waiter-Progress i f dropped e h = inl (s.mem, _, Move.wait_error h, λ q. cc)
  waiter-Progress i f open_fill e h =
      let inv = Reach-Inv keys r in
      let (j, o) = inv.open_owned f (inv.known i f (ap awaits e)) h in
      inr (f, j, refl, o, owner-moves keys (key j) s.mem (s.pc j) o)

  progress : (i : ℕ) (p : Pc) → s.pc i ≡ p → is_done p ≡ false → Progress i p
  progress i Pc.looking e h = inl (looking-moves keys (key i) s.mem)
  progress i (Pc.waiting f) e h = waiter-Progress i f (s.mem.fills f) e refl
  progress i (Pc.orphaned f) e h = inl (_, _, Move.adopt, λ q. cc)
  progress i (Pc.refetching min) e h = inl (s.mem, _, Move.refetched silent, λ q. cc)
  progress i (Pc.remerging x) e h = inl (_, _, Move.remerge, λ q. cc)
  progress i Pc.missing e h = elim (Option-cases (s.mem.db (key i))) [
    | inl absent ↦ inl (_, _, Move.insert_pending none absent, λ q. cc)
    | inr (x, present) ↦ inl (s.mem, _, Move.insert_lost x present, λ q. cc)
  ]
  progress i (Pc.subscribing f) e h = inl (owner-moves keys (key i) s.mem (Pc.subscribing f) refl)
  progress i (Pc.unsubscribed f) e h = inl (owner-moves keys (key i) s.mem (Pc.unsubscribed f) refl)
  progress i (Pc.uncached f) e h = inl (owner-moves keys (key i) s.mem (Pc.uncached f) refl)
  progress i (Pc.subscribed f n) e h = inl (owner-moves keys (key i) s.mem (Pc.subscribed f n) refl)
  progress i (Pc.racing f n) e h = inl (owner-moves keys (key i) s.mem (Pc.racing f n) refl)
  progress i (Pc.merging f x) e h = inl (owner-moves keys (key i) s.mem (Pc.merging f x) refl)
  progress i (Pc.settling f a) e h = inl (owner-moves keys (key i) s.mem (Pc.settling f a) refl)
  progress i (Pc.sending f a) e h = inl (owner-moves keys (key i) s.mem (Pc.sending f a) refl)
  progress i _ e h = ground arith

  -- In every reachable state each request that has begun and has not ended can go on, or awaits a
  -- fill whose owner, another request, can go on. So no request waits for nobody, also after
  -- owners were cancelled, entries were evicted and the cache was cleared.
  pub no_orphan : (i : ℕ) → is_done (s.pc i) ≡ false → Progress i (s.pc i)
  no_orphan i h = progress i (s.pc i) refl h

  -- In every reachable state, if an entry waits for a fill, then the fill was dropped, or it is open
  -- and a request for this key has yet to settle the entry. The fill is never one that is resolved.
  pub never_stale :
      (k f : ℕ)
      → Waits s.mem.db k f
      → (s.mem.fills f ≡ dropped)
        ⊎ ((s.mem.fills f ≡ open_fill) × (i : ℕ) × (keeps (s.pc i) ≡ some f) × (key i ≡ k))
  never_stale k f w =
      let inv = Reach-Inv keys r in
      let (lt, who) = inv.waited k f w in
      elim who [
        | inl gone ↦ inl gone
        | inr (i, kept, own) ↦
            inr ((inv.owner_open i f (keeps-owns (s.pc i) f kept)).1, i, kept, own)
      ]
