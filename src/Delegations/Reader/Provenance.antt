-- ===== src/Delegations/Reader/Provenance.antt =====
-- Where the answers of `get_record` come from (src/cache/delegations.rs).
use magic_router.Prelude.{
  ℕ, ◌<◌, ◌≡◌, refl, sym, ap, subst, ◌∙◌, ◌⊎◌, inl, inr, Option, some, ◌==◌, if◌then◌else◌,
  Bool-cases, ==_refl, arith,
}
use magic_router.Types.{Pubkey, ParsedDelegationRecord, PubkeyBytes}
use magic_router.Delegations.{AccountUpdate, on_update}
use magic_router.Delegations.Reader.{
  resolved, Shared, Pc, returned, owns, System, update_pc, Move, request, updater, Reach, start,
  later,
}
use magic_router.Delegations.Reader.Shrinking.{Waits, on_update-Shrinks}
use magic_router.Delegations.Reader.Owners.{awaits, Inv, Owned, Change, quiet, ends, begins}
use magic_router.Delegations.Reader.Owners.Steps.{Move-Change, Reach-Inv}
use magic_router.Delegations.Reader.Sources.{
  carries, Holds, Updated, Fetches, Move-Holds, Move-carries, Move-fills, Move-awaits,
  on_update-Holds,
}

-- Each fill is for one key: that of its owner, of those who await it and of the entry that has it.
record Keyed (key : ℕ → Pubkey) (fill_key : ℕ → Pubkey) (m : Shared) (pc : ℕ → Pc) : Type 0 where
  owner : (i f : ℕ) → owns (pc i) ≡ some f → fill_key f ≡ key i
  waiter : (i f : ℕ) → awaits (pc i) ≡ some f → fill_key f ≡ key i
  entry : (k f : ℕ) → Waits m.db k f → fill_key f ≡ k

old_key : (next f : ℕ) (new old : Pubkey) → f < next → (if next == f then new else old) ≡ old
old_key next f new old lt = ground arith

module _ {key : ℕ → Pubkey} {m m' : Shared} {pc : ℕ → Pc} (inv : Owned key m pc)
    (fill_key : ℕ → Pubkey) (keyed : Keyed key fill_key m pc) (i : ℕ) {p p' : Pc} (here : pc i ≡ p)
    (joins : (f : ℕ) → awaits p' ≡ some f → Waits m.db (key i) f) where
  -- The keys after a step: a new fill is for the key of the request that makes it.
  Change-Keyed :
      Change (key i) m m' p p'
      → (next_key : ℕ → Pubkey) × Keyed key next_key m' (update_pc pc i p')
        × ((f : ℕ) (r : Option ParsedDelegationRecord)
            → m'.fills f ≡ resolved r
            → next_key f ≡ fill_key f)
  Change-Keyed (quiet ef en sh eo ek ea) = (
    fill_key,
    record {
      owner = λ a f h. elim (Bool-cases (i == a)) [
        | inl mine ↦ let same : i ≡ a = ground arith in keyed.owner i f (ground arith) ∙ ap key same
        | inr other ↦ keyed.owner a f (ground arith)
      ];
      waiter = λ a f h. elim (Bool-cases (i == a)) [
        | inl mine ↦
            let same : i ≡ a = ground arith in
            keyed.entry (key i) f (joins f (ground arith)) ∙ ap key same
        | inr other ↦ keyed.waiter a f (ground arith)
      ];
      entry = λ k f w. keyed.entry k f (sh k f w);
    },
    λ f r e. refl,
  )
  Change-Keyed (ends g v og ng na ef nv en sh why) = (
    fill_key,
    record {
      owner = λ a f h. keyed.owner a f (ground arith);
      waiter = λ a f h. keyed.waiter a f (ground arith);
      entry = λ k f w. keyed.entry k f (sh k f w);
    },
    λ f r e. refl,
  )
  Change-Keyed (begins ng kg og na ef en new) = (
    (λ f. if m.next_fill == f then key i else fill_key f),
    record {
      owner = λ a f h. elim (Bool-cases (i == a)) [
        | inl mine ↦
            let same : i ≡ a = ground arith in
            let fresh : f ≡ m.next_fill = ground arith in
            rw (fresh, ==_refl m.next_fill) (ap key same)
        | inr other ↦
            let lt : f < m.next_fill = (inv.owner_open a f (ground arith)).0 in
            old_key m.next_fill f (key i) (fill_key f) lt ∙ keyed.owner a f (ground arith)
      ];
      waiter = λ a f h.
          let same : awaits (pc a) ≡ some f = ground arith in
          old_key m.next_fill f (key i) (fill_key f) (inv.known a f same) ∙ keyed.waiter a f same;
      entry = λ k f w. elim (new k f w) [
        | inl old ↦
            old_key m.next_fill f (key i) (fill_key f) (inv.waited k f old).0 ∙ keyed.entry k f old
        | inr (at_k, fresh) ↦ rw (fresh, ==_refl m.next_fill) (sym at_k)
      ];
    },
    λ f r e. ground (arith, ef f),
  )

-- Every record that is in the map, in a request's hands or the result of a fill is from a source
-- for its key.
record Sourced (key : ℕ → Pubkey) (From : Pubkey → ParsedDelegationRecord → Type 0) (m : Shared)
    (pc : ℕ → Pc) : Type 0 where
  fill_key : ℕ → Pubkey
  keyed : Keyed key fill_key m pc
  held : (k : Pubkey) (r : ParsedDelegationRecord) → Holds m.db k r → From k r
  carried : (i : ℕ) (r : ParsedDelegationRecord) → carries (pc i) ≡ some r → From (key i) r
  sent : (f : ℕ) (r : ParsedDelegationRecord) → m.fills f ≡ resolved (some r) → From (fill_key f) r

module _ (keys : PubkeyBytes) {key : ℕ → Pubkey} where
  -- On the way to a state, a fetch for the key or an update of it came to the record.
  abbrev pub Sources : {s : System} → Reach keys key s → Pubkey → ParsedDelegationRecord → Type 0
  Sources start k r = ⊥
  Sources (later before (request i mv)) k r = Sources before k r ⊎ ((key i ≡ k) × Fetches mv r)
  Sources (later before (updater u)) k r = Sources before k r ⊎ Updated keys u k r

  module _ {From To : Pubkey → ParsedDelegationRecord → Type 0} {s : System}
      (widen : (k : Pubkey) (r : ParsedDelegationRecord) → From k r → To k r)
      (sourced : Sourced key From s.mem s.pc) where
    -- What a request has in its hands after its step.
    carried_after :
        (i : ℕ) {m : Shared} {p : Pc} (mv : Move keys (key i) s.mem (s.pc i) m p)
        → ((r : ParsedDelegationRecord) → Fetches mv r → To (key i) r)
        → (r : ParsedDelegationRecord) → carries p ≡ some r
        → To (key i) r
    carried_after i mv fetches r c = elim (Move-carries mv r c) [
      | inl before ↦ widen (key i) r (sourced.carried i r before)
      | inr (inl h) ↦ widen (key i) r (sourced.held (key i) r h)
      | inr (inr (inl fetched)) ↦ fetches r fetched
      | inr (inr (inr (f, a, e))) ↦
          widen (key i) r (subst (λ x. From x r) (sourced.keyed.waiter i f a) (sourced.sent f r e))
    ]

    request-Sourced :
        (inv : Inv key s.mem s.pc) (i : ℕ) {m : Shared} {p : Pc}
        (mv : Move keys (key i) s.mem (s.pc i) m p)
        → ((r : ParsedDelegationRecord) → Fetches mv r → To (key i) r)
        → Sourced key To m (update_pc s.pc i p)
    request-Sourced inv i {m} {p} mv fetches =
        let (next_key, keyed, kept) =
          Change-Keyed inv.owned sourced.fill_key sourced.keyed i refl (Move-awaits mv)
            (Move-Change inv i mv refl) in
        record {
          fill_key = next_key;
          keyed = keyed;
          held = λ k r h. elim (Move-Holds mv k r h) [
            | inl before ↦ widen k r (sourced.held k r before)
            | inr (same, c) ↦ subst (λ x. To x r) same (widen (key i) r (sourced.carried i r c))
          ];
          carried = λ j r c. elim (Bool-cases (i == j)) [
            | inr other ↦ widen (key j) r (sourced.carried j r (ground arith))
            | inl mine ↦
                let same : i ≡ j = ground arith in
                subst (λ x. To x r) (ap key same) (carried_after i mv fetches r (ground arith))
          ];
          sent = λ f r e. elim (Move-fills mv f r e) [
            | inl before ↦
                subst (λ x. To x r) (sym (kept f (some r) e))
                  (widen (sourced.fill_key f) r (sourced.sent f r before))
            | inr (o, c) ↦
                subst (λ x. To x r) (sym (kept f (some r) e ∙ sourced.keyed.owner i f o))
                  (widen (key i) r (sourced.carried i r c))
          ];
        }

    updater-Sourced :
        (u : AccountUpdate)
        → ((k : Pubkey) (r : ParsedDelegationRecord) → Updated keys u k r → To k r)
        → Sourced key To (record s.mem { db = (on_update keys s.mem.db u).db }) s.pc
    updater-Sourced u brings = record {
      fill_key = sourced.fill_key;
      keyed = record {
        owner = sourced.keyed.owner;
        waiter = sourced.keyed.waiter;
        entry = λ k f w. sourced.keyed.entry k f (on_update-Shrinks keys s.mem.db u k f w);
      };
      held = λ k r h. elim (on_update-Holds keys s.mem.db u k r h) [
        | inl before ↦ widen k r (sourced.held k r before)
        | inr brought ↦ brings k r brought
      ];
      carried = λ i r c. widen (key i) r (sourced.carried i r c);
      sent = λ f r e. widen (sourced.fill_key f) r (sourced.sent f r e);
    }

  Reach-Sourced : {s : System} (reach : Reach keys key s) → Sourced key (Sources reach) s.mem s.pc
  Reach-Sourced start = record {
    fill_key = λ f. 0;
    keyed = record { owner = λ i f h. cc; waiter = λ i f h. cc; entry = λ k f (e, h, w). cc };
    held = λ k r (e, h, c). cc;
    carried = λ i r c. cc;
    sent = λ f r e. cc;
  }
  Reach-Sourced (later before (request i mv)) =
      request-Sourced (λ k r x. inl x) (Reach-Sourced before) (Reach-Inv keys before) i mv
        (λ r fetched. inr (refl, fetched))
  Reach-Sourced (later before (updater u)) =
      updater-Sourced (λ k r x. inl x) (Reach-Sourced before) u (λ k r x. inr x)

  -- Whatever requests run and are cancelled beside the stream's updates, in any order, a request
  -- that returns a record returns one of its own key: the base chain answered with it to a fetch
  -- for that key, by this request or another, or an update of that key brought it.
  pub returned-Sources :
      {s : System} (reach : Reach keys key s) (i : ℕ) (r : ParsedDelegationRecord)
      → s.pc i ≡ returned (some r)
      → Sources reach (key i) r
  returned-Sources reach i r e = (Reach-Sourced reach).carried i r (rw e refl)
