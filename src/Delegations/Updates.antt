-- ===== src/Delegations/Updates.antt =====
-- Stream updates of the delegations cache (`update_cached_entry` and `updater` in
-- src/cache/delegations.rs): they keep the newest state whatever order they come in.
use magic_router.Prelude.{
  ℕ, suc, ◌+◌, ◌≤◌, ◌<◌, ◌≡◌, ◌≢◌, refl, ◌&&◌, ◌⊎◌, inl, inr, Bool, true, false, Option, none, some,
  List, [], ◌∷◌, ◌++◌, leb, ltb, ◌==◌, Bool-cases, All, is_some, arith,
}
use magic_router.Types.{Pubkey, ParsedDelegationRecord}
use magic_router.Accounts.{DelegationEntry, DelegationsDb}
use magic_router.Delegations.{
  Metric, error, sync_event, transition, delegated, undelegated, redelegated, update_cached_entry,
  transitions, transition_of, fetched_entry,
}

-- Two updates give one map in either order, unless they are about one account and one slot.
pub update_commutes :
    (db : DelegationsDb) (k l s t : ℕ) (a b : Option ParsedDelegationRecord) (j : ℕ)
    → (k ≡ l → s ≢ t)
    → (update_cached_entry (update_cached_entry db k s a).db l t b).db j
      ≡ (update_cached_entry (update_cached_entry db l t b).db k s a).db j
unfolding update_cached_entry
update_commutes db k l s t a b j h = ground arith

-- An update of the stream, as `updater` applies it.
pub record Update : Type 0 where
  pub key : Pubkey
  pub slot : ℕ
  pub new : Option ParsedDelegationRecord

-- A run of updates: the map that they leave, and all that they count.
unfoldable pub apply_all : DelegationsDb → List Update → DelegationsDb × List Metric
apply_all db [] = (db, [])
apply_all db (u ∷ us) =
    let first = update_cached_entry db u.key u.slot u.new in
    let (last, counted) = apply_all first.db us in (last, first.counted ++ counted)

-- The entry is one of the updates' for the key.
abbrev pub ComesFrom : Pubkey → DelegationEntry → List Update → Type 0
ComesFrom k e [] = ⊥
ComesFrom k e (u ∷ us) = ((u.key ≡ k) × (e ≡ fetched_entry u.new u.slot)) ⊎ ComesFrom k e us

abbrev pub AtMost : Pubkey → ℕ → List Update → Type 0
AtMost k n = All (λ u. u.key ≡ k → u.slot ≤ n)

AtMost-mono : (k m n : ℕ) (us : List Update) → m ≤ n → AtMost k m us → AtMost k n us
AtMost-mono k m n [] h a = tt
AtMost-mono k m n (u ∷ us) h a = (λ e. omega (arith, a.0 e), AtMost-mono k m n us h a.1)

-- An update of another account, an old one, and a new one.
module _ (db : DelegationsDb) (k : Pubkey) (e : DelegationEntry) (cached : db k ≡ some e) where
  update_miss :
      (u : Update)
      → (u.key ≡ k → u.slot ≤ e.slot)
      → (update_cached_entry db u.key u.slot u.new).db k ≡ some e
  unfolding update_cached_entry
  update_miss u h = ground (arith, h)

  update_hit :
      (u : Update)
      → u.key ≡ k
      → e.slot < u.slot
      → (update_cached_entry db u.key u.slot u.new).db k ≡ some (fetched_entry u.new u.slot)
  unfolding update_cached_entry
  update_hit u h lt = ground arith

pub record Newest (k : Pubkey) (e : DelegationEntry) (us : List Update) (db : DelegationsDb)
    : Type 0 where
  pub last : DelegationEntry
  pub cached : db k ≡ some last
  pub grown : e.slot ≤ last.slot
  pub bound : AtMost k last.slot us
  pub origin : (last ≡ e) ⊎ ComesFrom k last us

is_newer :
    (k : ℕ) (e : DelegationEntry) (u : Update)
    → ((u.key ≡ k) × (e.slot < u.slot)) ⊎ (u.key ≡ k → u.slot ≤ e.slot)
is_newer k e u = elim (Bool-cases (u.key == k && ltb e.slot u.slot)) [
  | inl newer ↦ inl (ground arith, ground arith)
  | inr older ↦ inr (λ h. ground arith)
]

from_hit :
    (k : Pubkey) (last : DelegationEntry) (u : Update) (us : List Update) {e : DelegationEntry}
    → u.key ≡ k
    → (last ≡ fetched_entry u.new u.slot) ⊎ ComesFrom k last us
    → (last ≡ e) ⊎ ComesFrom k last (u ∷ us)
from_hit k last u us here (inl now) = inr (inl (here, now))
from_hit k last u us here (inr later) = inr (inr later)

from_miss :
    (k : Pubkey) (e : DelegationEntry) (u : Update) (us : List Update) {last : DelegationEntry}
    → (last ≡ e) ⊎ ComesFrom k last us
    → (last ≡ e) ⊎ ComesFrom k last (u ∷ us)
from_miss k e u us (inl old) = inl old
from_miss k e u us (inr later) = inr (inr later)

-- After any run of updates an entry of the cache is the newest of what it was and the updates for
-- its key: no update for the key has a later slot, and the entry is the old one or one of the
-- updates. So late, repeated and reordered updates never bring back an older state.
pub apply_all-Newest :
    (db : DelegationsDb) (k : Pubkey) (e : DelegationEntry) (us : List Update)
    → db k ≡ some e
    → Newest k e us (apply_all db us).0
unfolding apply_all
apply_all-Newest db k e [] h = record {
  last = e;
  cached = h;
  grown = omega arith;
  bound = tt;
  origin = inl refl;
}
apply_all-Newest db k e (u ∷ us) h = elim (is_newer k e u) [
  | inl (here, lt) ↦
      let n =
        apply_all-Newest (update_cached_entry db u.key u.slot u.new).db k
          (fetched_entry u.new u.slot) us (update_hit db k e h u here lt) in
      record {
        last = n.last;
        cached = n.cached;
        grown = omega (arith, n.grown);
        bound = (λ _. n.grown, n.bound);
        origin = from_hit k _ u us here n.origin;
      }
  | inr old ↦
      let n =
        apply_all-Newest (update_cached_entry db u.key u.slot u.new).db k e us
          (update_miss db k e h u old) in
      record {
        last = n.last;
        cached = n.cached;
        grown = n.grown;
        bound = (λ e. omega (arith, old e, n.grown), n.bound);
        origin = from_miss k e u us n.origin;
      }
]

abbrev pub one_if : Bool → ℕ
one_if true = 1
one_if false = 0

-- How often a transition is counted.
unfoldable pub delegations : List Metric → ℕ
delegations [] = 0
delegations (transition delegated ∷ ms) = suc (delegations ms)
delegations (_ ∷ ms) = delegations ms

unfoldable pub undelegations : List Metric → ℕ
undelegations [] = 0
undelegations (transition undelegated ∷ ms) = suc (undelegations ms)
undelegations (_ ∷ ms) = undelegations ms

delegations-append :
    (xs ys : List Metric) → delegations (xs ++ ys) ≡ delegations xs + delegations ys
unfolding delegations
delegations-append [] ys = omega arith
delegations-append (error ∷ xs) ys = delegations-append xs ys
delegations-append (sync_event v ∷ xs) ys = delegations-append xs ys
delegations-append (transition delegated ∷ xs) ys = omega (arith, delegations-append xs ys)
delegations-append (transition undelegated ∷ xs) ys = delegations-append xs ys
delegations-append (transition redelegated ∷ xs) ys = delegations-append xs ys

undelegations-append :
    (xs ys : List Metric) → undelegations (xs ++ ys) ≡ undelegations xs + undelegations ys
unfolding undelegations
undelegations-append [] ys = omega arith
undelegations-append (error ∷ xs) ys = undelegations-append xs ys
undelegations-append (sync_event v ∷ xs) ys = undelegations-append xs ys
undelegations-append (transition delegated ∷ xs) ys = undelegations-append xs ys
undelegations-append (transition undelegated ∷ xs) ys = omega (arith, undelegations-append xs ys)
undelegations-append (transition redelegated ∷ xs) ys = undelegations-append xs ys

abbrev pub is_delegated : DelegationEntry → ℕ
is_delegated e = one_if (is_some e.cached)

transitions-balance :
    (e : DelegationEntry) (new : Option ParsedDelegationRecord)
    → e.slot ≢ 0
    → delegations (transitions e new) + is_delegated e
      ≡ undelegations (transitions e new) + one_if (is_some new)
unfolding transitions transition_of delegations undelegations
transitions-balance e none h = ground arith
transitions-balance e (some r) h = ground arith

-- What one update of the key does to an initialised entry and to the counters.
pub record Balanced (db : DelegationsDb) (k : Pubkey) (e : DelegationEntry) (counted : List Metric)
    : Type 0 where
  pub last : DelegationEntry
  pub cached : db k ≡ some last
  pub initialised : last.slot ≢ 0
  pub balance : delegations counted + is_delegated e ≡ undelegations counted + is_delegated last

module _ (db : DelegationsDb) (k : Pubkey) (e : DelegationEntry) (s : ℕ)
    (new : Option ParsedDelegationRecord) (cached : db k ≡ some e) (initialised : e.slot ≢ 0) where
  update-Balanced :
      Balanced (update_cached_entry db k s new).db k e (update_cached_entry db k s new).counted
  unfolding update_cached_entry delegations undelegations
  update-Balanced = elim (Bool-cases (leb s e.slot)) [
    | inl old ↦ record {
      last = e;
      cached = ground arith;
      initialised = initialised;
      balance = ground arith;
    }
    | inr fresh ↦ record {
      last = fetched_entry new s;
      cached = ground arith;
      initialised = ground arith;
      balance = ground (arith, transitions-balance e new initialised);
    }
  ]

-- Over any run of updates for one initialised entry, the `delegated` and `undelegated` transitions
-- that are counted add up: delegated at the end is delegated at the start, plus the one count,
-- less the other.
apply_all-Balanced :
    (db : DelegationsDb) (k : Pubkey) (e : DelegationEntry) (us : List Update)
    → db k ≡ some e
    → e.slot ≢ 0
    → All (λ u. u.key ≡ k) us
    → Balanced (apply_all db us).0 k e (apply_all db us).1
unfolding apply_all delegations undelegations
apply_all-Balanced db k e [] h i a = record {
  last = e;
  cached = h;
  initialised = i;
  balance = omega arith;
}
apply_all-Balanced db k e (u ∷ us) h i a =
    let first : Balanced (update_cached_entry db u.key u.slot u.new).db k e
        (update_cached_entry db u.key u.slot u.new).counted =
      rw a.0 (update-Balanced db k e u.slot u.new h i) in
    let n =
      apply_all-Balanced (update_cached_entry db u.key u.slot u.new).db k first.last us first.cached
        first.initialised a.1 in
    record {
      last = n.last;
      cached = n.cached;
      initialised = n.initialised;
      balance = omega (
        arith,
        delegations-append (update_cached_entry db u.key u.slot u.new).counted
            (apply_all (update_cached_entry db u.key u.slot u.new).db us).1,
        undelegations-append (update_cached_entry db u.key u.slot u.new).counted
            (apply_all (update_cached_entry db u.key u.slot u.new).db us).1,
        first.balance,
        n.balance,
      );
    }
