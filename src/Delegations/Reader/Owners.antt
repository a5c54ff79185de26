-- ===== src/Delegations/Reader/Owners.antt =====
-- Who settles a fill: the invariant of all requests and the updater.
pub mod Steps
use magic_router.Prelude.{
  ℕ, suc, ◌<◌, ◌≤◌, ◌≡◌, ◌≢◌, refl, sym, ap, ◌∙◌, ◌⊎◌, inl, inr, Bool, true, false, Option, none,
  some, ◌==◌, if◌then◌else◌, Bool-cases, Option-cases, arith,
}
use magic_router.Types.{Pubkey, ParsedDelegationRecord, PubkeyBytes}
use magic_router.Accounts.{PendingDelegationFill, DelegationEntry, DelegationsDb}
use magic_router.Delegations.{insert_new}
use magic_router.Delegations.Merging.{
  IsSettled, DbInv, merge-DbInv, remove-DbInv, insert-DbInv, on_update-DbInv,
}
use magic_router.Delegations.Fetching.{fetch-IsSettled}
use magic_router.Delegations.Reader.{
  FillState, open_fill, resolved, dropped, Shared, placeholder, set_pending_min, clear_fill, Pc,
  idle, looking, waiting, orphaned, refetching, remerging, missing, subscribing, unsubscribed,
  uncached, subscribed, racing, merging, settling, sending, returned, cancelled, owns, set_fill,
  drop_owned, is_done, Move, System, update_pc, init, Step, request, updater, Reach, start, later,
}
use magic_router.Delegations.Reader.Shrinking.{
  Waits, Shrinks, Shrinks-refl, merge-Shrinks, remove-Shrinks, set_pending_min-Shrinks,
  clear_fill-Shrinks, clear_fill-cleared, remove-removed, on_update-Shrinks,
}

-- The fill for which the request's entry may still wait.
abbrev pub keeps : Pc → Option PendingDelegationFill
keeps (uncached _) = none
keeps (sending _ _) = none
keeps p = owns p

-- The fill of another request that the request awaits.
abbrev pub awaits : Pc → Option PendingDelegationFill
awaits (waiting f) = some f
awaits _ = none

-- The fetched entry that the request is about to merge.
abbrev pub merges : Pc → Option DelegationEntry
merges (remerging e) = some e
merges (merging _ e) = some e
merges _ = none

-- Where the map still waits for a fill, the fill is dropped or a request for the key keeps it.
abbrev pub Kept : (ℕ → Pubkey) → Shared → (ℕ → Pc) → ℕ → ℕ → Type 0
Kept key m pc k f =
    (f < m.next_fill) × ((m.fills f ≡ dropped) ⊎ ((i : ℕ) × (keeps (pc i) ≡ some f) × (key i ≡ k)))

pub record Owned (key : ℕ → Pubkey) (m : Shared) (pc : ℕ → Pc) : Type 0 where
  pub unique : (i j f : ℕ) → owns (pc i) ≡ some f → owns (pc j) ≡ some f → i ≡ j
  pub owner_open : (i f : ℕ) → owns (pc i) ≡ some f → (f < m.next_fill) × (m.fills f ≡ open_fill)
  pub open_owned :
      (f : ℕ) → f < m.next_fill → m.fills f ≡ open_fill → (i : ℕ) × (owns (pc i) ≡ some f)
  pub waited : (k f : ℕ) → Waits m.db k f → Kept key m pc k f
  pub known : (i f : ℕ) → awaits (pc i) ≡ some f → f < m.next_fill

pub record Inv (key : ℕ → Pubkey) (m : Shared) (pc : ℕ → Pc) : Type 0 where
  pub settled : DbInv m.db
  pub plain : (i : ℕ) (e : DelegationEntry) → merges (pc i) ≡ some e → IsSettled e
  pub owned : Owned key m pc
  pub open owned use *

-- What a step of the request for `k` does to the fills.
pub data Change (k : Pubkey) (m m' : Shared) (p p' : Pc) : Type 0 where
  -- It owns what it owned.
  quiet :
      ((f : ℕ) → m'.fills f ≡ m.fills f)
      → m'.next_fill ≡ m.next_fill
      → Shrinks m.db m'.db
      → owns p' ≡ owns p
      → ((f : ℕ) → keeps p ≡ some f → (keeps p' ≡ some f) ⊎ (¬ Waits m'.db k f))
      → ((f : ℕ) → awaits p' ≡ some f → (f < m.next_fill))
      → Change k m m' p p'
  -- Its fill is over.
  ends :
      (f : ℕ) (v : FillState)
      → owns p ≡ some f
      → owns p' ≡ none
      → awaits p' ≡ none
      → ((g : ℕ) → m'.fills g ≡ set_fill m.fills f v g)
      → v ≢ open_fill
      → m'.next_fill ≡ m.next_fill
      → Shrinks m.db m'.db
      → (v ≡ dropped) ⊎ (keeps p ≡ none)
      → Change k m m' p p'
  -- It begins a fill.
  begins :
      owns p ≡ none
      → keeps p' ≡ some m.next_fill
      → owns p' ≡ some m.next_fill
      → awaits p' ≡ none
      → ((g : ℕ) → m'.fills g ≡ set_fill m.fills m.next_fill open_fill g)
      → m'.next_fill ≡ suc m.next_fill
      → ((j f : ℕ) → Waits m'.db j f → Waits m.db j f ⊎ ((j ≡ k) × (f ≡ m.next_fill)))
      → Change k m m' p p'

pub insert-Waits :
    (db : DelegationsDb) (k : Pubkey) (g : PendingDelegationFill) (evicted : Option Pubkey)
    (j f : ℕ)
    → Waits (insert_new db k (placeholder g) evicted).0 j f
    → Waits db j f ⊎ ((j ≡ k) × (f ≡ g))
unfolding insert_new
insert-Waits db k g none j f (e, h, w) = elim (Bool-cases (k == j)) [
  | inl hit ↦ inr (ground arith, ground arith)
  | inr miss ↦ inl (e, ground arith, w)
]
insert-Waits db k g (some x) j f (e, h, w) = elim (Bool-cases (k == j)) [
  | inl hit ↦ inr (ground arith, ground arith)
  | inr miss ↦ inl (e, ground arith, w)
]

pub keeps-owns : (p : Pc) (f : ℕ) → keeps p ≡ some f → owns p ≡ some f
keeps-owns (uncached _) f h = cc
keeps-owns (sending _ _) f h = cc
keeps-owns _ f h = h

-- The request `i` goes from `p` to `p'`. A match on `Change` needs the variable `p` for `pc i`.
module _ {key : ℕ → Pubkey} {m m' : Shared} {pc : ℕ → Pc} (inv : Owned key m pc) (i : ℕ) {p p' : Pc}
    (here : pc i ≡ p) where
  open inv use {unique, owner_open, open_owned, waited, known}

  Change-unique :
      Change (key i) m m' p p'
      → (a b f : ℕ) → owns (update_pc pc i p' a) ≡ some f
      → owns (update_pc pc i p' b) ≡ some f
      → a ≡ b
  Change-unique (quiet ef en sh eo ek ea) a b f x y = ground (arith, unique a b f)
  Change-unique (ends g v og ng na ef nv en sh why) a b f x y = ground (arith, unique a b f)
  Change-unique (begins ng kg og na ef en new) a b f x y =
      ground (arith, unique a b f, owner_open a f, owner_open b f)

  Change-owner_open :
      Change (key i) m m' p p'
      → (a f : ℕ) → owns (update_pc pc i p' a) ≡ some f
      → (f < m'.next_fill) × (m'.fills f ≡ open_fill)
  Change-owner_open (quiet ef en sh eo ek ea) a f x = ground (arith, owner_open a f, ef f)
  Change-owner_open (ends g v og ng na ef nv en sh why) a f x =
      ground (arith, owner_open a f, unique a i f, ef f)
  Change-owner_open (begins ng kg og na ef en new) a f x = ground (arith, owner_open a f, ef f)

  Change-open_owned :
      Change (key i) m m' p p'
      → (f : ℕ) → f < m'.next_fill
      → m'.fills f ≡ open_fill
      → (a : ℕ) × (owns (update_pc pc i p' a) ≡ some f)
  Change-open_owned (quiet ef en sh eo ek ea) f x y =
      let (a, o) = open_owned f (ground arith) (ground (arith, ef f)) in (a, ground arith)
  Change-open_owned (ends g v og ng na ef nv en sh why) f x y =
      let (a, o) = open_owned f (ground arith) (ground (arith, ef f)) in
      elim (Bool-cases (i == a)) [
        | inl mine ↦ absurd (nv (ground (arith, ef f)))
        | inr other ↦ (a, ground arith)
      ]
  Change-open_owned (begins ng kg og na ef en new) f x y = elim (Bool-cases (m.next_fill == f)) [
    | inl mine ↦ (i, ground arith)
    | inr old ↦ let (a, o) = open_owned f (ground arith) (ground (arith, ef f)) in (a, ground arith)
  ]

  Change-known :
      Change (key i) m m' p p'
      → (a f : ℕ) → awaits (update_pc pc i p' a) ≡ some f
      → f < m'.next_fill
  Change-known (quiet ef en sh eo ek ea) a f x = ground (arith, known a f, ea f)
  Change-known (ends g v og ng na ef nv en sh why) a f x = ground (arith, known a f)
  Change-known (begins ng kg og na ef en new) a f x = ground (arith, known a f)

  Change-waited :
      Change (key i) m m' p p' → (k f : ℕ) → Waits m'.db k f → Kept key m' (update_pc pc i p') k f
  Change-waited (quiet ef en sh eo ek ea) k f w =
      let (lt, who) = waited k f (sh k f w) in
      elim who [
        | inl gone ↦ (ground arith, inl (ground (arith, ef f)))
        | inr (a, kept, own) ↦ elim (Bool-cases (i == a)) [
          | inl mine ↦
              let same : i ≡ a = ground arith in
              elim (ek f (ground arith)) [
                | inl still ↦ (ground arith, inr (i, ground arith, ground arith))
                | inr over ↦ absurd (over (rw (ap key same, own) w))
              ]
          | inr other ↦ (ground arith, inr (a, ground arith, own))
        ]
      ]
  Change-waited (ends g v og ng na ef nv en sh why) k f w =
      let (lt, who) = waited k f (sh k f w) in
      elim who [
        | inl gone ↦ (ground arith, inl (ground (arith, ef f, owner_open i g)))
        | inr (a, kept, own) ↦ elim (Bool-cases (i == a)) [
          | inl mine ↦ (ground arith, inl (ground (arith, ef f, keeps-owns p f)))
          | inr other ↦ (ground arith, inr (a, ground arith, own))
        ]
      ]
  Change-waited (begins ng kg og na ef en new) k f w = elim (new k f w) [
    | inr (at_k, mine) ↦ (ground arith, inr (i, ground arith, ground arith))
    | inl old ↦
        let (lt, who) = waited k f old in
        elim who [
          | inl gone ↦ (ground arith, inl (ground (arith, ef f)))
          | inr (a, kept, own) ↦ (ground arith, inr (a, ground (arith, keeps-owns p f), own))
        ]
  ]

  pub Change-Owned : Change (key i) m m' p p' → Owned key m' (update_pc pc i p')
  Change-Owned c = record {
    unique = Change-unique c;
    owner_open = Change-owner_open c;
    open_owned = Change-open_owned c;
    waited = Change-waited c;
    known = Change-known c;
  }
