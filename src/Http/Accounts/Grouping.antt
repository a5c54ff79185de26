-- ===== src/Http/Accounts/Grouping.antt =====
-- Which node each key of `getMultipleAccounts` is asked of (src/server/http.rs).
use mathlib.Core.List.Memᴰ
use mathlib.Core.List.{Memᴰ, append-nil, append_assoc}
use magic_router.Prelude.{
  ℕ, zero, suc, ◌+◌, ◌≡◌, ◌≢◌, refl, sym, ap, subst, ◌∙◌, inl, inr, true, Option, none, some, List,
  [], ◌∷◌, ◌++◌, ◌==◌, if◌then◌else◌, opt_eq, get_elem?, Bool-cases, arith,
}
use magic_router.Prelude.Dict.{lookup, IsUnique, insert-IsUnique, lookup-insert}
use magic_router.Types.{Pubkey}
use magic_router.Http.{Authorities}
use magic_router.Http.Accounts.{Indexed, Grouped, group_or_default, add_to_group, group_by_node}

-- The keys that a node, or the base chain, is asked for.
abbrev pub group_of : Grouped → Option Pubkey → Indexed
group_of groups (some identity) = group_or_default (lookup identity groups.0)
group_of groups none = groups.1

-- The same from the request alone: the keys whose delegation is `s`, with their places.
unfoldable pub asked_of : Authorities → ℕ → Option Pubkey → List Pubkey → Indexed
asked_of authority i s [] = []
asked_of authority i s (pk ∷ pks) =
    let rest = asked_of authority (i + 1) s pks in
    if opt_eq (authority i pk) s then (i, pk) ∷ rest else rest

pub opt_eq→eq : (a b : Option ℕ) → opt_eq a b ≡ true → a ≡ b
opt_eq→eq none none h = refl
opt_eq→eq none (some y) h = cc
opt_eq→eq (some x) none h = cc
opt_eq→eq (some x) (some y) h = let same : x ≡ y = ground arith in ap some same

opt_eq_refl : (a : Option ℕ) → opt_eq a a ≡ true
opt_eq_refl none = refl
opt_eq_refl (some x) = ground arith

add_to_group-group_of :
    (s : Option Pubkey) (x : ℕ × Pubkey) (groups : Grouped) (r : Option Pubkey)
    → group_of (add_to_group s x groups) r
      ≡ group_of groups r ++ (if opt_eq s r then x ∷ [] else [])
unfolding add_to_group
add_to_group-group_of none x (d, u) none = refl
add_to_group-group_of none x (d, u) (some r) = sym (append-nil (group_or_default (lookup r d)))
add_to_group-group_of (some s) x (d, u) none = sym (append-nil u)
add_to_group-group_of (some s) x (d, u) (some r) =
    let new = group_or_default (lookup s d) ++ x ∷ [] in
    elim (Bool-cases (s == r)) [
      | inl here ↦ let same : s ≡ r = ground arith in rw (lookup-insert s r new d, here, same) refl
      | inr other ↦
          rw (lookup-insert s r new d, other) (sym (append-nil (group_or_default (lookup r d))))
    ]

add_to_group-IsUnique :
    (s : Option Pubkey) (x : ℕ × Pubkey) (groups : Grouped)
    → IsUnique groups.0
    → IsUnique (add_to_group s x groups).0
unfolding add_to_group
add_to_group-IsUnique none x (d, u) unique = unique
add_to_group-IsUnique (some s) x (d, u) unique =
    insert-IsUnique s (group_or_default (lookup s d) ++ x ∷ []) d unique

module _ (authority : Authorities) where
  pub group_by_node-group_of :
      (i : ℕ) (pks : List Pubkey) (groups : Grouped) (s : Option Pubkey)
      → group_of (group_by_node authority i pks groups) s
        ≡ group_of groups s ++ asked_of authority i s pks
  unfolding group_by_node asked_of
  group_by_node-group_of i [] groups s = sym (append-nil (group_of groups s))
  group_by_node-group_of i (pk ∷ pks) groups s =
      group_by_node-group_of (i + 1) pks (add_to_group (authority i pk) (i, pk) groups) s
      ∙ ap (λ (front : Indexed). front ++ asked_of authority (i + 1) s pks)
          (add_to_group-group_of (authority i pk) (i, pk) groups s)
      ∙ append_assoc (group_of groups s) (if opt_eq (authority i pk) s then (i, pk) ∷ [] else [])
          (asked_of authority (i + 1) s pks)
      ∙ ap (λ (back : Indexed). group_of groups s ++ back) (ground arith)

  pub group_by_node-IsUnique :
      (i : ℕ) (pks : List Pubkey) (groups : Grouped)
      → IsUnique groups.0
      → IsUnique (group_by_node authority i pks groups).0
  unfolding group_by_node
  group_by_node-IsUnique i [] groups u = u
  group_by_node-IsUnique i (pk ∷ pks) groups u =
      group_by_node-IsUnique (i + 1) pks (add_to_group (authority i pk) (i, pk) groups)
        (add_to_group-IsUnique (authority i pk) (i, pk) groups u)

  -- What is asked of a node is a key of the request that is delegated to it, with its place.
  pub asked_of-place :
      (i : ℕ) (s : Option Pubkey) (pks : List Pubkey) (j : ℕ) (pk : Pubkey)
      → Memᴰ (j, pk) (asked_of authority i s pks)
      → (k : ℕ) × (i + k ≡ j) × (get_elem? pks k ≡ some pk) × (authority j pk ≡ s)
  unfolding asked_of
  asked_of-place i s [] j pk m = elim m [ ]
  asked_of-place i s (p ∷ pks) j pk m = elim (Bool-cases (opt_eq (authority i p) s)) [
    | inl asked ↦
        let here : asked_of authority i s (p ∷ pks) ≡ (i, p) ∷ asked_of authority (i + 1) s pks =
          ground arith in
        elim (Memᴰ.cases_cons (subst (Memᴰ (j, pk)) here m)) [
          | inl e ↦
              let place : j ≡ i = ap (λ (x : ℕ × Pubkey). x.0) e in
              let key : pk ≡ p = ap (λ (x : ℕ × Pubkey). x.1) e in
              (
                0,
                omega arith,
                ap some (sym key),
                rw (place, key) (opt_eq→eq (authority i p) s asked),
              )
          | inr below ↦
              let (k, place, there, delegated) = asked_of-place (i + 1) s pks j pk below in
              (suc k, omega arith, there, delegated)
        ]
    | inr other ↦
        let here : asked_of authority i s (p ∷ pks) ≡ asked_of authority (i + 1) s pks =
          ground arith in
        let (k, place, there, delegated) =
          asked_of-place (i + 1) s pks j pk (subst (Memᴰ (j, pk)) here m) in
        (suc k, omega arith, there, delegated)
  ]

  pub place-asked_of :
      (i : ℕ) (pks : List Pubkey) (k : ℕ) (pk : Pubkey)
      → get_elem? pks k ≡ some pk
      → Memᴰ (i + k, pk) (asked_of authority i (authority (i + k) pk) pks)
  unfolding asked_of
  place-asked_of i [] k pk e = absurd (cc)
  place-asked_of i (p ∷ pks) zero pk e =
      let same : p ≡ pk = ground arith in
      let at : i + 0 ≡ i = omega arith in
      rw (at, same, opt_eq_refl (authority i pk)) (Memᴰ.head refl)
  place-asked_of i (p ∷ pks) (suc k) pk e =
      let at : i + suc k ≡ i + 1 + k = omega arith in
      let below : Memᴰ (i + 1 + k, pk) (asked_of authority (i + 1) (authority (i + 1 + k) pk) pks) =
        place-asked_of (i + 1) pks k pk e in
      rw at (elim (Bool-cases (opt_eq (authority i p) (authority (i + 1 + k) pk))) [
        | inl asked ↦ rw asked (Memᴰ.tail below)
        | inr other ↦ rw other below
      ])

-- A node is in the groups only if it is asked for a key.
abbrev pub NoEmptyGroup : Grouped → Type 0
NoEmptyGroup groups =
    (identity : Pubkey) (group : Indexed) → lookup identity groups.0 ≡ some group → group ≢ []

append-not_nil : (xs : Indexed) (x : ℕ × Pubkey) → xs ++ x ∷ [] ≢ []
append-not_nil [] x e = cc
append-not_nil (y ∷ ys) x e = cc

add_to_group-NoEmptyGroup :
    (s : Option Pubkey) (x : ℕ × Pubkey) (groups : Grouped)
    → NoEmptyGroup groups
    → NoEmptyGroup (add_to_group s x groups)
unfolding add_to_group
add_to_group-NoEmptyGroup none x (d, u) full identity group e = full identity group e
add_to_group-NoEmptyGroup (some s) x (d, u) full identity group e =
    let new = group_or_default (lookup s d) ++ x ∷ [] in
    elim (Bool-cases (s == identity)) [
      | inl here ↦
          let same : new ≡ group = ground (arith, lookup-insert s identity new d) in
          subst (λ (xs : Indexed). xs ≢ []) same (append-not_nil (group_or_default (lookup s d)) x)
      | inr other ↦ full identity group (ground (arith, lookup-insert s identity new d))
    ]

pub group_by_node-NoEmptyGroup :
    (authority : Authorities) (i : ℕ) (pks : List Pubkey) (groups : Grouped)
    → NoEmptyGroup groups
    → NoEmptyGroup (group_by_node authority i pks groups)
unfolding group_by_node
group_by_node-NoEmptyGroup authority i [] groups full = full
group_by_node-NoEmptyGroup authority i (pk ∷ pks) groups full =
    group_by_node-NoEmptyGroup authority (i + 1) pks (add_to_group (authority i pk) (i, pk) groups)
      (add_to_group-NoEmptyGroup (authority i pk) (i, pk) groups full)
