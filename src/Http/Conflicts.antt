-- ===== src/Http/Conflicts.antt =====
-- The one node that a request is for (the loops of `blockhash_for_accounts` and
-- `send_transaction` in src/server/http.rs).
use mathlib.Core.Path.{fun_ext}
use magic_router.Prelude.{
  ℕ, ◌+◌, ◌≡◌, ◌≢◌, refl, ap, subst, ◌∙◌, ◌⊎◌, inl, inr, Bool, true, false, Option, none, some,
  List, [], ◌∷◌, ◌==◌, if◌then◌else◌, Bool-cases, Option-cases, All, arith,
}
use magic_router.Types.{Pubkey}
use magic_router.Error.{RouterResult, ok, err, conflicting_delegations, ◌>>=◌}
use magic_router.Http.{Authorities, replace_delegated, find_delegated, find_writable}

-- What the cache answers for each account, from the lookup after `n` others on.
unfoldable pub statuses : Authorities → ℕ → List Pubkey → List (Option Pubkey)
statuses authority n [] = []
statuses authority n (pk ∷ pks) = authority n pk ∷ statuses authority (n + 1) pks

abbrev pub Occurs : Pubkey → List (Option Pubkey) → Type 0
Occurs v [] = ⊥
Occurs v (s ∷ ss) = (s ≡ some v) ⊎ Occurs v ss

-- What a search finds in the answers `ss`, when it starts with `d`.
pub data Found (d : Option Pubkey) (ss : List (Option Pubkey)) (r : RouterResult (Option Pubkey))
    : Type 0 where
  -- No account is delegated.
  undelegated : r ≡ ok none → d ≡ none → All (λ s. s ≡ none) ss → Found d ss r
  -- All delegated accounts are delegated to one node.
  agreed :
      (v : Pubkey)
      → r ≡ ok (some v)
      → (d ≡ some v) ⊎ ((d ≡ none) × Occurs v ss)
      → All (λ s. (s ≡ none) ⊎ (s ≡ some v)) ss
      → Found d ss r
  -- Two accounts are delegated to different nodes.
  conflict :
      (v w : Pubkey)
      → r ≡ err conflicting_delegations
      → v ≢ w
      → (d ≡ some v) ⊎ Occurs v ss
      → Occurs w ss
      → Found d ss r

-- One more answer in front: none, one that the search agrees with, one that it does not.
Found-skip :
    {d : Option Pubkey} {ss : List (Option Pubkey)} {r : RouterResult (Option Pubkey)}
    (s : Option Pubkey)
    → s ≡ none
    → Found d ss r
    → Found d (s ∷ ss) r
Found-skip s h (undelegated e o a) = undelegated e o (h, a)
Found-skip s h (agreed v e (inl o) a) = agreed v e (inl o) (inl h, a)
Found-skip s h (agreed v e (inr (o, m)) a) = agreed v e (inr (o, inr m)) (inl h, a)
Found-skip s h (conflict v w e ne (inl o) m) = conflict v w e ne (inl o) (inr m)
Found-skip s h (conflict v w e ne (inr o) m) = conflict v w e ne (inr (inr o)) (inr m)

Found-first :
    {ss : List (Option Pubkey)} {r : RouterResult (Option Pubkey)} (s : Option Pubkey) (x : Pubkey)
    → s ≡ some x
    → Found (some x) ss r
    → Found none (s ∷ ss) r
Found-first s x h (undelegated e o a) = cc
Found-first s x h (agreed v e (inl o) a) = agreed v e (inr (refl, inl (h ∙ o))) (inr (h ∙ o), a)
Found-first s x h (agreed v e (inr (o, m)) a) = cc
Found-first s x h (conflict v w e ne (inl o) m) = conflict v w e ne (inr (inl (h ∙ o))) (inr m)
Found-first s x h (conflict v w e ne (inr o) m) = conflict v w e ne (inr (inr o)) (inr m)

Found-same :
    {ss : List (Option Pubkey)} {r : RouterResult (Option Pubkey)} (s : Option Pubkey) (x : Pubkey)
    → s ≡ some x
    → Found (some x) ss r
    → Found (some x) (s ∷ ss) r
Found-same s x h (undelegated e o a) = cc
Found-same s x h (agreed v e (inl o) a) = agreed v e (inl o) (inr (ground arith), a)
Found-same s x h (agreed v e (inr (o, m)) a) = cc
Found-same s x h (conflict v w e ne (inl o) m) = conflict v w e ne (inl o) (inr m)
Found-same s x h (conflict v w e ne (inr o) m) = conflict v w e ne (inr (inr o)) (inr m)

-- The accounts that a transaction may write.
unfoldable pub writable_keys : List (Pubkey × Bool) → List Pubkey
writable_keys [] = []
writable_keys ((pk, writable) ∷ keys) =
    if writable then pk ∷ writable_keys keys else writable_keys keys

module _ (authority : Authorities) where
  at_hit :
      (pks : List Pubkey) (n : ℕ) (d : Option Pubkey) (x : Pubkey)
      → ((d : Option Pubkey)
          → Found d (statuses authority (n + 1) pks) (find_delegated authority (n + 1) d pks))
      → Found d
          (some x ∷ statuses authority (n + 1) pks)
          (do d' ← replace_delegated d x; find_delegated authority (n + 1) d' pks)
  unfolding replace_delegated
  at_hit pks n none x ih = Found-first (some x) x refl (ih (some x))
  at_hit pks n (some old) x ih = elim (Bool-cases (old == x)) [
    | inl same ↦
        let e : x ≡ old = ground arith in
        rw same (
          subst
            (λ (y : Pubkey).
              Found (some y) (some x ∷ statuses authority (n + 1) pks)
                (find_delegated authority (n + 1) (some x) pks))
            e (Found-same (some x) x refl (ih (some x))))
    | inr other ↦ rw other (conflict old x refl (ground arith) (inl refl) (inl refl))
  ]

  find_delegated-Found :
      (pks : List Pubkey) (n : ℕ) (d : Option Pubkey)
      → Found d (statuses authority n pks) (find_delegated authority n d pks)
  unfolding find_delegated statuses replace_delegated
  find_delegated-Found [] n none = undelegated refl refl tt
  find_delegated-Found [] n (some v) = agreed v refl (inl refl) tt
  find_delegated-Found (pk ∷ pks) n d = elim (Option-cases (authority n pk)) [
    | inl skip ↦
        rw (skip, find_delegated) (Found-skip none refl (find_delegated-Found pks (n + 1) d))
    | inr (x, hit) ↦ rw (hit, find_delegated) (at_hit pks n d x (find_delegated-Found pks (n + 1)))
  ]

  -- For every list of accounts: if no account is delegated the search finds none; if all delegated
  -- accounts are delegated to one node, it finds that node; and it is an error exactly if two
  -- accounts are delegated to different nodes.
  pub find_delegated-none :
      (pks : List Pubkey)
      → Found none (statuses authority 0 pks) (find_delegated authority 0 none pks)
  find_delegated-none pks = find_delegated-Found pks 0 none

  -- The search of `send_transaction` is that of `blockhash_for_accounts` on the accounts that the
  -- transaction may write: the others are not even looked up.
  pub find_writable-eq :
      (keys : List (Pubkey × Bool)) (n : ℕ) (d : Option Pubkey)
      → find_writable authority n d keys ≡ find_delegated authority n d (writable_keys keys)
  unfolding find_writable find_delegated writable_keys
  find_writable-eq [] n d = refl
  find_writable-eq ((pk, false) ∷ keys) n d = find_writable-eq keys n d
  find_writable-eq ((pk, true) ∷ keys) n d = elim (Option-cases (authority n pk)) [
    | inl skip ↦ rw (skip, find_writable, find_delegated) (find_writable-eq keys (n + 1) d)
    | inr (x, hit) ↦
        rw (hit, find_writable, find_delegated)
          (ap (λ (k : Option Pubkey → RouterResult (Option Pubkey)). replace_delegated d x >>= k)
            (fun_ext (find_writable-eq keys (n + 1))))
  ]
