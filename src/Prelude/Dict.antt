-- ===== src/Prelude/Dict.antt =====
-- Dictionaries with numeric keys as association lists: the standard library's `HashMap`, whose
-- iteration order is the order of the list. A second `insert` of a key replaces its value.
use Prim.Native.Nat.{ℕ}
use mathlib.Core.Bool.{Bool}
use mathlib.Core.List.{List, [], ◌∷◌, Memᴰ}
use mathlib.Core.Logic.{◌≢◌, inl, inr}
use mathlib.Core.Option.{Option, none, some}
use mathlib.Core.Path.{◌≡◌, refl, sym, ap}
use native.Mathlib.Omega.{arith}
use magic_router.Prelude.Tests.{Bool-cases, ◌==◌, if◌then◌else◌, is_some}

abbrev pub Dict {ℓ} : Type ℓ → Type ℓ
Dict V = List (ℕ × V)

module _ {ℓ} {V : Type ℓ} where
  unfoldable pub lookup : ℕ → Dict V → Option V
  lookup key [] = none
  lookup key ((k, v) ∷ rest) = if k == key then some v else lookup key rest

  unfoldable pub insert : ℕ → V → Dict V → Dict V
  insert key new [] = (key, new) ∷ []
  insert key new ((k, v) ∷ rest) =
      if k == key then (key, new) ∷ rest else (k, v) ∷ insert key new rest

  unfoldable pub erase : ℕ → Dict V → Dict V
  erase key [] = []
  erase key ((k, v) ∷ rest) = if k == key then erase key rest else (k, v) ∷ erase key rest

  abbrev pub contains_key : ℕ → Dict V → Bool
  contains_key k m = is_some (lookup k m)

  pub lookup-insert :
      (key other : ℕ) (new : V) (m : Dict V)
      → lookup other (insert key new m) ≡ (if key == other then some new else lookup other m)
  unfolding lookup insert
  lookup-insert key other new [] = refl
  lookup-insert key other new ((k, v) ∷ rest) = ground (arith, lookup-insert key other new rest)

  pub lookup-erase :
      (k j : ℕ) (m : Dict V) → lookup j (erase k m) ≡ (if k == j then none else lookup j m)
  unfolding lookup erase
  lookup-erase k j [] = ground arith
  lookup-erase k j ((i, w) ∷ m) = ground (arith, lookup-erase k j m)

  pub lookup-insert_self : (k : ℕ) (v : V) (m : Dict V) → lookup k (insert k v m) ≡ some v
  lookup-insert_self k v m = ground (arith, lookup-insert k k v m)

  pub lookup-insert_ne :
      (k j : ℕ) (v : V) (m : Dict V) → k ≢ j → lookup j (insert k v m) ≡ lookup j m
  lookup-insert_ne k j v m h = ground (arith, lookup-insert k j v m)

  pub lookup-erase_self : (k : ℕ) (m : Dict V) → lookup k (erase k m) ≡ none
  lookup-erase_self k m = ground (arith, lookup-erase k k m)

  pub lookup-erase_ne : (k j : ℕ) (m : Dict V) → k ≢ j → lookup j (erase k m) ≡ lookup j m
  lookup-erase_ne k j m h = ground (arith, lookup-erase k j m)

-- No key stands in a dictionary twice.
abbrev pub IsUnique {ℓ} : {V : Type ℓ} → Dict V → Type ℓ
IsUnique [] = Unit
IsUnique ((k, v) ∷ rest) = (lookup k rest ≡ none) × IsUnique rest

module _ {ℓ} {V : Type ℓ} where
  pub insert-IsUnique : (k : ℕ) (v : V) (m : Dict V) → IsUnique m → IsUnique (insert k v m)
  unfolding insert lookup
  insert-IsUnique k v [] u = (refl, tt)
  insert-IsUnique k v ((j, w) ∷ m) u = elim (Bool-cases (j == k)) [
    | inl same ↦ rw (same, insert) (ground arith, u.1)
    | inr other ↦
        rw (other, insert) (ground (arith, lookup-insert k j v m), insert-IsUnique k v m u.1)
  ]

  pub erase-IsUnique : (k : ℕ) (m : Dict V) → IsUnique m → IsUnique (erase k m)
  unfolding erase
  erase-IsUnique k [] u = tt
  erase-IsUnique k ((j, w) ∷ m) u = elim (Bool-cases (j == k)) [
    | inl same ↦ rw (same, erase) (erase-IsUnique k m u.1)
    | inr other ↦ rw (other, erase) (ground (arith, lookup-erase k j m), erase-IsUnique k m u.1)
  ]

  pub lookup_of_Memᴰ :
      (k : ℕ) (v : V) (m : Dict V) → IsUnique m → Memᴰ (k, v) m → lookup k m ≡ some v
  unfolding lookup
  lookup_of_Memᴰ k v [] u there = elim there [ ]
  lookup_of_Memᴰ k v ((j, w) ∷ m) u (Memᴰ.head e) =
      let same : w ≡ v = ap (λ (p : ℕ × V). p.1) (sym e) in
      let key : j ≡ k = ap (λ (p : ℕ × V). p.0) (sym e) in ground arith
  lookup_of_Memᴰ k v ((j, w) ∷ m) u (Memᴰ.tail there) =
      let below : lookup k m ≡ some v = lookup_of_Memᴰ k v m u.1 there in ground (arith, u.0)

  pub Memᴰ_of_lookup : (k : ℕ) (v : V) (m : Dict V) → lookup k m ≡ some v → Memᴰ (k, v) m
  unfolding lookup
  Memᴰ_of_lookup k v [] e = absurd (cc)
  Memᴰ_of_lookup k v ((j, w) ∷ m) e = elim (Bool-cases (j == k)) [
    | inl here ↦
        let same : w ≡ v = ground arith in
        let key : j ≡ k = ground arith in Memᴰ.head (rw (same, key))
    | inr other ↦ Memᴰ.tail (Memᴰ_of_lookup k v m (ground arith))
  ]
