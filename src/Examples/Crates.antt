-- ===== src/Examples/Crates.antt =====
-- Stand-ins for the maps of the `scc` crate: an association list, and a cache that never forgets.
use magic_router.Prelude.{
  ℕ, ◌≡◌, ◌≢◌, ◌⊎◌, inl, inr, Option, none, some, ◌==◌, if◌then◌else◌, Bool-cases, arith,
}
use magic_router.Prelude.Dict.{
  Dict, lookup, insert, erase, contains_key, lookup-insert, lookup-erase,
}
use magic_router.Routes.Registry.{ScMap}
use magic_router.Transactions.{ScCache}

module _ {V : Type 0} where
  abbrev pub insert_absent : ℕ → V → Dict V → Dict V
  insert_absent k v m = if contains_key k m then m else insert k v m

  pub lookup-insert_absent :
      (k j : ℕ) (v : V) (m : Dict V)
      → lookup j (insert_absent k v m)
        ≡ (if contains_key k m then lookup j m else if k == j then some v else lookup j m)
  lookup-insert_absent k j v m = elim (Bool-cases (contains_key k m)) [
    | inl there ↦ rw there
    | inr new ↦ rw new (lookup-insert k j v m)
  ]

abbrev pub list_map : {V : Type 0} → ScMap V
list_map = record {
  insert_sync = insert_absent;
  remove_sync = erase;
  lookup-insert_sync = lookup-insert_absent;
  lookup-remove_sync = λ k j m. lookup-erase k j m;
}

module _ {V : Type 0} where
  abbrev pub first : Option V → V → Option V
  first none v = some v
  first (some w) v = some w

  abbrev pub put_first : ℕ → V → (ℕ → Option V) → ℕ → Option V
  put_first k v m j = if k == j then first (m k) v else m j

  pub put_first_absent :
      (k : ℕ) (v : V) (m : ℕ → Option V) → m k ≡ none → put_first k v m k ≡ some v
  put_first_absent k v m h = ground arith

  pub put_first_present :
      (k : ℕ) (v w : V) (m : ℕ → Option V) → m k ≡ some w → put_first k v m k ≡ some w
  put_first_present k v w m h = ground arith

  pub put_first_other :
      (k j : ℕ) (v : V) (m : ℕ → Option V)
      → k ≢ j
      → (put_first k v m j ≡ m j) ⊎ (put_first k v m j ≡ none)
  put_first_other k j v m h = inl (ground arith)

abbrev pub keep_all : {V : Type 0} → ScCache V
keep_all = record {
  put = put_first;
  put_absent = put_first_absent;
  put_present = put_first_present;
  put_other = put_first_other;
}
