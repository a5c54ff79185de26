-- ===== src/Metrics/Naming.antt =====
-- What the naming of series does (`Metrics::new` and `init` in src/metrics.rs).
use mathlib.Core.List.{Memᴰ}
use magic_router.Prelude.{
  ℕ, ◌≡◌, refl, ap, ◌∙◌, ◌⊎◌, inl, inr, some, List, [], ◌∷◌, ◌==◌, Bool-cases, arith,
}
use magic_router.Metrics.{Label, Series, value_of, Prometheus, name_all}

module _ (p : Prometheus) (m : Label) where
  pub name_all-value :
      (ls : List Label) (v : Series) → value_of (name_all p ls v m) ≡ value_of (v m)
  unfolding name_all
  name_all-value [] v = refl
  name_all-value (l ∷ ls) v =
      name_all-value ls (p.with_label_values l v) ∙ rw (p.named l m v) (ground arith)

  pub named_kept :
      (ls : List Label) (v : Series) (n : ℕ) → v m ≡ some n → name_all p ls v m ≡ some n
  unfolding name_all
  named_kept [] v n e = e
  named_kept (l ∷ ls) v n e =
      named_kept ls (p.with_label_values l v) n (rw (p.named l m v, e) (ground arith))

  pub name_all-Memᴰ :
      (ls : List Label) (v : Series) → Memᴰ m ls → name_all p ls v m ≡ some (value_of (v m))
  unfolding name_all
  name_all-Memᴰ [] v here = elim here [ ]
  name_all-Memᴰ (l ∷ ls) v (Memᴰ.head e) =
      named_kept ls (p.with_label_values l v) (value_of (v m)) (rw (p.named l m v) (ground arith))
  name_all-Memᴰ (l ∷ ls) v (Memᴰ.tail there) =
      name_all-Memᴰ ls (p.with_label_values l v) there ∙ ap some (rw (p.named l m v) (ground arith))

  pub name_all-some :
      (ls : List Label) (v : Series) (n : ℕ)
      → name_all p ls v m ≡ some n
      → (v m ≡ some n) ⊎ Memᴰ m ls
  unfolding name_all
  name_all-some [] v n e = inl e
  name_all-some (l ∷ ls) v n e = elim (name_all-some ls (p.with_label_values l v) n e) [
    | inr there ↦ inr (Memᴰ.tail there)
    | inl before ↦ elim (Bool-cases (l == m)) [
      | inl here ↦ let same : m ≡ l = ground arith in inr (Memᴰ.head same)
      | inr other ↦ inl (ground (arith, p.named l m v))
    ]
  ]
