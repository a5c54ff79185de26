-- ===== src/Metrics/Guards.antt =====
-- The gauge of client subscriptions (src/metrics.rs).
use magic_router.Prelude.{
  ℕ, zero, suc, ◌+◌, ◌%◌, ◌≡◌, refl, inl, inr, Option, none, some, List, [], ◌∷◌, ◌++◌, ◌==◌,
  opt_eq, get_elem?, set, Option-cases, arith,
}
use magic_router.Metrics.{
  Label, value_of, word, Prometheus, Guarded, GuardEvent, subscription, notified, dropped,
  on_guard_event, guard_events,
}
use magic_router.Metrics.Requests.{one_if}

-- The handlers of a kind that are running.
unfoldable pub live : Label → List (Option Label) → ℕ
live k [] = 0
live k (g ∷ gs) = one_if (opt_eq g (some k)) + live k gs

live-append : (k : Label) (gs hs : List (Option Label)) → live k (gs ++ hs) ≡ live k gs + live k hs
unfolding live
live-append k [] hs = omega arith
live-append k (g ∷ gs) hs = omega (arith, live-append k gs hs)

live-set :
    (k : Label) (gs : List (Option Label)) (i : ℕ) (g h : Option Label)
    → get_elem? gs i ≡ some g
    → live k (set gs i h) + one_if (opt_eq g (some k)) ≡ live k gs + one_if (opt_eq h (some k))
unfolding live
live-set k [] i g h e = absurd (cc)
live-set k (x ∷ gs) zero g h e = let same : x ≡ g = ground arith in rw same (omega arith)
live-set k (x ∷ gs) (suc i) g h e = omega (arith, live-set k gs i g h e)

-- The gauge has moved with the number of handlers.
abbrev pub Follows : Label → Guarded → Guarded → Type 0
Follows k before after =
    (value_of (after.metrics.subscriptions k) + live k before.guards) % word
    ≡ (value_of (before.metrics.subscriptions k) + live k after.guards) % word

module _ (p : Prometheus) (k : Label) where
  dropped-Follows :
      (g : Guarded) (i : ℕ) (guard : Option Label)
      → get_elem? g.guards i ≡ some guard
      → Follows k g (on_guard_event p g (dropped i))
  unfolding on_guard_event
  dropped-Follows g i none e = rw (e, on_guard_event) refl
  dropped-Follows g i (some kind) e =
      rw (e, on_guard_event, p.decremented kind k g.metrics.subscriptions)
        (ground (arith, live-set k g.guards i (some kind) none e))

  notified-Follows :
      (g : Guarded) (i : ℕ) (guard : Option Label)
      → get_elem? g.guards i ≡ some guard
      → Follows k g (on_guard_event p g (notified i))
  unfolding on_guard_event
  notified-Follows g i none e = rw (e, on_guard_event) refl
  notified-Follows g i (some kind) e = rw (e, on_guard_event) refl

  on_guard_event-Follows : (g : Guarded) (e : GuardEvent) → Follows k g (on_guard_event p g e)
  unfolding on_guard_event
  on_guard_event-Follows g (subscription kind) =
      let one : live k (some kind ∷ []) ≡ one_if (kind == k) + 0 = unfold live in refl in
      rw (p.incremented kind k g.metrics.subscriptions)
        (ground (arith, live-append k g.guards (some kind ∷ []), one))
  on_guard_event-Follows g (notified i) = elim (Option-cases (get_elem? g.guards i)) [
    | inl unknown ↦ rw (unknown, on_guard_event) refl
    | inr (guard, there) ↦ notified-Follows g i guard there
  ]
  on_guard_event-Follows g (dropped i) = elim (Option-cases (get_elem? g.guards i)) [
    | inl unknown ↦ rw (unknown, on_guard_event) refl
    | inr (guard, there) ↦ dropped-Follows g i guard there
  ]

  guard_events-moved : (es : List GuardEvent) (g : Guarded) → Follows k g (guard_events p g es)
  unfolding guard_events
  guard_events-moved [] g = refl
  guard_events-moved (e ∷ es) g =
      omega (arith, on_guard_event-Follows g e, guard_events-moved es (on_guard_event p g e))

-- The gauge of a kind of subscriptions that starts at zero is the number of handlers of the kind
-- that are running (modulo 2 ^ 64), after any subscriptions, notifications and ends of handlers,
-- however often a guard is notified or dropped.
pub guard_events-live :
    (p : Prometheus) (k : Label) (es : List GuardEvent) (g : Guarded)
    → g.guards ≡ []
    → value_of (g.metrics.subscriptions k) ≡ 0
    → value_of ((guard_events p g es).metrics.subscriptions k) % word
      ≡ live k (guard_events p g es).guards % word
guard_events-live p k es g no_guards zeroed =
    let nobody : live k g.guards ≡ 0 = rw no_guards (unfold live in refl) in
    omega (arith, guard_events-moved p k es g)
