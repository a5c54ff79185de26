-- ===== src/Examples/Counting.antt =====
-- The metrics at concrete inputs (src/metrics.rs): the methods 1 and 2 are registered, and a call
-- of an unknown name, a success and a cancelled call are served.
use mathlib.Core.List.{Memᴰ}
use magic_router.Prelude.{
  ℕ, ◌+◌, ◌%◌, ◌≡◌, refl, true, false, none, some, List, [], ◌∷◌, ◌==◌, if◌then◌else◌,
}
use magic_router.Metrics.{
  Label, value_of, word, unknown, Prometheus, new_metrics, Serving, CallEvent, call, poll, cancel,
  serve, Guarded, GuardEvent, subscription, notified, dropped, guard_events, name_all,
}
use magic_router.Metrics.Requests.{Counted, called, errors_in, serve-Counted}
use magic_router.Metrics.Guards.{live, guard_events-live}
use magic_router.Metrics.Labels.{started, serve-series}

abbrev pub plain_counters : Prometheus
plain_counters = record {
  with_label_values = λ l v m. if l == m then some (value_of (v m)) else v m;
  inc = λ l v m. if l == m then some ((value_of (v m) + 1) % word) else v m;
  dec = λ l v m. if l == m then some ((value_of (v m) + 18446744073709551615) % word) else v m;
  named = λ l m v. refl;
  incremented = λ l m v. refl;
  decremented = λ l m v. refl;
}

abbrev start : Serving
start = started (1 ∷ 2 ∷ []) plain_counters

abbrev some_calls : List CallEvent
some_calls =
    call 1
    ∷ call 9
    ∷ poll 0 none
    ∷ poll 1 (some true)
    ∷ call 2
    ∷ cancel 2
    ∷ poll 0 (some false)
    ∷ []

serve-Counted_example :
    Counted 1
      (called start.metrics 1 some_calls)
      (errors_in (serve plain_counters start some_calls).1)
      start
      (serve plain_counters start some_calls).0
serve-Counted_example = serve-Counted plain_counters 1 some_calls start

serve-series_example :
    let after = (serve plain_counters start some_calls).0.metrics.requests in
    ((l : Label) → Memᴰ l (unknown ∷ 1 ∷ 2 ∷ []) → start.metrics.requests l ≡ some 0)
    × ((l : Label) → Memᴰ l (unknown ∷ 1 ∷ 2 ∷ []) → (n : ℕ) × (after l ≡ some n))
    × ((l : Label) (n : ℕ) → after l ≡ some n → Memᴰ l (unknown ∷ 1 ∷ 2 ∷ []))
serve-series_example = serve-series (1 ∷ 2 ∷ []) plain_counters some_calls

abbrev no_guards : Guarded
no_guards = record { metrics = new_metrics plain_counters; guards = [] }

abbrev some_guards : List GuardEvent
some_guards =
    subscription 0 ∷ subscription 1 ∷ notified 0 ∷ subscription 0 ∷ dropped 0 ∷ dropped 0 ∷ []

at_zero : value_of (no_guards.metrics.subscriptions 0) ≡ 0
unfolding new_metrics name_all
at_zero = refl

guard_events-live_example :
    value_of ((guard_events plain_counters no_guards some_guards).metrics.subscriptions 0) % word
    ≡ live 0 (guard_events plain_counters no_guards some_guards).guards % word
guard_events-live_example = guard_events-live plain_counters 0 some_guards no_guards refl at_zero
