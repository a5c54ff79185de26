-- ===== src/Metrics/Labels.antt =====
-- Which series there are (`Metrics::new` and `init` in src/metrics.rs).
use mathlib.Core.List.Memᴰ
use mathlib.Core.List.{Memᴰ}
use mathlib.Core.Option
use magic_router.Prelude.{
  ℕ, zero, suc, ◌+◌, ◌%◌, ◌≡◌, refl, sym, ap, subst, ◌∙◌, ◌⊎◌, inl, inr, Bool, true, false, Option,
  none, some, List, [], ◌∷◌, ◌++◌, ◌==◌, get_elem?, set, Bool-cases, Option-cases, arith,
}
use magic_router.Metrics.{
  Label, Series, value_of, word, Prometheus, unknown, Metrics, name_all, counter, new_metrics, init,
  find, metrics_of, RpcFuture, Serving, CallEvent, call, poll, cancel, drop_timer, count_response,
  error, on_poll, on_call_event, serve,
}
use magic_router.Metrics.Naming.{name_all-value, named_kept, name_all-Memᴰ, name_all-some}

get_elem?-append_one {ℓ} :
    {A : Type ℓ} (xs : List A) (x y : A) (i : ℕ)
    → get_elem? (xs ++ x ∷ []) i ≡ some y
    → (get_elem? xs i ≡ some y) ⊎ (x ≡ y)
get_elem?-append_one [] x y zero e = inr (ground arith)
get_elem?-append_one [] x y (suc i) e = absurd (cc)
get_elem?-append_one (z ∷ xs) x y zero e = inl e
get_elem?-append_one (z ∷ xs) x y (suc i) e = get_elem?-append_one xs x y i e

get_elem?-set_cases {ℓ} :
    {A : Type ℓ} (xs : List A) (i j : ℕ) (x y : A)
    → get_elem? (set xs i x) j ≡ some y
    → (get_elem? xs j ≡ some y) ⊎ (x ≡ y)
get_elem?-set_cases [] i j x y e = absurd (cc)
get_elem?-set_cases (z ∷ xs) zero zero x y e = inr (ground arith)
get_elem?-set_cases (z ∷ xs) zero (suc j) x y e = inl e
get_elem?-set_cases (z ∷ xs) (suc i) zero x y e = inl e
get_elem?-set_cases (z ∷ xs) (suc i) (suc j) x y e = get_elem?-set_cases xs i j x y e

-- The series of requests are those of the registered methods, and that of unknown ones.
pub record Bounded (names : List Label) (s : Serving) : Type 0 where
  pub methods : s.metrics.methods ≡ some names
  pub timers :
      (i : ℕ) (f : RpcFuture) (l : Label)
      → get_elem? s.futures i ≡ some f
      → f.timer ≡ some l
      → Memᴰ l (unknown ∷ names)
  pub series : (l : Label) (n : ℕ) → s.metrics.requests l ≡ some n → Memᴰ l (unknown ∷ names)
  pub complete : (l : Label) → Memᴰ l (unknown ∷ names) → (n : ℕ) × (s.metrics.requests l ≡ some n)

find-Memᴰ : (name l : Label) (ls : List Label) → find name ls ≡ some l → Memᴰ l ls
find-Memᴰ name l [] e = absurd (cc)
find-Memᴰ name l (k ∷ ls) e = elim (Bool-cases (k == name)) [
  | inl here ↦ let same : l ≡ k = ground arith in Memᴰ.head same
  | inr other ↦ Memᴰ.tail (find-Memᴰ name l ls (ground arith))
]

module _ (names : List Label) where
  metrics_of-Memᴰ :
      (m : Metrics) (name : Label)
      → m.methods ≡ some names
      → Memᴰ (metrics_of m name) (unknown ∷ names)
  unfolding metrics_of Option.bind
  metrics_of-Memᴰ m name e =
      rw (e, metrics_of)
        (elim (Option-cases (find name names)) [
          | inl other ↦ rw other (Memᴰ.head refl)
          | inr (l, there) ↦ rw there (Memᴰ.tail (find-Memᴰ name l names there))
        ])

  module _ (p : Prometheus) (s : Serving) (bounded : Bounded names s) where
    -- The metrics after a series of a method is counted in, with futures that go on.
    counted-Bounded :
        (timer : Option Label) (fs : List RpcFuture)
        → ((l : Label) → timer ≡ some l → Memᴰ l (unknown ∷ names))
        → ((i : ℕ) (f : RpcFuture) (l : Label)
            → get_elem? fs i ≡ some f
            → f.timer ≡ some l
            → Memᴰ l (unknown ∷ names))
        → Bounded names (record { metrics = drop_timer p timer s.metrics; futures = fs })
    unfolding drop_timer
    counted-Bounded none fs known timers = record {
      methods = bounded.methods;
      timers = timers;
      series = bounded.series;
      complete = bounded.complete;
    }
    counted-Bounded (some k) fs known timers = record {
      methods = bounded.methods;
      timers = timers;
      series = λ l n e. elim (Bool-cases (k == l)) [
        | inl here ↦
            let same : k ≡ l = ground arith in
            subst (λ (x : Label). Memᴰ x (unknown ∷ names)) same (known k refl)
        | inr other ↦ bounded.series l n (ground (arith, p.incremented k l s.metrics.requests))
      ];
      complete = λ l m. elim (Bool-cases (k == l)) [
        | inl here ↦ (
          (value_of (s.metrics.requests l) + 1) % word,
          rw (p.incremented k l s.metrics.requests, here) refl,
        )
        | inr other ↦
            let (n, e) = bounded.complete l m in
            (n, rw (p.incremented k l s.metrics.requests, other) e)
      ];
    }

    set_timers :
        (i : ℕ) (g : RpcFuture)
        → ((l : Label) → g.timer ≡ some l → Memᴰ l (unknown ∷ names))
        → (j : ℕ) (f : RpcFuture) (l : Label) → get_elem? (set s.futures i g) j ≡ some f
        → f.timer ≡ some l
        → Memᴰ l (unknown ∷ names)
    set_timers i g known j f l e timed = elim (get_elem?-set_cases s.futures i j g f e) [
      | inl before ↦ bounded.timers j f l before timed
      | inr same ↦ known l (ap (λ (x : RpcFuture). x.timer) same ∙ timed)
    ]

    ended-Bounded :
        (i : ℕ) (f : RpcFuture)
        → get_elem? s.futures i ≡ some f
        → Bounded names (record {
          metrics = drop_timer p f.timer s.metrics;
          futures = set s.futures i (record { timer = none });
        })
    ended-Bounded i f e =
        counted-Bounded f.timer (set s.futures i (record { timer = none }))
          (λ l timed. bounded.timers i f l e timed)
          (set_timers i (record { timer = none }) (λ l timed. absurd (cc)))

    responded-Bounded :
        (is_error : Bool)
        → Bounded names (record s { metrics = count_response p is_error s.metrics })
    unfolding count_response error
    responded-Bounded true = record {
      methods = bounded.methods;
      timers = bounded.timers;
      series = bounded.series;
      complete = bounded.complete;
    }
    responded-Bounded false = bounded

    called-Bounded :
        (name : Label)
        → Bounded names (record s {
          futures = s.futures ++ record { timer = some (metrics_of s.metrics name) } ∷ [];
        })
    called-Bounded name = record {
      methods = bounded.methods;
      timers = λ i f l e timed.
          elim (get_elem?-append_one s.futures (record { timer = some (metrics_of s.metrics name) })
            f i e) [
              | inl before ↦ bounded.timers i f l before timed
              | inr same ↦
                  let is : metrics_of s.metrics name ≡ l =
                    let e' = ap (λ (x : RpcFuture). x.timer) same ∙ timed in ground arith in
                  subst (λ (x : Label). Memᴰ x (unknown ∷ names)) is
                    (metrics_of-Memᴰ s.metrics name bounded.methods)
            ];
      series = bounded.series;
      complete = bounded.complete;
    }

module _ (names : List Label) (p : Prometheus) where
  on_poll-Bounded :
      (s : Serving) (i : ℕ) (f : RpcFuture) (response : Option Bool)
      → Bounded names s
      → get_elem? s.futures i ≡ some f
      → let (m, f') = on_poll p f response s.metrics in
        Bounded names (record { metrics = m; futures = set s.futures i f' })
  unfolding on_poll
  on_poll-Bounded s i f none bounded e = record {
    methods = bounded.methods;
    timers = set_timers names p s bounded i f (λ l timed. bounded.timers i f l e timed);
    series = bounded.series;
    complete = bounded.complete;
  }
  on_poll-Bounded s i f (some is_error) bounded e =
      responded-Bounded names p _ (ended-Bounded names p s bounded i f e) is_error

  on_call_event-Bounded :
      (s : Serving) (e : CallEvent) → Bounded names s → Bounded names (on_call_event p s e).0
  unfolding on_call_event
  on_call_event-Bounded s (call name) bounded = called-Bounded names p s bounded name
  on_call_event-Bounded s (poll i response) bounded = elim (Option-cases (get_elem? s.futures i)) [
    | inl nothing ↦ rw (nothing, on_call_event) bounded
    | inr (f, there) ↦ rw (there, on_call_event) (on_poll-Bounded s i f response bounded there)
  ]
  on_call_event-Bounded s (cancel i) bounded = elim (Option-cases (get_elem? s.futures i)) [
    | inl nothing ↦ rw (nothing, on_call_event) bounded
    | inr (f, there) ↦ rw (there, on_call_event) (ended-Bounded names p s bounded i f there)
  ]

  serve-Bounded :
      (es : List CallEvent) (s : Serving) → Bounded names s → Bounded names (serve p s es).0
  unfolding serve
  serve-Bounded [] s bounded = bounded
  serve-Bounded (e ∷ es) s bounded =
      serve-Bounded es (on_call_event p s e).0 (on_call_event-Bounded s e bounded)

  abbrev pub started : Serving
  started = record { metrics = init p names (new_metrics p); futures = [] }

  started-requests :
      (l : Label)
      → started.metrics.requests l ≡ name_all p names (p.with_label_values unknown (λ _. none)) l
  unfolding init new_metrics counter name_all
  started-requests l = refl

  started-Bounded : Bounded names started
  unfolding init new_metrics
  started-Bounded =
      let first : Series = p.with_label_values unknown (λ _. none) in
      record {
        methods = refl;
        timers = λ i f l e timed. absurd (cc);
        series = λ l n e. elim (name_all-some p l names first n (sym (started-requests l) ∙ e)) [
          | inr named ↦ Memᴰ.tail named
          | inl there ↦ elim (Bool-cases (unknown == l)) [
            | inl here ↦ let same : l ≡ unknown = ground arith in Memᴰ.head same
            | inr other ↦ absurd (ground (arith, p.named unknown l (λ _. none)))
          ]
        ];
        complete = λ l m. elim (Memᴰ.cases_cons m) [
          | inr named ↦
              (value_of (first l), started-requests l ∙ name_all-Memᴰ p l names first named)
          | inl same ↦ (
            0,
            started-requests l
                ∙ named_kept p l names first 0 (rw (p.named unknown l (λ _. none), same) refl),
          )
        ];
      }

  -- Before a request, each registered method and the one for unknown names have a series that
  -- counts zero, and after any calls, of whatever names, there are these series and no others.
  pub serve-series :
      (es : List CallEvent)
      → ((l : Label) → Memᴰ l (unknown ∷ names) → started.metrics.requests l ≡ some 0)
        × ((l : Label)
            → Memᴰ l (unknown ∷ names)
            → (n : ℕ) × ((serve p started es).0.metrics.requests l ≡ some n))
        × ((l : Label) (n : ℕ)
            → (serve p started es).0.metrics.requests l ≡ some n
            → Memᴰ l (unknown ∷ names))
  serve-series es =
      let first : Series = p.with_label_values unknown (λ _. none) in
      let after = serve-Bounded es started started-Bounded in
      (
        (λ l m.
            let (n, e) = started-Bounded.complete l m in
            let none_yet : value_of (started.metrics.requests l) ≡ 0 = rw (started-requests l) (
              name_all-value p l names first ∙ rw (p.named unknown l (λ _. none)) (ground arith)) in
            ground (arith)),
        after.complete,
        after.series,
      )
