-- ===== src/Metrics/Requests.antt =====
-- The counting of requests (src/metrics.rs).
use magic_router.Prelude.{
  ℕ, zero, suc, ◌+◌, ◌%◌, ◌≡◌, refl, sym, ◌∙◌, inl, inr, Bool, true, false, Option, none, some,
  List, [], ◌∷◌, ◌++◌, ◌==◌, opt_eq, get_elem?, set, Option-cases, arith,
}
use magic_router.Metrics.{
  Label, value_of, word, Prometheus, rpc, Metrics, error, metrics_of, RpcFuture, Serving, CallEvent,
  call, poll, cancel, drop_timer, count_response, on_poll, on_call_event, serve, responded,
}

abbrev pub one_if : Bool → ℕ
one_if true = 1
one_if false = 0

-- The requests of a method that are being served.
unfoldable pub in_flight : Label → List RpcFuture → ℕ
in_flight l [] = 0
in_flight l (f ∷ fs) = one_if (opt_eq f.timer (some l)) + in_flight l fs

-- The calls that belong to a method's series.
unfoldable pub called : Metrics → Label → List CallEvent → ℕ
called m l [] = 0
called m l (call name ∷ es) = one_if (metrics_of m name == l) + called m l es
called m l (poll i response ∷ es) = called m l es
called m l (cancel i ∷ es) = called m l es

unfoldable pub errors_in : List Bool → ℕ
errors_in [] = 0
errors_in (is_error ∷ responses) = one_if is_error + errors_in responses

in_flight-append :
    (l : Label) (fs gs : List RpcFuture) → in_flight l (fs ++ gs) ≡ in_flight l fs + in_flight l gs
unfolding in_flight
in_flight-append l [] gs = omega arith
in_flight-append l (f ∷ fs) gs = omega (arith, in_flight-append l fs gs)

errors_in-append : (xs ys : List Bool) → errors_in (xs ++ ys) ≡ errors_in xs + errors_in ys
unfolding errors_in
errors_in-append [] ys = omega arith
errors_in-append (x ∷ xs) ys = omega (arith, errors_in-append xs ys)

in_flight-set :
    (l : Label) (fs : List RpcFuture) (i : ℕ) (f g : RpcFuture)
    → get_elem? fs i ≡ some f
    → in_flight l (set fs i g) + one_if (opt_eq f.timer (some l))
      ≡ in_flight l fs + one_if (opt_eq g.timer (some l))
unfolding in_flight
in_flight-set l [] i f g e = absurd (cc)
in_flight-set l (x ∷ fs) zero f g e = let same : x ≡ f = ground arith in rw same (omega arith)
in_flight-set l (x ∷ fs) (suc i) f g e = omega (arith, in_flight-set l fs i f g e)

-- Between two states, `calls` more requests of a method have begun, and `failures` have been
-- answered with errors: each that has begun is counted, or is still being served.
pub record Counted (l : Label) (calls failures : ℕ) (before after : Serving) : Type 0 where
  pub requests :
      (value_of (after.metrics.requests l) + in_flight l after.futures) % word
      ≡ (value_of (before.metrics.requests l) + in_flight l before.futures + calls) % word
  pub durations :
      (value_of (after.metrics.durations l) + in_flight l after.futures) % word
      ≡ (value_of (before.metrics.durations l) + in_flight l before.futures + calls) % word
  pub errors :
      value_of (after.metrics.errors rpc) % word
      ≡ (value_of (before.metrics.errors rpc) + failures) % word
  pub methods : after.metrics.methods ≡ before.metrics.methods

module _ (p : Prometheus) (l : Label) where
  drop_timer-requests :
      (timer : Option Label) (m : Metrics)
      → (value_of ((drop_timer p timer m).requests l)) % word
        ≡ (value_of (m.requests l) + one_if (opt_eq timer (some l))) % word
  unfolding drop_timer
  drop_timer-requests none m = omega arith
  drop_timer-requests (some k) m = rw (p.incremented k l m.requests) (ground arith)

  drop_timer-durations :
      (timer : Option Label) (m : Metrics)
      → (value_of ((drop_timer p timer m).durations l)) % word
        ≡ (value_of (m.durations l) + one_if (opt_eq timer (some l))) % word
  unfolding drop_timer
  drop_timer-durations none m = omega arith
  drop_timer-durations (some k) m = rw (p.incremented k l m.durations) (ground arith)

  drop_timer-others :
      (timer : Option Label) (m : Metrics)
      → ((drop_timer p timer m).errors ≡ m.errors) × ((drop_timer p timer m).methods ≡ m.methods)
  unfolding drop_timer
  drop_timer-others none m = (refl, refl)
  drop_timer-others (some k) m = (refl, refl)

  -- A future that ends, and a future that is polled.
  ended-Counted :
      (s : Serving) (i : ℕ) (f : RpcFuture)
      → get_elem? s.futures i ≡ some f
      → Counted l 0 0 s (record {
        metrics = drop_timer p f.timer s.metrics;
        futures = set s.futures i (record { timer = none });
      })
  ended-Counted s i f e =
      let set_out = in_flight-set l s.futures i f (record { timer = none }) e in
      let (same_errors, same_methods) = drop_timer-others f.timer s.metrics in
      record {
        requests = omega (arith, set_out, drop_timer-requests f.timer s.metrics);
        durations = omega (arith, set_out, drop_timer-durations f.timer s.metrics);
        errors = rw same_errors (omega arith);
        methods = same_methods;
      }

  count_response-Counted :
      (s : Serving) (is_error : Bool)
      → Counted l 0 (one_if is_error) s (record s { metrics = count_response p is_error s.metrics })
  unfolding count_response error
  count_response-Counted s false = record {
    requests = omega arith;
    durations = omega arith;
    errors = omega arith;
    methods = refl;
  }
  count_response-Counted s true = record {
    requests = omega arith;
    durations = omega arith;
    errors = rw (p.incremented rpc rpc s.metrics.errors) (omega arith);
    methods = refl;
  }

  Counted-trans :
      {c c' c'' n n' n'' : ℕ} {s s' s'' : Serving}
      → Counted l c n s s'
      → Counted l c' n' s' s''
      → c + c' ≡ c''
      → n + n' ≡ n''
      → Counted l c'' n'' s s''
  Counted-trans a b calls failures = record {
    requests = omega (arith, a.requests, b.requests);
    durations = omega (arith, a.durations, b.durations);
    errors = omega (arith, a.errors, b.errors);
    methods = b.methods ∙ a.methods;
  }

  same-Counted : (s : Serving) → Counted l 0 0 s s
  same-Counted s = record {
    requests = omega arith;
    durations = omega arith;
    errors = omega arith;
    methods = refl;
  }

  on_poll-Counted :
      (s : Serving) (i : ℕ) (f : RpcFuture) (response : Option Bool)
      → get_elem? s.futures i ≡ some f
      → let (m, f') = on_poll p f response s.metrics in
        Counted l 0
          (errors_in (responded response))
          s
          (record { metrics = m; futures = set s.futures i f' })
  unfolding on_poll errors_in
  on_poll-Counted s i f none e =
      let kept = in_flight-set l s.futures i f f e in
      record {
        requests = omega (arith, kept);
        durations = omega (arith, kept);
        errors = omega arith;
        methods = refl;
      }
  on_poll-Counted s i f (some is_error) e =
      let s' : Serving = record {
        metrics = drop_timer p f.timer s.metrics;
        futures = set s.futures i (record { timer = none });
      } in
      Counted-trans (ended-Counted s i f e) (count_response-Counted s' is_error) (omega arith)
        (omega arith)

  on_call_event-Counted :
      (s : Serving) (e : CallEvent)
      → Counted l
          (called s.metrics l (e ∷ []))
          (errors_in (on_call_event p s e).1)
          s
          (on_call_event p s e).0
  unfolding on_call_event called errors_in
  on_call_event-Counted s (call name) =
      let now =
        in_flight-append l s.futures (record { timer = some (metrics_of s.metrics name) } ∷ []) in
      let new : in_flight l (record { timer = some (metrics_of s.metrics name) } ∷ [])
          ≡ one_if (metrics_of s.metrics name == l) + 0 =
        unfold in_flight in refl in
      record {
        requests = omega (arith, now, new);
        durations = omega (arith, now, new);
        errors = omega arith;
        methods = refl;
      }
  on_call_event-Counted s (poll i response) = elim (Option-cases (get_elem? s.futures i)) [
    | inl unknown ↦ rw (unknown, on_call_event) (same-Counted s)
    | inr (f, there) ↦ rw (there, on_call_event) (on_poll-Counted s i f response there)
  ]
  on_call_event-Counted s (cancel i) = elim (Option-cases (get_elem? s.futures i)) [
    | inl unknown ↦ rw (unknown, on_call_event) (same-Counted s)
    | inr (f, there) ↦ rw (there, on_call_event) (ended-Counted s i f there)
  ]

called_methods :
    (m m' : Metrics) (l : Label) (es : List CallEvent)
    → m.methods ≡ m'.methods
    → called m l es ≡ called m' l es
unfolding called metrics_of
called_methods m m' l [] same = refl
called_methods m m' l (call name ∷ es) same = rw (same, called_methods m m' l es same) refl
called_methods m m' l (poll i response ∷ es) same = called_methods m m' l es same
called_methods m m' l (cancel i ∷ es) same = called_methods m m' l es same

called_first :
    (m : Metrics) (l : Label) (e : CallEvent) (es : List CallEvent)
    → called m l (e ∷ es) ≡ called m l (e ∷ []) + called m l es
unfolding called
called_first m l (call name) es = omega arith
called_first m l (poll i response) es = omega arith
called_first m l (cancel i) es = omega arith

-- Whatever is called, polled and cancelled, and in whatever order: of each method, the calls that
-- have begun are those that the series of requests (and that of durations) has counted since then
-- and those that are still being served, and the errors that are counted are the responses with an
-- error. All counts are modulo 2 ^ 64.
pub serve-Counted :
    (p : Prometheus) (l : Label) (es : List CallEvent) (s : Serving)
    → Counted l (called s.metrics l es) (errors_in (serve p s es).1) s (serve p s es).0
unfolding serve called errors_in
serve-Counted p l [] s = same-Counted p l s
serve-Counted p l (e ∷ es) s =
    let first = on_call_event-Counted p l s e in
    let s' = (on_call_event p s e).0 in
    let later = serve-Counted p l es s' in
    Counted-trans p l first later
      (omega (
        arith,
        called_first s.metrics l e es,
        called_methods s'.metrics s.metrics l es first.methods,
      ))
      (sym (errors_in-append (on_call_event p s e).1 (serve p s' es).1))
