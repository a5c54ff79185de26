-- ===== src/Metrics.antt =====
-- src/metrics.rs: the series that the router counts in, and the layers around the server that
-- count. The labels of each series are numbers. A counter is a 64-bit integer, and so is a gauge,
-- by its remainder modulo 2 ^ 64.
pub mod Requests
pub mod Guards
pub mod Naming
pub mod Labels
use mathlib.Core.Option
use magic_router.Prelude.{
  ℕ, ◌+◌, ◌%◌, ◌≡◌, Bool, true, false, not, ◌||◌, Option, none, some, List, [], ◌∷◌, ◌++◌, ◌==◌,
  if◌then◌else◌, get_elem?, set,
}

abbrev pub Label : Type 0
Label = ℕ

-- The values of a vector's series, `none` for a series that does not exist.
abbrev pub Series : Type 0
Series = Label → Option ℕ

abbrev pub value_of : Option ℕ → ℕ
value_of none = 0
value_of (some n) = n

abbrev pub word : ℕ
word = 18446744073709551616

-- The vectors of the `prometheus` crate, as the function that a read computes, with what it
-- documents: a series starts at zero when it is first named, and `inc` and `dec` move it by one.
pub record Prometheus : Type 0 where
  pub with_label_values : Label → Series → Series
  pub inc : Label → Series → Series
  pub dec : Label → Series → Series
  pub named :
      (l m : Label) (v : Series)
      → with_label_values l v m ≡ (if l == m then some (value_of (v m)) else v m)
  pub incremented :
      (l m : Label) (v : Series)
      → inc l v m ≡ (if l == m then some ((value_of (v m) + 1) % word) else v m)
  pub decremented :
      (l m : Label) (v : Series)
      → dec l v m ≡ (if l == m then some ((value_of (v m) + 18446744073709551615) % word) else v m)

-- The labels of the source.
abbrev pub unknown : Label
unknown = 0

abbrev pub rpc : Label
rpc = 0

abbrev pub error_sources : List Label
error_sources = rpc ∷ 1 ∷ 2 ∷ []

abbrev pub upstream_targets : List Label
upstream_targets = 0 ∷ 1 ∷ []

abbrev pub sync_events : List Label
sync_events = 0 ∷ 1 ∷ 2 ∷ 3 ∷ []

abbrev pub transition_kinds : List Label
transition_kinds = 0 ∷ 1 ∷ 2 ∷ []

abbrev pub subscription_kinds : List Label
subscription_kinds = 0 ∷ 1 ∷ []

-- `durations` has the number of observations of each histogram. `methods` is `none` before `init`.
pub record Metrics : Type 0 where
  pub requests : Series
  pub durations : Series
  pub errors : Series
  pub upstream : Series
  pub sync : Series
  pub transitions : Series
  pub subscriptions : Series
  pub notifications : Series
  pub methods : Option (List Label)

module _ (p : Prometheus) where
  unfoldable pub name_all : List Label → Series → Series
  name_all [] v = v
  name_all (l ∷ ls) v = name_all ls (p.with_label_values l v)

  unfoldable pub counter : List Label → Series
  counter values = name_all values (λ _. none)

  unfoldable pub new_metrics : Metrics
  new_metrics = record {
    requests = p.with_label_values unknown (counter []);
    durations = p.with_label_values unknown (λ _. none);
    errors = counter error_sources;
    upstream = counter upstream_targets;
    sync = counter sync_events;
    transitions = counter transition_kinds;
    subscriptions = name_all subscription_kinds (λ _. none);
    notifications = counter subscription_kinds;
    methods = none;
  }

  -- The registered methods, at the first call only.
  unfoldable pub init : List Label → Metrics → Metrics
  init names m = elim m.methods [
    | some _ ↦ m
    | none ↦ record m {
      requests = name_all names m.requests;
      durations = name_all names m.durations;
      methods = some names;
    }
  ]

  unfoldable pub error : Label → Metrics → Metrics
  error source m = record m { errors = p.inc source m.errors }

  unfoldable pub sync_event : Label → Metrics → Metrics
  sync_event event m = record m { sync = p.inc event m.sync }

  unfoldable pub transition : Label → Metrics → Metrics
  transition kind m = record m { transitions = p.inc kind m.transitions }

  -- A request that goes to an upstream node is counted before it is sent.
  unfoldable pub send {ℓ} : {A : Type ℓ} → (target : Label) → (inner : A) → Metrics → Metrics × A
  send target inner m = (record m { upstream = p.inc target m.upstream }, inner)

abbrev pub find : Label → List Label → Option Label
find name [] = none
find name (l ∷ ls) = if l == name then some l else find name ls

abbrev pub unwrap_or : Label → Option Label → Label
unwrap_or default none = default
unwrap_or default (some l) = l

-- The series of a method: its own if it is registered.
unfoldable pub metrics_of : Metrics → (method_name : Label) → Label
metrics_of m method_name = unwrap_or unknown (Option.bind m.methods (find method_name))

-- A request that is being served; `timer` has the series that it will be counted in.
pub record RpcFuture : Type 0 where
  pub timer : Option Label

-- The process: its metrics, and the calls in the order in which they began.
pub record Serving : Type 0 where
  pub metrics : Metrics
  pub futures : List RpcFuture

-- `poll` has what the inner future gives: nothing yet, or a response and whether it is an error.
pub data CallEvent : Type 0 where
  call : (method_name : Label) → CallEvent
  poll : (i : ℕ) → Option Bool → CallEvent
  cancel : (i : ℕ) → CallEvent

abbrev pub responded : Option Bool → List Bool
responded none = []
responded (some is_error) = is_error ∷ []

module _ (p : Prometheus) where
  -- The end of a timer.
  unfoldable pub drop_timer : Option Label → Metrics → Metrics
  drop_timer none m = m
  drop_timer (some l) m = record m {
    requests = p.inc l m.requests;
    durations = p.inc l m.durations;
  }

  unfoldable pub count_response : (is_error : Bool) → Metrics → Metrics
  count_response is_error m = if is_error then error p rpc m else m

  unfoldable pub on_poll : RpcFuture → Option Bool → Metrics → Metrics × RpcFuture
  on_poll f none m = (m, f)
  on_poll f (some is_error) m =
      (count_response is_error (drop_timer f.timer m), record { timer = none })

  -- The responses that a round returns, by whether they are errors.
  unfoldable pub on_call_event : Serving → CallEvent → Serving × List Bool
  on_call_event s (call method_name) = (
    record s {
      futures = s.futures ++ record { timer = some (metrics_of s.metrics method_name) } ∷ [];
    },
    [],
  )
  on_call_event s (poll i response) = elim (get_elem? s.futures i) [
    | none ↦ (s, [])
    | some f ↦
        let (m, f') = on_poll f response s.metrics in
        (record { metrics = m; futures = set s.futures i f' }, responded response)
  ]
  on_call_event s (cancel i) = elim (get_elem? s.futures i) [
    | none ↦ (s, [])
    | some f ↦ (
      record {
        metrics = drop_timer f.timer s.metrics;
        futures = set s.futures i (record { timer = none });
      },
      [],
    )
  ]

  unfoldable pub serve : Serving → List CallEvent → Serving × List Bool
  serve s [] = (s, [])
  serve s (e ∷ es) =
      let (s', responses) = on_call_event s e in
      let (s'', later) = serve s' es in (s'', responses ++ later)

-- The guards of the client subscriptions, in the order in which they began, until they are dropped.
pub record Guarded : Type 0 where
  pub metrics : Metrics
  pub guards : List (Option Label)

pub data GuardEvent : Type 0 where
  subscription : (kind : Label) → GuardEvent
  notified : (i : ℕ) → GuardEvent
  dropped : (i : ℕ) → GuardEvent

module _ (p : Prometheus) where
  unfoldable pub on_guard_event : Guarded → GuardEvent → Guarded
  on_guard_event g (subscription kind) = record {
    metrics = record g.metrics {
      subscriptions = p.inc kind g.metrics.subscriptions;
      notifications = p.with_label_values kind g.metrics.notifications;
    };
    guards = g.guards ++ some kind ∷ [];
  }
  on_guard_event g (notified i) = elim (get_elem? g.guards i) [
    | none ↦ g
    | some none ↦ g
    | some (some kind) ↦ record g {
      metrics = record g.metrics { notifications = p.inc kind g.metrics.notifications };
    }
  ]
  on_guard_event g (dropped i) = elim (get_elem? g.guards i) [
    | none ↦ g
    | some none ↦ g
    | some (some kind) ↦ record {
      metrics = record g.metrics { subscriptions = p.dec kind g.metrics.subscriptions };
      guards = set g.guards i none;
    }
  ]

  unfoldable pub guard_events : Guarded → List GuardEvent → Guarded
  guard_events g [] = g
  guard_events g (e ∷ es) = guard_events (on_guard_event g e) es

-- What is done with an HTTP request: it goes on to the server, or it is a scrape, and the metrics
-- that are encoded are the answer, or the text of a failure with status 500.
pub record HttpRequest : Type 0 where
  pub is_get : Bool
  pub is_metrics_path : Bool
  pub is_upgrade : Bool

pub data HttpAnswer {ℓ} (A : Type ℓ) : Type ℓ where
  inner : A → HttpAnswer A
  scrape : (body : ℕ) → HttpAnswer A
  internal_server_error : HttpAnswer A

-- `encoded` is the text of the metrics, if they can be encoded.
unfoldable pub http_call {ℓ} :
    {A : Type ℓ} → HttpRequest → (inner_call : A) → (encoded : Option ℕ) → HttpAnswer A
http_call request inner_call encoded =
    if (not request.is_get || not request.is_metrics_path) || request.is_upgrade
    then inner inner_call
    else elim encoded [ none ↦ internal_server_error | some body ↦ scrape body ]
