-- ===== src/Startup/Waiting.antt =====
-- What the start of the router has waited for when the dispatcher wakes it (`connecting` and
-- `connections` in src/pubsub/dispatch.rs): a dispatcher against the events that it has had.
use mathlib.Core.List.Memᴰ
use mathlib.Core.List.{Memᴰ, append_assoc, append-nil}
use magic_router.Prelude.{
  ◌≡◌, ◌≢◌, ◌⊎◌, refl, sym, ap, subst, inl, inr, Bool, true, some, List, [], ◌∷◌, ◌++◌, ◌==◌,
  is_empty, Bool-cases, Option-cases, arith,
}
use magic_router.Prelude.Dict.{lookup, insert, lookup-insert, lookup-erase}
use magic_router.Types.{Url}
use magic_router.Routes.{WsUpstreamState}
use magic_router.Pubsub.{Channel, Subscription}
use magic_router.Pubsub.Dispatch.{
  SubscriptionDispatcher, on_state, on_subscription, on_connected, finish, Event, state,
  subscription, connected, on_event,
}
use magic_router.Pubsub.Dispatch.Registering.{on_events}

-- The connections to an upstream have been made.
abbrev pub WasConnected : Url → List Event → Type 0
WasConnected url h = (tx : Channel) × Memᴰ (connected url tx) h

-- After the events `h`, each node that the dispatcher was told of is still in the list of those to
-- connect to, or was connected to; and only such nodes are served.
record HasHistory (h : List Event) (d : SubscriptionDispatcher) : Type 0 where
  told :
      (s : WsUpstreamState)
      → Memᴰ (state s) h
      → s.is_online ≡ true
      → Memᴰ s.url d.connecting ⊎ WasConnected s.url h
  served : (url : Url) (tx : Channel) → lookup url d.upstreams ≡ some tx → WasConnected url h

finish-Memᴰ : (url u : Url) (us : List Url) → Memᴰ u us → (url ≡ u) ⊎ Memᴰ u (finish url us)
unfolding finish
finish-Memᴰ url u [] m = elim m [ ]
finish-Memᴰ url u (x ∷ us) (Memᴰ.head e) = elim (Bool-cases (x == url)) [
  | inl same ↦ inl (ground arith)
  | inr other ↦ inr (rw (other, finish) (Memᴰ.head e))
]
finish-Memᴰ url u (x ∷ us) (Memᴰ.tail m) = elim (Bool-cases (x == url)) [
  | inl same ↦ inr (rw (same, finish) m)
  | inr other ↦ elim (finish-Memᴰ url u us m) [
    | inl e ↦ inl e
    | inr later ↦ inr (rw (other, finish) (Memᴰ.tail later))
  ]
]

is_empty-nil : (us : List Url) → is_empty us ≡ true → us ≡ []
is_empty-nil [] e = refl
is_empty-nil (u ∷ us) e = absurd (ground arith)

earlier :
    {url : Url} (h : List Event) (e : Event) → WasConnected url h → WasConnected url (h ++ e ∷ [])
earlier h e (tx, m) = (tx, Memᴰ.append_left (e ∷ []) m)

module _ (h : List Event) (d : SubscriptionDispatcher) (past : HasHistory h d) where
  -- The dispatcher connects to no fewer nodes and serves no more, and the event tells of none.
  keeps :
      (e : Event) (d' : SubscriptionDispatcher)
      → ((s : WsUpstreamState) → state s ≡ e → s.is_online ≡ true → WasConnected s.url h)
      → d'.connecting ≡ d.connecting
      → ((url : Url) (tx : Channel)
          → lookup url d'.upstreams ≡ some tx
          → lookup url d.upstreams ≡ some tx)
      → HasHistory (h ++ e ∷ []) d'
  keeps e d' news same fewer = record {
    told = λ s m online. elim (Memᴰ.append_cases h m) [
      | inl before ↦ elim (past.told s before online) [
        | inl pending ↦ inl (subst (Memᴰ s.url) (sym same) pending)
        | inr made ↦ inr (earlier h e made)
      ]
      | inr now ↦ inr (earlier h e (news s (Memᴰ.eq_of_singleton now) online))
    ];
    served = λ url tx there. earlier h e (past.served url tx (fewer url tx there));
  }

  adds :
      (s : WsUpstreamState)
      → HasHistory (h ++ state s ∷ []) (record d { connecting = d.connecting ++ s.url ∷ [] })
  adds s = record {
    told = λ s' m o. elim (Memᴰ.append_cases h m) [
      | inl before ↦ elim (past.told s' before o) [
        | inl pending ↦ inl (Memᴰ.append_left (s.url ∷ []) pending)
        | inr made ↦ inr (earlier h (state s) made)
      ]
      | inr now ↦
          let same = Memᴰ.eq_of_singleton now in
          let e : s'.url ≡ s.url = ground arith in
          inl (Memᴰ.append_right d.connecting (Memᴰ.head e))
    ];
    served = λ url tx there. earlier h (state s) (past.served url tx there);
  }

  state-HasHistory :
      (s : WsUpstreamState) → HasHistory (h ++ state s ∷ []) (on_state d s).dispatcher
  unfolding on_state
  state-HasHistory s = elim (Bool-cases s.is_online) [
    | inr offline ↦
        keeps (state s) (on_state d s).dispatcher
          (λ s' same online.
            let e : s.is_online ≡ s'.is_online = ground arith in absurd (ground arith))
          (ground arith) (λ url tx there. ground (arith, lookup-erase s.url url d.upstreams))
    | inl online ↦ elim (Option-cases (lookup s.url d.upstreams)) [
      | inr (tx, there) ↦
          let step : (on_state d s).dispatcher ≡ d = rw (online, on_state, there) refl in
          subst (HasHistory (h ++ state s ∷ [])) (sym step) (
            keeps (state s) d
              (λ s' same o.
                let e : s.url ≡ s'.url = ground arith in
                subst (λ u. WasConnected u h) e (past.served s.url tx there))
              refl (λ url tx' t. t))
      | inl new ↦
          let step : (on_state d s).dispatcher
              ≡ record d { connecting = d.connecting ++ s.url ∷ [] } =
            rw (online, on_state, new) refl in
          subst (HasHistory (h ++ state s ∷ [])) (sym step) (adds s)
    ]
  ]

  connected-HasHistory :
      (url : Url) (tx : Channel)
      → HasHistory (h ++ connected url tx ∷ []) (on_connected d url tx).dispatcher
  unfolding on_connected
  connected-HasHistory url tx =
      let now : Memᴰ (connected url tx) (h ++ connected url tx ∷ []) =
        Memᴰ.append_right h (Memᴰ.head refl) in
      let left : (on_connected d url tx).dispatcher.connecting ≡ finish url d.connecting =
        ground arith in
      let serving : (on_connected d url tx).dispatcher.upstreams ≡ insert url tx d.upstreams =
        ground arith in
      record {
        told = λ s m online. elim (Memᴰ.append_cases h m) [
          | inl before ↦ elim (past.told s before online) [
            | inl pending ↦ elim (finish-Memᴰ url s.url d.connecting pending) [
              | inl same ↦
                  inr (subst (λ u. WasConnected u (h ++ connected url tx ∷ [])) same (tx, now))
              | inr later ↦ inl (subst (Memᴰ s.url) (sym left) later)
            ]
            | inr made ↦ inr (earlier h (connected url tx) made)
          ]
          | inr it ↦ let e = Memᴰ.eq_of_singleton it in absurd (cc)
        ];
        served = λ u tx' there. elim (Bool-cases (url == u)) [
          | inl same ↦
              let e : url ≡ u = ground arith in
              subst (λ v. WasConnected v (h ++ connected url tx ∷ [])) e (tx, now)
          | inr other ↦
              earlier h (connected url tx)
                (past.served u tx' (ground (arith, serving, lookup-insert url u tx d.upstreams)))
        ];
      }

  subscription-HasHistory :
      (has_receivers : Channel → Bool) (s : Subscription)
      → HasHistory (h ++ subscription s ∷ []) (on_subscription has_receivers d s).dispatcher
  unfolding on_subscription
  subscription-HasHistory has_receivers s =
      keeps (subscription s) (on_subscription has_receivers d s).dispatcher
        (λ s' same online. absurd (cc)) (ground arith)
        (λ url tx there. ground (arith, lookup-erase s.destination url d.upstreams))

module _ (has_receivers : Channel → Bool) where
  on_event-HasHistory :
      (h : List Event) (d : SubscriptionDispatcher) (e : Event)
      → HasHistory h d
      → HasHistory (h ++ e ∷ []) (on_event has_receivers d e).dispatcher
  unfolding on_event
  on_event-HasHistory h d (state s) past = state-HasHistory h d past s
  on_event-HasHistory h d (subscription s) past = subscription-HasHistory h d past has_receivers s
  on_event-HasHistory h d (connected url tx) past = connected-HasHistory h d past url tx

  on_events-HasHistory :
      (es h : List Event) (d : SubscriptionDispatcher)
      → HasHistory h d
      → HasHistory (h ++ es) (on_events has_receivers d es).0
  unfolding on_events
  on_events-HasHistory [] h d past = subst (λ l. HasHistory l d) (sym (append-nil h)) past
  on_events-HasHistory (e ∷ es) h d past =
      let d' = (on_event has_receivers d e).dispatcher in
      subst (λ l. HasHistory l (on_events has_receivers d' es).0) (append_assoc h (e ∷ []) es)
        (on_events-HasHistory es (h ++ e ∷ []) d' (on_event-HasHistory h d e past))

  -- The dispatcher wakes the start only when it has no connections to make.
  notified-idle :
      (d : SubscriptionDispatcher) (e : Event)
      → (on_event has_receivers d e).notified ≡ true
      → (on_event has_receivers d e).dispatcher.connecting ≡ []
  unfolding on_event on_state on_subscription on_connected
  notified-idle d (state s) woken = ground arith
  notified-idle d (subscription s) woken = ground arith
  notified-idle d (connected url tx) woken =
      elim (Bool-cases (is_empty (finish url d.connecting))) [
        | inl over ↦ rw (over, on_connected) (is_empty-nil (finish url d.connecting) over)
        | inr more ↦ absurd (ground arith)
      ]

  -- A round of the run wakes the start, after nodes that all were connected to.
  pub record WaitedForAll (es : List Event) (d : SubscriptionDispatcher) : Type 0 where
    pub before : List Event
    pub event : Event
    pub after : List Event
    pub split : es ≡ before ++ event ∷ after
    pub wakes : (on_event has_receivers (on_events has_receivers d before).0 event).notified ≡ true
    pub all_connected :
        (s : WsUpstreamState)
        → Memᴰ (state s) before
        → s.is_online ≡ true
        → WasConnected s.url (before ++ event ∷ [])

  waking_round :
      (es : List Event) (d : SubscriptionDispatcher)
      → (on_events has_receivers d es).1 ≢ 0
      → (before : List Event) × (e : Event) × (after : List Event) × (es ≡ before ++ e ∷ after)
        × ((on_event has_receivers (on_events has_receivers d before).0 e).notified ≡ true)
  unfolding on_events
  waking_round [] d woken = absurd (woken refl)
  waking_round (e ∷ es) d woken = elim (Bool-cases (on_event has_receivers d e).notified) [
    | inl now ↦ ([], e, es, refl, now)
    | inr later ↦
        let (before, e', after, split, wakes) =
          waking_round es (on_event has_receivers d e).dispatcher (ground arith) in
        (e ∷ before, e', after, ap (λ (l : List Event). e ∷ l) split, wakes)
  ]

  pub on_events-WaitedForAll :
      (es : List Event) (d : SubscriptionDispatcher)
      → d.connecting ≡ []
      → d.upstreams ≡ []
      → (on_events has_receivers d es).1 ≢ 0
      → WaitedForAll es d
  on_events-WaitedForAll es d idle unserved woken =
      let (before, e, after, split, wakes) = waking_round es d woken in
      let nothing : HasHistory [] d = record {
        told = λ s m online. elim m [ ];
        served = λ url tx there. absurd (unfold lookup in ground arith);
      } in
      let d' = (on_events has_receivers d before).0 in
      let past = on_event-HasHistory before d' e (on_events-HasHistory before [] d nothing) in
      record {
        before = before;
        event = e;
        after = after;
        split = split;
        wakes = wakes;
        all_connected = λ s m online. elim (past.told s (Memᴰ.append_left (e ∷ []) m) online) [
          | inl pending ↦
              absurd (Memᴰ.not-nil (subst (Memᴰ s.url) (notified-idle d' e wakes) pending))
          | inr made ↦ made
        ];
      }
