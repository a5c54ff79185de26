-- ===== src/Startup/Wiring.antt =====
-- The router that `run` of src/lib.rs has started.
use mathlib.Core.Option
use mathlib.Core.List.{append-nil, append_assoc}
use magic_router.Prelude.{
  ℕ, ◌≡◌, refl, sym, ap, subst, ◌∙◌, inl, inr, true, Option, none, some, List, [], ◌∷◌, ◌++◌,
  is_some, Option-cases, arith,
}
use magic_router.Prelude.Dict.{lookup}
use magic_router.Types.{Pubkey, Url, Client}
use magic_router.Error.{RouterResult, ok, Result-cases, >>=-eq-ok}
use magic_router.Routes.{RoutingTable, WsUpstreamState, base_chain}
use magic_router.Routes.Registry.{
  Account, Env, new, new_table, connect_all, fill_table, insert_all, insert_entry, insert_upstream,
  remove_entry, check_static,
}
use magic_router.Routes.Registry.Following.{TableInv, new-Inv, bind-eq-some, map-eq-some}
use magic_router.Metrics.{Label, Prometheus, Metrics, init}
use magic_router.Startup.{
  RouterConfig, Router, Outside, parse_identity, merge, serving, finish_start, run,
}

merge-append :
    (names methods all : List Label) → merge methods names ≡ some all → all ≡ methods ++ names
unfolding merge
merge-append [] methods all e =
    let same : methods ≡ all = ground arith in sym same ∙ sym (append-nil methods)
merge-append (name ∷ names) methods all e =
    let rest : merge (methods ++ name ∷ []) names ≡ some all = ground arith in
    merge-append names (methods ++ name ∷ []) all rest ∙ append_assoc methods (name ∷ []) names

module _ (env : Env) where
  remove_entry-static :
      (t : RoutingTable) (pda : Pubkey)
      → (remove_entry env t pda).0.static_er_identity ≡ t.static_er_identity
  unfolding remove_entry
  remove_entry-static t pda = ground arith

  insert_entry-static :
      (t : RoutingTable) (pda : Pubkey) (a : Account)
      → (insert_entry env t pda a).0.static_er_identity ≡ t.static_er_identity
  unfolding insert_entry insert_upstream
  insert_entry-static t pda a = ground (arith, remove_entry-static t pda)

  insert_all-static :
      (accounts : List (Pubkey × Account)) (t : RoutingTable)
      → (insert_all env t accounts).0.static_er_identity ≡ t.static_er_identity
  unfolding insert_all
  insert_all-static [] t = refl
  insert_all-static ((pda, a) ∷ rest) t =
      insert_all-static rest (insert_entry env t pda a).0 ∙ insert_entry-static t pda a

  check_static-known :
      (t t' : RoutingTable) (identity : Pubkey)
      → check_static t ≡ ok t'
      → t.static_er_identity ≡ some identity
      → is_some (lookup identity t'.inner) ≡ true
  unfolding check_static
  check_static-known t t' identity e s = ground arith

  new-static :
      (urls : List Url) (frequency : ℕ) (identity : Pubkey)
      (read : Client → RouterResult (List (Pubkey × Account))) (t : RoutingTable)
      (sent : List WsUpstreamState)
      → new env urls frequency (some identity) read ≡ some (ok (t, sent))
      → is_some (lookup identity t.inner) ≡ true
  unfolding new fill_table new_table base_chain
  new-static urls frequency identity read t sent h =
      let (us, made, started) = bind-eq-some (connect_all env urls) _ h in
      let ((t', u), first, filled) =
        map-eq-some (base_chain (new_table us frequency (some identity))) _ started in
      let filled' : fill_table env t' (read u.client) ≡ ok (t, sent) = ground arith in
      let (accounts, answer, rest) = >>=-eq-ok (read u.client) _ filled' in
      let (checked, check, last) = >>=-eq-ok (check_static (insert_all env t' accounts).0) _ rest in
      let same : checked ≡ t = ground arith in
      let kept : t'.static_er_identity ≡ some identity = ground arith in
      subst (λ (x : RoutingTable). is_some (lookup identity x.inner) ≡ true) same
        (check_static-known (insert_all env t' accounts).0 checked identity check
          (insert_all-static accounts t' ∙ kept))

-- What holds of a router that was started.
pub record Started (out : Outside) (config : RouterConfig) (names : List Label) (r : Router)
    : Type 0 where
  pub valid : TableInv r.http.routes
  pub shared : r.websocket.routes ≡ r.http.routes
  pub identity_known :
      (text : ℕ)
      → config.static_er_identity ≡ some text
      → (identity : Pubkey) × (out.from_str text ≡ some identity)
        × (is_some (lookup identity r.http.routes.inner) ≡ true)
  pub counted : r.metrics.methods ≡ some names

parsed_identity :
    (from_str : ℕ → Option Pubkey) (text : ℕ) (identity : Option Pubkey)
    → parse_identity from_str (some text) ≡ ok identity
    → (id : Pubkey) × (from_str text ≡ some id) × (identity ≡ some id)
unfolding parse_identity
parsed_identity from_str text identity e = elim (Option-cases (from_str text)) [
  | inl unknown ↦ absurd (ground arith)
  | inr (id, known) ↦ (id, known, ground arith)
]

module _ (p : Prometheus) (env : Env) (out : Outside) (config : RouterConfig) (m : Metrics)
    (ro_names rw_names ws_names : List Label) (next_id : ℕ) (first_start : m.methods ≡ none) where
  finish_start-Started :
      (identity : Option Pubkey) (t : RoutingTable) (sent : List WsUpstreamState) (r : Router)
      → parse_identity out.from_str config.static_er_identity ≡ ok identity
      → new env config.base_chain_urls config.proximity_ping_frequency_sec identity out.read
        ≡ some (ok (t, sent))
      → finish_start p out config m ro_names rw_names ws_names next_id (t, sent) ≡ some r
      → Started out config (ro_names ++ rw_names ++ ws_names) r
  unfolding finish_start
  finish_start-Started identity t sent r parsed made h =
      let finished : Option.map (λ methods. serving p config m t sent methods next_id)
            (Option.bind (merge ro_names rw_names) (λ http. merge http ws_names))
          ≡ some r =
        ground arith in
      let (all, merged, same) =
        map-eq-some (Option.bind (merge ro_names rw_names) (λ http. merge http ws_names)) _
          finished in
      let (http, first, rest) = bind-eq-some (merge ro_names rw_names) _ merged in
      let names : all ≡ ro_names ++ rw_names ++ ws_names =
        merge-append ws_names http all rest
        ∙ ap (λ (x : List Label). x ++ ws_names) (merge-append rw_names ro_names http first) in
      subst (Started out config (ro_names ++ rw_names ++ ws_names)) same (record {
        valid =
            new-Inv env config.base_chain_urls config.proximity_ping_frequency_sec identity out.read
              t sent made;
        shared = refl;
        identity_known = λ text configured.
            let read_as : parse_identity out.from_str (some text) ≡ ok identity =
              subst (λ c. parse_identity out.from_str c ≡ ok identity) configured parsed in
            let (id, known, e) = parsed_identity out.from_str text identity read_as in
            (
              id,
              known,
              new-static env config.base_chain_urls config.proximity_ping_frequency_sec id out.read
                  t sent
                  (subst
                    (λ x.
                      new env config.base_chain_urls config.proximity_ping_frequency_sec x out.read
                      ≡ some (ok (t, sent)))
                    e made),
            );
        counted = unfold init in rw first_start (ap some names);
      })

  -- A router that was started, with metrics that were not initialised before, has one table of
  -- routes for all its handlers, in which the averages are those of nodes that answer and the base
  -- chain has a node to use; the identity that was configured, if any, is in the registry; and
  -- every method that is served is counted under its own name.
  pub run-Started :
      (r : Router)
      → run p env out config m ro_names rw_names ws_names next_id ≡ some (ok r)
      → Started out config (ro_names ++ rw_names ++ ws_names) r
  unfolding run
  run-Started r h = elim (Result-cases (parse_identity out.from_str config.static_er_identity)) [
    | inl (e, failed) ↦ absurd (ground arith)
    | inr (identity, parsed) ↦ elim (Result-cases (out.build config.listen_address)) [
      | inl (e, failed) ↦ absurd (ground arith)
      | inr (built, ready) ↦
          elim (Option-cases (
            new env config.base_chain_urls config.proximity_ping_frequency_sec identity out.read)) [
              | inl panics ↦ absurd (ground arith)
              | inr (table, made) ↦ elim (Result-cases table) [
                | inl (e, failed) ↦ absurd (ground arith)
                | inr ((t, sent), filled) ↦
                    let whole : Option.map (λ router. ok router)
                          (finish_start p out config m ro_names rw_names ws_names next_id (t, sent))
                        ≡ some (ok r) =
                      ground arith in
                    let (router, finished, same) =
                      map-eq-some
                        (finish_start p out config m ro_names rw_names ws_names next_id (t, sent))
                        (λ router. ok router) whole in
                    let is : router ≡ r = ground arith in
                    finish_start-Started identity t sent r parsed (made ∙ ap some filled)
                      (finished ∙ ap some is)
              ]
            ]
    ]
  ]
