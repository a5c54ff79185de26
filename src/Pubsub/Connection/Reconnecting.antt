-- ===== src/Pubsub/Connection/Reconnecting.antt =====
-- The loss of a connection (`reestablish` in src/pubsub/connection.rs).
use native.Mathlib.Decide.{dec_lt}
use magic_router.Prelude.{
  ℕ, zero, suc, ◌+◌, ◌≤◌, ◌<◌, ◌≡◌, ◌↔◌, refl, sym, ap, subst, ◌∙◌, inl, inr, Bool, true, false,
  some, [], ◌∷◌, ◌++◌, ◌==◌, Bool-cases, Option-cases, arith,
}
use magic_router.Prelude.Dict.{Dict, lookup, lookup-insert_self}
use magic_router.Types.{SubscriberId, SubscriptionId}
use magic_router.Pubsub.{Channel, Subscription, PubsubMessage, disconnected}
use magic_router.Pubsub.Connection.{
  SubscriberHandle, WebsocketConnection, Sent, say_goodbye, drain, reconnect, reestablish,
  on_request, send,
}
use magic_router.Pubsub.Connection.Notifying.{listener, Received}

Received-append_left :
    (x : Channel × PubsubMessage) (xs ys : Sent) → Received x xs → Received x (xs ++ ys)
Received-append_left x [] ys r = elim r [ ]
Received-append_left x (y ∷ xs) ys (inl e) = inl e
Received-append_left x (y ∷ xs) ys (inr r) = inr (Received-append_left x xs ys r)

Received-append_right :
    (x : Channel × PubsubMessage) (xs ys : Sent) → Received x ys → Received x (xs ++ ys)
Received-append_right x [] ys r = r
Received-append_right x (y ∷ xs) ys r = inr (Received-append_right x xs ys r)

say_goodbye-Received :
    (is_open : Channel → Bool) (ls : Dict SubscriberHandle) (j : SubscriberId)
    (sh : SubscriberHandle)
    → lookup j ls ≡ some sh
    → is_open sh.tx ≡ true
    → Received (sh.tx, disconnected sh.request_id) (say_goodbye is_open ls)
unfolding say_goodbye lookup
say_goodbye-Received is_open [] j sh h o = cc
say_goodbye-Received is_open ((id, x) ∷ ls) j sh h o = elim (Bool-cases (id == j)) [
  | inl here ↦
      let same : sh ≡ x = ground arith in
      let opened : is_open x.tx ≡ true =
        ap (λ (y : SubscriberHandle). is_open y.tx) (sym same) ∙ o in
      rw (opened, say_goodbye)
        (inl (ap (λ (y : SubscriberHandle). (y.tx, disconnected y.request_id)) (sym same)))
  | inr other ↦
      Received-append_right _ (send is_open x.tx (disconnected x.request_id))
        (say_goodbye is_open ls) (say_goodbye-Received is_open ls j sh (ground arith) o)
]

drain-Received :
    (is_open : Channel → Bool) (subscriptions : Dict (Dict SubscriberHandle)) (s : SubscriptionId)
    (ls : Dict SubscriberHandle) (x : Channel × PubsubMessage)
    → lookup s subscriptions ≡ some ls
    → Received x (say_goodbye is_open ls)
    → Received x (drain is_open subscriptions)
unfolding drain lookup
drain-Received is_open [] s ls x h r = cc
drain-Received is_open ((t, ms) ∷ rest) s ls x h r = elim (Bool-cases (t == s)) [
  | inl here ↦
      let same : ls ≡ ms = ground arith in
      Received-append_left x (say_goodbye is_open ms) (drain is_open rest)
        (subst (λ (y : Dict SubscriberHandle). Received x (say_goodbye is_open y)) same r)
  | inr other ↦
      Received-append_right x (say_goodbye is_open ms) (drain is_open rest)
        (drain-Received is_open rest s ls x (ground arith) r)
]

-- Some attempt of those left succeeds.
abbrev pub Connects : (ℕ → Bool) → (from below : ℕ) → Type 0
Connects connects from below = (n : ℕ) × (from ≤ n) × (n < below) × (connects n ≡ true)

reconnect-Connects :
    (connects : ℕ → Bool) (left attempt : ℕ)
    → (reconnect connects left attempt ≡ true) ↔ Connects connects attempt (attempt + left)
unfolding reconnect
reconnect-Connects connects zero attempt = (λ h. cc, λ (n, a, b, e). absurd (omega arith))
reconnect-Connects connects (suc left) attempt = elim (Bool-cases (connects attempt)) [
  | inl now ↦ rw (now, reconnect) ((λ h. (attempt, omega arith, omega arith, now)), λ c. refl)
  | inr failed ↦
      let ih = reconnect-Connects connects left (attempt + 1) in
      rw (failed, reconnect)
        (
          (λ h. let (n, a, b, e) = ih.0 h in (n, omega arith, omega arith, e)),
          λ (n, a, b, e). elim (dec_lt attempt n) [
            | yes after ↦ ih.1 (n, omega arith, omega arith, e)
            | no here ↦
                let same : attempt ≡ n = omega arith in absurd (ground (arith, ap connects same))
          ],
        )
]

-- `reestablish` tells every listener of every subscription, its channel being open, that it is
-- disconnected, and leaves none; the loop goes on exactly if one of 17 attempts connects.
pub reestablish-Received :
    (is_open : Channel → Bool) (connects : ℕ → Bool) (c : WebsocketConnection)
    → let r = reestablish is_open connects c in
      ((s : SubscriptionId) (j : SubscriberId) (sh : SubscriberHandle)
        → listener c s j ≡ some sh
        → is_open sh.tx ≡ true
        → Received (sh.tx, disconnected sh.request_id) r.sent)
      × (r.connection.subscriptions ≡ [])
      × ((r.goes_on ≡ true) ↔ Connects connects 0 17)
unfolding reestablish
reestablish-Received is_open connects c = (
  (λ s j sh h o. elim (Option-cases (lookup s c.subscriptions)) [
    | inl unknown ↦ absurd (ground arith)
    | inr (ls, there) ↦
        drain-Received is_open c.subscriptions s ls _ there
          (say_goodbye-Received is_open ls j sh (ground arith) o)
  ]),
  refl,
  reconnect-Connects connects 17 0,
)

-- On a connection without listeners that is back at the first attempt, a request that the
-- websocket did not take stays in flight, but no frame for it is sent again, and no subscriber is
-- sent anything.
on_request-lost :
    (is_open : Channel → Bool) (connects : ℕ → Bool) (c : WebsocketConnection) (s : Subscription)
    → c.subscriptions ≡ []
    → connects 0 ≡ true
    → let r = on_request is_open connects c s false in
      (lookup s.request_id r.connection.inflights ≡ some s)
      × (r.frames ≡ [])
      × (r.sent ≡ [])
      × (r.goes_on ≡ true)
unfolding on_request reestablish drain reconnect
on_request-lost is_open connects c s alone back =
    (lookup-insert_self s.request_id s c.inflights, refl, rw (alone, drain), ground arith)
