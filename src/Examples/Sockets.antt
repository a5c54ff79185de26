-- ===== src/Examples/Sockets.antt =====
-- A websocket connection at concrete inputs (src/pubsub/connection.rs): subscription 5 has the
-- listeners 1, on the open channel 10, and 2, whose channel 20 is closed.
use magic_router.Prelude.{
  ◌-◌, ◌||◌, Option, List, leb, is_some, ap, if◌then◌else◌, ℕ, ◌≡◌, ◌≢◌, ◌↔◌, inl, inr, subst,
  Bool-cases, refl, Bool, true, none, some, [], ◌∷◌, ◌==◌, arith,
}
use magic_router.Pubsub.Notification.{
  Json, Field, id, result, params, subscription, deserialize, parse_subscription_result, u64_field,
  field_of,
}
use magic_router.Pubsub.Connection.Reading.{text, on_data, on_decoded, Reads, on_data-Reads}
use magic_router.Prelude.Dict.{IsUnique, Dict, lookup, erase}
use magic_router.Types.{SubscriberId, SubscriptionId}
use magic_router.Routes.{chain}
use magic_router.Pubsub.{
  account_subscription_json, account_unsubscribe, Channel, Subscription, Unsubscription,
  PubsubMessage, notification, disconnected, update,
}
use magic_router.Pubsub.Connection.{
  SubscriberHandle, WebsocketConnection, unsubscribe, on_update, on_unsubscription, on_message,
  on_confirmation, reestablish, message, on_event,
}
use magic_router.Pubsub.Connection.Listeners.{ConnectionInv, on_event-Inv}
use magic_router.Pubsub.Connection.Notifying.{
  listener, Received, on_update-Received, on_unsubscription-shared,
}
use magic_router.Pubsub.Connection.Reconnecting.{Connects, reestablish-Received}

abbrev open_only_10 : Channel → Bool
open_only_10 tx = tx == 10

abbrev third_attempt : ℕ → Bool
third_attempt n = n == 2

abbrev at_once : ℕ → Bool
at_once n = true

abbrev handle_1 : SubscriberHandle
handle_1 = record { request_id = 100; upstream = chain; tx = 10 }

abbrev handle_2 : SubscriberHandle
handle_2 = record { request_id = 200; upstream = chain; tx = 20 }

abbrev socket : WebsocketConnection
socket = record {
  subscriptions = (5, (1, handle_1) ∷ (2, handle_2) ∷ []) ∷ [];
  inflights = [];
  request_to_subs = (100, 5) ∷ (200, 5) ∷ [];
  unsubscriptions_tx = 700;
}

abbrev fresh_socket : WebsocketConnection
fresh_socket = record {
  subscriptions = [];
  inflights = [];
  request_to_subs = [];
  unsubscriptions_tx = 700;
}

abbrev a_subscription : Subscription
a_subscription = record {
  request_id = 300;
  subscriber_id = 3;
  payload = account_subscription_json 300 1 none;
  tx = 10;
  destination = 1000;
  upstream = chain;
}

socket-Inv : ConnectionInv socket
unfolding lookup
socket-Inv s listeners h = elim (Bool-cases (5 == s)) [
  | inr other ↦ absurd (ground arith)
  | inl here ↦
      let same : ((1, handle_1) ∷ (2, handle_2) ∷ []) ≡ listeners = ground arith in
      subst (λ (x : Dict SubscriberHandle). (x ≢ []) × IsUnique x) same
        ((λ e. cc), (refl, (refl, tt)))
]

on_event-Inv_example :
    ConnectionInv (on_event open_only_10 at_once socket (message (update 5 77))).connection
on_event-Inv_example = on_event-Inv open_only_10 at_once socket (message (update 5 77)) socket-Inv

on_update-Received_example :
    let sent = (on_update open_only_10 socket 5 77).sent in
    ((j : SubscriberId) (sh : SubscriberHandle)
      → listener socket 5 j ≡ some sh
      → open_only_10 sh.tx ≡ true
      → Received (sh.tx, notification sh.request_id sh.upstream 77) sent)
    × ((x : Channel × PubsubMessage)
        → Received x sent
        → (j : SubscriberId) × (sh : SubscriberHandle) × (listener socket 5 j ≡ some sh)
          × (open_only_10 sh.tx ≡ true)
          × ((sh.tx, notification sh.request_id sh.upstream 77) ≡ x))
on_update-Received_example = on_update-Received open_only_10 socket 5 77 socket-Inv

abbrev goodbye : Unsubscription
goodbye = record { subscriber_id = 1; request_id = 100; method = account_unsubscribe }

mapped : lookup 100 socket.request_to_subs ≡ some 5
unfolding lookup
mapped = refl

first_listens : listener socket 5 1 ≡ some handle_1
unfolding lookup
first_listens = refl

second_listens : listener socket 5 2 ≡ some handle_2
unfolding lookup
second_listens = refl

on_unsubscription-shared_example :
    let r = on_unsubscription open_only_10 at_once socket goodbye 400 true in
    (r.frames ≡ unsubscribe 400 account_unsubscribe 5 ∷ [])
    × (listener r.connection 5 2 ≡ some handle_2)
    × (listener r.connection 5 1 ≡ none)
on_unsubscription-shared_example =
    on_unsubscription-shared open_only_10 at_once socket goodbye 400 5 2 handle_1 handle_2 mapped
      first_listens second_listens (omega arith)

reestablish-Received_example :
    let r = reestablish open_only_10 third_attempt socket in
    ((s : SubscriptionId) (j : SubscriberId) (sh : SubscriberHandle)
      → listener socket s j ≡ some sh
      → open_only_10 sh.tx ≡ true
      → Received (sh.tx, disconnected sh.request_id) r.sent)
    × (r.connection.subscriptions ≡ [])
    × ((r.goes_on ≡ true) ↔ Connects third_attempt 0 17)
reestablish-Received_example = reestablish-Received open_only_10 third_attempt socket

-- An upstream's texts of one number: 1 confirms the request 300 with the subscription 5, 2 refuses
-- it, and a number from 1000 on is an integer.
abbrev as_integer : ℕ → Option ℕ
as_integer v = if leb 1000 v then some (v - 1000) else none

abbrev parse : List ℕ → Option ℕ
parse (v ∷ []) = some v
parse buffer = none

abbrev field : Field → ℕ → Option ℕ
field id v = if v == 1 || v == 2 then some 1300 else none
field result v = if v == 1 then some 1005 else none
field params v = none
field subscription v = none

abbrev parse_lazily : List ℕ → Field → Option ℕ
parse_lazily (v ∷ []) f = field f v
parse_lazily buffer f = none

parse_lazily-field :
    (buffer : List ℕ) (v : ℕ) (f : Field)
    → parse buffer ≡ some v
    → parse_lazily buffer f ≡ field f v
parse_lazily-field [] v f h = absurd (ground arith)
parse_lazily-field (x ∷ []) v f h = let same : x ≡ v = ground arith in ap (field f) same
parse_lazily-field (x ∷ y ∷ rest) v f h = absurd (ground arith)

-- The value 3 is an array of one integer.
abbrev elements : ℕ → Option (List ℕ)
elements v = if v == 3 then some (1005 ∷ []) else none

elements-field : (v : ℕ) (xs : List ℕ) (f : Field) → elements v ≡ some xs → field f v ≡ none
elements-field v xs id h = ground arith
elements-field v xs result h = ground arith
elements-field v xs params h = refl
elements-field v xs subscription h = refl

abbrev json : Json
json = record {
  from_slice = parse;
  get_lazily = parse_lazily;
  get = field;
  as_array = elements;
  as_u64 = as_integer;
  is_u64 = (λ v. is_some (as_integer v));
  lazily = parse_lazily-field;
  no_fields = elements-field;
  integers = (λ v. refl);
}

abbrev asking : WebsocketConnection
asking = record fresh_socket { inflights = (300, a_subscription) ∷ [] }

-- A confirmation ends the wait of the request.
confirmed : (on_data json open_only_10 asking (text (1 ∷ []))).connection.inflights ≡ []
unfolding on_data on_decoded deserialize parse_subscription_result u64_field field_of on_message
    on_confirmation lookup erase
confirmed = refl

on_data-Reads_example :
    Reads json open_only_10 asking (some 2) (on_data json open_only_10 asking (text (2 ∷ [])))
on_data-Reads_example = on_data-Reads json open_only_10 asking (2 ∷ [])
