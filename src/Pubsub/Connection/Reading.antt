-- ===== src/Pubsub/Connection/Reading.antt =====
-- What a connection does with the data that it receives from its upstream (the first branch of the
-- loop of `run` in src/pubsub/connection.rs).
use magic_router.Prelude.{
  ℕ, ◌≡◌, ◌↔◌, ◌⊎◌, refl, Bool, Option, none, some, List, inl, inr, Option-cases, arith,
}
use magic_router.Pubsub.{Channel, WebsocketMessage}
use magic_router.Pubsub.Connection.{WebsocketConnection, Reaction, quiet, on_message}
use magic_router.Pubsub.Notification.{
  Json, deserialize, field_of, IsMessage, result, params, deserialize_lem, deserialize-none,
}

pub data ReceivedMessage : Type 0 where
  text : List ℕ → ReceivedMessage
  bytes : List ℕ → ReceivedMessage
  pong : ReceivedMessage

module _ (j : Json) (is_open : Channel → Bool) (c : WebsocketConnection) where
  unfoldable pub on_decoded : Option WebsocketMessage → Reaction
  on_decoded none = quiet c
  on_decoded (some m) = on_message is_open c m

  unfoldable pub on_data : ReceivedMessage → Reaction
  on_data (text buffer) = on_decoded (deserialize j buffer)
  on_data (bytes buffer) = on_decoded (deserialize j buffer)
  on_data pong = quiet c

  -- What comes of a text, by the JSON value that it is, if any: the reaction to the message that
  -- the value is, or none. A refused request is answered with neither a `result` nor `params`.
  pub data Reads : Option ℕ → Reaction → Type 0 where
    reads :
        (v : ℕ) (m : WebsocketMessage) → IsMessage j v m → Reads (some v) (on_message is_open c m)
    refused :
        (v : ℕ) → j.get result v ≡ none → field_of j 0 1 params v ≡ none → Reads (some v) (quiet c)
    ignored :
        (v a : ℕ)
        → (j.get result v ≡ some a) ⊎ (field_of j 0 1 params v ≡ some a)
        → ((m : WebsocketMessage) → ¬ IsMessage j v m)
        → Reads (some v) (quiet c)
    broken : Reads none (quiet c)

  no_message-Reads :
      (v : ℕ) → ((m : WebsocketMessage) → ¬ IsMessage j v m) → Reads (some v) (quiet c)
  no_message-Reads v none_is = elim (Option-cases (j.get result v)) [
    | inr (a, r) ↦ ignored v a (inl r) none_is
    | inl r ↦ elim (Option-cases (field_of j 0 1 params v)) [
      | inr (a, p) ↦ ignored v a (inr p) none_is
      | inl p ↦ refused v r p
    ]
  ]

  decoded-Reads :
      (v : ℕ) (o : Option WebsocketMessage)
      → ((m : WebsocketMessage) → (o ≡ some m) ↔ IsMessage j v m)
      → Reads (some v) (on_decoded o)
  unfolding on_decoded
  decoded-Reads v none exact =
      no_message-Reads v (λ m is. let none_is_some = (exact m).1 is in absurd (ground arith))
  decoded-Reads v (some m) exact = reads v m ((exact m).0 refl)

  -- The reaction to a text is that to the message which its JSON value is; a value that is no
  -- message, such as the answer to a refused request, changes nothing and nobody is told, and
  -- neither does a text that is not JSON.
  pub on_data-Reads : (buffer : List ℕ) → Reads (j.from_slice buffer) (on_data (text buffer))
  unfolding on_data on_decoded
  on_data-Reads buffer = elim (Option-cases (j.from_slice buffer)) [
    | inl nothing ↦ rw (nothing, deserialize-none j buffer nothing) broken
    | inr (v, parsed) ↦
        rw parsed (decoded-Reads v (deserialize j buffer) (deserialize_lem j buffer v parsed))
  ]
