-- ===== src/Pubsub/Notification.antt =====
-- src/pubsub/notification.rs: how the text of an upstream's message is read. A JSON value is a
-- number, and what `serde` and `sonic_rs` do with a text or a value is an interface.
use magic_router.Prelude.{
  length, get_elem?, ◌==◌, ℕ, ◌≡◌, Bool, Option, none, some, List, is_some, inl, inr, Option-cases,
  Bool-cases, ◌↔◌, subst, if◌then◌else◌, arith,
}
use magic_router.Pubsub.{WebsocketMessage, confirmation, unsubscribed, update}

infixl 5 ◌>>=◌
abbrev ◌>>=◌ : {A B : Type 0} → Option A → (A → Option B) → Option B
◌>>=◌ none f = none
◌>>=◌ (some a) f = f a

-- The fields that the messages are read from.
pub data Field : Type 0 where
  id result params subscription : Field

-- `from_slice` at a generic value, `lazyvalue::get` with a path of one field, `Value::get`,
-- `as_array`, `as_u64` and `is_u64`. The lazy lookup finds in a text what is in its value, and an
-- array has no fields.
pub record Json : Type 0 where
  pub from_slice : List ℕ → Option ℕ
  pub get_lazily : List ℕ → Field → Option ℕ
  pub get : Field → ℕ → Option ℕ
  pub as_array : ℕ → Option (List ℕ)
  pub as_u64 : ℕ → Option ℕ
  pub is_u64 : ℕ → Bool
  pub lazily :
      (buffer : List ℕ) (v : ℕ) (f : Field)
      → from_slice buffer ≡ some v
      → get_lazily buffer f ≡ get f v
  pub no_fields : (v : ℕ) (xs : List ℕ) (f : Field) → as_array v ≡ some xs → get f v ≡ none
  pub integers : (v : ℕ) → is_u64 v ≡ is_some (as_u64 v)

module _ (j : Json) where
  -- A field of a struct with a derived `Deserialize`: the field of an object, or the element of an
  -- array that has as many elements (`width`) as the struct has fields.
  unfoldable pub field_of : (position width : ℕ) → Field → ℕ → Option ℕ
  field_of position width f v = elim (j.as_array v) [
    | none ↦ j.get f v
    | some xs ↦ if length xs == width then get_elem? xs position else none
  ]

  -- A field whose type is a wrapped `u64`.
  unfoldable pub u64_field : (position width : ℕ) → Field → ℕ → Option ℕ
  u64_field position width f v = do value ← field_of position width f v; j.as_u64 value

  unfoldable pub parse_subscription_result : List ℕ → Option WebsocketMessage
  parse_subscription_result buffer = do
    v ← j.from_slice buffer
    request ← u64_field 0 2 id v
    assigned ← u64_field 1 2 result v
    some (confirmation request assigned)

  unfoldable pub parse_unsubscription_result : List ℕ → Option WebsocketMessage
  parse_unsubscription_result buffer = do
    v ← j.from_slice buffer
    request ← u64_field 0 1 id v
    some (unsubscribed request)

  unfoldable pub parse_notification : List ℕ → Option WebsocketMessage
  parse_notification buffer = do
    v ← j.from_slice buffer
    ps ← field_of 0 1 params v
    payload ← field_of 0 2 result ps
    assigned ← u64_field 1 2 subscription ps
    some (update assigned payload)

  unfoldable pub deserialize : List ℕ → Option WebsocketMessage
  deserialize buffer = elim (j.get_lazily buffer result) [
    | none ↦ parse_notification buffer
    | some value ↦
        if j.is_u64 value
        then parse_subscription_result buffer
        else parse_unsubscription_result buffer
  ]

  -- The messages of a JSON value: one with an integer as its `result` confirms a subscription, one
  -- with another `result` ends one, and one without a `result` notifies.
  pub data IsMessage (v : ℕ) : WebsocketMessage → Type 0 where
    is_confirmation :
        (request value assigned : ℕ)
        → u64_field 0 2 id v ≡ some request
        → j.get result v ≡ some value
        → j.as_u64 value ≡ some assigned
        → IsMessage v (confirmation request assigned)
    is_unsubscribed :
        (request value : ℕ)
        → u64_field 0 1 id v ≡ some request
        → j.get result v ≡ some value
        → j.as_u64 value ≡ none
        → IsMessage v (unsubscribed request)
    is_update :
        (ps payload assigned : ℕ)
        → j.get result v ≡ none
        → field_of 0 1 params v ≡ some ps
        → field_of 0 2 result ps ≡ some payload
        → u64_field 1 2 subscription ps ≡ some assigned
        → IsMessage v (update assigned payload)

  -- What is found under its name is no array, and so is the field of the struct.
  u64_field-eq :
      (position width : ℕ) (f : Field) (v value n : ℕ)
      → j.get f v ≡ some value
      → j.as_u64 value ≡ some n
      → u64_field position width f v ≡ some n
  unfolding u64_field field_of
  u64_field-eq position width f v value n e u = elim (Option-cases (j.as_array v)) [
    | inl object ↦ ground arith
    | inr (xs, array) ↦ let nothing = j.no_fields v xs f array in absurd (ground arith)
  ]

  module _ (buffer : List ℕ) (v : ℕ) (parsed : j.from_slice buffer ≡ some v) where
    IsMessage-deserialize : (m : WebsocketMessage) → IsMessage v m → deserialize buffer ≡ some m
    unfolding deserialize parse_subscription_result parse_unsubscription_result parse_notification
    IsMessage-deserialize m (is_confirmation request value assigned i r u) =
        let read = u64_field-eq 1 2 result v value assigned r u in
        rw (deserialize, j.lazily buffer v result parsed, r, j.integers value, u, parsed, i, read)
    IsMessage-deserialize m (is_unsubscribed request value i r u) =
        rw (deserialize, j.lazily buffer v result parsed, r, j.integers value, u, parsed, i)
    IsMessage-deserialize m (is_update ps payload assigned r p q s) =
        rw (deserialize, j.lazily buffer v result parsed, r, parsed, p, q, s)

    parse_subscription_result-IsMessage :
        (m : WebsocketMessage) (value assigned : ℕ)
        → j.get result v ≡ some value
        → j.as_u64 value ≡ some assigned
        → parse_subscription_result buffer ≡ some m
        → IsMessage v m
    unfolding parse_subscription_result
    parse_subscription_result-IsMessage m value assigned r u h =
        elim (Option-cases (u64_field 0 2 id v)) [
          | inl missing ↦ absurd (ground arith)
          | inr (request, i) ↦
              let read = u64_field-eq 1 2 result v value assigned r u in
              let same : confirmation request assigned ≡ m = ground arith in
              subst (IsMessage v) same (is_confirmation request value assigned i r u)
        ]

    parse_unsubscription_result-IsMessage :
        (m : WebsocketMessage) (value : ℕ)
        → j.get result v ≡ some value
        → j.as_u64 value ≡ none
        → parse_unsubscription_result buffer ≡ some m
        → IsMessage v m
    unfolding parse_unsubscription_result
    parse_unsubscription_result-IsMessage m value r u h = elim (Option-cases (u64_field 0 1 id v)) [
      | inl missing ↦ absurd (ground arith)
      | inr (request, i) ↦
          let same : unsubscribed request ≡ m = ground arith in
          subst (IsMessage v) same (is_unsubscribed request value i r u)
    ]

    parse_notification-IsMessage :
        (m : WebsocketMessage)
        → j.get result v ≡ none
        → parse_notification buffer ≡ some m
        → IsMessage v m
    unfolding parse_notification
    parse_notification-IsMessage m r h = elim (Option-cases (field_of 0 1 params v)) [
      | inl missing ↦ absurd (ground arith)
      | inr (ps, p) ↦ elim (Option-cases (field_of 0 2 result ps)) [
        | inl missing ↦ absurd (ground arith)
        | inr (payload, q) ↦ elim (Option-cases (u64_field 1 2 subscription ps)) [
          | inl missing ↦ absurd (ground arith)
          | inr (assigned, s) ↦
              let same : update assigned payload ≡ m = ground arith in
              subst (IsMessage v) same (is_update ps payload assigned r p q s)
        ]
      ]
    ]

    deserialize-IsMessage : (m : WebsocketMessage) → deserialize buffer ≡ some m → IsMessage v m
    unfolding deserialize
    deserialize-IsMessage m h =
        let looked_up = j.lazily buffer v result parsed in
        elim (Option-cases (j.get result v)) [
          | inl missing ↦ parse_notification-IsMessage m missing (ground arith)
          | inr (value, r) ↦
              let kind = j.integers value in
              elim (Option-cases (j.as_u64 value)) [
                | inl u ↦ parse_unsubscription_result-IsMessage m value r u (ground arith)
                | inr (assigned, u) ↦
                    parse_subscription_result-IsMessage m value assigned r u (ground arith)
              ]
        ]

    -- A JSON value is read as a message exactly if it is that message.
    pub deserialize_lem : (m : WebsocketMessage) → (deserialize buffer ≡ some m) ↔ IsMessage v m
    deserialize_lem m = (deserialize-IsMessage m, IsMessage-deserialize m)

  -- What is not JSON is no message.
  pub deserialize-none : (buffer : List ℕ) → j.from_slice buffer ≡ none → deserialize buffer ≡ none
  unfolding deserialize parse_subscription_result parse_unsubscription_result parse_notification
  deserialize-none buffer broken = elim (Option-cases (j.get_lazily buffer result)) [
    | inl missing ↦ ground arith
    | inr (value, r) ↦ elim (Bool-cases (j.is_u64 value)) [
      | inl integer ↦ ground arith
      | inr other ↦ ground arith
    ]
  ]
