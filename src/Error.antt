-- ===== src/Error.antt =====
-- src/error.rs: the errors of the router, and the results that carry them.
use magic_router.Prelude.{ℕ, Option, none, some, ◌≡◌, refl, ◌⊎◌, inl, inr}
use magic_router.Types.{Pubkey, Signature}

-- `rpc` carries what the upstream's client reported; the messages of the others are left out.
pub data RouterError : Type 0 where
  ws_handshake : RouterError
  rpc : ℕ → RouterError
  io : RouterError
  unknown_er_node : Pubkey → RouterError
  unknown_transaction : Signature → RouterError
  subscription_timeout : RouterError
  decode_error : RouterError
  conflicting_delegations : RouterError

pub data RouterResult {ℓ} (A : Type ℓ) : Type ℓ where
  ok : (value : A) → RouterResult A
  err : (error : RouterError) → RouterResult A

infixl 5 ◌>>=◌
abbrev pub ◌>>=◌ {ℓ κ} :
    {A : Type ℓ} {B : Type κ} → RouterResult A → (A → RouterResult B) → RouterResult B
ok value >>= next = next value
err e >>= next = err e

abbrev pub ok_or {ℓ} : {A : Type ℓ} → Option A → RouterError → RouterResult A
ok_or none e = err e
ok_or (some a) e = ok a

-- A chain that succeeds has succeeded at its first step.
pub >>=-eq-ok {ℓ κ} :
    {A : Type ℓ} {B : Type κ} (first : RouterResult A) (next : A → RouterResult B) {answer : B}
    → (first >>= next) ≡ ok answer
    → (value : A) × (first ≡ ok value) × (next value ≡ ok answer)
>>=-eq-ok (ok value) next e = (value, refl, e)
>>=-eq-ok (err error) next e = cc

pub Result-cases {ℓ} :
    {A : Type ℓ} (r : RouterResult A) → ((e : RouterError) × (r ≡ err e)) ⊎ ((a : A) × (r ≡ ok a))
Result-cases (ok a) = inr (a, refl)
Result-cases (err e) = inl (e, refl)
