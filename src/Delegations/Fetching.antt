-- ===== src/Delegations/Fetching.antt =====
-- The retries of `fetch` in src/cache/delegations.rs.
use mathlib.Core.Option
use native.Mathlib.Decide.{dec_lt}
use magic_router.Prelude.{
  ℕ, zero, suc, ◌+◌, ◌*◌, ◌≤◌, ◌<◌, ◌≡◌, ◌≢◌, refl, ap, none, List, [], ◌∷◌, ◌++◌, arith,
}
use magic_router.Types.{PubkeyBytes, from_bytes, to_option}
use magic_router.Accounts.{DelegationEntry}
use magic_router.Delegations.{
  max_account_refetch_attempts, RpcAnswer, account, no_account, failed, error, fetched_entry,
  sleep_before, fetch_from, fetch,
}
use magic_router.Delegations.Merging.{IsSettled}

-- What an answer says of the account: the entry to cache, and the metrics.
abbrev pub entry_of : PubkeyBytes → RpcAnswer → DelegationEntry
entry_of keys (account bytes slot) =
    fetched_entry (Option.bind bytes (λ b. to_option (from_bytes keys b))) slot
entry_of keys (no_account slot) = fetched_entry none slot
entry_of keys failed = fetched_entry none 0

abbrev pub sum : List ℕ → ℕ
sum [] = 0
sum (n ∷ ns) = n + sum ns

-- The seconds that a fetch sleeps before attempt `n` has been made.
abbrev pub backoff : ℕ → ℕ
backoff n = n * (n + 1)

sum-append : (xs ys : List ℕ) → sum (xs ++ ys) ≡ sum xs + sum ys
sum-append [] ys = omega arith
sum-append (x ∷ xs) ys = omega (arith, sum-append xs ys)

sum-sleep_before :
    (attempt : ℕ) (slept : List ℕ) → sum (sleep_before attempt slept) ≡ sum slept + 2 * attempt
unfolding sleep_before
sum-sleep_before attempt slept = ground (arith, sum-append slept ((2 * attempt) ∷ []))

-- An answer that is no failure ends the rounds.
fetch_from-answer :
    (keys : PubkeyBytes) (answers : ℕ → RpcAnswer) (left attempt : ℕ) (slept : List ℕ)
    (a : RpcAnswer)
    → answers attempt ≡ a
    → a ≢ failed
    → ((fetch_from keys answers (suc left) attempt slept).entry ≡ entry_of keys a)
      × ((fetch_from keys answers (suc left) attempt slept).slept ≡ sleep_before attempt slept)
unfolding fetch_from
fetch_from-answer keys answers left attempt slept (account bytes slot) e ne =
    rw (e, fetch_from) (refl, refl)
fetch_from-answer keys answers left attempt slept (no_account slot) e ne =
    rw (e, fetch_from) (refl, refl)
fetch_from-answer keys answers left attempt slept failed e ne = absurd (ne refl)

fetch_from-failed :
    (keys : PubkeyBytes) (answers : ℕ → RpcAnswer) (left attempt : ℕ) (slept : List ℕ)
    → answers attempt ≡ failed
    → fetch_from keys answers (suc left) attempt slept
      ≡ fetch_from keys answers left (attempt + 1) (sleep_before attempt slept)
unfolding fetch_from
fetch_from-failed keys answers left attempt slept e = rw (e, fetch_from) refl

module _ (keys : PubkeyBytes) (answers : ℕ → RpcAnswer) where
  -- The rounds up to the first answer.
  fetch_from-answered :
      (left attempt n : ℕ) (slept : List ℕ)
      → attempt ≤ n
      → n < attempt + left
      → sum slept + 2 * attempt ≡ backoff attempt
      → ((i : ℕ) → attempt ≤ i → i < n → answers i ≡ failed)
      → answers n ≢ failed
      → ((fetch_from keys answers left attempt slept).entry ≡ entry_of keys (answers n))
        × (sum (fetch_from keys answers left attempt slept).slept ≡ backoff n)
  fetch_from-answered zero attempt n slept le lt ok fails answered = absurd (omega arith)
  fetch_from-answered (suc left) attempt n slept le lt ok fails answered = elim (dec_lt attempt n) [
    | yes before ↦
        rw (fetch_from-failed keys answers left attempt slept (fails attempt (omega arith) before))
          (fetch_from-answered left (attempt + 1) n (sleep_before attempt slept) (omega arith)
            (omega arith) (omega (arith, sum-sleep_before attempt slept))
            (λ i h k. fails i (omega arith) k) answered)
    | no last ↦
        let here : attempt ≡ n = omega arith in
        let (e, s) =
          fetch_from-answer keys answers left attempt slept (answers n) (ap answers here)
            answered in
        (e, rw s (omega (arith, sum-sleep_before attempt slept, ap backoff here)))
  ]

  fetch_from-exhausted :
      (left attempt : ℕ) (slept : List ℕ)
      → sum slept + 2 * attempt ≡ backoff attempt
      → ((i : ℕ) → attempt ≤ i → i < attempt + left → answers i ≡ failed)
      → let r = fetch_from keys answers left attempt slept in
        (r.entry ≡ fetched_entry none 0)
        × (r.metrics ≡ error ∷ [])
        × (sum r.slept + 2 * (attempt + left) ≡ backoff (attempt + left))
  unfolding fetch_from
  fetch_from-exhausted zero attempt slept ok fails = (refl, refl, omega arith)
  fetch_from-exhausted (suc left) attempt slept ok fails =
      rw
        (fetch_from-failed keys answers left attempt slept
          (fails attempt (omega arith) (omega arith)))
        (let (e, m, t) =
            fetch_from-exhausted left (attempt + 1) (sleep_before attempt slept)
              (omega (arith, sum-sleep_before attempt slept))
              (λ i h k. fails i (omega arith) (omega arith)) in
          (e, m, omega arith))

  -- The entry that `fetch` returns is that of the first of four attempts which the chain answers,
  -- after 2, 4 and 6 seconds of sleep before the second to the fourth.
  pub fetch-answered :
      (n : ℕ)
      → n ≤ max_account_refetch_attempts
      → ((i : ℕ) → i < n → answers i ≡ failed)
      → answers n ≢ failed
      → ((fetch keys answers).entry ≡ entry_of keys (answers n))
        × (sum (fetch keys answers).slept ≡ backoff n)
  unfolding fetch
  fetch-answered n le fails answered =
      fetch_from-answered 4 0 n [] (omega arith) (omega arith) (omega arith) (λ i h k. fails i k)
        answered

  -- If the chain answers none of the four attempts, the fetch gives up after 12 seconds of sleep
  -- with an entry of slot 0 and no record, and counts one error.
  fetch-exhausted :
      ((i : ℕ) → i ≤ max_account_refetch_attempts → answers i ≡ failed)
      → ((fetch keys answers).entry ≡ fetched_entry none 0)
        × ((fetch keys answers).metrics ≡ error ∷ [])
        × (sum (fetch keys answers).slept ≡ 12)
  unfolding fetch
  fetch-exhausted fails =
      let (e, m, s) = fetch_from-exhausted 4 0 [] (omega arith) (λ i h k. fails i (omega arith)) in
      (e, m, omega arith)

fetch_from-plain :
    (keys : PubkeyBytes) (answers : ℕ → RpcAnswer) (left attempt : ℕ) (slept : List ℕ)
    → IsSettled (fetch_from keys answers left attempt slept).entry
unfolding fetch_from
fetch_from-plain keys answers zero attempt slept = record { no_fill = refl; no_min = refl }
fetch_from-plain keys answers (suc left) attempt slept =
    let ih = fetch_from-plain keys answers left (attempt + 1) (sleep_before attempt slept) in
    ground arith

-- A fetched entry waits for nothing.
pub fetch-IsSettled :
    (keys : PubkeyBytes) (answers : ℕ → RpcAnswer) → IsSettled (fetch keys answers).entry
unfolding fetch
fetch-IsSettled keys answers = fetch_from-plain keys answers 4 0 []
