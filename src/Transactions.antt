-- ===== src/Transactions.antt =====
-- src/cache/transactions.rs: where the transactions were sent.
use magic_router.Prelude.{ℕ, ◌≡◌, ◌≢◌, ◌⊎◌, Option, none, some, max}
use magic_router.Types.{Signature}
use magic_router.Routes.{RemoteHandle}

-- The bounded map of the `scc` crate, as the function that a read computes, with what it
-- documents: an insertion of a key that is there changes nothing for it, and other keys may be
-- forgotten to make room.
pub record ScCache (V : Type 0) : Type 0 where
  pub put : ℕ → V → (ℕ → Option V) → ℕ → Option V
  pub put_absent : (k : ℕ) (v : V) (m : ℕ → Option V) → m k ≡ none → put k v m k ≡ some v
  pub put_present : (k : ℕ) (v w : V) (m : ℕ → Option V) → m k ≡ some w → put k v m k ≡ some w
  pub put_other :
      (k j : ℕ) (v : V) (m : ℕ → Option V) → k ≢ j → (put k v m j ≡ m j) ⊎ (put k v m j ≡ none)

abbrev pub min_kept_transaction_count : ℕ
min_kept_transaction_count = 16384

-- The capacity of the cache.
unfoldable pub max_kept : ℕ → ℕ
max_kept capacity = max min_kept_transaction_count capacity

abbrev pub ForwardedTransactions : Type 0
ForwardedTransactions = Signature → Option RemoteHandle

unfoldable pub track :
    ScCache RemoteHandle → ForwardedTransactions → Signature → RemoteHandle → ForwardedTransactions
track cache t signature handle = cache.put signature handle t

unfoldable pub get : ForwardedTransactions → Signature → Option RemoteHandle
get t signature = t signature
