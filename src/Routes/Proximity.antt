-- ===== src/Routes/Proximity.antt =====
-- The proximity of a node: an average over its pings, dropped after three failures in a row
-- (`update_proximity`, `register_ping_failure` in src/cache/routes.rs).
use magic_router.Prelude.{
  ℕ, zero, suc, ◌+◌, ◌*◌, ◌≤◌, ◌<◌, ◌≡◌, ◌≢◌, refl, ◌⊎◌, inl, inr, true, false, none, arith,
}
use magic_router.Types.{u64_mod, u64_max}
use magic_router.Routes.{
  UpstreamRecord, max_proximity_ping_failures, has_fresh_proximity, update_proximity,
  register_ping_failure,
}

-- No average is kept of a node that has failed three times in a row; a node with an average has
-- answered; the counters stay in their types.
pub record IsValid (u : UpstreamRecord) : Type 0 where
  pub dropped :
      max_proximity_ping_failures ≤ u.consecutive_ping_failures → u.proximity_micros ≡ u64_max
  pub measured : u.proximity_micros ≢ u64_max → u.last_proximity_update ≢ none
  pub small : u.consecutive_ping_failures ≤ 255
  pub in_u64 : u.proximity_micros ≤ u64_max

-- Both outcomes of a ping keep the record of a node valid: after three failures in a row it has no
-- average, with an average it has been measured, and its counters stay in their types.
pub ping-IsValid :
    (u : UpstreamRecord) (micros now : ℕ)
    → IsValid u
    → IsValid (update_proximity u micros now) × IsValid (register_ping_failure u)
unfolding update_proximity register_ping_failure
ping-IsValid u micros now v = (
  record {
    dropped = λ h. absurd (omega arith);
    measured = λ h e. ground arith;
    small = omega arith;
    in_u64 = ground arith;
  },
  record {
    dropped = λ h. ground (arith, v.dropped);
    measured = λ h. ground (arith, v.measured);
    small = ground (arith, v.small);
    in_u64 = ground (arith, v.in_u64);
  },
)

-- If the average, where there is one, and the new ping lie between `lo` and `hi`, then so does the
-- new average, and the node is fresh from `now` on for as long as `stale_after`. The bound on `hi`
-- keeps the products in 64 bits; without it they wrap.
pub update_proximity_range :
    (u : UpstreamRecord) (micros now lo hi later stale_after : ℕ)
    → (u.proximity_micros ≡ u64_max) ⊎ ((lo ≤ u.proximity_micros) × (u.proximity_micros ≤ hi))
    → lo ≤ micros
    → micros ≤ hi
    → hi * 100 < u64_mod
    → later ≤ now + stale_after
    → let u' = update_proximity u micros now in
      (lo ≤ u'.proximity_micros)
      × (u'.proximity_micros ≤ hi)
      × (has_fresh_proximity u' later stale_after ≡ true)
unfolding update_proximity has_fresh_proximity
update_proximity_range u micros now lo hi later stale_after old a b c d =
    (ground arith, ground arith, ground arith)

-- `n` failed pings in a row.
unfoldable pub fail_times : ℕ → UpstreamRecord → UpstreamRecord
fail_times zero u = u
fail_times (suc n) u = fail_times n (register_ping_failure u)

fail_times-count :
    (n : ℕ) (u : UpstreamRecord)
    → 3 ≤ u.consecutive_ping_failures + n
    → 3 ≤ (fail_times n u).consecutive_ping_failures
unfolding fail_times register_ping_failure
fail_times-count zero u h = omega arith
fail_times-count (suc n) u h = fail_times-count n (register_ping_failure u) (ground arith)

fail_times-IsValid : (n : ℕ) (u : UpstreamRecord) → IsValid u → IsValid (fail_times n u)
unfolding fail_times
fail_times-IsValid zero u v = v
fail_times-IsValid (suc n) u v =
    fail_times-IsValid n (register_ping_failure u) (ping-IsValid u 0 0 v).1

many :
    (n : ℕ) (u : UpstreamRecord) (now stale_after : ℕ)
    → IsValid u
    → 3 ≤ n
    → (3 ≤ n)
      × (has_fresh_proximity (fail_times n u) now stale_after ≡ false)
      × ((fail_times n u).proximity_micros ≡ u64_max)
unfolding has_fresh_proximity
many n u now stale_after v h =
    let count : 3 ≤ (fail_times n u).consecutive_ping_failures =
      fail_times-count n u (omega arith) in
    (h, ground arith, (fail_times-IsValid n u v).dropped count)

-- From three failed pings in a row on, however many, a valid record is never fresh and has no
-- average; before, it keeps both from its last answer.
fail_times-fresh :
    (n : ℕ) (u : UpstreamRecord) (now stale_after : ℕ)
    → IsValid u
    → u.consecutive_ping_failures ≡ 0
    → let u' = fail_times n u in
      ((3 ≤ n) × (has_fresh_proximity u' now stale_after ≡ false) × (u'.proximity_micros ≡ u64_max))
      ⊎ ((n < 3)
          × (has_fresh_proximity u' now stale_after ≡ has_fresh_proximity u now stale_after)
          × (u'.proximity_micros ≡ u.proximity_micros))
unfolding has_fresh_proximity fail_times register_ping_failure
fail_times-fresh zero u now stale_after v h = inr (omega arith, refl, refl)
fail_times-fresh (suc zero) u now stale_after v h = inr (omega arith, ground arith, ground arith)
fail_times-fresh (suc (suc zero)) u now stale_after v h =
    inr (omega arith, ground arith, ground arith)
fail_times-fresh (suc (suc (suc n))) u now stale_after v h =
    inl (many (suc (suc (suc n))) u now stale_after v (omega arith))
