-- ===== src/Types/Ids.antt =====
-- The identifiers that `UniqueId::generate` hands out.
use magic_router.Prelude.{ℕ, zero, suc, ◌+◌, ◌%◌, ◌<◌, ◌≡◌, ◌≢◌, arith}
use magic_router.Types.{generate, u64_mod}

-- The counter after `n` calls.
unfoldable pub counter_after : ℕ → ℕ → ℕ
counter_after zero counter = counter
counter_after (suc n) counter = counter_after n (generate counter).1

-- The identifier of the call after `n` others.
abbrev nth_id : ℕ → ℕ → ℕ
nth_id counter n = (generate (counter_after n counter)).0

counter_after-eq :
    (n counter : ℕ) → counter < u64_mod → counter_after n counter ≡ (counter + n) % u64_mod
unfolding counter_after generate
counter_after-eq zero counter h = omega arith
counter_after-eq (suc n) counter h =
    omega (arith, counter_after-eq n ((counter + 1) % u64_mod) (omega arith))

-- Of any 2^64 identifiers handed out in a row, from any value of the counter, no two are equal,
-- whatever kinds of identifier they serve.
generate_distinct :
    (counter i j : ℕ)
    → counter < u64_mod
    → i < j
    → j < i + u64_mod
    → nth_id counter i ≢ nth_id counter j
unfolding generate
generate_distinct counter i j h lt near =
    omega (arith, counter_after-eq i counter h, counter_after-eq j counter h)
