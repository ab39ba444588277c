-- ===== src/Reconcile/Policy/Laws.antt =====
-- Properties of the error policy of src/reconcilers.rs.
use scaleway_operator.Prelude.{arith, min, refl, suc, u32, zero, ℕ, ◌*◌, ◌+◌, ◌^◌, ◌≡◌, ◌≤◌}
use scaleway_operator.Reconcile.Policy.{backoff_secs}

power_IsPositive : (k : ℕ) → 1 ≤ 2 ^ k
power_IsPositive zero = ground arith
power_IsPositive (suc k) = ground (arith, power_IsPositive k)

late_delay : (k : ℕ) → 4 ≤ k → min (30 * 2 ^ k) 300 ≡ 300
late_delay (suc (suc (suc (suc k)))) h = ground (arith, power_IsPositive k)
late_delay zero h = ground arith
late_delay (suc zero) h = ground arith
late_delay (suc (suc zero)) h = ground arith
late_delay (suc (suc (suc zero))) h = ground arith

capped_exponent : (n : ℕ) → 5 ≤ n → n ≤ 4294967295 → 4 ≤ min (u32 (n + 4294967295)) 9
capped_exponent n lo hi = ground arith

-- The delays after successive failures.
abbrev pub documented_delay : ℕ → ℕ
documented_delay zero = 0
documented_delay (suc zero) = 30
documented_delay (suc (suc zero)) = 60
documented_delay (suc (suc (suc zero))) = 120
documented_delay (suc (suc (suc (suc zero)))) = 240
documented_delay (suc (suc (suc (suc (suc n))))) = 300

-- The shift never overflows for a count that a u32 can hold.
pub backoff_table : (n : ℕ) → 1 ≤ n → n ≤ 4294967295 → backoff_secs n ≡ documented_delay n
unfolding backoff_secs
backoff_table zero lo hi = ground arith
backoff_table (suc zero) lo hi = refl
backoff_table (suc (suc zero)) lo hi = refl
backoff_table (suc (suc (suc zero))) lo hi = refl
backoff_table (suc (suc (suc (suc zero)))) lo hi = refl
backoff_table (suc (suc (suc (suc (suc n))))) lo hi =
    let m = suc (suc (suc (suc (suc n)))) in
    late_delay (min (u32 (m + 4294967295)) 9) (capped_exponent m (ground arith) hi)
