-- ===== src/Reconcile/Policy.antt =====
-- src/reconcilers.rs: what the controllers do after a failed reconcile.
pub mod Laws
use scaleway_operator.Prelude.{
  ℕ, ◌+◌, ◌-◌, ◌*◌, ◌^◌, min, String, Option, none, some, u32, if◌then◌else◌,
}
use scaleway_operator.Error.{OperatorError, is_permanent_error, recheck_interval}
use scaleway_operator.Context.Retry.{increment_retry_count}
use scaleway_operator.Resources.{Metadata}
use scaleway_operator.Runtime.Metrics.{record_error}
use scaleway_operator.Runtime.World.{World}
use scaleway_operator.Reconcile.Shared.{Action, requeue, await_change, retry_key}

-- `(30u64 * (1u64 << (attempts - 1).min(9))).min(300)`, with `attempts - 1` on a `u32`.
unfoldable pub backoff_secs : ℕ → ℕ
backoff_secs attempts = min (30 * 2 ^ min (u32 (attempts + 4294967295)) 9) 300

unfoldable pub error_policy_inner : String → OperatorError → World → Action × World
unfolding backoff_secs
error_policy_inner key error w = elim (recheck_interval error) [
  | some interval ↦ (requeue interval, w)
  | none ↦
      if is_permanent_error error
      then (await_change, w)
      else (let (attempts, counts) = increment_retry_count key w.retry_counts in
          (requeue (backoff_secs attempts), record w { retry_counts = counts }))
]

unfoldable pub error_policy : String → Metadata → OperatorError → World → Action × World
unfolding error_policy_inner
error_policy kind metadata error w =
    error_policy_inner (retry_key kind metadata) error
      (record w { metrics = record_error error w.metrics })
