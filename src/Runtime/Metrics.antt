-- ===== src/Runtime/Metrics.antt =====
-- src/metrics.rs: the calls on the Prometheus metrics, in a log with the newest first. The observed
-- durations are left out.
use scaleway_operator.Prelude.{
  ℕ, ◌+◌, String, Bool, true, false, List, [], ◌∷◌, ◌&&◌, str_eq, if◌then◌else◌,
}
use scaleway_operator.Prelude.Int.{ℤ, pos, ◌+ℤ◌, ◌-ℤ◌}
use scaleway_operator.Error.{OperatorError, metric_label}

pub data ReconcileOutcome : Type 0 where
  created synced adopted deleted error : ReconcileOutcome

unfoldable pub as_str : ReconcileOutcome → String
as_str created = "Created"
as_str synced = "Synced"
as_str adopted = "Adopted"
as_str deleted = "Deleted"
as_str error = "Error"

abbrev pub is_error : ReconcileOutcome → Bool
is_error error = true
is_error _ = false

pub data MetricEvent : Type 0 where
  count_error : String → MetricEvent  -- error_variant
  observe_duration : String → MetricEvent  -- outcome
  -- zone, type, state
  inc_instance dec_instance inc_load_balancer dec_load_balancer :
      String → String → String → MetricEvent

abbrev pub Metrics : Type 0
Metrics = List MetricEvent

unfoldable pub record_error : OperatorError → Metrics → Metrics
unfolding metric_label
record_error e m = count_error (metric_label e) ∷ m

unfoldable pub record_duration : ReconcileOutcome → Metrics → Metrics
unfolding as_str
record_duration o m = observe_duration (as_str o) ∷ m

unfoldable pub inc_instances : String → String → String → Metrics → Metrics
inc_instances zone instance_type state m = inc_instance zone instance_type state ∷ m

unfoldable pub dec_instances : String → String → String → Metrics → Metrics
dec_instances zone instance_type state m = dec_instance zone instance_type state ∷ m

unfoldable pub inc_load_balancers : String → String → String → Metrics → Metrics
inc_load_balancers zone lb_type state m = inc_load_balancer zone lb_type state ∷ m

unfoldable pub dec_load_balancers : String → String → String → Metrics → Metrics
dec_load_balancers zone lb_type state m = dec_load_balancer zone lb_type state ∷ m

-- The gauge's value at these labels: what was added less what was taken off. It may be negative.
module _ (zone kind state : String) where
  abbrev has_labels : String → String → String → Bool
  has_labels z k s = str_eq z zone && str_eq k kind && str_eq s state

  abbrev instances_by : MetricEvent → ℤ → ℤ
  instances_by (inc_instance z k s) v = if has_labels z k s then v +ℤ pos 1 else v
  instances_by (dec_instance z k s) v = if has_labels z k s then v -ℤ pos 1 else v
  instances_by _ v = v

  abbrev pub instances_total : Metrics → ℤ
  instances_total [] = pos 0
  instances_total (e ∷ m) = instances_by e (instances_total m)

  abbrev load_balancers_by : MetricEvent → ℤ → ℤ
  load_balancers_by (inc_load_balancer z k s) v = if has_labels z k s then v +ℤ pos 1 else v
  load_balancers_by (dec_load_balancer z k s) v = if has_labels z k s then v -ℤ pos 1 else v
  load_balancers_by _ v = v

  abbrev pub load_balancers_total : Metrics → ℤ
  load_balancers_total [] = pos 0
  load_balancers_total (e ∷ m) = load_balancers_by e (load_balancers_total m)

-- The counter's value at this label.
module _ (label : String) where
  abbrev errors_by : MetricEvent → ℕ → ℕ
  errors_by (count_error l) n = if str_eq l label then n + 1 else n
  errors_by _ n = n

  abbrev pub reconcile_errors_total : Metrics → ℕ
  reconcile_errors_total [] = 0
  reconcile_errors_total (e ∷ m) = errors_by e (reconcile_errors_total m)
