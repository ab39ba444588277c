-- ===== src/Runtime/Gauges.antt =====
-- src/metrics.rs: an instance that the gauge counts once.
use scaleway_operator.Prelude.Int.{◌+ℤ◌, ◌-ℤ◌}
use scaleway_operator.Prelude.{
  Bool-cases, Option, String, inl, inr, none, some, str_eq, ◌&&◌, ◌∷◌, ◌≡◌,
}
use scaleway_operator.Prelude.Int.{int_laws, pos, ℤ}
use scaleway_operator.Resources.Instances.{InstanceSpec, InstanceStatus}
use scaleway_operator.Runtime.Metrics.{Metrics, dec_instance, inc_instance, instances_total}

-- The gauge of instances at a zone, a type and a state.
abbrev pub gauge : String × String × String → Metrics → ℤ
gauge (zone, kind, state) m = instances_total zone kind state m

-- With one more for an instance of this status.
abbrev pub counting : InstanceSpec → Option InstanceStatus → Metrics → Metrics
counting spec none m = m
counting spec (some st) m = inc_instance spec.zone spec.instance_type st.state ∷ m

plus_minus : (b : ℤ) → (b +ℤ pos 1) -ℤ pos 1 ≡ b
plus_minus b = omega int_laws

-- What is taken off was added.
pub gauge-dec :
    (l : String × String × String) (zone kind state : String) (m m' : Metrics)
    → gauge l m ≡ gauge l (inc_instance zone kind state ∷ m')
    → gauge l (dec_instance zone kind state ∷ m) ≡ gauge l m'
gauge-dec (z, k, s) zone kind state m m' h =
    elim (Bool-cases (str_eq zone z && str_eq kind k && str_eq state s)) [
      | inl e ↦ let h' = rw e at h in rw (e, h') (plus_minus _)
      | inr e ↦ let h' = rw e at h in rw e h'
    ]

pub gauge-inc :
    (l : String × String × String) (zone kind state : String) (m m' : Metrics)
    → gauge l m ≡ gauge l m'
    → gauge l (inc_instance zone kind state ∷ m) ≡ gauge l (inc_instance zone kind state ∷ m')
gauge-inc (z, k, s) zone kind state m m' h = rw h
