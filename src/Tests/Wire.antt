-- ===== src/Tests/Wire.antt =====
-- The theorems on the registry and on the statuses as JSON, with a registry that is a list of names and a
-- clock that prints in tallies.
-- A registry that knows the names taken.
use Prim.Native.String as Texts
use scaleway_operator.Prelude.{
  List, String, [], ap, contains, if◌then◌else◌, none, refl, some, suc, zero, ℕ, ◌∷◌, ◌≡◌,
}
use scaleway_operator.Resources.Databases.{RdbStatus, default_rdb_status}
use scaleway_operator.Resources.Instances.{
  InstanceStatus, default_instance_status, default_load_balancer_status,
}
use scaleway_operator.Resources.Secrets.{default_secret_status}
use scaleway_operator.Resources.Wire.{Clock, merge_patch}
use scaleway_operator.Resources.Wire.Laws.{deserialize-serialize}
use scaleway_operator.Resources.Wire.Statuses.{
  deserialize_instance, deserialize_load_balancer, deserialize_rdb, deserialize_secret,
  serialize_instance, serialize_load_balancer, serialize_rdb, serialize_secret,
}
use scaleway_operator.Runtime.Http.{bad, good}
use scaleway_operator.Runtime.Registry.{
  Prometheus, RegistersNames, WellFormed, name_of, new, new_once, operator_metrics,
}

abbrev of_names : Prometheus
of_names = record {
  Registry = List String;
  refuses = λ c. none;
  register = λ r c. if contains r (name_of c) then bad "AlreadyReg" else good (name_of c ∷ r);
}

of_names-RegistersNames : RegistersNames of_names
of_names-RegistersNames = record {
  names = λ r. r;
  accepted = λ r c free. (name_of c ∷ r, rw free, refl);
  taken = λ r c is_taken. ("AlreadyReg", rw is_taken);
}

of_names-WellFormed : WellFormed of_names
of_names-WellFormed = record {
  errors = refl;
  durations = refl;
  instances = refl;
  load_balancers = refl;
}

new_once_example :
    (r' : List String) × (new of_names [] ≡ (good operator_metrics, r'))
    × (r'
        ≡ "scaleway_operator_load_balancers_total" ∷ "scaleway_operator_instances_total"
          ∷ "scaleway_operator_reconcile_duration_seconds"
          ∷ "scaleway_operator_reconcile_errors_total" ∷ [])
    × ((e : String) × (new of_names r' ≡ (bad e, r')))
unfolding of_names-RegistersNames
new_once_example =
    new_once of_names of_names-RegistersNames of_names-WellFormed [] refl refl refl refl

-- A tally: one letter for each second.
abbrev tally : ℕ → String
tally zero = Texts.[]
tally (suc t) = Texts.◌∷◌ "s" (tally t)

abbrev count : String → ℕ
count Texts.[] = 0
count (Texts.◌∷◌ c s) = suc (count s)

abbrev tally_clock : Clock
tally_clock = record { print = tally; parse = λ s. some (count s) }

count-tally : (t : ℕ) → count (tally t) ≡ t
count-tally zero = refl
count-tally (suc t) = ap suc (count-tally t)

abbrev running : InstanceStatus
running =
    let s = default_instance_status in
    record s { scaleway_id = some "i-1"; created_at = some 3; state = "running" }

abbrev ready : RdbStatus
ready = let s = default_rdb_status in record s { endpoint_port = some 5432 }

deserialize-serialize_example :
    (deserialize_instance tally_clock (merge_patch (serialize_instance tally_clock running) [])
      ≡ some running)
    × (deserialize_load_balancer tally_clock
          (merge_patch (serialize_load_balancer tally_clock default_load_balancer_status) [])
        ≡ some default_load_balancer_status)
    × (deserialize_secret tally_clock
          (merge_patch (serialize_secret tally_clock default_secret_status) [])
        ≡ some default_secret_status)
    × (deserialize_rdb tally_clock (merge_patch (serialize_rdb tally_clock ready) []) ≡ some ready)
deserialize-serialize_example =
    deserialize-serialize tally_clock (λ t. ap some (count-tally t)) running
      default_load_balancer_status default_secret_status ready [] (refl, refl) refl
