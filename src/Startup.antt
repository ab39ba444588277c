-- ===== src/Startup.antt =====
-- src/main.rs: the context at the start, the heartbeat, and the four controllers. Runtime/Registry registers
-- the metrics; the lines that read the environment and spawn the tasks are left out.
pub mod Counters
pub mod Runs
pub mod Lifecycle
pub mod Secrets
use scaleway_operator.Context.Breaker.{closed}
use scaleway_operator.Prelude.{List, String, [], none, ℕ, ◌∷◌}
use scaleway_operator.Reconcile.Databases.Handler.{reconcile_rdb}
use scaleway_operator.Reconcile.Instances.Handler.{reconcile_instance}
use scaleway_operator.Reconcile.LoadBalancers.Handler.{reconcile_load_balancer}
use scaleway_operator.Reconcile.Policy.{error_policy}
use scaleway_operator.Reconcile.Secrets.Handler.{reconcile_scaleway_secret}
use scaleway_operator.Reconcile.Shared.{Action}
use scaleway_operator.Resources.{Metadata}
use scaleway_operator.Resources.Databases.{Rdb}
use scaleway_operator.Resources.Instances.{Instance, LoadBalancer}
use scaleway_operator.Resources.Secrets.{ScalewaySecret}
use scaleway_operator.Runtime.Exec.{Exec, Result, err, ok}
use scaleway_operator.Runtime.World.{Outside, World}

-- The context with the token of the environment and the seconds since the epoch.
unfoldable pub initial_context : String → ℕ → World
initial_context scaleway_token now = record {
  scaleway_client = record { token = scaleway_token; base_url = "https://api.scaleway.com" };
  scaleway_base_url = "https://api.scaleway.com";
  metrics = [];
  last_reconcile_at = now;
  retry_counts = [];
  circuit_breaker = closed 0;
  outcome = none;
  log = [];
}

-- The body of the heartbeat's loop, every 30 seconds.
unfoldable pub heartbeat : ℕ → World → World
heartbeat now w = record w { last_reconcile_at = now }

-- A resource that a controller is handed.
pub data Resource : Type 0 where
  an_instance : Instance → Resource
  a_load_balancer : LoadBalancer → Resource
  a_secret : ScalewaySecret → Resource
  an_rdb : Rdb → Resource

-- The kinds under which the controllers' error policies count.
abbrev pub kind_of : Resource → String
kind_of (an_instance cr) = "instance"
kind_of (a_load_balancer cr) = "loadbalancer"
kind_of (a_secret cr) = "scalewayssecret"
kind_of (an_rdb cr) = "rdb"

abbrev pub metadata_of : Resource → Metadata
metadata_of (an_instance cr) = cr.metadata
metadata_of (a_load_balancer cr) = cr.metadata
metadata_of (a_secret cr) = cr.metadata
metadata_of (an_rdb cr) = cr.metadata

unfoldable pub reconcile : Outside → Resource → Exec Action
reconcile out (an_instance cr) = reconcile_instance out cr
reconcile out (a_load_balancer cr) = reconcile_load_balancer out cr
reconcile out (a_secret cr) = reconcile_scaleway_secret out cr
reconcile out (an_rdb cr) = reconcile_rdb out cr

-- `Controller::run` gives an error of the reconciler to the error policy.
abbrev pub settle : Resource → Result Action × World → Action × World
settle r (ok action, w) = (action, w)
settle r (err e, w) = error_policy (kind_of r) (metadata_of r) e w

unfoldable pub control : Outside → Resource → World → Action × World
control out r w = settle r (reconcile out r w)

-- The resources that the controllers are handed, one after the other.
unfoldable pub run_controllers : Outside → List Resource → World → World
run_controllers out [] w = w
run_controllers out (r ∷ rs) w = run_controllers out rs (control out r w).1
