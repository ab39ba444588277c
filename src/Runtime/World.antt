-- ===== src/Runtime/World.antt =====
-- The state that the controllers share (`Context` of src/context.rs), the measurer of the reconcile
-- under way, the log of the calls that left the program, and the answers to them.
use scaleway_operator.Prelude.{ℕ, String, Bool, Option, List}
use scaleway_operator.Json.{Json}
use scaleway_operator.Error.{KubeError}
use scaleway_operator.Resources.{Kind}
use scaleway_operator.Resources.Instances.{InstanceStatus, LoadBalancerStatus}
use scaleway_operator.Resources.Secrets.{ScalewaySecret, ScalewaySecretStatus, Secret}
use scaleway_operator.Resources.Databases.{RdbStatus}
use scaleway_operator.Context.Breaker.{CircuitBreakerState}
use scaleway_operator.Context.Retry.{RetryCounts}
use scaleway_operator.Runtime.Http.{Try, HttpRequest, Response}
use scaleway_operator.Runtime.Metrics.{ReconcileOutcome, Metrics}

pub data StatusPatch : Type 0 where
  of_instance : InstanceStatus → StatusPatch
  of_load_balancer : LoadBalancerStatus → StatusPatch
  of_secret : ScalewaySecretStatus → StatusPatch
  of_rdb : RdbStatus → StatusPatch

-- A call that has been made. A namespace stands before a name.
pub data Event : Type 0 where
  sent : HttpRequest → Option ℕ → Event  -- with the status answered, if any
  read_namespace_role : String → Event
  read_namespace : String → Event
  read_secret : String → String → Event
  read_live : Kind → String → String → Event
  read_scaleway_secret : String → String → Event
  patched_finalizers : Kind → String → String → List String → Bool → Event  -- whether accepted
  patched_status : String → String → StatusPatch → Bool → Event  -- whether accepted
  published : String → String → String → Event

pub record ScalewayClient : Type 0 where
  pub token : String
  pub base_url : String

pub record World : Type 0 where
  pub scaleway_client : ScalewayClient
  pub scaleway_base_url : String
  pub metrics : Metrics
  pub last_reconcile_at : ℕ
  pub retry_counts : RetryCounts
  pub circuit_breaker : CircuitBreakerState
  -- what `set_outcome` has set on the measurer of the branch under way
  pub outcome : Option ReconcileOutcome
  -- the calls so far, the newest first
  pub log : List Event

-- The world outside: each answer may depend on all that was called before. `kube` and `reqwest` errors
-- are the answers' own; a patch answers `none` where it is accepted.
pub record Outside : Type 1 where
  pub json : Json
  pub send : List Event → HttpRequest → Try String (Response json.Value)
  pub namespace_role : List Event → String → Try KubeError String  -- spec.scaleway_role
  pub namespace_annotations : List Event → String → Try KubeError (List (String × String))
  pub secret : List Event → String → String → Try KubeError Secret
  pub live_resource_version : List Event → Kind → String → String → Try KubeError (Option String)
  pub scaleway_secret : List Event → String → String → Try KubeError (Option ScalewaySecret)
  pub patch_finalizers : List Event → Kind → String → String → List String → Option KubeError
  pub patch_status : List Event → String → String → StatusPatch → Option KubeError
  -- `Instant::now` in nanoseconds, the seconds since the epoch, and `Utc::now`
  pub instant : List Event → ℕ
  pub epoch_seconds : List Event → ℕ
  pub utc_now : List Event → ℕ
  -- pure functions of other libraries: `StatusCode`'s `Display`, UUID syntax, base64, UTF-8
  pub status_text : ℕ → String
  pub is_uuid : String → Bool
  pub base64_encode : List ℕ → String
  pub base64_decode : String → Option (List ℕ)
  pub from_utf8 : List ℕ → Option String
