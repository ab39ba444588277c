-- ===== src/Tests.antt =====
-- A cluster, a Scaleway that answers, and resources, on which the theorems are tried.
pub mod Pure
pub mod Effects
pub mod Creations
pub mod Deletions
pub mod Runs
pub mod Lifecycle
pub mod Wire
pub mod Secrets
pub mod Requests
use scaleway_operator.Context.Breaker.{CircuitBreakerState, closed}
use scaleway_operator.Error.{KubeError}
use scaleway_operator.Json.{Json}
use scaleway_operator.Prelude.{Option, String, [], false, none, some, true, ℕ, ◌∷◌}
use scaleway_operator.Prelude.Int.{pos}
use scaleway_operator.Reconcile.Shared.{
  instance_finalizer, lb_finalizer, rdb_finalizer, secret_finalizer,
}
use scaleway_operator.Resources.{Metadata}
use scaleway_operator.Resources.Databases.{DeletionPolicy, Rdb, RdbSpec}
use scaleway_operator.Resources.Instances.{
  Instance, InstanceStatus, LoadBalancer, default_instance_status,
}
use scaleway_operator.Resources.Secrets.{
  ScalewaySecret, ScalewaySecretStatus, Secret, default_secret_status,
}
use scaleway_operator.Runtime.Calls.{patch_finalizers, patch_status, send}
use scaleway_operator.Runtime.Http.{Try, bad, get, good}
use scaleway_operator.Runtime.Metrics.{as_str}
use scaleway_operator.Runtime.World.{Outside, ScalewayClient, World}

-- Every value is the text "x", which is also the number 1.
abbrev pub json_x : Json
json_x = record {
  Value = String;
  from_str = λ s. some s;
  get = λ v k. some v;
  index = λ v k. v;
  as_str = λ v. some v;
  as_array = λ v. none;
  as_u64 = λ v. some 1;
  as_bool = λ v. none;
  is_null = λ v. false;
}

-- The Secret of the credentials, or of a source that has opted in.
abbrev pub creds_secret : Secret
creds_secret = record {
  labels = some (("scaleway.mathieubodin.io/allow-operator-read", "true") ∷ []);
  annotations = some (("scaleway.mathieubodin.io/allowed-cr", "team/web") ∷ []);
  resource_version = some "7";
  contents = some (("secret_key", 1 ∷ []) ∷ ("password", 2 ∷ []) ∷ []);
}

abbrev pub metadata : Option ℕ → Metadata
metadata deleted_at = record {
  name = "web";
  namespace = some "team";
  deletion_timestamp = deleted_at;
  finalizers = some (instance_finalizer ∷ lb_finalizer ∷ rdb_finalizer ∷ secret_finalizer ∷ []);
  resource_version = some "7";
  generation = some 1;
}

abbrev pub secret_cr : Option ScalewaySecretStatus → ScalewaySecret
secret_cr status = record {
  metadata = metadata none;
  spec = record {
    name = "web";
    region = "fr-par";
    kubernetes_secret = some (record { name = "src"; key = "password" });
    description = none;
    tags = [];
  };
  status = status;
}

abbrev pub synced_secret : ScalewaySecret
synced_secret =
    let s = default_secret_status in
    secret_cr (
      some (record s { scaleway_id = some "s-1"; current_version = some 1; sync_state = "Synced" }))

-- An API that answers every request with this status, in a cluster where the lookup of Secrets ends so.
abbrev pub outside : ℕ → Try KubeError Secret → Outside
outside status secret_reply = record {
  json = json_x;
  send = λ log r. good (record { status = status; text = good "no"; json = good "x" });
  namespace_role = λ log ns. good "Editor";
  namespace_annotations = λ log ns. good (("scaleway.mathieubodin.io/project-id", "p") ∷ []);
  secret = λ log ns name. secret_reply;
  live_resource_version = λ log kind ns name. good (some "7");
  scaleway_secret = λ log ns name. good (some synced_secret);
  patch_finalizers = λ log kind ns name fs. none;
  patch_status = λ log ns name st. none;
  instant = λ log. 0;
  epoch_seconds = λ log. 0;
  utc_now = λ log. 0;
  status_text = λ n. "500 Internal Server Error";
  is_uuid = λ s. true;
  base64_encode = λ b. "AQ==";
  base64_decode = λ s. some [];
  from_utf8 = λ b. some "t";
}

abbrev pub api_up : Outside
api_up = outside 200 (good creds_secret)

abbrev pub api_failing : Outside
api_failing = outside 500 (good creds_secret)

abbrev pub no_creds : Outside
no_creds = outside 200 (bad (KubeError.other "timeout"))

-- A cluster that refuses every write of a status.
abbrev pub read_only : Outside
read_only = record api_up { patch_status = λ log ns name st. some (KubeError.other "refused") }

abbrev pub scaleway : ScalewayClient
scaleway = record { token = "t"; base_url = "https://api.scaleway.com" }

abbrev pub world : CircuitBreakerState → World
world breaker = record {
  scaleway_client = scaleway;
  scaleway_base_url = "https://api.scaleway.com";
  metrics = [];
  last_reconcile_at = 0;
  retry_counts = [];
  circuit_breaker = breaker;
  outcome = none;
  log = [];
}

abbrev pub calm : World
calm = world (closed 0)

abbrev pub instance_cr : Option ℕ → Option InstanceStatus → Instance
instance_cr deleted_at status = record {
  metadata = metadata deleted_at;
  spec = record {
    name = "web";
    zone = "fr-par-1";
    image = "ubuntu";
    instance_type = "DEV1-S";
    tags = [];
    boot_volume_size = pos 20;
  };
  status = status;
}

abbrev pub known_instance : Instance
known_instance =
    let s = default_instance_status in
    instance_cr (some 1) (some (record s { scaleway_id = some "i-1" }))

abbrev pub load_balancer : LoadBalancer
load_balancer = record {
  metadata = metadata none;
  spec = record {
    name = "web";
    zone = "fr-par-1";
    lb_type = "LB-S";
    description = none;
    tags = [];
  };
  status = none;
}

abbrev pub rdb_spec : DeletionPolicy → RdbSpec
rdb_spec policy = record {
  region = "fr-par";
  engine = "PostgreSQL-16";
  node_type = "DB-DEV-S";
  admin_user = "admin";
  admin_password_secret_ref = "pw";
  volume_size_gb = some 10;
  volume_type = "bssd";
  is_ha_cluster = false;
  disable_backup = false;
  tags = [];
  deletion_policy = policy;
}

abbrev pub rdb : Option ℕ → DeletionPolicy → Rdb
rdb deleted_at policy = record {
  metadata = metadata deleted_at;
  spec = rdb_spec policy;
  status = none;
}
