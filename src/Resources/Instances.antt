-- ===== src/Resources/Instances.antt =====
-- src/resources.rs: `Instance` and `LoadBalancer`.
use scaleway_operator.Prelude.{ℕ, String, Option, none, List}
use scaleway_operator.Prelude.Int.{ℤ}
use scaleway_operator.Resources.{Metadata}

-- `network` and `security` are read by no code of the operator.
pub record InstanceSpec : Type 0 where
  pub name : String
  pub zone : String
  pub image : String
  pub instance_type : String
  pub tags : List String
  pub boot_volume_size : ℤ  -- i32

pub record InstanceStatus : Type 0 where
  pub scaleway_id : Option String
  pub public_ip : Option String
  pub state : String
  pub project_id : Option String
  pub created_at : Option ℕ
  pub error_message : Option String
  pub sync_state : String

abbrev pub default_instance_status : InstanceStatus
default_instance_status = record {
  scaleway_id = none;
  public_ip = none;
  state = "unknown";
  project_id = none;
  created_at = none;
  error_message = none;
  sync_state = "Syncing";
}

pub record Instance : Type 0 where
  pub metadata : Metadata
  pub spec : InstanceSpec
  pub status : Option InstanceStatus

pub record LoadBalancerSpec : Type 0 where
  pub name : String
  pub zone : String
  pub lb_type : String
  pub description : Option String
  pub tags : List String

pub record LoadBalancerStatus : Type 0 where
  pub scaleway_id : Option String
  pub vip_address : Option String
  pub state : String
  pub project_id : Option String
  pub created_at : Option ℕ
  pub error_message : Option String
  pub sync_state : String

abbrev pub default_load_balancer_status : LoadBalancerStatus
default_load_balancer_status = record {
  scaleway_id = none;
  vip_address = none;
  state = "";
  project_id = none;
  created_at = none;
  error_message = none;
  sync_state = "Pending";
}

pub record LoadBalancer : Type 0 where
  pub metadata : Metadata
  pub spec : LoadBalancerSpec
  pub status : Option LoadBalancerStatus
