-- ===== src/Scaleway/Info.antt =====
-- src/scaleway.rs: what the client returns of a resource, and the parameters of a database.
use scaleway_operator.Prelude.{ℕ, String, Bool, Option, List}

pub record InstanceInfo : Type 0 where
  pub id : String
  pub state : String
  pub public_ip : Option String
  pub created_at : Option String

pub record RdbCreateParams : Type 0 where
  pub name : String
  pub project_id : String
  pub engine : String
  pub user_name : String
  pub password : String
  pub node_type : String
  pub is_ha_cluster : Bool
  pub disable_backup : Bool
  pub volume_type : String
  pub volume_size_bytes : Option ℕ  -- u64
  pub extra_tags : List String

pub record RdbInstanceInfo : Type 0 where
  pub id : String
  pub state : String
  pub engine : Option String
  pub node_type : Option String
  pub is_ha_cluster : Option Bool
  pub volume_size_bytes : Option ℕ  -- u64
  pub endpoint_ip : Option String
  pub endpoint_port : Option ℕ  -- u16

pub record LoadBalancerInfo : Type 0 where
  pub id : String
  pub state : String
  pub vip_address : Option String
