-- ===== src/Resources/Databases.antt =====
-- src/resources.rs: `Rdb`.
use scaleway_operator.Prelude.{
  ℕ, String, Bool, true, false, ◌&&◌, Option, none, List, str_eq, ◌==◌, eq_option,
}
use scaleway_operator.Resources.{Metadata}

pub data DeletionPolicy : Type 0 where
  delete retain : DeletionPolicy

pub record RdbSpec : Type 0 where
  pub region : String
  pub engine : String
  pub node_type : String
  pub admin_user : String
  pub admin_password_secret_ref : String  -- its `name`
  pub volume_size_gb : Option ℕ  -- u32
  pub volume_type : String
  pub is_ha_cluster : Bool
  pub disable_backup : Bool
  pub tags : List String
  pub deletion_policy : DeletionPolicy

pub record RdbStatus : Type 0 where
  pub scaleway_id : Option String
  pub state : String
  pub endpoint_ip : Option String
  pub endpoint_port : Option ℕ  -- u16
  pub engine : Option String
  pub node_type : Option String
  pub project_id : Option String
  pub created_at : Option ℕ
  pub sync_state : String
  pub error_message : Option String
  pub drift_message : Option String

abbrev pub default_rdb_status : RdbStatus
default_rdb_status = record {
  scaleway_id = none;
  state = "";
  endpoint_ip = none;
  endpoint_port = none;
  engine = none;
  node_type = none;
  project_id = none;
  created_at = none;
  sync_state = "Pending";
  error_message = none;
  drift_message = none;
}

-- The derived `PartialEq`.
abbrev pub eq_rdb_status : RdbStatus → RdbStatus → Bool
eq_rdb_status a b =
    eq_option str_eq a.scaleway_id b.scaleway_id
    && str_eq a.state b.state
    && eq_option str_eq a.endpoint_ip b.endpoint_ip
    && eq_option ◌==◌ a.endpoint_port b.endpoint_port
    && eq_option str_eq a.engine b.engine
    && eq_option str_eq a.node_type b.node_type
    && eq_option str_eq a.project_id b.project_id
    && eq_option ◌==◌ a.created_at b.created_at
    && str_eq a.sync_state b.sync_state
    && eq_option str_eq a.error_message b.error_message
    && eq_option str_eq a.drift_message b.drift_message

pub record Rdb : Type 0 where
  pub metadata : Metadata
  pub spec : RdbSpec
  pub status : Option RdbStatus

-- `== DeletionPolicy::Retain`
abbrev pub retains : DeletionPolicy → Bool
retains retain = true
retains delete = false
