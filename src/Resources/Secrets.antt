-- ===== src/Resources/Secrets.antt =====
-- src/resources.rs: `ScalewaySecret`, and the Kubernetes Secret that it is synchronised from.
use scaleway_operator.Prelude.{ℕ, String, Bool, ◌&&◌, Option, none, List, str_eq, ◌==◌, eq_option}
use scaleway_operator.Resources.{Metadata}

pub record KubernetesSecretRef : Type 0 where
  pub name : String
  pub key : String

pub record ScalewaySecretSpec : Type 0 where
  pub name : String
  pub region : String
  pub kubernetes_secret : Option KubernetesSecretRef  -- `source.kubernetes_secret`
  pub description : Option String
  pub tags : List String

pub record ScalewaySecretStatus : Type 0 where
  pub scaleway_id : Option String
  pub current_version : Option ℕ  -- u32
  pub last_synced_resource_version : Option String
  pub observed_generation : Option ℕ  -- i64
  pub sync_state : String
  pub error_message : Option String

abbrev pub default_secret_status : ScalewaySecretStatus
default_secret_status = record {
  scaleway_id = none;
  current_version = none;
  last_synced_resource_version = none;
  observed_generation = none;
  sync_state = "Syncing";
  error_message = none;
}

-- The derived `PartialEq`.
abbrev pub eq_secret_status : ScalewaySecretStatus → ScalewaySecretStatus → Bool
eq_secret_status a b =
    eq_option str_eq a.scaleway_id b.scaleway_id
    && eq_option ◌==◌ a.current_version b.current_version
    && eq_option str_eq a.last_synced_resource_version b.last_synced_resource_version
    && eq_option ◌==◌ a.observed_generation b.observed_generation
    && str_eq a.sync_state b.sync_state
    && eq_option str_eq a.error_message b.error_message

pub record ScalewaySecret : Type 0 where
  pub metadata : Metadata
  pub spec : ScalewaySecretSpec
  pub status : Option ScalewaySecretStatus

-- k8s_openapi's `Secret` as far as the program reads it; a value is its bytes.
pub record Secret : Type 0 where
  pub labels : Option (List (String × String))
  pub annotations : Option (List (String × String))
  pub resource_version : Option String
  pub contents : Option (List (String × List ℕ))  -- `data`
