-- ===== src/Resources.antt =====
-- src/resources.rs: the custom resources, their specs, their statuses with the defaults, and the
-- metadata that the reconcilers read. A timestamp is a number.
pub mod Instances
pub mod Secrets
pub mod Databases
pub mod Wire
use scaleway_operator.Prelude.{ℕ, String, Option, List}

-- What the program reads of a resource's `metadata`.
pub record Metadata : Type 0 where
  pub name : String  -- `name_any()`
  pub namespace : Option String
  pub deletion_timestamp : Option ℕ
  pub finalizers : Option (List String)
  pub resource_version : Option String
  pub generation : Option ℕ

-- The kinds of resource, as the parts of an API path.
pub data Kind : Type 0 where
  instance_kind load_balancer_kind secret_kind rdb_kind : Kind
