-- ===== src/Decide/Servers.antt =====
-- src/reconcilers.rs: the decisions for `Instance` and for `LoadBalancer`.
use scaleway_operator.Prelude.{
  String, Bool, not, ◌||◌, Option, none, some, is_none, if◌then◌else◌, str_eq,
}

unfoldable pub role_allows_write : String → Bool
role_allows_write role =
    str_eq role "Editor" || str_eq role "Admin" || str_eq role "OrganizationOwner"

pub record ReconcileInput : Type 0 where
  pub deletion_requested : Bool
  pub circuit_open : Bool
  pub finalizer_present : Bool
  pub scaleway_role : String
  pub project_id : String
  pub scaleway_id : Option String
  pub status_project_id : Option String

pub data ReconcileDecision : Type 0 where
  skip_circuit_open add_finalizer block_read_only_role : ReconcileDecision
  verify_project_access : String → ReconcileDecision  -- project_id
  create_instance : String → ReconcileDecision  -- project_id
  sync_instance : String → String → ReconcileDecision  -- scaleway_id, project_id
  delete_instance remove_finalizer : ReconcileDecision

unfoldable pub decide_next_action : ReconcileInput → ReconcileDecision
decide_next_action input =
    if input.deletion_requested
    then (elim input.scaleway_id [ some id ↦ delete_instance | none ↦ remove_finalizer ])
    else if input.circuit_open
    then skip_circuit_open
    else if not input.finalizer_present
    then add_finalizer
    else (elim input.scaleway_id [
      | some id ↦ sync_instance id input.project_id
      | none ↦
          if not (role_allows_write input.scaleway_role)
          then block_read_only_role
          else if is_none input.status_project_id
          then verify_project_access input.project_id
          else create_instance input.project_id
    ])

pub record LbReconcileInput : Type 0 where
  pub deletion_requested : Bool
  pub circuit_open : Bool
  pub finalizer_present : Bool
  pub scaleway_role : String
  pub project_id : String
  pub scaleway_id : Option String
  pub status_project_id : Option String

pub data LbReconcileDecision : Type 0 where
  skip_circuit_open add_lb_finalizer block_read_only_role : LbReconcileDecision
  verify_project_access_lb : String → LbReconcileDecision  -- project_id
  create_load_balancer : String → LbReconcileDecision  -- project_id
  sync_load_balancer : String → String → LbReconcileDecision  -- scaleway_id, project_id
  delete_load_balancer remove_lb_finalizer : LbReconcileDecision

unfoldable pub decide_next_action_lb : LbReconcileInput → LbReconcileDecision
decide_next_action_lb input =
    if input.deletion_requested
    then (elim input.scaleway_id [ some id ↦ delete_load_balancer | none ↦ remove_lb_finalizer ])
    else if input.circuit_open
    then LbReconcileDecision.skip_circuit_open
    else if not input.finalizer_present
    then add_lb_finalizer
    else (elim input.scaleway_id [
      | some id ↦ sync_load_balancer id input.project_id
      | none ↦
          if not (role_allows_write input.scaleway_role)
          then LbReconcileDecision.block_read_only_role
          else if is_none input.status_project_id
          then verify_project_access_lb input.project_id
          else create_load_balancer input.project_id
    ])
