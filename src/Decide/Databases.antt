-- ===== src/Decide/Databases.antt =====
-- src/reconcilers.rs: the decision for `Rdb`.
use scaleway_operator.Prelude.{String, Bool, not, Option, none, some, if◌then◌else◌}

pub record RdbReconcileInput : Type 0 where
  pub deletion_requested : Bool
  pub circuit_open : Bool
  pub finalizer_present : Bool
  pub role_allows_write : Bool
  pub retain_on_delete : Bool
  pub scaleway_id : Option String

pub data RdbReconcileDecision : Type 0 where
  skip_circuit_open add_finalizer block_read_only_role create_instance : RdbReconcileDecision
  sync_instance : String → RdbReconcileDecision  -- scaleway_id
  delete_instance : String → RdbReconcileDecision  -- scaleway_id
  remove_finalizer : RdbReconcileDecision

unfoldable pub decide_next_action_rdb : RdbReconcileInput → RdbReconcileDecision
decide_next_action_rdb input =
    if input.deletion_requested
    then (elim input.scaleway_id [
      | some id ↦ if not input.retain_on_delete then delete_instance id else remove_finalizer
      | none ↦ remove_finalizer
    ])
    else if input.circuit_open
    then skip_circuit_open
    else if not input.finalizer_present
    then add_finalizer
    else (elim input.scaleway_id [
      | some id ↦ sync_instance id
      | none ↦ if not input.role_allows_write then block_read_only_role else create_instance
    ])
