-- ===== src/Decide/Secrets.antt =====
-- src/reconcilers.rs: the decision for `ScalewaySecret`.
use scaleway_operator.Prelude.{
  ℕ, String, Bool, not, ◌&&◌, Option, none, some, is_none, is_some, if◌then◌else◌, str_eq, ◌==◌,
  eq_option,
}

pub record SecretReconcileInput : Type 0 where
  pub deletion_requested : Bool
  pub circuit_open : Bool
  pub finalizer_present : Bool
  pub source_configured : Bool
  pub scaleway_id : Option String
  pub last_synced_resource_version : Option String
  pub current_resource_version : Option String
  pub current_key_present : Bool
  pub generation : Option ℕ
  pub observed_generation : Option ℕ

pub data SecretReconcileDecision : Type 0 where
  skip_circuit_open add_finalizer : SecretReconcileDecision
  error_source_not_configured error_ks_secret_not_found error_ks_key_not_found :
      SecretReconcileDecision
  create_and_sync_secret : SecretReconcileDecision
  push_new_version : String → SecretReconcileDecision  -- scaleway_id
  already_synced delete_secret remove_finalizer : SecretReconcileDecision

-- The steps from 6 on, which look at what is known in Scaleway.
unfoldable pub decide_sync : SecretReconcileInput → SecretReconcileDecision
decide_sync input = elim input.scaleway_id [
  | none ↦ create_and_sync_secret
  | some id ↦
      if not (eq_option str_eq input.current_resource_version input.last_synced_resource_version)
      then push_new_version id
      else if is_some input.observed_generation
          && not (eq_option ◌==◌ input.observed_generation input.generation)
      then push_new_version id
      else already_synced
]

unfoldable pub decide_next_action_secret : SecretReconcileInput → SecretReconcileDecision
decide_next_action_secret input =
    if input.deletion_requested
    then (elim input.scaleway_id [ some id ↦ delete_secret | none ↦ remove_finalizer ])
    else if input.circuit_open
    then skip_circuit_open
    else if not input.finalizer_present
    then add_finalizer
    else if not input.source_configured
    then error_source_not_configured
    else if is_none input.current_resource_version
    then error_ks_secret_not_found
    else if not input.current_key_present
    then error_ks_key_not_found
    else decide_sync input
