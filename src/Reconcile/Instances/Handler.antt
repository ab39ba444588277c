-- ===== src/Reconcile/Instances/Handler.antt =====
-- src/reconcilers.rs: the reconciler of `Instance`, from the facts to the action.
use scaleway_operator.Prelude.{String, Bool, not, ◌&&◌, format, [], ◌∷◌, if◌then◌else◌}
use scaleway_operator.Error.{OperatorError, config_error, circuit_breaker_open}
use scaleway_operator.Context.Retry.{reset_retry_count}
use scaleway_operator.Resources.{instance_kind}
use scaleway_operator.Resources.Instances.{Instance}
use scaleway_operator.Decide.Servers.{
  ReconcileInput, ReconcileDecision, skip_circuit_open, add_finalizer, block_read_only_role,
  verify_project_access, create_instance, sync_instance, delete_instance, remove_finalizer,
  decide_next_action,
}
use scaleway_operator.Runtime.Metrics.{error}
use scaleway_operator.Runtime.World.{Outside}
use scaleway_operator.Runtime.Exec.{Exec, ◌>>=◌, ◌>>◌, pure, raise, gets, on_error, modify}
use scaleway_operator.Runtime.Calls.{
  patch_finalizers, circuit_open, call_scaleway, measured, set_outcome,
}
use scaleway_operator.Scaleway.Servers
use scaleway_operator.Reconcile.Shared.{
  Action, requeue, instance_finalizer, namespace_of, deletion_requested, finalizer_present,
  with_finalizer, retry_key, get_scaleway_role_for_namespace,
  get_project_id_from_namespace_resource, bad_project_id,
}
use scaleway_operator.Reconcile.Instances.Steps.{
  status_of, record_error_status, prepare, execute_create_instance, sync, handle_deletion,
}

module _ (out : Outside) (cr : Instance) where
  unfoldable pub add_finalizer_patch : Exec (Unit {0})
  add_finalizer_patch =
      patch_finalizers out instance_kind (namespace_of cr.metadata) cr.metadata.name
        (with_finalizer instance_finalizer cr.metadata)

  -- The facts read from the cluster, only where neither a deletion nor an open circuit makes them useless.
  unfoldable pub gather : Bool → Exec (String × String)
  gather is_open =
      if not (deletion_requested cr.metadata) && not is_open
      then (do
        role ←
            on_error (get_scaleway_role_for_namespace out (namespace_of cr.metadata))
              (record_error_status out cr)
        pid ←
            on_error (get_project_id_from_namespace_resource out cr.metadata)
              (record_error_status out cr)
        (if out.is_uuid pid
            then pure (role, pid)
            else on_error (raise (bad_project_id out pid)) (record_error_status out cr)))
      else pure ("", "")

  abbrev read_only_error : String → OperatorError
  read_only_error role = config_error (
      format (
        "Role '" ∷ role ∷ "' is read-only and cannot create instances. Use 'Editor' or 'Admin'."
        ∷ []))

  unfoldable pub execute : String → ReconcileDecision → Exec Action
  execute role skip_circuit_open = raise circuit_breaker_open
  execute role add_finalizer = add_finalizer_patch >> pure (requeue 5)
  execute role block_read_only_role = measured out (
      on_error (raise (read_only_error role))
        (λ e. record_error_status out cr e >> set_outcome error))
  execute role (verify_project_access project_id) = measured out (do
    ns_client ← prepare out cr
    client ← gets (λ w. w.scaleway_client)
    call_scaleway out (Servers.verify_project_access out client project_id)
    execute_create_instance out cr ns_client project_id)
  execute role (create_instance project_id) =
      measured out
        (do ns_client ← prepare out cr; execute_create_instance out cr ns_client project_id)
  execute role (sync_instance scaleway_id project_id) =
      measured out (sync out cr scaleway_id project_id)
  execute role delete_instance = handle_deletion out cr
  execute role remove_finalizer = handle_deletion out cr

  abbrev pub input_of : Bool → String → String → ReconcileInput
  input_of is_open role pid = record {
    deletion_requested = deletion_requested cr.metadata;
    circuit_open = is_open;
    finalizer_present = finalizer_present instance_finalizer cr.metadata;
    scaleway_role = role;
    project_id = pid;
    scaleway_id = (status_of cr).scaleway_id;
    status_project_id = (status_of cr).project_id;
  }

  unfoldable pub reconcile_instance_inner : Exec Action
  reconcile_instance_inner = do
    is_open ← circuit_open out
    (role, pid) ← gather is_open
    execute role (decide_next_action (input_of is_open role pid))

  -- A success resets the retry counter of the resource.
  unfoldable pub reconcile_instance : Exec Action
  reconcile_instance = do
    action ← reconcile_instance_inner
    modify (λ w. record w {
      retry_counts = reset_retry_count (retry_key "instance" cr.metadata) w.retry_counts;
    })
    pure action
