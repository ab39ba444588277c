-- ===== src/Reconcile/Databases/Handler.antt =====
-- src/reconcilers.rs: the reconciler of `Rdb`, from the facts to the action.
use scaleway_operator.Decide.Servers.{role_allows_write}
use scaleway_operator.Context.Retry.{reset_retry_count}
use scaleway_operator.Decide.Databases.{
  RdbReconcileDecision, RdbReconcileInput, add_finalizer, block_read_only_role, create_instance,
  decide_next_action_rdb, delete_instance, remove_finalizer, skip_circuit_open, sync_instance,
}
use scaleway_operator.Error.{OperatorError, circuit_breaker_open, config_error}
use scaleway_operator.Prelude.{Bool, String, false, if◌then◌else◌, not, ◌&&◌}
use scaleway_operator.Reconcile.Databases.Steps.{
  create_from, delete_instance_branch, execute_create_rdb, patch_rdb_finalizers, record_rdb_error,
  release, status_of, sync,
}
use scaleway_operator.Reconcile.Shared.{
  Action, bad_project_id, deletion_requested, finalizer_present,
  get_project_id_from_namespace_resource, get_scaleway_role_for_namespace, is_cached_cr_current,
  namespace_of, rdb_finalizer, requeue, retry_key, stale_cache_requeue, with_finalizer,
}
use scaleway_operator.Resources.{rdb_kind}
use scaleway_operator.Resources.Databases.{Rdb, retains}
use scaleway_operator.Runtime.Calls.{circuit_open, measured, set_outcome}
use scaleway_operator.Runtime.Exec.{Exec, attempt, lift, modify, on_error, pure, raise, ◌>>=◌, ◌>>◌}
use scaleway_operator.Runtime.Metrics.{error}
use scaleway_operator.Runtime.World.{Outside}
use scaleway_operator.Scaleway.Tags.{check_tags}
use scaleway_operator.Scaleway.Validation.{validate_region}

module _ (out : Outside) (cr : Rdb) where
  -- Whether the role allows writing, and the project id.
  unfoldable pub gather : Bool → Exec (Bool × String)
  gather is_open =
      if not (deletion_requested cr.metadata) && not is_open
      then (do
        role ←
            on_error (get_scaleway_role_for_namespace out (namespace_of cr.metadata))
              (record_rdb_error out cr)
        pid ←
            on_error (get_project_id_from_namespace_resource out cr.metadata)
              (record_rdb_error out cr)
        (if out.is_uuid pid
            then pure (role_allows_write role, pid)
            else on_error (raise (bad_project_id out pid)) (record_rdb_error out cr)))
      else pure (false, "")

  -- The tags are used at the creation only, so a deletion does not depend on them.
  unfoldable pub check_spec : Exec (Unit {0})
  check_spec = do
    on_error (lift (validate_region cr.spec.region)) (record_rdb_error out cr)
    (if not (deletion_requested cr.metadata)
        then on_error (lift (check_tags cr.spec.tags)) (record_rdb_error out cr)
        else pure tt)

  abbrev read_only_error : OperatorError
  read_only_error =
      config_error
        "The namespace role is read-only and cannot create Database Instances. Use 'Editor' or 'Admin'."

  unfoldable pub execute : String → RdbReconcileDecision → Exec Action
  execute project_id skip_circuit_open = raise circuit_breaker_open
  execute project_id add_finalizer =
      patch_rdb_finalizers out cr (with_finalizer rdb_finalizer cr.metadata) >> pure (requeue 5)
  execute project_id block_read_only_role =
      measured out
        (on_error (raise read_only_error) (λ e. record_rdb_error out cr e >> set_outcome error))
  execute project_id create_instance = do
    is_current ← is_cached_cr_current out rdb_kind cr.metadata
    (if not is_current
        then pure (requeue stale_cache_requeue)
        else measured out (do
          made ← attempt (execute_create_rdb out cr project_id)
          create_from out cr project_id made))
  execute project_id (sync_instance scaleway_id) = measured out (sync out cr scaleway_id project_id)
  execute project_id (delete_instance scaleway_id) = delete_instance_branch out cr scaleway_id
  execute project_id remove_finalizer = measured out (release out cr)

  abbrev pub input_of : Bool → Bool → RdbReconcileInput
  input_of is_open may_write = record {
    deletion_requested = deletion_requested cr.metadata;
    circuit_open = is_open;
    finalizer_present = finalizer_present rdb_finalizer cr.metadata;
    role_allows_write = may_write;
    retain_on_delete = retains cr.spec.deletion_policy;
    scaleway_id = (status_of cr).scaleway_id;
  }

  unfoldable pub reconcile_rdb_inner : Exec Action
  reconcile_rdb_inner = do
    is_open ← circuit_open out
    check_spec
    (may_write, pid) ← gather is_open
    execute pid (decide_next_action_rdb (input_of is_open may_write))

  unfoldable pub reconcile_rdb : Exec Action
  reconcile_rdb = do
    action ← reconcile_rdb_inner
    modify (λ w. record w {
      retry_counts = reset_retry_count (retry_key "rdb" cr.metadata) w.retry_counts;
    })
    pure action
