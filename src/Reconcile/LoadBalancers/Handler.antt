-- ===== src/Reconcile/LoadBalancers/Handler.antt =====
-- src/reconcilers.rs: the reconciler of `LoadBalancer`, from the facts to the action.
use scaleway_operator.Scaleway.Servers
use scaleway_operator.Context.Retry.{reset_retry_count}
use scaleway_operator.Decide.Servers.{
  LbReconcileDecision, LbReconcileInput, add_lb_finalizer, create_load_balancer,
  decide_next_action_lb, delete_load_balancer, remove_lb_finalizer, sync_load_balancer,
  verify_project_access_lb,
}
use scaleway_operator.Error.{OperatorError, circuit_breaker_open, config_error}
use scaleway_operator.Prelude.{Bool, String, [], format, if◌then◌else◌, not, ◌&&◌, ◌∷◌}
use scaleway_operator.Reconcile.LoadBalancers.Steps.{
  execute_create_load_balancer, handle_lb_deletion, record_error_status, status_of, sync,
  validate_or_fail,
}
use scaleway_operator.Reconcile.Shared.{
  Action, bad_project_id, deletion_requested, finalizer_present,
  get_project_id_from_namespace_resource, get_scaleway_role_for_namespace, lb_finalizer,
  namespace_of, requeue, retry_key, with_finalizer,
}
use scaleway_operator.Resources.{load_balancer_kind}
use scaleway_operator.Resources.Instances.{LoadBalancer}
use scaleway_operator.Runtime.Calls.{
  call_scaleway, circuit_open, measured, patch_finalizers, set_outcome,
}
use scaleway_operator.Runtime.Exec.{Exec, gets, modify, on_error, pure, raise, ◌>>=◌, ◌>>◌}
use scaleway_operator.Runtime.Metrics.{error}
use scaleway_operator.Runtime.World.{Outside}

module _ (out : Outside) (cr : LoadBalancer) where
  unfoldable pub add_finalizer_patch : Exec (Unit {0})
  add_finalizer_patch =
      patch_finalizers out load_balancer_kind (namespace_of cr.metadata) cr.metadata.name
        (with_finalizer lb_finalizer cr.metadata)

  -- The facts read from the cluster, only where neither a deletion nor an open circuit makes them useless.
  unfoldable pub gather : Bool → Exec (String × String)
  gather is_open =
      if not (deletion_requested cr.metadata) && not is_open
      then (do
        role ←
            on_error (get_scaleway_role_for_namespace out (namespace_of cr.metadata))
              (record_error_status out cr)
        pid ←
            on_error (get_project_id_from_namespace_resource out cr.metadata)
              (record_error_status out cr)
        (if out.is_uuid pid
            then pure (role, pid)
            else on_error (raise (bad_project_id out pid)) (record_error_status out cr)))
      else pure ("", "")

  abbrev read_only_error : String → OperatorError
  read_only_error role = config_error (
      format (
        "Role '" ∷ role
        ∷ "' is read-only and cannot create load balancers. Use 'Editor' or 'Admin'." ∷ []))

  unfoldable pub execute : String → LbReconcileDecision → Exec Action
  execute role LbReconcileDecision.skip_circuit_open = raise circuit_breaker_open
  execute role add_lb_finalizer = add_finalizer_patch >> pure (requeue 5)
  execute role LbReconcileDecision.block_read_only_role = measured out (
      on_error (raise (read_only_error role))
        (λ e. record_error_status out cr e >> set_outcome error))
  execute role (verify_project_access_lb project_id) = measured out (do
    validate_or_fail out cr
    client ← gets (λ w. w.scaleway_client)
    call_scaleway out (Servers.verify_project_access out client project_id)
    execute_create_load_balancer out cr project_id)
  execute role (create_load_balancer project_id) =
      measured out (do validate_or_fail out cr; execute_create_load_balancer out cr project_id)
  execute role (sync_load_balancer scaleway_id project_id) =
      measured out (sync out cr scaleway_id project_id)
  execute role delete_load_balancer = handle_lb_deletion out cr
  execute role remove_lb_finalizer = handle_lb_deletion out cr

  abbrev pub input_of : Bool → String → String → LbReconcileInput
  input_of is_open role pid = record {
    deletion_requested = deletion_requested cr.metadata;
    circuit_open = is_open;
    finalizer_present = finalizer_present lb_finalizer cr.metadata;
    scaleway_role = role;
    project_id = pid;
    scaleway_id = (status_of cr).scaleway_id;
    status_project_id = (status_of cr).project_id;
  }

  unfoldable pub reconcile_load_balancer_inner : Exec Action
  reconcile_load_balancer_inner = do
    is_open ← circuit_open out
    (role, pid) ← gather is_open
    execute role (decide_next_action_lb (input_of is_open role pid))

  unfoldable pub reconcile_load_balancer : Exec Action
  reconcile_load_balancer = do
    action ← reconcile_load_balancer_inner
    modify (λ w. record w {
      retry_counts = reset_retry_count (retry_key "loadbalancer" cr.metadata) w.retry_counts;
    })
    pure action
