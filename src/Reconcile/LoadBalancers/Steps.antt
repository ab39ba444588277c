-- ===== src/Reconcile/LoadBalancers/Steps.antt =====
-- src/reconcilers.rs: creating, following and deleting the Scaleway load balancer of a `LoadBalancer`. All
-- but the check of the credentials goes through the operator's own client.
use scaleway_operator.Scaleway.LoadBalancers
use scaleway_operator.Error.{OperatorError, config_error, for_status, lb_not_found, scaleway_error}
use scaleway_operator.Prelude.{
  Bool, Option, String, and_then, false, find?, get_or, if◌then◌else◌, is_some, none, some, str_eq,
  true, ◌||◌,
}
use scaleway_operator.Reconcile.Shared.{
  Action, await_change, get_namespace_client, lb_finalizer, namespace_of, requeue,
  without_finalizer,
}
use scaleway_operator.Resources.{load_balancer_kind}
use scaleway_operator.Resources.Instances.{
  LoadBalancer, LoadBalancerSpec, LoadBalancerStatus, default_load_balancer_status,
}
use scaleway_operator.Runtime.Calls.{
  call_scaleway, measured, patch_finalizers, patch_status, set_outcome, update_metrics,
}
use scaleway_operator.Runtime.Exec.{
  Exec, Result, attempt, err, gets, ignore, lift, ok, on_error, pure, raise, ◌>>=◌, ◌>>◌,
}
use scaleway_operator.Runtime.Metrics.{
  adopted, created, dec_load_balancers, deleted, error, inc_load_balancers, synced,
}
use scaleway_operator.Runtime.World.{Outside, ScalewayClient, of_load_balancer}
use scaleway_operator.Scaleway.Info.{LoadBalancerInfo}
use scaleway_operator.Scaleway.Validation.{validate_lb_type, validate_zone}

abbrev pub status_of : LoadBalancer → LoadBalancerStatus
status_of cr = get_or default_load_balancer_status cr.status

-- `lb.status.as_ref().map(|s| s.state).unwrap_or("")`
abbrev old_state : LoadBalancer → String
old_state cr = elim cr.status [ some s ↦ s.state | none ↦ "" ]

abbrev pub known_id : LoadBalancer → Option String
known_id cr = and_then (λ (s : LoadBalancerStatus). s.scaleway_id) cr.status

abbrev is_lb_not_found : OperatorError → Bool
is_lb_not_found (lb_not_found m) = true
is_lb_not_found _ = false

-- A refusal because the load balancer is locked.
abbrev pub is_locked : OperatorError → Bool
is_locked (scaleway_error status message) =
    is_some (find? status "409") || is_some (find? status "423")
is_locked _ = false

unfoldable pub validate_lb_spec : LoadBalancerSpec → Result (Unit {0})
validate_lb_spec spec = elim (validate_zone spec.zone) [
  | err e ↦ err e
  | ok _ ↦ elim (validate_lb_type spec.lb_type) [
    | err e ↦ err e
    | ok _ ↦ if str_eq spec.name "" then err (config_error "name cannot be empty") else ok tt
  ]
]

module _ (out : Outside) (cr : LoadBalancer) where
  unfoldable pub update_lb_status : LoadBalancerStatus → Exec (Unit {0})
  update_lb_status status =
      patch_status out (namespace_of cr.metadata) cr.metadata.name (of_load_balancer status)

  abbrev pub error_status : OperatorError → LoadBalancerStatus
  error_status e =
      let status = status_of cr in
      record status { error_message = some (for_status out.json e); sync_state = "Error" }

  -- `let _ = update_lb_status(...)` with the error on the status
  unfoldable pub record_error_status : OperatorError → Exec (Unit {0})
  record_error_status e = ignore (update_lb_status (error_status e))

  unfoldable pub validate_or_fail : Exec (Unit {0})
  validate_or_fail = on_error (lift (validate_lb_spec cr.spec)) (λ e. set_outcome error)

  -- The id of the load balancer to follow, and whether it was adopted.
  abbrev pub adopt_or_create_from : ScalewayClient → String → Option String → Exec (String × Bool)
  adopt_or_create_from client project_id (some existing_id) = pure (existing_id, true)
  adopt_or_create_from client project_id none = do
    id ←
        on_error
          (call_scaleway out (
            LoadBalancers.create_load_balancer out client cr.spec project_id
              (namespace_of cr.metadata) cr.metadata.name))
          (λ e. update_lb_status (error_status e) >> set_outcome error)
    pure (id, false)

  unfoldable pub adopt_or_create : ScalewayClient → String → Exec (String × Bool)
  adopt_or_create client project_id = do
    found ← call_scaleway out (
        LoadBalancers.find_load_balancer_by_name out client cr.spec.zone (namespace_of cr.metadata)
          cr.metadata.name project_id)
    adopt_or_create_from client project_id found

  abbrev pub created_status : String → String → LoadBalancerStatus
  created_status id project_id =
      let status = status_of cr in
      record status {
        scaleway_id = some id;
        state = "pending";
        sync_state = "Syncing";
        error_message = none;
        project_id = some project_id;
      }

  unfoldable pub execute_create_load_balancer : String → Exec Action
  execute_create_load_balancer project_id = do
    client ← gets (λ w. w.scaleway_client)
    (id, was_adopted) ← adopt_or_create client project_id
    update_metrics (inc_load_balancers cr.spec.zone cr.spec.lb_type "pending")
    set_outcome (if was_adopted then adopted else created)
    update_lb_status (created_status id project_id)
    pure (requeue 10)

  unfoldable pub sync_known : String → LoadBalancerInfo → Exec Action
  sync_known project_id info = do
    update_metrics (dec_load_balancers cr.spec.zone cr.spec.lb_type (old_state cr))
    update_metrics (inc_load_balancers cr.spec.zone cr.spec.lb_type info.state)
    set_outcome synced
    let status = status_of cr
    update_lb_status (record status {
      state = info.state;
      vip_address = info.vip_address;
      project_id = some project_id;
      sync_state = "Synced";
      error_message = none;
    })
    pure (requeue 30)

  unfoldable pub sync_missing : Exec Action
  sync_missing = do
    (if is_some (known_id cr)
        then update_metrics (dec_load_balancers cr.spec.zone cr.spec.lb_type (old_state cr))
        else pure tt)
    let status = status_of cr
    ignore (
        update_lb_status (record status {
          scaleway_id = none;
          state = "";
          vip_address = none;
          project_id = none;
          error_message = none;
          sync_state = "Pending";
        }))
    set_outcome error
    pure (requeue 30)

  abbrev pub sync_from : String → Result LoadBalancerInfo → Exec Action
  sync_from project_id (ok info) = sync_known project_id info
  sync_from project_id (err e) =
      if is_lb_not_found e
      then sync_missing
      else on_error (raise e) (λ e'. update_lb_status (error_status e') >> set_outcome error)

  unfoldable pub sync : String → String → Exec Action
  sync scaleway_id project_id = do
    client ← gets (λ w. w.scaleway_client)
    reply ←
        attempt
          (call_scaleway out (LoadBalancers.get_load_balancer out client cr.spec.zone scaleway_id))
    sync_from project_id reply

  -- A locked load balancer is told of in the status, and the error is a 409 of its own.
  abbrev pub delete_reply : Result (Unit {0}) → Exec (Unit {0})
  delete_reply (ok u) = pure tt
  delete_reply (err e) =
      if is_locked e
      then (do
        let status = status_of cr
        ignore (
            update_lb_status (record status {
              sync_state = "TerminationBlocked";
              error_message = some "Load balancer is locked — deletion blocked by Scaleway";
            }))
        set_outcome error
        raise (scaleway_error "409" "Load balancer is locked"))
      else set_outcome error >> raise e

  -- Without credentials the deletion in Scaleway is skipped, and the status tells of it.
  abbrev pub delete_with : String → Result ScalewayClient → Exec (Unit {0})
  delete_with lb_id (ok ns_client) = do
    client ← gets (λ w. w.scaleway_client)
    reply ←
        attempt (
          call_scaleway out (LoadBalancers.delete_load_balancer out client cr.spec.zone lb_id true))
    delete_reply reply
  delete_with lb_id (err e) =
      let status = status_of cr in
      ignore (
        update_lb_status (record status {
          sync_state = "FinalizerRemovedWithoutScalewayDelete";
          error_message = some "IAM Secret missing at deletion time — Scaleway LB may still exist";
        }))

  abbrev pub delete_known_from : Option String → Exec (Unit {0})
  delete_known_from none = pure tt
  delete_known_from (some lb_id) = do
    creds ← attempt (get_namespace_client out (namespace_of cr.metadata))
    delete_with lb_id creds

  unfoldable pub handle_lb_deletion : Exec Action
  handle_lb_deletion = measured out (do
    delete_known_from (known_id cr)
    on_error
        (patch_finalizers out load_balancer_kind (namespace_of cr.metadata) cr.metadata.name
          (without_finalizer lb_finalizer cr.metadata))
        (λ e. set_outcome error)
    update_metrics (dec_load_balancers cr.spec.zone cr.spec.lb_type (old_state cr))
    set_outcome deleted
    pure await_change)
