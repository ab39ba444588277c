-- ===== src/Reconcile/Instances/Steps.antt =====
-- src/reconcilers.rs: creating, following and deleting the Scaleway instance of an `Instance`.
use scaleway_operator.Prelude.{
  ℕ, String, Bool, Option, none, some, get_or, and_then, is_some, str_eq, if◌then◌else◌,
}
use scaleway_operator.Error.{OperatorError, config_error, instance_not_found, for_status}
use scaleway_operator.Resources.{instance_kind}
use scaleway_operator.Resources.Instances.{
  InstanceSpec, InstanceStatus, default_instance_status, Instance,
}
use scaleway_operator.Runtime.Metrics.{
  created, synced, adopted, deleted, error, inc_instances, dec_instances,
}
use scaleway_operator.Runtime.World.{of_instance, ScalewayClient, Outside}
use scaleway_operator.Runtime.Exec.{
  Result, ok, err, Exec, ◌>>=◌, ◌>>◌, pure, raise, lift, gets, attempt, ignore, on_error,
}
use scaleway_operator.Runtime.Calls.{
  patch_finalizers, patch_status, call_scaleway, measured, set_outcome, update_metrics,
}
use scaleway_operator.Scaleway.Info.{InstanceInfo}
use scaleway_operator.Scaleway.Validation.{validate_zone, validate_instance_type}
use scaleway_operator.Scaleway.Servers
use scaleway_operator.Reconcile.Shared.{
  Action, requeue, await_change, instance_finalizer, namespace_of, without_finalizer,
  get_namespace_client,
}

abbrev pub status_of : Instance → InstanceStatus
status_of instance_cr = get_or default_instance_status instance_cr.status

-- `instance.status.as_ref().map(|s| s.state).unwrap_or("unknown")`
abbrev pub old_state : Instance → String
old_state instance_cr = elim instance_cr.status [ some s ↦ s.state | none ↦ "unknown" ]

abbrev pub known_id : Instance → Option String
known_id instance_cr = and_then (λ (s : InstanceStatus). s.scaleway_id) instance_cr.status

abbrev pub is_instance_not_found : OperatorError → Bool
is_instance_not_found (instance_not_found m) = Bool.true
is_instance_not_found _ = Bool.false

unfoldable pub validate_spec : InstanceSpec → Result (Unit {0})
validate_spec spec = elim (validate_zone spec.zone) [
  | err e ↦ err e
  | ok _ ↦ elim (validate_instance_type spec.instance_type) [
    | err e ↦ err e
    | ok _ ↦ if str_eq spec.name "" then err (config_error "name cannot be empty") else ok tt
  ]
]

module _ (out : Outside) (cr : Instance) where
  unfoldable pub update_status : InstanceStatus → Exec (Unit {0})
  update_status status =
      patch_status out (namespace_of cr.metadata) cr.metadata.name (of_instance status)

  abbrev pub error_status : OperatorError → InstanceStatus
  error_status e =
      let status = status_of cr in
      record status { error_message = some (for_status out.json e); sync_state = "Error" }

  -- `let _ = update_status(...)` with the error on the status
  unfoldable pub record_error_status : OperatorError → Exec (Unit {0})
  record_error_status e = ignore (update_status (error_status e))

  abbrev pub created_status : String → String → ℕ → InstanceStatus
  created_status id project_id now =
      let status = status_of cr in
      record status {
        scaleway_id = some id;
        state = "creating";
        created_at = some now;
        sync_state = "Syncing";
        error_message = none;
        project_id = some project_id;
      }

  -- The id of the instance to follow, and whether it was adopted.
  abbrev pub adopt_or_create_from : ScalewayClient → String → Option String → Exec (String × Bool)
  adopt_or_create_from ns_client project_id (some existing_id) = pure (existing_id, Bool.true)
  adopt_or_create_from ns_client project_id none = do
    id ←
        on_error (call_scaleway out (Servers.create_instance out ns_client cr.spec project_id))
          (λ e. update_status (error_status e) >> set_outcome error)
    pure (id, Bool.false)

  unfoldable pub adopt_or_create : ScalewayClient → String → Exec (String × Bool)
  adopt_or_create ns_client project_id = do
    found ← Servers.find_instance_by_name out ns_client cr.spec.zone cr.spec.name project_id
    adopt_or_create_from ns_client project_id found

  unfoldable pub execute_create_instance : ScalewayClient → String → Exec Action
  execute_create_instance ns_client project_id = do
    (id, was_adopted) ← adopt_or_create ns_client project_id
    now ← gets (λ w. out.utc_now w.log)
    update_metrics (inc_instances cr.spec.zone cr.spec.instance_type "creating")
    set_outcome (if was_adopted then adopted else created)
    update_status (created_status id project_id now)
    pure (requeue 10)

  -- The checks at the start of the branches that talk to Scaleway.
  unfoldable pub prepare : Exec ScalewayClient
  prepare = do
    on_error (lift (validate_spec cr.spec)) (λ e. set_outcome error)
    on_error (get_namespace_client out (namespace_of cr.metadata))
        (λ e. record_error_status e >> set_outcome error)

  unfoldable pub sync_known : String → InstanceInfo → Exec Action
  sync_known project_id info = do
    update_metrics (dec_instances cr.spec.zone cr.spec.instance_type (old_state cr))
    update_metrics (inc_instances cr.spec.zone cr.spec.instance_type info.state)
    set_outcome synced
    let status = status_of cr
    update_status (record status {
      state = info.state;
      public_ip = info.public_ip;
      project_id = some project_id;
      sync_state = "Synced";
      error_message = none;
    })
    pure (requeue 30)

  unfoldable pub sync_missing : Exec Action
  sync_missing = do
    (if is_some (known_id cr)
        then update_metrics (dec_instances cr.spec.zone cr.spec.instance_type (old_state cr))
        else pure tt)
    let status = status_of cr
    ignore (
        update_status (record status {
          scaleway_id = none;
          state = "unknown";
          public_ip = none;
          project_id = none;
          created_at = none;
          error_message = none;
          sync_state = "Syncing";
        }))
    set_outcome error
    pure (requeue 30)

  abbrev pub sync_from : String → Result InstanceInfo → Exec Action
  sync_from project_id (ok info) = sync_known project_id info
  sync_from project_id (err e) =
      if is_instance_not_found e
      then sync_missing
      else on_error (raise e) (λ e'. update_status (error_status e') >> set_outcome error)

  unfoldable pub sync : String → String → Exec Action
  sync scaleway_id project_id = do
    ns_client ← prepare
    reply ←
        attempt (
          call_scaleway out
            (Servers.get_instance out ns_client cr.spec.zone scaleway_id project_id))
    sync_from project_id reply

  -- Without credentials the deletion in Scaleway is skipped.
  abbrev pub delete_with : String → Result ScalewayClient → Exec (Unit {0})
  delete_with instance_id (ok ns_client) =
      on_error (call_scaleway out (Servers.delete_instance out ns_client cr.spec.zone instance_id))
        (λ e. set_outcome error)
  delete_with instance_id (err e) = pure tt

  -- The deletion in Scaleway, where an id is known.
  abbrev pub delete_known_from : Option String → Exec (Unit {0})
  delete_known_from none = pure tt
  delete_known_from (some instance_id) = do
    creds ← attempt (get_namespace_client out (namespace_of cr.metadata))
    delete_with instance_id creds

  unfoldable pub delete_known : Exec (Unit {0})
  delete_known = delete_known_from (known_id cr)

  unfoldable pub remove_finalizer_patch : Exec (Unit {0})
  remove_finalizer_patch =
      on_error
        (patch_finalizers out instance_kind (namespace_of cr.metadata) cr.metadata.name
          (without_finalizer instance_finalizer cr.metadata))
        (λ e. set_outcome error)

  unfoldable pub handle_deletion : Exec Action
  handle_deletion = measured out (do
    delete_known
    remove_finalizer_patch
    update_metrics (dec_instances cr.spec.zone cr.spec.instance_type (old_state cr))
    set_outcome deleted
    pure await_change)
