-- ===== src/Reconcile/Databases/Steps.antt =====
-- src/reconcilers.rs: creating, following and deleting the Scaleway instance of an `Rdb`.
use scaleway_operator.Scaleway.Secrets
use scaleway_operator.Scaleway.Databases
use scaleway_operator.Error.{
  OperatorError, config_error, for_status, is_permanent_error, rdb_not_found,
  scaleway_secret_not_ready,
}
use scaleway_operator.Prelude.{
  Bool, List, Option, String, [], false, format, get_or, if◌then◌else◌, none, not, some, true, ℕ,
  ◌∷◌,
}
use scaleway_operator.Reconcile.Databases.Drift.{
  build_rdb_synced_status, is_scaleway_client_error, rdb_requested_volume_bytes,
  should_emit_drift_event, synced_secret_version,
}
use scaleway_operator.Reconcile.Shared.{
  Action, await_change, get_namespace_client, namespace_of, rdb_finalizer, requeue,
  without_finalizer,
}
use scaleway_operator.Resources.{rdb_kind}
use scaleway_operator.Resources.Databases.{Rdb, RdbStatus, default_rdb_status, eq_rdb_status}
use scaleway_operator.Runtime.Calls.{
  call_scaleway, get_scaleway_secret, measured, patch_finalizers, patch_status, publish,
  set_outcome,
}
use scaleway_operator.Runtime.Exec.{
  Exec, Result, attempt, err, gets, ignore, ok, on_error, or_raise, pure, raise, ◌>>=◌, ◌>>◌,
}
use scaleway_operator.Runtime.Metrics.{adopted, created, deleted, error, synced}
use scaleway_operator.Runtime.World.{Outside, ScalewayClient, of_rdb}
use scaleway_operator.Scaleway.Info.{RdbCreateParams, RdbInstanceInfo}

abbrev pub status_of : Rdb → RdbStatus
status_of cr = get_or default_rdb_status cr.status

abbrev is_rdb_not_found : OperatorError → Bool
is_rdb_not_found (rdb_not_found m) = true
is_rdb_not_found _ = false

abbrev is_secret_not_ready : OperatorError → Bool
is_secret_not_ready (scaleway_secret_not_ready m) = true
is_secret_not_ready _ = false

module _ (out : Outside) (cr : Rdb) where
  unfoldable pub update_rdb_status : RdbStatus → Exec (Unit {0})
  update_rdb_status status =
      patch_status out (namespace_of cr.metadata) cr.metadata.name (of_rdb status)

  abbrev pub error_status : OperatorError → RdbStatus
  error_status e =
      let status = status_of cr in
      record status { error_message = some (for_status out.json e); sync_state = "Error" }

  unfoldable pub record_rdb_error : OperatorError → Exec (Unit {0})
  record_rdb_error e = ignore (update_rdb_status (error_status e))

  unfoldable pub patch_rdb_finalizers : List String → Exec (Unit {0})
  patch_rdb_finalizers finalizers =
      patch_finalizers out rdb_kind (namespace_of cr.metadata) cr.metadata.name finalizers

  unfoldable pub remove_rdb_finalizer : Exec (Unit {0})
  remove_rdb_finalizer = patch_rdb_finalizers (without_finalizer rdb_finalizer cr.metadata)

  abbrev not_ready : String → OperatorError
  not_ready what =
      scaleway_secret_not_ready
        (format ("ScalewaySecret '" ∷ cr.spec.admin_password_secret_ref ∷ what ∷ []))

  unfoldable pub read_rdb_admin_password : ScalewayClient → Exec String
  read_rdb_admin_password ns_client = do
    found ← get_scaleway_secret out (namespace_of cr.metadata) cr.spec.admin_password_secret_ref
    secret_cr ←
        or_raise found
          (not_ready (format ("' not found in namespace '" ∷ namespace_of cr.metadata ∷ "'" ∷ [])))
    (secret_id, revision) ←
        or_raise (synced_secret_version secret_cr.status) (not_ready "' is not Synced yet")
    payload ←
        call_scaleway out
          (Secrets.access_secret_version out ns_client secret_cr.spec.region secret_id revision)
    or_raise (out.from_utf8 payload) (
        config_error (
          format (
            "The value of ScalewaySecret '" ∷ cr.spec.admin_password_secret_ref
            ∷ "' is not valid UTF-8 and cannot be used as a password." ∷ [])))

  abbrev create_params : String → String → RdbCreateParams
  create_params project_id password = record {
    name = cr.metadata.name;
    project_id = project_id;
    engine = cr.spec.engine;
    user_name = cr.spec.admin_user;
    password = password;
    node_type = cr.spec.node_type;
    is_ha_cluster = cr.spec.is_ha_cluster;
    disable_backup = cr.spec.disable_backup;
    volume_type = cr.spec.volume_type;
    volume_size_bytes = rdb_requested_volume_bytes cr.spec;
    extra_tags = cr.spec.tags;
  }

  -- The password is read only where an instance has to be created.
  abbrev pub create_unless : ScalewayClient → String → Option String → Exec (String × Bool)
  create_unless ns_client project_id (some existing_id) = pure (existing_id, true)
  create_unless ns_client project_id none = do
    password ← read_rdb_admin_password ns_client
    id ← call_scaleway out (
        Databases.create_rdb_instance out ns_client cr.spec.region
          (create_params project_id password) (namespace_of cr.metadata) cr.metadata.name)
    pure (id, false)

  -- The id, and whether the instance was adopted.
  unfoldable pub execute_create_rdb : String → Exec (String × Bool)
  execute_create_rdb project_id = do
    ns_client ← get_namespace_client out (namespace_of cr.metadata)
    found ← call_scaleway out (
        Databases.find_rdb_instance_by_tags out ns_client cr.spec.region project_id
          (namespace_of cr.metadata) cr.metadata.name)
    create_unless ns_client project_id found

  abbrev pub created_status : String → String → Bool → ℕ → RdbStatus
  created_status id project_id was_adopted now =
      let status = status_of cr in
      record status {
        scaleway_id = some id;
        project_id = some project_id;
        sync_state = "Syncing";
        error_message = none;
        state = if was_adopted then status.state else "provisioning";
        created_at = if was_adopted then status.created_at else some now;
      }

  abbrev pub create_from : String → Result (String × Bool) → Exec Action
  create_from project_id (ok (id, was_adopted)) = do
    now ← gets (λ w. out.utc_now w.log)
    set_outcome (if was_adopted then adopted else created)
    on_error (update_rdb_status (created_status id project_id was_adopted now))
        (λ e. set_outcome error)
    pure (requeue 30)
  create_from project_id (err e) = do
    let status = status_of cr
    ignore (
        update_rdb_status (record status {
          error_message = some (for_status out.json e);
          sync_state = if is_secret_not_ready e then "Pending" else "Error";
        }))
    set_outcome error
    raise e

  abbrev emit_drift : RdbStatus → Exec (Unit {0})
  emit_drift status =
      if should_emit_drift_event (status_of cr).drift_message status.drift_message
      then publish out (namespace_of cr.metadata) cr.metadata.name (get_or "" status.drift_message)
      else pure tt

  abbrev write_if_changed : RdbStatus → Exec (Unit {0})
  write_if_changed status =
      if not (eq_rdb_status status (status_of cr))
      then on_error (update_rdb_status status) (λ e. set_outcome error)
      else pure tt

  abbrev pub sync_from : String → Result RdbInstanceInfo → Exec Action
  sync_from project_id (ok info) = do
    let status = build_rdb_synced_status (status_of cr) cr.spec info project_id
    emit_drift status
    write_if_changed status
    set_outcome synced
    pure (requeue 30)
  sync_from project_id (err e) =
      if is_rdb_not_found e
      then (do
        let cleared = default_rdb_status
        ignore (update_rdb_status (record cleared { created_at = (status_of cr).created_at }))
        set_outcome error
        pure (requeue 30))
      else on_error (raise e) (λ e'. record_rdb_error e' >> set_outcome error)

  unfoldable pub sync : String → String → Exec Action
  sync scaleway_id project_id = do
    ns_client ←
        on_error (get_namespace_client out (namespace_of cr.metadata))
          (λ e. record_rdb_error e >> set_outcome error)
    reply ←
        attempt
          (call_scaleway out (Databases.get_rdb_instance out ns_client cr.spec.region scaleway_id))
    sync_from project_id reply

  -- The last step of a deletion.
  unfoldable pub release : Exec Action
  release = do
    on_error remove_rdb_finalizer (λ e. set_outcome error)
    set_outcome deleted
    pure await_change

  -- A refusal of Scaleway keeps the finalizer and comes back, without a growing backoff.
  abbrev pub delete_from : Result (Unit {0}) → Exec Action
  delete_from (ok u) = release
  delete_from (err e) =
      set_outcome error
      >> (if is_scaleway_client_error e
          then (do
            let status = status_of cr
            ignore (
                update_rdb_status (record status {
                  sync_state = "Deleting";
                  error_message = some (for_status out.json e);
                }))
            pure (requeue 30))
          else raise e)

  -- A transient error of the lookup is retried; a permanent one skips the call on Scaleway.
  abbrev pub delete_with : String → Result ScalewayClient → Exec Action
  delete_with scaleway_id (ok ns_client) = do
    reply ←
        attempt (
          call_scaleway out
            (Databases.delete_rdb_instance out ns_client cr.spec.region scaleway_id))
    delete_from reply
  delete_with scaleway_id (err e) =
      if not (is_permanent_error e) then set_outcome error >> raise e else release

  unfoldable pub delete_instance_branch : String → Exec Action
  delete_instance_branch scaleway_id = measured out (do
    creds ← attempt (get_namespace_client out (namespace_of cr.metadata))
    delete_with scaleway_id creds)
