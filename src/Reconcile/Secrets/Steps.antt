-- ===== src/Reconcile/Secrets/Steps.antt =====
-- src/reconcilers.rs: creating, versioning, revoking and deleting the Scaleway secret of a
-- `ScalewaySecret`.
use scaleway_operator.Scaleway.Secrets
use scaleway_operator.Error.{OperatorError, for_status, is_permanent_error, unknown}
use scaleway_operator.Prelude.{
  format, ◌∷◌, [], List, Option, String, get_or, if◌then◌else◌, none, not, some, ℕ,
}
use scaleway_operator.Reconcile.Secrets.Source.{
  build_already_synced_status, build_anonymized_source_error_status, build_revoked_status,
}
use scaleway_operator.Reconcile.Shared.{
  Action, await_change, get_namespace_client, get_project_id_from_namespace_resource, namespace_of,
  requeue, secret_finalizer, without_finalizer,
}
use scaleway_operator.Resources.{secret_kind}
use scaleway_operator.Resources.Secrets.{
  ScalewaySecret, ScalewaySecretStatus, default_secret_status,
}
use scaleway_operator.Runtime.Calls.{
  call_scaleway, measured, patch_finalizers, patch_status, set_outcome,
}
use scaleway_operator.Runtime.Exec.{
  Exec, Result, attempt, err, ignore, ok, on_error, or_raise, pure, raise, ◌>>=◌, ◌>>◌,
}
use scaleway_operator.Runtime.Metrics.{created, deleted, error, synced}
use scaleway_operator.Runtime.World.{Outside, ScalewayClient, of_secret}

abbrev pub status_of : ScalewaySecret → ScalewaySecretStatus
status_of cr = get_or default_secret_status cr.status

module _ (out : Outside) (cr : ScalewaySecret) where
  unfoldable pub update_secret_status : ScalewaySecretStatus → Exec (Unit {0})
  update_secret_status status =
      patch_status out (namespace_of cr.metadata) cr.metadata.name (of_secret status)

  abbrev pub error_status : OperatorError → ScalewaySecretStatus
  error_status e =
      let status = status_of cr in
      record status { error_message = some (for_status out.json e); sync_state = "Error" }

  unfoldable pub record_error_in_status : OperatorError → Exec (Unit {0})
  record_error_in_status e = ignore (update_secret_status (error_status e))

  -- The details stay in the operator's log: the error is not used.
  unfoldable pub record_source_error_in_status : OperatorError → Exec (Unit {0})
  record_source_error_in_status e =
      ignore (update_secret_status (build_anonymized_source_error_status (status_of cr)))

  abbrev fails : OperatorError → Exec (Unit {0})
  fails e = record_error_in_status e >> set_outcome error

  -- The current version is disabled, where there is one.
  abbrev pub disable_current : String → Option ℕ → Exec (Unit {0})
  disable_current scaleway_id none = pure tt
  disable_current scaleway_id (some revision) = do
    ns_client ← get_namespace_client out (namespace_of cr.metadata)
    call_scaleway out
        (Secrets.disable_secret_version out ns_client cr.spec.region scaleway_id revision)

  unfoldable pub handle_opt_in_revocation : String → Exec (Unit {0})
  handle_opt_in_revocation scaleway_id = do
    disable_current scaleway_id (status_of cr).current_version
    update_secret_status (build_revoked_status (status_of cr))

  abbrev no_payload : String → OperatorError
  no_payload branch = unknown (
      format (
        "internal invariant violation: " ∷ branch
        ∷ " reached without payload (decide_next_action_secret should guarantee key_present=true)"
        ∷ []))

  abbrev pub prelim_status : String → ScalewaySecretStatus
  prelim_status scaleway_id =
      let status = status_of cr in
      record status {
        scaleway_id = some scaleway_id;
        sync_state = "Syncing";
        error_message = none;
        current_version = none;
        last_synced_resource_version = none;
      }

  -- The status once a version has been pushed.
  abbrev pub pushed_status : Option String → ℕ → Option String → ScalewaySecretStatus
  pushed_status scaleway_id revision resource_version =
      let status = status_of cr in
      record status {
        scaleway_id = scaleway_id;
        current_version = some revision;
        last_synced_resource_version = resource_version;
        observed_generation = cr.metadata.generation;
        sync_state = "Synced";
        error_message = none;
      }

  abbrev pub create_unless : ScalewayClient → String → Option String → Exec String
  create_unless ns_client project_id (some existing_id) = pure existing_id
  create_unless ns_client project_id none =
      on_error
        (call_scaleway out (
          Secrets.create_scaleway_secret out ns_client cr.spec.region cr.spec.name project_id
            cr.spec.description cr.spec.tags (namespace_of cr.metadata) cr.metadata.name))
        fails

  -- The secret to push to: the one that carries the tags, or a new one.
  unfoldable pub adopt_or_create : ScalewayClient → String → Exec String
  adopt_or_create ns_client project_id = do
    found ←
        on_error
          (call_scaleway out (
            Secrets.find_scaleway_secret_by_tags out ns_client cr.spec.region project_id
              (namespace_of cr.metadata) cr.metadata.name))
          fails
    create_unless ns_client project_id found

  abbrev push_failed : String → OperatorError → Exec (Unit {0})
  push_failed scaleway_id e =
      let status = error_status e in
      ignore (update_secret_status (record status { scaleway_id = some scaleway_id }))
      >> set_outcome error

  -- The id is anchored in the status before any version is pushed.
  unfoldable pub anchor_and_push :
      ScalewayClient → String → Option String → Option (List ℕ) → Exec Action
  anchor_and_push ns_client scaleway_id resource_version ks_payload = do
    on_error (update_secret_status (prelim_status scaleway_id)) (λ e. set_outcome error)
    payload ← or_raise ks_payload (no_payload "CreateAndSyncSecret")
    revision ←
        on_error
          (call_scaleway out
            (Secrets.create_secret_version out ns_client cr.spec.region scaleway_id payload))
          (push_failed scaleway_id)
    update_secret_status (pushed_status (some scaleway_id) revision resource_version)
    set_outcome created
    pure (requeue 30)

  unfoldable pub create_and_sync : Option String → Option (List ℕ) → Exec Action
  create_and_sync resource_version ks_payload = measured out (do
    project_id ← on_error (get_project_id_from_namespace_resource out cr.metadata) fails
    ns_client ← on_error (get_namespace_client out (namespace_of cr.metadata)) fails
    scaleway_id ← adopt_or_create ns_client project_id
    anchor_and_push ns_client scaleway_id resource_version ks_payload)

  unfoldable pub push_version : String → Option String → Option (List ℕ) → Exec Action
  push_version scaleway_id resource_version ks_payload = measured out (do
    ns_client ← on_error (get_namespace_client out (namespace_of cr.metadata)) fails
    payload ← or_raise ks_payload (no_payload "PushNewVersion")
    revision ←
        on_error
          (call_scaleway out
            (Secrets.create_secret_version out ns_client cr.spec.region scaleway_id payload))
          fails
    update_secret_status (pushed_status (status_of cr).scaleway_id revision resource_version)
    set_outcome synced
    pure (requeue 30))

  abbrev pub refresh : Option ScalewaySecretStatus → Exec (Unit {0})
  refresh none = pure tt
  refresh (some status) = on_error (update_secret_status status) (λ e. set_outcome error)

  unfoldable pub keep_synced : Exec Action
  keep_synced = measured out (do
    refresh (build_already_synced_status (status_of cr) cr.metadata.generation)
    set_outcome synced
    pure (requeue 30))

  unfoldable pub release : Exec Action
  release = do
    on_error
        (patch_finalizers out secret_kind (namespace_of cr.metadata) cr.metadata.name
          (without_finalizer secret_finalizer cr.metadata))
        (λ e. set_outcome error)
    set_outcome deleted
    pure await_change

  -- A transient error of the lookup is retried; a permanent one skips the call on Scaleway.
  abbrev pub delete_with : String → Result ScalewayClient → Exec (Unit {0})
  delete_with scaleway_id (ok ns_client) =
      on_error
        (call_scaleway out
          (Secrets.delete_scaleway_secret out ns_client cr.spec.region scaleway_id))
        (λ e. set_outcome error)
  delete_with scaleway_id (err e) =
      if not (is_permanent_error e) then on_error (raise e) (λ e'. set_outcome error) else pure tt

  abbrev pub delete_from : Option String → Exec (Unit {0})
  delete_from none = pure tt
  delete_from (some scaleway_id) = do
    creds ← attempt (get_namespace_client out (namespace_of cr.metadata))
    delete_with scaleway_id creds

  unfoldable pub delete_secret_branch : Exec Action
  delete_secret_branch = measured out (do delete_from (status_of cr).scaleway_id; release)
