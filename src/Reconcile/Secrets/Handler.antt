-- ===== src/Reconcile/Secrets/Handler.antt =====
-- src/reconcilers.rs: the reconciler of `ScalewaySecret`, from the facts to the action.
use scaleway_operator.Decide.Servers.{role_allows_write}
use scaleway_operator.Context.Retry.{reset_retry_count}
use scaleway_operator.Decide.Secrets.{
  SecretReconcileDecision, SecretReconcileInput, add_finalizer, already_synced,
  create_and_sync_secret, decide_next_action_secret, delete_secret, error_ks_key_not_found,
  error_ks_secret_not_found, error_source_not_configured, push_new_version, remove_finalizer,
  skip_circuit_open,
}
use scaleway_operator.Error.{
  OperatorError, circuit_breaker_open, config_error, secret_key_not_found, secret_not_found,
  secret_opt_in_missing, secret_source_not_configured,
}
use scaleway_operator.Prelude.{
  Bool, List, Option, String, [], false, format, if◌then◌else◌, is_some, none, not, some, str_eq,
  true, ℕ, ◌&&◌, ◌∷◌,
}
use scaleway_operator.Reconcile.Secrets.Source.{
  KsSourceState, key_absent, present, read_k8s_secret_source,
}
use scaleway_operator.Reconcile.Secrets.Steps.{
  create_and_sync, delete_secret_branch, handle_opt_in_revocation, keep_synced, push_version,
  record_error_in_status, record_source_error_in_status, release, status_of,
}
use scaleway_operator.Reconcile.Shared.{
  Action, deletion_requested, finalizer_present, get_scaleway_role_for_namespace,
  is_cached_cr_current, namespace_of, requeue, retry_key, secret_finalizer, stale_cache_requeue,
  with_finalizer,
}
use scaleway_operator.Resources.{secret_kind}
use scaleway_operator.Resources.Secrets.{KubernetesSecretRef, ScalewaySecret}
use scaleway_operator.Runtime.Calls.{circuit_open, measured, patch_finalizers, set_outcome}
use scaleway_operator.Runtime.Exec.{
  Exec, Result, attempt, err, lift, modify, ok, on_error, pure, raise, ◌>>=◌, ◌>>◌,
}
use scaleway_operator.Runtime.Metrics.{error}
use scaleway_operator.Runtime.World.{Outside}
use scaleway_operator.Scaleway.Tags.{check_tags}
use scaleway_operator.Scaleway.Validation.{validate_region}

-- What is known of the source: its resource version, whether the key is there, and its value.
pub record SourceFacts : Type 0 where
  pub resource_version : Option String
  pub key_present : Bool
  pub payload : Option (List ℕ)

abbrev pub no_source : SourceFacts
no_source = record { resource_version = none; key_present = false; payload = none }

abbrev pub facts_of : KsSourceState → SourceFacts
facts_of (key_absent rv) = record {
  resource_version = some rv;
  key_present = false;
  payload = none;
}
facts_of (present rv payload) = record {
  resource_version = some rv;
  key_present = true;
  payload = some payload;
}

abbrev pub is_secret_not_found : OperatorError → Bool
is_secret_not_found (secret_not_found m) = true
is_secret_not_found _ = false

abbrev pub is_opt_in_missing : OperatorError → Bool
is_opt_in_missing (secret_opt_in_missing m) = true
is_opt_in_missing _ = false

module _ (out : Outside) (cr : ScalewaySecret) where
  unfoldable pub check_spec : Exec (Unit {0})
  check_spec = do
    on_error (lift (validate_region cr.spec.region)) (record_error_in_status out cr)
    (if not (deletion_requested cr.metadata)
        then on_error (lift (check_tags cr.spec.tags)) (record_error_in_status out cr)
        else pure tt)

  abbrev read_only_error : String → OperatorError
  read_only_error role = config_error (
      format
        ("Role '" ∷ role ∷ "' is read-only and cannot sync secrets. Use 'Editor' or 'Admin'." ∷ []))

  -- A role that does not allow writing stops everything but a deletion.
  unfoldable pub check_role : Bool → Exec (Unit {0})
  check_role is_open =
      if not (deletion_requested cr.metadata) && not is_open
      then (do
        role ←
            on_error (get_scaleway_role_for_namespace out (namespace_of cr.metadata))
              (record_error_in_status out cr)
        (if role_allows_write role
            then pure tt
            else on_error (raise (read_only_error role)) (record_error_in_status out cr)))
      else pure tt

  -- The opt-in was withdrawn: a secret that was synchronised is revoked, once.
  abbrev pub opt_in_withdrawn : OperatorError → Option String → Exec SourceFacts
  opt_in_withdrawn e (some sid) = handle_opt_in_revocation out cr sid >> raise e
  opt_in_withdrawn e none = on_error (raise e) (record_source_error_in_status out cr)

  abbrev pub source_from : Result KsSourceState → Exec SourceFacts
  source_from (ok state) = pure (facts_of state)
  source_from (err e) =
      if is_secret_not_found e
      then pure no_source
      else if is_opt_in_missing e
      then (if str_eq (status_of cr).sync_state "Revoked"
          then raise e
          else opt_in_withdrawn e (status_of cr).scaleway_id)
      else on_error (raise e) (record_source_error_in_status out cr)

  abbrev pub source_at : Option KubernetesSecretRef → Exec SourceFacts
  source_at none = pure no_source
  source_at (some ks_ref) =
      if not (deletion_requested cr.metadata)
      then (do
        state ← attempt (
            read_k8s_secret_source out (namespace_of cr.metadata) ks_ref (namespace_of cr.metadata)
              cr.metadata.name)
        source_from state)
      else pure no_source

  unfoldable pub read_source : Exec SourceFacts
  read_source = source_at cr.spec.kubernetes_secret

  abbrev not_configured : OperatorError
  not_configured = secret_source_not_configured "spec.source must have kubernetes_secret configured"

  -- The name and the key of the source, as the errors spell them.
  abbrev source_name : String
  source_name = elim cr.spec.kubernetes_secret [ some r ↦ r.name | none ↦ "<unknown>" ]

  abbrev source_key : String
  source_key = elim cr.spec.kubernetes_secret [ some r ↦ r.key | none ↦ "<unknown>" ]

  abbrev source_missing : OperatorError
  source_missing = secret_not_found (
      format (
        "Kubernetes Secret '"
        ∷ source_name
        ∷ "' not found in namespace '"
        ∷ namespace_of cr.metadata
        ∷ "'"
        ∷ []))

  abbrev key_missing : OperatorError
  key_missing = secret_key_not_found (
      format (
        "Key '"
        ∷ source_key
        ∷ "' not found in Kubernetes Secret '"
        ∷ source_name
        ∷ "' in namespace '"
        ∷ namespace_of cr.metadata
        ∷ "'"
        ∷ []))

  -- A branch that changes Scaleway is left where the cached resource is behind the API server's.
  abbrev pub if_current : Exec Action → Exec Action
  if_current branch = do
    is_current ← is_cached_cr_current out secret_kind cr.metadata
    (if not is_current then pure (requeue stale_cache_requeue) else branch)

  unfoldable pub execute : SourceFacts → SecretReconcileDecision → Exec Action
  execute facts skip_circuit_open = raise circuit_breaker_open
  execute facts add_finalizer =
      patch_finalizers out secret_kind (namespace_of cr.metadata) cr.metadata.name
        (with_finalizer secret_finalizer cr.metadata)
      >> pure (requeue 5)
  execute facts error_source_not_configured =
      measured out (
        on_error (raise not_configured) (λ e. record_error_in_status out cr e >> set_outcome error))
  execute facts error_ks_secret_not_found =
      on_error (raise source_missing) (record_source_error_in_status out cr)
  execute facts error_ks_key_not_found =
      on_error (raise key_missing) (record_source_error_in_status out cr)
  execute facts create_and_sync_secret =
      if_current (create_and_sync out cr facts.resource_version facts.payload)
  execute facts (push_new_version scaleway_id) =
      if_current (push_version out cr scaleway_id facts.resource_version facts.payload)
  execute facts already_synced = keep_synced out cr
  execute facts delete_secret = delete_secret_branch out cr
  execute facts remove_finalizer = measured out (release out cr)

  abbrev pub input_of : Bool → SourceFacts → SecretReconcileInput
  input_of is_open facts = record {
    deletion_requested = deletion_requested cr.metadata;
    circuit_open = is_open;
    finalizer_present = finalizer_present secret_finalizer cr.metadata;
    source_configured = is_some cr.spec.kubernetes_secret;
    scaleway_id = (status_of cr).scaleway_id;
    last_synced_resource_version = (status_of cr).last_synced_resource_version;
    current_resource_version = facts.resource_version;
    current_key_present = facts.key_present;
    generation = cr.metadata.generation;
    observed_generation = (status_of cr).observed_generation;
  }

  unfoldable pub reconcile_scaleway_secret_inner : Exec Action
  reconcile_scaleway_secret_inner = do
    is_open ← circuit_open out
    check_spec
    check_role is_open
    facts ← read_source
    execute facts (decide_next_action_secret (input_of is_open facts))

  unfoldable pub reconcile_scaleway_secret : Exec Action
  reconcile_scaleway_secret = do
    action ← reconcile_scaleway_secret_inner
    modify (λ w. record w {
      retry_counts = reset_retry_count (retry_key "scalewayssecret" cr.metadata) w.retry_counts;
    })
    pure action
