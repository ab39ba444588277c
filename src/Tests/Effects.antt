-- ===== src/Tests/Effects.antt =====
-- The theorems on the reconcilers, on a cluster and a Scaleway that answer.
use scaleway_operator.Reconcile.Databases.Handler as RdbHandler
use scaleway_operator.Reconcile.Secrets.Steps as SecretSteps
use scaleway_operator.Reconcile.Secrets.Handler as SecretHandler
use scaleway_operator.Scaleway.Secrets
use scaleway_operator.Context.Breaker.{
  is_circuit_open, record_scaleway_failure, record_scaleway_success,
}
use scaleway_operator.Decide.Secrets.{
  create_and_sync_secret, decide_next_action_secret, decide_sync, push_new_version,
}
use scaleway_operator.Decide.Servers.{role_allows_write}
use scaleway_operator.Error.{is_permanent_error}
use scaleway_operator.Prelude.{
  List, String, [], false, inl, none, refl, some, true, ℕ, ◌∷◌, ◌≡◌, ◌⊎◌,
}
use scaleway_operator.Reconcile.Databases.Creation.{reconcile_rdb_retains}
use scaleway_operator.Reconcile.Secrets.Push.{payload_guaranteed}
use scaleway_operator.Reconcile.Secrets.Source.{
  is_cr_allowed_for_secret, is_opt_in_granted, parse_k8s_secret_source, present,
  read_k8s_secret_source,
}
use scaleway_operator.Reconcile.Shared.{
  await_change, extract_project_id_from_namespace, get_namespace_client,
  get_project_id_from_namespace_resource, get_scaleway_role_for_namespace, rdb_finalizer,
  role_of_reply, without_finalizer,
}
use scaleway_operator.Resources.{rdb_kind}
use scaleway_operator.Resources.Databases.{retain}
use scaleway_operator.Runtime.Calls.{
  call_scaleway, circuit_open, get_namespace_annotations, get_namespace_role, get_secret, measured,
  patch_finalizers, patch_status, send, set_outcome, update_metrics,
}
use scaleway_operator.Runtime.Exec.{ok, ◌>>=◌}
use scaleway_operator.Runtime.World.{patched_finalizers}
use scaleway_operator.Scaleway.Request.{json_of, refuse, require_success, require_success_or}
use scaleway_operator.Scaleway.Validation.{validate_region}
use scaleway_operator.Tests.{api_up, calm, metadata, rdb, secret_cr}

known_region : validate_region "fr-par" ≡ ok tt
unfolding validate_region
known_region = refl

reconcile_rdb_retains_example :
    ((RdbHandler.reconcile_rdb_inner api_up (rdb (some 1) retain) calm).0 ≡ ok await_change)
    × (((RdbHandler.reconcile_rdb_inner api_up (rdb (some 1) retain) calm).1).log
        ≡ patched_finalizers rdb_kind "team" "web"
            (without_finalizer rdb_finalizer (metadata (some 1)))
            true
          ∷ [])
reconcile_rdb_retains_example =
    reconcile_rdb_retains api_up (rdb (some 1) retain) calm refl refl known_region refl

source_read :
    (SecretHandler.read_source api_up (secret_cr none) calm).0
    ≡ ok (SecretHandler.facts_of (present "7" (2 ∷ [])))
unfolding ◌>>=◌ circuit_open is_circuit_open get_scaleway_role_for_namespace get_namespace_role
    role_of_reply get_project_id_from_namespace_resource get_namespace_annotations
    extract_project_id_from_namespace role_allows_write measured get_namespace_client get_secret
    call_scaleway patch_finalizers patch_status send set_outcome update_metrics
    record_scaleway_success record_scaleway_failure is_permanent_error require_success
    require_success_or json_of refuse SecretHandler.read_source read_k8s_secret_source
    parse_k8s_secret_source is_opt_in_granted is_cr_allowed_for_secret
source_read = refl

abbrev facts : SecretHandler.SourceFacts
facts = SecretHandler.facts_of (present "7" (2 ∷ []))

to_create :
    decide_next_action_secret (SecretHandler.input_of api_up (secret_cr none) false facts)
    ≡ create_and_sync_secret
unfolding decide_next_action_secret decide_sync
to_create = refl

payload_guaranteed_example :
    (payload : List ℕ) × (facts.payload ≡ some payload)
    × (((create_and_sync_secret ≡ create_and_sync_secret)
          × (SecretHandler.execute api_up (secret_cr none) facts create_and_sync_secret
              ≡ SecretHandler.if_current api_up (secret_cr none) (
                  SecretSteps.create_and_sync api_up
                    (secret_cr none)
                    facts.resource_version
                    (some payload))))
        ⊎ ((id : String) × (create_and_sync_secret ≡ push_new_version id)
            × (SecretHandler.execute api_up (secret_cr none) facts create_and_sync_secret
                ≡ SecretHandler.if_current api_up (secret_cr none) (
                    SecretSteps.push_version api_up
                      (secret_cr none)
                      id
                      facts.resource_version
                      (some payload)))))
payload_guaranteed_example =
    payload_guaranteed api_up (secret_cr none) calm facts false create_and_sync_secret source_read
      to_create (inl refl)
