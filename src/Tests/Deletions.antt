-- ===== src/Tests/Deletions.antt =====
-- The theorems on the deletions, on a cluster and a Scaleway that answer.
use scaleway_operator.Reconcile.Instances.Steps as InstanceSteps
use scaleway_operator.Reconcile.Databases.Steps as RdbSteps
use scaleway_operator.Scaleway.Servers
use scaleway_operator.Scaleway.Databases
use scaleway_operator.Error.{KubeError}
use scaleway_operator.Resources.Databases.{DeletionPolicy}
use scaleway_operator.Reconcile.Databases.Deletion.{creds}
use scaleway_operator.Context.Breaker.{record_scaleway_failure, record_scaleway_success}
use scaleway_operator.Error.{OperatorError, is_permanent_error, kube_error}
use scaleway_operator.Prelude.{Bool, refl, some, sym, true, ℕ, ◌∙◌, ◌∷◌, ◌≡◌, ◌⊎◌}
use scaleway_operator.Reconcile.Databases.Deletion.{delete_instance_branch_safe, deleted_by}
use scaleway_operator.Reconcile.Instances.Finalizer.{
  handle_deletion_safe, handle_deletion_without_credentials,
}
use scaleway_operator.Reconcile.Shared.{
  get_namespace_client, instance_finalizer, map_namespace_creds_error, without_finalizer,
}
use scaleway_operator.Reconcile.Shared.Counts.{is_finalizer_patch}
use scaleway_operator.Resources.{instance_kind}
use scaleway_operator.Runtime.Calls.{
  call_scaleway, get_secret, measured, patch_finalizers, patch_status, send, set_outcome,
  update_metrics,
}
use scaleway_operator.Runtime.Exec.{err, ok, ◌>>=◌}
use scaleway_operator.Runtime.Keeps.{count_events}
use scaleway_operator.Runtime.World.{ScalewayClient, patched_finalizers, sent}
use scaleway_operator.Scaleway.Laws.{delete_rdb_request, delete_request, is_gone}
use scaleway_operator.Scaleway.Request.{refuse, require_success_or}
use scaleway_operator.Tests.{api_up, calm, known_instance, metadata, no_creds, rdb, scaleway}

rdb_released :
    count_events is_finalizer_patch
      ((RdbSteps.delete_instance_branch api_up (rdb (some 1) DeletionPolicy.delete) "d-1" calm).1
        ).log
    ≡ 1
unfolding ◌>>=◌ measured get_namespace_client get_secret call_scaleway patch_finalizers patch_status
    send set_outcome update_metrics record_scaleway_success record_scaleway_failure
    is_permanent_error require_success_or refuse RdbSteps.delete_instance_branch RdbSteps.release
    RdbSteps.remove_rdb_finalizer RdbSteps.patch_rdb_finalizers Databases.delete_rdb_instance
rdb_released = refl

delete_instance_branch_safe_example :
    ((e : OperatorError) × ((creds api_up (rdb (some 1) DeletionPolicy.delete) "d-1" calm).0
        ≡ err e)
      × (is_permanent_error e ≡ true))
    ⊎ ((c : ScalewayClient) × ((creds api_up (rdb (some 1) DeletionPolicy.delete) "d-1" calm).0
          ≡ ok c)
        × (s : ℕ) × (is_gone s ≡ true)
        × (((deleted_by api_up
                (rdb (some 1) DeletionPolicy.delete)
                "d-1"
                c
                (creds api_up (rdb (some 1) DeletionPolicy.delete) "d-1" calm).1).1
              ).log
            ≡ sent (delete_rdb_request api_up c "fr-par" "d-1") (some s)
              ∷ ((creds api_up (rdb (some 1) DeletionPolicy.delete) "d-1" calm).1).log))
delete_instance_branch_safe_example =
    delete_instance_branch_safe api_up (rdb (some 1) DeletionPolicy.delete) "d-1" calm
      (λ h. cc (sym rdb_released ∙ h))

rdb_lookup_fails :
    (creds no_creds (rdb (some 1) DeletionPolicy.delete) "d-1" calm).0
    ≡ err (kube_error (KubeError.other "timeout"))
unfolding ◌>>=◌ measured get_namespace_client get_secret call_scaleway patch_finalizers patch_status
    send set_outcome update_metrics record_scaleway_success record_scaleway_failure
    is_permanent_error require_success_or refuse map_namespace_creds_error
rdb_lookup_fails = refl

creds_found : (get_namespace_client api_up "team" calm).0 ≡ ok scaleway
unfolding ◌>>=◌ measured get_namespace_client get_secret call_scaleway patch_finalizers patch_status
    send set_outcome update_metrics record_scaleway_success record_scaleway_failure
    is_permanent_error require_success_or refuse
creds_found = refl

instance_released :
    count_events is_finalizer_patch
      ((InstanceSteps.handle_deletion api_up known_instance calm).1).log
    ≡ 1
unfolding ◌>>=◌ measured get_namespace_client get_secret call_scaleway patch_finalizers patch_status
    send set_outcome update_metrics record_scaleway_success record_scaleway_failure
    is_permanent_error require_success_or refuse InstanceSteps.handle_deletion
    InstanceSteps.delete_known InstanceSteps.remove_finalizer_patch Servers.delete_instance
instance_released = refl

handle_deletion_safe_example :
    (s : ℕ) × (is_gone s ≡ true)
    × (((InstanceSteps.delete_known api_up known_instance calm).1).log
        ≡ sent (delete_request api_up scaleway "fr-par-1" "i-1") (some s)
          ∷ ((get_namespace_client api_up "team" calm).1).log)
handle_deletion_safe_example =
    handle_deletion_safe api_up known_instance calm "i-1" scaleway refl creds_found
      (λ h. cc (sym instance_released ∙ h))

lookup_fails :
    (get_namespace_client no_creds "team" calm).0 ≡ err (kube_error (KubeError.other "timeout"))
unfolding ◌>>=◌ measured get_namespace_client get_secret call_scaleway patch_finalizers patch_status
    send set_outcome update_metrics record_scaleway_success record_scaleway_failure
    is_permanent_error require_success_or refuse map_namespace_creds_error
lookup_fails = refl

handle_deletion_without_credentials_example :
    (b : Bool) × (((InstanceSteps.handle_deletion no_creds known_instance calm).1).log
      ≡ patched_finalizers instance_kind "team" "web"
          (without_finalizer instance_finalizer (metadata (some 1)))
          b
        ∷ ((get_namespace_client no_creds "team" calm).1).log)
handle_deletion_without_credentials_example =
    handle_deletion_without_credentials no_creds known_instance calm "i-1" refl lookup_fails
