-- ===== src/Tests/Runs.antt =====
-- The theorems on the server, on the controllers, and on reconciles that open a circuit or repeat.
use scaleway_operator.Reconcile.Instances.Handler as InstanceHandler
use scaleway_operator.Reconcile.LoadBalancers.Handler as LbHandler
use scaleway_operator.Reconcile.Databases.Handler as RdbHandler
use scaleway_operator.Reconcile.Instances.Steps as InstanceSteps
use scaleway_operator.Scaleway.Servers
use scaleway_operator.Server.Laws.{refreshed}
use scaleway_operator.Context.Breaker.{
  is_circuit_open, opened, record_scaleway_failure, record_scaleway_success,
}
use scaleway_operator.Context.Retry.{count_of}
use scaleway_operator.Decide.Servers.{decide_next_action, role_allows_write}
use scaleway_operator.Error.{
  circuit_breaker_open, is_permanent_error, recheck_interval, scaleway_error,
}
use scaleway_operator.Prelude.{List, String, [], arith, none, refl, u32, ◌↔◌, ◌∷◌, ◌≡◌}
use scaleway_operator.Reconcile.Shared.{
  extract_project_id_from_namespace, get_namespace_client, get_project_id_from_namespace_resource,
  get_scaleway_role_for_namespace, requeue, role_of_reply,
}
use scaleway_operator.Reconcile.Skip.{reconcilers_skip}
use scaleway_operator.Resources.Databases.{retain}
use scaleway_operator.Runtime.Calls.{
  call_scaleway, circuit_open, get_namespace_annotations, get_namespace_role, get_secret, measured,
  patch_finalizers, patch_status, send, set_outcome, update_metrics,
}
use scaleway_operator.Runtime.Exec.{err, ◌>>=◌}
use scaleway_operator.Runtime.Metrics.{error, inc_instances}
use scaleway_operator.Scaleway.Request.{json_of, refuse, require_success, require_success_or}
use scaleway_operator.Scaleway.Tags.{check_tags, find_reserved_tag}
use scaleway_operator.Scaleway.Validation.{validate_instance_type, validate_region, validate_zone}
use scaleway_operator.Server.{readyz}
use scaleway_operator.Server.Laws.{SomeRecent, beat, ended, readyz_IsRecent}
use scaleway_operator.Startup.{
  Resource, a_secret, an_instance, control, initial_context, reconcile, run_controllers,
}
use scaleway_operator.Startup.Runs.{control_delay, failures, history, run_controllers-refines}
use scaleway_operator.Tests.{api_failing, api_up, instance_cr, load_balancer, rdb, secret_cr, world}

reconcilers_skip_example :
    (InstanceHandler.reconcile_instance api_up (instance_cr none none) (world (opened 0))
      ≡ (err circuit_breaker_open, world (opened 0)))
    × (LbHandler.reconcile_load_balancer api_up load_balancer (world (opened 0))
        ≡ (err circuit_breaker_open, world (opened 0)))
    × (RdbHandler.reconcile_rdb api_up (rdb none retain) (world (opened 0))
        ≡ (err circuit_breaker_open, world (opened 0)))
unfolding is_circuit_open validate_region check_tags find_reserved_tag
reconcilers_skip_example =
    reconcilers_skip api_up (world (opened 0)) refl (instance_cr none none) load_balancer
      (rdb none retain) refl refl refl refl refl

readyz_IsRecent_example :
    (readyz 100
        (refreshed api_up (beat 90 ∷ ended error [] ∷ beat 60 ∷ []) (initial_context "t" 30))
      ≡ 200)
    ↔ SomeRecent 100 30 (90 ∷ 60 ∷ [])
readyz_IsRecent_example =
    readyz_IsRecent api_up "t" 100 30 (beat 90 ∷ ended error [] ∷ beat 60 ∷ []) (omega arith)
      (omega arith, omega arith)

-- A secret and an instance, the latter twice.
abbrev resources : List Resource
resources =
    an_instance (instance_cr none none)
    ∷ a_secret (secret_cr none)
    ∷ an_instance (instance_cr none none)
    ∷ []

abbrev web : String
web = "instance/team/web"

run_controllers-refines_example :
    count_of web (run_controllers api_failing resources (initial_context "t" 30)).retry_counts
    ≡ u32 (failures (history api_failing resources (initial_context "t" 30) []) web)
run_controllers-refines_example = run_controllers-refines api_failing resources "t" 30 web

instance_fails :
    (reconcile api_failing (an_instance (instance_cr none none)) (initial_context "t" 30)).0
    ≡ err (scaleway_error "500 Internal Server Error" "no")
unfolding ◌>>=◌ circuit_open is_circuit_open get_scaleway_role_for_namespace get_namespace_role
    role_of_reply get_project_id_from_namespace_resource get_namespace_annotations
    extract_project_id_from_namespace role_allows_write measured get_namespace_client get_secret
    call_scaleway patch_finalizers patch_status send set_outcome update_metrics
    record_scaleway_success record_scaleway_failure is_permanent_error require_success
    require_success_or json_of refuse InstanceHandler.reconcile_instance_inner
    InstanceHandler.gather InstanceHandler.execute decide_next_action InstanceSteps.prepare
    InstanceSteps.validate_spec InstanceSteps.execute_create_instance InstanceSteps.adopt_or_create
    InstanceSteps.update_status Servers.find_instance_by_name Servers.create_instance
    Servers.verify_project_access validate_zone validate_instance_type inc_instances reconcile
    InstanceHandler.reconcile_instance initial_context
instance_fails = refl

control_delay_example :
    (control api_failing
      (an_instance (instance_cr none none))
      (run_controllers api_failing [] (initial_context "t" 30))).0
    ≡ requeue 30
unfolding run_controllers is_permanent_error recheck_interval
control_delay_example =
    control_delay api_failing [] "t" 30 (an_instance (instance_cr none none))
      (scaleway_error "500 Internal Server Error" "no") instance_fails refl (omega arith)
