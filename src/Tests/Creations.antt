-- ===== src/Tests/Creations.antt =====
-- The theorems on what is created, on a cluster and a Scaleway that answer.
use scaleway_operator.Reconcile.Instances.Handler as InstanceHandler
use scaleway_operator.Reconcile.LoadBalancers.Handler as LbHandler
use scaleway_operator.Reconcile.Databases.Handler as RdbHandler
use scaleway_operator.Reconcile.Instances.Steps as InstanceSteps
use scaleway_operator.Reconcile.Databases.Steps as RdbSteps
use scaleway_operator.Scaleway.Servers
use scaleway_operator.Scaleway.Databases
use scaleway_operator.Scaleway.Secrets
use scaleway_operator.Reconcile.LoadBalancers.Steps as LbSteps
use scaleway_operator.Scaleway.LoadBalancers
use scaleway_operator.Reconcile.LoadBalancers.Learned as LbLearned
use scaleway_operator.Reconcile.Instances.Once as InstanceOnce
use scaleway_operator.Reconcile.Databases.Learned as RdbLearned
use scaleway_operator.Reconcile.Instances.Creation.{open_at}
use scaleway_operator.Context.Breaker.{
  closed, is_circuit_open, record_scaleway_failure, record_scaleway_success,
}
use scaleway_operator.Decide.Databases.{decide_next_action_rdb}
use scaleway_operator.Decide.Servers.{decide_next_action, decide_next_action_lb, role_allows_write}
use scaleway_operator.Error.{is_permanent_error}
use scaleway_operator.Prelude.{
  List, String, [], false, inl, none, refl, some, sym, true, ◌∙◌, ◌∷◌, ◌≡◌,
}
use scaleway_operator.Reconcile.Databases.Creation.{reconcile_rdb_creates_only_if}
use scaleway_operator.Reconcile.Databases.Drift.{rdb_requested_volume_bytes, synced_secret_version}
use scaleway_operator.Reconcile.Databases.Once.{reconcile_rdb_creates_once}
use scaleway_operator.Reconcile.Instances.Creation.{reconcile_instance_creates_only_if}
use scaleway_operator.Reconcile.Instances.Once.{reconcile_instance_creates_once}
use scaleway_operator.Reconcile.LoadBalancers.Creation.{reconcile_load_balancer_creates_only_if}
use scaleway_operator.Reconcile.LoadBalancers.Once.{reconcile_load_balancer_creates_once}
use scaleway_operator.Reconcile.Shared.{
  deletion_requested, extract_project_id_from_namespace, finalizer_present, get_namespace_client,
  get_project_id_from_namespace_resource, get_scaleway_role_for_namespace, instance_finalizer,
  is_cached_cr_current, lb_finalizer, rdb_finalizer, requeue, role_of_reply,
}
use scaleway_operator.Reconcile.Shared.Counts.{is_post}
use scaleway_operator.Resources.Databases.{RdbStatus, retain}
use scaleway_operator.Resources.Instances.{InstanceStatus, LoadBalancerStatus}
use scaleway_operator.Runtime.Calls.{
  call_scaleway, circuit_open, get_live_resource_version, get_namespace_annotations,
  get_namespace_role, get_scaleway_secret, get_secret, measured, patch_finalizers, patch_status,
  send, set_outcome, update_metrics,
}
use scaleway_operator.Runtime.Exec.{ok, ◌>>=◌}
use scaleway_operator.Runtime.Http.{good}
use scaleway_operator.Runtime.Keeps.Rules.{count_events}
use scaleway_operator.Runtime.Metrics.{inc_instances}
use scaleway_operator.Runtime.World.{Event, of_instance, of_load_balancer, of_rdb, patched_status}
use scaleway_operator.Scaleway.Learns.{Learned}
use scaleway_operator.Scaleway.Request.{json_of, refuse, require_success, require_success_or}
use scaleway_operator.Scaleway.Tags.{check_tags, find_reserved_tag}
use scaleway_operator.Scaleway.Validation.{
  validate_instance_type, validate_lb_type, validate_region, validate_zone,
}
use scaleway_operator.Tests.{api_up, calm, instance_cr, load_balancer, metadata, rdb}

instance_posts :
    count_events is_post
      ((InstanceHandler.reconcile_instance_inner api_up (instance_cr none none) calm).1).log
    ≡ 1
unfolding ◌>>=◌ circuit_open is_circuit_open get_scaleway_role_for_namespace get_namespace_role
    role_of_reply get_project_id_from_namespace_resource get_namespace_annotations
    extract_project_id_from_namespace role_allows_write measured get_namespace_client get_secret
    call_scaleway patch_finalizers patch_status send set_outcome update_metrics
    record_scaleway_success record_scaleway_failure is_permanent_error require_success
    require_success_or json_of refuse InstanceHandler.reconcile_instance_inner
    InstanceHandler.gather InstanceHandler.execute decide_next_action InstanceSteps.prepare
    InstanceSteps.validate_spec InstanceSteps.execute_create_instance InstanceSteps.adopt_or_create
    InstanceSteps.update_status Servers.find_instance_by_name Servers.create_instance
    Servers.verify_project_access validate_zone validate_instance_type inc_instances
instance_posts = refl

reconcile_instance_creates_only_if_example :
    (role : String) × (api_up.namespace_role [] "team" ≡ good role)
    × (role_allows_write role ≡ true)
    × (deletion_requested (metadata none) ≡ false)
    × (open_at api_up (instance_cr none none) calm ≡ false)
    × (finalizer_present instance_finalizer (metadata none) ≡ true)
    × ((InstanceSteps.status_of (instance_cr none none)).scaleway_id ≡ none)
reconcile_instance_creates_only_if_example =
    reconcile_instance_creates_only_if api_up (instance_cr none none) calm
      (λ h. cc (sym instance_posts ∙ h))

lb_posts :
    count_events is_post ((LbHandler.reconcile_load_balancer_inner api_up load_balancer calm).1).log
    ≡ 1
unfolding ◌>>=◌ circuit_open is_circuit_open get_scaleway_role_for_namespace get_namespace_role
    role_of_reply get_project_id_from_namespace_resource get_namespace_annotations
    extract_project_id_from_namespace role_allows_write measured call_scaleway patch_status send
    set_outcome update_metrics record_scaleway_success require_success require_success_or json_of
    LbHandler.reconcile_load_balancer_inner LbHandler.gather LbHandler.execute decide_next_action_lb
    LbSteps.validate_or_fail LbSteps.validate_lb_spec LbSteps.execute_create_load_balancer
    LbSteps.adopt_or_create LbSteps.update_lb_status LoadBalancers.find_load_balancer_by_name
    LoadBalancers.create_load_balancer Servers.verify_project_access validate_zone validate_lb_type
lb_posts = refl

reconcile_load_balancer_creates_only_if_example :
    (role : String) × (api_up.namespace_role [] "team" ≡ good role)
    × (role_allows_write role ≡ true)
    × (deletion_requested (metadata none) ≡ false)
    × ((is_circuit_open 0 (closed 0)).0 ≡ false)
    × (finalizer_present lb_finalizer (metadata none) ≡ true)
    × ((LbSteps.status_of load_balancer).scaleway_id ≡ none)
reconcile_load_balancer_creates_only_if_example =
    reconcile_load_balancer_creates_only_if api_up load_balancer calm (λ h. cc (sym lb_posts ∙ h))

rdb_posts :
    count_events is_post ((RdbHandler.reconcile_rdb_inner api_up (rdb none retain) calm).1).log ≡ 1
unfolding ◌>>=◌ circuit_open is_circuit_open get_scaleway_role_for_namespace get_namespace_role
    role_of_reply get_project_id_from_namespace_resource get_namespace_annotations
    extract_project_id_from_namespace role_allows_write measured get_namespace_client get_secret
    call_scaleway patch_finalizers patch_status send set_outcome update_metrics
    record_scaleway_success record_scaleway_failure is_permanent_error require_success
    require_success_or json_of refuse RdbHandler.reconcile_rdb_inner RdbHandler.gather
    RdbHandler.check_spec RdbHandler.execute decide_next_action_rdb is_cached_cr_current
    get_live_resource_version RdbSteps.execute_create_rdb RdbSteps.read_rdb_admin_password
    RdbSteps.update_rdb_status get_scaleway_secret synced_secret_version rdb_requested_volume_bytes
    Databases.find_rdb_instance_by_tags Databases.create_rdb_instance Databases.single_match
    Secrets.access_secret_version validate_region check_tags find_reserved_tag
rdb_posts = refl

reconcile_rdb_creates_only_if_example :
    (deletion_requested (metadata none) ≡ false)
    × ((is_circuit_open 0 (closed 0)).0 ≡ false)
    × (finalizer_present rdb_finalizer (metadata none) ≡ true)
    × ((RdbSteps.status_of (rdb none retain)).scaleway_id ≡ none)
    × ((role : String) × (api_up.namespace_role [] "team" ≡ good role)
        × (role_allows_write role ≡ true))
reconcile_rdb_creates_only_if_example =
    reconcile_rdb_creates_only_if api_up (rdb none retain) calm (inl (λ h. cc (sym rdb_posts ∙ h)))

lb_created : (LbHandler.reconcile_load_balancer_inner api_up load_balancer calm).0 ≡ ok (requeue 10)
unfolding ◌>>=◌ circuit_open is_circuit_open get_scaleway_role_for_namespace get_namespace_role
    role_of_reply get_project_id_from_namespace_resource get_namespace_annotations
    extract_project_id_from_namespace role_allows_write measured call_scaleway patch_status send
    set_outcome update_metrics record_scaleway_success require_success require_success_or json_of
    LbHandler.reconcile_load_balancer_inner LbHandler.gather LbHandler.execute decide_next_action_lb
    LbSteps.validate_or_fail LbSteps.validate_lb_spec LbSteps.execute_create_load_balancer
    LbSteps.adopt_or_create LbSteps.update_lb_status LoadBalancers.find_load_balancer_by_name
    LoadBalancers.create_load_balancer Servers.verify_project_access validate_zone validate_lb_type
lb_created = refl

reconcile_load_balancer_creates_once_example :
    (st : LoadBalancerStatus) × (id : String) × (earlier : List Event) × (st.scaleway_id ≡ some id)
    × Learned api_up
        (LbLearned.of_creation api_up load_balancer)
        (LbLearned.of_search api_up load_balancer)
        id
        earlier
    × (((LbHandler.reconcile_load_balancer_inner api_up load_balancer calm).1).log
        ≡ patched_status "team" "web" (of_load_balancer st) true ∷ earlier)
    × (count_events is_post
          ((LbHandler.reconcile_load_balancer_inner api_up
              (record load_balancer { status = some st })
              calm).1
            ).log
        ≡ 0)
reconcile_load_balancer_creates_once_example =
    reconcile_load_balancer_creates_once api_up load_balancer calm calm (requeue 10) lb_created
      (λ h. cc (sym lb_posts ∙ h))

rdb_created : (RdbHandler.reconcile_rdb_inner api_up (rdb none retain) calm).0 ≡ ok (requeue 30)
unfolding ◌>>=◌ circuit_open is_circuit_open get_scaleway_role_for_namespace get_namespace_role
    role_of_reply get_project_id_from_namespace_resource get_namespace_annotations
    extract_project_id_from_namespace role_allows_write measured get_namespace_client get_secret
    call_scaleway patch_finalizers patch_status send set_outcome update_metrics
    record_scaleway_success record_scaleway_failure is_permanent_error require_success
    require_success_or json_of refuse RdbHandler.reconcile_rdb_inner RdbHandler.gather
    RdbHandler.check_spec RdbHandler.execute decide_next_action_rdb is_cached_cr_current
    get_live_resource_version RdbSteps.execute_create_rdb RdbSteps.read_rdb_admin_password
    RdbSteps.update_rdb_status get_scaleway_secret synced_secret_version rdb_requested_volume_bytes
    Databases.find_rdb_instance_by_tags Databases.create_rdb_instance Databases.single_match
    Secrets.access_secret_version validate_region check_tags find_reserved_tag
rdb_created = refl

reconcile_rdb_creates_once_example :
    (st : RdbStatus) × (id : String) × (earlier : List Event) × (st.scaleway_id ≡ some id)
    × Learned api_up
        (RdbLearned.of_creation api_up (rdb none retain))
        (RdbLearned.of_search api_up (rdb none retain))
        id
        earlier
    × (((RdbHandler.reconcile_rdb_inner api_up (rdb none retain) calm).1).log
        ≡ patched_status "team" "web" (of_rdb st) true ∷ earlier)
    × (count_events is_post
          ((RdbHandler.reconcile_rdb_inner api_up
              (record (rdb none retain) { status = some st })
              calm).1
            ).log
        ≡ 0)
reconcile_rdb_creates_once_example =
    reconcile_rdb_creates_once api_up (rdb none retain) calm calm (requeue 30) rdb_created
      (λ h. cc (sym rdb_posts ∙ h))

instance_created :
    (InstanceHandler.reconcile_instance_inner api_up (instance_cr none none) calm).0
    ≡ ok (requeue 10)
unfolding ◌>>=◌ circuit_open is_circuit_open get_scaleway_role_for_namespace get_namespace_role
    role_of_reply get_project_id_from_namespace_resource get_namespace_annotations
    extract_project_id_from_namespace role_allows_write measured get_namespace_client get_secret
    call_scaleway patch_finalizers patch_status send set_outcome update_metrics
    record_scaleway_success record_scaleway_failure is_permanent_error require_success
    require_success_or json_of refuse InstanceHandler.reconcile_instance_inner
    InstanceHandler.gather InstanceHandler.execute decide_next_action InstanceSteps.prepare
    InstanceSteps.validate_spec InstanceSteps.execute_create_instance InstanceSteps.adopt_or_create
    InstanceSteps.update_status Servers.find_instance_by_name Servers.create_instance
    Servers.verify_project_access validate_zone validate_instance_type inc_instances
instance_created = refl

reconcile_instance_creates_once_example :
    (st : InstanceStatus) × (id : String) × (earlier : List Event) × (st.scaleway_id ≡ some id)
    × Learned api_up
        (InstanceOnce.of_creation api_up (instance_cr none none))
        (InstanceOnce.of_search api_up (instance_cr none none))
        id
        earlier
    × (((InstanceHandler.reconcile_instance_inner api_up (instance_cr none none) calm).1).log
        ≡ patched_status "team" "web" (of_instance st) true ∷ earlier)
    × (count_events is_post
          ((InstanceHandler.reconcile_instance_inner api_up (instance_cr none (some st)) calm).1
            ).log
        ≡ 0)
reconcile_instance_creates_once_example =
    reconcile_instance_creates_once api_up (instance_cr none none) calm calm (requeue 10)
      instance_created (λ h. cc (sym instance_posts ∙ h))
