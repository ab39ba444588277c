-- ===== src/Tests/Requests.antt =====
-- The theorems on what reconciles send: values, tags, creations, revocations and deletions.
use scaleway_operator.Reconcile.Instances.Handler as InstanceHandler
use scaleway_operator.Reconcile.Databases.Handler as RdbHandler
use scaleway_operator.Reconcile.Secrets.Steps as SecretSteps
use scaleway_operator.Reconcile.Secrets.Handler as SecretHandler
use scaleway_operator.Scaleway.Databases
use scaleway_operator.Scaleway.Secrets
use scaleway_operator.Reconcile.LoadBalancers.Steps as LbSteps
use scaleway_operator.Runtime.Http.{Method}
use scaleway_operator.Runtime.Http.{text}
use scaleway_operator.Context.Breaker.{
  is_circuit_open, record_scaleway_failure, record_scaleway_success,
}
use scaleway_operator.Decide.Secrets.{decide_next_action_secret, decide_sync}
use scaleway_operator.Decide.Servers.{role_allows_write}
use scaleway_operator.Error.{OperatorError, is_permanent_error}
use scaleway_operator.Prelude.{List, String, [], false, none, refl, some, true, ◌↔◌, ◌∷◌, ◌≡◌, ◌⊎◌}
use scaleway_operator.Reconcile.Databases.Isolation.{reconcile_rdb_isolated}
use scaleway_operator.Reconcile.Instances.Isolation.{reconcile_instance_isolated}
use scaleway_operator.Reconcile.LoadBalancers.Deletion.{
  Acknowledged, Blocked, StoppedBy, handle_lb_deletion-cases,
}
use scaleway_operator.Reconcile.Secrets.Confidentiality.{
  PushesSource, pushed, reconcile_scaleway_secret_pushes_only_source,
}
use scaleway_operator.Reconcile.Secrets.Isolation.{reconcile_scaleway_secret_isolated}
use scaleway_operator.Reconcile.Secrets.Revocation.{
  Disabled, OptInMissing, handle_opt_in_revocation-ok, handle_opt_in_revocation_once, revoked,
  revoked_cr,
}
use scaleway_operator.Reconcile.Secrets.Source.{
  is_cr_allowed_for_secret, is_opt_in_granted, parse_k8s_secret_source, read_k8s_secret_source,
}
use scaleway_operator.Reconcile.Shared.{
  extract_project_id_from_namespace, get_namespace_client, get_project_id_from_namespace_resource,
  get_scaleway_role_for_namespace, is_cached_cr_current, role_of_reply,
}
use scaleway_operator.Reconcile.Shared.Counts.{is_sent}
use scaleway_operator.Reconcile.Shared.Requests.{RequestsSince}
use scaleway_operator.Reconcile.Shared.Tokens.{IsNamespaceToken}
use scaleway_operator.Resources.Databases.{retain}
use scaleway_operator.Resources.Instances.{LoadBalancer, default_load_balancer_status}
use scaleway_operator.Resources.Secrets.{KubernetesSecretRef, ScalewaySecret}
use scaleway_operator.Runtime.Calls.{
  call_scaleway, circuit_open, get_live_resource_version, get_namespace_annotations,
  get_namespace_role, get_secret, measured, patch_finalizers, patch_status, send, set_outcome,
  update_metrics,
}
use scaleway_operator.Runtime.Exec.{err, ok, ◌>>=◌}
use scaleway_operator.Runtime.Http.{good}
use scaleway_operator.Runtime.Keeps.Rules.{count_events}
use scaleway_operator.Runtime.World.{Event, Outside}
use scaleway_operator.Scaleway.Info.{RdbCreateParams}
use scaleway_operator.Scaleway.Request.{json_of, refuse, require_success, require_success_or}
use scaleway_operator.Scaleway.RoundTrip.{
  find_rdb_instance_by_tags-finds, find_scaleway_secret_by_tags-finds, finds, newest_request,
}
use scaleway_operator.Scaleway.Tags.{check_tags, find_reserved_tag, is_reserved_secret_tag}
use scaleway_operator.Scaleway.Validation.{validate_region}
use scaleway_operator.Tests.{
  api_up, calm, creds_secret, instance_cr, load_balancer, metadata, rdb, scaleway, secret_cr,
  synced_secret,
}

abbrev own_tags : List String
own_tags = "blue" ∷ []

abbrev team : String
team = "team"

abbrev web : String
web = "web"

abbrev params : RdbCreateParams
params = record {
  name = "web";
  project_id = "p";
  engine = "PostgreSQL-16";
  user_name = "admin";
  password = "x";
  node_type = "DB-DEV-S";
  is_ha_cluster = false;
  disable_backup = false;
  volume_type = "bssd";
  volume_size_bytes = none;
  extra_tags = own_tags;
}

find_scaleway_secret_by_tags-finds_example :
    (finds
        (newest_request
          ((Secrets.find_scaleway_secret_by_tags api_up scaleway "fr-par" "p" "team" "web" calm).1
            ).log)
        (newest_request
          ((Secrets.create_scaleway_secret api_up scaleway "fr-par" "web" "p" none own_tags "team"
              "web" calm).1
            ).log)
      ≡ true)
    ↔ ((team ≡ team) × (web ≡ web))
unfolding check_tags find_reserved_tag is_reserved_secret_tag
find_scaleway_secret_by_tags-finds_example =
    find_scaleway_secret_by_tags-finds api_up scaleway scaleway calm calm "fr-par" "fr-par" "web"
      "p" "p" none own_tags "team" "web" "team" "web" refl

find_rdb_instance_by_tags-finds_example :
    (finds
        (newest_request
          ((Databases.find_rdb_instance_by_tags api_up scaleway "fr-par" "p" "team" "web" calm).1
            ).log)
        (newest_request
          ((Databases.create_rdb_instance api_up scaleway "fr-par" params "team" "web" calm).1).log)
      ≡ true)
    ↔ ((team ≡ team) × (web ≡ web))
unfolding check_tags find_reserved_tag is_reserved_secret_tag
find_rdb_instance_by_tags-finds_example =
    find_rdb_instance_by_tags-finds api_up scaleway scaleway calm calm "fr-par" "fr-par" "p" params
      "team" "web" "team" "web" refl

reconcile_scaleway_secret_pushes_only_source_example :
    (pushed ((SecretHandler.reconcile_scaleway_secret_inner api_up (secret_cr none) calm).1).log
      ≡ pushed calm.log)
    ⊎ PushesSource api_up (secret_cr none) calm
reconcile_scaleway_secret_pushes_only_source_example =
    reconcile_scaleway_secret_pushes_only_source api_up (secret_cr none) calm

-- The reconcile of a new secret in that cluster pushes its value, once.
secret_pushed :
    pushed ((SecretHandler.reconcile_scaleway_secret_inner api_up (secret_cr none) calm).1).log
    ≡ text "AQ==" ∷ []
unfolding ◌>>=◌ circuit_open is_circuit_open get_scaleway_role_for_namespace get_namespace_role
    role_of_reply get_project_id_from_namespace_resource get_namespace_annotations
    extract_project_id_from_namespace role_allows_write measured get_namespace_client get_secret
    call_scaleway patch_finalizers patch_status send set_outcome update_metrics
    record_scaleway_success record_scaleway_failure is_permanent_error require_success
    require_success_or json_of refuse SecretHandler.read_source read_k8s_secret_source
    parse_k8s_secret_source is_opt_in_granted is_cr_allowed_for_secret
    SecretHandler.reconcile_scaleway_secret_inner SecretHandler.check_spec SecretHandler.check_role
    SecretHandler.execute decide_next_action_secret decide_sync is_cached_cr_current
    get_live_resource_version SecretSteps.create_and_sync SecretSteps.adopt_or_create
    SecretSteps.anchor_and_push SecretSteps.update_secret_status Secrets.create_secret_version
    Secrets.find_scaleway_secret_by_tags Secrets.create_scaleway_secret validate_region check_tags
    find_reserved_tag
secret_pushed = refl

abbrev synced_once : ScalewaySecret
synced_once = synced_secret

revokes : (SecretSteps.handle_opt_in_revocation api_up synced_once "s-1" calm).0 ≡ ok tt
unfolding ◌>>=◌ get_namespace_client get_secret call_scaleway patch_status send
    record_scaleway_success require_success_or SecretSteps.handle_opt_in_revocation
    SecretSteps.update_secret_status Secrets.disable_secret_version
revokes = refl

handle_opt_in_revocation-ok_example :
    (earlier : List Event) × Disabled api_up synced_once "s-1" calm (some 1) earlier
    × (((SecretSteps.handle_opt_in_revocation api_up synced_once "s-1" calm).1).log
        ≡ revoked api_up synced_once ∷ earlier)
handle_opt_in_revocation-ok_example =
    handle_opt_in_revocation-ok api_up synced_once calm "s-1" revokes

-- A cluster where the Secrets have lost their label.
abbrev unlabelled : Outside
unlabelled = record api_up { secret = λ log ns name. good (record creds_secret { labels = none }) }

abbrev source_ref : KubernetesSecretRef
source_ref = record { name = "src"; key = "password" }

abbrev label_missing : String
label_missing =
    "Kubernetes Secret 'src' must carry label 'scaleway.mathieubodin.io/allow-operator-read: \"true\"'"

opt_in_lost : OptInMissing unlabelled synced_once source_ref label_missing
unfolding ◌>>=◌ read_k8s_secret_source parse_k8s_secret_source is_opt_in_granted get_secret
opt_in_lost w = refl

handle_opt_in_revocation_once_example :
    (count_events is_sent
        ((SecretHandler.reconcile_scaleway_secret_inner unlabelled
            (revoked_cr unlabelled synced_once)
            calm).1
          ).log
      ≡ 0)
    × ((e : OperatorError) × ((SecretHandler.reconcile_scaleway_secret_inner unlabelled
            (revoked_cr unlabelled synced_once)
            calm).0
          ≡ err e))
handle_opt_in_revocation_once_example =
    handle_opt_in_revocation_once unlabelled synced_once calm source_ref label_missing refl refl
      opt_in_lost

abbrev known_lb : LoadBalancer
known_lb =
    let s = default_load_balancer_status in
    record load_balancer {
      metadata = metadata (some 1);
      status = some (record s { scaleway_id = some "l-1" });
    }

lb_creds :
    (get_namespace_client api_up "team" calm).0
    ≡ ok (record { token = "t"; base_url = "https://api.scaleway.com" })
unfolding ◌>>=◌ get_namespace_client get_secret
lb_creds = refl

handle_lb_deletion-cases_example :
    Acknowledged api_up known_lb "l-1" calm
    ⊎ (Blocked api_up known_lb "l-1" calm
        ⊎ ((e : OperatorError) × (LbSteps.is_locked e ≡ false) × StoppedBy api_up known_lb e calm))
handle_lb_deletion-cases_example =
    handle_lb_deletion-cases api_up known_lb calm "l-1"
      (record { token = "t"; base_url = "https://api.scaleway.com" }) refl lb_creds

reconcile_scaleway_secret_isolated_example :
    RequestsSince
      (λ r. IsNamespaceToken api_up "team" r.token)
      []
      ((SecretHandler.reconcile_scaleway_secret_inner api_up (secret_cr none) calm).1).log
reconcile_scaleway_secret_isolated_example =
    reconcile_scaleway_secret_isolated api_up (secret_cr none) calm

reconcile_rdb_isolated_example :
    RequestsSince
      (λ r. IsNamespaceToken api_up "team" r.token)
      []
      ((RdbHandler.reconcile_rdb_inner api_up (rdb none retain) calm).1).log
reconcile_rdb_isolated_example = reconcile_rdb_isolated api_up (rdb none retain) calm

reconcile_instance_isolated_example :
    RequestsSince
      (λ r. IsNamespaceToken api_up "team" r.token ⊎ (r.method ≡ Method.get))
      []
      ((InstanceHandler.reconcile_instance_inner api_up (instance_cr none none) calm).1).log
reconcile_instance_isolated_example =
    reconcile_instance_isolated api_up (instance_cr none none) calm
