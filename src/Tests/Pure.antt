-- ===== src/Tests/Pure.antt =====
-- The theorems on the pure functions, at concrete inputs.
use scaleway_operator.Context.Breaker.Laws.{query, failure, success}
use scaleway_operator.Context.Breaker.{
  closed, half_open, is_circuit_open, opened, record_scaleway_failure,
}
use scaleway_operator.Context.Breaker.Laws.{
  Any, IsFailureAt, fifth_failure_opens, recovers, run, run-opened_by_failure, step,
}
use scaleway_operator.Decide.Databases.{decide_next_action_rdb}
use scaleway_operator.Decide.Laws.{
  as_lb_decision, as_lb_input, as_rdb_decision, as_rdb_input, decide_next_actions-eq,
}
use scaleway_operator.Decide.Secrets.{SecretReconcileInput}
use scaleway_operator.Decide.Servers.{ReconcileInput, decide_next_action, decide_next_action_lb}
use scaleway_operator.Prelude.{
  Option, String, [], arith, contains, false, map, none, refl, some, true, ℕ, ◌++◌, ◌↔◌, ◌∷◌, ◌≡◌,
  ◌≢◌, ◌⊎◌,
}
use scaleway_operator.Reconcile.Databases.Drift.{build_rdb_synced_status}
use scaleway_operator.Reconcile.Databases.DriftLaws.{Agrees, build_rdb_synced_status-Synced}
use scaleway_operator.Reconcile.Secrets.Source.{parse_k8s_secret_source, present}
use scaleway_operator.Reconcile.Secrets.SourceLaws.{HasOptedIn, parse_k8s_secret_source-ok}
use scaleway_operator.Resources.Databases.{default_rdb_status, retain}
use scaleway_operator.Resources.Secrets.{Secret}
use scaleway_operator.Runtime.Exec.{ok}
use scaleway_operator.Scaleway.Info.{RdbInstanceInfo}
use scaleway_operator.Scaleway.TagLaws.{AllTags, check_tags_keeps_apart}
use scaleway_operator.Scaleway.Tags.{
  check_tags, find_reserved_tag, is_reserved_secret_tag, secret_operator_tags,
}
use scaleway_operator.Tests.{creds_secret, rdb_spec}

fifth_failure_opens_example :
    run (closed 1) (map failure ((10 ∷ 20 ∷ 30 ∷ []) ++ 40 ∷ (50 ∷ []))) ≡ opened 40
fifth_failure_opens_example = fifth_failure_opens 1 (10 ∷ 20 ∷ 30 ∷ []) 40 (50 ∷ []) refl

run-opened_by_failure_example :
    (half_open ≡ opened 9) ⊎ Any (IsFailureAt 9) (query 3 ∷ failure 9 ∷ [])
unfolding run step record_scaleway_failure is_circuit_open
run-opened_by_failure_example = run-opened_by_failure half_open (query 3 ∷ failure 9 ∷ []) 9 refl

recovers_example :
    ((is_circuit_open 60000000005 (opened 5)).0 ≡ false)
    × ((is_circuit_open 2 (run (opened 5) (query 60000000005 ∷ map query (1 ∷ [])))).0 ≡ false)
    × (run (opened 5) (query 60000000005 ∷ (map query (1 ∷ []) ++ success ∷ [])) ≡ closed 0)
    × (run (opened 5) (query 60000000005 ∷ (map query (1 ∷ []) ++ failure 8 ∷ [])) ≡ opened 8)
recovers_example = recovers 5 60000000005 8 2 (1 ∷ []) (ground arith)

abbrev key_a : String
key_a = "a"

abbrev key_b : String
key_b = "b"

abbrev team : String
team = "team"

abbrev web : String
web = "web"

abbrev example_input : ReconcileInput
example_input = record {
  deletion_requested = false;
  circuit_open = false;
  finalizer_present = true;
  scaleway_role = "Editor";
  project_id = "p";
  scaleway_id = none;
  status_project_id = none;
}

decide_next_actions-eq_example :
    (decide_next_action_lb (as_lb_input example_input)
      ≡ as_lb_decision (decide_next_action example_input))
    × (decide_next_action_rdb (as_rdb_input example_input true)
        ≡ as_rdb_decision none true (decide_next_action example_input))
decide_next_actions-eq_example = decide_next_actions-eq example_input true

abbrev secret_input : SecretReconcileInput
secret_input = record {
  deletion_requested = false;
  circuit_open = false;
  finalizer_present = true;
  source_configured = true;
  scaleway_id = some "s-1";
  last_synced_resource_version = some "6";
  current_resource_version = some "7";
  current_key_present = true;
  generation = some 2;
  observed_generation = some 1;
}

check_tags_keeps_apart_example :
    AllTags (λ t. contains ("env=prod" ∷ []) t ≡ false) (secret_operator_tags "team" "web")
unfolding check_tags find_reserved_tag is_reserved_secret_tag
check_tags_keeps_apart_example = check_tags_keeps_apart ("env=prod" ∷ []) "team" "web" refl

parse_k8s_secret_source-ok_example :
    (parse_k8s_secret_source creds_secret "src" "password" "team" "web" ≡ ok (present "7" (2 ∷ [])))
    ↔ (HasOptedIn creds_secret "team" "web" × (present "7" (2 ∷ []) ≡ present "7" (2 ∷ [])))
parse_k8s_secret_source-ok_example =
    parse_k8s_secret_source-ok creds_secret "src" "password" "team" "web" (present "7" (2 ∷ []))

abbrev shut : Secret
shut = record { labels = none; annotations = none; resource_version = some "7"; contents = none }

abbrev info : RdbInstanceInfo
info = record {
  id = "d-1";
  state = "ready";
  engine = some "PostgreSQL-15";
  node_type = some "DB-DEV-M";
  is_ha_cluster = some false;
  volume_size_bytes = some 10000000000;
  endpoint_ip = none;
  endpoint_port = none;
}

build_rdb_synced_status-Synced_example :
    (((build_rdb_synced_status default_rdb_status (rdb_spec retain) info "p").sync_state ≡ "Synced")
      ↔ (Agrees {A = String} "PostgreSQL-16" (some "PostgreSQL-15") × (info.state ≡ "ready")))
    × ((¬ Agrees {A = String} "PostgreSQL-16" (some "PostgreSQL-15"))
        → ((build_rdb_synced_status default_rdb_status (rdb_spec retain) info "p").sync_state
            ≡ "ConfigDrift")
          × ((build_rdb_synced_status default_rdb_status (rdb_spec retain) info "p").error_message
              ≢ none))
build_rdb_synced_status-Synced_example =
    build_rdb_synced_status-Synced default_rdb_status (rdb_spec retain) info "p"

abbrev old_drift : Option String
old_drift = some "old"

abbrev half_minute : ℕ
half_minute = 30
