-- ===== src/Tests/Lifecycle.antt =====
-- The theorems on the life of an instance, in a cluster and with a Scaleway that answer.
use scaleway_operator.Runtime.Http.{Method}
use scaleway_operator.Decide.Servers.{role_allows_write}
use scaleway_operator.Json.{Json}
use scaleway_operator.Prelude.{
  Bool, List, String, [], false, if◌then◌else◌, ltb, none, refl, some, str_eq, suc, true, ℕ, ◌&&◌,
  ◌||◌, ◌∷◌, ◌≡◌,
}
use scaleway_operator.Reconcile.Instances.Rounds.{Serves}
use scaleway_operator.Reconcile.Instances.Steps.{validate_spec}
use scaleway_operator.Reconcile.Shared.{
  await_change, extract_project_id_from_namespace, instance_finalizer,
}
use scaleway_operator.Reconcile.Shared.Counts.{is_post, is_sent}
use scaleway_operator.Reconcile.Shared.Reads.{Grants}
use scaleway_operator.Resources.{instance_kind}
use scaleway_operator.Resources.Instances.{Instance, InstanceStatus}
use scaleway_operator.Runtime.Exec.{ok}
use scaleway_operator.Runtime.Gauges.{gauge}
use scaleway_operator.Runtime.Http.{HttpRequest, Response, Try, good}
use scaleway_operator.Runtime.Keeps.Rules.{count_events}
use scaleway_operator.Runtime.Metrics.{inc_instance}
use scaleway_operator.Runtime.World.{Event, Outside, World, patched_finalizers, sent}
use scaleway_operator.Scaleway.Answers.{Answers, removal}
use scaleway_operator.Scaleway.Validation.{validate_instance_type, validate_zone}
use scaleway_operator.Startup.{an_instance, control}
use scaleway_operator.Startup.Lifecycle.{current, doomed, rounds}
use scaleway_operator.Startup.Lifecycle.Converges.{instance_converges, instance_lifecycle}
use scaleway_operator.Tests.{api_up, calm, creds_secret, instance_cr, json_x, metadata, scaleway}

-- A new instance, whose finalizer is still missing.
abbrev new_instance : Instance
new_instance =
    let c = instance_cr none none in
    let m = metadata none in record c { metadata = record m { finalizers = some ("other" ∷ []) } }

pub answered : (r : HttpRequest) → Answers api_up r 200 "x"
answered r = record { text = good "no"; answer = λ log. refl; success = refl }

pub editor_writes : role_allows_write "Editor" ≡ true
unfolding role_allows_write
editor_writes = refl

pub annotated :
    extract_project_id_from_namespace (("scaleway.mathieubodin.io/project-id", "p") ∷ []) ≡ some "p"
unfolding extract_project_id_from_namespace
annotated = refl

new_is_valid : validate_spec new_instance.spec ≡ ok tt
unfolding validate_spec validate_zone validate_instance_type
new_is_valid = refl

-- The cluster grants the same, whatever Scaleway answers.
abbrev granted_with :
    (j : Json) (answers : List Event → HttpRequest → Try String (Response j.Value))
    → Grants (record api_up { json = j; send = answers }) "team"
granted_with j answers = record {
  role = "Editor";
  has_role = λ log. refl;
  may_write = editor_writes;
  pid = "p";
  project = record {
    annotations = ("scaleway.mathieubodin.io/project-id", "p") ∷ [];
    read = λ log. refl;
    annotated = annotated;
    well_formed = refl;
  };
  token = "t";
  credentials = record {
    secret = creds_secret;
    bytes = 1 ∷ [];
    read = λ log. refl;
    value = refl;
    decoded = refl;
  };
  accepts = record { finalizers = λ log kind ns name fs. refl; status = λ log ns name st. refl };
}

abbrev pub granted : Grants api_up "team"
granted = granted_with json_x (api_up.send)

-- A document whose fields are its text, but for an id and an address, which are "x".
abbrev json_state : Json
json_state = record json_x { index = λ v k. if str_eq k "id" || str_eq k "address" then "x" else v }

abbrev is_get : Method → Bool
is_get Method.get = true
is_get Method.post = false
is_get Method.delete = false

abbrev is_reading : HttpRequest → Bool
is_reading r =
    is_get r.method
    && str_eq r.url "https://api.scaleway.com/instance/v1/zones/fr-par-1/servers/x?project_id=p"

-- The server starts, and runs from the third time it is read.
abbrev state_at : List Event → String
state_at log = if ltb 4 (count_events is_sent log) then "running" else "starting"

abbrev changing : Outside
changing = record api_up {
  json = json_state;
  send = λ log r. good (record {
    status = 200;
    text = good "no";
    json = good (if is_reading r then state_at log else "x");
  });
}

steady : (r : HttpRequest) → is_reading r ≡ false → Answers changing r 200 "x"
steady r h = record { text = good "no"; answer = λ log. rw h refl; success = refl }

abbrev served : Serves changing (new_instance.spec) "p" "t" "https://api.scaleway.com" scaleway
served = record {
  id = "x";
  access_status = 200;
  access_body = "x";
  has_access = steady _ refl;
  search_status = 200;
  search_body = "x";
  searches = steady _ refl;
  unknown = refl;
  creation_status = 200;
  creation_body = "x";
  creates = steady _ refl;
  named = refl;
  reading_status = λ log. 200;
  reading_body = state_at;
  reads = λ log. record { text = good "no"; answer = refl; success = refl };
  read_named = λ log. refl;
}

-- The status after three reconciles or more.
abbrev followed_status : ℕ → String → InstanceStatus
followed_status now state = record {
  scaleway_id = some "x";
  public_ip = some "x";
  state = state;
  project_id = some "p";
  created_at = some now;
  error_message = none;
  sync_state = "Synced";
}

instance_converges_example :
    (now : ℕ) × ((k : ℕ)
      → let w' = rounds changing new_instance (suc (suc (suc k))) calm in
        ((current changing new_instance w'.log).status
          ≡ some (
              followed_status now (state_at (rounds changing new_instance (suc (suc k)) calm).log)))
        × ((current changing new_instance w'.log).metadata.finalizers
            ≡ some ("other" ∷ instance_finalizer ∷ []))
        × (count_events is_post w'.log ≡ 1)
        × ((l : String × String × String)
            → gauge l w'.metrics
              ≡ gauge l (
                  inc_instance "fr-par-1" "DEV1-S"
                    (state_at (rounds changing new_instance (suc (suc k)) calm).log)
                  ∷ [])))
instance_converges_example =
    instance_converges changing new_instance (granted_with json_state (changing.send)) refl
      new_is_valid "https://api.scaleway.com" scaleway served calm 0 refl refl refl refl refl refl

instance_lifecycle_example :
    (w1 : World) × (control changing
        (an_instance (doomed changing new_instance 7 (rounds changing new_instance 4 calm).log))
        (rounds changing new_instance 4 calm)
      ≡ (await_change, w1))
    × ((earlier : List Event) × (w1.log
          ≡ patched_finalizers instance_kind "team" "web" ("other" ∷ []) true
            ∷ sent (removal changing scaleway "fr-par-1" "x") (some 200)
            ∷ earlier))
    × ((l : String × String × String) → gauge l w1.metrics ≡ gauge l [])
instance_lifecycle_example =
    instance_lifecycle changing new_instance (granted_with json_state (changing.send)) refl
      new_is_valid "https://api.scaleway.com" scaleway served calm 0 refl refl refl refl refl refl 1
      7 (steady _ refl)
