-- ===== src/Reconcile/Secrets/Source.antt =====
-- src/reconcilers.rs: reading the source Kubernetes Secret, and the statuses that tell of it.
use scaleway_operator.Error.{
  KubeError, OperatorError, kube_error, secret_access_denied, secret_not_found,
  secret_opt_in_missing,
}
use scaleway_operator.Prelude.{
  Bool, List, Option, String, [], and_then, false, format, get_or, if◌then◌else◌, is_none, lookup,
  none, not, some, str_eq, ℕ, ◌==◌, ◌∷◌,
}
use scaleway_operator.Resources.Secrets.{
  KubernetesSecretRef, ScalewaySecretStatus, Secret, eq_secret_status,
}
use scaleway_operator.Runtime.Calls.{get_secret}
use scaleway_operator.Runtime.Exec.{Exec, Result, err, lift, ok, ◌>>=◌}
use scaleway_operator.Runtime.Http.{bad, good}
use scaleway_operator.Runtime.World.{Outside}

abbrev pub opt_in_label : String
opt_in_label = "scaleway.mathieubodin.io/allow-operator-read"

abbrev pub allowed_cr_annotation : String
allowed_cr_annotation = "scaleway.mathieubodin.io/allowed-cr"

abbrev pub status_error_generic : String
status_error_generic = "Source Secret unavailable (see operator logs)"

abbrev pub status_revoked_generic : String
status_revoked_generic =
    "Source Secret opt-in revoked — Scaleway version disabled. Re-add label/annotation to re-sync."

pub data KsSourceState : Type 0 where
  key_absent : String → KsSourceState  -- resource_version
  present : String → List ℕ → KsSourceState  -- resource_version, payload

-- The value at a key of an optional map.
abbrev pub value_at : String → Option (List (String × String)) → Option String
value_at key m = and_then (lookup key) m

abbrev pub holds : String → Option String → Bool
holds expected none = false
holds expected (some v) = str_eq v expected

unfoldable pub is_opt_in_granted : Option (List (String × String)) → Bool
is_opt_in_granted labels = holds "true" (value_at opt_in_label labels)

abbrev pub cr_path : String → String → String
cr_path cr_namespace cr_name = format (cr_namespace ∷ "/" ∷ cr_name ∷ [])

unfoldable pub is_cr_allowed_for_secret : Option (List (String × String)) → String → String → Bool
is_cr_allowed_for_secret annotations cr_namespace cr_name =
    holds (cr_path cr_namespace cr_name) (value_at allowed_cr_annotation annotations)

unfoldable pub map_kube_get_error : KubeError → String → String → OperatorError
map_kube_get_error (KubeError.api code text) ks_name namespace =
    if code == 403
    then secret_access_denied (
        format (
          "Operator forbidden to read Secrets in namespace '" ∷ namespace
          ∷ "' (RBAC denied — verify the namespace is bootstrapped)" ∷ []))
    else if code == 404
    then secret_not_found (
        format
          ("Kubernetes Secret '" ∷ ks_name ∷ "' not found in namespace '" ∷ namespace ∷ "'" ∷ []))
    else kube_error (KubeError.api code text)
map_kube_get_error (KubeError.other text) ks_name namespace = kube_error (KubeError.other text)

abbrev pub missing_label : String → OperatorError
missing_label ks_name = secret_opt_in_missing (
    format (
      "Kubernetes Secret '" ∷ ks_name ∷ "' must carry label '" ∷ opt_in_label ∷ ": \"true\"'" ∷ []))

abbrev pub missing_annotation : String → String → String → OperatorError
missing_annotation ks_name cr_namespace cr_name = secret_opt_in_missing (
    format (
      "Kubernetes Secret '"
      ∷ ks_name
      ∷ "' must carry annotation '"
      ∷ allowed_cr_annotation
      ∷ ": \""
      ∷ cr_path cr_namespace cr_name
      ∷ "\"' to be read by this ScalewaySecret"
      ∷ []))

abbrev pub state_of : String → Option (List ℕ) → KsSourceState
state_of resource_version none = key_absent resource_version
state_of resource_version (some payload) = present resource_version payload

unfoldable pub parse_k8s_secret_source :
    Secret → String → String → String → String → Result KsSourceState
parse_k8s_secret_source ks ks_name key cr_namespace cr_name =
    if not (is_opt_in_granted ks.labels)
    then err (missing_label ks_name)
    else if not (is_cr_allowed_for_secret ks.annotations cr_namespace cr_name)
    then err (missing_annotation ks_name cr_namespace cr_name)
    else ok (state_of (get_or "" ks.resource_version) (and_then (lookup key) ks.contents))

-- One read of the Secret serves the check of the opt-in and the value.
unfoldable pub read_k8s_secret_source :
    Outside → String → KubernetesSecretRef → String → String → Exec KsSourceState
read_k8s_secret_source out namespace ks_ref cr_namespace cr_name = do
  reply ← get_secret out namespace ks_ref.name
  ks ←
      lift
        (elim reply [ good ks ↦ ok ks | bad e ↦ err (map_kube_get_error e ks_ref.name namespace) ])
  lift (parse_k8s_secret_source ks ks_ref.name ks_ref.key cr_namespace cr_name)

unfoldable pub build_anonymized_source_error_status : ScalewaySecretStatus → ScalewaySecretStatus
build_anonymized_source_error_status current_status = record current_status {
  error_message = some status_error_generic;
  sync_state = "Error";
}

unfoldable pub build_revoked_status : ScalewaySecretStatus → ScalewaySecretStatus
build_revoked_status current_status = record current_status {
  sync_state = "Revoked";
  error_message = some status_revoked_generic;
  last_synced_resource_version = none;
}

abbrev pub refreshed : ScalewaySecretStatus → Option ℕ → ScalewaySecretStatus
refreshed current_status generation = record current_status {
  sync_state = "Synced";
  error_message = none;
  observed_generation =
      if is_none current_status.observed_generation
      then generation
      else current_status.observed_generation;
}

unfoldable pub build_already_synced_status :
    ScalewaySecretStatus → Option ℕ → Option ScalewaySecretStatus
build_already_synced_status current_status generation =
    let status = refreshed current_status generation in
    if not (eq_secret_status status current_status) then some status else none
