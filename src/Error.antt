-- ===== src/Error.antt =====
-- src/error.rs: the operator's errors, their texts, and how each is classed. The payload of an error
-- of another library is the text that it displays; of a Kubernetes API error also its code.
pub mod Laws
use scaleway_operator.Prelude.{
  ℕ, String, Bool, true, false, Option, none, some, [], ◌∷◌, format, and_then,
}
use scaleway_operator.Json.{Json}

-- kube::error::Error as far as the program looks into it: `Api(ae)` with `ae.code`, or another.
pub data KubeError : Type 0 where
  api : ℕ → String → KubeError
  other : String → KubeError

abbrev pub kube_text : KubeError → String
kube_text (KubeError.api code text) = text
kube_text (KubeError.other text) = text

pub data OperatorError : Type 0 where
  kube_error : KubeError → OperatorError
  scaleway_error : String → String → OperatorError  -- status, message
  project_access_denied : String → OperatorError
  instance_not_found : String → OperatorError
  lb_not_found : String → OperatorError
  invalid_zone : String → OperatorError
  invalid_instance_type : String → OperatorError
  invalid_lb_type : String → OperatorError
  config_error : String → OperatorError
  network_error : String → OperatorError
  serialization_error : String → OperatorError
  finalization_error : String → OperatorError
  secret_not_found : String → OperatorError
  secret_source_not_configured : String → OperatorError
  secret_opt_in_missing : String → OperatorError
  secret_key_not_found : String → OperatorError
  secret_access_denied : String → OperatorError
  rdb_not_found : String → OperatorError
  scaleway_secret_not_ready : String → OperatorError
  unknown : String → OperatorError
  circuit_breaker_open : OperatorError

-- The `#[error]` attributes: the `Display` text.
unfoldable pub to_string : OperatorError → String
to_string (kube_error e) = format ("Kubernetes API error: " ∷ kube_text e ∷ [])
to_string (scaleway_error status message) =
    format ("Scaleway API error: " ∷ status ∷ " - " ∷ message ∷ [])
to_string (project_access_denied m) = format ("Project access denied: " ∷ m ∷ [])
to_string (instance_not_found m) = format ("Instance not found: " ∷ m ∷ [])
to_string (lb_not_found m) = format ("Load balancer not found: " ∷ m ∷ [])
to_string (invalid_zone m) = format ("Invalid zone: " ∷ m ∷ [])
to_string (invalid_instance_type m) = format ("Invalid instance type: " ∷ m ∷ [])
to_string (invalid_lb_type m) = format ("Invalid load balancer type: " ∷ m ∷ [])
to_string (config_error m) = format ("Configuration error: " ∷ m ∷ [])
to_string (network_error m) = format ("Network error: " ∷ m ∷ [])
to_string (serialization_error m) = format ("Serialization error: " ∷ m ∷ [])
to_string (finalization_error m) = format ("Finalization error: " ∷ m ∷ [])
to_string (secret_not_found m) = format ("Secret not found: " ∷ m ∷ [])
to_string (secret_source_not_configured m) = format ("Secret source not configured: " ∷ m ∷ [])
to_string (secret_opt_in_missing m) = format ("Secret opt-in missing: " ∷ m ∷ [])
to_string (secret_key_not_found m) = format ("Secret key not found: " ∷ m ∷ [])
to_string (secret_access_denied m) = format ("Secret access denied: " ∷ m ∷ [])
to_string (rdb_not_found m) = format ("RDB instance not found: " ∷ m ∷ [])
to_string (scaleway_secret_not_ready m) = format ("ScalewaySecret not ready: " ∷ m ∷ [])
to_string (unknown m) = format ("Unknown error: " ∷ m ∷ [])
to_string circuit_breaker_open = "Scaleway API circuit breaker open"

-- Durations are in seconds.
abbrev pub source_recheck_interval : ℕ
source_recheck_interval = 300

abbrev pub secret_ready_recheck_interval : ℕ
secret_ready_recheck_interval = 30

unfoldable pub metric_label : OperatorError → String
metric_label (kube_error e) = "KubeError"
metric_label (scaleway_error s m) = "ScalewayError"
metric_label (project_access_denied m) = "ProjectAccessDenied"
metric_label (instance_not_found m) = "InstanceNotFound"
metric_label (lb_not_found m) = "LbNotFound"
metric_label (invalid_zone m) = "InvalidZone"
metric_label (invalid_instance_type m) = "InvalidInstanceType"
metric_label (invalid_lb_type m) = "InvalidLbType"
metric_label (config_error m) = "ConfigError"
metric_label (network_error m) = "NetworkError"
metric_label (serialization_error m) = "SerializationError"
metric_label (finalization_error m) = "FinalizationError"
metric_label (secret_not_found m) = "SecretNotFound"
metric_label (secret_source_not_configured m) = "SecretSourceNotConfigured"
metric_label (secret_opt_in_missing m) = "SecretOptInMissing"
metric_label (secret_key_not_found m) = "SecretKeyNotFound"
metric_label (secret_access_denied m) = "SecretAccessDenied"
metric_label (rdb_not_found m) = "RdbNotFound"
metric_label (scaleway_secret_not_ready m) = "ScalewaySecretNotReady"
metric_label (unknown m) = "Unknown"
metric_label circuit_breaker_open = "CircuitBreakerOpen"

unfoldable pub is_permanent_error : OperatorError → Bool
is_permanent_error (invalid_zone m) = true
is_permanent_error (invalid_instance_type m) = true
is_permanent_error (invalid_lb_type m) = true
is_permanent_error (config_error m) = true
is_permanent_error (project_access_denied m) = true
is_permanent_error (secret_source_not_configured m) = true
is_permanent_error (secret_opt_in_missing m) = true
is_permanent_error (secret_key_not_found m) = true
is_permanent_error (secret_access_denied m) = true
is_permanent_error _ = false

unfoldable pub recheck_interval : OperatorError → Option ℕ
recheck_interval (secret_opt_in_missing m) = some source_recheck_interval
recheck_interval (secret_key_not_found m) = some source_recheck_interval
recheck_interval (secret_access_denied m) = some source_recheck_interval
recheck_interval (scaleway_secret_not_ready m) = some secret_ready_recheck_interval
recheck_interval _ = none

-- The `message` field of a Scaleway error body, where the body is JSON and the field a text.
abbrev pub body_message : Json → String → Option String
body_message json message =
    and_then json.as_str (and_then (λ v. json.get v "message") (json.from_str message))

unfoldable pub for_status : Json → OperatorError → String
unfolding to_string
for_status json (scaleway_error status message) = elim (body_message json message) [
  | some msg ↦ format ("Scaleway API error: " ∷ status ∷ " — " ∷ msg ∷ [])
  | none ↦ format ("Scaleway API error: " ∷ status ∷ [])
]
for_status json (network_error m) = "Network error communicating with Scaleway API"
for_status json (kube_error e) = "Kubernetes API error"
for_status json (serialization_error m) = "Response parsing error"
for_status json circuit_breaker_open = "Scaleway API temporarily unavailable"
for_status json e = to_string e
