-- ===== src/Reconcile/Databases/Drift.antt =====
-- src/reconcilers.rs: the differences between the spec of a database and its instance, and the status that
-- tells of them.
use scaleway_operator.Error.{OperatorError, scaleway_error}
use scaleway_operator.Prelude.{
  Bool, List, Option, String, [], and_then, eq_Bool, eq_option, false, format, if◌then◌else◌,
  is_some, join, map_option, none, not, show_Bool, show_ℕ, some, starts_with, str_eq, ℕ, ◌&&◌, ◌*◌,
  ◌++◌, ◌/◌, ◌==◌, ◌∷◌,
}
use scaleway_operator.Resources.Databases.{RdbSpec, RdbStatus}
use scaleway_operator.Resources.Secrets.{ScalewaySecretStatus}
use scaleway_operator.Scaleway.Info.{RdbInstanceInfo}

abbrev pub bytes_per_gb : ℕ
bytes_per_gb = 1000000000

-- The product of a `u32` by 10^9 fits a `u64`.
unfoldable pub rdb_requested_volume_bytes : RdbSpec → Option ℕ
rdb_requested_volume_bytes spec =
    if str_eq spec.volume_type "lssd"
    then none
    else map_option (λ gb. gb * bytes_per_gb) spec.volume_size_gb

abbrev pub engine_drift_text : String → String → String
engine_drift_text wanted actual = format (
    "engine: spec '" ∷ wanted ∷ "', Scaleway '" ∷ actual
    ∷ "'. The operator does not change the engine of an instance: update spec.engine to match."
    ∷ [])

unfoldable pub rdb_engine_drift : RdbSpec → RdbInstanceInfo → Option String
rdb_engine_drift spec info =
    and_then
      (λ actual.
        if str_eq actual spec.engine then none else some (engine_drift_text spec.engine actual))
      info.engine

unfoldable pub node_type_drift : RdbSpec → RdbInstanceInfo → List String
node_type_drift spec info = elim info.node_type [
  | none ↦ []
  | some actual ↦
      if str_eq actual spec.node_type
      then []
      else format ("node_type: spec '" ∷ spec.node_type ∷ "', Scaleway '" ∷ actual ∷ "'" ∷ []) ∷ []
]

unfoldable pub ha_drift : RdbSpec → RdbInstanceInfo → List String
ha_drift spec info = elim info.is_ha_cluster [
  | none ↦ []
  | some actual ↦
      if eq_Bool actual spec.is_ha_cluster
      then []
      else format (
          "is_ha_cluster: spec "
          ∷ show_Bool spec.is_ha_cluster
          ∷ ", Scaleway "
          ∷ show_Bool actual
          ∷ [])
        ∷ []
]

unfoldable pub volume_drift : RdbSpec → RdbInstanceInfo → List String
volume_drift spec info = elim (rdb_requested_volume_bytes spec) [
  | none ↦ []
  | some wanted ↦ elim info.volume_size_bytes [
    | none ↦ []
    | some actual ↦
        if actual == wanted
        then []
        else format (
            "volume_size_gb: spec "
            ∷ show_ℕ (wanted / bytes_per_gb)
            ∷ ", Scaleway "
            ∷ show_ℕ (actual / bytes_per_gb)
            ∷ [])
          ∷ []
  ]
]

-- `(!drifts.is_empty()).then(|| drifts.join("; "))`
abbrev pub joined : List String → Option String
joined [] = none
joined (d ∷ ds) = some (join "; " (d ∷ ds))

unfoldable pub rdb_mutable_drift : RdbSpec → RdbInstanceInfo → Option String
rdb_mutable_drift spec info =
    joined (node_type_drift spec info ++ (ha_drift spec info ++ volume_drift spec info))

unfoldable pub build_rdb_synced_status : RdbStatus → RdbSpec → RdbInstanceInfo → String → RdbStatus
build_rdb_synced_status current_status spec info project_id =
    let status = record current_status {
      state = info.state;
      endpoint_ip = info.endpoint_ip;
      endpoint_port = info.endpoint_port;
      engine = info.engine;
      node_type = info.node_type;
      project_id = some project_id;
      drift_message = rdb_mutable_drift spec info;
    } in
    elim (rdb_engine_drift spec info) [
      | some drift ↦ record status { sync_state = "ConfigDrift"; error_message = some drift }
      | none ↦ record status {
        sync_state = if str_eq info.state "ready" then "Synced" else "Syncing";
        error_message = none;
      }
    ]

-- An event is emitted where a drift appears or changes.
unfoldable pub should_emit_drift_event : Option String → Option String → Bool
should_emit_drift_event previous current =
    is_some current && not (eq_option str_eq current previous)

unfoldable pub synced_secret_version : Option ScalewaySecretStatus → Option (String × ℕ)
synced_secret_version none = none
synced_secret_version (some status) =
    if str_eq status.sync_state "Synced"
    then and_then (λ id. map_option (λ version. (id, version)) status.current_version)
        status.scaleway_id
    else none

-- A refusal by Scaleway, of status 4xx.
unfoldable pub is_scaleway_client_error : OperatorError → Bool
is_scaleway_client_error (scaleway_error status message) = starts_with status "4"
is_scaleway_client_error _ = false
