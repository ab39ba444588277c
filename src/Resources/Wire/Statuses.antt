-- ===== src/Resources/Wire/Statuses.antt =====
-- src/resources.rs: the statuses as JSON objects, under the names of their fields, as serde derives them.
use scaleway_operator.Prelude.{Option, [], lookup, none, some, ◌∷◌}
use scaleway_operator.Resources.Databases.{RdbStatus}
use scaleway_operator.Resources.Instances.{InstanceStatus, LoadBalancerStatus}
use scaleway_operator.Resources.Secrets.{ScalewaySecretStatus}
use scaleway_operator.Resources.Wire.{
  Clock, Object, i64_limit, of_number, of_text, of_time, read_optional_number, read_optional_text,
  read_optional_time, read_text, text, u16_limit, u32_limit,
}

infixl 5 ◌>>=◌
abbrev ◌>>=◌ : {A B : Type 0} → Option A → (A → Option B) → Option B
none >>= f = none
some a >>= f = f a

module _ (c : Clock) where
  unfoldable pub serialize_instance : InstanceStatus → Object
  serialize_instance st =
      ("scaleway_id", of_text st.scaleway_id)
      ∷ ("public_ip", of_text st.public_ip)
      ∷ ("state", text st.state)
      ∷ ("project_id", of_text st.project_id)
      ∷ ("created_at", of_time c st.created_at)
      ∷ ("error_message", of_text st.error_message)
      ∷ ("sync_state", text st.sync_state)
      ∷ []

  unfoldable pub deserialize_instance : Object → Option InstanceStatus
  deserialize_instance o = do
    scaleway_id ← read_optional_text (lookup "scaleway_id" o)
    public_ip ← read_optional_text (lookup "public_ip" o)
    state ← read_text (lookup "state" o)
    project_id ← read_optional_text (lookup "project_id" o)
    created_at ← read_optional_time c (lookup "created_at" o)
    error_message ← read_optional_text (lookup "error_message" o)
    sync_state ← read_text (lookup "sync_state" o)
    some (record {
      scaleway_id = scaleway_id;
      public_ip = public_ip;
      state = state;
      project_id = project_id;
      created_at = created_at;
      error_message = error_message;
      sync_state = sync_state;
    })

  unfoldable pub serialize_load_balancer : LoadBalancerStatus → Object
  serialize_load_balancer st =
      ("scaleway_id", of_text st.scaleway_id)
      ∷ ("vip_address", of_text st.vip_address)
      ∷ ("state", text st.state)
      ∷ ("project_id", of_text st.project_id)
      ∷ ("created_at", of_time c st.created_at)
      ∷ ("error_message", of_text st.error_message)
      ∷ ("sync_state", text st.sync_state)
      ∷ []

  unfoldable pub deserialize_load_balancer : Object → Option LoadBalancerStatus
  deserialize_load_balancer o = do
    scaleway_id ← read_optional_text (lookup "scaleway_id" o)
    vip_address ← read_optional_text (lookup "vip_address" o)
    state ← read_text (lookup "state" o)
    project_id ← read_optional_text (lookup "project_id" o)
    created_at ← read_optional_time c (lookup "created_at" o)
    error_message ← read_optional_text (lookup "error_message" o)
    sync_state ← read_text (lookup "sync_state" o)
    some (record {
      scaleway_id = scaleway_id;
      vip_address = vip_address;
      state = state;
      project_id = project_id;
      created_at = created_at;
      error_message = error_message;
      sync_state = sync_state;
    })

  unfoldable pub serialize_secret : ScalewaySecretStatus → Object
  serialize_secret st =
      ("scaleway_id", of_text st.scaleway_id)
      ∷ ("current_version", of_number st.current_version)
      ∷ ("last_synced_resource_version", of_text st.last_synced_resource_version)
      ∷ ("observed_generation", of_number st.observed_generation)
      ∷ ("sync_state", text st.sync_state)
      ∷ ("error_message", of_text st.error_message)
      ∷ []

  unfoldable pub deserialize_secret : Object → Option ScalewaySecretStatus
  deserialize_secret o = do
    scaleway_id ← read_optional_text (lookup "scaleway_id" o)
    current_version ← read_optional_number u32_limit (lookup "current_version" o)
    last_synced_resource_version ← read_optional_text (lookup "last_synced_resource_version" o)
    observed_generation ← read_optional_number i64_limit (lookup "observed_generation" o)
    sync_state ← read_text (lookup "sync_state" o)
    error_message ← read_optional_text (lookup "error_message" o)
    some (record {
      scaleway_id = scaleway_id;
      current_version = current_version;
      last_synced_resource_version = last_synced_resource_version;
      observed_generation = observed_generation;
      sync_state = sync_state;
      error_message = error_message;
    })

  unfoldable pub serialize_rdb : RdbStatus → Object
  serialize_rdb st =
      ("scaleway_id", of_text st.scaleway_id)
      ∷ ("state", text st.state)
      ∷ ("endpoint_ip", of_text st.endpoint_ip)
      ∷ ("endpoint_port", of_number st.endpoint_port)
      ∷ ("engine", of_text st.engine)
      ∷ ("node_type", of_text st.node_type)
      ∷ ("project_id", of_text st.project_id)
      ∷ ("created_at", of_time c st.created_at)
      ∷ ("sync_state", text st.sync_state)
      ∷ ("error_message", of_text st.error_message)
      ∷ ("drift_message", of_text st.drift_message)
      ∷ []

  unfoldable pub deserialize_rdb : Object → Option RdbStatus
  deserialize_rdb o = do
    scaleway_id ← read_optional_text (lookup "scaleway_id" o)
    state ← read_text (lookup "state" o)
    endpoint_ip ← read_optional_text (lookup "endpoint_ip" o)
    endpoint_port ← read_optional_number u16_limit (lookup "endpoint_port" o)
    engine ← read_optional_text (lookup "engine" o)
    node_type ← read_optional_text (lookup "node_type" o)
    project_id ← read_optional_text (lookup "project_id" o)
    created_at ← read_optional_time c (lookup "created_at" o)
    sync_state ← read_text (lookup "sync_state" o)
    error_message ← read_optional_text (lookup "error_message" o)
    drift_message ← read_optional_text (lookup "drift_message" o)
    some (record {
      scaleway_id = scaleway_id;
      state = state;
      endpoint_ip = endpoint_ip;
      endpoint_port = endpoint_port;
      engine = engine;
      node_type = node_type;
      project_id = project_id;
      created_at = created_at;
      sync_state = sync_state;
      error_message = error_message;
      drift_message = drift_message;
    })
