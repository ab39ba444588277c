-- ===== src/Resources/Wire/Laws.antt =====
-- src/resources.rs: a status that was written by a merge patch is read back.
use scaleway_operator.Prelude.{
  Bool, Option, String, [], ap, arith, eq_iff, if◌then◌else◌, lookup, ltb, none, refl, some, str_eq,
  true, ℕ, ◌∙◌, ◌∷◌, ◌≡◌,
}
use scaleway_operator.Resources.Databases.{RdbStatus}
use scaleway_operator.Resources.Instances.{InstanceStatus, LoadBalancerStatus}
use scaleway_operator.Resources.Secrets.{ScalewaySecretStatus}
use scaleway_operator.Resources.Wire.{
  Clock, Object, Value, i64_limit, merge_patch, null, number, of_number, of_text, of_time, put,
  read_optional_number, read_optional_text, read_optional_time, remove, text, u16_limit, u32_limit,
}
use scaleway_operator.Resources.Wire.Statuses.{
  deserialize_instance, deserialize_load_balancer, deserialize_rdb, deserialize_secret,
  serialize_instance, serialize_load_balancer, serialize_rdb, serialize_secret,
}

lookup-put :
    (k j : String) (v : Value) (o : Object)
    → lookup j (put k v o) ≡ (if str_eq k j then some v else lookup j o)
unfolding put
lookup-put k j v [] = refl
lookup-put k j v ((i, u) ∷ o) =
    ground (arith, eq_iff k j, eq_iff i k, eq_iff i j, lookup-put k j v o)

lookup-remove :
    (k j : String) (o : Object) → lookup j (remove k o) ≡ (if str_eq k j then none else lookup j o)
unfolding remove
lookup-remove k j [] = ground arith
lookup-remove k j ((i, u) ∷ o) =
    ground (arith, eq_iff k j, eq_iff i k, eq_iff i j, lookup-remove k j o)

abbrev present : Value → Option Value
present null = none
present (text s) = some (text s)
present (number n) = some (number n)

-- What a patch makes of one field.
abbrev patched : String → Object → Option Value → Option Value
patched j [] old = old
patched j ((k, v) ∷ p) old = patched j p (if str_eq k j then present v else old)

lookup-merge_patch :
    (j : String) (p o : Object) → lookup j (merge_patch p o) ≡ patched j p (lookup j o)
unfolding merge_patch
lookup-merge_patch j [] o = refl
lookup-merge_patch j ((k, null) ∷ p) o =
    lookup-merge_patch j p (remove k o) ∙ ap (patched j p) (lookup-remove k j o)
lookup-merge_patch j ((k, text s) ∷ p) o =
    lookup-merge_patch j p (put k (text s) o) ∙ ap (patched j p) (lookup-put k j (text s) o)
lookup-merge_patch j ((k, number n) ∷ p) o =
    lookup-merge_patch j p (put k (number n) o) ∙ ap (patched j p) (lookup-put k j (number n) o)

read-of_text : (o : Option String) → read_optional_text (present (of_text o)) ≡ some o
read-of_text none = refl
read-of_text (some s) = refl

-- A number of a status fits in its type.
abbrev fits : ℕ → Option ℕ → Bool
fits limit none = true
fits limit (some n) = ltb n limit

read-of_number :
    (limit : ℕ) (o : Option ℕ)
    → fits limit o ≡ true
    → read_optional_number limit (present (of_number o)) ≡ some o
read-of_number limit none fit = refl
read-of_number limit (some n) fit = rw fit

-- The numbers of the two statuses that hold any fit in their types.
abbrev pub SecretFits : ScalewaySecretStatus → Type 0
SecretFits st =
    (fits u32_limit st.current_version ≡ true) × (fits i64_limit st.observed_generation ≡ true)

abbrev pub RdbFits : RdbStatus → Type 0
RdbFits st = fits u16_limit st.endpoint_port ≡ true

-- What chrono prints, it reads.
abbrev pub PrintsTimes : Clock → Type 0
PrintsTimes c = (t : ℕ) → c.parse (c.print t) ≡ some t

read-of_time :
    (c : Clock) (o : Option ℕ)
    → PrintsTimes c
    → read_optional_time c (present (of_time c o)) ≡ some o
read-of_time c none times = refl
read-of_time c (some t) times = rw (times t)

module _ (c : Clock) (times : PrintsTimes c) where
  deserialize-serialize_instance :
      (st : InstanceStatus) (old : Object)
      → deserialize_instance c (merge_patch (serialize_instance c st) old) ≡ some st
  unfolding serialize_instance deserialize_instance
  deserialize-serialize_instance st old = rw (
    lookup-merge_patch "scaleway_id" (serialize_instance c st) old,
    lookup-merge_patch "public_ip" (serialize_instance c st) old,
    lookup-merge_patch "state" (serialize_instance c st) old,
    lookup-merge_patch "project_id" (serialize_instance c st) old,
    lookup-merge_patch "created_at" (serialize_instance c st) old,
    lookup-merge_patch "error_message" (serialize_instance c st) old,
    lookup-merge_patch "sync_state" (serialize_instance c st) old,
    read-of_text st.scaleway_id,
    read-of_text st.public_ip,
    read-of_text st.project_id,
    read-of_time c st.created_at times,
    read-of_text st.error_message,
  )

  deserialize-serialize_load_balancer :
      (st : LoadBalancerStatus) (old : Object)
      → deserialize_load_balancer c (merge_patch (serialize_load_balancer c st) old) ≡ some st
  unfolding serialize_load_balancer deserialize_load_balancer
  deserialize-serialize_load_balancer st old = rw (
    lookup-merge_patch "scaleway_id" (serialize_load_balancer c st) old,
    lookup-merge_patch "vip_address" (serialize_load_balancer c st) old,
    lookup-merge_patch "state" (serialize_load_balancer c st) old,
    lookup-merge_patch "project_id" (serialize_load_balancer c st) old,
    lookup-merge_patch "created_at" (serialize_load_balancer c st) old,
    lookup-merge_patch "error_message" (serialize_load_balancer c st) old,
    lookup-merge_patch "sync_state" (serialize_load_balancer c st) old,
    read-of_text st.scaleway_id,
    read-of_text st.vip_address,
    read-of_text st.project_id,
    read-of_time c st.created_at times,
    read-of_text st.error_message,
  )

  deserialize-serialize_secret :
      (st : ScalewaySecretStatus) (old : Object)
      → SecretFits st
      → deserialize_secret c (merge_patch (serialize_secret c st) old) ≡ some st
  unfolding serialize_secret deserialize_secret
  deserialize-serialize_secret st old fit = rw (
    lookup-merge_patch "scaleway_id" (serialize_secret c st) old,
    lookup-merge_patch "current_version" (serialize_secret c st) old,
    lookup-merge_patch "last_synced_resource_version" (serialize_secret c st) old,
    lookup-merge_patch "observed_generation" (serialize_secret c st) old,
    lookup-merge_patch "sync_state" (serialize_secret c st) old,
    lookup-merge_patch "error_message" (serialize_secret c st) old,
    read-of_text st.scaleway_id,
    read-of_number u32_limit st.current_version fit.0,
    read-of_text st.last_synced_resource_version,
    read-of_number i64_limit st.observed_generation fit.1,
    read-of_text st.error_message,
  )

  deserialize-serialize_rdb :
      (st : RdbStatus) (old : Object)
      → RdbFits st
      → deserialize_rdb c (merge_patch (serialize_rdb c st) old) ≡ some st
  unfolding serialize_rdb deserialize_rdb
  deserialize-serialize_rdb st old fit = rw (
    lookup-merge_patch "scaleway_id" (serialize_rdb c st) old,
    lookup-merge_patch "state" (serialize_rdb c st) old,
    lookup-merge_patch "endpoint_ip" (serialize_rdb c st) old,
    lookup-merge_patch "endpoint_port" (serialize_rdb c st) old,
    lookup-merge_patch "engine" (serialize_rdb c st) old,
    lookup-merge_patch "node_type" (serialize_rdb c st) old,
    lookup-merge_patch "project_id" (serialize_rdb c st) old,
    lookup-merge_patch "created_at" (serialize_rdb c st) old,
    lookup-merge_patch "sync_state" (serialize_rdb c st) old,
    lookup-merge_patch "error_message" (serialize_rdb c st) old,
    lookup-merge_patch "drift_message" (serialize_rdb c st) old,
    read-of_text st.scaleway_id,
    read-of_text st.endpoint_ip,
    read-of_number u16_limit st.endpoint_port fit,
    read-of_text st.engine,
    read-of_text st.node_type,
    read-of_text st.project_id,
    read-of_time c st.created_at times,
    read-of_text st.error_message,
    read-of_text st.drift_message,
  )

  -- Whatever fields the old status had, the status that a merge patch of it wrote is read back: none of its
  -- fields is lost, and none of the old one's stays. The numbers of the status are those of its types, and a
  -- printed timestamp is read.
  pub deserialize-serialize :
      (i : InstanceStatus) (l : LoadBalancerStatus) (s : ScalewaySecretStatus) (r : RdbStatus)
      (old : Object)
      → SecretFits s
      → RdbFits r
      → (deserialize_instance c (merge_patch (serialize_instance c i) old) ≡ some i)
        × (deserialize_load_balancer c (merge_patch (serialize_load_balancer c l) old) ≡ some l)
        × (deserialize_secret c (merge_patch (serialize_secret c s) old) ≡ some s)
        × (deserialize_rdb c (merge_patch (serialize_rdb c r) old) ≡ some r)
  deserialize-serialize i l s r old s_fits r_fits = (
    deserialize-serialize_instance i old,
    deserialize-serialize_load_balancer l old,
    deserialize-serialize_secret s old s_fits,
    deserialize-serialize_rdb r old r_fits,
  )
