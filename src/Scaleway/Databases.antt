-- ===== src/Scaleway/Databases.antt =====
-- src/scaleway.rs: the calls on database instances.
use scaleway_operator.Prelude.{
  ℕ, String, Option, none, some, List, [], ◌∷◌, ◌++◌, map, format, show_ℕ, head?, and_then, get_or,
  find, not, ltb, length, if◌then◌else◌, filter_map,
}
use scaleway_operator.Prelude.Int.{pos}
use scaleway_operator.Error.{unknown, rdb_not_found, config_error}
use scaleway_operator.Runtime.Http.{JsonField, text, texts, whole, flag, Method}
use scaleway_operator.Scaleway.Info.{RdbInstanceInfo, RdbCreateParams}
use scaleway_operator.Runtime.World.{ScalewayClient, Outside}
use scaleway_operator.Runtime.Exec.{Exec, ◌>>=◌, ◌>>◌, pure, raise, or_raise, lift, Result, ok, err}
use scaleway_operator.Runtime.Calls.{send}
use scaleway_operator.Scaleway.Request.{
  request, require_success, require_success_or, json_of, str_at,
}
use scaleway_operator.Scaleway.Tags.{secret_operator_tags}

module _ (out : Outside) (client : ScalewayClient) where
  abbrev instances_url : String → String
  instances_url region = format (client.base_url ∷ "/rdb/v1/regions/" ∷ region ∷ "/instances" ∷ [])

  abbrev pub instance_url : String → String → String
  instance_url region id =
      format (client.base_url ∷ "/rdb/v1/regions/" ∷ region ∷ "/instances/" ∷ id ∷ [])

  -- `volume_size` is sent only where a size was asked for.
  abbrev pub create_rdb_body : RdbCreateParams → List String → List (String × JsonField)
  create_rdb_body params tags =
      ("name", text params.name)
      ∷ ("project_id", text params.project_id)
      ∷ ("engine", text params.engine)
      ∷ ("user_name", text params.user_name)
      ∷ ("password", text params.password)
      ∷ ("node_type", text params.node_type)
      ∷ ("is_ha_cluster", flag params.is_ha_cluster)
      ∷ ("disable_backup", flag params.disable_backup)
      ∷ ("volume_type", text params.volume_type)
      ∷ ("tags", texts tags)
      ∷ (elim params.volume_size_bytes [
        | some size ↦ ("volume_size", whole (pos size)) ∷ []
        | none ↦ []
      ])

  unfoldable pub create_rdb_instance : String → RdbCreateParams → String → String → Exec String
  create_rdb_instance region params namespace cr_name = do
    response ← send out (
        request client Method.post (instances_url region) [] (
          some
            (create_rdb_body params (secret_operator_tags namespace cr_name ++ params.extra_tags))))
    require_success out response
    reply ← json_of out response
    or_raise (str_at out "id" reply) (unknown "No instance ID in response")

  -- What the ids of the instances that carry the tags lead to: adopting one of several could be wrong.
  unfoldable pub single_match : List String → String → String → Result (Option String)
  single_match [] namespace cr_name = ok none
  single_match (id ∷ []) namespace cr_name = ok (some id)
  single_match (id ∷ id' ∷ ids) namespace cr_name = err (
      config_error (
        format (
          show_ℕ (length (id ∷ id' ∷ ids))
          ∷ " Database Instances carry the operator tags of '"
          ∷ namespace
          ∷ "/"
          ∷ cr_name
          ∷ "'. Remove the tags from all but one."
          ∷ [])))

  unfoldable pub find_rdb_instance_by_tags :
      String → String → String → String → Exec (Option String)
  find_rdb_instance_by_tags region project_id namespace cr_name = do
    response ← send out (
        request client Method.get (instances_url region)
          (("project_id", project_id)
            ∷ map (λ t. ("tags", t)) (secret_operator_tags namespace cr_name))
          none)
    require_success out response
    reply ← json_of out response
    lift (
        single_match
          (filter_map (str_at out "id")
            (get_or [] ((out.json).as_array ((out.json).index reply "instances"))))
          namespace cr_name)

  -- The public endpoint, the one with a load balancer, comes before a private one.
  unfoldable pub pick_endpoint : Option (List (out.json).Value) → Option (out.json).Value
  pick_endpoint endpoints =
      elim (and_then (find (λ ep. not ((out.json).is_null ((out.json).index ep "load_balancer"))))
        endpoints) [ some ep ↦ some ep | none ↦ and_then head? endpoints ]

  -- `u16::try_from(p).ok()`
  abbrev pub as_u16 : ℕ → Option ℕ
  as_u16 p = if ltb p 65536 then some p else none

  unfoldable pub get_rdb_instance : String → String → Exec RdbInstanceInfo
  get_rdb_instance region instance_id = do
    response ← send out (request client Method.get (instance_url region instance_id) [] none)
    require_success_or out 404 (raise (rdb_not_found instance_id))
        (do
          reply ← json_of out response
          id ← or_raise (str_at out "id" reply) (unknown "Missing instance.id in response")
          let endpoint = pick_endpoint ((out.json).as_array ((out.json).index reply "endpoints"))
          pure (record {
            id = id;
            state = get_or "unknown" (str_at out "status" reply);
            engine = str_at out "engine" reply;
            node_type = str_at out "node_type" reply;
            is_ha_cluster = (out.json).as_bool ((out.json).index reply "is_ha_cluster");
            volume_size_bytes =
                (out.json).as_u64 ((out.json).index ((out.json).index reply "volume") "size");
            endpoint_ip = and_then (str_at out "ip") endpoint;
            endpoint_port =
                and_then as_u16
                  (and_then (λ ep. (out.json).as_u64 ((out.json).index ep "port")) endpoint);
          }))
        response

  -- A 404 is a success: the instance is gone.
  unfoldable pub delete_rdb_instance : String → String → Exec (Unit {0})
  delete_rdb_instance region instance_id = do
    response ← send out (request client Method.delete (instance_url region instance_id) [] none)
    require_success_or out 404 (pure tt) (pure tt) response
