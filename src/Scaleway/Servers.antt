-- ===== src/Scaleway/Servers.antt =====
-- src/scaleway.rs: the calls on instances and on projects.
use scaleway_operator.Prelude.{
  String, Option, none, some, List, [], ◌∷◌, format, head?, and_then, get_or, ◌==◌, ◌||◌,
  if◌then◌else◌,
}
use scaleway_operator.Prelude.Int.{scale_ℤ}
use scaleway_operator.Error.{unknown, instance_not_found, project_access_denied, config_error}
use scaleway_operator.Resources.Instances.{InstanceSpec}
use scaleway_operator.Runtime.Http.{JsonField, text, texts, nested, Method, is_success}
use scaleway_operator.Scaleway.Info.{InstanceInfo}
use scaleway_operator.Runtime.World.{ScalewayClient, Outside}
use scaleway_operator.Runtime.Exec.{Exec, ◌>>=◌, ◌>>◌, pure, raise, or_raise}
use scaleway_operator.Runtime.Calls.{send}
use scaleway_operator.Scaleway.Request.{
  request, refuse, require_success, require_success_or, json_of, str_at,
}

module _ (out : Outside) (client : ScalewayClient) where
  abbrev pub servers_url : String → String
  servers_url zone = format (client.base_url ∷ "/instance/v1/zones/" ∷ zone ∷ "/servers" ∷ [])

  abbrev pub server_url : String → String → String
  server_url zone id =
      format (client.base_url ∷ "/instance/v1/zones/" ∷ zone ∷ "/servers/" ∷ id ∷ [])

  -- `spec.boot_volume_size as i64 * 1_000_000_000i64`
  abbrev pub create_instance_body : InstanceSpec → String → List (String × JsonField)
  create_instance_body spec project_id =
      ("name", text spec.name)
      ∷ ("image", text spec.image)
      ∷ ("commercial_type", text spec.instance_type)
      ∷ ("tags", texts spec.tags)
      ∷ ("project_id", text project_id)
      ∷ ("boot_volume", nested "size" (scale_ℤ 1000000000 spec.boot_volume_size))
      ∷ []

  unfoldable pub create_instance : InstanceSpec → String → Exec String
  create_instance spec project_id = do
    response ← send out (
        request client Method.post (servers_url spec.zone) []
          (some (create_instance_body spec project_id)))
    require_success out response
    reply ← json_of out response
    or_raise (str_at out "id" ((out.json).index reply "server"))
        (unknown "No instance ID in response")

  unfoldable pub find_instance_by_name : String → String → String → Exec (Option String)
  find_instance_by_name zone name project_id = do
    response ← send out (
        request client Method.get (servers_url zone)
          (("project_id", project_id) ∷ ("name", name) ∷ []) none)
    require_success_or out 404 (pure none)
        (do
          reply ← json_of out response
          pure (
              and_then (str_at out "id")
                (and_then head? ((out.json).as_array ((out.json).index reply "servers")))))
        response

  unfoldable pub get_instance : String → String → String → Exec InstanceInfo
  get_instance zone instance_id project_id = do
    response ← send out (
        request client Method.get
          (format (server_url zone instance_id ∷ "?project_id=" ∷ project_id ∷ [])) [] none)
    require_success_or out 404 (raise (instance_not_found instance_id))
        (do
          reply ← json_of out response
          let server = (out.json).index reply "server"
          id ← or_raise (str_at out "id" server) (unknown "Missing server.id in response")
          pure (record {
            id = id;
            state = get_or "unknown" (str_at out "state" server);
            public_ip = str_at out "address" ((out.json).index server "public_ip");
            created_at = str_at out "creation_date" server;
          }))
        response

  -- A 404 is a success: the instance is gone.
  unfoldable pub delete_instance : String → String → Exec (Unit {0})
  delete_instance zone instance_id = do
    response ← send out (request client Method.delete (server_url zone instance_id) [] none)
    require_success_or out 404 (pure tt) (pure tt) response

  unfoldable pub reboot_instance : String → String → Exec (Unit {0})
  reboot_instance zone instance_id = do
    response ← send out (
        request client Method.post (format (server_url zone instance_id ∷ "/action" ∷ [])) []
          (some (("action", text "reboot") ∷ [])))
    require_success out response

  abbrev projects_url : String
  projects_url = format (client.base_url ∷ "/account/v3/projects" ∷ [])

  abbrev pub project_url : String → String
  project_url project_id = format (client.base_url ∷ "/account/v3/projects/" ∷ project_id ∷ [])

  unfoldable pub verify_project_access : String → Exec (Unit {0})
  verify_project_access project_id = do
    response ← send out (request client Method.get (project_url project_id) [] none)
    if is_success response.status
        then pure tt
        else if response.status == 401 || response.status == 403
        then raise (project_access_denied project_id)
        else if response.status == 404
        then raise (config_error (format ("Project '" ∷ project_id ∷ "' not found" ∷ [])))
        else refuse out response

  unfoldable pub create_project : String → String → Option String → Exec String
  create_project org_id name description = do
    response ← send out (
        request client Method.post projects_url [] (
          some (
            ("name", text name)
            ∷ ("organization_id", text org_id)
            ∷ ("description", text (get_or "" description))
            ∷ [])))
    require_success out response
    reply ← json_of out response
    or_raise (str_at out "id" ((out.json).index reply "project"))
        (unknown "No project ID in response")

  unfoldable pub delete_project : String → Exec (Unit {0})
  delete_project project_id = do
    response ← send out (request client Method.delete (project_url project_id) [] none)
    require_success out response
