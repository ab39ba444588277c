-- ===== src/Scaleway/Secrets.antt =====
-- src/scaleway.rs: the calls on Secret Manager.
use scaleway_operator.Prelude.{
  ℕ, String, true, Option, none, some, List, [], ◌∷◌, ◌++◌, map, format, show_ℕ, head?, and_then,
  map_option, get_or, u32,
}
use scaleway_operator.Error.{unknown}
use scaleway_operator.Runtime.Http.{text, texts, flag, Method}
use scaleway_operator.Runtime.World.{ScalewayClient, Outside}
use scaleway_operator.Runtime.Exec.{Exec, ◌>>=◌, ◌>>◌, pure, or_raise}
use scaleway_operator.Runtime.Calls.{send}
use scaleway_operator.Scaleway.Request.{
  request, require_success, require_success_or, json_of, str_at,
}
use scaleway_operator.Scaleway.Tags.{secret_operator_tags}

module _ (out : Outside) (client : ScalewayClient) where
  abbrev pub secrets_url : String → String
  secrets_url region =
      format (client.base_url ∷ "/secret-manager/v1beta1/regions/" ∷ region ∷ "/secrets" ∷ [])

  abbrev pub secret_url : String → String → String
  secret_url region id = format (secrets_url region ∷ "/" ∷ id ∷ [])

  unfoldable pub create_scaleway_secret :
      String → String → String → Option String → List String → String → String → Exec String
  create_scaleway_secret region name project_id description extra_tags namespace cr_name = do
    response ← send out (
        request client Method.post (secrets_url region) [] (
          some (
            ("name", text name)
            ∷ ("project_id", text project_id)
            ∷ ("description", text (get_or "" description))
            ∷ ("tags", texts (secret_operator_tags namespace cr_name ++ extra_tags))
            ∷ [])))
    require_success out response
    reply ← json_of out response
    or_raise (str_at out "id" reply) (unknown "No secret ID in response")

  unfoldable pub find_scaleway_secret_by_tags :
      String → String → String → String → Exec (Option String)
  find_scaleway_secret_by_tags region project_id namespace cr_name = do
    response ← send out (
        request client Method.get (secrets_url region)
          (("project_id", project_id)
            ∷ map (λ t. ("tags", t)) (secret_operator_tags namespace cr_name))
          none)
    require_success_or out 404 (pure none)
        (do
          reply ← json_of out response
          pure (
              and_then (str_at out "id")
                (and_then head? ((out.json).as_array ((out.json).index reply "secrets")))))
        response

  -- `disable_previous`: Scaleway disables the version before in the same call. The revision is cast
  -- `as u32`.
  unfoldable pub create_secret_version : String → String → List ℕ → Exec ℕ
  create_secret_version region secret_id payload = do
    response ← send out (
        request client Method.post (format (secret_url region secret_id ∷ "/versions" ∷ [])) [] (
          some (("data", text (out.base64_encode payload)) ∷ ("disable_previous", flag true) ∷ [])))
    require_success out response
    reply ← json_of out response
    or_raise (map_option u32 ((out.json).as_u64 ((out.json).index reply "revision")))
        (unknown "No revision in create_version response")

  -- A 409 is a success: the version is disabled already.
  unfoldable pub disable_secret_version : String → String → ℕ → Exec (Unit {0})
  disable_secret_version region secret_id revision = do
    response ← send out (
        request client Method.post
          (format (secret_url region secret_id ∷ "/versions/" ∷ show_ℕ revision ∷ "/disable" ∷ []))
          [] none)
    require_success_or out 409 (pure tt) (pure tt) response

  -- A 404 is a success: the secret is gone.
  unfoldable pub delete_scaleway_secret : String → String → Exec (Unit {0})
  delete_scaleway_secret region secret_id = do
    response ← send out (request client Method.delete (secret_url region secret_id) [] none)
    require_success_or out 404 (pure tt) (pure tt) response

  unfoldable pub access_secret_version : String → String → ℕ → Exec (List ℕ)
  access_secret_version region secret_id revision = do
    response ← send out (
        request client Method.get
          (format (secret_url region secret_id ∷ "/versions/" ∷ show_ℕ revision ∷ "/access" ∷ []))
          [] none)
    require_success out response
    reply ← json_of out response
    encoded ←
        or_raise (str_at out "data" reply) (unknown "No data in access_secret_version response")
    or_raise (out.base64_decode encoded) (unknown "Secret version payload is not valid base64")
