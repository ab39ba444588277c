-- ===== src/Scaleway/Answers/Secrets.antt =====
-- src/scaleway.rs: what the methods on secrets return where Scaleway answers.
use scaleway_operator.Runtime.Http.{Method, text}
use scaleway_operator.Prelude.{
  List, Option, String, [], and_then, format, get_or, head?, map, map_option, none, some, true, u32,
  ℕ, ◌++◌, ◌∷◌, ◌≡◌,
}
use scaleway_operator.Resources.Secrets.{ScalewaySecretSpec}
use scaleway_operator.Runtime.Calls.{note}
use scaleway_operator.Runtime.Exec.{ok, or_raise, pure, ◌>>=◌}
use scaleway_operator.Runtime.Http.{HttpRequest, flag, texts}
use scaleway_operator.Runtime.World.{Outside, ScalewayClient, World, sent}
use scaleway_operator.Scaleway.Answers.{Answers, send_runs}
use scaleway_operator.Scaleway.Request.{
  json_of, request, require_success, require_success_or, str_at,
}
use scaleway_operator.Scaleway.Secrets.{
  create_scaleway_secret, create_secret_version, delete_scaleway_secret,
  find_scaleway_secret_by_tags, secret_url, secrets_url,
}
use scaleway_operator.Scaleway.Tags.{secret_operator_tags}

module _ (out : Outside) (c : ScalewayClient) where
  -- The requests.
  abbrev pub pushing : String → String → List ℕ → HttpRequest
  pushing region id payload =
      request c Method.post (format (secret_url out c region id ∷ "/versions" ∷ [])) []
        (some (("data", text (out.base64_encode payload)) ∷ ("disable_previous", flag true) ∷ []))

  abbrev pub search_by_tags : String → String → String → String → HttpRequest
  search_by_tags region pid namespace cr_name =
      request c Method.get (secrets_url out c region)
        (("project_id", pid) ∷ map (λ t. ("tags", t)) (secret_operator_tags namespace cr_name)) none

  abbrev pub creation : ScalewaySecretSpec → String → String → String → HttpRequest
  creation spec pid namespace cr_name = request c Method.post (secrets_url out c spec.region) [] (
      some (
        ("name", text spec.name)
        ∷ ("project_id", text pid)
        ∷ ("description", text (get_or "" spec.description))
        ∷ ("tags", texts (secret_operator_tags namespace cr_name ++ spec.tags))
        ∷ []))

  abbrev pub removal : String → String → HttpRequest
  removal region id = request c Method.delete (secret_url out c region id) [] none

  module _ {s : ℕ} {v : (out.json).Value} where
    pub create_secret_version_runs :
        (region id : String) (payload : List ℕ) (revision : ℕ)
        → Answers out (pushing region id payload) s v
        → map_option u32 ((out.json).as_u64 ((out.json).index v "revision")) ≡ some revision
        → (w : World)
        → create_secret_version out c region id payload w
          ≡ (ok revision, note (sent (pushing region id payload) (some s)) w)
    unfolding create_secret_version require_success json_of or_raise ◌>>=◌
    create_secret_version_runs region id payload revision a e w =
        rw (send_runs out a w, a.success, e)

    pub find_scaleway_secret_by_tags_runs :
        (region pid namespace cr_name : String) (found : Option String)
        → Answers out (search_by_tags region pid namespace cr_name) s v
        → and_then
            (str_at out "id")
            (and_then head? ((out.json).as_array ((out.json).index v "secrets")))
          ≡ found
        → (w : World)
        → find_scaleway_secret_by_tags out c region pid namespace cr_name w
          ≡ (ok found, note (sent (search_by_tags region pid namespace cr_name) (some s)) w)
    unfolding find_scaleway_secret_by_tags require_success_or json_of pure ◌>>=◌
    find_scaleway_secret_by_tags_runs region pid namespace cr_name found a e w =
        rw (send_runs out a w, a.success, e)

    pub create_scaleway_secret_runs :
        (spec : ScalewaySecretSpec) (pid namespace cr_name id : String)
        → Answers out (creation spec pid namespace cr_name) s v
        → str_at out "id" v ≡ some id
        → (w : World)
        → create_scaleway_secret out c spec.region spec.name pid spec.description spec.tags
            namespace cr_name w
          ≡ (ok id, note (sent (creation spec pid namespace cr_name) (some s)) w)
    unfolding create_scaleway_secret require_success json_of or_raise ◌>>=◌
    create_scaleway_secret_runs spec pid namespace cr_name id a e w =
        rw (send_runs out a w, a.success, e)

    pub delete_scaleway_secret_runs :
        (region id : String)
        → Answers out (removal region id) s v
        → (w : World)
        → delete_scaleway_secret out c region id w
          ≡ (ok tt, note (sent (removal region id) (some s)) w)
    unfolding delete_scaleway_secret require_success_or ◌>>=◌
    delete_scaleway_secret_runs region id a w = rw (send_runs out a w, a.success)
