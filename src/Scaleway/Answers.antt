-- ===== src/Scaleway/Answers.antt =====
-- src/scaleway.rs: what the methods return where Scaleway answers with a success and a body that can be
-- read, whatever was called before. The child is the methods on secrets.
pub mod Secrets
use scaleway_operator.Runtime.Http.{Method}
use scaleway_operator.Prelude.{
  List, Option, String, [], and_then, format, get_or, head?, none, some, true, ℕ, ◌∷◌, ◌≡◌,
}
use scaleway_operator.Resources.Instances.{InstanceSpec}
use scaleway_operator.Runtime.Calls.{note, send}
use scaleway_operator.Runtime.Exec.{ok, ◌>>=◌}
use scaleway_operator.Runtime.Http.{HttpRequest, Response, Try, good, is_success}
use scaleway_operator.Runtime.World.{Event, Outside, ScalewayClient, World, sent}
use scaleway_operator.Scaleway.Info.{InstanceInfo}
use scaleway_operator.Scaleway.Request.{
  json_of, request, require_success, require_success_or, str_at,
}
use scaleway_operator.Scaleway.Servers.{
  create_instance, create_instance_body, delete_instance, find_instance_by_name, get_instance,
  project_url, server_url, servers_url, verify_project_access,
}

module _ (out : Outside) where
  -- Scaleway answers the request with a success of this status and this body.
  pub record Answers (r : HttpRequest) (status : ℕ) (body : (out.json).Value) : Type 0 where
    pub text : Try String String
    pub answer :
        (log : List Event)
        → out.send log r ≡ good (record { status = status; text = text; json = good body })
    pub success : is_success status ≡ true

  -- After these calls Scaleway answers the request so.
  pub record AnswersAt (log : List Event) (r : HttpRequest) (status : ℕ) (body : (out.json).Value)
      : Type 0 where
    pub text : Try String String
    pub answer : out.send log r ≡ good (record { status = status; text = text; json = good body })
    pub success : is_success status ≡ true

  abbrev pub reply_of :
      {r : HttpRequest} {s : ℕ} {v : (out.json).Value} → Answers r s v → Response (out.json).Value
  reply_of {r} {s} {v} a = record { status = s; text = a.text; json = good v }

  pub send_runs :
      {r : HttpRequest} {s : ℕ} {v : (out.json).Value} (a : Answers r s v) (w : World)
      → send out r w ≡ (ok (reply_of a), note (sent r (some s)) w)
  unfolding send
  send_runs a w = rw (a.answer w.log)

  -- What `get_instance` makes of a body.
  abbrev pub info_of : (out.json).Value → String → InstanceInfo
  info_of v id =
      let server = (out.json).index v "server" in
      record {
        id = id;
        state = get_or "unknown" (str_at out "state" server);
        public_ip = str_at out "address" ((out.json).index server "public_ip");
        created_at = str_at out "creation_date" server;
      }

  module _ (c : ScalewayClient) where
    -- The requests of the methods on servers and projects.
    abbrev pub creation : InstanceSpec → String → HttpRequest
    creation spec pid =
        request c Method.post (servers_url out c spec.zone) []
          (some (create_instance_body out c spec pid))

    abbrev pub search_by_name : String → String → String → HttpRequest
    search_by_name zone name pid =
        request c Method.get (servers_url out c zone) (("project_id", pid) ∷ ("name", name) ∷ [])
          none

    abbrev pub reading : String → String → String → HttpRequest
    reading zone id pid =
        request c Method.get (format (server_url out c zone id ∷ "?project_id=" ∷ pid ∷ [])) [] none

    abbrev pub access : String → HttpRequest
    access pid = request c Method.get (project_url out c pid) [] none

    abbrev pub removal : String → String → HttpRequest
    removal zone id = request c Method.delete (server_url out c zone id) [] none

    module _ {s : ℕ} {v : (out.json).Value} where
      pub create_instance_runs :
          (spec : InstanceSpec) (pid id : String)
          → Answers (creation spec pid) s v
          → str_at out "id" ((out.json).index v "server") ≡ some id
          → (w : World)
          → create_instance out c spec pid w ≡ (ok id, note (sent (creation spec pid) (some s)) w)
      unfolding create_instance require_success json_of ◌>>=◌
      create_instance_runs spec pid id a e w = rw (send_runs a w, a.success, e)

      pub find_instance_by_name_runs :
          (zone name pid : String) (found : Option String)
          → Answers (search_by_name zone name pid) s v
          → and_then
              (str_at out "id")
              (and_then head? ((out.json).as_array ((out.json).index v "servers")))
            ≡ found
          → (w : World)
          → find_instance_by_name out c zone name pid w
            ≡ (ok found, note (sent (search_by_name zone name pid) (some s)) w)
      unfolding find_instance_by_name require_success_or json_of ◌>>=◌
      find_instance_by_name_runs zone name pid found a e w = rw (send_runs a w, a.success, e)

      pub get_instance_runs :
          (zone id pid : String) (w : World)
          → AnswersAt w.log (reading zone id pid) s v
          → str_at out "id" ((out.json).index v "server") ≡ some id
          → get_instance out c zone id pid w
            ≡ (ok (info_of v id), note (sent (reading zone id pid) (some s)) w)
      unfolding get_instance send require_success_or json_of ◌>>=◌
      get_instance_runs zone id pid w a e = rw (a.answer, a.success, e)

      pub verify_project_access_runs :
          (pid : String)
          → Answers (access pid) s v
          → (w : World)
          → verify_project_access out c pid w ≡ (ok tt, note (sent (access pid) (some s)) w)
      unfolding verify_project_access ◌>>=◌
      verify_project_access_runs pid a w = rw (send_runs a w, a.success)

      pub delete_instance_runs :
          (zone id : String)
          → Answers (removal zone id) s v
          → (w : World)
          → delete_instance out c zone id w ≡ (ok tt, note (sent (removal zone id) (some s)) w)
      unfolding delete_instance require_success_or ◌>>=◌
      delete_instance_runs zone id a w = rw (send_runs a w, a.success)
