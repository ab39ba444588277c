-- ===== src/Reconcile/Shared/Reads.antt =====
-- src/context.rs and src/reconcilers.rs: what the shared steps return where the cluster answers.
use scaleway_operator.Context.Breaker.{closed, is_circuit_open}
use scaleway_operator.Decide.Servers.{role_allows_write}
use scaleway_operator.Prelude.{
  List, String, [], and_then, false, format, lookup, none, some, true, ℕ, ◌∷◌, ◌≡◌,
}
use scaleway_operator.Reconcile.Shared.{
  extract_project_id_from_namespace, get_namespace_client, get_project_id_from_namespace_resource,
  get_scaleway_role_for_namespace, namespace_of, role_of_reply,
}
use scaleway_operator.Resources.{Kind, Metadata}
use scaleway_operator.Resources.Secrets.{Secret}
use scaleway_operator.Runtime.Calls.{
  circuit_open, get_namespace_annotations, get_namespace_role, get_secret, note, patch_finalizers,
  patch_status,
}
use scaleway_operator.Runtime.Exec.{ok, ◌>>=◌}
use scaleway_operator.Runtime.Http.{good}
use scaleway_operator.Runtime.World.{
  Event, Outside, ScalewayClient, StatusPatch, World, patched_finalizers, patched_status,
  read_namespace, read_namespace_role, read_secret,
}

pub circuit_open_runs :
    (out : Outside) (w : World) (n : ℕ)
    → w.circuit_breaker ≡ closed n
    → circuit_open out w ≡ (ok false, record w { circuit_breaker = closed n })
unfolding circuit_open is_circuit_open
circuit_open_runs out w n h = rw h

module _ (out : Outside) (namespace : String) where
  -- The NamespaceRole is there, whatever was called before.
  abbrev pub HasRole : String → Type 0
  HasRole role = (log : List Event) → out.namespace_role log namespace ≡ good role

  -- The namespace is annotated with the project, and the annotation is well formed.
  pub record HasProject (pid : String) : Type 0 where
    pub annotations : List (String × String)
    pub read : (log : List Event) → out.namespace_annotations log namespace ≡ good annotations
    pub annotated : extract_project_id_from_namespace annotations ≡ some pid
    pub well_formed : out.is_uuid pid ≡ true

  -- The Secret of the namespace's credentials holds the token.
  pub record HasToken (token : String) : Type 0 where
    pub secret : Secret
    pub bytes : List ℕ
    pub read :
        (log : List Event)
        → out.secret log "scaleway-system" (format ("scaleway-ns-creds-" ∷ namespace ∷ []))
          ≡ good secret
    pub value : and_then (lookup "secret_key") secret.contents ≡ some bytes
    pub decoded : out.from_utf8 bytes ≡ some token

  pub get_scaleway_role_for_namespace_runs :
      (role : String)
      → HasRole role
      → (w : World)
      → get_scaleway_role_for_namespace out namespace w
        ≡ (ok role, note (read_namespace_role namespace) w)
  unfolding get_scaleway_role_for_namespace get_namespace_role role_of_reply ◌>>=◌
  get_scaleway_role_for_namespace_runs role h w = rw (h w.log)

  pub get_namespace_client_runs :
      (token base : String)
      → HasToken token
      → (w : World) → w.scaleway_base_url ≡ base
      → get_namespace_client out namespace w ≡ (
        ok (record { token = token; base_url = base }),
        note (read_secret "scaleway-system" (format ("scaleway-ns-creds-" ∷ namespace ∷ []))) w,
      )
  unfolding get_namespace_client get_secret ◌>>=◌
  get_namespace_client_runs token base h w same = rw (h.read w.log, h.value, h.decoded, same)

pub get_project_id_runs :
    (out : Outside) (m : Metadata) (pid : String)
    → HasProject out (namespace_of m) pid
    → (w : World)
    → get_project_id_from_namespace_resource out m w
      ≡ (ok pid, note (read_namespace (namespace_of m)) w)
unfolding get_project_id_from_namespace_resource get_namespace_annotations ◌>>=◌
get_project_id_runs out m pid h w = rw (h.read w.log, h.annotated)

-- Every patch is accepted.
pub record Accepts (out : Outside) : Type 0 where
  pub finalizers :
      (log : List Event) (kind : Kind) (ns name : String) (fs : List String)
      → out.patch_finalizers log kind ns name fs ≡ none
  pub status :
      (log : List Event) (ns name : String) (st : StatusPatch)
      → out.patch_status log ns name st ≡ none

module _ (out : Outside) (accepts : Accepts out) where
  pub patch_finalizers_runs :
      (kind : Kind) (ns name : String) (fs : List String) (w : World)
      → patch_finalizers out kind ns name fs w
        ≡ (ok tt, note (patched_finalizers kind ns name fs true) w)
  unfolding patch_finalizers
  patch_finalizers_runs kind ns name fs w = rw (accepts.finalizers w.log kind ns name fs)

  pub patch_status_runs :
      (ns name : String) (st : StatusPatch) (w : World)
      → patch_status out ns name st w ≡ (ok tt, note (patched_status ns name st true) w)
  unfolding patch_status
  patch_status_runs ns name st w = rw (accepts.status w.log ns name st)

-- What the cluster grants the resources of a namespace, whatever was called before.
pub record Grants (out : Outside) (namespace : String) : Type 0 where
  pub role : String
  pub has_role : HasRole out namespace role
  pub may_write : role_allows_write role ≡ true
  pub pid : String
  pub project : HasProject out namespace pid
  pub token : String
  pub credentials : HasToken out namespace token
  pub accepts : Accepts out

-- What a reconcile whose calls succeed leaves of the context: the clients, and a closed breaker.
pub record SameContext (w w1 : World) : Type 0 where
  pub client : w1.scaleway_client ≡ w.scaleway_client
  pub base_url : w1.scaleway_base_url ≡ w.scaleway_base_url
  pub failures : ℕ
  pub closed_breaker : w1.circuit_breaker ≡ closed failures

-- A client that carries the token.
abbrev pub client_of : String → String → ScalewayClient
client_of token base = record { token = token; base_url = base }
