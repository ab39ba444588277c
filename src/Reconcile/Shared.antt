-- ===== src/Reconcile/Shared.antt =====
-- src/context.rs and src/reconcilers.rs: what the reconcilers share.
pub mod Keeps
pub mod Counts
pub mod Tokens
pub mod Requests
pub mod Reads
pub mod Patched
use scaleway_operator.Prelude.{
  ℕ, String, Bool, not, Option, none, some, List, [], ◌∷◌, ◌++◌, get_or, and_then, lookup, filter,
  contains, str_eq, ◌==◌, eq_option, format, if◌then◌else◌,
}
use scaleway_operator.Error.{OperatorError, KubeError, kube_error, config_error, kube_text}
use scaleway_operator.Resources.{Metadata, Kind}
use scaleway_operator.Runtime.Http.{Try, good, bad}
use scaleway_operator.Runtime.World.{ScalewayClient, Outside}
use scaleway_operator.Runtime.Exec.{Result, ok, err, Exec, ◌>>=◌, pure, lift, or_raise, gets}
use scaleway_operator.Runtime.Calls.{
  get_namespace_role, get_namespace_annotations, get_secret, get_live_resource_version,
}

-- kube's `Action`
pub data Action : Type 0 where
  requeue : ℕ → Action  -- after so many seconds
  await_change : Action

abbrev pub instance_finalizer : String
instance_finalizer = "scaleway.mathieubodin.io/instance-finalizer"

abbrev pub lb_finalizer : String
lb_finalizer = "scaleway.mathieubodin.io/loadbalancer-finalizer"

abbrev pub secret_finalizer : String
secret_finalizer = "scaleway.mathieubodin.io/secret-finalizer"

abbrev pub rdb_finalizer : String
rdb_finalizer = "scaleway.mathieubodin.io/rdb-finalizer"

abbrev pub namespace_creds_ns : String
namespace_creds_ns = "scaleway-system"

-- 5 s
abbrev pub stale_cache_requeue : ℕ
stale_cache_requeue = 5

-- `namespace().unwrap_or_default()`
abbrev pub namespace_of : Metadata → String
namespace_of metadata = get_or "" metadata.namespace

abbrev pub deletion_requested : Metadata → Bool
deletion_requested metadata = elim metadata.deletion_timestamp [
  | none ↦ Bool.false
  | some t ↦ Bool.true
]

abbrev pub finalizer_present : String → Metadata → Bool
finalizer_present finalizer metadata = contains (get_or [] metadata.finalizers) finalizer

abbrev pub with_finalizer : String → Metadata → List String
with_finalizer finalizer metadata = get_or [] metadata.finalizers ++ finalizer ∷ []

abbrev pub without_finalizer : String → Metadata → List String
without_finalizer finalizer metadata =
    filter (λ f. not (str_eq f finalizer)) (get_or [] metadata.finalizers)

-- The key of a resource's retry counter.
abbrev pub retry_key : String → Metadata → String
retry_key kind metadata = format (kind ∷ "/" ∷ namespace_of metadata ∷ "/" ∷ metadata.name ∷ [])

unfoldable pub extract_project_id_from_namespace : List (String × String) → Option String
extract_project_id_from_namespace annotations =
    lookup "scaleway.mathieubodin.io/project-id" annotations

unfoldable pub role_of_reply : String → Try KubeError String → Result String
role_of_reply namespace (good role) = ok role
role_of_reply namespace (bad (KubeError.api code text)) =
    if code == 404
    then err (
        config_error (
          format (
            "No NamespaceRole found for namespace '" ∷ namespace
            ∷ "'. Create a NamespaceRole resource with name '" ∷ namespace
            ∷ "' to assign a Scaleway role." ∷ [])))
    else err (kube_error (KubeError.api code text))
role_of_reply namespace (bad (KubeError.other text)) = err (kube_error (KubeError.other text))

unfoldable pub map_namespace_creds_error : KubeError → String → OperatorError
map_namespace_creds_error (KubeError.api code text) secret_name =
    if code == 404
    then config_error (
        format (
          "Secret '" ∷ secret_name
          ∷ "' not found in namespace 'scaleway-system'. An admin must pre-provision IAM credentials for this namespace."
          ∷ []))
    else kube_error (KubeError.api code text)
map_namespace_creds_error (KubeError.other text) secret_name = kube_error (KubeError.other text)

module _ (out : Outside) where
  unfoldable pub get_scaleway_role_for_namespace : String → Exec String
  get_scaleway_role_for_namespace namespace = do
    reply ← get_namespace_role out namespace
    lift (role_of_reply namespace reply)

  abbrev creds_secret_name : String → String
  creds_secret_name namespace = format ("scaleway-ns-creds-" ∷ namespace ∷ [])

  unfoldable pub get_namespace_client : String → Exec ScalewayClient
  get_namespace_client namespace = do
    let secret_name = creds_secret_name namespace
    reply ← get_secret out namespace_creds_ns secret_name
    secret ← lift (elim reply [
      | good secret ↦ ok secret
      | bad e ↦ err (map_namespace_creds_error e secret_name)
    ])
    bytes ←
        or_raise (and_then (lookup "secret_key") secret.contents)
          (config_error (format ("Secret '" ∷ secret_name ∷ "' has no 'secret_key' field." ∷ [])))
    secret_key ← or_raise (out.from_utf8 bytes) (
        config_error
          (format ("Secret '" ∷ secret_name ∷ "': 'secret_key' is not valid UTF-8." ∷ [])))
    base_url ← gets (λ w. w.scaleway_base_url)
    pure (record { token = secret_key; base_url = base_url })

  unfoldable pub get_project_id_from_namespace_resource : Metadata → Exec String
  get_project_id_from_namespace_resource metadata = do
    let namespace = namespace_of metadata
    reply ← get_namespace_annotations out namespace
    annotations ← lift (elim reply [
      | good annotations ↦ ok annotations
      | bad e ↦
          err (
            config_error
              (format ("Cannot access namespace " ∷ namespace ∷ ": " ∷ kube_text e ∷ [])))
    ])
    or_raise (extract_project_id_from_namespace annotations) (
        config_error (
          format (
            "Namespace '" ∷ namespace
            ∷ "' must have annotation 'scaleway.mathieubodin.io/project-id'" ∷ [])))

  -- The refusal of an annotation that is no UUID.
  abbrev pub bad_project_id : String → OperatorError
  bad_project_id pid = config_error (
      format (
        "Annotation 'scaleway.mathieubodin.io/project-id' must be a valid UUID, got: '" ∷ pid ∷ "'"
        ∷ []))

  unfoldable pub is_cached_cr_current : Kind → Metadata → Exec Bool
  is_cached_cr_current kind metadata = do
    live ← get_live_resource_version out kind (namespace_of metadata) metadata.name
    pure (eq_option str_eq live metadata.resource_version)
