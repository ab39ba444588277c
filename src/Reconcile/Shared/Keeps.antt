-- ===== src/Reconcile/Shared/Keeps.antt =====
-- The calls that the shared steps of src/reconcilers.rs make: reads of the cluster only.
use scaleway_operator.Runtime.Http.{Method}
use scaleway_operator.Error.{OperatorError}
use scaleway_operator.Prelude.{Bool, List, String, ap, ◌∙◌, ◌≡◌}
use scaleway_operator.Reconcile.Shared.{
  get_namespace_client, get_project_id_from_namespace_resource, get_scaleway_role_for_namespace,
  is_cached_cr_current,
}
use scaleway_operator.Resources.{Kind, Metadata}
use scaleway_operator.Runtime.Exec.{
  Exec, Result, attempt, attempt-ok, ok, on_error, on_error-ok, ◌>>=◌,
}
use scaleway_operator.Runtime.Keeps.{
  Adds, Keeps, Keeps-attempt, Keeps-bind_known, Keeps-get_live, Keeps-get_namespace_annotations,
  Keeps-get_namespace_role, Keeps-get_secret, Keeps-on_error, keeps_rules,
}
use scaleway_operator.Runtime.World.{
  Event, Outside, ScalewayClient, StatusPatch, World, patched_finalizers, patched_status, published,
  read_live, read_namespace, read_namespace_role, read_secret,
}
use scaleway_operator.Scaleway.Keeps.{AllowsFrom}

-- Reads of the cluster keep the property.
pub record ReadsKeep (P : List Event → Type 0) : Type 0 where
  pub role : (ns : String) → Adds P (read_namespace_role ns)
  pub annotations : (ns : String) → Adds P (read_namespace ns)
  pub secret : (ns name : String) → Adds P (read_secret ns name)
  pub live : (kind : Kind) (ns name : String) → Adds P (read_live kind ns name)

-- Reads of the cluster and writes of statuses keep the property, and so does an event that is published.
pub record StatusKeeps (P : List Event → Type 0) : Type 0 where
  pub reads : ReadsKeep P
  pub status :
      (ns name : String) (st : StatusPatch) (b : Bool) → Adds P (patched_status ns name st b)
  pub publication : (ns name drift : String) → Adds P (published ns name drift)

-- So does a patch of finalizers.
abbrev pub FinalizersKeep : (List Event → Type 0) → Type 0
FinalizersKeep P =
    (kind : Kind) (ns name : String) (fs : List String) (b : Bool)
    → Adds P (patched_finalizers kind ns name fs b)

module _ {P : List Event → Type 0} (out : Outside) (k : ReadsKeep P) where
  pub Keeps-get_role : (ns : String) → Keeps P (get_scaleway_role_for_namespace out ns)
  unfolding get_scaleway_role_for_namespace
  Keeps-get_role ns = search (keeps_rules, Keeps-get_namespace_role out ns (k.role ns))

  pub Keeps-get_project_id : (m : Metadata) → Keeps P (get_project_id_from_namespace_resource out m)
  unfolding get_project_id_from_namespace_resource
  Keeps-get_project_id m =
      search (keeps_rules, Keeps-get_namespace_annotations out _ (k.annotations _))

  pub Keeps-get_namespace_client : (ns : String) → Keeps P (get_namespace_client out ns)
  unfolding get_namespace_client
  Keeps-get_namespace_client ns =
      search (keeps_rules, Keeps-get_secret out _ _ (k.secret _ _)) depth 9

  pub Keeps-is_cached_cr_current :
      (kind : Kind) (m : Metadata) → Keeps P (is_cached_cr_current out kind m)
  unfolding is_cached_cr_current
  Keeps-is_cached_cr_current kind m =
      search (keeps_rules, Keeps-get_live out kind _ _ (k.live kind _ _))

-- What is known of the clients that carry the credentials of a namespace.
abbrev pub Owns : Outside → String → (ScalewayClient → Type 0) → Type 0
Owns out ns IsOwn =
    (w : World) (c : ScalewayClient) → (get_namespace_client out ns w).0 ≡ ok c → IsOwn c

-- The requests of the clients that carry the namespace's credentials, of this HTTP method.
abbrev pub AllowsOwn : (List Event → Type 0) → (ScalewayClient → Type 0) → Method → Type 0
AllowsOwn P IsOwn m = (c : ScalewayClient) → IsOwn c → AllowsFrom P c m

module _ {P : List Event → Type 0} (out : Outside) (k : ReadsKeep P) (ns : String)
    (IsOwn : ScalewayClient → Type 0) (own : Owns out ns IsOwn) where
  -- The client of the namespace, and what is done with it.
  pub Keeps-own_client :
      {A : Type 0} (f : ScalewayClient → Exec A)
      → ((c : ScalewayClient) → IsOwn c → Keeps P (f c))
      → Keeps P (get_namespace_client out ns >>= f)
  Keeps-own_client f kf =
      Keeps-bind_known _ f (Keeps-get_namespace_client out k ns) (λ w c e. kf c (own w c e))

  pub Keeps-with_client :
      {A : Type 0} (handler : OperatorError → Exec (Unit {0})) (f : ScalewayClient → Exec A)
      → ((e : OperatorError) → Keeps P (handler e))
      → ((c : ScalewayClient) → IsOwn c → Keeps P (f c))
      → Keeps P (on_error (get_namespace_client out ns) handler >>= f)
  Keeps-with_client handler f kh kf =
      Keeps-bind_known _ f (Keeps-on_error _ handler (Keeps-get_namespace_client out k ns) kh)
        (λ w c e. kf c (own w c (on_error-ok _ handler w c e)))

  pub Keeps-attempt_client :
      {A : Type 0} (f : Result ScalewayClient → Exec A)
      → ((r : Result ScalewayClient) → ((c : ScalewayClient) → r ≡ ok c → IsOwn c) → Keeps P (f r))
      → Keeps P (attempt (get_namespace_client out ns) >>= f)
  Keeps-attempt_client f kf =
      Keeps-bind_known _ f (Keeps-attempt _ (Keeps-get_namespace_client out k ns))
        (λ w r e. kf r (λ c q. own w c (attempt-ok _ w c (e ∙ ap ok q))))
