-- ===== src/Reconcile/Instances/Isolation.antt =====
-- src/reconcilers.rs, `reconcile_instance`: with whose credentials Scaleway is called.
use scaleway_operator.Runtime.Http.{Method}
use mathlib.Core.Path.{subst⁻¹}
use scaleway_operator.Prelude.{List, [], inl, inr, refl, ◌≡◌, ◌⊎◌}
use scaleway_operator.Reconcile.Instances.Handler.{reconcile_instance_inner}
use scaleway_operator.Reconcile.Instances.Keeps.{Keeps-reconcile}
use scaleway_operator.Reconcile.Shared.{namespace_of}
use scaleway_operator.Reconcile.Shared.Keeps.{AllowsOwn}
use scaleway_operator.Reconcile.Shared.Requests.{
  RequestsSince, since_finalizers, since_request, since_status,
}
use scaleway_operator.Reconcile.Shared.Tokens.{IsNamespaceToken, get_namespace_client-ok}
use scaleway_operator.Resources.Instances.{Instance}
use scaleway_operator.Runtime.Http.{HttpRequest}
use scaleway_operator.Runtime.World.{Event, Outside, World}

module _ (out : Outside) (cr : Instance) where
  -- The request carries the token of the resource's namespace, or it only reads.
  abbrev pub OfNamespaceOrRead : HttpRequest → Type 0
  OfNamespaceOrRead r =
      IsNamespaceToken out (namespace_of cr.metadata) r.token ⊎ (r.method ≡ Method.get)

  own_requests :
      (before : List Event) (m : Method)
      → AllowsOwn
          (RequestsSince OfNamespaceOrRead before)
          (λ c. IsNamespaceToken out (namespace_of cr.metadata) c.token)
          m
  own_requests before m c own r s e t =
      since_request OfNamespaceOrRead before r s
        (inl (subst⁻¹ (IsNamespaceToken out (namespace_of cr.metadata)) t own))

  -- Every request by which a reconcile of an instance creates or deletes in Scaleway carries a token that
  -- was read, as `secret_key`, in the Secret of the credentials of the resource's own namespace: any
  -- request with another token is a GET.
  pub reconcile_instance_isolated :
      (w : World)
      → RequestsSince
          (λ r. IsNamespaceToken out (namespace_of cr.metadata) r.token ⊎ (r.method ≡ Method.get))
          w.log
          ((reconcile_instance_inner out cr w).1).log
  reconcile_instance_isolated w =
      (Keeps-reconcile out cr (since_status OfNamespaceOrRead w.log)
          (λ c. IsNamespaceToken out (namespace_of cr.metadata) c.token)
          (get_namespace_client-ok out (namespace_of cr.metadata))
          (since_finalizers OfNamespaceOrRead w.log)
          (λ r s e. since_request OfNamespaceOrRead w.log r s (inr e))
          (own_requests w.log Method.get) (own_requests w.log Method.delete)
          (own_requests w.log Method.post)).at
        w ([], refl, tt)
