-- ===== src/Reconcile/Databases/Isolation.antt =====
-- src/reconcilers.rs, `reconcile_rdb`: with whose credentials Scaleway is called.
use scaleway_operator.Runtime.Http.{Method}
use mathlib.Core.Path.{subst⁻¹}
use scaleway_operator.Prelude.{List, [], refl}
use scaleway_operator.Reconcile.Databases.Handler.{reconcile_rdb_inner}
use scaleway_operator.Reconcile.Databases.Keeps.{Keeps-reconcile}
use scaleway_operator.Reconcile.Shared.{namespace_of}
use scaleway_operator.Reconcile.Shared.Keeps.{AllowsOwn}
use scaleway_operator.Reconcile.Shared.Requests.{
  RequestsSince, since_finalizers, since_password, since_request, since_status,
}
use scaleway_operator.Reconcile.Shared.Tokens.{IsNamespaceToken, get_namespace_client-ok}
use scaleway_operator.Resources.Databases.{Rdb}
use scaleway_operator.Runtime.Http.{HttpRequest}
use scaleway_operator.Runtime.World.{Event, Outside, World}

module _ (out : Outside) (cr : Rdb) where
  -- The request carries the token of the resource's namespace.
  abbrev pub OfNamespace : HttpRequest → Type 0
  OfNamespace r = IsNamespaceToken out (namespace_of cr.metadata) r.token

  own_requests :
      (before : List Event) (m : Method)
      → AllowsOwn
          (RequestsSince OfNamespace before)
          (λ c. IsNamespaceToken out (namespace_of cr.metadata) c.token)
          m
  own_requests before m c own r s e t =
      since_request OfNamespace before r s
        (subst⁻¹ (IsNamespaceToken out (namespace_of cr.metadata)) t own)

  -- Every request to Scaleway that a reconcile of a database makes, the reading of the password in Secret
  -- Manager included, carries a token that was read, as `secret_key`, in the Secret of the credentials of
  -- the resource's own namespace: never the operator's own, nor another namespace's.
  pub reconcile_rdb_isolated :
      (w : World)
      → RequestsSince
          (λ r. IsNamespaceToken out (namespace_of cr.metadata) r.token)
          w.log
          ((reconcile_rdb_inner out cr w).1).log
  reconcile_rdb_isolated w =
      (Keeps-reconcile out cr (since_status OfNamespace w.log)
          (λ c. IsNamespaceToken out (namespace_of cr.metadata) c.token)
          (get_namespace_client-ok out (namespace_of cr.metadata)) (own_requests w.log Method.get)
          (own_requests w.log Method.post) (since_password OfNamespace w.log)
          (since_finalizers OfNamespace w.log) (own_requests w.log Method.delete)).at
        w ([], refl, tt)
