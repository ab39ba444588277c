-- ===== src/Reconcile/Secrets/Isolation.antt =====
-- src/reconcilers.rs, `reconcile_scaleway_secret`: with whose credentials Scaleway is called.
use mathlib.Core.Path.{subst⁻¹}
use scaleway_operator.Prelude.{List, Option, [], none, refl, some, ℕ}
use scaleway_operator.Reconcile.Secrets.Handler.{reconcile_scaleway_secret_inner}
use scaleway_operator.Reconcile.Secrets.Keeps.{AllowsPayload, Keeps-reconcile}
use scaleway_operator.Reconcile.Shared.{namespace_of}
use scaleway_operator.Reconcile.Shared.Requests.{
  RequestsSince, since_finalizers, since_request, since_status,
}
use scaleway_operator.Reconcile.Shared.Tokens.{IsNamespaceToken, get_namespace_client-ok}
use scaleway_operator.Resources.Secrets.{ScalewaySecret}
use scaleway_operator.Runtime.Http.{HttpRequest, JsonField}
use scaleway_operator.Runtime.World.{Event, Outside, ScalewayClient, World}
use scaleway_operator.Scaleway.Keeps.{AllowsData}

module _ (out : Outside) (cr : ScalewaySecret) where
  -- The request carries the token of the resource's namespace.
  abbrev pub OfNamespace : HttpRequest → Type 0
  OfNamespace r = IsNamespaceToken out (namespace_of cr.metadata) r.token

  own_data :
      (before : List Event) (d : Option JsonField) (c : ScalewayClient)
      → IsNamespaceToken out (namespace_of cr.metadata) c.token
      → AllowsData (RequestsSince OfNamespace before) c d
  own_data before d c own r s e t =
      since_request OfNamespace before r s
        (subst⁻¹ (IsNamespaceToken out (namespace_of cr.metadata)) t own)

  any_payload :
      (before : List Event) (o : Option (List ℕ)) (c : ScalewayClient)
      → IsNamespaceToken out (namespace_of cr.metadata) c.token
      → AllowsPayload (RequestsSince OfNamespace before) out c o
  any_payload before none c own = tt
  any_payload before (some payload) c own = own_data before _ c own

  -- Every request to Scaleway that a reconcile of a secret makes carries a token that was read, as
  -- `secret_key`, in the Secret of the credentials of the resource's own namespace: never the operator's
  -- own, nor another namespace's.
  pub reconcile_scaleway_secret_isolated :
      (w : World)
      → RequestsSince
          (λ r. IsNamespaceToken out (namespace_of cr.metadata) r.token)
          w.log
          ((reconcile_scaleway_secret_inner out cr w).1).log
  reconcile_scaleway_secret_isolated w =
      (Keeps-reconcile out cr (since_status OfNamespace w.log)
          (λ c. IsNamespaceToken out (namespace_of cr.metadata) c.token)
          (get_namespace_client-ok out (namespace_of cr.metadata)) (own_data w.log none)
          (since_finalizers OfNamespace w.log) (any_payload w.log)).at
        w ([], refl, tt)
