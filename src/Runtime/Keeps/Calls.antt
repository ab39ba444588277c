-- ===== src/Runtime/Keeps/Calls.antt =====
-- Properties of the log of calls that a step keeps: one rule for each call of src/reconcilers.rs.
use scaleway_operator.Prelude.{ℕ, String, Bool, Option, List}
use scaleway_operator.Prelude.{refl}
use scaleway_operator.Resources.{Kind}
use scaleway_operator.Runtime.Http.{HttpRequest}
use scaleway_operator.Runtime.Metrics.{ReconcileOutcome, Metrics}
use scaleway_operator.Runtime.World.{
  Event, sent, read_namespace_role, read_namespace, read_secret, read_live, read_scaleway_secret,
  patched_finalizers, patched_status, published, StatusPatch, Outside,
}
use scaleway_operator.Runtime.Calls.{
  send, get_namespace_role, get_namespace_annotations, get_secret, get_live_resource_version,
  get_scaleway_secret, patch_finalizers, patch_status, publish, circuit_open, set_outcome,
  update_metrics,
}
use scaleway_operator.Runtime.Keeps.Rules.{Keeps, Adds}

module _ {P : List Event → Type 0} where
  pub Keeps-set_outcome : (o : ReconcileOutcome) → Keeps P (set_outcome o)
  unfolding set_outcome
  Keeps-set_outcome o = record { at = λ w h. h; counts = λ w. refl }

  pub Keeps-update_metrics : (f : Metrics → Metrics) → Keeps P (update_metrics f)
  unfolding update_metrics
  Keeps-update_metrics f = record { at = λ w h. h; counts = λ w. refl }

  module _ (out : Outside) where
    pub Keeps-circuit_open : Keeps P (circuit_open out)
    unfolding circuit_open
    Keeps-circuit_open = record { at = λ w h. h; counts = λ w. refl }

    pub Keeps-send : (r : HttpRequest) → ((s : Option ℕ) → Adds P (sent r s)) → Keeps P (send out r)
    unfolding send
    Keeps-send r k = record { at = λ w h. k _ w.log h; counts = λ w. refl }

    pub Keeps-get_namespace_role :
        (ns : String) → Adds P (read_namespace_role ns) → Keeps P (get_namespace_role out ns)
    unfolding get_namespace_role
    Keeps-get_namespace_role ns k = record { at = λ w h. k w.log h; counts = λ w. refl }

    pub Keeps-get_namespace_annotations :
        (ns : String) → Adds P (read_namespace ns) → Keeps P (get_namespace_annotations out ns)
    unfolding get_namespace_annotations
    Keeps-get_namespace_annotations ns k = record { at = λ w h. k w.log h; counts = λ w. refl }

    pub Keeps-get_secret :
        (ns name : String) → Adds P (read_secret ns name) → Keeps P (get_secret out ns name)
    unfolding get_secret
    Keeps-get_secret ns name k = record { at = λ w h. k w.log h; counts = λ w. refl }

    pub Keeps-get_live :
        (kind : Kind) (ns name : String)
        → Adds P (read_live kind ns name)
        → Keeps P (get_live_resource_version out kind ns name)
    unfolding get_live_resource_version
    Keeps-get_live kind ns name k = record { at = λ w h. k w.log h; counts = λ w. refl }

    pub Keeps-get_scaleway_secret :
        (ns name : String)
        → Adds P (read_scaleway_secret ns name)
        → Keeps P (get_scaleway_secret out ns name)
    unfolding get_scaleway_secret
    Keeps-get_scaleway_secret ns name k = record { at = λ w h. k w.log h; counts = λ w. refl }

    pub Keeps-patch_finalizers :
        (kind : Kind) (ns name : String) (fs : List String)
        → ((b : Bool) → Adds P (patched_finalizers kind ns name fs b))
        → Keeps P (patch_finalizers out kind ns name fs)
    unfolding patch_finalizers
    Keeps-patch_finalizers kind ns name fs k = record {
      at = λ w h. k _ w.log h;
      counts = λ w. refl;
    }

    pub Keeps-patch_status :
        (ns name : String) (st : StatusPatch)
        → ((b : Bool) → Adds P (patched_status ns name st b))
        → Keeps P (patch_status out ns name st)
    unfolding patch_status
    Keeps-patch_status ns name st k = record { at = λ w h. k _ w.log h; counts = λ w. refl }

    pub Keeps-publish :
        (ns name drift : String)
        → Adds P (published ns name drift)
        → Keeps P (publish out ns name drift)
    unfolding publish
    Keeps-publish ns name drift k = record { at = λ w h. k w.log h; counts = λ w. refl }
