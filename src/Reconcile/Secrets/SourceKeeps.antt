-- ===== src/Reconcile/Secrets/SourceKeeps.antt =====
-- src/reconcilers.rs: the calls by which a secret's reconcile writes an error and reads its source.
use scaleway_operator.Error.{OperatorError}
use scaleway_operator.Prelude.{
  Bool, List, Option, String, false, if◌then◌else◌, none, not, some, true, ℕ,
}
use scaleway_operator.Reconcile.Secrets.Handler.{
  check_role, check_spec, is_opt_in_missing, is_secret_not_found, opt_in_withdrawn, read_source,
  source_at, source_from,
}
use scaleway_operator.Reconcile.Secrets.Source.{KsSourceState, read_k8s_secret_source}
use scaleway_operator.Reconcile.Secrets.Steps.{
  disable_current, handle_opt_in_revocation, record_error_in_status, record_source_error_in_status,
  update_secret_status,
}
use scaleway_operator.Reconcile.Shared.{deletion_requested, namespace_of}
use scaleway_operator.Reconcile.Shared.Keeps.{Keeps-get_role, Keeps-own_client, Owns, StatusKeeps}
use scaleway_operator.Resources.Secrets.{KubernetesSecretRef, ScalewaySecret, ScalewaySecretStatus}
use scaleway_operator.Runtime.Calls.{set_outcome}
use scaleway_operator.Runtime.Exec.{Result, err, ok, raise, ◌>>◌}
use scaleway_operator.Runtime.Keeps.{keeps_rules}
use scaleway_operator.Runtime.Keeps.Calls.{Keeps-get_secret, Keeps-patch_status, Keeps-set_outcome}
use scaleway_operator.Runtime.Keeps.Rules.{
  Keeps, Keeps-attempt, Keeps-bind, Keeps-call_scaleway, Keeps-if, Keeps-ignore, Keeps-lift,
  Keeps-on_error, Keeps-pure, Keeps-raise,
}
use scaleway_operator.Runtime.Metrics.{error}
use scaleway_operator.Runtime.World.{Event, Outside, ScalewayClient}
use scaleway_operator.Scaleway.Keeps.{AllowsData, Keeps-disable_secret_version}

module _ {P : List Event → Type 0} (out : Outside) (cr : ScalewaySecret) (k : StatusKeeps P) where
  pub Keeps-update_secret_status :
      (st : ScalewaySecretStatus) → Keeps P (update_secret_status out cr st)
  unfolding update_secret_status
  Keeps-update_secret_status st = Keeps-patch_status out _ _ _ (λ b. k.status _ _ _ b)

  pub Keeps-record_error_in_status : (e : OperatorError) → Keeps P (record_error_in_status out cr e)
  unfolding record_error_in_status
  Keeps-record_error_in_status e = Keeps-ignore _ (Keeps-update_secret_status _)

  pub Keeps-record_source_error :
      (e : OperatorError) → Keeps P (record_source_error_in_status out cr e)
  unfolding record_source_error_in_status
  Keeps-record_source_error e = Keeps-ignore _ (Keeps-update_secret_status _)

  pub Keeps-fails :
      (e : OperatorError) → Keeps P (record_error_in_status out cr e >> set_outcome error)
  Keeps-fails e = Keeps-bind _ _ (Keeps-record_error_in_status e) (λ u. Keeps-set_outcome error)

  pub Keeps-check_spec : Keeps P (check_spec out cr)
  unfolding check_spec
  Keeps-check_spec = search (keeps_rules, Keeps-record_error_in_status) depth 9

  pub Keeps-check_role : (b : Bool) → Keeps P (check_role out cr b)
  unfolding check_role
  Keeps-check_role b =
      search (keeps_rules, Keeps-get_role out k.reads, Keeps-record_error_in_status) depth 12

  pub Keeps-read_k8s :
      (ns : String) (r : KubernetesSecretRef) (n name : String)
      → Keeps P (read_k8s_secret_source out ns r n name)
  unfolding read_k8s_secret_source
  Keeps-read_k8s ns r n name =
      Keeps-bind _ _ (Keeps-get_secret out _ _ (k.reads.secret _ _))
        (λ reply. Keeps-bind _ _ (Keeps-lift _) (λ ks. Keeps-lift _))

  module _ (IsOwn : ScalewayClient → Type 0) (own : Owns out (namespace_of cr.metadata) IsOwn)
      (a : (c : ScalewayClient) → IsOwn c → AllowsData P c none) where
    Keeps-disable_current : (id : String) (n : Option ℕ) → Keeps P (disable_current out cr id n)
    Keeps-disable_current id none = Keeps-pure tt
    Keeps-disable_current id (some n) =
        Keeps-own_client out k.reads (namespace_of cr.metadata) IsOwn own _ (λ c i.
          Keeps-call_scaleway out _
            (Keeps-disable_secret_version out c cr.spec.region id n (a c i)))

    Keeps-revocation : (id : String) → Keeps P (handle_opt_in_revocation out cr id)
    unfolding handle_opt_in_revocation
    Keeps-revocation id =
        Keeps-bind _ _ (Keeps-disable_current id _) (λ u. Keeps-update_secret_status _)

    Keeps-withdrawn :
        (b : Bool) (o : Option String) (e : OperatorError)
        → Keeps P (if b then raise e else opt_in_withdrawn out cr e o)
    Keeps-withdrawn true o e = Keeps-raise e
    Keeps-withdrawn false none e =
        Keeps-on_error _ _ (Keeps-raise e) (λ x. Keeps-record_source_error x)
    Keeps-withdrawn false (some id) e = Keeps-bind _ _ (Keeps-revocation id) (λ u. Keeps-raise e)

    Keeps-source_from : (r : Result KsSourceState) → Keeps P (source_from out cr r)
    Keeps-source_from (ok s) = Keeps-pure _
    Keeps-source_from (err e) = Keeps-if (is_secret_not_found e) _ _ (Keeps-pure _) (
        Keeps-if (is_opt_in_missing e) _ _ (Keeps-withdrawn _ _ e)
          (Keeps-on_error _ _ (Keeps-raise e) (λ x. Keeps-record_source_error x)))

    Keeps-source_at : (r : Option KubernetesSecretRef) → Keeps P (source_at out cr r)
    Keeps-source_at none = Keeps-pure _
    Keeps-source_at (some r) =
        Keeps-if (not (deletion_requested cr.metadata)) _ _
          (Keeps-bind _ _ (Keeps-attempt _ (Keeps-read_k8s _ r _ _)) Keeps-source_from)
          (Keeps-pure _)

    pub Keeps-read_source : Keeps P (read_source out cr)
    unfolding read_source
    Keeps-read_source = Keeps-source_at cr.spec.kubernetes_secret
