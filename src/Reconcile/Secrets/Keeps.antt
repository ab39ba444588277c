-- ===== src/Reconcile/Secrets/Keeps.antt =====
-- src/reconcilers.rs: the calls that the steps of a secret's reconcile make.
use scaleway_operator.Runtime.Http.{text}
use scaleway_operator.Scaleway.Secrets
use mathlib.Core.Path.{subst}
use scaleway_operator.Decide.Secrets.{
  SecretReconcileDecision, add_finalizer, already_synced, create_and_sync_secret, delete_secret,
  error_ks_key_not_found, error_ks_secret_not_found, error_source_not_configured, push_new_version,
  remove_finalizer, skip_circuit_open,
}
use scaleway_operator.Error.{is_permanent_error}
use scaleway_operator.Prelude.{List, Option, String, none, not, refl, some, ℕ, ◌≡◌}
use scaleway_operator.Reconcile.Secrets.Handler.{
  SourceFacts, execute, if_current, reconcile_scaleway_secret_inner,
}
use scaleway_operator.Reconcile.Secrets.SourceKeeps.{
  Keeps-check_role, Keeps-check_spec, Keeps-fails, Keeps-read_source, Keeps-record_source_error,
  Keeps-update_secret_status,
}
use scaleway_operator.Reconcile.Secrets.Steps.{
  adopt_or_create, anchor_and_push, create_and_sync, create_unless, delete_from,
  delete_secret_branch, delete_with, keep_synced, push_version, refresh, release,
}
use scaleway_operator.Reconcile.Shared.{Action, namespace_of}
use scaleway_operator.Reconcile.Shared.Keeps.{
  FinalizersKeep, Keeps-attempt_client, Keeps-get_project_id, Keeps-is_cached_cr_current,
  Keeps-with_client, Owns, StatusKeeps,
}
use scaleway_operator.Resources.{secret_kind}
use scaleway_operator.Resources.Secrets.{ScalewaySecret, ScalewaySecretStatus}
use scaleway_operator.Runtime.Calls.{call_scaleway}
use scaleway_operator.Runtime.Exec.{Exec, Result, err, ok}
use scaleway_operator.Runtime.Keeps.{keeps_rules}
use scaleway_operator.Runtime.Keeps.Calls.{
  Keeps-circuit_open, Keeps-patch_finalizers, Keeps-set_outcome,
}
use scaleway_operator.Runtime.Keeps.Rules.{
  Keeps, Keeps-bind, Keeps-call_scaleway, Keeps-if, Keeps-ignore, Keeps-measured, Keeps-on_error,
  Keeps-or_raise_bind, Keeps-pure, Keeps-raise,
}
use scaleway_operator.Runtime.Metrics.{error}
use scaleway_operator.Runtime.World.{Event, Outside, ScalewayClient}
use scaleway_operator.Scaleway.Keeps.{
  AllowsData, Keeps-create_scaleway_secret, Keeps-create_secret_version,
  Keeps-delete_scaleway_secret, Keeps-find_scaleway_secret_by_tags,
}

-- Requests of this client that push the value keep the property.
abbrev pub AllowsPayload :
    (List Event → Type 0) → Outside → ScalewayClient → Option (List ℕ) → Type 0
AllowsPayload P out c none = Unit
AllowsPayload P out c (some payload) = AllowsData P c (some (text (out.base64_encode payload)))

module _ {P : List Event → Type 0} (out : Outside) (cr : ScalewaySecret) (k : StatusKeeps P)
    (IsOwn : ScalewayClient → Type 0) (own : Owns out (namespace_of cr.metadata) IsOwn)
    (a : (c : ScalewayClient) → IsOwn c → AllowsData P c none) where
  Keeps-create_unless :
      (c : ScalewayClient) (pid : String) (o : Option String)
      → IsOwn c
      → Keeps P (create_unless out cr c pid o)
  Keeps-create_unless c pid (some id) i = Keeps-pure _
  Keeps-create_unless c pid none i =
      Keeps-on_error _ _
        (Keeps-call_scaleway out _ (
          Keeps-create_scaleway_secret out c cr.spec.region cr.spec.name pid cr.spec.description
            cr.spec.tags (namespace_of cr.metadata) cr.metadata.name (a c i)))
        (Keeps-fails out cr k)

  Keeps-adopt_or_create :
      (c : ScalewayClient) (pid : String) → IsOwn c → Keeps P (adopt_or_create out cr c pid)
  unfolding adopt_or_create
  Keeps-adopt_or_create c pid i =
      Keeps-bind _ _
        (Keeps-on_error _ _
          (Keeps-call_scaleway out _ (
            Keeps-find_scaleway_secret_by_tags out c cr.spec.region pid (namespace_of cr.metadata)
              cr.metadata.name (a c i)))
          (Keeps-fails out cr k))
        (λ o. Keeps-create_unless c pid o i)

  Keeps-version :
      (c : ScalewayClient) (id : String) (payload : List ℕ)
      → AllowsPayload P out c (some payload)
      → Keeps P (call_scaleway out (Secrets.create_secret_version out c cr.spec.region id payload))
  Keeps-version c id payload p =
      Keeps-call_scaleway out _ (Keeps-create_secret_version out c cr.spec.region id payload p)

  Keeps-anchor_and_push :
      (c : ScalewayClient) (id : String) (rv : Option String) (o : Option (List ℕ))
      → AllowsPayload P out c o
      → Keeps P (anchor_and_push out cr c id rv o)
  unfolding anchor_and_push
  Keeps-anchor_and_push c id rv o p =
      Keeps-bind _ _
        (Keeps-on_error _ _ ((Keeps-update_secret_status out cr k) _)
          (λ e. Keeps-set_outcome error))
        (λ u. Keeps-or_raise_bind o _ _ (λ payload e.
          Keeps-bind _ _
            (Keeps-on_error _ _ (Keeps-version c id payload (subst (AllowsPayload P out c) e p))
              (λ x.
                Keeps-bind _ _ (Keeps-ignore _ ((Keeps-update_secret_status out cr k) _))
                  (λ u'. Keeps-set_outcome error)))
            (λ n. search (keeps_rules, (Keeps-update_secret_status out cr k)) depth 9)))

  Keeps-create_and_sync :
      (rv : Option String) (o : Option (List ℕ))
      → ((c : ScalewayClient) → IsOwn c → AllowsPayload P out c o)
      → Keeps P (create_and_sync out cr rv o)
  unfolding create_and_sync
  Keeps-create_and_sync rv o p = Keeps-measured out _ (
      Keeps-bind _ _
        (Keeps-on_error _ _ (Keeps-get_project_id out k.reads _) (Keeps-fails out cr k))
        (λ pid.
          Keeps-with_client out k.reads (namespace_of cr.metadata) IsOwn own _ _
            (Keeps-fails out cr k)
            (λ c i.
              Keeps-bind _ _ (Keeps-adopt_or_create c pid i)
                (λ id. Keeps-anchor_and_push c id rv o (p c i)))))

  Keeps-push_version :
      (id : String) (rv : Option String) (o : Option (List ℕ))
      → ((c : ScalewayClient) → IsOwn c → AllowsPayload P out c o)
      → Keeps P (push_version out cr id rv o)
  unfolding push_version
  Keeps-push_version id rv o p = Keeps-measured out _ (
      Keeps-with_client out k.reads (namespace_of cr.metadata) IsOwn own _ _ (Keeps-fails out cr k)
        (λ c i. Keeps-or_raise_bind o _ _ (λ payload e.
          Keeps-bind _ _
            (Keeps-on_error _ _
              (Keeps-version c id payload (subst (AllowsPayload P out c) e (p c i)))
              (Keeps-fails out cr k))
            (λ n. search (keeps_rules, (Keeps-update_secret_status out cr k)) depth 9))))

  Keeps-refresh : (o : Option ScalewaySecretStatus) → Keeps P (refresh out cr o)
  Keeps-refresh none = Keeps-pure tt
  Keeps-refresh (some st) =
      Keeps-on_error _ _ ((Keeps-update_secret_status out cr k) st) (λ e. Keeps-set_outcome error)

  Keeps-keep_synced : Keeps P (keep_synced out cr)
  unfolding keep_synced
  Keeps-keep_synced = search (keeps_rules, Keeps-refresh) depth 9

  Keeps-if_current : (m : Exec Action) → Keeps P m → Keeps P (if_current out cr m)
  Keeps-if_current m km =
      Keeps-bind _ _ (Keeps-is_cached_cr_current out k.reads secret_kind cr.metadata)
        (λ b. Keeps-if (not b) _ _ (Keeps-pure _) km)

  module _ (fk : FinalizersKeep P) where
    Keeps-release : Keeps P (release out cr)
    unfolding release
    Keeps-release =
        Keeps-bind _ _
          (Keeps-on_error _ _ (Keeps-patch_finalizers out _ _ _ _ (fk _ _ _ _))
            (λ e. Keeps-set_outcome error))
          (λ u. search keeps_rules)

    Keeps-delete_with :
        (id : String) (r : Result ScalewayClient)
        → ((c : ScalewayClient) → r ≡ ok c → IsOwn c)
        → Keeps P (delete_with out cr id r)
    Keeps-delete_with id (ok c) i =
        Keeps-on_error _ _
          (Keeps-call_scaleway out _
            (Keeps-delete_scaleway_secret out c cr.spec.region id (a c (i c refl))))
          (λ e. Keeps-set_outcome error)
    Keeps-delete_with id (err e) i =
        Keeps-if (not (is_permanent_error e)) _ _
          (Keeps-on_error _ _ (Keeps-raise e) (λ e'. Keeps-set_outcome error)) (Keeps-pure tt)

    Keeps-delete_from : (o : Option String) → Keeps P (delete_from out cr o)
    Keeps-delete_from none = Keeps-pure tt
    Keeps-delete_from (some id) =
        Keeps-attempt_client out k.reads (namespace_of cr.metadata) IsOwn own _
          (Keeps-delete_with id)

    Keeps-delete_secret_branch : Keeps P (delete_secret_branch out cr)
    unfolding delete_secret_branch
    Keeps-delete_secret_branch =
        Keeps-measured out _ (Keeps-bind _ _ (Keeps-delete_from _) (λ u. Keeps-release))

    -- Each decision keeps what the cluster's calls keep, the requests that push no value, and those that
    -- push the one that was read.
    pub Keeps-execute :
        (f : SourceFacts) (d : SecretReconcileDecision)
        → ((c : ScalewayClient) → IsOwn c → AllowsPayload P out c f.payload)
        → Keeps P (execute out cr f d)
    unfolding execute
    Keeps-execute f skip_circuit_open p = Keeps-raise _
    Keeps-execute f add_finalizer p =
        Keeps-bind _ _ (Keeps-patch_finalizers out _ _ _ _ (fk _ _ _ _)) (λ u. Keeps-pure _)
    Keeps-execute f error_source_not_configured p =
        Keeps-measured out _ (Keeps-on_error _ _ (Keeps-raise _) (Keeps-fails out cr k))
    Keeps-execute f error_ks_secret_not_found p =
        Keeps-on_error _ _ (Keeps-raise _) (Keeps-record_source_error out cr k)
    Keeps-execute f error_ks_key_not_found p =
        Keeps-on_error _ _ (Keeps-raise _) (Keeps-record_source_error out cr k)
    Keeps-execute f create_and_sync_secret p = Keeps-if_current _ (Keeps-create_and_sync _ _ p)
    Keeps-execute f (push_new_version id) p = Keeps-if_current _ (Keeps-push_version id _ _ p)
    Keeps-execute f already_synced p = Keeps-keep_synced
    Keeps-execute f delete_secret p = Keeps-delete_secret_branch
    Keeps-execute f remove_finalizer p = Keeps-measured out _ Keeps-release

    -- Every reconcile keeps what all of its calls keep.
    pub Keeps-reconcile :
        ((o : Option (List ℕ)) (c : ScalewayClient) → IsOwn c → AllowsPayload P out c o)
        → Keeps P (reconcile_scaleway_secret_inner out cr)
    unfolding reconcile_scaleway_secret_inner
    Keeps-reconcile p = Keeps-bind _ _ (Keeps-circuit_open out) (λ b.
        Keeps-bind _ _ (Keeps-check_spec out cr k) (λ u.
          Keeps-bind _ _ (Keeps-check_role out cr k b) (λ u'.
            Keeps-bind _ _ (Keeps-read_source out cr k IsOwn own a)
              (λ f. Keeps-execute f _ (p _)))))
