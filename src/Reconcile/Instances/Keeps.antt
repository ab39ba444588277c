-- ===== src/Reconcile/Instances/Keeps.antt =====
-- src/reconcilers.rs: the calls that the steps of an instance's reconcile make.
use scaleway_operator.Runtime.Http.{Method}
use scaleway_operator.Decide.Laws.{creates}
use scaleway_operator.Decide.Servers.{
  ReconcileDecision, add_finalizer, block_read_only_role, create_instance, delete_instance,
  remove_finalizer, skip_circuit_open, sync_instance, verify_project_access,
}
use scaleway_operator.Error.{OperatorError}
use scaleway_operator.Prelude.{Bool, List, Option, String, false, inl, inr, none, refl, some, ◌≡◌}
use scaleway_operator.Reconcile.Instances.Handler.{
  add_finalizer_patch, execute, gather, reconcile_instance_inner,
}
use scaleway_operator.Reconcile.Instances.Steps.{
  adopt_or_create, adopt_or_create_from, delete_known, delete_known_from, delete_with,
  execute_create_instance, handle_deletion, known_id, prepare, record_error_status,
  remove_finalizer_patch, sync, sync_from, sync_known, sync_missing, update_status, validate_spec,
}
use scaleway_operator.Reconcile.Shared.{get_namespace_client, namespace_of}
use scaleway_operator.Reconcile.Shared.Keeps.{
  AllowsOwn, FinalizersKeep, Keeps-attempt_client, Keeps-get_namespace_client, Keeps-get_project_id,
  Keeps-get_role, Owns, StatusKeeps,
}
use scaleway_operator.Resources.Instances.{Instance, InstanceStatus}
use scaleway_operator.Runtime.Calls.{set_outcome}
use scaleway_operator.Runtime.Exec.{
  Result, Result-cases, err, lift, ok, on_error, on_error-ok, ◌>>=◌, ◌>>◌,
}
use scaleway_operator.Runtime.Keeps.{
  Keeps, Keeps-attempt, Keeps-bind, Keeps-bind_known, Keeps-call_scaleway, Keeps-circuit_open,
  Keeps-gets, Keeps-if, Keeps-measured, Keeps-on_error, Keeps-patch_finalizers, Keeps-patch_status,
  Keeps-pure, Keeps-raise, Keeps-set_outcome, keeps_rules,
}
use scaleway_operator.Runtime.Metrics.{error}
use scaleway_operator.Runtime.World.{Event, Outside, ScalewayClient, World}
use scaleway_operator.Scaleway.Info.{InstanceInfo}
use scaleway_operator.Scaleway.Keeps.{
  Allows, Keeps-create_instance, Keeps-delete_instance, Keeps-find_instance_by_name,
  Keeps-get_instance, Keeps-verify_project_access,
}

module _ {P : List Event → Type 0} (out : Outside) (cr : Instance) (k : StatusKeeps P)
    (IsOwn : ScalewayClient → Type 0) (own : Owns out (namespace_of cr.metadata) IsOwn) where
  Keeps-update_status : (st : InstanceStatus) → Keeps P (update_status out cr st)
  unfolding update_status
  Keeps-update_status st = Keeps-patch_status out _ _ _ (λ b. k.status _ _ _ b)

  Keeps-record_error_status : (e : OperatorError) → Keeps P (record_error_status out cr e)
  unfolding record_error_status
  Keeps-record_error_status e = search (keeps_rules, Keeps-update_status)

  pub Keeps-gather : (is_open : Bool) → Keeps P (gather out cr is_open)
  unfolding gather
  Keeps-gather is_open =
      search
        (
          keeps_rules,
          Keeps-get_role out k.reads,
          Keeps-get_project_id out k.reads,
          Keeps-record_error_status,
        )
        depth 12

  Keeps-prepare : Keeps P (prepare out cr)
  unfolding prepare
  Keeps-prepare =
      search (keeps_rules, Keeps-get_namespace_client out k.reads, Keeps-record_error_status) depth
        9

  prepare-own : (w : World) (c : ScalewayClient) → (prepare out cr w).0 ≡ ok c → IsOwn c
  unfolding prepare ◌>>=◌
  prepare-own w c h =
      elim (Result-cases (on_error (lift (validate_spec cr.spec)) (λ e. set_outcome error) w).0) [
        | inl (u, e) ↦
            let w' = (on_error (lift (validate_spec cr.spec)) (λ e'. set_outcome error) w).1 in
            own w' c (
              on_error-ok (get_namespace_client out (namespace_of cr.metadata))
                (λ x. record_error_status out cr x >> set_outcome error) w' c (rw e at h))
        | inr (x, e) ↦ absurd (cc (rw e at h))
      ]

  Keeps-sync_known : (pid : String) (info : InstanceInfo) → Keeps P (sync_known out cr pid info)
  unfolding sync_known
  Keeps-sync_known pid info = search (keeps_rules, Keeps-update_status) depth 9

  Keeps-sync_missing : Keeps P (sync_missing out cr)
  unfolding sync_missing
  Keeps-sync_missing = search (keeps_rules, Keeps-update_status) depth 9

  Keeps-sync_from : (pid : String) (r : Result InstanceInfo) → Keeps P (sync_from out cr pid r)
  Keeps-sync_from pid (ok info) = Keeps-sync_known pid info
  Keeps-sync_from pid (err e) = Keeps-if _ _ _ Keeps-sync_missing (
      Keeps-on_error _ _ (Keeps-raise e)
        (λ e'. Keeps-bind _ _ (Keeps-update_status _) (λ u. Keeps-set_outcome error)))

  -- A look at the instance.
  Keeps-sync : AllowsOwn P IsOwn Method.get → (id pid : String) → Keeps P (sync out cr id pid)
  unfolding sync
  Keeps-sync a id pid = Keeps-bind_known _ _ Keeps-prepare (λ w c e.
      Keeps-bind _ _
        (Keeps-attempt _ (
          Keeps-call_scaleway out _
            (Keeps-get_instance out c cr.spec.zone id pid (a c (prepare-own w c e)))))
        (Keeps-sync_from pid))

  module _ (d : AllowsOwn P IsOwn Method.delete) where
    Keeps-delete_with :
        (id : String) (r : Result ScalewayClient)
        → ((c : ScalewayClient) → r ≡ ok c → IsOwn c)
        → Keeps P (delete_with out cr id r)
    Keeps-delete_with id (ok c) i =
        Keeps-on_error _ _
          (Keeps-call_scaleway out _ (Keeps-delete_instance out c cr.spec.zone id (d c (i c refl))))
          (λ e. Keeps-set_outcome error)
    Keeps-delete_with id (err e) i = Keeps-pure tt

    Keeps-delete_known_from : (o : Option String) → Keeps P (delete_known_from out cr o)
    Keeps-delete_known_from none = Keeps-pure tt
    Keeps-delete_known_from (some id) =
        Keeps-attempt_client out k.reads (namespace_of cr.metadata) IsOwn own _
          (Keeps-delete_with id)

    pub Keeps-delete_known : Keeps P (delete_known out cr)
    unfolding delete_known
    Keeps-delete_known = Keeps-delete_known_from (known_id cr)

    Keeps-handle_deletion : FinalizersKeep P → Keeps P (handle_deletion out cr)
    unfolding handle_deletion remove_finalizer_patch
    Keeps-handle_deletion fk = Keeps-measured out _ (
        Keeps-bind _ _ Keeps-delete_known (λ u.
          Keeps-bind _ _
            (Keeps-on_error _ _ (Keeps-patch_finalizers out _ _ _ _ (fk _ _ _ _))
              (λ e. Keeps-set_outcome error))
            (λ u'. search keeps_rules)))

  -- The decisions that do not create keep what the cluster's calls, GET and DELETE keep.
  pub Keeps-execute :
      FinalizersKeep P
      → AllowsOwn P IsOwn Method.get
      → AllowsOwn P IsOwn Method.delete
      → (role : String) (d : ReconcileDecision) → creates d ≡ false
      → Keeps P (execute out cr role d)
  unfolding execute add_finalizer_patch
  Keeps-execute fk g d role skip_circuit_open h = Keeps-raise _
  Keeps-execute fk g d role add_finalizer h =
      Keeps-bind _ _ (Keeps-patch_finalizers out _ _ _ _ (fk _ _ _ _)) (λ u. Keeps-pure _)
  Keeps-execute fk g d role block_read_only_role h =
      search (keeps_rules, Keeps-record_error_status) depth 9
  Keeps-execute fk g d role (verify_project_access pid) h = cc
  Keeps-execute fk g d role (create_instance pid) h = cc
  Keeps-execute fk g d role (sync_instance id pid) h = Keeps-measured out _ (Keeps-sync g id pid)
  Keeps-execute fk g d role delete_instance h = Keeps-handle_deletion d fk
  Keeps-execute fk g d role remove_finalizer h = Keeps-handle_deletion d fk

  module _ (g : AllowsOwn P IsOwn Method.get) (p : AllowsOwn P IsOwn Method.post) where
    Keeps-adopt_or_create_from :
        (c : ScalewayClient) (pid : String) (o : Option String)
        → IsOwn c
        → Keeps P (adopt_or_create_from out cr c pid o)
    Keeps-adopt_or_create_from c pid (some id) i = Keeps-pure _
    Keeps-adopt_or_create_from c pid none i =
        Keeps-bind _ _
          (Keeps-on_error _ _
            (Keeps-call_scaleway out _ (Keeps-create_instance out c cr.spec pid (p c i)))
            (λ e. Keeps-bind _ _ (Keeps-update_status _) (λ u. Keeps-set_outcome error)))
          (λ id. Keeps-pure _)

    Keeps-execute_create_instance :
        (c : ScalewayClient) (pid : String)
        → IsOwn c
        → Keeps P (execute_create_instance out cr c pid)
    unfolding execute_create_instance adopt_or_create
    Keeps-execute_create_instance c pid i =
        Keeps-bind _ _
          (Keeps-bind _ _ (Keeps-find_instance_by_name out c cr.spec.zone cr.spec.name pid (g c i))
            (λ o. Keeps-adopt_or_create_from c pid o i))
          (λ r. search (keeps_rules, Keeps-update_status) depth 9)

    Keeps-any :
        FinalizersKeep P
        → AllowsOwn P IsOwn Method.delete
        → Allows P Method.get
        → (role : String) (x : ReconcileDecision) → Keeps P (execute out cr role x)
    unfolding execute
    Keeps-any fk d v role (verify_project_access pid) = Keeps-measured out _ (
        Keeps-bind_known _ _ Keeps-prepare (λ w c e. Keeps-bind _ _ (Keeps-gets _) (λ c'.
          Keeps-bind _ _ (Keeps-call_scaleway out _ (Keeps-verify_project_access out c' pid v))
            (λ u. Keeps-execute_create_instance c pid (prepare-own w c e)))))
    Keeps-any fk d v role (create_instance pid) = Keeps-measured out _ (
        Keeps-bind_known _ _ Keeps-prepare
          (λ w c e. Keeps-execute_create_instance c pid (prepare-own w c e)))
    Keeps-any fk d v role skip_circuit_open = Keeps-execute fk g d role skip_circuit_open refl
    Keeps-any fk d v role add_finalizer = Keeps-execute fk g d role add_finalizer refl
    Keeps-any fk d v role block_read_only_role = Keeps-execute fk g d role block_read_only_role refl
    Keeps-any fk d v role (sync_instance id pid) =
        Keeps-execute fk g d role (sync_instance id pid) refl
    Keeps-any fk d v role delete_instance = Keeps-execute fk g d role delete_instance refl
    Keeps-any fk d v role remove_finalizer = Keeps-execute fk g d role remove_finalizer refl

  -- Every reconcile keeps what all of its calls keep.
  pub Keeps-reconcile :
      FinalizersKeep P
      → Allows P Method.get
      → AllowsOwn P IsOwn Method.get
      → AllowsOwn P IsOwn Method.delete
      → AllowsOwn P IsOwn Method.post
      → Keeps P (reconcile_instance_inner out cr)
  unfolding reconcile_instance_inner
  Keeps-reconcile fk v g d p =
      Keeps-bind _ _ (Keeps-circuit_open out)
        (λ b. Keeps-bind _ _ (Keeps-gather b) (λ r. Keeps-any g p fk d v r.0 _))
