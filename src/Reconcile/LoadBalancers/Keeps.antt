-- ===== src/Reconcile/LoadBalancers/Keeps.antt =====
-- src/reconcilers.rs: the calls that the steps of a load balancer's reconcile make.
use scaleway_operator.Runtime.Http.{Method}
use scaleway_operator.Decide.Servers.{
  LbReconcileDecision, add_lb_finalizer, create_load_balancer, delete_load_balancer,
  remove_lb_finalizer, sync_load_balancer, verify_project_access_lb,
}
use scaleway_operator.Error.{OperatorError}
use scaleway_operator.Prelude.{Bool, List, Option, String, false, none, refl, some, true, ◌≡◌}
use scaleway_operator.Reconcile.LoadBalancers.Handler.{
  add_finalizer_patch, execute, gather, reconcile_load_balancer_inner,
}
use scaleway_operator.Reconcile.LoadBalancers.Steps.{
  adopt_or_create, adopt_or_create_from, delete_known_from, delete_reply, delete_with,
  execute_create_load_balancer, handle_lb_deletion, known_id, record_error_status, sync, sync_from,
  sync_known, sync_missing, update_lb_status, validate_or_fail,
}
use scaleway_operator.Reconcile.Shared.{namespace_of}
use scaleway_operator.Reconcile.Shared.Keeps.{
  FinalizersKeep, Keeps-get_namespace_client, Keeps-get_project_id, Keeps-get_role, StatusKeeps,
}
use scaleway_operator.Resources.Instances.{LoadBalancer, LoadBalancerStatus}
use scaleway_operator.Runtime.Exec.{Result, err, ok}
use scaleway_operator.Runtime.Keeps.{
  Keeps, Keeps-attempt, Keeps-bind, Keeps-call_scaleway, Keeps-circuit_open, Keeps-gets,
  Keeps-measured, Keeps-on_error, Keeps-patch_finalizers, Keeps-patch_status, Keeps-pure,
  Keeps-raise, Keeps-set_outcome, keeps_rules,
}
use scaleway_operator.Runtime.Metrics.{error}
use scaleway_operator.Runtime.World.{Event, Outside, ScalewayClient}
use scaleway_operator.Scaleway.Info.{LoadBalancerInfo}
use scaleway_operator.Scaleway.Keeps.{
  Allows, Keeps-create_load_balancer, Keeps-delete_load_balancer, Keeps-find_load_balancer_by_name,
  Keeps-get_load_balancer, Keeps-verify_project_access,
}

-- The decisions that lead to the creation of a load balancer.
abbrev pub creates : LbReconcileDecision → Bool
creates (verify_project_access_lb pid) = true
creates (create_load_balancer pid) = true
creates _ = false

module _ {P : List Event → Type 0} (out : Outside) (cr : LoadBalancer) (k : StatusKeeps P) where
  Keeps-update_lb_status : (st : LoadBalancerStatus) → Keeps P (update_lb_status out cr st)
  unfolding update_lb_status
  Keeps-update_lb_status st = Keeps-patch_status out _ _ _ (λ b. k.status _ _ _ b)

  Keeps-record_error_status : (e : OperatorError) → Keeps P (record_error_status out cr e)
  unfolding record_error_status
  Keeps-record_error_status e = search (keeps_rules, Keeps-update_lb_status)

  pub Keeps-gather : (is_open : Bool) → Keeps P (gather out cr is_open)
  unfolding gather
  Keeps-gather is_open =
      search
        (
          keeps_rules,
          Keeps-get_role out k.reads,
          Keeps-get_project_id out k.reads,
          Keeps-record_error_status,
        )
        depth 12

  Keeps-sync_from : (pid : String) (r : Result LoadBalancerInfo) → Keeps P (sync_from out cr pid r)
  unfolding sync_known sync_missing
  Keeps-sync_from pid (ok info) = search (keeps_rules, Keeps-update_lb_status) depth 9
  Keeps-sync_from pid (err e) = search (keeps_rules, Keeps-update_lb_status) depth 9

  Keeps-sync : Allows P Method.get → (id pid : String) → Keeps P (sync out cr id pid)
  unfolding sync
  Keeps-sync g id pid =
      search
        (
          keeps_rules,
          λ (c : ScalewayClient). Keeps-get_load_balancer {P = P} out c cr.spec.zone id g,
          Keeps-sync_from pid,
        )
        depth 9

  Keeps-delete_reply : (r : Result (Unit {0})) → Keeps P (delete_reply out cr r)
  Keeps-delete_reply (ok u) = Keeps-pure tt
  Keeps-delete_reply (err e) = search (keeps_rules, Keeps-update_lb_status) depth 9

  module _ (d : Allows P Method.delete) where
    pub Keeps-delete_with :
        (id : String) (r : Result ScalewayClient) → Keeps P (delete_with out cr id r)
    Keeps-delete_with id (ok c) = Keeps-bind _ _ (Keeps-gets _) (λ client.
        Keeps-bind _ _
          (Keeps-attempt _ (
            Keeps-call_scaleway out _
              (Keeps-delete_load_balancer out client cr.spec.zone id true d)))
          Keeps-delete_reply)
    Keeps-delete_with id (err e) = search (keeps_rules, Keeps-update_lb_status)

    pub Keeps-delete_known_from : (o : Option String) → Keeps P (delete_known_from out cr o)
    Keeps-delete_known_from none = Keeps-pure tt
    Keeps-delete_known_from (some id) =
        search (keeps_rules, Keeps-get_namespace_client out k.reads, Keeps-delete_with id)

    Keeps-handle_lb_deletion : FinalizersKeep P → Keeps P (handle_lb_deletion out cr)
    unfolding handle_lb_deletion
    Keeps-handle_lb_deletion fk = Keeps-measured out _ (
        Keeps-bind _ _ (Keeps-delete_known_from (known_id cr)) (λ u.
          Keeps-bind _ _
            (Keeps-on_error _ _ (Keeps-patch_finalizers out _ _ _ _ (fk _ _ _ _))
              (λ e. Keeps-set_outcome error))
            (λ u'. search keeps_rules)))

  -- The decisions that do not create keep what the cluster's calls, GET and DELETE keep.
  pub Keeps-execute :
      FinalizersKeep P
      → Allows P Method.get
      → Allows P Method.delete
      → (role : String) (x : LbReconcileDecision) → creates x ≡ false
      → Keeps P (execute out cr role x)
  unfolding execute add_finalizer_patch
  Keeps-execute fk g d role LbReconcileDecision.skip_circuit_open h = Keeps-raise _
  Keeps-execute fk g d role add_lb_finalizer h =
      Keeps-bind _ _ (Keeps-patch_finalizers out _ _ _ _ (fk _ _ _ _)) (λ u. Keeps-pure _)
  Keeps-execute fk g d role LbReconcileDecision.block_read_only_role h =
      search (keeps_rules, Keeps-record_error_status) depth 9
  Keeps-execute fk g d role (verify_project_access_lb pid) h = cc
  Keeps-execute fk g d role (create_load_balancer pid) h = cc
  Keeps-execute fk g d role (sync_load_balancer id pid) h =
      Keeps-measured out _ (Keeps-sync g id pid)
  Keeps-execute fk g d role delete_load_balancer h = Keeps-handle_lb_deletion d fk
  Keeps-execute fk g d role remove_lb_finalizer h = Keeps-handle_lb_deletion d fk

  module _ (g : Allows P Method.get) (p : Allows P Method.post) where
    Keeps-adopt_or_create_from :
        (c : ScalewayClient) (pid : String) (o : Option String)
        → Keeps P (adopt_or_create_from out cr c pid o)
    Keeps-adopt_or_create_from c pid (some id) = Keeps-pure _
    Keeps-adopt_or_create_from c pid none =
        Keeps-bind _ _
          (Keeps-on_error _ _
            (Keeps-call_scaleway out _ (
              Keeps-create_load_balancer out c cr.spec pid (namespace_of cr.metadata)
                cr.metadata.name p))
            (λ e. Keeps-bind _ _ (Keeps-update_lb_status _) (λ u. Keeps-set_outcome error)))
          (λ id. Keeps-pure _)

    Keeps-execute_create_load_balancer :
        (pid : String) → Keeps P (execute_create_load_balancer out cr pid)
    unfolding execute_create_load_balancer adopt_or_create
    Keeps-execute_create_load_balancer pid = Keeps-bind _ _ (Keeps-gets _) (λ c.
        Keeps-bind _ _
          (Keeps-bind _ _
            (Keeps-call_scaleway out _ (
              Keeps-find_load_balancer_by_name out c cr.spec.zone (namespace_of cr.metadata)
                cr.metadata.name pid g))
            (Keeps-adopt_or_create_from c pid))
          (λ r. search (keeps_rules, Keeps-update_lb_status) depth 9))

    Keeps-validate_or_fail : Keeps P (validate_or_fail out cr)
    unfolding validate_or_fail
    Keeps-validate_or_fail = search keeps_rules

    Keeps-any :
        FinalizersKeep P
        → Allows P Method.delete
        → (role : String) (x : LbReconcileDecision) → Keeps P (execute out cr role x)
    unfolding execute
    Keeps-any fk d role (verify_project_access_lb pid) = Keeps-measured out _ (
        Keeps-bind _ _ Keeps-validate_or_fail (λ u. Keeps-bind _ _ (Keeps-gets _) (λ c.
          Keeps-bind _ _ (Keeps-call_scaleway out _ (Keeps-verify_project_access out c pid g))
            (λ u'. Keeps-execute_create_load_balancer pid))))
    Keeps-any fk d role (create_load_balancer pid) =
        Keeps-measured out _
          (Keeps-bind _ _ Keeps-validate_or_fail (λ u. Keeps-execute_create_load_balancer pid))
    Keeps-any fk d role LbReconcileDecision.skip_circuit_open =
        Keeps-execute fk g d role LbReconcileDecision.skip_circuit_open refl
    Keeps-any fk d role add_lb_finalizer = Keeps-execute fk g d role add_lb_finalizer refl
    Keeps-any fk d role LbReconcileDecision.block_read_only_role =
        Keeps-execute fk g d role LbReconcileDecision.block_read_only_role refl
    Keeps-any fk d role (sync_load_balancer id pid) =
        Keeps-execute fk g d role (sync_load_balancer id pid) refl
    Keeps-any fk d role delete_load_balancer = Keeps-execute fk g d role delete_load_balancer refl
    Keeps-any fk d role remove_lb_finalizer = Keeps-execute fk g d role remove_lb_finalizer refl

  -- Every reconcile keeps what all of its calls keep.
  pub Keeps-reconcile :
      FinalizersKeep P
      → Allows P Method.get
      → Allows P Method.delete
      → Allows P Method.post
      → Keeps P (reconcile_load_balancer_inner out cr)
  unfolding reconcile_load_balancer_inner
  Keeps-reconcile fk g d p =
      Keeps-bind _ _ (Keeps-circuit_open out)
        (λ b. Keeps-bind _ _ (Keeps-gather b) (λ r. Keeps-any g p fk d r.0 _))
