-- ===== src/Reconcile/Databases/Keeps.antt =====
-- src/reconcilers.rs: the calls that the steps of a database's reconcile make.
use scaleway_operator.Runtime.Http.{Method}
use scaleway_operator.Decide.Databases.{
  RdbReconcileDecision, add_finalizer, block_read_only_role, create_instance, delete_instance,
  remove_finalizer, skip_circuit_open, sync_instance,
}
use scaleway_operator.Error.{OperatorError}
use scaleway_operator.Prelude.{Bool, List, Option, String, none, not, refl, some, ◌≡◌, ◌≢◌}
use scaleway_operator.Reconcile.Databases.Handler.{check_spec, execute, gather, reconcile_rdb_inner}
use scaleway_operator.Reconcile.Databases.Steps.{
  create_from, create_unless, delete_from, delete_instance_branch, delete_with, execute_create_rdb,
  patch_rdb_finalizers, read_rdb_admin_password, record_rdb_error, release, remove_rdb_finalizer,
  sync, sync_from, update_rdb_status,
}
use scaleway_operator.Reconcile.Shared.{namespace_of}
use scaleway_operator.Reconcile.Shared.Keeps.{
  AllowsOwn, FinalizersKeep, Keeps-attempt_client, Keeps-get_project_id, Keeps-get_role,
  Keeps-is_cached_cr_current, Keeps-own_client, Keeps-with_client, Owns, StatusKeeps,
}
use scaleway_operator.Resources.{Kind}
use scaleway_operator.Resources.Databases.{Rdb, RdbStatus}
use scaleway_operator.Runtime.Exec.{Result, err, ok}
use scaleway_operator.Runtime.Keeps.{
  Adds, Keeps, Keeps-attempt, Keeps-bind, Keeps-call_scaleway, Keeps-circuit_open,
  Keeps-get_scaleway_secret, Keeps-gets, Keeps-if, Keeps-ignore, Keeps-measured, Keeps-or_raise,
  Keeps-patch_finalizers, Keeps-patch_status, Keeps-publish, Keeps-pure, Keeps-raise, keeps_rules,
}
use scaleway_operator.Runtime.World.{
  Event, Outside, ScalewayClient, patched_finalizers, read_scaleway_secret,
}
use scaleway_operator.Scaleway.Info.{RdbInstanceInfo}
use scaleway_operator.Scaleway.Keeps.{
  Keeps-access_secret_version, Keeps-create_rdb_instance, Keeps-delete_rdb_instance,
  Keeps-find_rdb_instance_by_tags, Keeps-get_rdb_instance,
}

module _ {P : List Event → Type 0} (out : Outside) (cr : Rdb) (k : StatusKeeps P)
    (IsOwn : ScalewayClient → Type 0) (own : Owns out (namespace_of cr.metadata) IsOwn) where
  Keeps-update_rdb_status : (st : RdbStatus) → Keeps P (update_rdb_status out cr st)
  unfolding update_rdb_status
  Keeps-update_rdb_status st = Keeps-patch_status out _ _ _ (λ b. k.status _ _ _ b)

  Keeps-record_rdb_error : (e : OperatorError) → Keeps P (record_rdb_error out cr e)
  unfolding record_rdb_error
  Keeps-record_rdb_error e = search (keeps_rules, Keeps-update_rdb_status)

  pub Keeps-check_spec : Keeps P (check_spec out cr)
  unfolding check_spec
  Keeps-check_spec = search (keeps_rules, Keeps-record_rdb_error) depth 9

  pub Keeps-gather : (is_open : Bool) → Keeps P (gather out cr is_open)
  unfolding gather
  Keeps-gather is_open =
      search
        (
          keeps_rules,
          Keeps-get_role out k.reads,
          Keeps-get_project_id out k.reads,
          Keeps-record_rdb_error,
        )
        depth 12

  Keeps-sync_from : (pid : String) (r : Result RdbInstanceInfo) → Keeps P (sync_from out cr pid r)
  Keeps-sync_from pid (ok info) =
      search (keeps_rules, Keeps-update_rdb_status, Keeps-publish out _ _ _ (k.publication _ _ _))
        depth 9
  Keeps-sync_from pid (err e) =
      search (keeps_rules, Keeps-update_rdb_status, Keeps-record_rdb_error) depth 9

  pub Keeps-sync : AllowsOwn P IsOwn Method.get → (id pid : String) → Keeps P (sync out cr id pid)
  unfolding sync
  Keeps-sync a id pid =
      Keeps-with_client out k.reads (namespace_of cr.metadata) IsOwn own _ _
        (λ e. search (keeps_rules, Keeps-record_rdb_error))
        (λ c i.
          Keeps-bind _ _
            (Keeps-attempt _
              (Keeps-call_scaleway out _ (Keeps-get_rdb_instance out c cr.spec.region id (a c i))))
            (Keeps-sync_from pid))

  -- A DELETE that Scaleway refuses, or that does not reach it.
  pub Keeps-delete_refused : (e : OperatorError) → Keeps P (delete_from out cr (err e))
  Keeps-delete_refused e = search (keeps_rules, Keeps-update_rdb_status) depth 9

  -- The patch of the finalizers is the one step that is told apart.
  module _
      (finalizers : (kind : Kind) (ns name : String) (fs : List String) (b : Bool)
        → Adds P (patched_finalizers kind ns name fs b)) where
    pub Keeps-patch_rdb_finalizers : (fs : List String) → Keeps P (patch_rdb_finalizers out cr fs)
    unfolding patch_rdb_finalizers
    Keeps-patch_rdb_finalizers fs = Keeps-patch_finalizers out _ _ _ _ (λ b. finalizers _ _ _ _ b)

    pub Keeps-release : Keeps P (release out cr)
    unfolding release remove_rdb_finalizer
    Keeps-release = search (keeps_rules, Keeps-patch_rdb_finalizers) depth 9

    Keeps-delete_from : (r : Result (Unit {0})) → Keeps P (delete_from out cr r)
    Keeps-delete_from (ok u) = Keeps-release
    Keeps-delete_from (err e) = Keeps-delete_refused e

    Keeps-delete_with :
        AllowsOwn P IsOwn Method.delete
        → (id : String) (r : Result ScalewayClient) → ((c : ScalewayClient) → r ≡ ok c → IsOwn c)
        → Keeps P (delete_with out cr id r)
    Keeps-delete_with a id (ok c) i =
        Keeps-bind _ _
          (Keeps-attempt _ (
            Keeps-call_scaleway out _
              (Keeps-delete_rdb_instance out c cr.spec.region id (a c (i c refl)))))
          Keeps-delete_from
    Keeps-delete_with a id (err e) i = search (keeps_rules, Keeps-release) depth 9

    Keeps-delete_instance_branch :
        AllowsOwn P IsOwn Method.delete → (id : String) → Keeps P (delete_instance_branch out cr id)
    unfolding delete_instance_branch
    Keeps-delete_instance_branch a id = Keeps-measured out _ (
        Keeps-attempt_client out k.reads (namespace_of cr.metadata) IsOwn own _
          (Keeps-delete_with a id))

    -- Every decision but the creation keeps what GET, DELETE and the cluster's calls keep.
    pub Keeps-execute :
        AllowsOwn P IsOwn Method.get
        → AllowsOwn P IsOwn Method.delete
        → (pid : String) (d : RdbReconcileDecision) → d ≢ create_instance
        → Keeps P (execute out cr pid d)
    unfolding execute
    Keeps-execute g d pid skip_circuit_open h = Keeps-raise _
    Keeps-execute g d pid add_finalizer h = search (keeps_rules, Keeps-patch_rdb_finalizers) depth 9
    Keeps-execute g d pid block_read_only_role h =
        search (keeps_rules, Keeps-record_rdb_error) depth 9
    Keeps-execute g d pid create_instance h = absurd (h refl)
    Keeps-execute g d pid (sync_instance id) h = Keeps-measured out _ (Keeps-sync g id pid)
    Keeps-execute g d pid (delete_instance id) h = Keeps-delete_instance_branch d id
    Keeps-execute g d pid remove_finalizer h = Keeps-measured out _ Keeps-release

  module _ (g : AllowsOwn P IsOwn Method.get) (p : AllowsOwn P IsOwn Method.post)
      (password : (ns name : String) → Adds P (read_scaleway_secret ns name)) where
    Keeps-read_rdb_admin_password :
        (c : ScalewayClient) → IsOwn c → Keeps P (read_rdb_admin_password out cr c)
    unfolding read_rdb_admin_password
    Keeps-read_rdb_admin_password c i =
        Keeps-bind _ _ (Keeps-get_scaleway_secret out _ _ (password _ _)) (λ found.
          Keeps-bind _ _ (Keeps-or_raise _ _) (λ secret_cr.
            Keeps-bind _ _ (Keeps-or_raise _ _) (λ r.
              Keeps-bind _ _
                (Keeps-call_scaleway out _
                  (Keeps-access_secret_version out c secret_cr.spec.region r.0 r.1 (g c i)))
                (λ payload. Keeps-or_raise _ _))))

    Keeps-create_unless :
        (c : ScalewayClient) (pid : String) (o : Option String)
        → IsOwn c
        → Keeps P (create_unless out cr c pid o)
    Keeps-create_unless c pid (some id) i = Keeps-pure _
    Keeps-create_unless c pid none i = Keeps-bind _ _ (Keeps-read_rdb_admin_password c i) (λ pw.
        Keeps-bind _ _
          (Keeps-call_scaleway out _ (
            Keeps-create_rdb_instance out c cr.spec.region _ (namespace_of cr.metadata)
              cr.metadata.name (p c i)))
          (λ id. Keeps-pure _))

    Keeps-execute_create_rdb : (pid : String) → Keeps P (execute_create_rdb out cr pid)
    unfolding execute_create_rdb
    Keeps-execute_create_rdb pid =
        Keeps-own_client out k.reads (namespace_of cr.metadata) IsOwn own _ (λ c i.
          Keeps-bind _ _
            (Keeps-call_scaleway out _ (
              Keeps-find_rdb_instance_by_tags out c cr.spec.region pid (namespace_of cr.metadata)
                cr.metadata.name (g c i)))
            (λ o. Keeps-create_unless c pid o i))

    Keeps-create_from :
        (pid : String) (r : Result (String × Bool)) → Keeps P (create_from out cr pid r)
    Keeps-create_from pid (ok (id, b)) =
        Keeps-bind _ _ (Keeps-gets _) (λ now. search (keeps_rules, Keeps-update_rdb_status) depth 9)
    Keeps-create_from pid (err e) =
        Keeps-bind _ _ (Keeps-ignore _ (Keeps-update_rdb_status _)) (λ u. search keeps_rules)

    Keeps-any :
        FinalizersKeep P
        → AllowsOwn P IsOwn Method.delete
        → (pid : String) (x : RdbReconcileDecision) → Keeps P (execute out cr pid x)
    unfolding execute
    Keeps-any fk d pid create_instance =
        Keeps-bind _ _ (Keeps-is_cached_cr_current out k.reads _ _) (λ b.
          Keeps-if (not b) _ _ (Keeps-pure _) (
            Keeps-measured out _ (
              Keeps-bind _ _ (Keeps-attempt _ (Keeps-execute_create_rdb pid))
                (Keeps-create_from pid))))
    Keeps-any fk d pid skip_circuit_open = Keeps-execute fk g d pid skip_circuit_open (λ h. cc)
    Keeps-any fk d pid add_finalizer = Keeps-execute fk g d pid add_finalizer (λ h. cc)
    Keeps-any fk d pid block_read_only_role =
        Keeps-execute fk g d pid block_read_only_role (λ h. cc)
    Keeps-any fk d pid (sync_instance id) = Keeps-execute fk g d pid (sync_instance id) (λ h. cc)
    Keeps-any fk d pid (delete_instance id) =
        Keeps-execute fk g d pid (delete_instance id) (λ h. cc)
    Keeps-any fk d pid remove_finalizer = Keeps-execute fk g d pid remove_finalizer (λ h. cc)

    -- Every reconcile keeps what all of its calls keep.
    pub Keeps-reconcile :
        FinalizersKeep P → AllowsOwn P IsOwn Method.delete → Keeps P (reconcile_rdb_inner out cr)
    unfolding reconcile_rdb_inner
    Keeps-reconcile fk d = Keeps-bind _ _ (Keeps-circuit_open out) (λ b.
        Keeps-bind _ _ Keeps-check_spec
          (λ u. Keeps-bind _ _ (Keeps-gather b) (λ r. Keeps-any fk d r.1 _)))
