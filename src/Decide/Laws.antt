-- ===== src/Decide/Laws.antt =====
-- What the decisions of src/reconcilers.rs for `Instance`, `LoadBalancer` and `Rdb` allow.
use scaleway_operator.Prelude.{
  String, Bool, true, false, Option, none, some, ◌≡◌, ◌↔◌, is_some, arith,
}
use scaleway_operator.Decide.Servers.{
  role_allows_write, ReconcileInput, ReconcileDecision, decide_next_action, LbReconcileInput,
  LbReconcileDecision, decide_next_action_lb,
}
use scaleway_operator.Decide.Databases.{
  RdbReconcileInput, RdbReconcileDecision, decide_next_action_rdb,
}

-- The decisions that lead to the creation of a server.
abbrev pub creates : ReconcileDecision → Bool
creates (ReconcileDecision.verify_project_access p) = true
creates (ReconcileDecision.create_instance p) = true
creates _ = false

-- An instance is adopted or created exactly when it is not being deleted, the circuit is closed, the
-- finalizer is in place, no Scaleway id is known and the role allows writing.
pub decide_next_action-creates :
    (i : ReconcileInput)
    → (creates (decide_next_action i) ≡ true) ↔ (
        (i.deletion_requested ≡ false)
        × (i.circuit_open ≡ false)
        × (i.finalizer_present ≡ true)
        × (i.scaleway_id ≡ none)
        × (role_allows_write i.scaleway_role ≡ true))
unfolding decide_next_action
decide_next_action-creates i = (λ h. ground arith, λ h. ground arith)

-- A deletion comes before everything: whatever else holds, a known instance is deleted and an unknown
-- one only loses its finalizer; and no other input leads there.
pub decide_next_action-deletes :
    (i : ReconcileInput)
    → ((decide_next_action i ≡ ReconcileDecision.delete_instance)
        ↔ ((i.deletion_requested ≡ true) × (is_some i.scaleway_id ≡ true)))
      × ((decide_next_action i ≡ ReconcileDecision.remove_finalizer)
          ↔ ((i.deletion_requested ≡ true) × (i.scaleway_id ≡ none)))
unfolding decide_next_action
decide_next_action-deletes i =
    ((λ h. ground arith, λ h. ground arith), (λ h. ground arith, λ h. ground arith))

abbrev pub as_lb_input : ReconcileInput → LbReconcileInput
as_lb_input i = record {
  deletion_requested = i.deletion_requested;
  circuit_open = i.circuit_open;
  finalizer_present = i.finalizer_present;
  scaleway_role = i.scaleway_role;
  project_id = i.project_id;
  scaleway_id = i.scaleway_id;
  status_project_id = i.status_project_id;
}

abbrev pub as_lb_decision : ReconcileDecision → LbReconcileDecision
as_lb_decision ReconcileDecision.skip_circuit_open = LbReconcileDecision.skip_circuit_open
as_lb_decision ReconcileDecision.add_finalizer = LbReconcileDecision.add_lb_finalizer
as_lb_decision ReconcileDecision.block_read_only_role = LbReconcileDecision.block_read_only_role
as_lb_decision (ReconcileDecision.verify_project_access p) =
    LbReconcileDecision.verify_project_access_lb p
as_lb_decision (ReconcileDecision.create_instance p) = LbReconcileDecision.create_load_balancer p
as_lb_decision (ReconcileDecision.sync_instance id p) = LbReconcileDecision.sync_load_balancer id p
as_lb_decision ReconcileDecision.delete_instance = LbReconcileDecision.delete_load_balancer
as_lb_decision ReconcileDecision.remove_finalizer = LbReconcileDecision.remove_lb_finalizer

decide_next_action_lb-eq :
    (i : ReconcileInput)
    → decide_next_action_lb (as_lb_input i) ≡ as_lb_decision (decide_next_action i)
unfolding decide_next_action decide_next_action_lb
decide_next_action_lb-eq i = ground arith

-- A database instance is deleted in Scaleway exactly when its deletion is requested, its id is known
-- and the policy is not to retain it; the id deleted is the known one.
pub decide_next_action_rdb-deletes :
    (i : RdbReconcileInput) (id : String)
    → (decide_next_action_rdb i ≡ RdbReconcileDecision.delete_instance id)
      ↔ ((i.deletion_requested ≡ true) × (i.retain_on_delete ≡ false) × (i.scaleway_id ≡ some id))
unfolding decide_next_action_rdb
decide_next_action_rdb-deletes i id = (λ h. ground arith, λ h. ground arith)

abbrev pub as_rdb_input : ReconcileInput → Bool → RdbReconcileInput
as_rdb_input i retain = record {
  deletion_requested = i.deletion_requested;
  circuit_open = i.circuit_open;
  finalizer_present = i.finalizer_present;
  role_allows_write = role_allows_write i.scaleway_role;
  retain_on_delete = retain;
  scaleway_id = i.scaleway_id;
}

-- The action on a database that answers an action on an instance with the given id and policy.
abbrev pub as_rdb_decision : Option String → Bool → ReconcileDecision → RdbReconcileDecision
as_rdb_decision id retain ReconcileDecision.skip_circuit_open =
    RdbReconcileDecision.skip_circuit_open
as_rdb_decision id retain ReconcileDecision.add_finalizer = RdbReconcileDecision.add_finalizer
as_rdb_decision id retain ReconcileDecision.block_read_only_role =
    RdbReconcileDecision.block_read_only_role
as_rdb_decision id retain (ReconcileDecision.verify_project_access p) =
    RdbReconcileDecision.create_instance
as_rdb_decision id retain (ReconcileDecision.create_instance p) =
    RdbReconcileDecision.create_instance
as_rdb_decision id retain (ReconcileDecision.sync_instance i p) =
    RdbReconcileDecision.sync_instance i
as_rdb_decision (some i) false ReconcileDecision.delete_instance =
    RdbReconcileDecision.delete_instance i
as_rdb_decision (some i) true ReconcileDecision.delete_instance =
    RdbReconcileDecision.remove_finalizer
as_rdb_decision none retain ReconcileDecision.delete_instance =
    RdbReconcileDecision.remove_finalizer
as_rdb_decision id retain ReconcileDecision.remove_finalizer = RdbReconcileDecision.remove_finalizer

decide_next_action_rdb-eq :
    (i : ReconcileInput) (retain : Bool)
    → decide_next_action_rdb (as_rdb_input i retain)
      ≡ as_rdb_decision i.scaleway_id retain (decide_next_action i)
unfolding decide_next_action decide_next_action_rdb
decide_next_action_rdb-eq i retain = ground arith

-- At the same facts the load balancer's decision is the instance's, under the names of the load balancer's
-- actions, and so is the database's, but for the retaining policy, under which a deletion only removes the
-- finalizer.
pub decide_next_actions-eq :
    (i : ReconcileInput) (retain : Bool)
    → (decide_next_action_lb (as_lb_input i) ≡ as_lb_decision (decide_next_action i))
      × (decide_next_action_rdb (as_rdb_input i retain)
          ≡ as_rdb_decision i.scaleway_id retain (decide_next_action i))
decide_next_actions-eq i retain = (decide_next_action_lb-eq i, decide_next_action_rdb-eq i retain)
