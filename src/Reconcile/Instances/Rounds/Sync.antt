-- ===== src/Reconcile/Instances/Rounds/Sync.antt =====
-- src/reconcilers.rs, `reconcile_instance`: the reconcile that follows the instance.
use scaleway_operator.Context.Breaker.{closed, record_scaleway_success}
use scaleway_operator.Decide.Servers.{decide_next_action, sync_instance}
use scaleway_operator.Prelude.{List, String, false, none, refl, some, true, ℕ, ◌∷◌, ◌≡◌}
use scaleway_operator.Reconcile.Instances.Handler.{execute, input_of, reconcile_instance}
use scaleway_operator.Reconcile.Instances.Rounds.{
  Serves, calls_before_reading, creds_read, facts_read, prepare_runs, reconcile_done,
}
use scaleway_operator.Reconcile.Instances.Steps.{
  old_state, status_of, sync, sync_known, update_status, validate_spec,
}
use scaleway_operator.Reconcile.Shared.{
  deletion_requested, finalizer_present, instance_finalizer, namespace_of, requeue,
}
use scaleway_operator.Reconcile.Shared.Reads.{Grants, patch_status_runs, SameContext, client_of}
use scaleway_operator.Resources.Instances.{Instance, InstanceStatus}
use scaleway_operator.Runtime.Calls.{set_outcome, update_metrics}
use scaleway_operator.Runtime.Exec.{gets, ok, pure}
use scaleway_operator.Runtime.Metrics.{
  dec_instance, dec_instances, inc_instance, inc_instances, observe_duration, record_duration,
}
use scaleway_operator.Runtime.Outcomes.{attempt_runs, bind_runs, call_scaleway_runs, measured_runs}
use scaleway_operator.Runtime.World.{
  Event, Outside, ScalewayClient, World, of_instance, patched_status, sent,
}
use scaleway_operator.Scaleway.Answers.{get_instance_runs, info_of, reading}
use scaleway_operator.Scaleway.Info.{InstanceInfo}

module _ (out : Outside) (cr : Instance) (g : Grants out (namespace_of cr.metadata)) (n : ℕ)
    (w : World) (calm : w.circuit_breaker ≡ closed n)
    (alive : deletion_requested cr.metadata ≡ false) (valid : validate_spec cr.spec ≡ ok tt)
    (present : finalizer_present instance_finalizer cr.metadata ≡ true) (base : String)
    (at_base : w.scaleway_base_url ≡ base) (operator : ScalewayClient)
    (as_operator : w.scaleway_client ≡ operator)
    (s : Serves out cr.spec g.pid g.token base operator) where
  abbrev own : ScalewayClient
  own = client_of g.token base

  sync_decided :
      (status_of cr).scaleway_id ≡ some s.id
      → decide_next_action (input_of out cr false g.role g.pid) ≡ sync_instance s.id g.pid
  unfolding decide_next_action
  sync_decided known = rw (alive, present, known)

  -- What a reconcile writes of what it has read.
  abbrev pub synced_status : InstanceStatus → InstanceInfo → InstanceStatus
  synced_status status info = record status {
    state = info.state;
    public_ip = info.public_ip;
    project_id = some g.pid;
    sync_state = "Synced";
    error_message = none;
  }

  abbrev pub info : InstanceInfo
  info = info_of out (s.reading_body (calls_before_reading out cr g w.log)) s.id

  -- The calls of a synchronisation, the newest first.
  abbrev pub sync_calls : List Event
  sync_calls =
      patched_status (namespace_of cr.metadata) cr.metadata.name
        (of_instance (synced_status (status_of cr) info)) true
      ∷ sent (reading out own cr.spec.zone s.id g.pid)
          (some (s.reading_status (calls_before_reading out cr g w.log)))
      ∷ creds_read out cr g
      ∷ (facts_read out cr g w).log

  pub sync_runs :
      (status_of cr).scaleway_id ≡ some s.id
      → (w1 : World) × (reconcile_instance out cr w ≡ (ok (requeue 30), w1))
        × (w1.log ≡ sync_calls)
        × (w1.metrics
            ≡ observe_duration "Synced"
              ∷ inc_instance cr.spec.zone cr.spec.instance_type info.state
              ∷ dec_instance cr.spec.zone cr.spec.instance_type (old_state cr)
              ∷ w.metrics)
        × SameContext w w1
  unfolding execute sync sync_known pure gets update_metrics set_outcome update_status inc_instances
      dec_instances record_scaleway_success record_duration
  sync_runs known = (
    _,
    reconcile_done out cr g n w calm alive (sync_decided known) (
        measured_runs _ out _ (
          bind_runs _ _ (prepare_runs out cr g _ base at_base valid) (
            bind_runs _ _
              (attempt_runs _ (
                call_scaleway_runs _ out
                  (get_instance_runs out _ _ _ _ _ (s.reads _) (s.read_named _))))
              (bind_runs _ _ refl (
                bind_runs _ _ refl (
                  bind_runs _ _ refl
                    (bind_runs _ _ (patch_status_runs out g.accepts _ _ _ _) refl))))))),
    refl,
    refl,
    record { client = refl; base_url = refl; failures = 0; closed_breaker = refl },
  )
