-- ===== src/Reconcile/Instances/Rounds/Deletion.antt =====
-- src/reconcilers.rs, `reconcile_instance`: the reconcile that deletes the instance.
use scaleway_operator.Context.Breaker.{closed}
use scaleway_operator.Decide.Servers.{ReconcileInput, decide_next_action, delete_instance}
use scaleway_operator.Prelude.{List, String, arith, false, none, refl, some, true, ℕ, ◌∷◌, ◌≡◌}
use scaleway_operator.Reconcile.Instances.Handler.{
  execute, gather, input_of, reconcile_instance, reconcile_instance_inner,
}
use scaleway_operator.Reconcile.Instances.Rounds.{creds_read, done}
use scaleway_operator.Reconcile.Instances.Steps.{
  delete_known, handle_deletion, known_id, old_state, remove_finalizer_patch, status_of,
}
use scaleway_operator.Reconcile.Shared.{
  Action, await_change, deletion_requested, instance_finalizer, namespace_of, without_finalizer,
}
use scaleway_operator.Reconcile.Shared.Reads.{
  Grants, circuit_open_runs, get_namespace_client_runs, patch_finalizers_runs, client_of,
}
use scaleway_operator.Resources.{instance_kind}
use scaleway_operator.Resources.Instances.{Instance}
use scaleway_operator.Runtime.Calls.{note, note_success, set_outcome, update_metrics}
use scaleway_operator.Runtime.Exec.{Result, ok, pure, ◌>>=◌}
use scaleway_operator.Runtime.Metrics.{
  dec_instance, dec_instances, observe_duration, record_duration,
}
use scaleway_operator.Runtime.Outcomes.{
  attempt_runs, bind_runs, call_scaleway_runs, measured_runs, on_error_runs,
}
use scaleway_operator.Runtime.World.{Event, Outside, World, patched_finalizers, sent}
use scaleway_operator.Scaleway.Answers.{Answers, delete_instance_runs, removal}

module _ (out : Outside) (cr : Instance) (g : Grants out (namespace_of cr.metadata)) (n : ℕ)
    (w : World) (calm : w.circuit_breaker ≡ closed n)
    (dying : deletion_requested cr.metadata ≡ true) (id : String) (base : String)
    (at_base : w.scaleway_base_url ≡ base) (known : known_id cr ≡ some id) {status : ℕ}
    {body : (out.json).Value}
    (removed : Answers out (removal out (client_of g.token base) cr.spec.zone id) status body) where
  -- The calls of a deletion, the newest first.
  abbrev pub deletion_calls : List Event
  deletion_calls =
      patched_finalizers instance_kind (namespace_of cr.metadata) cr.metadata.name
        (without_finalizer instance_finalizer cr.metadata) true
      ∷ sent (removal out (client_of g.token base) cr.spec.zone id) (some status)
      ∷ creds_read out cr g
      ∷ w.log

  gather_nothing : (w' : World) → gather out cr false w' ≡ (ok ("", ""), w')
  unfolding gather pure
  gather_nothing w' = rw dying

  abbrev asked : World
  asked = record w { circuit_breaker = closed n }

  delete_known_runs : delete_known out cr (record asked { outcome = none }) ≡ (
    ok tt,
    note_success out (
        note
          (sent (removal out (client_of g.token base) cr.spec.zone id) (some status))
          (note (creds_read out cr g) (record asked { outcome = none }))),
  )
  unfolding delete_known
  delete_known_runs = rw known (
      bind_runs _ _
        (attempt_runs _ (get_namespace_client_runs out _ g.token base g.credentials _ at_base))
        (on_error_runs _ _ (call_scaleway_runs _ out (delete_instance_runs out _ _ _ removed _))))

  delete_decided :
      (i : ReconcileInput)
      → i.deletion_requested ≡ true
      → (id : String) → i.scaleway_id ≡ some id
      → decide_next_action i ≡ delete_instance
  unfolding decide_next_action
  delete_decided i h id e = ground arith

  deletion_inner :
      {r : Result Action × World}
      → (status_of cr).scaleway_id ≡ some id
      → execute out cr "" delete_instance asked ≡ r
      → reconcile_instance_inner out cr w ≡ r
  unfolding reconcile_instance_inner
  deletion_inner recorded h = bind_runs _ _ (circuit_open_runs out w n calm) (
      bind_runs _ _ (gather_nothing asked)
        (rw (delete_decided (input_of out cr false "" "") dying id recorded) h))

  deletion_done :
      {a : Action} {w1 : World}
      → (status_of cr).scaleway_id ≡ some id
      → execute out cr "" delete_instance asked ≡ (ok a, w1)
      → reconcile_instance out cr w ≡ (ok a, done out cr g w1)
  unfolding reconcile_instance ◌>>=◌
  deletion_done recorded h = rw (deletion_inner recorded h)

  pub delete_runs :
      (status_of cr).scaleway_id ≡ some id
      → (w1 : World) × (reconcile_instance out cr w ≡ (ok await_change, w1))
        × (w1.log ≡ deletion_calls)
        × (w1.metrics
            ≡ observe_duration "Deleted"
              ∷ dec_instance cr.spec.zone cr.spec.instance_type (old_state cr)
              ∷ w.metrics)
  unfolding execute handle_deletion remove_finalizer_patch update_metrics set_outcome pure
      dec_instances record_duration
  delete_runs recorded = (
    _,
    deletion_done recorded (
        measured_runs _ out _ (
          bind_runs _ _ delete_known_runs (
            bind_runs _ _ (on_error_runs _ _ (patch_finalizers_runs out g.accepts _ _ _ _ _))
              (bind_runs _ _ refl (bind_runs _ _ refl refl))))),
    refl,
    refl,
  )
