-- ===== src/Reconcile/Instances/Rounds/Creation.antt =====
-- src/reconcilers.rs, `reconcile_instance`: the reconcile that creates the instance.
use scaleway_operator.Context.Breaker.{closed, record_scaleway_success}
use scaleway_operator.Decide.Servers.{decide_next_action, verify_project_access}
use scaleway_operator.Prelude.{List, String, false, none, refl, some, true, ℕ, ◌∷◌, ◌≡◌}
use scaleway_operator.Reconcile.Instances.Handler.{execute, input_of, reconcile_instance}
use scaleway_operator.Reconcile.Instances.Rounds.{
  Serves, creds_read, facts_read, prepare_runs, reconcile_done,
}
use scaleway_operator.Reconcile.Instances.Steps.{
  adopt_or_create, created_status, execute_create_instance, status_of, update_status, validate_spec,
}
use scaleway_operator.Reconcile.Shared.{
  deletion_requested, finalizer_present, instance_finalizer, namespace_of, requeue,
}
use scaleway_operator.Reconcile.Shared.Reads.{Grants, patch_status_runs, SameContext, client_of}
use scaleway_operator.Resources.Instances.{Instance}
use scaleway_operator.Runtime.Calls.{set_outcome, update_metrics}
use scaleway_operator.Runtime.Exec.{gets, ok, pure}
use scaleway_operator.Runtime.Metrics.{
  inc_instance, inc_instances, observe_duration, record_duration,
}
use scaleway_operator.Runtime.Outcomes.{
  bind_runs, call_scaleway_runs, gets_runs, measured_runs, on_error_runs,
}
use scaleway_operator.Runtime.World.{
  Event, Outside, ScalewayClient, World, of_instance, patched_status, sent,
}
use scaleway_operator.Scaleway.Answers.{
  access, create_instance_runs, creation, find_instance_by_name_runs, search_by_name,
  verify_project_access_runs,
}

module _ (out : Outside) (cr : Instance) (g : Grants out (namespace_of cr.metadata)) (n : ℕ)
    (w : World) (calm : w.circuit_breaker ≡ closed n)
    (alive : deletion_requested cr.metadata ≡ false) (valid : validate_spec cr.spec ≡ ok tt)
    (present : finalizer_present instance_finalizer cr.metadata ≡ true) (base : String)
    (at_base : w.scaleway_base_url ≡ base) (operator : ScalewayClient)
    (as_operator : w.scaleway_client ≡ operator)
    (s : Serves out cr.spec g.pid g.token base operator) where
  abbrev own : ScalewayClient
  own = client_of g.token base

  create_decided :
      (status_of cr).scaleway_id ≡ none
      → (status_of cr).project_id ≡ none
      → decide_next_action (input_of out cr false g.role g.pid) ≡ verify_project_access g.pid
  unfolding decide_next_action
  create_decided no_id no_project = rw (alive, present, no_id, g.may_write, no_project)

  -- The calls of a creation, the newest first.
  abbrev pub creation_calls : ℕ → List Event
  creation_calls now =
      patched_status (namespace_of cr.metadata) cr.metadata.name
        (of_instance (created_status out cr s.id g.pid now)) true
      ∷ sent (creation out own cr.spec g.pid) (some s.creation_status)
      ∷ sent (search_by_name out own cr.spec.zone cr.spec.name g.pid) (some s.search_status)
      ∷ sent (access out operator g.pid) (some s.access_status)
      ∷ creds_read out cr g
      ∷ (facts_read out cr g w).log

  pub create_runs :
      (status_of cr).scaleway_id ≡ none
      → (status_of cr).project_id ≡ none
      → (w1 : World) × (now : ℕ) × (reconcile_instance out cr w ≡ (ok (requeue 10), w1))
        × (w1.log ≡ creation_calls now)
        × (w1.metrics
            ≡ observe_duration "Created"
              ∷ inc_instance cr.spec.zone cr.spec.instance_type "creating"
              ∷ w.metrics)
        × SameContext w w1
  unfolding execute execute_create_instance adopt_or_create pure gets update_metrics set_outcome
      update_status inc_instances record_scaleway_success record_duration
  create_runs no_id no_project = (
    _,
    _,
    reconcile_done out cr g n w calm alive (create_decided no_id no_project) (
        measured_runs _ out _ (
          bind_runs _ _ (prepare_runs out cr g _ base at_base valid) (
            bind_runs _ _ (gets_runs (λ (x : World). x.scaleway_client) as_operator) (
              bind_runs _ _
                (call_scaleway_runs _ out (verify_project_access_runs out _ g.pid s.has_access _))
                (bind_runs _ _
                  (bind_runs _ _
                    (find_instance_by_name_runs out _ _ _ _ none s.searches s.unknown _)
                    (bind_runs _ _
                      (on_error_runs _ _ (
                        call_scaleway_runs _ out
                          (create_instance_runs out _ _ _ s.id s.creates s.named _)))
                      refl))
                  (bind_runs _ _ refl (
                    bind_runs _ _ refl (
                      bind_runs _ _ refl
                        (bind_runs _ _ (patch_status_runs out g.accepts _ _ _ _) refl))))))))),
    refl,
    refl,
    record { client = refl; base_url = refl; failures = 0; closed_breaker = refl },
  )
