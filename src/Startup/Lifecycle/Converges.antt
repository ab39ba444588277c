-- ===== src/Startup/Lifecycle/Converges.antt =====
-- src/main.rs and src/reconcilers.rs: an instance from its first reconcile to its last.
use scaleway_operator.Context.Breaker.{closed}
use scaleway_operator.Context.Breaker.Laws.{run}
use scaleway_operator.Prelude.{
  List, Option, String, [], ap, contains, false, get_or, none, refl, some, suc, true, zero, ℕ, ◌∙◌,
  ◌∷◌, ◌≡◌,
}
use scaleway_operator.Reconcile.Instances.Rounds.{Serves, calls_before_reading, creds_read}
use scaleway_operator.Reconcile.Instances.Rounds.Deletion.{delete_runs}
use scaleway_operator.Reconcile.Instances.Steps.{validate_spec}
use scaleway_operator.Reconcile.Shared.{
  await_change, deletion_requested, finalizer_present, instance_finalizer, namespace_of,
  with_finalizer, without_finalizer,
}
use scaleway_operator.Reconcile.Shared.Counts.{is_post}
use scaleway_operator.Reconcile.Shared.Patched.{
  contains-append, latest_finalizers, latest_status, remove-append,
}
use scaleway_operator.Reconcile.Shared.Reads.{Grants, client_of}
use scaleway_operator.Resources.{instance_kind}
use scaleway_operator.Resources.Instances.{Instance, InstanceStatus}
use scaleway_operator.Runtime.Exec.{ok}
use scaleway_operator.Runtime.Gauges.{gauge, gauge-dec}
use scaleway_operator.Runtime.Keeps.Rules.{count_events}
use scaleway_operator.Runtime.Metrics.{inc_instance}
use scaleway_operator.Runtime.World.{
  Event, Outside, ScalewayClient, World, patched_finalizers, sent,
}
use scaleway_operator.Scaleway.Answers.{Answers, info_of, removal}
use scaleway_operator.Scaleway.Info.{InstanceInfo}
use scaleway_operator.Startup.{an_instance, control, reconcile, settle}
use scaleway_operator.Startup.Lifecycle.{
  Stage, creation_round, current, doomed, finalizer_round, fresh_status, read_instance, rounds,
  sync_round, synced,
}

module _ (out : Outside) (cr : Instance) (g : Grants out (namespace_of cr.metadata))
    (alive : deletion_requested cr.metadata ≡ false) (valid : validate_spec cr.spec ≡ ok tt)
    (base : String) (operator : ScalewayClient) (s : Serves out cr.spec g.pid g.token base operator)
    (w : World) (failures : ℕ) (calm : w.circuit_breaker ≡ closed failures)
    (at_base : w.scaleway_base_url ≡ base) (as_operator : w.scaleway_client ≡ operator)
    (unpatched : latest_finalizers cr.metadata instance_kind w.log ≡ cr.metadata.finalizers)
    (unwritten : latest_status cr.metadata read_instance cr.status w.log ≡ none)
    (absent : finalizer_present instance_finalizer cr.metadata ≡ false) where
  abbrev At : ℕ → Option (List String) → Option InstanceStatus → ℕ → Type 0
  At n fs st posts =
      Stage out cr g alive valid base operator s w.metrics (rounds out cr n w) fs st posts

  abbrev before : ℕ
  before = count_events is_post w.log

  abbrev fs : List String
  fs = with_finalizer instance_finalizer cr.metadata

  -- What the reconcile after so many others reads of the instance.
  abbrev pub info_read : ℕ → InstanceInfo
  info_read n =
      info_of out (s.reading_body (calls_before_reading out cr g (rounds out cr n w).log)) s.id

  start : At 0 cr.metadata.finalizers none before
  unfolding rounds
  start = record {
    as_operator = as_operator;
    at_base = at_base;
    failures = failures;
    calm = calm;
    finalizers = unpatched;
    status = unwritten;
    posted = refl;
    gauges = λ l. refl;
  }

  there : contains fs instance_finalizer ≡ true
  there = contains-append (get_or [] cr.metadata.finalizers) instance_finalizer

  finalized : At 1 (some fs) none before
  unfolding rounds
  finalized = finalizer_round out cr g alive valid base operator s w.metrics before w _ start absent

  created_at : (now : ℕ) × At 2 (some fs) (some (fresh_status s.id g.pid now)) (suc before)
  unfolding rounds
  created_at =
      creation_round out cr g alive valid base operator s w.metrics before (rounds out cr 1 w) fs
        there finalized

  followed :
      (k : ℕ)
      → At
          (suc (suc (suc k)))
          (some fs)
          (some (synced (info_read (suc (suc k))) g.pid (fresh_status s.id g.pid created_at.0)))
          (suc before)
  unfolding rounds
  followed zero =
      sync_round out cr g alive valid base operator s w.metrics (suc before) (rounds out cr 2 w) fs
        _ there created_at.1 refl
  followed (suc k) =
      sync_round out cr g alive valid base operator s w.metrics (suc before)
        (rounds out cr (suc (suc (suc k))) w) fs _ there (followed k) refl

  -- A controller that hands over an instance that is new, valid and not being deleted, again and again,
  -- has after its third reconcile and after each further one a status that says Synced, whatever the state
  -- is, and that holds the id of what was created and the state and the address which that very reconcile
  -- has read; these may be others at each read. One POST was made in all, and the gauges hold one more than
  -- before, for the state read last. The cluster grants a role that may write, a project and credentials,
  -- and accepts all patches; Scaleway lets the project be read, finds nothing of the name, and answers the
  -- creation and every read with a success that names the id; and the breaker is closed.
  pub instance_converges :
      (now : ℕ) × ((k : ℕ)
        → let w' = rounds out cr (suc (suc (suc k))) w in
          ((current out cr w'.log).status
            ≡ some (synced (info_read (suc (suc k))) g.pid (fresh_status s.id g.pid now)))
          × ((current out cr w'.log).metadata.finalizers
              ≡ some (with_finalizer instance_finalizer cr.metadata))
          × (count_events is_post w'.log ≡ suc (count_events is_post w.log))
          × ((l : String × String × String)
              → gauge l w'.metrics
                ≡ gauge l (
                    inc_instance cr.spec.zone cr.spec.instance_type (info_read (suc (suc k))).state
                    ∷ w.metrics)))
  instance_converges = (
    created_at.0,
    λ k. let stage = followed k in (stage.status, stage.finalizers, stage.posted, stage.gauges),
  )

  -- An instance as in `instance_converges`, whose state may change from read to read, deleted after its
  -- third reconcile or after any further one: where Scaleway accepts the DELETE, the next reconcile sends it for the id that was created, with the
  -- namespace's token, and then writes the finalizers as they were before the first reconcile; the gauges
  -- are as they were then, too.
  pub instance_lifecycle :
      (k t : ℕ) {status : ℕ} {body : (out.json).Value}
      → Answers out (removal out (client_of g.token base) cr.spec.zone s.id) status body
      → (w1 : World) × (control out
            (an_instance (doomed out cr t (rounds out cr (suc (suc (suc k))) w).log))
            (rounds out cr (suc (suc (suc k))) w)
          ≡ (await_change, w1))
        × ((earlier : List Event) × (w1.log
              ≡ patched_finalizers instance_kind
                  (namespace_of cr.metadata)
                  cr.metadata.name
                  (get_or [] cr.metadata.finalizers)
                  true
                ∷ sent (removal out (client_of g.token base) cr.spec.zone s.id) (some status)
                ∷ earlier))
        × ((l : String × String × String) → gauge l w1.metrics ≡ gauge l w.metrics)
  unfolding control reconcile
  instance_lifecycle k t {status} removed =
      let w' = rounds out cr (suc (suc (suc k))) w in
      let stage = followed k in
      let now = doomed out cr t w'.log in
      let earlier = creds_read out now g ∷ w'.log in
      let kept : without_finalizer instance_finalizer now.metadata
          ≡ get_or [] cr.metadata.finalizers =
        rw stage.finalizers (remove-append _ instance_finalizer absent) in
      let (w1, run, calls, metrics) =
        delete_runs out now g stage.failures w' stage.calm refl s.id base stage.at_base
          (rw stage.status) removed (rw stage.status) in
      (
        w1,
        ap (settle (an_instance now)) run,
        (
          earlier,
          calls
              ∙ ap
                  (λ l.
                    patched_finalizers instance_kind (namespace_of cr.metadata) cr.metadata.name l
                      true
                    ∷ sent (removal out (client_of g.token base) cr.spec.zone s.id) (some status)
                    ∷ earlier)
                  kept,
        ),
        λ l. rw (metrics, stage.status) (gauge-dec l _ _ _ w'.metrics w.metrics (stage.gauges l)),
      )
