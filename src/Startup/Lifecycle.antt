-- ===== src/Startup/Lifecycle.antt =====
-- src/main.rs and src/reconcilers.rs: the life of an instance under its controller, which hands the
-- reconciler the resource as its patches have left it.
pub mod Converges
use scaleway_operator.Context.Breaker.{closed}
use scaleway_operator.Context.Breaker.Laws.{run}
use scaleway_operator.Prelude.{
  List, Option, String, [], ap, contains, eq_refl, false, get_or, none, refl, some, str_eq, suc,
  true, zero, ℕ, ◌++◌, ◌∙◌, ◌∷◌, ◌≡◌,
}
use scaleway_operator.Reconcile.Instances.Handler.{reconcile_instance}
use scaleway_operator.Reconcile.Instances.Rounds.{Serves, calls_before_reading, finalizer_runs}
use scaleway_operator.Reconcile.Instances.Rounds.Creation.{create_runs}
use scaleway_operator.Reconcile.Instances.Rounds.Sync.{sync_runs}
use scaleway_operator.Reconcile.Instances.Steps.{validate_spec}
use scaleway_operator.Reconcile.Shared.{
  Action, deletion_requested, instance_finalizer, namespace_of,
}
use scaleway_operator.Reconcile.Shared.Counts.{is_post}
use scaleway_operator.Reconcile.Shared.Patched.{latest_finalizers, latest_status}
use scaleway_operator.Reconcile.Shared.Reads.{Grants}
use scaleway_operator.Resources.{instance_kind}
use scaleway_operator.Resources.Instances.{Instance, InstanceStatus, default_instance_status}
use scaleway_operator.Runtime.Exec.{ok}
use scaleway_operator.Runtime.Gauges.{counting, gauge, gauge-dec, gauge-inc}
use scaleway_operator.Runtime.Keeps.Rules.{count_events}
use scaleway_operator.Runtime.Metrics.{Metrics, dec_instance}
use scaleway_operator.Runtime.World.{
  Event, Outside, ScalewayClient, StatusPatch, World, of_instance,
}
use scaleway_operator.Scaleway.Answers.{info_of}
use scaleway_operator.Scaleway.Info.{InstanceInfo}
use scaleway_operator.Startup.{an_instance, control, reconcile, settle}

abbrev pub read_instance : StatusPatch → Option InstanceStatus
read_instance (of_instance st) = some st
read_instance _ = none

module _ (out : Outside) (cr : Instance) where
  -- The resource as its patches have left it.
  abbrev pub current : List Event → Instance
  current log =
      let m = cr.metadata in
      record cr {
        metadata = record m { finalizers = latest_finalizers m instance_kind log };
        status = latest_status m read_instance cr.status log;
      }

  -- The resource, once a user has deleted it.
  abbrev pub doomed : ℕ → List Event → Instance
  doomed t log =
      let c = current log in
      let m = c.metadata in record c { metadata = record m { deletion_timestamp = some t } }

  -- So many reconciles, one after the other.
  unfoldable pub rounds : ℕ → World → World
  rounds zero w = w
  rounds (suc n) w = let w' = rounds n w in (control out (an_instance (current w'.log)) w').1

-- The status that a creation writes.
abbrev pub fresh_status : String → String → ℕ → InstanceStatus
fresh_status id pid now =
    let status = default_instance_status in
    record status {
      scaleway_id = some id;
      state = "creating";
      created_at = some now;
      sync_state = "Syncing";
      error_message = none;
      project_id = some pid;
    }

-- A status after a synchronisation.
abbrev pub synced : InstanceInfo → String → InstanceStatus → InstanceStatus
synced info pid status = record status {
  state = info.state;
  public_ip = info.public_ip;
  project_id = some pid;
  sync_state = "Synced";
  error_message = none;
}

module _ (out : Outside) (cr : Instance) (g : Grants out (namespace_of cr.metadata))
    (alive : deletion_requested cr.metadata ≡ false) (valid : validate_spec cr.spec ≡ ok tt)
    (base : String) (operator : ScalewayClient)
    (s : Serves out cr.spec g.pid g.token base operator) where
  -- What a reconcile leaves: the clients, a closed breaker, the resource, the number of POSTs to Scaleway
  -- and the gauges, which hold one more than before for an instance of this status.
  pub record Stage (before : Metrics) (w : World) (fs : Option (List String))
      (st : Option InstanceStatus) (posts : ℕ) : Type 0 where
    pub as_operator : w.scaleway_client ≡ operator
    pub at_base : w.scaleway_base_url ≡ base
    pub failures : ℕ
    pub calm : w.circuit_breaker ≡ closed failures
    pub finalizers : latest_finalizers cr.metadata instance_kind w.log ≡ fs
    pub status : latest_status cr.metadata read_instance cr.status w.log ≡ st
    pub posted : count_events is_post w.log ≡ posts
    pub gauges :
        (l : String × String × String) → gauge l w.metrics ≡ gauge l (counting cr.spec st before)

  abbrev round : World → World
  round w = (control out (an_instance (current out cr w.log)) w).1

  controlled :
      (w w1 : World) (a : Action)
      → reconcile_instance out (current out cr w.log) w ≡ (ok a, w1)
      → round w ≡ w1
  unfolding control reconcile
  controlled w w1 a h = ap (λ p. (settle (an_instance (current out cr w.log)) p).1) h

  own_namespace : str_eq (namespace_of cr.metadata) (namespace_of cr.metadata) ≡ true
  own_namespace = eq_refl _

  own_name : str_eq cr.metadata.name cr.metadata.name ≡ true
  own_name = eq_refl _

  module _ (before : Metrics) (posts : ℕ) where
    pub finalizer_round :
        (w : World) (fs : Option (List String))
        → Stage before w fs none posts
        → contains (get_or [] fs) instance_finalizer ≡ false
        → Stage before (round w) (some (get_or [] fs ++ instance_finalizer ∷ [])) none posts
    finalizer_round w fs stage absent =
        let now = current out cr w.log in
        let run = controlled w _ _ (
          finalizer_runs out now g stage.failures w stage.calm alive
            (rw stage.finalizers absent)) in
        rw run (record {
          as_operator = stage.as_operator;
          at_base = stage.at_base;
          failures = stage.failures;
          calm = refl;
          finalizers = rw (own_namespace, own_name, stage.finalizers);
          status = stage.status;
          posted = stage.posted;
          gauges = stage.gauges;
        })

    pub creation_round :
        (w : World) (fs : List String)
        → contains fs instance_finalizer ≡ true
        → Stage before w (some fs) none posts
        → (now : ℕ) × Stage before
            (round w)
            (some fs)
            (some (fresh_status s.id g.pid now))
            (suc posts)
    creation_round w fs there stage =
        let now = current out cr w.log in
        let (w1, at, run, calls, metrics, kept) =
          create_runs out now g stage.failures w stage.calm alive valid (rw stage.finalizers there)
            base stage.at_base operator stage.as_operator s (rw stage.status) (rw stage.status) in
        (
          at,
          rw (controlled w w1 _ run) (record {
            as_operator = kept.client ∙ stage.as_operator;
            at_base = kept.base_url ∙ stage.at_base;
            failures = kept.failures;
            calm = kept.closed_breaker;
            finalizers = rw calls stage.finalizers;
            status = rw (calls, own_namespace, own_name, stage.status);
            posted = rw calls (ap suc stage.posted);
            gauges = λ l. rw metrics (gauge-inc l _ _ _ w.metrics before (stage.gauges l));
          }),
        )

    pub sync_round :
        (w : World) (fs : List String) (st : InstanceStatus)
        → contains fs instance_finalizer ≡ true
        → Stage before w (some fs) (some st) posts
        → st.scaleway_id ≡ some s.id
        → Stage before
            (round w)
            (some fs)
            (some (
              synced
                (info_of out (s.reading_body (calls_before_reading out cr g w.log)) s.id)
                g.pid
                st))
            posts
    sync_round w fs st there stage known =
        let now = current out cr w.log in
        let (w1, run, calls, metrics, kept) =
          sync_runs out now g stage.failures w stage.calm alive valid (rw stage.finalizers there)
            base stage.at_base operator stage.as_operator s (rw stage.status known) in
        rw (controlled w w1 _ run) (record {
          as_operator = kept.client ∙ stage.as_operator;
          at_base = kept.base_url ∙ stage.at_base;
          failures = kept.failures;
          calm = kept.closed_breaker;
          finalizers = rw calls stage.finalizers;
          status = rw (calls, own_namespace, own_name, stage.status);
          posted = rw calls stage.posted;
          gauges = λ l.
              rw (metrics, stage.status)
                (gauge-inc l _ _ _
                  (dec_instance cr.spec.zone cr.spec.instance_type st.state ∷ w.metrics) before
                  (gauge-dec l _ _ st.state w.metrics before (stage.gauges l)));
        })
