-- ===== src/Reconcile/Instances/Rounds.antt =====
-- src/reconcilers.rs, `reconcile_instance`: one reconcile in each phase of an instance's life, where the
-- cluster and Scaleway answer. The children are the phases after the finalizer's.
pub mod Creation
pub mod Sync
pub mod Deletion
use scaleway_operator.Runtime.Http.{Method}
use scaleway_operator.Scaleway.Servers
use scaleway_operator.Context.Breaker.{closed}
use scaleway_operator.Context.Retry.{reset_retry_count}
use scaleway_operator.Decide.Servers.{ReconcileDecision, add_finalizer, decide_next_action}
use scaleway_operator.Prelude.{
  List, String, [], and_then, false, format, head?, none, refl, some, true, ℕ, ◌∷◌, ◌≡◌,
}
use scaleway_operator.Reconcile.Instances.Handler.{
  add_finalizer_patch, execute, gather, input_of, reconcile_instance, reconcile_instance_inner,
}
use scaleway_operator.Reconcile.Instances.Steps.{prepare, validate_spec}
use scaleway_operator.Reconcile.Shared.{
  Action, deletion_requested, finalizer_present, instance_finalizer, namespace_of, requeue,
  retry_key, with_finalizer,
}
use scaleway_operator.Reconcile.Shared.Reads.{
  Grants, circuit_open_runs, get_namespace_client_runs, get_project_id_runs,
  get_scaleway_role_for_namespace_runs, patch_finalizers_runs, client_of,
}
use scaleway_operator.Resources.{instance_kind}
use scaleway_operator.Resources.Instances.{Instance, InstanceSpec}
use scaleway_operator.Runtime.Calls.{note}
use scaleway_operator.Runtime.Exec.{Result, lift, ok, pure, ◌>>=◌}
use scaleway_operator.Runtime.Outcomes.{bind_runs, on_error_runs}
use scaleway_operator.Runtime.World.{
  Event, Outside, ScalewayClient, World, patched_finalizers, read_namespace, read_namespace_role,
  read_secret,
}
use scaleway_operator.Scaleway.Answers.{
  Answers, AnswersAt, access, creation, reading, search_by_name,
}
use scaleway_operator.Scaleway.Request.{str_at}

-- What Scaleway answers, whatever was called before: the project can be read, nothing of the name is there,
-- the creation succeeds, and what was created can be read, with a body that may be another at each read.
pub record Serves (out : Outside) (spec : InstanceSpec) (pid token base : String)
    (operator : ScalewayClient) : Type 0 where
  pub id : String
  pub access_status : ℕ
  pub access_body : (out.json).Value
  pub has_access : Answers out (access out operator pid) access_status access_body
  pub search_status : ℕ
  pub search_body : (out.json).Value
  pub searches :
      Answers out
        (search_by_name out (client_of token base) spec.zone spec.name pid)
        search_status
        search_body
  pub unknown :
      and_then
        (str_at out "id")
        (and_then head? ((out.json).as_array ((out.json).index search_body "servers")))
      ≡ none
  pub creation_status : ℕ
  pub creation_body : (out.json).Value
  pub creates :
      Answers out (creation out (client_of token base) spec pid) creation_status creation_body
  pub named : str_at out "id" ((out.json).index creation_body "server") ≡ some id
  pub reading_status : List Event → ℕ
  pub reading_body : List Event → (out.json).Value
  pub reads :
      (log : List Event)
      → AnswersAt out log
          (reading out (client_of token base) spec.zone id pid)
          (reading_status log)
          (reading_body log)
  pub read_named :
      (log : List Event) → str_at out "id" ((out.json).index (reading_body log) "server") ≡ some id

module _ (out : Outside) (cr : Instance) (g : Grants out (namespace_of cr.metadata)) where
  abbrev pub facts_read : World → World
  facts_read w =
      note (read_namespace (namespace_of cr.metadata))
        (note (read_namespace_role (namespace_of cr.metadata)) w)

  gather_runs :
      (w : World)
      → deletion_requested cr.metadata ≡ false
      → gather out cr false w ≡ (ok (g.role, g.pid), facts_read w)
  unfolding gather pure
  gather_runs w alive = rw alive (
      bind_runs _ _
        (on_error_runs _ _ (get_scaleway_role_for_namespace_runs out _ g.role g.has_role w))
        (bind_runs _ _ (on_error_runs _ _ (get_project_id_runs out _ g.pid g.project _))
          (rw (g.project).well_formed)))

  abbrev pub done : World → World
  done w = record w {
    retry_counts = reset_retry_count (retry_key "instance" cr.metadata) w.retry_counts;
  }

  module _ (n : ℕ) (w : World) (calm : w.circuit_breaker ≡ closed n)
      (alive : deletion_requested cr.metadata ≡ false) where
    abbrev pub ready : World
    ready = facts_read (record w { circuit_breaker = closed n })

    reconcile_runs :
        {d : ReconcileDecision} {r : Result Action × World}
        → decide_next_action (input_of out cr false g.role g.pid) ≡ d
        → execute out cr g.role d ready ≡ r
        → reconcile_instance_inner out cr w ≡ r
    unfolding reconcile_instance_inner
    reconcile_runs decided h =
        bind_runs _ _ (circuit_open_runs out w n calm)
          (bind_runs _ _ (gather_runs _ alive) (rw decided h))

    pub reconcile_done :
        {d : ReconcileDecision} {a : Action} {w1 : World}
        → decide_next_action (input_of out cr false g.role g.pid) ≡ d
        → execute out cr g.role d ready ≡ (ok a, w1)
        → reconcile_instance out cr w ≡ (ok a, done w1)
    unfolding reconcile_instance ◌>>=◌
    reconcile_done decided h = rw (reconcile_runs decided h)

    pub finalizer_runs :
        finalizer_present instance_finalizer cr.metadata ≡ false
        → reconcile_instance out cr w ≡ (
          ok (requeue 5),
          done (
              note
                (patched_finalizers instance_kind
                  (namespace_of cr.metadata)
                  cr.metadata.name
                  (with_finalizer instance_finalizer cr.metadata)
                  true)
                ready),
        )
    unfolding execute add_finalizer_patch decide_next_action pure
    finalizer_runs absent =
        reconcile_done {d = add_finalizer} (rw (alive, absent))
          (bind_runs _ _ (patch_finalizers_runs out g.accepts _ _ _ _ _) refl)

  -- The read of the credentials.
  abbrev pub creds_read : Event
  creds_read =
      read_secret "scaleway-system" (format ("scaleway-ns-creds-" ∷ namespace_of cr.metadata ∷ []))

  -- The calls before an instance is read, in a reconcile that starts after these.
  abbrev pub calls_before_reading : List Event → List Event
  calls_before_reading log =
      creds_read
      ∷ read_namespace (namespace_of cr.metadata)
      ∷ read_namespace_role (namespace_of cr.metadata)
      ∷ log

  pub prepare_runs :
      (w : World) (base : String)
      → w.scaleway_base_url ≡ base
      → validate_spec cr.spec ≡ ok tt
      → prepare out cr w ≡ (ok (client_of g.token base), note creds_read w)
  unfolding prepare lift
  prepare_runs w base same valid =
      bind_runs _ _ (on_error_runs _ _ (rw valid))
        (on_error_runs _ _ (get_namespace_client_runs out _ g.token base g.credentials w same))
