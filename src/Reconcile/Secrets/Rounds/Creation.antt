-- ===== src/Reconcile/Secrets/Rounds/Creation.antt =====
-- src/reconcilers.rs, `reconcile_scaleway_secret`: the reconciles of a new secret, which add the finalizer
-- and then create it.
-- What Scaleway answers, whatever was called before: no secret has the tags, the creation succeeds, and a
-- version is taken.
use scaleway_operator.Context.Breaker.{closed, record_scaleway_success}
use scaleway_operator.Decide.Secrets.{
  add_finalizer, create_and_sync_secret, decide_next_action_secret, decide_sync,
}
use scaleway_operator.Prelude.{
  List, String, and_then, arith, eq_option, false, head?, map_option, none, refl, some, str_eq,
  true, u32, ℕ, ◌∷◌, ◌≡◌,
}
use scaleway_operator.Reconcile.Secrets.Handler.{execute, input_of, reconcile_scaleway_secret}
use scaleway_operator.Reconcile.Secrets.Rounds.{Readable, done, ready, reconcile_done, source_facts}
use scaleway_operator.Reconcile.Secrets.Rounds.Sync.{
  Versioned, after_push, creds_read, is_current_runs,
}
use scaleway_operator.Reconcile.Secrets.Steps.{
  adopt_or_create, anchor_and_push, create_and_sync, prelim_status, status_of, update_secret_status,
}
use scaleway_operator.Reconcile.Shared.{
  deletion_requested, finalizer_present, namespace_of, requeue, secret_finalizer, with_finalizer,
}
use scaleway_operator.Reconcile.Shared.Reads.{
  Grants, SameContext, client_of, get_namespace_client_runs, get_project_id_runs,
  patch_finalizers_runs, patch_status_runs,
}
use scaleway_operator.Resources.{secret_kind}
use scaleway_operator.Resources.Secrets.{ScalewaySecret, ScalewaySecretSpec}
use scaleway_operator.Runtime.Calls.{note, set_outcome}
use scaleway_operator.Runtime.Exec.{ok, or_raise, pure}
use scaleway_operator.Runtime.Outcomes.{bind_runs, call_scaleway_runs, measured_runs, on_error_runs}
use scaleway_operator.Runtime.World.{
  Event, Outside, World, of_secret, patched_finalizers, patched_status, read_live, read_namespace,
  sent,
}
use scaleway_operator.Scaleway.Answers.{Answers}
use scaleway_operator.Scaleway.Answers.Secrets.{
  create_scaleway_secret_runs, create_secret_version_runs, creation,
  find_scaleway_secret_by_tags_runs, pushing, search_by_tags,
}
use scaleway_operator.Scaleway.Request.{str_at}
use scaleway_operator.Scaleway.Tags.{check_tags}
use scaleway_operator.Scaleway.Validation.{validate_region}

pub record Stores (out : Outside) (spec : ScalewaySecretSpec)
    (namespace name pid token base : String) (payload : List ℕ) : Type 0 where
  pub id : String
  pub search_status : ℕ
  pub search_body : (out.json).Value
  pub searches :
      Answers out
        (search_by_tags out (client_of token base) spec.region pid namespace name)
        search_status
        search_body
  pub unknown :
      and_then
        (str_at out "id")
        (and_then head? ((out.json).as_array ((out.json).index search_body "secrets")))
      ≡ none
  pub creation_status : ℕ
  pub creation_body : (out.json).Value
  pub creates :
      Answers out
        (creation out (client_of token base) spec pid namespace name)
        creation_status
        creation_body
  pub named : str_at out "id" creation_body ≡ some id
  pub version_status : ℕ
  pub version_body : (out.json).Value
  pub pushes :
      Answers out
        (pushing out (client_of token base) spec.region id payload)
        version_status
        version_body
  pub revision : ℕ
  pub numbered :
      map_option u32 ((out.json).as_u64 ((out.json).index version_body "revision")) ≡ some revision

module _ (out : Outside) (cr : ScalewaySecret)
    (source : Readable out cr.spec.kubernetes_secret (namespace_of cr.metadata) cr.metadata.name)
    (g : Grants out (namespace_of cr.metadata)) (alive : deletion_requested cr.metadata ≡ false)
    (in_region : validate_region cr.spec.region ≡ ok tt) (tagged : check_tags cr.spec.tags ≡ ok tt)
    (n : ℕ) (w : World) (calm : w.circuit_breaker ≡ closed n) where
  finalizer_decided :
      finalizer_present secret_finalizer cr.metadata ≡ false
      → decide_next_action_secret (input_of out cr false (source_facts out cr source))
        ≡ add_finalizer
  unfolding decide_next_action_secret
  finalizer_decided absent = rw (alive, absent)

  pub finalizer_runs :
      finalizer_present secret_finalizer cr.metadata ≡ false
      → reconcile_scaleway_secret out cr w ≡ (
        ok (requeue 5),
        done out cr source (
            note
              (patched_finalizers secret_kind
                (namespace_of cr.metadata)
                cr.metadata.name
                (with_finalizer secret_finalizer cr.metadata)
                true)
              (ready out cr source n w)),
      )
  unfolding execute pure
  finalizer_runs absent =
      reconcile_done out cr source g alive in_region tagged n w calm (finalizer_decided absent)
        (bind_runs _ _ (patch_finalizers_runs out g.accepts _ _ _ _ _) refl)

  module _ (finalized : finalizer_present secret_finalizer cr.metadata ≡ true)
      (unknown : (status_of cr).scaleway_id ≡ none)
      (versions : Versioned out (namespace_of cr.metadata) cr.metadata.name)
      (is_current : eq_option str_eq (versions.version w.log) cr.metadata.resource_version ≡ true)
      (base : String) (at_base : w.scaleway_base_url ≡ base)
      (s : Stores out cr.spec
        (namespace_of cr.metadata)
        cr.metadata.name
        g.pid
        g.token
        base
        source.payload) where
    create_decided :
        decide_next_action_secret (input_of out cr false (source_facts out cr source))
        ≡ create_and_sync_secret
    unfolding decide_next_action_secret decide_sync
    create_decided = rw (alive, finalized, source.configured, unknown) (ground arith)

    adopt_or_create_runs :
        (w1 : World) (k : ℕ)
        → w1.circuit_breaker ≡ closed k
        → (w2 : World) × (adopt_or_create out cr (client_of g.token base) g.pid w1 ≡ (ok s.id, w2))
          × (w2.log
              ≡ sent
                  (creation out
                    (client_of g.token base)
                    cr.spec
                    g.pid
                    (namespace_of cr.metadata)
                    cr.metadata.name)
                  (some s.creation_status)
                ∷ sent
                    (search_by_tags out
                      (client_of g.token base)
                      cr.spec.region
                      g.pid
                      (namespace_of cr.metadata)
                      cr.metadata.name)
                    (some s.search_status)
                ∷ w1.log)
          × SameContext w1 w2
    unfolding adopt_or_create pure record_scaleway_success
    adopt_or_create_runs w1 k at_rest = (
      _,
      bind_runs _ _
          (on_error_runs _ _ (
            call_scaleway_runs _ out
              (find_scaleway_secret_by_tags_runs out _ _ _ _ _ none s.searches s.unknown _)))
          (on_error_runs _ _ (
            call_scaleway_runs _ out
              (create_scaleway_secret_runs out _ cr.spec _ _ _ s.id s.creates s.named _))),
      refl,
      record { client = refl; base_url = refl; failures = 0; closed_breaker = rw at_rest refl },
    )

    -- The calls of a creation, the newest first.
    abbrev pub create_calls : List Event
    create_calls =
        patched_status (namespace_of cr.metadata) cr.metadata.name
          (of_secret (after_push out cr source s.id s.revision)) true
        ∷ sent (pushing out (client_of g.token base) cr.spec.region s.id source.payload)
            (some s.version_status)
        ∷ patched_status (namespace_of cr.metadata) cr.metadata.name
            (of_secret (prelim_status out cr s.id)) true
        ∷ sent
            (creation out (client_of g.token base) cr.spec g.pid (namespace_of cr.metadata)
              cr.metadata.name)
            (some s.creation_status)
        ∷ sent
            (search_by_tags out (client_of g.token base) cr.spec.region g.pid
              (namespace_of cr.metadata) cr.metadata.name)
            (some s.search_status)
        ∷ creds_read out cr source
        ∷ read_namespace (namespace_of cr.metadata)
        ∷ read_live secret_kind (namespace_of cr.metadata) cr.metadata.name
        ∷ (ready out cr source n w).log

    pub create_runs :
        (w1 : World) × (reconcile_scaleway_secret out cr w ≡ (ok (requeue 30), w1))
        × (w1.log ≡ create_calls)
        × SameContext w w1
    unfolding execute create_and_sync anchor_and_push pure set_outcome update_secret_status or_raise
        record_scaleway_success
    create_runs =
        let (w2, found, calls, kept) = adopt_or_create_runs _ n refl in
        (
          _,
          reconcile_done out cr source g alive in_region tagged n w calm create_decided (
              bind_runs _ _ (is_current_runs out cr source n w versions is_current) (
                measured_runs _ out _ (
                  bind_runs _ _ (on_error_runs _ _ (get_project_id_runs out _ g.pid g.project _)) (
                    bind_runs _ _
                      (on_error_runs _ _
                        (get_namespace_client_runs out _ g.token base g.credentials _ at_base))
                      (bind_runs _ _ found (
                        bind_runs _ _ (on_error_runs _ _ (patch_status_runs out g.accepts _ _ _ _))
                          (bind_runs _ _ refl (
                            bind_runs _ _
                              (on_error_runs _ _ (
                                call_scaleway_runs _ out (
                                  create_secret_version_runs out _ _ _ _ s.revision s.pushes
                                    s.numbered _)))
                              (bind_runs _ _ (patch_status_runs out g.accepts _ _ _ _)
                                (bind_runs _ _ refl refl)))))))))),
          rw calls refl,
          record {
            client = kept.client;
            base_url = kept.base_url;
            failures = 0;
            closed_breaker = rw kept.closed_breaker refl;
          },
        )
