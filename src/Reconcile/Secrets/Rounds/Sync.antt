-- ===== src/Reconcile/Secrets/Rounds/Sync.antt =====
-- src/reconcilers.rs, `reconcile_scaleway_secret`: the reconcile that pushes a version, and the one that
-- finds nothing to push.
use scaleway_operator.Context.Breaker.{closed, record_scaleway_success}
use scaleway_operator.Decide.Secrets.{
  already_synced, decide_next_action_secret, decide_sync, push_new_version,
}
use scaleway_operator.Prelude.{
  Bool, List, Option, Option-cases, String, [], arith, eq_option, false, format, inl, inr, is_some,
  map_option, none, not, refl, some, str_eq, true, u32, ℕ, ◌&&◌, ◌==◌, ◌||◌, ◌∷◌, ◌≡◌,
}
use scaleway_operator.Reconcile.Secrets.Handler.{execute, input_of, reconcile_scaleway_secret}
use scaleway_operator.Reconcile.Secrets.Rounds.{Readable, ready, reconcile_done, source_facts}
use scaleway_operator.Reconcile.Secrets.Source.{build_already_synced_status}
use scaleway_operator.Reconcile.Secrets.SourceLaws.{eq_secret_status_self}
use scaleway_operator.Reconcile.Secrets.Steps.{
  keep_synced, push_version, refresh, status_of, update_secret_status,
}
use scaleway_operator.Reconcile.Shared.{
  deletion_requested, finalizer_present, is_cached_cr_current, namespace_of, requeue,
  secret_finalizer,
}
use scaleway_operator.Reconcile.Shared.Reads.{
  Grants, SameContext, client_of, get_namespace_client_runs, patch_status_runs,
}
use scaleway_operator.Resources.{secret_kind}
use scaleway_operator.Resources.Secrets.{ScalewaySecret, ScalewaySecretStatus}
use scaleway_operator.Runtime.Calls.{get_live_resource_version, note, set_outcome}
use scaleway_operator.Runtime.Exec.{ok, or_raise, pure, ◌>>=◌}
use scaleway_operator.Runtime.Http.{good}
use scaleway_operator.Runtime.Outcomes.{bind_runs, call_scaleway_runs, measured_runs, on_error_runs}
use scaleway_operator.Runtime.World.{
  Event, Outside, World, of_secret, patched_status, read_live, read_namespace_role, read_secret,
  sent,
}
use scaleway_operator.Scaleway.Answers.{Answers}
use scaleway_operator.Scaleway.Answers.Secrets.{create_secret_version_runs, pushing}
use scaleway_operator.Scaleway.Tags.{check_tags}
use scaleway_operator.Scaleway.Validation.{validate_region}

-- The API server's versions of a resource; reading changes none.
pub record Versioned (out : Outside) (namespace name : String) : Type 0 where
  pub version : List Event → Option String
  pub live :
      (log : List Event)
      → out.live_resource_version log secret_kind namespace name ≡ good (version log)
  pub role_reads :
      (log : List Event) (ns : String) → version (read_namespace_role ns ∷ log) ≡ version log
  pub secret_reads :
      (log : List Event) (ns s : String) → version (read_secret ns s ∷ log) ≡ version log

module _ (out : Outside) (cr : ScalewaySecret)
    (source : Readable out cr.spec.kubernetes_secret
      (namespace_of cr.metadata)
      cr.metadata.name) where
  -- Whether the source or the spec has changed since the last push.
  abbrev pub changed : Bool
  changed =
      not (
        eq_option str_eq (some source.resource_version) (status_of cr).last_synced_resource_version)
      || (is_some (status_of cr).observed_generation
          && not (eq_option ◌==◌ (status_of cr).observed_generation cr.metadata.generation))

  -- The status once a version has been pushed.
  abbrev pub after_push : String → ℕ → ScalewaySecretStatus
  after_push id revision = record {
    scaleway_id = some id;
    current_version = some revision;
    last_synced_resource_version = some source.resource_version;
    observed_generation = cr.metadata.generation;
    sync_state = "Synced";
    error_message = none;
  }

  -- That status is up to date.
  pub build_already_synced_status-after_push :
      (id : String) (revision : ℕ)
      → build_already_synced_status (after_push id revision) cr.metadata.generation ≡ none
  unfolding build_already_synced_status
  build_already_synced_status-after_push id revision = elim (Option-cases cr.metadata.generation) [
    | inl e ↦ rw e (
        rw (
          eq_secret_status_self (record {
            scaleway_id = some id;
            current_version = some revision;
            last_synced_resource_version = some source.resource_version;
            observed_generation = none;
            sync_state = "Synced";
            error_message = none;
          })))
    | inr (g, e) ↦ rw e (
        rw (
          eq_secret_status_self (record {
            scaleway_id = some id;
            current_version = some revision;
            last_synced_resource_version = some source.resource_version;
            observed_generation = some g;
            sync_state = "Synced";
            error_message = none;
          })))
  ]

  -- The read of the credentials.
  abbrev pub creds_read : Event
  creds_read =
      read_secret "scaleway-system" (format ("scaleway-ns-creds-" ∷ namespace_of cr.metadata ∷ []))

  -- The resource of the cache is the API server's.
  pub is_current_runs :
      (n : ℕ) (w : World) (versions : Versioned out (namespace_of cr.metadata) cr.metadata.name)
      → eq_option str_eq (versions.version w.log) cr.metadata.resource_version ≡ true
      → is_cached_cr_current out secret_kind cr.metadata (ready out cr source n w) ≡ (
        ok true,
        note
            (read_live secret_kind (namespace_of cr.metadata) cr.metadata.name)
            (ready out cr source n w),
      )
  unfolding is_cached_cr_current get_live_resource_version pure ◌>>=◌
  is_current_runs n w versions same = rw (
    versions.live (ready out cr source n w).log,
    versions.secret_reads _ _ _,
    versions.role_reads _ _,
    same,
  )

  module _ (g : Grants out (namespace_of cr.metadata))
      (alive : deletion_requested cr.metadata ≡ false)
      (in_region : validate_region cr.spec.region ≡ ok tt)
      (tagged : check_tags cr.spec.tags ≡ ok tt)
      (finalized : finalizer_present secret_finalizer cr.metadata ≡ true) (n : ℕ) (w : World)
      (calm : w.circuit_breaker ≡ closed n) (id : String)
      (known : (status_of cr).scaleway_id ≡ some id) where
    push_decided :
        changed ≡ true
        → decide_next_action_secret (input_of out cr false (source_facts out cr source))
          ≡ push_new_version id
    unfolding decide_next_action_secret decide_sync
    push_decided h = rw (alive, finalized, source.configured, known) (ground arith)

    rest_decided :
        changed ≡ false
        → decide_next_action_secret (input_of out cr false (source_facts out cr source))
          ≡ already_synced
    unfolding decide_next_action_secret decide_sync
    rest_decided h = rw (alive, finalized, source.configured, known) (ground arith)

    refresh_runs :
        (w : World)
        → build_already_synced_status (status_of cr) cr.metadata.generation ≡ none
        → refresh out cr (build_already_synced_status (status_of cr) cr.metadata.generation) w
          ≡ (ok tt, w)
    unfolding pure
    refresh_runs w up_to_date = rw up_to_date

    -- With a status that is up to date there is nothing to do: the role and the source are read, and no more.
    pub rest_runs :
        changed ≡ false
        → build_already_synced_status (status_of cr) cr.metadata.generation ≡ none
        → (w1 : World) × (reconcile_scaleway_secret out cr w ≡ (ok (requeue 30), w1))
          × (w1.log ≡ (ready out cr source n w).log)
          × SameContext w w1
    unfolding execute keep_synced pure set_outcome
    rest_runs same up_to_date = (
      _,
      reconcile_done out cr source g alive in_region tagged n w calm (rest_decided same) (
          measured_runs _ out _
            (bind_runs _ _ (refresh_runs _ up_to_date) (bind_runs _ _ refl refl))),
      refl,
      record { client = refl; base_url = refl; failures = n; closed_breaker = refl },
    )

    module _ (versions : Versioned out (namespace_of cr.metadata) cr.metadata.name)
        (is_current : eq_option str_eq (versions.version w.log) cr.metadata.resource_version ≡ true)
        (base : String) (at_base : w.scaleway_base_url ≡ base) (revision : ℕ) {s : ℕ}
        {v : (out.json).Value}
        (pushes : Answers out
          (pushing out (client_of g.token base) cr.spec.region id source.payload)
          s
          v)
        (numbered : map_option u32 ((out.json).as_u64 ((out.json).index v "revision"))
          ≡ some revision) where
      -- The calls of a push, the newest first.
      abbrev pub push_calls : List Event
      push_calls =
          patched_status (namespace_of cr.metadata) cr.metadata.name
            (of_secret (after_push id revision)) true
          ∷ sent (pushing out (client_of g.token base) cr.spec.region id source.payload) (some s)
          ∷ creds_read
          ∷ read_live secret_kind (namespace_of cr.metadata) cr.metadata.name
          ∷ (ready out cr source n w).log

      pub push_runs :
          changed ≡ true
          → (w1 : World) × (reconcile_scaleway_secret out cr w ≡ (ok (requeue 30), w1))
            × (w1.log ≡ push_calls)
            × SameContext w w1
      unfolding execute push_version pure set_outcome update_secret_status or_raise
          record_scaleway_success
      push_runs stale = (
        _,
        reconcile_done out cr source g alive in_region tagged n w calm (push_decided stale) (
            bind_runs _ _ (is_current_runs n w versions is_current) (
              measured_runs _ out _ (
                bind_runs _ _
                  (on_error_runs _ _
                    (get_namespace_client_runs out _ g.token base g.credentials _ at_base))
                  (bind_runs _ _ refl (
                    bind_runs _ _
                      (on_error_runs _ _ (
                        call_scaleway_runs _ out
                          (create_secret_version_runs out _ _ _ _ revision pushes numbered _)))
                      (bind_runs _ _ (patch_status_runs out g.accepts _ _ _ _)
                        (bind_runs _ _ refl refl))))))),
        rw known refl,
        record { client = refl; base_url = refl; failures = 0; closed_breaker = refl },
      )
