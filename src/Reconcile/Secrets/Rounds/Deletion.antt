-- ===== src/Reconcile/Secrets/Rounds/Deletion.antt =====
-- src/reconcilers.rs, `reconcile_scaleway_secret`: the reconcile of a secret that is being deleted, whose
-- source is not read.
use scaleway_operator.Context.Breaker.{closed}
use scaleway_operator.Context.Retry.{reset_retry_count}
use scaleway_operator.Decide.Secrets.{decide_next_action_secret, delete_secret}
use scaleway_operator.Prelude.{
  List, Option, String, [], false, format, none, refl, some, true, ℕ, ◌∷◌, ◌≡◌,
}
use scaleway_operator.Reconcile.Secrets.Handler.{
  check_role, check_spec, execute, input_of, no_source, read_source, reconcile_scaleway_secret,
  reconcile_scaleway_secret_inner, source_at,
}
use scaleway_operator.Reconcile.Secrets.Steps.{
  delete_from, delete_secret_branch, release, status_of,
}
use scaleway_operator.Reconcile.Shared.{
  Action, await_change, deletion_requested, namespace_of, retry_key, secret_finalizer,
  without_finalizer,
}
use scaleway_operator.Reconcile.Shared.Reads.{
  Grants, circuit_open_runs, client_of, get_namespace_client_runs, patch_finalizers_runs,
}
use scaleway_operator.Resources.{secret_kind}
use scaleway_operator.Resources.Secrets.{KubernetesSecretRef, ScalewaySecret}
use scaleway_operator.Runtime.Calls.{note, set_outcome, tell}
use scaleway_operator.Runtime.Exec.{Result, lift, ok, on_error, pure, ◌>>=◌}
use scaleway_operator.Runtime.Outcomes.{
  attempt_runs, bind_runs, call_scaleway_runs, measured_runs, on_error_runs,
}
use scaleway_operator.Runtime.World.{Event, Outside, World, patched_finalizers, read_secret, sent}
use scaleway_operator.Scaleway.Answers.{Answers}
use scaleway_operator.Scaleway.Answers.Secrets.{delete_scaleway_secret_runs, removal}
use scaleway_operator.Scaleway.Validation.{validate_region}

module _ (out : Outside) (cr : ScalewaySecret) (g : Grants out (namespace_of cr.metadata)) (n : ℕ)
    (w : World) (calm : w.circuit_breaker ≡ closed n)
    (dying : deletion_requested cr.metadata ≡ true)
    (in_region : validate_region cr.spec.region ≡ ok tt) (id : String)
    (known : (status_of cr).scaleway_id ≡ some id) (base : String)
    (at_base : w.scaleway_base_url ≡ base) {status : ℕ} {body : (out.json).Value}
    (removed : Answers out
      (removal out (client_of g.token base) cr.spec.region id)
      status
      body) where
  -- The calls of a deletion, the newest first.
  abbrev pub deletion_calls : List Event
  deletion_calls =
      patched_finalizers secret_kind (namespace_of cr.metadata) cr.metadata.name
        (without_finalizer secret_finalizer cr.metadata) true
      ∷ sent (removal out (client_of g.token base) cr.spec.region id) (some status)
      ∷ read_secret "scaleway-system"
          (format ("scaleway-ns-creds-" ∷ namespace_of cr.metadata ∷ []))
      ∷ w.log

  check_spec_runs : (w' : World) → check_spec out cr w' ≡ (ok tt, w')
  unfolding check_spec lift on_error pure ◌>>=◌
  check_spec_runs w' = rw (in_region, dying)

  check_role_runs : (w' : World) → check_role out cr false w' ≡ (ok tt, w')
  unfolding check_role pure
  check_role_runs w' = rw dying

  source_at_runs :
      (source : Option KubernetesSecretRef) (w' : World)
      → source_at out cr source w' ≡ (ok no_source, w')
  unfolding pure
  source_at_runs none w' = refl
  source_at_runs (some ks_ref) w' = rw dying

  read_source_runs : (w' : World) → read_source out cr w' ≡ (ok no_source, w')
  unfolding read_source
  read_source_runs w' = source_at_runs cr.spec.kubernetes_secret w'

  delete_decided : decide_next_action_secret (input_of out cr false no_source) ≡ delete_secret
  unfolding decide_next_action_secret
  delete_decided = rw (dying, known)

  deletion_inner :
      {r : Result Action × World}
      → execute out cr no_source delete_secret (record w { circuit_breaker = closed n }) ≡ r
      → reconcile_scaleway_secret_inner out cr w ≡ r
  unfolding reconcile_scaleway_secret_inner
  deletion_inner h = bind_runs _ _ (circuit_open_runs out w n calm) (
      bind_runs _ _ (check_spec_runs _) (
        bind_runs _ _ (check_role_runs _)
          (bind_runs _ _ (read_source_runs _) (rw delete_decided h))))

  deletion_done :
      {a : Action} {w1 : World}
      → execute out cr no_source delete_secret (record w { circuit_breaker = closed n })
        ≡ (ok a, w1)
      → reconcile_scaleway_secret out cr w ≡ (
        ok a,
        record w1 {
          retry_counts =
              reset_retry_count (retry_key "scalewayssecret" cr.metadata) w1.retry_counts;
        },
      )
  unfolding reconcile_scaleway_secret ◌>>=◌
  deletion_done h = rw (deletion_inner h)

  delete_from_runs :
      (o : Option String) (w' : World)
      → o ≡ some id
      → w'.scaleway_base_url ≡ base
      → delete_from out cr o w' ≡ (
        ok tt,
        tell out {A = Unit {0}} (ok tt) (
            note (sent (removal out (client_of g.token base) cr.spec.region id) (some status)) (
              note
                (read_secret "scaleway-system"
                  (format ("scaleway-ns-creds-" ∷ namespace_of cr.metadata ∷ [])))
                w')),
      )
  delete_from_runs o w' e same = rw e (
      bind_runs _ _
        (attempt_runs _ (get_namespace_client_runs out _ g.token base g.credentials _ same))
        (on_error_runs _ _
          (call_scaleway_runs _ out (delete_scaleway_secret_runs out _ _ _ removed _))))

  -- The DELETE carries the namespace's token, and the finalizer goes once it has succeeded.
  pub delete_runs :
      (w1 : World) × (reconcile_scaleway_secret out cr w ≡ (ok await_change, w1))
      × (w1.log ≡ deletion_calls)
  unfolding execute delete_secret_branch release set_outcome pure
  delete_runs = (
    _,
    deletion_done (
        measured_runs _ out _ (
          bind_runs _ _ (delete_from_runs _ _ known at_base) (
            bind_runs _ _ (on_error_runs _ _ (patch_finalizers_runs out g.accepts _ _ _ _ _))
              (bind_runs _ _ refl refl)))),
    refl,
  )
