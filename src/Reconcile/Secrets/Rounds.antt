-- ===== src/Reconcile/Secrets/Rounds.antt =====
-- src/reconcilers.rs, `reconcile_scaleway_secret`: one reconcile of a secret whose source can be read, where
-- the cluster answers. The children are the reconciles that follow.
-- The source of a resource of this namespace and name, whatever was called before: it has opted in, and
-- holds the key.
pub mod Sync
pub mod Creation
pub mod Deletion
use scaleway_operator.Context.Breaker.{closed}
use scaleway_operator.Context.Retry.{reset_retry_count}
use scaleway_operator.Decide.Secrets.{SecretReconcileDecision, decide_next_action_secret}
use scaleway_operator.Prelude.{List, Option, String, false, some, ℕ, ◌≡◌}
use scaleway_operator.Reconcile.Secrets.Handler.{
  SourceFacts, check_role, check_spec, execute, facts_of, input_of, read_source,
  reconcile_scaleway_secret, reconcile_scaleway_secret_inner,
}
use scaleway_operator.Reconcile.Secrets.Source.{
  parse_k8s_secret_source, present, read_k8s_secret_source,
}
use scaleway_operator.Reconcile.Shared.{Action, deletion_requested, namespace_of, retry_key}
use scaleway_operator.Reconcile.Shared.Reads.{
  Grants, circuit_open_runs, get_scaleway_role_for_namespace_runs,
}
use scaleway_operator.Resources.Secrets.{KubernetesSecretRef, ScalewaySecret, Secret}
use scaleway_operator.Runtime.Calls.{get_secret, note}
use scaleway_operator.Runtime.Exec.{Result, attempt, lift, ok, on_error, pure, ◌>>=◌}
use scaleway_operator.Runtime.Http.{good}
use scaleway_operator.Runtime.Outcomes.{bind_runs, on_error_runs}
use scaleway_operator.Runtime.World.{Event, Outside, World, read_namespace_role, read_secret}
use scaleway_operator.Scaleway.Tags.{check_tags}
use scaleway_operator.Scaleway.Validation.{validate_region}
use scaleway_operator.Tests.{calm, metadata}

pub record Readable (out : Outside) (source : Option KubernetesSecretRef) (namespace name : String)
    : Type 0 where
  pub ks_ref : KubernetesSecretRef
  pub configured : source ≡ some ks_ref
  pub ks : Secret
  pub read : (log : List Event) → out.secret log namespace ks_ref.name ≡ good ks
  pub resource_version : String
  pub payload : List ℕ
  pub parsed :
      parse_k8s_secret_source ks ks_ref.name ks_ref.key namespace name
      ≡ ok (present resource_version payload)

module _ (out : Outside) (cr : ScalewaySecret)
    (source : Readable out cr.spec.kubernetes_secret
      (namespace_of cr.metadata)
      cr.metadata.name) where
  -- The role is read, then the source.
  abbrev role_read : World → World
  role_read w = note (read_namespace_role (namespace_of cr.metadata)) w

  abbrev pub source_read : World → World
  source_read w = note (read_secret (namespace_of cr.metadata) (source.ks_ref).name) w

  abbrev pub source_facts : SourceFacts
  source_facts = facts_of (present source.resource_version source.payload)

  abbrev pub done : World → World
  done w = record w {
    retry_counts = reset_retry_count (retry_key "scalewayssecret" cr.metadata) w.retry_counts;
  }

  -- A reconcile that comes to the decision, and has read the facts.
  abbrev pub ready : ℕ → World → World
  ready n w = source_read (role_read (record w { circuit_breaker = closed n }))

  module _ (g : Grants out (namespace_of cr.metadata))
      (alive : deletion_requested cr.metadata ≡ false)
      (in_region : validate_region cr.spec.region ≡ ok tt)
      (tagged : check_tags cr.spec.tags ≡ ok tt) where
    check_spec_runs : (w : World) → check_spec out cr w ≡ (ok tt, w)
    unfolding check_spec lift on_error ◌>>=◌
    check_spec_runs w = rw (in_region, alive, tagged)

    check_role_runs : (w : World) → check_role out cr false w ≡ (ok tt, role_read w)
    unfolding check_role pure
    check_role_runs w = rw alive (
        bind_runs _ _
          (on_error_runs _ _ (get_scaleway_role_for_namespace_runs out _ g.role g.has_role w))
          (rw g.may_write))

    read_source_runs : (w : World) → read_source out cr w ≡ (ok source_facts, source_read w)
    unfolding read_source read_k8s_secret_source get_secret attempt pure lift ◌>>=◌
    read_source_runs w = rw (source.configured, alive, source.read w.log, source.parsed)

    module _ (n : ℕ) (w : World) (calm : w.circuit_breaker ≡ closed n) where
      reconcile_runs :
          {d : SecretReconcileDecision} {r : Result Action × World}
          → decide_next_action_secret (input_of out cr false source_facts) ≡ d
          → execute out cr source_facts d (ready n w) ≡ r
          → reconcile_scaleway_secret_inner out cr w ≡ r
      unfolding reconcile_scaleway_secret_inner
      reconcile_runs decided h = bind_runs _ _ (circuit_open_runs out w n calm) (
          bind_runs _ _ (check_spec_runs _)
            (bind_runs _ _ (check_role_runs _) (bind_runs _ _ (read_source_runs _) (rw decided h))))

      pub reconcile_done :
          {d : SecretReconcileDecision} {a : Action} {w1 : World}
          → decide_next_action_secret (input_of out cr false source_facts) ≡ d
          → execute out cr source_facts d (ready n w) ≡ (ok a, w1)
          → reconcile_scaleway_secret out cr w ≡ (ok a, done w1)
      unfolding reconcile_scaleway_secret ◌>>=◌
      reconcile_done decided h = rw (reconcile_runs decided h)
