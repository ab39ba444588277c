-- ===== src/Startup/Secrets/Rotation.antt =====
-- src/main.rs and src/reconcilers.rs: a secret from a change of its source until that is pushed.
use scaleway_operator.Context.Breaker.{closed}
use scaleway_operator.Prelude.{
  List, Option, String, contains, false, map_option, refl, some, suc, true, u32, zero, ℕ, ◌∷◌, ◌≡◌,
}
use scaleway_operator.Reconcile.Secrets.Rounds.{Readable}
use scaleway_operator.Reconcile.Secrets.Rounds.Sync.{Versioned, after_push, changed}
use scaleway_operator.Reconcile.Shared.{deletion_requested, namespace_of, secret_finalizer}
use scaleway_operator.Reconcile.Shared.Patched.{latest_finalizers, latest_status}
use scaleway_operator.Reconcile.Shared.Reads.{Grants, client_of}
use scaleway_operator.Resources.{secret_kind}
use scaleway_operator.Resources.Secrets.{ScalewaySecret, ScalewaySecretStatus}
use scaleway_operator.Runtime.Exec.{ok}
use scaleway_operator.Runtime.Http.{HttpRequest}
use scaleway_operator.Runtime.World.{Outside, ScalewayClient, World}
use scaleway_operator.Scaleway.Answers.{Answers}
use scaleway_operator.Scaleway.Answers.Secrets.{pushing}
use scaleway_operator.Scaleway.Tags.{check_tags}
use scaleway_operator.Scaleway.Validation.{validate_region}
use scaleway_operator.Startup.Secrets.{
  Stage, current, push_round, read_secret_status, requests_of, rest_round, rounds,
}

module _ (out : Outside) (cr : ScalewaySecret)
    (versions : Versioned out (namespace_of cr.metadata) cr.metadata.name)
    (source : Readable out cr.spec.kubernetes_secret (namespace_of cr.metadata) cr.metadata.name)
    (g : Grants out (namespace_of cr.metadata)) (alive : deletion_requested cr.metadata ≡ false)
    (in_region : validate_region cr.spec.region ≡ ok tt) (tagged : check_tags cr.spec.tags ≡ ok tt)
    (base : String) (w : World) (failures : ℕ) (calm : w.circuit_breaker ≡ closed failures)
    (at_base : w.scaleway_base_url ≡ base) where
  abbrev At : ℕ → Option (List String) → Option ScalewaySecretStatus → List HttpRequest → Type 0
  At n fs st requests =
      Stage out cr versions source g alive in_region tagged base (rounds out cr n w) fs st requests

  abbrev own : ScalewayClient
  own = client_of g.token base

  module _ (fs : List String) (patched : latest_finalizers cr.metadata secret_kind w.log ≡ some fs)
      (present : contains fs secret_finalizer ≡ true) (st : ScalewaySecretStatus)
      (written : latest_status cr.metadata read_secret_status cr.status w.log ≡ some st)
      (id : String) (known : st.scaleway_id ≡ some id) (revision : ℕ) {s : ℕ} {v : (out.json).Value}
      (pushes : Answers out
        (pushing out (client_of g.token base) cr.spec.region id source.payload)
        s
        v)
      (numbered : map_option u32 ((out.json).as_u64 ((out.json).index v "revision"))
        ≡ some revision) where
    pushed :
        changed out (record cr { status = some st }) source ≡ true
        → (k : ℕ)
        → At
            (suc k)
            (some fs)
            (some (after_push out cr source id revision))
            (pushing out own cr.spec.region id source.payload ∷ requests_of w.log)
    unfolding rounds
    pushed stale zero =
        push_round out cr versions source g alive in_region tagged base w fs st (requests_of w.log)
          id revision present
          (record {
            at_base = at_base;
            failures = failures;
            calm = calm;
            finalizers = patched;
            status = written;
            requested = refl;
          })
          known stale pushes numbered
    pushed stale (suc k) =
        rest_round out cr versions source g alive in_region tagged base (rounds out cr (suc k) w) fs
          _ id revision present (pushed stale k)

    -- Where the source, or the spec, has changed since the last push of a secret whose id is known and
    -- whose finalizer is in place, the next reconcile sends one request to Scaleway, a version with the
    -- source's value and the namespace's token, and the status then tells of it; no further reconcile makes
    -- a request or changes the resource. The resource is valid and not being deleted, its source has opted
    -- in and holds the key, the cluster grants a role that may write, a project and credentials, and
    -- accepts all patches; the resource handed over is in the API server's version; Scaleway answers the
    -- version with its revision; and the breaker is closed.
    pub secret_rotates :
        changed out (record cr { status = some st }) source ≡ true
        → (k : ℕ)
        → let w' = rounds out cr (suc k) w in
          ((current out cr w'.log).status ≡ some (after_push out cr source id revision))
          × ((current out cr w'.log).metadata.finalizers ≡ some fs)
          × (requests_of w'.log
              ≡ pushing out (client_of g.token base) cr.spec.region id source.payload
                ∷ requests_of w.log)
    secret_rotates stale k =
        let stage = pushed stale k in (stage.status, stage.finalizers, stage.requested)
