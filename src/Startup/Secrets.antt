-- ===== src/Startup/Secrets.antt =====
-- src/main.rs and src/reconcilers.rs: the life of a secret under its controller, which hands the reconciler
-- the resource as its patches have left it, in the API server's version.
pub mod Converges
pub mod Rotation
use scaleway_operator.Context.Breaker.{closed}
use scaleway_operator.Context.Breaker.Laws.{run}
use scaleway_operator.Decide.SecretLaws.{eq_option_self, eq_option_ℕ_self}
use scaleway_operator.Prelude.{
  List, Option, String, [], ap, arith, contains, eq_option, eq_refl, false, get_or, map_option,
  none, refl, some, str_eq, suc, true, u32, zero, ℕ, ◌++◌, ◌∙◌, ◌∷◌, ◌≡◌,
}
use scaleway_operator.Reconcile.Secrets.Handler.{reconcile_scaleway_secret}
use scaleway_operator.Reconcile.Secrets.Rounds.{Readable}
use scaleway_operator.Reconcile.Secrets.Rounds.Creation.{Stores, create_runs, finalizer_runs}
use scaleway_operator.Reconcile.Secrets.Rounds.Sync.{
  Versioned, after_push, build_already_synced_status-after_push, changed, push_runs, rest_runs,
}
use scaleway_operator.Reconcile.Shared.{Action, deletion_requested, namespace_of, secret_finalizer}
use scaleway_operator.Reconcile.Shared.Patched.{latest_finalizers, latest_status}
use scaleway_operator.Reconcile.Shared.Reads.{Grants, client_of}
use scaleway_operator.Resources.{secret_kind}
use scaleway_operator.Resources.Secrets.{ScalewaySecret, ScalewaySecretStatus}
use scaleway_operator.Resources.Wire.{Value}
use scaleway_operator.Runtime.Exec.{ok}
use scaleway_operator.Runtime.Http.{HttpRequest, bad, good}
use scaleway_operator.Runtime.World.{
  Event, Outside, ScalewayClient, StatusPatch, World, of_secret, sent,
}
use scaleway_operator.Scaleway.Answers.{Answers}
use scaleway_operator.Scaleway.Answers.Secrets.{creation, pushing, search_by_tags}
use scaleway_operator.Scaleway.Tags.{check_tags}
use scaleway_operator.Scaleway.Validation.{validate_region}
use scaleway_operator.Startup.{a_secret, control, reconcile, settle}
use scaleway_operator.Tests.{metadata}

abbrev pub read_secret_status : StatusPatch → Option ScalewaySecretStatus
read_secret_status (of_secret st) = some st
read_secret_status _ = none

-- The requests to Scaleway, the newest first.
abbrev pub requests_of : List Event → List HttpRequest
requests_of [] = []
requests_of (sent r s ∷ log) = r ∷ requests_of log
requests_of (_ ∷ log) = requests_of log

module _ (out : Outside) (cr : ScalewaySecret) where
  abbrev live_version : List Event → Option String
  live_version log =
      elim (out.live_resource_version log secret_kind (namespace_of cr.metadata) cr.metadata.name) [
        | good v ↦ v
        | bad e ↦ cr.metadata.resource_version
      ]

  -- The resource as its patches have left it.
  abbrev pub current : List Event → ScalewaySecret
  current log =
      let m = cr.metadata in
      record cr {
        metadata = record m {
          finalizers = latest_finalizers m secret_kind log;
          resource_version = live_version log;
        };
        status = latest_status m read_secret_status cr.status log;
      }

  -- The resource, once a user has deleted it.
  abbrev pub doomed : ℕ → List Event → ScalewaySecret
  doomed t log =
      let c = current log in
      let m = c.metadata in record c { metadata = record m { deletion_timestamp = some t } }

  abbrev pub handed : World → World
  handed w = (control out (a_secret (current w.log)) w).1

  -- So many reconciles, one after the other.
  unfoldable pub rounds : ℕ → World → World
  rounds zero w = w
  rounds (suc n) w = handed (rounds n w)

  controlled :
      (w w1 : World) (a : Action)
      → reconcile_scaleway_secret out (current w.log) w ≡ (ok a, w1)
      → handed w ≡ w1
  unfolding control reconcile
  controlled w w1 a h = ap (λ p. (settle (a_secret (current w.log)) p).1) h

  own_namespace : str_eq (namespace_of cr.metadata) (namespace_of cr.metadata) ≡ true
  own_namespace = eq_refl _

  own_name : str_eq cr.metadata.name cr.metadata.name ≡ true
  own_name = eq_refl _

  module _ (versions : Versioned out (namespace_of cr.metadata) cr.metadata.name) where
    is_current :
        (log : List Event) → eq_option str_eq (versions.version log) (live_version log) ≡ true
    is_current log = rw (live_version, versions.live log) (eq_option_self (versions.version log))

    module _
        (source : Readable out cr.spec.kubernetes_secret
          (namespace_of cr.metadata)
          cr.metadata.name)
        (g : Grants out (namespace_of cr.metadata)) (alive : deletion_requested cr.metadata ≡ false)
        (in_region : validate_region cr.spec.region ≡ ok tt)
        (tagged : check_tags cr.spec.tags ≡ ok tt) (base : String) where
      -- The client with the token of the namespace.
      abbrev own : ScalewayClient
      own = client_of g.token base

      -- What a reconcile leaves: the base URL, a closed breaker, the resource, and the requests to Scaleway.
      pub record Stage (w : World) (fs : Option (List String)) (st : Option ScalewaySecretStatus)
          (requests : List HttpRequest) : Type 0 where
        pub at_base : w.scaleway_base_url ≡ base
        pub failures : ℕ
        pub calm : w.circuit_breaker ≡ closed failures
        pub finalizers : latest_finalizers cr.metadata secret_kind w.log ≡ fs
        pub status : latest_status cr.metadata read_secret_status cr.status w.log ≡ st
        pub requested : requests_of w.log ≡ requests

      pub finalizer_round :
          (w : World) (fs : Option (List String)) (requests : List HttpRequest)
          → Stage w fs none requests
          → contains (get_or [] fs) secret_finalizer ≡ false
          → Stage (handed w) (some (get_or [] fs ++ secret_finalizer ∷ [])) none requests
      finalizer_round w fs requests stage absent =
          let now = current w.log in
          let run = controlled w _ _ (
            finalizer_runs out now source g alive in_region tagged stage.failures w stage.calm
              (rw stage.finalizers absent)) in
          rw run (record {
            at_base = stage.at_base;
            failures = stage.failures;
            calm = refl;
            finalizers = rw (own_namespace, own_name, stage.finalizers);
            status = stage.status;
            requested = stage.requested;
          })

      pub creation_round :
          (w : World) (fs : List String) (requests : List HttpRequest)
          (s : Stores out cr.spec
            (namespace_of cr.metadata)
            cr.metadata.name
            g.pid
            g.token
            base
            source.payload)
          → contains fs secret_finalizer ≡ true
          → Stage w (some fs) none requests
          → Stage (handed w) (some fs) (some (after_push out cr source s.id s.revision)) (
              pushing out own cr.spec.region s.id source.payload
              ∷ creation out own cr.spec g.pid (namespace_of cr.metadata) cr.metadata.name
              ∷ search_by_tags out own cr.spec.region g.pid
                  (namespace_of cr.metadata)
                  cr.metadata.name
              ∷ requests)
      creation_round w fs requests s there stage =
          let now = current w.log in
          let (w1, run, calls, kept) =
            create_runs out now source g alive in_region tagged stage.failures w stage.calm
              (rw stage.finalizers there) (rw stage.status) versions (is_current w.log) base
              stage.at_base s in
          rw (controlled w w1 _ run) (record {
            at_base = kept.base_url ∙ stage.at_base;
            failures = kept.failures;
            calm = kept.closed_breaker;
            finalizers = rw calls stage.finalizers;
            status = rw (calls, own_namespace, own_name);
            requested = rw calls (
                ap
                  (λ l.
                    pushing out own cr.spec.region s.id source.payload
                    ∷ creation out own cr.spec g.pid (namespace_of cr.metadata) cr.metadata.name
                    ∷ search_by_tags out own cr.spec.region g.pid (namespace_of cr.metadata)
                        cr.metadata.name
                    ∷ l)
                  stage.requested);
          })

      pub push_round :
          (w : World) (fs : List String) (st : ScalewaySecretStatus) (requests : List HttpRequest)
          (id : String) (revision : ℕ) {s : ℕ} {v : (out.json).Value}
          → contains fs secret_finalizer ≡ true
          → Stage w (some fs) (some st) requests
          → st.scaleway_id ≡ some id
          → changed out (record cr { status = some st }) source ≡ true
          → Answers out (pushing out (client_of g.token base) cr.spec.region id source.payload) s v
          → map_option u32 ((out.json).as_u64 ((out.json).index v "revision")) ≡ some revision
          → Stage
              (handed w)
              (some fs)
              (some (after_push out cr source id revision))
              (pushing out own cr.spec.region id source.payload ∷ requests)
      push_round w fs st requests id revision there stage known stale pushes numbered =
          let now = current w.log in
          let (w1, run, calls, kept) =
            push_runs out now source g alive in_region tagged (rw stage.finalizers there)
              stage.failures w stage.calm id (rw stage.status known) versions (is_current w.log)
              base stage.at_base revision pushes numbered (rw stage.status stale) in
          rw (controlled w w1 _ run) (record {
            at_base = kept.base_url ∙ stage.at_base;
            failures = kept.failures;
            calm = kept.closed_breaker;
            finalizers = rw calls stage.finalizers;
            status = rw (calls, own_namespace, own_name);
            requested =
                rw calls
                  (ap (λ l. pushing out own cr.spec.region id source.payload ∷ l) stage.requested);
          })

      unchanged :
          (id : String) (revision : ℕ)
          → changed out (record cr { status = some (after_push out cr source id revision) }) source
            ≡ false
      unchanged id revision =
          rw
            (eq_option_self (some source.resource_version), eq_option_ℕ_self cr.metadata.generation)
            (ground arith)

      pub rest_round :
          (w : World) (fs : List String) (requests : List HttpRequest) (id : String) (revision : ℕ)
          → contains fs secret_finalizer ≡ true
          → Stage w (some fs) (some (after_push out cr source id revision)) requests
          → Stage (handed w) (some fs) (some (after_push out cr source id revision)) requests
      rest_round w fs requests id revision there stage =
          let now = current w.log in
          let (w1, run, calls, kept) =
            rest_runs out now source g alive in_region tagged (rw stage.finalizers there)
              stage.failures w stage.calm id (rw stage.status)
              (rw stage.status (unchanged id revision))
              (rw stage.status
                (build_already_synced_status-after_push out cr source id revision)) in
          rw (controlled w w1 _ run) (record {
            at_base = kept.base_url ∙ stage.at_base;
            failures = kept.failures;
            calm = kept.closed_breaker;
            finalizers = rw calls stage.finalizers;
            status = rw calls stage.status;
            requested = rw calls stage.requested;
          })
