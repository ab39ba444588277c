-- ===== src/Startup/Secrets/Converges.antt =====
-- src/main.rs and src/reconcilers.rs: a secret from its first reconcile until nothing is left to push, and
-- its deletion.
use scaleway_operator.Context.Breaker.{closed}
use scaleway_operator.Context.Breaker.Laws.{run}
use scaleway_operator.Prelude.{
  List, Option, String, [], ap, contains, false, format, get_or, none, refl, some, suc, true, zero,
  ℕ, ◌∙◌, ◌∷◌, ◌≡◌,
}
use scaleway_operator.Reconcile.Secrets.Rounds.{Readable}
use scaleway_operator.Reconcile.Secrets.Rounds.Creation.{Stores}
use scaleway_operator.Reconcile.Secrets.Rounds.Deletion.{delete_runs}
use scaleway_operator.Reconcile.Secrets.Rounds.Sync.{Versioned, after_push}
use scaleway_operator.Reconcile.Shared.{
  await_change, deletion_requested, finalizer_present, namespace_of, secret_finalizer,
  with_finalizer, without_finalizer,
}
use scaleway_operator.Reconcile.Shared.Patched.{
  contains-append, latest_finalizers, latest_status, remove-append,
}
use scaleway_operator.Reconcile.Shared.Reads.{Grants, client_of}
use scaleway_operator.Resources.{secret_kind}
use scaleway_operator.Resources.Secrets.{ScalewaySecret, ScalewaySecretStatus}
use scaleway_operator.Runtime.Exec.{ok}
use scaleway_operator.Runtime.Http.{HttpRequest}
use scaleway_operator.Runtime.World.{
  Event, Outside, ScalewayClient, World, patched_finalizers, read_secret, sent,
}
use scaleway_operator.Scaleway.Answers.{Answers}
use scaleway_operator.Scaleway.Answers.Secrets.{creation, pushing, removal, search_by_tags}
use scaleway_operator.Scaleway.Tags.{check_tags}
use scaleway_operator.Scaleway.Validation.{validate_region}
use scaleway_operator.Startup.{a_secret, control, reconcile, settle}
use scaleway_operator.Startup.Secrets.{
  Stage, creation_round, current, doomed, finalizer_round, read_secret_status, requests_of,
  rest_round, rounds,
}

module _ (out : Outside) (cr : ScalewaySecret)
    (versions : Versioned out (namespace_of cr.metadata) cr.metadata.name)
    (source : Readable out cr.spec.kubernetes_secret (namespace_of cr.metadata) cr.metadata.name)
    (g : Grants out (namespace_of cr.metadata)) (alive : deletion_requested cr.metadata ≡ false)
    (in_region : validate_region cr.spec.region ≡ ok tt) (tagged : check_tags cr.spec.tags ≡ ok tt)
    (base : String) (w : World) (failures : ℕ) (calm : w.circuit_breaker ≡ closed failures)
    (at_base : w.scaleway_base_url ≡ base) where
  abbrev At : ℕ → Option (List String) → Option ScalewaySecretStatus → List HttpRequest → Type 0
  At n fs st requests =
      Stage out cr versions source g alive in_region tagged base (rounds out cr n w) fs st requests

  abbrev own : ScalewayClient
  own = client_of g.token base

  module _ (unpatched : latest_finalizers cr.metadata secret_kind w.log ≡ cr.metadata.finalizers)
      (unwritten : latest_status cr.metadata read_secret_status cr.status w.log ≡ none)
      (absent : finalizer_present secret_finalizer cr.metadata ≡ false)
      (s : Stores out cr.spec
        (namespace_of cr.metadata)
        cr.metadata.name
        g.pid
        g.token
        base
        source.payload) where
    abbrev fs : List String
    fs = with_finalizer secret_finalizer cr.metadata

    there : contains fs secret_finalizer ≡ true
    there = contains-append (get_or [] cr.metadata.finalizers) secret_finalizer

    start : At 0 cr.metadata.finalizers none (requests_of w.log)
    unfolding rounds
    start = record {
      at_base = at_base;
      failures = failures;
      calm = calm;
      finalizers = unpatched;
      status = unwritten;
      requested = refl;
    }

    -- The requests of the creation, the newest first.
    abbrev creation_requests : List HttpRequest
    creation_requests =
        pushing out own cr.spec.region s.id source.payload
        ∷ creation out own cr.spec g.pid (namespace_of cr.metadata) cr.metadata.name
        ∷ search_by_tags out own cr.spec.region g.pid (namespace_of cr.metadata) cr.metadata.name
        ∷ requests_of w.log

    settled :
        (k : ℕ)
        → At
            (suc (suc k))
            (some fs)
            (some (after_push out cr source s.id s.revision))
            creation_requests
    unfolding rounds
    settled zero =
        creation_round out cr versions source g alive in_region tagged base (rounds out cr 1 w) fs
          (requests_of w.log) s there
          (finalizer_round out cr versions source g alive in_region tagged base w _
            (requests_of w.log) start absent)
    settled (suc k) =
        rest_round out cr versions source g alive in_region tagged base
          (rounds out cr (suc (suc k)) w) fs creation_requests s.id s.revision there (settled k)

    -- A controller that hands over a new secret brings it in two reconciles to a status that says Synced and
    -- holds the id, the revision, and the resource version of the source; each further reconcile leaves the
    -- resource as it is. Three requests to Scaleway were made in all, with the token of the namespace: the
    -- search by tags, the creation, and one version with the source's value. The resource is valid and not
    -- being deleted, its source has opted in and holds the key, the cluster grants a role that may write, a
    -- project and credentials, and accepts all patches; the resource handed over is in the API server's
    -- version; Scaleway finds no such secret and answers the creation with the id and the version with its
    -- revision; and the breaker is closed.
    pub secret_converges :
        (k : ℕ)
        → let w' = rounds out cr (suc (suc k)) w in
          ((current out cr w'.log).status ≡ some (after_push out cr source s.id s.revision))
          × ((current out cr w'.log).metadata.finalizers
              ≡ some (with_finalizer secret_finalizer cr.metadata))
          × (requests_of w'.log
              ≡ pushing out (client_of g.token base) cr.spec.region s.id source.payload
                ∷ creation out
                    (client_of g.token base)
                    cr.spec
                    g.pid
                    (namespace_of cr.metadata)
                    cr.metadata.name
                ∷ search_by_tags out
                    (client_of g.token base)
                    cr.spec.region
                    g.pid
                    (namespace_of cr.metadata)
                    cr.metadata.name
                ∷ requests_of w.log)
    secret_converges k = let stage = settled k in (stage.status, stage.finalizers, stage.requested)

    -- A secret as in `secret_converges`, deleted at any time after those two reconciles: where Scaleway
    -- accepts the DELETE, the next reconcile sends it for the id that was created, with the namespace's
    -- token, and then writes the finalizers as they were before the first reconcile; no other request was
    -- made since the version.
    pub secret_lifecycle :
        (k t : ℕ) {status : ℕ} {body : (out.json).Value}
        → Answers out (removal out (client_of g.token base) cr.spec.region s.id) status body
        → (w1 : World) × (control out
              (a_secret (doomed out cr t (rounds out cr (suc (suc k)) w).log))
              (rounds out cr (suc (suc k)) w)
            ≡ (await_change, w1))
          × ((earlier : List Event) × (w1.log
                ≡ patched_finalizers secret_kind
                    (namespace_of cr.metadata)
                    cr.metadata.name
                    (get_or [] cr.metadata.finalizers)
                    true
                  ∷ earlier)
              × (requests_of earlier
                  ≡ removal out (client_of g.token base) cr.spec.region s.id
                    ∷ pushing out (client_of g.token base) cr.spec.region s.id source.payload
                    ∷ creation out
                        (client_of g.token base)
                        cr.spec
                        g.pid
                        (namespace_of cr.metadata)
                        cr.metadata.name
                    ∷ search_by_tags out
                        (client_of g.token base)
                        cr.spec.region
                        g.pid
                        (namespace_of cr.metadata)
                        cr.metadata.name
                    ∷ requests_of w.log))
    unfolding control reconcile
    secret_lifecycle k t {status} removed =
        let w' = rounds out cr (suc (suc k)) w in
        let stage = settled k in
        let now = doomed out cr t w'.log in
        let earlier =
          sent (removal out own cr.spec.region s.id) (some status)
          ∷ read_secret "scaleway-system"
              (format ("scaleway-ns-creds-" ∷ namespace_of cr.metadata ∷ []))
          ∷ w'.log in
        let kept : without_finalizer secret_finalizer now.metadata
            ≡ get_or [] cr.metadata.finalizers =
          rw stage.finalizers (remove-append _ secret_finalizer absent) in
        let (w1, run, calls) =
          delete_runs out now g stage.failures w' stage.calm refl in_region s.id (rw stage.status)
            base stage.at_base removed in
        (
          w1,
          ap (settle (a_secret now)) run,
          (
            earlier,
            calls
                ∙ ap
                    (λ l.
                      patched_finalizers secret_kind (namespace_of cr.metadata) cr.metadata.name l
                        true
                      ∷ earlier)
                    kept,
            ap (λ l. removal out own cr.spec.region s.id ∷ l) stage.requested,
          ),
        )
