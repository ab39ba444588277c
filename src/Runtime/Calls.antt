-- ===== src/Runtime/Calls.antt =====
-- The calls of a reconciler that leave the program, and those on the state that the reconcilers share:
-- the circuit breaker, the measurer and the metrics.
use scaleway_operator.Prelude.{
  ℕ, String, Bool, not, Option, none, some, List, ◌∷◌, is_none, get_or, if◌then◌else◌,
}
use scaleway_operator.Error.{KubeError, kube_error, is_permanent_error}
use scaleway_operator.Resources.{Kind}
use scaleway_operator.Resources.Secrets.{ScalewaySecret, Secret}
use scaleway_operator.Context.Breaker.{
  is_circuit_open, record_scaleway_failure, record_scaleway_success,
}
use scaleway_operator.Runtime.Http.{Try, good, bad, HttpRequest, Response}
use scaleway_operator.Runtime.Metrics.{ReconcileOutcome, Metrics, error, is_error, record_duration}
use scaleway_operator.Runtime.World.{
  Event, sent, read_namespace_role, read_namespace, read_secret, read_live, read_scaleway_secret,
  patched_finalizers, patched_status, published, StatusPatch, World, Outside,
}
use scaleway_operator.Runtime.Exec.{Result, ok, err, Exec, kube, net}

abbrev pub note : Event → World → World
note e w = record w { log = e ∷ w.log }

abbrev pub response_status : {E V : Type 0} → Try E (Response V) → Option ℕ
response_status (good r) = some r.status
response_status (bad e) = none

module _ (out : Outside) where
  -- `send().await?`
  unfoldable pub send : HttpRequest → Exec (Response (out.json).Value)
  send request w =
      let answer = out.send w.log request in
      (net answer, note (sent request (response_status answer)) w)

  unfoldable pub get_namespace_role : String → Exec (Try KubeError String)
  get_namespace_role namespace w =
      (ok (out.namespace_role w.log namespace), note (read_namespace_role namespace) w)

  unfoldable pub get_namespace_annotations : String → Exec (Try KubeError (List (String × String)))
  get_namespace_annotations namespace w =
      (ok (out.namespace_annotations w.log namespace), note (read_namespace namespace) w)

  unfoldable pub get_secret : String → String → Exec (Try KubeError Secret)
  get_secret namespace name w =
      (ok (out.secret w.log namespace name), note (read_secret namespace name) w)

  unfoldable pub get_live_resource_version : Kind → String → String → Exec (Option String)
  get_live_resource_version kind namespace name w = (
    kube (out.live_resource_version w.log kind namespace name),
    note (read_live kind namespace name) w,
  )

  unfoldable pub get_scaleway_secret : String → String → Exec (Option ScalewaySecret)
  get_scaleway_secret namespace name w = (
    kube (out.scaleway_secret w.log namespace name),
    note (read_scaleway_secret namespace name) w,
  )

  abbrev pub accepted : Option KubeError → Result (Unit {0})
  accepted none = ok tt
  accepted (some e) = err (kube_error e)

  -- `api.patch` of `metadata.finalizers`, under `?`
  unfoldable pub patch_finalizers : Kind → String → String → List String → Exec (Unit {0})
  patch_finalizers kind namespace name finalizers w =
      let reply = out.patch_finalizers w.log kind namespace name finalizers in
      (accepted reply, note (patched_finalizers kind namespace name finalizers (is_none reply)) w)

  -- `api.patch_status`, under `?`
  unfoldable pub patch_status : String → String → StatusPatch → Exec (Unit {0})
  patch_status namespace name status w =
      let reply = out.patch_status w.log namespace name status in
      (accepted reply, note (patched_status namespace name status (is_none reply)) w)

  -- `recorder.publish`, whose failure is only logged
  unfoldable pub publish : String → String → String → Exec (Unit {0})
  publish namespace name drift w = (ok tt, note (published namespace name drift) w)

  -- The circuit breaker of the context, at the present instant.
  unfoldable pub circuit_open : Exec Bool
  circuit_open w =
      let (answer, state) = is_circuit_open (out.instant w.log) w.circuit_breaker in
      (ok answer, record w { circuit_breaker = state })

  abbrev pub note_success : World → World
  note_success w = record w { circuit_breaker = record_scaleway_success w.circuit_breaker }

  abbrev pub note_failure : World → World
  note_failure w = record w {
    circuit_breaker = record_scaleway_failure (out.instant w.log) w.circuit_breaker;
  }

  -- What the breaker is told: a success, or a transient error.
  abbrev pub tell : {A : Type 0} → Result A → World → World
  tell (ok a) w = note_success w
  tell (err e) w = if not (is_permanent_error e) then note_failure w else w

  unfoldable pub call_scaleway : {A : Type 0} → Exec A → Exec A
  call_scaleway f w = let (r, w') = f w in (r, tell r w')

  -- `ReconcileMeasurer`: made at the start of a branch, dropped at its end with the outcome that was set,
  -- or `Error` where none was.
  abbrev pub drop_measurer : World → World
  drop_measurer w =
      let o = get_or error w.outcome in
      record w {
        metrics = record_duration o w.metrics;
        last_reconcile_at =
            if not (is_error o) then out.epoch_seconds w.log else w.last_reconcile_at;
      }

  unfoldable pub measured : {A : Type 0} → Exec A → Exec A
  measured m w = let (r, w') = m (record w { outcome = none }) in (r, drop_measurer w')

unfoldable pub set_outcome : ReconcileOutcome → Exec (Unit {0})
set_outcome o w = (ok tt, record w { outcome = some o })

unfoldable pub update_metrics : (Metrics → Metrics) → Exec (Unit {0})
update_metrics f w = (ok tt, record w { metrics = f w.metrics })
