-- ===== src/Reconcile/Secrets/Revocation.antt =====
-- src/reconcilers.rs, `handle_opt_in_revocation`: an opt-in that was withdrawn.
use scaleway_operator.Scaleway.Secrets
use scaleway_operator.Context.Breaker.{is_circuit_open}
use scaleway_operator.Error.{OperatorError, secret_opt_in_missing}
use scaleway_operator.Prelude.{
  List, Option, String, arith, false, inl, inr, none, refl, some, true, ℕ, ◌∷◌, ◌≡◌,
}
use scaleway_operator.Reconcile.Secrets.Handler.{
  check_role, check_spec, read_source, reconcile_scaleway_secret_inner,
}
use scaleway_operator.Reconcile.Secrets.Source.{build_revoked_status, read_k8s_secret_source}
use scaleway_operator.Reconcile.Secrets.SourceKeeps.{
  Keeps-check_role, Keeps-check_spec, Keeps-read_k8s,
}
use scaleway_operator.Reconcile.Secrets.Steps.{
  disable_current, handle_opt_in_revocation, status_of, update_secret_status,
}
use scaleway_operator.Reconcile.Shared.{deletion_requested, get_namespace_client, namespace_of}
use scaleway_operator.Reconcile.Shared.Counts.{is_sent, requests_unread}
use scaleway_operator.Resources.Secrets.{KubernetesSecretRef, ScalewaySecret, ScalewaySecretStatus}
use scaleway_operator.Runtime.Calls.{call_scaleway, circuit_open, patch_status}
use scaleway_operator.Runtime.Exec.{Result, Result-cases, err, ok, pure, ◌>>=◌}
use scaleway_operator.Runtime.Keeps.Rules.{count_events}
use scaleway_operator.Runtime.World.{
  Event, Outside, ScalewayClient, World, of_secret, patched_status, sent,
}
use scaleway_operator.Scaleway.Laws.{disable_request, disable_secret_version-ok, is_disabled}

module _ (out : Outside) (cr : ScalewaySecret) where
  abbrev disabled_by : ScalewayClient → String → ℕ → World → Result (Unit {0}) × World
  disabled_by c id n w =
      call_scaleway out (Secrets.disable_secret_version out c cr.spec.region id n) w

  disabled_by-ok :
      (c : ScalewayClient) (id : String) (n : ℕ) (w : World)
      → (disabled_by c id n w).0 ≡ ok tt
      → (s : ℕ) × (is_disabled s ≡ true)
        × (((disabled_by c id n w).1).log
            ≡ sent (disable_request out c cr.spec.region id n) (some s) ∷ w.log)
  unfolding call_scaleway
  disabled_by-ok c id n w done =
      elim (Result-cases (Secrets.disable_secret_version out c cr.spec.region id n w).0) [
        | inl (a, e) ↦ rw e (disable_secret_version-ok out c cr.spec.region id n w e)
        | inr (x, e) ↦ absurd (cc (rw e at done))
      ]

  disable_current-ok :
      (id : String) (n : ℕ) (w : World)
      → (disable_current out cr id (some n) w).0 ≡ ok tt
      → (c : ScalewayClient) × (s : ℕ) × ((get_namespace_client out (namespace_of cr.metadata) w).0
          ≡ ok c)
        × (is_disabled s ≡ true)
        × (((disable_current out cr id (some n) w).1).log
            ≡ sent (disable_request out c cr.spec.region id n) (some s)
              ∷ ((get_namespace_client out (namespace_of cr.metadata) w).1).log)
  unfolding ◌>>=◌
  disable_current-ok id n w done =
      elim (Result-cases (get_namespace_client out (namespace_of cr.metadata) w).0) [
        | inr (x, e) ↦ absurd (cc (rw e at done))
        | inl (c, e) ↦
            let w' = (get_namespace_client out (namespace_of cr.metadata) w).1 in
            let (s, gone, calls) = disabled_by-ok c id n w' (rw e at done) in
            (c, s, e, gone, rw e calls)
      ]

  -- The calls of the disabling: none without a version, and else the DISABLE, with the token that the
  -- credentials of the namespace hold.
  abbrev pub Disabled : String → World → Option ℕ → List Event → Type 0
  Disabled id w none log = log ≡ w.log
  Disabled id w (some n) log =
      (c : ScalewayClient) × (s : ℕ) × ((get_namespace_client out (namespace_of cr.metadata) w).0
        ≡ ok c)
      × (is_disabled s ≡ true)
      × (log
          ≡ sent (disable_request out c cr.spec.region id n) (some s)
            ∷ ((get_namespace_client out (namespace_of cr.metadata) w).1).log)

  disable-ok :
      (id : String) (w : World) (o : Option ℕ)
      → (disable_current out cr id o w).0 ≡ ok tt
      → Disabled id w o ((disable_current out cr id o w).1).log
  unfolding pure
  disable-ok id w none h = refl
  disable-ok id w (some n) h = disable_current-ok id n w h

  -- The accepted patch that tells of the revocation.
  abbrev pub revoked : Event
  revoked =
      patched_status (namespace_of cr.metadata) cr.metadata.name
        (of_secret (build_revoked_status (status_of cr))) true

  update-ok :
      (st : ScalewaySecretStatus) (w : World)
      → (update_secret_status out cr st w).0 ≡ ok tt
      → ((update_secret_status out cr st w).1).log
        ≡ patched_status (namespace_of cr.metadata) cr.metadata.name (of_secret st) true ∷ w.log
  unfolding update_secret_status patch_status
  update-ok st w h = ground arith

  -- A revocation that succeeds has first had the current version disabled in Scaleway, where the status holds
  -- one, with the namespace's token and by a success or a 409, and has then written the status of a revoked
  -- secret, as its last call.
  pub handle_opt_in_revocation-ok :
      (w : World) (id : String)
      → (handle_opt_in_revocation out cr id w).0 ≡ ok tt
      → (earlier : List Event) × Disabled id w (status_of cr).current_version earlier
        × (((handle_opt_in_revocation out cr id w).1).log ≡ revoked ∷ earlier)
  unfolding handle_opt_in_revocation ◌>>=◌
  handle_opt_in_revocation-ok w id done =
      let o = (status_of cr).current_version in
      elim (Result-cases (disable_current out cr id o w).0) [
        | inr (x, e) ↦ absurd (cc (rw e at done))
        | inl (u, e) ↦ (
          ((disable_current out cr id o w).1).log,
          disable-ok id w o e,
          rw e (
              update-ok (build_revoked_status (status_of cr)) (disable_current out cr id o w).1
                (rw e at done)),
        )
      ]

  -- The resource, once the revocation is written.
  abbrev pub revoked_cr : ScalewaySecret
  revoked_cr = record cr { status = some (build_revoked_status (status_of cr)) }

  -- The source has not opted in, whatever was called before.
  abbrev pub OptInMissing : KubernetesSecretRef → String → Type 0
  OptInMissing ks_ref reason =
      (w : World)
      → (read_k8s_secret_source out (namespace_of cr.metadata) ks_ref (namespace_of cr.metadata)
          cr.metadata.name w).0
        ≡ err (secret_opt_in_missing reason)

  read_source_refused :
      (w : World) (ks_ref : KubernetesSecretRef) (reason : String)
      → cr.spec.kubernetes_secret ≡ some ks_ref
      → deletion_requested cr.metadata ≡ false
      → OptInMissing ks_ref reason
      → (read_source out revoked_cr w).0 ≡ err (secret_opt_in_missing reason)
  unfolding read_source ◌>>=◌ build_revoked_status
  read_source_refused w ks_ref reason configured alive missing =
      rw (configured, alive, missing w) refl

  read_source_unsent :
      (w : World) (ks_ref : KubernetesSecretRef) (reason : String) (n : ℕ)
      → cr.spec.kubernetes_secret ≡ some ks_ref
      → deletion_requested cr.metadata ≡ false
      → OptInMissing ks_ref reason
      → count_events is_sent w.log ≡ n
      → count_events is_sent ((read_source out revoked_cr w).1).log ≡ n
  unfolding read_source ◌>>=◌ build_revoked_status
  read_source_unsent w ks_ref reason n configured alive missing h =
      rw (configured, alive, missing w)
        ((Keeps-read_k8s out revoked_cr (requests_unread n) (namespace_of cr.metadata) ks_ref
            (namespace_of cr.metadata) cr.metadata.name).at
          w h)

  -- While the opt-in of a source is missing, a reconcile of a revoked secret that is not being deleted makes
  -- no request to Scaleway, and fails.
  pub handle_opt_in_revocation_once :
      (w : World) (ks_ref : KubernetesSecretRef) (reason : String)
      → cr.spec.kubernetes_secret ≡ some ks_ref
      → deletion_requested cr.metadata ≡ false
      → OptInMissing ks_ref reason
      → (count_events is_sent ((reconcile_scaleway_secret_inner out revoked_cr w).1).log
          ≡ count_events is_sent w.log)
        × ((e : OperatorError) × ((reconcile_scaleway_secret_inner out revoked_cr w).0 ≡ err e))
  unfolding reconcile_scaleway_secret_inner ◌>>=◌ circuit_open
  handle_opt_in_revocation_once w ks_ref reason configured alive missing =
      let n = count_events is_sent w.log in
      let asked = (circuit_open out w).1 in
      let is_open = (is_circuit_open (out.instant w.log) w.circuit_breaker).0 in
      let checked = (check_spec out revoked_cr asked).1 in
      let admitted = (check_role out revoked_cr is_open checked).1 in
      let log1 = (Keeps-check_spec out revoked_cr (requests_unread n)).at asked refl in
      let log2 = (Keeps-check_role out revoked_cr (requests_unread n) is_open).at checked log1 in
      elim (Result-cases (check_spec out revoked_cr asked).0) [
        | inr (x, e) ↦ (rw e log1, (x, rw e refl))
        | inl (u, e) ↦ elim (Result-cases (check_role out revoked_cr is_open checked).0) [
          | inr (x, e') ↦ (rw (e, e') log2, (x, rw (e, e') refl))
          | inl (u', e') ↦
              let read = read_source_refused admitted ks_ref reason configured alive missing in
              let quiet =
                read_source_unsent admitted ks_ref reason n configured alive missing log2 in
              (rw (e, e', read) quiet, (secret_opt_in_missing reason, rw (e, e', read) refl))
        ]
      ]
