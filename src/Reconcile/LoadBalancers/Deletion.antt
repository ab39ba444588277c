-- ===== src/Reconcile/LoadBalancers/Deletion.antt =====
-- src/reconcilers.rs, `handle_lb_deletion`: the ends of the deletion of a load balancer.
use scaleway_operator.Scaleway.LoadBalancers
use scaleway_operator.Error.{OperatorError, scaleway_error}
use scaleway_operator.Prelude.{
  Bool, Bool-cases, String, ap, false, inl, inr, none, refl, some, true, ℕ, ◌∙◌, ◌∷◌, ◌≡◌, ◌⊎◌,
}
use scaleway_operator.Reconcile.LoadBalancers.Keeps.{Keeps-delete_known_from}
use scaleway_operator.Reconcile.LoadBalancers.Steps.{
  delete_known_from, delete_reply, handle_lb_deletion, is_locked, known_id, status_of,
  update_lb_status,
}
use scaleway_operator.Reconcile.Shared.{get_namespace_client, namespace_of}
use scaleway_operator.Reconcile.Shared.Counts.{is_finalizer_patch, patches_unread}
use scaleway_operator.Resources.Instances.{LoadBalancer}
use scaleway_operator.Runtime.Calls.{call_scaleway, measured, patch_status, set_outcome}
use scaleway_operator.Runtime.Exec.{Result, Result-cases, err, ok, ◌>>=◌}
use scaleway_operator.Runtime.Keeps.{count_events}
use scaleway_operator.Runtime.World.{
  Event, Outside, ScalewayClient, World, of_load_balancer, patched_status, sent,
}
use scaleway_operator.Scaleway.Laws.{delete_lb_request, delete_load_balancer-ok, is_gone}

module _ (out : Outside) (cr : LoadBalancer) where
  -- The branch's measurer as it starts.
  abbrev pub begin : World → World
  begin w = record w { outcome = none }

  abbrev pub deletion : World → Result (Unit {0}) × World
  deletion w = delete_known_from out cr (known_id cr) (begin w)

  -- The world once the credentials are read, and once the DELETE is answered.
  abbrev pub with_credentials : World → World
  with_credentials w = (get_namespace_client out (namespace_of cr.metadata) (begin w)).1

  abbrev pub delete_call : String → World → Result (Unit {0}) × World
  delete_call id w =
      let w1 = with_credentials w in
      call_scaleway out
        (LoadBalancers.delete_load_balancer out w1.scaleway_client cr.spec.zone id true) w1

  -- The patch that tells of a lock, as it is logged.
  abbrev pub blocked : Bool → Event
  blocked is_accepted =
      let status = status_of cr in
      patched_status (namespace_of cr.metadata) cr.metadata.name
        (of_load_balancer (record status {
          sync_state = "TerminationBlocked";
          error_message = some "Load balancer is locked — deletion blocked by Scaleway";
        }))
        is_accepted

  abbrev lock_error : OperatorError
  lock_error = scaleway_error "409" "Load balancer is locked"

  stops :
      (w : World) {e : OperatorError}
      → (deletion w).0 ≡ err e
      → ((handle_lb_deletion out cr w).0 ≡ err e)
        × (((handle_lb_deletion out cr w).1).log ≡ ((deletion w).1).log)
  unfolding handle_lb_deletion measured ◌>>=◌
  stops w h = rw h (refl, refl)

  deletion_reply :
      (w : World) (id : String) (c : ScalewayClient)
      → known_id cr ≡ some id
      → (get_namespace_client out (namespace_of cr.metadata) (begin w)).0 ≡ ok c
      → deletion w ≡ delete_reply out cr (delete_call id w).0 (delete_call id w).1
  unfolding ◌>>=◌
  deletion_reply w id c known creds = rw (known, creds) refl

  finalizers_kept :
      (w : World)
      → count_events is_finalizer_patch ((deletion w).1).log ≡ count_events is_finalizer_patch w.log
  finalizers_kept w =
      (Keeps-delete_known_from out cr (patches_unread (count_events is_finalizer_patch w.log))
          (λ r s e log h. h) (known_id cr)).at
        (begin w) refl

  -- Scaleway has answered the DELETE by a success or a 404.
  abbrev pub Acknowledged : String → World → Type 0
  Acknowledged id w =
      (s : ℕ) × (is_gone s ≡ true)
      × (((delete_call id w).1).log
          ≡ sent (delete_lb_request out (with_credentials w).scaleway_client cr.spec.zone id true)
              (some s)
            ∷ (with_credentials w).log)

  -- The deletion ended with this error, and no finalizer was touched.
  abbrev pub StoppedBy : OperatorError → World → Type 0
  StoppedBy e w =
      ((handle_lb_deletion out cr w).0 ≡ err e)
      × (count_events is_finalizer_patch ((handle_lb_deletion out cr w).1).log
          ≡ count_events is_finalizer_patch w.log)

  -- The lock was told of in the status, as the last call.
  abbrev pub Blocked : String → World → Type 0
  Blocked id w =
      StoppedBy lock_error w
      × (b : Bool) × (((handle_lb_deletion out cr w).1).log
          ≡ blocked b ∷ ((delete_call id w).1).log)

  acknowledged : (w : World) (id : String) → (delete_call id w).0 ≡ ok tt → Acknowledged id w
  unfolding call_scaleway
  acknowledged w id answered =
      let w1 = with_credentials w in
      elim (Result-cases
        (LoadBalancers.delete_load_balancer out w1.scaleway_client cr.spec.zone id true w1).0) [
          | inl (a, e) ↦
              rw e (delete_load_balancer-ok out w1.scaleway_client cr.spec.zone id true w1 e)
          | inr (x, e) ↦ absurd (cc (rw e at answered))
        ]

  stopped_by : (w : World) (e : OperatorError) → (deletion w).0 ≡ err e → StoppedBy e w
  stopped_by w e h =
      let (result, same) = stops w h in
      (result, ap (count_events is_finalizer_patch) same ∙ finalizers_kept w)

  blocked_reply :
      (e : OperatorError) (w : World)
      → is_locked e ≡ true
      → ((delete_reply out cr (err e) w).0 ≡ err lock_error)
        × (b : Bool) × (((delete_reply out cr (err e) w).1).log ≡ blocked b ∷ w.log)
  unfolding ◌>>=◌ update_lb_status patch_status set_outcome
  blocked_reply e w locked = rw locked (refl, _, refl)

  failed_reply :
      (e : OperatorError) (w : World)
      → is_locked e ≡ false
      → (delete_reply out cr (err e) w).0 ≡ err e
  unfolding ◌>>=◌ set_outcome
  failed_reply e w free = rw free refl

  -- With the credentials found and the id of the load balancer known, its deletion ends in one of three
  -- ways: Scaleway has answered the DELETE of that id by a success or a 404; or it is locked, which the
  -- status is told of in the last call, the error is a 409 and no finalizer is touched; or the DELETE
  -- fails by another error, which is returned, and no finalizer is touched.
  pub handle_lb_deletion-cases :
      (w : World) (id : String) (c : ScalewayClient)
      → known_id cr ≡ some id
      → (get_namespace_client out (namespace_of cr.metadata) (begin w)).0 ≡ ok c
      → Acknowledged id w
        ⊎ (Blocked id w ⊎ ((e : OperatorError) × (is_locked e ≡ false) × StoppedBy e w))
  handle_lb_deletion-cases w id c known creds =
      let reply = deletion_reply w id c known creds in
      elim (Result-cases (delete_call id w).0) [
        | inl (u, r) ↦ inl (acknowledged w id r)
        | inr (e, r) ↦
            let answer = reply ∙ ap (λ x. delete_reply out cr x (delete_call id w).1) r in
            elim (Bool-cases (is_locked e)) [
              | inl l ↦
                  let (result, b, last) = blocked_reply e (delete_call id w).1 l in
                  let h = ap (λ x. x.0) answer ∙ result in
                  inr (
                    inl (
                      stopped_by w lock_error h,
                      b,
                      (stops w h).1 ∙ ap (λ x. (x.1).log) answer ∙ last,
                    ))
              | inr l ↦
                  let h = ap (λ x. x.0) answer ∙ failed_reply e (delete_call id w).1 l in
                  inr (inr (e, l, stopped_by w e h))
            ]
      ]
