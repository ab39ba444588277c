-- ===== src/Reconcile/Instances/Finalizer.antt =====
-- src/reconcilers.rs, `handle_deletion`: when the finalizer of an instance is removed.
use scaleway_operator.Scaleway.Servers
use scaleway_operator.Error.{OperatorError}
use scaleway_operator.Prelude.{
  Bool, Option-cases, String, inl, inr, is_none, none, refl, some, true, ℕ, ◌∷◌, ◌≡◌, ◌≢◌,
}
use scaleway_operator.Reconcile.Instances.Keeps.{Keeps-delete_known}
use scaleway_operator.Reconcile.Instances.Steps.{
  delete_known, delete_with, handle_deletion, known_id, remove_finalizer_patch,
}
use scaleway_operator.Reconcile.Shared.{
  get_namespace_client, instance_finalizer, namespace_of, without_finalizer,
}
use scaleway_operator.Reconcile.Shared.Counts.{is_finalizer_patch, patches_unread}
use scaleway_operator.Resources.{instance_kind}
use scaleway_operator.Resources.Instances.{Instance}
use scaleway_operator.Runtime.Calls.{
  call_scaleway, measured, patch_finalizers, set_outcome, update_metrics,
}
use scaleway_operator.Runtime.Exec.{Result-cases, err, ok, ◌>>=◌}
use scaleway_operator.Runtime.Keeps.{count_events}
use scaleway_operator.Runtime.World.{Outside, ScalewayClient, World, patched_finalizers, sent}
use scaleway_operator.Scaleway.Laws.{delete_instance-ok, delete_request, is_gone}

module _ (out : Outside) (cr : Instance) where
  -- The branch's measurer as it starts.
  abbrev pub begin : World → World
  begin w = record w { outcome = none }

  -- While the deletion in Scaleway fails, the finalizer is not touched and the error is returned.
  pub handle_deletion-fails :
      (w : World) {e : OperatorError}
      → (delete_known out cr (begin w)).0 ≡ err e
      → ((handle_deletion out cr w).0 ≡ err e)
        × (count_events is_finalizer_patch ((handle_deletion out cr w).1).log
            ≡ count_events is_finalizer_patch w.log)
  unfolding handle_deletion measured ◌>>=◌
  handle_deletion-fails w h = rw h (
    refl,
    (Keeps-delete_known out cr (patches_unread (count_events is_finalizer_patch w.log))
          (λ c. Unit {0}) (λ x c e. tt) (λ c i r s e t log h. h)).at
        (begin w) refl,
  )

  delete_with-acknowledged :
      (w : World) (id : String) (c : ScalewayClient)
      → (delete_with out cr id (ok c) w).0 ≡ ok tt
      → (s : ℕ) × (is_gone s ≡ true)
        × (((delete_with out cr id (ok c) w).1).log
            ≡ sent (delete_request out c cr.spec.zone id) (some s) ∷ w.log)
  unfolding ◌>>=◌ call_scaleway set_outcome
  delete_with-acknowledged w id c done =
      elim (Result-cases (Servers.delete_instance out c cr.spec.zone id w).0) [
        | inl (a, e) ↦ rw e (delete_instance-ok out c cr.spec.zone id w e)
        | inr (x, e) ↦ absurd (cc (rw e at done))
      ]

  -- A credentials lookup that succeeds, and a deletion that then succeeds, leave in the log the DELETE of
  -- the known id, answered by a success or a 404, as the last call.
  pub delete_known-acknowledged :
      (w : World) (id : String) (c : ScalewayClient)
      → known_id cr ≡ some id
      → (get_namespace_client out (namespace_of cr.metadata) w).0 ≡ ok c
      → (delete_known out cr w).0 ≡ ok tt
      → (s : ℕ) × (is_gone s ≡ true)
        × (((delete_known out cr w).1).log
            ≡ sent (delete_request out c cr.spec.zone id) (some s)
              ∷ ((get_namespace_client out (namespace_of cr.metadata) w).1).log)
  unfolding delete_known ◌>>=◌
  delete_known-acknowledged w id c known creds done =
      rw (known, creds) (delete_with-acknowledged _ id c (rw (known, creds) at done))

  -- With the credentials at hand and the id of the instance known, a finalizer is patched only once
  -- Scaleway has answered the DELETE of that id by a success or a 404.
  pub handle_deletion_safe :
      (w : World) (id : String) (c : ScalewayClient)
      → known_id cr ≡ some id
      → (get_namespace_client out (namespace_of cr.metadata) (begin w)).0 ≡ ok c
      → count_events is_finalizer_patch ((handle_deletion out cr w).1).log
        ≢ count_events is_finalizer_patch w.log
      → (s : ℕ) × (is_gone s ≡ true)
        × (((delete_known out cr (begin w)).1).log
            ≡ sent (delete_request out c cr.spec.zone id) (some s)
              ∷ ((get_namespace_client out (namespace_of cr.metadata) (begin w)).1).log)
  handle_deletion_safe w id c known creds patched =
      elim (Result-cases (delete_known out cr (begin w)).0) [
        | inl (a, e) ↦ delete_known-acknowledged (begin w) id c known creds e
        | inr (x, e) ↦ absurd (patched (handle_deletion-fails w e).1)
      ]

  -- Whatever error the lookup of the credentials ends with, a transient one included, the finalizer is
  -- patched away as the next call, with no request to Scaleway.
  pub handle_deletion_without_credentials :
      (w : World) (id : String) {e : OperatorError}
      → known_id cr ≡ some id
      → (get_namespace_client out (namespace_of cr.metadata) (begin w)).0 ≡ err e
      → (b : Bool) × (((handle_deletion out cr w).1).log
          ≡ patched_finalizers instance_kind
              (namespace_of cr.metadata)
              cr.metadata.name
              (without_finalizer instance_finalizer cr.metadata)
              b
            ∷ ((get_namespace_client out (namespace_of cr.metadata) (begin w)).1).log)
  unfolding handle_deletion measured ◌>>=◌ delete_known remove_finalizer_patch patch_finalizers
      update_metrics set_outcome
  handle_deletion_without_credentials w id {e} known creds =
      let before = ((get_namespace_client out (namespace_of cr.metadata) (begin w)).1).log in
      let reply =
        out.patch_finalizers before instance_kind (namespace_of cr.metadata) cr.metadata.name
          (without_finalizer instance_finalizer cr.metadata) in
      (
        is_none reply,
        rw (known, creds) (elim (Option-cases reply) [ inl p ↦ rw p | inr (x, p) ↦ rw p ]),
      )
