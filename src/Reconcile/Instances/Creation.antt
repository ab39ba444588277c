-- ===== src/Reconcile/Instances/Creation.antt =====
-- src/reconcilers.rs, `reconcile_instance`: when anything is created in Scaleway.
use scaleway_operator.Context.Breaker.{is_circuit_open}
use scaleway_operator.Decide.Laws.{creates, decide_next_action-creates}
use scaleway_operator.Decide.Servers.{decide_next_action, role_allows_write}
use scaleway_operator.Prelude.{
  Bool, Bool-cases, String, arith, false, inl, inr, none, refl, true, ◌≡◌, ◌≢◌,
}
use scaleway_operator.Reconcile.Instances.Handler.{gather, input_of, reconcile_instance_inner}
use scaleway_operator.Reconcile.Instances.Keeps.{Keeps-execute, Keeps-gather}
use scaleway_operator.Reconcile.Instances.Steps.{status_of}
use scaleway_operator.Reconcile.Shared.{
  deletion_requested, finalizer_present, get_scaleway_role_for_namespace, instance_finalizer,
  namespace_of, role_of_reply,
}
use scaleway_operator.Reconcile.Shared.Counts.{
  is_post, posts_delete, posts_finalizers, posts_get, posts_unread,
}
use scaleway_operator.Resources.Instances.{Instance}
use scaleway_operator.Runtime.Calls.{circuit_open, get_namespace_role}
use scaleway_operator.Runtime.Exec.{Result-cases, ok, ◌>>=◌}
use scaleway_operator.Runtime.Http.{good}
use scaleway_operator.Runtime.Keeps.{count_events}
use scaleway_operator.Runtime.World.{Outside, World}

module _ (out : Outside) (cr : Instance) where
  -- The world once the breaker has been after_breaker.
  abbrev pub after_breaker : World → World
  after_breaker w = (circuit_open out w).1

  abbrev pub open_at : World → Bool
  open_at w = (is_circuit_open (out.instant w.log) w.circuit_breaker).0

  gather_facts :
      (w : World) (role pid : String)
      → deletion_requested cr.metadata ≡ false
      → (gather out cr false w).0 ≡ ok (role, pid)
      → (out.namespace_role w.log (namespace_of cr.metadata) ≡ good role) × (out.is_uuid pid ≡ true)
  unfolding gather ◌>>=◌ get_scaleway_role_for_namespace get_namespace_role role_of_reply
  gather_facts w role pid alive h = ground arith

  -- A reconcile makes a POST to Scaleway only for an instance that is not being deleted, with the circuit
  -- closed, the finalizer in place, no Scaleway id in its status, and a NamespaceRole that was read and
  -- whose role allows writing.
  pub reconcile_instance_creates_only_if :
      (w : World)
      → count_events is_post ((reconcile_instance_inner out cr w).1).log
        ≢ count_events is_post w.log
      → (role : String) × (out.namespace_role w.log (namespace_of cr.metadata) ≡ good role)
        × (role_allows_write role ≡ true)
        × (deletion_requested cr.metadata ≡ false)
        × (open_at w ≡ false)
        × (finalizer_present instance_finalizer cr.metadata ≡ true)
        × ((status_of cr).scaleway_id ≡ none)
  unfolding reconcile_instance_inner ◌>>=◌ circuit_open
  reconcile_instance_creates_only_if w posted =
      let n = count_events is_post w.log in
      let gathered =
        (Keeps-gather out cr (posts_unread n) (λ c. Unit {0}) (λ x c e. tt) (open_at w)).at
          (after_breaker w) refl in
      elim (Result-cases (gather out cr (open_at w) (after_breaker w)).0) [
        | inr (x, e) ↦ absurd (posted (rw e gathered))
        | inl ((role, pid), e) ↦
            elim (Bool-cases
              (creates (decide_next_action (input_of out cr (open_at w) role pid)))) [
                | inr quiet ↦ absurd (
                    posted (
                      rw e (
                        (Keeps-execute out cr (posts_unread n) (λ c. Unit {0}) (λ x c e. tt)
                            (posts_finalizers n) (λ c i r s e t. posts_get n r s e)
                            (λ c i r s e t. posts_delete n r s e) role _ quiet).at
                          _ gathered)))
                | inl c ↦
                    let f =
                      (decide_next_action-creates (input_of out cr (open_at w) role pid)).0 c in
                    let g = gather_facts (after_breaker w) role pid f.0 (rw f.1 at e) in
                    (role, g.0, f.4, f.0, f.1, f.2, f.3)
              ]
      ]
