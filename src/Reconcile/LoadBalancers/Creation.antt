-- ===== src/Reconcile/LoadBalancers/Creation.antt =====
-- src/reconcilers.rs, `reconcile_load_balancer`: when anything is created in Scaleway.
use scaleway_operator.Context.Breaker.{is_circuit_open}
use scaleway_operator.Decide.Servers.{LbReconcileInput, decide_next_action_lb, role_allows_write}
use scaleway_operator.Prelude.{
  Bool, Bool-cases, String, arith, false, inl, inr, none, refl, true, ◌≡◌, ◌≢◌,
}
use scaleway_operator.Reconcile.LoadBalancers.Handler.{
  gather, input_of, reconcile_load_balancer_inner,
}
use scaleway_operator.Reconcile.LoadBalancers.Keeps.{Keeps-execute, Keeps-gather, creates}
use scaleway_operator.Reconcile.LoadBalancers.Steps.{status_of}
use scaleway_operator.Reconcile.Shared.{
  deletion_requested, finalizer_present, get_scaleway_role_for_namespace, lb_finalizer,
  namespace_of, role_of_reply,
}
use scaleway_operator.Reconcile.Shared.Counts.{
  is_post, posts_delete, posts_finalizers, posts_get, posts_unread,
}
use scaleway_operator.Resources.Instances.{LoadBalancer}
use scaleway_operator.Runtime.Calls.{circuit_open, get_namespace_role}
use scaleway_operator.Runtime.Exec.{Result-cases, ok, ◌>>=◌}
use scaleway_operator.Runtime.Http.{good}
use scaleway_operator.Runtime.Keeps.{count_events}
use scaleway_operator.Runtime.World.{Outside, World}

decide_next_action_lb-creates :
    (i : LbReconcileInput)
    → creates (decide_next_action_lb i) ≡ true
    → (i.deletion_requested ≡ false)
      × (i.circuit_open ≡ false)
      × (i.finalizer_present ≡ true)
      × (i.scaleway_id ≡ none)
      × (role_allows_write i.scaleway_role ≡ true)
unfolding decide_next_action_lb
decide_next_action_lb-creates i h = ground arith

module _ (out : Outside) (cr : LoadBalancer) where
  gather_facts :
      (w : World) (role pid : String)
      → deletion_requested cr.metadata ≡ false
      → (gather out cr false w).0 ≡ ok (role, pid)
      → (out.namespace_role w.log (namespace_of cr.metadata) ≡ good role) × (out.is_uuid pid ≡ true)
  unfolding gather ◌>>=◌ get_scaleway_role_for_namespace get_namespace_role role_of_reply
  gather_facts w role pid alive h = ground arith

  -- The answer of the breaker.
  abbrev pub open_at : World → Bool
  open_at w = (is_circuit_open (out.instant w.log) w.circuit_breaker).0

  -- A reconcile makes a POST to Scaleway only for a load balancer that is not being deleted, with the
  -- circuit closed, the finalizer in place, no Scaleway id in its status, and a NamespaceRole that was
  -- read and whose role allows writing.
  pub reconcile_load_balancer_creates_only_if :
      (w : World)
      → count_events is_post ((reconcile_load_balancer_inner out cr w).1).log
        ≢ count_events is_post w.log
      → (role : String) × (out.namespace_role w.log (namespace_of cr.metadata) ≡ good role)
        × (role_allows_write role ≡ true)
        × (deletion_requested cr.metadata ≡ false)
        × (open_at w ≡ false)
        × (finalizer_present lb_finalizer cr.metadata ≡ true)
        × ((status_of cr).scaleway_id ≡ none)
  unfolding reconcile_load_balancer_inner ◌>>=◌ circuit_open
  reconcile_load_balancer_creates_only_if w posted =
      let n = count_events is_post w.log in
      let asked = (circuit_open out w).1 in
      let gathered = (Keeps-gather out cr (posts_unread n) (open_at w)).at asked refl in
      elim (Result-cases (gather out cr (open_at w) asked).0) [
        | inr (x, e) ↦ absurd (posted (rw e gathered))
        | inl ((role, pid), e) ↦
            elim (Bool-cases
              (creates (decide_next_action_lb (input_of out cr (open_at w) role pid)))) [
                | inr quiet ↦ absurd (
                    posted (
                      rw e (
                        (Keeps-execute out cr (posts_unread n) (posts_finalizers n) (posts_get n)
                            (posts_delete n) role _ quiet).at
                          _ gathered)))
                | inl c ↦
                    let f =
                      decide_next_action_lb-creates (input_of out cr (open_at w) role pid) c in
                    let g = gather_facts asked role pid f.0 (rw f.1 at e) in
                    (role, g.0, f.4, f.0, f.1, f.2, f.3)
              ]
      ]
