-- ===== src/Reconcile/LoadBalancers/Once.antt =====
-- src/reconcilers.rs, `reconcile_load_balancer`: a creation that succeeds is written down, and not repeated.
use scaleway_operator.Decide.Servers.{LbReconcileDecision}
use scaleway_operator.Reconcile.LoadBalancers.Keeps.{creates}
use scaleway_operator.Decide.Servers.{
  add_lb_finalizer, create_load_balancer, decide_next_action_lb, delete_load_balancer,
  remove_lb_finalizer, sync_load_balancer, verify_project_access_lb,
}
use scaleway_operator.Prelude.{
  Bool, Bool-cases, List, String, arith, if◌then◌else◌, inl, inr, refl, some, true, ◌∷◌, ◌≡◌, ◌≢◌,
}
use scaleway_operator.Reconcile.LoadBalancers.Creation.{
  open_at, reconcile_load_balancer_creates_only_if,
}
use scaleway_operator.Reconcile.LoadBalancers.Handler.{
  execute, gather, input_of, reconcile_load_balancer_inner,
}
use scaleway_operator.Reconcile.LoadBalancers.Keeps.{Keeps-execute, Keeps-gather}
use scaleway_operator.Reconcile.LoadBalancers.Learned.{
  adopt_or_create-Learned, of_creation, of_search,
}
use scaleway_operator.Reconcile.LoadBalancers.Steps.{
  created_status, execute_create_load_balancer, status_of, update_lb_status,
}
use scaleway_operator.Reconcile.Shared.{Action, namespace_of, requeue}
use scaleway_operator.Reconcile.Shared.Counts.{
  is_post, posts_delete, posts_finalizers, posts_get, posts_unread, same_count,
}
use scaleway_operator.Resources.Instances.{LoadBalancer, LoadBalancerStatus}
use scaleway_operator.Runtime.Calls.{circuit_open, patch_status, set_outcome, update_metrics}
use scaleway_operator.Runtime.Ends.{EndsIn, Yields-end, bind_after, bind_ends, measured_ends}
use scaleway_operator.Runtime.Exec.{Exec, Result-cases, ok, pure, ◌>>=◌, ◌>>◌}
use scaleway_operator.Runtime.Keeps.Rules.{count_events}
use scaleway_operator.Runtime.Metrics.{adopted, created, inc_load_balancers}
use scaleway_operator.Runtime.World.{Event, Outside, World, of_load_balancer, patched_status}
use scaleway_operator.Scaleway.Learns.{Learned}

module _ (out : Outside) (cr : LoadBalancer) where
  -- The newest call is an accepted write of a status with the id that the call before it has learned.
  abbrev WroteId : List Event → Type 0
  WroteId log =
      (st : LoadBalancerStatus) × (id : String) × (earlier : List Event) × (st.scaleway_id
        ≡ some id)
      × Learned out (of_creation out cr) (of_search out cr) id earlier
      × (log
          ≡ patched_status (namespace_of cr.metadata) cr.metadata.name (of_load_balancer st) true
            ∷ earlier)

  update_lb_status-ok :
      (st : LoadBalancerStatus) (w : World) (u : Unit {0})
      → (update_lb_status out cr st w).0 ≡ ok u
      → ((update_lb_status out cr st w).1).log
        ≡ patched_status (namespace_of cr.metadata) cr.metadata.name (of_load_balancer st) true
          ∷ w.log
  unfolding update_lb_status patch_status
  update_lb_status-ok st w u h = ground arith

  written :
      (st : LoadBalancerStatus) (id : String)
      → st.scaleway_id ≡ some id
      → (w : World) → Learned out (of_creation out cr) (of_search out cr) id w.log
      → (a : Action) → ((update_lb_status out cr st >> pure (requeue 10)) w).0 ≡ ok a
      → WroteId (((update_lb_status out cr st >> pure (requeue 10)) w).1).log
  unfolding ◌>>=◌
  written st id known w learned a h = elim (Result-cases (update_lb_status out cr st w).0) [
    | inl (u, e) ↦ (st, id, w.log, known, learned, rw e (update_lb_status-ok st w u e))
    | inr (x, e) ↦ cc (rw e at h)
  ]

  -- What follows once the id is known.
  abbrev rest : String → String × Bool → Exec Action
  rest pid (id, was_adopted) = do
    update_metrics (inc_load_balancers cr.spec.zone cr.spec.lb_type "pending")
    set_outcome (if was_adopted then adopted else created)
    update_lb_status out cr (created_status out cr id pid)
    pure (requeue 10)

  rest_ends :
      (pid : String) (p : String × Bool) (w : World)
      → Learned out (of_creation out cr) (of_search out cr) p.0 w.log
      → (a : Action) → (rest pid p w).0 ≡ ok a
      → WroteId ((rest pid p w).1).log
  unfolding ◌>>=◌ update_metrics set_outcome
  rest_ends pid p w learned a h =
      written (created_status out cr p.0 pid) p.0 refl
        (set_outcome (if p.1 then adopted else created)
          (update_metrics (inc_load_balancers cr.spec.zone cr.spec.lb_type "pending") w).1).1
        learned a h

  creation_ends : (pid : String) → EndsIn WroteId (execute_create_load_balancer out cr pid)
  unfolding execute_create_load_balancer
  creation_ends pid = bind_ends _ _ (λ c. Yields-end _ (
      bind_after {P = λ p log. Learned out (of_creation out cr) (of_search out cr) p.0 log} _
        (rest pid) (adopt_or_create-Learned out cr c pid) (rest_ends pid)))

  execute_ends :
      (role : String) (d : LbReconcileDecision)
      → creates d ≡ true
      → EndsIn WroteId (execute out cr role d)
  unfolding execute
  execute_ends role (verify_project_access_lb pid) h =
      measured_ends out _
        (bind_ends _ _ (λ u. bind_ends _ _ (λ c. bind_ends _ _ (λ u'. creation_ends pid))))
  execute_ends role (create_load_balancer pid) h =
      measured_ends out _ (bind_ends _ _ (λ u. creation_ends pid))
  execute_ends role LbReconcileDecision.skip_circuit_open h = cc
  execute_ends role add_lb_finalizer h = cc
  execute_ends role LbReconcileDecision.block_read_only_role h = cc
  execute_ends role (sync_load_balancer id pid) h = cc
  execute_ends role delete_load_balancer h = cc
  execute_ends role remove_lb_finalizer h = cc

  reconcile_ends :
      (w : World) (a : Action)
      → (reconcile_load_balancer_inner out cr w).0 ≡ ok a
      → count_events is_post ((reconcile_load_balancer_inner out cr w).1).log
        ≢ count_events is_post w.log
      → WroteId ((reconcile_load_balancer_inner out cr w).1).log
  unfolding reconcile_load_balancer_inner ◌>>=◌ circuit_open
  reconcile_ends w a h posted =
      let n = count_events is_post w.log in
      let gathered =
        (Keeps-gather out cr (posts_unread n) (open_at out cr w)).at (circuit_open out w).1 refl in
      elim (Result-cases (gather out cr (open_at out cr w) (circuit_open out w).1).0) [
        | inr (x, e) ↦ absurd (posted (rw e gathered))
        | inl ((role, pid), e) ↦
            elim (Bool-cases
              (creates (decide_next_action_lb (input_of out cr (open_at out cr w) role pid)))) [
                | inr quiet ↦ absurd (
                    posted (
                      rw e (
                        (Keeps-execute out cr (posts_unread n) (posts_finalizers n) (posts_get n)
                            (posts_delete n) role _ quiet).at
                          _ gathered)))
                | inl c ↦ rw e ((execute_ends role _ c).at _ a (rw e at h))
              ]
      ]

known_posts_nothing :
    (out : Outside) (cr : LoadBalancer) (w : World) (id : String)
    → (status_of cr).scaleway_id ≡ some id
    → count_events is_post ((reconcile_load_balancer_inner out cr w).1).log
      ≡ count_events is_post w.log
known_posts_nothing out cr w id known = same_count _ _ (λ posted.
    let (role, read, allows, alive, shut_now, finalizer, unread) =
      reconcile_load_balancer_creates_only_if out cr w posted in
    cc)

-- A reconcile of a load balancer that succeeds and has made a POST to Scaleway ends with an accepted write
-- of a status that holds the id which the answer of the call before it names, a creation or a search; and
-- the reconcile of the load balancer with that status, in any world, makes no POST: a creation is not
-- repeated.
pub reconcile_load_balancer_creates_once :
    (out : Outside) (cr : LoadBalancer) (w w2 : World) (a : Action)
    → (reconcile_load_balancer_inner out cr w).0 ≡ ok a
    → count_events is_post ((reconcile_load_balancer_inner out cr w).1).log
      ≢ count_events is_post w.log
    → (st : LoadBalancerStatus) × (id : String) × (earlier : List Event) × (st.scaleway_id
        ≡ some id)
      × Learned out (of_creation out cr) (of_search out cr) id earlier
      × (((reconcile_load_balancer_inner out cr w).1).log
          ≡ patched_status (namespace_of cr.metadata) cr.metadata.name (of_load_balancer st) true
            ∷ earlier)
      × (count_events is_post
            ((reconcile_load_balancer_inner out (record cr { status = some st }) w2).1).log
          ≡ count_events is_post w2.log)
reconcile_load_balancer_creates_once out cr w w2 a h posted =
    let (st, id, earlier, known, learned, wrote) = reconcile_ends out cr w a h posted in
    (
      st,
      id,
      earlier,
      known,
      learned,
      wrote,
      known_posts_nothing out (record cr { status = some st }) w2 id known,
    )
