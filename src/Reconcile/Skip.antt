-- ===== src/Reconcile/Skip.antt =====
-- src/reconcilers.rs: with the circuit open, an instance, a load balancer or a database that is not being
-- deleted is left as it is.
use scaleway_operator.Reconcile.Instances.Handler as InstanceHandler
use scaleway_operator.Reconcile.LoadBalancers.Handler as LbHandler
use scaleway_operator.Reconcile.Databases.Handler as RdbHandler
use scaleway_operator.Context.Breaker.{
  CircuitBreakerState, closed, half_open, is_circuit_open, opened,
}
use scaleway_operator.Decide.Databases.{decide_next_action_rdb}
use scaleway_operator.Decide.Servers.{decide_next_action, decide_next_action_lb}
use scaleway_operator.Error.{circuit_breaker_open}
use scaleway_operator.Prelude.{arith, false, refl, true, ℕ, ◌≡◌}
use scaleway_operator.Reconcile.Shared.{deletion_requested}
use scaleway_operator.Resources.Databases.{Rdb}
use scaleway_operator.Resources.Instances.{Instance, LoadBalancer}
use scaleway_operator.Runtime.Calls.{circuit_open}
use scaleway_operator.Runtime.Exec.{err, ok, ◌>>=◌}
use scaleway_operator.Runtime.World.{Outside, World}
use scaleway_operator.Scaleway.Tags.{check_tags}
use scaleway_operator.Scaleway.Validation.{validate_region}

blocking :
    (now : ℕ) (s : CircuitBreakerState)
    → (is_circuit_open now s).0 ≡ true
    → is_circuit_open now s ≡ (true, s)
unfolding is_circuit_open
blocking now (closed n) h = cc
blocking now half_open h = cc
blocking now (opened t) h = ground arith

module _ (out : Outside) (w : World)
    (blocked : (is_circuit_open (out.instant w.log) w.circuit_breaker).0 ≡ true) where
  asked_open : circuit_open out w ≡ (ok true, w)
  unfolding circuit_open
  asked_open = rw (blocking (out.instant w.log) w.circuit_breaker blocked) refl

  -- With the circuit open, the reconcile of an instance that is not being deleted makes no call, in the
  -- cluster or in Scaleway, changes nothing, and ends with the error of the circuit breaker.
  reconcile_instance_skips :
      (cr : Instance)
      → deletion_requested cr.metadata ≡ false
      → InstanceHandler.reconcile_instance out cr w ≡ (err circuit_breaker_open, w)
  unfolding InstanceHandler.reconcile_instance InstanceHandler.reconcile_instance_inner ◌>>=◌
      InstanceHandler.gather InstanceHandler.execute decide_next_action
  reconcile_instance_skips cr alive = rw (asked_open, alive) refl

  -- With the circuit open, the reconcile of a load balancer that is not being deleted makes no call,
  -- changes nothing, and ends with the error of the circuit breaker.
  reconcile_load_balancer_skips :
      (cr : LoadBalancer)
      → deletion_requested cr.metadata ≡ false
      → LbHandler.reconcile_load_balancer out cr w ≡ (err circuit_breaker_open, w)
  unfolding LbHandler.reconcile_load_balancer LbHandler.reconcile_load_balancer_inner ◌>>=◌
      LbHandler.gather LbHandler.execute decide_next_action_lb
  reconcile_load_balancer_skips cr alive = rw (asked_open, alive) refl

  -- With the circuit open, the reconcile of a database that is not being deleted, and whose region and
  -- tags are accepted, makes no call, changes nothing, and ends with the error of the circuit breaker.
  reconcile_rdb_skips :
      (cr : Rdb)
      → deletion_requested cr.metadata ≡ false
      → validate_region cr.spec.region ≡ ok tt
      → check_tags cr.spec.tags ≡ ok tt
      → RdbHandler.reconcile_rdb out cr w ≡ (err circuit_breaker_open, w)
  unfolding RdbHandler.reconcile_rdb RdbHandler.reconcile_rdb_inner ◌>>=◌ RdbHandler.check_spec
      RdbHandler.gather RdbHandler.execute decide_next_action_rdb
  reconcile_rdb_skips cr alive region tags = rw (asked_open, alive, region, tags) refl

  -- With the circuit open, the reconcile of an instance, of a load balancer, and of a database whose region
  -- and tags are accepted, none of which is being deleted, makes no call, in the cluster or in Scaleway,
  -- changes nothing, and ends with the error of the circuit breaker.
  pub reconcilers_skip :
      (instance_cr : Instance) (lb : LoadBalancer) (rdb : Rdb)
      → deletion_requested instance_cr.metadata ≡ false
      → deletion_requested lb.metadata ≡ false
      → deletion_requested rdb.metadata ≡ false
      → validate_region rdb.spec.region ≡ ok tt
      → check_tags rdb.spec.tags ≡ ok tt
      → (InstanceHandler.reconcile_instance out instance_cr w ≡ (err circuit_breaker_open, w))
        × (LbHandler.reconcile_load_balancer out lb w ≡ (err circuit_breaker_open, w))
        × (RdbHandler.reconcile_rdb out rdb w ≡ (err circuit_breaker_open, w))
  reconcilers_skip instance_cr lb rdb alive lb_alive rdb_alive region tags = (
    reconcile_instance_skips instance_cr alive,
    reconcile_load_balancer_skips lb lb_alive,
    reconcile_rdb_skips rdb rdb_alive region tags,
  )
