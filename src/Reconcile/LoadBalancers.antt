-- ===== src/Reconcile/LoadBalancers.antt =====
-- src/reconcilers.rs: the reconciler of `LoadBalancer`.
pub mod Steps
pub mod Handler
pub mod Keeps
pub mod Learned
pub mod Once
pub mod Creation
pub mod Deletion
