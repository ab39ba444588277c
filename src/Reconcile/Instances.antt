-- ===== src/Reconcile/Instances.antt =====
-- src/reconcilers.rs: the reconciler of `Instance`.
pub mod Steps
pub mod Handler
pub mod Keeps
pub mod Finalizer
pub mod Creation
pub mod Once
pub mod Rounds
pub mod Isolation
