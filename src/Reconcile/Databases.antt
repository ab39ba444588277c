-- ===== src/Reconcile/Databases.antt =====
-- src/reconcilers.rs: the reconciler of `Rdb`.
pub mod Drift
pub mod Steps
pub mod Handler
pub mod DriftLaws
pub mod Keeps
pub mod Learned
pub mod Once
pub mod Creation
pub mod Isolation
pub mod Deletion
