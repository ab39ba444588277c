-- ===== src/Reconcile.antt =====
-- src/reconcilers.rs: the reconcilers of the four kinds of resource and the error policy.
pub mod Shared
pub mod Policy
pub mod Instances
pub mod Databases
pub mod LoadBalancers
pub mod Secrets
pub mod Skip
