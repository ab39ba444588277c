-- ===== src/Reconcile/Secrets.antt =====
-- src/reconcilers.rs: the reconciler of `ScalewaySecret`.
pub mod Source
pub mod Steps
pub mod Handler
pub mod SourceKeeps
pub mod Keeps
pub mod SourceLaws
pub mod Rounds
pub mod Push
pub mod Revocation
pub mod SourceReads
pub mod Confidentiality
pub mod Isolation
