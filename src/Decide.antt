-- ===== src/Decide.antt =====
-- src/reconcilers.rs: the pure layer that derives the next action from a snapshot of the facts.
pub mod Servers
pub mod Secrets
pub mod Databases
pub mod Laws
pub mod SecretLaws
