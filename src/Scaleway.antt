-- ===== src/Scaleway.antt =====
-- src/scaleway.rs: the client of the Scaleway API.
pub mod Info
pub mod Request
pub mod Tags
pub mod Validation
pub mod Servers
pub mod LoadBalancers
pub mod Secrets
pub mod Databases
pub mod Keeps
pub mod Answers
pub mod Laws
pub mod Learns
pub mod TagLaws
pub mod Adoption
pub mod RoundTrip
