-- ===== src/Runtime.antt =====
-- What a reconciler runs on: HTTP requests, metrics, the state it shares with the others and the log of
-- its calls, the answers of the world outside, and the monad of its steps.
pub mod Http
pub mod Metrics
pub mod World
pub mod Exec
pub mod Calls
pub mod Keeps
pub mod Ends
pub mod Outcomes
pub mod Gauges
pub mod Registry
