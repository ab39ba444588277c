-- ===== src/Runtime/Keeps.antt =====
-- Properties of the log of calls that a step keeps, however it ends: the rules for the ways to build a
-- step, and those for the calls.
pub mod Rules
pub mod Calls
pub use scaleway_operator.Runtime.Keeps.Rules.{
  Adds, count_events, Keeps, Keeps-pure, Keeps-raise, Keeps-lift, Keeps-gets, Keeps-or_raise,
  Keeps-attempt, Keeps-ignore, Keeps-if, Keeps-on_error, Keeps-call_scaleway, Keeps-measured,
  Keeps-bind, Keeps-bind_known, Keeps-or_raise_bind,
}
pub use scaleway_operator.Runtime.Keeps.Calls.{
  Keeps-set_outcome, Keeps-update_metrics, Keeps-circuit_open, Keeps-send, Keeps-get_namespace_role,
  Keeps-get_namespace_annotations, Keeps-get_secret, Keeps-get_live, Keeps-get_scaleway_secret,
  Keeps-patch_finalizers, Keeps-patch_status, Keeps-publish,
}

pub ruleset keeps_rules = (
  Keeps-pure, Keeps-raise, Keeps-lift, Keeps-gets, Keeps-or_raise, Keeps-attempt, Keeps-ignore,
  Keeps-if, Keeps-on_error, Keeps-call_scaleway, Keeps-measured, Keeps-bind, Keeps-set_outcome,
  Keeps-update_metrics, Keeps-circuit_open,
)
