-- ===== src/Server.antt =====
-- src/server.rs: the routes of the operator's own HTTP server. The registry, its text encoder and the
-- environment are arguments.
pub mod Laws
use scaleway_operator.Runtime.World.{Outside, World}
use scaleway_operator.Prelude.{
  List, Option, String, get_or, if◌then◌else◌, ltb, none, some, str_eq, ℕ, ◌-◌, ◌==◌,
}

-- A status, the content type where the handler sets one, and a body.
pub record Answer : Type 0 where
  pub status : ℕ
  pub content_type : Option String
  pub body : String

abbrev pub answer : ℕ → String → Answer
answer status body = record { status = status; content_type = none; body = body }

abbrev pub healthz : Answer
healthz = answer 200 "ok"

-- The difference of the seconds is an `i64`: below 0 where the clock went back, and then below 60, as 0
-- is. A time of 0 is that of a clock that could not be read.
unfoldable pub readyz : ℕ → World → ℕ
readyz now w =
    if w.last_reconcile_at == 0
    then 503
    else if ltb (now - w.last_reconcile_at) 60
    then 200
    else 503

-- What the encoder wrote, or nothing where it failed; a text that is not UTF-8 counts as empty.
unfoldable pub metrics_handler : Outside → Option (List ℕ) → Answer
metrics_handler out none = record { status = 500; content_type = some "text/plain"; body = "" }
metrics_handler out (some buf) = record {
  status = 200;
  content_type = some "text/plain; version=0.0.4";
  body = get_or "" (out.from_utf8 buf);
}

-- The variable RUST_LOG.
unfoldable pub log_level : Option String → Answer
log_level rust_log = answer 200 (get_or "info" rust_log)

-- The answer to a GET of a path at a second of the clock, with what the encoder writes and the variable
-- RUST_LOG; no other path has a handler.
unfoldable pub build_router :
    Outside → ℕ → Option (List ℕ) → Option String → World → String → Option Answer
build_router out now encoded rust_log w path =
    if str_eq path "/healthz"
    then some healthz
    else if str_eq path "/readyz"
    then some (answer (readyz now w) "")
    else if str_eq path "/metrics"
    then some (metrics_handler out encoded)
    else if str_eq path "/log-level"
    then some (log_level rust_log)
    else none
