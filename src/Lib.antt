-- ===== src/Lib.antt =====
-- A Kubernetes operator that keeps Scaleway servers, load balancers, secrets and databases in step with
-- their custom resources: its controllers, its client of the Scaleway API and the state they share.
--
-- How the parts interact. A controller calls a reconciler with a resource of its cache. The reconciler
-- asks the circuit breaker, reads the facts (role, project id, source Secret), hands them to a pure
-- decision, and carries the decision out through the Scaleway client and patches of the status or of the
-- finalizers. A failure goes to the error policy, which counts it and says when to come back.
--
-- Which file models which part:
--   Error               src/error.rs: `OperatorError`, its classes, its text for a status
--   Context/Breaker     src/context.rs: the circuit breaker, one function for each method
--   Context/Retry       src/context.rs: the retry counters, a map from keys to u32
--   Resources           src/resources.rs: the custom resources with their defaults; Wire: their statuses as
--                       JSON objects and the merge patch that writes them
--   Runtime/Metrics     src/metrics.rs: the calls on the metrics, as a log
--   Runtime/Registry    src/metrics.rs: the four metrics and their registration
--   Runtime/World       `Context` of src/context.rs with the log of all calls that left the program, and
--                       `Outside`, the answers to them
--   Runtime/Exec        the `Result` monad on that state: what a failed step did stays done
--   Runtime/Calls       the calls of kube and reqwest; `call_scaleway` and `ReconcileMeasurer` of
--                       src/reconcilers.rs
--   Runtime/Keeps, Ends, Outcomes, Gauges
--                       the proof rules for properties of the log that a step keeps, for those that
--                       it ends with, also beside its value, for what a step returns, and for the gauges
--   Scaleway            src/scaleway.rs: each method of `ScalewayClient` (Servers, LoadBalancers, Secrets,
--                       Databases), the tags and the validation of specs; Adoption and RoundTrip
--                       relate the requests that create to those that search; Answers: what
--                       the methods return where Scaleway answers; Learns: what those that succeed
--                       have read in an answer
--   Decide              src/reconcilers.rs: `decide_next_action` and its three variants
--   Reconcile/Shared    src/reconcilers.rs: credentials, project id, stale cache; the role of src/context.rs;
--                       Reads: what these return where the cluster answers; Patched: what the
--                       patches have made of a resource
--   Reconcile/Instances, LoadBalancers, Secrets, Databases
--                       src/reconcilers.rs: `reconcile_instance`, `reconcile_load_balancer`,
--                       `reconcile_scaleway_secret` and `reconcile_rdb`: Steps holds the branches and
--                       Handler the gathering of the facts and the dispatch; Keeps in each of
--                       them, Secrets/SourceKeeps and Shared/Keeps say which calls the steps make;
--                       Shared/Counts, Requests and Tokens are the properties of the log they are
--                       read with; Rounds in Instances and Secrets is one reconcile in each phase of
--                       a resource's life; Creation, Learned, Once, Isolation, Deletion and the others are
--                       named for what they prove
--   Reconcile/Policy    src/reconcilers.rs: `error_policy`
--   Startup             src/main.rs: the context at the start, the heartbeat, and each controller as a
--                       reconciler with its error policy; src/lib.rs only lists the modules;
--                       Lifecycle and Secrets hand a controller an instance, or a secret, as its own
--                       patches have left it, for any number of reconciles
--   Server              src/server.rs: the routes and their answers
--   Json                what the program uses of serde_json's `Value`
--   Prelude             shared names, lists, texts and integers
--   Tests               concrete clusters and resources, and the theorems applied to them
--
-- How the state is modelled. A reconciler is a function from a `World` to a result and a `World`. Every
-- answer from outside is a function of the calls made so far, so that a theorem holds whatever a cluster,
-- Scaleway or a clock answers at any point. A call is logged with its status or its acceptance. The
-- mutexes of the context make each of its methods atomic; the breaker's theorems are on every sequence of
-- its calls, which covers any interleaving of the controllers. A `u32` counter wraps at 2^32; where the
-- source would overflow, the theorems state the bound they need. No function runs on fuel but the printing
-- of a number, with 20 digits for a `u64`.
--
-- Parameters: kube, reqwest, serde_json, uuid, base64, UTF-8 decoding and the clocks, all fields of
-- `Outside`, or arguments of a handler; prometheus and chrono are records of their own. A
-- request is its method, URL, query, token and body.
--
-- A run of the controllers takes their reconciles one after the other. `Controller::run` is taken to hand
-- an error of a reconciler to the error policy, as kube documents.
--
-- Not modelled: the tasks and sockets of src/main.rs and src/server.rs, the text encoding of
-- the metrics and the observed durations, the log lines, the schema derivation of the custom resources and
-- the fields of a spec that no code reads.
pub mod Prelude
pub mod Json
pub mod Error
pub mod Context
pub mod Resources
pub mod Decide
pub mod Runtime
pub mod Scaleway
pub mod Reconcile
pub mod Startup
pub mod Server
pub mod Tests
