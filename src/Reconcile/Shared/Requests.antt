-- ===== src/Reconcile/Shared/Requests.antt =====
-- A property of all the requests that the steps of src/reconcilers.rs have sent since a log.
use scaleway_operator.Prelude.{List, Option, String, [], ap, ℕ, ◌++◌, ◌∷◌, ◌≡◌}
use scaleway_operator.Reconcile.Shared.Keeps.{FinalizersKeep, StatusKeeps}
use scaleway_operator.Runtime.Http.{HttpRequest}
use scaleway_operator.Runtime.Keeps.{Adds}
use scaleway_operator.Runtime.World.{Event, read_scaleway_secret, sent}

module _ (Q : HttpRequest → Type 0) where
  abbrev pub OfRequest : Event → Type 0
  OfRequest (sent r s) = Q r
  OfRequest _ = Unit

  abbrev pub OfRequests : List Event → Type 0
  OfRequests [] = Unit
  OfRequests (e ∷ log) = OfRequest e × OfRequests log

  -- All the requests since the log before have the property, and nothing before is forgotten.
  abbrev pub RequestsSince : List Event → List Event → Type 0
  RequestsSince before log = (calls : List Event) × (log ≡ calls ++ before) × OfRequests calls

  module _ (before : List Event) where
    since :
        (log : List Event) (e : Event)
        → OfRequest e
        → RequestsSince before log
        → RequestsSince before (e ∷ log)
    since log e q (calls, same, all) = (e ∷ calls, ap (λ l. e ∷ l) same, (q, all))

    pub since_status : StatusKeeps (RequestsSince before)
    since_status = record {
      reads = record {
        role = λ ns log h. since log _ tt h;
        annotations = λ ns log h. since log _ tt h;
        secret = λ ns name log h. since log _ tt h;
        live = λ kind ns name log h. since log _ tt h;
      };
      status = λ ns name st b log h. since log _ tt h;
      publication = λ ns name drift log h. since log _ tt h;
    }

    pub since_finalizers : FinalizersKeep (RequestsSince before)
    since_finalizers kind ns name fs b log h = since log _ tt h

    pub since_password :
        (ns name : String) → Adds (RequestsSince before) (read_scaleway_secret ns name)
    since_password ns name log h = since log _ tt h

    pub since_request :
        (r : HttpRequest) (s : Option ℕ) → Q r → Adds (RequestsSince before) (sent r s)
    since_request r s q log h = since log (sent r s) q h
