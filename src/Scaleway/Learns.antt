-- ===== src/Scaleway/Learns.antt =====
-- src/scaleway.rs: what a method that succeeds has read in the answer of its request.
-- The newest call is this request, which was answered by a success whose body was read as this value.
use scaleway_operator.Runtime.Http.{Method}
use scaleway_operator.Error.{OperatorError}
use scaleway_operator.Prelude.{
  Bool-cases, List, Option, Option-cases, String, ap, inl, inr, none, refl, some, sym, true, ◌==◌,
  ◌∙◌, ◌∷◌, ◌≡◌, ◌⊎◌,
}
use scaleway_operator.Runtime.Calls.{send}
use scaleway_operator.Runtime.Exec.{Exec, Result, err, lift, ok, or_raise, pure, ◌>>=◌, ◌>>◌}
use scaleway_operator.Runtime.Http.{HttpRequest, Response, Try, bad, good, is_success}
use scaleway_operator.Runtime.World.{Event, Outside, World, sent}
use scaleway_operator.Scaleway.Request.{json_of, refuse, require_success, require_success_or}

pub record Names {A : Type 0} (out : Outside) (r : HttpRequest) (read : (out.json).Value → Option A)
    (a : A) (before after : List Event) : Type 0 where
  pub response : Response (out.json).Value
  pub answered : out.send before r ≡ good response
  pub success : is_success response.status ≡ true
  pub body : (out.json).Value
  pub decoded : response.json ≡ good body
  pub reads : read body ≡ some a
  pub logged : after ≡ sent r (some response.status) ∷ before

Try-cases : {E A : Type 0} (t : Try E A) → ((a : A) × (t ≡ good a)) ⊎ ((e : E) × (t ≡ bad e))
Try-cases (good a) = inl (a, refl)
Try-cases (bad e) = inr (e, refl)

abbrev ok_value : {A : Type 0} → A → Result A → A
ok_value a (ok b) = b
ok_value a (err e) = a

pub ok_injective : {A : Type 0} {a b : A} → ok a ≡ ok b → a ≡ b
ok_injective {A} {a} {b} h = ap (ok_value a) h

-- Two readings that agree.
pub reads_alike :
    {A : Type 0} {out : Outside} {r : HttpRequest} {read read' : (out.json).Value → Option A}
    {a : A} {before after : List Event}
    → ((v : (out.json).Value) → read v ≡ read' v)
    → Names out r read a before after
    → Names out r read' a before after
reads_alike agree named = record {
  response = named.response;
  answered = named.answered;
  success = named.success;
  body = named.body;
  decoded = named.decoded;
  reads = sym (agree named.body) ∙ named.reads;
  logged = named.logged;
}

-- What a result holds, where it is one.
abbrev pub found_in : {A : Type 0} → Result (Option A) → Option A
found_in (ok o) = o
found_in (err e) = none

found_in-ok : {A : Type 0} (r : Result (Option A)) (a : A) → r ≡ ok (some a) → found_in r ≡ some a
found_in-ok r a h = ap found_in h

module _ (out : Outside) where
  -- The shape of the methods that create: the request, its success, its body, and what is read of it.
  abbrev pub reading_of :
      {A : Type 0} → HttpRequest → ((out.json).Value → Option A) → OperatorError → Exec A
  reading_of r read e = do
    response ← send out r
    require_success out response
    reply ← json_of out response
    or_raise (read reply) e

  refuse_fails :
      {A B : Type 0} (response : Response (out.json).Value) (f : A → Exec B) (w : World) (b : B)
      → ¬ (((refuse out response >>= f) w).0 ≡ ok b)
  unfolding refuse ◌>>=◌
  refuse_fails response f w b h = elim (Try-cases response.text) [
    | inl (t, e) ↦ cc (rw e at h)
    | inr (t, e) ↦ cc (rw e at h)
  ]

  pub reading_of-Names :
      {A : Type 0} (r : HttpRequest) (read : (out.json).Value → Option A) (e : OperatorError)
      (w : World) (a : A)
      → (reading_of r read e w).0 ≡ ok a
      → Names out r read a w.log ((reading_of r read e w).1).log
  unfolding ◌>>=◌ send require_success json_of or_raise
  reading_of-Names r read e w a h = elim (Try-cases (out.send w.log r)) [
    | inr (x, q) ↦ absurd (cc (rw q at h))
    | inl (response, q) ↦ elim (Bool-cases (is_success response.status)) [
      | inr refused ↦ absurd (refuse_fails response _ _ a (rw (q, refused) at h))
      | inl success ↦ elim (Try-cases response.json) [
        | inr (x, j) ↦ absurd (cc (rw (q, success, j) at h))
        | inl (body, j) ↦ elim (Option-cases (read body)) [
          | inr (a', v) ↦ record {
            response = response;
            answered = q;
            success = success;
            body = body;
            decoded = j;
            reads = v ∙ ap some (ok_injective (rw (q, success, j, v) at h));
            logged = rw (q, success, j, v) refl;
          }
          | inl v ↦ absurd (cc (rw (q, success, j, v) at h))
        ]
      ]
    ]
  ]

  -- The shape of the searches where a 404 is an answer, too.
  abbrev pub finding_of :
      {A : Type 0} → HttpRequest → ((out.json).Value → Option A) → Exec (Option A)
  finding_of r read = do
    response ← send out r
    require_success_or out 404 (pure none) (do reply ← json_of out response; pure (read reply))
        response

  refuse_alone :
      {A : Type 0} (response : Response (out.json).Value) (w : World) (a : A)
      → ¬ ((refuse out response w).0 ≡ ok a)
  unfolding refuse ◌>>=◌
  refuse_alone response w a h = elim (Try-cases response.text) [
    | inl (t, e) ↦ cc (rw e at h)
    | inr (t, e) ↦ cc (rw e at h)
  ]

  pub finding_of-Names :
      {A : Type 0} (r : HttpRequest) (read : (out.json).Value → Option A) (w : World) (a : A)
      → (finding_of r read w).0 ≡ ok (some a)
      → Names out r read a w.log ((finding_of r read w).1).log
  unfolding ◌>>=◌ send require_success_or json_of pure
  finding_of-Names r read w a h = elim (Try-cases (out.send w.log r)) [
    | inr (x, q) ↦ absurd (cc (rw q at h))
    | inl (response, q) ↦ elim (Bool-cases (is_success response.status)) [
      | inr refused ↦ elim (Bool-cases (response.status == 404)) [
        | inl gone ↦ absurd (cc (rw (q, refused, gone) at h))
        | inr here ↦ absurd (refuse_alone response _ _ (rw (q, refused, here) at h))
      ]
      | inl success ↦ elim (Try-cases response.json) [
        | inr (x, j) ↦ absurd (cc (rw (q, success, j) at h))
        | inl (body, j) ↦ record {
          response = response;
          answered = q;
          success = success;
          body = body;
          decoded = j;
          reads = ok_injective (rw (q, success, j) at h);
          logged = rw (q, success, j) refl;
        }
      ]
    ]
  ]

  -- The shape of the searches that judge what they find.
  abbrev pub judging_of :
      {A : Type 0} → HttpRequest → ((out.json).Value → Result (Option A)) → Exec (Option A)
  judging_of r judge = do
    response ← send out r
    require_success out response
    reply ← json_of out response
    lift (judge reply)

  pub judging_of-Names :
      {A : Type 0} (r : HttpRequest) (judge : (out.json).Value → Result (Option A)) (w : World)
      (a : A)
      → (judging_of r judge w).0 ≡ ok (some a)
      → Names out r (λ v. found_in (judge v)) a w.log ((judging_of r judge w).1).log
  unfolding ◌>>=◌ send require_success json_of lift
  judging_of-Names r judge w a h = elim (Try-cases (out.send w.log r)) [
    | inr (x, q) ↦ absurd (cc (rw q at h))
    | inl (response, q) ↦ elim (Bool-cases (is_success response.status)) [
      | inr refused ↦ absurd (refuse_fails response _ _ (some a) (rw (q, refused) at h))
      | inl success ↦ elim (Try-cases response.json) [
        | inr (x, j) ↦ absurd (cc (rw (q, success, j) at h))
        | inl (body, j) ↦ record {
          response = response;
          answered = q;
          success = success;
          body = body;
          decoded = j;
          reads = found_in-ok (judge body) a (rw (q, success, j) at h);
          logged = rw (q, success, j) refl;
        }
      ]
    ]
  ]

  -- The newest call is a POST whose answer names the id of what it created, or a GET whose answer names the
  -- id of what was found.
  abbrev pub Learned :
      ((out.json).Value → Option String)
      → ((out.json).Value → Option String)
      → String
      → List Event
      → Type 0
  Learned read_new read_old id log =
      (r : HttpRequest) × (before : List Event) × (((r.method ≡ Method.post)
          × Names out r read_new id before log)
        ⊎ ((r.method ≡ Method.get) × Names out r read_old id before log))
