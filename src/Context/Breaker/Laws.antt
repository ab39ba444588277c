-- ===== src/Context/Breaker/Laws.antt =====
-- The circuit breaker of src/context.rs over every sequence of calls: the mutex makes each call
-- atomic, so a list of calls stands for any interleaving of the controllers.
use scaleway_operator.Context.Breaker.{
  CircuitBreakerState, circuit_open_timeout, closed, half_open, is_circuit_open, opened,
  record_scaleway_failure, record_scaleway_success,
}
use scaleway_operator.Prelude.{
  List, [], ap, arith, false, inl, inr, length, map, refl, true, ℕ, ◌++◌, ◌+◌, ◌-◌, ◌<◌, ◌↔◌, ◌∙◌,
  ◌∷◌, ◌≡◌, ◌≤◌, ◌⊎◌,
}

pub data Signal : Type 0 where
  failure : ℕ → Signal
  success : Signal
  query : ℕ → Signal

unfoldable pub step : CircuitBreakerState → Signal → CircuitBreakerState
unfolding is_circuit_open record_scaleway_failure record_scaleway_success
step s (failure now) = record_scaleway_failure now s
step s success = record_scaleway_success s
step s (query now) = (is_circuit_open now s).1

unfoldable pub run : CircuitBreakerState → List Signal → CircuitBreakerState
unfolding step
run s [] = s
run s (e ∷ es) = run (step s e) es

-- A closed breaker has counted fewer failures than the threshold.
abbrev pub IsValid : CircuitBreakerState → Type 0
IsValid (closed n) = n < 5
IsValid (opened t) = Unit
IsValid half_open = Unit

pub step-IsValid : (s : CircuitBreakerState) (e : Signal) → IsValid s → IsValid (step s e)
unfolding step
step-IsValid (closed n) (failure now) h = ground arith
step-IsValid (closed n) success h = omega arith
step-IsValid (closed n) (query now) h = h
step-IsValid (opened t) (failure now) h = tt
step-IsValid (opened t) success h = tt
step-IsValid (opened t) (query now) h = ground arith
step-IsValid half_open (failure now) h = tt
step-IsValid half_open success h = omega arith
step-IsValid half_open (query now) h = tt

-- Every sequence of calls keeps the failure count of a closed breaker below the threshold of 5.
pub run-IsValid : (s : CircuitBreakerState) (es : List Signal) → IsValid s → IsValid (run s es)
unfolding run
run-IsValid s [] h = h
run-IsValid s (e ∷ es) h = run-IsValid (step s e) es (step-IsValid s e h)

run-opened : (t : ℕ) (ts : List ℕ) → run (opened t) (map failure ts) ≡ opened t
unfolding run step
run-opened t [] = refl
run-opened t (u ∷ ts) = run-opened t ts

step_few : (n t : ℕ) → n < 4 → step (closed n) (failure t) ≡ closed (n + 1)
unfolding step
step_few n t h = ground arith

step_last : (n t : ℕ) → n ≡ 4 → step (closed n) (failure t) ≡ opened t
unfolding step
step_last n t h = ground arith

-- Fewer than five failures in a row, those already counted included, leave the breaker closed.
pub failures_stay_closed :
    (n : ℕ) (ts : List ℕ)
    → n + length ts < 5
    → run (closed n) (map failure ts) ≡ closed (n + length ts)
unfolding run
failures_stay_closed n [] h = ground arith
failures_stay_closed n (t ∷ ts) h =
    ap (λ s. run s (map failure ts)) (step_few n t (omega arith))
    ∙ failures_stay_closed (n + 1) ts (omega arith)
    ∙ ap closed (omega arith)

-- The fifth failure in a row, those already counted included, opens the breaker at its own instant,
-- and no later failure moves that instant.
pub fifth_failure_opens :
    (n : ℕ) (ts : List ℕ) (t : ℕ) (us : List ℕ)
    → n + length ts ≡ 4
    → run (closed n) (map failure (ts ++ t ∷ us)) ≡ opened t
unfolding run
fifth_failure_opens n [] t us h =
    ap (λ s. run s (map failure us)) (step_last n t (omega arith)) ∙ run-opened t us
fifth_failure_opens n (u ∷ ts) t us h =
    ap (λ s. run s (map failure (ts ++ t ∷ us))) (step_few n u (omega arith))
    ∙ fifth_failure_opens (n + 1) ts t us (omega arith)

-- Whether an event is a failure at the given instant.
abbrev pub IsFailureAt : ℕ → Signal → Type 0
IsFailureAt t (failure u) = u ≡ t
IsFailureAt t success = ⊥
IsFailureAt t (query now) = ⊥

abbrev pub Any {ℓ} : {A : Type ℓ} → (A → Type 0) → List A → Type 0
Any P [] = ⊥
Any P (x ∷ xs) = P x ⊎ Any P xs

step-opened :
    (s : CircuitBreakerState) (e : Signal) (t : ℕ)
    → step s e ≡ opened t
    → (s ≡ opened t) ⊎ IsFailureAt t e
unfolding step
step-opened (closed n) (failure now) t h = ground arith
step-opened (closed n) success t h = cc
step-opened (closed n) (query now) t h = cc
step-opened (opened u) (failure now) t h = inl h
step-opened (opened u) success t h = inl h
step-opened (opened u) (query now) t h = ground arith
step-opened half_open (failure now) t h = ground arith
step-opened half_open success t h = cc
step-opened half_open (query now) t h = cc

-- A breaker that was not open at `t` is open at `t` only after a failure recorded at `t`.
pub run-opened_by_failure :
    (s : CircuitBreakerState) (es : List Signal) (t : ℕ)
    → run s es ≡ opened t
    → (s ≡ opened t) ⊎ Any (IsFailureAt t) es
unfolding run
run-opened_by_failure s [] t h = inl h
run-opened_by_failure s (e ∷ es) t h = elim (run-opened_by_failure (step s e) es t h) [
  | inl now ↦ elim (step-opened s e t now) [ inl before ↦ inl before | inr here ↦ inr (inl here) ]
  | inr later ↦ inr (inr later)
]

-- A query blocks exactly while the breaker is open and its timeout has not passed, and a query that
-- blocks changes nothing.
pub is_circuit_open_blocks :
    (now : ℕ) (s : CircuitBreakerState)
    → ((is_circuit_open now s).0 ≡ true)
      ↔ ((t : ℕ) × (s ≡ opened t) × (now - t < circuit_open_timeout))
unfolding is_circuit_open
is_circuit_open_blocks now (closed n) = (λ h. cc, λ h. cc (h.1))
is_circuit_open_blocks now half_open = (λ h. cc, λ h. cc (h.1))
is_circuit_open_blocks now (opened t) = (λ h. (t, refl, ground arith), λ h. ground arith)

queries_wait : (us : List ℕ) → run half_open (map query us) ≡ half_open
unfolding run step is_circuit_open
queries_wait [] = refl
queries_wait (u ∷ us) = queries_wait us

run-queries :
    (us : List ℕ) (es : List Signal) → run half_open (map query us ++ es) ≡ run half_open es
unfolding run step is_circuit_open
run-queries [] es = refl
run-queries (u ∷ us) es = run-queries us es

after_timeout :
    (t now : ℕ)
    → circuit_open_timeout ≤ now - t
    → (es : List Signal) → run (opened t) (query now ∷ es) ≡ run half_open es
unfolding run step is_circuit_open
after_timeout t now h es =
    let passed : step (opened t) (query now) ≡ half_open = ground arith in ap (λ s. run s es) passed

closes : run half_open (success ∷ []) ≡ closed 0
unfolding run step
closes = refl

reopens : (later : ℕ) → run half_open (failure later ∷ []) ≡ opened later
unfolding run step
reopens later = refl

-- Once the timeout has passed a query answers that calls may go through, and so does every further query
-- until the outcome of a call is recorded, however many there are; after them a success closes the breaker
-- with no failure counted, and a failure opens it anew, at its own instant.
pub recovers :
    (t now later u : ℕ) (us : List ℕ)
    → circuit_open_timeout ≤ now - t
    → ((is_circuit_open now (opened t)).0 ≡ false)
      × ((is_circuit_open u (run (opened t) (query now ∷ map query us))).0 ≡ false)
      × (run (opened t) (query now ∷ (map query us ++ success ∷ [])) ≡ closed 0)
      × (run (opened t) (query now ∷ (map query us ++ failure later ∷ [])) ≡ opened later)
unfolding is_circuit_open
recovers t now later u us h = (
  ground arith,
  ap (λ s. (is_circuit_open u s).0) (after_timeout t now h (map query us) ∙ queries_wait us),
  after_timeout t now h (map query us ++ success ∷ []) ∙ run-queries us (success ∷ []) ∙ closes,
  after_timeout t now h (map query us ++ failure later ∷ [])
      ∙ run-queries us (failure later ∷ [])
      ∙ reopens later,
)
