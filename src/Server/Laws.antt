-- ===== src/Server/Laws.antt =====
-- src/server.rs and src/main.rs: when the operator says that it is ready.
use mathlib.Core.Path.{subst, subst⁻¹}
use scaleway_operator.Prelude.{
  Bool-cases, List, String, [], ap, arith, if◌then◌else◌, inl, inr, map, refl, some, suc, zero, ℕ,
  ◌*◌, ◌+◌, ◌<◌, ◌↔◌, ◌∷◌, ◌≡◌, ◌≤◌, ◌⊎◌,
}
use scaleway_operator.Runtime.Calls.{drop_measurer}
use scaleway_operator.Runtime.Metrics.{ReconcileOutcome, is_error}
use scaleway_operator.Runtime.World.{Event, Outside, World}
use scaleway_operator.Server.{readyz}
use scaleway_operator.Startup.{heartbeat, initial_context}

-- The clock at a list of heartbeats, the newest first, never goes back from one to the next, nor before
-- the start.
abbrev pub IsMonotone : ℕ → List ℕ → Type 0
IsMonotone start [] = Unit
IsMonotone start (t ∷ []) = start ≤ t
IsMonotone start (t ∷ t' ∷ ts) = (t' ≤ t) × IsMonotone start (t' ∷ ts)

-- What refreshes the context: a heartbeat, or the end of a reconcile's measured branch, with its outcome and
-- the calls made until then.
pub data Refresh : Type 0 where
  beat : ℕ → Refresh
  ended : ReconcileOutcome → List Event → Refresh

-- The context after these, the newest first.
abbrev pub refreshed : Outside → List Refresh → World → World
refreshed out [] w = w
refreshed out (beat t ∷ rs) w = heartbeat t (refreshed out rs w)
refreshed out (ended o log ∷ rs) w =
    let w' = refreshed out rs w in drop_measurer out (record w' { outcome = some o; log = log })

-- The times of the heartbeats and of the ends with an outcome other than an error.
abbrev pub times : Outside → List Refresh → List ℕ
times out [] = []
times out (beat t ∷ rs) = t ∷ times out rs
times out (ended o log ∷ rs) =
    let rest = times out rs in if is_error o then rest else out.epoch_seconds log ∷ rest

-- One of the times, the start included, is less than 60 seconds before now.
abbrev pub SomeRecent : ℕ → ℕ → List ℕ → Type 0
SomeRecent now start [] = now < start + 60
SomeRecent now start (t ∷ ts) = (now < t + 60) ⊎ SomeRecent now start ts

abbrev newest : ℕ → List ℕ → ℕ
newest start [] = start
newest start (t ∷ ts) = t

refreshed_at :
    (out : Outside) (token : String) (start : ℕ) (rs : List Refresh)
    → (refreshed out rs (initial_context token start)).last_reconcile_at
      ≡ newest start (times out rs)
unfolding initial_context heartbeat
refreshed_at out token start [] = refl
refreshed_at out token start (beat t ∷ rs) = refl
refreshed_at out token start (ended o log ∷ rs) = elim (Bool-cases (is_error o)) [
  | inl e ↦ rw e (refreshed_at out token start rs)
  | inr e ↦ rw e refl
]

newest_IsLate : (start : ℕ) (ts : List ℕ) → IsMonotone start ts → start ≤ newest start ts
newest_IsLate start [] h = ground arith
newest_IsLate start (t ∷ []) h = h
newest_IsLate start (t ∷ t' ∷ ts) (h, hs) = ground (arith, newest_IsLate start (t' ∷ ts) hs)

recent_newest :
    (now start : ℕ) (ts : List ℕ)
    → IsMonotone start ts
    → SomeRecent now start ts
    → now < newest start ts + 60
recent_newest now start [] h r = r
recent_newest now start (t ∷ []) h (inl r) = r
recent_newest now start (t ∷ []) h (inr r) = ground arith
recent_newest now start (t ∷ t' ∷ ts) (h, hs) (inl r) = r
recent_newest now start (t ∷ t' ∷ ts) (h, hs) (inr r) =
    let late = recent_newest now start (t' ∷ ts) hs r in ground arith

newest_IsRecent :
    (now start : ℕ) (ts : List ℕ) → now < newest start ts + 60 → SomeRecent now start ts
newest_IsRecent now start [] h = h
newest_IsRecent now start (t ∷ ts) h = inl h

readyz_iff :
    (now : ℕ) (w : World)
    → 0 < w.last_reconcile_at
    → (readyz now w ≡ 200) ↔ (now < w.last_reconcile_at + 60)
unfolding readyz
readyz_iff now w h = (λ e. ground arith, λ e. ground arith)

-- Where the clock could be read at the start and never goes back, the operator says that it is ready
-- exactly when its start, one of its heartbeats, or one of the ends of its reconciles' measured branches with
-- an outcome other than an error, is less than 60 seconds old.
pub readyz_IsRecent :
    (out : Outside) (token : String) (now start : ℕ) (rs : List Refresh)
    → 0 < start
    → IsMonotone start (times out rs)
    → (readyz now (refreshed out rs (initial_context token start)) ≡ 200)
      ↔ SomeRecent now start (times out rs)
readyz_IsRecent out token now start rs h m =
    let w = refreshed out rs (initial_context token start) in
    let at = refreshed_at out token start rs in
    let ts = times out rs in
    let late = newest_IsLate start ts m in
    let (there, back) = readyz_iff now w (subst⁻¹ (λ n. 0 < n) at (ground arith)) in
    (
      λ e. newest_IsRecent now start ts (subst (λ n. now < n + 60) at (there e)),
      λ r. back (subst⁻¹ (λ n. now < n + 60) at (recent_newest now start ts m r)),
    )

-- The heartbeats of an interval of 30 seconds, whose first one is at once.
abbrev ticks : ℕ → ℕ → List ℕ
ticks start zero = []
ticks start (suc k) = (start + 30 * k) ∷ ticks start k

ticks-IsMonotone : (start k : ℕ) → IsMonotone start (ticks start k)
ticks-IsMonotone start zero = tt
ticks-IsMonotone start (suc zero) = ground arith
ticks-IsMonotone start (suc (suc k)) = (ground arith, ticks-IsMonotone start (suc k))

times-beats : (out : Outside) (ts : List ℕ) → times out (map beat ts) ≡ ts
times-beats out [] = refl
times-beats out (t ∷ ts) = ap (λ rest. t ∷ rest) (times-beats out ts)

-- With one heartbeat at the start and one each 30 seconds since, and no resource to reconcile, the
-- operator says that it is ready at any time less than 60 seconds after the last one, for a clock that
-- could be read at the start.
heartbeat_keeps_ready :
    (out : Outside) (token : String) (now start k : ℕ)
    → 0 < start
    → now < start + 30 * k + 60
    → readyz now (refreshed out (map beat (ticks start (suc k))) (initial_context token start))
      ≡ 200
heartbeat_keeps_ready out token now start k h late =
    let same = times-beats out (ticks start (suc k)) in
    (readyz_IsRecent out token now start (map beat (ticks start (suc k))) h
        (subst⁻¹ (IsMonotone start) same (ticks-IsMonotone start (suc k)))).1
      (subst⁻¹ (SomeRecent now start) same (inl late))
