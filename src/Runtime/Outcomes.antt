-- ===== src/Runtime/Outcomes.antt =====
-- Running a step: from the outcome of each part, a value or an error with the world it leaves, that of
-- the whole.
use scaleway_operator.Error.{OperatorError}
use scaleway_operator.Prelude.{none, ◌≡◌}
use scaleway_operator.Runtime.Calls.{call_scaleway, drop_measurer, measured, tell}
use scaleway_operator.Runtime.Exec.{Exec, Result, attempt, gets, ignore, on_error, ok, ◌>>=◌}
use scaleway_operator.Runtime.World.{Outside, World}

pub bind_runs :
    {A B : Type 0} (m : Exec A) (f : A → Exec B) {w w1 : World} {a : A} {r : Result B × World}
    → m w ≡ (ok a, w1)
    → f a w1 ≡ r
    → (m >>= f) w ≡ r
unfolding ◌>>=◌
bind_runs m f e h = rw e h

pub gets_runs : {A : Type 0} (f : World → A) {w : World} {a : A} → f w ≡ a → gets f w ≡ (ok a, w)
unfolding gets
gets_runs f e = rw e

module _ {A : Type 0} (m : Exec A) where
  pub on_error_runs :
      (handler : OperatorError → Exec (Unit {0})) {w w1 : World} {a : A}
      → m w ≡ (ok a, w1)
      → on_error m handler w ≡ (ok a, w1)
  unfolding on_error
  on_error_runs handler e = rw e

  pub attempt_runs : {w w1 : World} {r : Result A} → m w ≡ (r, w1) → attempt m w ≡ (ok r, w1)
  unfolding attempt
  attempt_runs e = rw e

  pub ignore_runs : {w w1 : World} {r : Result A} → m w ≡ (r, w1) → ignore m w ≡ (ok tt, w1)
  unfolding ignore
  ignore_runs e = rw e

  module _ (out : Outside) where
    pub call_scaleway_runs :
        {w w1 : World} {r : Result A} → m w ≡ (r, w1) → call_scaleway out m w ≡ (r, tell out r w1)
    unfolding call_scaleway
    call_scaleway_runs e = rw e

    pub measured_runs :
        (w : World) {w1 : World} {r : Result A}
        → m (record w { outcome = none }) ≡ (r, w1)
        → measured out m w ≡ (r, drop_measurer out w1)
    unfolding measured
    measured_runs w e = rw e
