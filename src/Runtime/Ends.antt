-- ===== src/Runtime/Ends.antt =====
-- What the log holds once a step has succeeded: rules for the steps whose last part decides it.
use scaleway_operator.Error.{OperatorError}
use scaleway_operator.Prelude.{List, none, refl, ◌≡◌}
use scaleway_operator.Runtime.Calls.{call_scaleway, measured, tell}
use scaleway_operator.Runtime.Exec.{
  Exec, Result, continue, err, finish, handle, ok, on_error, raise, ◌>>=◌,
}
use scaleway_operator.Runtime.World.{Event, Outside, World}

-- Where the step succeeds, the log has the property.
pub record EndsIn {A : Type 0} (Q : List Event → Type 0) (m : Exec A) : Type 0 where
  pub at : (w : World) (a : A) → (m w).0 ≡ ok a → Q ((m w).1).log

module _ {Q : List Event → Type 0} where
  continue_ends :
      {A B : Type 0} (r : Result A) (f : A → Exec B)
      → ((a : A) → EndsIn Q (f a))
      → (w : World) (b : B) → (continue r f w).0 ≡ ok b
      → Q ((continue r f w).1).log
  continue_ends (ok a) f k w b h = (k a).at w b h
  continue_ends (err e) f k w b h = cc

  pub bind_ends :
      {A B : Type 0} (m : Exec A) (f : A → Exec B) → ((a : A) → EndsIn Q (f a)) → EndsIn Q (m >>= f)
  unfolding ◌>>=◌
  bind_ends m f k = record { at = λ w b h. continue_ends (m w).0 f k (m w).1 b h }

  pub measured_ends :
      {A : Type 0} (out : Outside) (m : Exec A) → EndsIn Q m → EndsIn Q (measured out m)
  unfolding measured
  measured_ends out m k = record { at = λ w a h. k.at (record w { outcome = none }) a h }

  pub raise_ends : {A : Type 0} (e : OperatorError) → EndsIn Q (raise {A = A} e)
  unfolding raise
  raise_ends e = record { at = λ w a h. cc }

-- Where the step succeeds, its value and the log have the property.
pub record Yields {A : Type 0} (P : A → List Event → Type 0) (m : Exec A) : Type 0 where
  pub at : (w : World) (a : A) → (m w).0 ≡ ok a → P a ((m w).1).log

told :
    {A : Type 0} (P : A → List Event → Type 0) (out : Outside) (r : Result A) (w : World) (a : A)
    → r ≡ ok a
    → ((b : A) → r ≡ ok b → P b w.log)
    → P a (tell out r w).log
told P out (ok b) w a h k = k a h
told P out (err e) w a h k = cc

unfinished :
    {A : Type 0} (e : OperatorError) (p : Result (Unit {0}) × World) (a : A)
    → ¬ ((finish e p).0 ≡ ok a)
unfinished e (ok u, w) a h = cc
unfinished e (err x, w) a h = cc

handled :
    {A : Type 0} (P : A → List Event → Type 0) (r : Result A)
    (handler : OperatorError → Exec (Unit {0})) (w : World) (a : A)
    → (handle r handler w).0 ≡ ok a
    → ((b : A) → r ≡ ok b → P b w.log)
    → P a ((handle r handler w).1).log
handled P (ok b) handler w a h k = k a h
handled P (err e) handler w a h k = absurd (unfinished e (handler e w) a h)

continued :
    {A B : Type 0} (P : A → List Event → Type 0) (Q : B → List Event → Type 0) (r : Result A)
    (f : A → Exec B) (w : World) (b : B)
    → (continue r f w).0 ≡ ok b
    → ((a : A) → r ≡ ok a → P a w.log)
    → ((a : A) (w : World) → P a w.log → (b : B) → (f a w).0 ≡ ok b → Q b ((f a w).1).log)
    → Q b ((continue r f w).1).log
continued P Q (ok a) f w b h k rest = rest a w (k a refl) b h
continued P Q (err e) f w b h k rest = cc

module _ {A : Type 0} {P : A → List Event → Type 0} where
  pub call-Yields : (out : Outside) (m : Exec A) → Yields P m → Yields P (call_scaleway out m)
  unfolding call_scaleway
  call-Yields out m k = record { at = λ w a h. told P out (m w).0 (m w).1 a h (k.at w) }

  pub on_error-Yields :
      (m : Exec A) (handler : OperatorError → Exec (Unit {0}))
      → Yields P m
      → Yields P (on_error m handler)
  unfolding on_error
  on_error-Yields m handler k = record {
    at = λ w a h. handled P (m w).0 handler (m w).1 a h (k.at w);
  }

  -- What the rest makes of the value and the log that the first part leaves.
  pub bind_after :
      {B : Type 0} {Q : B → List Event → Type 0} (m : Exec A) (f : A → Exec B)
      → Yields P m
      → ((a : A) (w : World) → P a w.log → (b : B) → (f a w).0 ≡ ok b → Q b ((f a w).1).log)
      → Yields Q (m >>= f)
  unfolding ◌>>=◌
  bind_after {Q = Q} m f k rest = record {
    at = λ w b h. continued P Q (m w).0 f (m w).1 b h (k.at w) rest;
  }

-- A property of the log alone.
pub Yields-end :
    {A : Type 0} {Q : List Event → Type 0} (m : Exec A) → Yields (λ a. Q) m → EndsIn Q m
Yields-end m k = record { at = k.at }

pub bind-Yields :
    {A B : Type 0} {Q : B → List Event → Type 0} (m : Exec A) (f : A → Exec B)
    → ((a : A) → Yields Q (f a))
    → Yields Q (m >>= f)
bind-Yields m f k =
    bind_after {P = λ a log. Unit {0}} m f (record { at = λ w a h. tt }) (λ a w u. (k a).at w)
