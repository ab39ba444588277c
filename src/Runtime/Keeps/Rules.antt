-- ===== src/Runtime/Keeps/Rules.antt =====
-- Properties of the log of calls that a step keeps, however it ends: one rule for each way to build a
-- step.
use scaleway_operator.Prelude.{
  ℕ, suc, Bool, true, false, not, Option, none, some, List, [], ◌∷◌, if◌then◌else◌,
}
use mathlib.Core.Path.{subst⁻¹}
use scaleway_operator.Prelude.{Bool-cases, inl, inr, ◌≡◌, refl, ◌∙◌}
use scaleway_operator.Error.{OperatorError, is_permanent_error}
use scaleway_operator.Runtime.World.{Event, World, Outside}
use scaleway_operator.Runtime.Exec.{
  Result, ok, err, Exec, pure, raise, lift, gets, or_raise, attempt, ignore, finish, handle,
  on_error, continue, ◌>>=◌,
}
use scaleway_operator.Runtime.Calls.{call_scaleway, measured, tell}

-- How many events of a log pass a test.
abbrev pub count_events : (Event → Bool) → List Event → ℕ
count_events q [] = 0
count_events q (e ∷ log) = let n = count_events q log in if q e then suc n else n

-- A step keeps a property of the log, and leaves the retry counters alone.
pub record Keeps {A : Type 0} (P : List Event → Type 0) (m : Exec A) : Type 0 where
  pub at : (w : World) → P w.log → P ((m w).1).log
  pub counts : (w : World) → ((m w).1).retry_counts ≡ w.retry_counts

-- A call that only adds an event.
abbrev pub Adds : (List Event → Type 0) → Event → Type 0
Adds P e = (log : List Event) → P log → P (e ∷ log)

finish-log :
    (A : Type 0) (e : OperatorError) (p : Result (Unit {0}) × World)
    → ((finish {A = A} e p).1).log ≡ (p.1).log
finish-log A e (ok _, w) = refl
finish-log A e (err e', w) = refl

tell-log : {A : Type 0} (out : Outside) (r : Result A) (w : World) → (tell out r w).log ≡ w.log
tell-log out (ok a) w = refl
tell-log out (err e) w = elim (Bool-cases (not (is_permanent_error e))) [
  | inl b ↦ rw b
  | inr b ↦ rw b
]

finish-counts :
    (A : Type 0) (e : OperatorError) (p : Result (Unit {0}) × World)
    → ((finish {A = A} e p).1).retry_counts ≡ (p.1).retry_counts
finish-counts A e (ok _, w) = refl
finish-counts A e (err e', w) = refl

tell-counts :
    {A : Type 0} (out : Outside) (r : Result A) (w : World)
    → (tell out r w).retry_counts ≡ w.retry_counts
tell-counts out (ok a) w = refl
tell-counts out (err e) w = elim (Bool-cases (not (is_permanent_error e))) [
  | inl b ↦ rw b
  | inr b ↦ rw b
]

module _ {P : List Event → Type 0} where
  module _ {A : Type 0} where
    pub Keeps-pure : (a : A) → Keeps P (pure a)
    unfolding pure
    Keeps-pure a = record { at = λ w h. h; counts = λ w. refl }

    pub Keeps-raise : (e : OperatorError) → Keeps P (raise {A = A} e)
    unfolding raise
    Keeps-raise e = record { at = λ w h. h; counts = λ w. refl }

    pub Keeps-lift : (r : Result A) → Keeps P (lift r)
    unfolding lift
    Keeps-lift r = record { at = λ w h. h; counts = λ w. refl }

    pub Keeps-gets : (f : World → A) → Keeps P (gets f)
    unfolding gets
    Keeps-gets f = record { at = λ w h. h; counts = λ w. refl }

    pub Keeps-or_raise : (o : Option A) (e : OperatorError) → Keeps P (or_raise o e)
    unfolding or_raise
    Keeps-or_raise none e = record { at = λ w h. h; counts = λ w. refl }
    Keeps-or_raise (some a) e = record { at = λ w h. h; counts = λ w. refl }

    pub Keeps-attempt : (m : Exec A) → Keeps P m → Keeps P (attempt m)
    unfolding attempt
    Keeps-attempt m k = record { at = k.at; counts = k.counts }

    pub Keeps-ignore : (m : Exec A) → Keeps P m → Keeps P (ignore m)
    unfolding ignore
    Keeps-ignore m k = record { at = k.at; counts = k.counts }

    pub Keeps-if : (b : Bool) (m n : Exec A) → Keeps P m → Keeps P n → Keeps P (if b then m else n)
    Keeps-if true m n km kn = km
    Keeps-if false m n km kn = kn

    handle-log :
        (r : Result A) (handler : OperatorError → Exec (Unit {0}))
        → ((e : OperatorError) → Keeps P (handler e))
        → (w : World) → P w.log
        → P ((handle r handler w).1).log
    handle-log (ok a) handler k w h = h
    handle-log (err e) handler k w h = subst⁻¹ P (finish-log A e (handler e w)) ((k e).at w h)

    handle-counts :
        (r : Result A) (handler : OperatorError → Exec (Unit {0}))
        → ((e : OperatorError) → Keeps P (handler e))
        → (w : World) → ((handle r handler w).1).retry_counts ≡ w.retry_counts
    handle-counts (ok a) handler k w = refl
    handle-counts (err e) handler k w = finish-counts A e (handler e w) ∙ (k e).counts w

    pub Keeps-on_error :
        (m : Exec A) (handler : OperatorError → Exec (Unit {0}))
        → Keeps P m
        → ((e : OperatorError) → Keeps P (handler e))
        → Keeps P (on_error m handler)
    unfolding on_error
    Keeps-on_error m handler km k = record {
      at = λ w h. let (r, w') = m w in handle-log r handler k w' (km.at w h);
      counts = λ w. handle-counts (m w).0 handler k (m w).1 ∙ km.counts w;
    }

    pub Keeps-call_scaleway :
        (out : Outside) (m : Exec A) → Keeps P m → Keeps P (call_scaleway out m)
    unfolding call_scaleway
    Keeps-call_scaleway out m km = record {
      at = λ w h. let (r, w') = m w in subst⁻¹ P (tell-log out r w') (km.at w h);
      counts = λ w. tell-counts out (m w).0 (m w).1 ∙ km.counts w;
    }

    pub Keeps-measured : (out : Outside) (m : Exec A) → Keeps P m → Keeps P (measured out m)
    unfolding measured
    Keeps-measured out m km = record { at = λ w h. km.at _ h; counts = λ w. km.counts _ }

  module _ {A B : Type 0} where
    continue-log :
        (r : Result A) (f : A → Exec B)
        → ((a : A) → Keeps P (f a))
        → (w : World) → P w.log
        → P ((continue r f w).1).log
    continue-log (ok a) f k w h = (k a).at w h
    continue-log (err e) f k w h = h

    continue-counts :
        (r : Result A) (f : A → Exec B)
        → ((a : A) → Keeps P (f a))
        → (w : World) → ((continue r f w).1).retry_counts ≡ w.retry_counts
    continue-counts (ok a) f k w = (k a).counts w
    continue-counts (err e) f k w = refl

    pub Keeps-bind :
        (m : Exec A) (f : A → Exec B) → Keeps P m → ((a : A) → Keeps P (f a)) → Keeps P (m >>= f)
    unfolding ◌>>=◌
    Keeps-bind m f km k = record {
      at = λ w h. let (r, w') = m w in continue-log r f k w' (km.at w h);
      counts = λ w. continue-counts (m w).0 f k (m w).1 ∙ km.counts w;
    }

    continue-known :
        (m : Exec A) (f : A → Exec B)
        → ((w : World) (a : A) → (m w).0 ≡ ok a → Keeps P (f a))
        → (w w' : World) (r : Result A) → (m w).0 ≡ r
        → P w'.log
        → P ((continue r f w').1).log
    continue-known m f k w w' (ok a) e h = (k w a e).at w' h
    continue-known m f k w w' (err x) e h = h

    continue_counts-known :
        (m : Exec A) (f : A → Exec B)
        → ((w : World) (a : A) → (m w).0 ≡ ok a → Keeps P (f a))
        → (w w' : World) (r : Result A) → (m w).0 ≡ r
        → ((continue r f w').1).retry_counts ≡ w'.retry_counts
    continue_counts-known m f k w w' (ok a) e = (k w a e).counts w'
    continue_counts-known m f k w w' (err x) e = refl

    -- What goes on is known to be a result of the first step.
    pub Keeps-bind_known :
        (m : Exec A) (f : A → Exec B)
        → Keeps P m
        → ((w : World) (a : A) → (m w).0 ≡ ok a → Keeps P (f a))
        → Keeps P (m >>= f)
    unfolding ◌>>=◌
    Keeps-bind_known m f km k = record {
      at = λ w h. continue-known m f k w (m w).1 (m w).0 refl (km.at w h);
      counts = λ w. continue_counts-known m f k w (m w).1 (m w).0 refl ∙ km.counts w;
    }

    -- The value that is there is the one that goes on.
    pub Keeps-or_raise_bind :
        (o : Option A) (e : OperatorError) (f : A → Exec B)
        → ((a : A) → o ≡ some a → Keeps P (f a))
        → Keeps P (or_raise o e >>= f)
    unfolding ◌>>=◌
    Keeps-or_raise_bind none e f k = record { at = λ w h. h; counts = λ w. refl }
    Keeps-or_raise_bind (some a) e f k = record {
      at = λ w h. (k a refl).at w h;
      counts = λ w. (k a refl).counts w;
    }
