-- ===== src/Runtime/Exec.antt =====
-- A reconciler's step: it runs on the world and returns a value or an error; what it did stays done.
use scaleway_operator.Prelude.{◌≡◌, refl, ◌⊎◌, inl, inr, String, Option, none, some}
use scaleway_operator.Error.{OperatorError, KubeError, kube_error, network_error}
use scaleway_operator.Runtime.Http.{Try, good, bad}
use scaleway_operator.Runtime.World.{World}

pub data Result (A : Type 0) : Type 0 where
  ok : A → Result A
  err : OperatorError → Result A

abbrev pub Exec : Type 0 → Type 0
Exec A = World → Result A × World

module _ {A : Type 0} where
  unfoldable pub pure : A → Exec A
  pure a w = (ok a, w)

  unfoldable pub raise : OperatorError → Exec A
  raise e w = (err e, w)

  unfoldable pub lift : Result A → Exec A
  lift r w = (r, w)

  unfoldable pub gets : (World → A) → Exec A
  gets f w = (ok (f w), w)

  -- `ok_or_else`
  unfoldable pub or_raise : Option A → OperatorError → Exec A
  or_raise none e w = (err e, w)
  or_raise (some a) e w = (ok a, w)

  -- the result as a value, for a `match` on it
  unfoldable pub attempt : Exec A → Exec (Result A)
  attempt m w = let (r, w') = m w in (ok r, w')

  -- `let _ = …`, or a failure that is only logged
  unfoldable pub ignore : Exec A → Exec (Unit {0})
  ignore m w = let (r, w') = m w in (ok tt, w')

  -- a kube error under `?`
  abbrev pub kube : Try KubeError A → Result A
  kube (good a) = ok a
  kube (bad e) = err (kube_error e)

  -- a reqwest error under `?`
  abbrev pub net : Try String A → Result A
  net (good a) = ok a
  net (bad e) = err (network_error e)

unfoldable pub modify : (World → World) → Exec (Unit {0})
modify f w = (ok tt, f w)

-- `Err(e) => { handler; return Err(e) }`: the handler's own error wins.
abbrev pub finish : {A : Type 0} → OperatorError → Result (Unit {0}) × World → Result A × World
finish e (ok _, w) = (err e, w)
finish e (err e', w) = (err e', w)

abbrev pub handle : {A : Type 0} → Result A → (OperatorError → Exec (Unit {0})) → Exec A
handle (ok a) handler w = (ok a, w)
handle (err e) handler w = finish e (handler e w)

unfoldable pub on_error : {A : Type 0} → Exec A → (OperatorError → Exec (Unit {0})) → Exec A
on_error m handler w = let (r, w') = m w in handle r handler w'

abbrev pub continue : {A B : Type 0} → Result A → (A → Exec B) → Exec B
continue (ok a) f w = f a w
continue (err e) f w = (err e, w)

-- To open the bind is to open the monad.
infixl 5 ◌>>=◌ ◌>>◌
unfoldable pub ◌>>=◌ : {A B : Type 0} → Exec A → (A → Exec B) → Exec B
unfolding pure raise lift gets or_raise attempt ignore modify on_error
◌>>=◌ m f w = let (r, w') = m w in continue r f w'

abbrev pub ◌>>◌ : {A B : Type 0} → Exec A → Exec B → Exec B
m >> k = m >>= λ _. k

pub Result-cases :
    {A : Type 0} (r : Result A) → ((a : A) × (r ≡ ok a)) ⊎ ((e : OperatorError) × (r ≡ err e))
Result-cases (ok a) = inl (a, refl)
Result-cases (err e) = inr (e, refl)

module _ {A : Type 0} where
  handle-ok :
      (r : Result A) (handler : OperatorError → Exec (Unit {0})) (w : World) (a : A)
      → (handle r handler w).0 ≡ ok a
      → r ≡ ok a
  handle-ok (ok b) handler w a h = h
  handle-ok (err e) handler w a h = elim (Result-cases (handler e w).0) [
    | inl (u, q) ↦ cc (rw q at h)
    | inr (x, q) ↦ cc (rw q at h)
  ]

  pub on_error-ok :
      (m : Exec A) (handler : OperatorError → Exec (Unit {0})) (w : World) (a : A)
      → (on_error m handler w).0 ≡ ok a
      → (m w).0 ≡ ok a
  unfolding on_error
  on_error-ok m handler w a h = handle-ok (m w).0 handler (m w).1 a h

  pub attempt-ok : (m : Exec A) (w : World) (a : A) → (attempt m w).0 ≡ ok (ok a) → (m w).0 ≡ ok a
  unfolding attempt
  attempt-ok m w a h = cc
