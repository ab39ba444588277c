-- ===== src/Reconcile/Shared/Patched.antt =====
-- What the patches of src/reconcilers.rs have made of a resource: the newest accepted one decides. They are
-- merge patches that hold the whole list of finalizers, or a value, or null, for every field of the status.
use scaleway_operator.Prelude.{
  Bool, List, Option, String, [], arith, contains, eq_iff, eq_refl, false, filter, if◌then◌else◌,
  none, not, some, str_eq, true, ℕ, ◌&&◌, ◌++◌, ◌==◌, ◌∷◌, ◌≡◌,
}
use scaleway_operator.Reconcile.Shared.{namespace_of}
use scaleway_operator.Resources.{
  Kind, Metadata, instance_kind, load_balancer_kind, rdb_kind, secret_kind,
}
use scaleway_operator.Runtime.World.{Event, StatusPatch, patched_finalizers, patched_status}

abbrev number_of : Kind → ℕ
number_of instance_kind = 0
number_of load_balancer_kind = 1
number_of secret_kind = 2
number_of rdb_kind = 3

module _ (m : Metadata) where
  abbrev is_own : String → String → Bool
  is_own ns name = str_eq ns (namespace_of m) && str_eq name m.name

  module _ (kind : Kind) where
    abbrev finalizers_by : Event → Option (List String) → Option (List String)
    finalizers_by (patched_finalizers k ns name fs true) old =
        if number_of k == number_of kind && is_own ns name then some fs else old
    finalizers_by _ old = old

    abbrev pub latest_finalizers : List Event → Option (List String)
    latest_finalizers [] = m.finalizers
    latest_finalizers (e ∷ log) = finalizers_by e (latest_finalizers log)

  module _ {S : Type 0} (read : StatusPatch → Option S) (first : Option S) where
    abbrev status_read : Option S → Option S → Option S
    status_read (some st) old = some st
    status_read none old = old

    abbrev status_by : Event → Option S → Option S
    status_by (patched_status ns name st true) old =
        if is_own ns name then status_read (read st) old else old
    status_by _ old = old

    abbrev pub latest_status : List Event → Option S
    latest_status [] = first
    latest_status (e ∷ log) = status_by e (latest_status log)

-- A finalizer that is added at the end is there, and its removal gives the list back.
pub contains-append : (xs : List String) (x : String) → contains (xs ++ x ∷ []) x ≡ true
contains-append [] x = rw (eq_refl x)
contains-append (y ∷ xs) x = ground (arith, contains-append xs x)

pub remove-append :
    (xs : List String) (x : String)
    → contains xs x ≡ false
    → filter (λ f. not (str_eq f x)) (xs ++ x ∷ []) ≡ xs
remove-append [] x h = rw (eq_refl x)
remove-append (y ∷ xs) x h = ground (arith, eq_iff y x, eq_iff x y, remove-append xs x)
