-- ===== src/Reconcile/LoadBalancers/Learned.antt =====
-- src/reconcilers.rs, `execute_create_load_balancer`: where the id of a load balancer comes from.
use scaleway_operator.Scaleway.LoadBalancers
use mathlib.Core.Path.{subst}
use scaleway_operator.Prelude.{
  Bool, List, Option, String, and_then, head?, inl, inr, none, refl, some, ◌≡◌,
}
use scaleway_operator.Reconcile.LoadBalancers.Steps.{adopt_or_create, adopt_or_create_from}
use scaleway_operator.Resources.Instances.{LoadBalancer}
use scaleway_operator.Runtime.Ends.{Yields, bind_after, call-Yields, on_error-Yields}
use scaleway_operator.Runtime.Exec.{ok, pure}
use scaleway_operator.Runtime.World.{Event, Outside, ScalewayClient, World}
use scaleway_operator.Scaleway.Learns.{Learned, finding_of-Names, ok_injective, reading_of-Names}
use scaleway_operator.Scaleway.Request.{str_at}

module _ (out : Outside) (cr : LoadBalancer) where
  -- What the answers of a creation and of a search name.
  abbrev pub of_creation : (out.json).Value → Option String
  of_creation v = str_at out "id" v

  abbrev pub of_search : (out.json).Value → Option String
  of_search v =
      and_then (str_at out "id") (and_then head? ((out.json).as_array ((out.json).index v "lbs")))

  create-Names :
      (c : ScalewayClient) (pid ns name : String)
      → Yields
          (λ id log. Learned out of_creation of_search id log)
          (LoadBalancers.create_load_balancer out c cr.spec pid ns name)
  unfolding LoadBalancers.create_load_balancer
  create-Names c pid ns name = record {
    at = λ w id h. (_, w.log, inl (refl, reading_of-Names out _ of_creation _ w id h));
  }

  -- What a search leaves: where it has found an id, the call that named it.
  abbrev FoundBy : Option String → List Event → Type 0
  FoundBy none log = Unit
  FoundBy (some id) log = Learned out of_creation of_search id log

  find-Names :
      (c : ScalewayClient) (zone ns name pid id : String) (w : World)
      → (LoadBalancers.find_load_balancer_by_name out c zone ns name pid w).0 ≡ ok (some id)
      → Learned out of_creation of_search id
          ((LoadBalancers.find_load_balancer_by_name out c zone ns name pid w).1).log
  unfolding LoadBalancers.find_load_balancer_by_name
  find-Names c zone ns name pid id w h =
      (_, w.log, inr (refl, finding_of-Names out _ of_search w id h))

  found_by :
      (c : ScalewayClient) (zone ns name pid : String) (w : World) (o : Option String)
      → (LoadBalancers.find_load_balancer_by_name out c zone ns name pid w).0 ≡ ok o
      → FoundBy o ((LoadBalancers.find_load_balancer_by_name out c zone ns name pid w).1).log
  found_by c zone ns name pid w none h = tt
  found_by c zone ns name pid w (some id) h = find-Names c zone ns name pid id w h

  adopted_or_created :
      (c : ScalewayClient) (pid : String) (o : Option String) (w : World)
      → FoundBy o w.log
      → (p : String × Bool) → (adopt_or_create_from out cr c pid o w).0 ≡ ok p
      → Learned out of_creation of_search p.0 ((adopt_or_create_from out cr c pid o w).1).log
  unfolding pure
  adopted_or_created c pid (some id) w found p h =
      subst (λ x. Learned out of_creation of_search x.0 w.log) (ok_injective h) found
  adopted_or_created c pid none w found p h =
      (bind_after {P = λ id log. Learned out of_creation of_search id log}
          {Q = λ p log. Learned out of_creation of_search p.0 log} _ _
          (on_error-Yields _ _ (call-Yields out _ (create-Names c pid _ _)))
          (λ id w learned p h.
            subst (λ x. Learned out of_creation of_search x.0 w.log) (ok_injective h) learned)).at
        w p h

  pub adopt_or_create-Learned :
      (c : ScalewayClient) (pid : String)
      → Yields (λ p. Learned out of_creation of_search p.0) (adopt_or_create out cr c pid)
  unfolding adopt_or_create
  adopt_or_create-Learned c pid =
      bind_after {P = FoundBy} _ _
        (call-Yields out _ (record { at = found_by c cr.spec.zone _ _ pid }))
        (adopted_or_created c pid)
