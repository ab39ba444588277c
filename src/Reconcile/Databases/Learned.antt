-- ===== src/Reconcile/Databases/Learned.antt =====
-- src/reconcilers.rs, `execute_create_rdb`: where the id of a database comes from.
use scaleway_operator.Scaleway.Databases
use mathlib.Core.Path.{subst}
use scaleway_operator.Prelude.{
  Bool, List, Option, String, [], filter_map, get_or, inl, inr, none, refl, some, ◌∷◌, ◌≡◌,
}
use scaleway_operator.Reconcile.Databases.Steps.{create_unless, execute_create_rdb}
use scaleway_operator.Reconcile.Shared.{namespace_of}
use scaleway_operator.Resources.Databases.{Rdb}
use scaleway_operator.Runtime.Ends.{Yields, bind-Yields, bind_after, call-Yields}
use scaleway_operator.Runtime.Exec.{Exec, ok, pure}
use scaleway_operator.Runtime.World.{Event, Outside, ScalewayClient, World}
use scaleway_operator.Scaleway.Info.{RdbCreateParams}
use scaleway_operator.Scaleway.Learns.{
  Learned, found_in, judging_of-Names, ok_injective, reading_of-Names, reads_alike,
}
use scaleway_operator.Scaleway.Request.{str_at}

module _ (out : Outside) (cr : Rdb) where
  -- What the answers of a creation and of a search name.
  abbrev pub of_creation : (out.json).Value → Option String
  of_creation v = str_at out "id" v

  abbrev ids_in : (out.json).Value → List String
  ids_in v =
      filter_map (str_at out "id")
        (get_or [] ((out.json).as_array ((out.json).index v "instances")))

  -- The one element of a list that has no other.
  abbrev only : List String → Option String
  only [] = none
  only (id ∷ []) = some id
  only (id ∷ id' ∷ ids) = none

  abbrev pub of_search : (out.json).Value → Option String
  of_search v = only (ids_in v)

  judged :
      (c : ScalewayClient) (ids : List String) (ns name : String)
      → found_in (Databases.single_match out c ids ns name) ≡ only ids
  unfolding Databases.single_match
  judged c [] ns name = refl
  judged c (id ∷ []) ns name = refl
  judged c (id ∷ id' ∷ ids) ns name = refl

  create-Names :
      (c : ScalewayClient) (region : String) (params : RdbCreateParams) (ns name : String)
      → Yields
          (λ id log. Learned out of_creation of_search id log)
          (Databases.create_rdb_instance out c region params ns name)
  unfolding Databases.create_rdb_instance
  create-Names c region params ns name = record {
    at = λ w id h. (_, w.log, inl (refl, reading_of-Names out _ of_creation _ w id h));
  }

  -- What a search leaves: where it has found an id, the call that named it.
  abbrev FoundBy : Option String → List Event → Type 0
  FoundBy none log = Unit
  FoundBy (some id) log = Learned out of_creation of_search id log

  abbrev search : ScalewayClient → String → Exec (Option String)
  search c pid =
      Databases.find_rdb_instance_by_tags out c cr.spec.region pid (namespace_of cr.metadata)
        cr.metadata.name

  find-Names :
      (c : ScalewayClient) (pid id : String) (w : World)
      → (search c pid w).0 ≡ ok (some id)
      → Learned out of_creation of_search id ((search c pid w).1).log
  unfolding Databases.find_rdb_instance_by_tags
  find-Names c pid id w h = (
    _,
    w.log,
    inr (
      refl,
      reads_alike (λ v. judged c (ids_in v) _ _)
          (judging_of-Names out _
            (λ v.
              Databases.single_match out c (ids_in v) (namespace_of cr.metadata) cr.metadata.name)
            w id h),
    ),
  )

  found_by :
      (c : ScalewayClient) (pid : String) (w : World) (o : Option String)
      → (search c pid w).0 ≡ ok o
      → FoundBy o ((search c pid w).1).log
  found_by c pid w none h = tt
  found_by c pid w (some id) h = find-Names c pid id w h

  adopted_or_created :
      (c : ScalewayClient) (pid : String) (o : Option String) (w : World)
      → FoundBy o w.log
      → (p : String × Bool) → (create_unless out cr c pid o w).0 ≡ ok p
      → Learned out of_creation of_search p.0 ((create_unless out cr c pid o w).1).log
  unfolding pure
  adopted_or_created c pid (some id) w found p h =
      subst (λ x. Learned out of_creation of_search x.0 w.log) (ok_injective h) found
  adopted_or_created c pid none w found p h =
      (bind-Yields {Q = λ p log. Learned out of_creation of_search p.0 log} _ _ (λ password.
          bind_after {P = λ id log. Learned out of_creation of_search id log}
            {Q = λ p log. Learned out of_creation of_search p.0 log} _ _
            (call-Yields out _ (create-Names c _ _ _ _))
            (λ id w learned p h.
              subst (λ x. Learned out of_creation of_search x.0 w.log) (ok_injective h)
                learned))).at
        w p h

  pub execute_create_rdb-Learned :
      (pid : String)
      → Yields (λ p. Learned out of_creation of_search p.0) (execute_create_rdb out cr pid)
  unfolding execute_create_rdb
  execute_create_rdb-Learned pid = bind-Yields _ _ (λ c.
      bind_after {P = FoundBy} _ _ (call-Yields out _ (record { at = found_by c pid }))
        (adopted_or_created c pid))
