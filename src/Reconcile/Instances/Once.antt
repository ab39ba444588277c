-- ===== src/Reconcile/Instances/Once.antt =====
-- src/reconcilers.rs, `reconcile_instance`: a creation that succeeds is written down, and not repeated.
use scaleway_operator.Scaleway.Servers
use scaleway_operator.Decide.Servers.{ReconcileDecision}
use mathlib.Core.Path.{subst}
use scaleway_operator.Decide.Laws.{creates}
use scaleway_operator.Decide.Servers.{
  add_finalizer, block_read_only_role, create_instance, decide_next_action, delete_instance,
  remove_finalizer, skip_circuit_open, sync_instance, verify_project_access,
}
use scaleway_operator.Prelude.{
  Bool, Bool-cases, List, Option, String, and_then, arith, head?, inl, inr, none, refl, some, true,
  ◌∷◌, ◌≡◌, ◌≢◌,
}
use scaleway_operator.Reconcile.Instances.Creation.{
  after_breaker, open_at, reconcile_instance_creates_only_if,
}
use scaleway_operator.Reconcile.Instances.Handler.{
  execute, gather, input_of, reconcile_instance_inner,
}
use scaleway_operator.Reconcile.Instances.Keeps.{Keeps-execute, Keeps-gather}
use scaleway_operator.Reconcile.Instances.Steps.{
  adopt_or_create, adopt_or_create_from, created_status, execute_create_instance, status_of,
  update_status,
}
use scaleway_operator.Reconcile.Shared.{Action, namespace_of, requeue}
use scaleway_operator.Reconcile.Shared.Counts.{
  is_post, posts_delete, posts_finalizers, posts_get, posts_unread, same_count,
}
use scaleway_operator.Resources.Instances.{Instance, InstanceStatus}
use scaleway_operator.Runtime.Calls.{circuit_open, patch_status, set_outcome, update_metrics}
use scaleway_operator.Runtime.Ends.{
  EndsIn, Yields, bind_after, bind_ends, call-Yields, measured_ends, on_error-Yields, Yields-end,
}
use scaleway_operator.Runtime.Exec.{Result-cases, gets, ok, pure, ◌>>=◌, ◌>>◌}
use scaleway_operator.Runtime.Keeps.Rules.{count_events}
use scaleway_operator.Runtime.World.{
  Event, Outside, ScalewayClient, World, of_instance, patched_status,
}
use scaleway_operator.Scaleway.Learns.{Learned, finding_of-Names, ok_injective, reading_of-Names}
use scaleway_operator.Scaleway.Request.{str_at}

module _ (out : Outside) (cr : Instance) where
  -- What the answers of a creation and of a search name.
  abbrev pub of_creation : (out.json).Value → Option String
  of_creation v = str_at out "id" ((out.json).index v "server")

  abbrev pub of_search : (out.json).Value → Option String
  of_search v =
      and_then (str_at out "id")
        (and_then head? ((out.json).as_array ((out.json).index v "servers")))

  -- The newest call is an accepted write of a status with the id that the call before it has learned.
  abbrev WroteId : List Event → Type 0
  WroteId log =
      (st : InstanceStatus) × (id : String) × (earlier : List Event) × (st.scaleway_id ≡ some id)
      × Learned out of_creation of_search id earlier
      × (log
          ≡ patched_status (namespace_of cr.metadata) cr.metadata.name (of_instance st) true
            ∷ earlier)

  create-Names :
      (c : ScalewayClient) (pid id : String) (w : World)
      → (Servers.create_instance out c cr.spec pid w).0 ≡ ok id
      → Learned out of_creation of_search id ((Servers.create_instance out c cr.spec pid w).1).log
  unfolding Servers.create_instance
  create-Names c pid id w h = (_, w.log, inl (refl, reading_of-Names out _ of_creation _ w id h))

  find-Names :
      (c : ScalewayClient) (zone name pid id : String) (w : World)
      → (Servers.find_instance_by_name out c zone name pid w).0 ≡ ok (some id)
      → Learned out of_creation of_search id
          ((Servers.find_instance_by_name out c zone name pid w).1).log
  unfolding Servers.find_instance_by_name
  find-Names c zone name pid id w h =
      (_, w.log, inr (refl, finding_of-Names out _ of_search w id h))

  -- What a search leaves: where it has found an id, the call that named it.
  abbrev FoundBy : Option String → List Event → Type 0
  FoundBy none log = Unit
  FoundBy (some id) log = Learned out of_creation of_search id log

  found_by :
      (c : ScalewayClient) (zone name pid : String) (w : World) (o : Option String)
      → (Servers.find_instance_by_name out c zone name pid w).0 ≡ ok o
      → FoundBy o ((Servers.find_instance_by_name out c zone name pid w).1).log
  found_by c zone name pid w none h = tt
  found_by c zone name pid w (some id) h = find-Names c zone name pid id w h

  adopted_or_created :
      (c : ScalewayClient) (pid : String) (o : Option String) (w : World)
      → FoundBy o w.log
      → (p : String × Bool) → (adopt_or_create_from out cr c pid o w).0 ≡ ok p
      → Learned out of_creation of_search p.0 ((adopt_or_create_from out cr c pid o w).1).log
  unfolding pure
  adopted_or_created c pid (some id) w found p h =
      subst (λ x. Learned out of_creation of_search x.0 w.log) (ok_injective h) found
  adopted_or_created c pid none w found p h =
      (bind_after {P = λ id log. Learned out of_creation of_search id log}
          {Q = λ p log. Learned out of_creation of_search p.0 log} _ _
          (on_error-Yields _ _
            (call-Yields out _ (record { at = λ w id. create-Names c pid id w })))
          (λ id w learned p h.
            subst (λ x. Learned out of_creation of_search x.0 w.log) (ok_injective h) learned)).at
        w p h

  adopt_or_create-Learned :
      (c : ScalewayClient) (pid : String)
      → Yields (λ p. Learned out of_creation of_search p.0) (adopt_or_create out cr c pid)
  unfolding adopt_or_create
  adopt_or_create-Learned c pid =
      bind_after {P = FoundBy} _ _ (record { at = found_by c cr.spec.zone cr.spec.name pid })
        (adopted_or_created c pid)

  update_status-ok :
      (st : InstanceStatus) (w : World) (u : Unit {0})
      → (update_status out cr st w).0 ≡ ok u
      → ((update_status out cr st w).1).log
        ≡ patched_status (namespace_of cr.metadata) cr.metadata.name (of_instance st) true ∷ w.log
  unfolding update_status patch_status
  update_status-ok st w u h = ground arith

  written :
      (st : InstanceStatus) (id : String)
      → st.scaleway_id ≡ some id
      → (w : World) → Learned out of_creation of_search id w.log
      → (a : Action) → ((update_status out cr st >> pure (requeue 10)) w).0 ≡ ok a
      → WroteId (((update_status out cr st >> pure (requeue 10)) w).1).log
  unfolding ◌>>=◌
  written st id known w learned a h = elim (Result-cases (update_status out cr st w).0) [
    | inl (u, e) ↦ (st, id, w.log, known, learned, rw e (update_status-ok st w u e))
    | inr (x, e) ↦ cc (rw e at h)
  ]

  creation_ends :
      (c : ScalewayClient) (pid : String) → EndsIn WroteId (execute_create_instance out cr c pid)
  unfolding execute_create_instance ◌>>=◌ gets update_metrics set_outcome
  creation_ends c pid = Yields-end _ (
      bind_after {P = λ p log. Learned out of_creation of_search p.0 log} _ _
        (adopt_or_create-Learned c pid)
        (λ p w learned a h.
          written (created_status out cr p.0 pid (out.utc_now w.log)) p.0 refl _ learned a h))

  execute_ends :
      (role : String) (d : ReconcileDecision)
      → creates d ≡ true
      → EndsIn WroteId (execute out cr role d)
  unfolding execute
  execute_ends role (verify_project_access pid) h =
      measured_ends out _
        (bind_ends _ _ (λ c. bind_ends _ _ (λ c'. bind_ends _ _ (λ u. creation_ends c pid))))
  execute_ends role (create_instance pid) h =
      measured_ends out _ (bind_ends _ _ (λ c. creation_ends c pid))
  execute_ends role skip_circuit_open h = cc
  execute_ends role add_finalizer h = cc
  execute_ends role block_read_only_role h = cc
  execute_ends role (sync_instance id pid) h = cc
  execute_ends role delete_instance h = cc
  execute_ends role remove_finalizer h = cc

  reconcile_ends :
      (w : World) (a : Action)
      → (reconcile_instance_inner out cr w).0 ≡ ok a
      → count_events is_post ((reconcile_instance_inner out cr w).1).log
        ≢ count_events is_post w.log
      → WroteId ((reconcile_instance_inner out cr w).1).log
  unfolding reconcile_instance_inner ◌>>=◌ circuit_open
  reconcile_ends w a h posted =
      let n = count_events is_post w.log in
      let gathered =
        (Keeps-gather out cr (posts_unread n) (λ c. Unit {0}) (λ x c e. tt) (open_at out cr w)).at
          (after_breaker out cr w) refl in
      elim (Result-cases (gather out cr (open_at out cr w) (after_breaker out cr w)).0) [
        | inr (x, e) ↦ absurd (posted (rw e gathered))
        | inl ((role, pid), e) ↦
            elim (Bool-cases
              (creates (decide_next_action (input_of out cr (open_at out cr w) role pid)))) [
                | inr quiet ↦ absurd (
                    posted (
                      rw e (
                        (Keeps-execute out cr (posts_unread n) (λ c. Unit {0}) (λ x c e. tt)
                            (posts_finalizers n) (λ c i r s e t. posts_get n r s e)
                            (λ c i r s e t. posts_delete n r s e) role _ quiet).at
                          _ gathered)))
                | inl c ↦ rw e ((execute_ends role _ c).at _ a (rw e at h))
              ]
      ]

known_posts_nothing :
    (out : Outside) (cr : Instance) (w : World) (id : String)
    → (status_of cr).scaleway_id ≡ some id
    → count_events is_post ((reconcile_instance_inner out cr w).1).log ≡ count_events is_post w.log
known_posts_nothing out cr w id known = same_count _ _ (λ posted.
    let (role, read, allows, alive, shut_now, finalizer, unread) =
      reconcile_instance_creates_only_if out cr w posted in
    cc)

-- A reconcile of an instance that succeeds and has made a POST to Scaleway ends with an accepted write of
-- a status that holds the id which the answer of the call before it names, a creation or a search; and the
-- reconcile of the instance with that status, in any world, makes no POST: a creation is not repeated.
pub reconcile_instance_creates_once :
    (out : Outside) (cr : Instance) (w w2 : World) (a : Action)
    → (reconcile_instance_inner out cr w).0 ≡ ok a
    → count_events is_post ((reconcile_instance_inner out cr w).1).log ≢ count_events is_post w.log
    → (st : InstanceStatus) × (id : String) × (earlier : List Event) × (st.scaleway_id ≡ some id)
      × Learned out (of_creation out cr) (of_search out cr) id earlier
      × (((reconcile_instance_inner out cr w).1).log
          ≡ patched_status (namespace_of cr.metadata) cr.metadata.name (of_instance st) true
            ∷ earlier)
      × (count_events is_post
            ((reconcile_instance_inner out (record cr { status = some st }) w2).1).log
          ≡ count_events is_post w2.log)
reconcile_instance_creates_once out cr w w2 a h posted =
    let (st, id, earlier, known, learned, wrote) = reconcile_ends out cr w a h posted in
    (
      st,
      id,
      earlier,
      known,
      learned,
      wrote,
      known_posts_nothing out (record cr { status = some st }) w2 id known,
    )
