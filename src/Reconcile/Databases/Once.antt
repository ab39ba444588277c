-- ===== src/Reconcile/Databases/Once.antt =====
-- src/reconcilers.rs, `reconcile_rdb`: a creation that succeeds is written down, and not repeated.
use scaleway_operator.Decide.Databases.{create_instance, decide_next_action_rdb}
use scaleway_operator.Error.{OperatorError}
use scaleway_operator.Prelude.{
  Bool, List, String, arith, false, if◌then◌else◌, inl, inr, refl, some, true, ◌∙◌, ◌∷◌, ◌≡◌, ◌≢◌,
}
use scaleway_operator.Reconcile.Databases.Creation.{
  is_create, open_at, reconcile_rdb_creates_only_if,
}
use scaleway_operator.Reconcile.Databases.Handler.{
  check_spec, execute, gather, input_of, reconcile_rdb_inner,
}
use scaleway_operator.Reconcile.Databases.Keeps.{Keeps-check_spec, Keeps-execute, Keeps-gather}
use scaleway_operator.Reconcile.Databases.Learned.{
  execute_create_rdb-Learned, of_creation, of_search,
}
use scaleway_operator.Reconcile.Databases.Steps.{
  create_from, created_status, execute_create_rdb, status_of, update_rdb_status,
}
use scaleway_operator.Reconcile.Shared.{Action, is_cached_cr_current, namespace_of, requeue}
use scaleway_operator.Reconcile.Shared.Counts.{
  is_post, posts_delete, posts_finalizers, posts_get, posts_unread, same_count,
}
use scaleway_operator.Reconcile.Shared.Keeps.{Keeps-is_cached_cr_current}
use scaleway_operator.Resources.{rdb_kind}
use scaleway_operator.Resources.Databases.{Rdb, RdbStatus}
use scaleway_operator.Runtime.Calls.{circuit_open, patch_status, set_outcome}
use scaleway_operator.Runtime.Ends.{EndsIn, bind_ends, measured_ends, raise_ends}
use scaleway_operator.Runtime.Exec.{
  Exec, Result, Result-cases, attempt, err, gets, ok, on_error, pure, ◌>>=◌, ◌>>◌,
}
use scaleway_operator.Runtime.Keeps.Rules.{count_events}
use scaleway_operator.Runtime.Metrics.{adopted, created, error}
use scaleway_operator.Runtime.World.{Event, Outside, World, of_rdb, patched_status}
use scaleway_operator.Scaleway.Learns.{Learned}

module _ (out : Outside) (cr : Rdb) where
  -- The newest call is an accepted write of a status with the id that the call before it has learned.
  abbrev WroteId : List Event → Type 0
  WroteId log =
      (st : RdbStatus) × (id : String) × (earlier : List Event) × (st.scaleway_id ≡ some id)
      × Learned out (of_creation out cr) (of_search out cr) id earlier
      × (log
          ≡ patched_status (namespace_of cr.metadata) cr.metadata.name (of_rdb st) true ∷ earlier)

  update_rdb_status-ok :
      (st : RdbStatus) (w : World) (u : Unit {0})
      → (update_rdb_status out cr st w).0 ≡ ok u
      → ((update_rdb_status out cr st w).1).log
        ≡ patched_status (namespace_of cr.metadata) cr.metadata.name (of_rdb st) true ∷ w.log
  unfolding update_rdb_status patch_status
  update_rdb_status-ok st w u h = ground arith

  abbrev saved : RdbStatus → Exec Action
  saved st = on_error (update_rdb_status out cr st) (λ e. set_outcome error) >> pure (requeue 30)

  written :
      (st : RdbStatus) (id : String)
      → st.scaleway_id ≡ some id
      → (w : World) → Learned out (of_creation out cr) (of_search out cr) id w.log
      → (a : Action) → (saved st w).0 ≡ ok a
      → WroteId ((saved st w).1).log
  unfolding ◌>>=◌ set_outcome
  written st id known w learned a h = elim (Result-cases (update_rdb_status out cr st w).0) [
    | inl (u, e) ↦ (st, id, w.log, known, learned, rw e (update_rdb_status-ok st w u e))
    | inr (x, e) ↦ cc (rw e at h)
  ]

  create_from_fails :
      (pid : String) (e : OperatorError) → EndsIn WroteId (create_from out cr pid (err e))
  create_from_fails pid e = bind_ends _ _ (λ u. bind_ends _ _ (λ u'. raise_ends e))

  create_from_ends :
      (pid : String) (made : Result (String × Bool)) (w : World)
      → ((p : String × Bool)
          → made ≡ ok p
          → Learned out (of_creation out cr) (of_search out cr) p.0 w.log)
      → (a : Action) → (create_from out cr pid made w).0 ≡ ok a
      → WroteId ((create_from out cr pid made w).1).log
  unfolding ◌>>=◌ gets set_outcome
  create_from_ends pid (ok (id, was_adopted)) w learned a h =
      written (created_status out cr id pid was_adopted (out.utc_now w.log)) id refl
        (set_outcome (if was_adopted then adopted else created) w).1 (learned _ refl) a h
  create_from_ends pid (err e) w learned a h = (create_from_fails pid e).at w a h

  attempted_ends :
      (pid : String)
      → EndsIn WroteId (attempt (execute_create_rdb out cr pid) >>= create_from out cr pid)
  unfolding ◌>>=◌ attempt
  attempted_ends pid = record {
    at = λ w a h.
        create_from_ends pid _ _ (λ p e. (execute_create_rdb-Learned out cr pid).at w p e) a h;
  }

  -- A creation that is not put off because the cache is stale.
  creation_ends :
      (pid : String) (w : World) (a : Action)
      → (execute out cr pid create_instance w).0 ≡ ok a
      → count_events is_post ((execute out cr pid create_instance w).1).log
        ≢ count_events is_post w.log
      → WroteId ((execute out cr pid create_instance w).1).log
  unfolding execute ◌>>=◌
  creation_ends pid w a h posted =
      let n = count_events is_post w.log in
      elim (Result-cases (is_cached_cr_current out rdb_kind cr.metadata w).0) [
        | inr (x, e) ↦ cc (rw e at h)
        | inl (true, e) ↦ rw e ((measured_ends out _ (attempted_ends pid)).at _ a (rw e at h))
        | inl (false, e) ↦ absurd (
            posted (
              rw e (
                (Keeps-is_cached_cr_current out (posts_unread n).reads rdb_kind cr.metadata).at w
                  refl)))
      ]

  reconcile_ends :
      (w : World) (a : Action)
      → (reconcile_rdb_inner out cr w).0 ≡ ok a
      → count_events is_post ((reconcile_rdb_inner out cr w).1).log ≢ count_events is_post w.log
      → WroteId ((reconcile_rdb_inner out cr w).1).log
  unfolding reconcile_rdb_inner ◌>>=◌ circuit_open
  reconcile_ends w a h posted =
      let n = count_events is_post w.log in
      let keeps = posts_unread n in
      let asked = (circuit_open out w).1 in
      let checked = (check_spec out cr asked).1 in
      let log1 = (Keeps-check_spec out cr keeps (λ c. Unit {0}) (λ x c e. tt)).at asked refl in
      let log2 =
        (Keeps-gather out cr keeps (λ c. Unit {0}) (λ x c e. tt) (open_at out cr w)).at checked
          log1 in
      elim (Result-cases (check_spec out cr asked).0) [
        | inr (x, e) ↦ absurd (posted (rw e log1))
        | inl (u, e) ↦ elim (Result-cases (gather out cr (open_at out cr w) checked).0) [
          | inr (x, g) ↦ absurd (posted (rw (e, g) log2))
          | inl ((may_write, pid), g) ↦
              elim (is_create out cr
                (decide_next_action_rdb (input_of out cr (open_at out cr w) may_write))) [
                  | inr quiet ↦ absurd (
                      posted (
                        rw (e, g)
                          ((Keeps-execute out cr keeps (λ c. Unit {0}) (λ x c e. tt)
                              (posts_finalizers n) (λ c u r s e t. posts_get n r s e)
                              (λ c u r s e t. posts_delete n r s e) pid _ quiet).at
                            _ log2)))
                  | inl c ↦
                      rw (e, g, c)
                        (creation_ends pid _ a (rw (e, g, c) at h)
                          (λ q. posted (rw (e, g, c) (q ∙ log2))))
                ]
        ]
      ]

known_posts_nothing :
    (out : Outside) (cr : Rdb) (w : World) (id : String)
    → (status_of cr).scaleway_id ≡ some id
    → count_events is_post ((reconcile_rdb_inner out cr w).1).log ≡ count_events is_post w.log
known_posts_nothing out cr w id known = same_count _ _ (λ posted.
    let (alive, shut_now, finalizer, unread, allowed) =
      reconcile_rdb_creates_only_if out cr w (inl posted) in
    cc)

-- A reconcile of a database that succeeds and has made a POST to Scaleway ends with an accepted write
-- of a status that holds the id which the answer of the call before it names, a creation or a search; and
-- the reconcile of the database with that status, in any world, makes no POST: a creation is not repeated.
pub reconcile_rdb_creates_once :
    (out : Outside) (cr : Rdb) (w w2 : World) (a : Action)
    → (reconcile_rdb_inner out cr w).0 ≡ ok a
    → count_events is_post ((reconcile_rdb_inner out cr w).1).log ≢ count_events is_post w.log
    → (st : RdbStatus) × (id : String) × (earlier : List Event) × (st.scaleway_id ≡ some id)
      × Learned out (of_creation out cr) (of_search out cr) id earlier
      × (((reconcile_rdb_inner out cr w).1).log
          ≡ patched_status (namespace_of cr.metadata) cr.metadata.name (of_rdb st) true ∷ earlier)
      × (count_events is_post ((reconcile_rdb_inner out (record cr { status = some st }) w2).1).log
          ≡ count_events is_post w2.log)
reconcile_rdb_creates_once out cr w w2 a h posted =
    let (st, id, earlier, known, learned, wrote) = reconcile_ends out cr w a h posted in
    (
      st,
      id,
      earlier,
      known,
      learned,
      wrote,
      known_posts_nothing out (record cr { status = some st }) w2 id known,
    )
