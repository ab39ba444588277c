-- ===== src/Reconcile/Databases/Deletion.antt =====
-- src/reconcilers.rs, the deletion of a database: when its finalizer is removed.
use scaleway_operator.Scaleway.Databases
use scaleway_operator.Error.{OperatorError, is_permanent_error}
use scaleway_operator.Prelude.{
  Bool-cases, String, inl, inr, none, refl, some, true, ℕ, ◌∷◌, ◌≡◌, ◌≢◌, ◌⊎◌,
}
use scaleway_operator.Reconcile.Databases.Keeps.{Keeps-delete_refused}
use scaleway_operator.Reconcile.Databases.Steps.{delete_instance_branch}
use scaleway_operator.Reconcile.Shared.{get_namespace_client, namespace_of}
use scaleway_operator.Reconcile.Shared.Counts.{Counts, is_finalizer_patch, patches_unread}
use scaleway_operator.Reconcile.Shared.Keeps.{Keeps-get_namespace_client}
use scaleway_operator.Resources.Databases.{Rdb}
use scaleway_operator.Runtime.Calls.{call_scaleway, measured, set_outcome}
use scaleway_operator.Runtime.Exec.{Result, Result-cases, err, ok, ◌>>=◌}
use scaleway_operator.Runtime.Keeps.{Keeps-call_scaleway, count_events}
use scaleway_operator.Runtime.World.{Outside, ScalewayClient, World, sent}
use scaleway_operator.Scaleway.Keeps.{Keeps-delete_rdb_instance}
use scaleway_operator.Scaleway.Laws.{delete_rdb_instance-ok, delete_rdb_request, is_gone}

module _ (out : Outside) (cr : Rdb) (id : String) where
  -- The branch's measurer as it starts.
  abbrev started : World → World
  started w = record w { outcome = none }

  -- The lookup of the credentials, with which the branch starts.
  abbrev pub creds : World → Result ScalewayClient × World
  creds w = get_namespace_client out (namespace_of cr.metadata) (started w)

  creds_keep :
      (w : World)
      → Counts is_finalizer_patch (count_events is_finalizer_patch w.log) ((creds w).1).log
  creds_keep w =
      (Keeps-get_namespace_client out
          ((patches_unread (count_events is_finalizer_patch w.log)).reads)
          (namespace_of cr.metadata)).at
        (started w) refl

  -- The DELETE, as the breaker is told of it.
  abbrev pub deleted_by : ScalewayClient → World → Result (Unit {0}) × World
  deleted_by c w = call_scaleway out (Databases.delete_rdb_instance out c cr.spec.region id) w

  deleted_by-ok :
      (c : ScalewayClient) (w : World)
      → (deleted_by c w).0 ≡ ok tt
      → (s : ℕ) × (is_gone s ≡ true)
        × (((deleted_by c w).1).log
            ≡ sent (delete_rdb_request out c cr.spec.region id) (some s) ∷ w.log)
  unfolding call_scaleway
  deleted_by-ok c w done =
      elim (Result-cases (Databases.delete_rdb_instance out c cr.spec.region id w).0) [
        | inl (a, e) ↦ rw e (delete_rdb_instance-ok out c cr.spec.region id w e)
        | inr (x, e) ↦ absurd (cc (rw e at done))
      ]

  -- The branch of a reconcile that deletes a database in Scaleway, for one that is not to be retained and
  -- whose id is known, patches the finalizer only where the credentials cannot be had for good, or once
  -- Scaleway has answered the DELETE of that id by a success or a 404.
  pub delete_instance_branch_safe :
      (w : World)
      → count_events is_finalizer_patch ((delete_instance_branch out cr id w).1).log
        ≢ count_events is_finalizer_patch w.log
      → ((e : OperatorError) × ((creds w).0 ≡ err e) × (is_permanent_error e ≡ true))
        ⊎ ((c : ScalewayClient) × ((creds w).0 ≡ ok c)
            × (s : ℕ) × (is_gone s ≡ true)
            × (((deleted_by c (creds w).1).1).log
                ≡ sent (delete_rdb_request out c cr.spec.region id) (some s) ∷ ((creds w).1).log))
  unfolding delete_instance_branch ◌>>=◌ measured set_outcome
  delete_instance_branch_safe w patched =
      let n = count_events is_finalizer_patch w.log in
      elim (Result-cases (creds w).0) [
        | inr (e, q) ↦ elim (Bool-cases (is_permanent_error e)) [
          | inl p ↦ inl (e, q, p)
          | inr p ↦ absurd (patched (rw (q, p) (creds_keep w)))
        ]
        | inl (c, q) ↦ elim (Result-cases (deleted_by c (creds w).1).0) [
          | inl (u, d) ↦ let a = deleted_by-ok c (creds w).1 d in inr (c, q, a.0, a.1, a.2)
          | inr (e, d) ↦ absurd (
              patched (
                rw (q, d)
                  ((Keeps-delete_refused out cr (patches_unread n) (λ c. Unit {0}) (λ x c e. tt)
                      e).at
                    (deleted_by c (creds w).1).1
                    ((Keeps-call_scaleway {P = Counts is_finalizer_patch n} out _
                        (Keeps-delete_rdb_instance out c cr.spec.region id (λ r s m t log h. h))).at
                      (creds w).1 (creds_keep w)))))
        ]
      ]
