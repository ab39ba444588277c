-- ===== src/Reconcile/Databases/Creation.antt =====
-- src/reconcilers.rs, `reconcile_rdb`: when anything is created in Scaleway, and what a policy of retaining
-- means for a deletion.
use scaleway_operator.Runtime.Http.{Method}
use scaleway_operator.Context.Breaker.{is_circuit_open}
use scaleway_operator.Decide.Databases.{
  RdbReconcileDecision, RdbReconcileInput, add_finalizer, block_read_only_role, create_instance,
  decide_next_action_rdb, delete_instance, remove_finalizer, skip_circuit_open, sync_instance,
}
use scaleway_operator.Decide.Servers.{role_allows_write}
use scaleway_operator.Prelude.{
  Bool, String, arith, false, inl, inr, none, refl, true, ℕ, ◌∙◌, ◌∷◌, ◌≡◌, ◌≢◌, ◌⊎◌,
}
use scaleway_operator.Reconcile.Databases.Handler.{
  check_spec, execute, gather, input_of, reconcile_rdb_inner,
}
use scaleway_operator.Reconcile.Databases.Keeps.{Keeps-check_spec, Keeps-execute, Keeps-gather}
use scaleway_operator.Reconcile.Databases.Steps.{
  patch_rdb_finalizers, release, remove_rdb_finalizer, status_of,
}
use scaleway_operator.Reconcile.Shared.{
  await_change, deletion_requested, finalizer_present, get_scaleway_role_for_namespace,
  namespace_of, rdb_finalizer, role_of_reply, without_finalizer,
}
use scaleway_operator.Reconcile.Shared.Counts.{
  Counts, is_post, posts_delete, posts_finalizers, posts_get, posts_unread,
}
use scaleway_operator.Reconcile.Shared.Keeps.{AllowsOwn, FinalizersKeep, StatusKeeps}
use scaleway_operator.Resources.{rdb_kind}
use scaleway_operator.Resources.Databases.{Rdb, retains}
use scaleway_operator.Runtime.Calls.{
  circuit_open, get_namespace_role, measured, patch_finalizers, set_outcome,
}
use scaleway_operator.Runtime.Exec.{Result-cases, lift, ok, on_error, pure, ◌>>=◌}
use scaleway_operator.Runtime.Http.{Try, bad, good}
use scaleway_operator.Runtime.Keeps.Rules.{count_events}
use scaleway_operator.Runtime.World.{
  Event, Outside, World, patched_finalizers, read_scaleway_secret,
}
use scaleway_operator.Scaleway.Keeps.{Allows}
use scaleway_operator.Scaleway.Validation.{validate_region}

Try-cases : {E A : Type 0} (t : Try E A) → ((a : A) × (t ≡ good a)) ⊎ ((e : E) × (t ≡ bad e))
Try-cases (good a) = inl (a, refl)
Try-cases (bad e) = inr (e, refl)

abbrev is_post_method : Method → Bool
is_post_method Method.post = true
is_post_method _ = false

not_post : (n : ℕ) (m : Method) → is_post_method m ≡ false → Allows (Counts is_post n) m
not_post n Method.get unposted = posts_get n
not_post n Method.delete unposted = posts_delete n
not_post n Method.post unposted = absurd (cc)

-- A read of a ScalewaySecret: the administrator's password is in one.
abbrev pub is_password_read : Event → Bool
is_password_read (read_scaleway_secret ns name) = true
is_password_read _ = false

passwords_unread : (n : ℕ) → StatusKeeps (Counts is_password_read n)
passwords_unread n = record {
  reads = record {
    role = λ ns log h. h;
    annotations = λ ns log h. h;
    secret = λ ns name log h. h;
    live = λ kind ns name log h. h;
  };
  status = λ ns name st b log h. h;
  publication = λ ns name drift log h. h;
}

module _ (out : Outside) (cr : Rdb) where
  gather_facts :
      (w : World) (may_write : Bool) (pid : String)
      → deletion_requested cr.metadata ≡ false
      → (gather out cr false w).0 ≡ ok (may_write, pid)
      → (role : String) × (out.namespace_role w.log (namespace_of cr.metadata) ≡ good role)
        × (role_allows_write role ≡ may_write)
  unfolding gather ◌>>=◌ get_scaleway_role_for_namespace get_namespace_role role_of_reply
  gather_facts w may_write pid alive h =
      elim (Try-cases (out.namespace_role w.log (namespace_of cr.metadata))) [
        | inl (role, q) ↦ (role, q, ground arith)
        | inr (e, q) ↦ absurd (ground arith)
      ]

  gather_skips :
      (b : Bool) (w : World)
      → deletion_requested cr.metadata ≡ true
      → gather out cr b w ≡ (ok (false, ""), w)
  unfolding gather ◌>>=◌
  gather_skips b w dying = rw dying refl

  decide-retains :
      (i : RdbReconcileInput)
      → i.deletion_requested ≡ true
      → i.retain_on_delete ≡ true
      → decide_next_action_rdb i ≡ remove_finalizer
  unfolding decide_next_action_rdb
  decide-retains i d r = ground arith

  decide-creates :
      (i : RdbReconcileInput)
      → decide_next_action_rdb i ≡ create_instance
      → (i.deletion_requested ≡ false)
        × (i.circuit_open ≡ false)
        × (i.finalizer_present ≡ true)
        × (i.scaleway_id ≡ none)
        × (i.role_allows_write ≡ true)
  unfolding decide_next_action_rdb
  decide-creates i h = ground arith

  pub is_create : (d : RdbReconcileDecision) → (d ≡ create_instance) ⊎ (d ≢ create_instance)
  is_create skip_circuit_open = inr (λ h. cc)
  is_create add_finalizer = inr (λ h. cc)
  is_create block_read_only_role = inr (λ h. cc)
  is_create create_instance = inl refl
  is_create (sync_instance id) = inr (λ h. cc)
  is_create (delete_instance id) = inr (λ h. cc)
  is_create remove_finalizer = inr (λ h. cc)

  -- The answer of the breaker.
  abbrev pub open_at : World → Bool
  open_at w = (is_circuit_open (out.instant w.log) w.circuit_breaker).0

  -- The world in which the role is read: the spec has been checked.
  abbrev after_check : World → World
  after_check w = (check_spec out cr (circuit_open out w).1).1

  -- What a creation requires of the facts.
  abbrev MayCreate : World → Type 0
  MayCreate w =
      (deletion_requested cr.metadata ≡ false)
      × (open_at w ≡ false)
      × (finalizer_present rdb_finalizer cr.metadata ≡ true)
      × ((status_of cr).scaleway_id ≡ none)
      × ((role : String) × (out.namespace_role (after_check w).log (namespace_of cr.metadata)
            ≡ good role)
          × (role_allows_write role ≡ true))

  -- The calls that none of the other decisions makes are made only where an instance may be created.
  module _ (w : World) (q : Event → Bool) (keeps : StatusKeeps (Counts q (count_events q w.log)))
      (patches : FinalizersKeep (Counts q (count_events q w.log)))
      (requests : (m : Method)
        → is_post_method m ≡ false
        → AllowsOwn (Counts q (count_events q w.log)) (λ c. Unit {0}) m) where
    only_if_creating :
        count_events q ((reconcile_rdb_inner out cr w).1).log ≢ count_events q w.log → MayCreate w
    unfolding reconcile_rdb_inner ◌>>=◌ circuit_open
    only_if_creating called =
        let asked = (circuit_open out w).1 in
        let checked = (check_spec out cr asked).1 in
        let log1 = (Keeps-check_spec out cr keeps (λ c. Unit {0}) (λ x c e. tt)).at asked refl in
        let log2 =
          (Keeps-gather out cr keeps (λ c. Unit {0}) (λ x c e. tt) (open_at w)).at checked log1 in
        elim (Result-cases (check_spec out cr asked).0) [
          | inr (x, e) ↦ absurd (called (rw e log1))
          | inl (u, e) ↦ elim (Result-cases (gather out cr (open_at w) checked).0) [
            | inr (x, g) ↦ absurd (called (rw (e, g) log2))
            | inl ((may_write, pid), g) ↦
                elim (is_create (decide_next_action_rdb (input_of out cr (open_at w) may_write))) [
                  | inr quiet ↦ absurd (
                      called (
                        rw (e, g)
                          ((Keeps-execute out cr keeps (λ c. Unit {0}) (λ x c e. tt) patches
                              (requests Method.get refl) (requests Method.delete refl) pid _
                              quiet).at
                            _ log2)))
                  | inl c ↦
                      let f = decide-creates (input_of out cr (open_at w) may_write) c in
                      let g' = gather_facts checked may_write pid f.0 (rw f.1 at g) in
                      (f.0, f.1, f.2, f.3, (g'.0, g'.1, g'.2 ∙ f.4))
                ]
          ]
        ]

  -- A reconcile of a database makes a POST to Scaleway, or reads the ScalewaySecret of the administrator's
  -- password, only for one that is not being deleted, with the circuit closed, the finalizer in place, no
  -- Scaleway id in its status, and a NamespaceRole that was read and whose role allows writing.
  pub reconcile_rdb_creates_only_if :
      (w : World)
      → (count_events is_post ((reconcile_rdb_inner out cr w).1).log ≢ count_events is_post w.log)
        ⊎ (count_events is_password_read ((reconcile_rdb_inner out cr w).1).log
            ≢ count_events is_password_read w.log)
      → (deletion_requested cr.metadata ≡ false)
        × (open_at w ≡ false)
        × (finalizer_present rdb_finalizer cr.metadata ≡ true)
        × ((status_of cr).scaleway_id ≡ none)
        × ((role : String) × (out.namespace_role (after_check w).log (namespace_of cr.metadata)
              ≡ good role)
            × (role_allows_write role ≡ true))
  reconcile_rdb_creates_only_if w (inl posted) =
      let n = count_events is_post w.log in
      only_if_creating w is_post (posts_unread n) (posts_finalizers n)
        (λ m unposted c u r s e t log h. not_post n m unposted r s e log h) posted
  reconcile_rdb_creates_only_if w (inr read) =
      let n = count_events is_password_read w.log in
      only_if_creating w is_password_read (passwords_unread n) (λ kind ns name fs b log h. h)
        (λ m unposted c u r s e t log h. h) read

  check_spec_passes :
      (w : World)
      → deletion_requested cr.metadata ≡ true
      → validate_region cr.spec.region ≡ ok tt
      → check_spec out cr w ≡ (ok tt, w)
  unfolding check_spec lift on_error pure ◌>>=◌
  check_spec_passes w dying known = rw (known, dying) refl

  released :
      (pid : String) (w : World)
      → out.patch_finalizers w.log rdb_kind
          (namespace_of cr.metadata)
          cr.metadata.name
          (without_finalizer rdb_finalizer cr.metadata)
        ≡ none
      → ((execute out cr pid remove_finalizer w).0 ≡ ok await_change)
        × (((execute out cr pid remove_finalizer w).1).log
            ≡ patched_finalizers rdb_kind
                (namespace_of cr.metadata)
                cr.metadata.name
                (without_finalizer rdb_finalizer cr.metadata)
                true
              ∷ w.log)
  unfolding ◌>>=◌ execute on_error pure measured release remove_rdb_finalizer patch_rdb_finalizers
      patch_finalizers set_outcome
  released pid w taken = rw taken (refl, refl)

  -- The deletion of a database whose policy is to retain it: in a known region, and where the patch is
  -- accepted, the reconcile succeeds and waits for a change, and its one call is the patch that takes the
  -- finalizer off. Nothing is asked of Scaleway.
  pub reconcile_rdb_retains :
      (w : World)
      → deletion_requested cr.metadata ≡ true
      → retains cr.spec.deletion_policy ≡ true
      → validate_region cr.spec.region ≡ ok tt
      → out.patch_finalizers w.log rdb_kind
          (namespace_of cr.metadata)
          cr.metadata.name
          (without_finalizer rdb_finalizer cr.metadata)
        ≡ none
      → ((reconcile_rdb_inner out cr w).0 ≡ ok await_change)
        × (((reconcile_rdb_inner out cr w).1).log
            ≡ patched_finalizers rdb_kind
                (namespace_of cr.metadata)
                cr.metadata.name
                (without_finalizer rdb_finalizer cr.metadata)
                true
              ∷ w.log)
  unfolding reconcile_rdb_inner ◌>>=◌ circuit_open
  reconcile_rdb_retains w dying kept known taken =
      rw
        (
          check_spec_passes (circuit_open out w).1 dying known,
          gather_skips (open_at w) (circuit_open out w).1 dying,
          decide-retains (input_of out cr (open_at w) false) dying kept,
        )
        (released "" (circuit_open out w).1 taken)
