-- ===== src/Reconcile/Secrets/Push.antt =====
-- src/reconcilers.rs, the creation of a secret: the order of its writes, and what its decision guarantees.
use scaleway_operator.Scaleway.Secrets
use scaleway_operator.Decide.Secrets.{
  SecretReconcileDecision, create_and_sync_secret, decide_next_action_secret, decide_sync,
  push_new_version,
}
use scaleway_operator.Error.{KubeError, OperatorError, kube_error}
use scaleway_operator.Prelude.{
  Bool, Bool-cases, List, Option, Option-cases, String, arith, false, if◌then◌else◌, inl, inr,
  is_some, map_option, none, not, refl, some, true, u32, ℕ, ◌∙◌, ◌∷◌, ◌≡◌, ◌⊎◌,
}
use scaleway_operator.Reconcile.Secrets.Handler.{
  SourceFacts, execute, if_current, input_of, is_opt_in_missing, is_secret_not_found, no_source,
  opt_in_withdrawn, read_source, source_at, source_from,
}
use scaleway_operator.Reconcile.Secrets.Source.{KsSourceState, key_absent, present}
use scaleway_operator.Reconcile.Secrets.Steps.{
  anchor_and_push, create_and_sync, handle_opt_in_revocation, prelim_status, push_version,
  pushed_status, record_source_error_in_status, update_secret_status,
}
use scaleway_operator.Reconcile.Shared.{deletion_requested, namespace_of}
use scaleway_operator.Resources.Secrets.{KubernetesSecretRef, ScalewaySecret}
use scaleway_operator.Runtime.Calls.{call_scaleway, patch_status, set_outcome}
use scaleway_operator.Runtime.Exec.{
  Exec, Result, Result-cases, err, ok, on_error, raise, ◌>>=◌, ◌>>◌,
}
use scaleway_operator.Runtime.World.{
  Event, Outside, ScalewayClient, World, of_secret, patched_status,
}

module _ {A : Type 0} where
  fails_after :
      (m : Exec (Unit {0})) (e : OperatorError) (w : World) (a : A)
      → ¬ (((m >> raise {A = A} e) w).0 ≡ ok a)
  unfolding ◌>>=◌
  fails_after m e w a h = elim (Result-cases (m w).0) [
    | inl (u, q) ↦ cc (rw q at h)
    | inr (x, q) ↦ cc (rw q at h)
  ]

  fails_handled :
      (e : OperatorError) (handler : OperatorError → Exec (Unit {0})) (w : World) (a : A)
      → ¬ ((on_error (raise {A = A} e) handler w).0 ≡ ok a)
  unfolding ◌>>=◌
  fails_handled e handler w a h = elim (Result-cases (handler e w).0) [
    | inl (u, q) ↦ cc (rw q at h)
    | inr (x, q) ↦ cc (rw q at h)
  ]

module _ (out : Outside) (cr : ScalewaySecret) where
  -- What is known of a source tells that the key is there exactly when it holds its value.
  abbrev IsCoherent : SourceFacts → Type 0
  IsCoherent f = f.key_present ≡ is_some f.payload

  withdrawal_fails :
      (b : Bool) (o : Option String) (e : OperatorError) (w : World) (f : SourceFacts)
      → ¬ (((if b then raise e else opt_in_withdrawn out cr e o) w).0 ≡ ok f)
  unfolding ◌>>=◌
  withdrawal_fails true o e w f h = cc
  withdrawal_fails false (some sid) e w f h =
      fails_after (handle_opt_in_revocation out cr sid) e w f h
  withdrawal_fails false none e w f h = fails_handled e (record_source_error_in_status out cr) w f h

  -- A failed reading of the source that does not end the reconcile leaves nothing known of it.
  pub source_from-no_source :
      (e : OperatorError) (w : World) (f : SourceFacts)
      → (source_from out cr (err e) w).0 ≡ ok f
      → f ≡ no_source
  unfolding ◌>>=◌
  source_from-no_source e w f h = elim (Bool-cases (is_secret_not_found e)) [
    | inl p ↦ ground arith
    | inr p ↦ elim (Bool-cases (is_opt_in_missing e)) [
      | inl q ↦ absurd (withdrawal_fails _ _ e w f (rw (p, q) at h))
      | inr q ↦ absurd (fails_handled e (record_source_error_in_status out cr) w f (rw (p, q) at h))
    ]
  ]

  source_from-IsCoherent :
      (r : Result KsSourceState) (w : World) (f : SourceFacts)
      → (source_from out cr r w).0 ≡ ok f
      → IsCoherent f
  unfolding ◌>>=◌
  source_from-IsCoherent (ok (key_absent rv)) w f h = ground arith
  source_from-IsCoherent (ok (present rv p)) w f h = ground arith
  source_from-IsCoherent (err e) w f h = rw (source_from-no_source e w f h) refl

  source_at-IsCoherent :
      (r : Option KubernetesSecretRef) (w : World) (f : SourceFacts)
      → (source_at out cr r w).0 ≡ ok f
      → IsCoherent f
  unfolding ◌>>=◌
  source_at-IsCoherent none w f h = ground arith
  source_at-IsCoherent (some r) w f h = elim (Bool-cases (not (deletion_requested cr.metadata))) [
    | inl p ↦ source_from-IsCoherent _ _ f (rw p at h)
    | inr p ↦ ground arith
  ]

  has_value :
      (is_open : Bool) (f : SourceFacts)
      → IsCoherent f
      → f.payload ≡ none
      → ¬ (
          (decide_next_action_secret (input_of out cr is_open f) ≡ create_and_sync_secret)
          ⊎ ((id : String) × (decide_next_action_secret (input_of out cr is_open f)
                ≡ push_new_version id)))
  unfolding decide_next_action_secret decide_sync
  has_value is_open f coherent q (inl h) = ground arith
  has_value is_open f coherent q (inr (id, h)) = ground arith

  -- Where a source was read, a decision to create or to push is carried out with a value: the branch runs
  -- on the bytes that were read, for a resource that is current, and never on the missing value for which it
  -- has its error of a broken invariant.
  pub payload_guaranteed :
      (w : World) (f : SourceFacts) (is_open : Bool) (d : SecretReconcileDecision)
      → (read_source out cr w).0 ≡ ok f
      → decide_next_action_secret (input_of out cr is_open f) ≡ d
      → (d ≡ create_and_sync_secret) ⊎ ((id : String) × (d ≡ push_new_version id))
      → (payload : List ℕ) × (f.payload ≡ some payload)
        × (((d ≡ create_and_sync_secret)
              × (execute out cr f d
                  ≡ if_current out cr (create_and_sync out cr f.resource_version (some payload))))
            ⊎ ((id : String) × (d ≡ push_new_version id)
                × (execute out cr f d
                    ≡ if_current out cr
                        (push_version out cr id f.resource_version (some payload)))))
  unfolding read_source decide_next_action_secret decide_sync execute
  payload_guaranteed w f is_open d read decided (inl creates) =
      let coherent = source_at-IsCoherent cr.spec.kubernetes_secret w f read in
      elim (Option-cases f.payload) [
        | inl q ↦ absurd (has_value is_open f coherent q (inl (decided ∙ creates)))
        | inr (payload, q) ↦ (payload, q, inl (creates, rw (creates, q) refl))
      ]
  payload_guaranteed w f is_open d read decided (inr (id, pushes)) =
      let coherent = source_at-IsCoherent cr.spec.kubernetes_secret w f read in
      elim (Option-cases f.payload) [
        | inl q ↦ absurd (has_value is_open f coherent q (inr (id, decided ∙ pushes)))
        | inr (payload, q) ↦ (payload, q, inr (id, pushes, rw (pushes, q) refl))
      ]

  -- The patch of the status that anchors an id, as it is logged.
  abbrev anchored : String → Bool → Event
  anchored id is_accepted =
      patched_status (namespace_of cr.metadata) cr.metadata.name
        (of_secret (prelim_status out cr id)) is_accepted

  -- While the id cannot be anchored in the status, nothing is pushed: the refused patch is the only call.
  pub anchor_and_push_stops :
      (w : World) (c : ScalewayClient) (id : String) (rv : Option String)
      (payload : Option (List ℕ)) (e : KubeError)
      → out.patch_status w.log
          (namespace_of cr.metadata)
          cr.metadata.name
          (of_secret (prelim_status out cr id))
        ≡ some e
      → ((anchor_and_push out cr c id rv payload w).0 ≡ err (kube_error e))
        × (((anchor_and_push out cr c id rv payload w).1).log ≡ anchored id false ∷ w.log)
  unfolding anchor_and_push ◌>>=◌ update_secret_status patch_status set_outcome
  anchor_and_push_stops w c id rv payload e refused = rw refused (refl, refl)

  -- The push of a version, as the breaker is told of it.
  abbrev version_by : ScalewayClient → String → List ℕ → World → Result ℕ × World
  version_by c id payload w =
      call_scaleway out (Secrets.create_secret_version out c cr.spec.region id payload) w

  -- The revision that an answer tells.
  abbrev pub revision_in : (out.json).Value → Option ℕ
  revision_in v = map_option u32 ((out.json).as_u64 ((out.json).index v "revision"))

  -- The accepted patch that records a pushed version.
  abbrev recorded : String → ℕ → Option String → Event
  recorded id revision rv =
      patched_status (namespace_of cr.metadata) cr.metadata.name
        (of_secret (pushed_status out cr (some id) revision rv)) true
