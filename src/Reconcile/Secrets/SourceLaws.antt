-- ===== src/Reconcile/Secrets/SourceLaws.antt =====
-- Properties of the reading of the source Secret in src/reconcilers.rs.
use scaleway_operator.Error.{OperatorError, is_permanent_error, recheck_interval}
use scaleway_operator.Decide.SecretLaws.{eq_option_self, eq_option_ℕ_self}
use scaleway_operator.Prelude.{
  Bool-cases, inl, inr, Option, String, and_then, ap, arith, eq_iff, get_or, lookup, none, refl,
  some, true, ℕ, ◌↔◌, ◌≡◌,
}
use scaleway_operator.Reconcile.Secrets.Source.{
  KsSourceState, missing_annotation, missing_label, allowed_cr_annotation,
  build_already_synced_status, cr_path, holds, is_cr_allowed_for_secret, is_opt_in_granted,
  opt_in_label, parse_k8s_secret_source, state_of, value_at,
}
use scaleway_operator.Resources.Secrets.{ScalewaySecretStatus, Secret, eq_secret_status}
use scaleway_operator.Runtime.Exec.{err, ok}

-- The contract of the opt-in: the label is exactly "true" and the annotation exactly names the resource.
abbrev pub HasOptedIn : Secret → String → String → Type 0
HasOptedIn ks cr_namespace cr_name =
    (value_at opt_in_label ks.labels ≡ some "true")
    × (value_at allowed_cr_annotation ks.annotations ≡ some (cr_path cr_namespace cr_name))

holds_iff : (s : String) (o : Option String) → (holds s o ≡ true) ↔ (o ≡ some s)
holds_iff s none = (λ h. cc, λ h. cc)
holds_iff s (some v) = (λ h. ap some ((eq_iff v s).0 h), λ h. (eq_iff v s).1 cc)

-- A Secret is read exactly when it has opted in to this resource, and what is read is then its own
-- version and the value at the key, if it is there.
pub parse_k8s_secret_source-ok :
    (ks : Secret) (ks_name key cr_namespace cr_name : String) (state : KsSourceState)
    → (parse_k8s_secret_source ks ks_name key cr_namespace cr_name ≡ ok state) ↔ (
        HasOptedIn ks cr_namespace cr_name
        × (state ≡ state_of (get_or "" ks.resource_version) (and_then (lookup key) ks.contents)))
unfolding parse_k8s_secret_source is_opt_in_granted is_cr_allowed_for_secret
parse_k8s_secret_source-ok ks ks_name key cr_namespace cr_name state =
    let label = holds_iff "true" (value_at opt_in_label ks.labels) in
    let annotation =
      holds_iff (cr_path cr_namespace cr_name) (value_at allowed_cr_annotation ks.annotations) in
    (λ h. ground (arith, label, annotation), λ h. ground (arith, label, annotation))

-- A Secret that has not opted in to this resource, by its label and by its annotation, is refused by a
-- permanent error that is rechecked every 300 seconds.
pub parse_k8s_secret_source-refuses :
    (ks : Secret) (ks_name key cr_namespace cr_name : String)
    → ¬ HasOptedIn ks cr_namespace cr_name
    → (e : OperatorError) × (parse_k8s_secret_source ks ks_name key cr_namespace cr_name ≡ err e)
      × (is_permanent_error e ≡ true)
      × (recheck_interval e ≡ some 300)
unfolding parse_k8s_secret_source is_opt_in_granted is_cr_allowed_for_secret is_permanent_error
    recheck_interval
parse_k8s_secret_source-refuses ks ks_name key cr_namespace cr_name h =
    elim (Bool-cases (is_opt_in_granted ks.labels)) [
      | inl granted ↦
          elim (Bool-cases (is_cr_allowed_for_secret ks.annotations cr_namespace cr_name)) [
            | inl allowed ↦ absurd (
                h (
                  (holds_iff "true" (value_at opt_in_label ks.labels)).0 granted,
                  (holds_iff (cr_path cr_namespace cr_name)
                        (value_at allowed_cr_annotation ks.annotations)).0
                      allowed,
                ))
            | inr refused ↦ (
              missing_annotation ks_name cr_namespace cr_name,
              rw (granted, refused) refl,
              refl,
              refl,
            )
          ]
      | inr refused ↦ (missing_label ks_name, rw refused refl, refl, refl)
    ]

pub eq_secret_status_self : (s : ScalewaySecretStatus) → eq_secret_status s s ≡ true
eq_secret_status_self s = ground (
  arith,
  eq_option_self s.scaleway_id,
  eq_option_ℕ_self s.current_version,
  eq_option_self s.last_synced_resource_version,
  eq_option_ℕ_self s.observed_generation,
  eq_iff s.sync_state s.sync_state,
  eq_option_self s.error_message,
)

-- The status that ends a reconcile with nothing to push is written once: from the status it leaves there
-- is nothing to write, for a resource that has a generation.
build_already_synced_status_settles :
    (s t : ScalewaySecretStatus) (g : ℕ)
    → build_already_synced_status s (some g) ≡ some t
    → build_already_synced_status t (some g) ≡ none
unfolding build_already_synced_status
build_already_synced_status_settles s t g h = ground (arith, eq_secret_status_self t)
