-- ===== src/Decide/SecretLaws.antt =====
-- What the decision of src/reconcilers.rs for `ScalewaySecret` allows.
use scaleway_operator.Prelude.{
  ℕ, String, Bool, true, false, not, ◌&&◌, Option, none, some, ◌≡◌, refl, ◌↔◌, is_some, str_eq,
  ◌==◌, eq_option, eq_iff, arith,
}
use scaleway_operator.Decide.Secrets.{
  SecretReconcileInput, create_and_sync_secret, push_new_version, already_synced, decide_sync,
  decide_next_action_secret,
}

-- The facts under which the value in Scaleway is looked at: not deleted, circuit closed, finalizer in
-- place, and a source whose key can be read.
abbrev pub IsReadable : SecretReconcileInput → Type 0
IsReadable i =
    (i.deletion_requested ≡ false)
    × (i.circuit_open ≡ false)
    × (i.finalizer_present ≡ true)
    × (i.source_configured ≡ true)
    × (is_some i.current_resource_version ≡ true)
    × (i.current_key_present ≡ true)

-- Whether the source or the spec has changed since the last synchronisation, as the program compares.
abbrev is_stale : SecretReconcileInput → Bool
is_stale i = elim (eq_option str_eq i.current_resource_version i.last_synced_resource_version) [
  | false ↦ true
  | true ↦ is_some i.observed_generation && not (eq_option ◌==◌ i.observed_generation i.generation)
]

-- A secret is created exactly when its source is readable and no Scaleway id is known.
decide_next_action_secret-creates :
    (i : SecretReconcileInput)
    → (decide_next_action_secret i ≡ create_and_sync_secret)
      ↔ (IsReadable i × (i.scaleway_id ≡ none))
unfolding decide_next_action_secret decide_sync
decide_next_action_secret-creates i = (λ h. ground arith, λ h. ground arith)

-- A new version is pushed to a Scaleway secret exactly when its source is readable, the secret is the
-- known one, and the source or the spec has changed since the last synchronisation.
decide_next_action_secret-pushes :
    (i : SecretReconcileInput) (id : String)
    → (decide_next_action_secret i ≡ push_new_version id)
      ↔ (IsReadable i × (i.scaleway_id ≡ some id) × (is_stale i ≡ true))
unfolding decide_next_action_secret decide_sync
decide_next_action_secret-pushes i id = (λ h. ground arith, λ h. ground arith)

pub eq_option_self : (o : Option String) → eq_option str_eq o o ≡ true
eq_option_self none = refl
eq_option_self (some s) = (eq_iff s s).1 refl

pub eq_option_ℕ_self : (o : Option ℕ) → eq_option ◌==◌ o o ≡ true
eq_option_ℕ_self none = refl
eq_option_ℕ_self (some n) = ground arith

-- The facts once a push or a creation has written its status.
abbrev synced : SecretReconcileInput → String → SecretReconcileInput
synced i id = record i {
  scaleway_id = some id;
  last_synced_resource_version = i.current_resource_version;
  observed_generation = i.generation;
}

-- Where the source is readable, the decision on the facts that a push or a creation leaves behind is that
-- all is synchronised.
decide_next_action_secret_settles :
    (i : SecretReconcileInput) (id : String)
    → IsReadable i
    → decide_next_action_secret (synced i id) ≡ already_synced
unfolding decide_next_action_secret decide_sync
decide_next_action_secret_settles i id h =
    ground (arith, eq_option_self i.current_resource_version, eq_option_ℕ_self i.generation)
