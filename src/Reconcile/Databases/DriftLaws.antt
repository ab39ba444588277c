-- ===== src/Reconcile/Databases/DriftLaws.antt =====
-- Properties of the drift of a database in src/reconcilers.rs.
use scaleway_operator.Prelude.{
  Bool, Option, Option-cases, String, arith, eq_iff, false, if◌then◌else◌, inl, inr, none, refl,
  some, sym, true, ℕ, ◌↔◌, ◌∙◌, ◌≡◌, ◌≢◌,
}
use scaleway_operator.Reconcile.Databases.Drift.{
  build_rdb_synced_status, rdb_engine_drift, should_emit_drift_event,
}
use scaleway_operator.Resources.Databases.{RdbSpec, RdbStatus}
use scaleway_operator.Scaleway.Info.{RdbInstanceInfo}

-- What the spec asks and what Scaleway tells agree: where Scaleway tells of a property, it is the spec's.
abbrev pub Agrees : {A : Type 0} → A → Option A → Type 0
Agrees a none = Unit
Agrees a (some b) = b ≡ a

module _ (spec : RdbSpec) (info : RdbInstanceInfo) where
  engine-Agrees :
      (o : Option String)
      → info.engine ≡ o
      → (rdb_engine_drift spec info ≡ none) ↔ Agrees spec.engine info.engine
  unfolding rdb_engine_drift
  engine-Agrees none q = rw q (λ h. tt, λ h. refl)
  engine-Agrees (some a) q =
      let same = eq_iff a spec.engine in rw q (λ h. ground (arith, same), λ h. ground (arith, same))

  -- The sizes agree, where a size was asked for.
  abbrev pub SizeAgrees : Option ℕ → Type 0
  SizeAgrees none = Unit
  SizeAgrees (some wanted) = Agrees wanted info.volume_size_bytes

different : (d : String) → ¬ (some d ≡ none)
different d h = cc

ready_of : (b : Bool) → ◌≡◌ {A = String} (if b then "Synced" else "Syncing") "Synced" → b ≡ true
ready_of true h = refl
ready_of false h = ground (arith, eq_iff "Syncing" "Synced")

unsynced : ¬ (◌≡◌ {A = String} "ConfigDrift" "Synced")
unsynced h = ground (arith, eq_iff "ConfigDrift" "Synced")

-- A database is reported as synchronised exactly when Scaleway runs the engine of the spec, as far as it
-- tells, and the instance is ready; with another engine it is reported as drifted, with an error.
pub build_rdb_synced_status-Synced :
    (s : RdbStatus) (spec : RdbSpec) (info : RdbInstanceInfo) (pid : String)
    → (((build_rdb_synced_status s spec info pid).sync_state ≡ "Synced")
        ↔ (Agrees spec.engine info.engine × (info.state ≡ "ready")))
      × ((¬ Agrees spec.engine info.engine)
          → ((build_rdb_synced_status s spec info pid).sync_state ≡ "ConfigDrift")
            × ((build_rdb_synced_status s spec info pid).error_message ≢ none))
unfolding build_rdb_synced_status
build_rdb_synced_status-Synced s spec info pid =
    let engine = engine-Agrees spec info info.engine refl in
    let ready = eq_iff info.state "ready" in
    elim (Option-cases (rdb_engine_drift spec info)) [
      | inl q ↦
          rw (build_rdb_synced_status, q)
            (
              (λ h. (engine.0 q, ready.0 (ready_of _ h)), λ h. rw (ready.1 h.1) refl),
              λ h. absurd (h (engine.0 q)),
            )
      | inr (drift, q) ↦
          let bad = λ (a : Agrees spec.engine info.engine). different drift (sym q ∙ engine.1 a) in
          rw (build_rdb_synced_status, q)
            ((λ h. absurd (unsynced h), λ h. absurd (bad h.0)), λ h. (refl, λ e. cc))
    ]

-- A drift leads to no event exactly when the status before tells of the same drift: a first drift and a
-- changed one are always announced, and a standing one never.
pub should_emit_drift_event_once :
    (previous : Option String) (drift : String)
    → (should_emit_drift_event previous (some drift) ≡ false) ↔ (previous ≡ some drift)
unfolding should_emit_drift_event
should_emit_drift_event_once none drift = (λ h. cc, λ h. cc)
should_emit_drift_event_once (some p) drift =
    let same = eq_iff drift p in (λ h. ground (arith, same), λ h. ground (arith, same))
