-- ===== src/Startup/Runs.antt =====
-- src/main.rs: the retry counters and the delays over a run of the controllers.
use scaleway_operator.Context.Retry.{count_of, increment_retry_count}
use scaleway_operator.Error.{OperatorError}
use scaleway_operator.Prelude.{
  List, String, [], ap, arith, refl, true, u32, ℕ, ◌+◌, ◌<◌, ◌∙◌, ◌∷◌, ◌≡◌,
}
use scaleway_operator.Reconcile.Policy.{backoff_secs, error_policy}
use scaleway_operator.Reconcile.Policy.Laws.{backoff_table, documented_delay}
use scaleway_operator.Reconcile.Shared.{requeue, retry_key}
use scaleway_operator.Resources.{Metadata}
use scaleway_operator.Runtime.Exec.{err}
use scaleway_operator.Runtime.World.{Outside, World}
use scaleway_operator.Startup.{
  Resource, control, initial_context, kind_of, metadata_of, reconcile, run_controllers,
}
use scaleway_operator.Startup.Counters.{
  End, Represents, control-refines, end_of, is_retried, key_of, reconcile-counts, updated,
}

module _ (out : Outside) where
  -- What the controllers have met, the newest first.
  abbrev pub history : List Resource → World → List (String × End) → List (String × End)
  history [] w h = h
  history (r ∷ rs) w h =
      history rs (control out r w).1 ((key_of r, end_of (reconcile out r w).0) ∷ h)

policy_delay :
    (kind : String) (m : Metadata) (e : OperatorError) (w : World)
    → is_retried e ≡ true
    → (error_policy kind m e w).0
      ≡ requeue (backoff_secs (u32 (count_of (retry_key kind m) w.retry_counts + 1)))
unfolding error_policy increment_retry_count
policy_delay kind m e w retried = ground arith

one_more : (c n : ℕ) → c ≡ u32 n → n < 4294967295 → u32 (c + 1) ≡ n + 1
one_more c n h few = ground arith

-- The failures of a resource since its last success that are retried with a growing delay.
abbrev pub failures : List (String × End) → String → ℕ
failures [] j = 0
failures ((key, c) ∷ h) j = updated key c (failures h) j

module _ (out : Outside) where
  run_from :
      (rs : List Resource) (w : World) (h : List (String × End))
      → Represents w.retry_counts (failures h)
      → Represents ((run_controllers out rs w).retry_counts) (failures (history out rs w h))
  unfolding run_controllers
  run_from [] w h rep = rep
  run_from (r ∷ rs) w h rep =
      run_from rs (control out r w).1 ((key_of r, end_of (reconcile out r w).0) ∷ h)
        (control-refines out r w (failures h) rep)

  -- However the controllers are handed resources, one reconcile after the other from the start, the counter
  -- of each is, on a u32, the number of its failures since its last success that are transient and have no
  -- recheck interval of their own: neither its other failures nor what happens to other resources counts.
  pub run_controllers-refines :
      (rs : List Resource) (token : String) (now : ℕ) (j : String)
      → count_of j (run_controllers out rs (initial_context token now)).retry_counts
        ≡ u32 (failures (history out rs (initial_context token now) []) j)
  unfolding initial_context
  run_controllers-refines rs token now j = run_from rs (initial_context token now) [] (λ k. refl) j

  abbrev after_run : List Resource → String → ℕ → World
  after_run rs token now = run_controllers out rs (initial_context token now)

  -- Whatever the controllers have met since the start: where a reconcile then ends with an error that is
  -- transient and has no recheck interval of its own, the resource is handed over again after 30, 60, 120 or
  -- 240 seconds for the first to the fourth of such failures since its last success, this one included, and
  -- after 300 from the fifth on, as long as a u32 holds their number.
  pub control_delay :
      (rs : List Resource) (token : String) (now : ℕ) (r : Resource) (e : OperatorError)
      → (reconcile out r (run_controllers out rs (initial_context token now))).0 ≡ err e
      → is_retried e ≡ true
      → failures (history out rs (initial_context token now) []) (key_of r) < 4294967295
      → (control out r (run_controllers out rs (initial_context token now))).0
        ≡ requeue (
            documented_delay
              (failures (history out rs (initial_context token now) []) (key_of r) + 1))
  unfolding control
  control_delay rs token now r e ends retried few =
      let w = after_run rs token now in
      let n = run_controllers-refines rs token now (key_of r) in
      let same = reconcile-counts out r w in
      let same' : ((reconcile out r w).1).retry_counts ≡ w.retry_counts = rw ends at same in
      rw ends (policy_delay (kind_of r) (metadata_of r) e (reconcile out r w).1 retried)
      ∙ ap (λ c. requeue (backoff_secs c))
          (one_more (count_of (key_of r) ((reconcile out r w).1).retry_counts) _
            (ap (count_of (key_of r)) same' ∙ n) few)
      ∙ ap requeue (backoff_table _ (ground arith) (ground arith))
