-- ===== src/Startup/Counters.antt =====
-- src/main.rs, src/context.rs and src/reconcilers.rs: the retry counters while the controllers run.
use mathlib.Core.Path.{subst⁻¹}
use scaleway_operator.Reconcile.Instances.Keeps as InstanceKeeps
use scaleway_operator.Reconcile.LoadBalancers.Keeps as LbKeeps
use scaleway_operator.Reconcile.Secrets.Keeps as SecretKeeps
use scaleway_operator.Reconcile.Databases.Keeps as RdbKeeps
use scaleway_operator.Context.Retry.{
  RetryCounts, count_of, increment_retry_count, reset_retry_count,
}
use scaleway_operator.Context.Retry.Laws.{lookup-insert, lookup-remove}
use scaleway_operator.Error.{OperatorError, is_permanent_error, recheck_interval}
use scaleway_operator.Prelude.{
  Bool, Bool-cases, List, Option, String, ap, arith, eq_iff, false, get_or, if◌then◌else◌, inl, inr,
  none, not, some, str_eq, u32, ℕ, ◌+◌, ◌∙◌, ◌≡◌,
}
use scaleway_operator.Reconcile.Databases.Handler.{reconcile_rdb}
use scaleway_operator.Reconcile.Instances.Handler.{reconcile_instance}
use scaleway_operator.Reconcile.LoadBalancers.Handler.{reconcile_load_balancer}
use scaleway_operator.Reconcile.Policy.{error_policy}
use scaleway_operator.Reconcile.Secrets.Handler.{reconcile_scaleway_secret}
use scaleway_operator.Reconcile.Shared.{Action, retry_key}
use scaleway_operator.Reconcile.Shared.Keeps.{StatusKeeps}
use scaleway_operator.Resources.{Metadata}
use scaleway_operator.Runtime.Exec.{Exec, Result, Result-cases, err, modify, ok, pure, ◌>>=◌, ◌>>◌}
use scaleway_operator.Runtime.Keeps.{Keeps}
use scaleway_operator.Runtime.World.{Outside, ScalewayClient, World}
use scaleway_operator.Startup.{
  Resource, a_load_balancer, a_secret, an_instance, an_rdb, control, kind_of, metadata_of,
  reconcile, settle,
}

-- What the end of a reconcile means for the counter of its resource.
pub data End : Type 0 where
  succeeded gives_up fails_for_now : End

-- The error policy comes back to it with a growing delay: the error is transient and has no recheck
-- interval of its own.
abbrev pub is_retried : OperatorError → Bool
is_retried e = elim (recheck_interval e) [
  | some interval ↦ false
  | none ↦ not (is_permanent_error e)
]

abbrev pub end_of : {A : Type 0} → Result A → End
end_of (ok a) = succeeded
end_of (err e) = if is_retried e then fails_for_now else gives_up

-- The abstract counter: a success brings it back to zero, a failure that is retried with a growing delay
-- adds one, another error leaves it.
abbrev pub counted : End → ℕ → ℕ
counted succeeded n = 0
counted gives_up n = n
counted fails_for_now n = n + 1

abbrev pub key_of : Resource → String
key_of r = retry_key (kind_of r) (metadata_of r)

abbrev pub after_end : {A : Type 0} → String → Result A → RetryCounts → RetryCounts
after_end key (ok a) counts = reset_retry_count key counts
after_end key (err e) counts = counts

module _ (key : String) (m : Exec Action) (k : Keeps (λ log. Unit {0}) m) where
  -- A reconciler: the steps, and the reset of the counter at a success.
  abbrev with_reset : Exec Action
  with_reset = do
    action ← m
    modify (λ w. record w { retry_counts = reset_retry_count key w.retry_counts })
    pure action

  with_reset-counts :
      (w : World) → ((with_reset w).1).retry_counts ≡ after_end key (with_reset w).0 w.retry_counts
  unfolding ◌>>=◌
  with_reset-counts w = elim (Result-cases (m w).0) [
    | inl (a, e) ↦ rw e (ap (λ c. reset_retry_count key c) (k.counts w))
    | inr (x, e) ↦ rw e (k.counts w)
  ]

anything : StatusKeeps (λ log. Unit {0})
anything = record {
  reads = record {
    role = λ ns log h. tt;
    annotations = λ ns log h. tt;
    secret = λ ns name log h. tt;
    live = λ kind ns name log h. tt;
  };
  status = λ ns name st b log h. tt;
  publication = λ ns name drift log h. tt;
}

any_payload :
    (out : Outside) (o : Option (List ℕ)) (c : ScalewayClient)
    → SecretKeeps.AllowsPayload (λ log. Unit {0}) out c o
any_payload out none c = tt
any_payload out (some payload) c = λ r s e t log h. tt

module _ (out : Outside) where
  -- A reconcile touches no counter but to reset its resource's at a success.
  pub reconcile-counts :
      (r : Resource) (w : World)
      → ((reconcile out r w).1).retry_counts
        ≡ after_end (key_of r) (reconcile out r w).0 w.retry_counts
  unfolding reconcile reconcile_instance reconcile_load_balancer reconcile_scaleway_secret
      reconcile_rdb
  reconcile-counts (an_instance cr) w =
      with_reset-counts _ _
        (InstanceKeeps.Keeps-reconcile out cr anything (λ c. Unit {0}) (λ x c e. tt)
          (λ kind ns name fs b log h. tt) (λ r s e log h. tt) (λ c i r s e t log h. tt)
          (λ c i r s e t log h. tt) (λ c i r s e t log h. tt))
        w
  reconcile-counts (a_load_balancer cr) w =
      with_reset-counts _ _
        (LbKeeps.Keeps-reconcile out cr anything (λ kind ns name fs b log h. tt) (λ r s e log h. tt)
          (λ r s e log h. tt) (λ r s e log h. tt))
        w
  reconcile-counts (a_secret cr) w =
      with_reset-counts _ _
        (SecretKeeps.Keeps-reconcile out cr anything (λ c. Unit {0}) (λ x c e. tt)
          (λ c i r s e t log h. tt) (λ kind ns name fs b log h. tt) (λ o c i. any_payload out o c))
        w
  reconcile-counts (an_rdb cr) w =
      with_reset-counts _ _
        (RdbKeeps.Keeps-reconcile out cr anything (λ c. Unit {0}) (λ x c e. tt)
          (λ c i r s e t log h. tt) (λ c i r s e t log h. tt) (λ ns name log h. tt)
          (λ kind ns name fs b log h. tt) (λ c i r s e t log h. tt))
        w

-- The counters hold, on a u32, what the abstract ones hold.
abbrev pub Represents : RetryCounts → (String → ℕ) → Type 0
Represents counts abstract = (j : String) → count_of j counts ≡ u32 (abstract j)

abbrev pub updated : String → End → (String → ℕ) → String → ℕ
updated key c abstract j = if str_eq key j then counted c (abstract j) else abstract j

wraps_once : (m n : ℕ) → m ≡ u32 n → u32 (m + 1) ≡ u32 (n + 1)
wraps_once m n h = ground arith

increment-refines :
    (key j : String) (counts : RetryCounts) (abstract : String → ℕ)
    → Represents counts abstract
    → count_of j (increment_retry_count key counts).1 ≡ u32 (updated key fails_for_now abstract j)
unfolding increment_retry_count
increment-refines key j counts abstract h = elim (Bool-cases (str_eq key j)) [
  | inl same ↦
      let v = u32 (count_of key counts + 1) in
      let k = (eq_iff key j).0 same in
      ap (get_or 0) (lookup-insert key j v counts)
      ∙ rw same
          (wraps_once (count_of key counts) (abstract j) (ap (λ x. count_of x counts) k ∙ h j))
  | inr differs ↦
      ap (get_or 0) (lookup-insert key j (u32 (count_of key counts + 1)) counts) ∙ rw differs (h j)
]

kept-refines :
    (key j : String) (counts : RetryCounts) (abstract : String → ℕ)
    → Represents counts abstract
    → count_of j counts ≡ u32 (updated key gives_up abstract j)
kept-refines key j counts abstract h = elim (Bool-cases (str_eq key j)) [
  | inl same ↦ rw same (h j)
  | inr differs ↦ rw differs (h j)
]

error_policy-counts :
    (kind : String) (m : Metadata) (e : OperatorError) (w : World)
    → ((error_policy kind m e w).1).retry_counts ≡ (
        if is_retried e
        then (increment_retry_count (retry_key kind m) w.retry_counts).1
        else w.retry_counts)
unfolding error_policy
error_policy-counts kind m e w = ground arith

settle-refines :
    (r : Resource) (res : Result Action) (w w' : World) (abstract : String → ℕ)
    → w'.retry_counts ≡ after_end (key_of r) res w.retry_counts
    → Represents w.retry_counts abstract
    → Represents ((settle r (res, w')).1).retry_counts (updated (key_of r) (end_of res) abstract)
unfolding reset_retry_count
settle-refines r (ok a) w w' abstract same h j =
    ground (arith, lookup-remove (key_of r) j w.retry_counts, h j)
settle-refines r (err e) w w' abstract same h j =
    let h' = subst⁻¹ (λ c. Represents c abstract) same h in
    let counts = error_policy-counts (kind_of r) (metadata_of r) e w' in
    ap (count_of j) counts ∙ elim (Bool-cases (is_retried e)) [
      | inl q ↦ rw q (increment-refines (key_of r) j w'.retry_counts abstract h')
      | inr q ↦ rw q (kept-refines (key_of r) j w'.retry_counts abstract h')
    ]

module _ (out : Outside) where
  -- One controller's step on the counters is the abstract step at the end of its reconcile.
  pub control-refines :
      (r : Resource) (w : World) (abstract : String → ℕ)
      → Represents w.retry_counts abstract
      → Represents
          ((control out r w).1).retry_counts
          (updated (key_of r) (end_of (reconcile out r w).0) abstract)
  unfolding control
  control-refines r w abstract h =
      settle-refines r (reconcile out r w).0 w (reconcile out r w).1 abstract
        (reconcile-counts out r w) h
