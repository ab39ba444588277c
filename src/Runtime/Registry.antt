-- ===== src/Runtime/Registry.antt =====
-- src/metrics.rs, `OperatorMetrics::new`: the four metrics and their registration. The crate `prometheus` is
-- a parameter.
use scaleway_operator.Prelude.{
  List, Option, String, [], contains, false, none, some, true, ℕ, ◌∙◌, ◌∷◌, ◌≡◌,
}
use scaleway_operator.Runtime.Http.{Try, bad, good}

-- A vector of metrics: its name, its help and the names of its labels; the buckets in thousandths.
pub data Collector : Type 0 where
  int_counter_vec gauge_vec : String → String → List String → Collector
  histogram_vec : String → String → List ℕ → List String → Collector

abbrev pub name_of : Collector → String
name_of (int_counter_vec name help labels) = name
name_of (gauge_vec name help labels) = name
name_of (histogram_vec name help buckets labels) = name

pub record Prometheus : Type 1 where
  pub Registry : Type 0
  -- what is wrong with the options of a metric, such as a bad name
  pub refuses : Collector → Option String
  pub register : Registry → Collector → Try String Registry

pub record OperatorMetrics : Type 0 where
  pub reconcile_errors_total : Collector
  pub reconcile_duration_seconds : Collector
  pub instances_total : Collector
  pub load_balancers_total : Collector

abbrev pub operator_metrics : OperatorMetrics
operator_metrics = record {
  reconcile_errors_total =
      int_counter_vec "scaleway_operator_reconcile_errors_total"
        "Total number of reconcile errors, labelled by error variant" ("error_variant" ∷ []);
  reconcile_duration_seconds =
      histogram_vec "scaleway_operator_reconcile_duration_seconds"
        "Duration of reconcile loop iterations in seconds"
        (100 ∷ 500 ∷ 1000 ∷ 5000 ∷ 15000 ∷ 30000 ∷ []) ("outcome" ∷ []);
  instances_total =
      gauge_vec "scaleway_operator_instances_total"
        "Number of Scaleway instances currently managed by the operator, by zone, type and state"
        ("zone" ∷ "instance_type" ∷ "state" ∷ []);
  load_balancers_total =
      gauge_vec "scaleway_operator_load_balancers_total"
        "Number of Scaleway load balancers currently managed by the operator, by zone, type and state"
        ("zone" ∷ "lb_type" ∷ "state" ∷ []);
}

module _ (p : Prometheus) where
  -- `registry.register(…)?`
  abbrev settled : p.Registry → Try String p.Registry → Try String (Unit {0}) × p.Registry
  settled registry (good after) = (good tt, after)
  settled registry (bad e) = (bad e, registry)

  abbrev unless_refused :
      Option String → Collector → p.Registry → Try String (Unit {0}) × p.Registry
  unless_refused (some e) c registry = (bad e, registry)
  unless_refused none c registry = settled registry (p.register registry c)

  -- `IntCounterVec::new(…)?` and its registration.
  unfoldable pub add : Collector → p.Registry → Try String (Unit {0}) × p.Registry
  add c registry = unless_refused (p.refuses c) c registry

  abbrev after :
      {A : Type 0}
      → Try String (Unit {0}) × p.Registry
      → (p.Registry → Try String A × p.Registry)
      → Try String A × p.Registry
  after (good _, registry) f = f registry
  after (bad e, registry) f = (bad e, registry)

  -- Where a registration fails, those before it stay.
  unfoldable pub new : p.Registry → Try String OperatorMetrics × p.Registry
  new registry = after (add operator_metrics.reconcile_errors_total registry) (λ registry.
      after (add operator_metrics.reconcile_duration_seconds registry) (λ registry.
        after (add operator_metrics.instances_total registry) (λ registry.
          after (add operator_metrics.load_balancers_total registry)
            (λ registry. (good operator_metrics, registry)))))

  -- What the crate documents: a name can be registered once.
  pub record RegistersNames : Type 0 where
    pub names : p.Registry → List String
    pub accepted :
        (r : p.Registry) (c : Collector)
        → contains (names r) (name_of c) ≡ false
        → (r' : p.Registry) × (p.register r c ≡ good r') × (names r' ≡ name_of c ∷ names r)
    pub taken :
        (r : p.Registry) (c : Collector)
        → contains (names r) (name_of c) ≡ true
        → (e : String) × (p.register r c ≡ bad e)

  -- The options of the four metrics are well formed.
  pub record WellFormed : Type 0 where
    pub errors : p.refuses operator_metrics.reconcile_errors_total ≡ none
    pub durations : p.refuses operator_metrics.reconcile_duration_seconds ≡ none
    pub instances : p.refuses operator_metrics.instances_total ≡ none
    pub load_balancers : p.refuses operator_metrics.load_balancers_total ≡ none

  module _ (laws : RegistersNames) (well_formed : WellFormed) where
    add-ok :
        (c : Collector) (r : p.Registry)
        → p.refuses c ≡ none
        → contains (laws.names r) (name_of c) ≡ false
        → (r' : p.Registry) × (add c r ≡ (good tt, r')) × (laws.names r' ≡ name_of c ∷ laws.names r)
    unfolding add
    add-ok c r fine free = let (r', e, n) = laws.accepted r c free in (r', rw (fine, e), n)

    add-taken :
        (c : Collector) (r : p.Registry)
        → p.refuses c ≡ none
        → contains (laws.names r) (name_of c) ≡ true
        → (e : String) × (add c r ≡ (bad e, r))
    unfolding add
    add-taken c r fine is_taken = let (e, q) = laws.taken r c is_taken in (e, rw (fine, q))

    -- Where none of the four names is taken and the options of the four are well formed, `new` registers
    -- the four metrics, and nothing else; a second `new` on the same registry then fails, and changes
    -- nothing.
    pub new_once :
        (r : p.Registry)
        → contains (laws.names r) "scaleway_operator_reconcile_errors_total" ≡ false
        → contains (laws.names r) "scaleway_operator_reconcile_duration_seconds" ≡ false
        → contains (laws.names r) "scaleway_operator_instances_total" ≡ false
        → contains (laws.names r) "scaleway_operator_load_balancers_total" ≡ false
        → (r' : p.Registry) × (new r ≡ (good operator_metrics, r'))
          × (laws.names r'
              ≡ "scaleway_operator_load_balancers_total"
                ∷ "scaleway_operator_instances_total"
                ∷ "scaleway_operator_reconcile_duration_seconds"
                ∷ "scaleway_operator_reconcile_errors_total"
                ∷ laws.names r)
          × ((e : String) × (new r' ≡ (bad e, r')))
    unfolding new
    new_once r f1 f2 f3 f4 =
        let (r1, e1, n1) = add-ok operator_metrics.reconcile_errors_total r well_formed.errors f1 in
        let (r2, e2, n2) =
          add-ok operator_metrics.reconcile_duration_seconds r1 well_formed.durations (rw n1 f2) in
        let (r3, e3, n3) =
          add-ok operator_metrics.instances_total r2 well_formed.instances (rw (n2, n1) f3) in
        let (r4, e4, n4) =
          add-ok operator_metrics.load_balancers_total r3 well_formed.load_balancers
            (rw (n3, n2, n1) f4) in
        let (e, q) =
          add-taken operator_metrics.reconcile_errors_total r4 well_formed.errors
            (rw (n4, n3, n2, n1)) in
        (r4, rw (e1, e2, e3, e4), n4 ∙ rw (n3, n2, n1), (e, rw q))
