-- ===== src/Reconcile/Secrets/Confidentiality.antt =====
-- src/reconcilers.rs, `reconcile_scaleway_secret`: what is pushed to Secret Manager, and whose it is.
use mathlib.Core.Path.{subst⁻¹, subst}
use scaleway_operator.Runtime.Http.{text}
use scaleway_operator.Decide.Secrets.{decide_next_action_secret}
use scaleway_operator.Decide.Servers.{role_allows_write}
use scaleway_operator.Prelude.{
  Bool, Bool-cases, List, Option, Option-cases, String, [], ap, false, inl, inr, none, refl, some,
  suc, true, zero, ℕ, ◌∙◌, ◌∷◌, ◌≡◌, ◌⊎◌,
}
use scaleway_operator.Reconcile.Secrets.Handler.{
  SourceFacts, check_role, check_spec, execute, input_of, read_source,
  reconcile_scaleway_secret_inner,
}
use scaleway_operator.Reconcile.Secrets.SourceKeeps.{
  Keeps-check_role, Keeps-check_spec, Keeps-read_source,
}
use scaleway_operator.Reconcile.Secrets.Keeps.{AllowsPayload, Keeps-execute}
use scaleway_operator.Reconcile.Secrets.SourceReads.{
  IsSourcePayload, admitted, admitted_by, checked, deleting_reads_nothing, open_at,
  read_source_payload, reconcile_runs, skips_when_open,
}
use scaleway_operator.Reconcile.Shared.{deletion_requested, namespace_of}
use scaleway_operator.Reconcile.Shared.Keeps.{StatusKeeps}
use scaleway_operator.Resources.Secrets.{ScalewaySecret}
use scaleway_operator.Runtime.Calls.{circuit_open}
use scaleway_operator.Runtime.Exec.{Result-cases, ok, ◌>>=◌}
use scaleway_operator.Runtime.Http.{JsonField, good}
use scaleway_operator.Runtime.World.{
  Event, Outside, ScalewayClient, World, read_namespace_role, sent,
}
use scaleway_operator.Scaleway.Keeps.{AllowsData, data_of}
use scaleway_operator.Server.{answer}

-- The value that a call pushes to Secret Manager, if it does.
abbrev value_of : Event → Option JsonField
value_of (sent r s) = data_of r
value_of _ = none

abbrev put : Option JsonField → List JsonField → List JsonField
put none vs = vs
put (some v) vs = v ∷ vs

-- The values that the requests of a log push to Secret Manager, the newest first.
abbrev pub pushed : List Event → List JsonField
pushed [] = []
pushed (e ∷ log) = put (value_of e) (pushed log)

-- A value, so many times, before the values pushed until then.
abbrev pub repeated : ℕ → JsonField → List JsonField → List JsonField
repeated zero v vs = vs
repeated (suc n) v vs = v ∷ repeated n v vs

-- Nothing but the value has been pushed since.
abbrev OnlyPushed : JsonField → List JsonField → List Event → Type 0
OnlyPushed v vs log = (n : ℕ) × (pushed log ≡ repeated n v vs)

abbrev NothingPushed : List JsonField → List Event → Type 0
NothingPushed vs log = pushed log ≡ vs

nothing_status : (vs : List JsonField) → StatusKeeps (NothingPushed vs)
nothing_status vs = record {
  reads = record {
    role = λ ns log h. h;
    annotations = λ ns log h. h;
    secret = λ ns name log h. h;
    live = λ kind ns name log h. h;
  };
  status = λ ns name st b log h. h;
  publication = λ ns name drift log h. h;
}

only_status : (v : JsonField) (vs : List JsonField) → StatusKeeps (OnlyPushed v vs)
only_status v vs = record {
  reads = record {
    role = λ ns log h. h;
    annotations = λ ns log h. h;
    secret = λ ns name log h. h;
    live = λ kind ns name log h. h;
  };
  status = λ ns name st b log h. h;
  publication = λ ns name drift log h. h;
}

nothing_data :
    (vs : List JsonField) (c : ScalewayClient) → Unit {0} → AllowsData (NothingPushed vs) c none
nothing_data vs c u r s e t log h = ap (λ o. put o (pushed log)) e ∙ h

only_none :
    (v : JsonField) (vs : List JsonField) (c : ScalewayClient)
    → Unit {0}
    → AllowsData (OnlyPushed v vs) c none
only_none v vs c u r s e t log (n, h) = (n, ap (λ o. put o (pushed log)) e ∙ h)

only_value :
    (v : JsonField) (vs : List JsonField) (c : ScalewayClient)
    → AllowsData (OnlyPushed v vs) c (some v)
only_value v vs c r s e t log (n, h) = (suc n, ap (λ o. put o (pushed log)) e ∙ ap (λ l. v ∷ l) h)

module _ (out : Outside) (cr : ScalewaySecret) (w : World) where
  abbrev before : List JsonField
  before = pushed w.log

  abbrev after : List JsonField
  after = pushed ((reconcile_scaleway_secret_inner out cr w).1).log

  spec_kept : pushed (checked out cr w).log ≡ before
  unfolding circuit_open
  spec_kept = (Keeps-check_spec out cr (nothing_status before)).at (circuit_open out w).1 refl

  role_kept : pushed (admitted out cr w).log ≡ before
  role_kept = (Keeps-check_role out cr (nothing_status before) (open_at out cr w)).at _ spec_kept

  source_kept : pushed (read_source out cr (admitted out cr w)).1.log ≡ before
  source_kept =
      (Keeps-read_source out cr (nothing_status before) (λ c. Unit {0}) (λ x c e. tt)
          (nothing_data before)).at
        _ role_kept

  stopped :
      (b : Bool) (f : SourceFacts) (w' : World)
      → pushed w'.log ≡ before
      → f.payload ≡ none
      → pushed ((execute out cr f (decide_next_action_secret (input_of out cr b f)) w').1).log
        ≡ before
  stopped b f w' kept e =
      (Keeps-execute out cr (nothing_status before) (λ c. Unit {0}) (λ x c e. tt)
          (nothing_data before) (λ kind ns name fs x log h. h) f _
          (λ c i. subst⁻¹ (AllowsPayload (NothingPushed before) out c) e tt)).at
        w' kept

  -- Only the value of the source was pushed, by a reconcile that may write.
  abbrev pub PushesSource : Type 0
  PushesSource =
      (role : String) × (payload : List ℕ) × (n : ℕ) × (pushed
          ((reconcile_scaleway_secret_inner out cr w).1).log
        ≡ repeated n (text (out.base64_encode payload)) (pushed w.log))
      × (deletion_requested cr.metadata ≡ false)
      × (open_at out cr w ≡ false)
      × (out.namespace_role w.log (namespace_of cr.metadata) ≡ good role)
      × (role_allows_write role ≡ true)
      × IsSourcePayload out cr (read_namespace_role (namespace_of cr.metadata) ∷ w.log) payload

  module _ (f : SourceFacts) (p : List ℕ)
      (spec : (check_spec out cr (circuit_open out w).1).0 ≡ ok tt)
      (role : (check_role out cr (open_at out cr w) (checked out cr w)).0 ≡ ok tt)
      (source : (read_source out cr (admitted out cr w)).0 ≡ ok f)
      (value : f.payload ≡ some p) where
    runs_to :
        reconcile_scaleway_secret_inner out cr w
        ≡ execute out cr f
            (decide_next_action_secret (input_of out cr (open_at out cr w) f))
            (read_source out cr (admitted out cr w)).1
    runs_to = reconcile_runs out cr w f spec role source

    value_pushed :
        (n : ℕ) × (pushed ((reconcile_scaleway_secret_inner out cr w).1).log
          ≡ repeated n (text (out.base64_encode p)) before)
    value_pushed =
        subst⁻¹ (λ x. OnlyPushed (text (out.base64_encode p)) before (x.1).log) runs_to
          ((Keeps-execute out cr (only_status _ before) (λ c. Unit {0}) (λ x c e. tt)
              (only_none _ before) (λ kind ns name fs x log h. h) f _
              (λ c i.
                subst⁻¹ (AllowsPayload (OnlyPushed (text (out.base64_encode p)) before) out c) value
                  (only_value _ before c))).at
            _ (zero, source_kept))

    not_deleting : deletion_requested cr.metadata ≡ false
    not_deleting = elim (Bool-cases (deletion_requested cr.metadata)) [
      | inr alive ↦ alive
      | inl going ↦ let nothing = deleting_reads_nothing out cr _ f going source in cc
    ]

    with_value : (pushed ((reconcile_scaleway_secret_inner out cr w).1).log ≡ before) ⊎ PushesSource
    unfolding execute ◌>>=◌
    with_value = elim (Bool-cases (open_at out cr w)) [
      | inl opened_now ↦
          inl (rw (runs_to, opened_now, skips_when_open out cr f not_deleting) source_kept)
      | inr closed_now ↦
          let (r, answer, allows, read) = admitted_by out cr w not_deleting closed_now spec role in
          let (n, only) = value_pushed in
          inr (
            r,
            p,
            n,
            only,
            not_deleting,
            closed_now,
            answer,
            allows,
            subst (λ l. IsSourcePayload out cr l p) read
                (read_source_payload out cr _ f p not_deleting source value),
          )
    ]

  -- A reconcile of a secret pushes nothing to Secret Manager, or it pushes nothing but, as base64, the
  -- value at the spec's key of the spec's Kubernetes Secret, read by this reconcile in the resource's own
  -- namespace and opted in to this very resource; and then the resource is not being deleted, the circuit
  -- is closed, and a NamespaceRole was read whose role allows writing.
  pub reconcile_scaleway_secret_pushes_only_source :
      (pushed ((reconcile_scaleway_secret_inner out cr w).1).log ≡ pushed w.log) ⊎ PushesSource
  unfolding reconcile_scaleway_secret_inner ◌>>=◌ circuit_open
  reconcile_scaleway_secret_pushes_only_source =
      elim (Result-cases (check_spec out cr (circuit_open out w).1).0) [
        | inr (x, e1) ↦ inl (rw e1 spec_kept)
        | inl (u, e1) ↦
            elim (Result-cases (check_role out cr (open_at out cr w) (checked out cr w)).0) [
              | inr (x, e2) ↦ inl (rw (e1, e2) role_kept)
              | inl (u', e2) ↦ elim (Result-cases (read_source out cr (admitted out cr w)).0) [
                | inr (x, e3) ↦ inl (rw (e1, e2, e3) source_kept)
                | inl (f, e3) ↦ elim (Option-cases f.payload) [
                  | inl e4 ↦ inl (rw (e1, e2, e3) (stopped _ f _ source_kept e4))
                  | inr (p, e4) ↦ with_value f p e1 e2 e3 e4
                ]
              ]
            ]
      ]
