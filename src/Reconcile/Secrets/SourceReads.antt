-- ===== src/Reconcile/Secrets/SourceReads.antt =====
-- src/reconcilers.rs, `reconcile_scaleway_secret`: the facts that it has read before it decides.
use mathlib.Core.Path.{subst}
use scaleway_operator.Context.Breaker.{is_circuit_open}
use scaleway_operator.Decide.Secrets.{decide_next_action_secret, skip_circuit_open}
use scaleway_operator.Decide.Servers.{role_allows_write}
use scaleway_operator.Prelude.{
  Bool, List, Option, String, and_then, ap, arith, false, inl, inr, lookup, none, refl, some, true,
  ℕ, ◌∙◌, ◌∷◌, ◌≡◌,
}
use scaleway_operator.Reconcile.Secrets.Handler.{
  SourceFacts, check_role, check_spec, execute, facts_of, input_of, read_source,
  reconcile_scaleway_secret_inner, source_at,
}
use scaleway_operator.Reconcile.Secrets.Push.{source_from-no_source}
use scaleway_operator.Reconcile.Secrets.Source.{
  KsSourceState, parse_k8s_secret_source, read_k8s_secret_source, state_of,
}
use scaleway_operator.Reconcile.Secrets.SourceLaws.{HasOptedIn, parse_k8s_secret_source-ok}
use scaleway_operator.Reconcile.Shared.{
  deletion_requested, get_scaleway_role_for_namespace, namespace_of, role_of_reply,
}
use scaleway_operator.Resources.Secrets.{KubernetesSecretRef, ScalewaySecret, Secret}
use scaleway_operator.Runtime.Calls.{circuit_open, get_namespace_role, get_secret}
use scaleway_operator.Runtime.Exec.{Result-cases, ok, ◌>>=◌}
use scaleway_operator.Runtime.Http.{good}
use scaleway_operator.Runtime.World.{Event, Outside, World, read_namespace_role}

module _ (out : Outside) (cr : ScalewaySecret) where
  pub check_spec_unchanged :
      (w : World) → (check_spec out cr w).0 ≡ ok tt → (check_spec out cr w).1 ≡ w
  unfolding check_spec ◌>>=◌
  check_spec_unchanged w h = ground arith

  pub check_role_reads :
      (w : World)
      → deletion_requested cr.metadata ≡ false
      → (check_role out cr false w).0 ≡ ok tt
      → (role : String) × (out.namespace_role w.log (namespace_of cr.metadata) ≡ good role)
        × (role_allows_write role ≡ true)
        × (((check_role out cr false w).1).log
            ≡ read_namespace_role (namespace_of cr.metadata) ∷ w.log)
  unfolding check_role ◌>>=◌ get_scaleway_role_for_namespace get_namespace_role role_of_reply
  check_role_reads w alive h = ground arith

  -- The payload is the value of a Secret that was read.
  abbrev pub IsSourcePayload : List Event → List ℕ → Type 0
  IsSourcePayload log payload =
      (r : KubernetesSecretRef) × (ks : Secret) × (cr.spec.kubernetes_secret ≡ some r)
      × (out.secret log (namespace_of cr.metadata) r.name ≡ good ks)
      × HasOptedIn ks (namespace_of cr.metadata) cr.metadata.name
      × (and_then (lookup r.key) ks.contents ≡ some payload)

  state_payload :
      (rv : String) (o : Option (List ℕ)) (p : List ℕ)
      → (facts_of (state_of rv o)).payload ≡ some p
      → o ≡ some p
  state_payload rv none p h = cc
  state_payload rv (some q) p h = h

  read_k8s_reads :
      (r : KubernetesSecretRef) (w : World) (state : KsSourceState)
      → (read_k8s_secret_source out
          (namespace_of cr.metadata)
          r
          (namespace_of cr.metadata)
          cr.metadata.name
          w).0
        ≡ ok state
      → (ks : Secret) × (out.secret w.log (namespace_of cr.metadata) r.name ≡ good ks)
        × (parse_k8s_secret_source ks r.name r.key (namespace_of cr.metadata) cr.metadata.name
            ≡ ok state)
  unfolding read_k8s_secret_source ◌>>=◌ get_secret
  read_k8s_reads r w state h = ground arith

  read_k8s_payload :
      (r : KubernetesSecretRef) (w : World) (state : KsSourceState) (p : List ℕ)
      → (read_k8s_secret_source out
          (namespace_of cr.metadata)
          r
          (namespace_of cr.metadata)
          cr.metadata.name
          w).0
        ≡ ok state
      → (facts_of state).payload ≡ some p
      → (ks : Secret) × (out.secret w.log (namespace_of cr.metadata) r.name ≡ good ks)
        × HasOptedIn ks (namespace_of cr.metadata) cr.metadata.name
        × (and_then (lookup r.key) ks.contents ≡ some p)
  read_k8s_payload r w state p h e =
      let (ks, q, parsed) = read_k8s_reads r w state h in
      let (opted, s) = (parse_k8s_secret_source-ok ks r.name r.key _ _ state).0 parsed in
      (ks, q, opted, state_payload _ _ p (subst (λ t. (facts_of t).payload ≡ some p) s e))

  facts_payload :
      (state : KsSourceState) (f : SourceFacts) (p : List ℕ)
      → ok (facts_of state) ≡ ok f
      → f.payload ≡ some p
      → (facts_of state).payload ≡ some p
  facts_payload state f p h e = cc

  source_payload :
      (o : Option KubernetesSecretRef) (w : World) (f : SourceFacts) (p : List ℕ)
      → deletion_requested cr.metadata ≡ false
      → cr.spec.kubernetes_secret ≡ o
      → (source_at out cr o w).0 ≡ ok f
      → f.payload ≡ some p
      → IsSourcePayload w.log p
  unfolding ◌>>=◌
  source_payload none w f p alive q h e = ground arith
  source_payload (some r) w f p alive q h e =
      elim (Result-cases
        (read_k8s_secret_source out (namespace_of cr.metadata) r (namespace_of cr.metadata)
          cr.metadata.name w).0) [
            | inl (state, x) ↦
                let known : ok (facts_of state) ≡ ok f = rw (alive, x) at h in
                let (ks, found, opted, value) =
                  read_k8s_payload r w state p x (facts_payload state f p known e) in
                (r, ks, q, found, opted, value)
            | inr (x, y) ↦
                let unknown = source_from-no_source out cr x _ f (rw (alive, y) at h) in cc
          ]

  source_at-none :
      (o : Option KubernetesSecretRef) (w : World) (f : SourceFacts)
      → deletion_requested cr.metadata ≡ true
      → (source_at out cr o w).0 ≡ ok f
      → f.payload ≡ none
  unfolding ◌>>=◌
  source_at-none none w f going h = ground arith
  source_at-none (some r) w f going h = ground arith

  abbrev pub open_at : World → Bool
  open_at w = (is_circuit_open (out.instant w.log) w.circuit_breaker).0

  -- The worlds in which the role, the source and the decision are reached.
  abbrev pub checked : World → World
  checked w = (check_spec out cr (circuit_open out w).1).1

  abbrev pub admitted : World → World
  admitted w = (check_role out cr (open_at w) (checked w)).1

  pub reconcile_runs :
      (w : World) (f : SourceFacts)
      → (check_spec out cr (circuit_open out w).1).0 ≡ ok tt
      → (check_role out cr (open_at w) (checked w)).0 ≡ ok tt
      → (read_source out cr (admitted w)).0 ≡ ok f
      → reconcile_scaleway_secret_inner out cr w
        ≡ execute out cr f
            (decide_next_action_secret (input_of out cr (open_at w) f))
            (read_source out cr (admitted w)).1
  unfolding reconcile_scaleway_secret_inner ◌>>=◌ circuit_open
  reconcile_runs w f spec role source = rw (spec, role, source) refl

  pub skips_when_open :
      (f : SourceFacts)
      → deletion_requested cr.metadata ≡ false
      → decide_next_action_secret (input_of out cr true f) ≡ skip_circuit_open
  unfolding decide_next_action_secret
  skips_when_open f alive = rw alive refl

  pub read_source_payload :
      (w : World) (f : SourceFacts) (p : List ℕ)
      → deletion_requested cr.metadata ≡ false
      → (read_source out cr w).0 ≡ ok f
      → f.payload ≡ some p
      → IsSourcePayload w.log p
  unfolding read_source
  read_source_payload w f p alive h e =
      source_payload cr.spec.kubernetes_secret w f p alive refl h e

  pub deleting_reads_nothing :
      (w : World) (f : SourceFacts)
      → deletion_requested cr.metadata ≡ true
      → (read_source out cr w).0 ≡ ok f
      → f.payload ≡ none
  unfolding read_source
  deleting_reads_nothing w f going h = source_at-none cr.spec.kubernetes_secret w f going h

  checked_log :
      (w : World) → (check_spec out cr (circuit_open out w).1).0 ≡ ok tt → (checked w).log ≡ w.log
  unfolding circuit_open
  checked_log w spec = ap (λ x. x.log) (check_spec_unchanged _ spec)

  -- The role that a reconcile has read before it reads the source.
  pub admitted_by :
      (w : World)
      → deletion_requested cr.metadata ≡ false
      → open_at w ≡ false
      → (check_spec out cr (circuit_open out w).1).0 ≡ ok tt
      → (check_role out cr (open_at w) (checked w)).0 ≡ ok tt
      → (role : String) × (out.namespace_role w.log (namespace_of cr.metadata) ≡ good role)
        × (role_allows_write role ≡ true)
        × ((admitted w).log ≡ read_namespace_role (namespace_of cr.metadata) ∷ w.log)
  admitted_by w alive shut_now spec role =
      let same = checked_log w spec in
      let (r, answer, allows, read) =
        check_role_reads (checked w) alive
          (subst (λ b. (check_role out cr b (checked w)).0 ≡ ok tt) shut_now role) in
      (
        r,
        subst (λ l. out.namespace_role l (namespace_of cr.metadata) ≡ good r) same answer,
        allows,
        ap (λ b. ((check_role out cr b (checked w)).1).log) shut_now
            ∙ read
            ∙ ap (λ l. read_namespace_role (namespace_of cr.metadata) ∷ l) same,
      )
