-- ===== src/Scaleway/Adoption.antt =====
-- src/scaleway.rs: a resource that the operator created is found again by its tags.
use mathlib.Core.Path.{subst}
use text.Mathlib.TextLemmas.{append_cancel_left, append_assoc}
use scaleway_operator.Prelude.{
  Bool, Bool-cases, List, String, [], ap, contains, eq_iff, false, format, format_cancel, inl, inr,
  refl, space_equals_differ, starts_with, str_eq, sym, true, ◌&&◌, ◌++◌, ◌||◌, ◌↔◌, ◌∙◌, ◌∷◌, ◌≡◌,
  ◌≢◌,
}
use scaleway_operator.Runtime.Exec.{ok}
use scaleway_operator.Scaleway.TagLaws.{
  check_tags_keeps_apart, name_IsPrefixed, namespace_IsPrefixed,
}
use scaleway_operator.Scaleway.Tags.{check_tags, secret_operator_tags}

prefixes_differ :
    (s t : String)
    → format ("scaleway-operator-cr-namespace=" ∷ s ∷ [])
      ≢ format ("scaleway-operator-cr-name=" ∷ t ∷ [])
prefixes_differ s t h = space_equals_differ s t (
    append_cancel_left "scaleway-operator-cr-name" _ _ (
      sym (append_assoc "scaleway-operator-cr-name" "space=" s)
      ∙ h
      ∙ append_assoc "scaleway-operator-cr-name" "=" t))

differ : (s t : String) → s ≢ t → str_eq s t ≡ false
differ s t h = elim (Bool-cases (str_eq s t)) [ inl e ↦ absurd (h ((eq_iff s t).0 e)) | inr e ↦ e ]

-- A tag that starts as reserved is not the one by which everything of the operator is marked.
not_marked :
    (t : String)
    → starts_with t "scaleway-operator-cr-" ≡ true
    → str_eq t "managed-by=scaleway-operator" ≡ false
not_marked t h =
    differ t _ (λ e. let q = subst (λ x. starts_with x "scaleway-operator-cr-" ≡ true) e h in cc)

-- Every one of the tags is in the list.
abbrev pub all_in : List String → List String → Bool
all_in tags [] = true
all_in tags (t ∷ ts) = contains tags t && all_in tags ts

abbrev ns_tag : String → String
ns_tag n = format ("scaleway-operator-cr-namespace=" ∷ n ∷ [])

abbrev name_tag : String → String
name_tag n = format ("scaleway-operator-cr-name=" ∷ n ∷ [])

or_false : (b : Bool) → (b || false) ≡ b
or_false true = refl
or_false false = refl

and_true : (b c : Bool) → (b && (c && true)) ≡ true → (b ≡ true) × (c ≡ true)
and_true true true h = (refl, refl)
and_true true false h = cc
and_true false c h = cc

module _ (extra : List String) (accepted : check_tags extra ≡ ok tt) (ns' name' : String) where
  ns_found :
      (ns : String)
      → contains (secret_operator_tags ns' name' ++ extra) (ns_tag ns)
        ≡ str_eq (ns_tag ns) (ns_tag ns')
  unfolding secret_operator_tags
  ns_found ns =
      let (marked, (apart, rest)) = check_tags_keeps_apart extra ns name' accepted in
      let other = differ (ns_tag ns) (name_tag name') (prefixes_differ ns name') in
      rw (not_marked (ns_tag ns) (namespace_IsPrefixed ns), other, apart)
        (or_false (str_eq (ns_tag ns) (ns_tag ns')))

  name_found :
      (name : String)
      → contains (secret_operator_tags ns' name' ++ extra) (name_tag name)
        ≡ str_eq (name_tag name) (name_tag name')
  unfolding secret_operator_tags
  name_found name =
      let (marked, (nothing, (apart, rest))) = check_tags_keeps_apart extra ns' name accepted in
      let other = differ (name_tag name) (ns_tag ns') (λ e. prefixes_differ ns' name (sym e)) in
      rw (not_marked (name_tag name) (name_IsPrefixed name), other, apart)
        (or_false (str_eq (name_tag name) (name_tag name')))

  all_in-eq :
      (ns name : String)
      → all_in (secret_operator_tags ns' name' ++ extra) (secret_operator_tags ns name)
        ≡ (str_eq (ns_tag ns) (ns_tag ns') && (str_eq (name_tag name) (name_tag name') && true))
  unfolding secret_operator_tags
  all_in-eq ns name =
      ap (λ b. b && (contains (secret_operator_tags ns' name' ++ extra) (name_tag name) && true))
        (ns_found ns)
      ∙ ap (λ b. str_eq (ns_tag ns) (ns_tag ns') && (b && true)) (name_found name)

  -- Of the tags that are looked for, all are on the resource exactly when it is the same one's.
  pub all_found :
      (ns name : String)
      → (all_in (secret_operator_tags ns' name' ++ extra) (secret_operator_tags ns name) ≡ true)
        ↔ ((ns ≡ ns') × (name ≡ name'))
  all_found ns name =
      let same = all_in-eq ns name in
      let ns_same = eq_iff (ns_tag ns) (ns_tag ns') in
      let name_same = eq_iff (name_tag name) (name_tag name') in
      (
        λ h.
            let both = and_true _ _ (sym same ∙ h) in
            (
              format_cancel "scaleway-operator-cr-namespace=" (ns_same.0 both.0),
              format_cancel "scaleway-operator-cr-name=" (name_same.0 both.1),
            ),
        λ e. same ∙ rw (ns_same.1 (ap ns_tag e.0), name_same.1 (ap name_tag e.1)) refl,
      )
