-- ===== src/Scaleway/TagLaws.antt =====
-- The operator's tags of src/scaleway.rs: no spec that is accepted carries one, and they tell custom
-- resources apart.
use text.Mathlib.TextPositions.{starts_with-append}
use text.Mathlib.TextLemmas.{append_assoc}
use mathlib.Core.Path.{subst}
use Prim.Native.String.{◌++◌}
use scaleway_operator.Prelude.{
  List, String, [], arith, contains, eq_iff, false, find, format, format_cancel, none, refl,
  starts_with, sym, true, ◌∷◌, ◌≡◌,
}
use scaleway_operator.Runtime.Exec.{ok}
use scaleway_operator.Scaleway.Tags.{
  check_tags, find_reserved_tag, is_reserved_secret_tag, secret_operator_tags,
}

pub namespace_IsPrefixed :
    (ns : String)
    → starts_with (format ("scaleway-operator-cr-namespace=" ∷ ns ∷ [])) "scaleway-operator-cr-"
      ≡ true
namespace_IsPrefixed ns =
    subst (λ t. starts_with t "scaleway-operator-cr-" ≡ true)
      (sym (append_assoc "scaleway-operator-cr-" "namespace=" ns))
      (starts_with-append "scaleway-operator-cr-" ("namespace=" ++ ns))

pub name_IsPrefixed :
    (name : String)
    → starts_with (format ("scaleway-operator-cr-name=" ∷ name ∷ [])) "scaleway-operator-cr-" ≡ true
name_IsPrefixed name =
    subst (λ t. starts_with t "scaleway-operator-cr-" ≡ true)
      (sym (append_assoc "scaleway-operator-cr-" "name=" name))
      (starts_with-append "scaleway-operator-cr-" ("name=" ++ name))

reserved-namespace :
    (ns : String)
    → is_reserved_secret_tag (format ("scaleway-operator-cr-namespace=" ∷ ns ∷ [])) ≡ true
unfolding is_reserved_secret_tag
reserved-namespace ns = ground (arith, namespace_IsPrefixed ns)

reserved-name :
    (name : String)
    → is_reserved_secret_tag (format ("scaleway-operator-cr-name=" ∷ name ∷ [])) ≡ true
unfolding is_reserved_secret_tag
reserved-name name = ground (arith, name_IsPrefixed name)

abbrev pub AllTags : (String → Type 0) → List String → Type 0
AllTags P [] = Unit
AllTags P (t ∷ ts) = P t × AllTags P ts

-- Every tag by which a custom resource's secret or database is found is reserved.
pub secret_operator_tags-reserved :
    (ns name : String)
    → AllTags (λ t. is_reserved_secret_tag t ≡ true) (secret_operator_tags ns name)
unfolding secret_operator_tags is_reserved_secret_tag
secret_operator_tags-reserved ns name = (refl, (reserved-namespace ns, (reserved-name name, tt)))

contains-reserved :
    (tags : List String) (t : String)
    → find is_reserved_secret_tag tags ≡ none
    → is_reserved_secret_tag t ≡ true
    → contains tags t ≡ false
contains-reserved [] t h r = refl
contains-reserved (x ∷ xs) t h r = ground (arith, eq_iff t x, contains-reserved xs t)

-- The tags of a spec that passes the check hold none of the tags of any custom resource.
pub check_tags_keeps_apart :
    (tags : List String) (ns name : String)
    → check_tags tags ≡ ok tt
    → AllTags (λ t. contains tags t ≡ false) (secret_operator_tags ns name)
unfolding check_tags find_reserved_tag secret_operator_tags is_reserved_secret_tag
check_tags_keeps_apart tags ns name h =
    let apart = λ (t : String). contains-reserved tags t (ground arith) in
    (apart _ refl, (apart _ (reserved-namespace ns), (apart _ (reserved-name name), tt)))

-- Two custom resources with the same tags have the same namespace and the same name.
pub secret_operator_tags-injective :
    (ns name ns' name' : String)
    → secret_operator_tags ns name ≡ secret_operator_tags ns' name'
    → (ns ≡ ns') × (name ≡ name')
unfolding secret_operator_tags
secret_operator_tags-injective ns name ns' name' h = (
  format_cancel "scaleway-operator-cr-namespace=" cc,
  format_cancel "scaleway-operator-cr-name=" cc,
)
