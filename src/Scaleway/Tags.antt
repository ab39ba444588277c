-- ===== src/Scaleway/Tags.antt =====
-- src/scaleway.rs: the tags that tie a Scaleway resource to its custom resource.
use scaleway_operator.Error.{config_error}
use scaleway_operator.Prelude.{
  Bool, List, Option, String, [], find, format, none, some, starts_with, str_eq, ◌||◌, ◌∷◌,
}
use scaleway_operator.Runtime.Exec.{Result, err, ok}

unfoldable pub lb_operator_tags : String → String → List String
lb_operator_tags namespace cr_name =
    format ("scaleway-operator-cr-namespace=" ∷ namespace ∷ [])
    ∷ format ("scaleway-operator-cr-name=" ∷ cr_name ∷ [])
    ∷ []

unfoldable pub secret_operator_tags : String → String → List String
secret_operator_tags namespace cr_name =
    "managed-by=scaleway-operator"
    ∷ format ("scaleway-operator-cr-namespace=" ∷ namespace ∷ [])
    ∷ format ("scaleway-operator-cr-name=" ∷ cr_name ∷ [])
    ∷ []

unfoldable pub is_reserved_secret_tag : String → Bool
is_reserved_secret_tag tag =
    str_eq tag "managed-by=scaleway-operator" || starts_with tag "scaleway-operator-cr-"

-- src/reconcilers.rs: the first tag of a spec that is reserved for the operator.
unfoldable pub find_reserved_tag : List String → Option String
find_reserved_tag tags = find is_reserved_secret_tag tags

-- The refusal of a spec with such a tag.
unfoldable pub check_tags : List String → Result (Unit {0})
check_tags tags = elim (find_reserved_tag tags) [
  | none ↦ ok tt
  | some tag ↦ err (
      config_error
        (format ("spec.tags contains '" ∷ tag ∷ "', which is reserved for the operator." ∷ [])))
]
