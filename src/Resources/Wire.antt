-- ===== src/Resources/Wire.antt =====
-- src/resources.rs: JSON objects as far as the statuses use them: `Option` as a value or null, a field that
-- is absent read as its default, and the merge patch. The timestamps' text is chrono's, a parameter.
pub mod Statuses
pub mod Laws
use scaleway_operator.Prelude.{
  List, Option, String, [], if◌then◌else◌, lookup, ltb, none, some, str_eq, ℕ, ◌∷◌,
}

pub data Value : Type 0 where
  null : Value
  text : String → Value
  number : ℕ → Value

abbrev pub Object : Type 0
Object = List (String × Value)

unfoldable pub put : String → Value → Object → Object
put k v [] = (k, v) ∷ []
put k v ((j, u) ∷ o) = if str_eq j k then (k, v) ∷ o else (j, u) ∷ put k v o

unfoldable pub remove : String → Object → Object
remove k [] = []
remove k ((j, u) ∷ o) = let rest = remove k o in if str_eq j k then rest else (j, u) ∷ rest

-- A JSON merge patch (RFC 7386) of scalar fields: null removes the field.
abbrev patch_field : String → Value → Object → Object
patch_field k null o = remove k o
patch_field k (text s) o = put k (text s) o
patch_field k (number n) o = put k (number n) o

unfoldable pub merge_patch : Object → Object → Object
merge_patch [] o = o
merge_patch ((k, v) ∷ p) o = merge_patch p (patch_field k v o)

abbrev pub of_text : Option String → Value
of_text none = null
of_text (some s) = text s

abbrev pub of_number : Option ℕ → Value
of_number none = null
of_number (some n) = number n

-- `#[serde(default)]` on an `Option`: absent and null are both `None`.
abbrev pub read_optional_text : Option Value → Option (Option String)
read_optional_text none = some none
read_optional_text (some null) = some none
read_optional_text (some (text s)) = some (some s)
read_optional_text (some (number n)) = none

-- A number must fit in the type of its field.
abbrev pub read_optional_number : ℕ → Option Value → Option (Option ℕ)
read_optional_number limit none = some none
read_optional_number limit (some null) = some none
read_optional_number limit (some (text s)) = none
read_optional_number limit (some (number n)) = if ltb n limit then some (some n) else none

abbrev pub u16_limit : ℕ
u16_limit = 65536

abbrev pub u32_limit : ℕ
u32_limit = 4294967296

abbrev pub i64_limit : ℕ
i64_limit = 9223372036854775808

-- `#[serde(default)]` on a `String`.
abbrev pub read_text : Option Value → Option String
read_text none = some ""
read_text (some (text s)) = some s
read_text (some null) = none
read_text (some (number n)) = none

-- chrono's RFC 3339.
pub record Clock : Type 0 where
  pub print : ℕ → String
  pub parse : String → Option ℕ

abbrev pub of_time : Clock → Option ℕ → Value
of_time c none = null
of_time c (some t) = text (c.print t)

abbrev pub parsed : Option ℕ → Option (Option ℕ)
parsed none = none
parsed (some t) = some (some t)

abbrev pub read_optional_time : Clock → Option Value → Option (Option ℕ)
read_optional_time c none = some none
read_optional_time c (some null) = some none
read_optional_time c (some (text s)) = parsed (c.parse s)
read_optional_time c (some (number n)) = none
