-- ===== src/Json.antt =====
-- What the program uses of serde_json's `Value`: the type and its operations are parameters.
use scaleway_operator.Prelude.{ℕ, String, Bool, Option, List}

pub record Json : Type 1 where
  pub Value : Type 0
  pub from_str : String → Option Value
  -- `value.get(key)`
  pub get : Value → String → Option Value
  -- `value[key]`, which is null where the key is missing
  pub index : Value → String → Value
  pub as_str : Value → Option String
  pub as_array : Value → Option (List Value)
  pub as_u64 : Value → Option ℕ
  pub as_bool : Value → Option Bool
  pub is_null : Value → Bool
