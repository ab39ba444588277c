-- ===== src/Context/Retry.antt =====
-- src/context.rs: the number of consecutive errors of each resource, a `HashMap<String, u32>`.
pub mod Laws
use scaleway_operator.Prelude.{
  ℕ, ◌+◌, u32, String, Bool, none, some, Option, List, [], ◌∷◌, get_or, lookup, if◌then◌else◌,
  str_eq,
}

abbrev pub RetryCounts : Type 0
RetryCounts = List (String × ℕ)

-- `counts.insert(key, value)`
unfoldable pub insert : String → ℕ → RetryCounts → RetryCounts
insert k v [] = (k, v) ∷ []
insert k v ((j, w) ∷ m) = if str_eq j k then (k, v) ∷ m else (j, w) ∷ insert k v m

-- `counts.remove(key)`
unfoldable pub remove : String → RetryCounts → RetryCounts
remove k [] = []
remove k ((j, w) ∷ m) = let rest = remove k m in if str_eq j k then rest else (j, w) ∷ rest

-- `counts[key]`, with 0 for a key that is missing.
abbrev pub count_of : String → RetryCounts → ℕ
count_of k m = get_or 0 (lookup k m)

-- The new count and the new map.
unfoldable pub increment_retry_count : String → RetryCounts → ℕ × RetryCounts
unfolding insert
increment_retry_count key counts =
    let count = u32 (count_of key counts + 1) in (count, insert key count counts)

unfoldable pub reset_retry_count : String → RetryCounts → RetryCounts
unfolding remove
reset_retry_count key counts = remove key counts
