-- ===== src/Context/Retry/Laws.antt =====
-- Properties of the retry counters of src/context.rs.
use scaleway_operator.Prelude.{
  ℕ, ◌+◌, ◌<◌, u32, String, ◌≡◌, refl, ◌≢◌, some, none, [], ◌∷◌, lookup, if◌then◌else◌, str_eq,
  eq_iff, arith,
}
use scaleway_operator.Context.Retry.{
  RetryCounts, insert, remove, count_of, increment_retry_count, reset_retry_count,
}

pub lookup-insert :
    (k j : String) (v : ℕ) (m : RetryCounts)
    → lookup j (insert k v m) ≡ (if str_eq k j then some v else lookup j m)
unfolding insert
lookup-insert k j v [] = refl
lookup-insert k j v ((i, w) ∷ m) =
    ground (arith, eq_iff k j, eq_iff i k, eq_iff i j, lookup-insert k j v m)

pub lookup-remove :
    (k j : String) (m : RetryCounts)
    → lookup j (remove k m) ≡ (if str_eq k j then none else lookup j m)
unfolding remove
lookup-remove k j [] = ground arith
lookup-remove k j ((i, w) ∷ m) =
    ground (arith, eq_iff k j, eq_iff i k, eq_iff i j, lookup-remove k j m)

-- Below the largest `u32`, an increment adds one to the count of its key, and to no other.
pub increment_retry_count_counts :
    (key j : String) (m : RetryCounts)
    → count_of key m < 4294967295
    → ((increment_retry_count key m).0 ≡ count_of key m + 1)
      × (count_of key (increment_retry_count key m).1 ≡ count_of key m + 1)
      × (j ≢ key → count_of j (increment_retry_count key m).1 ≡ count_of j m)
unfolding increment_retry_count
increment_retry_count_counts key j m h = ground (
  arith,
  lookup-insert key key (u32 (count_of key m + 1)) m,
  lookup-insert key j (u32 (count_of key m + 1)) m,
  eq_iff key key,
  eq_iff key j,
)

-- A reset brings the count of its key back to zero and changes no other.
pub reset_retry_count_counts :
    (key j : String) (m : RetryCounts)
    → (count_of key (reset_retry_count key m) ≡ 0)
      × (j ≢ key → count_of j (reset_retry_count key m) ≡ count_of j m)
unfolding reset_retry_count
reset_retry_count_counts key j m =
    ground (arith, lookup-remove key key m, lookup-remove key j m, eq_iff key key, eq_iff key j)
