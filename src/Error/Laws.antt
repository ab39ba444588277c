-- ===== src/Error/Laws.antt =====
-- Properties of the error classes of src/error.rs and of the texts that reach a status.
use scaleway_operator.Prelude.{ℕ, String, ◌≡◌, refl, ◌⊎◌, true, some, arith}
use scaleway_operator.Json.{Json}
use scaleway_operator.Error.{
  KubeError, OperatorError, kube_error, network_error, serialization_error, scaleway_error,
  scaleway_secret_not_ready, is_permanent_error, recheck_interval, body_message, for_status,
}

-- What reaches a status never depends on the payload of a Kubernetes, network or parsing error, and of
-- the body of a Scaleway error only its `message` field does.
for_status_hides :
    (json : Json) (a b : KubeError) (s t status : String)
    → body_message json s ≡ body_message json t
    → (for_status json (kube_error a) ≡ for_status json (kube_error b))
      × (for_status json (network_error s) ≡ for_status json (network_error t))
      × (for_status json (serialization_error s) ≡ for_status json (serialization_error t))
      × (for_status json (scaleway_error status s) ≡ for_status json (scaleway_error status t))
unfolding for_status
for_status_hides json a b s t status h = (refl, refl, refl, cc)

-- Only a permanent error, or the wait for a ScalewaySecret, is rechecked at a fixed interval, and
-- that wait is not permanent.
pub recheck_interval_classes :
    (e : OperatorError) (n : ℕ)
    → recheck_interval e ≡ some n
    → ((is_permanent_error e ≡ true) × (n ≡ 300))
      ⊎ ((m : String) × (e ≡ scaleway_secret_not_ready m) × (n ≡ 30))
unfolding recheck_interval is_permanent_error
recheck_interval_classes e n h = ground arith
