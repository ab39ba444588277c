-- ===== src/Scaleway/Laws.antt =====
-- What the methods of src/scaleway.rs make of the answers of the API.
use scaleway_operator.Prelude.{
  ℕ, get_or, String, List, format, show_ℕ, show_Bool, Bool, true, ◌||◌, none, some, [], ◌∷◌, ◌≡◌,
  ◌==◌, arith,
}
use scaleway_operator.Runtime.Http.{text, flag, Method, HttpRequest, is_success}
use scaleway_operator.Runtime.World.{World, sent, ScalewayClient, Outside}
use scaleway_operator.Runtime.Exec.{ok, ◌>>=◌}
use scaleway_operator.Runtime.Calls.{send, response_status}
use scaleway_operator.Scaleway.Request.{request, refuse, require_success_or}
use scaleway_operator.Scaleway.Servers
use scaleway_operator.Scaleway.Databases
use scaleway_operator.Scaleway.LoadBalancers
use scaleway_operator.Scaleway.Secrets

-- A version is disabled where Scaleway says so, or that it was before.
abbrev pub is_disabled : ℕ → Bool
is_disabled s = is_success s || s == 409

-- The statuses at which a deleted resource is gone.
abbrev pub is_gone : ℕ → Bool
is_gone s = is_success s || s == 404

module _ (out : Outside) (client : ScalewayClient) where
  abbrev pub delete_request : String → String → HttpRequest
  delete_request zone id =
      request client Method.delete (Servers.server_url out client zone id) [] none

  pub delete_instance-ok :
      (zone id : String) (w : World)
      → (Servers.delete_instance out client zone id w).0 ≡ ok tt
      → (s : ℕ) × (is_gone s ≡ true)
        × (((Servers.delete_instance out client zone id w).1).log
            ≡ sent (delete_request zone id) (some s) ∷ w.log)
  unfolding Servers.delete_instance ◌>>=◌ send require_success_or refuse
  delete_instance-ok zone id w h = (
    get_or 0 (response_status (out.send w.log (delete_request zone id))),
    ground arith,
    ground arith,
  )

  abbrev pub delete_rdb_request : String → String → HttpRequest
  delete_rdb_request region id =
      request client Method.delete (Databases.instance_url out client region id) [] none

  pub delete_rdb_instance-ok :
      (region id : String) (w : World)
      → (Databases.delete_rdb_instance out client region id w).0 ≡ ok tt
      → (s : ℕ) × (is_gone s ≡ true)
        × (((Databases.delete_rdb_instance out client region id w).1).log
            ≡ sent (delete_rdb_request region id) (some s) ∷ w.log)
  unfolding Databases.delete_rdb_instance ◌>>=◌ send require_success_or refuse
  delete_rdb_instance-ok region id w h = (
    get_or 0 (response_status (out.send w.log (delete_rdb_request region id))),
    ground arith,
    ground arith,
  )

  abbrev pub version_request : String → String → List ℕ → HttpRequest
  version_request region id payload =
      request client Method.post
        (format (Secrets.secret_url out client region id ∷ "/versions" ∷ [])) []
        (some (("data", text (out.base64_encode payload)) ∷ ("disable_previous", flag true) ∷ []))

  abbrev pub disable_request : String → String → ℕ → HttpRequest
  disable_request region id revision =
      request client Method.post
        (format (
          Secrets.secret_url out client region id
          ∷ "/versions/"
          ∷ show_ℕ revision
          ∷ "/disable"
          ∷ []))
        [] none

  pub disable_secret_version-ok :
      (region id : String) (revision : ℕ) (w : World)
      → (Secrets.disable_secret_version out client region id revision w).0 ≡ ok tt
      → (s : ℕ) × (is_disabled s ≡ true)
        × (((Secrets.disable_secret_version out client region id revision w).1).log
            ≡ sent (disable_request region id revision) (some s) ∷ w.log)
  unfolding Secrets.disable_secret_version ◌>>=◌ send require_success_or refuse
  disable_secret_version-ok region id revision w h = (
    get_or 0 (response_status (out.send w.log (disable_request region id revision))),
    ground arith,
    ground arith,
  )

  abbrev pub delete_lb_request : String → String → Bool → HttpRequest
  delete_lb_request zone id release_ip =
      request client Method.delete (LoadBalancers.lb_url out client zone id)
        (("release_ip", show_Bool release_ip) ∷ []) none

  pub delete_load_balancer-ok :
      (zone id : String) (release_ip : Bool) (w : World)
      → (LoadBalancers.delete_load_balancer out client zone id release_ip w).0 ≡ ok tt
      → (s : ℕ) × (is_gone s ≡ true)
        × (((LoadBalancers.delete_load_balancer out client zone id release_ip w).1).log
            ≡ sent (delete_lb_request zone id release_ip) (some s) ∷ w.log)
  unfolding LoadBalancers.delete_load_balancer ◌>>=◌ send require_success_or refuse
  delete_load_balancer-ok zone id release_ip w h = (
    get_or 0 (response_status (out.send w.log (delete_lb_request zone id release_ip))),
    ground arith,
    ground arith,
  )
