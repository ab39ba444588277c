-- ===== src/Scaleway/Keeps.antt =====
-- The calls that each method of src/scaleway.rs makes: one request, of its own HTTP method.
use scaleway_operator.Runtime.Http.{Method, text}
use scaleway_operator.Scaleway.Servers
use scaleway_operator.Scaleway.Databases
use scaleway_operator.Scaleway.LoadBalancers
use scaleway_operator.Scaleway.Secrets
use scaleway_operator.Prelude.{
  Bool, List, Option, String, and_then, lookup, none, refl, some, ℕ, ◌==◌, ◌≡◌,
}
use scaleway_operator.Resources.Instances.{InstanceSpec, LoadBalancerSpec}
use scaleway_operator.Runtime.Calls.{send}
use scaleway_operator.Runtime.Exec.{Exec}
use scaleway_operator.Runtime.Http.{HttpRequest, JsonField, Response, is_success}
use scaleway_operator.Runtime.Keeps.{
  Adds, Keeps, Keeps-bind, Keeps-if, Keeps-pure, Keeps-send, keeps_rules,
}
use scaleway_operator.Runtime.World.{Event, Outside, ScalewayClient, sent}
use scaleway_operator.Scaleway.Info.{RdbCreateParams}
use scaleway_operator.Scaleway.Request.{
  json_of, refuse, request, require_success, require_success_or,
}

-- A request of this HTTP method, answered or not, keeps the property.
abbrev pub Allows : (List Event → Type 0) → Method → Type 0
Allows P m = (r : HttpRequest) (s : Option ℕ) → r.method ≡ m → Adds P (sent r s)

-- A request of this client, of this HTTP method, keeps the property.
abbrev pub AllowsFrom : (List Event → Type 0) → ScalewayClient → Method → Type 0
AllowsFrom P client m =
    (r : HttpRequest) (s : Option ℕ) → r.method ≡ m → r.token ≡ client.token → Adds P (sent r s)

module _ {P : List Event → Type 0} (out : Outside) where
  module _ {A : Type 0} where
    pub Keeps-refuse : (r : Response (out.json).Value) → Keeps P (refuse out {A = A} r)
    unfolding refuse
    Keeps-refuse r = search keeps_rules

    pub Keeps-require_success_or :
        (n : ℕ) (m k : Exec A) (r : Response (out.json).Value)
        → Keeps P m
        → Keeps P k
        → Keeps P (require_success_or out n m k r)
    unfolding require_success_or
    Keeps-require_success_or n m k r km kk =
        Keeps-if (is_success r.status) _ _ kk (Keeps-if (r.status == n) _ _ km (Keeps-refuse r))

  pub Keeps-require_success : (r : Response (out.json).Value) → Keeps P (require_success out r)
  unfolding require_success
  Keeps-require_success r = Keeps-if (is_success r.status) _ _ (Keeps-pure tt) (Keeps-refuse r)

  pub Keeps-json_of : (r : Response (out.json).Value) → Keeps P (json_of out r)
  unfolding json_of
  Keeps-json_of r = search keeps_rules

  pub Keeps-request :
      (client : ScalewayClient) (m : Method) (url : String) (query : List (String × String))
      (body : Option (List (String × JsonField)))
      → Allows P m
      → Keeps P (send out (request client m url query body))
  Keeps-request client m url query body allows =
      Keeps-send out (request client m url query body) (λ s. allows _ s refl)

  pub Keeps-own_request :
      (client : ScalewayClient) (m : Method) (url : String) (query : List (String × String))
      (body : Option (List (String × JsonField)))
      → AllowsFrom P client m
      → Keeps P (send out (request client m url query body))
  Keeps-own_request client m url query body allows =
      Keeps-send out (request client m url query body) (λ s. allows _ s refl refl)

pub ruleset client_rules = (
  keeps_rules, Keeps-refuse, Keeps-require_success, Keeps-require_success_or, Keeps-json_of,
  Keeps-request, Keeps-own_request,
)

module _ {P : List Event → Type 0} (out : Outside) (client : ScalewayClient) where
  pub Keeps-find_instance_by_name :
      (zone name pid : String)
      → AllowsFrom P client Method.get
      → Keeps P (Servers.find_instance_by_name out client zone name pid)
  unfolding Servers.find_instance_by_name
  Keeps-find_instance_by_name zone name pid a = search client_rules depth 9

  pub Keeps-create_instance :
      (spec : InstanceSpec) (pid : String)
      → AllowsFrom P client Method.post
      → Keeps P (Servers.create_instance out client spec pid)
  unfolding Servers.create_instance
  Keeps-create_instance spec pid a = search client_rules depth 9

  pub Keeps-get_instance :
      (zone id pid : String)
      → AllowsFrom P client Method.get
      → Keeps P (Servers.get_instance out client zone id pid)
  unfolding Servers.get_instance
  Keeps-get_instance zone id pid a = search client_rules depth 9

  pub Keeps-delete_instance :
      (zone id : String)
      → AllowsFrom P client Method.delete
      → Keeps P (Servers.delete_instance out client zone id)
  unfolding Servers.delete_instance
  Keeps-delete_instance zone id a = search client_rules depth 9

  pub Keeps-get_rdb_instance :
      (region id : String)
      → AllowsFrom P client Method.get
      → Keeps P (Databases.get_rdb_instance out client region id)
  unfolding Databases.get_rdb_instance
  Keeps-get_rdb_instance region id a = search client_rules depth 9

  pub Keeps-delete_rdb_instance :
      (region id : String)
      → AllowsFrom P client Method.delete
      → Keeps P (Databases.delete_rdb_instance out client region id)
  unfolding Databases.delete_rdb_instance
  Keeps-delete_rdb_instance region id a = search client_rules depth 9

  pub Keeps-get_load_balancer :
      (zone id : String)
      → Allows P Method.get
      → Keeps P (LoadBalancers.get_load_balancer out client zone id)
  unfolding LoadBalancers.get_load_balancer
  Keeps-get_load_balancer zone id a = search client_rules depth 9

  pub Keeps-delete_load_balancer :
      (zone id : String) (release_ip : Bool)
      → Allows P Method.delete
      → Keeps P (LoadBalancers.delete_load_balancer out client zone id release_ip)
  unfolding LoadBalancers.delete_load_balancer
  Keeps-delete_load_balancer zone id release_ip a = search client_rules depth 9

  pub Keeps-find_load_balancer_by_name :
      (zone ns name pid : String)
      → Allows P Method.get
      → Keeps P (LoadBalancers.find_load_balancer_by_name out client zone ns name pid)
  unfolding LoadBalancers.find_load_balancer_by_name
  Keeps-find_load_balancer_by_name zone ns name pid a = search client_rules depth 9

  pub Keeps-create_load_balancer :
      (spec : LoadBalancerSpec) (pid ns name : String)
      → Allows P Method.post
      → Keeps P (LoadBalancers.create_load_balancer out client spec pid ns name)
  unfolding LoadBalancers.create_load_balancer
  Keeps-create_load_balancer spec pid ns name a = search client_rules depth 9

  pub Keeps-verify_project_access :
      (pid : String) → Allows P Method.get → Keeps P (Servers.verify_project_access out client pid)
  unfolding Servers.verify_project_access
  Keeps-verify_project_access pid a = search client_rules depth 12

  pub Keeps-find_rdb_instance_by_tags :
      (region pid ns name : String)
      → AllowsFrom P client Method.get
      → Keeps P (Databases.find_rdb_instance_by_tags out client region pid ns name)
  unfolding Databases.find_rdb_instance_by_tags
  Keeps-find_rdb_instance_by_tags region pid ns name a = search client_rules depth 9

  pub Keeps-create_rdb_instance :
      (region : String) (params : RdbCreateParams) (ns name : String)
      → AllowsFrom P client Method.post
      → Keeps P (Databases.create_rdb_instance out client region params ns name)
  unfolding Databases.create_rdb_instance
  Keeps-create_rdb_instance region params ns name a = search client_rules depth 9

  pub Keeps-access_secret_version :
      (region id : String) (n : ℕ)
      → AllowsFrom P client Method.get
      → Keeps P (Secrets.access_secret_version out client region id n)
  unfolding Secrets.access_secret_version
  Keeps-access_secret_version region id n a = search client_rules depth 9

-- The value that a request pushes to Secret Manager, if it does.
abbrev pub data_of : HttpRequest → Option JsonField
data_of r = and_then (lookup "data") r.body

-- A request of this client that pushes this, answered or not, keeps the property.
abbrev pub AllowsData : (List Event → Type 0) → ScalewayClient → Option JsonField → Type 0
AllowsData P client d =
    (r : HttpRequest) (s : Option ℕ) → data_of r ≡ d → r.token ≡ client.token → Adds P (sent r s)

module _ {P : List Event → Type 0} (out : Outside) (client : ScalewayClient) where
  pub Keeps-find_scaleway_secret_by_tags :
      (region pid ns name : String)
      → AllowsData P client none
      → Keeps P (Secrets.find_scaleway_secret_by_tags out client region pid ns name)
  unfolding Secrets.find_scaleway_secret_by_tags
  Keeps-find_scaleway_secret_by_tags region pid ns name a =
      Keeps-bind _ _ (Keeps-send out _ (λ s. a _ s refl refl)) (λ r. search client_rules depth 9)

  pub Keeps-create_scaleway_secret :
      (region name pid : String) (description : Option String) (tags : List String)
      (ns cr_name : String)
      → AllowsData P client none
      → Keeps P
          (Secrets.create_scaleway_secret out client region name pid description tags ns cr_name)
  unfolding Secrets.create_scaleway_secret
  Keeps-create_scaleway_secret region name pid description tags ns cr_name a =
      Keeps-bind _ _ (Keeps-send out _ (λ s. a _ s refl refl)) (λ r. search client_rules depth 9)

  pub Keeps-create_secret_version :
      (region id : String) (payload : List ℕ)
      → AllowsData P client (some (text (out.base64_encode payload)))
      → Keeps P (Secrets.create_secret_version out client region id payload)
  unfolding Secrets.create_secret_version
  Keeps-create_secret_version region id payload a =
      Keeps-bind _ _ (Keeps-send out _ (λ s. a _ s refl refl)) (λ r. search client_rules depth 9)

  pub Keeps-disable_secret_version :
      (region id : String) (n : ℕ)
      → AllowsData P client none
      → Keeps P (Secrets.disable_secret_version out client region id n)
  unfolding Secrets.disable_secret_version
  Keeps-disable_secret_version region id n a =
      Keeps-bind _ _ (Keeps-send out _ (λ s. a _ s refl refl)) (λ r. search client_rules depth 9)

  pub Keeps-delete_scaleway_secret :
      (region id : String)
      → AllowsData P client none
      → Keeps P (Secrets.delete_scaleway_secret out client region id)
  unfolding Secrets.delete_scaleway_secret
  Keeps-delete_scaleway_secret region id a =
      Keeps-bind _ _ (Keeps-send out _ (λ s. a _ s refl refl)) (λ r. search client_rules depth 9)
