-- ===== src/Scaleway/RoundTrip.antt =====
-- src/scaleway.rs: the requests that create a secret or a database, and those that look for it.
use scaleway_operator.Runtime.Http.{texts}
use mathlib.Core.Path.{subst⁻¹}
use scaleway_operator.Scaleway.Secrets
use scaleway_operator.Scaleway.Databases
use scaleway_operator.Prelude.{
  Bool, List, Option, String, [], and_then, ap, false, if◌then◌else◌, inl, inr, lookup, map_option,
  none, refl, some, str_eq, true, ◌++◌, ◌↔◌, ◌∷◌, ◌≡◌,
}
use scaleway_operator.Runtime.Calls.{accepted, send}
use scaleway_operator.Runtime.Exec.{Exec, Result-cases, ok, ◌>>=◌}
use scaleway_operator.Runtime.Http.{HttpRequest, Response}
use scaleway_operator.Runtime.Keeps.{Keeps}
use scaleway_operator.Runtime.World.{Event, Outside, ScalewayClient, World, sent}
use scaleway_operator.Scaleway.Adoption.{all_found, all_in}
use scaleway_operator.Scaleway.Info.{RdbCreateParams}
use scaleway_operator.Scaleway.Keeps.{client_rules}
use scaleway_operator.Scaleway.Tags.{check_tags, secret_operator_tags}

-- The newest call, where it is a request to Scaleway.
abbrev pub newest_request : List Event → Option HttpRequest
newest_request (sent r s ∷ log) = some r
newest_request _ = none

-- The tags that a creation puts on the resource.
abbrev pub tags_of_body : HttpRequest → List String
tags_of_body r = elim (and_then (lookup "tags") r.body) [ some (texts ts) ↦ ts | _ ↦ [] ]

abbrev tag_values : List (String × String) → List String
tag_values [] = []
tag_values ((k, v) ∷ query) =
    let rest = tag_values query in if str_eq k "tags" then v ∷ rest else rest

-- The tags that a search asks for.
abbrev pub tags_of_query : HttpRequest → List String
tags_of_query r = tag_values r.query

-- Scaleway lists the resources that carry every tag of the query.
abbrev pub finds : Option HttpRequest → Option HttpRequest → Bool
finds none c = false
finds (some s) none = false
finds (some s) (some c) = all_in (tags_of_body c) (tags_of_query s)

finds-tags :
    (s c : Option HttpRequest) (ts us : List String)
    → map_option tags_of_query s ≡ some ts
    → map_option tags_of_body c ≡ some us
    → finds s c ≡ all_in us ts
finds-tags none c ts us p q = cc
finds-tags (some s) none ts us p q = cc
finds-tags (some s) (some c) ts us p q = cc

abbrev IsNewest : HttpRequest → List Event → Type 0
IsNewest r log = newest_request log ≡ some r

module _ (out : Outside) where
  -- A step that begins with a request and makes no other.
  first_sent :
      {A : Type 0} (r : HttpRequest) (f : Response (out.json).Value → Exec A) (w : World)
      → ((x : Response (out.json).Value) → Keeps (IsNewest r) (f x))
      → newest_request (((send out r >>= f) w).1).log ≡ some r
  unfolding ◌>>=◌ send
  first_sent r f w k = elim (Result-cases (send out r w).0) [
    | inl (x, e) ↦ rw e ((k x).at (send out r w).1 refl)
    | inr (x, e) ↦ rw e refl
  ]

  module _ (client : ScalewayClient) (w : World) where
    created_secret_tags :
        (region name pid : String) (description : Option String) (extra : List String)
        (ns cr_name : String)
        → map_option tags_of_body (
            newest_request
              ((Secrets.create_scaleway_secret out client region name pid description extra ns
                  cr_name w).1
                ).log)
          ≡ some (secret_operator_tags ns cr_name ++ extra)
    unfolding Secrets.create_scaleway_secret
    created_secret_tags region name pid description extra ns cr_name =
        ap (map_option tags_of_body) (first_sent _ _ w (λ x. search client_rules depth 9))

    secret_search_tags :
        (region pid ns cr_name : String)
        → map_option tags_of_query (
            newest_request
              ((Secrets.find_scaleway_secret_by_tags out client region pid ns cr_name w).1).log)
          ≡ some (secret_operator_tags ns cr_name)
    unfolding Secrets.find_scaleway_secret_by_tags secret_operator_tags
    secret_search_tags region pid ns cr_name =
        ap (map_option tags_of_query) (first_sent _ _ w (λ x. search client_rules depth 9))

    created_rdb_tags :
        (region : String) (params : RdbCreateParams) (ns cr_name : String)
        → map_option tags_of_body (
            newest_request
              ((Databases.create_rdb_instance out client region params ns cr_name w).1).log)
          ≡ some (secret_operator_tags ns cr_name ++ params.extra_tags)
    unfolding Databases.create_rdb_instance
    created_rdb_tags region params ns cr_name =
        ap (map_option tags_of_body) (first_sent _ _ w (λ x. search client_rules depth 9))

    rdb_search_tags :
        (region pid ns cr_name : String)
        → map_option tags_of_query (
            newest_request
              ((Databases.find_rdb_instance_by_tags out client region pid ns cr_name w).1).log)
          ≡ some (secret_operator_tags ns cr_name)
    unfolding Databases.find_rdb_instance_by_tags secret_operator_tags
    rdb_search_tags region pid ns cr_name =
        ap (map_option tags_of_query) (first_sent _ _ w (λ x. search client_rules depth 9))

  -- The search for the secret of a custom resource asks only for tags that the creation of a secret, with
  -- tags of a spec that passed the check, puts on it, exactly when it was created for the same custom
  -- resource, whatever clients, regions and projects the two go to.
  pub find_scaleway_secret_by_tags-finds :
      (client client' : ScalewayClient) (w w' : World) (region region' name pid pid' : String)
      (description : Option String) (extra : List String) (ns cr_name ns' cr_name' : String)
      → check_tags extra ≡ ok tt
      → (finds
            (newest_request
              ((Secrets.find_scaleway_secret_by_tags out client region pid ns cr_name w).1).log)
            (newest_request
              ((Secrets.create_scaleway_secret out client' region' name pid' description extra ns'
                  cr_name' w').1
                ).log)
          ≡ true)
        ↔ ((ns ≡ ns') × (cr_name ≡ cr_name'))
  find_scaleway_secret_by_tags-finds client client' w w' region region' name pid pid' description
        extra ns cr_name ns' cr_name' accepted =
      subst⁻¹ (λ b. (b ≡ true) ↔ ((ns ≡ ns') × (cr_name ≡ cr_name')))
        (finds-tags _ _ _ _ (secret_search_tags client w region pid ns cr_name)
          (created_secret_tags client' w' region' name pid' description extra ns' cr_name'))
        (all_found extra accepted ns' cr_name' ns cr_name)

  -- The search for the database of a custom resource asks only for tags that the creation of a database,
  -- with tags of a spec that passed the check, puts on it, exactly when it was created for the same
  -- custom resource, whatever clients, regions and projects the two go to.
  pub find_rdb_instance_by_tags-finds :
      (client client' : ScalewayClient) (w w' : World) (region region' pid : String)
      (params : RdbCreateParams) (ns cr_name ns' cr_name' : String)
      → check_tags params.extra_tags ≡ ok tt
      → (finds
            (newest_request
              ((Databases.find_rdb_instance_by_tags out client region pid ns cr_name w).1).log)
            (newest_request
              ((Databases.create_rdb_instance out client' region' params ns' cr_name' w').1).log)
          ≡ true)
        ↔ ((ns ≡ ns') × (cr_name ≡ cr_name'))
  find_rdb_instance_by_tags-finds client client' w w' region region' pid params ns cr_name ns'
        cr_name' accepted =
      subst⁻¹ (λ b. (b ≡ true) ↔ ((ns ≡ ns') × (cr_name ≡ cr_name')))
        (finds-tags _ _ _ _ (rdb_search_tags client w region pid ns cr_name)
          (created_rdb_tags client' w' region' params ns' cr_name'))
        (all_found params.extra_tags accepted ns' cr_name' ns cr_name)
