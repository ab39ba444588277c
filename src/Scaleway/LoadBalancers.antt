-- ===== src/Scaleway/LoadBalancers.antt =====
-- src/scaleway.rs: the calls on load balancers.
use scaleway_operator.Prelude.{
  String, Bool, Option, none, some, [], ◌∷◌, ◌++◌, format, join, show_Bool, head?, and_then, get_or,
}
use scaleway_operator.Error.{unknown, lb_not_found}
use scaleway_operator.Resources.Instances.{LoadBalancerSpec}
use scaleway_operator.Runtime.Http.{text, texts, Method}
use scaleway_operator.Scaleway.Info.{LoadBalancerInfo}
use scaleway_operator.Runtime.World.{ScalewayClient, Outside}
use scaleway_operator.Runtime.Exec.{Exec, ◌>>=◌, ◌>>◌, pure, raise, or_raise}
use scaleway_operator.Runtime.Calls.{send}
use scaleway_operator.Scaleway.Request.{
  request, require_success, require_success_or, json_of, str_at,
}
use scaleway_operator.Scaleway.Tags.{lb_operator_tags}

module _ (out : Outside) (client : ScalewayClient) where
  abbrev lbs_url : String → String
  lbs_url zone = format (client.base_url ∷ "/lb/v1/zones/" ∷ zone ∷ "/lbs" ∷ [])

  abbrev pub lb_url : String → String → String
  lb_url zone id = format (client.base_url ∷ "/lb/v1/zones/" ∷ zone ∷ "/lbs/" ∷ id ∷ [])

  unfoldable pub create_load_balancer : LoadBalancerSpec → String → String → String → Exec String
  create_load_balancer spec project_id namespace cr_name = do
    response ← send out (
        request client Method.post (lbs_url spec.zone) [] (
          some (
            ("name", text spec.name)
            ∷ ("type", text spec.lb_type)
            ∷ ("project_id", text project_id)
            ∷ ("description", text (get_or "" spec.description))
            ∷ ("tags", texts (lb_operator_tags namespace cr_name ++ spec.tags))
            ∷ [])))
    require_success out response
    reply ← json_of out response
    or_raise (str_at out "id" reply) (unknown "No LB ID in response")

  unfoldable pub find_load_balancer_by_name :
      String → String → String → String → Exec (Option String)
  find_load_balancer_by_name zone namespace cr_name project_id = do
    response ← send out (
        request client Method.get (lbs_url zone)
          (("project_id", project_id)
            ∷ ("tags", join "," (lb_operator_tags namespace cr_name))
            ∷ [])
          none)
    require_success_or out 404 (pure none)
        (do
          reply ← json_of out response
          pure (
              and_then (str_at out "id")
                (and_then head? ((out.json).as_array ((out.json).index reply "lbs")))))
        response

  unfoldable pub get_load_balancer : String → String → Exec LoadBalancerInfo
  get_load_balancer zone lb_id = do
    response ← send out (request client Method.get (lb_url zone lb_id) [] none)
    require_success_or out 404 (raise (lb_not_found lb_id))
        (do
          reply ← json_of out response
          id ← or_raise (str_at out "id" reply) (unknown "Missing lb.id in response")
          pure (record {
            id = id;
            state = get_or "unknown" (str_at out "status" reply);
            vip_address =
                and_then (str_at out "ip_address")
                  (and_then head? ((out.json).as_array ((out.json).index reply "ip")));
          }))
        response

  -- A 404 is a success: the load balancer is gone.
  unfoldable pub delete_load_balancer : String → String → Bool → Exec (Unit {0})
  delete_load_balancer zone lb_id release_ip = do
    response ← send out (
        request client Method.delete (lb_url zone lb_id) (("release_ip", show_Bool release_ip) ∷ [])
          none)
    require_success_or out 404 (pure tt) (pure tt) response
