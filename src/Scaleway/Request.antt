-- ===== src/Scaleway/Request.antt =====
-- The shape that every method of src/scaleway.rs shares: one request, then the status, then the body.
use scaleway_operator.Prelude.{ℕ, String, Option, List, ◌==◌, if◌then◌else◌}
use scaleway_operator.Error.{scaleway_error}
use scaleway_operator.Runtime.Http.{JsonField, Method, HttpRequest, Response, is_success}
use scaleway_operator.Runtime.World.{ScalewayClient, Outside}
use scaleway_operator.Runtime.Exec.{Exec, ◌>>=◌, pure, raise, lift, net}

abbrev pub request :
    ScalewayClient
    → Method
    → String
    → List (String × String)
    → Option (List (String × JsonField))
    → HttpRequest
request client method url query body = record {
  method = method;
  url = url;
  query = query;
  token = client.token;
  body = body;
}

module _ (out : Outside) where
  -- `let error_text = response.text().await?; Err(ScalewayError { status, message })`
  unfoldable pub refuse : {A : Type 0} → Response (out.json).Value → Exec A
  refuse response = do
    error_text ← lift (net response.text)
    raise (scaleway_error (out.status_text response.status) error_text)

  -- `if !response.status().is_success() { … }` with nothing made of a 404
  unfoldable pub require_success : Response (out.json).Value → Exec (Unit {0})
  require_success response = if is_success response.status then pure tt else refuse response

  -- A success, or what the method makes of one other status, such as 404.
  unfoldable pub require_success_or :
      {A : Type 0} → ℕ → Exec A → Exec A → Response (out.json).Value → Exec A
  require_success_or special on_special on_success response =
      if is_success response.status
      then on_success
      else if response.status == special
      then on_special
      else refuse response

  unfoldable pub json_of : Response (out.json).Value → Exec (out.json).Value
  json_of response = lift (net response.json)

  -- `data[key].as_str()`
  abbrev pub str_at : String → (out.json).Value → Option String
  str_at key v = (out.json).as_str ((out.json).index v key)
