-- ===== src/Runtime/Http.antt =====
-- HTTP requests and answers, as src/scaleway.rs builds and reads them through reqwest.
use scaleway_operator.Prelude.{ℕ, String, Bool, ◌&&◌, Option, List, leb, ltb}
use scaleway_operator.Prelude.Int.{ℤ}

-- A call that another library makes, and that may fail with an error of that library.
pub data Try (E A : Type 0) : Type 0 where
  good : A → Try E A
  bad : E → Try E A

-- The values of a request's `json!` object.
pub data JsonField : Type 0 where
  text : String → JsonField
  texts : List String → JsonField
  whole : ℤ → JsonField
  flag : Bool → JsonField
  nested : String → ℤ → JsonField  -- an object of one number

pub data Method : Type 0 where
  get post delete : Method

pub record HttpRequest : Type 0 where
  pub method : Method
  pub url : String
  pub query : List (String × String)
  pub token : String  -- the header X-Auth-Token
  pub body : Option (List (String × JsonField))

-- An answer's status, and its body read as text or as JSON; reading may fail.
pub record Response (V : Type 0) : Type 0 where
  pub status : ℕ
  pub text : Try String String
  pub json : Try String V

-- `StatusCode::is_success`
abbrev pub is_success : ℕ → Bool
is_success status = leb 200 status && ltb status 300
