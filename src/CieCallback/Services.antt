-- ===== src/CieCallback/Services.antt =====
-- What satosa/plugins/cieoidc-endpoints/authorization_callback_endpoint.py calls: the token and
-- userinfo endpoints of the provider, the JOSE functions, the pydantic models and the attribute
-- converter. The answers of one request are one instance of the record.
use pa_sso_proxy.Prelude.{ℕ, String, Option, Bool, List}
use pa_sso_proxy.CieSession.{OidcAuthentication}

-- What the callback reads of the JSON text that the authorization request stored.
pub record AuthorizationData : Type 0 where
  pub redirect_uri : Option String
  pub code_verifier : Option String

-- The arguments of access_token_request.
pub record TokenRequest : Type 0 where
  pub redirect_uri : String
  pub state : String
  pub code : Option String
  pub client_id : String
  pub token_endpoint_url : Option String
  pub code_verifier : Option String

pub record TokenResponse : Type 0 where
  pub access_token : Option String
  pub id_token : Option String
  pub refresh_token : Option String
  pub scope : Option String
  pub token_type : Option String
  pub expires_in : Option ℕ

-- `values` is `model_dump`, where a value that is None is the empty text.
pub record OidcUser : Type 0 where
  pub sub : String
  pub values : List (String × String)

pub data Failure : Type 0 where
  -- SATOSAAuthenticationError and SATOSABadRequestError, with their message
  authentication_error bad_request : String → Failure
  -- any other exception, which no handler of the endpoint catches
  unhandled : Failure

-- `none` is an exception of the function that is called, but for the two models, where it is a
-- ValidationError.
pub record Services : Type 0 where
  pub already_used : OidcAuthentication → Bool
  pub loads : String → Option AuthorizationData
  pub token_endpoint : String → Option String
  pub access_token_request : TokenRequest → Option (Option TokenResponse)
  pub get_jwks : String → Option String
  pub get_jwk_from_jwt : String → String → Option (Option String)
  pub verify_jws : String → String → Bool
  pub unpad_jwt_payload : String → Option String
  pub verify_at_hash : String → String → Bool
  pub get_userinfo : String → String → Option String → Option (Option String)
  pub process_user_attributes : String → OidcAuthentication → Option (List (String × String))
  pub oidc_user : List (String × String) → Option OidcUser
  pub is_valid : OidcAuthentication → Bool
  pub to_internal : List (String × String) → List (String × List String)
