-- ===== src/CieCallback/Exchange.antt =====
-- The steps of satosa/plugins/cieoidc-endpoints/authorization_callback_endpoint.py between the
-- consumption of the session and the answer: each gives a value or the exception that it raises.
use pa_sso_proxy.Prelude.{
  String, not, ◌&&◌, Option, none, some, List, [], ◌∷◌, ◌++◌, str_eq, lookup, is_text,
  if◌then◌else◌,
}
use pa_sso_proxy.Result.{Result, ok, err, ◌>>=◌}
use pa_sso_proxy.CieSession.{OidcAuthentication}
use pa_sso_proxy.CieCallback.Services.{
  AuthorizationData, TokenRequest, TokenResponse, OidcUser, Failure, authentication_error,
  bad_request, unhandled, Services,
}
use pa_sso_proxy.CieCallback.Texts.{check_provider, user_info_failed}
use pa_sso_proxy.CieCallback.Pages.{Context}

-- A call that raises in place of giving a value.
abbrev pub or_raise {ℓ} : {A : Type ℓ} → Failure → Option A → Result Failure A
or_raise f none = err f
or_raise f (some a) = ok a

-- The guards between the consumption of the session and the exchange of the code, and the
-- arguments of the exchange, which are read inside its `try`.
unfoldable pub request_of :
    Services → Option String → OidcAuthentication → AuthorizationData → Result Failure TokenRequest
request_of sv code authorization authz_data = do
  redirect_uri ← or_raise (authentication_error "token request failed") authz_data.redirect_uri
  provider ←
      or_raise (authentication_error "token request failed")
        (lookup "openid_provider" authorization.provider_configuration)
  ok (record {
    redirect_uri = redirect_uri;
    state = authorization.state;
    code = code;
    client_id = authorization.client_id;
    token_endpoint_url = sv.token_endpoint provider;
    code_verifier = authz_data.code_verifier;
  })

unfoldable pub loaded : Services → Option String → Option AuthorizationData
loaded sv none = none
loaded sv (some json) = sv.loads json

unfoldable pub token_request :
    Services → String → Context → OidcAuthentication → Result Failure TokenRequest
unfolding request_of loaded
token_request sv client_id context authorization = do
  iss ← or_raise unhandled context.iss
  if not (check_provider authorization.provider_id iss)
      then err (bad_request "Provider ID and iss don't match")
      else if not (str_eq authorization.client_id client_id)
      then err (bad_request "Invalid relaying party")
      else do
        authz_data ← or_raise unhandled (loaded sv authorization.authz_data)
        request_of sv context.code authorization authz_data

unfoldable pub token_response : Services → TokenRequest → Result Failure TokenResponse
token_response sv request = do
  answer ← or_raise (authentication_error "token request failed") (sv.access_token_request request)
  or_raise (authentication_error "Token response is empty") answer

-- The two tokens, once their signatures and the hash that binds them are verified.
unfoldable pub verified_tokens :
    Services → OidcAuthentication → TokenResponse → Result Failure (String × String)
verified_tokens sv authorization answer = do
  provider ← or_raise unhandled (lookup "openid_provider" authorization.provider_configuration)
  jwks ← or_raise unhandled (sv.get_jwks provider)
  access_token ← or_raise unhandled answer.access_token
  id_token ← or_raise unhandled answer.id_token
  ac_jwk ← or_raise unhandled (sv.get_jwk_from_jwt access_token jwks)
  id_jwk ← or_raise unhandled (sv.get_jwk_from_jwt id_token jwks)
  op_ac_jwk ← or_raise (authentication_error "AC JWK or ID JWK is empty") ac_jwk
  op_id_jwk ← or_raise (authentication_error "AC JWK or ID JWK is empty") id_jwk
  if not (sv.verify_jws access_token op_ac_jwk && sv.verify_jws id_token op_id_jwk)
      then err (authentication_error "tokens jws verification failed")
      else do
        decoded ← or_raise unhandled (sv.unpad_jwt_payload id_token)
        if not (sv.verify_at_hash decoded access_token)
            then err (authentication_error "tokens verification failed")
            else ok (access_token, id_token)

-- The fields that __update_authentication_token sets before it stores the session.
unfoldable pub with_tokens :
    OidcAuthentication → String × String → TokenResponse → Result Failure OidcAuthentication
with_tokens authorization (access_token, id_token) answer = do
  token_type ← or_raise unhandled answer.token_type
  expires_in ← or_raise unhandled answer.expires_in
  ok (record authorization {
    access_token = some access_token;
    id_token = some id_token;
    scope = answer.scope;
    token_type = some token_type;
    expires_in = some expires_in;
  })

-- `edupersontargetedid` is the subject where the provider gives none.
unfoldable pub with_targeted_id : List (String × String) → List (String × String)
with_targeted_id attrs = elim (lookup "edupersontargetedid" attrs) [
  | some v ↦ attrs
  | none ↦ elim (lookup "sub" attrs) [
    | none ↦ attrs
    | some sub ↦ if str_eq sub "" then attrs else attrs ++ ("edupersontargetedid", sub) ∷ []
  ]
]

unfoldable pub add_user : Services → List (String × String) → Option OidcUser
unfolding with_targeted_id
add_user sv attrs = sv.oidc_user (with_targeted_id attrs)

unfoldable pub not_empty : List (String × String) → Option (List (String × String))
not_empty [] = none
not_empty (attr ∷ attrs) = some (attr ∷ attrs)

unfoldable pub user_of : Services → OidcAuthentication → Result Failure OidcUser
unfolding add_user not_empty
user_of sv authorization = do
  provider ← or_raise unhandled (lookup "openid_provider" authorization.provider_configuration)
  answer ←
      or_raise unhandled (sv.get_userinfo provider authorization.state authorization.access_token)
  user_info ←
      or_raise
        (authentication_error (user_info_failed authorization.state authorization.provider_id))
        answer
  processed ← or_raise unhandled (sv.process_user_attributes user_info authorization)
  user_attrs ←
      or_raise (authentication_error "No user attributes have been processed") (not_empty processed)
  or_raise (authentication_error "User is empty") (add_user sv user_attrs)

-- The fields that are set before the session is stored for the second time.
unfoldable pub with_user : OidcAuthentication → TokenResponse → OidcUser → OidcAuthentication
with_user authorization answer user = record authorization {
  refresh_token =
      (if is_text answer.refresh_token then answer.refresh_token else authorization.refresh_token);
  user = some user.values;
}
