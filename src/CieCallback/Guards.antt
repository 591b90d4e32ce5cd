-- ===== src/CieCallback/Guards.antt =====
-- What a user who is handed over by the endpoint of
-- satosa/plugins/cieoidc-endpoints/authorization_callback_endpoint.py has passed.
use pa_sso_proxy.Prelude.{
  String, ◌≡◌, refl, subst, inl, inr, Bool, true, false, some, ◌&&◌, arith, Bool-cases,
  Option-cases, str_eq, eq_iff, lookup, option_map,
}
use pa_sso_proxy.Result.{ok}
use pa_sso_proxy.CieSession.{OidcAuthentication}
use pa_sso_proxy.CieCallback.Services.{Services, TokenRequest, TokenResponse}
use pa_sso_proxy.CieCallback.Texts.{check_provider}
use pa_sso_proxy.CieCallback.Pages.{Context}
use pa_sso_proxy.CieCallback.Exchange.{loaded, request_of, token_request, verified_tokens}

-- The session is one that this proxy stored for the provider that answers, and the request sends
-- the code of the query with the session's verifier.
pub record Checked (sv : Services) (client_id : String) (context : Context) (e : OidcAuthentication)
    (request : TokenRequest) : Type 0 where
  pub iss : String
  pub from_provider : context.iss ≡ some iss
  pub provider_matches : check_provider e.provider_id iss ≡ true
  pub client_matches : e.client_id ≡ client_id
  pub code_of_query : request.code ≡ context.code
  pub state_of_session : request.state ≡ e.state
  pub client_of_session : request.client_id ≡ e.client_id
  pub provider : String
  pub provider_of_session : lookup "openid_provider" e.provider_configuration ≡ some provider
  pub endpoint_of_provider : request.token_endpoint_url ≡ sv.token_endpoint provider
  pub json : String
  pub stored : e.authz_data ≡ some json
  pub verifier_of_session :
      option_map (λ d. d.code_verifier) (sv.loads json) ≡ some request.code_verifier

pub token_request-Checked :
    (sv : Services) (client_id : String) (context : Context) (e : OidcAuthentication)
    {request : TokenRequest}
    → token_request sv client_id context e ≡ ok request
    → Checked sv client_id context e request
unfolding token_request request_of loaded
token_request-Checked sv client_id context e {request = q} h = elim (Option-cases context.iss) [
  | inl n ↦ absurd (ground arith)
  | inr (iss, h₁) ↦ elim (Bool-cases (check_provider e.provider_id iss)) [
    | inr n ↦ absurd (ground arith)
    | inl h₂ ↦ elim (Bool-cases (str_eq e.client_id client_id)) [
      | inr n ↦ absurd (ground arith)
      | inl h₃ ↦ elim (Option-cases e.authz_data) [
        | inl n ↦ absurd (ground arith)
        | inr (json, h₄) ↦ elim (Option-cases (sv.loads json)) [
          | inl n ↦ absurd (ground arith)
          | inr (d, h₅) ↦ elim (Option-cases d.redirect_uri) [
            | inl n ↦ absurd (ground arith)
            | inr (uri, h₆) ↦
                elim (Option-cases (lookup "openid_provider" e.provider_configuration)) [
                  | inl n ↦ absurd (ground arith)
                  | inr (op, h₇) ↦ record {
                    iss = iss;
                    from_provider = h₁;
                    provider_matches = h₂;
                    client_matches = (eq_iff e.client_id client_id).0 h₃;
                    code_of_query = ground arith;
                    state_of_session = ground arith;
                    client_of_session = ground arith;
                    provider = op;
                    provider_of_session = h₇;
                    endpoint_of_provider = ground arith;
                    json = json;
                    stored = h₄;
                    verifier_of_session = ground arith;
                  }
                ]
          ]
        ]
      ]
    ]
  ]
]

-- Both tokens are in the provider's answer, each with a signature that verifies under the key that
-- its header names among the keys of the session's provider, and the hash in the id token is the one
-- of the access token.
pub record Verified (sv : Services) (e : OidcAuthentication) (answer : TokenResponse)
    (access_token id_token : String) : Type 0 where
  pub provider : String
  pub provider_of_session : lookup "openid_provider" e.provider_configuration ≡ some provider
  pub jwks : String
  pub jwks_of_provider : sv.get_jwks provider ≡ some jwks
  pub access : answer.access_token ≡ some access_token
  pub id : answer.id_token ≡ some id_token
  pub access_key : String
  pub access_key_named : sv.get_jwk_from_jwt access_token jwks ≡ some (some access_key)
  pub access_verifies : sv.verify_jws access_token access_key ≡ true
  pub id_key : String
  pub id_key_named : sv.get_jwk_from_jwt id_token jwks ≡ some (some id_key)
  pub id_verifies : sv.verify_jws id_token id_key ≡ true
  pub decoded : String
  pub unpadded : sv.unpad_jwt_payload id_token ≡ some decoded
  pub hash_matches : sv.verify_at_hash decoded access_token ≡ true

and_true : (a b : Bool) → (a && b) ≡ true → (a ≡ true) × (b ≡ true)
and_true true true h = (refl, refl)
and_true true false h = absurd (ground arith)
and_true false b h = absurd (ground arith)

pub verified_tokens-Verified :
    (sv : Services) (e : OidcAuthentication) (answer : TokenResponse) {access_token : String}
    {id_token : String}
    → verified_tokens sv e answer ≡ ok (access_token, id_token)
    → Verified sv e answer access_token id_token
unfolding verified_tokens
verified_tokens-Verified sv e answer {access_token = at} {id_token = it} h =
    elim (Option-cases (lookup "openid_provider" e.provider_configuration)) [
      | inl n ↦ absurd (ground arith)
      | inr (op, h0) ↦ elim (Option-cases (sv.get_jwks op)) [
        | inl n ↦ absurd (ground arith)
        | inr (jwks, h1) ↦ elim (Option-cases (answer.access_token)) [
          | inl n ↦ absurd (ground arith)
          | inr (a, h2) ↦ elim (Option-cases (answer.id_token)) [
            | inl n ↦ absurd (ground arith)
            | inr (i, h3) ↦ elim (Option-cases (sv.get_jwk_from_jwt a jwks)) [
              | inl n ↦ absurd (ground arith)
              | inr (ao, h4) ↦ elim (Option-cases (sv.get_jwk_from_jwt i jwks)) [
                | inl n ↦ absurd (ground arith)
                | inr (io, h5) ↦ elim (Option-cases (ao)) [
                  | inl n ↦ absurd (ground arith)
                  | inr (ak, h6) ↦ elim (Option-cases (io)) [
                    | inl n ↦ absurd (ground arith)
                    | inr (ik, h7) ↦ elim (Bool-cases (sv.verify_jws a ak && sv.verify_jws i ik)) [
                      | inr n ↦ absurd (ground arith)
                      | inl signed ↦ elim (Option-cases (sv.unpad_jwt_payload i)) [
                        | inl n ↦ absurd (ground arith)
                        | inr (d, g) ↦ elim (Bool-cases (sv.verify_at_hash d a)) [
                          | inr n ↦ absurd (ground arith)
                          | inl hashed ↦
                              let (same_a, same_i) : (a ≡ at) × (i ≡ it) =
                                (ground arith, ground arith) in
                              let (access_ok, id_ok) =
                                and_true (sv.verify_jws a ak) (sv.verify_jws i ik) signed in
                              record {
                                provider = op;
                                provider_of_session = h0;
                                jwks = jwks;
                                jwks_of_provider = h1;
                                access = ground arith;
                                id = ground arith;
                                access_key = ak;
                                access_key_named =
                                    subst (λ t. sv.get_jwk_from_jwt t jwks ≡ some (some ak)) same_a
                                      (ground arith);
                                access_verifies =
                                    subst (λ t. sv.verify_jws t ak ≡ true) same_a access_ok;
                                id_key = ik;
                                id_key_named =
                                    subst (λ t. sv.get_jwk_from_jwt t jwks ≡ some (some ik)) same_i
                                      (ground arith);
                                id_verifies = subst (λ t. sv.verify_jws t ik ≡ true) same_i id_ok;
                                decoded = d;
                                unpadded = subst (λ t. sv.unpad_jwt_payload t ≡ some d) same_i g;
                                hash_matches =
                                    subst (λ t. sv.verify_at_hash d t ≡ true) same_a hashed;
                              }
                        ]
                      ]
                    ]
                  ]
                ]
              ]
            ]
          ]
        ]
      ]
    ]
