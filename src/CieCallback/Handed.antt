-- ===== src/CieCallback/Handed.antt =====
-- The users whom the endpoint of
-- satosa/plugins/cieoidc-endpoints/authorization_callback_endpoint.py hands over.
use pa_sso_proxy.Prelude.{
  refl, subst, List, lookup, ℕ, String, ◌≡◌, inl, inr, true, false, some, [], ◌∷◌, arith, is_text,
  Bool-cases, Option-cases,
}
use pa_sso_proxy.Result.{Result, ok, err, Result-cases}
use pa_sso_proxy.CieSession.{Redis, OidcAuthentication, Model, consume_session}
use pa_sso_proxy.CieCallback.Services.{Services, TokenRequest, TokenResponse, OidcUser, Failure}
use pa_sso_proxy.CieCallback.Pages.{Context, InternalData, authenticated, handle_idp_error}
use pa_sso_proxy.CieCallback.Exchange.{
  token_request, token_response, verified_tokens, with_tokens, user_of, with_targeted_id, add_user,
  not_empty,
}
use pa_sso_proxy.CieCallback.Endpoint.{
  consumed, update_authorization, consume_authorization, after_consumption, after_response,
  after_tokens, conclude, endpoint, translate_response, or_empty,
}
use pa_sso_proxy.CieCallback.Guards.{
  Checked, token_request-Checked, Verified, verified_tokens-Verified,
}

not_empty_lem : (attrs kept : List (String × String)) → not_empty attrs ≡ some kept → kept ≡ attrs
unfolding not_empty
not_empty_lem [] kept h = absurd (ground arith)
not_empty_lem (a ∷ attrs) kept h = ground arith

-- What with_tokens leaves of the session.
with_tokens_lem :
    (e e' : OidcAuthentication) (access_token id_token : String) (answer : TokenResponse)
    → with_tokens e (access_token, id_token) answer ≡ ok e'
    → (e'.access_token ≡ some access_token)
      × (e'.state ≡ e.state)
      × (e'.provider_configuration ≡ e.provider_configuration)
unfolding with_tokens
with_tokens_lem e e' access_token id_token answer h = elim (Option-cases answer.token_type) [
  | inl n ↦ absurd (ground arith)
  | inr (kind, h₁) ↦ elim (Option-cases answer.expires_in) [
    | inl n ↦ absurd (ground arith)
    | inr (expires, h₂) ↦ (ground arith, ground arith, ground arith)
  ]
]

module _ (r : Redis) (m : Model r) (ttl : ℕ) (sv : Services) (now : ℕ) (client_id : String)
    (context : Context) where
  -- The user is made of what the userinfo endpoint of the session's provider answers to the access
  -- token, and it is the one that is handed over, under the issuer of the query.
  pub record UserOf (e : OidcAuthentication) (d : InternalData) : Type 0 where
    pub provider : String
    pub provider_of_session : lookup "openid_provider" e.provider_configuration ≡ some provider
    pub user_info : String
    pub answered : sv.get_userinfo provider e.state e.access_token ≡ some (some user_info)
    pub attributes : List (String × String)
    pub processed : sv.process_user_attributes user_info e ≡ some attributes
    pub user : OidcUser
    pub made : sv.oidc_user (with_targeted_id attributes) ≡ some user
    pub handed : d ≡ translate_response sv (or_empty context.iss) user

  -- The provider's answer to the request of the session `e`; `with_token` is that session with the
  -- access token of the answer.
  pub record Answered (e : OidcAuthentication) (request : TokenRequest) (d : InternalData)
      : Type 0 where
    pub answer : TokenResponse
    pub answered : sv.access_token_request request ≡ some (some answer)
    pub access_token : String
    pub id_token : String
    pub verified : Verified sv e answer access_token id_token
    pub with_token : OidcAuthentication
    pub token_of_answer : with_token.access_token ≡ some access_token
    pub state_kept : with_token.state ≡ e.state
    pub provider_kept : with_token.provider_configuration ≡ e.provider_configuration
    pub user_of_provider : UserOf with_token d

  pub record Handed (st : r.State) (d : InternalData) : Type 0 where
    pub no_error : is_text context.error ≡ false
    pub browser_state : context.satosa_base ≡ true
    pub state : String
    pub of_state : context.state ≡ some state
    pub session : OidcAuthentication
    pub found : consumed (consume_session r m ttl state now st).0 ≡ some session
    pub request : TokenRequest
    pub one_request : (endpoint r m ttl sv now client_id context st).requests ≡ request ∷ []
    pub checked : Checked sv client_id context session request
    pub result : Answered (record session { code = context.code }) request d

  conclude-user :
      (e : OidcAuthentication) (answer : TokenResponse) (st : r.State)
      (user : Result Failure OidcUser) {d : InternalData}
      → (conclude r m ttl sv now context e answer st user).0 ≡ authenticated d
      → (u : OidcUser) × (user ≡ ok u) × (d ≡ translate_response sv (or_empty context.iss) u)
  unfolding conclude
  conclude-user e answer st (err f) h = absurd (ground arith)
  conclude-user e answer st (ok u) h = (u, refl, ground arith)

  user_of-UserOf :
      (e : OidcAuthentication) (user : OidcUser) {d : InternalData}
      → user_of sv e ≡ ok user
      → d ≡ translate_response sv (or_empty context.iss) user
      → UserOf e d
  unfolding user_of add_user not_empty
  user_of-UserOf e user {d = d} h handed =
      elim (Option-cases (lookup "openid_provider" e.provider_configuration)) [
        | inl n ↦ absurd (ground arith)
        | inr (op, h₁) ↦ elim (Option-cases (sv.get_userinfo op e.state e.access_token)) [
          | inl n ↦ absurd (ground arith)
          | inr (o, h₂) ↦ elim (Option-cases o) [
            | inl n ↦ absurd (ground arith)
            | inr (info, h₃) ↦ elim (Option-cases (sv.process_user_attributes info e)) [
              | inl n ↦ absurd (ground arith)
              | inr (attrs, h₄) ↦ elim (Option-cases (not_empty attrs)) [
                | inl n ↦ absurd (ground arith)
                | inr (kept, h₅) ↦
                    let same = not_empty_lem attrs kept h₅ in
                    record {
                      provider = op;
                      provider_of_session = h₁;
                      user_info = info;
                      answered = ground arith;
                      attributes = attrs;
                      processed = h₄;
                      user = user;
                      made =
                          subst (λ x. sv.oidc_user (with_targeted_id x) ≡ some user) same
                            (ground arith);
                      handed = handed;
                    }
              ]
            ]
          ]
        ]
      ]

  response-Answered :
      (e : OidcAuthentication) (request : TokenRequest) (st : r.State) {d : InternalData}
      → (after_response r m ttl sv now context e st (token_response sv request)).0 ≡ authenticated d
      → Answered e request d
  unfolding after_response token_response after_tokens
  response-Answered e request st {d = d} h = elim (Option-cases (sv.access_token_request request)) [
    | inl n ↦ absurd (ground arith)
    | inr (o, h₁) ↦ elim (Option-cases o) [
      | inl n ↦ absurd (ground arith)
      | inr (answer, h₂) ↦ elim (Result-cases (verified_tokens sv e answer)) [
        | inr (f, n) ↦ absurd (ground arith)
        | inl (tokens, h₃) ↦ elim (Result-cases (with_tokens e tokens answer)) [
          | inr (f, n) ↦ absurd (ground arith)
          | inl (e', h₄) ↦
              let (user, gathered, handed) =
                conclude-user e' answer (update_authorization r m ttl sv now e' st) (user_of sv e')
                  {d = d} (ground arith) in
              let kept = with_tokens_lem e e' tokens.0 tokens.1 answer h₄ in
              record {
                answer = answer;
                answered = ground arith;
                access_token = tokens.0;
                id_token = tokens.1;
                verified = verified_tokens-Verified sv e answer h₃;
                with_token = e';
                token_of_answer = kept.0;
                state_kept = kept.1;
                provider_kept = kept.2;
                user_of_provider = user_of-UserOf e' user gathered handed;
              }
        ]
      ]
    ]
  ]

  -- A user is handed over only if the provider reported no error, the browser has SATOSA's state,
  -- and the session of the query's state was stored, not used before, for the provider that
  -- answers and for this client; exactly one code was exchanged, the one of the query with the
  -- verifier of the session; each token of the answer has a signature that verifies under the key it
  -- names among the keys of the session's provider, and the hash binds the two; and the user is made
  -- of what the userinfo endpoint of that provider answers to the access token.
  pub authenticated-Handed :
      (st : r.State) (d : InternalData)
      → (endpoint r m ttl sv now client_id context st).reply ≡ authenticated d
      → Handed st d
  unfolding endpoint after_consumption handle_idp_error consume_authorization
  authenticated-Handed st d h = elim (Bool-cases (is_text context.error)) [
    | inl t ↦ absurd (ground arith)
    | inr f ↦ elim (Bool-cases context.satosa_base) [
      | inr lost ↦ absurd (ground arith)
      | inl b ↦ elim (Option-cases context.state) [
        | inl n ↦ absurd (ground arith)
        | inr (s, of_state) ↦
            let cs = consume_session r m ttl s now st in
            elim (Option-cases (consumed cs.0)) [
              | inl gone ↦ absurd (ground arith)
              | inr (e, found) ↦ elim (Result-cases (token_request sv client_id context e)) [
                | inr (x, n) ↦ absurd (ground arith)
                | inl (request, asked) ↦ record {
                  no_error = f;
                  browser_state = b;
                  state = s;
                  of_state = of_state;
                  session = e;
                  found = found;
                  request = request;
                  one_request = ground arith;
                  checked = token_request-Checked sv client_id context e asked;
                  result =
                      response-Answered (record e { code = context.code }) request cs.1
                        (ground arith);
                }
              ]
            ]
      ]
    ]
  ]
