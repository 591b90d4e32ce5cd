-- ===== src/CieCallback/Refusals.antt =====
-- The callbacks that the endpoint of
-- satosa/plugins/cieoidc-endpoints/authorization_callback_endpoint.py redirects to the client.
use pa_sso_proxy.Prelude.{
  ℕ, String, ◌≡◌, ◌≢◌, ◌⊎◌, refl, inl, inr, Bool, true, false, Option, none, some, List, [], ◌∷◌,
  ◌++◌, All, arith, is_text, eq_iff, lookup, Bool-cases, Option-cases,
}
use pa_sso_proxy.Result.{Result, ok, err, Result-cases}
use pa_sso_proxy.CieSession.{Redis, Model, OidcAuthentication}
use pa_sso_proxy.CieCallback.Services.{Services, Failure, TokenResponse, OidcUser}
use pa_sso_proxy.CieCallback.Texts.{error_type, message_key, first_chars}
use pa_sso_proxy.CieCallback.Pages.{
  StateValue, no_request, empty_request, oidc_request, Context, Reply, client_redirect,
  client_request, handle_idp_error, handle_lost_state,
}
use pa_sso_proxy.CieCallback.Exchange.{
  token_request, token_response, verified_tokens, with_tokens, user_of,
}
use pa_sso_proxy.CieCallback.Endpoint.{
  endpoint, after_consumption, after_response, after_tokens, conclude, consume_authorization,
  or_empty,
}

-- `params` is the request of the first value of the state that has one which is not empty.
abbrev pub FirstRequest : List StateValue → List (String × String) → Type 0
FirstRequest values params =
    (before : List StateValue) × (after : List StateValue) × (values
      ≡ before ++ oidc_request params ∷ after)
    × All (λ v. (v ≡ no_request) ⊎ (v ≡ empty_request)) before

client_request-FirstRequest :
    (values : List StateValue) (key uri : String)
    → lookup key (client_request values) ≡ some uri
    → FirstRequest values (client_request values)
unfolding client_request
client_request-FirstRequest [] key uri h = absurd (ground arith)
client_request-FirstRequest (no_request ∷ vs) key uri h =
    let (before, after, e, none_before) = client_request-FirstRequest vs key uri h in
    (no_request ∷ before, after, ground arith, (inl refl, none_before))
client_request-FirstRequest (empty_request ∷ vs) key uri h =
    let (before, after, e, none_before) = client_request-FirstRequest vs key uri h in
    (empty_request ∷ before, after, ground arith, (inr refl, none_before))
client_request-FirstRequest (oidc_request params ∷ vs) key uri h = ([], vs, refl, tt)

abbrev is_redirect : Reply → Bool
is_redirect (client_redirect uri message state) = true
is_redirect reply = false

module _ (r : Redis) (m : Model r) (ttl : ℕ) (sv : Services) (now : ℕ) (client_id : String)
    (context : Context) where
  conclude-is_redirect :
      (e : OidcAuthentication) (answer : TokenResponse) (st : r.State) (u : Result Failure OidcUser)
      → is_redirect (conclude r m ttl sv now context e answer st u).0 ≡ false
  unfolding conclude
  conclude-is_redirect e answer st (err f) = refl
  conclude-is_redirect e answer st (ok user) = refl

  tokens-is_redirect :
      (answer : TokenResponse) (st : r.State) (e : Result Failure OidcAuthentication)
      → is_redirect (after_tokens r m ttl sv now context answer st e).0 ≡ false
  unfolding after_tokens
  tokens-is_redirect answer st (err f) = refl
  tokens-is_redirect answer st (ok e) = conclude-is_redirect e answer _ (user_of sv e)

  response-is_redirect :
      (e : OidcAuthentication) (st : r.State) (answer : Result Failure TokenResponse)
      → is_redirect (after_response r m ttl sv now context e st answer).0 ≡ false
  unfolding after_response
  response-is_redirect e st (err f) = refl
  response-is_redirect e st (ok answer) = elim (Result-cases (verified_tokens sv e answer)) [
    | inl (tokens, h) ↦
        rw (after_response, h) (tokens-is_redirect answer st (with_tokens e tokens answer))
    | inr (f, h) ↦ rw (after_response, h) refl
  ]

  consumption-is_redirect :
      (e : Option OidcAuthentication) (st : r.State)
      → is_redirect (after_consumption r m ttl sv now client_id context (e, st)).reply ≡ false
  unfolding after_consumption
  consumption-is_redirect none st = refl
  consumption-is_redirect (some e) st = elim (Result-cases (token_request sv client_id context e)) [
    | inr (f, h) ↦ rw (after_consumption, h) refl
    | inl (request, h) ↦
        rw (after_consumption, h)
          (response-is_redirect (record e { code = context.code }) st (token_response sv request))
  ]

  -- A callback is redirected to a client only if the provider reported an error; then no session is
  -- consumed or changed and no code is exchanged. The target is the redirect URI of the first value
  -- of the browser's state whose request is not empty, the state that is sent along is that
  -- request's, the message is the one for the error, and the access log gets one entry, for that
  -- request's client.
  pub client_redirect-FirstRequest :
      (st : r.State) (uri message : String) (state : Option String)
      → (endpoint r m ttl sv now client_id context st).reply ≡ client_redirect uri message state
      → (error : String) × (context.error ≡ some error)
        × (error ≢ "")
        × ((endpoint r m ttl sv now client_id context st).store ≡ st)
        × ((endpoint r m ttl sv now client_id context st).requests ≡ [])
        × ((params : List (String × String)) × FirstRequest context.values params
            × (lookup "redirect_uri" params ≡ some uri)
            × (lookup "state" params ≡ state)
            × (message ≡ message_key (error_type error))
            × ((endpoint r m ttl sv now client_id context st).accesses
                ≡ record {
                  client_id = lookup "client_id" params;
                  error_code = some (first_chars 64 error);
                }
                  ∷ []))
  unfolding endpoint handle_idp_error handle_lost_state or_empty
  client_redirect-FirstRequest st uri message state h = elim (Option-cases context.error) [
    | inl no_error ↦ absurd (ground (arith, other_reply))
    | inr (error, e) ↦ elim (Bool-cases (is_text context.error)) [
      | inr empty ↦ absurd (ground (arith, other_reply))
      | inl reported ↦
          let params = client_request context.values in
          let found : lookup "redirect_uri" params ≡ some uri = ground arith in
          (
            error,
            e,
            (λ same. ground (arith, eq_iff error "")),
            ground arith,
            ground arith,
            (
              params,
              client_request-FirstRequest context.values "redirect_uri" uri found,
              found,
              ground arith,
              ground arith,
              ground arith,
            ),
          )
    ]
  ]
    where
      other_reply :
          is_redirect
            (after_consumption r m ttl sv now client_id context
              (consume_authorization r m ttl sv now context.state st)).reply
          ≡ false
      other_reply =
          consumption-is_redirect (consume_authorization r m ttl sv now context.state st).0
            (consume_authorization r m ttl sv now context.state st).1
