-- ===== src/CieAuthorization/Completes.antt =====
-- A login from satosa/plugins/cieoidc-endpoints/authorization_endpoint.py to the callback of
-- authorization_callback_endpoint.py, over the sessions of satosa/plugins/redis_storage.py.
use pa_sso_proxy.Prelude.{
  inl, inr, ℕ, ◌+◌, ◌≤◌, ◌<◌, String, ◌≡◌, ◌≢◌, refl, sym, ◌∙◌, subst, true, false, Option, none,
  some, List, [], ◌∷◌, lookup, arith, is_text, eq_iff,
}
use pa_sso_proxy.Result.{ok}
use pa_sso_proxy.CieSession.{
  Redis, RedisLaws, Model, ModelLaws, OidcAuthentication, add_session, used, consume_session,
}
use pa_sso_proxy.CieSession.Added.{consume-add}
use pa_sso_proxy.CieCallback.Services.{Services, TokenRequest, TokenResponse, OidcUser}
use pa_sso_proxy.CieCallback.Texts.{check_provider}
use pa_sso_proxy.CieCallback.Pages.{Context, authenticated}
use pa_sso_proxy.CieCallback.Exchange.{
  token_request, request_of, loaded, token_response, verified_tokens, with_tokens, user_of,
  add_user, not_empty,
}
use pa_sso_proxy.CieCallback.Endpoint.{
  consumed, consume_authorization, after_consumption, after_response, after_tokens, conclude,
  translate_response, or_empty, endpoint as callback,
}
use pa_sso_proxy.CieAuthorization.Request.{text, Dict, RelyingParty, Draws, Tools}
use pa_sso_proxy.CieAuthorization.Endpoint.{TrustChains, Federation, insert}
use pa_sso_proxy.CieAuthorization.Hidden.{Begun}

-- json.loads reads the redirect URI and the verifier of a dict from what json.dumps has written.
abbrev pub Loads : Tools → Services → String → Type 0
Loads tools sv verifier =
    (d : Dict) (uri : String)
    → lookup "redirect_uri" d ≡ some (text uri)
    → lookup "code_verifier" d ≡ some (text verifier)
    → sv.loads (tools.dumps d)
      ≡ some (record { redirect_uri = some uri; code_verifier = some verifier })

-- A provider that answers the exchange of one code with one verifier, with tokens that verify, and
-- gives the user for the access token.
pub record Accepts (sv : Services) (code : Option String) (verifier : String) (user : OidcUser)
    : Type 0 where
  pub answer : TokenResponse
  pub answers :
      (q : TokenRequest)
      → q.code ≡ code
      → q.code_verifier ≡ some verifier
      → sv.access_token_request q ≡ some (some answer)
  pub access_token : String
  pub has_access : answer.access_token ≡ some access_token
  pub id_token : String
  pub has_id : answer.id_token ≡ some id_token
  pub token_type : String
  pub has_type : answer.token_type ≡ some token_type
  pub expires_in : ℕ
  pub has_expiry : answer.expires_in ≡ some expires_in
  pub jwks : String
  pub has_jwks : (provider : String) → sv.get_jwks provider ≡ some jwks
  pub access_key : String
  pub has_access_key : sv.get_jwk_from_jwt access_token jwks ≡ some (some access_key)
  pub access_verifies : sv.verify_jws access_token access_key ≡ true
  pub id_key : String
  pub has_id_key : sv.get_jwk_from_jwt id_token jwks ≡ some (some id_key)
  pub id_verifies : sv.verify_jws id_token id_key ≡ true
  pub decoded : String
  pub unpadded : sv.unpad_jwt_payload id_token ≡ some decoded
  pub hash_matches : sv.verify_at_hash decoded access_token ≡ true
  pub info : String
  pub has_info :
      (provider state : String)
      → sv.get_userinfo provider state (some access_token) ≡ some (some info)
  pub attr : String × String
  pub attrs : List (String × String)
  pub processed : (e : OidcAuthentication) → sv.process_user_attributes info e ≡ some (attr ∷ attrs)
  pub is_user : add_user sv (attr ∷ attrs) ≡ some user

module _ (sv : Services) (code : Option String) (verifier : String) (user : OidcUser)
    (a : Accepts sv code verifier user) where
  tokens_verify :
      (e : OidcAuthentication) (provider : String)
      → lookup "openid_provider" e.provider_configuration ≡ some provider
      → verified_tokens sv e a.answer ≡ ok (a.access_token, a.id_token)
  unfolding verified_tokens
  tokens_verify e provider h = ground (
    arith,
    a.has_access,
    a.has_id,
    a.has_jwks provider,
    a.has_access_key,
    a.has_id_key,
    a.access_verifies,
    a.id_verifies,
    a.unpadded,
    a.hash_matches,
  )

  user_known :
      (e : OidcAuthentication) (provider : String)
      → lookup "openid_provider" e.provider_configuration ≡ some provider
      → e.access_token ≡ some a.access_token
      → user_of sv e ≡ ok user
  unfolding user_of not_empty
  user_known e provider h h' = ground (arith, a.has_info provider e.state, a.processed e, a.is_user)

  -- The exchange for a session of the provider ends with the user.
  response_hands_over :
      (r : Redis) (m : Model r) (ttl now : ℕ) (context : Context) (e : OidcAuthentication)
      (st : r.State) (provider : String)
      → lookup "openid_provider" e.provider_configuration ≡ some provider
      → (after_response r m ttl sv now context e st (ok a.answer)).0
        ≡ authenticated (translate_response sv (or_empty context.iss) user)
  unfolding after_response after_tokens conclude with_tokens
  response_hands_over r m ttl now context e st provider h =
      let e' : OidcAuthentication = record e {
        access_token = some a.access_token;
        id_token = some a.id_token;
        scope = a.answer.scope;
        token_type = some a.token_type;
        expires_in = some a.expires_in;
      } in
      ground
        (arith, tokens_verify e provider h, a.has_type, a.has_expiry, user_known e' provider h refl)

module _ (r : Redis) (m : Model r) (ttl : ℕ) (rl : RedisLaws r) (ml : ModelLaws r m) (tools : Tools)
    (rp : RelyingParty) (draws : Draws) (fed : Federation) (sv : Services) (context : Context)
    (provider : String) (chains : TrustChains) (st : r.State) (url : String) (after : r.State)
    (b : Begun tools rp draws r m ttl fed provider chains st url after) where
  request_for :
      (iss : String)
      → Loads tools sv (tools.code_verifier rp.method rp.length draws)
      → context.iss ≡ some iss
      → check_provider b.session.provider_id iss ≡ true
      → (q : TokenRequest) × (token_request sv rp.client_id context
            (record b.session { completed = true })
          ≡ ok q)
        × (q.code ≡ context.code)
        × (q.code_verifier ≡ some (tools.code_verifier rp.method rp.length draws))
        × (q.state ≡ draws.state)
  unfolding token_request request_of loaded
  request_for iss loads from matches = (
    record {
      redirect_uri = b.redirect_uri;
      state = b.session.state;
      code = context.code;
      client_id = b.session.client_id;
      token_endpoint_url = sv.token_endpoint b.json;
      code_verifier = some (tools.code_verifier rp.method rp.length draws);
    },
    ground (
      arith,
      from,
      matches,
      b.client_of_session,
      eq_iff b.session.client_id rp.client_id,
      b.data_of_session,
      loads b.stored b.redirect_uri b.redirect_uri_stored b.verifier_stored,
      b.provider_of_session,
    ),
    refl,
    refl,
    b.state_of_session,
  )

  pub stored_session :
      (t : ℕ)
      → fed.is_valid b.session ≡ true
      → draws.id ≢ ""
      → draws.state ≢ ""
      → r.get (used draws.state) t st ≡ none
      → draws.now ≤ t
      → t < draws.now + ttl
      → (consume_session r m ttl draws.state t after).0
        ≡ ok (some (record b.session { completed = true }))
  unfolding insert
  stored_session t valid named stated unmarked from until =
      let e = b.session in
      let inserted : after ≡ add_session r m ttl e draws.now st = elim b.inserted [
        | inl (_, same) ↦ same
        | inr (refused, _) ↦ absurd (ground arith)
      ] in
      subst
        (λ x.
          (consume_session r m ttl draws.state t x).0 ≡ ok (some (record e { completed = true })))
        (sym inserted)
        (subst
          (λ s.
            (consume_session r m ttl s t (add_session r m ttl e draws.now st)).0
            ≡ ok (some (record e { completed = true })))
          b.state_of_session
          (consume-add r m ttl rl ml e draws.now t st from until
            (λ h. named (sym b.id_of_session ∙ h)) (λ h. stated (sym b.state_of_session ∙ h))
            b.session_unused
            (subst (λ s. r.get (used s) t st ≡ none) (sym b.state_of_session) unmarked)))

  pub callback_hands_over :
      (t : ℕ) (iss : String) (user : OidcUser)
      → (consume_session r m ttl draws.state t after).0
        ≡ ok (some (record b.session { completed = true }))
      → Loads tools sv (tools.code_verifier rp.method rp.length draws)
      → is_text context.error ≡ false
      → context.satosa_base ≡ true
      → context.state ≡ some draws.state
      → context.iss ≡ some iss
      → check_provider b.session.provider_id iss ≡ true
      → Accepts sv context.code (tools.code_verifier rp.method rp.length draws) user
      → ((callback r m ttl sv t rp.client_id context after).reply
          ≡ authenticated (translate_response sv iss user))
        × ((q : TokenRequest) × ((callback r m ttl sv t rp.client_id context after).requests
              ≡ q ∷ [])
            × (q.code ≡ context.code)
            × (q.code_verifier ≡ some (tools.code_verifier rp.method rp.length draws))
            × (q.state ≡ draws.state))
  unfolding callback consume_authorization after_consumption consumed token_response or_empty
  callback_hands_over t iss user found loads no_error base of_state from matches a =
      let (q, asked, code, verifier, state) = request_for iss loads from matches in
      let st' = (consume_session r m ttl draws.state t after).1 in
      let e : OidcAuthentication = record b.session { completed = true; code = context.code } in
      let done =
        response_hands_over sv context.code (tools.code_verifier rp.method rp.length draws) user a r
          m ttl t context e st' b.json b.provider_of_session in
      (
        ground
            (arith, no_error, base, of_state, found, asked, a.answers q code verifier, done, from),
        (q, ground (arith, no_error, base, of_state, found, asked), code, verifier, state),
      )
