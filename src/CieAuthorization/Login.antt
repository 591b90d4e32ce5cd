-- ===== src/CieAuthorization/Login.antt =====
-- The whole CIE login: the call of
-- satosa/plugins/cieoidc-endpoints/authorization_endpoint.py and the callback that ends it.
use pa_sso_proxy.Prelude.{
  ℕ, ◌+◌, ◌≤◌, ◌<◌, String, ◌≡◌, ◌≢◌, sym, subst, true, false, none, some, [], ◌∷◌, is_text,
}
use pa_sso_proxy.Result.{ok}
use pa_sso_proxy.CieSession.{Redis, RedisLaws, Model, ModelLaws, OidcAuthentication, used}
use pa_sso_proxy.CieCallback.Services.{Services, TokenRequest, OidcUser}
use pa_sso_proxy.CieCallback.Texts.{check_provider}
use pa_sso_proxy.CieCallback.Pages.{Context, authenticated}
use pa_sso_proxy.CieCallback.Endpoint.{translate_response, endpoint as callback}
use pa_sso_proxy.CieAuthorization.Request.{RelyingParty, Draws, Tools}
use pa_sso_proxy.CieAuthorization.Endpoint.{
  TrustChains, TrustChain, Federation, get_trust_chain, endpoint,
}
use pa_sso_proxy.CieAuthorization.Hidden.{endpoint-Begun}
use pa_sso_proxy.CieAuthorization.Completes.{Loads, Accepts, stored_session, callback_hands_over}

module _ (r : Redis) (m : Model r) (ttl : ℕ) (rl : RedisLaws r) (ml : ModelLaws r m) (tools : Tools)
    (rp : RelyingParty) (draws : Draws) (fed : Federation) (sv : Services) where
  -- With the laws of Redis and of the model: a login that has sent the browser to the provider, with
  -- an id and a state that are not empty, a state whose sessions the model accepts and a state that has no
  -- marker, completes: a callback within the session's time, without an error, from a browser with
  -- SATOSA's state, with the login's state and an issuer that matches the subject of the provider's trust chain, hands
  -- over the user, if the provider answers the exchange of the query's code and the verifier that
  -- was drawn, with tokens that verify and a user. It exchanges exactly that code and that verifier.
  pub login_completes :
      (provider : String) (chains : TrustChains) (st : r.State) (url : String)
      (begun : (endpoint r m ttl fed tools rp draws provider chains st).reply ≡ ok url)
      → ((e : OidcAuthentication) → e.state ≡ draws.state → fed.is_valid e ≡ true)
      → draws.id ≢ ""
      → draws.state ≢ ""
      → (t : ℕ) → r.get (used draws.state) t st ≡ none
      → draws.now ≤ t
      → t < draws.now + ttl
      → Loads tools sv (tools.code_verifier rp.method rp.length draws)
      → (context : Context) → is_text context.error ≡ false
      → context.satosa_base ≡ true
      → context.state ≡ some draws.state
      → (iss : String) → context.iss ≡ some iss
      → ((chain : TrustChain)
          → (get_trust_chain fed provider chains).0 ≡ ok chain
          → check_provider chain.subject iss ≡ true)
      → (user : OidcUser)
      → Accepts sv context.code (tools.code_verifier rp.method rp.length draws) user
      → let started = endpoint r m ttl fed tools rp draws provider chains st in
        let outcome = callback r m ttl sv t rp.client_id context started.store in
        (outcome.reply ≡ authenticated (translate_response sv iss user))
        × ((q : TokenRequest) × (outcome.requests ≡ q ∷ [])
            × (q.code ≡ context.code)
            × (q.code_verifier ≡ some (tools.code_verifier rp.method rp.length draws))
            × (q.state ≡ draws.state))
  login_completes provider chains st url begun valid named stated t unmarked from until loads
        context no_error base of_state iss given matches user accepts =
      let b = endpoint-Begun tools rp draws r m ttl fed provider chains st url begun in
      let after = (endpoint r m ttl fed tools rp draws provider chains st).store in
      callback_hands_over r m ttl rl ml tools rp draws fed sv context provider chains st url after b
        t iss user
        (stored_session r m ttl rl ml tools rp draws fed sv context provider chains st url after b t
          (valid b.session b.state_of_session) named stated unmarked from until)
        loads no_error base of_state given
        (subst (λ p. check_provider p iss ≡ true) (sym b.provider_id_of_session)
          (matches b.chain b.chain_found))
        accepts
