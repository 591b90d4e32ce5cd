-- ===== src/CieAuthorization/Hidden.antt =====
-- What satosa/plugins/cieoidc-endpoints/authorization_endpoint.py stores of a login and what it
-- sends of it to the browser.
use pa_sso_proxy.Prelude.{
  ◌⊎◌, true, ℕ, ◌+◌, String, ◌≡◌, refl, ap, sym, ◌∙◌, subst, inl, inr, false, ◌||◌, none, some, [],
  ◌∷◌, lookup, str_eq, arith, Option-cases, Bool-cases, ◌==◌,
}
use pa_sso_proxy.Result.{Result, ok, Result-cases}
use pa_sso_proxy.CieSession.{
  add_session, Redis, Model, OidcAuthentication, already_used, has_text, has_items,
}
use pa_sso_proxy.CieCallback.Services.{Failure}
use pa_sso_proxy.CieAuthorization.Request.{
  text, number, Dict, RelyingParty, Draws, Tools, first_item, authorization_data, pkce_generation,
  create_jws, generate_uri, request_payload, without, pick, audience,
}
use pa_sso_proxy.CieAuthorization.Url.{redirect_url}
use pa_sso_proxy.CieAuthorization.Endpoint.{
  TrustChain, TrustChains, Federation, get_trust_chain, prepared, authorization_entity, sent,
  insert, after_chain, endpoint, issuer_or,
}

module _ (tools : Tools) (rp : RelyingParty) (draws : Draws) where
  abbrev verifier : String
  verifier = tools.code_verifier rp.method rp.length draws

  -- authz_data at the time when the session is stored.
  unfoldable pub stored_data : String → String → String → String → Dict
  stored_data endpoint aud redirect_uri response_type =
      ("iss", text rp.client_id)
      ∷ ("scope", text rp.scope)
      ∷ ("redirect_uri", text redirect_uri)
      ∷ ("response_type", text response_type)
      ∷ ("nonce", text draws.nonce)
      ∷ ("state", text draws.state)
      ∷ ("client_id", text rp.client_id)
      ∷ ("endpoint", text endpoint)
      ∷ ("iat", number draws.now)
      ∷ ("exp", number (draws.now + 60))
      ∷ ("jti", text draws.jti)
      ∷ ("aud", text aud)
      ∷ ("claims", text rp.claim)
      ∷ ("acr_values", text "https://www.spid.gov.it/SpidL2")
      ∷ ("prompt", text rp.prompt)
      ∷ ("code_verifier", text verifier)
      ∷ ("code_challenge", text (tools.code_challenge rp.method verifier))
      ∷ ("code_challenge_method", text rp.method)
      ∷ []

  pub prepared_lem :
      (fed : Federation) (chain : TrustChain) {e : OidcAuthentication} {d : Dict}
      → prepared fed tools rp draws chain ≡ ok (e, d)
      → (ep : String) × (aud : String) × (uri : String) × (rt : String) × (e
          ≡ authorization_entity tools rp draws chain ep d)
        × (d ≡ stored_data ep aud uri rt)
  unfolding prepared authorization_data pkce_generation stored_data
  prepared_lem fed chain {e = e} {d = d} h =
      elim (Option-cases (lookup "openid_provider" chain.metadata)) [
        | inl n ↦ absurd (ground arith)
        | inr (json, h₁) ↦
            elim (Option-cases ((fed.provider_metadata json).authorization_endpoint)) [
              | inl n ↦ absurd (ground arith)
              | inr (ep, h₂) ↦ elim (Result-cases (first_item rp.response_types)) [
                | inr (f, n) ↦ absurd (ground arith)
                | inl (rt, h₃) ↦ elim (Result-cases (first_item rp.redirect_uris)) [
                  | inr (f, n) ↦ absurd (ground arith)
                  | inl (uri, h₄) ↦ elim (Bool-cases (rp.length == 0 || str_eq rp.method "")) [
                    | inl n ↦ absurd (ground arith)
                    | inr h₅ ↦
                        let issuer = issuer_or (fed.provider_metadata json).issuer ep in
                        (ep, audience issuer ep, uri, rt, ground arith, ground arith)
                  ]
                ]
              ]
            ]
      ]

  prepared_provider :
      (fed : Federation) (chain : TrustChain) {p : OidcAuthentication × Dict}
      → prepared fed tools rp draws chain ≡ ok p
      → (json : String) × (lookup "openid_provider" chain.metadata ≡ some json)
  unfolding prepared
  prepared_provider fed chain h = elim (Option-cases (lookup "openid_provider" chain.metadata)) [
    | inl n ↦ absurd (ground arith)
    | inr found ↦ found
  ]

  unfoldable pub sent_query : String → Dict → Dict
  sent_query rt payload =
      ("client_id", text rp.client_id)
      ∷ ("scope", text rp.scope)
      ∷ ("response_type", text rt)
      ∷ ("code_challenge", text (tools.code_challenge rp.method verifier))
      ∷ ("code_challenge_method", text rp.method)
      ∷ ("acr_values", text "https://www.spid.gov.it/SpidL2")
      ∷ ("request", text (tools.create_jws payload))
      ∷ []

  pub sent_lem :
      (ep aud uri rt : String)
      → sent tools ep (stored_data ep aud uri rt)
        ≡ ok (
            redirect_url ep (
              tools.redirect_uri_path
                (sent_query rt (request_payload (stored_data ep aud uri rt)))))
  unfolding sent generate_uri create_jws pick stored_data sent_query
  sent_lem ep aud uri rt = refl

  -- A login that has begun: the session that is stored, the query that the browser carries and the
  -- payload of the signed request object in it.
  pub record Begun (r : Redis) (m : Model r) (ttl : ℕ) (fed : Federation) (provider : String)
      (chains : TrustChains) (st : r.State) (url : String) (after : r.State) : Type 0 where
    pub session : OidcAuthentication
    pub stored : Dict
    pub query : Dict
    pub payload : Dict
    pub inserted :
        (fed.is_valid session ≡ true) × (after ≡ add_session r m ttl session draws.now st)
        ⊎ (fed.is_valid session ≡ false) × (after ≡ st)
    pub data_of_session : session.authz_data ≡ some (tools.dumps stored)
    pub state_of_session : session.state ≡ draws.state
    pub id_of_session : session.id ≡ draws.id
    pub client_of_session : session.client_id ≡ rp.client_id
    pub chain : TrustChain
    pub chain_found : (get_trust_chain fed provider chains).0 ≡ ok chain
    pub provider_id_of_session : session.provider_id ≡ chain.subject
    pub session_unused : already_used session ≡ false
    pub json : String
    pub provider_of_session : lookup "openid_provider" session.provider_configuration ≡ some json
    pub redirect_uri : String
    pub redirect_uri_stored : lookup "redirect_uri" stored ≡ some (text redirect_uri)
    pub verifier_stored : lookup "code_verifier" stored ≡ some (text verifier)
    pub sent_to : url ≡ redirect_url session.endpoint (tools.redirect_uri_path query)
    pub verifier_not_sent : lookup "code_verifier" query ≡ none
    pub challenge_sent :
        lookup "code_challenge" query ≡ some (text (tools.code_challenge rp.method verifier))
    pub request_sent : lookup "request" query ≡ some (text (tools.create_jws payload))
    pub verifier_not_signed : lookup "code_verifier" payload ≡ none
    pub challenge_signed :
        lookup "code_challenge" payload ≡ some (text (tools.code_challenge rp.method verifier))
    pub state_signed : lookup "state" payload ≡ some (text draws.state)
    pub expiry_signed : lookup "exp" payload ≡ some (number (draws.now + 60))

  ok_injective : (a b : String) (res : Result Failure String) → res ≡ ok a → res ≡ ok b → a ≡ b
  ok_injective a b res h h' = ground arith

  insert_lem :
      (r : Redis) (m : Model r) (ttl : ℕ) (fed : Federation) (e : OidcAuthentication) (st : r.State)
      → let after = insert r m ttl fed tools rp draws e st in
        (fed.is_valid e ≡ true) × (after ≡ add_session r m ttl e draws.now st)
        ⊎ (fed.is_valid e ≡ false) × (after ≡ st)
  unfolding insert
  insert_lem r m ttl fed e st = elim (Bool-cases (fed.is_valid e)) [
    | inl valid ↦ inl (valid, rw (insert, valid) refl)
    | inr refused ↦ inr (refused, rw (insert, refused) refl)
  ]

  Begun-prepared :
      (r : Redis) (m : Model r) (ttl : ℕ) (fed : Federation) (provider : String)
      (chains : TrustChains) (chain : TrustChain) (st : r.State) (e : OidcAuthentication) (d : Dict)
      (url : String)
      → (get_trust_chain fed provider chains).0 ≡ ok chain
      → prepared fed tools rp draws chain ≡ ok (e, d)
      → sent tools e.endpoint d ≡ ok url
      → Begun r m ttl fed provider chains st url (insert r m ttl fed tools rp draws e st)
  unfolding stored_data sent_query request_payload without authorization_entity already_used
      has_text has_items
  Begun-prepared r m ttl fed provider chains chain st e d url g h s =
      let (ep, aud, uri, rt, same_e, same_d) = prepared_lem fed chain {e = e} {d = d} h in
      let full = stored_data ep aud uri rt in
      let known = prepared_provider fed chain h in
      let same_ep : e.endpoint ≡ ep = ap (λ x. x.endpoint) same_e in
      record {
        session = e;
        stored = full;
        query = sent_query rt (request_payload full);
        payload = request_payload full;
        inserted = insert_lem r m ttl fed e st;
        data_of_session = ap (λ x. x.authz_data) same_e ∙ ap (λ x. some (tools.dumps x)) same_d;
        state_of_session = ap (λ x. x.state) same_e;
        id_of_session = ap (λ x. x.id) same_e;
        client_of_session = ap (λ x. x.client_id) same_e;
        session_unused = ap already_used same_e;
        chain = chain;
        chain_found = g;
        provider_id_of_session = ap (λ x. x.provider_id) same_e;
        json = known.0;
        provider_of_session =
            ap (λ x. lookup "openid_provider" x.provider_configuration) same_e ∙ known.1;
        redirect_uri = uri;
        redirect_uri_stored = refl;
        verifier_stored = refl;
        sent_to =
            ok_injective url
              (redirect_url ep (tools.redirect_uri_path (sent_query rt (request_payload full))))
              (sent tools e.endpoint d) s
              (ap (λ x. sent tools x d) same_ep
                ∙ (ap (sent tools ep) same_d ∙ sent_lem ep aud uri rt))
            ∙ ap
                (λ x.
                  redirect_url x (tools.redirect_uri_path (sent_query rt (request_payload full))))
                (sym same_ep);
        verifier_not_sent = refl;
        challenge_sent = refl;
        request_sent = refl;
        verifier_not_signed = refl;
        challenge_signed = refl;
        state_signed = refl;
        expiry_signed = refl;
      }

  -- A call that sends the browser on adds one session, of this login and not used yet, with the code
  -- verifier in its data, by add_session where the model takes the session, and leaves the store as
  -- it is where the model refuses it. It sends the provider the verifier's challenge, in the query
  -- and in the signed request object, but the verifier itself in neither; the request object has the
  -- state of that session and ends after a minute.
  pub endpoint-Begun :
      (r : Redis) (m : Model r) (ttl : ℕ) (fed : Federation) (provider : String)
      (chains : TrustChains) (st : r.State) (url : String)
      → (endpoint r m ttl fed tools rp draws provider chains st).reply ≡ ok url
      → Begun r m ttl fed provider chains st url
          (endpoint r m ttl fed tools rp draws provider chains st).store
  unfolding endpoint after_chain
  endpoint-Begun r m ttl fed provider chains st url h =
      elim (Result-cases (get_trust_chain fed provider chains).0) [
        | inr (f, n) ↦ absurd (ground arith)
        | inl (chain, h₁) ↦ elim (Result-cases (prepared fed tools rp draws chain)) [
          | inr (f, n) ↦ absurd (ground arith)
          | inl ((e, d), h₂) ↦
              subst (Begun r m ttl fed provider chains st url) (ground arith)
                (Begun-prepared r m ttl fed provider chains chain st e d url h₁ h₂ (ground arith))
        ]
      ]
