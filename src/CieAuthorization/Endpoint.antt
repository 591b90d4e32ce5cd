-- ===== src/CieAuthorization/Endpoint.antt =====
-- The endpoint of satosa/plugins/cieoidc-endpoints/authorization_endpoint.py. A call takes the
-- cached trust chains and the store of the sessions, and gives both back with its reply.
use pa_sso_proxy.Prelude.{
  ℕ, String, Bool, false, Option, none, some, List, [], ◌∷◌, ◌++◌, lookup, if◌then◌else◌,
}
use pa_sso_proxy.Result.{Result, ok, err, ◌>>=◌}
use pa_sso_proxy.CieSession.{Redis, Model, OidcAuthentication, add_session}
use pa_sso_proxy.CieCallback.Services.{Failure, unhandled}
use pa_sso_proxy.CieCallback.Exchange.{or_raise}
use pa_sso_proxy.CieAuthorization.Request.{
  text, Dict, RelyingParty, Draws, Tools, authorization_data, pkce_generation, create_jws,
  generate_uri,
}
use pa_sso_proxy.CieAuthorization.Url.{redirect_url}

-- `subject_configuration.payload["metadata"]` holds the provider's metadata by entity type.
pub record TrustChain : Type 0 where
  pub subject : String
  pub metadata : List (String × String)

-- What the endpoint reads of the metadata of an OpenID provider.
pub record ProviderMetadata : Type 0 where
  pub authorization_endpoint : Option String
  pub issuer : Option String

-- `build` fetches and validates a chain up to the trust anchor, or raises; `valid` is what the
-- model says of the session.
pub record Federation : Type 0 where
  pub build : String → Option TrustChain
  pub provider_metadata : String → ProviderMetadata
  pub is_valid : OidcAuthentication → Bool

abbrev pub TrustChains : Type 0
TrustChains = List (String × TrustChain)

unfoldable pub get_trust_chain :
    Federation → String → TrustChains → Result Failure TrustChain × TrustChains
get_trust_chain fed provider chains = elim (lookup provider chains) [
  | some chain ↦ (ok chain, chains)
  | none ↦ elim (fed.build provider) [
    -- the ValueError for a registry that is unreachable
    | none ↦ (err unhandled, chains)
    | some chain ↦ (ok chain, chains ++ (provider, chain) ∷ [])
  ]
]

-- The session that is stored; what the dict leaves out has the model's default.
unfoldable pub authorization_entity :
    Tools → RelyingParty → Draws → TrustChain → String → Dict → OidcAuthentication
authorization_entity tools rp draws chain endpoint authz_data = record {
  id = draws.id;
  client_id = rp.client_id;
  state = draws.state;
  endpoint = endpoint;
  authz_data = some (tools.dumps authz_data);
  provider_id = chain.subject;
  provider_configuration = chain.metadata;
  user = none;
  access_token = none;
  code = none;
  id_token = none;
  refresh_token = none;
  scope = none;
  token_type = none;
  expires_in = none;
  revoked = false;
  completed = false;
}

-- `metadata.get("issuer", authorization_endpoint)`
unfoldable pub issuer_or : Option String → String → String
issuer_or none endpoint = endpoint
issuer_or (some issuer) endpoint = issuer

-- The session and authz_data at the time when the session is stored.
unfoldable pub prepared :
    Federation
    → Tools
    → RelyingParty
    → Draws
    → TrustChain
    → Result Failure (OidcAuthentication × Dict)
unfolding authorization_entity issuer_or authorization_data pkce_generation
prepared fed tools rp draws chain = do
  json ← or_raise unhandled (lookup "openid_provider" chain.metadata)
  endpoint ← or_raise unhandled ((fed.provider_metadata json).authorization_endpoint)
  let issuer = issuer_or (fed.provider_metadata json).issuer endpoint
  base ← authorization_data rp draws endpoint issuer
  authz_data ← pkce_generation tools rp draws (base ++ ("prompt", text rp.prompt) ∷ [])
  ok (authorization_entity tools rp draws chain endpoint authz_data, authz_data)

-- The reply is the URL that the browser is sent to.
pub record Started (r : Redis) : Type 0 where
  pub reply : Result Failure String
  pub chains : TrustChains
  pub store : r.State

unfoldable pub sent : Tools → String → Dict → Result Failure String
unfolding create_jws generate_uri redirect_url
sent tools endpoint authz_data = do
  path ← generate_uri tools (create_jws tools authz_data)
  ok (redirect_url endpoint path)

module _ (r : Redis) (m : Model r) (ttl : ℕ) (fed : Federation) (tools : Tools) (rp : RelyingParty)
    (draws : Draws) where
  unfoldable pub insert : OidcAuthentication → r.State → r.State
  insert e st = if fed.is_valid e then add_session r m ttl e draws.now st else st

  unfoldable pub after_chain : Result Failure TrustChain × TrustChains → r.State → Started r
  unfolding prepared insert sent
  after_chain (err f, chains) st = record { reply = err f; chains = chains; store = st }
  after_chain (ok chain, chains) st = elim (prepared fed tools rp draws chain) [
    | err f ↦ record { reply = err f; chains = chains; store = st }
    | ok (e, authz_data) ↦ record {
      reply = sent tools e.endpoint authz_data;
      chains = chains;
      store = insert e st;
    }
  ]

  unfoldable pub endpoint : String → TrustChains → r.State → Started r
  unfolding get_trust_chain after_chain
  endpoint provider chains st = after_chain (get_trust_chain fed provider chains) st
