-- ===== src/CieAuthorization/Tests.antt =====
-- A login of satosa/plugins/cieoidc-endpoints/authorization_endpoint.py with its callback, and the
-- theorems at concrete inputs.
use pa_sso_proxy.Prelude.{
  String, ◌≡◌, refl, subst, true, Option, none, some, List, [], ◌∷◌, lookup, arith,
}
use pa_sso_proxy.Result.{ok}
use pa_sso_proxy.CieSession.{ttl_seconds}
use pa_sso_proxy.CieSession.Tests.{
  writes, writes-RedisLaws, objects, objects-ModelLaws, Write, differs,
}
use pa_sso_proxy.CieCallback.Services.{TokenRequest}
use pa_sso_proxy.CieCallback.Texts.{check_provider, ends_with_slash}
use pa_sso_proxy.CieCallback.Pages.{authenticated}
use pa_sso_proxy.CieCallback.Endpoint.{translate_response, endpoint as callback}
use pa_sso_proxy.CieCallback.Exchange.{add_user}
use pa_sso_proxy.CieCallback.Tests.{answer, user, services, context}
use pa_sso_proxy.CieAuthorization.Request.{
  Value, text, number, Dict, RelyingParty, Draws, Tools, first_item, authorization_data,
  pkce_generation, create_jws, generate_uri, pick, audience,
}
use pa_sso_proxy.CieAuthorization.Url.{redirect_url, has_query}
use pa_sso_proxy.CieAuthorization.Endpoint.{
  TrustChain, Federation, TrustChains, endpoint, after_chain, get_trust_chain, prepared, sent,
  issuer_or, authorization_entity,
}
use pa_sso_proxy.CieAuthorization.Hidden.{Begun, endpoint-Begun}
use pa_sso_proxy.CieAuthorization.Completes.{Accepts, Loads}
use pa_sso_proxy.CieAuthorization.Login.{login_completes}

abbrev value_text : Option Value → String
value_text none = ""
value_text (some (number n)) = ""
value_text (some (text s)) = s

abbrev dumped : Dict → String
dumped d = value_text (lookup "redirect_uri" d)

abbrev tools : Tools
tools = record {
  code_verifier = λ method length draws. "verifier";
  code_challenge = λ method verifier. "challenge";
  create_jws = λ payload. "jws";
  dumps = dumped;
  redirect_uri_path = λ query. "request=jws";
}

abbrev relying_party : RelyingParty
relying_party = record {
  client_id = "rp";
  scope = "openid";
  claim = "{}";
  response_types = "code" ∷ [];
  redirect_uris = "cb" ∷ [];
  prompt = "login";
  length = 64;
  method = "S256";
}

abbrev draws : Draws
draws = record { now = 100; nonce = "n"; state = "state"; jti = "j"; id = "id" }

abbrev federation : Federation
federation = record {
  build = λ provider. none;
  provider_metadata =
      λ json. record { authorization_endpoint = some "https://op/authorize"; issuer = none };
  is_valid = λ e. true;
}

abbrev op_chain : TrustChain
op_chain = record { subject = "https://op/"; metadata = ("openid_provider", "{}") ∷ [] }

abbrev chains : TrustChains
chains = ("op", op_chain) ∷ []

abbrev empty : List Write
empty = []

abbrev url : String
url = "https://op/authorize?request=jws"

begun :
    (endpoint writes objects ttl_seconds federation tools relying_party draws "op" chains
      empty).reply
    ≡ ok url
unfolding endpoint after_chain get_trust_chain prepared sent issuer_or authorization_entity
    first_item authorization_data pkce_generation create_jws generate_uri pick audience redirect_url
    has_query
begun = refl

endpoint-Begun_example :
    Begun tools relying_party draws writes objects ttl_seconds federation "op" chains empty url
      (endpoint writes objects ttl_seconds federation tools relying_party draws "op" chains
        empty).store
endpoint-Begun_example =
    endpoint-Begun tools relying_party draws writes objects ttl_seconds federation "op" chains empty
      url begun

accepts : Accepts services (some "code") "verifier" user
unfolding add_user
accepts = record {
  answer = answer;
  answers = λ q c v. refl;
  access_token = "access";
  has_access = refl;
  id_token = "id_token";
  has_id = refl;
  token_type = "Bearer";
  has_type = refl;
  expires_in = 3600;
  has_expiry = refl;
  jwks = "jwks";
  has_jwks = λ provider. refl;
  access_key = "key";
  has_access_key = refl;
  access_verifies = refl;
  id_key = "key";
  has_id_key = refl;
  id_verifies = refl;
  decoded = "payload";
  unpadded = refl;
  hash_matches = refl;
  info = "info";
  has_info = λ provider state. refl;
  attr = ("sub", "s1");
  attrs = [];
  processed = λ e. refl;
  is_user = refl;
}

matches :
    (chain : TrustChain)
    → (get_trust_chain federation "op" chains).0 ≡ ok chain
    → check_provider chain.subject "https://op" ≡ true
unfolding get_trust_chain check_provider ends_with_slash
matches chain h =
    let same : op_chain ≡ chain = ground arith in
    subst (λ c. check_provider c.subject "https://op" ≡ true) same refl

loads : Loads tools services "verifier"
loads d uri h h' = ground arith

login_completes_example :
    let started =
      endpoint writes objects ttl_seconds federation tools relying_party draws "op" chains empty in
    let outcome = callback writes objects ttl_seconds services 200 "rp" context started.store in
    (outcome.reply ≡ authenticated (translate_response services "https://op" user))
    × ((q : TokenRequest) × (outcome.requests ≡ q ∷ [])
        × (q.code ≡ some "code")
        × (q.code_verifier ≡ some "verifier")
        × (q.state ≡ "state"))
login_completes_example =
    login_completes writes objects ttl_seconds writes-RedisLaws objects-ModelLaws tools
      relying_party draws federation services "op" chains empty url begun (λ e h. refl)
      (differs "id" "" refl) (differs "state" "" refl) 200 refl (omega arith) (omega arith) loads
      context refl refl refl "https://op" refl matches user accepts
