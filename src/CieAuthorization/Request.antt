-- ===== src/CieAuthorization/Request.antt =====
-- The authorization request of satosa/plugins/cieoidc-endpoints/authorization_endpoint.py: the dict
-- authz_data, what of it is signed, and what of it is sent.
use pa_sso_proxy.Prelude.{
  ℕ, ◌+◌, String, not, ◌||◌, List, [], ◌∷◌, ◌++◌, lookup, str_eq, filter, if◌then◌else◌, ◌==◌,
  member,
}
use pa_sso_proxy.Result.{Result, ok, err, ◌>>=◌}
use pa_sso_proxy.CieCallback.Services.{Failure, unhandled}
use pa_sso_proxy.CieCallback.Exchange.{or_raise}

-- A value of authz_data; the requested claims are their JSON.
pub data Value : Type 0 where
  text : String → Value
  number : ℕ → Value

abbrev pub Dict : Type 0
Dict = List (String × Value)

-- `metadata.openid_relying_party` of the configuration and its `prompt`; `length` and `method` are
-- those of `code_challenge`.
pub record RelyingParty : Type 0 where
  pub client_id : String
  pub scope : String
  pub claim : String
  pub response_types : List String
  pub redirect_uris : List String
  pub prompt : String
  pub length : ℕ
  pub method : String

-- What the random generators and the clock give to one request; the model draws the session's id.
pub record Draws : Type 0 where
  pub now : ℕ
  pub nonce : String
  pub state : String
  pub jti : String
  pub id : String

-- get_pkce, the JWS under the signing key, json.dumps and the encoding of a query.
pub record Tools : Type 0 where
  pub code_verifier : String → ℕ → Draws → String
  pub code_challenge : String → String → String
  pub create_jws : Dict → String
  pub dumps : Dict → String
  pub redirect_uri_path : Dict → String

-- `items[0]`, or the exception for an empty list.
unfoldable pub first_item : List String → Result Failure String
first_item [] = err unhandled
first_item (x ∷ xs) = ok x

-- `provider_issuer or provider_authorization_endpoint`
unfoldable pub audience : String → String → String
audience issuer endpoint = if str_eq issuer "" then endpoint else issuer

unfoldable pub authorization_data : RelyingParty → Draws → String → String → Result Failure Dict
unfolding first_item audience
authorization_data rp draws endpoint issuer = do
  response_type ← first_item rp.response_types
  redirect_uri ← first_item rp.redirect_uris
  ok (
      ("iss", text rp.client_id)
      ∷ ("scope", text rp.scope)
      ∷ ("redirect_uri", text redirect_uri)
      ∷ ("response_type", text response_type)
      ∷ ("nonce", text draws.nonce)
      ∷ ("state", text draws.state)
      ∷ ("client_id", text rp.client_id)
      ∷ ("endpoint", text endpoint)
      ∷ ("iat", number draws.now)
      ∷ ("exp", number (draws.now + 60))
      ∷ ("jti", text draws.jti)
      ∷ ("aud", text (audience issuer endpoint))
      ∷ ("claims", text rp.claim)
      ∷ ("acr_values", text "https://www.spid.gov.it/SpidL2")
      ∷ [])

-- The items that `authz_data.update` appends; an empty length or method raises.
unfoldable pub pkce_generation : Tools → RelyingParty → Draws → Dict → Result Failure Dict
pkce_generation tools rp draws authz_data =
    if rp.length == 0 || str_eq rp.method ""
    then err unhandled
    else (let verifier = tools.code_verifier rp.method rp.length draws in
        ok (
          authz_data
          ++ ("code_verifier", text verifier)
            ∷ ("code_challenge", text (tools.code_challenge rp.method verifier))
            ∷ ("code_challenge_method", text rp.method)
            ∷ []))

-- `d.pop(key, None)` for each key
unfoldable pub without : List String → Dict → Dict
without keys d = filter (λ item. not (member item.0 keys)) d

abbrev pub internal_keys : List String
internal_keys = "code_verifier" ∷ "endpoint" ∷ []

-- The payload of the request object; `iss` is set to the value that it has.
unfoldable pub request_payload : Dict → Dict
unfolding without
request_payload authz_data = without internal_keys authz_data

unfoldable pub create_jws : Tools → Dict → Dict
unfolding request_payload
create_jws tools authz_data =
    authz_data ++ ("request", text (tools.create_jws (request_payload authz_data))) ∷ []

-- `{key: d[key] for the keys}`, or the KeyError
unfoldable pub pick : List String → Dict → Result Failure Dict
pick [] d = ok []
pick (key ∷ keys) d = do
  value ← or_raise unhandled (lookup key d)
  rest ← pick keys d
  ok ((key, value) ∷ rest)

abbrev pub sent_keys : List String
sent_keys =
    "client_id" ∷ "scope" ∷ "response_type" ∷ "code_challenge" ∷ "code_challenge_method"
    ∷ "acr_values" ∷ "request" ∷ []

unfoldable pub generate_uri : Tools → Dict → Result Failure String
unfolding pick
generate_uri tools authz_data = do
  query ← pick sent_keys authz_data
  ok (tools.redirect_uri_path query)
