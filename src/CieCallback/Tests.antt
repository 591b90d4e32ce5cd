-- ===== src/CieCallback/Tests.antt =====
-- Runs of satosa/plugins/cieoidc-endpoints/authorization_callback_endpoint.py, and the theorems at
-- concrete inputs.
use pa_sso_proxy.Prelude.{
  List, String, ◌≡◌, ◌≢◌, ◌↔◌, refl, true, none, some, [], ◌∷◌, lookup, arith, or_else,
}
use pa_sso_proxy.CieSession.{
  add_session, consume_session, ttl_seconds, consume_sid, consume_marked, consume_doc,
  consume_entity, non_empty, already_used, has_text, has_items,
}
use pa_sso_proxy.CieSession.Once.{begin, add, wait}
use pa_sso_proxy.CieSession.Tests.{
  writes, writes-RedisLaws, objects, objects-ModelLaws, login, started,
}
use pa_sso_proxy.CieCallback.Services.{Services, TokenResponse, OidcUser}
use pa_sso_proxy.CieCallback.Translation.{translated, alias_value, lookup-translated}
use pa_sso_proxy.CieCallback.Texts.{check_provider}
use pa_sso_proxy.CieCallback.Pages.{
  Context, InternalData, authenticated, no_request, oidc_request, client_redirect, client_request,
}
use pa_sso_proxy.CieCallback.Exchange.{
  token_request, loaded, request_of, token_response, verified_tokens, with_tokens, user_of,
}
use pa_sso_proxy.CieCallback.Endpoint.{
  endpoint, translate_response, consume_authorization, after_consumption, consumed, after_response,
  after_tokens, conclude, or_empty,
}
use pa_sso_proxy.CieCallback.Redeem.{no_more, and_wait, code_redeemed_once}
use pa_sso_proxy.CieCallback.Issuer.{check_provider_iff, without_slash}
use pa_sso_proxy.CieCallback.Refusals.{FirstRequest, client_redirect-FirstRequest}
use pa_sso_proxy.CieCallback.Texts.{message_key, error_type, first_chars}
use pa_sso_proxy.CieCallback.Pages.{handle_idp_error}
use pa_sso_proxy.CieCallback.Endpoint.{or_empty}
use pa_sso_proxy.CieCallback.Handed.{Handed, authenticated-Handed}

abbrev pub answer : TokenResponse
answer = record {
  access_token = some "access";
  id_token = some "id_token";
  refresh_token = none;
  scope = some "openid";
  token_type = some "Bearer";
  expires_in = some 3600;
}

abbrev pub user : OidcUser
user = record { sub = "s1"; values = ("sub", "s1") ∷ ("given_name", "Ada") ∷ [] }

-- A provider that answers every request.
abbrev pub services : Services
services = record {
  already_used = λ e. e.completed;
  loads = λ json. some (record { redirect_uri = some json; code_verifier = some "verifier" });
  token_endpoint = λ json. some "https://op/token";
  access_token_request = λ q. some (some answer);
  get_jwks = λ json. some "jwks";
  get_jwk_from_jwt = λ token jwks. some (some "key");
  verify_jws = λ token key. true;
  unpad_jwt_payload = λ token. some "payload";
  verify_at_hash = λ decoded token. true;
  get_userinfo = λ json state token. some (some "info");
  process_user_attributes = λ info e. some (("sub", "s1") ∷ []);
  oidc_user = λ attrs. some user;
  is_valid = λ e. true;
  to_internal = λ values. ("name", "A." ∷ []) ∷ [];
}

abbrev pub context : Context
context = record {
  error = none;
  state = some "state";
  code = some "code";
  iss = some "https://op";
  satosa_base = true;
  values = [];
}

abbrev cancelled : Context
cancelled = record context {
  error = some "access_denied";
  values = no_request ∷ oidc_request (("redirect_uri", "https://client/cb") ∷ []) ∷ [];
}

given_name_added :
    lookup "givenName" (translated user.values "s1" (("name", "A." ∷ []) ∷ [])) ≡ some ("Ada" ∷ [])
unfolding translated
given_name_added = refl

lookup-translated_example :
    lookup "name" (translated user.values "s1" (("name", "A." ∷ []) ∷ []))
    ≡ or_else (some ("A." ∷ [])) (alias_value "name" user.values "s1")
lookup-translated_example = lookup-translated "name" "s1" user.values (("name", "A." ∷ []) ∷ [])

check_provider_iff_example :
    (check_provider "https://op/" "https://op" ≡ true)
    ↔ (without_slash "https://op/" ≡ without_slash "https://op")
check_provider_iff_example = check_provider_iff "https://op/" "https://op"

abbrev cancelled_key : String
cancelled_key = message_key (error_type "access_denied")

redirected :
    (endpoint writes objects ttl_seconds services 200 "rp" cancelled started).reply
    ≡ client_redirect "https://client/cb" cancelled_key none
unfolding endpoint handle_idp_error client_request or_empty
redirected = refl

client_redirect-FirstRequest_example :
    let outcome = endpoint writes objects ttl_seconds services 200 "rp" cancelled started in
    (error : String) × (cancelled.error ≡ some error)
    × (error ≢ "")
    × (outcome.store ≡ started)
    × (outcome.requests ≡ [])
    × ((params : List (String × String)) × FirstRequest cancelled.values params
        × (lookup "redirect_uri" params ≡ some "https://client/cb")
        × (lookup "state" params ≡ none)
        × (cancelled_key ≡ message_key (error_type error))
        × (outcome.accesses
            ≡ record {
              client_id = lookup "client_id" params;
              error_code = some (first_chars 64 error);
            }
              ∷ []))
client_redirect-FirstRequest_example =
    client_redirect-FirstRequest writes objects ttl_seconds services 200 "rp" cancelled started
      "https://client/cb" cancelled_key none redirected

exchanged : (endpoint writes objects ttl_seconds services 200 "rp" context started).requests ≢ []
unfolding endpoint consume_authorization after_consumption consumed token_request loaded request_of
    check_provider consume_session consume_sid consume_marked consume_doc consume_entity non_empty
    already_used has_text has_items add_session
exchanged e = ground arith

code_redeemed_once_example :
    let first = endpoint writes objects ttl_seconds services 200 "rp" context started in
    let second = endpoint writes objects ttl_seconds services 300 "rp" context first.store in
    (second.requests ≡ []) × ((d : InternalData) → second.reply ≢ authenticated d)
code_redeemed_once_example =
    code_redeemed_once writes objects ttl_seconds writes-RedisLaws objects-ModelLaws "state" 200
      started (wait (add (begin 100 [] (λ t k. refl)) login) 200 (omega arith)) services "rp"
      context refl exchanged 300
      (endpoint writes objects ttl_seconds services 200 "rp" context started).store
      (and_wait no_more 300 (omega arith)) services "rp" context refl

handed_over :
    (endpoint writes objects ttl_seconds services 200 "rp" context started).reply
    ≡ authenticated (translate_response services "https://op" user)
unfolding endpoint consume_authorization after_consumption consumed token_request loaded request_of
    check_provider consume_session consume_sid consume_marked consume_doc consume_entity non_empty
    already_used has_text has_items add_session after_response token_response after_tokens conclude
    verified_tokens with_tokens user_of or_empty
handed_over = refl

authenticated-Handed_example :
    Handed writes objects ttl_seconds services 200 "rp" context started
      (translate_response services "https://op" user)
authenticated-Handed_example =
    authenticated-Handed writes objects ttl_seconds services 200 "rp" context started
      (translate_response services "https://op" user) handed_over
