-- ===== src/CieCallback/Endpoint.antt =====
-- The endpoint of satosa/plugins/cieoidc-endpoints/authorization_callback_endpoint.py. A call takes
-- the store of the CIE sessions at one time and gives back the store, the reply, the requests that
-- it made to the provider's token endpoint and the entries that it sent to the access log.
use pa_sso_proxy.Prelude.{
  ℕ, String, true, not, Option, none, some, List, [], ◌∷◌, is_text, if◌then◌else◌,
}
use pa_sso_proxy.Result.{Result, ok, err}
use pa_sso_proxy.CieSession.{
  Redis, OidcAuthentication, Model, Invalid, consume_session, get_sessions, update_session,
}
use pa_sso_proxy.CieCallback.Services.{
  TokenRequest, TokenResponse, OidcUser, Failure, authentication_error, Services,
}
use pa_sso_proxy.CieCallback.Pages.{
  Context, AccessEntry, InternalData, Reply, failed, authenticated, handle_idp_error,
  handle_lost_state,
}
use pa_sso_proxy.CieCallback.Exchange.{
  token_request, token_response, verified_tokens, with_tokens, user_of, with_user,
}
use pa_sso_proxy.CieCallback.Translation.{translated}

pub record Outcome (r : Redis) : Type 0 where
  pub reply : Reply
  pub store : r.State
  pub requests : List TokenRequest
  pub accesses : List AccessEntry

-- `_translate_response`
unfoldable pub translate_response : Services → String → OidcUser → InternalData
unfolding translated
translate_response sv issuer user = record {
  subject_id = user.sub;
  issuer = issuer;
  attributes = translated user.values user.sub (sv.to_internal user.values);
}

unfoldable pub or_empty : Option String → String
or_empty none = ""
or_empty (some s) = s

-- str(None) is what a state that is missing is looked up by.
unfoldable pub state_text : Option String → String
state_text none = "None"
state_text (some s) = s

-- `{}` where the session is absent, used already or no valid model.
unfoldable pub consumed : Result Invalid (Option OidcAuthentication) → Option OidcAuthentication
consumed (err invalid) = none
consumed (ok none) = none
consumed (ok (some e)) = some (record e { completed = true })

module _ (r : Redis) (m : Model r) (ttl : ℕ) (sv : Services) (now : ℕ) where
  -- The consumption may write before the model refuses the session.
  unfoldable pub consume_authorization :
      Option String → r.State → Option OidcAuthentication × r.State
  unfolding consumed
  consume_authorization none st = (none, st)
  consume_authorization (some state) st =
      let (result, st') = consume_session r m ttl state now st in (consumed result, st')

  unfoldable pub get_authorization : Option String → r.State → Option OidcAuthentication
  unfolding state_text
  get_authorization state st = elim (get_sessions r m (state_text state) now st) [
    | err invalid ↦ none
    | ok [] ↦ none
    | ok (e ∷ es) ↦ some e
  ]

  -- Why no session was consumed.
  unfoldable pub no_authorization : Option String → r.State → Failure
  unfolding get_authorization
  no_authorization state st = elim (get_authorization state st) [
    | none ↦ authentication_error "Authorization empty"
    | some e ↦
        if sv.already_used e
        then authentication_error "Authorization already used"
        else authentication_error "Authorization empty"
  ]

  unfoldable pub update_authorization : OidcAuthentication → r.State → r.State
  update_authorization e st = if sv.is_valid e then update_session r m ttl e now st else st

  -- From the user's attributes to the answer.
  unfoldable pub conclude :
      Context
      → OidcAuthentication
      → TokenResponse
      → r.State
      → Result Failure OidcUser
      → Reply × r.State
  unfolding with_user translate_response or_empty update_authorization
  conclude context authorization answer st (err f) = (failed f, st)
  conclude context authorization answer st (ok user) = (
    authenticated (translate_response sv (or_empty context.iss) user),
    update_authorization (with_user authorization answer user) st,
  )

  unfoldable pub after_tokens :
      Context → TokenResponse → r.State → Result Failure OidcAuthentication → Reply × r.State
  unfolding conclude update_authorization user_of
  after_tokens context answer st (err f) = (failed f, st)
  after_tokens context answer st (ok authorization) =
      conclude context authorization answer (update_authorization authorization st)
        (user_of sv authorization)

  unfoldable pub after_response :
      Context → OidcAuthentication → r.State → Result Failure TokenResponse → Reply × r.State
  unfolding after_tokens with_tokens verified_tokens
  after_response context authorization st (err f) = (failed f, st)
  after_response context authorization st (ok answer) =
      elim (verified_tokens sv authorization answer) [
        | err f ↦ (failed f, st)
        | ok tokens ↦ after_tokens context answer st (with_tokens authorization tokens answer)
      ]

  unfoldable pub after_consumption :
      String → Context → Option OidcAuthentication × r.State → Outcome r
  unfolding token_request token_response after_response no_authorization
  after_consumption client_id context (none, st) = record {
    reply = failed (no_authorization context.state st);
    store = st;
    requests = [];
    accesses = [];
  }
  after_consumption client_id context (some e, st) = elim (token_request sv client_id context e) [
    | err f ↦ record { reply = failed f; store = st; requests = []; accesses = [] }
    | ok request ↦
        let authorization = record e { code = context.code } in
        let (reply, st') = after_response context authorization st (token_response sv request) in
        record { reply = reply; store = st'; requests = request ∷ []; accesses = [] }
  ]

  -- `client_id` is the one of the configuration.
  unfoldable pub endpoint : String → Context → r.State → Outcome r
  unfolding handle_idp_error handle_lost_state consume_authorization after_consumption
  endpoint client_id context st =
      if is_text context.error
      then (let (reply, accesses) = handle_idp_error context (or_empty context.error) in
          record { reply = reply; store = st; requests = []; accesses = accesses })
      else if not context.satosa_base
      then (let (reply, accesses) = handle_lost_state in
          record { reply = reply; store = st; requests = []; accesses = accesses })
      else after_consumption client_id context (consume_authorization context.state st)
