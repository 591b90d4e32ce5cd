-- ===== src/CieCallback/Pages.antt =====
-- What a call of satosa/plugins/cieoidc-endpoints/authorization_callback_endpoint.py is given and
-- answers, and its answers to an error of the provider and to a browser without SATOSA's state.
use pa_sso_proxy.Prelude.{String, Bool, true, false, Option, none, some, List, [], ◌∷◌, lookup}
use pa_sso_proxy.CieCallback.Services.{Failure}
use pa_sso_proxy.CieCallback.Texts.{first_chars, error_type, message_key}

-- What `urllib.parse.parse_qs` reads of the `oidc_request` of one value of SATOSA's state: no
-- such key, an empty request, or its parameters.
pub data StateValue : Type 0 where
  no_request empty_request : StateValue
  oidc_request : List (String × String) → StateValue

-- The query of the callback and the SATOSA state of the browser; `satosa_base` is the truth value
-- of its SATOSA_BASE.
pub record Context : Type 0 where
  pub error : Option String
  pub state : Option String
  pub code : Option String
  pub iss : Option String
  pub satosa_base : Bool
  pub values : List StateValue

-- `_post_access_log`, with the client and the code of the error
pub record AccessEntry : Type 0 where
  pub client_id : Option String
  pub error_code : Option String

pub record InternalData : Type 0 where
  pub subject_id : String
  pub issuer : String
  pub attributes : List (String × List String)

pub data Reply : Type 0 where
  failed : Failure → Reply
  -- the client's redirect URI, the message and the client's state
  client_redirect : String → String → Option String → Reply
  -- the type of the error, the message, and whether the page offers to try again
  error_page : String → String → Bool → Reply
  -- the call of `_auth_callback`
  authenticated : InternalData → Reply

-- The parameters of the first value whose request is not empty.
unfoldable pub client_request : List StateValue → List (String × String)
client_request [] = []
client_request (no_request ∷ vs) = client_request vs
client_request (empty_request ∷ vs) = client_request vs
client_request (oidc_request params ∷ vs) = params

-- The endpoint of a callback with an error of the provider.
unfoldable pub handle_idp_error : Context → String → Reply × List AccessEntry
unfolding client_request
handle_idp_error context error =
    let params = client_request context.values in
    let message = message_key (error_type error) in
    let entry : AccessEntry = record {
      client_id = lookup "client_id" params;
      error_code = some (first_chars 64 error);
    } in
    elim (lookup "redirect_uri" params) [
      | some uri ↦ (client_redirect uri message (lookup "state" params), entry ∷ [])
      | none ↦ (error_page (error_type error) message true, entry ∷ [])
    ]

unfoldable pub handle_lost_state : Reply × List AccessEntry
handle_lost_state = (
  error_page "generic" "error.cie.state_lost" false,
  record { client_id = none; error_code = some "state_lost" } ∷ [],
)
