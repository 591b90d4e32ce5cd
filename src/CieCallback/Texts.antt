-- ===== src/CieCallback/Texts.antt =====
-- Tests on texts in satosa/plugins/cieoidc-endpoints/authorization_callback_endpoint.py.
use Prim.Native.Char.{code}
use Prim.Native.String.{[], ◌∷◌, ◌++◌}
use pa_sso_proxy.Prelude.{
  ℕ, zero, suc, String, Bool, false, not, ◌&&◌, ◌||◌, str_eq, ◌==◌, if◌then◌else◌,
}

-- text.endswith("/")
unfoldable pub ends_with_slash : String → Bool
ends_with_slash [] = false
ends_with_slash (c ∷ []) = code c == b'/'
ends_with_slash (c ∷ d ∷ cs) = ends_with_slash (d ∷ cs)

-- text[:-1]
unfoldable pub without_last : String → String
without_last [] = []
without_last (c ∷ []) = []
without_last (c ∷ d ∷ cs) = c ∷ without_last (d ∷ cs)

unfoldable pub check_provider : String → String → Bool
unfolding ends_with_slash without_last
check_provider provider iss =
    if ends_with_slash provider && not (ends_with_slash iss)
    then str_eq provider (iss ++ "/")
    else if not (ends_with_slash provider) && ends_with_slash iss
    then str_eq provider (without_last iss)
    else str_eq provider iss

-- text[:n]
unfoldable pub first_chars : ℕ → String → String
first_chars zero cs = []
first_chars (suc n) [] = []
first_chars (suc n) (c ∷ cs) = c ∷ first_chars n cs

unfoldable pub error_type : String → String
error_type error =
    if str_eq error "login_required" || str_eq error "access_denied"
    then "cancelled"
    else if str_eq error "request_timeout" || str_eq error "interaction_required"
    then "timeout"
    else "generic"

-- The key of the message for a type of error.
unfoldable pub message_key : String → String
message_key kind = "error.cie." ++ kind

unfoldable pub user_info_failed : String → String → String
user_info_failed state provider_id =
    "User_info request failed for state: " ++ state ++ " to " ++ provider_id
