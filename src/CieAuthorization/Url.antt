-- ===== src/CieAuthorization/Url.antt =====
-- The URL that satosa/plugins/cieoidc-endpoints/authorization_endpoint.py sends the browser to.
use Prim.Native.Char.{code}
use Prim.Native.String.{[], ◌∷◌, ◌++◌}
use pa_sso_proxy.Prelude.{String, Bool, false, ◌||◌, if◌then◌else◌, ◌==◌}

-- `"?" in url`
unfoldable pub has_query : String → Bool
has_query [] = false
has_query (c ∷ cs) = code c == b'?' || has_query cs

unfoldable pub redirect_url : String → String → String
unfolding has_query
redirect_url authorization_endpoint uri_path =
    let qstring = if has_query authorization_endpoint then "&" else "?" in
    authorization_endpoint ++ (qstring ++ uri_path)
