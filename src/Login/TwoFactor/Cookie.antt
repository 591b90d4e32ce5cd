-- ===== src/Login/TwoFactor/Cookie.antt =====
-- What the routes of config-api/app/routes/login_2fa.py leave in the session cookie.
use pa_sso_proxy.Prelude.{◌/◌, ◌≡◌, ◌⊎◌, Option, none, some, arith}
use pa_sso_proxy.Unicode.{Text}
use pa_sso_proxy.RateLimiter.{second}
use pa_sso_proxy.Totp.{Value}
use pa_sso_proxy.Login.{Config, World, Session, no_session, Request, pending_user}
use pa_sso_proxy.Login.TwoFactor.{twofa_page, twofa_submit, setup_page, setup_submit}

abbrev pub session_of : Request → Value → Session
session_of r user = record no_session { user = some user; last_activity = some (r.now / second) }

abbrev pub EntersAs : Request → Session → Option Value → Type 0
EntersAs r s' none = ⊥
EntersAs r s' (some user) = s' ≡ session_of r user

-- The session is kept, cleared, or becomes that of the completed login of its pending user.
abbrev pub Leaves : Request → Session → Session → Type 0
Leaves r s s' = (s' ≡ s) ⊎ (s' ≡ no_session) ⊎ EntersAs r s' (pending_user s r.now)

module _ (c : Config) (r : Request) (w : World) (s : Session) where
  pub twofa_page-Leaves : Leaves r s (twofa_page c r w s).session
  unfolding twofa_page
  twofa_page-Leaves = ground arith

  pub setup_page-Leaves : Leaves r s (setup_page c r w s).session
  unfolding setup_page
  setup_page-Leaves = ground arith

module _ (c : Config) (r : Request) (code : Text) (w : World) (s : Session) where
  pub twofa_submit-Leaves : Leaves r s (twofa_submit c r code w s).session
  unfolding twofa_submit
  twofa_submit-Leaves = ground arith

  pub setup_submit-Leaves : Leaves r s (setup_submit c r code w s).session
  unfolding setup_submit
  setup_submit-Leaves = ground arith
