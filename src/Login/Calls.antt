-- ===== src/Login/Calls.antt =====
-- The login's routes as one function: the decorators of config-api/app/main.py and
-- routes/login_2fa.py.
use pa_sso_proxy.Prelude.{String}
use pa_sso_proxy.Unicode.{Text}
use pa_sso_proxy.Login.{Config, Request, World, Session, Outcome, login_page, login_post, logout}
use pa_sso_proxy.Login.TwoFactor.{twofa_page, twofa_submit, setup_page, setup_submit}

pub data Call : Type 0 where
  get_login post_logout get_twofa get_setup : Call
  post_login : String → String → Call
  post_twofa post_setup : Text → Call

unfoldable pub handle : Config → Request → Call → World → Session → Outcome
unfolding login_page login_post logout
handle c r get_login w s = login_page c r w s
handle c r (post_login username password) w s = login_post c r username password w s
handle c r post_logout w s = logout w s
handle c r get_twofa w s = twofa_page c r w s
handle c r (post_twofa code) w s = twofa_submit c r code w s
handle c r get_setup w s = setup_page c r w s
handle c r (post_setup code) w s = setup_submit c r code w s
