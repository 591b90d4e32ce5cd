-- ===== src/Login/Tests.antt =====
-- Runs of the login of config-api/app, and the theorems at concrete inputs.
use pa_sso_proxy.Prelude.{
  ℕ, ◌+◌, ◌*◌, ◌/◌, ◌≤◌, ◌<◌, String, ◌≡◌, ◌≢◌, refl, true, false, none, some, List, [], ◌∷◌, arith,
}
use pa_sso_proxy.Unicode.{Text, is_ascii, is_digit, is_space, text_eq}
use pa_sso_proxy.RateLimiter.{
  second, LoginAttempt, default_limits, in_window, last_attempt, is_ip_banned,
}
use pa_sso_proxy.Totp.{
  AdminTotp, text, int, dict, decrypt_secret, first_match, matching_counter, without_spaces, settle,
  looks_like_code, verify_code, get_or_create_pending, pending_is_valid, is_truthy,
}
use pa_sso_proxy.Totp.Enrollment.{Decrypts}
use pa_sso_proxy.Totp.Tests.{toy, six, instant, enrolled, typed}
use pa_sso_proxy.Login.{
  Config, World, Session, no_session, Request, page, ban, setup_form, login_form, client_ip,
  pending_user, login_post, is_confirmed,
}
use pa_sso_proxy.Login.TwoFactor.{twofa_submit, setup_page, setup_submit}
use pa_sso_proxy.Login.TwoFactor.Accepted.{Enters}
use pa_sso_proxy.Login.Calls.{post_login, post_twofa, get_setup, handle}
use pa_sso_proxy.Login.Factors.{History, Cookie, fresh, next, BothFactors, both_factors}
use pa_sso_proxy.Login.Banned.{banned_refused}
use pa_sso_proxy.Login.Setup.{secret_shown}
use pa_sso_proxy.Login.Expiry.{is_watched, has_user, check_expiry, pass, expired, check_expiry_next}

abbrev config : Config
config = record {
  admin_user = "admin";
  admin_password = "pw";
  twofa_enabled = true;
  session_max_age = 1800;
  limits = default_limits;
  crypto = toy;
}

abbrev guest : String
guest = "1.2.3.4"

abbrev at_time : ℕ → Request
at_time t = record {
  real_ip = some guest;
  host = none;
  now = t;
  stamp = t;
  secret = "NEW";
  entropy = 0;
}

abbrev ready : World
ready = record { attempts = []; totp = some enrolled }

abbrev waiting : Session
waiting = record no_session { pending_2fa = some (dict (text "admin") (int 3000)) }

abbrev inside : Session
inside = record no_session { user = some (text "admin"); last_activity = some 3005 }

password_posted :
    (handle config (at_time (3000 * second)) (post_login "admin" "pw") ready no_session).session
    ≡ waiting
unfolding handle login_post is_ip_banned in_window last_attempt
password_posted = refl

code_posted : (handle config (at_time instant) (post_twofa typed) ready waiting).session ≡ inside
unfolding handle twofa_submit pending_is_valid is_ip_banned in_window last_attempt verify_code
    without_spaces looks_like_code is_space is_digit decrypt_secret matching_counter is_ascii
    first_match text_eq settle
code_posted = refl

abbrev history : History
history =
    record { request = at_time instant; call = post_twofa typed; world = ready }
    ∷ record { request = at_time (3000 * second); call = post_login "admin" "pw"; world = ready }
    ∷ []

both_cookie : Cookie config history inside
unfolding handle login_post twofa_submit pending_is_valid is_ip_banned in_window last_attempt
    verify_code without_spaces looks_like_code is_space is_digit decrypt_secret matching_counter
    is_ascii first_match text_eq settle
both_cookie =
    next (next fresh (at_time (3000 * second)) (post_login "admin" "pw") ready) (at_time instant)
      (post_twofa typed) ready

both_factors_example :
    (text "admin" ≡ text "admin") × (inside.pending_2fa ≡ none) × BothFactors config history
both_factors_example = both_factors config history inside (text "admin") refl both_cookie refl

abbrev five_rows : List LoginAttempt
five_rows =
    record { ip_address = guest; attempted_at = instant }
    ∷ record { ip_address = guest; attempted_at = instant }
    ∷ record { ip_address = guest; attempted_at = instant }
    ∷ record { ip_address = guest; attempted_at = instant }
    ∷ record { ip_address = guest; attempted_at = instant }
    ∷ []

abbrev locked : World
locked = record { attempts = five_rows; totp = some enrolled }

banned_refused_example :
    (login_post config (at_time instant) "admin" "pw" locked waiting ≡ record {
      response = page login_form 429 (some (ban 15)) none;
      world = locked;
      session = waiting;
    })
    × ¬ Enters waiting (twofa_submit config (at_time instant) typed locked waiting)
    × ((twofa_submit config (at_time instant) typed locked waiting).world ≡ locked)
    × ¬ Enters waiting (setup_submit config (at_time instant) typed locked waiting)
    × ((setup_submit config (at_time instant) typed locked waiting).world.attempts ≡ five_rows)
unfolding is_ip_banned in_window last_attempt client_ip
banned_refused_example =
    banned_refused config (at_time instant) locked waiting 15 "admin" "pw" typed refl

toy-Decrypts : Decrypts toy
toy-Decrypts entropy s = refl

abbrev unenrolled : World
unenrolled = record { attempts = []; totp = none }

-- Six Arabic-Indic digits.
abbrev arabic : Text
arabic = six 1632

secret_shown_example :
    (is_confirmed none ≡ false)
    × (pending_user waiting instant ≢ none)
    × ((row : AdminTotp) × ((handle config
            (at_time instant)
            get_setup
            unenrolled
            waiting).world.totp
          ≡ some row)
        × (toy.decrypt row.secret_enc ≡ some "NEW")
        × (row.confirmed_at ≡ none))
unfolding handle setup_page pending_is_valid is_ip_banned in_window last_attempt
    get_or_create_pending
secret_shown_example =
    secret_shown config (at_time instant) get_setup unenrolled waiting setup_form 200 none "NEW"
      toy-Decrypts refl

abbrev touched : Session
touched = record inside { last_activity = some 3005 }

check_expiry_next_example :
    (instant / second + 1800 < (instant + 1801 * second) / second
      → check_expiry config (instant + 1801 * second) "/admin/idps" touched ≡ expired no_session)
    × ((instant + 1801 * second) / second ≤ instant / second + 1800
        → check_expiry config (instant + 1801 * second) "/admin/idps" touched
          ≡ pass (record inside { last_activity = some ((instant + 1801 * second) / second) }))
unfolding check_expiry is_watched has_user is_truthy
check_expiry_next_example =
    check_expiry_next config instant (instant + 1801 * second) "/admin/" "/admin/idps" inside
      touched refl refl refl (omega arith) refl
