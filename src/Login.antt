-- ===== src/Login.antt =====
-- The administrator's login: config-api/app/main.py (login, logout, session expiry), auth.py and
-- routes/login_2fa.py. A handler takes the database and the session cookie of one request and
-- gives back both with its response. A request reads the clock once, in microseconds; the
-- cookie's times are whole seconds.
pub mod TwoFactor
pub mod Calls
pub mod Expiry
pub mod Factors
pub mod Banned
pub mod Setup
mod Tests
use pa_sso_proxy.Prelude.{
  ℕ, zero, suc, ◌+◌, ◌-◌, ◌*◌, ◌/◌, String, Bool, true, false, not, ◌&&◌, ◌||◌, Option, none, some,
  List, [], ◌∷◌, ◌==◌, ltb, leb, if◌then◌else◌, str_eq,
}
use pa_sso_proxy.Unicode.{Text}
use pa_sso_proxy.Result.{Result, ok, err, ◌>>=◌}
use pa_sso_proxy.RateLimiter.{
  second, LoginAttempt, Limits, is_ip_banned, record_failed_attempt, clear_attempts,
}
use pa_sso_proxy.Totp.{
  Crypto, Raised, totp_secret_error, AdminTotp, Value, text, int, Pending, no_dict, dict,
  pending_is_valid, decrypt_secret, verify_code, get_or_create_pending,
}

-- The environment of the process; `twofa_enabled` is `is_2fa_enabled()`.
pub record Config : Type 0 where
  pub admin_user : String
  pub admin_password : String
  pub twofa_enabled : Bool
  pub session_max_age : ℕ
  pub limits : Limits
  pub crypto : Crypto

pub record World : Type 0 where
  pub attempts : List LoginAttempt
  pub totp : Option AdminTotp

-- The cookie's keys that the login reads; `others` are the keys of the remaining routes.
pub record Session : Type 0 where
  pub user : Option Value
  pub last_activity : Option ℕ
  pub pending_2fa : Option Pending
  pub others : List (String × Value)

abbrev pub no_session : Session
no_session = record { user = none; last_activity = none; pending_2fa = none; others = [] }

-- `stamp` is the database's clock at an insert; `secret` and `entropy` are what the random
-- generators draw.
pub record Request : Type 0 where
  pub real_ip : Option String
  pub host : Option String
  pub now : ℕ
  pub stamp : ℕ
  pub secret : String
  pub entropy : ℕ

pub data Target : Type 0 where
  admin_home login login_timeout login_2fa login_setup : Target

pub data Template : Type 0 where
  login_form twofa_form setup_form : Template

pub data Message : Type 0 where
  ban : ℕ → Message
  bad_credentials bad_code decrypt_error : Message

pub data Response : Type 0 where
  redirect : Target → Response
  -- template, status, message, and the secret that the page displays
  page : Template → ℕ → Option Message → Option String → Response
  -- an exception that no handler catches
  server_error : Raised → Response

pub record Outcome : Type 0 where
  pub response : Response
  pub world : World
  pub session : Session

pub or_unknown : Option String → String
or_unknown none = "unknown"
or_unknown (some host) = host

-- An empty x-real-ip header counts as none.
pub client_ip : Request → String
unfolding or_unknown
client_ip r = elim r.real_ip [
  | none ↦ or_unknown r.host
  | some ip ↦ if str_eq ip "" then or_unknown r.host else ip
]

pub pending_user : Session → ℕ → Option Value
pending_user s now = elim s.pending_2fa [
  | none ↦ none
  | some no_dict ↦ none
  | some (dict user ts) ↦ if pending_is_valid (dict user ts) now then some user else none
]

pub back_to_login : World → Outcome
back_to_login w = record { response = redirect login; world = w; session = no_session }

pub complete_login : Request → World → Value → Outcome
complete_login r w user = record {
  response = redirect admin_home;
  world = w;
  session = record no_session { user = some user; last_activity = some (r.now / second) };
}

-- A page or redirect that writes nothing.
pub shown : World → Session → Response → Outcome
shown w s response = record { response = response; world = w; session = s }

pub check_ban : Config → Request → World → Bool × ℕ
check_ban c r w = is_ip_banned c.limits w.attempts (client_ip r) r.now

-- The failure is recorded first; the answer is 429 if that is one too many.
pub failed : Config → Request → World → Session → Template → Message → Option String → Outcome
unfolding shown check_ban
failed c r w s template message secret =
    let w' = record w { attempts = record_failed_attempt w.attempts (client_ip r) r.stamp r.now } in
    let (banned, remaining) = check_ban c r w' in
    if banned
    then shown w' s (page template 429 (some (ban remaining)) secret)
    else shown w' s (page template 200 (some message) secret)

pub cleared : Request → World → World
cleared r w = record w { attempts = clear_attempts w.attempts (client_ip r) }

pub is_confirmed : Option AdminTotp → Bool
is_confirmed none = false
is_confirmed (some row) = elim row.confirmed_at [ none ↦ false | some t ↦ true ]

-- `?timeout=1` adds a warning to the page, which says nothing that the model keeps.
pub login_page : Config → Request → World → Session → Outcome
unfolding shown check_ban
login_page c r w s =
    let (banned, remaining) = check_ban c r w in
    shown w s (page login_form 200 (if banned then some (ban remaining) else none) none)

pub login_post : Config → Request → String → String → World → Session → Outcome
unfolding shown failed check_ban cleared is_confirmed
login_post c r username password w s =
    let (banned, remaining) = check_ban c r w in
    if banned
    then shown w s (page login_form 429 (some (ban remaining)) none)
    else if str_eq username c.admin_user && str_eq password c.admin_password
    then (if not c.twofa_enabled
        then record {
          response = redirect admin_home;
          world = cleared r w;
          session = record s { user = some (text username); last_activity = some (r.now / second) };
        }
        else record {
          response = redirect (if is_confirmed w.totp then login_2fa else login_setup);
          world = w;
          session = record no_session {
            pending_2fa = some (dict (text username) (int (r.now / second)));
          };
        })
    else failed c r w s login_form bad_credentials none

pub logout : World → Session → Outcome
logout w s = record { response = redirect login; world = w; session = no_session }
