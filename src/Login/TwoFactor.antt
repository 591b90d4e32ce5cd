-- ===== src/Login/TwoFactor.antt =====
-- The routes of config-api/app/routes/login_2fa.py: the second factor and its enrolment. The guards
-- that open each route are functions of their own, over what the route does behind them.
pub mod Accepted
pub mod Cookie
use pa_sso_proxy.Prelude.{ℕ, String, Bool, true, false, not, Option, none, some, if◌then◌else◌}
use pa_sso_proxy.Unicode.{Text}
use pa_sso_proxy.Result.{Result, ok, err}
use pa_sso_proxy.Totp.{
  Raised, totp_secret_error, AdminTotp, Value, verify_code, get_or_create_pending,
}
use pa_sso_proxy.Login.{
  Config, World, Session, Request, login, login_2fa, login_setup, twofa_form, setup_form, Template,
  ban, bad_code, decrypt_error, redirect, page, server_error, Outcome, pending_user, back_to_login,
  complete_login, shown, check_ban, failed, cleared, is_confirmed,
}

-- What both submissions do with the verdict on the code.
conclude :
    Config
    → Request
    → World
    → Session
    → Value
    → Template
    → Option String
    → Result Raised (Bool × AdminTotp)
    → Outcome
unfolding complete_login cleared failed shown
conclude c r w s user template secret (ok (true, row)) =
    complete_login r (cleared r (record w { totp = some row })) user
conclude c r w s user template secret (ok (false, row)) =
    failed c r (record w { totp = some row }) s template bad_code secret
conclude c r w s user template secret (err e) = shown w s (server_error e)

-- `except TotpSecretError` of the second factor's submission.
or_decrypt_error : World → Session → Result Raised (Bool × AdminTotp) → Outcome → Outcome
unfolding shown
or_decrypt_error w s (err totp_secret_error) rest =
    shown w s (page twofa_form 200 (some decrypt_error) none)
or_decrypt_error w s _ rest = rest

page_of_row : Config → Request → World → Session → AdminTotp → Outcome
unfolding shown check_ban
page_of_row c r w s row = elim (c.crypto.decrypt row.secret_enc) [
  | none ↦ shown w s (page twofa_form 200 (some decrypt_error) none)
  | some secret ↦
      let (banned, remaining) = check_ban c r w in
      if banned
      then shown w s (page twofa_form 429 (some (ban remaining)) none)
      else shown w s (page twofa_form 200 none none)
]

submit_of_row : Config → Request → Text → World → Session → Value → AdminTotp → Outcome
unfolding shown check_ban conclude or_decrypt_error
submit_of_row c r code w s user row =
    let (banned, remaining) = check_ban c r w in
    let verdict = verify_code c.crypto row code r.now in
    if banned
    then shown w s (page twofa_form 429 (some (ban remaining)) none)
    else or_decrypt_error w s verdict (conclude c r w s user twofa_form none verdict)

-- A row that is missing or not confirmed sends the administrator to the enrolment.
with_confirmed : World → Session → (AdminTotp → Outcome) → Option AdminTotp → Outcome
unfolding shown is_confirmed
with_confirmed w s f none = shown w s (redirect login_setup)
with_confirmed w s f (some row) =
    if is_confirmed (some row) then f row else shown w s (redirect login_setup)

with_pending : Config → World → Session → (Value → Outcome) → Option Value → Outcome
unfolding shown back_to_login
with_pending c w s f pending =
    if c.twofa_enabled
    then elim pending [ none ↦ back_to_login w | some user ↦ f user ]
    else shown w s (redirect login)

unfoldable pub twofa_page : Config → Request → World → Session → Outcome
unfolding with_pending with_confirmed page_of_row pending_user
twofa_page c r w s =
    with_pending c w s (λ user. with_confirmed w s (page_of_row c r w s) w.totp)
      (pending_user s r.now)

unfoldable pub twofa_submit : Config → Request → Text → World → Session → Outcome
unfolding with_pending with_confirmed submit_of_row pending_user
twofa_submit c r code w s =
    with_pending c w s (λ user. with_confirmed w s (submit_of_row c r code w s user) w.totp)
      (pending_user s r.now)

page_of_pending : Config → Request → World → Session → Result Raised (AdminTotp × String) → Outcome
unfolding shown check_ban
page_of_pending c r w s (err e) = shown w s (server_error e)
page_of_pending c r w s (ok (row, secret)) =
    let w' = record w { totp = some row } in
    let (banned, remaining) = check_ban c r w' in
    if banned
    then shown w' s (page setup_form 429 (some (ban remaining)) (some secret))
    else shown w' s (page setup_form 200 none (some secret))

submit_of_pending :
    Config → Request → Text → World → Session → Value → Result Raised (AdminTotp × String) → Outcome
unfolding shown check_ban conclude
submit_of_pending c r code w s user (err e) = shown w s (server_error e)
submit_of_pending c r code w s user (ok (row, secret)) =
    let w' = record w { totp = some row } in
    let (banned, remaining) = check_ban c r w' in
    if banned
    then shown w' s (page setup_form 429 (some (ban remaining)) (some secret))
    else conclude c r w' s user setup_form (some secret) (verify_code c.crypto row code r.now)

-- A confirmed row is never enrolled again.
with_unconfirmed :
    Config → Request → World → Session → (Result Raised (AdminTotp × String) → Outcome) → Outcome
unfolding shown is_confirmed
with_unconfirmed c r w s f =
    if is_confirmed w.totp
    then shown w s (redirect login_2fa)
    else f (get_or_create_pending c.crypto w.totp r.secret r.entropy)

unfoldable pub setup_page : Config → Request → World → Session → Outcome
unfolding with_pending with_unconfirmed page_of_pending pending_user
setup_page c r w s =
    with_pending c w s (λ user. with_unconfirmed c r w s (page_of_pending c r w s))
      (pending_user s r.now)

unfoldable pub setup_submit : Config → Request → Text → World → Session → Outcome
unfolding with_pending with_unconfirmed submit_of_pending pending_user
setup_submit c r code w s =
    with_pending c w s (λ user. with_unconfirmed c r w s (submit_of_pending c r code w s user))
      (pending_user s r.now)
