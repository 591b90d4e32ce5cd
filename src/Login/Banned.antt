-- ===== src/Login/Banned.antt =====
-- What a banned address and a wrong password or code lead to (config-api/app/main.py and
-- routes/login_2fa.py).
use pa_sso_proxy.Prelude.{
  ℕ, String, ◌≡◌, ◌≢◌, ◌↔◌, refl, ◌⊎◌, Bool, true, false, ◌&&◌, none, some, arith, str_eq, eq_iff,
}
use pa_sso_proxy.Unicode.{Text}
use pa_sso_proxy.Result.{Result, ok, err}
use pa_sso_proxy.RateLimiter.{is_ip_banned, record_failed_attempt, clear_attempts}
use pa_sso_proxy.Totp.{Raised, AdminTotp, Value, verify_code}
use pa_sso_proxy.Totp.Accept.{verify_code_rejects}
use pa_sso_proxy.Login.{
  Config, World, Session, Request, page, ban, login_form, client_ip, pending_user, login_post,
}
use pa_sso_proxy.Login.TwoFactor.{twofa_submit, setup_submit}
use pa_sso_proxy.Login.TwoFactor.Accepted.{Enters, twofa_submit-Enters, setup_submit-Enters}

module _ (c : Config) (r : Request) (w : World) (s : Session) (n : ℕ) where
  -- While its address is banned, the password's form answers 429 whatever the credentials are and
  -- changes nothing, and no code authenticates the session or changes the counted failures.
  pub banned_refused :
      (username password : String) (code : Text)
      → is_ip_banned c.limits w.attempts (client_ip r) r.now ≡ (true, n)
      → (login_post c r username password w s
          ≡ record { response = page login_form 429 (some (ban n)) none; world = w; session = s })
        × ¬ Enters s (twofa_submit c r code w s)
        × ((twofa_submit c r code w s).world ≡ w)
        × ¬ Enters s (setup_submit c r code w s)
        × ((setup_submit c r code w s).world.attempts ≡ w.attempts)
  unfolding login_post twofa_submit setup_submit
  banned_refused username password code banned = (
    ground arith,
    λ e. ground (arith, (twofa_submit-Enters c r w s code e).5.not_banned),
    ground arith,
    λ e. ground (arith, (setup_submit-Enters c r w s code e).5.not_banned),
    ground arith,
  )

-- Wrong credentials from an address that is not banned are recorded once, the session and the
-- second factor stay as they are, and the answer is 429 with `n` minutes exactly if the address is
-- banned for `n` minutes from then on.
pub wrong_credentials :
    (c : Config) (r : Request) (username password : String) (w : World) (s : Session) (n : ℕ)
    → (is_ip_banned c.limits w.attempts (client_ip r) r.now).0 ≡ false
    → (username ≢ c.admin_user) ⊎ (password ≢ c.admin_password)
    → ((login_post c r username password w s).world
        ≡ record w { attempts = record_failed_attempt w.attempts (client_ip r) r.stamp r.now })
      × ((login_post c r username password w s).session ≡ s)
      × (((login_post c r username password w s).response ≡ page login_form 429 (some (ban n)) none)
          ↔ (is_ip_banned c.limits
                (login_post c r username password w s).world.attempts
                (client_ip r)
                r.now
              ≡ (true, n)))
unfolding login_post
wrong_credentials c r username password w s n free wrong =
    let refused : (str_eq username c.admin_user && str_eq password c.admin_password) ≡ false =
      ground (arith, eq_iff username c.admin_user, eq_iff password c.admin_password) in
    (ground arith, ground arith, (λ h. ground arith, λ h. ground arith))

abbrev pub Counts : Request → World → World → Result Raised (Bool × AdminTotp) → Type 0
Counts r w w' (ok (true, row)) =
    w' ≡ record { attempts = clear_attempts w.attempts (client_ip r); totp = some row }
Counts r w w' (ok (false, row)) =
    w' ≡ record w { attempts = record_failed_attempt w.attempts (client_ip r) r.stamp r.now }
Counts r w w' (err e) = w' ≡ w

-- A submission that reaches the check of the code, with a pending login and a confirmed row: an
-- accepted code clears the failures of the address and stores the row's counter, a rejected one is
-- recorded as one failure with the row unchanged, and one that raises is not recorded.
pub twofa_submit-Counts :
    (c : Config) (r : Request) (code : Text) (w : World) (s : Session) (user : Value)
    (row : AdminTotp)
    → c.twofa_enabled ≡ true
    → pending_user s r.now ≡ some user
    → w.totp ≡ some row
    → row.confirmed_at ≢ none
    → (is_ip_banned c.limits w.attempts (client_ip r) r.now).0 ≡ false
    → Counts r w (twofa_submit c r code w s).world (verify_code c.crypto row code r.now)
unfolding twofa_submit
twofa_submit-Counts c r code w s user row enabled p q confirmed free =
    go (verify_code c.crypto row code r.now) refl
  where
    go :
        (v : Result Raised (Bool × AdminTotp))
        → verify_code c.crypto row code r.now ≡ v
        → Counts r w (twofa_submit c r code w s).world v
    go (ok (true, row')) h = ground arith
    go (ok (false, row')) h = ground (arith, verify_code_rejects c.crypto row row' code r.now h)
    go (err e) h = ground arith
