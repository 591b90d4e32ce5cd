-- ===== src/Login/TwoFactor/Accepted.antt =====
-- Which submissions of config-api/app/routes/login_2fa.py authenticate a session.
use pa_sso_proxy.Prelude.{
  String, ◌≡◌, ◌≢◌, refl, subst, sym, ◌∙◌, inl, inr, Bool, true, false, Option, none, some, arith,
  Bool-cases,
}
use pa_sso_proxy.Unicode.{Text}
use pa_sso_proxy.Result.{Result, ok, err}
use pa_sso_proxy.RateLimiter.{is_ip_banned}
use pa_sso_proxy.Totp.{
  Raised, totp_secret_error, AdminTotp, Value, verify_code, get_or_create_pending,
}
use pa_sso_proxy.Login.{
  Config, World, Session, Request, Outcome, Template, client_ip, pending_user, is_confirmed,
  check_ban, complete_login, cleared, shown, back_to_login, failed, twofa_form, setup_form, Message,
  Response, bad_code, server_error,
}
use pa_sso_proxy.Login.TwoFactor.{
  conclude, or_decrypt_error, page_of_row, submit_of_row, with_confirmed, with_pending,
  with_unconfirmed, page_of_pending, submit_of_pending, twofa_page, twofa_submit, setup_page,
  setup_submit,
}

-- The outcome authenticates a session that was not authenticated.
abbrev pub Enters : Session → Outcome → Type 0
Enters s o = (s.user ≡ none) × (o.session.user ≢ none)

-- The address may try, and `verify_code` accepts `code` for `row`; then `o` is the completed login.
pub record Passed (c : Config) (r : Request) (code : Text) (w : World) (user : Value)
    (row : AdminTotp) (o : Outcome) : Type 0 where
  pub row' : AdminTotp
  pub not_banned : (is_ip_banned c.limits w.attempts (client_ip r) r.now).0 ≡ false
  pub accepted : verify_code c.crypto row code r.now ≡ ok (true, row')
  pub completed : o ≡ complete_login r (cleared r (record w { totp = some row' })) user

not-Enters-shown : (w : World) (s : Session) (p : Response) → ¬ Enters s (shown w s p)
unfolding shown
not-Enters-shown w s p (h, k) = k h

with_pending-Enters :
    (c : Config) (w : World) (s : Session) (f : Value → Outcome) (p : Option Value)
    → Enters s (with_pending c w s f p)
    → (user : Value) × (p ≡ some user) × (with_pending c w s f p ≡ f user)
unfolding with_pending back_to_login shown
with_pending-Enters c w s f none (h, k) = absurd (ground arith)
with_pending-Enters c w s f (some user) (h, k) = (user, refl, ground arith)

with_confirmed-Enters :
    (w : World) (s : Session) (f : AdminTotp → Outcome) (o : Option AdminTotp)
    → Enters s (with_confirmed w s f o)
    → (row : AdminTotp) × (o ≡ some row)
      × (row.confirmed_at ≢ none)
      × (with_confirmed w s f o ≡ f row)
unfolding with_confirmed is_confirmed shown
with_confirmed-Enters w s f none (h, k) = absurd (k h)
with_confirmed-Enters w s f (some row) (h, k) = (row, refl, ground arith, ground arith)

with_unconfirmed-Enters :
    (c : Config) (r : Request) (w : World) (s : Session)
    (f : Result Raised (AdminTotp × String) → Outcome)
    → Enters s (with_unconfirmed c r w s f)
    → (is_confirmed w.totp ≡ false)
      × (with_unconfirmed c r w s f ≡ f (get_or_create_pending c.crypto w.totp r.secret r.entropy))
unfolding with_unconfirmed shown
with_unconfirmed-Enters c r w s f (h, k) = (ground arith, ground arith)

failed-Enters :
    (c : Config) (r : Request) (w : World) (s : Session) (t : Template) (m : Message)
    (secret : Option String)
    → ¬ Enters s (failed c r w s t m secret)
unfolding failed shown
failed-Enters c r w s t m secret (h, k) = ground arith

conclude-Enters :
    (c : Config) (r : Request) (w : World) (s : Session) (user : Value) (t : Template)
    (secret : Option String) (v : Result Raised (Bool × AdminTotp))
    → Enters s (conclude c r w s user t secret v)
    → (row : AdminTotp) × (v ≡ ok (true, row))
      × (conclude c r w s user t secret v
          ≡ complete_login r (cleared r (record w { totp = some row })) user)
unfolding conclude
conclude-Enters c r w s user t secret (ok (true, row)) e = (row, refl, refl)
conclude-Enters c r w s user t secret (ok (false, row)) e =
    absurd (failed-Enters c r (record w { totp = some row }) s t bad_code secret e)
conclude-Enters c r w s user t secret (err x) e = absurd (not-Enters-shown w s (server_error x) e)

or_decrypt_error-Enters :
    (w : World) (s : Session) (v : Result Raised (Bool × AdminTotp)) (rest : Outcome)
    → Enters s (or_decrypt_error w s v rest)
    → or_decrypt_error w s v rest ≡ rest
unfolding or_decrypt_error shown
or_decrypt_error-Enters w s (ok v) rest e = refl
or_decrypt_error-Enters w s (err totp_secret_error) rest (h, k) = absurd (k h)
or_decrypt_error-Enters w s (err x) rest e = refl

submit_of_row-Enters :
    (c : Config) (r : Request) (code : Text) (w : World) (s : Session) (user : Value)
    (row : AdminTotp)
    → Enters s (submit_of_row c r code w s user row)
    → Passed c r code w user row (submit_of_row c r code w s user row)
unfolding submit_of_row check_ban
submit_of_row-Enters c r code w s user row e =
    elim (Bool-cases (is_ip_banned c.limits w.attempts (client_ip r) r.now).0) [
      | inl banned ↦ absurd (e.1 (rw banned e.0))
      | inr free ↦
          let v = verify_code c.crypto row code r.now in
          let rest = conclude c r w s user twofa_form none v in
          let e₁ : Enters s (or_decrypt_error w s v rest) = rw free at e in
          let same = or_decrypt_error-Enters w s v rest e₁ in
          let (row', accepted, done) =
            conclude-Enters c r w s user twofa_form none v (subst (Enters s) same e₁) in
          record {
            row' = row';
            not_banned = free;
            accepted = accepted;
            completed = rw free (same ∙ done);
          }
    ]

submit_of_pending-Enters :
    (c : Config) (r : Request) (code : Text) (w : World) (s : Session) (user : Value)
    (p : Result Raised (AdminTotp × String))
    → Enters s (submit_of_pending c r code w s user p)
    → (row : AdminTotp) × (secret : String) × (p ≡ ok (row, secret))
      × Passed c r code w user row (submit_of_pending c r code w s user p)
unfolding submit_of_pending check_ban
submit_of_pending-Enters c r code w s user (err x) e =
    absurd (not-Enters-shown w s (server_error x) e)
submit_of_pending-Enters c r code w s user (ok (row, secret)) e =
    elim (Bool-cases (is_ip_banned c.limits w.attempts (client_ip r) r.now).0) [
      | inl banned ↦ absurd (e.1 (rw banned e.0))
      | inr free ↦
          let v = verify_code c.crypto row code r.now in
          let w' = record w { totp = some row } in
          let e₁ : Enters s (conclude c r w' s user setup_form (some secret) v) = rw free at e in
          let (row', accepted, done) =
            conclude-Enters c r w' s user setup_form (some secret) v e₁ in
          (
            row,
            secret,
            refl,
            record {
              row' = row';
              not_banned = free;
              accepted = accepted;
              completed = rw free done;
            },
          )
    ]

page_of_row-Enters :
    (c : Config) (r : Request) (w : World) (s : Session) (row : AdminTotp)
    → ¬ Enters s (page_of_row c r w s row)
unfolding page_of_row
page_of_row-Enters c r w s row (h, k) = ground arith

page_of_pending-Enters :
    (c : Config) (r : Request) (w : World) (s : Session) (p : Result Raised (AdminTotp × String))
    → ¬ Enters s (page_of_pending c r w s p)
unfolding page_of_pending
page_of_pending-Enters c r w s (err x) (h, k) = k h
page_of_pending-Enters c r w s (ok (row, secret)) (h, k) = ground arith

module _ (c : Config) (r : Request) (w : World) (s : Session) where
  pub not-Enters-twofa_page : ¬ Enters s (twofa_page c r w s)
  unfolding twofa_page
  not-Enters-twofa_page e =
      let f = λ (user : Value). with_confirmed w s (page_of_row c r w s) w.totp in
      let (user, p, same) = with_pending-Enters c w s f (pending_user s r.now) e in
      let e₁ : Enters s (f user) = subst (Enters s) same e in
      let (row, o, _, same₁) = with_confirmed-Enters w s (page_of_row c r w s) w.totp e₁ in
      page_of_row-Enters c r w s row (subst (Enters s) same₁ e₁)

  pub not-Enters-setup_page : ¬ Enters s (setup_page c r w s)
  unfolding setup_page
  not-Enters-setup_page e =
      let f = λ (user : Value). with_unconfirmed c r w s (page_of_pending c r w s) in
      let (user, p, same) = with_pending-Enters c w s f (pending_user s r.now) e in
      let e₁ : Enters s (f user) = subst (Enters s) same e in
      let (o, same₁) = with_unconfirmed-Enters c r w s (page_of_pending c r w s) e₁ in
      page_of_pending-Enters c r w s _ (subst (Enters s) same₁ e₁)

  module _ (code : Text) where
    -- what `twofa_submit` has checked of a session that it authenticates
    pub twofa_submit-Enters :
        Enters s (twofa_submit c r code w s)
        → (user : Value) × (row : AdminTotp) × (pending_user s r.now ≡ some user)
          × (w.totp ≡ some row)
          × (row.confirmed_at ≢ none)
          × Passed c r code w user row (twofa_submit c r code w s)
    unfolding twofa_submit
    twofa_submit-Enters e =
        let f = λ (user : Value). with_confirmed w s (submit_of_row c r code w s user) w.totp in
        let (user, p, same) = with_pending-Enters c w s f (pending_user s r.now) e in
        let e₁ : Enters s (f user) = subst (Enters s) same e in
        let (row, o, confirmed, same₁) =
          with_confirmed-Enters w s (submit_of_row c r code w s user) w.totp e₁ in
        let passed = submit_of_row-Enters c r code w s user row (subst (Enters s) same₁ e₁) in
        (user, row, p, o, confirmed, subst (Passed c r code w user row) (sym (same ∙ same₁)) passed)

    -- what `setup_submit` has checked of a session that it authenticates
    pub setup_submit-Enters :
        Enters s (setup_submit c r code w s)
        → (user : Value) × (row : AdminTotp) × (pending_user s r.now ≡ some user)
          × (is_confirmed w.totp ≡ false)
          × ((secret : String) × (get_or_create_pending c.crypto w.totp r.secret r.entropy
                ≡ ok (row, secret)))
          × Passed c r code w user row (setup_submit c r code w s)
    unfolding setup_submit
    setup_submit-Enters e =
        let f = λ (user : Value). with_unconfirmed c r w s (submit_of_pending c r code w s user) in
        let (user, p, same) = with_pending-Enters c w s f (pending_user s r.now) e in
        let e₁ : Enters s (f user) = subst (Enters s) same e in
        let (open_row, same₁) =
          with_unconfirmed-Enters c r w s (submit_of_pending c r code w s user) e₁ in
        let (row, secret, got, passed) =
          submit_of_pending-Enters c r code w s user _ (subst (Enters s) same₁ e₁) in
        (
          user,
          row,
          p,
          open_row,
          (secret, got),
          subst (Passed c r code w user row) (sym (same ∙ same₁)) passed,
        )
