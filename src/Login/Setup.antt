-- ===== src/Login/Setup.antt =====
-- The enrolment of the second factor in config-api/app/routes/login_2fa.py.
use pa_sso_proxy.Prelude.{
  ℕ, ◌<◌, String, ◌≡◌, ◌≢◌, ◌⊎◌, inl, inr, true, false, Option, none, some, arith, Bool-cases, all,
}
use pa_sso_proxy.Unicode.{Text, is_ascii}
use pa_sso_proxy.Result.{ok, Result-cases}
use pa_sso_proxy.Totp.{
  Raised, compare_type_error, negative_counter, secret_not_base32, AdminTotp, verify_code,
  get_or_create_pending, interval, without_spaces,
}
use pa_sso_proxy.Totp.Accept.{verify_code_raises, verify_code_rejects}
use pa_sso_proxy.Totp.Enrollment.{
  Decrypts, get_or_create_pending_raises, get_or_create_pending_stable,
}
use pa_sso_proxy.Login.{
  Config, World, Session, Request, page, server_error, pending_user, is_confirmed, Template,
  Message,
}
use pa_sso_proxy.Login.TwoFactor.{twofa_page, twofa_submit, setup_page, setup_submit}
use pa_sso_proxy.Login.Calls.{
  Call, get_login, post_logout, get_twofa, get_setup, post_login, post_twofa, post_setup, handle,
}

get_or_create_pending-ok :
    (c : Config) (r : Request) (w : World)
    → is_confirmed w.totp ≡ false
    → (row : AdminTotp) × (secret : String) × (get_or_create_pending c.crypto w.totp r.secret
          r.entropy
        ≡ ok (row, secret))
unfolding is_confirmed
get_or_create_pending-ok c r w unconfirmed =
    elim (Result-cases (get_or_create_pending c.crypto w.totp r.secret r.entropy)) [
      | inl ((row, secret), e) ↦ (row, secret, e)
      | inr (x, e) ↦
          let (row, t, o, at, _) =
            (get_or_create_pending_raises c.crypto w.totp r.secret r.entropy x).0 e in
          absurd (ground arith)
    ]

-- Where Fernet reads back what it wrote, a submission of the enrolment raises only what
-- `verify_code` raises on a text that is not ASCII, before the first interval of the clock or on a
-- secret that is not base32: never for a secret that does not decrypt, and never for a row that is already confirmed.
pub setup_submit_raises :
    (c : Config) (r : Request) (code : Text) (w : World) (s : Session) (x : Raised)
    → Decrypts c.crypto
    → (setup_submit c r code w s).response ≡ server_error x
    → (x ≡ compare_type_error) × (all is_ascii (without_spaces code) ≡ false)
      ⊎ (x ≡ negative_counter) × (r.now < interval)
      ⊎ (x ≡ secret_not_base32)
unfolding setup_submit
setup_submit_raises c r code w s x roundtrip h = elim (Bool-cases (is_confirmed w.totp)) [
  | inl confirmed ↦ absurd (ground arith)
  | inr unconfirmed ↦
      let (row, secret, e) = get_or_create_pending-ok c r w unconfirmed in
      let (decrypts, _, _) =
        get_or_create_pending_stable c.crypto roundtrip w.totp row r.secret secret r.entropy e in
      elim (Result-cases (verify_code c.crypto row code r.now)) [
        | inl ((b, row'), v) ↦ absurd (ground arith)
        | inr (y, v) ↦ let f = (verify_code_raises c.crypto row code r.now y).0 v in ground arith
      ]
]

-- A page displays a secret only while no row is confirmed, to a session with a valid pending login,
-- and then it is the secret of the stored row, which is still not confirmed.
pub secret_shown :
    (c : Config) (r : Request) (call : Call) (w : World) (s : Session) (t : Template) (status : ℕ)
    (m : Option Message) (secret : String)
    → Decrypts c.crypto
    → (handle c r call w s).response ≡ page t status m (some secret)
    → (is_confirmed w.totp ≡ false)
      × (pending_user s r.now ≢ none)
      × ((row : AdminTotp) × ((handle c r call w s).world.totp ≡ some row)
          × (c.crypto.decrypt row.secret_enc ≡ some secret)
          × (row.confirmed_at ≡ none))
unfolding handle twofa_page twofa_submit setup_page setup_submit
secret_shown c r get_login w s t status m secret roundtrip h = absurd (ground arith)
secret_shown c r post_logout w s t status m secret roundtrip h = absurd (ground arith)
secret_shown c r get_twofa w s t status m secret roundtrip h = absurd (ground arith)
secret_shown c r get_setup w s t status m secret roundtrip h =
    elim (Bool-cases (is_confirmed w.totp)) [
      | inl confirmed ↦ absurd (ground arith)
      | inr unconfirmed ↦
          let (row, secret', e) = get_or_create_pending-ok c r w unconfirmed in
          let (decrypts, still, _) =
            get_or_create_pending_stable c.crypto roundtrip w.totp row r.secret secret' r.entropy
              e in
          (unconfirmed, ground arith, (row, ground arith, ground arith, still))
    ]
secret_shown c r (post_login u p) w s t status m secret roundtrip h = absurd (ground arith)
secret_shown c r (post_twofa code) w s t status m secret roundtrip h = absurd (ground arith)
secret_shown c r (post_setup code) w s t status m secret roundtrip h =
    elim (Bool-cases (is_confirmed w.totp)) [
      | inl confirmed ↦ absurd (ground arith)
      | inr unconfirmed ↦
          let (row, secret', e) = get_or_create_pending-ok c r w unconfirmed in
          let (decrypts, still, _) =
            get_or_create_pending_stable c.crypto roundtrip w.totp row r.secret secret' r.entropy
              e in
          elim (Result-cases (verify_code c.crypto row code r.now)) [
            | inl ((true, row'), v) ↦
                (unconfirmed, ground arith, (row, ground arith, ground arith, still))
            | inl ((false, row'), v) ↦
                let same = verify_code_rejects c.crypto row row' code r.now v in
                (unconfirmed, ground arith, (row, ground arith, ground arith, still))
            | inr (y, v) ↦ (unconfirmed, ground arith, (row, ground arith, ground arith, still))
          ]
    ]
