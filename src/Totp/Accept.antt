-- ===== src/Totp/Accept.antt =====
-- When `verify_code` of config-api/app/admin_2fa.py accepts a code.
use pa_sso_proxy.Prelude.{
  ℕ, zero, suc, ◌+◌, ◌-◌, ◌/◌, ◌≤◌, ◌<◌, ◌≡◌, refl, ◌⊎◌, inl, inr, ◌↔◌, ◌≢◌, String, Bool, true,
  false, Option, none, some, all, arith, Bool-cases, Option-cases,
}
use pa_sso_proxy.Unicode.{Text, is_ascii, text_eq, text_eq_iff}
use pa_sso_proxy.Result.{ok, err, Result-eq_ok}
use pa_sso_proxy.Totp.{
  interval, Crypto, Raised, totp_secret_error, negative_counter, secret_not_base32,
  compare_type_error, AdminTotp, decrypt_secret, first_match, matching_counter, without_spaces,
  is_new, accept, settle, looks_like_code, verify_code,
}

-- A counter newer than the last one used.
abbrev pub IsNewer : Option ℕ → ℕ → Type 0
IsNewer none counter = Unit
IsNewer (some used) counter = used < counter

-- `counter` is a counter of the window around `now` whose code, for the row's secret, is `code`.
pub record Accepts (crypto : Crypto) (row : AdminTotp) (code : Text) (now counter : ℕ)
    : Type 0 where
  pub secret : String
  pub decrypts : crypto.decrypt row.secret_enc ≡ some secret
  pub otp : ℕ → Text
  pub codes : crypto.generate_otp secret ≡ some otp
  pub matches : otp counter ≡ code
  pub not_before : now / interval ≤ counter + 1
  pub not_after : counter ≤ now / interval + 1
  pub newer : IsNewer row.last_used_counter counter

first_match_sound :
    (otp : ℕ → Text) (code : Text) (counter left found : ℕ)
    → first_match otp code counter left ≡ some found
    → (otp found ≡ code) × (counter ≤ found) × (found < counter + left)
unfolding first_match
first_match_sound otp code counter zero found h = cc
first_match_sound otp code counter (suc left) found h =
    elim (Bool-cases (text_eq (otp counter) code)) [
      | inl e ↦ ground (arith, text_eq_iff (otp counter) code)
      | inr e ↦ ground (arith, first_match_sound otp code (counter + 1) left found)
    ]

decrypt_secret-eq_ok :
    (crypto : Crypto) (token secret : String)
    → decrypt_secret crypto token ≡ ok secret
    → crypto.decrypt token ≡ some secret
unfolding decrypt_secret
decrypt_secret-eq_ok crypto token secret h = ground arith

matching_counter_sound :
    (crypto : Crypto) (secret : String) (code : Text) (now counter : ℕ)
    → matching_counter crypto secret code now ≡ ok (some counter)
    → (otp : ℕ → Text) × (crypto.generate_otp secret ≡ some otp)
      × (otp counter ≡ code)
      × (now / interval ≤ counter + 1)
      × (counter ≤ now / interval + 1)
unfolding matching_counter
matching_counter_sound crypto secret code now counter h =
    elim (Option-cases (crypto.generate_otp secret)) [
      | inl n ↦ absurd (ground arith)
      | inr (otp, e) ↦
          let found : first_match otp code (now / interval - 1) 3 ≡ some counter = ground arith in
          let (matches, from, until) =
            first_match_sound otp code (now / interval - 1) 3 counter found in
          (otp, e, matches, ground arith, ground arith)
    ]

settle_sound :
    (row row' : AdminTotp) (now : ℕ) (found : Option ℕ)
    → settle row now found ≡ ok (true, row')
    → (counter : ℕ) × (found ≡ some counter)
      × IsNewer row.last_used_counter counter
      × (row' ≡ accept row counter now)
unfolding settle is_new
settle_sound row row' now none h = cc
settle_sound row row' now (some counter) h = elim (Option-cases row.last_used_counter) [
  | inl e ↦ (counter, refl, rw e tt, ground arith)
  | inr (used, e) ↦ (counter, refl, rw e (ground arith), ground arith)
]

settle_newer :
    (row : AdminTotp) (now counter : ℕ)
    → IsNewer row.last_used_counter counter
    → settle row now (some counter) ≡ ok (true, accept row counter now)
unfolding settle is_new
settle_newer row now counter h = elim (Option-cases row.last_used_counter) [
  | inl e ↦ ground arith
  | inr (used, e) ↦ let lt : used < counter = rw e at h in ground arith
]

-- How `verify_code` reaches an acceptance.
pub verify_code-eq_true :
    (crypto : Crypto) (row row' : AdminTotp) (raw : Text) (now : ℕ)
    → verify_code crypto row raw now ≡ ok (true, row')
    → (secret : String) × (counter : ℕ) × (crypto.decrypt row.secret_enc ≡ some secret)
      × (matching_counter crypto secret (without_spaces raw) now ≡ ok (some counter))
      × IsNewer row.last_used_counter counter
      × (row' ≡ accept row counter now)
unfolding verify_code
verify_code-eq_true crypto row row' raw now h =
    elim (Bool-cases (looks_like_code (without_spaces raw))) [
      | inr bad ↦ absurd (ground arith)
      | inl good ↦
          let (secret, decrypted, h₁) =
            Result-eq_ok (decrypt_secret crypto row.secret_enc) _ (rw good at h) in
          let (found, matched, h₂) =
            Result-eq_ok (matching_counter crypto secret (without_spaces raw) now) (settle row now)
              h₁ in
          let (counter, is_some, newer, same) = settle_sound row row' now found h₂ in
          (
            secret,
            counter,
            decrypt_secret-eq_ok crypto row.secret_enc secret decrypted,
            rw is_some at matched,
            newer,
            same,
          )
    ]

-- An accepted code is the code of a counter at most one step away from the present and newer than
-- the last one used, and the row then holds that counter and is confirmed.
pub verify_code_sound :
    (crypto : Crypto) (row row' : AdminTotp) (raw : Text) (now : ℕ)
    → verify_code crypto row raw now ≡ ok (true, row')
    → (counter : ℕ) × Accepts crypto row (without_spaces raw) now counter
      × (row'.secret_enc ≡ row.secret_enc)
      × (row'.last_used_counter ≡ some counter)
      × (row'.confirmed_at ≢ none)
unfolding accept
verify_code_sound crypto row row' raw now h =
    let (secret, counter, decrypted, matched, newer, same) =
      verify_code-eq_true crypto row row' raw now h in
    let (otp, codes, code, before, after) =
      matching_counter_sound crypto secret (without_spaces raw) now counter matched in
    (
      counter,
      record {
        secret = secret;
        decrypts = decrypted;
        otp = otp;
        codes = codes;
        matches = code;
        not_before = before;
        not_after = after;
        newer = newer;
      },
      ground arith,
      ground arith,
      ground arith,
    )

first_match_complete :
    (otp : ℕ → Text) (code : Text) (counter left found : ℕ)
    → otp found ≡ code
    → counter ≤ found
    → found < counter + left
    → ((d : ℕ) → counter ≤ d → d < found → otp d ≢ code)
    → first_match otp code counter left ≡ some found
unfolding first_match
first_match_complete otp code counter zero found e lo hi first = absurd (omega arith)
first_match_complete otp code counter (suc left) found e lo hi first =
    elim (Bool-cases (text_eq (otp counter) code)) [
      | inl here ↦ ground (arith, text_eq_iff (otp counter) code, first counter)
      | inr miss ↦
          rw (miss, first_match)
            (first_match_complete otp code (counter + 1) left found e
              (ground (arith, text_eq_iff (otp counter) code)) (omega arith)
              (λ d le. first d (omega arith)))
    ]

-- A code of a newer counter of the window is accepted, if it has the form of a code, is ASCII, is
-- not also the code of an earlier counter of the window, and the clock is past the first interval.
pub verify_code_complete :
    (crypto : Crypto) (row : AdminTotp) (raw : Text) (now counter : ℕ)
    → looks_like_code (without_spaces raw) ≡ true
    → all is_ascii (without_spaces raw) ≡ true
    → interval ≤ now
    → (a : Accepts crypto row (without_spaces raw) now counter)
    → ((d : ℕ) → now / interval ≤ d + 1 → d < counter → a.otp d ≢ without_spaces raw)
    → verify_code crypto row raw now ≡ ok (true, accept row counter now)
unfolding verify_code decrypt_secret matching_counter
verify_code_complete crypto row raw now counter form ascii later a first =
    let found =
      first_match_complete a.otp (without_spaces raw) (now / interval - 1) 3 counter a.matches
        (omega arith) (omega arith) (λ d le. first d (omega arith)) in
    let settled = settle_newer row now counter a.newer in
    let decrypted = a.decrypts in let codes = a.codes in ground arith

settle-ok :
    (row : AdminTotp) (now : ℕ) (found : Option ℕ)
    → (b : Bool) × (row' : AdminTotp) × (settle row now found ≡ ok (b, row'))
      × (b ≡ false → row' ≡ row)
unfolding settle
settle-ok row now none = (false, row, refl, λ h. refl)
settle-ok row now (some counter) = elim (Bool-cases (is_new row.last_used_counter counter)) [
  | inl new ↦ (true, accept row counter now, rw new, λ h. cc)
  | inr old ↦ (false, row, rw old, λ h. refl)
]

-- What must hold for `verify_code` to raise `e` on a text that has the form of a code.
abbrev pub Fails : Crypto → AdminTotp → Text → ℕ → Raised → Type 0
Fails crypto row code now e =
    (crypto.decrypt row.secret_enc ≡ none) × (e ≡ totp_secret_error)
    ⊎ (crypto.decrypt row.secret_enc ≢ none) × (now < interval) × (e ≡ negative_counter)
    ⊎ (interval ≤ now)
      × ((secret : String) × (crypto.decrypt row.secret_enc ≡ some secret)
          × ((crypto.generate_otp secret ≡ none) × (e ≡ secret_not_base32)
              ⊎ (crypto.generate_otp secret ≢ none)
                × (all is_ascii code ≡ false)
                × (e ≡ compare_type_error)))

-- `verify_code` raises an exception exactly when the text has the form of a code and `Fails` holds
-- of that exception: the token does not decrypt, the clock is in the first interval, the secret is not
-- base32, or the text is not ASCII, the first of these that is so.
pub verify_code_raises :
    (crypto : Crypto) (row : AdminTotp) (raw : Text) (now : ℕ) (e : Raised)
    → (verify_code crypto row raw now ≡ err e) ↔ (
        (looks_like_code (without_spaces raw) ≡ true) × Fails crypto row (without_spaces raw) now e)
unfolding verify_code decrypt_secret matching_counter
verify_code_raises crypto row raw now e = elim (Option-cases (crypto.decrypt row.secret_enc)) [
  | inl p ↦ (λ h. ground arith, λ h. ground arith)
  | inr (secret, p) ↦ elim (Option-cases (crypto.generate_otp secret)) [
    | inl n ↦ (λ h. ground arith, λ h. ground arith)
    | inr (otp, s) ↦
        let found =
          settle-ok row now (first_match otp (without_spaces raw) (now / interval - 1) 3) in
        (λ h. ground arith, λ h. ground arith)
  ]
]

-- A code that is not accepted leaves the row as it was.
pub verify_code_rejects :
    (crypto : Crypto) (row row' : AdminTotp) (raw : Text) (now : ℕ)
    → verify_code crypto row raw now ≡ ok (false, row')
    → row' ≡ row
unfolding verify_code decrypt_secret matching_counter
verify_code_rejects crypto row row' raw now h =
    elim (Option-cases (crypto.decrypt row.secret_enc)) [
      | inl p ↦ ground arith
      | inr (secret, p) ↦ elim (Option-cases (crypto.generate_otp secret)) [
        | inl n ↦ ground arith
        | inr (otp, s) ↦
            let found =
              settle-ok row now (first_match otp (without_spaces raw) (now / interval - 1) 3) in
            ground arith
      ]
    ]
