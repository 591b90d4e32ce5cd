-- ===== src/Totp/Replay.antt =====
-- The counters that `verify_code` of config-api/app/admin_2fa.py accepts, one after the other.
use pa_sso_proxy.Prelude.{
  inl, inr, Option-cases, ℕ, ◌/◌, ◌≤◌, ◌<◌, ◌≡◌, ◌≢◌, refl, String, Bool, true, false, some, List,
  [], ◌∷◌, arith, sym, subst, ◌∙◌,
}
use pa_sso_proxy.Unicode.{Text}
use pa_sso_proxy.Result.{Result, ok, err}
use pa_sso_proxy.Totp.{
  interval, Crypto, Raised, AdminTotp, accept, matching_counter, without_spaces, verify_code,
}
use pa_sso_proxy.Totp.Accept.{IsNewer, verify_code-eq_true, verify_code_sound, verify_code_rejects}

-- The row after a submission; one that raises leaves it alone.
abbrev pub row_after : AdminTotp → Result Raised (Bool × AdminTotp) → AdminTotp
row_after row (ok (_, row')) = row'
row_after row (err e) = row

-- The row after any submissions, each a text and its time.
unfoldable pub submit_all : Crypto → AdminTotp → List (Text × ℕ) → AdminTotp
submit_all crypto row [] = row
submit_all crypto row ((raw, now) ∷ rest) =
    submit_all crypto (row_after row (verify_code crypto row raw now)) rest

-- The counter `used` is spent.
abbrev pub Spent : ℕ → AdminTotp → Type 0
Spent used row = (last : ℕ) × (row.last_used_counter ≡ some last) × (used ≤ last)

abbrev Continues : ℕ → AdminTotp → AdminTotp → Type 0
Continues used row row' = (row'.secret_enc ≡ row.secret_enc) × Spent used row'

module _ (crypto : Crypto) where
  matching_counter-interval :
      (secret : String) (code : Text) (now now' : ℕ)
      → now' / interval ≡ now / interval
      → matching_counter crypto secret code now' ≡ matching_counter crypto secret code now
  unfolding matching_counter
  matching_counter-interval secret code now now' step =
      elim (Option-cases (crypto.generate_otp secret)) [
        | inl n ↦ ground arith
        | inr (otp, e) ↦ ground arith
      ]

  is_later-Spent :
      (used counter : ℕ) (row : AdminTotp)
      → Spent used row
      → IsNewer row.last_used_counter counter
      → used < counter
  is_later-Spent used counter row (last, e, le) newer =
      let lt : last < counter = rw e at newer in omega arith

  verify-Continues :
      (used : ℕ) (row : AdminTotp) (raw : Text) (now : ℕ) (r : Result Raised (Bool × AdminTotp))
      → verify_code crypto row raw now ≡ r
      → Spent used row
      → Continues used row (row_after row r)
  verify-Continues used row raw now (err e) h s = (refl, s)
  verify-Continues used row raw now (ok (false, row')) h s =
      let e = verify_code_rejects crypto row row' raw now h in
      subst (Continues used row) (sym e) (refl, s)
  verify-Continues used row raw now (ok (true, row')) h s =
      let (counter, accepted, same, last, _) = verify_code_sound crypto row row' raw now h in
      (same, (counter, last, omega (arith, is_later-Spent used counter row s accepted.newer)))

  submit_all-Continues :
      (used : ℕ) (row : AdminTotp) (events : List (Text × ℕ))
      → Spent used row
      → Continues used row (submit_all crypto row events)
  unfolding submit_all
  submit_all-Continues used row [] s = (refl, s)
  submit_all-Continues used row ((raw, now) ∷ events) s =
      let r = verify_code crypto row raw now in
      let (same, spent) = verify-Continues used row raw now r refl s in
      let (later, still) = submit_all-Continues used (row_after row r) events spent in
      (later ∙ same, still)

  -- However many submissions come in between, failing or not, a later acceptance is for a greater
  -- counter than an earlier one.
  pub verify_code_increases :
      (row row₁ row₂ : AdminTotp) (raw raw' : Text) (now now' : ℕ) (events : List (Text × ℕ))
      → verify_code crypto row raw now ≡ ok (true, row₁)
      → verify_code crypto (submit_all crypto row₁ events) raw' now' ≡ ok (true, row₂)
      → (used : ℕ) × (counter : ℕ) × (row₁.last_used_counter ≡ some used)
        × (row₂.last_used_counter ≡ some counter)
        × (used < counter)
  verify_code_increases row row₁ row₂ raw raw' now now' events h h' =
      let (used, _, _, last, _) = verify_code_sound crypto row row₁ raw now h in
      let row' = submit_all crypto row₁ events in
      let (counter, accepted, _, last', _) = verify_code_sound crypto row' row₂ raw' now' h' in
      let (_, spent) = submit_all-Continues used row₁ events (used, last, omega arith) in
      (used, counter, last, last', is_later-Spent used counter row' spent accepted.newer)

  -- A code that was accepted is not accepted again within the same interval of the clock, whatever
  -- is submitted in between.
  pub verify_code_replay :
      (row row₁ row₂ : AdminTotp) (raw : Text) (now now' : ℕ) (events : List (Text × ℕ))
      → now' / interval ≡ now / interval
      → verify_code crypto row raw now ≡ ok (true, row₁)
      → verify_code crypto (submit_all crypto row₁ events) raw now' ≢ ok (true, row₂)
  unfolding accept
  verify_code_replay row row₁ row₂ raw now now' events step h h' =
      let row' = submit_all crypto row₁ events in
      let (secret, counter, decrypted, matched, _, same) =
        verify_code-eq_true crypto row row₁ raw now h in
      let (secret', counter', decrypted', matched', newer, _) =
        verify_code-eq_true crypto row' row₂ raw now' h' in
      let last : row₁.last_used_counter ≡ some counter = ground arith in
      let (enc, spent) = submit_all-Continues counter row₁ events (counter, last, omega arith) in
      let one_secret : secret' ≡ secret = ground arith in
      let lt = is_later-Spent counter counter' row' spent newer in
      let again = matching_counter-interval secret (without_spaces raw) now now' step in
      absurd (ground arith)
