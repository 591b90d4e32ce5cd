-- ===== src/Totp/Enrollment.antt =====
-- The pending secret of config-api/app/admin_2fa.py: `get_or_create_pending`.
use pa_sso_proxy.Prelude.{
  ℕ, ◌≡◌, refl, ◌↔◌, String, Option, none, some, arith, Option-cases, inl, inr,
}
use pa_sso_proxy.Result.{ok, err}
use pa_sso_proxy.Totp.{Crypto, Raised, already_confirmed, AdminTotp, reuse, get_or_create_pending}

-- What Fernet documents: a token that it made is read back under the same key.
abbrev pub Decrypts : Crypto → Type 0
Decrypts crypto = (entropy : ℕ) (s : String) → crypto.decrypt (crypto.encrypt entropy s) ≡ some s

abbrev pub IsPending : Crypto → AdminTotp → String → Type 0
IsPending crypto row shown =
    (crypto.decrypt row.secret_enc ≡ some shown) × (row.confirmed_at ≡ none)

module _ (crypto : Crypto) (roundtrip : Decrypts crypto) where
  reuse-IsPending :
      (row row' : AdminTotp) (secret shown : String) (entropy : ℕ) (confirmed : Option ℕ)
      (found : Option String)
      → row.confirmed_at ≡ confirmed
      → crypto.decrypt row.secret_enc ≡ found
      → reuse crypto row secret entropy confirmed found ≡ ok (row', shown)
      → IsPending crypto row' shown
  unfolding reuse
  reuse-IsPending row row' secret shown entropy (some t) found c f h = cc
  reuse-IsPending row row' secret shown entropy none (some s) c f h = ground arith
  reuse-IsPending row row' secret shown entropy none none c f h =
      ground (arith, roundtrip entropy secret)

  pub get_or_create_pending-IsPending :
      (row : Option AdminTotp) (row' : AdminTotp) (secret shown : String) (entropy : ℕ)
      → get_or_create_pending crypto row secret entropy ≡ ok (row', shown)
      → IsPending crypto row' shown
  unfolding get_or_create_pending
  get_or_create_pending-IsPending none row' secret shown entropy h =
      ground (arith, roundtrip entropy secret)
  get_or_create_pending-IsPending (some row) row' secret shown entropy h =
      reuse-IsPending row row' secret shown entropy row.confirmed_at (crypto.decrypt row.secret_enc)
        refl refl h

  -- The secret that is shown is the one that the stored row decrypts to, the row is not confirmed,
  -- and every later call, whatever it draws, shows the same secret and keeps the row.
  pub get_or_create_pending_stable :
      (row : Option AdminTotp) (row' : AdminTotp) (secret shown : String) (entropy : ℕ)
      → get_or_create_pending crypto row secret entropy ≡ ok (row', shown)
      → (crypto.decrypt row'.secret_enc ≡ some shown)
        × (row'.confirmed_at ≡ none)
        × ((secret' : String) (entropy' : ℕ)
            → get_or_create_pending crypto (some row') secret' entropy' ≡ ok (row', shown))
  unfolding get_or_create_pending
  get_or_create_pending_stable row row' secret shown entropy h =
      let (decrypts, unconfirmed) =
        get_or_create_pending-IsPending row row' secret shown entropy h in
      (decrypts, unconfirmed, λ secret' entropy'. ground arith)

-- `get_or_create_pending` raises exactly when the row is confirmed, so a confirmed secret is never
-- shown again or replaced by it.
pub get_or_create_pending_raises :
    (crypto : Crypto) (row : Option AdminTotp) (secret : String) (entropy : ℕ) (e : Raised)
    → (get_or_create_pending crypto row secret entropy ≡ err e) ↔ (
        (r : AdminTotp) × (t : ℕ) × (row ≡ some r)
        × (r.confirmed_at ≡ some t)
        × (e ≡ already_confirmed))
unfolding get_or_create_pending
get_or_create_pending_raises crypto none secret entropy e = (λ h. cc, λ h. cc h.2)
get_or_create_pending_raises crypto (some row) secret entropy e =
    elim (Option-cases row.confirmed_at) [
      | inl c ↦ (λ h. absurd (ground arith), λ h. absurd (ground arith))
      | inr (t, c) ↦ (λ h. (row, t, refl, c, ground arith), λ h. ground arith)
    ]
