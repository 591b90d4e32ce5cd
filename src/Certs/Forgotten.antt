-- ===== src/Certs/Forgotten.antt =====
-- A deleted certificate and the warning of metadata_expose (config-api/app/routes/certs.py and
-- metadata.py).
use pa_sso_proxy.Prelude.{
  ℕ, ◌≡◌, refl, sym, inl, inr, option_map, find, Increasing, find_key, find_unique, find_passes,
  find-Found, ==_iff, ==_refl, Option-cases, Bool, true, false, some, List, [], ◌∷◌, map, arith,
}
use pa_sso_proxy.Login.{Session}
use pa_sso_proxy.Metadata.{
  SpidMetadataVersion, SpidCert, Store, Effect, saved, active, auth_check, has_id,
}
use pa_sso_proxy.Metadata.Rows.{Versions}
use pa_sso_proxy.Metadata.Handlers.{
  metadata_expose, expose_version, expose_settings, cert_warning, other_cert,
}
use pa_sso_proxy.Certs.{has_cert_id, forget_cert, certs_delete}
use pa_sso_proxy.Certs.Active.{id_of, is_active}

find-forget_cert :
    (c j : ℕ) (rows : Versions)
    → find (has_id j) (map (forget_cert c) rows) ≡ option_map (forget_cert c) (find (has_id j) rows)
unfolding forget_cert has_id
find-forget_cert c j [] = refl
find-forget_cert c j (v ∷ rows) = elim (Option-cases v.cert_id) [
  | inl e ↦ ground (arith, find-forget_cert c j rows)
  | inr (k, e) ↦ ground (arith, find-forget_cert c j rows)
]

expose-warning :
    (works : Effect → Bool) (s : Session) (j : ℕ) (st : Store) (v : SpidMetadataVersion)
    → auth_check s ≡ true
    → find (has_id j) st.versions ≡ some v
    → (metadata_expose works s j st).response ≡ saved (cert_warning v st.certs)
unfolding metadata_expose expose_version expose_settings
expose-warning works s j st v auth f = ground arith

cert_warning-inactive :
    (certs : List SpidCert) (k : ℕ) (cert : SpidCert) (v : SpidMetadataVersion)
    → Increasing id_of certs
    → find (has_cert_id k) certs ≡ some cert
    → cert.is_active ≡ false
    → v.cert_id ≡ some cert.id
    → cert_warning v certs ≡ true
unfolding cert_warning other_cert active has_cert_id
cert_warning-inactive certs k cert v o g inactive signed =
    let id = find_key id_of certs k g in
    elim (Option-cases (find is_active certs)) [
      | inl e ↦ ground arith
      | inr (a, e) ↦
          let unique =
            find-Found is_active (λ c. c.id ≡ k → c ≡ cert) certs (find_unique id_of certs k o g)
              e in
          let on = find_passes is_active certs e in ground (arith, ==_iff a.id cert.id)
    ]

cert_warning-forget_cert :
    (c : ℕ) (v : SpidMetadataVersion) (certs : List SpidCert)
    → v.cert_id ≡ some c
    → cert_warning (forget_cert c v) certs ≡ false
unfolding cert_warning forget_cert
cert_warning-forget_cert c v certs signed = ground (arith, ==_refl c)

-- Deleting a certificate that is not active silences the warning about the versions that it signed,
-- for an administrator who is logged in and certificates with growing ids: exposing such a version
-- warns that its certificate is not the active one before the delete, and not after it.
pub warning_forgotten :
    (works : Effect → Bool) (s : Session) (j k : ℕ) (st : Store) (v : SpidMetadataVersion)
    (cert : SpidCert)
    → auth_check s ≡ true
    → Increasing id_of st.certs
    → find (has_id j) st.versions ≡ some v
    → find (has_cert_id k) st.certs ≡ some cert
    → cert.is_active ≡ false
    → v.cert_id ≡ some cert.id
    → ((metadata_expose works s j st).response ≡ saved true)
      × ((metadata_expose works s j (certs_delete s k st).store).response ≡ saved false)
unfolding certs_delete forget_cert
warning_forgotten works s j k st v cert auth o f g inactive signed =
    let after = (certs_delete s k st).store in
    let found : find (has_id j) after.versions ≡ some (forget_cert cert.id v) =
      ground (arith, find-forget_cert cert.id j st.versions) in
    let silent : cert_warning (forget_cert cert.id v) after.certs ≡ false =
      cert_warning-forget_cert cert.id v after.certs signed in
    (
      rw (sym (cert_warning-inactive st.certs k cert v o g inactive signed))
          (expose-warning works s j st v auth f),
      rw (sym silent) (expose-warning works s j after (forget_cert cert.id v) auth found),
    )
