-- ===== src/History/Keys.antt =====
-- The certificates along a history of calls, and the files spid_sp_cert.pem and spid_sp_key.pem that
-- SATOSA reads: config-api/app/routes/certs.py and spid_cert_writer.py.
use pa_sso_proxy.Prelude.{
  ℕ, String, ◌≡◌, refl, ◌⊎◌, inl, inr, find, Bool-cases, Option-cases, Bool, true, not, ◌&&◌,
  Option, List, [], ◌<◌, arith, All, subst, sym,
}
use pa_sso_proxy.Login.{Session}
use pa_sso_proxy.Metadata.{SpidCert, EnteSettings, Store, Effect, Outcome, auth_check}
use pa_sso_proxy.Metadata.Handlers.{
  completed, metadata_expose, metadata_validate, metadata_upload, metadata_download,
  metadata_delete, metadata_regenerate, metadata_history_redirect, upload_text, expose_version,
  expose_settings, after_expose,
}
use pa_sso_proxy.Certs.{
  certs_history, has_cert_id, is_complete, generate_spid_cert, after_activate, after_generate,
  generate_for, activate_only, certs_activate, certs_delete, certs_generate, certs_download,
  KeyFiles, written, all_written,
}
use pa_sso_proxy.Certs.Active.{
  InUse, Kept, after_activate-Kept, after_delete-Kept, after_generate-Kept,
}
use pa_sso_proxy.History.{
  Env, Call, handle, expose, validate, download, delete, upload, regenerate, activate_cert,
  delete_cert, download_cert, generate_cert, history_page, certs_page, save_settings,
}

abbrev pub all_work : Effect → Bool
all_work call = true

-- The states of the store and of the two files, from an empty table of certificates on, where the
-- ids of the certificates grow and every call under `try` succeeds.
pub data Issued (env : Env) : Store → Option KeyFiles → Type 0 where
  issue_start : (st : Store) (files : Option KeyFiles) → st.certs ≡ [] → Issued env st files
  issue_next :
      {st : Store} {files : Option KeyFiles}
      → Issued env st files
      → (s : Session) (call : Call) (id now : ℕ) → All (λ c. c.id < id) st.certs
      → Issued env
          (handle env all_work s call id now st).store
          (all_written (handle env all_work s call id now st).effects files)

-- The certificates and the files after a call.
abbrev pub KeptBy : Outcome → Option KeyFiles → Type 0
KeptBy o files = Kept o.store.certs (all_written o.effects files)

module _ (st : Store) (files : Option KeyFiles) (k : Kept st.certs files) where
  same-Kept :
      (o : Outcome)
      → o.store.certs ≡ st.certs
      → all_written o.effects files ≡ files
      → KeptBy o files
  same-Kept o c f =
      subst (λ cs. Kept cs (all_written o.effects files)) (sym c)
        (subst (λ fs. Kept st.certs fs) (sym f) k)

  new-Kept :
      (o : Outcome) (certs : List SpidCert) (fs : Option KeyFiles)
      → Kept certs fs
      → o.store.certs ≡ certs
      → all_written o.effects files ≡ fs
      → KeptBy o files
  new-Kept o certs fs h c f =
      subst (λ cs. Kept cs (all_written o.effects files)) (sym c)
        (subst (λ gs. Kept certs gs) (sym f) h)

  activate-Kept : (s : Session) (i : ℕ) → KeptBy (certs_activate all_work s i st) files
  unfolding certs_activate after_activate activate_only all_written written completed
  activate-Kept s i =
      let o = certs_activate all_work s i st in
      elim (Option-cases (find (has_cert_id i) st.certs)) [
        | inl e ↦ same-Kept o (ground arith) (ground arith)
        | inr (cert, e) ↦ elim (Bool-cases (auth_check s)) [
          | inr failed ↦ same-Kept o (ground arith) (ground arith)
          | inl passed ↦
              new-Kept o _ _ (after_activate-Kept st.certs i cert k.0 e) (ground arith)
                (ground arith)
        ]
      ]

  delete-Kept : (s : Session) (i : ℕ) → KeptBy (certs_delete s i st) files
  unfolding certs_delete all_written
  delete-Kept s i =
      let o = certs_delete s i st in
      elim (Option-cases (find (has_cert_id i) st.certs)) [
        | inl e ↦ same-Kept o (ground arith) (ground arith)
        | inr (cert, e) ↦ elim (Bool-cases (auth_check s && not cert.is_active)) [
          | inr failed ↦ same-Kept o (ground arith) (ground arith)
          | inl passed ↦
              new-Kept o _ _ (after_delete-Kept st.certs files i cert k e (ground arith))
                (ground arith) (ground arith)
        ]
      ]

  generate-Kept :
      (generate_key : EnteSettings → Option (String × String)) (s : Session) (id : ℕ)
      → All (λ c. c.id < id) st.certs
      → KeptBy (certs_generate all_work generate_key s id st) files
  unfolding certs_generate generate_for generate_spid_cert after_generate all_written written
      completed
  generate-Kept generate_key s id fresh =
      let o = certs_generate all_work generate_key s id st in
      elim (Bool-cases (auth_check s)) [
        | inr failed ↦ same-Kept o (ground arith) (ground arith)
        | inl passed ↦ elim (Option-cases st.settings) [
          | inl e ↦ same-Kept o (ground arith) (ground arith)
          | inr (settings, e) ↦ elim (Option-cases (generate_key settings)) [
            | inl f ↦ same-Kept o (ground arith) (ground arith)
            | inr (pems, f) ↦ elim (Bool-cases (is_complete settings)) [
              | inr incomplete ↦ same-Kept o (ground arith) (ground arith)
              | inl complete ↦
                  new-Kept o _ _
                    (after_generate-Kept st.certs
                      record {
                        id = id;
                        is_active = true;
                        certificate_pem = pems.0;
                        private_key_pem = pems.1;
                      }
                      k.0 fresh refl)
                    (ground arith) (ground arith)
            ]
          ]
        ]
      ]

  expose-Kept : (s : Session) (i : ℕ) → KeptBy (metadata_expose all_work s i st) files
  unfolding metadata_expose expose_version expose_settings after_expose all_written written
      completed
  expose-Kept s i = same-Kept (metadata_expose all_work s i st) (ground arith) (ground arith)

  validate-Kept : (s : Session) (i : ℕ) → KeptBy (metadata_validate s i st) files
  unfolding metadata_validate all_written
  validate-Kept s i = same-Kept (metadata_validate s i st) (ground arith) (ground arith)

  download-Kept : (s : Session) (i : ℕ) → KeptBy (metadata_download s i st) files
  unfolding metadata_download all_written
  download-Kept s i = same-Kept (metadata_download s i st) (ground arith) (ground arith)

  delete_version-Kept : (s : Session) (i : ℕ) → KeptBy (metadata_delete s i st) files
  unfolding metadata_delete all_written
  delete_version-Kept s i = same-Kept (metadata_delete s i st) (ground arith) (ground arith)

  upload-Kept :
      (env : Env) (s : Session) (raw : Option String) (id now : ℕ)
      → KeptBy (metadata_upload env.sha256 env.root_tag s raw id now st) files
  unfolding metadata_upload upload_text all_written
  upload-Kept env s raw id now =
      same-Kept (metadata_upload env.sha256 env.root_tag s raw id now st) (ground arith)
        (ground arith)

  regenerate-Kept : (s : Session) → KeptBy (metadata_regenerate all_work s st) files
  unfolding metadata_regenerate all_written written completed
  regenerate-Kept s = same-Kept (metadata_regenerate all_work s st) (ground arith) (ground arith)

  download_cert-Kept :
      (pem : SpidCert → String) (s : Session) (i : ℕ) → KeptBy (certs_download pem s i st) files
  unfolding certs_download all_written
  download_cert-Kept pem s i = same-Kept (certs_download pem s i st) (ground arith) (ground arith)

  certs_page-Kept : (s : Session) → KeptBy (certs_history s st) files
  unfolding certs_history all_written
  certs_page-Kept s = same-Kept (certs_history s st) (ground arith) (ground arith)

  handle-Kept :
      (env : Env) (s : Session) (call : Call) (id now : ℕ)
      → All (λ c. c.id < id) st.certs
      → KeptBy (handle env all_work s call id now st) files
  unfolding handle all_written metadata_history_redirect
  handle-Kept env s (expose i) id now fresh = expose-Kept s i
  handle-Kept env s (validate i) id now fresh = validate-Kept s i
  handle-Kept env s (download i) id now fresh = download-Kept s i
  handle-Kept env s (delete i) id now fresh = delete_version-Kept s i
  handle-Kept env s (upload raw) id now fresh = upload-Kept env s raw id now
  handle-Kept env s regenerate id now fresh = regenerate-Kept s
  handle-Kept env s (activate_cert i) id now fresh = activate-Kept s i
  handle-Kept env s (delete_cert i) id now fresh = delete-Kept s i
  handle-Kept env s (download_cert pem i) id now fresh = download_cert-Kept pem s i
  handle-Kept env s generate_cert id now fresh = generate-Kept env.generate_key s id fresh
  handle-Kept env s history_page id now fresh = k
  handle-Kept env s certs_page id now fresh = certs_page-Kept s
  handle-Kept env s (save_settings new) id now fresh = k

Issued-Kept :
    (env : Env) (st : Store) (files : Option KeyFiles) → Issued env st files → Kept st.certs files
Issued-Kept env st files (issue_start st₀ files₀ empty) =
    subst (λ cs. Kept cs files) (sym empty) (tt, inl refl)
Issued-Kept env st files (issue_next {st = before} {files = earlier} i s call id now fresh) =
    handle-Kept before earlier (Issued-Kept env before earlier i) env s call id now fresh

-- Along every sequence of calls from an empty table of certificates on, where the ids of new
-- certificates grow and each write to SATOSA's directory succeeds, there is no certificate at all,
-- or exactly one is active and the two files that SATOSA reads are its certificate and its key.
pub key_files_are_active :
    (env : Env) (st : Store) (files : Option KeyFiles)
    → Issued env st files
    → (st.certs ≡ []) ⊎ ((a : SpidCert) × InUse a st.certs files)
key_files_are_active env st files i = (Issued-Kept env st files i).1
