-- ===== src/History/Operations.antt =====
-- The calls and the invariant of the metadata's history: the handlers of
-- config-api/app/routes/metadata.py and certs.py, and log_metadata_snapshot of internal.py.
use pa_sso_proxy.Prelude.{
  ℕ, String, ◌≡◌, refl, sym, ◌∙◌, subst, inl, inr, find, if◌then◌else◌, Bool-cases, Option-cases,
  ◌&&◌, ◌||◌, Bool, true, false, not, Option, none, some, arith, str_eq, eq_iff,
}
use pa_sso_proxy.Login.{Session}
use pa_sso_proxy.Metadata.{
  SpidCert, EnteSettings, Store, Effect, Snapshot, auth_check, has_id, is_generated, validate_only,
  hash_of, snapshot_row, after_row, log_metadata_snapshot,
}
use pa_sso_proxy.Metadata.Rows.{find_id}
use pa_sso_proxy.Metadata.Handlers.{
  Tag, metadata_expose, metadata_validate, metadata_upload, metadata_delete, metadata_download,
  metadata_regenerate, metadata_history_redirect, upload_text, is_some, same_upload, uploaded_row,
  expose_version, expose_settings, after_expose,
}
use pa_sso_proxy.Certs.{
  certs_history, forget_cert, certs_activate, certs_delete, certs_generate, certs_download,
  has_cert_id,
}
use pa_sso_proxy.History.{
  Env, Call, Fresh, KeepsLast, handle, expose, validate, download, delete, upload, regenerate,
  activate_cert, delete_cert, download_cert, generate_cert, history_page, certs_page, save_settings,
}
use pa_sso_proxy.History.Consistent.{
  Consistent, upload-Consistent, expose-Consistent, delete-Consistent,
}
use pa_sso_proxy.History.Steps.{Leaves, same-Consistent, map-Consistent, row-Consistent}

module _ (st : Store) (h : String) (c : Consistent st h) where
  snapshot-last :
      (sha256 : String → String) (entry : Snapshot) (id now : ℕ)
      → log_metadata_snapshot sha256 entry id now st ≡ (
          if str_eq c.last.content_hash (hash_of sha256 entry)
          then st
          else after_row st entry (hash_of sha256 entry) c.last id now)
  unfolding log_metadata_snapshot
  snapshot-last sha256 entry id now = rw (log_metadata_snapshot, c.is_last) refl

  pub snapshot-Consistent :
      (sha256 : String → String) (entry : Snapshot) (id now : ℕ)
      → Fresh id now st.versions
      → Consistent (log_metadata_snapshot sha256 entry id now st) (hash_of sha256 entry)
  unfolding after_row snapshot_row is_generated
  snapshot-Consistent sha256 entry id now new =
      subst (λ s. Consistent s (hash_of sha256 entry)) (sym (snapshot-last sha256 entry id now))
        (go (str_eq c.last.content_hash (hash_of sha256 entry)) refl)
    where
      go :
          (b : Bool)
          → str_eq c.last.content_hash (hash_of sha256 entry) ≡ b
          → Consistent
              (if b then st else after_row st entry (hash_of sha256 entry) c.last id now)
              (hash_of sha256 entry)
      go true same = record {
        shown = c.shown;
        last = c.last;
        is_shown = c.is_shown;
        is_last = c.is_last;
        hash = ground (arith, eq_iff c.last.content_hash (hash_of sha256 entry));
        ordered = c.ordered;
        pinned = c.pinned;
      }
      go false other =
          row-Consistent st h c
            (snapshot_row st entry (hash_of sha256 entry) c.last.is_exposed id now) new refl
            c.last.is_exposed refl refl

  validate_only-Leaves : (k : ℕ) → Leaves (validate_only k)
  unfolding validate_only
  validate_only-Leaves k v = (refl, refl, refl, refl, refl, refl)

  forget_cert-Leaves : (k : ℕ) → Leaves (forget_cert k)
  unfolding forget_cert
  forget_cert-Leaves k v = elim (Option-cases v.cert_id) [
    | inl e ↦ ground arith
    | inr (j, e) ↦ ground arith
  ]

  expose_handler :
      (works : Effect → Bool) (s : Session) (k : ℕ)
      → Consistent (metadata_expose works s k st).store h
  unfolding metadata_expose expose_version expose_settings
  expose_handler works s k = elim (Option-cases (find (has_id k) st.versions)) [
    | inl e ↦ same-Consistent st h c _ (ground arith) (ground arith)
    | inr (v, e) ↦ elim (Bool-cases (auth_check s)) [
      | inl passed ↦
          same-Consistent (after_expose v st) h (expose-Consistent st h c k v e) _ (ground arith)
            (ground arith)
      | inr failed ↦ same-Consistent st h c _ (ground arith) (ground arith)
    ]
  ]

  validate_handler : (s : Session) (k : ℕ) → Consistent (metadata_validate s k st).store h
  unfolding metadata_validate
  validate_handler s k = elim (Bool-cases (auth_check s)) [
    | inr failed ↦ same-Consistent st h c _ (ground arith) (ground arith)
    | inl passed ↦ elim (Option-cases (find (has_id k) st.versions)) [
      | inl e ↦ same-Consistent st h c _ (ground arith) (ground arith)
      | inr (v, e) ↦
          same-Consistent _ h (map-Consistent st h c (validate_only k) (validate_only-Leaves k)) _
            (ground arith) (ground arith)
    ]
  ]

  delete_handler :
      (s : Session) (k : ℕ) → KeepsLast (delete k) st → Consistent (metadata_delete s k st).store h
  unfolding metadata_delete
  delete_handler s k keeps = elim (Option-cases (find (has_id k) st.versions)) [
    | inl e ↦ same-Consistent st h c _ (ground arith) (ground arith)
    | inr (v, e) ↦ elim (Bool-cases (auth_check s && not (v.is_exposed || v.is_validated))) [
      | inr failed ↦ same-Consistent st h c _ (ground arith) (ground arith)
      | inl passed ↦
          same-Consistent _ h
            (delete-Consistent st h c k v e (ground arith)
              (λ i. keeps c.last c.is_last (i ∙ find_id st.versions k e)))
            _ (ground arith) (ground arith)
    ]
  ]

  upload_handler :
      (sha256 : String → String) (root_tag : String → Option Tag) (s : Session)
      (raw : Option String) (id now : ℕ)
      → Fresh id now st.versions
      → Consistent (metadata_upload sha256 root_tag s raw id now st).store h
  unfolding metadata_upload upload_text uploaded_row is_generated
  upload_handler sha256 root_tag s none id now new =
      same-Consistent st h c _ (ground arith) (ground arith)
  upload_handler sha256 root_tag s (some text) id now new = elim (Option-cases (root_tag text)) [
    | inl e ↦ same-Consistent st h c _ (ground arith) (ground arith)
    | inr (tag, e) ↦
        elim (Bool-cases (
          auth_check s
          && str_eq tag.local "EntityDescriptor"
          && not (is_some (find (same_upload (sha256 text)) st.versions)))) [
            | inr failed ↦ same-Consistent st h c _ (ground arith) (ground arith)
            | inl passed ↦
                same-Consistent _ h
                  (upload-Consistent st h c (uploaded_row text (sha256 text) id now) new refl refl)
                  _ (ground arith) (ground arith)
          ]
  ]

  download_handler : (s : Session) (k : ℕ) → Consistent (metadata_download s k st).store h
  unfolding metadata_download
  download_handler s k = same-Consistent st h c _ (ground arith) (ground arith)

  certs_activate_handler :
      (works : Effect → Bool) (s : Session) (k : ℕ)
      → Consistent (certs_activate works s k st).store h
  unfolding certs_activate
  certs_activate_handler works s k = same-Consistent st h c _ (ground arith) (ground arith)

  certs_download_handler :
      (pem : SpidCert → String) (s : Session) (k : ℕ)
      → Consistent (certs_download pem s k st).store h
  unfolding certs_download
  certs_download_handler pem s k = same-Consistent st h c _ (ground arith) (ground arith)

  certs_generate_handler :
      (works : Effect → Bool) (generate_key : EnteSettings → Option (String × String)) (s : Session)
      (id : ℕ)
      → Consistent (certs_generate works generate_key s id st).store h
  unfolding certs_generate
  certs_generate_handler works generate_key s id =
      same-Consistent st h c _ (ground arith) (ground arith)

  certs_delete_handler : (s : Session) (k : ℕ) → Consistent (certs_delete s k st).store h
  unfolding certs_delete
  certs_delete_handler s k = elim (Option-cases (find (has_cert_id k) st.certs)) [
    | inl e ↦ same-Consistent st h c _ (ground arith) (ground arith)
    | inr (cert, e) ↦ elim (Bool-cases (auth_check s && not cert.is_active)) [
      | inr failed ↦ same-Consistent st h c _ (ground arith) (ground arith)
      | inl passed ↦
          same-Consistent _ h
            (map-Consistent st h c (forget_cert cert.id) (forget_cert-Leaves cert.id)) _
            (ground arith) (ground arith)
    ]
  ]

  regenerate_handler :
      (works : Effect → Bool) (s : Session) → Consistent (metadata_regenerate works s st).store h
  unfolding metadata_regenerate
  regenerate_handler works s = same-Consistent st h c _ (ground arith) (ground arith)

  certs_history_handler : (s : Session) → Consistent (certs_history s st).store h
  unfolding certs_history
  certs_history_handler s = same-Consistent st h c _ (ground arith) (ground arith)

  pub handle-Consistent :
      (env : Env) (works : Effect → Bool) (s : Session) (call : Call) (id now : ℕ)
      → Fresh id now st.versions
      → KeepsLast call st
      → Consistent (handle env works s call id now st).store h
  unfolding handle metadata_history_redirect
  handle-Consistent env works s (expose k) id now new keeps = expose_handler works s k
  handle-Consistent env works s (validate k) id now new keeps = validate_handler s k
  handle-Consistent env works s (download k) id now new keeps = download_handler s k
  handle-Consistent env works s (delete k) id now new keeps = delete_handler s k keeps
  handle-Consistent env works s (upload raw) id now new keeps =
      upload_handler env.sha256 env.root_tag s raw id now new
  handle-Consistent env works s regenerate id now new keeps = regenerate_handler works s
  handle-Consistent env works s (activate_cert k) id now new keeps =
      certs_activate_handler works s k
  handle-Consistent env works s (delete_cert k) id now new keeps = certs_delete_handler s k
  handle-Consistent env works s (download_cert pem k) id now new keeps =
      certs_download_handler pem s k
  handle-Consistent env works s generate_cert id now new keeps =
      certs_generate_handler works env.generate_key s id
  handle-Consistent env works s history_page id now new keeps = same-Consistent st h c _ refl refl
  handle-Consistent env works s certs_page id now new keeps = certs_history_handler s
  handle-Consistent env works s (save_settings o) id now new keeps =
      same-Consistent st h c _ refl refl
