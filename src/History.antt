-- ===== src/History.antt =====
-- The operations on the metadata's history and the certificates, as the calls of config-api
-- (app/routes/metadata.py, certs.py and internal.py), and the states that they lead to.
pub mod Consistent
pub mod Steps
pub mod Operations
pub mod Published
pub mod Keys
mod Tests
use pa_sso_proxy.Prelude.{
  ℕ, String, ◌≡◌, ◌≢◌, Bool, false, Option, none, some, List, [], ◌<◌, ◌≤◌, All,
}
use pa_sso_proxy.Login.{Session}
use pa_sso_proxy.Metadata.{
  SpidMetadataVersion, SpidCert, EnteSettings, Store, Effect, saved, Outcome, Snapshot, by_id,
  last_generated, log_metadata_snapshot,
}
use pa_sso_proxy.Metadata.Handlers.{
  Tag, metadata_expose, metadata_validate, metadata_upload, metadata_download, metadata_delete,
  metadata_regenerate, metadata_history_redirect,
}
use pa_sso_proxy.Certs.{certs_history, certs_activate, certs_delete, certs_generate, certs_download}

-- What the handlers call outside the repository.
pub record Env : Type 0 where
  pub sha256 : String → String
  pub root_tag : String → Option Tag
  pub generate_key : EnteSettings → Option (String × String)

pub data Call : Type 0 where
  expose validate download delete : ℕ → Call
  upload : Option String → Call
  regenerate : Call
  activate_cert delete_cert : ℕ → Call
  download_cert : (SpidCert → String) → ℕ → Call
  generate_cert : Call
  history_page certs_page : Call
  -- another route writes the settings
  save_settings : Option EnteSettings → Call

-- `id` and `now` are what the database gives a new row.
unfoldable pub handle : Env → (Effect → Bool) → Session → Call → ℕ → ℕ → Store → Outcome
handle env works s (expose k) id now st = metadata_expose works s k st
handle env works s (validate k) id now st = metadata_validate s k st
handle env works s (download k) id now st = metadata_download s k st
handle env works s (delete k) id now st = metadata_delete s k st
handle env works s (upload raw) id now st = metadata_upload env.sha256 env.root_tag s raw id now st
handle env works s regenerate id now st = metadata_regenerate works s st
handle env works s (activate_cert k) id now st = certs_activate works s k st
handle env works s (delete_cert k) id now st = certs_delete s k st
handle env works s (download_cert pem k) id now st = certs_download pem s k st
handle env works s generate_cert id now st = certs_generate works env.generate_key s id st
handle env works s history_page id now st = metadata_history_redirect st
handle env works s certs_page id now st = certs_history s st
handle env works s (save_settings new) id now st = record {
  response = saved false;
  store = record st { settings = new };
  effects = [];
}

-- An empty table of versions and no override.
abbrev pub empty_store : List SpidCert → Option EnteSettings → Store
empty_store certs settings = record {
  versions = [];
  certs = certs;
  settings = settings;
  override = none;
}

-- The database's ids grow and its clock does not go back.
abbrev pub Fresh : ℕ → ℕ → List SpidMetadataVersion → Type 0
Fresh id now rows = All (λ v. (v.id < id) × (v.created_at ≤ now)) rows

-- The call does not delete the last generated version.
abbrev pub KeepsLast : Call → Store → Type 0
KeepsLast (delete k) st =
    (last : SpidMetadataVersion) → last_generated by_id st.versions ≡ some last → last.id ≢ k
KeepsLast call st = Unit

-- The histories that begin with SATOSA's first snapshot, on an empty table. `live` is the document
-- that SATOSA has built and reported last.
pub data History (env : Env) : Store → Snapshot → Type 0 where
  start :
      (certs : List SpidCert) (settings : Option EnteSettings) (entry : Snapshot) (id now : ℕ)
      → History env
          (log_metadata_snapshot env.sha256 entry id now (empty_store certs settings))
          entry
  report :
      {st : Store} {live : Snapshot}
      → History env st live
      → (entry : Snapshot) (id now : ℕ) → Fresh id now st.versions
      → History env (log_metadata_snapshot env.sha256 entry id now st) entry
  next :
      {st : Store} {live : Snapshot}
      → History env st live
      → (works : Effect → Bool) (s : Session) (call : Call) (id now : ℕ) → Fresh id now st.versions
      → KeepsLast call st
      → History env (handle env works s call id now st).store live
