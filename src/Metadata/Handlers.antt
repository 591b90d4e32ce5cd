-- ===== src/Metadata/Handlers.antt =====
-- The handlers of config-api/app/routes/metadata.py, and metadata_endpoint of
-- satosa/plugins/spidsaml2.py, which publishes the override file. A failing database or file system
-- is not modelled, but for the calls under `try: ... except: pass`: `works` says which succeed.
use pa_sso_proxy.Prelude.{
  ℕ, String, Bool, true, false, not, ◌&&◌, ◌||◌, Option, none, some, List, [], ◌∷◌, ◌++◌, map, ◌==◌,
  str_eq, if◌then◌else◌, filter, find,
}
use pa_sso_proxy.Login.{Session}
use pa_sso_proxy.Metadata.{
  uploaded, SpidMetadataVersion, SpidCert, EnteSettings, Store, Effect, generate_and_write,
  reload_satosa, version_not_found, not_well_formed, not_entity_descriptor, already_uploaded,
  exposed_or_validated, login, saved, refused, document, moved, Outcome, answer, auth_check, has_id,
  is_generated, by_creation, last_generated, active, expose_only, validate_only,
}

-- The calls that complete: the first that raises ends the `try`.
unfoldable pub completed : (Effect → Bool) → List Effect → List Effect
completed works [] = []
completed works (call ∷ calls) =
    let rest = completed works calls in if works call then call ∷ rest else []

unfoldable pub is_some {ℓ} : {A : Type ℓ} → Option A → Bool
is_some none = false
is_some (some a) = true

abbrev pub bool_eq : Bool → Bool → Bool
bool_eq true b = b
bool_eq false b = not b

-- Settings on the way to those of a version, and whether they have changed.
abbrev pub Restoring : Type 0
Restoring = EnteSettings × Bool

unfoldable pub restore_eidas_enabled : Option Bool → Restoring → Restoring
restore_eidas_enabled none (s, changed) = (s, changed)
restore_eidas_enabled (some b) (s, changed) =
    if bool_eq s.eidas_enabled b then (s, changed) else (record s { eidas_enabled = b }, true)

unfoldable pub restore_eidas_environment : Option String → Restoring → Restoring
restore_eidas_environment none (s, changed) = (s, changed)
restore_eidas_environment (some e) (s, changed) =
    if str_eq s.eidas_environment e
    then (s, changed)
    else (record s { eidas_environment = e }, true)

unfoldable pub restore_legal_entity_enabled : Option Bool → Restoring → Restoring
restore_legal_entity_enabled none (s, changed) = (s, changed)
restore_legal_entity_enabled (some b) (s, changed) =
    if bool_eq s.legal_entity_enabled b
    then (s, changed)
    else (record s { legal_entity_enabled = b }, true)

unfoldable pub restore : SpidMetadataVersion → EnteSettings → Restoring
restore v s = restore_legal_entity_enabled v.legal_entity_enabled (
    restore_eidas_environment v.eidas_environment
      (restore_eidas_enabled v.eidas_enabled (s, false)))

unfoldable pub other_cert : ℕ → Option SpidCert → Bool
other_cert k none = true
other_cert k (some cert) = not (cert.id == k)

unfoldable pub cert_warning : SpidMetadataVersion → List SpidCert → Bool
unfolding other_cert
cert_warning v certs = elim v.cert_id [ none ↦ false | some k ↦ other_cert k (active certs) ]

-- The file is removed for the last generated version, which SATOSA serves by itself.
unfoldable pub override_for : SpidMetadataVersion → Option SpidMetadataVersion → Option String
override_for v none = some v.xml_content
override_for v (some last) = if v.id == last.id then none else some v.xml_content

unfoldable pub after_expose : SpidMetadataVersion → Store → Store
unfolding override_for expose_only
after_expose v st = record st {
  versions = map (expose_only v.id) st.versions;
  override = override_for v (last_generated by_creation st.versions);
}

unfoldable pub expose_settings :
    (Effect → Bool) → SpidMetadataVersion → Store → Bool → Option EnteSettings → Outcome
expose_settings works v st warning none = record {
  response = saved warning;
  store = st;
  effects = [];
}
expose_settings works v st warning (some s) =
    let (s', changed) = restore v s in
    if changed
    then record {
      response = saved warning;
      store = record st { settings = some s' };
      effects = completed works (generate_and_write ∷ reload_satosa ∷ []);
    }
    else record { response = saved warning; store = st; effects = [] }

unfoldable pub expose_version : (Effect → Bool) → SpidMetadataVersion → Store → Outcome
unfolding expose_settings after_expose cert_warning
expose_version works v st =
    let warning = cert_warning v st.certs in
    if is_some v.eidas_enabled || is_some v.legal_entity_enabled
    then expose_settings works v (after_expose v st) warning st.settings
    else record { response = saved warning; store = after_expose v st; effects = [] }

unfoldable pub metadata_expose : (Effect → Bool) → Session → ℕ → Store → Outcome
unfolding expose_version answer
metadata_expose works s k st =
    if not (auth_check s) then answer st login else elim (find (has_id k) st.versions) [
      | none ↦ answer st (refused version_not_found)
      | some v ↦ expose_version works v st
    ]

unfoldable pub metadata_validate : Session → ℕ → Store → Outcome
unfolding answer
metadata_validate s k st =
    if not (auth_check s) then answer st login else elim (find (has_id k) st.versions) [
      | none ↦ answer st (refused version_not_found)
      | some v ↦ answer (record st { versions = map (validate_only k) st.versions }) (saved false)
    ]

-- A tag of ElementTree, which it writes `{namespace}local`.
pub record Tag : Type 0 where
  pub namespace : Option String
  pub local : String

unfoldable pub same_upload : String → SpidMetadataVersion → Bool
unfolding is_generated
same_upload h v = not (is_generated v) && str_eq v.content_hash h

unfoldable pub uploaded_row : String → String → ℕ → ℕ → SpidMetadataVersion
uploaded_row text content_hash id now = record {
  id = id;
  source = uploaded;
  xml_content = text;
  content_hash = content_hash;
  cert_id = none;
  is_exposed = false;
  is_validated = false;
  created_at = now;
  eidas_enabled = none;
  eidas_environment = none;
  legal_entity_enabled = none;
}

-- The check of the root and of the earlier uploads.
unfoldable pub upload_text :
    (String → String) → (String → Option Tag) → String → ℕ → ℕ → Store → Outcome
unfolding answer
upload_text sha256 root_tag text id now st = elim (root_tag text) [
  | none ↦ answer st (refused not_well_formed)
  | some tag ↦
      if not (str_eq tag.local "EntityDescriptor")
      then answer st (refused not_entity_descriptor)
      else if is_some (find (same_upload (sha256 text)) st.versions)
      then answer st (refused already_uploaded)
      else answer
          (record st { versions = st.versions ++ uploaded_row text (sha256 text) id now ∷ [] })
          (saved false)
]

-- `raw` is the file as UTF-8 text, none if it does not decode; `root_tag` is the XML parser.
unfoldable pub metadata_upload :
    (String → String) → (String → Option Tag) → Session → Option String → ℕ → ℕ → Store → Outcome
unfolding upload_text answer
metadata_upload sha256 root_tag s raw id now st =
    if not (auth_check s) then answer st login else elim raw [
      | none ↦ answer st (refused not_well_formed)
      | some text ↦ upload_text sha256 root_tag text id now st
    ]

unfoldable pub metadata_download : Session → ℕ → Store → Outcome
unfolding answer
metadata_download s k st =
    if not (auth_check s) then answer st login else elim (find (has_id k) st.versions) [
      | none ↦ answer st (refused version_not_found)
      | some v ↦ answer st (document v.xml_content)
    ]

unfoldable pub metadata_delete : Session → ℕ → Store → Outcome
unfolding answer
metadata_delete s k st =
    if not (auth_check s) then answer st login else elim (find (has_id k) st.versions) [
      | none ↦ answer st (refused version_not_found)
      | some v ↦
          if v.is_exposed || v.is_validated
          then answer st (refused exposed_or_validated)
          else answer (record st { versions = filter (λ u. not (has_id v.id u)) st.versions })
              (saved false)
    ]

unfoldable pub metadata_history_redirect : Store → Outcome
metadata_history_redirect st = record { response = moved; store = st; effects = [] }

unfoldable pub metadata_regenerate : (Effect → Bool) → Session → Store → Outcome
unfolding answer
metadata_regenerate works s st = if not (auth_check s) then answer st login else record {
  response = saved false;
  store = st;
  effects = completed works (generate_and_write ∷ reload_satosa ∷ []);
}

-- The document at /spidSaml2/metadata, `live` being the one that SATOSA has built itself.
unfoldable pub metadata_endpoint : Option String → String → String
metadata_endpoint none live = live
metadata_endpoint (some override) live = override
