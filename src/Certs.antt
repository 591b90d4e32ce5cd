-- ===== src/Certs.antt =====
-- The certificates of the service provider: config-api/app/routes/certs.py, spid_cert.py and
-- spid_cert_writer.py. `generate_key` is the library that makes a key pair, none if it raises
-- ValueError; the subject and the extensions of the certificate are left to it.
pub mod Active
pub mod Forgotten
mod Tests
use pa_sso_proxy.Prelude.{
  ℕ, String, Bool, true, false, not, ◌&&◌, ◌||◌, Option, none, some, List, [], ◌∷◌, ◌++◌, map, ◌==◌,
  str_eq, if◌then◌else◌, filter, find,
}
use pa_sso_proxy.Login.{Session}
use pa_sso_proxy.Metadata.{
  SpidMetadataVersion, SpidCert, EnteSettings, Store, Effect, write_spid_cert, generate_and_write,
  reload_satosa, active_cert, settings_incomplete, no_key, Response, login, saved, refused,
  not_found, document, certs_status, Outcome, auth_check,
}
use pa_sso_proxy.Metadata.Handlers.{completed}

unfoldable pub has_cert_id : ℕ → SpidCert → Bool
has_cert_id k c = c.id == k

unfoldable pub activate_only : ℕ → SpidCert → SpidCert
activate_only k c = record c { is_active = c.id == k }

unfoldable pub deactivate : SpidCert → SpidCert
deactivate c = record c { is_active = false }

-- The foreign key's ON DELETE SET NULL.
unfoldable pub forget_cert : ℕ → SpidMetadataVersion → SpidMetadataVersion
forget_cert k v = elim v.cert_id [
  | none ↦ v
  | some c ↦ if c == k then record v { cert_id = none } else v
]

unfoldable pub after_activate : (Effect → Bool) → SpidCert → Store → Outcome
unfolding activate_only
after_activate works cert st = record {
  response = saved false;
  store = record st { certs = map (activate_only cert.id) st.certs };
  effects =
      completed works (write_spid_cert (activate_only cert.id cert) ∷ generate_and_write ∷ []);
}

unfoldable pub certs_history : Session → Store → Outcome
certs_history s st =
    if not (auth_check s)
    then record { response = login; store = st; effects = [] }
    else record { response = certs_status; store = st; effects = [] }

unfoldable pub certs_activate : (Effect → Bool) → Session → ℕ → Store → Outcome
unfolding after_activate
certs_activate works s k st =
    if not (auth_check s)
    then record { response = login; store = st; effects = [] }
    else elim (find (has_cert_id k) st.certs) [
      | none ↦ record { response = not_found; store = st; effects = [] }
      | some cert ↦ after_activate works cert st
    ]

unfoldable pub certs_delete : Session → ℕ → Store → Outcome
unfolding forget_cert
certs_delete s k st =
    if not (auth_check s)
    then record { response = login; store = st; effects = [] }
    else elim (find (has_cert_id k) st.certs) [
      | none ↦ record { response = not_found; store = st; effects = [] }
      | some cert ↦
          if cert.is_active
          then record { response = refused active_cert; store = st; effects = [] }
          else record {
            response = saved false;
            store = record st {
              certs = filter (λ c. not (has_cert_id cert.id c)) st.certs;
              versions = map (forget_cert cert.id) st.versions;
            };
            effects = [];
          }
    ]

-- `all([s.proxy_hostname, s.org_name, s.ipa_code, s.org_city])`
unfoldable pub is_complete : EnteSettings → Bool
is_complete s =
    not (str_eq s.proxy_hostname "")
    && not (str_eq s.org_name "")
    && not (str_eq s.ipa_code "")
    && not (str_eq s.org_city "")

-- The certificate and its key, with ValueError as none.
unfoldable pub generate_spid_cert :
    (EnteSettings → Option (String × String)) → EnteSettings → ℕ → Option SpidCert
unfolding is_complete
generate_spid_cert generate_key s id =
    if is_complete s
    then elim (generate_key s) [
      | none ↦ none
      | some (certificate, key) ↦ some record {
        id = id;
        is_active = false;
        certificate_pem = certificate;
        private_key_pem = key;
      }
    ]
    else none

unfoldable pub after_generate : (Effect → Bool) → SpidCert → Store → Outcome
unfolding deactivate
after_generate works cert st =
    let new = record cert { is_active = true } in
    record {
      response = saved false;
      store = record st { certs = map deactivate st.certs ++ new ∷ [] };
      effects = completed works (write_spid_cert new ∷ generate_and_write ∷ []);
    }

unfoldable pub generate_for :
    (Effect → Bool) → (EnteSettings → Option (String × String)) → EnteSettings → ℕ → Store → Outcome
unfolding after_generate generate_spid_cert
generate_for works generate_key settings id st =
    if not (is_complete settings)
    then record { response = refused settings_incomplete; store = st; effects = [] }
    else elim (generate_spid_cert generate_key settings id) [
      | none ↦ record { response = refused no_key; store = st; effects = [] }
      | some cert ↦ after_generate works cert st
    ]

unfoldable pub certs_generate :
    (Effect → Bool) → (EnteSettings → Option (String × String)) → Session → ℕ → Store → Outcome
unfolding generate_for
certs_generate works generate_key s id st =
    if not (auth_check s)
    then record { response = login; store = st; effects = [] }
    else elim st.settings [
      | none ↦ record { response = refused settings_incomplete; store = st; effects = [] }
      | some settings ↦ generate_for works generate_key settings id st
    ]

unfoldable pub certs_download : (SpidCert → String) → Session → ℕ → Store → Outcome
certs_download pem s k st =
    if not (auth_check s)
    then record { response = login; store = st; effects = [] }
    else elim (find (has_cert_id k) st.certs) [
      | none ↦ record { response = not_found; store = st; effects = [] }
      | some cert ↦ record { response = document (pem cert); store = st; effects = [] }
    ]

-- spid_sp_cert.pem and spid_sp_key.pem
pub record KeyFiles : Type 0 where
  pub spid_sp_cert : String
  pub spid_sp_key : String

unfoldable pub written : Effect → Option KeyFiles → Option KeyFiles
written (write_spid_cert cert) files =
    some record { spid_sp_cert = cert.certificate_pem; spid_sp_key = cert.private_key_pem }
written generate_and_write files = files
written reload_satosa files = files

unfoldable pub all_written : List Effect → Option KeyFiles → Option KeyFiles
unfolding written
all_written [] files = files
all_written (call ∷ calls) files = all_written calls (written call files)
