-- ===== src/Metadata.antt =====
-- The history of the SPID metadata: config-api/app/models/metadata_version.py, the handlers of
-- routes/metadata.py and log_metadata_snapshot of routes/internal.py. A row that is added comes
-- with the id and the time that the database gives it; the columns that no handler reads are left
-- out. A table is the list of its rows, in the order in which they were added.
pub mod Handlers
pub mod Rows
pub mod Takeover
pub mod Exposure
pub mod Tests
pub mod Restoring
pub mod Snapshots
pub mod Defects
pub mod Changes
use pa_sso_proxy.Prelude.{
  ℕ, String, Bool, true, false, not, ◌&&◌, ◌||◌, Option, none, some, List, [], ◌∷◌, ◌++◌, map, ◌==◌,
  ltb, leb, str_eq, if◌then◌else◌, filter, find,
}
use pa_sso_proxy.Login.{Session}

pub data Source : Type 0 where
  generated uploaded : Source

pub record SpidMetadataVersion : Type 0 where
  pub id : ℕ
  pub source : Source
  pub xml_content : String
  pub content_hash : String
  pub cert_id : Option ℕ
  pub is_exposed : Bool
  pub is_validated : Bool
  pub created_at : ℕ
  pub eidas_enabled : Option Bool
  pub eidas_environment : Option String
  pub legal_entity_enabled : Option Bool

pub record SpidCert : Type 0 where
  pub id : ℕ
  pub is_active : Bool
  pub certificate_pem : String
  pub private_key_pem : String

-- The columns that a version keeps a copy of, and those that a certificate needs.
pub record EnteSettings : Type 0 where
  pub proxy_hostname : String
  pub org_name : String
  pub ipa_code : String
  pub org_city : String
  pub eidas_enabled : Bool
  pub eidas_environment : String
  pub legal_entity_enabled : Bool

-- `override` is the file spid_sp_metadata_override.xml.
pub record Store : Type 0 where
  pub versions : List SpidMetadataVersion
  pub certs : List SpidCert
  pub settings : Option EnteSettings
  pub override : Option String

-- A call that a handler makes under `try: ... except: pass`.
pub data Effect : Type 0 where
  write_spid_cert : SpidCert → Effect
  generate_and_write reload_satosa : Effect

pub data Problem : Type 0 where
  version_not_found not_well_formed not_entity_descriptor already_uploaded : Problem
  exposed_or_validated active_cert settings_incomplete no_key : Problem

pub data Response : Type 0 where
  login : Response
  -- back to the page, with a warning that the version's certificate is not the active one
  saved : Bool → Response
  refused : Problem → Response
  not_found : Response
  document : String → Response
  -- the permanent redirect of a page that was removed, and the page of the certificates, whose
  -- content is a template
  moved certs_status : Response

pub record Outcome : Type 0 where
  pub response : Response
  pub store : Store
  pub effects : List Effect

pub answer : Store → Response → Outcome
answer st response = record { response = response; store = st; effects = [] }

unfoldable pub auth_check : Session → Bool
auth_check s = elim s.user [ none ↦ false | some user ↦ true ]

unfoldable pub has_id : ℕ → SpidMetadataVersion → Bool
has_id k v = v.id == k

unfoldable pub is_generated : SpidMetadataVersion → Bool
is_generated v = elim v.source [ generated ↦ true | uploaded ↦ false ]

-- ORDER BY id DESC
unfoldable pub by_id : SpidMetadataVersion → SpidMetadataVersion → Bool
by_id v u = ltb u.id v.id

-- ORDER BY created_at DESC, id DESC
unfoldable pub by_creation : SpidMetadataVersion → SpidMetadataVersion → Bool
by_creation v u = ltb u.created_at v.created_at || (v.created_at == u.created_at && ltb u.id v.id)

unfoldable pub first_of :
    (SpidMetadataVersion → SpidMetadataVersion → Bool)
    → SpidMetadataVersion
    → Option SpidMetadataVersion
    → SpidMetadataVersion
first_of before v none = v
first_of before v (some u) = if before v u then v else u

-- WHERE source = 'generated' ORDER BY ... LIMIT 1
unfoldable pub last_generated :
    (SpidMetadataVersion → SpidMetadataVersion → Bool)
    → List SpidMetadataVersion
    → Option SpidMetadataVersion
unfolding first_of is_generated
last_generated before [] = none
last_generated before (v ∷ rows) =
    let rest = last_generated before rows in
    if is_generated v then some (first_of before v rest) else rest

-- The first active certificate.
unfoldable pub active : List SpidCert → Option SpidCert
active certs = find (λ c. c.is_active) certs

pub cert_of : Option SpidCert → Option ℕ
cert_of none = none
cert_of (some cert) = some cert.id

unfoldable pub expose_only : ℕ → SpidMetadataVersion → SpidMetadataVersion
expose_only k v = record v { is_exposed = v.id == k }

unfoldable pub validate_only : ℕ → SpidMetadataVersion → SpidMetadataVersion
validate_only k v = record v { is_validated = v.id == k }

-- `last_row.is_exposed = False`
unfoldable pub unexpose : ℕ → SpidMetadataVersion → SpidMetadataVersion
unexpose k v = if v.id == k then record v { is_exposed = false } else v

pub record Snapshot : Type 0 where
  pub xml_content : String
  pub semantic_hash : Option String

-- An empty hash counts as none.
unfoldable pub hash_of : (String → String) → Snapshot → String
hash_of sha256 entry = elim entry.semantic_hash [
  | none ↦ sha256 entry.xml_content
  | some h ↦ if str_eq h "" then sha256 entry.xml_content else h
]

unfoldable pub snapshot_row : Store → Snapshot → String → Bool → ℕ → ℕ → SpidMetadataVersion
unfolding cert_of active
snapshot_row st entry content_hash exposed id now = record {
  id = id;
  source = generated;
  xml_content = entry.xml_content;
  content_hash = content_hash;
  cert_id = cert_of (active st.certs);
  is_exposed = exposed;
  is_validated = false;
  created_at = now;
  eidas_enabled = elim st.settings [ none ↦ none | some s ↦ some s.eidas_enabled ];
  eidas_environment = elim st.settings [ none ↦ none | some s ↦ some s.eidas_environment ];
  legal_entity_enabled = elim st.settings [ none ↦ none | some s ↦ some s.legal_entity_enabled ];
}

-- The new row is committed before the flag of the last one is taken away.
unfoldable pub after_row : Store → Snapshot → String → SpidMetadataVersion → ℕ → ℕ → Store
unfolding snapshot_row unexpose
after_row st entry content_hash last id now =
    let rows = st.versions ++ snapshot_row st entry content_hash last.is_exposed id now ∷ [] in
    record st { versions = if last.is_exposed then map (unexpose last.id) rows else rows }

unfoldable pub log_metadata_snapshot : (String → String) → Snapshot → ℕ → ℕ → Store → Store
unfolding hash_of after_row snapshot_row
log_metadata_snapshot sha256 entry id now st =
    let content_hash = hash_of sha256 entry in
    elim (last_generated by_id st.versions) [
      | none ↦ record st {
        versions = st.versions ++ snapshot_row st entry content_hash true id now ∷ [];
      }
      | some last ↦
          if str_eq last.content_hash content_hash
          then st
          else after_row st entry content_hash last id now
    ]
