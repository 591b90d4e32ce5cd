-- ===== src/Metadata/Tests.antt =====
-- Runs of the operations of config-api/app/routes/metadata.py and internal.py on a small table.
use pa_sso_proxy.Prelude.{
  String, ◌≡◌, ◌≢◌, refl, ◌⊎◌, find, count, if◌then◌else◌, Bool, true, false, ◌||◌, Option, none,
  some, [], ◌∷◌, ◌+◌, arith, str_eq, eq_iff,
}
use pa_sso_proxy.Totp.{text}
use pa_sso_proxy.Login.{Session, no_session}
use pa_sso_proxy.Metadata.{
  generated, uploaded, SpidMetadataVersion, SpidCert, EnteSettings, Store, Effect,
  generate_and_write, reload_satosa, saved, Snapshot, auth_check, has_id, by_id, is_generated,
  last_generated, first_of, hash_of, snapshot_row, log_metadata_snapshot,
}
use pa_sso_proxy.Metadata.Rows.{Newest, Ordered}
use pa_sso_proxy.Metadata.Exposure.{exposed, Exposed}
use pa_sso_proxy.Metadata.Handlers.{
  Tag, completed, metadata_delete, metadata_expose, metadata_upload, metadata_endpoint, is_some,
  upload_text, same_upload,
}
use pa_sso_proxy.Metadata.Defects.{snapshot_without_generated, snapshot_over_override}
use pa_sso_proxy.Metadata.Changes.{snapshot_twice}
use pa_sso_proxy.Metadata.Restoring.{restored, expose_restores}

abbrev pub admin : Session
admin = record no_session { user = some (text "admin") }

abbrev pub all_work : Effect → Bool
all_work call = true

abbrev pub sha256 : String → String
sha256 s = s

abbrev pub root_tag : String → Option Tag
root_tag s =
    if str_eq s "" then none else some record { namespace = none; local = "EntityDescriptor" }

abbrev pub ente : EnteSettings
ente = record {
  proxy_hostname = "sso.example.it";
  org_name = "Ente";
  ipa_code = "ente";
  org_city = "Pescara";
  eidas_enabled = true;
  eidas_environment = "qa";
  legal_entity_enabled = false;
}

abbrev pub cert_one : SpidCert
cert_one = record {
  id = 1;
  is_active = false;
  certificate_pem = "cert 1";
  private_key_pem = "key 1";
}

abbrev pub cert_two : SpidCert
cert_two = record {
  id = 2;
  is_active = true;
  certificate_pem = "cert 2";
  private_key_pem = "key 2";
}

-- A generated version from before eIDAS, signed with the first certificate.
abbrev pub version_one : SpidMetadataVersion
version_one = record {
  id = 1;
  source = generated;
  xml_content = "<A/>";
  content_hash = "a";
  cert_id = some 1;
  is_exposed = true;
  is_validated = false;
  created_at = 10;
  eidas_enabled = some false;
  eidas_environment = some "prod";
  legal_entity_enabled = some false;
}

abbrev pub version_two : SpidMetadataVersion
version_two = record version_one {
  id = 2;
  xml_content = "<B/>";
  content_hash = "b";
  cert_id = some 2;
  is_exposed = false;
  created_at = 20;
}

-- The older of two versions is exposed.
abbrev pub pinned : Store
pinned = record {
  versions = version_one ∷ version_two ∷ [];
  certs = cert_one ∷ cert_two ∷ [];
  settings = some ente;
  override = some "<A/>";
}

-- The newer one has been deleted.
abbrev pub deleted : Store
deleted = record pinned { versions = version_one ∷ [] }

abbrev pub other : Snapshot
other = record { xml_content = "<C/>"; semantic_hash = some "c" }

-- Only an uploaded version is there, and exposed.
abbrev pub only_uploaded : Store
only_uploaded = record pinned { versions = record version_one { source = uploaded } ∷ [] }

delete_pinned : (metadata_delete admin 2 pinned).store ≡ deleted
unfolding metadata_delete auth_check has_id
delete_pinned = refl

pub admin_in : auth_check admin ≡ true
unfolding auth_check
admin_in = refl

pinned-Ordered : Ordered pinned.versions
pinned-Ordered = omega arith

pinned-Newest : Newest (snapshot_row pinned other (hash_of sha256 other) true 3 30) pinned.versions
unfolding snapshot_row
pinned-Newest = omega arith

pub pinned_one : find (has_id 1) pinned.versions ≡ some version_one
unfolding has_id
pinned_one = refl

pinned_two : find (has_id 2) pinned.versions ≡ some version_two
unfolding has_id
pinned_two = refl

has_copies : (is_some version_one.eidas_enabled || is_some version_one.legal_entity_enabled) ≡ true
unfolding is_some
has_copies = refl

none_yet : last_generated by_id only_uploaded.versions ≡ none
unfolding last_generated is_generated
none_yet = refl

deleted-Ordered : Ordered deleted.versions
deleted-Ordered = omega arith

deleted-Newest :
    Newest (snapshot_row deleted other (hash_of sha256 other) true 3 30) deleted.versions
unfolding snapshot_row
deleted-Newest = omega arith

deleted_last : last_generated by_id deleted.versions ≡ some version_one
unfolding last_generated is_generated first_of
deleted_last = refl

other_differs : version_one.content_hash ≢ hash_of sha256 other
unfolding hash_of
other_differs e = let equal : str_eq "a" "c" ≡ true = (eq_iff "a" "c").1 e in ground arith

upload_saved :
    (metadata_upload sha256 root_tag admin (some "<U/>") 3 30 pinned).response ≡ saved false
unfolding metadata_upload upload_text auth_check same_upload is_generated is_some
upload_saved = refl

snapshot_without_generated_example :
    count exposed (log_metadata_snapshot sha256 other 3 30 only_uploaded).versions
    ≡ count exposed only_uploaded.versions + 1
snapshot_without_generated_example =
    snapshot_without_generated sha256 other 3 30 only_uploaded none_yet

snapshot_over_override_example :
    Exposed
      (snapshot_row deleted other (hash_of sha256 other) true 3 30)
      (log_metadata_snapshot sha256 other 3 30 deleted).versions
    × (metadata_endpoint (log_metadata_snapshot sha256 other 3 30 deleted).override "<C/>" ≡ "<A/>")
snapshot_over_override_example =
    snapshot_over_override sha256 other 3 30 deleted version_one "<A/>" deleted-Ordered
      deleted-Newest deleted_last (refl, refl) other_differs refl

snapshot_twice_example :
    log_metadata_snapshot sha256 other 4 40 (log_metadata_snapshot sha256 other 3 30 pinned)
    ≡ log_metadata_snapshot sha256 other 3 30 pinned
snapshot_twice_example =
    snapshot_twice sha256 other other 3 30 4 40 pinned pinned-Ordered pinned-Newest refl

expose_restores_example :
    ((metadata_expose all_work admin 1 pinned).store.settings ≡ some (restored version_one ente))
    × (((restored version_one ente ≡ ente)
          × ((metadata_expose all_work admin 1 pinned).effects ≡ []))
        ⊎ ((restored version_one ente ≢ ente)
            × ((metadata_expose all_work admin 1 pinned).effects
                ≡ completed all_work (generate_and_write ∷ reload_satosa ∷ []))))
expose_restores_example =
    expose_restores all_work admin 1 pinned version_one ente admin_in pinned_one has_copies refl
