-- ===== src/History/Tests.antt =====
-- Short histories of the metadata and of the certificates (config-api/app/routes).
use pa_sso_proxy.Prelude.{◌≡◌, ◌⊎◌, refl, Option, none, some, [], arith}
use pa_sso_proxy.Metadata.{
  SpidMetadataVersion, SpidCert, Store, Snapshot, auth_check, log_metadata_snapshot, snapshot_row,
  last_generated, is_generated, has_id, expose_only,
}
use pa_sso_proxy.Metadata.Exposure.{Exposed}
use pa_sso_proxy.Metadata.Handlers.{
  upload_text, metadata_upload, metadata_expose, expose_version, expose_settings, after_expose,
  uploaded_row, same_upload, is_some,
}
use pa_sso_proxy.Metadata.Tests.{admin, all_work, sha256, root_tag, ente, other}
use pa_sso_proxy.Certs.{KeyFiles, all_written}
use pa_sso_proxy.Certs.Active.{InUse}
use pa_sso_proxy.History.{
  Env, handle, empty_store, Fresh, History, start, report, next, expose, upload, generate_cert,
}
use pa_sso_proxy.History.Published.{Publishes, one_version_published}
use pa_sso_proxy.History.Keys.{Issued, issue_start, issue_next, key_files_are_active}

abbrev env : Env
env = record {
  sha256 = sha256;
  root_tag = root_tag;
  generate_key = λ s. some (s.org_name, s.ipa_code);
}

abbrev first : Snapshot
first = record { xml_content = "<A/>"; semantic_hash = some "a" }

abbrev begun : Store
begun = log_metadata_snapshot sha256 first 1 10 (empty_store [] (some ente))

abbrev with_upload : Store
with_upload = (handle env all_work admin (upload (some "<U/>")) 2 20 begun).store

abbrev with_exposed : Store
with_exposed = (handle env all_work admin (expose 2) 3 30 with_upload).store

abbrev with_other : Store
with_other = log_metadata_snapshot sha256 other 3 40 with_exposed

begun-Fresh : Fresh 2 20 begun.versions
unfolding log_metadata_snapshot last_generated snapshot_row
begun-Fresh = omega arith

with_upload-Fresh : Fresh 3 30 with_upload.versions
unfolding handle metadata_upload upload_text log_metadata_snapshot last_generated snapshot_row
    auth_check uploaded_row same_upload is_generated is_some
with_upload-Fresh = omega arith

with_exposed-Fresh : Fresh 3 40 with_exposed.versions
unfolding handle metadata_expose expose_version expose_settings after_expose metadata_upload
    upload_text log_metadata_snapshot last_generated snapshot_row auth_check uploaded_row
    same_upload is_generated is_some has_id expose_only
with_exposed-Fresh = omega arith

-- The first snapshot, an upload, its exposure and a second snapshot.
history : History env with_other other
history =
    report
      (next
        (next (start [] (some ente) first 1 10) all_work admin (upload (some "<U/>")) 2 20
          begun-Fresh tt)
        all_work admin (expose 2) 3 30 with_upload-Fresh tt)
      other 3 40 with_exposed-Fresh

one_version_published_example :
    (e : SpidMetadataVersion) × Exposed e with_other.versions × Publishes sha256 with_other other e
one_version_published_example = one_version_published env with_other other history

abbrev certified : Store
certified = (handle env all_work admin generate_cert 1 10 (empty_store [] (some ente))).store

abbrev certified_files : Option KeyFiles
certified_files =
    all_written (handle env all_work admin generate_cert 1 10 (empty_store [] (some ente))).effects
      none

issued : Issued env certified certified_files
issued = issue_next (issue_start (empty_store [] (some ente)) none refl) admin generate_cert 1 10 tt

key_files_are_active_example :
    (certified.certs ≡ []) ⊎ ((a : SpidCert) × InUse a certified.certs certified_files)
key_files_are_active_example = key_files_are_active env certified certified_files issued
