-- ===== src/Metadata/Defects.antt =====
-- The exposed mark after log_metadata_snapshot of config-api/app/routes/internal.py, where the last
-- generated version has been deleted or was never there.
use pa_sso_proxy.Prelude.{
  ℕ, String, ◌≡◌, ◌≢◌, refl, sym, ap, ◌∙◌, subst, true, none, some, [], ◌∷◌, map, count,
  count-append, ◌+◌,
}
use pa_sso_proxy.Metadata.{
  SpidMetadataVersion, Store, Snapshot, by_id, is_generated, last_generated, unexpose, hash_of,
  snapshot_row, after_row, log_metadata_snapshot,
}
use pa_sso_proxy.Metadata.Rows.{Newest, Ordered}
use pa_sso_proxy.Metadata.Exposure.{
  exposed, Exposed, append_exposed-Exposed, unexpose-Exposed, find-exposed, find-exposed,
}
use pa_sso_proxy.Metadata.Snapshots.{snapshot_first, snapshot_other}
use pa_sso_proxy.Metadata.Takeover.{moved}
use pa_sso_proxy.Metadata.Handlers.{metadata_endpoint}

-- A snapshot that finds no generated version is marked as exposed beside every version that
-- already is.
pub snapshot_without_generated :
    (sha256 : String → String) (entry : Snapshot) (id now : ℕ) (st : Store)
    → last_generated by_id st.versions ≡ none
    → count exposed (log_metadata_snapshot sha256 entry id now st).versions
      ≡ count exposed st.versions + 1
unfolding snapshot_row
snapshot_without_generated sha256 entry id now st none_yet =
    ap (λ s. count exposed s.versions) (snapshot_first sha256 entry id now st none_yet)
    ∙ count-append exposed st.versions
        (snapshot_row st entry (hash_of sha256 entry) true id now ∷ [])

-- In an ordered table whose last generated version is the only exposed one while an override is in
-- place, a snapshot with another hash and a newest row takes the mark to that row, and
-- /spidSaml2/metadata goes on publishing the override.
pub snapshot_over_override :
    (sha256 : String → String) (entry : Snapshot) (id now : ℕ) (st : Store)
    (last : SpidMetadataVersion) (x : String)
    → Ordered st.versions
    → Newest (snapshot_row st entry (hash_of sha256 entry) true id now) st.versions
    → last_generated by_id st.versions ≡ some last
    → Exposed last st.versions
    → last.content_hash ≢ hash_of sha256 entry
    → st.override ≡ some x
    → Exposed
        (snapshot_row st entry (hash_of sha256 entry) true id now)
        (log_metadata_snapshot sha256 entry id now st).versions
      × (metadata_endpoint (log_metadata_snapshot sha256 entry id now st).override entry.xml_content
          ≡ x)
unfolding after_row snapshot_row metadata_endpoint is_generated
snapshot_over_override sha256 entry id now st last x o new is_last shown ne pinned =
    let flag = find-exposed st.versions shown.0 in
    let n = snapshot_row st entry (hash_of sha256 entry) true id now in
    let here =
      append_exposed-Exposed n (map (unexpose last.id) st.versions)
        (unexpose-Exposed st.versions shown) refl in
    let taken = snapshot_other sha256 entry id now st is_last ne in
    (
      rw (taken, flag) (subst (Exposed n) (sym (moved st.versions last n o is_last new refl)) here),
      rw (taken, pinned) refl,
    )
