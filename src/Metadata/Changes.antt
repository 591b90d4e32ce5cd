-- ===== src/Metadata/Changes.antt =====
-- What each operation on the versions does and leaves (config-api/app/routes/metadata.py and
-- log_metadata_snapshot of internal.py).
use pa_sso_proxy.Prelude.{
  ℕ, String, ◌≡◌, ◌≢◌, if◌then◌else◌, refl, sym, ◌∙◌, inl, inr, find, filter, ==_iff, Bool-cases,
  Option-cases, true, false, not, ◌&&◌, ◌||◌, Option, none, some, [], ◌∷◌, ◌++◌, map, count, arith,
  str_eq, eq_refl,
}
use pa_sso_proxy.Login.{Session}
use pa_sso_proxy.Metadata.{
  SpidMetadataVersion, Store, saved, refused, already_uploaded, Snapshot, auth_check, has_id,
  is_generated, validate_only, hash_of, snapshot_row, log_metadata_snapshot,
}
use pa_sso_proxy.Metadata.Rows.{Versions, Newest, Ordered, find_id, count_unique}
use pa_sso_proxy.Metadata.Snapshots.{snapshot-Recorded, snapshot_same}
use pa_sso_proxy.Metadata.Handlers.{
  Tag, is_some, metadata_validate, metadata_delete, metadata_upload, upload_text, same_upload,
  uploaded_row,
}

-- A document that is reported again is not added again: after any snapshot, whose row is newer than
-- all rows of an ordered table, one with the same hash changes nothing, whatever its signature.
pub snapshot_twice :
    (sha256 : String → String) (entry again : Snapshot) (id now id' now' : ℕ) (st : Store)
    → Ordered st.versions
    → Newest (snapshot_row st entry (hash_of sha256 entry) true id now) st.versions
    → hash_of sha256 again ≡ hash_of sha256 entry
    → log_metadata_snapshot sha256 again id' now' (log_metadata_snapshot sha256 entry id now st)
      ≡ log_metadata_snapshot sha256 entry id now st
snapshot_twice sha256 entry again id now id' now' st o new same =
    let (last, e, h) = snapshot-Recorded sha256 entry id now st o new in
    snapshot_same sha256 again id' now' _ e (h ∙ sym same)

find-filter_self :
    (k : ℕ) (rows : Versions) → find (has_id k) (filter (λ u. not (has_id k u)) rows) ≡ none
unfolding has_id
find-filter_self k [] = refl
find-filter_self k (v ∷ rows) = ground (arith, find-filter_self k rows)

find-filter_ne :
    (k j : ℕ) (rows : Versions)
    → j ≢ k
    → find (has_id j) (filter (λ u. not (has_id k u)) rows) ≡ find (has_id j) rows
unfolding has_id
find-filter_ne k j [] ne = refl
find-filter_ne k j (v ∷ rows) ne =
    ground (arith, find-filter_ne k j rows ne, ==_iff v.id k, ==_iff v.id j)

-- When an administrator who is logged in deletes a version of the table: an exposed or validated
-- one is still found afterwards, any other is gone, and every other version is found as before.
pub metadata_delete_lem :
    (s : Session) (k j : ℕ) (st : Store) (v : SpidMetadataVersion)
    → auth_check s ≡ true
    → find (has_id k) st.versions ≡ some v
    → j ≢ k
    → (find (has_id k) (metadata_delete s k st).store.versions
        ≡ (if v.is_exposed || v.is_validated then some v else none))
      × (find (has_id j) (metadata_delete s k st).store.versions ≡ find (has_id j) st.versions)
unfolding metadata_delete
metadata_delete_lem s k j st v auth f ne =
    let id = find_id st.versions k f in
    (
      ground (arith, find-filter_self v.id st.versions),
      ground (arith, find-filter_ne v.id j st.versions (λ i. ne (i ∙ id))),
    )

count-validate_only :
    (k : ℕ) (rows : Versions)
    → count (λ v. v.is_validated) (map (validate_only k) rows) ≡ count (has_id k) rows
unfolding validate_only has_id
count-validate_only k [] = refl
count-validate_only k (v ∷ rows) = omega (arith, count-validate_only k rows)

-- After an administrator who is logged in validates a version of an ordered table, exactly one
-- version is validated.
pub validated_once :
    (s : Session) (k : ℕ) (st : Store) (v : SpidMetadataVersion)
    → auth_check s ≡ true
    → Ordered st.versions
    → find (has_id k) st.versions ≡ some v
    → count (λ u. u.is_validated) (metadata_validate s k st).store.versions ≡ 1
unfolding metadata_validate
validated_once s k st v auth o f =
    ground (arith, count-validate_only k st.versions, count_unique st.versions k o f)

find_upload-append :
    (h : String) (rows : Versions) (u : SpidMetadataVersion)
    → same_upload h u ≡ true
    → is_some (find (same_upload h) (rows ++ u ∷ [])) ≡ true
unfolding is_some
find_upload-append h [] u same = ground arith
find_upload-append h (v ∷ rows) u same = ground (arith, find_upload-append h rows u)

-- The same text cannot be uploaded twice: once an upload has been saved, the next of the same text
-- is refused and changes nothing.
pub upload_twice :
    (sha256 : String → String) (root_tag : String → Option Tag) (s : Session) (text : String)
    (id now id' now' : ℕ) (st : Store)
    → (metadata_upload sha256 root_tag s (some text) id now st).response ≡ saved false
    → metadata_upload sha256 root_tag s
        (some text)
        id'
        now'
        (metadata_upload sha256 root_tag s (some text) id now st).store
      ≡ record {
        response = refused already_uploaded;
        store = (metadata_upload sha256 root_tag s (some text) id now st).store;
        effects = [];
      }
unfolding metadata_upload upload_text uploaded_row same_upload is_generated is_some
upload_twice sha256 root_tag s text id now id' now' st ok = elim (Option-cases (root_tag text)) [
  | inl e ↦ ground arith
  | inr (tag, e) ↦
      elim (Bool-cases (
        auth_check s
        && str_eq tag.local "EntityDescriptor"
        && not (is_some (find (same_upload (sha256 text)) st.versions)))) [
          | inr failed ↦ ground arith
          | inl passed ↦ ground (
            arith,
            find_upload-append (sha256 text) st.versions (uploaded_row text (sha256 text) id now)
                (eq_refl (sha256 text)),
          )
        ]
]
