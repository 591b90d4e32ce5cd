-- ===== src/Metadata/Snapshots.antt =====
-- The cases of log_metadata_snapshot in config-api/app/routes/internal.py.
use pa_sso_proxy.Prelude.{
  ℕ, String, ◌≡◌, ◌≢◌, refl, sym, ◌∙◌, subst, inl, inr, if◌then◌else◌, Bool-cases, Option-cases,
  Bool, true, false, none, some, [], ◌∷◌, ◌++◌, map, arith, str_eq, eq_iff,
}
use pa_sso_proxy.Metadata.{
  SpidMetadataVersion, Store, Snapshot, by_id, is_generated, last_generated, unexpose, hash_of,
  snapshot_row, after_row, log_metadata_snapshot,
}
use pa_sso_proxy.Metadata.Rows.{Newest, Ordered, last_generated-append}
use pa_sso_proxy.Metadata.Takeover.{moved-last}

module _ (sha256 : String → String) (entry : Snapshot) (id now : ℕ) (st : Store) where
  pub snapshot_first :
      last_generated by_id st.versions ≡ none
      → log_metadata_snapshot sha256 entry id now st ≡ record st {
        versions = st.versions ++ snapshot_row st entry (hash_of sha256 entry) true id now ∷ [];
      }
  unfolding log_metadata_snapshot
  snapshot_first e = rw (log_metadata_snapshot, e) refl

  module _ {last : SpidMetadataVersion} (e : last_generated by_id st.versions ≡ some last) where
    pub snapshot_next : log_metadata_snapshot sha256 entry id now st ≡ (
        if str_eq last.content_hash (hash_of sha256 entry)
        then st
        else after_row st entry (hash_of sha256 entry) last id now)
    unfolding log_metadata_snapshot
    snapshot_next = rw (log_metadata_snapshot, e) refl

    pub snapshot_same :
        last.content_hash ≡ hash_of sha256 entry → log_metadata_snapshot sha256 entry id now st ≡ st
    snapshot_same same =
        let equal : str_eq last.content_hash (hash_of sha256 entry) ≡ true =
          ground (arith, eq_iff last.content_hash (hash_of sha256 entry)) in
        snapshot_next ∙ rw equal refl

    pub snapshot_other :
        last.content_hash ≢ hash_of sha256 entry
        → log_metadata_snapshot sha256 entry id now st
          ≡ after_row st entry (hash_of sha256 entry) last id now
    snapshot_other ne =
        let differs : str_eq last.content_hash (hash_of sha256 entry) ≡ false =
          ground (arith, eq_iff last.content_hash (hash_of sha256 entry)) in
        snapshot_next ∙ rw differs refl

  -- The last generated version, with the hash reported.
  abbrev pub Recorded : Store → Type 0
  Recorded st' =
      (l : SpidMetadataVersion) × (last_generated by_id st'.versions ≡ some l)
      × (l.content_hash ≡ hash_of sha256 entry)

  last_generated-taken :
      (last n : SpidMetadataVersion)
      → Ordered st.versions
      → Newest n st.versions
      → is_generated n ≡ true
      → last_generated by_id st.versions ≡ some last
      → (b : Bool)
      → last_generated by_id
          (if b then map (unexpose last.id) (st.versions ++ n ∷ []) else st.versions ++ n ∷ [])
        ≡ some n
  last_generated-taken last n o new g e true = moved-last st.versions last n o e new g
  last_generated-taken last n o new g e false = rw (last_generated-append n st.versions new, g) refl

  after_row-Recorded :
      (last : SpidMetadataVersion)
      → Ordered st.versions
      → Newest (snapshot_row st entry (hash_of sha256 entry) last.is_exposed id now) st.versions
      → last_generated by_id st.versions ≡ some last
      → Recorded (after_row st entry (hash_of sha256 entry) last id now)
  unfolding after_row snapshot_row is_generated
  after_row-Recorded last o new e = (
    snapshot_row st entry (hash_of sha256 entry) last.is_exposed id now,
    last_generated-taken last _ o new refl e last.is_exposed,
    refl,
  )

  pub snapshot-Recorded :
      Ordered st.versions
      → Newest (snapshot_row st entry (hash_of sha256 entry) true id now) st.versions
      → Recorded (log_metadata_snapshot sha256 entry id now st)
  unfolding snapshot_row is_generated
  snapshot-Recorded o new = elim (Option-cases (last_generated by_id st.versions)) [
    | inl e ↦
        subst Recorded (sym (snapshot_first e)) (_, last_generated-append _ st.versions new, refl)
    | inr (last, e) ↦ elim (Bool-cases (str_eq last.content_hash (hash_of sha256 entry))) [
      | inl same ↦
          let equal = (eq_iff last.content_hash (hash_of sha256 entry)).0 same in
          subst Recorded (sym (snapshot_same e equal)) (last, e, equal)
      | inr other ↦
          subst Recorded
            (sym
              (snapshot_other e (ground (arith, eq_iff last.content_hash (hash_of sha256 entry)))))
            (after_row-Recorded last o new e)
    ]
  ]
