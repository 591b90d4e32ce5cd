-- ===== src/History/Consistent.antt =====
-- The invariant of the metadata's history, between the exposed version, the last generated one and
-- the override (config-api/app/routes/metadata.py and log_metadata_snapshot in routes/internal.py).
use pa_sso_proxy.Prelude.{
  ℕ, String, ◌≡◌, ◌≢◌, refl, sym, ap, ◌∙◌, option_map, find, subst, if◌then◌else◌, ◌==◌, ==_iff,
  Bool, true, false, not, Option, none, some, List, [], ◌∷◌, ◌++◌, arith, filter, All-mono,
}
use pa_sso_proxy.Metadata.{
  SpidMetadataVersion, SpidCert, EnteSettings, Store, Snapshot, first_of, has_id, by_id,
  is_generated, last_generated, expose_only, hash_of, snapshot_row, log_metadata_snapshot,
}
use pa_sso_proxy.Metadata.Rows.{
  Newest, Ordered, Ordered-append, Ordered-filter, Ordered-map, creation_is_id_order,
  last_generated-All, last_generated-map, last_generated-append, last_generated-filter, find_unique,
  find_id, count_unique,
}
use pa_sso_proxy.Metadata.Exposure.{
  Exposed, find-expose_only, count-expose_only, append-Exposed, filter-Exposed,
}
use pa_sso_proxy.History.{empty_store}
use pa_sso_proxy.Metadata.Handlers.{after_expose, override_for}

-- Without an override the last generated version is the exposed one; with one, the override has the
-- exposed version's text and the last generated version is another.
abbrev pub Pinned : SpidMetadataVersion → SpidMetadataVersion → Option String → Type 0
Pinned e last none = last ≡ e
Pinned e last (some x) = (x ≡ e.xml_content) × (last.is_exposed ≡ false)

pub record Consistent (st : Store) (live_hash : String) : Type 0 where
  pub shown : SpidMetadataVersion
  pub last : SpidMetadataVersion
  pub is_shown : Exposed shown st.versions
  pub is_last : last_generated by_id st.versions ≡ some last
  pub hash : last.content_hash ≡ live_hash
  pub ordered : Ordered st.versions
  pub pinned : Pinned shown last st.override

-- SATOSA's first snapshot.
pub first-Consistent :
    (sha256 : String → String) (entry : Snapshot) (id now : ℕ) (certs : List SpidCert)
    (settings : Option EnteSettings)
    → Consistent
        (log_metadata_snapshot sha256 entry id now (empty_store certs settings))
        (hash_of sha256 entry)
unfolding log_metadata_snapshot snapshot_row last_generated first_of is_generated
first-Consistent sha256 entry id now certs settings =
    let row = snapshot_row (empty_store certs settings) entry (hash_of sha256 entry) true id now in
    record {
      shown = row;
      last = row;
      is_shown = (refl, refl);
      is_last = refl;
      hash = refl;
      ordered = (tt, tt);
      pinned = refl;
    }

module _ (k : ℕ) (v : SpidMetadataVersion) where
  expose_only_id : (expose_only k v).id ≡ v.id
  unfolding expose_only
  expose_only_id = refl

  expose_only_source : (expose_only k v).source ≡ v.source
  unfolding expose_only
  expose_only_source = refl

  expose_only_created : (expose_only k v).created_at ≡ v.created_at
  unfolding expose_only
  expose_only_created = refl

pinned-override :
    (v last : SpidMetadataVersion)
    → (last.id ≡ v.id → last ≡ v)
    → Pinned (expose_only v.id v) (expose_only v.id last) (override_for v (some last))
unfolding override_for expose_only
pinned-override v last unique = go (v.id == last.id) refl
  where
    go :
        (b : Bool)
        → (v.id == last.id) ≡ b
        → Pinned
            (expose_only v.id v)
            (expose_only v.id last)
            (if b then none else some v.xml_content)
    go true same = ap (expose_only v.id) (unique (ground arith))
    go false other = (refl, ground arith)

module _ (st : Store) (h : String) (c : Consistent st h) where
  -- An insert of a row that is not a generated one.
  pub upload-Consistent :
      (u : SpidMetadataVersion)
      → Newest u st.versions
      → is_generated u ≡ false
      → u.is_exposed ≡ false
      → Consistent (record st { versions = st.versions ++ u ∷ [] }) h
  upload-Consistent u n g x = record {
    shown = c.shown;
    last = c.last;
    is_shown = append-Exposed u st.versions c.is_shown x;
    is_last = rw (last_generated-append u st.versions n, g) c.is_last;
    hash = c.hash;
    ordered = Ordered-append st.versions u c.ordered n;
    pinned = c.pinned;
  }

  pub expose-Consistent :
      (k : ℕ) (v : SpidMetadataVersion)
      → find (has_id k) st.versions ≡ some v
      → Consistent (after_expose v st) h
  unfolding after_expose
  expose-Consistent k v f =
      let self =
        subst (λ j. find (has_id j) st.versions ≡ some v) (sym (find_id st.versions k f)) f in
      let unique =
        last_generated-All (λ u. u.id ≡ v.id → u ≡ v) by_id st.versions
          (find_unique st.versions v.id c.ordered self) c.is_last in
      let last_by_creation = creation_is_id_order st.versions c.ordered ∙ c.is_last in
      record {
        shown = expose_only v.id v;
        last = expose_only v.id c.last;
        is_shown = (
          find-expose_only v.id st.versions ∙ ap (option_map (expose_only v.id)) self,
          count-expose_only v.id st.versions ∙ count_unique st.versions v.id c.ordered self,
        );
        is_last =
            rw
              (
                last_generated-map (expose_only v.id) (expose_only_id v.id)
                    (expose_only_source v.id) (expose_only_created v.id) st.versions,
                c.is_last,
              )
              refl;
        hash = c.hash;
        ordered =
            Ordered-map (expose_only v.id) (expose_only_id v.id) (expose_only_source v.id)
              (expose_only_created v.id) st.versions c.ordered;
        pinned =
            subst (λ o. Pinned (expose_only v.id v) (expose_only v.id c.last) (override_for v o))
              (sym last_by_creation) (pinned-override v c.last unique);
      }

  pub delete-Consistent :
      (k : ℕ) (v : SpidMetadataVersion)
      → find (has_id k) st.versions ≡ some v
      → v.is_exposed ≡ false
      → c.last.id ≢ v.id
      → Consistent (record st { versions = filter (λ u. not (has_id v.id u)) st.versions }) h
  unfolding has_id
  delete-Consistent k v f hidden other =
      let ids = find_unique st.versions k c.ordered f in
      let id = find_id st.versions k f in
      record {
        shown = c.shown;
        last = c.last;
        is_shown =
            filter-Exposed v.id st.versions
              (All-mono (λ u same i. ground (arith, same)) st.versions ids) c.is_shown;
        is_last =
            last_generated-filter _ st.versions c.ordered c.is_last
              (ground (arith, ==_iff c.last.id v.id));
        hash = c.hash;
        ordered = Ordered-filter _ st.versions c.ordered;
        pinned = c.pinned;
      }
