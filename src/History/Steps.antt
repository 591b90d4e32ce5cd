-- ===== src/History/Steps.antt =====
-- Updates of the table and the invariant of the metadata's history (config-api/app/routes/metadata.py,
-- certs.py and log_metadata_snapshot of internal.py).
use pa_sso_proxy.Prelude.{
  String, ◌≡◌, refl, sym, ap, ◌∙◌, subst, option_map, if◌then◌else◌, Bool, true, false, Option,
  none, some, [], ◌∷◌, ◌++◌, map, arith,
}
use pa_sso_proxy.Metadata.{SpidMetadataVersion, Store, is_generated, unexpose}
use pa_sso_proxy.Metadata.Rows.{
  Newest, Ordered-append, Ordered-map, last_generated-map, last_generated-append,
}
use pa_sso_proxy.Metadata.Exposure.{
  Exposed, append_exposed-Exposed, append-Exposed, map-Exposed, unexpose-Exposed, find-exposed,
}
use pa_sso_proxy.Metadata.Takeover.{moved, moved-last, moved-Ordered}
use pa_sso_proxy.History.Consistent.{Pinned, Consistent}

-- An update of every row that leaves all that the invariant reads.
abbrev pub Leaves : (SpidMetadataVersion → SpidMetadataVersion) → Type 0
Leaves f =
    (v : SpidMetadataVersion)
    → ((f v).id ≡ v.id)
      × ((f v).source ≡ v.source)
      × ((f v).created_at ≡ v.created_at)
      × ((f v).is_exposed ≡ v.is_exposed)
      × ((f v).content_hash ≡ v.content_hash)
      × ((f v).xml_content ≡ v.xml_content)

pinned_live :
    (e last : SpidMetadataVersion) (o : Option String)
    → Pinned e last o
    → last.is_exposed ≡ true
    → (o ≡ none) × (last ≡ e)
pinned_live e last none p h = (refl, p)
pinned_live e last (some x) p h = ground arith

Pinned-hidden :
    (e last n : SpidMetadataVersion) (o : Option String)
    → Pinned e last o
    → e.is_exposed ≡ true
    → last.is_exposed ≡ false
    → n.is_exposed ≡ false
    → Pinned e n o
Pinned-hidden e last n none p shown h hn = absurd (ground arith)
Pinned-hidden e last n (some x) p shown h hn = (p.0, hn)

Pinned-Leaves :
    (f : SpidMetadataVersion → SpidMetadataVersion)
    → Leaves f
    → (e last : SpidMetadataVersion) (o : Option String) → Pinned e last o
    → Pinned (f e) (f last) o
Pinned-Leaves f k e last none p = ap f p
Pinned-Leaves f k e last (some x) p = (p.0 ∙ sym (k e).5, (k last).3 ∙ p.1)

module _ (st : Store) (h : String) (c : Consistent st h) where
  pub map-Consistent :
      (f : SpidMetadataVersion → SpidMetadataVersion)
      → Leaves f
      → Consistent (record st { versions = map f st.versions }) h
  map-Consistent f k = record {
    shown = f c.shown;
    last = f c.last;
    is_shown = map-Exposed f (λ v. (k v).3) st.versions c.is_shown;
    is_last =
        last_generated-map f (λ v. (k v).0) (λ v. (k v).1) (λ v. (k v).2) st.versions
        ∙ ap (option_map f) c.is_last;
    hash = (k c.last).4 ∙ c.hash;
    ordered = Ordered-map f (λ v. (k v).0) (λ v. (k v).1) (λ v. (k v).2) st.versions c.ordered;
    pinned = Pinned-Leaves f k c.shown c.last st.override c.pinned;
  }

  -- The new row is exposed exactly if the last one was.
  pub row-Consistent :
      (n : SpidMetadataVersion)
      → Newest n st.versions
      → is_generated n ≡ true
      → (b : Bool) → n.is_exposed ≡ b
      → c.last.is_exposed ≡ b
      → Consistent
          (record st {
            versions =
                if b
                then map (unexpose c.last.id) (st.versions ++ n ∷ [])
                else st.versions ++ n ∷ [];
          })
          n.content_hash
  row-Consistent n new g true hn hl =
      let live = pinned_live c.shown c.last st.override c.pinned hl in
      let shown = subst (λ e. Exposed e st.versions) (sym live.1) c.is_shown in
      record {
        shown = n;
        last = n;
        is_shown = subst (Exposed n) (sym (moved st.versions c.last n c.ordered c.is_last new g)) (
            append_exposed-Exposed n (map (unexpose c.last.id) st.versions)
              (unexpose-Exposed st.versions shown) hn);
        is_last = moved-last st.versions c.last n c.ordered c.is_last new g;
        hash = refl;
        ordered = moved-Ordered st.versions c.last n c.ordered c.is_last new g;
        pinned = subst (Pinned n n) (sym live.0) refl;
      }
  row-Consistent n new g false hn hl = record {
    shown = c.shown;
    last = n;
    is_shown = append-Exposed n st.versions c.is_shown hn;
    is_last = rw (last_generated-append n st.versions new, g) refl;
    hash = refl;
    ordered = Ordered-append st.versions n c.ordered new;
    pinned =
        Pinned-hidden c.shown c.last n st.override c.pinned (find-exposed st.versions c.is_shown.0)
          hl hn;
  }

  -- The columns of the store that the invariant does not read.
  pub same-Consistent :
      (st' : Store) → st'.versions ≡ st.versions → st'.override ≡ st.override → Consistent st' h
  same-Consistent st' v o = record {
    shown = c.shown;
    last = c.last;
    is_shown = rw v c.is_shown;
    is_last = rw v c.is_last;
    hash = c.hash;
    ordered = rw v c.ordered;
    pinned = rw o c.pinned;
  }
