-- ===== src/History/Published.antt =====
-- What /spidSaml2/metadata publishes along a history: metadata_endpoint of
-- satosa/plugins/spidsaml2.py, with the operations of config-api/app/routes.
use pa_sso_proxy.Prelude.{String, ◌≡◌, ◌⊎◌, refl, inl, inr, Option, none, some, arith}
use pa_sso_proxy.Metadata.{SpidMetadataVersion, Store, Snapshot, hash_of}
use pa_sso_proxy.Metadata.Exposure.{Exposed}
use pa_sso_proxy.Metadata.Handlers.{metadata_endpoint}
use pa_sso_proxy.History.{Env, History, start, report, next}
use pa_sso_proxy.History.Consistent.{Pinned, Consistent, first-Consistent}
use pa_sso_proxy.History.Operations.{snapshot-Consistent, handle-Consistent}

History-Consistent :
    (env : Env) (st : Store) (live : Snapshot)
    → History env st live
    → Consistent st (hash_of env.sha256 live)
History-Consistent env st live (start certs settings entry id now) =
    first-Consistent env.sha256 entry id now certs settings
History-Consistent env st live (report {st = before} {live = earlier} k entry id now new) =
    snapshot-Consistent before (hash_of env.sha256 earlier)
      (History-Consistent env before earlier k) env.sha256 entry id now new
History-Consistent env st live (next {st = before} k works s call id now new keeps) =
    handle-Consistent before (hash_of env.sha256 live) (History-Consistent env before live k) env
      works s call id now new keeps

-- The document published is the text of `e`, or else the document that SATOSA built last, of which
-- `e` is the snapshot up to the signature.
abbrev pub Publishes : (String → String) → Store → Snapshot → SpidMetadataVersion → Type 0
Publishes sha256 st live e =
    (metadata_endpoint st.override live.xml_content ≡ e.xml_content)
    ⊎ ((metadata_endpoint st.override live.xml_content ≡ live.xml_content)
        × (e.content_hash ≡ hash_of sha256 live))

Pinned-Publishes :
    (sha256 : String → String) (st : Store) (live : Snapshot) (e last : SpidMetadataVersion)
    → last.content_hash ≡ hash_of sha256 live
    → (o : Option String) → st.override ≡ o
    → Pinned e last o
    → Publishes sha256 st live e
unfolding metadata_endpoint
Pinned-Publishes sha256 st live e last h none eq p = inr (rw eq refl, ground arith)
Pinned-Publishes sha256 st live e last h (some x) eq p = inl (rw eq p.0)

-- In every history that begins with SATOSA's first snapshot on an empty table, where the ids of new
-- versions grow, the clock does not go back and no call deletes the last generated version, exactly
-- one version is marked as exposed, and /spidSaml2/metadata publishes it: its own text, or the
-- document that SATOSA has built and whose hash the version has.
pub one_version_published :
    (env : Env) (st : Store) (live : Snapshot)
    → History env st live
    → (e : SpidMetadataVersion) × Exposed e st.versions × Publishes env.sha256 st live e
one_version_published env st live k =
    let c = History-Consistent env st live k in
    (
      c.shown,
      c.is_shown,
      Pinned-Publishes env.sha256 st live c.shown c.last c.hash st.override refl c.pinned,
    )
