-- ===== src/Metadata/Takeover.antt =====
-- The exposed mark and a new row (log_metadata_snapshot of config-api/app/routes/internal.py).
use pa_sso_proxy.Prelude.{◌≡◌, refl, true, some, [], ◌∷◌, ◌++◌, map, map-append, ◌<◌, arith}
use pa_sso_proxy.Metadata.{SpidMetadataVersion, by_id, is_generated, last_generated, unexpose}
use pa_sso_proxy.Metadata.Rows.{
  Versions, Newest, Older, Ordered, Ordered-append, Ordered-map, last_generated-All,
  last_generated-map, last_generated-append,
}

-- The flag moves from the last generated row to a new one.
module _ (rows : Versions) (last n : SpidMetadataVersion) (ordered : Ordered rows)
    (is_last : last_generated by_id rows ≡ some last) (newest : Newest n rows)
    (g : is_generated n ≡ true) where
  newer_than_last : last.id < n.id
  newer_than_last = (last_generated-All (λ v. Older v n) by_id rows newest is_last).0

  unexpose_id : (v : SpidMetadataVersion) → (unexpose last.id v).id ≡ v.id
  unfolding unexpose
  unexpose_id v = ground arith

  unexpose_source : (v : SpidMetadataVersion) → (unexpose last.id v).source ≡ v.source
  unfolding unexpose
  unexpose_source v = ground arith

  unexpose_created : (v : SpidMetadataVersion) → (unexpose last.id v).created_at ≡ v.created_at
  unfolding unexpose
  unexpose_created v = ground arith

  unexpose-new : unexpose last.id n ≡ n
  unfolding unexpose
  unexpose-new = ground (arith, newer_than_last)

  appended : last_generated by_id (rows ++ n ∷ []) ≡ some n
  appended = rw (last_generated-append n rows newest, g) refl

  pub moved : map (unexpose last.id) (rows ++ n ∷ []) ≡ map (unexpose last.id) rows ++ n ∷ []
  moved = rw (map-append (unexpose last.id) rows (n ∷ []), unexpose-new) refl

  pub moved-last : last_generated by_id (map (unexpose last.id) (rows ++ n ∷ [])) ≡ some n
  moved-last =
      rw
        (
          last_generated-map (unexpose last.id) unexpose_id unexpose_source unexpose_created
              (rows ++ n ∷ []),
          appended,
          unexpose-new,
        )
        refl

  pub moved-Ordered : Ordered (map (unexpose last.id) (rows ++ n ∷ []))
  moved-Ordered =
      Ordered-map (unexpose last.id) unexpose_id unexpose_source unexpose_created (rows ++ n ∷ [])
        (Ordered-append rows n ordered newest)
