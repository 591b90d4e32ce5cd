-- ===== src/Metadata/Exposure.antt =====
-- The exposed version among the rows (config-api/app/models/metadata_version.py), and what the
-- updates of routes/metadata.py and of log_metadata_snapshot in routes/internal.py do to it.
use pa_sso_proxy.Prelude.{
  ℕ, ◌≡◌, refl, ◌∙◌, count-append, find_first-append, find-filter, count-filter, inl, inr,
  option_map, Bool-cases, Bool, true, false, not, some, [], ◌∷◌, ◌++◌, map, arith, filter, find,
  count, All,
}
use pa_sso_proxy.Metadata.{SpidMetadataVersion, has_id, expose_only, unexpose}
use pa_sso_proxy.Metadata.Rows.{Versions}

abbrev pub exposed : SpidMetadataVersion → Bool
exposed v = v.is_exposed

-- `e` and no other row is exposed.
abbrev pub Exposed : SpidMetadataVersion → Versions → Type 0
Exposed e rows = (find exposed rows ≡ some e) × (count exposed rows ≡ 1)

pub find-expose_only :
    (k : ℕ) (rows : Versions)
    → find exposed (map (expose_only k) rows) ≡ option_map (expose_only k) (find (has_id k) rows)
unfolding expose_only has_id
find-expose_only k [] = refl
find-expose_only k (v ∷ rows) = ground (arith, find-expose_only k rows)

pub count-expose_only :
    (k : ℕ) (rows : Versions) → count exposed (map (expose_only k) rows) ≡ count (has_id k) rows
unfolding expose_only has_id
count-expose_only k [] = refl
count-expose_only k (v ∷ rows) = omega (arith, count-expose_only k rows)

module _ (n : SpidMetadataVersion) where
  -- After an insert of an exposed row where no other is.
  pub append_exposed-Exposed :
      (rows : Versions) → count exposed rows ≡ 0 → n.is_exposed ≡ true → Exposed n (rows ++ n ∷ [])
  append_exposed-Exposed rows z h =
      (find_first-append exposed n rows z h, ground (arith, count-append exposed rows (n ∷ [])))

  find-append :
      (rows : Versions) {e : SpidMetadataVersion}
      → find exposed rows ≡ some e
      → find exposed (rows ++ n ∷ []) ≡ some e
  find-append [] f = ground arith
  find-append (v ∷ rows) {e} f = ground (arith, find-append rows {e = e})

  -- After an insert of a row that is not exposed.
  pub append-Exposed :
      (rows : Versions) {e : SpidMetadataVersion}
      → Exposed e rows
      → n.is_exposed ≡ false
      → Exposed e (rows ++ n ∷ [])
  append-Exposed rows (f, c) h =
      (find-append rows f, ground (arith, count-append exposed rows (n ∷ [])))

-- After an update that leaves the flag.
module _ (f : SpidMetadataVersion → SpidMetadataVersion)
    (same_exposed : (v : SpidMetadataVersion) → (f v).is_exposed ≡ v.is_exposed) where
  find-map : (rows : Versions) → find exposed (map f rows) ≡ option_map f (find exposed rows)
  find-map [] = refl
  find-map (v ∷ rows) = ground (arith, find-map rows, same_exposed v)

  count-map : (rows : Versions) → count exposed (map f rows) ≡ count exposed rows
  count-map [] = refl
  count-map (v ∷ rows) = ground (arith, count-map rows, same_exposed v)

  pub map-Exposed :
      (rows : Versions) {e : SpidMetadataVersion} → Exposed e rows → Exposed (f e) (map f rows)
  map-Exposed rows (s, c) = (rw (find-map rows, s) refl, count-map rows ∙ c)

still_none :
    (k : ℕ) (rows : Versions) → count exposed rows ≡ 0 → count exposed (map (unexpose k) rows) ≡ 0
unfolding unexpose
still_none k [] z = refl
still_none k (v ∷ rows) z = ground (arith, still_none k rows)

pub unexpose-Exposed :
    (rows : Versions) {e : SpidMetadataVersion}
    → Exposed e rows
    → count exposed (map (unexpose e.id) rows) ≡ 0
unfolding unexpose
unexpose-Exposed [] (f, c) = refl
unexpose-Exposed (v ∷ rows) {e} (f, c) = elim (Bool-cases v.is_exposed) [
  | inl shown ↦ ground (arith, still_none e.id rows)
  | inr hidden ↦ ground (arith, unexpose-Exposed rows {e = e} (ground arith, ground arith))
]

module _ (k : ℕ) where
  -- After a delete of a row that is not exposed.
  pub filter-Exposed :
      (rows : Versions) {e : SpidMetadataVersion}
      → All (λ v. v.id ≡ k → v.is_exposed ≡ false) rows
      → Exposed e rows
      → Exposed e (filter (λ v. not (has_id k v)) rows)
  unfolding has_id
  filter-Exposed rows h (f, c) =
      (find-filter (λ v. v.id) exposed k rows h ∙ f, count-filter (λ v. v.id) exposed k rows h ∙ c)

pub find-exposed :
    (rows : Versions) {e : SpidMetadataVersion} → find exposed rows ≡ some e → e.is_exposed ≡ true
find-exposed [] f = ground arith
find-exposed (v ∷ rows) {e = e} f = ground (arith, find-exposed rows {e = e})
