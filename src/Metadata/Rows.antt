-- ===== src/Metadata/Rows.antt =====
-- The table of the versions (config-api/app/models/metadata_version.py): its order, its last
-- generated row under both orders of the source, and what an update of all rows does to the two.
use pa_sso_proxy.Prelude.{
  ℕ, ◌≡◌, refl, inl, inr, option_map, if◌then◌else◌, All-mono, Increasing, find_key,
  find_unique as unique_key, count_unique as count_key, Bool, true, none, some, List, [], ◌∷◌, ◌++◌,
  map, ◌<◌, ◌≤◌, arith, Option-cases, filter, find, count, All, All-append,
}
use pa_sso_proxy.Metadata.{
  SpidMetadataVersion, has_id, is_generated, by_id, by_creation, first_of, last_generated,
}

abbrev pub Versions : Type 0
Versions = List SpidMetadataVersion

-- `u` was added after `v`.
abbrev pub Older : SpidMetadataVersion → SpidMetadataVersion → Type 0
Older v u = (v.id < u.id) × (v.created_at ≤ u.created_at)

abbrev pub Newest : SpidMetadataVersion → Versions → Type 0
Newest u rows = All (λ v. Older v u) rows

abbrev pub Ordered : Versions → Type 0
Ordered [] = Unit
Ordered (v ∷ rows) = All (Older v) rows × Ordered rows

pub Ordered-append :
    (rows : Versions) (u : SpidMetadataVersion)
    → Ordered rows
    → Newest u rows
    → Ordered (rows ++ u ∷ [])
Ordered-append [] u o n = (tt, tt)
Ordered-append (v ∷ rows) u (hv, o) (hn, n) =
    (All-append (Older v) rows (u ∷ []) hv (hn, tt), Ordered-append rows u o n)

module _ (P : SpidMetadataVersion → Type 0) where
  pub find-All :
      (p : SpidMetadataVersion → Bool) (rows : Versions) {v : SpidMetadataVersion}
      → All P rows
      → find p rows ≡ some v
      → P v
  find-All p [] h e = ground arith
  find-All p (v ∷ rows) (hv, h) e = elim (Option-cases (find p rows)) [
    | inl n ↦ ground arith
    | inr (u, s) ↦ let hu = find-All p rows h s in ground arith
  ]

  pub last_generated-All :
      (before : SpidMetadataVersion → SpidMetadataVersion → Bool) (rows : Versions)
      {v : SpidMetadataVersion}
      → All P rows
      → last_generated before rows ≡ some v
      → P v
  unfolding last_generated first_of
  last_generated-All before [] h e = ground arith
  last_generated-All before (v ∷ rows) (hv, h) e =
      elim (Option-cases (last_generated before rows)) [
        | inl n ↦ ground arith
        | inr (u, s) ↦ let hu = last_generated-All before rows h s in ground arith
      ]

  pub All-filter :
      (p : SpidMetadataVersion → Bool) (rows : Versions) → All P rows → All P (filter p rows)
  All-filter p [] h = tt
  All-filter p (v ∷ rows) (hv, h) = ground (arith, All-filter p rows h)

pub Ordered-filter :
    (p : SpidMetadataVersion → Bool) (rows : Versions) → Ordered rows → Ordered (filter p rows)
Ordered-filter p [] o = tt
Ordered-filter p (v ∷ rows) (hv, o) =
    ground (arith, All-filter (Older v) p rows hv, Ordered-filter p rows o)

pub creation_is_id_order :
    (rows : Versions) → Ordered rows → last_generated by_creation rows ≡ last_generated by_id rows
unfolding last_generated first_of by_creation by_id
creation_is_id_order [] o = refl
creation_is_id_order (v ∷ rows) (hv, o) = elim (Option-cases (last_generated by_id rows)) [
  | inl n ↦ ground (arith, creation_is_id_order rows o)
  | inr (u, s) ↦
      let older = last_generated-All (Older v) by_id rows hv s in
      ground (arith, creation_is_id_order rows o)
]

-- An update of every row that keeps what the orders read.
module _ (f : SpidMetadataVersion → SpidMetadataVersion)
    (same_id : (v : SpidMetadataVersion) → (f v).id ≡ v.id)
    (same_source : (v : SpidMetadataVersion) → (f v).source ≡ v.source)
    (same_created : (v : SpidMetadataVersion) → (f v).created_at ≡ v.created_at) where
  Newest-map :
      (v : SpidMetadataVersion) (rows : Versions)
      → All (Older v) rows
      → All (Older (f v)) (map f rows)
  Newest-map v [] h = tt
  Newest-map v (u ∷ rows) ((lt, le), h) =
      (omega (arith, same_id v, same_id u, same_created v, same_created u), Newest-map v rows h)

  pub Ordered-map : (rows : Versions) → Ordered rows → Ordered (map f rows)
  Ordered-map [] o = tt
  Ordered-map (v ∷ rows) (hv, o) = (Newest-map v rows hv, Ordered-map rows o)

  pub last_generated-map :
      (rows : Versions)
      → last_generated by_id (map f rows) ≡ option_map f (last_generated by_id rows)
  unfolding last_generated first_of by_id is_generated
  last_generated-map [] = refl
  last_generated-map (v ∷ rows) = elim (Option-cases (last_generated by_id rows)) [
    | inl n ↦ ground (arith, last_generated-map rows, same_source v)
    | inr (u, s) ↦ ground (arith, last_generated-map rows, same_source v, same_id v, same_id u)
  ]

module _ (u : SpidMetadataVersion) where
  -- The last generated row after an insert of `u`.
  pub last_generated-append :
      (rows : Versions)
      → Newest u rows
      → last_generated by_id (rows ++ u ∷ [])
        ≡ (if is_generated u then some u else last_generated by_id rows)
  unfolding last_generated first_of by_id
  last_generated-append [] n = refl
  last_generated-append (v ∷ rows) ((lt, le), n) = elim (Option-cases (last_generated by_id rows)) [
    | inl e ↦ ground (arith, last_generated-append rows n)
    | inr (w, e) ↦ ground (arith, last_generated-append rows n)
  ]

last_generated-filter-none :
    (p : SpidMetadataVersion → Bool) (rows : Versions)
    → last_generated by_id rows ≡ none
    → last_generated by_id (filter p rows) ≡ none
unfolding last_generated
last_generated-filter-none p [] e = refl
last_generated-filter-none p (v ∷ rows) e = ground (arith, last_generated-filter-none p rows)

-- A delete of other rows leaves the last generated one.
pub last_generated-filter :
    (p : SpidMetadataVersion → Bool) (rows : Versions) {last : SpidMetadataVersion}
    → Ordered rows
    → last_generated by_id rows ≡ some last
    → p last ≡ true
    → last_generated by_id (filter p rows) ≡ some last
unfolding last_generated first_of by_id
last_generated-filter p [] o e h = ground arith
last_generated-filter p (v ∷ rows) (hv, o) e h = elim (Option-cases (last_generated by_id rows)) [
  | inl n ↦ ground (arith, last_generated-filter-none p rows n)
  | inr (w, s) ↦
      let lt = last_generated-All (Older v) by_id rows hv s in
      let ih = last_generated-filter p rows o s in ground arith
]

pub find_id :
    (rows : Versions) (k : ℕ) {v : SpidMetadataVersion} → find (has_id k) rows ≡ some v → v.id ≡ k
unfolding has_id
find_id rows k e = find_key (λ v. v.id) rows k e

Ordered-Increasing : (rows : Versions) → Ordered rows → Increasing (λ v. v.id) rows
Ordered-Increasing [] o = tt
Ordered-Increasing (v ∷ rows) (hv, o) =
    (All-mono (λ u older. older.0) rows hv, Ordered-Increasing rows o)

-- The rows have different ids.
pub find_unique :
    (rows : Versions) (k : ℕ) {v : SpidMetadataVersion}
    → Ordered rows
    → find (has_id k) rows ≡ some v
    → All (λ u. u.id ≡ k → u ≡ v) rows
unfolding has_id
find_unique rows k o e = unique_key (λ v. v.id) rows k (Ordered-Increasing rows o) e

pub count_unique :
    (rows : Versions) (k : ℕ) {v : SpidMetadataVersion}
    → Ordered rows
    → find (has_id k) rows ≡ some v
    → count (has_id k) rows ≡ 1
unfolding has_id
count_unique rows k o e = count_key (λ v. v.id) rows k (Ordered-Increasing rows o) e
