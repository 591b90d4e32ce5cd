-- ===== src/IdentityProviders/Refetched.antt =====
-- A second run of fetch_all_enabled of config-api/app/metadata_watcher.py.
use pa_sso_proxy.Prelude.{
  ℕ, ◌≡◌, refl, inl, inr, false, Option, List, [], ◌∷◌, String, eq_refl, map, count, arith,
  Bool-cases, Option-cases,
}
use pa_sso_proxy.IdentityProviders.{SpidIdP}
use pa_sso_proxy.IdentityProviders.Watcher.{
  is_hash, has_news, fetch_idp_metadata, fetched, updates, fetch_all_enabled,
}

module _ (sha256 : String → String) (get : String → Option String) where
  fetched_again :
      (now later : ℕ) (row : SpidIdP)
      → (updates sha256 get later (fetched sha256 get now row) ≡ false)
        × (fetched sha256 get later (fetched sha256 get now row) ≡ fetched sha256 get now row)
  unfolding updates fetched has_news fetch_idp_metadata is_hash
  fetched_again now later row = elim (Bool-cases row.enabled) [
    | inl on ↦ elim (Option-cases (get row.metadata_url)) [
      | inl failed ↦ (ground arith, ground arith)
      | inr (content, got) ↦ elim (Bool-cases (is_hash (sha256 content) row.metadata_hash)) [
        | inl same ↦ (ground arith, ground arith)
        | inr new ↦
            (ground (arith, eq_refl (sha256 content)), ground (arith, eq_refl (sha256 content)))
      ]
    ]
    | inr off ↦ (ground arith, ground arith)
  ]

  all_again :
      (now later : ℕ) (rows : List SpidIdP)
      → (count (updates sha256 get later) (map (fetched sha256 get now) rows) ≡ 0)
        × (map (fetched sha256 get later) (map (fetched sha256 get now) rows)
            ≡ map (fetched sha256 get now) rows)
  all_again now later [] = (refl, refl)
  all_again now later (row ∷ rows) =
      let (none_updated, rest) = all_again now later rows in
      let (no_update, same) = fetched_again now later row in (ground arith, ground arith)

-- A second run over the enabled providers to which every URL answers as in the first changes no
-- row, counts no update and makes no call to SATOSA.
pub fetch_all_enabled_twice :
    (sha256 : String → String) (get : String → Option String) (now later : ℕ) (rows : List SpidIdP)
    → let after = (fetch_all_enabled sha256 get now rows).0 in
      fetch_all_enabled sha256 get later after ≡ (after, 0, [])
unfolding fetch_all_enabled
fetch_all_enabled_twice sha256 get now later rows =
    let (none_updated, same) = all_again sha256 get now later rows in ground arith
