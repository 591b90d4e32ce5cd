-- ===== src/IdentityProviders/Watcher.antt =====
-- fetch_idp_metadata and fetch_all_enabled of config-api/app/metadata_watcher.py, and idps_refresh of
-- config-api/app/routes/idps.py. `get` is what a URL answers, none for an exception.
use pa_sso_proxy.Prelude.{
  ℕ, String, Bool, false, not, Option, none, some, List, [], ◌∷◌, str_eq, map, find, ltb,
  if◌then◌else◌, count,
}
use pa_sso_proxy.Metadata.{Effect, generate_and_write, reload_satosa}
use pa_sso_proxy.Metadata.Handlers.{completed}
use pa_sso_proxy.IdentityProviders.{SpidIdP, Store, to_login, to_page, Outcome}
use pa_sso_proxy.IdentityProviders.Switches.{answered, has_idp_id}

unfoldable pub is_hash : String → Option String → Bool
is_hash hash none = false
is_hash hash (some old) = str_eq hash old

module _ (sha256 : String → String) (get : String → Option String) (now : ℕ) where
  unfoldable pub has_news : SpidIdP → Bool
  unfolding is_hash
  has_news row = elim (get row.metadata_url) [
    | none ↦ false
    | some content ↦ not (is_hash (sha256 content) row.metadata_hash)
  ]

  -- The row after a download, which raises or finds the content that is there already or a new one.
  unfoldable pub fetch_idp_metadata : SpidIdP → SpidIdP
  unfolding is_hash
  fetch_idp_metadata row = elim (get row.metadata_url) [
    | none ↦ row
    | some content ↦ if is_hash (sha256 content) row.metadata_hash then row else record row {
      metadata_cache = some content;
      metadata_hash = some (sha256 content);
      last_updated = some now;
    }
  ]

  unfoldable pub fetched : SpidIdP → SpidIdP
  unfolding fetch_idp_metadata
  fetched row = if row.enabled then fetch_idp_metadata row else row

  unfoldable pub updates : SpidIdP → Bool
  unfolding has_news
  updates row = if row.enabled then has_news row else false

  -- The rows, the number of updates and the calls to SATOSA.
  unfoldable pub fetch_all_enabled : List SpidIdP → List SpidIdP × ℕ × List Effect
  unfolding fetched updates
  fetch_all_enabled rows =
      let updated = count updates rows in
      (
        map fetched rows,
        updated,
        if ltb 0 updated then generate_and_write ∷ reload_satosa ∷ [] else [],
      )

  unfoldable pub refreshed : ℕ → List SpidIdP → List SpidIdP
  unfolding fetch_idp_metadata has_idp_id
  refreshed k [] = []
  refreshed k (row ∷ rows) =
      let rest = refreshed k rows in
      if has_idp_id k row then fetch_idp_metadata row ∷ rows else row ∷ rest

  unfoldable pub idps_refresh : (Effect → Bool) → Bool → ℕ → Store → Outcome
  unfolding answered refreshed has_news has_idp_id
  idps_refresh works signed_in k st =
      if not signed_in then answered to_login st else elim (find (has_idp_id k) st.idps) [
        | none ↦ answered to_page st
        | some row ↦ record {
          answer = to_page;
          store = record st { idps = refreshed k st.idps };
          effects =
              (if has_news row
                then completed works (generate_and_write ∷ reload_satosa ∷ [])
                else []);
        }
      ]
