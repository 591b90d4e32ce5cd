-- ===== src/IdentityProviders/Exclusive.antt =====
-- The demo provider and the validator under the switches of config-api/app/routes/idps.py, eidas.py
-- and legal_entity.py, the seed and the watcher.
use pa_sso_proxy.Prelude.{ℕ, String, ◌≡◌, refl, Bool, true, Option, []}
use pa_sso_proxy.Metadata.{EnteSettings, Effect}
use pa_sso_proxy.IdentityProviders.{Store}
use pa_sso_proxy.IdentityProviders.Seed.{seed_spid_idps}
use pa_sso_proxy.IdentityProviders.Switches.{
  idps_toggle, idps_enable_all, eidas_toggle, legal_entity_toggle,
}
use pa_sso_proxy.IdentityProviders.Watcher.{fetch_all_enabled, idps_refresh}
use pa_sso_proxy.IdentityProviders.Enabled.{is_enabled, exclusive}
use pa_sso_proxy.IdentityProviders.Kept.{
  seed-exclusive, idps_toggle-exclusive, eidas_toggle-exclusive, enable_all-exclusive,
  legal_entity-exclusive, watched-exclusive, refresh-exclusive,
}

-- The table from its first seed on, over the switches, the seeds, the downloads and any change of
-- the settings.
pub data Administered : Store → Type 0 where
  created :
      (settings : Option EnteSettings) → Administered (record { idps = []; settings = settings })
  seeded :
      {st : Store}
      → Administered st
      → (id : ℕ) → Administered (record st { idps = seed_spid_idps id st.idps })
  toggled :
      {st : Store}
      → Administered st
      → (works : Effect → Bool) (signed_in : Bool) (k : ℕ)
      → Administered (idps_toggle works signed_in k st).store
  all_enabled :
      {st : Store}
      → Administered st
      → (works : Effect → Bool) (signed_in : Bool)
      → Administered (idps_enable_all works signed_in st).store
  eidas_toggled :
      {st : Store}
      → Administered st
      → (works : Effect → Bool) (signed_in : Bool) (action : Option String)
        (confirmed environment : String) (checkbox : Option String)
      → Administered (eidas_toggle works signed_in action confirmed environment checkbox st).store
  legal_entity_toggled :
      {st : Store}
      → Administered st
      → (works : Effect → Bool) (signed_in : Bool) (confirmed : String) (checkbox : Option String)
      → Administered (legal_entity_toggle works signed_in confirmed checkbox st).store
  watched :
      {st : Store}
      → Administered st
      → (sha256 : String → String) (get : String → Option String) (now : ℕ)
      → Administered (record st { idps = (fetch_all_enabled sha256 get now st.idps).0 })
  refreshed_one :
      {st : Store}
      → Administered st
      → (sha256 : String → String) (get : String → Option String) (now : ℕ) (works : Effect → Bool)
        (signed_in : Bool) (k : ℕ)
      → Administered (idps_refresh sha256 get now works signed_in k st).store
  settings_saved :
      {st : Store}
      → Administered st
      → (settings : Option EnteSettings) → Administered (record st { settings = settings })

-- From the empty table on, the demo provider and the validator are never both enabled, whatever
-- seeds, switches, downloads and changes of the settings follow on each other.
pub test_providers_exclusive : (st : Store) → Administered st → exclusive st.idps ≡ true
unfolding exclusive is_enabled
test_providers_exclusive st (created settings) = refl
test_providers_exclusive st (seeded {st = before} a id) =
    seed-exclusive id before.idps (test_providers_exclusive before a)
test_providers_exclusive st (toggled {st = before} a works signed_in k) =
    idps_toggle-exclusive works signed_in k before (test_providers_exclusive before a)
test_providers_exclusive st (all_enabled {st = before} a works signed_in) =
    enable_all-exclusive works signed_in before (test_providers_exclusive before a)
test_providers_exclusive st
      (eidas_toggled {st = before} a works signed_in action confirmed environment checkbox) =
    eidas_toggle-exclusive works signed_in action confirmed environment checkbox before
      (test_providers_exclusive before a)
test_providers_exclusive st
      (legal_entity_toggled {st = before} a works signed_in confirmed checkbox) =
    legal_entity-exclusive works signed_in confirmed checkbox before
      (test_providers_exclusive before a)
test_providers_exclusive st (watched {st = before} a sha256 get now) =
    watched-exclusive sha256 get now before.idps (test_providers_exclusive before a)
test_providers_exclusive st (refreshed_one {st = before} a sha256 get now works signed_in k) =
    refresh-exclusive sha256 get now works signed_in k before (test_providers_exclusive before a)
test_providers_exclusive st (settings_saved {st = before} a settings) =
    test_providers_exclusive before a
