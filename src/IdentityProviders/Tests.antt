-- ===== src/IdentityProviders/Tests.antt =====
-- Runs of the seed, the switches and the watcher on the table spid_idps.
use pa_sso_proxy.Prelude.{
  ℕ, String, ◌≡◌, ◌↔◌, refl, ◌⊎◌, Bool, true, false, Option, none, some, List, [], ◌∷◌, str_eq, map,
  filter, if◌then◌else◌,
}
use pa_sso_proxy.Metadata.{EnteSettings, Effect, generate_and_write, reload_satosa}
use pa_sso_proxy.Metadata.Handlers.{completed}
use pa_sso_proxy.IdentityProviders.{SpidIdP, saved, Store, set_enabled}
use pa_sso_proxy.IdentityProviders.Seed.{seed_spid_idps, seed, missing, seed_row}
use pa_sso_proxy.IdentityProviders.Switches.{
  wants_eidas, eidas_toggle, idps_toggle, switched, exclude_other, has_idp_id, with_nodes, is_on,
}
use pa_sso_proxy.IdentityProviders.Watcher.{
  fetch_all_enabled, fetched, updates, has_news, fetch_idp_metadata, is_hash,
}
use pa_sso_proxy.IdentityProviders.Enabled.{exclusive}
use pa_sso_proxy.IdentityProviders.Exclusive.{created, seeded, toggled, test_providers_exclusive}
use pa_sso_proxy.IdentityProviders.Nodes.{Asks, Refused, node_row, eidas_toggle_lem}

abbrev all_work : Effect → Bool
all_work call = true

abbrev ente : EnteSettings
ente = record {
  proxy_hostname = "sso.example.it";
  org_name = "Ente";
  ipa_code = "ente";
  org_city = "Pescara";
  eidas_enabled = false;
  eidas_environment = "prod";
  legal_entity_enabled = false;
}

abbrev row : ℕ → String → Bool → SpidIdP
row id alias enabled = record {
  id = id;
  alias = alias;
  display_name = alias;
  metadata_url = alias;
  enabled = enabled;
  metadata_cache = none;
  metadata_hash = none;
  last_updated = none;
  registry_entity_id = none;
  registry_disabled = none;
}

abbrev rows : List SpidIdP
rows = row 1 "spid-demo" true ∷ row 2 "eidas-prod" true ∷ row 3 "eidas-qa" false ∷ []

abbrev before : Store
before = record { idps = rows; settings = some ente }

-- The demo provider, row 12 of the seed, is switched on.
abbrev demo_on : Store
demo_on =
    (idps_toggle all_work true 12 (record { idps = seed_spid_idps 1 []; settings = none })).store

-- The validator, row 13, is switched on after it.
abbrev validator_on : Store
validator_on = (idps_toggle all_work true 13 demo_on).store

demo_is_enabled :
    map (λ row. row.alias) (filter (λ row. row.enabled) demo_on.idps) ≡ "spid-demo" ∷ []
unfolding idps_toggle switched exclude_other has_idp_id seed_spid_idps seed missing seed_row
demo_is_enabled = refl

validator_takes_over :
    map (λ row. row.alias) (filter (λ row. row.enabled) validator_on.idps) ≡ "spid-validator" ∷ []
unfolding idps_toggle switched exclude_other has_idp_id seed_spid_idps seed missing seed_row
    set_enabled
validator_takes_over = refl

test_providers_exclusive_example : exclusive validator_on.idps ≡ true
test_providers_exclusive_example =
    test_providers_exclusive validator_on
      (toggled (toggled (seeded (created none) 1) all_work true 12) all_work true 13)

qa_instead_of_prod :
    map
      (λ row. row.alias)
      (filter
        (λ row. row.enabled)
        (eidas_toggle all_work true none "yes" "qa" (some "on") before).store.idps)
    ≡ "spid-demo" ∷ "eidas-qa" ∷ []
unfolding eidas_toggle wants_eidas is_on with_nodes set_enabled
qa_instead_of_prod = refl

eidas_toggle_lem_example :
    let outcome = eidas_toggle all_work true none "yes" "qa" (some "on") before in
    let enable = wants_eidas none (some "on") in
    ((enable ≡ true) ↔ Asks none (some "on"))
    × (Refused true before.settings enable "yes" outcome.answer
          × (outcome.store ≡ before)
          × (outcome.effects ≡ [])
        ⊎ ((s : EnteSettings) × (before.settings ≡ some s)
            × (true ≡ true)
            × ((enable ≡ false) ⊎ (◌≡◌ {A = String} "yes" "yes"))
            × (outcome.answer ≡ saved)
            × (outcome.effects ≡ completed all_work (generate_and_write ∷ reload_satosa ∷ []))
            × (outcome.store ≡ record {
              idps = map (node_row enable "qa") before.idps;
              settings = some (record s { eidas_enabled = enable; eidas_environment = "qa" });
            })))
eidas_toggle_lem_example = eidas_toggle_lem all_work true none "yes" "qa" (some "on") before

abbrev sha256 : String → String
sha256 s = s

abbrev get : String → Option String
get url = if str_eq url "spid-demo" then some "<xml/>" else none

one_update : (fetch_all_enabled sha256 get 5 rows).1 ≡ 1
unfolding fetch_all_enabled fetched updates has_news fetch_idp_metadata is_hash
one_update = refl
