-- ===== src/IdentityProviders.antt =====
-- The SPID identity providers: the table spid_idps (config-api/app/models/idp.py), its seed
-- (config-api/app/spid_seeder.py), the switches of config-api/app/routes/idps.py, eidas.py and
-- legal_entity.py, and the downloads of config-api/app/metadata_watcher.py. Of the columns that the
-- registry fills, the ones that are only displayed are left out.
pub mod Seed
pub mod Switches
pub mod Watcher
pub mod Enabled
pub mod Kept
pub mod Exclusive
pub mod Nodes
pub mod Refetched
mod Tests
use pa_sso_proxy.Prelude.{
  ℕ, String, Bool, true, false, ◌&&◌, Option, List, [], ◌∷◌, str_eq, ◌==◌, map, if◌then◌else◌,
}
use pa_sso_proxy.Metadata.{EnteSettings, Effect}

pub record SpidIdP : Type 0 where
  pub id : ℕ
  pub alias : String
  pub display_name : String
  pub metadata_url : String
  pub enabled : Bool
  pub metadata_cache : Option String
  pub metadata_hash : Option String
  pub last_updated : Option ℕ
  pub registry_entity_id : Option String
  pub registry_disabled : Option Bool

pub record Store : Type 0 where
  pub idps : List SpidIdP
  pub settings : Option EnteSettings

pub data Answer : Type 0 where
  to_login to_page saved : Answer
  -- the page with the warning that asks for a confirmation
  unconfirmed : Answer
  -- the exception that the handler lets through
  raised : Answer

-- `effects` are the calls that are made to generate and reload SATOSA's configuration.
pub record Outcome : Type 0 where
  pub answer : Answer
  pub store : Store
  pub effects : List Effect

-- The row under an alias, which is unique, gets a new `enabled`.
unfoldable pub set_enabled : String → Bool → List SpidIdP → List SpidIdP
set_enabled alias enabled rows =
    map (λ row. if str_eq row.alias alias then record row { enabled = enabled } else row) rows
