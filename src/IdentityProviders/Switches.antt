-- ===== src/IdentityProviders/Switches.antt =====
-- The switches of config-api/app/routes/idps.py (idps_toggle, idps_enable_all), eidas.py and
-- legal_entity.py. `signed_in` is the truth value of `_auth_check`, and `works` says which of the
-- calls to generate and reload SATOSA's configuration complete.
use pa_sso_proxy.Prelude.{
  ℕ, String, Bool, true, false, not, ◌&&◌, ◌||◌, Option, none, some, List, [], ◌∷◌, str_eq, ◌==◌,
  map, find, if◌then◌else◌,
}
use pa_sso_proxy.Metadata.{Effect, generate_and_write, reload_satosa}
use pa_sso_proxy.Metadata.Handlers.{completed}
use pa_sso_proxy.IdentityProviders.{
  SpidIdP, Store, Answer, to_login, to_page, saved, unconfirmed, raised, Outcome, set_enabled,
}

unfoldable pub answered : Answer → Store → Outcome
answered answer st = record { answer = answer; store = st; effects = [] }

unfoldable pub has_idp_id : ℕ → SpidIdP → Bool
has_idp_id k row = row.id == k

-- The row that was found.
unfoldable pub switched : ℕ → List SpidIdP → List SpidIdP
unfolding has_idp_id
switched k [] = []
switched k (row ∷ rows) =
    let rest = switched k rows in
    if has_idp_id k row then record row { enabled = not row.enabled } ∷ rows else row ∷ rest

-- Of the demo provider and the validator only one may be enabled.
unfoldable pub exclude_other : SpidIdP → List SpidIdP → List SpidIdP
unfolding set_enabled
exclude_other row rows =
    if row.enabled
    then rows
    else if str_eq row.alias "spid-demo"
    then set_enabled "spid-validator" false rows
    else if str_eq row.alias "spid-validator"
    then set_enabled "spid-demo" false rows
    else rows

unfoldable pub idps_toggle : (Effect → Bool) → Bool → ℕ → Store → Outcome
unfolding answered exclude_other switched has_idp_id
idps_toggle works signed_in k st =
    if not signed_in then answered to_login st else elim (find (has_idp_id k) st.idps) [
      | none ↦ answered to_page st
      | some row ↦ record {
        answer = to_page;
        store = record st { idps = exclude_other row (switched k st.idps) };
        effects = completed works (generate_and_write ∷ reload_satosa ∷ []);
      }
    ]

unfoldable pub may_enable : SpidIdP → Bool
may_enable row =
    (elim row.registry_entity_id [ none ↦ false | some id ↦ true ])
    && (not (str_eq row.alias "spid-demo" || str_eq row.alias "spid-validator")
        && not (elim row.registry_disabled [ none ↦ false | some b ↦ b ]))

unfoldable pub enabled_row : SpidIdP → SpidIdP
unfolding may_enable
enabled_row row = if may_enable row then record row { enabled = true } else row

unfoldable pub idps_enable_all : (Effect → Bool) → Bool → Store → Outcome
unfolding answered enabled_row
idps_enable_all works signed_in st = if not signed_in then answered to_login st else record {
  answer = if works generate_and_write && works reload_satosa then saved else raised;
  store = record st { idps = map enabled_row st.idps };
  effects = completed works (generate_and_write ∷ reload_satosa ∷ []);
}

-- `value in ("yes", "on", "true", "1")`
unfoldable pub is_on : Option String → Bool
is_on none = false
is_on (some v) = str_eq v "yes" || str_eq v "on" || str_eq v "true" || str_eq v "1"

-- The old form says what to do in `action`, the new one by its checkbox.
unfoldable pub wants_eidas : Option String → Option String → Bool
unfolding is_on
wants_eidas none checkbox = is_on checkbox
wants_eidas (some action) checkbox = str_eq action "enable"

unfoldable pub with_nodes : Bool → String → List SpidIdP → List SpidIdP
unfolding set_enabled
with_nodes enable environment rows =
    set_enabled "eidas-prod" (enable && str_eq environment "prod")
      (set_enabled "eidas-qa" (enable && str_eq environment "qa") rows)

unfoldable pub eidas_toggle :
    (Effect → Bool) → Bool → Option String → String → String → Option String → Store → Outcome
unfolding answered wants_eidas with_nodes
eidas_toggle works signed_in action confirmed environment checkbox st =
    let enable = wants_eidas action checkbox in
    if not signed_in then answered to_login st else elim st.settings [
      | none ↦ answered to_page st
      | some s ↦
          if enable && not (str_eq confirmed "yes") then answered unconfirmed st else record {
            answer = saved;
            store = record {
              idps = with_nodes enable environment st.idps;
              settings =
                  some (record s { eidas_enabled = enable; eidas_environment = environment });
            };
            effects = completed works (generate_and_write ∷ reload_satosa ∷ []);
          }
    ]

unfoldable pub legal_entity_toggle :
    (Effect → Bool) → Bool → String → Option String → Store → Outcome
unfolding answered is_on
legal_entity_toggle works signed_in confirmed checkbox st =
    let enable = is_on checkbox in
    if not signed_in then answered to_login st else elim st.settings [
      | none ↦ answered to_page st
      | some s ↦
          if enable && not (str_eq confirmed "yes") then answered unconfirmed st else record {
            answer = saved;
            store = record st { settings = some (record s { legal_entity_enabled = enable }) };
            effects = completed works (generate_and_write ∷ reload_satosa ∷ []);
          }
    ]
