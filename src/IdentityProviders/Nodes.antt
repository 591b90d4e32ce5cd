-- ===== src/IdentityProviders/Nodes.antt =====
-- The two eIDAS nodes under eidas_toggle of config-api/app/routes/eidas.py.
use pa_sso_proxy.Prelude.{
  none, String, ◌≡◌, ◌≢◌, ◌↔◌, refl, ◌⊎◌, inl, inr, Bool, true, false, not, ◌&&◌, Option, some,
  List, [], ◌∷◌, str_eq, eq_iff, map, if◌then◌else◌, arith, ap, ◌∙◌, Option-cases, Bool-cases,
}
use pa_sso_proxy.Metadata.{EnteSettings, Effect, generate_and_write, reload_satosa}
use pa_sso_proxy.Metadata.Handlers.{completed}
use pa_sso_proxy.IdentityProviders.{
  SpidIdP, Store, Answer, to_login, to_page, unconfirmed, saved, set_enabled,
}
use pa_sso_proxy.IdentityProviders.Switches.{is_on, answered, wants_eidas, with_nodes, eidas_toggle}

-- A row after the switch: an eIDAS node is enabled if it is the one of the environment, and every
-- other row is as it was.
unfoldable pub node_row : Bool → String → SpidIdP → SpidIdP
node_row enable environment row =
    if str_eq row.alias "eidas-qa"
    then record row { enabled = enable && str_eq environment "qa" }
    else if str_eq row.alias "eidas-prod"
    then record row { enabled = enable && str_eq environment "prod" }
    else row

-- The two updates on one row.
unfoldable both_set : Bool → String → SpidIdP → SpidIdP
both_set enable environment row =
    let first =
      if str_eq row.alias "eidas-qa"
      then record row { enabled = enable && str_eq environment "qa" }
      else row in
    if str_eq first.alias "eidas-prod"
    then record first { enabled = enable && str_eq environment "prod" }
    else first

node_lem :
    (enable : Bool) (environment : String) (row : SpidIdP)
    → both_set enable environment row ≡ node_row enable environment row
unfolding both_set node_row
node_lem enable environment row = elim (Bool-cases (str_eq row.alias "eidas-qa")) [
  | inl qa ↦
      let not_prod : str_eq row.alias "eidas-prod" ≡ false =
        ap (λ alias. str_eq alias "eidas-prod") ((eq_iff row.alias "eidas-qa").0 qa) in
      ground arith
  | inr other ↦ ground arith
]

with_nodes_lem :
    (enable : Bool) (environment : String) (rows : List SpidIdP)
    → with_nodes enable environment rows ≡ map (node_row enable environment) rows
unfolding with_nodes set_enabled both_set
with_nodes_lem enable environment [] = refl
with_nodes_lem enable environment (row ∷ rows) =
    ap (λ rest. both_set enable environment row ∷ rest) (with_nodes_lem enable environment rows)
    ∙ ap (λ r. r ∷ map (node_row enable environment) rows) (node_lem enable environment row)

-- What the form asks to enable: by its action, or without one by a checkbox that is on.
abbrev pub Asks : Option String → Option String → Type 0
Asks action checkbox =
    (action ≡ some "enable")
    ⊎ (action ≡ none)
      × ((checkbox ≡ some "yes")
          ⊎ (checkbox ≡ some "on")
          ⊎ (checkbox ≡ some "true")
          ⊎ (checkbox ≡ some "1"))

wants_eidas-Asks :
    (action checkbox : Option String) → (wants_eidas action checkbox ≡ true) ↔ Asks action checkbox
unfolding wants_eidas is_on
wants_eidas-Asks none none = (λ h. ground arith, λ h. ground arith)
wants_eidas-Asks none (some v) = (
  λ h. ground (arith, eq_iff v "yes", eq_iff v "on", eq_iff v "true", eq_iff v "1"),
  λ h. ground (arith, eq_iff v "yes", eq_iff v "on", eq_iff v "true", eq_iff v "1"),
)
wants_eidas-Asks (some a) checkbox =
    (λ h. ground (arith, eq_iff a "enable"), λ h. ground (arith, eq_iff a "enable"))

-- The switch is not made, and the answer that says so.
abbrev pub Refused : Bool → Option EnteSettings → Bool → String → Answer → Type 0
Refused signed_in settings enable confirmed answer =
    (signed_in ≡ false) × (answer ≡ to_login)
    ⊎ (signed_in ≡ true) × (settings ≡ none) × (answer ≡ to_page)
    ⊎ (signed_in ≡ true)
      × (settings ≢ none)
      × (enable ≡ true)
      × (confirmed ≢ "yes")
      × (answer ≡ unconfirmed)

-- The switch is on if the form has the action "enable", or no action and a checkbox that is on.
-- Without a signed-in administrator, without settings, or with a switch that is on and not confirmed
-- by "yes", the call changes nothing, writes and reloads nothing and answers what is wrong. In every
-- other case it stores the switch and the environment in the settings, enables of the two nodes
-- exactly the one of that environment, if the switch is on, leaves every other provider alone, and
-- writes and reloads SATOSA's configuration, up to the first of the two calls that fails.
pub eidas_toggle_lem :
    (works : Effect → Bool) (signed_in : Bool) (action : Option String)
    (confirmed environment : String) (checkbox : Option String) (st : Store)
    → let outcome = eidas_toggle works signed_in action confirmed environment checkbox st in
      let enable = wants_eidas action checkbox in
      ((enable ≡ true) ↔ Asks action checkbox)
      × (Refused signed_in st.settings enable confirmed outcome.answer
            × (outcome.store ≡ st)
            × (outcome.effects ≡ [])
          ⊎ ((s : EnteSettings) × (st.settings ≡ some s)
              × (signed_in ≡ true)
              × ((enable ≡ false) ⊎ (confirmed ≡ "yes"))
              × (outcome.answer ≡ saved)
              × (outcome.effects ≡ completed works (generate_and_write ∷ reload_satosa ∷ []))
              × (outcome.store ≡ record {
                idps = map (node_row enable environment) st.idps;
                settings =
                    some (record s { eidas_enabled = enable; eidas_environment = environment });
              })))
unfolding eidas_toggle answered
eidas_toggle_lem works false action confirmed environment checkbox st =
    (wants_eidas-Asks action checkbox, inl (inl (refl, refl), refl, refl))
eidas_toggle_lem works true action confirmed environment checkbox st = (
  wants_eidas-Asks action checkbox,
  elim (Option-cases st.settings) [
    | inl no_settings ↦
        inl (inr (inl (refl, no_settings, ground arith)), ground arith, ground arith)
    | inr (s, found) ↦
        elim (Bool-cases (wants_eidas action checkbox && not (str_eq confirmed "yes"))) [
          | inl asked ↦ inl (
            inr (
                inr (
                  refl,
                  ground arith,
                  ground arith,
                  ground (arith, eq_iff confirmed "yes"),
                  ground arith,
                )),
            ground arith,
            ground arith,
          )
          | inr allowed ↦ inr (
            s,
            found,
            refl,
            ground (arith, eq_iff confirmed "yes"),
            ground arith,
            ground arith,
            ground (arith, with_nodes_lem (wants_eidas action checkbox) environment st.idps),
          )
        ]
  ],
)
