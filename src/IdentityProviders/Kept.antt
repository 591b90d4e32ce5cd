-- ===== src/IdentityProviders/Kept.antt =====
-- The demo provider and the validator under the switches of config-api/app/routes/idps.py, eidas.py
-- and legal_entity.py, the seed and the watcher.
use pa_sso_proxy.Prelude.{
  ℕ, String, ◌≡◌, refl, sym, ap, ◌∙◌, subst, inl, inr, Bool, true, false, ◌&&◌, Option, List, [],
  ◌∷◌, str_eq, find, arith, Bool-cases, Option-cases,
}
use pa_sso_proxy.Metadata.{Effect}
use pa_sso_proxy.IdentityProviders.{SpidIdP, Store, set_enabled}
use pa_sso_proxy.IdentityProviders.Seed.{seed_spid_idps, seed_spid_idps_twice}
use pa_sso_proxy.IdentityProviders.Switches.{
  answered, has_idp_id, idps_toggle, may_enable, enabled_row, idps_enable_all, with_nodes,
  wants_eidas, eidas_toggle, legal_entity_toggle,
}
use pa_sso_proxy.IdentityProviders.Watcher.{
  fetch_idp_metadata, fetched, fetch_all_enabled, refreshed, idps_refresh, is_hash,
}
use pa_sso_proxy.IdentityProviders.Enabled.{
  set_enabled-other, map-enabled, append-disabled, toggle-exclusive, is_enabled, exclusive,
}

pub seed-exclusive :
    (id : ℕ) (rows : List SpidIdP)
    → exclusive rows ≡ true
    → exclusive (seed_spid_idps id rows) ≡ true
unfolding exclusive
seed-exclusive id rows h =
    let (new, shape, disabled) = (seed_spid_idps_twice id id rows).1 in
    subst (λ x. exclusive x ≡ true) (sym shape)
      (ground (
        arith,
        append-disabled "spid-demo" rows new disabled,
        append-disabled "spid-validator" rows new disabled,
      ))

pub idps_toggle-exclusive :
    (works : Effect → Bool) (signed_in : Bool) (k : ℕ) (st : Store)
    → exclusive st.idps ≡ true
    → exclusive (idps_toggle works signed_in k st).store.idps ≡ true
unfolding idps_toggle answered
idps_toggle-exclusive works false k st h = h
idps_toggle-exclusive works true k st h = elim (Option-cases (find (has_idp_id k) st.idps)) [
  | inl none_found ↦ rw (idps_toggle, none_found) h
  | inr (row, found) ↦ rw (idps_toggle, found) (toggle-exclusive k st.idps row found h)
]

pub may_enable-other :
    (row : SpidIdP)
    → may_enable row ≡ true
    → (str_eq row.alias "spid-demo" ≡ false) × (str_eq row.alias "spid-validator" ≡ false)
unfolding may_enable
may_enable-other row h = (ground arith, ground arith)

pub with_nodes-enabled :
    (alias : String) (enable : Bool) (environment : String) (rows : List SpidIdP)
    → str_eq "eidas-qa" alias ≡ false
    → str_eq "eidas-prod" alias ≡ false
    → is_enabled alias (with_nodes enable environment rows) ≡ is_enabled alias rows
unfolding with_nodes
with_nodes-enabled alias enable environment rows h h' =
    let qa = set_enabled "eidas-qa" (enable && str_eq environment "qa") rows in
    set_enabled-other alias "eidas-prod" (enable && str_eq environment "prod") qa h'
    ∙ set_enabled-other alias "eidas-qa" (enable && str_eq environment "qa") rows h

pub eidas_toggle-exclusive :
    (works : Effect → Bool) (signed_in : Bool) (action : Option String)
    (confirmed environment : String) (checkbox : Option String) (st : Store)
    → exclusive st.idps ≡ true
    → exclusive (eidas_toggle works signed_in action confirmed environment checkbox st).store.idps
      ≡ true
unfolding eidas_toggle answered exclusive
eidas_toggle-exclusive works false action confirmed environment checkbox st h = h
eidas_toggle-exclusive works true action confirmed environment checkbox st h =
    let enable = wants_eidas action checkbox in
    ground (
      arith,
      with_nodes-enabled "spid-demo" enable environment st.idps refl refl,
      with_nodes-enabled "spid-validator" enable environment st.idps refl refl,
      h,
    )

pub fetch_keeps :
    (sha256 : String → String) (get : String → Option String) (now : ℕ) (row : SpidIdP)
    → ((fetch_idp_metadata sha256 get now row).alias ≡ row.alias)
      × ((fetch_idp_metadata sha256 get now row).enabled ≡ row.enabled)
unfolding fetch_idp_metadata
fetch_keeps sha256 get now row = elim (Option-cases (get row.metadata_url)) [
  | inl gone ↦ (ground arith, ground arith)
  | inr (content, got) ↦ elim (Bool-cases (is_hash (sha256 content) row.metadata_hash)) [
    | inl same ↦ (ground arith, ground arith)
    | inr new ↦ (ground arith, ground arith)
  ]
]

module _ (sha256 : String → String) (get : String → Option String) (now : ℕ) where
  pub fetched-enabled :
      (alias : String) (row : SpidIdP)
      → (str_eq (fetched sha256 get now row).alias alias && (fetched sha256 get now row).enabled)
        ≡ (str_eq row.alias alias && row.enabled)
  unfolding fetched
  fetched-enabled alias row =
      let (same, kept) = fetch_keeps sha256 get now row in
      let same_alias = ap (λ a. str_eq a alias) same in
      elim (Bool-cases row.enabled) [
        | inl on ↦ ground (arith, same_alias, kept)
        | inr off ↦ ground arith
      ]

  pub refreshed-enabled :
      (alias : String) (k : ℕ) (rows : List SpidIdP)
      → is_enabled alias (refreshed sha256 get now k rows) ≡ is_enabled alias rows
  unfolding refreshed is_enabled
  refreshed-enabled alias k [] = refl
  refreshed-enabled alias k (row ∷ rows) =
      let (same, kept) = fetch_keeps sha256 get now row in
      ground (arith, refreshed-enabled alias k rows, same, kept)

  pub watched-exclusive :
      (rows : List SpidIdP)
      → exclusive rows ≡ true
      → exclusive (fetch_all_enabled sha256 get now rows).0 ≡ true
  unfolding fetch_all_enabled exclusive
  watched-exclusive rows h = ground (
    arith,
    map-enabled "spid-demo" (fetched sha256 get now) rows (fetched-enabled "spid-demo"),
    map-enabled "spid-validator" (fetched sha256 get now) rows (fetched-enabled "spid-validator"),
  )

  pub refresh-exclusive :
      (works : Effect → Bool) (signed_in : Bool) (k : ℕ) (st : Store)
      → exclusive st.idps ≡ true
      → exclusive (idps_refresh sha256 get now works signed_in k st).store.idps ≡ true
  unfolding idps_refresh answered exclusive
  refresh-exclusive works false k st h = h
  refresh-exclusive works true k st h = elim (Option-cases (find (has_idp_id k) st.idps)) [
    | inl none_found ↦ rw (idps_refresh, none_found) h
    | inr (row, found) ↦
        rw (idps_refresh, found)
          (ground (
            arith,
            refreshed-enabled "spid-demo" k st.idps,
            refreshed-enabled "spid-validator" k st.idps,
          ))
  ]

pub enable_row :
    (alias : String) (row : SpidIdP)
    → (may_enable row ≡ true → str_eq row.alias alias ≡ false)
    → (str_eq (enabled_row row).alias alias && (enabled_row row).enabled)
      ≡ (str_eq row.alias alias && row.enabled)
unfolding enabled_row
enable_row alias row other = elim (Bool-cases (may_enable row)) [
  | inl t ↦ rw (enabled_row, t, other t) refl
  | inr f ↦ rw (enabled_row, f) refl
]

pub enable_all-exclusive :
    (works : Effect → Bool) (signed_in : Bool) (st : Store)
    → exclusive st.idps ≡ true
    → exclusive (idps_enable_all works signed_in st).store.idps ≡ true
unfolding idps_enable_all answered exclusive
enable_all-exclusive works false st h = h
enable_all-exclusive works true st h = ground (
  arith,
  map-enabled "spid-demo" enabled_row st.idps
      (λ row. enable_row "spid-demo" row (λ t. (may_enable-other row t).0)),
  map-enabled "spid-validator" enabled_row st.idps
      (λ row. enable_row "spid-validator" row (λ t. (may_enable-other row t).1)),
)

pub legal_entity-exclusive :
    (works : Effect → Bool) (signed_in : Bool) (confirmed : String) (checkbox : Option String)
    (st : Store)
    → exclusive st.idps ≡ true
    → exclusive (legal_entity_toggle works signed_in confirmed checkbox st).store.idps ≡ true
unfolding legal_entity_toggle answered
legal_entity-exclusive works signed_in confirmed checkbox st h = ground (arith, h)
