-- ===== src/Metadata/Restoring.antt =====
-- The rollback of the settings by metadata_expose in config-api/app/routes/metadata.py.
use pa_sso_proxy.Prelude.{
  ℕ, String, ◌≡◌, ◌≢◌, ◌⊎◌, ◌↔◌, inl, inr, find, Bool-cases, Bool, true, false, ◌||◌, Option, none,
  some, [], ◌∷◌, arith, eq_iff,
}
use pa_sso_proxy.Login.{Session}
use pa_sso_proxy.Metadata.{
  SpidMetadataVersion, EnteSettings, Store, Effect, generate_and_write, reload_satosa, auth_check,
  has_id,
}
use pa_sso_proxy.Metadata.Handlers.{
  completed, restore, restore_eidas_enabled, restore_eidas_environment,
  restore_legal_entity_enabled, is_some, expose_version, expose_settings, after_expose,
  metadata_expose, bool_eq,
}

abbrev pub or_kept {ℓ} : {A : Type ℓ} → Option A → A → A
or_kept none a = a
or_kept (some b) a = b

-- The settings `s` with the toggles that the version has a copy of.
abbrev pub restored : SpidMetadataVersion → EnteSettings → EnteSettings
restored v s = record s {
  eidas_enabled = or_kept v.eidas_enabled s.eidas_enabled;
  eidas_environment = or_kept v.eidas_environment s.eidas_environment;
  legal_entity_enabled = or_kept v.legal_entity_enabled s.legal_entity_enabled;
}

bool_eq_iff : (a b : Bool) → (bool_eq a b ≡ true) ↔ (a ≡ b)
bool_eq_iff a b = ground arith

restore_eidas_enabled_lem :
    (o : Option Bool) (s : EnteSettings) (b : Bool)
    → ((restore_eidas_enabled o (s, b)).0 ≡ record s { eidas_enabled = or_kept o s.eidas_enabled })
      × (((restore_eidas_enabled o (s, b)).1 ≡ false)
          ↔ ((b ≡ false) × (or_kept o s.eidas_enabled ≡ s.eidas_enabled)))
unfolding restore_eidas_enabled
restore_eidas_enabled_lem none s b = ground arith
restore_eidas_enabled_lem (some e) s b = ground arith

restore_eidas_environment_lem :
    (o : Option String) (s : EnteSettings) (b : Bool)
    → ((restore_eidas_environment o (s, b)).0
        ≡ record s { eidas_environment = or_kept o s.eidas_environment })
      × (((restore_eidas_environment o (s, b)).1 ≡ false)
          ↔ ((b ≡ false) × (or_kept o s.eidas_environment ≡ s.eidas_environment)))
unfolding restore_eidas_environment
restore_eidas_environment_lem none s b = ground arith
restore_eidas_environment_lem (some e) s b = ground (arith, eq_iff s.eidas_environment e)

restore_legal_entity_enabled_lem :
    (o : Option Bool) (s : EnteSettings) (b : Bool)
    → ((restore_legal_entity_enabled o (s, b)).0
        ≡ record s { legal_entity_enabled = or_kept o s.legal_entity_enabled })
      × (((restore_legal_entity_enabled o (s, b)).1 ≡ false)
          ↔ ((b ≡ false) × (or_kept o s.legal_entity_enabled ≡ s.legal_entity_enabled)))
unfolding restore_legal_entity_enabled
restore_legal_entity_enabled_lem none s b = ground arith
restore_legal_entity_enabled_lem (some e) s b = ground arith

restore_lem :
    (v : SpidMetadataVersion) (s : EnteSettings)
    → ((restore v s).0 ≡ restored v s) × (((restore v s).1 ≡ false) ↔ (restored v s ≡ s))
unfolding restore
restore_lem v s =
    let p = restore_eidas_enabled v.eidas_enabled (s, false) in
    let q = restore_eidas_environment v.eidas_environment p in
    ground (
      arith,
      restore_eidas_enabled_lem v.eidas_enabled s false,
      restore_eidas_environment_lem v.eidas_environment p.0 p.1,
      restore_legal_entity_enabled_lem v.legal_entity_enabled q.0 q.1,
    )

-- Exposing a version that has a copy of the eIDAS or of the legal entity toggle, by an
-- administrator who is logged in, leads the settings back to the version's, keeps the toggles that
-- it has no copy of, and has SATOSA's configuration written and reloaded exactly if that changed a
-- setting.
pub expose_restores :
    (works : Effect → Bool) (s : Session) (k : ℕ) (st : Store) (v : SpidMetadataVersion)
    (settings : EnteSettings)
    → auth_check s ≡ true
    → find (has_id k) st.versions ≡ some v
    → (is_some v.eidas_enabled || is_some v.legal_entity_enabled) ≡ true
    → st.settings ≡ some settings
    → ((metadata_expose works s k st).store.settings ≡ some (restored v settings))
      × (((restored v settings ≡ settings) × ((metadata_expose works s k st).effects ≡ []))
          ⊎ ((restored v settings ≢ settings)
              × ((metadata_expose works s k st).effects
                  ≡ completed works (generate_and_write ∷ reload_satosa ∷ []))))
unfolding metadata_expose expose_version expose_settings after_expose
expose_restores works s k st v settings auth f copies e =
    let (r, c) = restore_lem v settings in
    elim (Bool-cases (restore v settings).1) [
      | inl changed ↦ (ground arith, inr (λ same. ground arith, ground arith))
      | inr kept ↦ (ground arith, inl (ground arith, ground arith))
    ]
