-- ===== src/IdentityProviders/Seed.antt =====
-- seed_spid_idps of config-api/app/spid_seeder.py.
use pa_sso_proxy.Prelude.{
  ℕ, suc, String, ◌≡◌, refl, sym, subst, All, All-mono, map-append, true, false, ◌||◌, none, List,
  [], ◌∷◌, ◌++◌, eq_refl, member, map, if◌then◌else◌, arith, Bool-cases, inl, inr, ap, ◌∙◌,
}
use mathlib.Core.List.{append-nil}
use pa_sso_proxy.IdentityProviders.{SpidIdP}

-- alias, display name and metadata URL
pub record Provider : Type 0 where
  pub alias : String
  pub display_name : String
  pub metadata_url : String

abbrev pub provider : String → String → String → Provider
provider alias name url = record { alias = alias; display_name = name; metadata_url = url }

abbrev pub spid_idps : List Provider
spid_idps =
    provider "spid-aruba" "Aruba PEC" "https://loginspid.aruba.it/metadata"
    ∷ provider "spid-infocert" "InfoCert ID" "https://identity.infocert.it/metadata/metadata.xml"
    ∷ provider "spid-intesa" "Intesa Sanpaolo" "https://spid.intesaid.com/saml2/idp/metadata"
    ∷ provider "spid-lepida" "Lepida ID" "https://id.lepida.it/idp/shibboleth"
    ∷ provider "spid-namirial" "Namirial ID" "https://idp.namirialtsp.com/idp/metadata"
    ∷ provider "spid-poste" "Poste ID" "https://posteid.poste.it/jod-fs/metadata/idp"
    ∷ provider "spid-register" "Register.it" "https://spid.register.it/login/metadata"
    ∷ provider "spid-sielte" "Sielte" "https://identity.sielte.it/idp/shibboleth"
    ∷ provider "spid-tim" "TIM Personal ID" "https://login.id.tim.it/affwebservices/public/saml2sso"
    ∷ provider "spid-teamsystem" "TeamSystem ID" "https://spid.teamsystem.com/idp/saml2/metadata"
    ∷ provider "spid-trust" "Trust Technologies"
        "https://idp.trusttechnologies.it/saml2/idp/metadata"
    ∷ provider "spid-demo" "Demo Provider" "https://demo.spid.gov.it/metadata.xml"
    ∷ provider "spid-validator" "AgID Validator" "https://validator.spid.gov.it/metadata.xml"
    ∷ provider "eidas-qa" "Nodo eIDAS (QA)" "https://sp-proxy.pre.eid.gov.it/spproxy/idpitmetadata"
    ∷ provider "eidas-prod" "Nodo eIDAS" "https://sp-proxy.eid.gov.it/spproxy/idpitmetadata"
    ∷ []

unfoldable pub seed_row : ℕ → Provider → SpidIdP
seed_row id p = record {
  id = id;
  alias = p.alias;
  display_name = p.display_name;
  metadata_url = p.metadata_url;
  enabled = false;
  metadata_cache = none;
  metadata_hash = none;
  last_updated = none;
  registry_entity_id = none;
  registry_disabled = none;
}

-- The rows that are added; the database counts their ids on.
unfoldable pub missing : List String → ℕ → List Provider → List SpidIdP
unfolding seed_row
missing existing id [] = []
missing existing id (p ∷ ps) =
    let rest = missing existing id ps in
    let after = missing existing (suc id) ps in
    if member p.alias existing then rest else seed_row id p ∷ after

unfoldable pub seed : List Provider → ℕ → List SpidIdP → List SpidIdP
unfolding missing
seed providers id rows = rows ++ missing (map (λ row. row.alias) rows) id providers

unfoldable pub seed_spid_idps : ℕ → List SpidIdP → List SpidIdP
unfolding seed
seed_spid_idps id rows = seed spid_idps id rows

member-append :
    (a : String) (xs ys : List String) → member a (xs ++ ys) ≡ (member a xs || member a ys)
member-append a [] ys = refl
member-append a (x ∷ xs) ys = ground (arith, member-append a xs ys)

missing_none :
    (existing : List String) (id : ℕ) (ps : List Provider)
    → All (λ p. member p.alias existing ≡ true) ps
    → missing existing id ps ≡ []
unfolding missing
missing_none existing id [] h = refl
missing_none existing id (p ∷ ps) (h, hs) = ground (arith, missing_none existing id ps hs)

-- With the rows, every provider has an alias.
abbrev Covered : List String → List Provider → List SpidIdP → Type 0
Covered existing ps rows =
    All (λ p. member p.alias (existing ++ map (λ (row : SpidIdP). row.alias) rows) ≡ true) ps

missing_covers :
    (existing : List String) (id : ℕ) (ps : List Provider)
    → Covered existing ps (missing existing id ps)
unfolding missing seed_row
missing_covers existing id [] = tt
missing_covers existing id (p ∷ ps) = elim (Bool-cases (member p.alias existing)) [
  | inl there ↦
      let aliases = map (λ (row : SpidIdP). row.alias) (missing existing id ps) in
      let same : missing existing id ps ≡ missing existing id (p ∷ ps) = rw (missing, there) refl in
      subst (Covered existing (p ∷ ps)) same
        (ground (arith, member-append p.alias existing aliases), missing_covers existing id ps)
  | inr absent ↦
      let aliases = map (λ (row : SpidIdP). row.alias) (missing existing (suc id) ps) in
      let same : (seed_row id p ∷ missing existing (suc id) ps) ≡ missing existing id (p ∷ ps) =
        rw (missing, absent) refl in
      subst (Covered existing (p ∷ ps)) same (
        ground (arith, member-append p.alias existing (p.alias ∷ aliases), eq_refl p.alias),
        All-mono {P = λ q. member q.alias (existing ++ aliases) ≡ true}
            {Q = λ q. member q.alias (existing ++ p.alias ∷ aliases) ≡ true}
            (λ q h. ground (
              arith,
              member-append q.alias existing (p.alias ∷ aliases),
              member-append q.alias existing aliases,
            ))
            ps (missing_covers existing (suc id) ps),
      )
]

missing-disabled :
    (existing : List String) (id : ℕ) (ps : List Provider)
    → All (λ row. row.enabled ≡ false) (missing existing id ps)
unfolding missing seed_row
missing-disabled existing id [] = tt
missing-disabled existing id (p ∷ ps) = elim (Bool-cases (member p.alias existing)) [
  | inl there ↦ rw (missing, there) (missing-disabled existing id ps)
  | inr absent ↦ rw (missing, absent) (refl, missing-disabled existing (suc id) ps)
]

-- The seed keeps every row and appends rows that are not enabled; after it, a second run changes
-- nothing, whatever id the database would give next.
pub seed_spid_idps_twice :
    (id id' : ℕ) (rows : List SpidIdP)
    → (seed_spid_idps id' (seed_spid_idps id rows) ≡ seed_spid_idps id rows)
      × ((new : List SpidIdP) × (seed_spid_idps id rows ≡ rows ++ new)
          × All (λ row. row.enabled ≡ false) new)
unfolding seed_spid_idps seed
seed_spid_idps_twice id id' rows =
    let existing = map (λ (row : SpidIdP). row.alias) rows in
    let new = missing existing id spid_idps in
    let all_there : All (λ p. member p.alias (map (λ row. row.alias) (rows ++ new)) ≡ true)
        spid_idps =
      subst (λ names. All (λ p. member p.alias names ≡ true) spid_idps)
        (sym (map-append (λ row. row.alias) rows new)) (missing_covers existing id spid_idps) in
    (
      ap (λ more. (rows ++ new) ++ more)
            (missing_none (map (λ row. row.alias) (rows ++ new)) id' spid_idps all_there)
          ∙ append-nil (rows ++ new),
      (new, refl, missing-disabled existing id spid_idps),
    )
