-- ===== src/IdentityProviders/Enabled.antt =====
-- The rows that are enabled under an alias, after the switches of config-api/app/routes/idps.py, eidas.py
-- and legal_entity.py, the seed and the watcher.
use pa_sso_proxy.Prelude.{
  ℕ, String, ◌≡◌, refl, ap, ◌∙◌, inl, inr, Bool, true, false, not, ◌&&◌, ◌||◌, some, List, [], ◌∷◌,
  ◌++◌, str_eq, eq_iff, map, find, arith, Bool-cases, All,
}
use pa_sso_proxy.IdentityProviders.{SpidIdP, set_enabled}
use pa_sso_proxy.IdentityProviders.Switches.{has_idp_id, switched, exclude_other}

-- Some row under the alias is enabled.
unfoldable pub is_enabled : String → List SpidIdP → Bool
is_enabled alias [] = false
is_enabled alias (row ∷ rows) = (str_eq row.alias alias && row.enabled) || is_enabled alias rows

-- The demo provider and the validator are not both enabled.
unfoldable pub exclusive : List SpidIdP → Bool
exclusive rows = not (is_enabled "spid-demo" rows && is_enabled "spid-validator" rows)

pub set_enabled-off :
    (alias : String) (rows : List SpidIdP) → is_enabled alias (set_enabled alias false rows) ≡ false
unfolding set_enabled is_enabled
set_enabled-off alias [] = refl
set_enabled-off alias (row ∷ rows) = ground (arith, set_enabled-off alias rows)

pub set_enabled-other :
    (alias other : String) (b : Bool) (rows : List SpidIdP)
    → str_eq other alias ≡ false
    → is_enabled alias (set_enabled other b rows) ≡ is_enabled alias rows
unfolding set_enabled is_enabled
set_enabled-other alias other b [] h = refl
set_enabled-other alias other b (row ∷ rows) h = ground (
  arith,
  set_enabled-other alias other b rows h,
  eq_iff row.alias other,
  eq_iff row.alias alias,
  eq_iff other alias,
)

-- A map that keeps what is enabled under an alias.
pub map-enabled :
    (alias : String) (f : SpidIdP → SpidIdP) (rows : List SpidIdP)
    → ((row : SpidIdP)
        → (str_eq (f row).alias alias && (f row).enabled) ≡ (str_eq row.alias alias && row.enabled))
    → is_enabled alias (map f rows) ≡ is_enabled alias rows
unfolding is_enabled
map-enabled alias f [] h = refl
map-enabled alias f (row ∷ rows) h = ground (arith, map-enabled alias f rows h, h row)

pub append-disabled :
    (alias : String) (rows new : List SpidIdP)
    → All (λ row. row.enabled ≡ false) new
    → is_enabled alias (rows ++ new) ≡ is_enabled alias rows
unfolding is_enabled
append-disabled alias [] [] h = refl
append-disabled alias [] (n ∷ ns) (h, hs) = ground (arith, append-disabled alias [] ns hs)
append-disabled alias (row ∷ rows) new h = ground (arith, append-disabled alias rows new h)

pub switched-other :
    (alias : String) (k : ℕ) (rows : List SpidIdP) {row : SpidIdP}
    → find (has_idp_id k) rows ≡ some row
    → str_eq row.alias alias ≡ false
    → is_enabled alias (switched k rows) ≡ is_enabled alias rows
unfolding switched is_enabled
switched-other alias k [] h h' = refl
switched-other alias k (r ∷ rs) {row = row} h h' = elim (Bool-cases (has_idp_id k r)) [
  | inl t ↦
      let same : r ≡ row = ground arith in
      let other : str_eq r.alias alias ≡ false = ap (λ x. str_eq x.alias alias) same ∙ h' in
      ground arith
  | inr f ↦ ground (arith, switched-other alias k rs {row = row})
]

-- Switching off enables nothing.
pub switched-off :
    (alias : String) (k : ℕ) (rows : List SpidIdP) {row : SpidIdP}
    → find (has_idp_id k) rows ≡ some row
    → row.enabled ≡ true
    → is_enabled alias rows ≡ false
    → is_enabled alias (switched k rows) ≡ false
unfolding switched is_enabled
switched-off alias k [] h h' e = refl
switched-off alias k (r ∷ rs) {row = row} h h' e = elim (Bool-cases (has_idp_id k r)) [
  | inl t ↦
      let same : r ≡ row = ground arith in
      let on : r.enabled ≡ true = ap (λ x. x.enabled) same ∙ h' in ground arith
  | inr f ↦ ground (arith, switched-off alias k rs {row = row})
]

pub both :
    (a b c d : Bool)
    → (a ≡ false → c ≡ false)
    → (b ≡ false → d ≡ false)
    → not (a && b) ≡ true
    → not (c && d) ≡ true
both false b c d f g h = ground (arith, f refl)
both true false c d f g h = ground (arith, g refl)
both true true c d f g h = absurd (ground arith)

pub toggle-exclusive :
    (k : ℕ) (rows : List SpidIdP) (row : SpidIdP)
    → find (has_idp_id k) rows ≡ some row
    → exclusive rows ≡ true
    → exclusive (exclude_other row (switched k rows)) ≡ true
unfolding exclusive exclude_other
toggle-exclusive k rows row found h = elim (Bool-cases row.enabled) [
  | inl on ↦
      rw (exclude_other, on)
        (both (is_enabled "spid-demo" rows) (is_enabled "spid-validator" rows) _ _
          (switched-off "spid-demo" k rows {row = row} found on)
          (switched-off "spid-validator" k rows {row = row} found on) h)
  | inr off ↦ elim (Bool-cases (str_eq row.alias "spid-demo")) [
    | inl demo ↦
        rw (exclude_other, off, demo)
          (ground (arith, set_enabled-off "spid-validator" (switched k rows)))
    | inr no_demo ↦ elim (Bool-cases (str_eq row.alias "spid-validator")) [
      | inl validator ↦
          rw (exclude_other, off, no_demo, validator)
            (ground (arith, set_enabled-off "spid-demo" (switched k rows)))
      | inr neither ↦
          rw (exclude_other, off, no_demo, neither)
            (ground (
              arith,
              switched-other "spid-demo" k rows {row = row} found no_demo,
              switched-other "spid-validator" k rows {row = row} found neither,
            ))
    ]
  ]
]
