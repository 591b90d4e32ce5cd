-- ===== src/CieCallback/Translation.antt =====
-- _translate_response of satosa/plugins/cieoidc-endpoints/authorization_callback_endpoint.py: the
-- attributes that the proxy passes on for a user, under all the names that its clients read.
use pa_sso_proxy.Prelude.{
  String, ◌≡◌, refl, true, false, not, ◌&&◌, Bool, Option, none, some, List, [], ◌∷◌, ◌++◌, str_eq,
  eq_iff, lookup, lookup-append, or_else, member, if◌then◌else◌, arith, ◌∙◌, ap, subst, inl, inr,
  Option-cases, Bool-cases,
}

-- `key in attributes`
unfoldable pub has_key : String → List (String × List String) → Bool
has_key k d = elim (lookup k d) [ none ↦ false | some v ↦ true ]

unfoldable pub set_if_missing :
    String → String → List (String × List String) → List (String × List String)
unfolding has_key
set_if_missing key value attributes =
    if not (str_eq value "") && not (has_key key attributes)
    then attributes ++ (key, value ∷ []) ∷ []
    else attributes

-- One `_set_if_missing` for each name.
unfoldable pub set_all_missing :
    String → List String → List (String × List String) → List (String × List String)
set_all_missing value [] attributes = attributes
set_all_missing value (key ∷ keys) attributes =
    set_all_missing value keys (set_if_missing key value attributes)

-- `attributes.get(key) or default`
unfoldable pub get_or : String → String → List (String × String) → String
get_or key default attributes = elim (lookup key attributes) [
  | none ↦ default
  | some v ↦ if str_eq v "" then default else v
]

abbrev pub first_name_keys : List String
first_name_keys =
    "first_name" ∷ "given_name" ∷ "givenname" ∷ "givenName" ∷ "name" ∷ "urn:oid:2.5.4.42" ∷ []

abbrev pub last_name_keys : List String
last_name_keys =
    "last_name" ∷ "family_name" ∷ "familyname" ∷ "familyName" ∷ "sn" ∷ "surname" ∷ "urn:oid:2.5.4.4"
    ∷ []

abbrev pub fiscal_number_keys : List String
fiscal_number_keys =
    "fiscal_number" ∷ "fiscalNumber" ∷ "fiscalnumber" ∷ "FiscalNumber" ∷ "fiscalCode"
    ∷ "fiscal_code" ∷ "codiceFiscale" ∷ "https://attributes.eid.gov.it/fiscal_number"
    ∷ "https://attributes.spid.gov.it/fiscalNumber" ∷ "urn:oid:2.5.4.97"
    ∷ "urn:oid:1.3.6.1.4.1.4710.2.1.1" ∷ []

-- The attributes of the user, the subject, and what the converter makes of the attributes.
unfoldable pub translated :
    List (String × String) → String → List (String × List String) → List (String × List String)
unfolding get_or set_if_missing set_all_missing
translated attributes sub internal =
    let targeted_id = get_or "edupersontargetedid" (get_or "sub" sub attributes) attributes in
    let first_name = get_or "first_name" (get_or "given_name" "" attributes) attributes in
    let last_name = get_or "last_name" (get_or "family_name" "" attributes) attributes in
    let fiscal_number =
      get_or "fiscal_number" (get_or "https://attributes.eid.gov.it/fiscal_number" "" attributes)
        attributes in
    set_all_missing fiscal_number fiscal_number_keys (
      set_all_missing last_name last_name_keys (
        set_all_missing first_name first_name_keys
          (set_if_missing "edupersontargetedid" targeted_id internal)))

-- The name's value, if it is among the keys.
unfoldable pub filled : String → String → List String → Option (List String)
filled k value keys = if member k keys && not (str_eq value "") then some (value ∷ []) else none

lookup-set_if_missing :
    (k key value : String) (d : List (String × List String))
    → lookup k (set_if_missing key value d) ≡ or_else (lookup k d) (filled k value (key ∷ []))
unfolding set_if_missing has_key filled
lookup-set_if_missing k key value d =
    let e : List (String × List String) = (key, value ∷ []) ∷ [] in
    elim (Option-cases (lookup key d)) [
      | inl gone ↦ ground (arith, eq_iff key k, lookup-append k d e)
      | inr (v, found) ↦ elim (Bool-cases (str_eq key k)) [
        | inl same ↦
            let found' = subst (λ j. lookup j d ≡ some v) ((eq_iff key k).0 same) found in
            ground arith
        | inr other ↦ ground arith
      ]
    ]

or_else_assoc {ℓ} :
    {A : Type ℓ} (a b c : Option A) → or_else (or_else a b) c ≡ or_else a (or_else b c)
or_else_assoc none b c = refl
or_else_assoc (some a) b c = refl

pub lookup-set_all_missing :
    (k value : String) (keys : List String) (d : List (String × List String))
    → lookup k (set_all_missing value keys d) ≡ or_else (lookup k d) (filled k value keys)
unfolding set_all_missing filled
lookup-set_all_missing k value [] d = elim (Option-cases (lookup k d)) [
  | inl e ↦ rw e refl
  | inr (v, e) ↦ rw e refl
]
lookup-set_all_missing k value (key ∷ keys) d =
    lookup-set_all_missing k value keys (set_if_missing key value d)
    ∙ (ap (λ o. or_else o (filled k value keys)) (lookup-set_if_missing k key value d)
        ∙ (or_else_assoc (lookup k d) (filled k value (key ∷ [])) (filled k value keys)
            ∙ ap (or_else (lookup k d)) (filled-cons key)))
  where
    filled-cons :
        (j : String)
        → or_else (filled k value (j ∷ [])) (filled k value keys) ≡ filled k value (j ∷ keys)
    filled-cons j = ground arith

-- What the aliases of a name hold for the attributes of a user.
unfoldable pub alias_value : String → List (String × String) → String → Option (List String)
unfolding filled get_or
alias_value k attributes sub =
    or_else
      (filled k (get_or "edupersontargetedid" (get_or "sub" sub attributes) attributes)
        ("edupersontargetedid" ∷ []))
      (or_else
        (filled k (get_or "first_name" (get_or "given_name" "" attributes) attributes)
          first_name_keys)
        (or_else
          (filled k (get_or "last_name" (get_or "family_name" "" attributes) attributes)
            last_name_keys)
          (filled k
            (get_or "fiscal_number"
              (get_or "https://attributes.eid.gov.it/fiscal_number" "" attributes) attributes)
            fiscal_number_keys)))

-- Every name keeps the value that the converter gave it; a name without one has the user's
-- first name, last name, fiscal number or subject if it is one of their aliases and the user has
-- it, and every other name has none.
pub lookup-translated :
    (k sub : String) (attributes : List (String × String)) (internal : List (String × List String))
    → lookup k (translated attributes sub internal)
      ≡ or_else (lookup k internal) (alias_value k attributes sub)
unfolding translated alias_value
lookup-translated k sub attributes internal =
    let targeted_id = get_or "edupersontargetedid" (get_or "sub" sub attributes) attributes in
    let first_name = get_or "first_name" (get_or "given_name" "" attributes) attributes in
    let last_name = get_or "last_name" (get_or "family_name" "" attributes) attributes in
    let d₁ = set_if_missing "edupersontargetedid" targeted_id internal in
    let d₂ = set_all_missing first_name first_name_keys d₁ in
    let d₃ = set_all_missing last_name last_name_keys d₂ in
    let fiscal = filled k _ fiscal_number_keys in
    let last = filled k last_name last_name_keys in
    let first = filled k first_name first_name_keys in
    let targeted = filled k targeted_id ("edupersontargetedid" ∷ []) in
    lookup-set_all_missing k _ fiscal_number_keys d₃
    ∙ (ap (λ o. or_else o fiscal) (lookup-set_all_missing k last_name last_name_keys d₂)
        ∙ (or_else_assoc (lookup k d₂) last fiscal
            ∙ (ap (λ o. or_else o (or_else last fiscal))
                  (lookup-set_all_missing k first_name first_name_keys d₁)
                ∙ (or_else_assoc (lookup k d₁) first (or_else last fiscal)
                    ∙ (ap (λ o. or_else o (or_else first (or_else last fiscal)))
                          (lookup-set_if_missing k "edupersontargetedid" targeted_id internal)
                        ∙ or_else_assoc (lookup k internal) targeted
                            (or_else first (or_else last fiscal)))))))
