-- ===== src/Languages/Translated.antt =====
-- The text that t of satosa/plugins/i18n.py finds.
use pa_sso_proxy.Prelude.{
  ◌≡◌, sym, ap, subst, ◌∙◌, inl, inr, Bool, true, false, Option, none, some, List, [], ◌∷◌, arith,
  String, lookup, str_eq, Option-cases, Bool-cases,
}
use pa_sso_proxy.Unicode.{Text, text_eq, text_eq_iff}
use pa_sso_proxy.Languages.{is_in, default, en}
use pa_sso_proxy.Languages.Context.{load, formatted, first_translation, t}

module _ (file : Text → Option (List (String × String)))
    (format : String → List (String × String) → Option String) (key : String) where
  -- A file of one of the languages has a text for the key, which is shown.
  unfoldable pub Shown : List Text → Option String → Type 0
  Shown langs result =
      (source : Text) × (value : String) × (is_in source langs ≡ true)
      × (lookup key (load file format source) ≡ some value)
      × (str_eq value "" ≡ false)
      × (result ≡ some value)

  later :
      (lang : Text) (langs : List Text) (result : Option String)
      → Shown langs result
      → Shown (lang ∷ langs) result
  unfolding Shown is_in
  later lang langs result (source, value, member, found, full, shown) =
      (source, value, ground arith, found, full, shown)

  -- The language has no text for the key.
  lacks : Text → Bool
  lacks lang = elim (lookup key (load file format lang)) [
    | none ↦ true
    | some value ↦ str_eq value ""
  ]

  skipped :
      (lang : Text) (langs : List Text)
      → lacks lang ≡ true
      → first_translation file format (lang ∷ langs) key []
        ≡ first_translation file format langs key []
  unfolding first_translation lacks
  skipped lang langs h = ground arith

  first_translation-Shown :
      (langs : List Text) (l : Text) (text : String)
      → is_in l langs ≡ true
      → lookup key (load file format l) ≡ some text
      → str_eq text "" ≡ false
      → Shown langs (first_translation file format langs key [])
  unfolding first_translation is_in formatted Shown lacks
  first_translation-Shown [] l text h found full = absurd (ground arith)
  first_translation-Shown (lang ∷ langs) l text h found full =
      elim (Option-cases (lookup key (load file format lang))) [
        | inl missing ↦
            let there : is_in l langs ≡ true = elsewhere (λ e.
              ground
                (arith, sym missing ∙ ap (λ x. lookup key (load file format x)) (sym e) ∙ found)) in
            subst (Shown (lang ∷ langs)) (sym (skipped lang langs (ground arith))) (
              later lang langs (first_translation file format langs key [])
                (first_translation-Shown langs l text there found full))
        | inr (value, e) ↦ elim (Bool-cases (str_eq value "")) [
          | inl empty ↦
              let there : is_in l langs ≡ true = elsewhere (λ same.
                ground
                  (arith, sym e ∙ ap (λ x. lookup key (load file format x)) (sym same) ∙ found)) in
              subst (Shown (lang ∷ langs)) (sym (skipped lang langs (ground arith))) (
                later lang langs (first_translation file format langs key [])
                  (first_translation-Shown langs l text there found full))
          | inr shown ↦ (lang, value, ground (arith, text_eq_iff lang lang), e, shown, ground arith)
        ]
      ]
    where
      elsewhere : ((l ≡ lang) → false ≡ true) → is_in l langs ≡ true
      elsewhere differ = elim (Bool-cases (text_eq l lang)) [
        | inl same ↦ absurd (ground (arith, differ ((text_eq_iff l lang).0 same)))
        | inr f ↦ ground arith
      ]

-- Where the Italian file has a text for the key, t without parameters shows a text of the language's
-- file, the English or the Italian one, and never the key.
pub t_shows :
    (file : Text → Option (List (String × String)))
    (format : String → List (String × String) → Option String) (lang : Text) (key text : String)
    → lookup key (load file format default) ≡ some text
    → str_eq text "" ≡ false
    → Shown file format key (lang ∷ en ∷ default ∷ []) (t file format lang key [])
unfolding t is_in text_eq
t_shows file format lang key text found full =
    first_translation-Shown file format key (lang ∷ en ∷ default ∷ []) default text (ground arith)
      found full
