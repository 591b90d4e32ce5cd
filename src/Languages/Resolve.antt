-- ===== src/Languages/Resolve.antt =====
-- The language that resolve_lang of satosa/plugins/i18n.py chooses, and the text that t finds.
use pa_sso_proxy.Prelude.{
  ◌≡◌, refl, sym, subst, inl, inr, true, Option, none, some, List, [], ◌∷◌, arith, String, ℕ,
  lookup, All, Bool-cases,
}
use pa_sso_proxy.Unicode.{
  Text, text_eq, text_eq_iff, is_space, to_lower, strip, strip_front, strip_back, split,
}
use pa_sso_proxy.Languages.{
  it, en, fr, de, es, is_in, supported, default, normalize, primary, before, parse_accept_language,
  without_empty,
}
use pa_sso_proxy.Languages.Context.{
  or_text, StateValue, with_request, other, Context, Query, text_of, first_lang, first_value,
  lang_from_cookie, request_lang, ui_locales_lang, browser_lang, chosen_lang, resolve_lang,
}
use pa_sso_proxy.Languages.Accept.{normalize-supported, parse_accept_language_lem}

-- A language or none, but no other text.
abbrev Supported : Option Text → Type 0
Supported none = Unit
Supported (some lang) = is_in lang supported ≡ true

normalize-Supported : (tag : Option Text) → Supported (normalize tag)
normalize-Supported tag = go (normalize tag) refl
  where
    go : (lang : Option Text) → normalize tag ≡ lang → Supported lang
    go none e = tt
    go (some lang) e = normalize-supported tag lang e

one_of_five : (lang : Text) → is_in lang supported ≡ true → normalize (some lang) ≡ some lang
unfolding normalize primary strip strip_front strip_back before is_in to_lower is_space text_eq
one_of_five lang h = elim (Bool-cases (text_eq lang it)) [
  | inl e ↦ same it refl e
  | inr n1 ↦ elim (Bool-cases (text_eq lang en)) [
    | inl e ↦ same en refl e
    | inr n2 ↦ elim (Bool-cases (text_eq lang fr)) [
      | inl e ↦ same fr refl e
      | inr n3 ↦ elim (Bool-cases (text_eq lang de)) [
        | inl e ↦ same de refl e
        | inr n4 ↦ same es refl (ground arith)
      ]
    ]
  ]
]
  where
    same :
        (u : Text)
        → normalize (some u) ≡ some u
        → text_eq lang u ≡ true
        → normalize (some lang) ≡ some lang
    same u fixed e = subst (λ v. normalize (some v) ≡ some v) (sym ((text_eq_iff lang u).0 e)) fixed

-- A language that normalize has found is found again.
pub normalize_twice : (tag : Option Text) → normalize (normalize tag) ≡ normalize tag
unfolding normalize
normalize_twice tag = go (normalize tag) refl
  where
    go : (lang : Option Text) → normalize tag ≡ lang → normalize lang ≡ lang
    go none e = refl
    go (some lang) e = one_of_five lang (normalize-supported tag lang e)

or_text-Supported : (a b : Option Text) → Supported a → Supported b → Supported (or_text a b)
unfolding or_text
or_text-Supported none b ha hb = hb
or_text-Supported (some []) b ha hb = hb
or_text-Supported (some (c ∷ cs)) b ha hb = ha

first_lang-Supported : (tags : List Text) → Supported (first_lang tags)
unfolding first_lang
first_lang-Supported [] = tt
first_lang-Supported (tag ∷ tags) =
    go (first_lang tags) (first_lang-Supported tags) (normalize (some tag))
      (normalize-Supported (some tag))
  where
    go :
        (rest : Option Text)
        → Supported rest
        → (found : Option Text) → Supported found
        → Supported (elim found [ none ↦ rest | some lang ↦ some lang ])
    go rest hr none h = hr
    go rest hr (some lang) h = h

module _ (jar : Text → Option (List (String × Text))) (parse_qs : Text → Option Query)
    (float : Text → Option ℕ) where
  cookie-Supported : (header : Option Text) → Supported (lang_from_cookie jar parse_qs float header)
  unfolding lang_from_cookie
  cookie-Supported none = tt
  cookie-Supported (some []) = tt
  cookie-Supported (some (c ∷ cs)) = go (jar (c ∷ cs))
    where
      go :
          (morsels : Option (List (String × Text)))
          → Supported
              (elim morsels [ none ↦ none | some items ↦ normalize (lookup "sso_lang" items) ])
      go none = tt
      go (some items) = normalize-Supported (lookup "sso_lang" items)

  locales-Supported :
      (values : List StateValue) → Supported (ui_locales_lang jar parse_qs float values)
  unfolding ui_locales_lang request_lang
  locales-Supported [] = tt
  locales-Supported (other ∷ values) = locales-Supported values
  locales-Supported (with_request request ∷ values) = go (parse_qs (text_of request))
    where
      go :
          (params : Option Query)
          → Supported (elim params [
            | none ↦ none
            | some query ↦
                first_lang
                  (without_empty (split is_space (first_value (lookup "ui_locales" query))))
          ])
      go none = tt
      go (some query) =
          first_lang-Supported
            (without_empty (split is_space (first_value (lookup "ui_locales" query))))

  chosen-Supported : (c : Context) → Supported (chosen_lang jar parse_qs float c)
  unfolding chosen_lang
  chosen-Supported c =
      let cookie = lang_from_cookie jar parse_qs float (or_text c.cookie c.http_cookie) in
      or_text-Supported (or_text cookie (normalize c.sso_i18n_lang))
        (ui_locales_lang jar parse_qs float c.values)
        (or_text-Supported cookie (normalize c.sso_i18n_lang)
          (cookie-Supported (or_text c.cookie c.http_cookie)) (normalize-Supported c.sso_i18n_lang))
        (locales-Supported c.values)

-- Whatever the request holds, the language is one of the five that have a file of translations.
pub resolve_lang-supported :
    (jar : Text → Option (List (String × Text))) (parse_qs : Text → Option Query)
    (float : Text → Option ℕ) (c : Option Context)
    → is_in (resolve_lang jar parse_qs float c) supported ≡ true
unfolding resolve_lang is_in text_eq
resolve_lang-supported jar parse_qs float none = refl
resolve_lang-supported jar parse_qs float (some c) =
    go (chosen_lang jar parse_qs float c) (chosen-Supported jar parse_qs float c)
  where
    langs : List Text
    langs = parse_accept_language float c.http_accept_language

    first :
        (ls : List Text)
        → All (λ t. is_in t supported ≡ true) ls
        → is_in (browser_lang jar parse_qs float ls) supported ≡ true
    first [] h = refl
    first (l ∷ ls) h = h.0

    go :
        (found : Option Text)
        → Supported found
        → is_in
            (elim found [ none ↦ browser_lang jar parse_qs float langs | some lang ↦ lang ])
            supported
          ≡ true
    go none h = first langs (parse_accept_language_lem float c.http_accept_language default).1
    go (some lang) h = h
