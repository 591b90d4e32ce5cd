-- ===== src/Languages/Context.antt =====
-- resolve_lang and t of satosa/plugins/i18n.py with the functions that they call. A dict is the list
-- of its items. `parse_qs` and `jar`, the items of a SimpleCookie that has loaded a header, are none
-- where they raise; a parsed query has for each name its first value and the others.
use pa_sso_proxy.Prelude.{
  String, Option, none, some, List, [], ◌∷◌, lookup, if◌then◌else◌, ℕ, str_eq,
}
use pa_sso_proxy.Unicode.{Text, is_space, split}
use pa_sso_proxy.Languages.{
  normalize, without_empty, parse_accept_language, default, is_in, supported, en,
}

-- `a or b`
unfoldable pub or_text : Option Text → Option Text → Option Text
or_text (some (c ∷ cs)) b = some (c ∷ cs)
or_text _ b = b

-- A value of the state: a dict with the key oidc_request, whose value may be None, or another.
pub data StateValue : Type 0 where
  with_request : Option Text → StateValue
  other : StateValue

pub record Context : Type 0 where
  pub cookie : Option Text
  pub http_cookie : Option Text
  pub http_accept_language : Option Text
  -- what state has under STATE_KEY, and its other values
  pub sso_i18n_lang : Option Text
  pub values : List StateValue

-- The values that a query has for a name: at least one.
pub record Values : Type 0 where
  pub first : Text
  pub others : List Text

abbrev pub Query : Type 0
Query = List (String × Values)

unfoldable pub text_of : Option Text → Text
text_of none = []
text_of (some t) = t

-- The first tag that is supported.
unfoldable pub first_lang : List Text → Option Text
unfolding normalize
first_lang [] = none
first_lang (tag ∷ tags) = elim (normalize (some tag)) [
  | none ↦ first_lang tags
  | some lang ↦ some lang
]

unfoldable pub first_value : Option Values → Text
first_value none = []
first_value (some values) = values.first

module _ (jar : Text → Option (List (String × Text))) (parse_qs : Text → Option Query)
    (float : Text → Option ℕ) where
  unfoldable pub lang_from_cookie : Option Text → Option Text
  unfolding normalize
  lang_from_cookie none = none
  lang_from_cookie (some []) = none
  lang_from_cookie (some (c ∷ cs)) = elim (jar (c ∷ cs)) [
    | none ↦ none
    | some morsels ↦ normalize (lookup "sso_lang" morsels)
  ]

  unfoldable pub request_lang : Option Text → Option Text
  unfolding text_of first_value first_lang split without_empty
  request_lang request = elim (parse_qs (text_of request)) [
    | none ↦ none
    | some params ↦
        first_lang (without_empty (split is_space (first_value (lookup "ui_locales" params))))
  ]

  -- The first value with a request decides.
  unfoldable pub ui_locales_lang : List StateValue → Option Text
  unfolding request_lang
  ui_locales_lang [] = none
  ui_locales_lang (other ∷ values) = ui_locales_lang values
  ui_locales_lang (with_request request ∷ values) = request_lang request

  unfoldable pub browser_lang : List Text → Text
  browser_lang [] = default
  browser_lang (lang ∷ langs) = lang

  unfoldable pub chosen_lang : Context → Option Text
  unfolding or_text lang_from_cookie ui_locales_lang normalize
  chosen_lang c =
      or_text
        (or_text (lang_from_cookie (or_text c.cookie c.http_cookie)) (normalize c.sso_i18n_lang))
        (ui_locales_lang c.values)

  unfoldable pub resolve_lang : Option Context → Text
  unfolding chosen_lang browser_lang parse_accept_language
  resolve_lang none = default
  resolve_lang (some c) = elim (chosen_lang c) [
    | none ↦ browser_lang (parse_accept_language float c.http_accept_language)
    | some lang ↦ lang
  ]

-- `file` is the content of the JSON file of a language, none where reading it raises, and `format`
-- str.format, none where it raises.
module _ (file : Text → Option (List (String × String)))
    (format : String → List (String × String) → Option String) where
  unfoldable pub load : Text → List (String × String)
  unfolding is_in
  load lang =
      if is_in lang supported then (elim (file lang) [ none ↦ [] | some items ↦ items ]) else []

  unfoldable pub formatted : String → List (String × String) → Option String
  formatted value [] = some value
  formatted value (p ∷ ps) = format value (p ∷ ps)

  unfoldable pub first_translation : List Text → String → List (String × String) → Option String
  unfolding load formatted
  first_translation [] key params = some key
  first_translation (lang ∷ langs) key params = elim (lookup key (load lang)) [
    | none ↦ first_translation langs key params
    | some value ↦
        if str_eq value "" then first_translation langs key params else formatted value params
  ]

  unfoldable pub t : Text → String → List (String × String) → Option String
  unfolding first_translation
  t lang key params = first_translation (lang ∷ en ∷ default ∷ []) key params
