-- ===== src/Languages/Tests.antt =====
-- Runs of satosa/plugins/i18n.py on a header, a request and small files of translations.
use pa_sso_proxy.Prelude.{
  true, ℕ, String, ◌≡◌, ◌⊎◌, refl, true, Option, none, some, List, [], ◌∷◌, if◌then◌else◌,
}
use pa_sso_proxy.Unicode.{Text, text_eq, is_space, strip, strip_front, strip_back, split, add_char}
use pa_sso_proxy.PipFix.Codes.{codes}
use pa_sso_proxy.PipFix.Sorting.{sorted}
use pa_sso_proxy.Languages.{
  it, en, fr, de, is_in, supported, before, after, Weighted, lt_weighted, positive, unseen, weight,
  weighted_part, weighted, parse_accept_language,
}
use pa_sso_proxy.Languages.Context.{
  with_request, other, Context, Query, or_text, lang_from_cookie, ui_locales_lang, request_lang,
  resolve_lang, chosen_lang, load, formatted, first_translation, t,
}
use pa_sso_proxy.Languages.First.{
  AnyFrom, AllFrom, parts_of, Names, Silent, NoBetter, parse_accept_language_first,
}
use pa_sso_proxy.Languages.Resolve.{resolve_lang-supported}

-- 0.5 and 0.9
abbrev float : Text → Option ℕ
float s =
    if text_eq s (codes "0.5")
    then some 4602678819172646912
    else if text_eq s (codes "0.9")
    then some 4606281698874543309
    else none

abbrev header : Text
header = codes "fr-CA;q=0.5, pt, de;q=0.9,FR"

header_langs : parse_accept_language float (some header) ≡ fr ∷ de ∷ []
unfolding codes parse_accept_language sorted lt_weighted weighted weighted_part weight split
    add_char strip strip_front strip_back before after positive unseen is_space text_eq
header_langs = refl

parse_accept_language_first_example :
    (w : Weighted) × (w.lang ≡ fr)
    × AnyFrom 0 (λ pos part. Names float pos part w) (parts_of (some header))
    × AllFrom 0
        (λ pos part.
          Silent float part ⊎ ((v : Weighted) × Names float pos part v × NoBetter float w v))
        (parts_of (some header))
parse_accept_language_first_example =
    parse_accept_language_first float (some header) fr (de ∷ []) header_langs

abbrev jar : Text → Option (List (String × Text))
jar cookie = some (("sso_lang", cookie) ∷ [])

abbrev parse_qs : Text → Option Query
parse_qs query = some (("ui_locales", record { first = query; others = [] }) ∷ [])

abbrev request : Context
request = record {
  cookie = none;
  http_cookie = some (codes "pt");
  http_accept_language = some header;
  sso_i18n_lang = none;
  values = other ∷ with_request (some (codes "ja en-US")) ∷ [];
}

locale_before_browser : resolve_lang jar parse_qs float (some request) ≡ en
unfolding codes resolve_lang chosen_lang or_text lang_from_cookie ui_locales_lang request_lang
    text_eq is_space
locale_before_browser = refl

resolve_lang-supported_example :
    is_in (resolve_lang jar parse_qs float (some request)) supported ≡ true
resolve_lang-supported_example = resolve_lang-supported jar parse_qs float (some request)

-- The German file cannot be read.
abbrev file : Text → Option (List (String × String))
file lang =
    if text_eq lang it
    then some (("title", "Accesso") ∷ [])
    else if text_eq lang en
    then some (("title", "") ∷ [])
    else none

abbrev format : String → List (String × String) → Option String
format value params = none

italian_title : t file format de "title" [] ≡ some "Accesso"
unfolding t load first_translation formatted is_in text_eq
italian_title = refl
