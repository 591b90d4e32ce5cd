-- ===== src/Languages.antt =====
-- The language of the pages that the proxy shows to its users: satosa/plugins/i18n.py. A text is the
-- list of its code points.
pub mod Context
pub mod Accept
pub mod First
pub mod Resolve
pub mod Translated
mod Tests
use pa_sso_proxy.Prelude.{
  ℕ, suc, String, Bool, true, false, not, ◌&&◌, ◌||◌, Option, none, some, List, [], ◌∷◌, ◌++◌, ◌==◌,
  ltb, map, lookup, is_text, member, if◌then◌else◌,
}
use pa_sso_proxy.Unicode.{
  Text, text_eq, is_space, to_lower, strip, strip_front, strip_back, split, add_char,
}
use pa_sso_proxy.PipFix.Sorting.{sorted, lt_list}

abbrev pub it : Text
it = b'i' ∷ b't' ∷ []

abbrev pub en : Text
en = b'e' ∷ b'n' ∷ []

abbrev pub fr : Text
fr = b'f' ∷ b'r' ∷ []

abbrev pub de : Text
de = b'd' ∷ b'e' ∷ []

abbrev pub es : Text
es = b'e' ∷ b's' ∷ []

abbrev pub supported : List Text
supported = it ∷ en ∷ fr ∷ de ∷ es ∷ []

abbrev pub default : Text
default = it

unfoldable pub is_in : Text → List Text → Bool
is_in t [] = false
is_in t (u ∷ us) = text_eq t u || is_in t us

-- What stands before and after the first such character.
unfoldable pub before : (ℕ → Bool) → Text → Text
before p [] = []
before p (c ∷ cs) = let rest = before p cs in if p c then [] else c ∷ rest

unfoldable pub after : (ℕ → Bool) → Text → Text
after p [] = []
after p (c ∷ cs) = let rest = after p cs in if p c then cs else rest

unfoldable pub without_empty : List Text → List Text
without_empty [] = []
without_empty ([] ∷ parts) = without_empty parts
without_empty ((c ∷ cs) ∷ parts) = (c ∷ cs) ∷ without_empty parts

-- `.replace("_", "-").split("-", 1)[0].lower()`; of the characters that are not ASCII none has two
-- ASCII letters of a supported language as its lower case.
unfoldable pub primary : Text → Text
unfolding before to_lower
primary tag = map to_lower (before (λ c. c == b'-' || c == b'_') tag)

unfoldable pub normalize : Option Text → Option Text
unfolding strip primary is_in
normalize none = none
normalize (some []) = none
normalize (some (c ∷ cs)) =
    let lang = primary (strip (c ∷ cs)) in if is_in lang supported then some lang else none

-- A positive floating point number is its bit pattern, in whose order they stand.
abbrev pub one : ℕ
one = 4607182418800017408

pub record Weighted : Type 0 where
  pub q : ℕ
  pub pos : ℕ
  pub lang : Text

-- The order of the tuples `(-q, pos, lang)`
unfoldable pub lt_weighted : Weighted → Weighted → Bool
unfolding lt_list
lt_weighted a b =
    ltb b.q a.q || (a.q == b.q && (ltb a.pos b.pos || (a.pos == b.pos && lt_list a.lang b.lang)))

unfoldable pub positive : ℕ → ℕ → Option Text → List Weighted
positive pos q none = []
positive pos q (some lang) = if ltb 0 q then record { q = q; pos = pos; lang = lang } ∷ [] else []

-- The `lang not in result` of the loop, with what is in the result.
unfoldable pub unseen : List Text → List Weighted → List Text
unfolding is_in
unseen seen [] = []
unseen seen (w ∷ ws) =
    let old = unseen seen ws in
    let new = unseen (w.lang ∷ seen) ws in if is_in w.lang seen then old else w.lang ∷ new

-- `float` gives a positive number, 0 for any other (or nan), or none for ValueError.
module _ (float : Text → Option ℕ) where
  unfoldable pub weight : Text → ℕ
  weight (c ∷ d ∷ cs) = elim (float cs) [
    | none ↦ if c == b'q' && d == b'=' then 0 else one
    | some q ↦ if c == b'q' && d == b'=' then q else one
  ]
  weight cs = one

  unfoldable pub weighted_part : ℕ → Text → List Weighted
  unfolding weight strip before after normalize positive
  weighted_part pos part =
      let semicolon : ℕ → Bool = λ c. c == b';' in
      positive pos (weight (strip (after semicolon (strip part))))
        (normalize (some (before semicolon (strip part))))

  unfoldable pub weighted : ℕ → List Text → List Weighted
  unfolding weighted_part
  weighted pos [] = []
  weighted pos (part ∷ parts) = weighted_part pos part ++ weighted (suc pos) parts

  unfoldable pub parse_accept_language : Option Text → List Text
  unfolding weighted split unseen
  parse_accept_language none = []
  parse_accept_language (some []) = []
  parse_accept_language (some (c ∷ cs)) =
      unseen [] (sorted lt_weighted (weighted 0 (split (λ d. d == b',') (c ∷ cs))))
