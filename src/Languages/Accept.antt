-- ===== src/Languages/Accept.antt =====
-- The languages that parse_accept_language of satosa/plugins/i18n.py finds.
use pa_sso_proxy.Prelude.{
  Among, All-Among, ℕ, suc, ◌≡◌, ◌⊎◌, sym, subst, ap, ◌∙◌, ◌≤◌, ◌<◌, refl, inl, inr, true, false,
  ◌||◌, Option, none, some, List, [], ◌∷◌, ltb, ◌==◌, arith, count, All, All-append, All-mono,
  Bool-cases,
}
use pa_sso_proxy.Unicode.{Text, text_eq, text_eq_iff, strip, split}
use pa_sso_proxy.PipFix.Sorting.{
  sorted, sorted-All, sorted-count, sorted-least, lt_list_irrefl, lt_list_asym, lt_list_cotrans,
}
use pa_sso_proxy.Languages.{
  is_in, supported, normalize, Weighted, lt_weighted, positive, unseen, weighted_part, weighted,
  parse_accept_language, weight, before, after,
}

lt_weighted_irrefl : (a : Weighted) → lt_weighted a a ≡ false
unfolding lt_weighted
lt_weighted_irrefl a = ground (arith, lt_list_irrefl a.lang)

lt_weighted_asym : (a b : Weighted) → lt_weighted a b ≡ true → lt_weighted b a ≡ false
unfolding lt_weighted
lt_weighted_asym a b h = ground (arith, lt_list_asym a.lang b.lang)

lt_weighted_cotrans :
    (a b c : Weighted)
    → lt_weighted a c ≡ true
    → (lt_weighted a b ≡ true) ⊎ (lt_weighted b c ≡ true)
unfolding lt_weighted
lt_weighted_cotrans a b c h = ground (arith, lt_list_cotrans a.lang b.lang c.lang)

pub normalize-supported :
    (tag : Option Text) (lang : Text) → normalize tag ≡ some lang → is_in lang supported ≡ true
unfolding normalize
normalize-supported none lang h = absurd (ground arith)
normalize-supported (some []) lang h = absurd (ground arith)
normalize-supported (some (c ∷ cs)) lang h = ground arith

-- No language stands twice.
unfoldable pub Distinct : List Text → Type 0
Distinct [] = Unit
Distinct (t ∷ ts) = (is_in t ts ≡ false) × Distinct ts

absent :
    (lang : Text) (seen ts : List Text)
    → All (λ t. is_in t (lang ∷ seen) ≡ false) ts
    → is_in lang ts ≡ false
unfolding is_in
absent lang seen [] h = refl
absent lang seen (t ∷ ts) (h, hs) =
    ground (arith, absent lang seen ts hs, text_eq_iff lang t, text_eq_iff t lang)

-- Every language that is seen is left out of the rest.
unseen-Distinct :
    (seen : List Text) (ws : List Weighted)
    → Distinct (unseen seen ws) × All (λ t. is_in t seen ≡ false) (unseen seen ws)
unfolding unseen Distinct is_in
unseen-Distinct seen [] = (tt, tt)
unseen-Distinct seen (w ∷ ws) = elim (Bool-cases (is_in w.lang seen)) [
  | inl old ↦ rw (unseen, old) (unseen-Distinct seen ws)
  | inr new ↦
      let (distinct, fresh) = unseen-Distinct (w.lang ∷ seen) ws in
      rw (unseen, new)
        (
          (absent w.lang seen (unseen (w.lang ∷ seen) ws) fresh, distinct),
          (
            new,
            All-mono {Q = λ t. is_in t seen ≡ false} (λ t h. ground arith)
                (unseen (w.lang ∷ seen) ws) fresh,
          ),
        )
]

-- A language is in the result or was seen exactly if an entry has it.
unseen-is_in :
    (lang : Text) (seen : List Text) (ws : List Weighted)
    → (is_in lang seen || is_in lang (unseen seen ws))
      ≡ (is_in lang seen || ltb 0 (count (λ w. text_eq lang w.lang) ws))
unfolding is_in unseen
unseen-is_in lang seen [] = ground arith
unseen-is_in lang seen (w ∷ ws) = ground (
  arith,
  unseen-is_in lang seen ws,
  unseen-is_in lang (w.lang ∷ seen) ws,
  text_eq_iff lang w.lang,
)

-- The entries of a header: its parts with a supported language and a positive weight.
unfoldable pub entries : (Text → Option ℕ) → Option Text → List Weighted
unfolding weighted split
entries float none = []
entries float (some header) = weighted float 0 (split (λ d. d == b',') header)

-- An entry that parse_accept_language may keep.
abbrev IsEntry : Weighted → Type 0
IsEntry w = (is_in w.lang supported ≡ true) × (ltb 0 w.q ≡ true)

positive-IsEntry : (pos q : ℕ) (tag : Option Text) → All IsEntry (positive pos q (normalize tag))
unfolding positive
positive-IsEntry pos q tag = go (normalize tag) refl
  where
    go : (lang : Option Text) → normalize tag ≡ lang → All IsEntry (positive pos q lang)
    go none e = tt
    go (some lang) e = elim (Bool-cases (ltb 0 q)) [
      | inl t ↦ rw (positive, t) ((normalize-supported tag lang e, t), tt)
      | inr f ↦ rw (positive, f) tt
    ]

weighted-IsEntry :
    (float : Text → Option ℕ) (pos : ℕ) (parts : List Text) → All IsEntry (weighted float pos parts)
unfolding weighted weighted_part
weighted-IsEntry float pos [] = tt
weighted-IsEntry float pos (part ∷ parts) =
    All-append IsEntry (weighted_part float pos part) (weighted float (suc pos) parts)
      (positive-IsEntry pos (weight float (strip (after (λ c. c == b';') (strip part))))
        (some (before (λ c. c == b';') (strip part))))
      (weighted-IsEntry float (suc pos) parts)

entries-IsEntry :
    (float : Text → Option ℕ) (header : Option Text) → All IsEntry (entries float header)
unfolding entries
entries-IsEntry float none = tt
entries-IsEntry float (some header) = weighted-IsEntry float 0 (split (λ d. d == b',') header)

sorted-is_in :
    (lang : Text) (ws : List Weighted)
    → is_in lang (unseen [] (sorted lt_weighted ws)) ≡ ltb 0 (count (λ w. text_eq lang w.lang) ws)
unfolding is_in
sorted-is_in lang ws =
    unseen-is_in lang [] (sorted lt_weighted ws)
    ∙ ap (λ n. ltb 0 n) (sorted-count lt_weighted (λ w. text_eq lang w.lang) ws)

unseen-supported :
    (seen : List Text) (ws : List Weighted)
    → All (λ (w : Weighted). is_in w.lang supported ≡ true) ws
    → All (λ lang. is_in lang supported ≡ true) (unseen seen ws)
unfolding unseen
unseen-supported seen [] h = tt
unseen-supported seen (w ∷ ws) (h, hs) = elim (Bool-cases (is_in w.lang seen)) [
  | inl old ↦ rw (unseen, old) (unseen-supported seen ws hs)
  | inr new ↦ rw (unseen, new) (h, unseen-supported (w.lang ∷ seen) ws hs)
]

pub parsed :
    (float : Text → Option ℕ) (header : Option Text)
    → parse_accept_language float header ≡ unseen [] (sorted lt_weighted (entries float header))
unfolding parse_accept_language entries unseen sorted
parsed float none = refl
parsed float (some []) = refl
parsed float (some (c ∷ cs)) = refl

pub parse_accept_language_lem :
    (float : Text → Option ℕ) (header : Option Text) (lang : Text)
    → let langs = parse_accept_language float header in
      Distinct langs
      × All (λ t. is_in t supported ≡ true) langs
      × (is_in lang langs ≡ ltb 0 (count (λ w. text_eq lang w.lang) (entries float header)))
parse_accept_language_lem float header lang = rw (parsed float header) (
  (unseen-Distinct [] (sorted lt_weighted (entries float header))).0,
  unseen-supported [] (sorted lt_weighted (entries float header)) (
      sorted-All lt_weighted (λ w. is_in w.lang supported ≡ true) (entries float header)
        (All-mono {Q = λ w. is_in w.lang supported ≡ true} (λ w h. h.0) (entries float header)
          (entries-IsEntry float header))),
  sorted-is_in lang (entries float header),
)

first_unseen :
    (ws : List Weighted) (lang : Text) (langs : List Text)
    → unseen [] ws ≡ lang ∷ langs
    → (w : Weighted) × (vs : List Weighted) × (ws ≡ w ∷ vs) × (w.lang ≡ lang)
unfolding unseen is_in
first_unseen [] lang langs h = absurd (ground arith)
first_unseen (w ∷ vs) lang langs h = (w, vs, refl, ground arith)

-- The entry of the first language.
pub parse_accept_language-entry :
    (float : Text → Option ℕ) (header : Option Text) (lang : Text) (langs : List Text)
    → parse_accept_language float header ≡ lang ∷ langs
    → (w : Weighted) × Among w (entries float header)
      × (w.lang ≡ lang)
      × All (λ v. (v.q < w.q) ⊎ ((v.q ≡ w.q) × (w.pos ≤ v.pos))) (entries float header)
unfolding lt_weighted
parse_accept_language-entry float header lang langs h =
    let (w, vs, e, same) =
      first_unseen (sorted lt_weighted (entries float header)) lang langs
        (sym (parsed float header) ∙ h) in
    let members : All (λ v. Among v (entries float header)) (w ∷ vs) =
      subst (All (λ v. Among v (entries float header))) e (
        sorted-All lt_weighted (λ v. Among v (entries float header)) (entries float header)
          (All-Among (entries float header))) in
    (
      w,
      members.0,
      same,
      All-mono {Q = λ v. (v.q < w.q) ⊎ ((v.q ≡ w.q) × (w.pos ≤ v.pos))} (λ v f. ground arith)
          (entries float header)
          (sorted-least lt_weighted lt_weighted_irrefl lt_weighted_asym lt_weighted_cotrans
            (entries float header) w vs e),
    )
