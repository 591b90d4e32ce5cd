-- ===== src/Languages/First.antt =====
-- The first language of parse_accept_language of satosa/plugins/i18n.py, by the parts of the header.
use pa_sso_proxy.Prelude.{
  ℕ, suc, ◌≤◌, ◌<◌, ◌≡◌, ◌⊎◌, refl, inl, inr, subst, sym, Bool, false, ◌&&◌, Option, none, some,
  List, [], ◌∷◌, ◌++◌, ltb, ◌==◌, ==_iff, arith, All, All-append, All-mono, Among, here, further,
  Bool-cases, Option-cases,
}
use pa_sso_proxy.Unicode.{Text, strip, split}
use pa_sso_proxy.Languages.{
  normalize, before, after, one, Weighted, positive, weight, weighted_part, weighted,
  parse_accept_language,
}
use pa_sso_proxy.Languages.Accept.{entries, parse_accept_language-entry}

-- A part and its place have a property: one of them, or all.
abbrev pub AnyFrom : ℕ → (ℕ → Text → Type 0) → List Text → Type 0
AnyFrom pos P [] = ⊥
AnyFrom pos P (part ∷ parts) = P pos part ⊎ AnyFrom (suc pos) P parts

abbrev pub AllFrom : ℕ → (ℕ → Text → Type 0) → List Text → Type 0
AllFrom pos P [] = Unit
AllFrom pos P (part ∷ parts) = P pos part × AllFrom (suc pos) P parts

abbrev pub parts_of : Option Text → List Text
parts_of none = []
parts_of (some header) = split (λ c. c == b',') header

abbrev pub tag_of : Text → Text
tag_of part = before (λ c. c == b';') (strip part)

abbrev pub params_of : Text → Text
params_of part = strip (after (λ c. c == b';') (strip part))

abbrev pub starts_with_q : Text → Bool
starts_with_q (c ∷ d ∷ cs) = c == b'q' && d == b'='
starts_with_q cs = false

module _ (float : Text → Option ℕ) where
  -- The parameters "q=" and a number, or something that is none and weighs 0, or others, which weigh
  -- 1.0.
  abbrev pub Weighs : Text → ℕ → Type 0
  Weighs params q =
      ((number : Text) × (params ≡ b'q' ∷ b'=' ∷ number)
        × ((float number ≡ some q) ⊎ (float number ≡ none) × (q ≡ 0)))
      ⊎ (starts_with_q params ≡ false) × (q ≡ one)

  weight-Weighs : (params : Text) → Weighs params (weight float params)
  unfolding weight
  weight-Weighs [] = inr (refl, refl)
  weight-Weighs (c ∷ []) = inr (refl, refl)
  weight-Weighs (c ∷ d ∷ cs) = elim (Bool-cases (c == b'q' && d == b'=')) [
    | inl q ↦ elim (Option-cases (float cs)) [
      | inl e ↦ inl (cs, ground (arith, ==_iff c b'q', ==_iff d b'='), inr (e, ground arith))
      | inr (n, e) ↦ inl (cs, ground (arith, ==_iff c b'q', ==_iff d b'='), inl (ground arith))
    ]
    | inr other ↦ elim (Option-cases (float cs)) [
      | inl e ↦ inr (other, ground arith)
      | inr (n, e) ↦ inr (other, ground arith)
    ]
  ]

  -- The part at that place names the language with that weight, which is positive.
  pub record Names (pos : ℕ) (part : Text) (w : Weighted) : Type 0 where
    pub at : w.pos ≡ pos
    pub language : normalize (some (tag_of part)) ≡ some w.lang
    pub weighs : Weighs (params_of part) w.q
    pub is_positive : 0 < w.q

  -- The part has no supported language or the weight 0.
  abbrev pub Silent : Text → Type 0
  Silent part = (normalize (some (tag_of part)) ≡ none) ⊎ Weighs (params_of part) 0

  -- What the entries of a part are.
  Entries : ℕ → Text → List Weighted → Type 0
  Entries pos part ws =
      (Silent part × (ws ≡ [])) ⊎ ((w : Weighted) × Names pos part w × (ws ≡ w ∷ []))

  weighted_part-Entries : (pos : ℕ) (part : Text) → Entries pos part (weighted_part float pos part)
  unfolding weighted_part positive Entries
  weighted_part-Entries pos part = elim (Option-cases (normalize (some (tag_of part)))) [
    | inl e ↦ inl (inl e, rw (weighted_part, e) refl)
    | inr (lang, e) ↦
        let weighs = weight-Weighs (params_of part) in
        let q = weight float (params_of part) in
        elim (Bool-cases (ltb 0 q)) [
          | inr zero ↦
              let none_left : q ≡ 0 = ground arith in
              inl (
                inr (subst (Weighs (params_of part)) none_left weighs),
                rw (weighted_part, e, zero) refl,
              )
          | inl more ↦ inr (
            record { q = q; pos = pos; lang = lang },
            record { at = refl; language = e; weighs = weighs; is_positive = ground arith },
            rw (weighted_part, e, more) refl,
          )
        ]
  ]

  weighted-AnyFrom :
      (pos : ℕ) (parts : List Text)
      → All (λ w. AnyFrom pos (λ p part. Names p part w) parts) (weighted float pos parts)
  unfolding weighted Entries
  weighted-AnyFrom pos [] = tt
  weighted-AnyFrom pos (part ∷ parts) =
      let P : Weighted → Type 0 = λ w. AnyFrom pos (λ p part. Names p part w) (part ∷ parts) in
      All-append P (weighted_part float pos part) (weighted float (suc pos) parts)
        (elim (weighted_part-Entries pos part) [
          | inl (silent, e) ↦ subst (All P) (sym e) tt
          | inr (w, names, e) ↦ subst (All P) (sym e) (inl names, tt)
        ])
        (All-mono {Q = P} (λ w h. inr h) (weighted float (suc pos) parts)
          (weighted-AnyFrom (suc pos) parts))

  All-parts :
      (P : Weighted → Type 0) (xs ys : List Weighted) → All P (xs ++ ys) → All P xs × All P ys
  All-parts P [] ys h = (tt, h)
  All-parts P (x ∷ xs) ys (hx, h) = let (a, b) = All-parts P xs ys h in ((hx, a), b)

  weighted-AllFrom :
      (P : Weighted → Type 0) (pos : ℕ) (parts : List Text)
      → All P (weighted float pos parts)
      → AllFrom pos (λ p part. Silent part ⊎ ((v : Weighted) × Names p part v × P v)) parts
  unfolding weighted Entries
  weighted-AllFrom P pos [] h = tt
  weighted-AllFrom P pos (part ∷ parts) h =
      let (own, rest) =
        All-parts P (weighted_part float pos part) (weighted float (suc pos) parts) h in
      (
        elim (weighted_part-Entries pos part) [
          | inl (silent, e) ↦ inl silent
          | inr (w, names, e) ↦
              let held : All P (w ∷ []) = subst (All P) e own in inr (w, names, held.0)
        ],
        weighted-AllFrom P (suc pos) parts rest,
      )

  -- `v` has a smaller weight than `w`, or the same and no earlier place.
  abbrev pub NoBetter : Weighted → Weighted → Type 0
  NoBetter w v = (v.q < w.q) ⊎ ((v.q ≡ w.q) × (w.pos ≤ v.pos))

  entries-Names :
      (P : Weighted → Type 0) (header : Option Text)
      → All P (entries float header)
      → All (λ w. AnyFrom 0 (λ p part. Names p part w) (parts_of header)) (entries float header)
        × AllFrom 0
            (λ p part. Silent part ⊎ ((v : Weighted) × Names p part v × P v))
            (parts_of header)
  unfolding entries
  entries-Names P none h = (tt, tt)
  entries-Names P (some header) h =
      (weighted-AnyFrom 0 (parts_of (some header)), weighted-AllFrom P 0 (parts_of (some header)) h)

All-get : {A : Type 0} (P : A → Type 0) (a : A) (xs : List A) → All P xs → Among a xs → P a
All-get P a [] h m = elim m [ ]
All-get P a (x ∷ xs) (hx, h) (here e) = subst P (sym e) hx
All-get P a (x ∷ xs) (hx, h) (further m) = All-get P a xs h m

-- The first language is named by one of the header's parts between commas, by its tag and with a
-- positive weight; every part either has no supported language or the weight 0, or has a smaller
-- weight than that part, or the same and no earlier place. The weight is the number after "q=", 0 if
-- that is none, and 1.0 without "q=".
pub parse_accept_language_first :
    (float : Text → Option ℕ) (header : Option Text) (lang : Text) (langs : List Text)
    → parse_accept_language float header ≡ lang ∷ langs
    → (w : Weighted) × (w.lang ≡ lang)
      × AnyFrom 0 (λ pos part. Names float pos part w) (parts_of header)
      × AllFrom 0
          (λ pos part.
            Silent float part ⊎ ((v : Weighted) × Names float pos part v × NoBetter float w v))
          (parts_of header)
parse_accept_language_first float header lang langs h =
    let (w, member, same, best) = parse_accept_language-entry float header lang langs h in
    let (named, all_parts) = entries-Names float (NoBetter float w) header best in
    (
      w,
      same,
      All-get (λ v. AnyFrom 0 (λ pos part. Names float pos part v) (parts_of header)) w
          (entries float header) named member,
      all_parts,
    )
