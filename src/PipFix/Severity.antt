-- ===== src/PipFix/Severity.antt =====
-- severity of scripts/security/pip_fix.py. A severity is its position in the source's order, from 0
-- for LOW to 4 for CRITICAL; none is UNKNOWN.
use pa_sso_proxy.Prelude.{
  ℕ, suc, ◌-◌, ◌≡◌, refl, ◌⊎◌, inl, inr, Bool, true, false, ◌&&◌, Option, none, some, List, [], ◌∷◌,
  map, ltb, leb, if◌then◌else◌, All, Option-cases, Bool-cases, arith, option_map,
}
use pa_sso_proxy.Unicode.{Text, text_eq, text_eq_iff}
use pa_sso_proxy.PipFix.Choice.{Answers, is_in}

abbrev pub order : List Text
order =
    (b'L' ∷ b'O' ∷ b'W' ∷ [])
    ∷ (b'M' ∷ b'O' ∷ b'D' ∷ b'E' ∷ b'R' ∷ b'A' ∷ b'T' ∷ b'E' ∷ [])
    ∷ (b'M' ∷ b'E' ∷ b'D' ∷ b'I' ∷ b'U' ∷ b'M' ∷ [])
    ∷ (b'H' ∷ b'I' ∷ b'G' ∷ b'H' ∷ [])
    ∷ (b'C' ∷ b'R' ∷ b'I' ∷ b'T' ∷ b'I' ∷ b'C' ∷ b'A' ∷ b'L' ∷ [])
    ∷ []

-- str.upper on the ASCII letters
unfoldable pub to_upper : ℕ → ℕ
to_upper c = if leb b'a' c && leb c b'z' then c - 32 else c

-- `order.index(sev)`, if it is there
unfoldable pub index_of : Text → List Text → Option ℕ
index_of t [] = none
index_of t (x ∷ xs) =
    let rest = option_map suc (index_of t xs) in if text_eq x t then some 0 else rest

-- The position of what OSV says of one id; an entry that is missing says nothing.
unfoldable pub position : Answers → Text → Option ℕ
unfolding index_of to_upper
position get vid = elim (get.vulnerability vid) [
  | none ↦ none
  | some none ↦ none
  | some (some sev) ↦ index_of (map to_upper sev) order
]

unfoldable pub better : Option ℕ → Option ℕ → Option ℕ
better best none = best
better none (some n) = some n
better (some b) (some n) = if ltb b n then some n else some b

unfoldable pub severity_from : Option ℕ → List Text → Answers → Option ℕ
unfolding position better
severity_from best [] get = best
severity_from best (vid ∷ vids) get = severity_from (better best (position get vid)) vids get

unfoldable pub severity : List Text → Answers → Option ℕ
unfolding severity_from
severity vuln_ids get = severity_from none vuln_ids get

-- The position is at most that of the severity; none is at most any.
unfoldable pub at_most : Option ℕ → Option ℕ → Bool
at_most none s = true
at_most (some n) none = false
at_most (some n) (some m) = leb n m

at_most_trans : (a b c : Option ℕ) → at_most a b ≡ true → at_most b c ≡ true → at_most a c ≡ true
unfolding at_most
at_most_trans none b c h h' = refl
at_most_trans (some n) none c h h' = absurd (ground arith)
at_most_trans (some n) (some m) none h h' = absurd (ground arith)
at_most_trans (some n) (some m) (some k) h h' = ground arith

better_upper :
    (best o : Option ℕ) → (at_most best (better best o) ≡ true) × (at_most o (better best o) ≡ true)
unfolding at_most better
better_upper none none = (refl, refl)
better_upper (some b) none = (ground arith, refl)
better_upper none (some n) = (refl, ground arith)
better_upper (some b) (some n) = (ground arith, ground arith)

severity_from-upper :
    (get : Answers) (vids : List Text) (best : Option ℕ)
    → (at_most best (severity_from best vids get) ≡ true)
      × All (λ v. at_most (position get v) (severity_from best vids get) ≡ true) vids
unfolding severity_from at_most
severity_from-upper get [] none = (ground arith, tt)
severity_from-upper get [] (some b) = (ground arith, tt)
severity_from-upper get (vid ∷ vids) best =
    let best' = better best (position get vid) in
    let (h, hs) = severity_from-upper get vids best' in
    let (h₁, h₂) = better_upper best (position get vid) in
    (
      at_most_trans best best' (severity_from best' vids get) h₁ h,
      (at_most_trans (position get vid) best' (severity_from best' vids get) h₂ h, hs),
    )

better_cases : (best o : Option ℕ) {n : ℕ} → better best o ≡ some n → (best ≡ some n) ⊎ (o ≡ some n)
unfolding better
better_cases best none h = inl h
better_cases none (some m) h = inr h
better_cases (some b) (some m) h = elim (Bool-cases (ltb b m)) [
  | inl t ↦ inr (ground arith)
  | inr f ↦ inl (ground arith)
]

-- It is one of those that were found.
severity_from-attained :
    (get : Answers) (vids : List Text) (best : Option ℕ) (n : ℕ)
    → severity_from best vids get ≡ some n
    → (best ≡ some n) ⊎ ((v : Text) × (is_in v vids ≡ true) × (position get v ≡ some n))
unfolding severity_from is_in
severity_from-attained get [] best n h = inl h
severity_from-attained get (vid ∷ vids) best n h =
    elim (severity_from-attained get vids (better best (position get vid)) n h) [
      | inr (v, listed, p) ↦ inr (v, ground arith, p)
      | inl b ↦ elim (better_cases best (position get vid) b) [
        | inl old ↦ inl old
        | inr new ↦ inr (vid, ground (arith, text_eq_iff vid vid), new)
      ]
    ]

-- The severity of a list of ids is at least that of each of them, and it is none, or that of one of
-- them.
pub severity_lem :
    (vuln_ids : List Text) (get : Answers)
    → All (λ v. at_most (position get v) (severity vuln_ids get) ≡ true) vuln_ids
      × ((severity vuln_ids get ≡ none)
          ⊎ ((n : ℕ) × (v : Text) × (severity vuln_ids get ≡ some n)
              × (is_in v vuln_ids ≡ true)
              × (position get v ≡ some n)))
unfolding severity
severity_lem vids get = (
  (severity_from-upper get vids none).1,
  elim (Option-cases (severity_from none vids get)) [
    | inl unknown ↦ inl unknown
    | inr (n, known) ↦ elim (severity_from-attained get vids none n known) [
      | inl e ↦ absurd (ground arith)
      | inr (v, listed, p) ↦ inr (n, v, known, listed, p)
    ]
  ],
)
