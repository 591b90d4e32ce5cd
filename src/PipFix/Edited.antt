-- ===== src/PipFix/Edited.antt =====
-- What edit_infile of scripts/security/pip_fix.py changes in a file of requirements.
use pa_sso_proxy.Prelude.{
  ◌≡◌, ◌≢◌, refl, sym, ap, ◌∙◌, subst, ◌⊎◌, inl, inr, true, none, some, List, [], ◌∷◌, ◌++◌, All,
  Bool-cases, Option-cases, arith,
}
use pa_sso_proxy.Unicode.{Text, text_eq, text_eq_iff, is_space}
use pa_sso_proxy.PipFix.Codes.{codes}
use pa_sso_proxy.PipFix.Names.{
  normalize, span, take_name, take_extras, parse_pin, dependency, specified, is_alphanumeric,
  is_version_char, is_specifier,
}
use pa_sso_proxy.PipFix.Edit.{
  without_newline, pin_line, matching, replaced, joined, ended, added, comment_line, remark_line,
  transitive_pin, edit_infile,
}
use pa_sso_proxy.PipFix.Pins.{
  stops, is_name, is_version, Extras, take_name-IsName, take_extras-Extras, parse_pin-line,
}

matching-Parts :
    (norm line : Text) {name : Text} {extras : Text}
    → matching norm line ≡ some (name, extras)
    → (is_name name ≡ true) × Extras extras × (normalize name ≡ norm)
unfolding matching dependency specified
matching-Parts norm line {name = n} {extras = e} h =
    elim (Option-cases (take_name (without_newline line))) [
      | inl x ↦ absurd (ground arith)
      | inr ((m, rest), h₁) ↦ elim (Option-cases (take_extras rest)) [
        | inl x ↦ absurd (ground arith)
        | inr ((f, r), h₂) ↦ elim (Bool-cases (is_specifier (span is_space r).1)) [
          | inr x ↦ absurd (ground arith)
          | inl t ↦ elim (Bool-cases (text_eq (normalize m) norm)) [
            | inr x ↦ absurd (ground arith)
            | inl same ↦
                let same_name : m ≡ n = ground arith in
                let same_extras : f ≡ e = ground arith in
                (
                  subst (λ x. is_name x ≡ true) same_name
                      (take_name-IsName (without_newline line) {name = m} {rest = rest} h₁),
                  subst Extras same_extras (take_extras-Extras rest {e = f} {rest = r} h₂),
                  ap normalize (sym same_name) ∙ (text_eq_iff (normalize m) norm).0 same,
                )
          ]
        ]
      ]
    ]

-- A line of the package is replaced by the pin, or the pin is added at the end after two comments.
pub data Edited (lines : List Text) (name version : Text) (edited : List Text) : Type 0 where
  direct :
      (before after : List Text) (old pin : Text)
      → lines ≡ before ++ old ∷ after
      → edited ≡ before ++ pin ∷ after
      → All (λ l. matching (normalize name) l ≡ none) before
      → matching (normalize name) old ≢ none
      → parse_pin pin ≡ some (normalize name, version)
      → Edited lines name version edited
  transitive :
      (comment remark pin : Text)
      → All (λ l. matching (normalize name) l ≡ none) lines
      → edited ≡ ended lines ++ comment ∷ remark ∷ pin ∷ []
      → parse_pin comment ≡ none
      → parse_pin remark ≡ none
      → parse_pin pin ≡ some (normalize name, version)
      → Edited lines name version edited

pin_line-parses :
    (norm line version adv : Text) {name : Text} {extras : Text}
    → is_version version ≡ true
    → matching norm line ≡ some (name, extras)
    → parse_pin (pin_line name extras version adv) ≡ some (norm, version)
unfolding pin_line stops is_version_char is_space
pin_line-parses norm line version adv {name = n} {extras = e} versioned h =
    let (named, extra, same) = matching-Parts norm line {name = n} {extras = e} h in
    parse_pin-line n e version (codes "  # security-autofix: " ++ (adv ++ b'\n' ∷ [])) named extra
      versioned refl
    ∙ ap (λ k. some (k, version)) same

replaced-Direct :
    (norm version adv : Text) (lines : List Text)
    → is_version version ≡ true
    → ((replaced norm version adv lines ≡ none) × All (λ l. matching norm l ≡ none) lines)
      ⊎ ((before : List Text) × (after : List Text) × (old : Text) × (pin : Text) × (replaced norm
              version adv lines
            ≡ some (before ++ pin ∷ after))
          × (lines ≡ before ++ old ∷ after)
          × All (λ l. matching norm l ≡ none) before
          × (matching norm old ≢ none)
          × (parse_pin pin ≡ some (norm, version)))
unfolding replaced
replaced-Direct norm version adv [] versioned = inl (refl, tt)
replaced-Direct norm version adv (l ∷ ls) versioned = elim (Option-cases (matching norm l)) [
  | inr ((n, e), found) ↦ inr (
    [],
    ls,
    l,
    pin_line n e version adv,
    ground arith,
    refl,
    tt,
    λ absent. ground arith,
    pin_line-parses norm l version adv {name = n} {extras = e} versioned found,
  )
  | inl absent ↦ elim (replaced-Direct norm version adv ls versioned) [
    | inl (none_there, all_absent) ↦ inl (ground arith, (absent, all_absent))
    | inr (before, after, old, pin, edited, shape, before_absent, of_package, parses) ↦ inr (
      l ∷ before,
      after,
      old,
      pin,
      ground arith,
      ap (λ x. l ∷ x) shape,
      (absent, before_absent),
      of_package,
      parses,
    )
  ]
]

-- For a name that is a package's and a version without spaces, semicolons and backslashes, the
-- edited file has one line that was changed or added, and parse_lock reads from it the package with
-- the version: the first line of the package is replaced and every other line is kept, or, where no
-- line is of the package, two comments and the pin follow all lines.
pub edit_infile-Edited :
    (lines : List Text) (name version : Text) (advisories : List Text)
    → is_name name ≡ true
    → is_version version ≡ true
    → Edited lines name version (edit_infile lines name version advisories)
unfolding edit_infile added comment_line remark_line transitive_pin stops is_version_char is_space
    parse_pin take_name is_alphanumeric
edit_infile-Edited lines name version advisories named versioned =
    let adv = joined advisories in
    elim (replaced-Direct (normalize name) version adv lines versioned) [
      | inr (before, after, old, pin, edited, shape, absent, of_package, parses) ↦
          direct before after old pin shape (ground arith) absent of_package parses
      | inl (none_there, absent) ↦
          transitive (comment_line adv) (remark_line version) (transitive_pin name version) absent
            (ground arith) refl refl
            (parse_pin-line name [] version (b'\n' ∷ []) named (inl refl) versioned refl)
    ]
