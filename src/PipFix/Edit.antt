-- ===== src/PipFix/Edit.antt =====
-- edit_infile of scripts/security/pip_fix.py: the pin of a package in a file of requirements, which
-- is the list of its lines with their line ends.
use pa_sso_proxy.Prelude.{
  ℕ, Bool, false, Option, none, some, List, [], ◌∷◌, ◌++◌, ◌==◌, if◌then◌else◌, option_map,
}
use pa_sso_proxy.Unicode.{Text, text_eq}
use pa_sso_proxy.PipFix.Codes.{codes}
use pa_sso_proxy.PipFix.Names.{normalize, dependency}

-- `", ".join(advisories)`
unfoldable pub joined : List Text → Text
joined [] = []
joined (a ∷ []) = a
joined (a ∷ b ∷ rest) = a ++ b',' ∷ b' ' ∷ joined (b ∷ rest)

-- `line.rstrip("\n")`
unfoldable pub without_newline : Text → Text
without_newline [] = []
without_newline (c ∷ cs) = strip_in_front c (without_newline cs)
  where
    strip_in_front : ℕ → Text → Text
    strip_in_front c [] = if c == b'\n' then [] else c ∷ []
    strip_in_front c (d ∷ ds) = c ∷ d ∷ ds

-- The line that replaces the one of a dependency.
unfoldable pub pin_line : Text → Text → Text → Text → Text
unfolding codes
pin_line name extras version adv =
    name
    ++ (extras
        ++ (b'=' ∷ b'=' ∷ version ++ (codes "  # security-autofix: " ++ (adv ++ b'\n' ∷ []))))

-- The name and the extras of a line that is of the package.
unfoldable pub matching : Text → Text → Option (Text × Text)
unfolding dependency without_newline normalize
matching norm line = elim (dependency (without_newline line)) [
  | none ↦ none
  | some (name, extras) ↦ if text_eq (normalize name) norm then some (name, extras) else none
]

-- The lines with the first one of the package replaced, if there is one.
unfoldable pub replaced : Text → Text → Text → List Text → Option (List Text)
unfolding matching pin_line
replaced norm version adv [] = none
replaced norm version adv (line ∷ lines) = elim (matching norm line) [
  | some (name, extras) ↦ some (pin_line name extras version adv ∷ lines)
  | none ↦ option_map (λ rest. line ∷ rest) (replaced norm version adv lines)
]

unfoldable pub ends_with_newline : Text → Bool
ends_with_newline [] = false
ends_with_newline (c ∷ []) = c == b'\n'
ends_with_newline (c ∷ d ∷ cs) = ends_with_newline (d ∷ cs)

-- The last line gets the newline that it lacks.
unfoldable pub ended : List Text → List Text
unfolding ends_with_newline
ended [] = []
ended (l ∷ []) = (if ends_with_newline l then l else l ++ b'\n' ∷ []) ∷ []
ended (l ∷ m ∷ ls) = l ∷ ended (m ∷ ls)

-- The lines that are added for a dependency of a dependency.
unfoldable pub comment_line : Text → Text
unfolding codes
comment_line adv =
    codes "# security-autofix ("
    ++ (adv ++ codes "): dipendenza transitiva fissata alla versione corretta.\n")

unfoldable pub remark_line : Text → Text
unfolding codes
remark_line version =
    codes "# Rimuovere quando il pacchetto che la richiede impone già >= "
    ++ (version ++ codes ".\n")

unfoldable pub transitive_pin : Text → Text → Text
transitive_pin name version = name ++ (b'=' ∷ b'=' ∷ (version ++ b'\n' ∷ []))

unfoldable pub added : Text → Text → Text → List Text
unfolding comment_line remark_line transitive_pin
added name version adv = comment_line adv ∷ remark_line version ∷ transitive_pin name version ∷ []

unfoldable pub edit_infile : List Text → Text → Text → List Text → List Text
unfolding replaced joined ended added normalize
edit_infile lines name version advisories =
    elim (replaced (normalize name) version (joined advisories) lines) [
      | some edited ↦ edited
      | none ↦ ended lines ++ added name version (joined advisories)
    ]
