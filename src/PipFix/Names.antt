-- ===== src/PipFix/Names.antt =====
-- The names of packages and the lines of requirements in scripts/security/pip_fix.py: normalize,
-- parse_lock and edit_infile. A file is the list of its lines.
use pa_sso_proxy.Prelude.{
  ℕ, Bool, true, false, not, ◌&&◌, ◌||◌, Option, none, some, List, [], ◌∷◌, ◌++◌, leb, ◌==◌,
  if◌then◌else◌, option_map,
}
use pa_sso_proxy.Unicode.{Text, to_lower, is_space}

-- `[-_.]`
unfoldable pub is_separator : ℕ → Bool
is_separator c = c == b'-' || c == b'_' || c == b'.'

-- Runs of separators become one `-`; the flag says that the character before was one.
unfoldable pub squeeze : Bool → Text → Text
unfolding is_separator
squeeze after [] = []
squeeze after (c ∷ cs) =
    let rest = squeeze (is_separator c) cs in
    if is_separator c then (if after then rest else b'-' ∷ rest) else to_lower c ∷ rest

unfoldable pub normalize : Text → Text
unfolding squeeze
normalize name = squeeze false name

-- `[A-Za-z0-9]` and `[A-Za-z0-9._-]`
unfoldable pub is_alphanumeric : ℕ → Bool
is_alphanumeric c =
    (leb b'A' c && leb c b'Z') || (leb b'a' c && leb c b'z') || (leb b'0' c && leb c b'9')

unfoldable pub is_name_char : ℕ → Bool
unfolding is_alphanumeric is_separator
is_name_char c = is_alphanumeric c || is_separator c

-- The characters in front that pass the test, and the rest.
unfoldable pub span : (ℕ → Bool) → Text → Text × Text
span p [] = ([], [])
span p (c ∷ cs) = let (front, rest) = span p cs in if p c then (c ∷ front, rest) else ([], c ∷ cs)

-- `([A-Za-z0-9][A-Za-z0-9._-]*)`
unfoldable pub take_name : Text → Option (Text × Text)
unfolding is_alphanumeric is_name_char span
take_name [] = none
take_name (c ∷ cs) =
    let (front, rest) = span is_name_char cs in
    if is_alphanumeric c then some (c ∷ front, rest) else none

unfoldable pub closed_extras : Text × Text → Option (Text × Text)
closed_extras (inside, []) = none
closed_extras (inside, c ∷ rest) = some (b'[' ∷ (inside ++ c ∷ []), rest)

-- `(\[[^\]]*\])?`: a bracket that is not closed matches no line.
unfoldable pub take_extras : Text → Option (Text × Text)
unfolding span closed_extras
take_extras [] = some ([], [])
take_extras (c ∷ cs) =
    if c == b'[' then closed_extras (span (λ d. not (d == b']')) cs) else some ([], c ∷ cs)

-- `[^\s;\\]`
unfoldable pub is_version_char : ℕ → Bool
is_version_char c = not (is_space c || c == b';' || c == b'\\')

unfoldable pub not_blank : Text → Option Text
not_blank [] = none
not_blank (c ∷ cs) = some (c ∷ cs)

-- `==([^\s;\\]+)`
unfoldable pub take_version : Text → Option Text
unfolding is_version_char span not_blank
take_version (c ∷ d ∷ cs) =
    if c == b'=' && d == b'=' then not_blank (span is_version_char cs).0 else none
take_version cs = none

unfoldable pub version_after : Option (Text × Text) → Option Text
unfolding take_version
version_after none = none
version_after (some (extras, rest)) = take_version rest

-- The name and the version that one line of a lock pins.
unfoldable pub parse_pin : Text → Option (Text × Text)
unfolding take_name take_extras version_after normalize
parse_pin line = elim (take_name line) [
  | none ↦ none
  | some (name, rest) ↦ option_map (λ v. (normalize name, v)) (version_after (take_extras rest))
]

-- The items of the dict; a later item of a name replaces an earlier one.
unfoldable pub parse_lock : List Text → List (Text × Text)
unfolding parse_pin
parse_lock [] = []
parse_lock (line ∷ lines) = elim (parse_pin line) [
  | none ↦ parse_lock lines
  | some pin ↦ pin ∷ parse_lock lines
]

-- What may follow a dependency's name: a specifier, a comment or nothing.
unfoldable pub is_specifier : Text → Bool
is_specifier [] = true
is_specifier (c ∷ cs) = c == b'#' || c == b'<' || c == b'>' || c == b'=' || c == b'!' || c == b'~'

unfoldable pub specified : Text → Option (Text × Text) → Option (Text × Text)
unfolding span is_specifier
specified name none = none
specified name (some (extras, rest)) =
    if is_specifier (span is_space rest).1 then some (name, extras) else none

-- The name and the extras of a dependency's line.
unfoldable pub dependency : Text → Option (Text × Text)
unfolding take_name take_extras specified
dependency line = elim (take_name line) [
  | none ↦ none
  | some (name, rest) ↦ specified name (take_extras rest)
]
