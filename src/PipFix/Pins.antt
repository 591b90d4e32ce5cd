-- ===== src/PipFix/Pins.antt =====
-- The line that edit_infile of scripts/security/pip_fix.py writes, read by parse_lock.
use pa_sso_proxy.Prelude.{
  ℕ, ◌≡◌, refl, sym, ap, ◌∙◌, subst, ◌⊎◌, inl, inr, Bool, true, false, not, ◌&&◌, some, [], ◌∷◌,
  ◌++◌, all, Bool-cases, arith, ◌==◌,
}
use pa_sso_proxy.Unicode.{Text}
use pa_sso_proxy.PipFix.Names.{
  normalize, is_alphanumeric, is_name_char, is_separator, span, take_name, closed_extras,
  take_extras, is_version_char, not_blank, take_version, version_after, parse_pin,
}

-- The text does not begin with a character that passes the test.
unfoldable pub stops : (ℕ → Bool) → Text → Bool
stops p [] = true
stops p (c ∷ cs) = not (p c)

span-append :
    (p : ℕ → Bool) (front rest : Text)
    → all p front ≡ true
    → stops p rest ≡ true
    → span p (front ++ rest) ≡ (front, rest)
unfolding span stops
span-append p [] [] h h' = refl
span-append p [] (c ∷ cs) h h' = ground arith
span-append p (c ∷ cs) rest h h' = ground (arith, span-append p cs rest)

span_front : (p : ℕ → Bool) (t : Text) → all p (span p t).0 ≡ true
unfolding span
span_front p [] = refl
span_front p (c ∷ cs) = ground (arith, span_front p cs)

span_rest : (p : ℕ → Bool) (t : Text) → stops p (span p t).1 ≡ true
unfolding span stops
span_rest p [] = refl
span_rest p (c ∷ cs) = ground (arith, span_rest p cs)

-- A name of a package.
unfoldable pub is_name : Text → Bool
is_name [] = false
is_name (c ∷ cs) = is_alphanumeric c && all is_name_char cs

pub take_name-IsName :
    (line : Text) {name rest : Text} → take_name line ≡ some (name, rest) → is_name name ≡ true
unfolding take_name is_name
take_name-IsName [] h = absurd (ground arith)
take_name-IsName (c ∷ cs) {name = n} {rest = r} h = elim (Bool-cases (is_alphanumeric c)) [
  | inr f ↦ absurd (ground arith)
  | inl t ↦ ground (arith, span_front is_name_char cs)
]

take_name-append :
    (name rest : Text)
    → is_name name ≡ true
    → stops is_name_char rest ≡ true
    → take_name (name ++ rest) ≡ some (name, rest)
unfolding take_name is_name
take_name-append [] rest h h' = absurd (ground arith)
take_name-append (c ∷ cs) rest h h' = ground (arith, span-append is_name_char cs rest)

-- The extras of a dependency, with their brackets.
abbrev pub Extras : Text → Type 0
Extras e =
    (e ≡ [])
    ⊎ ((inside : Text) × (c : ℕ) × (e ≡ b'[' ∷ (inside ++ c ∷ []))
        × (all (λ d. not (d == b']')) inside ≡ true)
        × (not (c == b']') ≡ false))

pub take_extras-Extras : (t : Text) {e rest : Text} → take_extras t ≡ some (e, rest) → Extras e
unfolding take_extras closed_extras stops
take_extras-Extras [] h = inl (ground arith)
take_extras-Extras (c ∷ cs) {e = e} {rest = r} h = elim (Bool-cases (c == b'[')) [
  | inr f ↦ inl (ground arith)
  | inl t ↦ from_span (span (λ d. not (d == b']')) cs) refl (ground arith)
]
  where
    from_span :
        (q : Text × Text)
        → span (λ d. not (d == b']')) cs ≡ q
        → closed_extras q ≡ some (e, r)
        → Extras e
    from_span (inside, []) s h' = absurd (ground arith)
    from_span (inside, d ∷ ds) s h' =
        let fronts = span_front (λ x. not (x == b']')) cs in
        let rests = span_rest (λ x. not (x == b']')) cs in
        inr (inside, d, ground arith, ground arith, ground arith)

assoc_one : (xs : Text) (c : ℕ) (rest : Text) → (xs ++ c ∷ []) ++ rest ≡ xs ++ c ∷ rest
assoc_one [] c rest = refl
assoc_one (x ∷ xs) c rest = ap (λ t. x ∷ t) (assoc_one xs c rest)

take_extras-append :
    (e rest : Text)
    → Extras e
    → stops (λ c. c == b'[') rest ≡ true
    → take_extras (e ++ rest) ≡ some (e, rest)
unfolding take_extras closed_extras stops
take_extras-append e rest (inl none_given) h = from_shape e rest none_given h
  where
    from_shape :
        (e rest : Text)
        → e ≡ []
        → stops (λ c. c == b'[') rest ≡ true
        → take_extras (e ++ rest) ≡ some (e, rest)
    from_shape [] [] n h' = refl
    from_shape [] (c ∷ cs) n h' = ground arith
    from_shape (d ∷ ds) rest n h' = absurd (ground arith)
take_extras-append e rest (inr (inside, c, shape, inner, close)) h =
    subst (λ x. take_extras (x ++ rest) ≡ some (x, rest)) (sym shape)
      (ap (λ t. closed_extras (span (λ d. not (d == b']')) t)) (assoc_one inside c rest)
        ∙ ap closed_extras
            (span-append (λ d. not (d == b']')) inside (c ∷ rest) inner (ap not close)))

-- A version as a pin may have it.
unfoldable pub is_version : Text → Bool
is_version [] = false
is_version (c ∷ cs) = all is_version_char (c ∷ cs)

take_version-append :
    (version rest : Text)
    → is_version version ≡ true
    → stops is_version_char rest ≡ true
    → take_version (b'=' ∷ b'=' ∷ (version ++ rest)) ≡ some version
unfolding take_version not_blank is_version
take_version-append [] rest h h' = absurd (ground arith)
take_version-append (c ∷ cs) rest h h' =
    ap (λ q. not_blank q.0) (span-append is_version_char (c ∷ cs) rest h h')

-- What parse_pin reads of a name, extras and a version in a line.
pub parse_pin-line :
    (name extras version rest : Text)
    → is_name name ≡ true
    → Extras extras
    → is_version version ≡ true
    → stops is_version_char rest ≡ true
    → parse_pin (name ++ (extras ++ (b'=' ∷ b'=' ∷ (version ++ rest))))
      ≡ some (normalize name, version)
unfolding parse_pin version_after stops is_name_char is_alphanumeric is_separator
parse_pin-line name extras version rest named extra versioned ended =
    let tail = b'=' ∷ b'=' ∷ (version ++ rest) in
    let first =
      take_name-append name (extras ++ tail) named
        (stops_extras extras (b'=' ∷ (version ++ rest)) extra) in
    let second = take_extras-append extras tail extra refl in
    ground (arith, first, second, take_version-append version rest versioned ended)
  where
    stops_extras : (e tail : Text) → Extras e → stops is_name_char (e ++ (b'=' ∷ tail)) ≡ true
    stops_extras e tail (inl shape) =
        subst (λ y. stops is_name_char (y ++ (b'=' ∷ tail)) ≡ true) (sym shape) refl
    stops_extras e tail (inr (inside, c, shape, inner, close)) =
        subst (λ y. stops is_name_char (y ++ (b'=' ∷ tail)) ≡ true) (sym shape) refl
