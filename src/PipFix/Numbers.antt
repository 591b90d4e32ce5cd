-- ===== src/PipFix/Numbers.antt =====
-- The fuel of the numbers of a version in version_key of scripts/security/pip_fix.py.
use pa_sso_proxy.Prelude.{
  ℕ, zero, suc, ◌+◌, ◌-◌, ◌*◌, ◌≤◌, ◌<◌, ◌≡◌, refl, ◌⊎◌, inl, inr, false, none, some, [], ◌∷◌, ◌==◌,
  arith, length, Bool-cases, Option-cases,
}
use pa_sso_proxy.Unicode.{Text}
use pa_sso_proxy.PipFix.Versions.{more_digits, digits, more_numbers}

more_digits_shorter : (n : ℕ) (cs : Text) → length (more_digits n cs).1 ≤ length cs
unfolding more_digits
more_digits_shorter n [] = omega arith
more_digits_shorter n (c ∷ cs) = ground (arith, more_digits_shorter (n * 10 + (c - b'0')) cs)

digits_shorter :
    (cs : Text) (n : ℕ) (rest : Text) → digits cs ≡ some (n, rest) → length rest < length cs
unfolding digits
digits_shorter [] n rest h = absurd (ground arith)
digits_shorter (c ∷ cs) n rest h = ground (arith, more_digits_shorter (c - b'0') cs)

-- Where the repetition of a point and digits ends.
unfoldable pub Ended : Text → Type 0
Ended [] = Unit
Ended (c ∷ cs) = ((c == b'.') ≡ false) ⊎ (digits cs ≡ none)

no_more_numbers : (fuel : ℕ) → more_numbers fuel [] ≡ ([], [])
unfolding more_numbers
no_more_numbers zero = refl
no_more_numbers (suc fuel) = refl

-- With as much fuel as the text has characters, the numbers are those of any more fuel, and after
-- them no point with digits follows.
pub more_numbers_end :
    (fuel more : ℕ) (cs : Text)
    → length cs ≤ fuel
    → (more_numbers (fuel + more) cs ≡ more_numbers fuel cs) × Ended (more_numbers fuel cs).1
unfolding more_numbers Ended
more_numbers_end zero more [] h = (no_more_numbers (0 + more), tt)
more_numbers_end zero more (c ∷ cs) h = absurd (omega arith)
more_numbers_end (suc fuel) more [] h = (no_more_numbers (suc fuel + more), tt)
more_numbers_end (suc fuel) more (c ∷ cs) h =
    let step : suc fuel + more ≡ suc (fuel + more) = omega arith in
    elim (Bool-cases (c == b'.')) [
      | inr f ↦ (rw (step, f) refl, rw f (inl f))
      | inl point ↦ elim (Option-cases (digits cs)) [
        | inl e ↦ (rw (step, point, e) refl, rw (point, e) (inr e))
        | inr (found, e) ↦
            let shorter : length found.1 < length cs = digits_shorter cs found.0 found.1 e in
            let (same, ended) = more_numbers_end fuel more found.1 (omega arith) in
            (rw (step, point, e, same) refl, rw (point, e) ended)
      ]
    ]
