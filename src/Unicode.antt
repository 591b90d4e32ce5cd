-- ===== src/Unicode.antt =====
-- The tables of Python's str.isdigit and str.isspace that config-api/app/admin_2fa.py relies on, as
-- ranges of code points (Unicode 16, as in the Python 3.14 of config-api/Dockerfile), and the methods of texts that several files of the repository
-- use. Text that the source walks by character is a list of code points.
use pa_sso_proxy.Prelude.{
  ◌≡◌, refl, ◌↔◌, arith, ℕ, ◌+◌, Bool, true, false, ◌&&◌, ◌||◌, List, [], ◌∷◌, ltb, leb,
  if◌then◌else◌, ◌==◌,
}

abbrev pub Text : Type 0
Text = List ℕ

pub in_ranges : List (ℕ × ℕ) → ℕ → Bool
in_ranges [] c = false
in_ranges ((lo, hi) ∷ ranges) c = (leb lo c && leb c hi) || in_ranges ranges c

digit_ranges : List (ℕ × ℕ)
digit_ranges =
    (48, 57)
    ∷ (178, 179)
    ∷ (185, 185)
    ∷ (1632, 1641)
    ∷ (1776, 1785)
    ∷ (1984, 1993)
    ∷ (2406, 2415)
    ∷ (2534, 2543)
    ∷ (2662, 2671)
    ∷ (2790, 2799)
    ∷ (2918, 2927)
    ∷ (3046, 3055)
    ∷ (3174, 3183)
    ∷ (3302, 3311)
    ∷ (3430, 3439)
    ∷ (3558, 3567)
    ∷ (3664, 3673)
    ∷ (3792, 3801)
    ∷ (3872, 3881)
    ∷ (4160, 4169)
    ∷ (4240, 4249)
    ∷ (4969, 4977)
    ∷ (6112, 6121)
    ∷ (6160, 6169)
    ∷ (6470, 6479)
    ∷ (6608, 6618)
    ∷ (6784, 6793)
    ∷ (6800, 6809)
    ∷ (6992, 7001)
    ∷ (7088, 7097)
    ∷ (7232, 7241)
    ∷ (7248, 7257)
    ∷ (8304, 8304)
    ∷ (8308, 8313)
    ∷ (8320, 8329)
    ∷ (9312, 9320)
    ∷ (9332, 9340)
    ∷ (9352, 9360)
    ∷ (9450, 9450)
    ∷ (9461, 9469)
    ∷ (9471, 9471)
    ∷ (10102, 10110)
    ∷ (10112, 10120)
    ∷ (10122, 10130)
    ∷ (42528, 42537)
    ∷ (43216, 43225)
    ∷ (43264, 43273)
    ∷ (43472, 43481)
    ∷ (43504, 43513)
    ∷ (43600, 43609)
    ∷ (44016, 44025)
    ∷ (65296, 65305)
    ∷ (66720, 66729)
    ∷ (68160, 68163)
    ∷ (68912, 68921)
    ∷ (68928, 68937)
    ∷ (69216, 69224)
    ∷ (69714, 69722)
    ∷ (69734, 69743)
    ∷ (69872, 69881)
    ∷ (69942, 69951)
    ∷ (70096, 70105)
    ∷ (70384, 70393)
    ∷ (70736, 70745)
    ∷ (70864, 70873)
    ∷ (71248, 71257)
    ∷ (71360, 71369)
    ∷ (71376, 71395)
    ∷ (71472, 71481)
    ∷ (71904, 71913)
    ∷ (72016, 72025)
    ∷ (72688, 72697)
    ∷ (72784, 72793)
    ∷ (73040, 73049)
    ∷ (73120, 73129)
    ∷ (73552, 73561)
    ∷ (90416, 90425)
    ∷ (92768, 92777)
    ∷ (92864, 92873)
    ∷ (93008, 93017)
    ∷ (93552, 93561)
    ∷ (118000, 118009)
    ∷ (120782, 120831)
    ∷ (123200, 123209)
    ∷ (123632, 123641)
    ∷ (124144, 124153)
    ∷ (124401, 124410)
    ∷ (125264, 125273)
    ∷ (127232, 127242)
    ∷ (130032, 130041)
    ∷ []

space_ranges : List (ℕ × ℕ)
space_ranges =
    (9, 13)
    ∷ (28, 32)
    ∷ (133, 133)
    ∷ (160, 160)
    ∷ (5760, 5760)
    ∷ (8192, 8202)
    ∷ (8232, 8233)
    ∷ (8239, 8239)
    ∷ (8287, 8287)
    ∷ (12288, 12288)
    ∷ []

-- one character of str.isdigit
unfoldable pub is_digit : ℕ → Bool
unfolding in_ranges digit_ranges
is_digit c = in_ranges digit_ranges c

-- one character that str.split and str.strip treat as white space
unfoldable pub is_space : ℕ → Bool
unfolding in_ranges space_ranges
is_space c = in_ranges space_ranges c

unfoldable pub is_ascii : ℕ → Bool
is_ascii c = ltb c 128

-- str.lower on the ASCII letters
unfoldable pub to_lower : ℕ → ℕ
to_lower c = if leb b'A' c && leb c b'Z' then c + 32 else c

-- == on texts
unfoldable pub text_eq : Text → Text → Bool
text_eq [] [] = true
text_eq (a ∷ s) (b ∷ t) = a == b && text_eq s t
text_eq _ _ = false

pub text_eq_iff : (s t : Text) → (text_eq s t ≡ true) ↔ (s ≡ t)
unfolding text_eq
text_eq_iff [] [] = (λ h. refl, λ h. refl)
text_eq_iff [] (b ∷ t) = (λ h. cc, λ h. cc)
text_eq_iff (a ∷ s) [] = (λ h. cc, λ h. cc)
text_eq_iff (a ∷ s) (b ∷ t) =
    (λ h. ground (arith, text_eq_iff s t), λ h. ground (arith, text_eq_iff s t))

-- The white space in front, which `strip` takes away at both ends.
unfoldable pub strip_front : Text → Text
strip_front [] = []
strip_front (c ∷ cs) = let rest = strip_front cs in if is_space c then rest else c ∷ cs

unfoldable pub strip_back : Text → Text
strip_back [] = []
strip_back (c ∷ cs) = elim (strip_back cs) [
  | [] ↦ if is_space c then [] else c ∷ []
  | d ∷ ds ↦ c ∷ d ∷ ds
]

unfoldable pub strip : Text → Text
unfolding strip_front strip_back
strip t = strip_back (strip_front t)

unfoldable pub add_char : ℕ → List Text → List Text
add_char c [] = (c ∷ []) ∷ []
add_char c (part ∷ parts) = (c ∷ part) ∷ parts

unfoldable pub split : (ℕ → Bool) → Text → List Text
unfolding add_char
split p [] = [] ∷ []
split p (c ∷ cs) = let rest = split p cs in if p c then [] ∷ rest else add_char c rest
