-- ===== src/PipFix/Versions.antt =====
-- version_key of scripts/security/pip_fix.py and the order of its tuples. A text is the list of its
-- code points; the digits of a version are those of ASCII.
use pa_sso_proxy.Prelude.{
  ℕ, zero, suc, ◌+◌, ◌-◌, ◌*◌, ◌≡◌, refl, ◌⊎◌, inl, inr, Bool, true, false, not, ◌&&◌, ◌||◌, Option,
  none, some, List, [], ◌∷◌, ltb, leb, ◌==◌, if◌then◌else◌, arith, length,
}
use pa_sso_proxy.Unicode.{Text}
use pa_sso_proxy.PipFix.Sorting.{lt_list, lt_list_irrefl, lt_list_asym, lt_list_cotrans}

-- `((), v)` for a text without a number in front; else the numbers, 0 for a pre-release, 1 for a
-- release and 2 for the rest, and what follows the numbers.
pub data VersionKey : Type 0 where
  unreadable : Text → VersionKey
  readable : List ℕ → ℕ → Text → VersionKey

unfoldable pub is_decimal : ℕ → Bool
is_decimal c = leb b'0' c && leb c b'9'

-- The digits in front, as a number that is continued, and the rest: `\d*`.
unfoldable pub more_digits : ℕ → Text → ℕ × Text
unfolding is_decimal
more_digits n [] = (n, [])
more_digits n (c ∷ cs) =
    let rest = more_digits (n * 10 + (c - b'0')) cs in if is_decimal c then rest else (n, c ∷ cs)

-- `\d+`
unfoldable pub digits : Text → Option (ℕ × Text)
unfolding is_decimal more_digits
digits [] = none
digits (c ∷ cs) = if is_decimal c then some (more_digits (c - b'0') cs) else none

-- `(?:\.\d+)*`, on as much fuel as the text has characters
unfoldable pub more_numbers : ℕ → Text → List ℕ × Text
unfolding digits
more_numbers zero cs = ([], cs)
more_numbers (suc fuel) [] = ([], [])
more_numbers (suc fuel) (c ∷ cs) =
    if c == b'.'
    then (elim (digits cs) [
      | none ↦ ([], c ∷ cs)
      | some (n, rest) ↦ let (ns, tail) = more_numbers fuel rest in (n ∷ ns, tail)
    ])
    else ([], c ∷ cs)

unfoldable pub padded : ℕ → List ℕ → List ℕ
padded zero ns = ns
padded (suc k) [] = 0 ∷ padded k []
padded (suc k) (n ∷ ns) = n ∷ padded k ns

unfoldable pub starts : Text → Text → Bool
starts [] cs = true
starts (p ∷ ps) [] = false
starts (p ∷ ps) (c ∷ cs) = p == c && starts ps cs

-- `^\.?(dev|a|b|rc)`
unfoldable pub is_pre_release : Text → Bool
unfolding starts
is_pre_release [] = false
is_pre_release (c ∷ cs) =
    let rest = if c == b'.' then cs else c ∷ cs in
    starts (b'd' ∷ b'e' ∷ b'v' ∷ []) rest
    || starts (b'a' ∷ []) rest
    || starts (b'b' ∷ []) rest
    || starts (b'r' ∷ b'c' ∷ []) rest

unfoldable pub release_kind : Text → ℕ
unfolding is_pre_release
release_kind [] = 1
release_kind (c ∷ cs) = if is_pre_release (c ∷ cs) then 0 else 2

unfoldable pub version_key : Text → VersionKey
unfolding digits more_numbers padded release_kind
version_key v = elim (digits v) [
  | none ↦ unreadable v
  | some (n, rest) ↦
      let (ns, tail) = more_numbers (length rest) rest in
      readable (padded 6 (n ∷ ns)) (release_kind tail) tail
]

-- `<` on the tuples, whose numbers are equal if none is smaller; an empty tuple of numbers is the smallest.
unfoldable pub lt_key : VersionKey → VersionKey → Bool
unfolding lt_list
lt_key (unreadable v) (unreadable w) = lt_list v w
lt_key (unreadable v) (readable ns k r) = true
lt_key (readable ns k r) (unreadable w) = false
lt_key (readable ns k r) (readable ns' k' r') =
    lt_list ns ns' || (not (lt_list ns' ns) && (ltb k k' || (k == k' && lt_list r r')))

unfoldable pub lt_version : Text → Text → Bool
unfolding lt_key version_key
lt_version v w = lt_key (version_key v) (version_key w)

pub lt_key_irrefl : (a : VersionKey) → lt_key a a ≡ false
unfolding lt_key
lt_key_irrefl (unreadable v) = lt_list_irrefl v
lt_key_irrefl (readable ns k r) = ground (arith, lt_list_irrefl ns, lt_list_irrefl r)

pub lt_key_asym : (a b : VersionKey) → lt_key a b ≡ true → lt_key b a ≡ false
unfolding lt_key
lt_key_asym (unreadable v) (unreadable w) h = lt_list_asym v w h
lt_key_asym (unreadable v) (readable ns k r) h = refl
lt_key_asym (readable ns k r) (unreadable w) h = absurd (ground arith)
lt_key_asym (readable ns k r) (readable ns' k' r') h =
    ground (arith, lt_list_asym ns ns', lt_list_asym r r')

pub lt_key_cotrans :
    (a b c : VersionKey) → lt_key a c ≡ true → (lt_key a b ≡ true) ⊎ (lt_key b c ≡ true)
unfolding lt_key
lt_key_cotrans (unreadable u) (unreadable v) (unreadable w) h = lt_list_cotrans u v w h
lt_key_cotrans (unreadable u) (unreadable v) (readable ns k r) h = inr refl
lt_key_cotrans (unreadable u) (readable ns k r) c h = inl refl
lt_key_cotrans (readable ns k r) b (unreadable w) h = absurd (ground arith)
lt_key_cotrans (readable ns k r) (unreadable v) (readable ns' k' r') h = inr refl
lt_key_cotrans (readable n k r) (readable n' k' r') (readable n'' k'' r'') h = ground (
  arith,
  lt_list_cotrans n n' n'',
  lt_list_cotrans r r' r'',
  lt_list_cotrans n'' n' n,
  lt_list_cotrans n' n'' n,
  lt_list_cotrans n' n n'',
  lt_list_cotrans n'' n n',
  lt_list_cotrans n n'' n',
  lt_list_asym n n'',
  lt_list_asym n n',
  lt_list_asym n' n'',
)
