-- ===== src/Prelude/Dicts.antt =====
-- Python's dicts with text as keys, as lists of their items in the order of insertion.
use mathlib.Core.Path.{◌≡◌, refl}
use mathlib.Core.Bool.{Bool, false, not, ◌||◌}
use mathlib.Core.Option.{Option, none, some}
use mathlib.Core.List.{List, [], ◌∷◌, ◌++◌}
use Prim.Native.String.{String}
use text.Mathlib.Text.{◌==◌ as str_eq}
use native.Mathlib.Omega.{arith}
use pa_sso_proxy.Prelude.Tests.{if◌then◌else◌}

module _ {ℓ} {A : Type ℓ} where
  -- `d.get(key)`
  abbrev pub lookup : String → List (String × A) → Option A
  lookup k [] = none
  lookup k ((j, a) ∷ d) = let rest = lookup k d in if str_eq j k then some a else rest

  abbrev pub or_else : Option A → Option A → Option A
  or_else none b = b
  or_else (some a) b = some a

  pub lookup-append :
      (k : String) (d e : List (String × A)) → lookup k (d ++ e) ≡ or_else (lookup k d) (lookup k e)
  lookup-append k [] e = refl
  lookup-append k ((j, a) ∷ d) e = ground (arith, lookup-append k d e)

-- `key in list`
abbrev pub member : String → List String → Bool
member k [] = false
member k (x ∷ xs) = str_eq x k || member k xs

-- The truth value of a text or None.
abbrev pub is_text : Option String → Bool
is_text none = false
is_text (some s) = not (str_eq s "")
