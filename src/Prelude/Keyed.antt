-- ===== src/Prelude/Keyed.antt =====
-- Lists whose elements have growing keys, as the rows of a table in the order of their ids, and a
-- flag that at most one of them has.
use Prim.Native.Nat.{ℕ, ◌<◌}
use mathlib.Core.Path.{◌≡◌, refl, subst}
use mathlib.Core.Logic.{inl, inr}
use mathlib.Core.Bool.{Bool, true, false, not}
use mathlib.Core.Option.{some}
use mathlib.Core.List.{List, [], ◌∷◌, ◌++◌, map}
use native.Mathlib.Omega.{arith}
use pa_sso_proxy.Prelude.Tests.{◌==◌, ==_iff, Bool-cases}
use pa_sso_proxy.Prelude.Lists.{filter, count, find, All, All-mono, All-append}

module _ {ℓ} {A : Type ℓ} (key : A → ℕ) where
  abbrev pub Increasing : List A → Type ℓ
  Increasing [] = Unit
  Increasing (x ∷ xs) = All (λ y. key x < key y) xs × Increasing xs

  abbrev pub keyed : ℕ → A → Bool
  keyed k x = key x == k

  pub find_key : (xs : List A) (k : ℕ) {x : A} → find (keyed k) xs ≡ some x → key x ≡ k
  find_key [] k e = ground arith
  find_key (y ∷ xs) k {x = x} e = ground (arith, find_key xs k {x = x}, ==_iff (key y) k)

  pub find_unique :
      (xs : List A) (k : ℕ) {x : A}
      → Increasing xs
      → find (keyed k) xs ≡ some x
      → All (λ y. key y ≡ k → y ≡ x) xs
  find_unique [] k o e = tt
  find_unique (y ∷ xs) k {x = x} (hy, o) e = elim (Bool-cases (key y == k)) [
    | inl same ↦ (
      λ i. ground arith,
      All-mono {Q = λ z. key z ≡ k → z ≡ x} (λ z newer i. absurd (ground (arith, ==_iff (key y) k)))
          xs hy,
    )
    | inr other ↦ (λ i. ground arith, find_unique xs k o (ground arith))
  ]

  count_of_newer :
      (y : A) (xs : List A) → All (λ z. key y < key z) xs → count (keyed (key y)) xs ≡ 0
  count_of_newer y [] h = refl
  count_of_newer y (z ∷ xs) (hz, h) = ground (arith, count_of_newer y xs h)

  pub count_unique :
      (xs : List A) (k : ℕ) {x : A}
      → Increasing xs
      → find (keyed k) xs ≡ some x
      → count (keyed k) xs ≡ 1
  count_unique [] k o e = ground arith
  count_unique (y ∷ xs) k {x = x} (hy, o) e = elim (Bool-cases (key y == k)) [
    | inl same ↦ ground (arith, count_of_newer y xs hy, ==_iff (key y) k)
    | inr other ↦ ground (arith, count_unique xs k {x = x} o)
  ]

  All-filter : (P : A → Type 0) (p : A → Bool) (xs : List A) → All P xs → All P (filter p xs)
  All-filter P p [] h = tt
  All-filter P p (x ∷ xs) (hx, h) = ground (arith, All-filter P p xs h)

  pub Increasing-filter : (p : A → Bool) (xs : List A) → Increasing xs → Increasing (filter p xs)
  Increasing-filter p [] o = tt
  Increasing-filter p (x ∷ xs) (hx, o) =
      ground (arith, All-filter (λ y. key x < key y) p xs hx, Increasing-filter p xs o)

  pub Increasing-append :
      (xs : List A) (y : A)
      → Increasing xs
      → All (λ x. key x < key y) xs
      → Increasing (xs ++ y ∷ [])
  Increasing-append [] y o h = (tt, tt)
  Increasing-append (x ∷ xs) y (hx, o) (lt, h) =
      (All-append (λ z. key x < key z) xs (y ∷ []) hx (lt, tt), Increasing-append xs y o h)

  module _ (f : A → A) (same_key : (x : A) → key (f x) ≡ key x) where
    All-map_older :
        (x : A) (xs : List A)
        → All (λ y. key x < key y) xs
        → All (λ y. key (f x) < key y) (map f xs)
    All-map_older x [] h = tt
    All-map_older x (y ∷ xs) (lt, h) = (omega (arith, same_key x, same_key y), All-map_older x xs h)

    pub Increasing-map : (xs : List A) → Increasing xs → Increasing (map f xs)
    Increasing-map [] o = tt
    Increasing-map (x ∷ xs) (hx, o) = (All-map_older x xs hx, Increasing-map xs o)

  -- A delete of the elements with one key, none of which has the flag.
  module _ (flag : A → Bool) (k : ℕ) where
    pub find-filter :
        (xs : List A)
        → All (λ x. key x ≡ k → flag x ≡ false) xs
        → find flag (filter (λ x. not (keyed k x)) xs) ≡ find flag xs
    find-filter [] h = refl
    find-filter (x ∷ xs) (hx, h) = ground (arith, find-filter xs h, ==_iff (key x) k)

    pub count-filter :
        (xs : List A)
        → All (λ x. key x ≡ k → flag x ≡ false) xs
        → count flag (filter (λ x. not (keyed k x)) xs) ≡ count flag xs
    count-filter [] h = refl
    count-filter (x ∷ xs) (hx, h) = ground (arith, count-filter xs h, ==_iff (key x) k)

-- An insert of an element with the flag where no other has it.
module _ {ℓ} {A : Type ℓ} (flag : A → Bool) (x : A) where
  pub find_first-append :
      (xs : List A) → count flag xs ≡ 0 → flag x ≡ true → find flag (xs ++ x ∷ []) ≡ some x
  find_first-append [] z h = ground arith
  find_first-append (y ∷ xs) z h = ground (arith, find_first-append xs)

module _ {ℓ} {A : Type ℓ} (p : A → Bool) where
  pub find_passes : (xs : List A) {x : A} → find p xs ≡ some x → p x ≡ true
  find_passes [] e = ground arith
  find_passes (y ∷ xs) {x = x} e = ground (arith, find_passes xs {x = x})

  pub find-Found : (P : A → Type 0) (xs : List A) {x : A} → All P xs → find p xs ≡ some x → P x
  find-Found P [] h e = ground arith
  find-Found P (y ∷ xs) {x = x} (hy, h) e = elim (Bool-cases (p y)) [
    | inl passed ↦ subst P (ground arith) hy
    | inr failed ↦ find-Found P xs h (ground arith)
  ]
