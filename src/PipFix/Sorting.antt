-- ===== src/PipFix/Sorting.antt =====
-- Python's sorted with a key and the order of its lists, tuples and texts, as
-- scripts/security/pip_fix.py uses them.
use pa_sso_proxy.Prelude.{
  ℕ, ◌≡◌, refl, subst, ◌⊎◌, inl, inr, Bool, true, false, List, [], ◌∷◌, ltb, if◌then◌else◌, arith,
  count, All, All-mono, Bool-cases,
}

-- `<` on lists of numbers, and so on texts as their code points.
unfoldable pub lt_list : List ℕ → List ℕ → Bool
lt_list [] [] = false
lt_list [] (b ∷ ys) = true
lt_list (a ∷ xs) [] = false
lt_list (a ∷ xs) (b ∷ ys) =
    let rest = lt_list xs ys in if ltb a b then true else if ltb b a then false else rest

pub lt_list_cotrans :
    (a b c : List ℕ) → lt_list a c ≡ true → (lt_list a b ≡ true) ⊎ (lt_list b c ≡ true)
unfolding lt_list
lt_list_cotrans [] [] [] h = absurd (ground arith)
lt_list_cotrans [] [] (z ∷ zs) h = inr refl
lt_list_cotrans [] (y ∷ ys) c h = inl refl
lt_list_cotrans (x ∷ xs) b [] h = absurd (ground arith)
lt_list_cotrans (x ∷ xs) [] (z ∷ zs) h = inr refl
lt_list_cotrans (x ∷ xs) (y ∷ ys) (z ∷ zs) h = ground (arith, lt_list_cotrans xs ys zs)

pub lt_list_irrefl : (a : List ℕ) → lt_list a a ≡ false
unfolding lt_list
lt_list_irrefl [] = refl
lt_list_irrefl (x ∷ xs) = ground (arith, lt_list_irrefl xs)

pub lt_list_asym : (a b : List ℕ) → lt_list a b ≡ true → lt_list b a ≡ false
unfolding lt_list
lt_list_asym [] [] h = absurd (ground arith)
lt_list_asym [] (y ∷ ys) h = refl
lt_list_asym (x ∷ xs) [] h = absurd (ground arith)
lt_list_asym (x ∷ xs) (y ∷ ys) h = ground (arith, lt_list_asym xs ys)

module _ {ℓ} {A : Type ℓ} (lt : A → A → Bool) where
  -- Equal elements keep their order: an element goes in front of those that are not smaller.
  unfoldable pub insert_sorted : A → List A → List A
  insert_sorted x [] = x ∷ []
  insert_sorted x (y ∷ ys) =
      let rest = insert_sorted x ys in if lt y x then y ∷ rest else x ∷ y ∷ ys

  unfoldable pub sorted : List A → List A
  unfolding insert_sorted
  sorted [] = []
  sorted (x ∷ xs) = insert_sorted x (sorted xs)

  insert_sorted-All :
      (P : A → Type 0) (x : A) (xs : List A) → P x → All P xs → All P (insert_sorted x xs)
  unfolding insert_sorted
  insert_sorted-All P x [] h hs = (h, tt)
  insert_sorted-All P x (y ∷ ys) h (hy, hs) = elim (Bool-cases (lt y x)) [
    | inl t ↦ rw (insert_sorted, t) (hy, insert_sorted-All P x ys h hs)
    | inr f ↦ rw (insert_sorted, f) (h, (hy, hs))
  ]

  insert_sorted_covers :
      (P : A → Type 0) (x : A) (xs : List A) → All P (insert_sorted x xs) → P x × All P xs
  unfolding insert_sorted
  insert_sorted_covers P x [] h = h
  insert_sorted_covers P x (y ∷ ys) h = elim (Bool-cases (lt y x)) [
    | inl t ↦
        let h' : All P (y ∷ insert_sorted x ys) = rw (insert_sorted, t) at h in
        let (hx, hs) = insert_sorted_covers P x ys h'.1 in (hx, (h'.0, hs))
    | inr f ↦ rw (insert_sorted, f) at h
  ]

  pub sorted-All : (P : A → Type 0) (xs : List A) → All P xs → All P (sorted xs)
  unfolding sorted
  sorted-All P [] hs = tt
  sorted-All P (x ∷ xs) (h, hs) = insert_sorted-All P x (sorted xs) h (sorted-All P xs hs)

  insert_sorted-count :
      (p : A → Bool) (x : A) (xs : List A) → count p (insert_sorted x xs) ≡ count p (x ∷ xs)
  unfolding insert_sorted
  insert_sorted-count p x [] = refl
  insert_sorted-count p x (y ∷ ys) = ground (arith, insert_sorted-count p x ys)

  pub sorted-count : (p : A → Bool) (xs : List A) → count p (sorted xs) ≡ count p xs
  unfolding sorted
  sorted-count p [] = refl
  sorted-count p (x ∷ xs) = ground (arith, insert_sorted-count p x (sorted xs), sorted-count p xs)

  pub sorted_covers : (P : A → Type 0) (xs : List A) → All P (sorted xs) → All P xs
  unfolding sorted
  sorted_covers P [] h = tt
  sorted_covers P (x ∷ xs) h =
      let (hx, hs) = insert_sorted_covers P x (sorted xs) h in (hx, sorted_covers P xs hs)

  module _ (irrefl : (a : A) → lt a a ≡ false) (asym : (a b : A) → lt a b ≡ true → lt b a ≡ false)
      (cotrans : (a b c : A) → lt a c ≡ true → (lt a b ≡ true) ⊎ (lt b c ≡ true)) where
    not_below : (x y w : A) → lt y x ≡ false → lt w y ≡ false → lt w x ≡ false
    not_below x y w h h' = elim (Bool-cases (lt w x)) [
      | inr f ↦ f
      | inl t ↦ elim (cotrans w y x t) [
        | inl a ↦ absurd (ground arith)
        | inr b ↦ absurd (ground arith)
      ]
    ]

    insert_sorted-least :
        (x : A) (xs : List A) {y : A} {ys : List A}
        → ((z : A) (zs : List A) → xs ≡ z ∷ zs → All (λ w. lt w z ≡ false) xs)
        → insert_sorted x xs ≡ y ∷ ys
        → All (λ w. lt w y ≡ false) (x ∷ xs)
    unfolding insert_sorted
    insert_sorted-least x [] {y = y} least h =
        (subst (λ z. lt x z ≡ false) (ground arith) (irrefl x), tt)
    insert_sorted-least x (z ∷ zs) {y = y} least h = elim (Bool-cases (lt z x)) [
      | inl t ↦
          let same : z ≡ y = ground arith in
          subst (λ v. All (λ w. lt w v ≡ false) (x ∷ z ∷ zs)) same (asym z x t, least z zs refl)
      | inr f ↦
          let same : x ≡ y = ground arith in
          subst (λ v. All (λ w. lt w v ≡ false) (x ∷ z ∷ zs)) same
            (
              irrefl x,
              All-mono {Q = λ w. lt w x ≡ false} (λ w k. not_below x z w f k) (z ∷ zs)
                  (least z zs refl),
            )
    ]

    least_of_sorted :
        (xs : List A) (y : A) (ys : List A)
        → sorted xs ≡ y ∷ ys
        → All (λ w. lt w y ≡ false) (sorted xs)
    unfolding sorted
    least_of_sorted [] y ys h = tt
    least_of_sorted (x ∷ xs) y ys h =
        let (hx, hs) =
          insert_sorted-least x (sorted xs) {y = y} {ys = ys} (λ z zs e. least_of_sorted xs z zs e)
            h in
        insert_sorted-All (λ w. lt w y ≡ false) x (sorted xs) hx hs

    -- The first element of the sorted list is one that no other is smaller than.
    pub sorted-least :
        (xs : List A) (y : A) (ys : List A) → sorted xs ≡ y ∷ ys → All (λ w. lt w y ≡ false) xs
    sorted-least xs y ys h = sorted_covers (λ w. lt w y ≡ false) xs (least_of_sorted xs y ys h)
