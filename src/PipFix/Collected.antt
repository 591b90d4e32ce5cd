-- ===== src/PipFix/Collected.antt =====
-- The findings that the entries of scripts/security/pip_fix.py's by_target are made of.
use pa_sso_proxy.Prelude.{
  ◌≤◌, ◌≡◌, ◌⊎◌, refl, subst, sym, ◌∙◌, inl, inr, Bool, true, false, ◌||◌, List, [], ◌∷◌, ◌++◌, All,
  All-mono, Among, here, further, Bool-cases, arith, count,
}
use pa_sso_proxy.Unicode.{Text, text_eq_iff}
use pa_sso_proxy.PipFix.Names.{normalize}
use pa_sso_proxy.PipFix.Choice.{is_in}
use pa_sso_proxy.PipFix.Planned.{of_key, by_target-once}
use pa_sso_proxy.PipFix.Plan.{
  Target, Finding, Entry, add_new, add_all, extended, new_entry, has_entry_key, add_finding,
  add_findings, parent_names, by_target,
}

abbrev Listed : List Text → List Text → Type 0
Listed vs xs = All (λ v. is_in v xs ≡ true) vs

is_in-append : (v : Text) (xs ys : List Text) → is_in v (xs ++ ys) ≡ (is_in v xs || is_in v ys)
unfolding is_in
is_in-append v [] ys = refl
is_in-append v (x ∷ xs) ys = ground (arith, is_in-append v xs ys)

add_new-keeps : (v x : Text) (xs : List Text) → is_in v xs ≡ true → is_in v (add_new x xs) ≡ true
unfolding add_new
add_new-keeps v x xs h = ground (arith, is_in-append v xs (x ∷ []))

add_new-has : (x : Text) (xs : List Text) → is_in x (add_new x xs) ≡ true
unfolding add_new is_in
add_new-has x xs = ground (arith, is_in-append x xs (x ∷ []), text_eq_iff x x)

add_all-keeps : (v : Text) (ys xs : List Text) → is_in v xs ≡ true → is_in v (add_all ys xs) ≡ true
unfolding add_all
add_all-keeps v [] xs h = h
add_all-keeps v (y ∷ ys) xs h = add_all-keeps v ys (add_new y xs) (add_new-keeps v y xs h)

add_all-Listed : (ys xs : List Text) → Listed ys (add_all ys xs)
unfolding add_all
add_all-Listed [] xs = tt
add_all-Listed (y ∷ ys) xs =
    (add_all-keeps y ys (add_new y xs) (add_new-has y xs), add_all-Listed ys (add_new y xs))

-- The entry of the finding's key lists the finding's versions.
abbrev Has : Target → Finding → List Entry → Type 0
Has t f es =
    (e : Entry) × Among e es × (has_entry_key t f e ≡ true) × Listed f.fix_versions e.fix_versions

Has-further :
    (t : Target) (f : Finding) (e : Entry) (es : List Entry) → Has t f es → Has t f (e ∷ es)
Has-further t f e es (e', m, k, l) = (e', further m, k, l)

add_finding-Has : (t : Target) (f : Finding) (es : List Entry) → Has t f (add_finding t f es)
unfolding add_finding extended new_entry has_entry_key
add_finding-Has t f [] = (
  extended f (new_entry t f),
  here refl,
  ground (arith, text_eq_iff t.infile t.infile, text_eq_iff (normalize f.name) (normalize f.name)),
  add_all-Listed f.fix_versions [],
)
add_finding-Has t f (e ∷ es) = elim (Bool-cases (has_entry_key t f e)) [
  | inl same ↦
      rw (add_finding, same)
        (extended f e, here refl, same, add_all-Listed f.fix_versions e.fix_versions)
  | inr other ↦
      rw (add_finding, other) (Has-further t f e (add_finding t f es) (add_finding-Has t f es))
]

extended-Listed :
    (g : Finding) (e : Entry) (vs : List Text)
    → Listed vs e.fix_versions
    → Listed vs (extended g e).fix_versions
unfolding extended
extended-Listed g e vs h =
    All-mono {Q = λ v. is_in v (add_all g.fix_versions e.fix_versions) ≡ true}
      (λ v k. add_all-keeps v g.fix_versions e.fix_versions k) vs h

add_finding-keeps :
    (t u : Target) (f g : Finding) (es : List Entry) → Has t f es → Has t f (add_finding u g es)
unfolding add_finding extended has_entry_key
add_finding-keeps t u f g [] (e, m, k, l) = elim m [ ]
add_finding-keeps t u f g (x ∷ xs) (e, here same, k, l) =
    let key : has_entry_key t f x ≡ true = subst (λ y. has_entry_key t f y ≡ true) same k in
    let all : Listed f.fix_versions x.fix_versions =
      subst (λ y. Listed f.fix_versions y.fix_versions) same l in
    elim (Bool-cases (has_entry_key u g x)) [
      | inl taken ↦
          rw (add_finding, taken)
            (extended g x, here refl, key_kept x key, extended-Listed g x f.fix_versions all)
      | inr other ↦ rw (add_finding, other) (x, here refl, key, all)
    ]
  where
    key_kept : (x : Entry) → has_entry_key t f x ≡ true → has_entry_key t f (extended g x) ≡ true
    key_kept x h = h
add_finding-keeps t u f g (x ∷ xs) (e, further m, k, l) = elim (Bool-cases (has_entry_key u g x)) [
  | inl taken ↦ rw (add_finding, taken) (e, further m, k, l)
  | inr other ↦
      rw (add_finding, other)
        (Has-further t f x (add_finding u g xs) (add_finding-keeps t u f g xs (e, m, k, l)))
]

add_findings-keeps :
    (t u : Target) (f : Finding) (parent : List Text) (gs : List Finding) (es : List Entry)
    → Has t f es
    → Has t f (add_findings u parent gs es)
unfolding add_findings
add_findings-keeps t u f parent [] es h = h
add_findings-keeps t u f parent (g ∷ gs) es h =
    elim (Bool-cases (is_in (normalize g.name) parent)) [
      | inl skipped ↦ rw (add_findings, skipped) (add_findings-keeps t u f parent gs es h)
      | inr own ↦
          rw (add_findings, own)
            (add_findings-keeps t u f parent gs (add_finding u g es)
              (add_finding-keeps t u f g es h))
    ]

counted :
    {A : Type 0} (p : A → Bool) (a : A) (xs : List A) → Among a xs → p a ≡ true → 1 ≤ count p xs
counted p a [] m h = elim m [ ]
counted p a (x ∷ xs) (here e) h =
    let px : p x ≡ true = subst (λ y. p y ≡ true) e h in rw px (omega arith)
counted p a (x ∷ xs) (further m) h = omega (arith, counted p a xs m h)

-- At most one element passes the test.
unique :
    {A : Type 0} (p : A → Bool) (a b : A) (xs : List A)
    → count p xs ≤ 1
    → Among a xs
    → Among b xs
    → p a ≡ true
    → p b ≡ true
    → a ≡ b
unique p a b [] h ma mb ha hb = elim ma [ ]
unique p a b (x ∷ xs) h (here ea) (here eb) ha hb = ea ∙ sym eb
unique p a b (x ∷ xs) h (here ea) (further mb) ha hb =
    let px : p x ≡ true = subst (λ y. p y ≡ true) ea ha in
    absurd (omega (arith, rw px at h, counted p b xs mb hb))
unique p a b (x ∷ xs) h (further ma) (here eb) ha hb =
    let px : p x ≡ true = subst (λ y. p y ≡ true) eb hb in
    absurd (omega (arith, rw px at h, counted p a xs ma ha))
unique p a b (x ∷ xs) h (further ma) (further mb) ha hb = unique p a b xs (omega arith) ma mb ha hb

module _ (findings : Text → List Finding) (locks : Text → List Text) where
  by_target-keeps :
      (t : Target) (f : Finding) (us : List Target) (es : List Entry)
      → Has t f es
      → Has t f (by_target us findings locks es)
  unfolding by_target
  by_target-keeps t f [] es h = h
  by_target-keeps t f (u ∷ us) es h =
      by_target-keeps t f us _
        (add_findings-keeps t u f (parent_names locks u.parent_lock) (findings u.lock) es h)

  -- The parent of the finding's lock pins the package.
  abbrev pub Skipped : Target → Finding → Type 0
  Skipped t f = is_in (normalize f.name) (parent_names locks t.parent_lock) ≡ true

  add_findings-Has :
      (t : Target) (fs : List Finding) (es : List Entry)
      → All
          (λ f. Skipped t f ⊎ Has t f (add_findings t (parent_names locks t.parent_lock) fs es))
          fs
  unfolding add_findings
  add_findings-Has t [] es = tt
  add_findings-Has t (f ∷ fs) es =
      let parent = parent_names locks t.parent_lock in
      elim (Bool-cases (is_in (normalize f.name) parent)) [
        | inl skipped ↦
            let same : add_findings t parent fs es ≡ add_findings t parent (f ∷ fs) es =
              rw (add_findings, skipped) refl in
            subst (λ r. All (λ g. Skipped t g ⊎ Has t g r) (f ∷ fs)) same
              (inl skipped, add_findings-Has t fs es)
        | inr own ↦
            let same : add_findings t parent fs (add_finding t f es)
                ≡ add_findings t parent (f ∷ fs) es =
              rw (add_findings, own) refl in
            subst (λ r. All (λ g. Skipped t g ⊎ Has t g r) (f ∷ fs)) same
              (
                inr (
                    add_findings-keeps t t f parent fs (add_finding t f es)
                      (add_finding-Has t f es)),
                add_findings-Has t fs (add_finding t f es),
              )
      ]

  by_target-Has :
      (us : List Target) (es : List Entry)
      → All
          (λ t. All (λ f. Skipped t f ⊎ Has t f (by_target us findings locks es)) (findings t.lock))
          us
  unfolding by_target
  by_target-Has [] es = tt
  by_target-Has (u ∷ us) es =
      let after = add_findings u (parent_names locks u.parent_lock) (findings u.lock) es in
      (
        All-mono {Q = λ f. Skipped u f ⊎ Has u f (by_target us findings locks after)}
            (λ f h. elim h [
              | inl skipped ↦ inl skipped
              | inr has ↦ inr (by_target-keeps u f us after has)
            ])
            (findings u.lock) (add_findings-Has u (findings u.lock) es),
        by_target-Has us after,
      )

  -- The finding is skipped, has another key than the entry, or has all its versions in the entry.
  abbrev pub Collected : Entry → Target → Finding → Type 0
  Collected e t f =
      Skipped t f
      ⊎ (has_entry_key t f e ≡ false)
      ⊎ All (λ v. is_in v e.fix_versions ≡ true) f.fix_versions

  pub by_target-Collected :
      (targets : List Target) (e : Entry)
      → Among e (by_target targets findings locks [])
      → All (λ t. All (Collected e t) (findings t.lock)) targets
  unfolding has_entry_key of_key
  by_target-Collected targets e m =
      let es = by_target targets findings locks [] in
      All-mono {Q = λ t. All (Collected e t) (findings t.lock)}
        (λ t ht.
          All-mono {Q = Collected e t}
            (λ f h. elim h [
              | inl skipped ↦ inl skipped
              | inr (e', m', key, listed) ↦ elim (Bool-cases (has_entry_key t f e)) [
                | inr other ↦ inr (inl other)
                | inl same ↦
                    let once =
                      by_target-once t.infile (normalize f.name) targets findings locks []
                        (omega arith) in
                    let equal : e' ≡ e =
                      unique (of_key t.infile (normalize f.name)) e' e es once m' m key same in
                    inr (inr (subst (λ x. Listed f.fix_versions x.fix_versions) equal listed))
              ]
            ])
            (findings t.lock) ht)
        targets (by_target-Has targets [])
