-- ===== src/PipFix/Chosen.antt =====
-- What choose_version of scripts/security/pip_fix.py chooses.
use pa_sso_proxy.Prelude.{
  ℕ, ◌≡◌, ◌≢◌, refl, subst, inl, inr, Bool, true, false, ◌&&◌, some, List, [], ◌∷◌, filter, All,
  All-mono, Bool-cases, arith,
}
use pa_sso_proxy.Unicode.{Text, text_eq_iff}
use pa_sso_proxy.PipFix.Sorting.{sorted-All, sorted-least}
use pa_sso_proxy.PipFix.Versions.{
  version_key, lt_version, lt_key_irrefl, lt_key_asym, lt_key_cotrans,
}
use pa_sso_proxy.PipFix.Choice.{
  Answers, File, release_files, upload_time, provenance_repos, is_in, is_subset, is_too_recent,
  refuse, compare_repos, check_files, candidates, choose_candidate, choose_version,
}

-- The version is the lowest of the fixing versions above the current one, it is on PyPI, old
-- enough or forced, and all its publishers are among those of the current version.
pub record Chosen (get : Answers) (name current : Text) (fix_versions : List Text) (now : ℕ)
    (force : Bool) (v : Text) : Type 0 where
  pub listed : is_in v fix_versions ≡ true
  pub newer : lt_version current v ≡ true
  pub lowest : All (λ w. (lt_version current w && lt_version w v) ≡ false) fix_versions
  pub published : release_files get name v ≢ []
  pub old_enough : is_too_recent (upload_time (release_files get name v)) now force ≡ false
  pub current_attested : provenance_repos get name current (release_files get name current) ≢ []
  pub attested : provenance_repos get name v (release_files get name v) ≢ []
  pub same_origin :
      is_subset
        (provenance_repos get name v (release_files get name v))
        (provenance_repos get name current (release_files get name current))
      ≡ true

pub is_in-All : (xs : List Text) → All (λ v. is_in v xs ≡ true) xs
unfolding is_in
is_in-All [] = tt
is_in-All (x ∷ xs) = (
  ground (arith, text_eq_iff x x),
  All-mono {Q = λ v. is_in v (x ∷ xs) ≡ true} (λ v h. ground arith) xs (is_in-All xs),
)

All-filter_test :
    (p : Text → Bool) (P : Text → Type 0) (xs : List Text)
    → All P xs
    → All (λ v. P v × (p v ≡ true)) (filter p xs)
All-filter_test p P [] h = tt
All-filter_test p P (x ∷ xs) (hx, h) = elim (Bool-cases (p x)) [
  | inl t ↦ rw t ((hx, t), All-filter_test p P xs h)
  | inr f ↦ rw f (All-filter_test p P xs h)
]

-- What holds of the elements that pass a test, said of all elements.
All-of_filter :
    (p q : Text → Bool) (xs : List Text)
    → All (λ v. q v ≡ false) (filter p xs)
    → All (λ v. (p v && q v) ≡ false) xs
All-of_filter p q [] h = tt
All-of_filter p q (x ∷ xs) h = elim (Bool-cases (p x)) [
  | inl t ↦
      let (hx, hs) : (q x ≡ false) × All (λ v. q v ≡ false) (filter p xs) = rw t at h in
      (ground arith, All-of_filter p q xs hs)
  | inr f ↦
      let hs : All (λ v. q v ≡ false) (filter p xs) = rw f at h in
      (ground arith, All-of_filter p q xs hs)
]

candidates-first :
    (current : Text) (fix_versions : List Text) (cand : Text) (cands : List Text)
    → candidates current fix_versions ≡ cand ∷ cands
    → (is_in cand fix_versions ≡ true)
      × (lt_version current cand ≡ true)
      × All (λ w. (lt_version current w && lt_version w cand) ≡ false) fix_versions
unfolding candidates lt_version
candidates-first current fix cand cands h =
    let newer : Text → Bool = λ v. lt_version current v in
    let Candidate : Text → Type 0 = λ v. (is_in v fix ≡ true) × (newer v ≡ true) in
    let listed : All Candidate (filter newer fix) =
      All-filter_test newer (λ v. is_in v fix ≡ true) fix (is_in-All fix) in
    let all_sorted : All Candidate (cand ∷ cands) =
      subst (All Candidate) h (sorted-All lt_version Candidate (filter newer fix) listed) in
    let least =
      sorted-least lt_version (λ a. lt_key_irrefl (version_key a))
        (λ a b. lt_key_asym (version_key a) (version_key b))
        (λ a b c. lt_key_cotrans (version_key a) (version_key b) (version_key c)) (filter newer fix)
        cand cands h in
    (all_sorted.0.0, all_sorted.0.1, All-of_filter newer (λ w. lt_version w cand) fix least)

compare_repos-chosen :
    (current cand : Text) (old new : List Text) {v : Text}
    → (compare_repos current cand old new).version ≡ some v
    → (cand ≡ v) × (old ≢ []) × (new ≢ []) × (is_subset new old ≡ true)
unfolding compare_repos refuse
compare_repos-chosen current cand [] new h = absurd (ground arith)
compare_repos-chosen current cand (o ∷ os) [] h = absurd (ground arith)
compare_repos-chosen current cand (o ∷ os) (n ∷ ns) h =
    elim (Bool-cases (is_subset (n ∷ ns) (o ∷ os))) [
      | inl t ↦ (ground arith, λ e. ground arith, λ e. ground arith, t)
      | inr f ↦ absurd (ground arith)
    ]

check_files-chosen :
    (get : Answers) (name current : Text) (now : ℕ) (force : Bool) (cand : Text) (files : List File)
    {v : Text}
    → (check_files get name current now force cand files).version ≡ some v
    → (cand ≡ v)
      × (files ≢ [])
      × (is_too_recent (upload_time files) now force ≡ false)
      × (provenance_repos get name current (release_files get name current) ≢ [])
      × (provenance_repos get name cand files ≢ [])
      × (is_subset
            (provenance_repos get name cand files)
            (provenance_repos get name current (release_files get name current))
          ≡ true)
unfolding check_files refuse
check_files-chosen get name current now force cand [] h = absurd (ground arith)
check_files-chosen get name current now force cand (f ∷ fs) {v = v} h =
    elim (Bool-cases (is_too_recent (upload_time (f ∷ fs)) now force)) [
      | inl t ↦ absurd (ground arith)
      | inr young ↦
          let (same, old, new, sub) =
            compare_repos-chosen current cand
              (provenance_repos get name current (release_files get name current))
              (provenance_repos get name cand (f ∷ fs)) {v = v} (ground arith) in
          (same, λ e. ground arith, young, old, new, sub)
    ]

-- A version is chosen only if it is listed as fixing, newer than the current one, and no listed
-- version lies between; it is on PyPI, at least 48 hours old unless the age is skipped or unknown,
-- and has a publisher, as has the current version, and none that the current version has not.
pub choose_version-Chosen :
    (get : Answers) (name current : Text) (fix_versions : List Text) (now : ℕ) (force : Bool)
    (v : Text)
    → (choose_version get name current fix_versions now force).version ≡ some v
    → Chosen get name current fix_versions now force v
unfolding choose_version choose_candidate refuse
choose_version-Chosen get name current fix now force v h =
    from_candidates (candidates current fix) refl h
  where
    from_candidates :
        (cs : List Text)
        → candidates current fix ≡ cs
        → (choose_candidate get name current now force cs).version ≡ some v
        → Chosen get name current fix now force v
    from_candidates [] e h' = absurd (ground arith)
    from_candidates (cand ∷ cands) e h' =
        let (listed, newer, lowest) = candidates-first current fix cand cands e in
        let (same, published, young, old, new, sub) =
          check_files-chosen get name current now force cand (release_files get name cand) {v = v}
            h' in
        subst (Chosen get name current fix now force) same (record {
          listed = listed;
          newer = newer;
          lowest = lowest;
          published = published;
          old_enough = young;
          current_attested = old;
          attested = new;
          same_origin = sub;
        })
