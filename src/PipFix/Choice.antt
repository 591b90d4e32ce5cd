-- ===== src/PipFix/Choice.antt =====
-- choose_version of scripts/security/pip_fix.py, with what it asks PyPI. Times are microseconds.
use pa_sso_proxy.Prelude.{
  ℕ, ◌-◌, Bool, false, not, ◌&&◌, ◌||◌, Option, none, some, List, [], ◌∷◌, ◌++◌, map, ltb,
  if◌then◌else◌, filter, all,
}
use pa_sso_proxy.Unicode.{Text, text_eq, to_lower}
use pa_sso_proxy.PipFix.Sorting.{sorted}
use pa_sso_proxy.PipFix.Versions.{lt_version}

pub record File : Type 0 where
  pub filename : Text
  pub upload_time : Option ℕ

pub record Publisher : Type 0 where
  pub kind : Option Text
  pub repository : Option Text

-- The answers to the GETs, of which a 404 is `none`: the files of a release, the publishers of a
-- file's attestations, and the severity in OSV's entry of a vulnerability.
pub record Answers : Type 0 where
  pub release : Text → Text → Option (List File)
  pub provenance : Text → Text → Text → Option (List (Option Publisher))
  pub vulnerability : Text → Option (Option Text)

pub data Status : Type 0 where
  chosen pending unfixable : Status

pub data Reason : Type 0 where
  no_newer : Reason
  not_on_pypi too_recent no_provenance other_provenance fixed : Text → Reason

pub record Choice : Type 0 where
  pub version : Option Text
  pub status : Status
  pub reason : Reason

abbrev pub min_age : ℕ
min_age = 172800000000

unfoldable pub or_none {ℓ} : {A : Type ℓ} → Option (List A) → List A
or_none none = []
or_none (some xs) = xs

unfoldable pub release_files : Answers → Text → Text → List File
unfolding or_none
release_files get name version = or_none (get.release name version)

unfoldable pub earliest : Option ℕ → Option ℕ → Option ℕ
earliest none t = t
earliest (some s) none = some s
earliest (some s) (some t) = if ltb t s then some t else some s

unfoldable pub upload_time : List File → Option ℕ
unfolding earliest
upload_time [] = none
upload_time (f ∷ fs) = earliest f.upload_time (upload_time fs)

-- `kind:repository`, for a publisher with a repository
unfoldable pub repo_of : Option Publisher → List Text
repo_of none = []
repo_of (some p) = elim p.repository [
  | none ↦ []
  | some [] ↦ []
  | some (c ∷ cs) ↦ (kind_of p.kind ++ b':' ∷ map to_lower (c ∷ cs)) ∷ []
]
  where
    kind_of : Option Text → Text
    kind_of none = b'?' ∷ []
    kind_of (some k) = k

unfoldable pub repos_of : List (Option Publisher) → List Text
unfolding repo_of
repos_of [] = []
repos_of (p ∷ ps) = repo_of p ++ repos_of ps

-- The set as the list of its members.
unfoldable pub provenance_repos : Answers → Text → Text → List File → List Text
unfolding repos_of or_none
provenance_repos get name version [] = []
provenance_repos get name version (f ∷ fs) =
    repos_of (or_none (get.provenance name version f.filename))
    ++ provenance_repos get name version fs

unfoldable pub is_in : Text → List Text → Bool
is_in t [] = false
is_in t (x ∷ xs) = text_eq x t || is_in t xs

-- `small <= big` on sets
unfoldable pub is_subset : List Text → List Text → Bool
unfolding is_in
is_subset small big = all (λ t. is_in t big) small

unfoldable pub refuse : Status → Reason → Choice
refuse status reason = record { version = none; status = status; reason = reason }

-- `published and not force and now - published < MIN_AGE`
unfoldable pub is_too_recent : Option ℕ → ℕ → Bool → Bool
is_too_recent none now force = false
is_too_recent (some published) now force = not force && ltb (now - published) min_age

unfoldable pub compare_repos : Text → Text → List Text → List Text → Choice
unfolding refuse is_subset
compare_repos current cand [] new_repos = refuse unfixable (no_provenance current)
compare_repos current cand (r ∷ rs) [] = refuse unfixable (no_provenance cand)
compare_repos current cand (r ∷ rs) (n ∷ ns) =
    if is_subset (n ∷ ns) (r ∷ rs)
    then record { version = some cand; status = chosen; reason = fixed cand }
    else refuse unfixable (other_provenance cand)

unfoldable pub check_files : Answers → Text → Text → ℕ → Bool → Text → List File → Choice
unfolding refuse is_too_recent upload_time compare_repos provenance_repos release_files
check_files get name current now force cand [] = refuse unfixable (not_on_pypi cand)
check_files get name current now force cand (f ∷ fs) =
    if is_too_recent (upload_time (f ∷ fs)) now force
    then refuse pending (too_recent cand)
    else compare_repos current cand
        (provenance_repos get name current (release_files get name current))
        (provenance_repos get name cand (f ∷ fs))

unfoldable pub candidates : Text → List Text → List Text
unfolding sorted lt_version
candidates current fix_versions =
    sorted lt_version (filter (λ v. lt_version current v) fix_versions)

unfoldable pub choose_candidate : Answers → Text → Text → ℕ → Bool → List Text → Choice
unfolding refuse check_files release_files
choose_candidate get name current now force [] = refuse unfixable no_newer
choose_candidate get name current now force (cand ∷ cands) =
    check_files get name current now force cand (release_files get name cand)

unfoldable pub choose_version : Answers → Text → Text → List Text → ℕ → Bool → Choice
unfolding choose_candidate candidates
choose_version get name current fix_versions now force =
    choose_candidate get name current now force (candidates current fix_versions)
