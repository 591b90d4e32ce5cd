-- ===== src/PipFix/Tests.antt =====
-- Runs of scripts/security/pip_fix.py, and the theorems at concrete inputs.
use pa_sso_proxy.Prelude.{
  length, ◌+◌, arith, ◌≡◌, ◌≤◌, refl, true, false, ◌&&◌, none, some, List, [], ◌∷◌, count, All,
}
use pa_sso_proxy.Unicode.{Text, text_eq, is_space, to_lower}
use pa_sso_proxy.PipFix.Codes.{codes}
use pa_sso_proxy.PipFix.Sorting.{sorted, insert_sorted, lt_list}
use pa_sso_proxy.PipFix.Versions.{
  lt_version, lt_key, version_key, digits, more_numbers, more_digits, padded, release_kind,
  is_decimal, is_pre_release, starts,
}
use pa_sso_proxy.PipFix.Numbers.{Ended, more_numbers_end}
use pa_sso_proxy.PipFix.Names.{
  normalize, squeeze, is_separator, is_alphanumeric, is_name_char, is_version_char,
}
use pa_sso_proxy.PipFix.Severity.{severity}
use pa_sso_proxy.PipFix.Choice.{
  Answers, choose_version, choose_candidate, candidates, check_files, compare_repos, release_files,
  upload_time, earliest, provenance_repos, repos_of, repo_of, or_none, is_too_recent, is_subset,
  is_in,
}
use pa_sso_proxy.PipFix.Chosen.{Chosen, choose_version-Chosen}
use pa_sso_proxy.PipFix.Plan.{
  Target, Finding, by_target, is_severe, build_plan, add_findings, add_finding, extended, new_entry,
  add_all, add_new, parent_names, plan_entries, plan_entry, entry_choice, item_of, filed, is_manual,
  sorted_plan, has_entry_key,
}
use pa_sso_proxy.PipFix.Planned.{items_of, of_key, build_plan-items_of}
use pa_sso_proxy.PipFix.Automatic.{Automatic, Reviewed, build_plan-Automatic}
use pa_sso_proxy.PipFix.Pins.{is_name, is_version}
use pa_sso_proxy.PipFix.Edit.{edit_infile}
use pa_sso_proxy.PipFix.Edited.{Edited, edit_infile-Edited}

abbrev one_two : Text
one_two = b'1' ∷ b'.' ∷ b'2' ∷ []

abbrev one_ten : Text
one_ten = b'1' ∷ b'.' ∷ b'1' ∷ b'0' ∷ []

abbrev one_ten_candidate : Text
one_ten_candidate = b'1' ∷ b'.' ∷ b'1' ∷ b'0' ∷ b'r' ∷ b'c' ∷ b'1' ∷ []

-- A pre-release comes before its release, and 1.2 before both.
ordered :
    (lt_version one_two one_ten ≡ true)
    × (lt_version one_ten_candidate one_ten ≡ true)
    × (lt_version one_two one_ten_candidate ≡ true)
unfolding lt_version lt_key version_key digits more_numbers more_digits padded release_kind
    is_decimal is_pre_release starts lt_list
ordered = (refl, refl, refl)

abbrev tool : Text
tool = b'P' ∷ b'_' ∷ b'k' ∷ []

normalized : normalize (b'P' ∷ b'_' ∷ b'.' ∷ b'k' ∷ []) ≡ (b'p' ∷ b'-' ∷ b'k' ∷ [])
unfolding normalize squeeze is_separator to_lower
normalized = refl

abbrev answers : Answers
answers = record {
  release = λ name version. some (record { filename = b'f' ∷ []; upload_time = some 1000 } ∷ []);
  provenance = λ name version filename.
      some (some (record { kind = none; repository = some (b'R' ∷ []) }) ∷ []);
  vulnerability = λ id. none;
}

choice_made :
    (choose_version answers tool one_two
      (one_ten ∷ one_two ∷ one_ten_candidate ∷ [])
      200000000000
      false).version
    ≡ some one_ten_candidate
unfolding choose_version choose_candidate candidates check_files compare_repos release_files
    upload_time earliest provenance_repos repos_of repo_of or_none is_too_recent is_subset is_in
    lt_version lt_key version_key digits more_numbers more_digits padded release_kind is_decimal
    is_pre_release starts lt_list sorted insert_sorted to_lower text_eq
choice_made = refl

choose_version-Chosen_example :
    Chosen answers tool one_two
      (one_ten ∷ one_two ∷ one_ten_candidate ∷ [])
      200000000000
      false
      one_ten_candidate
choose_version-Chosen_example =
    choose_version-Chosen answers tool one_two (one_ten ∷ one_two ∷ one_ten_candidate ∷ [])
      200000000000 false one_ten_candidate choice_made

abbrev target : Target
target = record { lock = b'l' ∷ []; infile = b'i' ∷ []; parent_lock = none }

abbrev findings : Text → List Finding
findings lock =
    record {
      name = tool;
      version = one_two;
      id = b'v' ∷ [];
      aliases = [];
      fix_versions = one_ten ∷ [];
    }
    ∷ []

abbrev no_locks : Text → List Text
no_locks lock = []

build_plan-items_of_example :
    (items_of
        (b'i' ∷ [])
        (normalize tool)
        (build_plan (target ∷ []) findings no_locks 200000000000 answers false)
      ≡ count
          (λ e. is_severe (severity e.ids answers) && of_key (b'i' ∷ []) (normalize tool) e)
          (by_target (target ∷ []) findings no_locks []))
    × (count (of_key (b'i' ∷ []) (normalize tool)) (by_target (target ∷ []) findings no_locks [])
        ≤ 1)
build_plan-items_of_example =
    build_plan-items_of (target ∷ []) findings no_locks 200000000000 answers false (b'i' ∷ [])
      (normalize tool)

one_is_automatic :
    length (build_plan (target ∷ []) findings no_locks 200000000000 answers false).auto ≡ 1
unfolding build_plan by_target add_findings add_finding extended new_entry add_all add_new is_in
    parent_names plan_entries plan_entry entry_choice is_severe severity item_of filed is_manual
    sorted_plan sorted insert_sorted normalize squeeze is_separator to_lower text_eq has_entry_key
    lt_list choose_version choose_candidate candidates check_files compare_repos release_files
    upload_time earliest provenance_repos repos_of repo_of or_none is_too_recent is_subset
    lt_version lt_key version_key digits more_numbers more_digits padded release_kind is_decimal
    is_pre_release starts
one_is_automatic = refl

build_plan-Automatic_example :
    let plan = build_plan (target ∷ []) findings no_locks 200000000000 answers false in
    All (Automatic (target ∷ []) findings no_locks 200000000000 answers false) plan.auto
    × All (Reviewed (target ∷ []) findings no_locks 200000000000 answers false) plan.manual
build_plan-Automatic_example =
    build_plan-Automatic (target ∷ []) findings no_locks 200000000000 answers false

tool_named : is_name tool ≡ true
unfolding is_name is_alphanumeric is_name_char is_separator
tool_named = refl

version_readable : is_version one_ten ≡ true
unfolding is_version is_version_char is_space
version_readable = refl

edit_infile-Edited_example :
    Edited (codes "pk>=1\n" ∷ codes "p-k==1.2  # why\n" ∷ []) tool one_ten (
      edit_infile
        (codes "pk>=1\n" ∷ codes "p-k==1.2  # why\n" ∷ [])
        tool
        one_ten
        ((b'v' ∷ []) ∷ []))
edit_infile-Edited_example =
    edit_infile-Edited (codes "pk>=1\n" ∷ codes "p-k==1.2  # why\n" ∷ []) tool one_ten
      ((b'v' ∷ []) ∷ []) tool_named version_readable

more_numbers_end_example :
    (more_numbers (6 + 3) (codes ".12.3a") ≡ more_numbers 6 (codes ".12.3a"))
    × Ended (more_numbers 6 (codes ".12.3a")).1
unfolding codes
more_numbers_end_example = more_numbers_end 6 3 (codes ".12.3a") (omega arith)
