-- ===== src/PipFix/Automatic.antt =====
-- The items that the plan of scripts/security/pip_fix.py merges without a review.
use pa_sso_proxy.Prelude.{
  Among, All-Among, ℕ, ◌≡◌, refl, inl, inr, Bool, true, false, some, List, [], ◌∷◌, All, All-append,
  Bool-cases, arith,
}
use pa_sso_proxy.Unicode.{Text}
use pa_sso_proxy.PipFix.Sorting.{sorted, sorted-All, lt_list}
use pa_sso_proxy.PipFix.Severity.{severity}
use pa_sso_proxy.PipFix.Choice.{
  Answers, File, Status, chosen, pending, unfixable, release_files, upload_time, provenance_repos,
  is_subset, is_too_recent, refuse, compare_repos, check_files, candidates, choose_candidate,
  choose_version,
}
use pa_sso_proxy.PipFix.Chosen.{Chosen, choose_version-Chosen}
use pa_sso_proxy.PipFix.Collected.{Collected, by_target-Collected}
use pa_sso_proxy.PipFix.Reported.{Reported, IsReported, by_target-IsReported}
use pa_sso_proxy.PipFix.Plan.{
  Target, Finding, Entry, Item, Plan, is_manual, by_target, is_severe, item_of, filed, entry_choice,
  plan_entry, plan_entries, sorted_plan, lt_item, empty_plan, build_plan,
}

compare_repos-version :
    (current cand : Text) (old new : List Text)
    → (compare_repos current cand old new).status ≡ chosen
    → (compare_repos current cand old new).version ≡ some cand
unfolding compare_repos refuse
compare_repos-version current cand [] new h = absurd (ground arith)
compare_repos-version current cand (o ∷ os) [] h = absurd (ground arith)
compare_repos-version current cand (o ∷ os) (n ∷ ns) h =
    elim (Bool-cases (is_subset (n ∷ ns) (o ∷ os))) [
      | inl t ↦ ground arith
      | inr f ↦ absurd (ground arith)
    ]

check_files-version :
    (get : Answers) (name current : Text) (now : ℕ) (force : Bool) (cand : Text) (files : List File)
    → (check_files get name current now force cand files).status ≡ chosen
    → (check_files get name current now force cand files).version ≡ some cand
unfolding check_files refuse
check_files-version get name current now force cand [] h = absurd (ground arith)
check_files-version get name current now force cand (f ∷ fs) h =
    let old = provenance_repos get name current (release_files get name current) in
    let new = provenance_repos get name cand (f ∷ fs) in
    elim (Bool-cases (is_too_recent (upload_time (f ∷ fs)) now force)) [
      | inl t ↦ absurd (ground arith)
      | inr young ↦
          let done = compare_repos-version current cand old new (ground arith) in ground arith
    ]

choose_candidate-version :
    (get : Answers) (name current : Text) (now : ℕ) (force : Bool) (cands : List Text)
    → (choose_candidate get name current now force cands).status ≡ chosen
    → (v : Text) × ((choose_candidate get name current now force cands).version ≡ some v)
unfolding choose_candidate refuse
choose_candidate-version get name current now force [] h = absurd (ground arith)
choose_candidate-version get name current now force (cand ∷ cands) h =
    (cand, check_files-version get name current now force cand (release_files get name cand) h)

module _ (targets : List Target) (findings : Text → List Finding) (locks : Text → List Text)
    (now : ℕ) (get : Answers) (force : Bool) where
  abbrev pub entries : List Entry
  entries = by_target targets findings locks []

  -- The item is made of one of the entries that the findings are grouped into, whose severity it
  -- has, and it has the version that choose_version has chosen of the entry's fixing versions, which
  -- are those that pip-audit reports for the package.
  pub record Fixed (i : Item) : Type 0 where
    pub entry : Entry
    pub is_entry : Among entry entries
    pub of_infile : i.infile ≡ entry.infile
    pub of_lock : i.lock ≡ entry.lock
    pub of_package : i.name ≡ entry.name
    pub of_current : i.current ≡ entry.current
    pub of_severity : i.severity ≡ severity entry.ids get
    pub severe : is_severe i.severity ≡ true
    pub fixed_version : Text
    pub has_version : i.version ≡ some fixed_version
    pub version_chosen :
        Chosen get i.name i.current (sorted lt_list entry.fix_versions) now force fixed_version
    pub reported : All (Reported targets findings locks i.infile i.name) entry.fix_versions
    pub collected : All (λ t. All (Collected findings locks entry t) (findings t.lock)) targets

  abbrev pub Automatic : Item → Type 0
  Automatic i = Fixed i × (is_manual i.name ≡ false)

  abbrev pub Reviewed : Item → Type 0
  Reviewed i = Fixed i × (is_manual i.name ≡ true)

  abbrev Sound : Plan → Type 0
  Sound plan = All Automatic plan.auto × All Reviewed plan.manual

  entry-Fixed :
      (e : Entry)
      → Among e entries
      → IsReported targets findings locks e
      → is_severe (severity e.ids get) ≡ true
      → (entry_choice get now force e).status ≡ chosen
      → Fixed (item_of e (severity e.ids get) (entry_choice get now force e))
  unfolding entry_choice item_of choose_version
  entry-Fixed e is_entry reported severe h =
      let fix = sorted lt_list e.fix_versions in
      let (v, has) =
        choose_candidate-version get e.name e.current now force (candidates e.current fix) h in
      record {
        entry = e;
        is_entry = is_entry;
        of_infile = refl;
        of_lock = refl;
        of_package = refl;
        of_current = refl;
        of_severity = refl;
        severe = severe;
        fixed_version = v;
        has_version = has;
        version_chosen = choose_version-Chosen get e.name e.current fix now force v has;
        reported = reported;
        collected = by_target-Collected findings locks targets e is_entry;
      }

  filed-Sound :
      (i : Item) (status : Status) (plan : Plan)
      → (status ≡ chosen → Fixed i)
      → Sound plan
      → Sound (filed i status plan)
  unfolding filed
  filed-Sound i chosen plan fixed (a, m) = elim (Bool-cases (is_manual i.name)) [
    | inl t ↦ rw (filed, t) (a, All-append Reviewed plan.manual (i ∷ []) m ((fixed refl, t), tt))
    | inr f ↦ rw (filed, f) (All-append Automatic plan.auto (i ∷ []) a ((fixed refl, f), tt), m)
  ]
  filed-Sound i pending plan fixed s = s
  filed-Sound i unfixable plan fixed s = s

  plan_entries-Sound :
      (es : List Entry) (plan : Plan)
      → All (λ e. Among e entries) es
      → All (IsReported targets findings locks) es
      → Sound plan
      → Sound (plan_entries get now force es plan)
  unfolding plan_entries plan_entry
  plan_entries-Sound [] plan known reported s = s
  plan_entries-Sound (e ∷ es) plan (known, all_known) (reported, all_reported) s =
      plan_entries-Sound es (plan_entry get now force e plan) all_known all_reported planned
    where
      planned : Sound (plan_entry get now force e plan)
      planned = elim (Bool-cases (is_severe (severity e.ids get))) [
        | inl severe ↦
            rw (plan_entry, severe)
              (filed-Sound (item_of e (severity e.ids get) (entry_choice get now force e))
                (entry_choice get now force e).status plan (entry-Fixed e known reported severe) s)
        | inr mild ↦ rw (plan_entry, mild) s
      ]

-- Every item of the list auto is made of an entry of the findings grouped by infile and package. Its
-- severity is the one of the entry's advisories and HIGH, CRITICAL or UNKNOWN. Its version is the
-- lowest above the current one of the entry's fixing versions, with its age and its publishers as
-- they must be. The fixing versions are exactly those of the findings of pip-audit for that package,
-- in the locks of that infile whose parent does not pin the package. It is no package of SPID or
-- CIE; every item of the list manual is the same for a package of these.
pub build_plan-Automatic :
    (targets : List Target) (findings : Text → List Finding) (locks : Text → List Text) (now : ℕ)
    (get : Answers) (force : Bool)
    → let plan = build_plan targets findings locks now get force in
      All (Automatic targets findings locks now get force) plan.auto
      × All (Reviewed targets findings locks now get force) plan.manual
unfolding build_plan sorted_plan
build_plan-Automatic targets findings locks now get force =
    let es = by_target targets findings locks [] in
    let plan = plan_entries get now force es empty_plan in
    let (a, m) =
      plan_entries-Sound targets findings locks now get force es empty_plan (All-Among es)
        (by_target-IsReported targets findings locks) (tt, tt) in
    (
      sorted-All lt_item (Automatic targets findings locks now get force) plan.auto a,
      sorted-All lt_item (Reviewed targets findings locks now get force) plan.manual m,
    )
