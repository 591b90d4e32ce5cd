-- ===== src/PipFix/Planned.antt =====
-- The items of the plan that build_plan of scripts/security/pip_fix.py makes.
use pa_sso_proxy.Prelude.{
  ℕ, ◌+◌, ◌≤◌, ◌≡◌, ◌⊎◌, refl, subst, inl, inr, Bool, false, ◌&&◌, List, [], ◌∷◌, count,
  count-append, Bool-cases, arith, if◌then◌else◌,
}
use pa_sso_proxy.Unicode.{Text, text_eq, text_eq_iff}
use pa_sso_proxy.PipFix.Sorting.{sorted-count}
use pa_sso_proxy.PipFix.Names.{normalize}
use pa_sso_proxy.PipFix.Severity.{severity}
use pa_sso_proxy.PipFix.Choice.{Answers, Status, chosen, pending, unfixable, is_in}
use pa_sso_proxy.PipFix.Plan.{
  Target, Finding, Entry, Item, Plan, is_manual, extended, new_entry, has_entry_key, add_finding,
  add_findings, parent_names, by_target, is_severe, item_of, filed, entry_choice, plan_entry,
  plan_entries, sorted_plan, lt_item, empty_plan, build_plan,
}

-- The items under one name in one file.
unfoldable pub of_package : Text → Text → Item → Bool
of_package infile name i = text_eq i.infile infile && text_eq (normalize i.name) name

unfoldable pub of_key : Text → Text → Entry → Bool
of_key infile name e = text_eq e.infile infile && text_eq (normalize e.name) name

-- How many items of the plan a package has in a file.
unfoldable pub items_of : Text → Text → Plan → ℕ
items_of infile name plan =
    count (of_package infile name) plan.auto
    + count (of_package infile name) plan.manual
    + count (of_package infile name) plan.pending
    + count (of_package infile name) plan.unfixable

module _ (infile name : Text) where
  filed-items_of :
      (item : Item) (status : Status) (plan : Plan)
      → items_of infile name (filed item status plan)
        ≡ items_of infile name plan + (if of_package infile name item then 1 else 0)
  unfolding filed items_of
  filed-items_of item chosen plan = elim (Bool-cases (is_manual item.name)) [
    | inl t ↦
        rw (filed, t) (omega (arith, count-append (of_package infile name) plan.manual (item ∷ [])))
    | inr f ↦
        rw (filed, f) (omega (arith, count-append (of_package infile name) plan.auto (item ∷ [])))
  ]
  filed-items_of item pending plan =
      omega (arith, count-append (of_package infile name) plan.pending (item ∷ []))
  filed-items_of item unfixable plan =
      omega (arith, count-append (of_package infile name) plan.unfixable (item ∷ []))

  -- A finding adds at most one entry, and only for a key that has none.
  add_finding_counts :
      (target : Target) (f : Finding) (es : List Entry)
      → (count (of_key infile name) (add_finding target f es) ≡ count (of_key infile name) es)
        ⊎ ((count (of_key infile name) es ≡ 0)
            × (count (of_key infile name) (add_finding target f es) ≡ 1)
            × (target.infile ≡ infile)
            × (normalize f.name ≡ name))
  unfolding add_finding extended new_entry has_entry_key of_key
  add_finding_counts target f [] =
      elim (Bool-cases (text_eq target.infile infile && text_eq (normalize f.name) name)) [
        | inr other ↦ inl (ground arith)
        | inl same ↦ inr (
          refl,
          ground arith,
          ground (arith, text_eq_iff target.infile infile),
          ground (arith, text_eq_iff (normalize f.name) name),
        )
      ]
  add_finding_counts target f (e ∷ es) = elim (Bool-cases (has_entry_key target f e)) [
    | inl found ↦ inl (ground arith)
    | inr absent ↦ elim (add_finding_counts target f es) [
      | inl kept ↦ inl (ground arith)
      | inr (zero, one, same_infile, same_name) ↦
          let apart : of_key infile name e ≡ false =
            subst (λ k. of_key k name e ≡ false) same_infile
              (subst (λ n. of_key target.infile n e ≡ false) same_name absent) in
          inr (ground arith, ground arith, same_infile, same_name)
    ]
  ]

  add_finding-once :
      (target : Target) (f : Finding) (es : List Entry)
      → count (of_key infile name) es ≤ 1
      → count (of_key infile name) (add_finding target f es) ≤ 1
  add_finding-once target f es h = elim (add_finding_counts target f es) [
    | inl kept ↦ omega (arith, kept)
    | inr (zero, one, a, b) ↦ omega (arith, one)
  ]

  add_findings-once :
      (target : Target) (parent : List Text) (fs : List Finding) (es : List Entry)
      → count (of_key infile name) es ≤ 1
      → count (of_key infile name) (add_findings target parent fs es) ≤ 1
  unfolding add_findings
  add_findings-once target parent [] es h = h
  add_findings-once target parent (f ∷ fs) es h =
      elim (Bool-cases (is_in (normalize f.name) parent)) [
        | inl skipped ↦ rw (add_findings, skipped) (add_findings-once target parent fs es h)
        | inr own ↦
            rw (add_findings, own)
              (add_findings-once target parent fs (add_finding target f es)
                (add_finding-once target f es h))
      ]

  pub by_target-once :
      (targets : List Target) (findings : Text → List Finding) (locks : Text → List Text)
      (es : List Entry)
      → count (of_key infile name) es ≤ 1
      → count (of_key infile name) (by_target targets findings locks es) ≤ 1
  unfolding by_target
  by_target-once [] findings locks es h = h
  by_target-once (target ∷ targets) findings locks es h =
      by_target-once targets findings locks _ (
        add_findings-once target (parent_names locks target.parent_lock) (findings target.lock) es
          h)

  plan_entry-items_of :
      (get : Answers) (now : ℕ) (force : Bool) (e : Entry) (plan : Plan)
      → items_of infile name (plan_entry get now force e plan)
        ≡ items_of infile name plan
          + (if is_severe (severity e.ids get) && of_key infile name e then 1 else 0)
  unfolding plan_entry item_of of_package of_key
  plan_entry-items_of get now force e plan =
      let choice = entry_choice get now force e in
      let item = item_of e (severity e.ids get) choice in
      elim (Bool-cases (is_severe (severity e.ids get))) [
        | inl severe ↦ rw (plan_entry, severe) (filed-items_of item choice.status plan)
        | inr mild ↦ rw (plan_entry, mild) (omega arith)
      ]

  plan_entries-items_of :
      (get : Answers) (now : ℕ) (force : Bool) (es : List Entry) (plan : Plan)
      → items_of infile name (plan_entries get now force es plan)
        ≡ items_of infile name plan
          + count (λ e. is_severe (severity e.ids get) && of_key infile name e) es
  unfolding plan_entries plan_entry
  plan_entries-items_of get now force [] plan = omega arith
  plan_entries-items_of get now force (e ∷ es) plan = omega (
    arith,
    plan_entry-items_of get now force e plan,
    plan_entries-items_of get now force es (plan_entry get now force e plan),
  )

  sorted_plan-items_of :
      (plan : Plan) → items_of infile name (sorted_plan plan) ≡ items_of infile name plan
  unfolding sorted_plan items_of
  sorted_plan-items_of plan =
      let p = of_package infile name in
      omega (
        arith,
        sorted-count lt_item p plan.auto,
        sorted-count lt_item p plan.manual,
        sorted-count lt_item p plan.pending,
        sorted-count lt_item p plan.unfixable,
      )

-- The findings of a package in a file are grouped into at most one entry, and the items of the plan
-- for the package and the file, over its four lists, are as many as the entries whose severity is
-- HIGH, CRITICAL or UNKNOWN: no severe entry is lost, and none is planned twice.
pub build_plan-items_of :
    (targets : List Target) (findings : Text → List Finding) (locks : Text → List Text) (now : ℕ)
    (get : Answers) (force : Bool) (infile name : Text)
    → (items_of infile name (build_plan targets findings locks now get force)
        ≡ count
            (λ e. is_severe (severity e.ids get) && of_key infile name e)
            (by_target targets findings locks []))
      × (count (of_key infile name) (by_target targets findings locks []) ≤ 1)
unfolding build_plan items_of
build_plan-items_of targets findings locks now get force infile name = (
  omega (
    arith,
    sorted_plan-items_of infile name
        (plan_entries get now force (by_target targets findings locks []) empty_plan),
    plan_entries-items_of infile name get now force (by_target targets findings locks [])
        empty_plan,
  ),
  by_target-once infile name targets findings locks [] (omega arith),
)
