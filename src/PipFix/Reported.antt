-- ===== src/PipFix/Reported.antt =====
-- The versions that the entries of scripts/security/pip_fix.py's by_target collect.
use pa_sso_proxy.Prelude.{
  ◌≡◌, refl, inl, inr, true, false, List, [], ◌∷◌, All, All-mono, All-append, Among, All-Among,
  Bool-cases, arith,
}
use pa_sso_proxy.Unicode.{Text, text_eq_iff}
use pa_sso_proxy.PipFix.Names.{normalize}
use pa_sso_proxy.PipFix.Choice.{is_in}
use pa_sso_proxy.PipFix.Chosen.{is_in-All}
use pa_sso_proxy.PipFix.Plan.{
  Target, Finding, Entry, add_new, add_all, extended, new_entry, has_entry_key, add_finding,
  add_findings, parent_names, by_target,
}

module _ (targets : List Target) (findings : Text → List Finding) (locks : Text → List Text) where
  -- pip-audit reports for a target with that infile that `v` fixes a vulnerability of the package,
  -- which the target's parent does not pin.
  pub record Reported (infile name v : Text) : Type 0 where
    pub target : Target
    pub is_target : Among target targets
    pub of_infile : target.infile ≡ infile
    pub finding : Finding
    pub is_finding : Among finding (findings target.lock)
    pub of_package : normalize finding.name ≡ normalize name
    pub not_in_parent :
        is_in (normalize finding.name) (parent_names locks target.parent_lock) ≡ false
    pub fixes : is_in v finding.fix_versions ≡ true

  abbrev pub IsReported : Entry → Type 0
  IsReported e = All (Reported e.infile e.name) e.fix_versions

  add_new-All :
      (P : Text → Type 0) (x : Text) (xs : List Text) → P x → All P xs → All P (add_new x xs)
  unfolding add_new
  add_new-All P x xs h hs = elim (Bool-cases (is_in x xs)) [
    | inl old ↦ rw (add_new, old) hs
    | inr new ↦ rw (add_new, new) (All-append P xs (x ∷ []) hs (h, tt))
  ]

  add_all-All :
      (P : Text → Type 0) (ys xs : List Text) → All P ys → All P xs → All P (add_all ys xs)
  unfolding add_all
  add_all-All P [] xs hy hx = hx
  add_all-All P (y ∷ ys) xs (h, hy) hx =
      add_all-All P ys (add_new y xs) hy (add_new-All P y xs h hx)

  -- A finding that is not skipped.
  module _ (target : Target) (is_target : Among target targets) (f : Finding)
      (is_finding : Among f (findings target.lock))
      (not_in_parent : is_in (normalize f.name) (parent_names locks target.parent_lock)
        ≡ false) where
    extended-IsReported :
        (e : Entry)
        → target.infile ≡ e.infile
        → normalize f.name ≡ normalize e.name
        → IsReported e
        → IsReported (extended f e)
    unfolding extended
    extended-IsReported e same_infile same_name h =
        add_all-All (Reported e.infile e.name) f.fix_versions e.fix_versions
          (All-mono {Q = Reported e.infile e.name}
            (λ v fixes. record {
              target = target;
              is_target = is_target;
              of_infile = same_infile;
              finding = f;
              is_finding = is_finding;
              of_package = same_name;
              not_in_parent = not_in_parent;
              fixes = fixes;
            })
            f.fix_versions (is_in-All f.fix_versions))
          h

    add_finding-IsReported :
        (es : List Entry) → All IsReported es → All IsReported (add_finding target f es)
    unfolding add_finding new_entry has_entry_key
    add_finding-IsReported [] h = (extended-IsReported (new_entry target f) refl refl tt, tt)
    add_finding-IsReported (e ∷ es) (he, hes) = elim (Bool-cases (has_entry_key target f e)) [
      | inl same ↦
          rw (add_finding, same)
            (
              extended-IsReported e (ground (arith, text_eq_iff e.infile target.infile))
                  (ground (arith, text_eq_iff (normalize e.name) (normalize f.name))) he,
              hes,
            )
      | inr other ↦ rw (add_finding, other) (he, add_finding-IsReported es hes)
    ]

  add_findings-IsReported :
      (target : Target)
      → Among target targets
      → (fs : List Finding) → All (λ f. Among f (findings target.lock)) fs
      → (es : List Entry) → All IsReported es
      → All IsReported (add_findings target (parent_names locks target.parent_lock) fs es)
  unfolding add_findings
  add_findings-IsReported target t [] hf es h = h
  add_findings-IsReported target t (f ∷ fs) (hf, hfs) es h =
      let parent = parent_names locks target.parent_lock in
      elim (Bool-cases (is_in (normalize f.name) parent)) [
        | inl skipped ↦ rw (add_findings, skipped) (add_findings-IsReported target t fs hfs es h)
        | inr kept ↦
            rw (add_findings, kept)
              (add_findings-IsReported target t fs hfs (add_finding target f es)
                (add_finding-IsReported target t f hf kept es h))
      ]

  by_target_from :
      (ts : List Target)
      → All (λ t. Among t targets) ts
      → (es : List Entry) → All IsReported es
      → All IsReported (by_target ts findings locks es)
  unfolding by_target
  by_target_from [] ht es h = h
  by_target_from (t ∷ ts) (ht, hts) es h =
      by_target_from ts hts (add_findings t (parent_names locks t.parent_lock) (findings t.lock) es)
        (add_findings-IsReported t ht (findings t.lock) (All-Among (findings t.lock)) es h)

  pub by_target-IsReported : All IsReported (by_target targets findings locks [])
  by_target-IsReported = by_target_from targets (All-Among targets) [] tt
