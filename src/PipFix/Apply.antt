-- ===== src/PipFix/Apply.antt =====
-- cmd_apply of scripts/security/pip_fix.py: the files of requirements after a group of the plan.
use pa_sso_proxy.Prelude.{none, some, List, [], ◌∷◌, if◌then◌else◌}
use pa_sso_proxy.Unicode.{Text, text_eq}
use pa_sso_proxy.PipFix.Edit.{edit_infile}
use pa_sso_proxy.PipFix.Plan.{Item}

abbrev pub Files : Type 0
Files = Text → List Text

unfoldable pub write_text : Text → List Text → Files → Files
write_text path lines files p = if text_eq path p then lines else files p

unfoldable pub apply_item : Item → Files → Files
unfolding edit_infile write_text
apply_item item files = elim item.version [
  | none ↦ files
  | some version ↦
      write_text item.infile (edit_infile (files item.infile) item.name version item.advisories)
        files
]

unfoldable pub apply_items : List Item → Files → Files
unfolding apply_item
apply_items [] files = files
apply_items (item ∷ items) files = apply_items items (apply_item item files)
