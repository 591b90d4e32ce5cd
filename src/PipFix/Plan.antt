-- ===== src/PipFix/Plan.antt =====
-- build_plan of scripts/security/pip_fix.py: the findings of pip-audit grouped by package, and the
-- four lists of the plan.
use pa_sso_proxy.Prelude.{
  ℕ, Bool, true, not, ◌&&◌, ◌||◌, Option, none, some, List, [], ◌∷◌, ◌++◌, map, leb, if◌then◌else◌,
}
use pa_sso_proxy.Unicode.{Text, text_eq}
use pa_sso_proxy.PipFix.Sorting.{sorted, lt_list}
use pa_sso_proxy.PipFix.Names.{normalize, parse_lock}
use pa_sso_proxy.PipFix.Severity.{severity}
use pa_sso_proxy.PipFix.Choice.{
  Answers, Choice, Status, chosen, pending, unfixable, Reason, is_in, choose_version,
}

-- A lock with hashes, the file it is compiled from, and the lock whose packages are fixed there.
pub record Target : Type 0 where
  pub lock : Text
  pub infile : Text
  pub parent_lock : Option Text

-- One vulnerability of one package, as parse_audit reads it.
pub record Finding : Type 0 where
  pub name : Text
  pub version : Text
  pub id : Text
  pub aliases : List Text
  pub fix_versions : List Text

-- The value of `by_target` under the entry's infile and normalized name.
pub record Entry : Type 0 where
  pub infile : Text
  pub lock : Text
  pub name : Text
  pub current : Text
  pub advisories : List Text
  pub fix_versions : List Text
  pub ids : List Text

pub record Item : Type 0 where
  pub infile : Text
  pub lock : Text
  pub name : Text
  pub current : Text
  pub advisories : List Text
  pub severity : Option ℕ
  pub version : Option Text
  pub reason : Reason

pub record Plan : Type 0 where
  pub auto : List Item
  pub manual : List Item
  pub pending : List Item
  pub unfixable : List Item

-- The packages of SPID and CIE.
abbrev pub manual_names : List Text
manual_names =
    (b'p' ∷ b'y' ∷ b's' ∷ b'a' ∷ b'm' ∷ b'l' ∷ b'2' ∷ [])
    ∷ (b'c' ∷ b'r' ∷ b'y' ∷ b'p' ∷ b't' ∷ b'o' ∷ b'j' ∷ b'w' ∷ b't' ∷ [])
    ∷ (b'c' ∷ b'r' ∷ b'y' ∷ b'p' ∷ b't' ∷ b'o' ∷ b'g' ∷ b'r' ∷ b'a' ∷ b'p' ∷ b'h' ∷ b'y' ∷ [])
    ∷ (b'p' ∷ b'y' ∷ b'e' ∷ b'u' ∷ b'd' ∷ b'i' ∷ b'w' ∷ [])
    ∷ (b's' ∷ b'a' ∷ b't' ∷ b'o' ∷ b's' ∷ b'a' ∷ [])
    ∷ (b'p' ∷ b'y' ∷ b'o' ∷ b'p' ∷ [])
    ∷ []

unfoldable pub is_manual : Text → Bool
unfolding normalize is_in
is_manual name = is_in (normalize name) manual_names

-- `set(xs)` in the order of the first of each
unfoldable pub add_new : Text → List Text → List Text
unfolding is_in
add_new x xs = if is_in x xs then xs else xs ++ x ∷ []

unfoldable pub add_all : List Text → List Text → List Text
unfolding add_new
add_all [] xs = xs
add_all (y ∷ ys) xs = add_all ys (add_new y xs)

unfoldable pub extended : Finding → Entry → Entry
unfolding add_all
extended f e = record e {
  advisories = e.advisories ++ f.id ∷ [];
  fix_versions = add_all f.fix_versions e.fix_versions;
  ids = e.ids ++ f.id ∷ f.aliases;
}

unfoldable pub new_entry : Target → Finding → Entry
new_entry target f = record {
  infile = target.infile;
  lock = target.lock;
  name = f.name;
  current = f.version;
  advisories = [];
  fix_versions = [];
  ids = [];
}

unfoldable pub has_entry_key : Target → Finding → Entry → Bool
unfolding normalize text_eq
has_entry_key target f e =
    text_eq e.infile target.infile && text_eq (normalize e.name) (normalize f.name)

-- `by_target.setdefault(key, …)` and the updates of the entry
unfoldable pub add_finding : Target → Finding → List Entry → List Entry
unfolding extended new_entry has_entry_key
add_finding target f [] = extended f (new_entry target f) ∷ []
add_finding target f (e ∷ es) =
    let rest = add_finding target f es in
    if has_entry_key target f e then extended f e ∷ es else e ∷ rest

-- A finding whose package is in the parent lock is skipped.
unfoldable pub add_findings : Target → List Text → List Finding → List Entry → List Entry
unfolding add_finding is_in normalize
add_findings target parent [] es = es
add_findings target parent (f ∷ fs) es =
    add_findings target parent fs
      (if is_in (normalize f.name) parent then es else add_finding target f es)

unfoldable pub parent_names : (Text → List Text) → Option Text → List Text
unfolding parse_lock
parent_names locks none = []
parent_names locks (some lock) = map (λ pin. pin.0) (parse_lock (locks lock))

unfoldable pub by_target :
    List Target → (Text → List Finding) → (Text → List Text) → List Entry → List Entry
unfolding add_findings parent_names
by_target [] findings locks es = es
by_target (target ∷ targets) findings locks es =
    by_target targets findings locks
      (add_findings target (parent_names locks target.parent_lock) (findings target.lock) es)

-- HIGH, CRITICAL or UNKNOWN
unfoldable pub is_severe : Option ℕ → Bool
is_severe none = true
is_severe (some n) = leb 3 n

unfoldable pub item_of : Entry → Option ℕ → Choice → Item
unfolding sorted add_all lt_list
item_of e sev choice = record {
  infile = e.infile;
  lock = e.lock;
  name = e.name;
  current = e.current;
  advisories = sorted lt_list (add_all e.advisories []);
  severity = sev;
  version = choice.version;
  reason = choice.reason;
}

unfoldable pub filed : Item → Status → Plan → Plan
unfolding is_manual
filed item chosen plan =
    if is_manual item.name
    then record plan { manual = plan.manual ++ item ∷ [] }
    else record plan { auto = plan.auto ++ item ∷ [] }
filed item pending plan = record plan { pending = plan.pending ++ item ∷ [] }
filed item unfixable plan = record plan { unfixable = plan.unfixable ++ item ∷ [] }

unfoldable pub entry_choice : Answers → ℕ → Bool → Entry → Choice
unfolding choose_version sorted lt_list
entry_choice get now force e =
    choose_version get e.name e.current (sorted lt_list e.fix_versions) now force

unfoldable pub plan_entry : Answers → ℕ → Bool → Entry → Plan → Plan
unfolding severity is_severe item_of filed entry_choice
plan_entry get now force e plan =
    let sev = severity e.ids get in
    let choice = entry_choice get now force e in
    if is_severe sev then filed (item_of e sev choice) choice.status plan else plan

unfoldable pub plan_entries : Answers → ℕ → Bool → List Entry → Plan → Plan
unfolding plan_entry
plan_entries get now force [] plan = plan
plan_entries get now force (e ∷ es) plan =
    plan_entries get now force es (plan_entry get now force e plan)

-- `<` on the tuples of infile and normalized name
unfoldable pub lt_item : Item → Item → Bool
unfolding lt_list normalize
lt_item i j =
    lt_list i.infile j.infile
    || (not (lt_list j.infile i.infile) && lt_list (normalize i.name) (normalize j.name))

unfoldable pub sorted_plan : Plan → Plan
unfolding sorted lt_item
sorted_plan plan = record {
  auto = sorted lt_item plan.auto;
  manual = sorted lt_item plan.manual;
  pending = sorted lt_item plan.pending;
  unfixable = sorted lt_item plan.unfixable;
}

abbrev pub empty_plan : Plan
empty_plan = record { auto = []; manual = []; pending = []; unfixable = [] }

unfoldable pub build_plan :
    List Target → (Text → List Finding) → (Text → List Text) → ℕ → Answers → Bool → Plan
unfolding by_target plan_entries sorted_plan
build_plan targets findings locks now get force =
    sorted_plan (plan_entries get now force (by_target targets findings locks []) empty_plan)
