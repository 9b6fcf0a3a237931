-- ===== src/Handoff/Selected.antt =====
-- reconkg/handoff.py: the names that `_nse_selection` gives, and the lookups on them.
use reconkg.Base.{
  ℕ, zero, suc, ◌-◌, Bool, true, false, ◌||◌, Option, none, some, List, [], ◌∷◌, ◌++◌, map,
  if◌then◌else◌, ltb, is_empty, take, length, All, All-append, ◌≡◌, refl, sym, ◌∙◌, ap, arith,
  Bool-cases, inl, inr,
}
use reconkg.Base.Text.{Text, codes, contains, lower}
use reconkg.Commands.{
  Category, safe, unclassified, intrusive, Tag, member, Command, Result, ok, err, ◌>>=◌,
  make_command,
}
use reconkg.Commands.Validate.{validate_script_name, validate_edb_id, show_number}
use reconkg.Commands.Resolve.{Declared}
use reconkg.Commands.Build.Sound.{IsSound}
use reconkg.Commands.Build.Clean.{Yields, one-Yields, make_command-named, show_number-filled}
use reconkg.Commands.Build.Names.{IsName, validate_script_name-IsName}
use reconkg.Handoff.{
  LedgerRow, ScriptRow, ScriptResolver, Selection, add_new, add_checked, add_script, add_scripts,
  first_selection, select_found, nse_selection, max_script_commands, more_scripts,
}

vuln_name : validate_script_name (codes "vuln") ≡ ok (codes "vuln")
unfolding validate_script_name reconkg.Commands.Validate.full_match
    reconkg.Commands.Validate.script_text reconkg.Commands.Validate.drop_nse reconkg.Base.Text.strip
    reconkg.Base.Text.ends_with lower reconkg.Commands.Validate.is_alnum
    reconkg.Commands.Validate.is_script_char
vuln_name = refl

pub first_selection-IsName : All IsName first_selection.selected
unfolding first_selection
first_selection-IsName = (validate_script_name-IsName (codes "vuln") (codes "vuln") vuln_name, tt)

pub add_new-IsName :
    (scripts : ScriptResolver) (row : ScriptRow) (s : Selection) (name : Text) (o : Option Declared)
    → IsName name
    → All IsName s.selected
    → All IsName (add_new scripts row s name o).selected
unfolding add_new
add_new-IsName scripts row s name (some d) n h = h
add_new-IsName scripts row s name none n h = All-append IsName s.selected (name ∷ []) h (n, tt)

pub add_checked-IsName :
    (scripts : ScriptResolver) (row : ScriptRow) (s : Selection) (r : Result Text)
    → validate_script_name row.name ≡ r
    → All IsName s.selected
    → All IsName (add_checked scripts row s r).selected
unfolding add_checked
add_checked-IsName scripts row s (err e) v h = h
add_checked-IsName scripts row s (ok name) v h =
    add_new-IsName scripts row s name _ (validate_script_name-IsName row.name name v) h

pub add_script-IsName :
    (scripts : ScriptResolver) (row : ScriptRow) (s : Selection)
    → All IsName s.selected
    → All IsName (add_script scripts row s).selected
unfolding add_script
add_script-IsName scripts row s h =
    add_checked-IsName scripts row s (validate_script_name row.name) refl h

pub add_scripts-IsName :
    (scripts : ScriptResolver) (rows : List ScriptRow) (s : Selection)
    → All IsName s.selected
    → All IsName (add_scripts scripts rows s).selected
unfolding add_scripts
add_scripts-IsName scripts [] s h = h
add_scripts-IsName scripts (row ∷ rows) s h =
    add_scripts-IsName scripts rows (add_script scripts row s) (add_script-IsName scripts row s h)

pub select_found-IsName :
    (scripts : ScriptResolver) (found : Option (List ScriptRow))
    → All IsName (select_found scripts found).0.selected
unfolding select_found
select_found-IsName scripts none = first_selection-IsName
select_found-IsName scripts (some found) =
    add_scripts-IsName scripts (take max_script_commands found) first_selection
      first_selection-IsName

pub nse_selection-IsName :
    (row : LedgerRow) (scripts : Option ScriptResolver)
    → All IsName (nse_selection row scripts).0.selected
unfolding nse_selection
nse_selection-IsName row none = first_selection-IsName
nse_selection-IsName row (some scripts) =
    select_found-IsName scripts (scripts.scripts_for row.service row.cve_id)

pub filled-append : (s t : Text) → is_empty s ≡ false → is_empty (s ++ t) ≡ false
filled-append [] t h = cc h
filled-append (c ∷ s) t h = refl

pub more_scripts-Yields : (extra : ℕ) → Yields (All IsSound) (more_scripts extra)
unfolding more_scripts
more_scripts-Yields extra = elim (Bool-cases (ltb 0 extra)) [
  | inl e ↦ rw e (
      one-Yields (make_command _ _ _ _ _) (
        make_command-named _ unclassified _ _
          (filled-append (show_number extra) _ (show_number-filled extra))))
  | inr e ↦ rw e tt
]
