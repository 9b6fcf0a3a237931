-- ===== src/Handoff.antt =====
-- reconkg/handoff.py: the commands of a lead. The indices of scripts, modules and exploits are what the
-- caller configured, so they are arguments; `none` is an index that is not there, or a lookup that raises.
pub mod Selected
pub mod Total
pub mod Report
pub mod Printed
mod Tests
use reconkg.Base.{
  ℕ, ◌-◌, ◌<◌, Bool, true, false, ◌||◌, Option, none, some, List, [], ◌∷◌, ◌++◌, if◌then◌else◌, ltb,
  length, take, map,
}
use reconkg.Base.Text.{Text, codes, contains, lower, text_eq, starts_with}
use reconkg.Base.Dict
use reconkg.Base.Dict.{Dict}
use reconkg.Commands.{
  Category, safe, unclassified, intrusive, value, Tag, member, spelled, Command, Result, ok, err,
  ◌>>=◌, coerce_category, make_command,
}
use reconkg.Commands.Validate.{validate_script_name, show_number}
use reconkg.Commands.Resolve.{Declared, absent, bare, many, normalise_categories}
use reconkg.Commands.Build.{
  one, searchsploit_commands, searchsploit_examine_commands, nmap_commands, http_probe_commands,
  nuclei_commands, metasploit_commands,
}
use reconkg.Commands.Policy.{Held, held, assert_no_composed_exploits, filter_commands}
use reconkg.Vulnref.{or_empty}

-- `LedgerRow` of reconkg/vulnref.py, as far as the hand-off reads it; a confidence is a number of 1/10000.
pub record LedgerRow : Type 0 where
  pub target : Text
  pub port : ℕ
  pub service : Text
  pub product : Option Text
  pub version : Option Text
  pub cve_id : Text
  pub maturity : Text
  pub fingerprint_confidence : ℕ
  pub independent_principals : List Text
  pub disputed : Bool

-- An entry of a script index, whose fields a third party fills.
pub record ScriptRow : Type 0 where
  pub name : Text
  pub categories : Declared

pub record ScriptResolver : Type 0 where
  pub scripts_for : (service cve_id : Text) → Option (List ScriptRow)
  pub categories_for : Text → Declared

pub record ModuleRecord : Type 0 where
  pub source : Text
  pub identifier : Text

-- What the caller configured.
pub record Indices : Type 0 where
  pub scripts : Option ScriptResolver
  pub catalog : Option (Text → List ModuleRecord)
  pub exploits : Option (Text → Option (List Text))

abbrev pub max_script_commands : ℕ
max_script_commands = 5

abbrev pub max_exploit_commands : ℕ
max_exploit_commands = 5

pub record Selection : Type 0 where
  pub selected : List Text
  pub categories : Dict Declared

-- `_self_category`.
unfoldable pub self_category : Text → List Text
self_category name = elim (coerce_category (spelled name)) [
  | ok c ↦ value c ∷ []
  | err e ↦ value unclassified ∷ []
]

-- `categories or ()`.
unfoldable pub or_absent : Declared → Declared
or_absent absent = absent
or_absent (bare []) = absent
or_absent (bare (c ∷ s)) = bare (c ∷ s)
or_absent (many tags) = many tags

unfoldable pub or_tokens : List Text → List Text → List Text
or_tokens [] tokens = tokens
or_tokens (t ∷ ts) tokens = t ∷ ts

unfoldable pub declared_of : ScriptResolver → ScriptRow → Text → List Text
declared_of scripts row name =
    or_tokens (normalise_categories (or_absent row.categories))
      (or_tokens (normalise_categories (scripts.categories_for name)) (value unclassified ∷ []))

-- The row's entry, given what the name already has.
unfoldable pub add_new : ScriptResolver → ScriptRow → Selection → Text → Option Declared → Selection
add_new scripts row s name (some d) = s
add_new scripts row s name none = record {
  selected = s.selected ++ name ∷ [];
  categories = Dict.put s.categories name (many (map spelled (declared_of scripts row name)));
}

-- A name that is refused costs its row.
unfoldable pub add_checked : ScriptResolver → ScriptRow → Selection → Result Text → Selection
add_checked scripts row s (err e) = s
add_checked scripts row s (ok name) = add_new scripts row s name (Dict.get s.categories name)

-- One round of the loop of `_nse_selection`.
unfoldable pub add_script : ScriptResolver → ScriptRow → Selection → Selection
add_script scripts row s = add_checked scripts row s (validate_script_name row.name)

unfoldable pub add_scripts : ScriptResolver → List ScriptRow → Selection → Selection
add_scripts scripts [] s = s
add_scripts scripts (row ∷ rows) s = add_scripts scripts rows (add_script scripts row s)

unfoldable pub first_selection : Selection
first_selection = record {
  selected = codes "vuln" ∷ [];
  categories = (codes "vuln", many (map spelled (self_category (codes "vuln")))) ∷ [];
}

unfoldable pub select_found : ScriptResolver → Option (List ScriptRow) → Selection × ℕ
select_found scripts none = (first_selection, 0)
select_found scripts (some found) = (
  add_scripts scripts (take max_script_commands found) first_selection,
  length found - max_script_commands,
)

-- `_nse_selection`.
unfoldable pub nse_selection : LedgerRow → Option ScriptResolver → Selection × ℕ
nse_selection row none = (first_selection, 0)
nse_selection row (some scripts) = select_found scripts (scripts.scripts_for row.service row.cve_id)

unfoldable pub more_scripts : ℕ → Result (List Command)
more_scripts extra =
    if ltb 0 extra
    then one (
        make_command (codes "nmap") (member unclassified) none
          (show_number extra ++ codes " further NSE scripts match this service or CVE")
          (codes "nmap script.db"))
    else ok []

unfoldable pub http_commands : LedgerRow → (service : Text) → Result (List Command)
http_commands row service = do
  probes ←
      http_probe_commands row.target row.port
        (contains (codes "https") service || contains (codes "ssl") service)
  templates ← nuclei_commands row.cve_id row.target
  ok (probes ++ templates)

unfoldable pub web_commands : LedgerRow → Result (List Command)
web_commands row =
    if contains (codes "http") (lower row.service)
    then http_commands row (lower row.service)
    else ok []

-- What is refused is dropped: `except (BoundaryViolation, ValueError)`.
unfoldable pub or_dropped : Result (List Command) → List Command
or_dropped (ok commands) = commands
or_dropped (err e) = []

unfoldable pub is_module : ModuleRecord → Bool
is_module r =
    if text_eq r.source (codes "metasploit")
    then starts_with (codes "exploit/") r.identifier
      || starts_with (codes "auxiliary/") r.identifier
      || starts_with (codes "post/") r.identifier
    else false

unfoldable pub module_commands : LedgerRow → List ModuleRecord → List Command
module_commands row [] = []
module_commands row (r ∷ records) =
    (if is_module r
      then or_dropped (
          metasploit_commands r.identifier row.target (some row.port) (member intrusive)
            (codes "msf-index"))
      else [])
    ++ module_commands row records

unfoldable pub catalog_commands : LedgerRow → Option (Text → List ModuleRecord) → List Command
catalog_commands row none = []
catalog_commands row (some records_for) = module_commands row (records_for row.cve_id)

unfoldable pub examine_all : List Text → List Command
examine_all [] = []
examine_all (id ∷ ids) =
    or_dropped (searchsploit_examine_commands id (codes "exploitdb-corpus")) ++ examine_all ids

unfoldable pub more_exploits : LedgerRow → ℕ → Result (List Command)
more_exploits row extra =
    if ltb 0 extra
    then one (
        make_command (codes "searchsploit") (member safe) none
          (show_number extra ++ (codes " further ExploitDB entries indexed for " ++ row.cve_id))
          (codes "exploitdb-corpus"))
    else ok []

unfoldable pub indexed_exploits : LedgerRow → Option (List Text) → Result (List Command)
indexed_exploits row none = ok []
indexed_exploits row (some records) = do
  more ← more_exploits row (length records - max_exploit_commands)
  ok (examine_all (take max_exploit_commands records) ++ more)

-- `_exploit_commands`.
unfoldable pub exploit_commands :
    LedgerRow → Option (Text → Option (List Text)) → Result (List Command)
exploit_commands row none = ok []
exploit_commands row (some exploits_for) = indexed_exploits row (exploits_for row.cve_id)

-- `build_commands` up to its filter.
unfoldable pub gather_commands : LedgerRow → Indices → Result (List Command)
gather_commands row indices = do
  lookups ← searchsploit_commands row.cve_id (or_empty row.product) (or_empty row.version)
  let (selection, extra) = nse_selection row indices.scripts
  scans ← nmap_commands row.target row.port selection.selected selection.categories
  more ← more_scripts extra
  probes ← web_commands row
  exploits ← exploit_commands row indices.exploits
  ok (
      lookups
      ++ (scans ++ (more ++ (probes ++ (catalog_commands row indices.catalog ++ exploits)))))

unfoldable pub build_commands : LedgerRow → Indices → Option (List Tag) → Result (List Held)
build_commands row indices allowed = do
  out ← gather_commands row indices
  _ ← assert_no_composed_exploits (map held out)
  filter_commands (map held out) allowed
