-- ===== src/Commands/Build.antt =====
-- reconkg/commands.py: the builders, one for each tool.
pub mod Scripts
pub mod Sound
pub mod Metasploit
pub mod Clean
pub mod Names
pub mod Total
use reconkg.Base.{
  ℕ, zero, suc, Bool, true, false, ◌||◌, Option, none, some, List, [], ◌∷◌, ◌++◌, if◌then◌else◌,
  ◌==◌, is_empty, any,
}
use reconkg.Base.Text.{Text, codes, text_eq, lower, strip, join}
use reconkg.Base.Dict
use reconkg.Base.Dict.{Dict}
use reconkg.Commands.{
  Category, safe, version, unclassified, Tag, member, Command, Result, ok, err, boundary_violation,
  ◌>>=◌, never_composed, coerce_category, make_command,
}
use reconkg.Commands.Validate.{
  validate_script_name, validate_module_path, validate_edb_id, feed_argument, show_number,
  split_words,
}
use reconkg.Commands.Resolve.{Declared, absent, script_selection_category}

abbrev pub one : Result Command → Result (List Command)
one r = do c ← r; ok (c ∷ [])

-- `" ".join(p for p in (product, version) if p)`.
unfoldable pub search_term : Text → Text → Text
search_term [] [] = []
search_term [] (v ∷ release) = v ∷ release
search_term (p ∷ product) [] = p ∷ product
search_term (p ∷ product) (v ∷ release) = (p ∷ product) ++ b' ' ∷ v ∷ release

unfoldable pub searchsploit_term : Text → Result (List Command)
searchsploit_term [] = ok []
searchsploit_term (c ∷ term) = one (
    make_command (codes "searchsploit") (member safe)
      (some (codes "searchsploit" ∷ (c ∷ term) ∷ [])) [] (codes "exploitdb-index"))

unfoldable pub searchsploit_commands : (cve_id product release : Text) → Result (List Command)
searchsploit_commands cve_id product release = do
  by_cve ←
      make_command (codes "searchsploit") (member safe)
        (some (codes "searchsploit" ∷ codes "--cve" ∷ feed_argument cve_id 64 ∷ [])) []
        (codes "exploitdb-index")
  by_term ← searchsploit_term (feed_argument (search_term product release) 200)
  ok (by_cve ∷ by_term)

unfoldable pub searchsploit_examine_commands : (edb_id source : Text) → Result (List Command)
searchsploit_examine_commands edb_id source = do
  identifier ← validate_edb_id edb_id
  one (
      make_command (codes "searchsploit") (member safe)
        (some (codes "searchsploit" ∷ codes "-x" ∷ identifier ∷ [])) [] source)

unfoldable pub declared_for : Dict Declared → Text → Declared
declared_for lookup script = elim (Dict.get lookup script) [ none ↦ absent | some d ↦ d ]

-- One script of `nmap_commands`, its name already validated.
unfoldable pub nmap_script : (target : Text) (port : ℕ) (script : Text) → Category → Result Command
nmap_script target port script category =
    if never_composed category
    then make_command (codes "nmap") (member category) none (codes "nmap NSE script " ++ script)
        (codes "nmap script.db")
    else make_command (codes "nmap") (member category)
        (some
          (codes "nmap" ∷ codes "-p" ∷ show_number port ∷ codes "--script" ∷ script ∷ target ∷ []))
        [] (codes "nmap script.db")

unfoldable pub nmap_scripts : Text → ℕ → Dict Declared → List Text → Result (List Command)
nmap_scripts target port lookup [] = ok []
nmap_scripts target port lookup (script ∷ scripts) = do
  name ← validate_script_name script
  category ← script_selection_category name (declared_for lookup name)
  command ← nmap_script target port name category
  others ← nmap_scripts target port lookup scripts
  ok (command ∷ others)

unfoldable pub nmap_commands : Text → ℕ → List Text → Dict Declared → Result (List Command)
nmap_commands target port scripts lookup = do
  detect ←
      make_command (codes "nmap") (member version)
        (some (codes "nmap" ∷ codes "-sV" ∷ codes "-p" ∷ show_number port ∷ target ∷ [])) []
        (codes "nmap")
  others ← nmap_scripts target port lookup scripts
  ok (detect ∷ others)

unfoldable pub probe_certificate : (tls : Bool) (target address : Text) → Result (List Command)
probe_certificate false target address = ok []
probe_certificate true target address = one (
    make_command (codes "openssl") (member safe)
      (some (
        codes "openssl"
        ∷ codes "s_client"
        ∷ codes "-connect"
        ∷ address
        ∷ codes "-servername"
        ∷ target
        ∷ []))
      [] (codes "builtin"))

unfoldable pub http_probe_commands : (target : Text) (port : ℕ) (tls : Bool) → Result (List Command)
http_probe_commands target port tls = do
  let scheme = if tls then codes "https://" else codes "http://"
  let address = target ++ b':' ∷ show_number port
  head ←
      make_command (codes "curl") (member safe)
        (some (
          codes "curl"
          ∷ codes "-sSI"
          ∷ codes "--max-time"
          ∷ codes "10"
          ∷ (scheme ++ (address ++ codes "/"))
          ∷ []))
        [] (codes "builtin")
  certificate ← probe_certificate tls target address
  ok (head ∷ certificate)

unfoldable pub nuclei_commands : (cve_id target : Text) → Result (List Command)
nuclei_commands cve_id target = one (
    make_command (codes "nuclei") (member unclassified)
      (some (codes "nuclei" ∷ codes "-id" ∷ feed_argument cve_id 64 ∷ codes "-u" ∷ target ∷ [])) []
      (codes "nuclei-templates"))

abbrev pub firing_verbs : List Text
firing_verbs =
    codes "run" ∷ codes "exploit" ∷ codes "rerun" ∷ codes "rexploit" ∷ codes "rcheck" ∷ []

unfoldable pub is_separator : ℕ → Bool
is_separator c = c == b';' || c == 13 || c == 10

-- `_STATEMENT_SEPARATORS.split(text)`; `statement` is the part so far.
unfoldable pub split_statements : Text → Text → List Text
split_statements statement [] = statement ∷ []
split_statements statement (c ∷ s) =
    (if is_separator c then statement ∷ [] else [])
    ++ split_statements (if is_separator c then [] else statement ++ c ∷ []) s

unfoldable pub first_or_empty : List Text → Text
first_or_empty [] = []
first_or_empty (w ∷ ws) = w

-- The first word of a statement, in lower case; empty for a blank statement.
unfoldable pub verb_of : Text → Text
unfolding first_or_empty
verb_of statement = lower (first_or_empty (split_words [] (strip statement)))

unfoldable pub is_firing_statement : Text → Bool
is_firing_statement statement = any (text_eq (verb_of statement)) firing_verbs

unfoldable pub fires : Text → Bool
fires step = any is_firing_statement (split_statements [] step)

-- `_refuse_firing_verbs`.
unfoldable pub refuse_firing_verbs : List Text → Result (List Text)
refuse_firing_verbs setup = if any fires setup then err boundary_violation else ok setup

-- `if port:`.
unfoldable pub rport : Option ℕ → List Text
rport none = []
rport (some zero) = []
rport (some (suc n)) = (codes "set RPORT " ++ show_number (suc n)) ∷ []

unfoldable pub setup_steps : (path target : Text) → Option ℕ → List Text
setup_steps path target port =
    (codes "use " ++ path)
    ∷ (codes "set RHOSTS " ++ target)
    ∷ (rport port ++ codes "show options" ∷ [])

unfoldable pub metasploit_named : (name : Text) → Category → Text → Result (List Command)
metasploit_named name category source = one (
    make_command (codes "msfconsole") (member category) none (codes "metasploit module " ++ name)
      source)

unfoldable pub metasploit_composed :
    (name target : Text) → Option ℕ → Category → Text → Result (List Command)
metasploit_composed name target port category source = do
  setup ← refuse_firing_verbs (setup_steps name target port)
  one (
      make_command (codes "msfconsole") (member category)
        (some (codes "msfconsole" ∷ codes "-q" ∷ codes "-x" ∷ join (codes "; ") setup ∷ [])) []
        source)

unfoldable pub metasploit_commands :
    (path target : Text) → Option ℕ → Tag → Text → Result (List Command)
metasploit_commands path target port tag source = do
  category ← coerce_category tag
  name ← validate_module_path path
  if never_composed category
      then metasploit_named name category source
      else metasploit_composed name target port category source
