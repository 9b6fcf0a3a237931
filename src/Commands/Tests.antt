-- ===== src/Commands/Tests.antt =====
-- Runs of reconkg/commands.py.
use reconkg.Base.{Bool, ◌||◌, any, map, All, none, some, List, [], ◌∷◌, ◌≡◌, ◌↔◌, refl}
use reconkg.Base.Text.{ends_with, Text, codes, lower, strip, join, text_eq, replace}
use reconkg.Commands.Validate
use reconkg.Commands.Build
use reconkg.Commands.Resolve
use reconkg.Base.Dict.{Dict}
use reconkg.Commands.{
  Category, safe, exploit, brute, vuln, version, Tag, member, spelled, Command, Result, ok, err,
  never_composed, default_category, coerce_category, make_command, clean_optional, clean_argv,
  checked, category_of,
}
use reconkg.Commands.Validate.{script_text}
use reconkg.Commands.Resolve.{
  Declared, many, normalise_categories, seen_category, is_seen, worst_category,
  script_selection_category,
}
use reconkg.Commands.Resolve.Worst.{is_firing_tag, selects_firing, script_selection_category-firing}
use reconkg.Commands.Build.{nmap_commands, metasploit_commands}
use reconkg.Commands.Build.Sound.{IsSound, Ensures}
use reconkg.Commands.Build.Scripts.{IsScan, nmap_commands_inv}
use reconkg.Commands.Build.Metasploit.{IsSafe, metasploit_commands-IsSafe}
use reconkg.Commands.Policy.{held, filter_commands, permitted_by}
use reconkg.Commands.Policy.Filter.{Keeps, Selects, filter_commands_iff}

abbrev target : Text
target = codes "10.0.0.5"

abbrev module_path : Text
module_path = codes "auxiliary/scanner/ssh/ssh_version"

metasploit_commands-IsSafe_example :
    Ensures
      (All IsSafe)
      (metasploit_commands module_path target (some 22) (member safe) (codes "metasploit"))
metasploit_commands-IsSafe_example =
    metasploit_commands-IsSafe module_path target (some 22) (member safe) (codes "metasploit")

-- The command text that is composed for it.
abbrev scanner : Command
scanner = record {
  tool = codes "msfconsole";
  category = safe;
  argv = some (
      codes "msfconsole"
      ∷ codes "-q"
      ∷ codes "-x"
      ∷ codes
          "use auxiliary/scanner/ssh/ssh_version; set RHOSTS 10.0.0.5; set RPORT 22; show options"
      ∷ []);
  reference = [];
  source = codes "metasploit";
}

composed_text :
    metasploit_commands module_path target (some 22) (member safe) (codes "metasploit")
    ≡ ok (scanner ∷ [])
unfolding metasploit_commands coerce_category Validate.validate_module_path Validate.or_violation
    strip Validate.full_match Validate.is_alnum Validate.is_path_char Validate.is_ascii_digit
    never_composed Build.metasploit_composed Build.refuse_firing_verbs Build.setup_steps Build.fires
    Build.is_firing_statement Build.split_statements Build.is_separator Build.verb_of
    Validate.split_words Build.rport Validate.show_number make_command clean_optional clean_argv
    checked join Build.first_or_empty lower text_eq reconkg.Commands.is_control
    reconkg.Commands.composed
composed_text = refl

abbrev declared : Dict Declared
declared =
    (codes "ssh-brute", many (spelled (codes "brute") ∷ []))
    ∷ (codes "ssl-heartbleed", many (spelled (codes "vuln") ∷ spelled (codes "safe") ∷ []))
    ∷ []

abbrev scripts : List Text
scripts = codes "ssh-brute.nse" ∷ codes "ssl-heartbleed" ∷ []

abbrev scanned : List Command
scanned =
    record {
      tool = codes "nmap";
      category = version;
      argv = some (codes "nmap" ∷ codes "-sV" ∷ codes "-p" ∷ codes "22" ∷ target ∷ []);
      reference = [];
      source = codes "nmap";
    }
    ∷ record {
      tool = codes "nmap";
      category = brute;
      argv = none;
      reference = codes "nmap NSE script ssh-brute";
      source = codes "nmap script.db";
    }
    ∷ record {
      tool = codes "nmap";
      category = vuln;
      argv = some (
          codes "nmap"
          ∷ codes "-p"
          ∷ codes "22"
          ∷ codes "--script"
          ∷ codes "ssl-heartbleed"
          ∷ target
          ∷ []);
      reference = [];
      source = codes "nmap script.db";
    }
    ∷ []

scans_made : nmap_commands target 22 scripts declared ≡ ok scanned
unfolding nmap_commands Validate.is_ascii_digit Validate.is_alnum Validate.is_path_char
    Validate.is_script_char Validate.full_match Validate.or_violation Validate.validate_module_path
    Validate.drop_nse Validate.script_text Validate.validate_script_name Validate.edb_text
    Validate.validate_edb_id Validate.blank_control Validate.flush Validate.split_words
    Validate.feed_argument Validate.show_digits Validate.show_number reconkg.Commands.Resolve.token
    reconkg.Commands.Resolve.normalise_categories reconkg.Commands.Resolve.or_unclassified
    reconkg.Commands.Resolve.seen_category reconkg.Commands.Resolve.same_category
    reconkg.Commands.Resolve.is_seen reconkg.Commands.Resolve.worst_safety
    reconkg.Commands.Resolve.worst_seen reconkg.Commands.Resolve.worst_category
    reconkg.Commands.Resolve.own_tokens reconkg.Commands.Resolve.script_selection_category
    reconkg.Commands.Resolve.Worst.harsh reconkg.Commands.Resolve.Worst.selects_firing
    Build.nmap_scripts Build.nmap_script Build.declared_for make_command coerce_category
    clean_optional clean_argv checked never_composed text_eq lower strip reconkg.Commands.is_control
    reconkg.Commands.composed ends_with reconkg.Base.Dict.get reconkg.Commands.value category_of
scans_made = refl

nmap_commands_inv_example : All IsSound scanned × IsScan target 22 declared scripts scanned
nmap_commands_inv_example = nmap_commands_inv target 22 scripts declared scanned scans_made

abbrev named : Command
named = record {
  tool = codes "msfconsole";
  category = exploit;
  argv = none;
  reference = codes "metasploit module exploit/x";
  source = codes "metasploit";
}

abbrev scan : Command
scan = record {
  tool = codes "nmap";
  category = vuln;
  argv = some (codes "nmap" ∷ target ∷ []);
  reference = [];
  source = codes "nmap";
}

scan-IsSound : IsSound scan
unfolding never_composed reconkg.Commands.composed reconkg.Commands.is_control
scan-IsSound = record { boundary = refl; named = refl; clean = refl }

named-IsSound : IsSound named
unfolding never_composed reconkg.Commands.composed
named-IsSound = record { boundary = refl; named = refl; clean = refl }

filter_commands_iff_example :
    (filter_commands (map held (scan ∷ named ∷ [])) (some (member vuln ∷ []))
      ≡ ok (map held (scan ∷ named ∷ [])))
    ↔ ((permitted : Category → Bool) × (permitted_by (some (member vuln ∷ [])) ≡ ok permitted)
        × All Keeps (map held (scan ∷ named ∷ []))
        × Selects permitted (map held (scan ∷ named ∷ [])) (map held (scan ∷ named ∷ [])))
filter_commands_iff_example =
    filter_commands_iff (map held (scan ∷ named ∷ [])) (some (member vuln ∷ []))
      (map held (scan ∷ named ∷ []))

abbrev tags : List Text
tags = codes "safe" ∷ codes "vuln" ∷ codes "brute" ∷ []

resolved :
    script_selection_category (codes "ssh-brute.nse") (many (spelled (codes "brute") ∷ []))
    ≡ ok brute
unfolding script_selection_category Validate.validate_script_name script_text Validate.drop_nse
    Validate.or_violation strip lower text_eq Validate.full_match normalise_categories
    worst_category Resolve.own_tokens seen_category Resolve.worst_seen Resolve.or_unclassified
    category_of ends_with Validate.is_alnum Validate.is_script_char Validate.split_words replace
    is_seen
resolved = refl

script_selection_category-firing_example :
    never_composed brute
    ≡ any is_firing_tag (normalise_categories (many (spelled (codes "brute") ∷ [])))
      || selects_firing (lower (script_text (codes "ssh-brute.nse")))
script_selection_category-firing_example =
    script_selection_category-firing (codes "ssh-brute.nse") (many (spelled (codes "brute") ∷ []))
      brute resolved
