-- ===== src/Catalog/Tests.antt =====
-- Runs of reconkg/catalog.py.
use reconkg.Base.{
  ◌≤◌, true, false, Option, none, some, List, [], ◌∷◌, ◌++◌, any, ◌≡◌, ◌⊎◌, refl, arith,
}
use reconkg.Base.Text.{Text, codes, lower, text_eq}
use reconkg.Version.{is_digit}
use reconkg.Vulnref.{theoretical}
use reconkg.Catalog.{
  ExploitRecord, ExploitCatalog, new_catalog, add_record, records_for, is_from, normalise_cve,
  is_joiner, maturity_weight, infer_maturity,
}
use reconkg.Catalog.Identifier.{IsNumbered}
use reconkg.Catalog.Spelling.{normalise_cve-spelled}
use reconkg.Commands.Build.{fires}
use reconkg.Catalog.Oneliner.{msf_oneliner, msf_oneliner-fires}
use reconkg.Catalog.Maturity.{infer_maturity_bound}

abbrev traversal : Text
traversal = codes "CVE-2021-41773"

abbrev found : ExploitRecord
found = record {
  source = codes "metasploit";
  identifier = codes "exploit/multi/http/apache";
  title = codes "traversal";
  cves = traversal ∷ [];
  platform = [];
  kind = [];
  verified = false;
  rank = [];
  file_path = [];
  port = none;
  author = [];
}

abbrev catalog : ExploitCatalog
catalog = add_record found new_catalog

numbered : IsNumbered (codes "2021", codes "41773")
unfolding is_digit
numbered = record {
  year_digits = refl;
  year_length = refl;
  number_digits = refl;
  number_length = (omega arith, omega arith);
}

cve_word : text_eq (lower (codes "CvE")) (codes "cve") ≡ true
unfolding lower
cve_word = refl

joined : is_joiner b' ' ≡ true
unfolding is_joiner
joined = refl

normalise_cve-spelled_example :
    (normalise_cve (codes "CvE 202141773") ≡ some traversal)
    × (normalise_cve traversal ≡ some traversal)
    × (records_for catalog (codes "CvE 202141773") ≡ records_for catalog traversal)
normalise_cve-spelled_example =
    normalise_cve-spelled b'C' b'v' b'E' (codes " ") [] (codes "2021") (codes "41773") cve_word
      joined tt numbered catalog

infer_maturity_bound_example :
    (maturity_weight theoretical ≤ maturity_weight (infer_maturity catalog traversal theoretical))
    × ((any (is_from (codes "metasploit")) (records_for catalog traversal) ≡ false)
        ⊎ (maturity_weight (infer_maturity catalog traversal theoretical) ≡ 10))
infer_maturity_bound_example = infer_maturity_bound catalog traversal theoretical

abbrev bare_quote : Text → Text
bare_quote t = t

abbrev script : Text
script = codes "use exploit/multi/http/apache; set RHOSTS lab5; show options"

composed_line :
    msf_oneliner bare_quote found (codes "lab5") none []
    ≡ some (codes "msfconsole -q -x " ++ script)
unfolding msf_oneliner is_from reconkg.Catalog.Oneliner.line_for
    reconkg.Catalog.Oneliner.quoted_parts reconkg.Catalog.Oneliner.later_parts
    reconkg.Catalog.Oneliner.extra_steps reconkg.Commands.Validate.validate_module_path
    reconkg.Commands.Validate.full_match reconkg.Commands.Validate.or_violation
    reconkg.Commands.Validate.is_alnum reconkg.Commands.Validate.is_path_char
    reconkg.Commands.Build.refuse_firing_verbs fires reconkg.Commands.Build.is_firing_statement
    reconkg.Commands.Build.verb_of reconkg.Commands.Build.split_statements
    reconkg.Commands.Build.is_separator reconkg.Commands.Build.rport
    reconkg.Commands.Validate.split_words reconkg.Base.Text.strip reconkg.Base.Text.lower
    reconkg.Base.Text.join
composed_line = refl

msf_oneliner-fires_example :
    (is_from (codes "metasploit") found ≡ true)
    × ((s : Text) × (codes "msfconsole -q -x " ++ script
          ≡ codes "msfconsole -q -x " ++ bare_quote s)
        × (fires s ≡ false))
msf_oneliner-fires_example =
    msf_oneliner-fires bare_quote found (codes "lab5") none [] (codes "msfconsole -q -x " ++ script)
      composed_line
