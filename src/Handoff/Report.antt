-- ===== src/Handoff/Report.antt =====
-- reconkg/handoff.py: `build_handoff`, what is printed beside the commands of a lead. `shlex.quote` is the
-- parameter `quote`. A caveat is a constructor, with the values that its text quotes.
use reconkg.Base.{
  ℕ, Bool, true, false, ◌||◌, Option, none, some, List, [], ◌∷◌, ◌++◌, if◌then◌else◌, ltb, is_empty,
  length,
}
use reconkg.Base.Text.{Text, codes, text_eq, lower, strip, contains}
use reconkg.Commands.{Category, vuln, Tag, Result, ok, ◌>>=◌}
use reconkg.Commands.Validate.{show_number}
use reconkg.Commands.Policy.{Held, permitted_by}
use reconkg.Vulnref.{VulnEntry, or_empty}
use reconkg.Handoff.{LedgerRow, Indices, build_commands}

-- A resolver, of which `none` is a miss or a lookup that raises, or a list of entries.
pub data Reference : Type 0 where
  resolver : (Text → Option VulnEntry) → Reference
  entries : List VulnEntry → Reference

-- The first entry with an identifier; both are compared in one case.
unfoldable pub find_entry : (key : Text) → List VulnEntry → Option VulnEntry
find_entry key [] = none
find_entry key (e ∷ es) = if text_eq (lower e.cve_id) key then some e else find_entry key es

-- `_entry_for`.
unfoldable pub entry_for : Reference → Text → Option VulnEntry
entry_for (resolver lookup) cve_id = lookup cve_id
entry_for (entries es) cve_id = find_entry (lower (strip cve_id)) es

pub data Caveat : Type 0 where
  is_disputed one_submitter backports no_technique : Caveat
  low_confidence : ℕ → Caveat
  note : Text → Caveat

unfoldable pub when : {A : Type 0} → Bool → A → List A
when true a = a ∷ []
when false a = []

unfoldable pub note_of : Option VulnEntry → List Caveat
note_of none = []
note_of (some e) = if is_empty e.notes then [] else note e.notes ∷ []

-- `_caveats`; 0.6 is 6000 of 1/10000.
unfoldable pub caveats : LedgerRow → Option VulnEntry → List Caveat
caveats row entry =
    when row.disputed is_disputed
    ++ (when (ltb (length row.independent_principals) 2) one_submitter
        ++ (when (ltb row.fingerprint_confidence 6000) (low_confidence row.fingerprint_confidence)
            ++ (when (contains (codes "apache") (lower (or_empty row.product))) backports
                ++ (when
                      (text_eq row.maturity (codes "theoretical")
                        || text_eq row.maturity (codes "not_defined"))
                      no_technique
                    ++ note_of entry))))

unfoldable pub supplied : Option VulnEntry → List Text
supplied none = []
supplied (some e) = e.handoff

pub record Report : Type 0 where
  pub row : LedgerRow
  pub lookups : List Text
  pub references : List Text
  pub caveats : List Caveat
  pub operator_supplied : List Text
  pub commands : List Held

unfoldable pub references_of : Text → List Text
references_of cve_id =
    (codes "https://nvd.nist.gov/vuln/detail/" ++ cve_id)
    ∷ (codes "https://www.cve.org/CVERecord?id=" ++ cve_id)
    ∷ []

module _ (quote : Text → Text) where
  unfoldable pub quoted_product : LedgerRow → Text
  quoted_product row = quote (strip (or_empty row.product ++ b' ' ∷ or_empty row.version))

  unfoldable pub lookups_of : LedgerRow → (Category → Bool) → List Text
  lookups_of row permitted =
      (codes "searchsploit --cve " ++ quote row.cve_id)
        ∷ (if is_empty (quoted_product row)
            then []
            else (codes "searchsploit " ++ quoted_product row) ∷ [])
      ++ when (permitted vuln) (
          codes "nmap -sV -p "
          ++ (show_number row.port ++ (codes " --script vuln " ++ quote row.target)))

  unfoldable pub report_of : LedgerRow → Reference → (Category → Bool) → List Held → Report
  report_of row reference permitted commands = record {
    row = row;
    lookups = lookups_of row permitted;
    references = references_of row.cve_id;
    caveats = caveats row (entry_for reference row.cve_id);
    operator_supplied = supplied (entry_for reference row.cve_id);
    commands = commands;
  }

  unfoldable pub build_handoff : LedgerRow → Reference → Indices → Option (List Tag) → Result Report
  build_handoff row reference indices allowed = do
    permitted ← permitted_by allowed
    commands ← build_commands row indices allowed
    ok (report_of row reference permitted commands)
