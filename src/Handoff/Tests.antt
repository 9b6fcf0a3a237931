-- ===== src/Handoff/Tests.antt =====
-- Runs of reconkg/handoff.py.
use reconkg.Base.{ℕ, Bool, false, Option, none, some, List, [], ◌∷◌, map, All, ◌≡◌, ◌⊎◌, refl}
use reconkg.Base.Text.{Text, codes, text_eq}
use reconkg.Commands.{Category, Tag, spelled, Command, Refusal, ok, err}
use reconkg.Commands.Resolve.{absent, many}
use reconkg.Commands.Build.Sound.{IsSound}
use reconkg.Auth.Samples.{sample_ip, sample_address, sample_ip-IsAddressText}
use reconkg.Commands.Policy.{held, permitted_by}
use reconkg.Commands.Policy.Filter.{Selects}
use reconkg.Vulnref.Reference.{default_reference}
use reconkg.Auth.Address.{validate_address}
use reconkg.Handoff.{LedgerRow, Indices, gather_commands}
use reconkg.Handoff.Report.{Report, entries, build_handoff}
use reconkg.Handoff.Printed.{HasScans, build_handoff_total}

abbrev bare_quote : Text → Text
bare_quote t = t

abbrev row : LedgerRow
row = record {
  target = sample_address;
  port = 443;
  service = codes "https";
  product = some (codes "OpenSSL");
  version = some (codes "1.0.1f");
  cve_id = codes "CVE-2014-0160";
  maturity = codes "weaponised";
  fingerprint_confidence = 5000;
  independent_principals = codes "ada" ∷ [];
  disputed = false;
}

-- An index of scripts and modules, of which names are no names.
abbrev indices : Indices
indices = record {
  scripts = some (record {
    scripts_for = λ service cve. some (
        record { name = codes "ssl-heartbleed"; categories = many (spelled (codes "vuln") ∷ []) }
        ∷ record { name = codes "../evil;"; categories = absent }
        ∷ []);
    categories_for = λ name. absent;
  });
  catalog =
      some (λ cve. record { source = codes "metasploit"; identifier = codes "exploit/x" } ∷ []);
  exploits = some (λ cve. some (codes "32745" ∷ codes "; rm" ∷ []));
}

abbrev allowed : Option (List Tag)
allowed = some (spelled (codes "vuln") ∷ [])

row_validated : validate_address sample_ip (codes " FE80::1%eth0 ") ≡ some row.target
unfolding validate_address reconkg.Auth.Address.validate_candidate reconkg.Base.Text.strip
    reconkg.Auth.Address.is_low reconkg.Auth.Address.or_hostname
row_validated = refl

build_handoff_total_example :
    ((e : Refusal) × (permitted_by allowed ≡ err e)
      × (build_handoff bare_quote row (entries default_reference) indices allowed ≡ err e))
    ⊎ ((permitted : Category → Bool) × (permitted_by allowed ≡ ok permitted)
        × (out : List Command) × (gather_commands row indices ≡ ok out)
        × HasScans row indices out
        × (report : Report) × (build_handoff bare_quote row
              (entries default_reference)
              indices
              allowed
            ≡ ok report)
        × All IsSound out
        × Selects permitted (map held out) report.commands)
build_handoff_total_example =
    build_handoff_total sample_ip bare_quote sample_ip-IsAddressText (codes " FE80::1%eth0 ") row
      (entries default_reference) indices allowed row_validated
