-- ===== src/Leads/Tests.antt =====
-- Runs of `build_leads` of reconkg/vulnref.py.
use reconkg.Base.{
  ℕ, ◌≤◌, false, none, some, List, [], ◌∷◌, if◌then◌else◌, leb, length, All, ◌≡◌, ◌⊎◌, arith,
}
use reconkg.Base.Sort.{IsOrdered}
use reconkg.Base.Text.{codes}
use reconkg.Models.{Provenance}
use reconkg.Models.Graph.{Fingerprint, VulnLead}
use reconkg.Vulnref.Reference.{default_reference}
use reconkg.Leads.{CorrelationConfig, build_leads}
use reconkg.Leads.Ranked.{IsLead, IsRounding, priority_of, build_leads-IsRanked}

abbrev seen : Provenance
seen = record {
  source_tool = codes "nmap-sV";
  principal = codes "ada";
  observed_at = 1;
  confidence = 8000;
  declared_confidence = none;
  note = none;
}

abbrev apache : Fingerprint
apache = record {
  id = codes "f1";
  node = record { provenance = seen; provenance_log = seen ∷ []; elided_observations = 0 };
  product = some (codes "Apache httpd");
  version = some (codes "2.4.49");
  cpe = none;
  raw_banner = none;
  ambiguous = false;
}

-- A rounding that only tells 0 from 1.
abbrev whole : (scale x : ℕ) → ℕ
whole scale x = if leb scale x then 10000 else 0

whole-IsRounding : IsRounding whole
whole-IsRounding scale x h = ground arith

abbrev cfg : CorrelationConfig
cfg = record {
  min_confidence = 4500;
  include_unversioned = false;
  max_leads_per_service = 12;
  backport_penalty = 2500;
  contradiction_penalty = 5000;
}

abbrev leads : List VulnLead
leads = build_leads whole 7 cfg none false none apache default_reference

build_leads-IsRanked_example :
    IsOrdered priority_of leads
    × (length leads ≤ 12)
    × All
        (IsLead whole whole-IsRounding 7 cfg none false none
          (omega arith)
          (omega arith)
          apache
          default_reference)
        leads
    × ((4500 ≤ 8000) ⊎ (leads ≡ []))
build_leads-IsRanked_example =
    build_leads-IsRanked whole whole-IsRounding 7 cfg none false none (omega arith) (omega arith)
      apache default_reference
