-- ===== src/Planner/Tests.antt =====
-- Runs of reconkg/planner.py.
use reconkg.Base.{◌++◌, ℕ, Bool, true, false, none, some, [], ◌∷◌, All, any, ◌≡◌}
use reconkg.Base.Sort.{IsOrdered, at_weight}
use reconkg.Base.Text.{Text, codes, text_eq}
use reconkg.Cpe.Applicability.{product_version}
use reconkg.Models.{Provenance, GraphNode}
use reconkg.Models.Graph.{
  Fingerprint, VulnLead, Service, filtered, open_port, tcp, Host, iter_services,
}
use reconkg.Vulnref.{functional, no_statement_matched}
use reconkg.Planner.{port_gaps, fingerprint_gaps, lead_actions, plan}
use reconkg.Planner.Order.{priority_of, plan-IsOrdered}
use reconkg.Planner.Assigned.{IsSafeStep, plan-IsSafe}
use reconkg.Planner.Handed.{hands, plan-hands}

abbrev seen : Provenance
seen = record {
  source_tool = codes "nmap-sV";
  principal = codes "ada";
  observed_at = 1;
  confidence = 8000;
  declared_confidence = none;
  note = none;
}

abbrev node : GraphNode
node = record { provenance = seen; provenance_log = seen ∷ []; elided_observations = 0 }

abbrev apache : Fingerprint
apache = record {
  id = codes "f1";
  node = node;
  product = some (codes "Apache");
  version = none;
  cpe = none;
  raw_banner = none;
  ambiguous = false;
}

abbrev traversal : VulnLead
traversal = record {
  node = node;
  cve_id = codes "CVE-2021-41773";
  title = codes "traversal";
  cvss = 75;
  exploit_maturity = functional;
  matched_fingerprint_id = codes "f1";
  rationale = record {
    reason = no_statement_matched;
    notes = [];
    disputed = false;
    backport_marker = none;
    exploitation = [];
    method = product_version;
  };
  priority = 4000;
}

abbrev web : Service
web = record {
  node = node;
  name = codes "http";
  tunnel = none;
  fingerprints = apache ∷ [];
  leads = traversal ∷ [];
}

abbrev host : Host
host = record {
  node = node;
  address = codes "10.0.0.5";
  hostnames = [];
  os_guess = none;
  ports =
      record { node = node; number = 22; protocol = tcp; state = filtered; service = none }
      ∷ record { node = node; number = 80; protocol = tcp; state = open_port; service = some web }
      ∷ [];
}

abbrev deep_only : Text → Bool
deep_only = text_eq (codes "recon/fingerprint/deep_probe")

plan-IsOrdered_example :
    IsOrdered priority_of (plan deep_only 4500 host)
    × ((p : ℕ)
        → at_weight priority_of p (plan deep_only 4500 host)
          ≡ at_weight priority_of p (port_gaps deep_only 4500 host.address host.ports)
            ++ (at_weight priority_of p
                  (fingerprint_gaps deep_only 4500 host.address (iter_services host.ports))
                ++ at_weight priority_of p
                    (lead_actions deep_only 4500 host.address (iter_services host.ports))))
plan-IsOrdered_example = plan-IsOrdered deep_only 4500 host

plan-IsSafe_example : All (IsSafeStep deep_only 4500) (plan deep_only 4500 host)
plan-IsSafe_example = plan-IsSafe deep_only 4500 host

plan-hands_example :
    All
      (λ (port, service).
        All (λ lead. any (hands port lead) (plan deep_only 4500 host) ≡ true) service.leads)
      (iter_services host.ports)
plan-hands_example = plan-hands deep_only 4500 host
