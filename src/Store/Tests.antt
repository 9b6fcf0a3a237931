-- ===== src/Store/Tests.antt =====
-- Runs of reconkg/store.py.
use reconkg.Base.{ℕ, ◌/◌, ◌<◌, false, none, some, List, [], ◌∷◌, ◌++◌, ◌≡◌, ◌⊎◌}
use reconkg.Base.Text.{Text, codes}
use reconkg.Auth.Samples.{sample_ip, given_address, sample_ip-IsAddressText}
use reconkg.Cpe.Applicability.{product_version}
use reconkg.Models.{Provenance, GraphNode}
use reconkg.Models.Graph.{Fingerprint, VulnLead, Service, Port, open_port, tcp}
use reconkg.Vulnref.{functional, no_statement_matched}
use reconkg.Store.{Stamp, new_store}
use reconkg.Store.Announced.{
  Op, host_ensured, hostnames_given, port_given, service_given, fingerprint_given,
  confidence_lowered, lead_given, apply, apply_all, history, IsTold, apply-announced,
  apply_all-refines,
}
use reconkg.Store.Steps.{Shows}
use reconkg.Store.Graph.{IsGraph}
use reconkg.Store.Graph.Kept.{apply_all-IsGraph}

abbrev floor4 : ℕ → ℕ
floor4 n = n / 10000

abbrev at : ℕ → Stamp
at n = record { event_id = codes "e"; ts = n }

abbrev seen : Provenance
seen = record {
  source_tool = codes "nmap-sV";
  principal = codes "ada";
  observed_at = 1;
  confidence = 8000;
  declared_confidence = none;
  note = none;
}

abbrev node : GraphNode
node = record { provenance = seen; provenance_log = seen ∷ []; elided_observations = 0 }

abbrev web_port : Port
web_port = record { node = node; number = 80; protocol = tcp; state = open_port; service = none }

abbrev web : Service
web = record { node = node; name = codes "http"; tunnel = none; fingerprints = []; leads = [] }

abbrev apache : Fingerprint
apache = record {
  id = codes "f1";
  node = node;
  product = some (codes "Apache");
  version = some (codes "2.4.49");
  cpe = none;
  raw_banner = none;
  ambiguous = false;
}

abbrev traversal : VulnLead
traversal = record {
  node = node;
  cve_id = codes "CVE-2021-41773";
  title = codes "traversal";
  cvss = 75;
  exploit_maturity = functional;
  matched_fingerprint_id = codes "f1";
  rationale = record {
    reason = no_statement_matched;
    notes = [];
    disputed = false;
    backport_marker = none;
    exploitation = [];
    method = product_version;
  };
  priority = 4000;
}

abbrev lab : Text
lab = codes "lab5"

abbrev ops : List Op
ops =
    host_ensured (at 1) lab seen
    ∷ host_ensured (at 10) given_address seen
    ∷ host_ensured (at 11) (given_address ++ 13 ∷ 10 ∷ []) seen
    ∷ hostnames_given (at 2) (at 3) (codes " LAB5 ") (codes "www.lab" ∷ []) seen
    ∷ port_given (at 4) lab web_port
    ∷ service_given (at 5) lab 80 web tcp
    ∷ fingerprint_given (at 6) lab 80 apache tcp
    ∷ lead_given (at 7) lab 80 traversal tcp
    ∷ lead_given (at 8) lab 80 traversal tcp
    ∷ confidence_lowered (at 9) lab 80 (codes "f1") 5000 (codes "stale") (codes "engine") tcp
    ∷ []

apply-announced_example :
    (apply floor4 sample_ip (host_ensured (at 1) lab seen) new_store ≡ new_store)
    ⊎ (new_store.events_emitted
        < (apply floor4 sample_ip (host_ensured (at 1) lab seen) new_store).events_emitted)
apply-announced_example = apply-announced floor4 sample_ip (host_ensured (at 1) lab seen) new_store

apply_all-refines_example :
    Shows (history floor4 sample_ip ops new_store) (apply_all floor4 sample_ip ops new_store)
    × IsTold floor4 sample_ip ops new_store
apply_all-refines_example = apply_all-refines floor4 sample_ip ops

apply_all-IsGraph_example : IsGraph (apply_all floor4 sample_ip ops new_store)
apply_all-IsGraph_example =
    apply_all-IsGraph floor4 sample_ip sample_ip-IsAddressText ops
      (tt, (tt, (tt, (tt, (tt, ((tt, tt), (tt, (tt, (tt, (tt, tt))))))))))
