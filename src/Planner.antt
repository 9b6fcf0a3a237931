-- ===== src/Planner.antt =====
-- reconkg/planner.py: the gaps of a host and the recommendations for them. A priority is a number of 1/20000,
-- so that half of a lead's priority is exact. `reason` and `detail` are one constructor, with the values that
-- they quote. The table of modules is the test `registered`: whether `registry.get` finds a name.
pub mod Order
pub mod Assigned
pub mod Handed
mod Tests
use reconkg.Base.{
  ℕ, ◌==◌, ◌+◌, Bool, true, false, ◌&&◌, ◌||◌, not, Option, none, some, List, [], ◌∷◌, ◌++◌, map,
  if◌then◌else◌, leb, ltb, is_empty, any, length,
}
use reconkg.Base.Text.{Text, codes, text_eq, join, replace, strip}
use reconkg.Base.Sort.{sort}
use reconkg.Models.{GraphNode}
use reconkg.Models.Graph.{
  Fingerprint, VulnLead, Service, Port, PortState, open_port, closed, filtered, unknown, Protocol,
  Host, key, contradictions, iter_services,
}
use reconkg.Vulnref.{or_empty}
use reconkg.Store.{sorted_set, tools}

pub data Gap : Type 0 where
  no_service no_fingerprint ambiguous_version below_floor uncorroborated : Gap
  no_web_fingerprint filtered_port contradiction lead_ready : Gap

pub data Action : Type 0 where
  run_module resolve_conflict submit_independent_evidence handoff : Action

pub data Detail : Type 0 where
  of_port : Detail
  of_service : (name : Text) → Detail
  of_claim : (key : Text) (confidence : ℕ) → Detail
  of_conflict :
      (a b : Text) (a_confidence b_confidence : ℕ) (a_principals b_principals : List Text) → Detail
  of_submitters : (key : Text) (principals : List Text) → Detail
  of_lead : VulnLead → Detail

pub record Recommendation : Type 0 where
  pub gap : Gap
  pub target : Text
  pub detail : Detail
  pub action : Action
  pub module_name : Option Text
  pub options : List (Text × Text)
  pub port : ℕ
  pub protocol : Protocol
  pub priority : ℕ

-- `MODULE_FOR_GAP`.
unfoldable pub module_for_gap : Gap → Option Text
module_for_gap no_service = some (codes "recon/fingerprint/banner_probe")
module_for_gap no_fingerprint = some (codes "recon/fingerprint/banner_probe")
module_for_gap ambiguous_version = some (codes "recon/fingerprint/deep_probe")
module_for_gap below_floor = some (codes "recon/fingerprint/deep_probe")
module_for_gap no_web_fingerprint = some (codes "recon/http/app_fingerprint")
module_for_gap filtered_port = some (codes "recon/discovery/connect_sweep")
module_for_gap _ = none

unfoldable pub without_system : List Text → List Text
without_system [] = []
without_system (p ∷ ps) =
    let rest = without_system ps in if text_eq p (codes "system") then rest else p ∷ rest

-- `corroborating_principals`, sorted.
unfoldable pub principals : GraphNode → List Text
principals node = sorted_set (map (λ p. p.principal) node.provenance_log)

unfoldable pub is_web : Text → Bool
is_web name =
    text_eq name (codes "http") || text_eq name (codes "https") || text_eq name (codes "http-alt")

unfoldable pub has_whatweb : List Fingerprint → Bool
has_whatweb = any (λ f. any (text_eq (codes "whatweb")) (tools f.node))

abbrev pub highest_handoff : ℕ
highest_handoff = 19000

-- `min(0.95, 0.5 + lead.priority / 2)`; the priority of a lead is in 1/10000.
unfoldable pub handoff_priority : ℕ → ℕ
handoff_priority p = if leb highest_handoff (10000 + p) then highest_handoff else 10000 + p

-- The lookup in the table and in the registry.
module _ (registered : Text → Bool) (floor : ℕ) where
  unfoldable pub assign_name : Option Text → Option Text
  assign_name none = none
  assign_name (some name) = if registered name then some name else none

  unfoldable pub assign : Gap → Option Text
  assign gap = assign_name (module_for_gap gap)

  abbrev recon : Gap → (address : Text) → Port → ℕ → Detail → Recommendation
  recon gap address port priority detail = record {
    gap = gap;
    target = address;
    detail = detail;
    action = run_module;
    module_name = assign gap;
    options = (codes "RHOST", address) ∷ [];
    port = port.number;
    protocol = port.protocol;
    priority = priority;
  }

  unfoldable pub open_gap : (address : Text) → Port → Option Service → List Recommendation
  open_gap address port none = recon no_service address port 18000 of_port ∷ []
  open_gap address port (some service) =
      if is_empty service.fingerprints
      then recon no_fingerprint address port 16000 (of_service service.name) ∷ []
      else []

  unfoldable pub port_gap : (address : Text) → Port → PortState → List Recommendation
  port_gap address port filtered = recon filtered_port address port 8000 of_port ∷ []
  port_gap address port open_port = open_gap address port port.service
  port_gap address port closed = []
  port_gap address port unknown = []

  unfoldable pub port_gaps : (address : Text) → List Port → List Recommendation
  port_gaps address [] = []
  port_gaps address (p ∷ ps) = port_gap address p p.state ++ port_gaps address ps

  unfoldable pub web_gap : (address : Text) → Port → Service → List Recommendation
  web_gap address port service =
      if is_web service.name
        && not (has_whatweb service.fingerprints)
        && not (is_empty service.fingerprints)
      then recon no_web_fingerprint address port 11000 (of_service service.name) ∷ []
      else []

  unfoldable pub conflict_gaps :
      (address : Text) → Port → List (Fingerprint × Fingerprint) → List Recommendation
  conflict_gaps address port [] = []
  conflict_gaps address port ((a, b) ∷ conflicts) =
      record (recon contradiction address port 17600 (
        of_conflict (key a) (key b) a.node.provenance.confidence b.node.provenance.confidence
          (principals a.node) (principals b.node))) {
            action = resolve_conflict;
            module_name = assign ambiguous_version;
          }
      ∷ conflict_gaps address port conflicts

  -- One round of the loop over the fingerprints of a service.
  unfoldable pub fingerprint_gap : (address : Text) → Port → Fingerprint → List Recommendation
  fingerprint_gap address port f =
      let confidence = f.node.provenance.confidence in
      let submitters = without_system (principals f.node) in
      if f.ambiguous || is_empty (or_empty f.version)
      then recon ambiguous_version address port 17000 (of_claim (key f) confidence) ∷ []
      else if ltb confidence floor
      then recon below_floor address port 14000 (of_claim (key f) confidence) ∷ []
      else if ltb (length submitters) 2
      then record (recon uncorroborated address port 9000 (of_submitters (key f) submitters)) {
        action = submit_independent_evidence;
        module_name = none;
        options = [];
      }
        ∷ []
      else []

  unfoldable pub each_fingerprint : (address : Text) → Port → List Fingerprint → List Recommendation
  each_fingerprint address port [] = []
  each_fingerprint address port (f ∷ fs) =
      fingerprint_gap address port f ++ each_fingerprint address port fs

  unfoldable pub fingerprint_gaps : (address : Text) → List (Port × Service) → List Recommendation
  fingerprint_gaps address [] = []
  fingerprint_gaps address ((port, service) ∷ rest) =
      web_gap address port service
      ++ (conflict_gaps address port (contradictions floor service)
          ++ (each_fingerprint address port service.fingerprints ++ fingerprint_gaps address rest))

  unfoldable pub lead_action : (address : Text) → Port → VulnLead → Recommendation
  lead_action address port lead =
      record (recon lead_ready address port (handoff_priority lead.priority) (of_lead lead)) {
        action = handoff;
        module_name = none;
        options = [];
      }

  unfoldable pub lead_actions : (address : Text) → List (Port × Service) → List Recommendation
  lead_actions address [] = []
  lead_actions address ((port, service) ∷ rest) =
      map (lead_action address port) service.leads ++ lead_actions address rest

  unfoldable pub gaps : Host → List Recommendation
  gaps host =
      port_gaps host.address host.ports
      ++ (fingerprint_gaps host.address (iter_services host.ports)
          ++ lead_actions host.address (iter_services host.ports))

  unfoldable pub plan : Host → List Recommendation
  plan host = sort (λ r. r.priority) (gaps host)

-- `detail.get("cve_id", "")`.
unfoldable pub cve_of : Detail → Text
cve_of (of_lead lead) = lead.cve_id
cve_of _ = []

unfoldable pub show_sets : List (Text × Text) → List Text
show_sets [] = []
show_sets ((k, v) ∷ options) = (codes "set " ++ k ++ b' ' ∷ v) ∷ show_sets options

-- `text.replace(" ;", ";")`.
unfoldable pub tight : Text → Text
tight [] = []
tight (c ∷ []) = c ∷ []
tight (c ∷ d ∷ s) = let rest = tight (d ∷ s) in if c == b' ' && d == b';' then rest else c ∷ rest

unfoldable pub hand : Recommendation → Text
hand r = strip (codes "handoff " ++ cve_of r.detail)

unfoldable pub use_of : Recommendation → Option Text → Text
use_of r none = hand r
use_of r (some name) =
    if is_empty name
    then hand r
    else tight (
        codes "use "
        ++ name
        ++ codes "; "
        ++ join (codes " ") (show_sets r.options)
        ++ codes "; run")

-- `Recommendation.command`.
unfoldable pub command : Recommendation → Text
command r = elim r.action [ run_module ↦ use_of r r.module_name | _ ↦ hand r ]
