-- ===== src/Leads.antt =====
-- reconkg/vulnref.py: the leads of a fingerprint. Prices are whole numbers: a CVSS score in tenths, a weight of
-- a maturity in tenths, a confidence and a priority in 1/10000, a bonus in 1/1000, and the other factors in
-- 1/100. `round(x / scale, 4)` on floats is the parameter `rounded`; what the feeds of exploitation say of an
-- identifier is an argument, a factor in 1/10000 and a text.
pub mod Ranked
mod Tests
use reconkg.Base.{
  ℕ, ◌+◌, ◌-◌, ◌*◌, Bool, true, false, ◌&&◌, not, Option, none, some, List, [], ◌∷◌, ◌++◌, map,
  if◌then◌else◌, leb, ltb, is_empty, length, take, ◌==◌,
}
use reconkg.Base.Text.{Text, codes}
use reconkg.Base.Sort.{sort}
use reconkg.Cpe.Applicability.{MatchMethod, cpe_exact, cpe_range, product_version, product_only}
use reconkg.Cpe.Backport.{looks_backported}
use reconkg.Models.{Provenance, GraphNode, new_node, lower_of, certain}
use reconkg.Models.Graph.{Fingerprint, VulnLead, Rationale}
use reconkg.Vulnref.{ExploitMaturity, Claim, VulnEntry, Match, or_empty, entry_matches}
use reconkg.Catalog.{ExploitCatalog, infer_maturity, maturity_weight}
use reconkg.Planner.{principals, without_system}

pub record CorrelationConfig : Type 0 where
  pub min_confidence : ℕ
  pub include_unversioned : Bool
  pub max_leads_per_service : ℕ
  pub backport_penalty : ℕ
  pub contradiction_penalty : ℕ

-- `Signals.factor` and `Signals.explain`.
pub record Signals : Type 0 where
  pub factor : Text → ℕ
  pub explain : Text → Text

unfoldable pub claim_of : Fingerprint → Claim
claim_of f = record { product = f.product; version = f.version; cpe = f.cpe }

unfoldable pub method_weight : MatchMethod → ℕ
method_weight cpe_exact = 100
method_weight cpe_range = 95
method_weight product_version = 75
method_weight product_only = 30

unfoldable pub bonus_for : (submitters : ℕ) → ℕ
bonus_for n = if n == 0 then 1000 else lower_of (1000 + 125 * (n - 1)) 1250

-- `_corroboration_bonus`.
unfoldable pub corroboration_bonus : Fingerprint → ℕ
corroboration_bonus f = bonus_for (length (without_system (principals f.node)))

unfoldable pub version_penalty : Fingerprint → ℕ
version_penalty f = if is_empty (or_empty f.version) then 35 else 100

-- 10 * 10 * 10 * 10000 * 1000 * 100 * 100: a CVSS score of 10 in tenths over 10, and the other units.
abbrev pub score_scale : ℕ
score_scale = 100000000000000

abbrev pub priority_scale : ℕ
priority_scale = 100000000

unfoldable pub method_of : Option MatchMethod → MatchMethod
method_of none = product_version
method_of (some m) = m

unfoldable pub maturity_of : Option ExploitCatalog → VulnEntry → ExploitMaturity
maturity_of none e = e.maturity
maturity_of (some catalog) e = infer_maturity catalog e.cve_id e.maturity

unfoldable pub explained : Option Signals → Text → Text
explained none cve = []
explained (some s) cve = s.explain cve

module _ (rounded : (scale x : ℕ) → ℕ) where
  unfoldable pub score : VulnEntry → Fingerprint → ExploitMaturity → (weight : ℕ) → ℕ
  score e f maturity weight = rounded score_scale (
      lower_of
        (e.cvss
          * maturity_weight maturity
          * f.node.provenance.confidence
          * corroboration_bonus f
          * version_penalty f
          * weight)
        score_scale)

  -- The factor of the feeds, and the two penalties.
  unfoldable pub with_signals : Option Signals → Text → ℕ → ℕ
  with_signals none cve p = p
  with_signals (some s) cve p = rounded priority_scale (lower_of (p * s.factor cve) priority_scale)

  unfoldable pub with_penalty : Bool → (penalty : ℕ) → ℕ → ℕ
  with_penalty true penalty p = rounded priority_scale (p * penalty)
  with_penalty false penalty p = p

  module _ (now : ℕ) (cfg : CorrelationConfig) (catalog : Option ExploitCatalog)
      (contradicted : Bool) (signals : Option Signals) where
    unfoldable pub has_mark : Option Text → Bool
    has_mark none = false
    has_mark (some m) = true

    unfoldable pub priority : Fingerprint → VulnEntry → MatchMethod → ℕ
    priority f e method = with_penalty contradicted cfg.contradiction_penalty (
        with_penalty (has_mark (looks_backported f.version f.raw_banner)) cfg.backport_penalty (
          with_signals signals e.cve_id (score e f (maturity_of catalog e) (method_weight method))))

    unfoldable pub new_lead : Fingerprint → VulnEntry → Match → VulnLead
    new_lead f e m = record {
      node =
          new_node
            (record {
              source_tool = codes "correlator";
              principal = codes "system";
              observed_at = now;
              confidence = f.node.provenance.confidence;
              declared_confidence = none;
              note = none;
            })
            [];
      cve_id = e.cve_id;
      title = e.title;
      cvss = e.cvss;
      exploit_maturity = maturity_of catalog e;
      matched_fingerprint_id = f.id;
      rationale = record {
        reason = m.reason;
        notes = e.notes;
        disputed = contradicted;
        backport_marker = looks_backported f.version f.raw_banner;
        exploitation = explained signals e.cve_id;
        method = method_of m.method;
      };
      priority = priority f e (method_of m.method);
    }

    -- The rounds of the loop that come to `leads.append`.
    unfoldable pub leads_of : Fingerprint → List VulnEntry → List VulnLead
    leads_of f [] = []
    leads_of f (e ∷ es) =
        let rest = leads_of f es in
        let m = entry_matches e (claim_of f) in
        if is_empty (or_empty f.version) && not cfg.include_unversioned
        then rest
        else if m.matched
        then new_lead f e m ∷ rest
        else rest

    unfoldable pub build_leads : Fingerprint → List VulnEntry → List VulnLead
    build_leads f reference =
        if ltb f.node.provenance.confidence cfg.min_confidence
        then []
        else take cfg.max_leads_per_service (sort (λ l. l.priority) (leads_of f reference))
