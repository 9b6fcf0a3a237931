-- ===== src/Sources/Trust.antt =====
-- reconkg/sources.py: how far evidence reaches, up to the leads that are built on it.
use reconkg.Base.{ℕ, ◌*◌, ◌≤◌, ◌<◌, Bool, true, Option, none, List, [], ltb, ◌≡◌, refl, arith}
use reconkg.Base.Text.{Text}
use reconkg.Base.Dict
use reconkg.Models.{certain}
use reconkg.Models.Graph.{Fingerprint}
use reconkg.Vulnref.{VulnEntry}
use reconkg.Catalog.{ExploitCatalog}
use reconkg.Leads.{CorrelationConfig, Signals, build_leads}
use reconkg.Leads.Ranked.{mul_bound, lower_of_bound}
use reconkg.Sources.{
  SourceRegistry, DeclaredScore, at_least_zero, below_zero, unregistered_reliability,
  reliability_in, reliability_of, clamped, effective_confidence,
}

clamped_bound : (declared : DeclaredScore) → clamped declared ≤ 10000
unfolding clamped
clamped_bound (at_least_zero n) = lower_of_bound n certain
clamped_bound (below_zero n) = omega arith

module _ (round4 : ℕ → ℕ) (within : (r x : ℕ) → x ≤ 10000 * r → round4 x ≤ r) where
  -- No evidence counts for more than the reliability of its tool.
  effective_confidence_bound :
      (registry : SourceRegistry) (tool : Text) (declared : DeclaredScore)
      → effective_confidence round4 registry tool declared ≤ reliability_of registry tool
  unfolding effective_confidence
  effective_confidence_bound registry tool declared = within (reliability_of registry tool) _ (
      mul_bound (clamped declared) (reliability_of registry tool) 10000
        (reliability_of registry tool) (clamped_bound declared) (omega arith))

  -- A fingerprint of which the confidence is what a tool outside the registry declared, clamped, has no leads,
  -- whatever was declared and whatever the reference holds, if the threshold is above 0.25; and no tool's
  -- evidence counts for more than its reliability. Rounding is taken to respect bounds of four places.
  pub build_leads-unregistered :
      (rounded : (scale x : ℕ) → ℕ) (now : ℕ) (cfg : CorrelationConfig)
      (catalog : Option ExploitCatalog) (contradicted : Bool) (signals : Option Signals)
      (registry : SourceRegistry) (tool : Text) (declared : DeclaredScore) (f : Fingerprint)
      (reference : List VulnEntry)
      → Dict.get registry tool ≡ none
      → unregistered_reliability < cfg.min_confidence
      → f.node.provenance.confidence ≡ effective_confidence round4 registry tool declared
      → (build_leads rounded now cfg catalog contradicted signals f reference ≡ [])
        × ((other : Text) (said : DeclaredScore)
            → effective_confidence round4 registry other said ≤ reliability_of registry other)
  unfolding build_leads reliability_of reliability_in
  build_leads-unregistered rounded now cfg catalog contradicted signals registry tool declared f
        reference n above same =
      let least : reliability_of registry tool ≡ unregistered_reliability = rw n refl in
      let low : effective_confidence round4 registry tool declared ≤ unregistered_reliability =
        omega (arith, least, effective_confidence_bound registry tool declared) in
      let weak : ltb f.node.provenance.confidence cfg.min_confidence ≡ true =
        ground (arith, above, same, low) in
      (rw weak refl, effective_confidence_bound registry)
