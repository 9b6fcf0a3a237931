-- ===== src/Sources/Tests.antt =====
-- Runs of reconkg/sources.py.
use reconkg.Base.{ℕ, ◌*◌, ◌/◌, ◌≤◌, false, none, some, [], ◌∷◌, ◌≡◌, refl, arith}
use reconkg.Base.Text.{Text, codes}
use reconkg.Base.Dict
use reconkg.Models.{Provenance}
use reconkg.Models.Graph.{Fingerprint}
use reconkg.Vulnref.Reference.{default_reference}
use reconkg.Leads.{CorrelationConfig, build_leads}
use reconkg.Sources.{
  SourceProfile, SourceRegistry, DeclaredScore, at_least_zero, reliability_of, effective_confidence,
}
use reconkg.Sources.Trust.{build_leads-unregistered}

abbrev registry : SourceRegistry
registry = (codes "nmap-sV", record { tool = codes "nmap-sV"; reliability = 7500; note = [] }) ∷ []

abbrev floor4 : ℕ → ℕ
floor4 n = n / 10000

floor4_bound : (r x : ℕ) → x ≤ 10000 * r → floor4 x ≤ r
floor4_bound r x h = omega arith

abbrev whole : (scale x : ℕ) → ℕ
whole scale x = 0

abbrev rumour : Provenance
rumour = record {
  source_tool = codes "rumour";
  principal = codes "eve";
  observed_at = 1;
  confidence = 2500;
  declared_confidence = some 50000;
  note = none;
}

abbrev apache : Fingerprint
apache = record {
  id = codes "f1";
  node = record { provenance = rumour; provenance_log = rumour ∷ []; elided_observations = 0 };
  product = some (codes "Apache httpd");
  version = some (codes "2.4.49");
  cpe = none;
  raw_banner = none;
  ambiguous = false;
}

abbrev cfg : CorrelationConfig
cfg = record {
  min_confidence = 4500;
  include_unversioned = false;
  max_leads_per_service = 12;
  backport_penalty = 2500;
  contradiction_penalty = 5000;
}

stranger : Dict.get registry (codes "rumour") ≡ none
unfolding Dict.get
stranger = refl

told : 2500 ≡ effective_confidence floor4 registry (codes "rumour") (at_least_zero 50000)
unfolding effective_confidence reconkg.Sources.clamped reconkg.Models.lower_of reliability_of
    reconkg.Sources.reliability_in Dict.get
told = refl

build_leads-unregistered_example :
    (build_leads whole 7 cfg none false none apache default_reference ≡ [])
    × ((other : Text) (said : DeclaredScore)
        → effective_confidence floor4 registry other said ≤ reliability_of registry other)
build_leads-unregistered_example =
    build_leads-unregistered floor4 floor4_bound whole 7 cfg none false none registry
      (codes "rumour") (at_least_zero 50000) apache default_reference stranger (omega arith) told
