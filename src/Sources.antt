-- ===== src/Sources.antt =====
-- reconkg/sources.py: what a tool's word is worth. A reliability and a confidence are numbers of 1/10000; what a
-- submitter declares is an integer of that unit, of either sign.
pub mod Trust
mod Tests
use reconkg.Base.{
  ℕ, ◌*◌, Bool, true, false, ◌&&◌, Option, none, some, List, [], ◌∷◌, if◌then◌else◌, leb, ltb,
}
use reconkg.Base.Text.{Text, codes}
use reconkg.Base.Dict
use reconkg.Base.Dict.{Dict}
use reconkg.Models.{certain, lower_of}

abbrev pub unregistered_reliability : ℕ
unregistered_reliability = 2500

pub record SourceProfile : Type 0 where
  pub tool : Text
  pub reliability : ℕ
  pub note : Text

abbrev pub SourceRegistry : Type 0
SourceRegistry = Dict SourceProfile

-- A number that a submitter declares.
pub data DeclaredScore : Type 0 where
  at_least_zero : ℕ → DeclaredScore
  below_zero : ℕ → DeclaredScore

-- `SourceProfile(...)`; nothing where `__post_init__` raises.
unfoldable pub new_profile : Text → ℕ → Text → Option SourceProfile
new_profile tool reliability note =
    if ltb 0 reliability && leb reliability certain
    then some (record { tool = tool; reliability = reliability; note = note })
    else none

unfoldable pub register_profile :
    SourceRegistry → Text → Option SourceProfile → Option SourceRegistry
register_profile registry tool none = none
register_profile registry tool (some profile) = some (Dict.put registry tool profile)

unfoldable pub register : Text → ℕ → Text → SourceRegistry → Option SourceRegistry
register tool reliability note registry =
    register_profile registry tool (new_profile tool reliability note)

unfoldable pub reliability_in : Option SourceProfile → ℕ
reliability_in none = unregistered_reliability
reliability_in (some profile) = profile.reliability

unfoldable pub reliability_of : SourceRegistry → Text → ℕ
reliability_of registry tool = reliability_in (Dict.get registry tool)

-- `min(max(declared, 0.0), 1.0)`.
unfoldable pub clamped : DeclaredScore → ℕ
clamped (at_least_zero n) = lower_of n certain
clamped (below_zero n) = 0

module _ (round4 : ℕ → ℕ) where
  unfoldable pub effective_confidence : SourceRegistry → Text → DeclaredScore → ℕ
  effective_confidence registry tool declared =
      round4 (clamped declared * reliability_of registry tool)

unfoldable pub register_all : List (Text × ℕ × Text) → SourceRegistry → Option SourceRegistry
register_all [] registry = some registry
register_all ((tool, reliability, note) ∷ more) registry =
    elim (register tool reliability note registry) [
      | none ↦ none
      | some next ↦ register_all more next
    ]

unfoldable pub default_registry : Option SourceRegistry
default_registry =
    register_all
      ((codes "nmap-sS", 9500, codes "SYN sweep: reachability only")
        ∷ (codes "nmap-sT", 9500, codes "full connect: reachability only")
        ∷ (codes "nmap-sV", 7500, codes "banner grab: frequently ambiguous")
        ∷ (codes "nmap-sV-intensity9", 9000, codes "protocol-specific probing")
        ∷ (codes "whatweb", 8500, codes "http fingerprinting")
        ∷ (codes "operator", 10000, codes "asserted by a human operator")
        ∷ (codes "correlator", 10000, codes "internal")
        ∷ [])
      []
