-- ===== src/Vulnref.antt =====
-- reconkg/vulnref.py: `VulnEntry.matches` with its product fallback, and the built-in reference.
pub mod Matching
pub mod Reference
mod Tests
use reconkg.Base.{
  ℕ, Bool, true, false, not, Option, none, some, List, [], ◌∷◌, if◌then◌else◌, is_empty, any, all,
}
use reconkg.Base.Text.{Text, codes, contains, lower, strip}
use reconkg.Version.{Satisfied, unparseable, unsupported, answer, version_satisfies}
use reconkg.Cpe.{Cpe, parse}
use reconkg.Cpe.Infer.{infer_cpe}
use reconkg.Cpe.Applicability.{
  MatchMethod, product_version, product_only, CpeRange, Outcome, Why, matches,
}

-- `ExploitMaturity` of reconkg/models.py.
pub data ExploitMaturity : Type 0 where
  not_defined theoretical proof_of_concept functional weaponised : ExploitMaturity

-- The fields of a fingerprint that matching reads.
pub record Claim : Type 0 where
  pub product : Option Text
  pub version : Option Text
  pub cpe : Option Text

-- `cvss` is in tenths.
pub record VulnEntry : Type 0 where
  pub cve_id : Text
  pub title : Text
  pub product_match : Text
  pub constraints : List (Text × Text)
  pub cvss : ℕ
  pub maturity : ExploitMaturity
  pub requires_version : Bool
  pub notes : Text
  pub cpe_ranges : List CpeRange
  pub handoff : List Text

-- The rationales of an entry, with what their texts quote.
pub data Reason : Type 0 where
  statement : Why → Reason
  no_statement_matched no_product_name no_fingerprint_product product_mismatch : Reason
  no_version_to_test version_unparseable : Reason
  version_unknown : Text → Reason
  outside_range : Text → Reason
  satisfies_span : (product version : Text) → List (Text × Text) → Reason

pub record Match : Type 0 where
  pub matched : Bool
  pub reason : Reason
  pub method : Option MatchMethod

-- `x or ""` for an optional text.
unfoldable pub or_empty : Option Text → Text
or_empty none = []
or_empty (some s) = s

-- `all(version_satisfies(...) for ...)`: stops at the first answer that is not true.
unfoldable pub all_satisfied : Text → List (Text × Text) → Satisfied
all_satisfied version [] = answer true
all_satisfied version ((op, bound) ∷ rest) = elim (version_satisfies version op bound) [
  | unparseable v ↦ unparseable v
  | unsupported o ↦ unsupported o
  | answer b ↦ elim b [ true ↦ all_satisfied version rest | false ↦ answer false ]
]

abbrev refuse : Reason → Bool × Reason
refuse why = (false, why)

-- The `try` block of `_product_match`: either error is caught.
unfoldable pub judge : VulnEntry → (product version : Text) → Satisfied → Bool × Reason
judge e product version (unparseable v) = refuse version_unparseable
judge e product version (unsupported o) = refuse version_unparseable
judge e product version (answer ok) =
    if ok
    then (true, satisfies_span product version e.constraints)
    else refuse (outside_range version)

unfoldable pub product_match : VulnEntry → Claim → Bool × Reason
product_match e fp =
    let criterion = lower (strip e.product_match) in
    let product = lower (or_empty fp.product) in
    let version = or_empty fp.version in
    if is_empty criterion
    then refuse no_product_name
    else if is_empty product
    then refuse no_fingerprint_product
    else if not (contains criterion product)
    then refuse product_mismatch
    else if is_empty version
    then (if e.requires_version
        then refuse no_version_to_test
        else (true, version_unknown (or_empty fp.product)))
    else judge e (or_empty fp.product) version (all_satisfied version e.constraints)

unfoldable pub with_method : Option Text → Bool × Reason → Match
with_method version (matched, why) =
    if not matched then record { matched = false; reason = why; method = none } else record {
      matched = true;
      reason = why;
      method = some (if is_empty (or_empty version) then product_only else product_version);
    }

-- The loop over the statements: the first that matches decides.
unfoldable pub first_statement : List CpeRange → Cpe → Match
first_statement [] observed = record {
  matched = false;
  reason = no_statement_matched;
  method = none;
}
first_statement (r ∷ rs) observed =
    let rest = first_statement rs observed in
    let o = matches r observed in
    if o.matched
    then record { matched = true; reason = statement o.rationale; method = o.method }
    else rest

-- `parse(fp.cpe) or infer_cpe(fp.product, fp.version)`.
unfoldable pub observed_cpe : Claim → Option Cpe
observed_cpe fp = elim (parse fp.cpe) [ none ↦ infer_cpe fp.product fp.version | some c ↦ some c ]

unfoldable pub match_entry : VulnEntry → Claim → Option Cpe → Match
match_entry e fp none = with_method fp.version (product_match e fp)
match_entry e fp (some observed) =
    if is_empty e.cpe_ranges
    then with_method fp.version (product_match e fp)
    else first_statement e.cpe_ranges observed

-- `VulnEntry.matches`.
unfoldable pub entry_matches : VulnEntry → Claim → Match
entry_matches e fp = match_entry e fp (observed_cpe fp)
