-- ===== src/Cpe/Applicability.antt =====
-- reconkg/cpe.py: comparison of attributes and `CPERange.matches`. A rationale is a constructor for
-- each message, with the values that the message quotes.
pub mod Window
pub mod Decision
use reconkg.Base.{
  Bool, true, false, not, ◌&&◌, ◌||◌, Option, none, some, List, [], ◌∷◌, ◌++◌, if◌then◌else◌,
  Ordering,
}
use reconkg.Base.Text.{Text, text_eq}
use reconkg.Version.{compare_versions, is_lt, is_eq, is_gt}
use reconkg.Cpe.{Cpe, any_value, has_version}

pub data MatchMethod : Type 0 where
  cpe_exact cpe_range product_version product_only : MatchMethod

pub data Relation : Type 0 where
  equal subset superset disjoint : Relation

unfoldable pub compare_attribute : Text → Text → Relation
compare_attribute source target =
    if text_eq source target
    then equal
    else if text_eq source any_value
    then superset
    else if text_eq target any_value
    then subset
    else disjoint

unfoldable pub admits : Relation → Bool
admits equal = true
admits superset = true
admits subset = false
admits disjoint = false

unfoldable pub attribute_matches : Text → Text → Bool
unfolding compare_attribute admits
attribute_matches criterion candidate = admits (compare_attribute criterion candidate)

pub record CpeRange : Type 0 where
  pub cpe : Cpe
  pub version_start_including : Option Text
  pub version_start_excluding : Option Text
  pub version_end_including : Option Text
  pub version_end_excluding : Option Text
  pub vulnerable : Bool

-- Python's truth of an optional text.
unfoldable pub truthy : Option Text → Bool
truthy none = false
truthy (some []) = false
truthy (some (c ∷ s)) = true

unfoldable pub has_window : CpeRange → Bool
unfolding truthy
has_window r =
    truthy r.version_start_including
    || truthy r.version_start_excluding
    || truthy r.version_end_including
    || truthy r.version_end_excluding

-- `>= v`, `> v`, `<= v`, `< v` in the list of the bounds that held.
pub data Bound : Type 0 where
  at_least above at_most below : Text → Bound

pub data Why : Type 0 where
  not_vulnerable : Why
  part_differs vendor_differs product_differs : (statement observed : Text) → Why
  no_observed_version : Why
  exact : (vendor product version : Text) → Why
  other_version : (observed statement : Text) → Why
  unconstrained : (vendor product : Text) → Why
  window_without_version : Why
  is_below not_above is_above not_below : (version bound : Text) → Why
  satisfies : (version : Text) (bounds : List Bound) → Why
  in_window : (vendor product : Text) → Why → Why

-- One `if` of `_within_window`: an absent bound is passed, one that fails ends with its message, and
-- one that holds is added to the list.
unfoldable pub check_bound :
    Option Text
    → (Text → Bool)
    → (Text → Why)
    → (Text → Bound)
    → List Bound
    → (List Bound → Bool × Why)
    → Bool × Why
check_bound none fails message bound bounds next = next bounds
check_bound (some b) fails message bound bounds next =
    if fails b then (false, message b) else next (bounds ++ bound b ∷ [])

unfoldable pub within_window : CpeRange → Text → Bool × Why
unfolding check_bound is_lt is_gt
within_window r version =
    check_bound r.version_start_including (λ b. is_lt (compare_versions version b))
      (is_below version) at_least []
      (λ s.
        check_bound r.version_start_excluding (λ b. not (is_gt (compare_versions version b)))
          (not_above version) above s
          (λ t.
            check_bound r.version_end_including (λ b. is_gt (compare_versions version b))
              (is_above version) at_most t
              (λ u.
                check_bound r.version_end_excluding (λ b. not (is_lt (compare_versions version b)))
                  (not_below version) below u (λ bounds. (true, satisfies version bounds)))))

pub record Outcome : Type 0 where
  pub matched : Bool
  pub method : Option MatchMethod
  pub rationale : Why

abbrev refused : Why → Outcome
refused why = record { matched = false; method = none; rationale = why }

abbrev accepted : MatchMethod → Why → Outcome
accepted method why = record { matched = true; method = some method; rationale = why }

-- What `matches` does with the answer of `_within_window`.
unfoldable pub after_window : Cpe → Bool × Why → Outcome
after_window observed (ok, why) =
    if ok then accepted cpe_range (in_window observed.vendor observed.product why) else refused why

-- The part of `matches` behind the comparison of part, vendor and product.
unfoldable pub match_version : CpeRange → Cpe → Outcome
unfolding is_eq after_window
match_version r observed =
    if has_version r.cpe && not (has_window r)
    then (if not (has_version observed)
        then refused no_observed_version
        else if is_eq (compare_versions observed.version r.cpe.version)
        then accepted cpe_exact (exact observed.vendor observed.product observed.version)
        else refused (other_version observed.version r.cpe.version))
    else if not (has_window r)
    then accepted product_only (unconstrained observed.vendor observed.product)
    else if not (has_version observed)
    then refused window_without_version
    else after_window observed (within_window r observed.version)

unfoldable pub matches : CpeRange → Cpe → Outcome
matches r observed =
    if not r.vulnerable
    then refused not_vulnerable
    else if not (attribute_matches r.cpe.part observed.part)
    then refused (part_differs r.cpe.part observed.part)
    else if not (attribute_matches r.cpe.vendor observed.vendor)
    then refused (vendor_differs r.cpe.vendor observed.vendor)
    else if not (attribute_matches r.cpe.product observed.product)
    then refused (product_differs r.cpe.product observed.product)
    else match_version r observed
