-- ===== src/Cpe/Applicability/Decision.antt =====
-- When an applicability statement matches an observed name, and what the returned method stands for.
use reconkg.Base.{Bool, true, false, some, ◌≡◌, ◌⊎◌, ◌↔◌, arith, Ordering}
use reconkg.Base.Text.{Text, eq_of_text_eq, text_eq_refl}
use reconkg.Version.{compare_versions}
use reconkg.Cpe.{Cpe, any_value, has_version}
use reconkg.Cpe.Applicability.{
  MatchMethod, cpe_exact, cpe_range, product_version, product_only, CpeRange, attribute_matches,
  has_window, match_version, matches,
}
use reconkg.Cpe.Applicability.Window.{InWindow, within_window_sound, within_window_complete}

-- A criterion covers the values equal to it, and ANY covers every value.
abbrev pub Covers : Text → Text → Type 0
Covers criterion candidate = (criterion ≡ candidate) ⊎ (criterion ≡ any_value)

attribute_matches_sound : (s t : Text) → attribute_matches s t ≡ true → Covers s t
unfolding attribute_matches
attribute_matches_sound s t h = ground (arith, eq_of_text_eq s t, eq_of_text_eq s any_value)

attribute_matches_complete : (s t : Text) → Covers s t → attribute_matches s t ≡ true
unfolding attribute_matches
attribute_matches_complete s t h = ground (arith, text_eq_refl s, text_eq_refl any_value)

-- What the statement asks of the version: a window that holds it, else the one version that it
-- names, else nothing.
abbrev pub VersionApplies : (window pinned : Bool) → CpeRange → Cpe → Type 0
VersionApplies true pinned r o = (has_version o ≡ true) × InWindow r o.version
VersionApplies false true r o =
    (has_version o ≡ true) × (compare_versions o.version r.cpe.version ≡ Ordering.eq)
VersionApplies false false r o = Unit

pub record Applies (r : CpeRange) (o : Cpe) : Type 0 where
  pub vulnerable : r.vulnerable ≡ true
  pub part : Covers r.cpe.part o.part
  pub vendor : Covers r.cpe.vendor o.vendor
  pub product : Covers r.cpe.product o.product
  pub version : VersionApplies (has_window r) (has_version r.cpe) r o

match_version_sound :
    (r : CpeRange) (o : Cpe)
    → (match_version r o).matched ≡ true
    → VersionApplies (has_window r) (has_version r.cpe) r o
unfolding match_version
match_version_sound r o h = ground (arith, within_window_sound r o.version)

match_version_complete :
    (r : CpeRange) (o : Cpe)
    → VersionApplies (has_window r) (has_version r.cpe) r o
    → (match_version r o).matched ≡ true
unfolding match_version
match_version_complete r o h = ground (arith, within_window_complete r o.version)

-- The guards of `matches`, all passed.
abbrev Passes : CpeRange → Cpe → Type 0
Passes r o =
    (r.vulnerable ≡ true)
    × (attribute_matches r.cpe.part o.part ≡ true)
    × (attribute_matches r.cpe.vendor o.vendor ≡ true)
    × (attribute_matches r.cpe.product o.product ≡ true)

matches_guards :
    (r : CpeRange) (o : Cpe)
    → (matches r o).matched ≡ true
    → Passes r o × ((match_version r o).matched ≡ true)
unfolding matches
matches_guards r o h = ground arith

matches_of_guards : (r : CpeRange) (o : Cpe) → Passes r o → matches r o ≡ match_version r o
unfolding matches
matches_of_guards r o (v, p, q, s) = rw (v, p, q, s)

-- A statement matches an observed name exactly when it is marked vulnerable, covers its part, vendor
-- and product, and the version is in the declared window, or is the declared one where there is no
-- window, or nothing is declared of it.
pub matches_iff : (r : CpeRange) (o : Cpe) → ((matches r o).matched ≡ true) ↔ Applies r o
matches_iff r o = (to, from)
  where
    to : (matches r o).matched ≡ true → Applies r o
    to h =
        let ((v, p, q, s), m) = matches_guards r o h in
        record {
          vulnerable = v;
          part = attribute_matches_sound r.cpe.part o.part p;
          vendor = attribute_matches_sound r.cpe.vendor o.vendor q;
          product = attribute_matches_sound r.cpe.product o.product s;
          version = match_version_sound r o m;
        }

    passes : Applies r o → Passes r o
    passes a = (
      a.vulnerable,
      attribute_matches_complete r.cpe.part o.part a.part,
      attribute_matches_complete r.cpe.vendor o.vendor a.vendor,
      attribute_matches_complete r.cpe.product o.product a.product,
    )

    from : Applies r o → (matches r o).matched ≡ true
    from a = rw (matches_of_guards r o (passes a)) (match_version_complete r o a.version)

-- What each method that `matches` returns stands for.
abbrev pub Stands : MatchMethod → CpeRange → Cpe → Type 0
Stands cpe_exact r o =
    (has_version o ≡ true) × (compare_versions o.version r.cpe.version ≡ Ordering.eq)
Stands cpe_range r o = (has_version o ≡ true) × InWindow r o.version
Stands product_only r o = (has_window r ≡ false) × (has_version r.cpe ≡ false)
Stands product_version r o = ⊥

match_version-method :
    (r : CpeRange) (o : Cpe) (m : MatchMethod) → (match_version r o).method ≡ some m → Stands m r o
unfolding match_version
match_version-method r o cpe_exact h = ground arith
match_version-method r o cpe_range h = ground (arith, within_window_sound r o.version)
match_version-method r o product_version h = ground arith
match_version-method r o product_only h = ground arith

matches-method_guards :
    (r : CpeRange) (o : Cpe) (m : MatchMethod)
    → (matches r o).method ≡ some m
    → (match_version r o).method ≡ some m
unfolding matches
matches-method_guards r o m h = ground arith

-- The method on a match is earned: exact only with an equal version, range only inside the window,
-- product only where the statement says nothing of the version, and never the substring method.
pub matches-method :
    (r : CpeRange) (o : Cpe) (m : MatchMethod) → (matches r o).method ≡ some m → Stands m r o
matches-method r o m h = match_version-method r o m (matches-method_guards r o m h)
