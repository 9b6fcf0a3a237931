-- ===== src/Cpe/Applicability/Window.antt =====
-- When an applicability statement matches: the window as a set of versions.
use reconkg.Base.{true, Option, none, some, ◌≡◌, ◌≢◌, arith, Ordering}
use reconkg.Base.Text.{Text}
use reconkg.Version.{compare_versions}
use reconkg.Version.Order.{Composes}
use reconkg.Version.Laws.{compare_versions-Composes}
use reconkg.Cpe.Applicability.{CpeRange, within_window}

-- A bound that is absent holds; one that is there stands in its relation to the version.
abbrev pub Holds : (Ordering → Type 0) → Text → Option Text → Type 0
Holds R version none = Unit
Holds R version (some b) = R (compare_versions version b)

abbrev pub IsNotBelow : Ordering → Type 0
IsNotBelow o = o ≢ Ordering.lt

abbrev pub IsAbove : Ordering → Type 0
IsAbove o = o ≡ Ordering.gt

abbrev pub IsNotAbove : Ordering → Type 0
IsNotAbove o = o ≢ Ordering.gt

abbrev pub IsBelow : Ordering → Type 0
IsBelow o = o ≡ Ordering.lt

-- The four bounds of NVD's `cpeMatch`, read as a set of versions.
pub record InWindow (r : CpeRange) (version : Text) : Type 0 where
  pub start_including : Holds IsNotBelow version r.version_start_including
  pub start_excluding : Holds IsAbove version r.version_start_excluding
  pub end_including : Holds IsNotAbove version r.version_end_including
  pub end_excluding : Holds IsBelow version r.version_end_excluding

pub within_window_sound : (r : CpeRange) (v : Text) → (within_window r v).0 ≡ true → InWindow r v
unfolding within_window
within_window_sound r v h = ground arith

pub within_window_complete : (r : CpeRange) (v : Text) → InWindow r v → (within_window r v).0 ≡ true
unfolding within_window
within_window_complete r v h = ground arith

Holds-mono :
    (R : Ordering → Type 0) (v w : Text) (o : Option Text)
    → ((b : Text) → R (compare_versions v b) → R (compare_versions w b))
    → Holds R v o
    → Holds R w o
Holds-mono R v w none f h = tt
Holds-mono R v w (some b) f h = f b h

raise_not_below :
    (p q r : Ordering) → Composes p q r → q ≢ Ordering.lt → p ≢ Ordering.lt → r ≢ Ordering.lt
raise_not_below p q r c h k = ground arith

raise_above :
    (p q r : Ordering) → Composes p q r → q ≡ Ordering.gt → p ≢ Ordering.lt → r ≡ Ordering.gt
raise_above p q r c h k = ground arith

lower_not_above :
    (p q r : Ordering) → Composes p q r → q ≢ Ordering.gt → p ≢ Ordering.gt → r ≢ Ordering.gt
lower_not_above p q r c h k = ground arith

lower_below :
    (p q r : Ordering) → Composes p q r → q ≡ Ordering.lt → p ≢ Ordering.gt → r ≡ Ordering.lt
lower_below p q r c h k = ground arith

-- A version between two versions of a window lies in the window.
pub InWindow-between :
    (r : CpeRange) (low v high : Text)
    → InWindow r low
    → InWindow r high
    → compare_versions v low ≢ Ordering.lt
    → compare_versions v high ≢ Ordering.gt
    → InWindow r v
InWindow-between r low v high l h above_low below_high = record {
  start_including =
      Holds-mono IsNotBelow low v r.version_start_including
        (λ b k.
          raise_not_below (compare_versions v low) _ _ (compare_versions-Composes v low b) k
            above_low)
        l.start_including;
  start_excluding =
      Holds-mono IsAbove low v r.version_start_excluding
        (λ b k.
          raise_above (compare_versions v low) _ _ (compare_versions-Composes v low b) k above_low)
        l.start_excluding;
  end_including =
      Holds-mono IsNotAbove high v r.version_end_including
        (λ b k.
          lower_not_above (compare_versions v high) _ _ (compare_versions-Composes v high b) k
            below_high)
        h.end_including;
  end_excluding =
      Holds-mono IsBelow high v r.version_end_excluding
        (λ b k.
          lower_below (compare_versions v high) _ _ (compare_versions-Composes v high b) k
            below_high)
        h.end_excluding;
}

-- The versions that pass the window are convex in the order of the comparison: a version that is not
-- below one that passes and not above another that passes passes as well.
pub within_window_between :
    (r : CpeRange) (low v high : Text)
    → (within_window r low).0 ≡ true
    → (within_window r high).0 ≡ true
    → compare_versions v low ≢ Ordering.lt
    → compare_versions v high ≢ Ordering.gt
    → (within_window r v).0 ≡ true
within_window_between r low v high l h above_low below_high = within_window_complete r v (
    InWindow-between r low v high (within_window_sound r low l) (within_window_sound r high h)
      above_low below_high)
