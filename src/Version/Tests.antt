-- ===== src/Version/Tests.antt =====
-- Runs of reconkg/vulnref.py's version comparison.
use reconkg.Base.{◌↔◌, any, true, false, ◌≡◌, ◌≢◌, refl, Ordering}
use reconkg.Base.Text.{Text, codes}
use reconkg.Version.{
  compare_versions, version_satisfies, is_digit, is_alpha, apply_op, ops, unparseable, answer,
}
use reconkg.Version.Order.{flip}
use reconkg.Version.Laws.{
  compare_versions-flip, compare_versions_trans, at_least, spell, Meets, version_satisfies_iff,
}

abbrev release : Text
release = codes "2.4.49"

abbrev candidate : Text
candidate = codes "2.4.49rc1"

abbrev next : Text
next = codes "2.4.50"

candidate_first : compare_versions candidate release ≡ Ordering.lt
unfolding compare_versions
candidate_first = refl

release_first : compare_versions release next ≡ Ordering.lt
unfolding compare_versions
release_first = refl

patch_first : compare_versions (codes "1.0.1g") (codes "1.0.1") ≡ Ordering.lt
unfolding compare_versions
patch_first = refl

unknown_build :
    version_satisfies (codes "unknown-build") (codes "<") (codes "2")
    ≡ unparseable (codes "unknown-build")
unfolding version_satisfies reconkg.Version.parse_version reconkg.Version.is_number
unknown_build = refl

not_gt : {o : Ordering} → o ≡ Ordering.lt → o ≢ Ordering.gt
not_gt e h = cc

compare_versions-flip_example :
    compare_versions release candidate ≡ flip (compare_versions candidate release)
compare_versions-flip_example = compare_versions-flip candidate release

compare_versions_trans_example : compare_versions candidate next ≢ Ordering.gt
compare_versions_trans_example =
    compare_versions_trans candidate release next (not_gt candidate_first) (not_gt release_first)

dot_not_alpha : is_alpha b'1' ≡ false
unfolding is_alpha
dot_not_alpha = refl

letter_alpha : is_alpha b'g' ≡ true
unfolding is_alpha
letter_alpha = refl

version_satisfies_iff_example :
    (version_satisfies release (spell at_least) next ≡ answer true)
    ↔ ((any is_digit release ≡ true) × Meets at_least (compare_versions release next))
version_satisfies_iff_example = version_satisfies_iff release next at_least
